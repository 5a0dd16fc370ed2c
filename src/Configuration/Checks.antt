-- ===== src/Configuration/Checks.antt =====
-- The checks of check_node in bingo/RabbitMQ/config, bingo/TCP/config and bingo/database/config, which
-- the readers of configurations share. An attribute that is missing ends a check with a message;
-- lexical_cast is a parameter, and `thrown` is its bad_lexical_cast.
use Prim.Native.String.{String}
use mathlib.Core.Path.{subst}
use bingo_v.Prelude.{◌≡◌, refl, sym, ◌∙◌, Option, none, some, List, [], ◌∷◌, first, Pairwise, arith}
use bingo_v.Bytes.{Bytes, codes, same}
use bingo_v.Configuration
use bingo_v.Configuration.{Node, attrs, find_attr}

-- What a check gives: a value, the message of an error, or an exception.
pub data Checked (A : Type 0) : Type 0 where
  ok : A → Checked A
  bad : String → Checked A
  thrown : Checked A

infixl 5 ◌>>=◌
abbrev pub ◌>>=◌ : {A B : Type 0} → Checked A → (A → Checked B) → Checked B
ok a >>= f = f a
bad s >>= f = bad s
thrown >>= f = thrown

-- if(item->attrs[name] == 0){ err_.err_message(message); return false; }
attr_of : Option Configuration.NodeAttr → String → Checked Bytes
attr_of none message = bad message
attr_of (some a) message = ok a.value

unfoldable pub attr : Node → String → String → Checked Bytes
unfolding attr_of attrs find_attr
attr item n message = attr_of (find_attr (attrs item) (codes n)) message

-- lexical_cast
abbrev pub cast : {A : Type 0} → Option A → Checked A
cast none = thrown
cast (some a) = ok a

-- A property of a value, if a check gives one.
abbrev pub IfOk : {A : Type 0} → (A → Type 0) → Checked A → Type 0
IfOk P (ok a) = P a
IfOk P (bad s) = Unit
IfOk P thrown = Unit

pub bind-IfOk :
    {A B : Type 0} (P : B → Type 0) (m : Checked A) (f : A → Checked B)
    → ((a : A) → IfOk P (f a))
    → IfOk P (m >>= f)
bind-IfOk P (ok a) f h = h a
bind-IfOk P (bad s) f h = tt
bind-IfOk P thrown f h = tt

-- The values of a list of items, if each passes its check.
abbrev pub check_all : {A B : Type 0} → (A → Checked B) → List A → Checked (List B)
check_all check [] = ok []
check_all check (a ∷ as_) = check a >>= λ b. check_all check as_ >>= λ bs. ok (b ∷ bs)

-- The same with what the first check gave.
pub bind-IfOk_from :
    {A B : Type 0} (P : B → Type 0) (m : Checked A) (f : A → Checked B)
    → ((a : A) → m ≡ ok a → IfOk P (f a))
    → IfOk P (m >>= f)
bind-IfOk_from P (ok a) f h = h a refl
bind-IfOk_from P (bad s) f h = tt
bind-IfOk_from P thrown f h = tt

pub cast-IfOk :
    {A B : Type 0} (P : B → Type 0) (o : Option A) (f : A → Checked B)
    → ((a : A) → o ≡ some a → IfOk P (f a))
    → IfOk P (cast o >>= f)
cast-IfOk P none f h = tt
cast-IfOk P (some a) f h = h a refl

-- The first attribute of a node with a name has a value.
abbrev pub HasAttr : Node → String → Bytes → Type 0
HasAttr n name v =
    (a : Configuration.NodeAttr) × (first (λ b. same b.name (codes name)) (attrs n) ≡ some a)
    × (a.value ≡ v)

find_attr-first :
    (as_ : List Configuration.NodeAttr) (name : Bytes)
    → find_attr as_ name ≡ first (λ b. same b.name name) as_
unfolding find_attr
find_attr-first [] name = refl
find_attr-first (a ∷ rest) name = ground (arith, find_attr-first rest name)

pub attr-HasAttr :
    (n : Node) (name message : String) (v : Bytes) → attr n name message ≡ ok v → HasAttr n name v
unfolding attr attr_of
attr-HasAttr n name message v h = by (find_attr (attrs n) (codes name)) refl h
  where
    by :
        (o : Option Configuration.NodeAttr)
        → find_attr (attrs n) (codes name) ≡ o
        → attr_of o message ≡ ok v
        → HasAttr n name v
    by none e k = absurd (ground (arith, k))
    by (some a) e k = (a, sym (find_attr-first (attrs n) (codes name)) ∙ e, ground (arith, k))

pub check_all-Pairwise :
    {A B : Type 0} (check : A → Checked B) (R : A → B → Type 0) (as_ : List A) (bs : List B)
    → ((a : A) → IfOk (R a) (check a))
    → check_all check as_ ≡ ok bs
    → Pairwise R as_ bs
check_all-Pairwise check R [] [] each h = tt
check_all-Pairwise check R [] (b ∷ bs) each h = absurd (ground (arith, h))
check_all-Pairwise {A} {B} check R (a ∷ as_) bs each h =
    by (check a) (each a) (check_all check as_) refl bs
      (λ ds. check_all-Pairwise check R as_ ds each) h
  where
    by :
        (m : Checked B)
        → IfOk (R a) m
        → (r : Checked (List B)) → check_all check as_ ≡ r
        → (bs : List B) → ((ds : List B) → check_all check as_ ≡ ok ds → Pairwise R as_ ds)
        → (m >>= λ b. r >>= λ cs. ok (b ∷ cs)) ≡ ok bs
        → Pairwise R (a ∷ as_) bs
    by (ok b) q (ok cs) e [] ih k = absurd (ground (arith, k))
    by (ok b) q (ok cs) e (d ∷ ds) ih k =
        let here : b ≡ d = ground (arith, k) in
        let rest : cs ≡ ds = ground (arith, k) in
        (subst (R a) here q, ih ds (ground (arith, e, rest)))
    by (ok b) q (bad s) e bs ih k = absurd (ground (arith, k))
    by (ok b) q thrown e bs ih k = absurd (ground (arith, k))
    by (bad s) q r e bs ih k = absurd (ground (arith, k))
    by thrown q r e bs ih k = absurd (ground (arith, k))
