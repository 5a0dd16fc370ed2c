-- ===== src/PtrMap/Keys.antt =====
-- boost::ptr_map: the order of the keys, and what find gives after insert.
use bingo_v.Prelude.{
  ◌≡◌, refl, sym, inl, inr, true, false, Option, none, some, [], ◌∷◌, All, arith, Bool-cases,
}
use bingo_v.Bytes.{Bytes, same, before, same-eq, same_refl}
use bingo_v.Bytes.Order.{before_irrefl, before_trans, before-connex, before→same}
use bingo_v.PtrMap.{PtrMap, insert, find}

-- The keys stand in order.
abbrev pub IsSorted : {V : Type 0} → PtrMap V → Type 0
IsSorted [] = Unit
IsSorted ((k, v) ∷ rest) = All (λ p. before k p.0 ≡ true) rest × IsSorted rest

-- The value of a key that is inserted: one that is there stays.
abbrev pub kept : {V : Type 0} → Option V → V → V
kept none v = v
kept (some w) v = w

abbrev pub or_else : {V : Type 0} → Option V → Option V → Option V
or_else none o = o
or_else (some w) o = some w

pub or_else-kept :
    {V : Type 0} (o : Option V) (v : V) (later : Option V)
    → or_else (some (kept o v)) later ≡ or_else o (some v)
or_else-kept none v later = refl
or_else-kept (some w) v later = refl

pub or_else-none : {V : Type 0} (o : Option V) → o ≡ or_else o none
or_else-none none = refl
or_else-none (some w) = refl

find-absent :
    {V : Type 0} (k : Bytes) (m : PtrMap V) → All (λ p. before k p.0 ≡ true) m → find k m ≡ none
unfolding find
find-absent k [] h = refl
find-absent k ((k', v') ∷ rest) h = ground (arith, before→same k k', find-absent k rest h.1)

after_trans :
    {V : Type 0} (j k : Bytes) (m : PtrMap V)
    → before j k ≡ true
    → All (λ p. before k p.0 ≡ true) m
    → All (λ p. before j p.0 ≡ true) m
after_trans j k [] b h = tt
after_trans j k ((k', v') ∷ rest) b h = (before_trans j k k' b h.0, after_trans j k rest b h.1)

pub All-insert :
    {V : Type 0} (P : Bytes × V → Type 0) (k : Bytes) (v : V) (m : PtrMap V)
    → P (k, v)
    → All P m
    → All P (insert k v m)
unfolding insert
All-insert P k v [] p h = (p, tt)
All-insert P k v ((k', v') ∷ rest) p h = elim (Bool-cases (before k k')) [
  | inl e ↦ rw e (p, h)
  | inr e ↦ elim (Bool-cases (before k' k)) [
    | inl f ↦ rw (e, f) (h.0, All-insert P k v rest p h.1)
    | inr f ↦ rw (e, f) h
  ]
]

pub insert-IsSorted :
    {V : Type 0} (k : Bytes) (v : V) (m : PtrMap V) → IsSorted m → IsSorted (insert k v m)
unfolding insert
insert-IsSorted k v [] h = (tt, tt)
insert-IsSorted k v ((k', v') ∷ rest) h = elim (Bool-cases (before k k')) [
  | inl e ↦ rw e ((e, after_trans k k' rest e h.0), h)
  | inr e ↦ elim (Bool-cases (before k' k)) [
    | inl f ↦
        rw (e, f)
          (All-insert (λ p. before k' p.0 ≡ true) k v rest f h.0, insert-IsSorted k v rest h.1)
    | inr f ↦ rw (e, f) h
  ]
]

pub find-insert_same :
    {V : Type 0} (k : Bytes) (v : V) (m : PtrMap V)
    → IsSorted m
    → find k (insert k v m) ≡ some (kept (find k m) v)
unfolding insert find
find-insert_same k v [] h = ground (arith, same_refl k)
find-insert_same k v ((k', v') ∷ rest) h = ground (
  arith,
  same_refl k,
  before→same k k',
  before→same k' k,
  before-connex k k',
  same-eq k' k,
  before_irrefl k,
  λ (b : before k k' ≡ true). find-absent k rest (after_trans k k' rest b h.0),
  find-insert_same k v rest h.1,
)

pub find-insert_other :
    {V : Type 0} (j k : Bytes) (v : V) (m : PtrMap V)
    → same j k ≡ false
    → find k (insert j v m) ≡ find k m
unfolding insert find
find-insert_other j k v [] ne = ground arith
find-insert_other j k v ((k', v') ∷ rest) ne = ground (arith, find-insert_other j k v rest ne)

-- A value inserted is found in front of those inserted later.
pub find-insert :
    {V : Type 0} (j k : Bytes) (v : V) (m later : PtrMap V)
    → IsSorted m
    → or_else (find k (insert j v m)) (find k later) ≡ or_else (find k m) (find k ((j, v) ∷ later))
unfolding find
find-insert j k v m later s = elim (Bool-cases (same j k)) [
  | inl eq ↦
      rw (eq, sym (same-eq j k eq), find-insert_same j v m s)
        (or_else-kept (find j m) v (find j later))
  | inr ne ↦ rw (ne, find-insert_other j k v m ne) refl
]
