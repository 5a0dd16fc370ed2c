-- ===== src/RabbitMq/Sendor/Package.antt =====
-- bingo/RabbitMQ/handlers: the block that holds a key and a body.
use bingo_v.Prelude.{
  ℕ, zero, suc, ◌+◌, ◌-◌, ◌≤◌, ◌≡◌, refl, sym, ◌∙◌, ap, Option, none, some, [], ◌∷◌, ◌++◌,
  append-nil, append_assoc, length, take, drop, replicate, length-append, length-take,
  length-replicate, take-append, drop-append, arith,
}
use bingo_v.Bytes.{Bytes, c_str, NoZero, c_str-zero}
use bingo_v.MemGuard.{MemGuard, memcpy, contents, IsValid}
use bingo_v.MemGuard.Bounds.{memcpy-eq, splice}
use bingo_v.RabbitMq.Buffer.Queue.{drop-take}
use bingo_v.RabbitMq.Config.{mapkey_max_size}
use bingo_v.RabbitMq.Sendor.{make_message, take_message}

replicate-add : (n m : ℕ) → replicate {A = ℕ} (n + m) 0 ≡ replicate n 0 ++ replicate m 0
replicate-add zero m = rw (let e : 0 + m ≡ m = omega arith in e)
replicate-add (suc n) m =
    rw (let e : suc n + m ≡ suc (n + m) = omega arith in e) (ap (◌∷◌ 0) (replicate-add n m))

replicate-zero : (n : ℕ) → replicate {A = ℕ} n 0 ++ (0 ∷ []) ≡ 0 ∷ replicate n 0
replicate-zero zero = refl
replicate-zero (suc n) = ap (◌∷◌ 0) (replicate-zero n)

take-take : (n m : ℕ) (s : Bytes) → n ≤ m → take n (take m s) ≡ take n s
take-take zero m s h = refl
take-take (suc n) zero s h = absurd (omega arith)
take-take (suc n) (suc m) [] h = refl
take-take (suc n) (suc m) (b ∷ bs) h = ap (◌∷◌ b) (take-take n m bs (omega arith))

-- The first 40 bytes: the key and zeros.
abbrev pub header : Bytes → Bytes
header key = key ++ replicate (mapkey_max_size - length key) 0

-- A message: the header and the body.
abbrev pub layout : Bytes → Bytes → Bytes
layout key body = header key ++ body

module _ (key body : Bytes) (fits : length key ≤ mapkey_max_size) where
  length-header : length (header key) ≡ mapkey_max_size
  length-header = omega (
    arith,
    length-append key (replicate (mapkey_max_size - length key) 0),
    length-replicate {A = ℕ} (mapkey_max_size - length key) 0,
  )

  blank : Bytes
  blank = replicate (mapkey_max_size + length body) 0

  blank-eq :
      blank
      ≡ replicate (length key) 0
        ++ (replicate (mapkey_max_size - length key) 0 ++ replicate (length body) 0)
  unfolding blank
  blank-eq =
      ap (λ n. replicate n 0)
        (let e : mapkey_max_size + length body
              ≡ length key + ((mapkey_max_size - length key) + length body) =
            omega arith in
          e)
      ∙ replicate-add (length key) ((mapkey_max_size - length key) + length body)
      ∙ ap (◌++◌ (replicate (length key) 0))
          (replicate-add (mapkey_max_size - length key) (length body))

  -- The message after the key has been copied.
  with_key : splice blank 0 key ≡ header key ++ replicate (length body) 0
  with_key = rw blank-eq (
      ap (◌++◌ key) (
        drop-append (0 + length key) (replicate (length key) 0)
          (replicate (mapkey_max_size - length key) 0 ++ replicate (length body) 0)
          (omega (arith, length-replicate {A = ℕ} (length key) 0)))
      ∙ sym (
          append_assoc key (replicate (mapkey_max_size - length key) 0)
            (replicate (length body) 0)))

  half : Bytes
  half = header key ++ replicate (length body) 0

  length-half : length half ≡ mapkey_max_size + length body
  unfolding half
  length-half = omega (
    arith,
    length-append (header key) (replicate (length body) 0),
    length-header,
    length-replicate {A = ℕ} (length body) 0,
  )

  nothing_left : drop (mapkey_max_size + length body) half ≡ []
  nothing_left =
      ap (drop (mapkey_max_size + length body)) (sym (append-nil half))
      ∙ drop-append (mapkey_max_size + length body) half [] length-half

  with_body : splice half mapkey_max_size body ≡ layout key body
  unfolding half
  with_body =
      rw (take-append mapkey_max_size (header key) (replicate (length body) 0) length-header) (
        ap (λ t. header key ++ (body ++ t)) nothing_left ∙ ap (◌++◌ (header key)) (append-nil body))

  then_body : Option Bytes → Option Bytes
  then_body none = none
  then_body (some m) = memcpy m mapkey_max_size body

  pub make_message-layout : make_message key body ≡ some (layout key body)
  unfolding make_message then_body blank half
  make_message-layout =
      ap then_body (
        memcpy-eq blank 0 key
          (omega (arith, length-replicate {A = ℕ} (mapkey_max_size + length body) 0))
        ∙ ap some with_key)
      ∙ memcpy-eq half mapkey_max_size body (omega (arith, length-half))
      ∙ ap some with_body

  pub length-layout : length (layout key body) ≡ mapkey_max_size + length body
  length-layout = omega (arith, length-append (header key) body, length-header)

-- What rb_top reads of a block that holds a message.
pub take_message-layout :
    (g : MemGuard) (key body : Bytes)
    → length key ≤ mapkey_max_size
    → NoZero key
    → IsValid g
    → contents g ≡ layout key body
    → take_message g ≡ some (key, body)
unfolding take_message
take_message-layout g key body fits clean v e =
    let lh = length-header key body fits in
    let len_eq : g.len ≡ mapkey_max_size + length body = omega (
      arith,
      ap length e,
      length-layout key body fits,
      length-take g.len g.bytes,
      v.whole,
      v.within,
    ) in
    let front : take mapkey_max_size g.bytes ≡ header key =
      sym (take-take mapkey_max_size g.len g.bytes (omega arith))
      ∙ ap (take mapkey_max_size) e
      ∙ take-append mapkey_max_size (header key) body lh in
    let back : take (g.len - mapkey_max_size) (drop mapkey_max_size g.bytes) ≡ body =
      sym (drop-take g.len mapkey_max_size g.bytes)
      ∙ ap (drop mapkey_max_size) e
      ∙ drop-append mapkey_max_size (header key) body lh in
    let key_eq : c_str (take mapkey_max_size g.bytes ++ (0 ∷ [])) ≡ key =
      ap (λ t. c_str (t ++ (0 ∷ []))) front
      ∙ ap c_str (
          append_assoc key (replicate (mapkey_max_size - length key) 0) (0 ∷ [])
          ∙ ap (◌++◌ key) (replicate-zero (mapkey_max_size - length key)))
      ∙ c_str-zero key (replicate (mapkey_max_size - length key) 0) clean in
    ground (arith, key_eq, back, len_eq)
