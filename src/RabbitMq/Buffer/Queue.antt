-- ===== src/RabbitMq/Buffer/Queue.antt =====
-- AmqpBuffer as a bounded queue of bytes.
use bingo_v.Prelude.{
  ℕ, zero, suc, ◌+◌, ◌-◌, ◌≤◌, ◌<◌, ◌≡◌, refl, sym, ◌∙◌, ap, Bool, true, false, Option, none, some,
  List, [], ◌∷◌, ◌++◌, append-nil, ltb, ◌==◌, if◌then◌else◌, length, take, drop, length-append,
  length-take, length-drop, length-replicate, take-append, Bool-cases, lt→ltb, ltb→lt, inl, inr,
  arith,
}
use bingo_v.Bytes.{Bytes}
use bingo_v.MemGuard.Bounds.{splice, length-splice, take-splice}
use bingo_v.RabbitMq.Buffer.{AmqpBuffer, amqp_buffer, write, drain, shl}

-- The bytes in use.
abbrev pub contents : AmqpBuffer → Bytes
contents b = take b.used b.bytes

-- The bytes in use are in the vector, which has `size` bytes.
pub record IsValid (size : ℕ) (b : AmqpBuffer) : Type 0 where
  pub whole : length b.bytes ≡ size
  pub within : b.used ≤ size

pub amqp_buffer-IsValid : (size : ℕ) → IsValid size (amqp_buffer size)
unfolding amqp_buffer
amqp_buffer-IsValid size = record { whole = length-replicate size 0; within = omega arith }

pub take_all : (n : ℕ) (s : Bytes) → length s ≤ n → take n s ≡ s
take_all zero [] h = refl
take_all zero (b ∷ bs) h = absurd (omega arith)
take_all (suc n) [] h = refl
take_all (suc n) (b ∷ bs) h = ap (◌∷◌ b) (take_all n bs (omega arith))

none_left : (n : ℕ) → ◌≡◌ {A = Bytes} [] (take n [])
none_left zero = refl
none_left (suc n) = refl

pub drop-take : (k m : ℕ) (s : Bytes) → drop m (take k s) ≡ take (k - m) (drop m s)
drop-take k zero s = rw (let e : k - 0 ≡ k = omega arith in e)
drop-take zero (suc m) s = rw (let e : 0 - suc m ≡ 0 = omega arith in e)
drop-take (suc k) (suc m) [] = none_left (suc k - suc m)
drop-take (suc k) (suc m) (b ∷ bs) =
    drop-take k m bs
    ∙ ap (λ n. take n (drop m bs)) (let e : k - m ≡ suc k - suc m = omega arith in e)

pub length-contents : (size : ℕ) (b : AmqpBuffer) → IsValid size b → length (contents b) ≡ b.used
length-contents size b v = omega (arith, length-take b.used b.bytes, v.whole, v.within)

-- What the buffer is meant to be: a queue that takes the bytes for which it has room.
abbrev pub push : ℕ → Bytes → Bytes → Bytes
push size q src = q ++ take (size - length q) src

-- The vector after `n` of the bytes have been copied behind those in use.
abbrev pub filled : AmqpBuffer → ℕ → Bytes → Bytes
filled b n src = take b.used b.bytes ++ (take n src ++ drop (b.used + n) b.bytes)

module _ (size : ℕ) (b : AmqpBuffer) (src : Bytes) (v : IsValid size b) where
  module _ (n : ℕ) (h : n ≤ length src) (k : b.used + n ≤ size) where
    filled-eq : filled b n src ≡ splice b.bytes b.used (take n src)
    filled-eq = rw (let e : length (take n src) ≡ n = omega (arith, length-take n src) in e)

    length-filled : length (filled b n src) ≡ size
    length-filled = rw filled-eq (
        length-splice b.bytes b.used (take n src) (omega (arith, length-take n src, v.whole))
        ∙ v.whole)

    take-filled : take (b.used + n) (filled b n src) ≡ contents b ++ take n src
    take-filled = rw filled-eq (
        ap (λ (m : ℕ). take (b.used + m) (splice b.bytes b.used (take n src)))
          (let e : n ≡ length (take n src) = omega (arith, length-take n src) in e)
        ∙ take-splice b.bytes b.used (take n src) (omega (arith, length-take n src, v.whole)))

  -- A write keeps the buffer, appends the bytes that fit, and says how many.
  abbrev Written : AmqpBuffer × ℕ → Type 0
  Written r =
      IsValid size r.0
      × (contents r.0 ≡ push size (contents b) src)
      × (r.1 ≡ length (take (size - b.used) src))

  write_full : b.used ≡ size → Written (b, 0)
  write_full e = (
    v,
    rw (let z : size - length (contents b) ≡ 0 = omega (arith, length-contents size b v) in z)
        (sym (append-nil (contents b))),
    rw (let z : size - b.used ≡ 0 = omega arith in z),
  )

  fits :
      (n : ℕ)
      → n ≤ length src
      → b.used + n ≤ size
      → take n src ≡ take (size - b.used) src
      → Written (record { bytes = filled b n src; used = b.used + n }, n)
  fits n h k same = (
    record { whole = length-filled n h k; within = k },
    take-filled n h k
        ∙ ap (◌++◌ (contents b))
            (same ∙ ap (λ m. take (size - m) src) (sym (length-contents size b v))),
    omega (arith, length-take n src, ap length same),
  )

  write_by :
      (full more : Bool)
      → (b.used == length b.bytes) ≡ full
      → ltb (length src + b.used) (length b.bytes) ≡ more
      → Written (write b src)
  unfolding write
  write_by true more e f = rw e (write_full (ground (arith, v.whole)))
  write_by false true e f =
      rw (e, f)
        (fits (length src) (omega arith) (ground (arith, v.whole)) (
          take_all (length src) src (omega arith)
          ∙ sym (take_all (size - b.used) src (ground (arith, v.whole)))))
  write_by false false e f =
      rw (e, f)
        (fits (length b.bytes - b.used) (ground (arith, v.whole, v.within))
          (omega (arith, v.whole, v.within)) (ap (λ m. take (m - b.used) src) v.whole))

  pub write-Written : Written (write b src)
  write-Written = write_by _ _ refl refl

-- shl keeps the buffer and takes the first bytes away; it fails unless some byte stays.
pub shl-drops :
    (size : ℕ) (b : AmqpBuffer) (count : ℕ)
    → IsValid size b
    → count < b.used
    → (b' : AmqpBuffer) × (shl b count ≡ some b')
      × IsValid size b'
      × (contents b' ≡ drop count (contents b))
unfolding shl
shl-drops size b count v h =
    let diff = b.used - count in
    let part : length (take diff (drop count b.bytes)) ≡ diff = omega (
      arith,
      length-take diff (drop count b.bytes),
      length-drop count b.bytes,
      v.whole,
      v.within,
    ) in
    (
      record { bytes = take diff (drop count b.bytes) ++ drop diff b.bytes; used = diff },
      rw (lt→ltb _ _ h),
      record {
        whole = omega (
          arith,
          part,
          length-append (take diff (drop count b.bytes)) (drop diff b.bytes),
          length-drop diff b.bytes,
          v.whole,
          v.within,
        );
        within = omega (arith, v.within);
      },
      take-append diff (take diff (drop count b.bytes)) (drop diff b.bytes) part
          ∙ sym (drop-take b.used count b.bytes),
    )

-- Any use of the buffer.
pub data Op : Type 0 where
  writes : Bytes → Op
  shifts : ℕ → Op
  drains : Op

unfoldable pub run : AmqpBuffer → List Op → Option AmqpBuffer
run b [] = some b
run b (writes src ∷ ops) = run (write b src).0 ops
run b (shifts n ∷ ops) = elim (shl b n) [ none ↦ none | some b' ↦ run b' ops ]
run b (drains ∷ ops) = run (drain b) ops

-- The same calls on a queue of bytes.
unfoldable pub replay : ℕ → Bytes → List Op → Option Bytes
replay size q [] = some q
replay size q (writes src ∷ ops) = replay size (push size q src) ops
replay size q (shifts n ∷ ops) =
    let rest = replay size (drop n q) ops in if ltb n (length q) then rest else none
replay size q (drains ∷ ops) = replay size [] ops

-- The bytes in use after a run that met no failing assertion.
abbrev pub outcome : Option AmqpBuffer → Option Bytes
outcome none = none
outcome (some b) = some (contents b)

shl-fails : (b : AmqpBuffer) (n : ℕ) → ltb n b.used ≡ false → shl b n ≡ none
unfolding shl
shl-fails b n h = rw h

run-shifts :
    (n : ℕ) (ops : List Op) (b b' : AmqpBuffer)
    → shl b n ≡ some b'
    → run b (shifts n ∷ ops) ≡ run b' ops
unfolding run
run-shifts n ops b b' e = ground arith

run-refused :
    (n : ℕ) (ops : List Op) (b : AmqpBuffer) → shl b n ≡ none → run b (shifts n ∷ ops) ≡ none
unfolding run
run-refused n ops b e = ground arith

run_refines :
    (size : ℕ) (ops : List Op) (b : AmqpBuffer)
    → IsValid size b
    → outcome (run b ops) ≡ replay size (contents b) ops
unfolding run replay drain
run_refines size [] b v = refl
run_refines size (writes src ∷ ops) b v =
    let w = write-Written size b src v in
    run_refines size ops (write b src).0 w.0 ∙ ap (λ q. replay size q ops) w.1
run_refines size (drains ∷ ops) b v =
    run_refines size ops (drain b) (record { whole = v.whole; within = omega arith })
run_refines size (shifts n ∷ ops) b v = elim (Bool-cases (ltb n b.used)) [
  | inl more ↦
      let s = shl-drops size b n v (ltb→lt _ _ more) in
      ap outcome (run-shifts n ops b s.0 s.1)
      ∙ run_refines size ops s.0 s.2
      ∙ rw (length-contents size b v, more) (ap (λ q. replay size q ops) s.3)
  | inr less ↦
      ap outcome (run-refused n ops b (shl-fails b n less)) ∙ rw (length-contents size b v, less)
]

-- However a new buffer is used, it behaves as a bounded queue of bytes: a write appends the bytes for
-- which there is room, a shift takes bytes from the front and is refused unless a byte stays, and
-- drain empties it.
pub buffer-refines :
    (size : ℕ) (ops : List Op) → outcome (run (amqp_buffer size) ops) ≡ replay size [] ops
unfolding amqp_buffer
buffer-refines size ops = run_refines size ops (amqp_buffer size) (amqp_buffer-IsValid size)
