-- ===== src/MemGuard/Bounds.antt =====
-- bingo/mem_guard.h: what copy, append, clear and change_length do to the bytes in use.
use bingo_v.Prelude.{
  ◌↔◌, ℕ, ◌+◌, ◌-◌, ◌%◌, ◌≤◌, ◌<◌, ◌≡◌, refl, sym, ◌⊎◌, inl, inr, true, some, List, ◌++◌, arith,
  length, take, drop, length-append, length-take, length-drop, length-replicate, take-append,
  append_assoc,
}
use native.Mathlib.Decide.{dec_le}
use bingo_v.ErrorWhat.{ErrorWhat, success, failure}
use bingo_v.MemGuard.{
  MemGuard, size_mod, mem_guard, clear, copy, copy_unsigned, append, change_length, memcpy,
  check_block_remain_space, contents, IsValid, exceed_max_size_when_append,
  exceed_max_size_when_copy, exceed_max_size_when_change,
}

pub mem_guard-IsValid : (n : ℕ) → n < size_mod → IsValid (mem_guard n)
unfolding mem_guard
mem_guard-IsValid n h = record { whole = length-replicate n 0; within = omega arith; small = h }

pub clear-IsValid : {g : MemGuard} → IsValid g → IsValid (clear g)
unfolding clear
clear-IsValid {g} v = record {
  whole = length-replicate g.size 0;
  within = omega arith;
  small = v.small;
}

-- What memcpy writes into an array, when it fits.
abbrev pub splice : List ℕ → ℕ → List ℕ → List ℕ
splice dst off src = take off dst ++ (src ++ drop (off + length src) dst)

module _ (dst : List ℕ) (off : ℕ) (src : List ℕ) (h : off + length src ≤ length dst) where
  pub memcpy-eq : memcpy dst off src ≡ some (splice dst off src)
  memcpy-eq = ground arith

  pub length-splice : length (splice dst off src) ≡ length dst
  length-splice = omega (
    arith,
    length-append (take off dst) (src ++ drop (off + length src) dst),
    length-append src (drop (off + length src) dst),
    length-take off dst,
    length-drop (off + length src) dst,
  )

  pub take-splice : take (off + length src) (splice dst off src) ≡ take off dst ++ src
  take-splice = rw (sym (append_assoc (take off dst) src (drop (off + length src) dst))) (
      take-append (off + length src) (take off dst ++ src) (drop (off + length src) dst)
        (omega (arith, length-append (take off dst) src, length-take off dst)))

-- The sum that the code tests does not wrap while the operands are small.
mod-small : (a b : ℕ) → a + b < size_mod → (a + b) % size_mod ≡ a + b
mod-small a b h = omega arith

pub append-fits :
    (g : MemGuard) (src : List ℕ) (e : ErrorWhat)
    → IsValid g
    → g.len + length src ≤ g.size
    → append g src e
      ≡ some (record g { bytes = splice g.bytes g.len src; len = g.len + length src }, e, success)
unfolding append
append-fits g src e v h =
    ground
      (arith, memcpy-eq g.bytes g.len src (omega arith), mod-small g.len (length src) (omega arith))

-- append on a valid block, for sizes whose sum is below 2 ^ 64, never writes out of bounds. If the
-- new bytes fit, it succeeds, the bytes in use are the old ones followed by the new ones, and the
-- block stays valid and keeps its size; if not, it fails with error 0x71 and leaves the block.
pub append_lem :
    (g : MemGuard) (src : List ℕ) (e : ErrorWhat)
    → IsValid g
    → g.len + length src < size_mod
    → ((g.len + length src ≤ g.size)
        × ((g' : MemGuard) × (append g src e ≡ some (g', e, success))
            × IsValid g'
            × (contents g' ≡ contents g ++ src)
            × (g'.size ≡ g.size)))
      ⊎ ((g.size < g.len + length src)
          × (append g src e
              ≡ some (
                g,
                record {
                  number = exceed_max_size_when_append;
                  message = "the append data is exceed max size!";
                },
                failure,
              )))
append_lem g src e v h = elim (dec_le (g.len + length src) g.size) [
  | yes fits ↦ inl (
    fits,
    (
      record g { bytes = splice g.bytes g.len src; len = g.len + length src },
      append-fits g src e v fits,
      record {
        whole = omega (arith, length-splice g.bytes g.len src (omega arith));
        within = fits;
        small = v.small;
      },
      take-splice g.bytes g.len src (omega arith),
      refl,
    ),
  )
  | no over ↦ inr (omega arith, unfold append in ground (arith, mod-small g.len (length src) h))
]

-- copy on a valid block never writes out of bounds. If the new bytes fit, it succeeds and the bytes
-- in use are exactly the new ones; if not, it fails with error 0x70 and leaves the block.
pub copy_lem :
    (g : MemGuard) (src : List ℕ) (e : ErrorWhat)
    → IsValid g
    → ((length src ≤ g.size)
        × ((g' : MemGuard) × (copy g src e ≡ some (g', e, success))
            × IsValid g'
            × (contents g' ≡ src)
            × (g'.size ≡ g.size)))
      ⊎ ((g.size < length src)
          × (copy g src e
              ≡ some (
                g,
                record {
                  number = exceed_max_size_when_copy;
                  message = "the string_ex copy data is exceed max size!";
                },
                failure,
              )))
copy_lem g src e v = elim (dec_le (length src) g.size) [
  | yes fits ↦ inl (
    fits,
    (
      record g { bytes = splice g.bytes 0 src; len = length src },
      unfold copy in ground (arith, memcpy-eq g.bytes 0 src (omega arith)),
      record {
        whole = omega (arith, length-splice g.bytes 0 src (omega arith));
        within = fits;
        small = v.small;
      },
      take-append (length src) src (drop (0 + length src) g.bytes) refl,
      refl,
    ),
  )
  | no over ↦ inr (omega arith, unfold copy in ground arith)
]

-- The two overloads of copy do the same to a block.
copy_unsigned-fits :
    (g : MemGuard) (src : List ℕ) (e : ErrorWhat)
    → length src ≤ g.size
    → copy_unsigned g src e ≡ copy g src e
unfolding copy_unsigned copy
copy_unsigned-fits g src e h = ground arith

pub change_length-IsValid :
    (g : MemGuard) (n : ℕ) (e : ErrorWhat)
    → IsValid g
    → IsValid (change_length g n e).0 × ((change_length g n e).0.size ≡ g.size)
unfolding change_length
change_length-IsValid g n e v = ground arith

pub change_length-fits :
    (g : MemGuard) (n : ℕ) (e : ErrorWhat)
    → IsValid g
    → g.len + n ≤ g.size
    → change_length g n e ≡ (record g { len = g.len + n }, e, success)
unfolding change_length
change_length-fits g n e v h = ground (arith, mod-small g.len n (omega arith))

-- change_length keeps a valid block valid and at its size. A length that fits the rest is added to
-- the length in use; one that does not fit is refused with error 0x72 and the block is left as it
-- is, unless the sum of the two lengths reaches 2 ^ 64.
pub change_length_lem :
    (g : MemGuard) (n : ℕ) (e : ErrorWhat)
    → IsValid g
    → IsValid (change_length g n e).0
      × ((change_length g n e).0.size ≡ g.size)
      × (((g.len + n ≤ g.size) × (change_length g n e ≡ (record g { len = g.len + n }, e, success)))
          ⊎ ((g.size < g.len + n)
              × (change_length g n e ≡ (
                g,
                record {
                  number = exceed_max_size_when_change;
                  message = "the change data is exceed max size!";
                },
                failure,
              )))
          ⊎ (size_mod ≤ g.len + n))
change_length_lem g n e v =
    let (valid, size) = change_length-IsValid g n e v in
    (
      valid,
      size,
      elim (dec_le (g.len + n) g.size) [
        | yes fits ↦ inl (fits, change_length-fits g n e v fits)
        | no big ↦ elim (dec_le size_mod (g.len + n)) [
          | yes wraps ↦ inr (inr wraps)
          | no small ↦ inr (
              inl (
                omega (arith, big),
                unfold change_length in
                    ground (arith, big, small, mod-small g.len n (omega (arith, small))),
              ))
        ]
      ],
    )

-- check_block_remain_space on a valid block, for a length whose sum with the length in use is below
-- 2 ^ 64, is true exactly if the length fits the rest of the block.
pub check_block_remain_space_iff :
    (g : MemGuard) (n : ℕ)
    → IsValid g
    → g.len + n < size_mod
    → (check_block_remain_space g n ≡ true) ↔ (g.len + n ≤ g.size)
unfolding check_block_remain_space
check_block_remain_space_iff g n v h = ground (arith, mod-small g.len n h)

-- The sum in the test wraps: on a valid block with a byte in use, check_block_remain_space accepts
-- the 64-bit length 2 ^ 64 - len, which no rest of a block holds.
pub check_block_remain_space_wraps :
    (g : MemGuard)
    → IsValid g
    → 0 < g.len
    → (check_block_remain_space g (size_mod - g.len) ≡ true)
      × (g.size < g.len + (size_mod - g.len))
      × (size_mod - g.len < size_mod)
unfolding check_block_remain_space
check_block_remain_space_wraps g v h = ground arith
