-- ===== src/Tests/MemGuard.antt =====
-- bingo/mem_guard.h at a block of four bytes, three of them in use.
use bingo_v.Prelude.{
  ℕ, ◌+◌, ◌-◌, ◌≤◌, ◌<◌, ◌≡◌, ◌⊎◌, refl, true, some, List, [], ◌∷◌, ◌++◌, length, arith,
}
use bingo_v.ErrorWhat.{error_what, success, failure}
use bingo_v.MemGuard.{
  MemGuard, size_mod, append, check_block_remain_space, contents, IsValid,
  exceed_max_size_when_append,
}
use bingo_v.MemGuard.Bounds.{append_lem, check_block_remain_space_wraps}

abbrev block : MemGuard
block = record { bytes = 1 ∷ 2 ∷ 3 ∷ 0 ∷ []; size = 4; len = 3 }

abbrev one_byte : List ℕ
one_byte = 9 ∷ []

block-IsValid : IsValid block
block-IsValid = record { whole = refl; within = omega arith; small = omega arith }

append_lem_example :
    ((block.len + length one_byte ≤ block.size)
      × ((g' : MemGuard) × (append block one_byte error_what ≡ some (g', error_what, success))
          × IsValid g'
          × (contents g' ≡ contents block ++ one_byte)
          × (g'.size ≡ block.size)))
    ⊎ ((block.size < block.len + length one_byte)
        × (append block one_byte error_what
            ≡ some (
              block,
              record {
                number = exceed_max_size_when_append;
                message = "the append data is exceed max size!";
              },
              failure,
            )))
append_lem_example = append_lem block one_byte error_what block-IsValid (omega arith)

check_block_remain_space_wraps_example :
    (check_block_remain_space block (size_mod - block.len) ≡ true)
    × (block.size < block.len + (size_mod - block.len))
    × (size_mod - block.len < size_mod)
check_block_remain_space_wraps_example =
    check_block_remain_space_wraps block block-IsValid (omega arith)
