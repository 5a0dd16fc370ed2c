-- ===== src/MemGuard.antt =====
-- bingo/mem_guard.h: a fixed block of bytes with the length that is in use.
-- `size_t` has 64 bits: the sums that the code tests are taken modulo 2 ^ 64.
pub mod Bounds
use Prim.Native.String.{String}
use bingo_v.Prelude.{
  ℕ, ◌+◌, ◌%◌, ◌^◌, ◌≤◌, ◌<◌, ◌≡◌, refl, Bool, true, false, Option, none, some, List, ◌++◌, ltb,
  leb, ◌==◌, if◌then◌else◌, length, take, drop, replicate,
}
use bingo_v.ErrorWhat.{ErrorWhat, Status, success, failure, err_no, err_message}

-- The error numbers 0x70, 0x71 and 0x72 of bingo/error_what.h.
abbrev pub exceed_max_size_when_copy : ℕ
exceed_max_size_when_copy = 0x70

abbrev pub exceed_max_size_when_append : ℕ
exceed_max_size_when_append = 0x71

abbrev pub exceed_max_size_when_change : ℕ
exceed_max_size_when_change = 0x72

abbrev pub size_mod : ℕ
size_mod = 2 ^ 64

-- The class mem_guard<T>: `bytes` is data_, an array of sizeof(T) bytes.
pub record MemGuard : Type 0 where
  pub bytes : List ℕ
  pub size : ℕ
  pub len : ℕ

-- memcpy(dst + off, src, n), n the length of `src`; `none` is a write past the end of `dst`.
abbrev pub memcpy : List ℕ → ℕ → List ℕ → Option (List ℕ)
memcpy dst off src =
    if leb (off + length src) (length dst)
    then some (take off dst ++ (src ++ drop (off + length src) dst))
    else none

-- The constructor: memset to 0, nothing in use.
unfoldable pub mem_guard : ℕ → MemGuard
mem_guard n = record { bytes = replicate n 0; size = n; len = 0 }

unfoldable pub clear : MemGuard → MemGuard
clear g = record g { bytes = replicate g.size 0; len = 0 }

-- current(): the offset of the first unused byte; `none` is the null pointer of a full block.
unfoldable pub current : MemGuard → Option ℕ
current g = if g.len == g.size then none else some g.len

-- What a call with an error_what leaves: the block, the error and the return code.
abbrev pub Outcome : Type 0
Outcome = MemGuard × ErrorWhat × Status

stored : MemGuard → ℕ → ErrorWhat → Option (List ℕ) → Option Outcome
stored g n e none = none
stored g n e (some bs) = some (record g { bytes = bs; len = n }, e, success)

-- copy(data, data_size): `data` is the data_size bytes that the pointer refers to.
unfoldable pub copy : MemGuard → List ℕ → ErrorWhat → Option Outcome
unfolding stored
copy g src e =
    if ltb g.size (length src)
    then some (
      g,
      err_message "the string_ex copy data is exceed max size!"
          (err_no exceed_max_size_when_copy e),
      failure,
    )
    else stored g (length src) e (memcpy g.bytes 0 src)

-- copy(const unsigned char*, data_size), which differs in its message.
unfoldable pub copy_unsigned : MemGuard → List ℕ → ErrorWhat → Option Outcome
unfolding stored
copy_unsigned g src e =
    if ltb g.size (length src)
    then some (
      g,
      err_message "the copy data is exceed max size!" (err_no exceed_max_size_when_copy e),
      failure,
    )
    else stored g (length src) e (memcpy g.bytes 0 src)

unfoldable pub append : MemGuard → List ℕ → ErrorWhat → Option Outcome
unfolding stored
append g src e =
    if ltb g.size ((g.len + length src) % size_mod)
    then some (
      g,
      err_message "the append data is exceed max size!" (err_no exceed_max_size_when_append e),
      failure,
    )
    else stored g ((g.len + length src) % size_mod) e (memcpy g.bytes g.len src)

unfoldable pub check_block_remain_space : MemGuard → ℕ → Bool
check_block_remain_space g n = if ltb g.size ((g.len + n) % size_mod) then false else true

unfoldable pub change_length : MemGuard → ℕ → ErrorWhat → Outcome
change_length g n e =
    if ltb g.size ((g.len + n) % size_mod)
    then (
      g,
      err_message "the change data is exceed max size!" (err_no exceed_max_size_when_change e),
      failure,
    )
    else (record g { len = (g.len + n) % size_mod }, e, success)

-- The bytes in use.
abbrev pub contents : MemGuard → List ℕ
contents g = take g.len g.bytes

-- The array has `size` bytes, of which `len` are in use.
pub record IsValid (g : MemGuard) : Type 0 where
  pub whole : length g.bytes ≡ g.size
  pub within : g.len ≤ g.size
  pub small : g.size < size_mod
