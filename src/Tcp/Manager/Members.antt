-- ===== src/Tcp/Manager/Members.antt =====
-- bingo/TCP/tcp_handler_manager.h: the entries of the container before and after erase.
use bingo_v.Prelude.{
  ℕ, suc, ◌+◌, ◌<◌, ◌⊎◌, ◌≡◌, refl, true, false, List, [], ◌∷◌, ◌==◌, if◌then◌else◌, arith,
  Bool-cases, inl, inr,
}
use bingo_v.ErrorWhat.{ErrorWhat, success, failure, set_error}
use bingo_v.Tcp.Manager.{find_first, erase_first, erase}

-- How often a pointer stands in the container.
abbrev pub count : ℕ → List ℕ → ℕ
count p [] = 0
count p (q ∷ sets) = if q == p then suc (count p sets) else count p sets

find_first-count : (p : ℕ) (sets : List ℕ) → find_first p sets ≡ false → count p sets ≡ 0
unfolding find_first
find_first-count p [] h = refl
find_first-count p (q ∷ sets) h = ground (arith, find_first-count p sets)

count-find_first : (p : ℕ) (sets : List ℕ) → find_first p sets ≡ true → 0 < count p sets
unfolding find_first
count-find_first p [] h = ground arith
count-find_first p (q ∷ sets) h = ground (arith, count-find_first p sets)

count-erase_first :
    (hdr o : ℕ) (sets : List ℕ)
    → find_first hdr sets ≡ true
    → count o (erase_first hdr sets) + (if hdr == o then 1 else 0) ≡ count o sets
unfolding find_first erase_first
count-erase_first hdr o [] h = ground arith
count-erase_first hdr o (q ∷ sets) h = ground (arith, count-erase_first hdr o sets)

-- For a handler that is there, erase succeeds, leaves the error alone and removes one entry of that handler and none of
-- another; for a handler that is not there, erase fails with the error 0x11 and changes nothing.
pub erase_lem :
    (hdr o : ℕ) (sets : List ℕ) (e : ErrorWhat)
    → ((0 < count hdr sets)
        × ((erase hdr sets e).1 ≡ e)
        × ((erase hdr sets e).2 ≡ success)
        × (count o (erase hdr sets e).0 + (if hdr == o then 1 else 0) ≡ count o sets))
      ⊎ ((count hdr sets ≡ 0)
          × (erase hdr sets e ≡ (sets, set_error 0x11 "tcp handler isn't exist!" e, failure)))
unfolding erase
erase_lem hdr o sets e = elim (Bool-cases (find_first hdr sets)) [
  | inl here ↦ inl (
    ground (arith, count-find_first hdr sets here),
    ground arith,
    ground arith,
    ground (arith, count-erase_first hdr o sets here),
  )
  | inr gone ↦ inr (find_first-count hdr sets gone, ground arith)
]
