-- ===== src/Tcp/Accounting.antt =====
-- What a list of effects of the handlers in bingo/TCP posts, starts, makes, frees and completes.
use bingo_v.Prelude.{ℕ, suc, ◌+◌, ◌≡◌, List, [], ◌∷◌, ◌++◌, arith, length, if◌then◌else◌}
use bingo_v.MemGuard.{MemGuard}
use bingo_v.Tcp.Types.{
  Job, active_send_data, Action, async_write, async_write_first, post, new_package, delete_package,
  close_complete_func, Connection,
}

abbrev pub posted : List Action → List Job
posted [] = []
posted (post j ∷ rest) = j ∷ posted rest
posted (_ ∷ rest) = posted rest

abbrev pub started : List Action → List MemGuard
started [] = []
started (async_write g ∷ rest) = g ∷ started rest
started (async_write_first g ∷ rest) = g ∷ started rest
started (_ ∷ rest) = started rest

-- The packages in posted jobs.
abbrev pub packages : List Job → ℕ
packages [] = 0
packages (active_send_data pk ∷ js) = suc (packages js)
packages (_ ∷ js) = packages js

abbrev pub news : List Action → ℕ
news [] = 0
news (new_package pk ∷ rest) = suc (news rest)
news (_ ∷ rest) = news rest

abbrev pub deletes : List Action → ℕ
deletes [] = 0
deletes (delete_package pk ∷ rest) = suc (deletes rest)
deletes (_ ∷ rest) = deletes rest

abbrev pub closings : List Action → ℕ
closings [] = 0
closings (close_complete_func ec ∷ rest) = suc (closings rest)
closings (_ ∷ rest) = closings rest

abbrev pub alive : Connection → ℕ
alive c = if c.is_valid then 1 else 0

pub packages-append : (xs ys : List Job) → packages (xs ++ ys) ≡ packages xs + packages ys
packages-append [] ys = omega arith
packages-append (active_send_data pk ∷ xs) ys = omega (arith, packages-append xs ys)
packages-append (_ ∷ xs) ys = packages-append xs ys

pub news-append : (xs ys : List Action) → news (xs ++ ys) ≡ news xs + news ys
news-append [] ys = omega arith
news-append (new_package pk ∷ xs) ys = omega (arith, news-append xs ys)
news-append (_ ∷ xs) ys = news-append xs ys

pub deletes-append : (xs ys : List Action) → deletes (xs ++ ys) ≡ deletes xs + deletes ys
deletes-append [] ys = omega arith
deletes-append (delete_package pk ∷ xs) ys = omega (arith, deletes-append xs ys)
deletes-append (_ ∷ xs) ys = deletes-append xs ys

pub closings-append : (xs ys : List Action) → closings (xs ++ ys) ≡ closings xs + closings ys
closings-append [] ys = omega arith
closings-append (close_complete_func ec ∷ xs) ys = omega (arith, closings-append xs ys)
closings-append (_ ∷ xs) ys = closings-append xs ys

-- What an effect does to the counts, for an operation that holds `held` packages.
pub record Balance (held : ℕ) (c : Connection) (r : Connection × List Action) : Type 0 where
  pub owned : news r.1 + held ≡ deletes r.1 + (packages (posted r.1) + length (started r.1))
  pub closed : closings r.1 + alive r.0 ≡ alive c
