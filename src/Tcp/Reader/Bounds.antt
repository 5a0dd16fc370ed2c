-- ===== src/Tcp/Reader/Bounds.antt =====
-- bingo/TCP/tcp_svr_handler.h and bingo/TCP/tcp_cet_handler.h: the block and the reads that
-- read_handler asks for.
use bingo_v.Prelude.{
  ℕ, ◌+◌, ◌-◌, ◌≤◌, ◌<◌, ◌≡◌, ◌≢◌, true, false, List, [], All, arith, Bool-cases, inl, inr,
  length-replicate, refl, ltb, ◌==◌,
}
use native.Mathlib.Decide.{ℕ_discrete}
use bingo_v.ErrorWhat.{ErrorWhat, error_what}
use bingo_v.MemGuard.{MemGuard, size_mod, clear, contents, IsValid}
use bingo_v.MemGuard.Bounds.{change_length-fits, check_block_remain_space_iff}
use bingo_v.Tcp.Types.{
  Action, async_read, HeaderReply, bad_header, remain_size, FullReply, bad_body, body_done,
  Application, Connection, Side,
}
use bingo_v.Tcp.Reader.{
  fail_with, close, header_reply, full_reply, advance, changed, read_handler, Effect,
}

-- A read that is asked for lands in the unused part of the block.
abbrev pub Fits : MemGuard → Action → Type 0
Fits g (async_read n) = g.len + n ≤ g.size
Fits g _ = Unit

-- The block is valid, keeps its size, and every read that the effect asks for fits.
pub record IsSafe (size : ℕ) (r : Effect) : Type 0 where
  pub block : IsValid r.0.rev_mgr
  pub same_size : r.0.rev_mgr.size ≡ size
  pub fit : All (Fits r.0.rev_mgr) r.1

-- What the code relies on: a header fits the block, and a length that read_pk_header_complete_func
-- asks for is no number near 2 ^ 64.
pub record IsSound (app : Application) (size : ℕ) : Type 0 where
  pub header_fits : app.header_size ≤ size
  pub remain_small :
      (p : List ℕ) (n : ℕ) → app.on_header p ≡ remain_size n → app.header_size + n < size_mod

module _ (side : Side) (app : Application) where
  fail_with-IsSafe :
      (c : Connection) (e : ErrorWhat) (ec : ℕ)
      → IsValid c.rev_mgr
      → IsSafe c.rev_mgr.size (fail_with side app c e ec)
  unfolding fail_with
  fail_with-IsSafe c e ec v = ground arith

  header_reply-IsSafe :
      (c : Connection) (p : List ℕ) (ec : ℕ) (r : HeaderReply)
      → IsValid c.rev_mgr
      → ((n : ℕ) → r ≡ remain_size n → c.rev_mgr.len + n < size_mod)
      → IsSafe c.rev_mgr.size (header_reply side app c p ec r)
  unfolding header_reply
  header_reply-IsSafe c p ec (bad_header e) v small = ground arith
  header_reply-IsSafe c p ec (remain_size n) v small =
      ground (arith, check_block_remain_space_iff c.rev_mgr n v (small n refl))

  full_reply-IsSafe :
      (c : Connection) (p : List ℕ) (ec : ℕ) (r : FullReply)
      → IsValid c.rev_mgr
      → app.header_size ≤ c.rev_mgr.size
      → IsSafe c.rev_mgr.size (full_reply side app c p ec r)
  unfolding full_reply clear
  full_reply-IsSafe c p ec (bad_body e) v h = ground arith
  full_reply-IsSafe c p ec body_done v h = ground (arith, length-replicate {A = ℕ} c.rev_mgr.size 0)

  advance-IsSafe :
      (c : Connection) (ec transferred requested : ℕ)
      → IsValid c.rev_mgr
      → IsSound app c.rev_mgr.size
      → c.rev_mgr.len + (requested - transferred) ≤ c.rev_mgr.size
      → IsSafe c.rev_mgr.size (advance side app c ec transferred requested)
  unfolding advance
  advance-IsSafe c ec t r v s h = elim (Bool-cases (ltb t r)) [
    | inl more ↦ rw more (record { block = v; same_size = refl; fit = (h, tt) })
    | inr done ↦ rw done (elim (Bool-cases (c.rev_mgr.len == app.header_size)) [
      | inl at_header ↦ rw at_header (
          header_reply-IsSafe c (contents c.rev_mgr) ec (app.on_header (contents c.rev_mgr)) v
            λ n e. ground (arith, s.remain_small (contents c.rev_mgr) n e))
      | inr beyond ↦ rw beyond (
          full_reply-IsSafe c (contents c.rev_mgr) ec (app.on_full (contents c.rev_mgr)) v
            s.header_fits)
    ])
  ]

  close-IsSafe :
      (c : Connection) (ec : ℕ) → IsValid c.rev_mgr → IsSafe c.rev_mgr.size (close side app c ec)
  unfolding close
  close-IsSafe c ec v = ground arith

  -- A completion with no error moves the length in use and goes on.
  pub read_handler-advance :
      (c : Connection) (ec transferred requested : ℕ)
      → c.is_valid ≡ true
      → ec ≡ 0
      → IsValid c.rev_mgr
      → c.rev_mgr.len + transferred ≤ c.rev_mgr.size
      → read_handler side app c ec transferred requested
        ≡ advance side app
            (record c { rev_mgr = record c.rev_mgr { len = c.rev_mgr.len + transferred } })
            ec
            transferred
            requested
  unfolding read_handler changed
  read_handler-advance c ec t r live e v h =
      ground (arith, change_length-fits c.rev_mgr t error_what v h)

  read_handler-close :
      (c : Connection) (ec transferred requested : ℕ)
      → c.is_valid ≡ true
      → ec ≢ 0
      → read_handler side app c ec transferred requested ≡ close side app c ec
  unfolding read_handler
  read_handler-close c ec t r live e = ground arith

  read_handler-gone :
      (c : Connection) (ec transferred requested : ℕ)
      → c.is_valid ≡ false
      → read_handler side app c ec transferred requested ≡ (c, [])
  unfolding read_handler
  read_handler-gone c ec t r gone = ground arith

  -- read_handler on a valid block, for a completion of a read that fits and a header that fits: the
  -- block stays valid and keeps its size, and every read that is asked for fits the unused part of
  -- the block, on every branch.
  pub read_handler-IsSafe :
      (c : Connection) (ec transferred requested : ℕ)
      → IsValid c.rev_mgr
      → IsSound app c.rev_mgr.size
      → transferred ≤ requested
      → c.rev_mgr.len + requested ≤ c.rev_mgr.size
      → IsSafe c.rev_mgr.size (read_handler side app c ec transferred requested)
  read_handler-IsSafe c ec t r v s le h = elim (Bool-cases c.is_valid) [
    | inr gone ↦
        rw (read_handler-gone c ec t r gone) (record { block = v; same_size = refl; fit = tt })
    | inl live ↦ elim (ℕ_discrete ec 0) [
      | no error ↦ rw (read_handler-close c ec t r live error) (close-IsSafe c ec v)
      | yes fine ↦ rw (read_handler-advance c ec t r live fine v (omega arith)) (
          advance-IsSafe (record c { rev_mgr = record c.rev_mgr { len = c.rev_mgr.len + t } }) ec t
            r (record { whole = v.whole; within = omega arith; small = v.small })
            (record { header_fits = s.header_fits; remain_small = s.remain_small }) (omega arith))
    ]
  ]
