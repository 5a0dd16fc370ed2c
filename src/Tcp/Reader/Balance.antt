-- ===== src/Tcp/Reader/Balance.antt =====
-- bingo/TCP/tcp_svr_handler.h and bingo/TCP/tcp_cet_handler.h: the packages and the completed
-- closes of read_handler.
use bingo_v.Prelude.{ℕ, ◌≡◌, true, List, arith, Bool-cases, inl, inr}
use bingo_v.ErrorWhat.{ErrorWhat, success, failure, error_what}
use bingo_v.MemGuard.{Outcome, contents, change_length}
use bingo_v.Tcp.Types.{
  HeaderReply, bad_header, remain_size, FullReply, bad_body, body_done, Application, Connection,
  Side,
}
use bingo_v.Tcp.Accounting.{Balance}
use bingo_v.Tcp.Reader.{fail_with, close, header_reply, full_reply, advance, changed, read_handler}

module _ (side : Side) (app : Application) where
  pub fail_with-Balance :
      (c : Connection) (e : ErrorWhat) (ec : ℕ)
      → c.is_valid ≡ true
      → Balance 0 c (fail_with side app c e ec)
  unfolding fail_with
  fail_with-Balance c e ec live = ground arith

  header_reply-Balance :
      (c : Connection) (p : List ℕ) (ec : ℕ) (r : HeaderReply)
      → c.is_valid ≡ true
      → Balance 0 c (header_reply side app c p ec r)
  unfolding header_reply
  header_reply-Balance c p ec (bad_header e) live = ground arith
  header_reply-Balance c p ec (remain_size n) live = ground arith

  full_reply-Balance :
      (c : Connection) (p : List ℕ) (ec : ℕ) (r : FullReply)
      → c.is_valid ≡ true
      → Balance 0 c (full_reply side app c p ec r)
  unfolding full_reply
  full_reply-Balance c p ec (bad_body e) live = ground arith
  full_reply-Balance c p ec body_done live = ground arith

  advance-Balance :
      (c : Connection) (ec t r : ℕ) → c.is_valid ≡ true → Balance 0 c (advance side app c ec t r)
  unfolding advance
  advance-Balance c ec t r live = ground (
    arith,
    header_reply-Balance c (contents c.rev_mgr) ec (app.on_header (contents c.rev_mgr)) live,
    full_reply-Balance c (contents c.rev_mgr) ec (app.on_full (contents c.rev_mgr)) live,
  )

  changed-Balance :
      (c : Connection) (ec t r : ℕ) (o : Outcome)
      → c.is_valid ≡ true
      → Balance 0 c (changed side app c ec t r o)
  unfolding changed
  changed-Balance c ec t r (g, e, failure) live =
      ground (arith, fail_with-Balance (record c { rev_mgr = g }) side.rev_exceed ec live)
  changed-Balance c ec t r (g, e, success) live =
      ground (arith, advance-Balance (record c { rev_mgr = g }) ec t r live)

  close-Balance : (c : Connection) (ec : ℕ) → c.is_valid ≡ true → Balance 0 c (close side app c ec)
  unfolding close
  close-Balance c ec live = ground arith

  pub read_handler-Balance :
      (c : Connection) (ec t r : ℕ) → Balance 0 c (read_handler side app c ec t r)
  unfolding read_handler
  read_handler-Balance c ec t r = elim (Bool-cases c.is_valid) [
    | inr gone ↦ ground arith
    | inl live ↦ ground (
      arith,
      changed-Balance c ec t r (change_length c.rev_mgr t error_what) live,
      close-Balance c ec live,
    )
  ]
