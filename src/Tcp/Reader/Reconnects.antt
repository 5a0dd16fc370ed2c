-- ===== src/Tcp/Reader/Reconnects.antt =====
-- bingo/TCP/tcp_svr_handler.h and bingo/TCP/tcp_cet_handler.h: when read_handler calls the reconnect
-- callback.
use bingo_v.Prelude.{ℕ, suc, ◌≡◌, List, [], ◌∷◌, arith, if◌then◌else◌}
use bingo_v.ErrorWhat.{success, failure, error_what}
use bingo_v.MemGuard.{Outcome, contents, change_length}
use bingo_v.Tcp.Types.{
  Action, reconnect, HeaderReply, bad_header, remain_size, FullReply, bad_body, body_done,
  Application, Connection, Side,
}
use bingo_v.Tcp.Accounting.{closings}
use bingo_v.Tcp.Reader.{
  Effect, fail_with, close, header_reply, full_reply, advance, changed, read_handler,
}

-- The calls of the reconnect callback.
abbrev pub reconnects_of : List Action → ℕ
reconnects_of [] = 0
reconnects_of (reconnect ∷ rest) = suc (reconnects_of rest)
reconnects_of (_ ∷ rest) = reconnects_of rest

-- One reconnect for each completed close on the client's side, and none on the server's.
abbrev pub IsPaired : Side → Effect → Type 0
IsPaired side r = reconnects_of r.1 ≡ (if side.reconnects then closings r.1 else 0)

header_reply-IsPaired :
    (side : Side) (app : Application) (c : Connection) (p : List ℕ) (ec : ℕ) (r : HeaderReply)
    → IsPaired side (header_reply side app c p ec r)
unfolding header_reply fail_with
header_reply-IsPaired side app c p ec (bad_header e) = ground arith
header_reply-IsPaired side app c p ec (remain_size n) = ground arith

full_reply-IsPaired :
    (side : Side) (app : Application) (c : Connection) (p : List ℕ) (ec : ℕ) (r : FullReply)
    → IsPaired side (full_reply side app c p ec r)
unfolding full_reply fail_with
full_reply-IsPaired side app c p ec (bad_body e) = ground arith
full_reply-IsPaired side app c p ec body_done = ground arith

advance-IsPaired :
    (side : Side) (app : Application) (c : Connection) (ec t r : ℕ)
    → IsPaired side (advance side app c ec t r)
unfolding advance
advance-IsPaired side app c ec t r = ground (
  arith,
  header_reply-IsPaired side app c (contents c.rev_mgr) ec (app.on_header (contents c.rev_mgr)),
  full_reply-IsPaired side app c (contents c.rev_mgr) ec (app.on_full (contents c.rev_mgr)),
)

changed-IsPaired :
    (side : Side) (app : Application) (c : Connection) (ec t r : ℕ) (o : Outcome)
    → IsPaired side (changed side app c ec t r o)
unfolding changed fail_with
changed-IsPaired side app c ec t r (g, e, failure) = ground arith
changed-IsPaired side app c ec t r (g, e, success) =
    advance-IsPaired side app (record c { rev_mgr = g }) ec t r

pub read_handler-IsPaired :
    (side : Side) (app : Application) (c : Connection) (ec t r : ℕ)
    → IsPaired side (read_handler side app c ec t r)
unfolding read_handler close fail_with
read_handler-IsPaired side app c ec t r =
    ground (arith, changed-IsPaired side app c ec t r (change_length c.rev_mgr t error_what))
