-- ===== src/Tcp/Reader.antt =====
-- bingo/TCP/tcp_svr_handler.h and bingo/TCP/tcp_cet_handler.h: the methods read_handler, close and
-- close_completed, which the two classes spell out alike. A handler returns the connection and the
-- effects in order.
pub mod Bounds
pub mod Network
pub mod Framing
pub mod Stream
pub mod EmptyBody
pub mod Balance
pub mod Reconnects
use bingo_v.Prelude.{
  ℕ, zero, ◌-◌, ◌%◌, ◌^◌, Bool, true, false, List, [], ◌∷◌, ◌++◌, ltb, ◌==◌, if◌then◌else◌,
}
use bingo_v.ErrorWhat.{ErrorWhat, Status, success, failure, error_what, err_no, err_message}
use bingo_v.MemGuard.{MemGuard, Outcome, clear, change_length, check_block_remain_space, contents}
use bingo_v.Tcp.Types.{
  Action, async_read, reconnect, close_socket, catch_error_func, close_complete_func,
  read_pk_header_complete_func, read_pk_full_complete_func, HeaderReply, bad_header, remain_size,
  FullReply, bad_body, body_done, Application, Connection, Side,
}

-- boost::system::errc::operation_canceled
abbrev pub operation_canceled : ℕ
operation_canceled = 125

abbrev pub Effect : Type 0
Effect = Connection × List Action

-- An effect after some first actions.
abbrev pub then_do : List Action → Effect → Effect
then_do first (c, rest) = (c, first ++ rest)

module _ (side : Side) (app : Application) where
  -- What follows close_complete_func: reconnet() on the client, nothing on the server.
  abbrev after_close : List Action
  after_close = if side.reconnects then reconnect ∷ [] else []

  -- close_completed(ec_value)
  unfoldable pub close_completed : Connection → ℕ → Effect
  close_completed c ec = (record c { is_valid = false }, close_complete_func ec ∷ after_close)

  -- catch_error(e_what); close_socket(); close_completed(ec)
  unfoldable pub fail_with : Connection → ErrorWhat → ℕ → Effect
  unfolding close_completed
  fail_with c e ec =
      then_do (catch_error_func e ∷ close_socket ∷ [])
        (close_completed (record c { is_open = false }) ec)

  -- close(ec)
  unfoldable pub close : Connection → ℕ → Effect
  unfolding close_completed fail_with
  close c ec =
      if ec == operation_canceled then close_completed c ec else fail_with c side.closed_by_peer ec

  -- The branch of read_handler in which the header has arrived; `p` is the data passed on.
  pub header_reply : Connection → List ℕ → ℕ → HeaderReply → Effect
  unfolding fail_with
  header_reply c p ec (bad_header e) =
      then_do (read_pk_header_complete_func p ∷ []) (fail_with c e ec)
  header_reply c p ec (remain_size n) = then_do (read_pk_header_complete_func p ∷ []) (
      if check_block_remain_space c.rev_mgr n
      then (c, async_read n ∷ [])
      else fail_with c side.rev_exceed ec)

  -- The branch in which the whole message has arrived.
  pub full_reply : Connection → List ℕ → ℕ → FullReply → Effect
  unfolding fail_with
  full_reply c p ec (bad_body e) = then_do (read_pk_full_complete_func p ∷ []) (fail_with c e ec)
  full_reply c p ec body_done = (
    record c { rev_mgr = clear c.rev_mgr },
    read_pk_full_complete_func p ∷ async_read app.header_size ∷ [],
  )

  -- What follows a successful change_length.
  pub advance : Connection → ℕ → ℕ → ℕ → Effect
  unfolding header_reply full_reply
  advance c ec transferred requested =
      let p = contents c.rev_mgr in
      if ltb transferred requested
      then (c, async_read (requested - transferred) ∷ [])
      else if c.rev_mgr.len == app.header_size
      then header_reply c p ec (app.on_header p)
      else full_reply c p ec (app.on_full p)

  -- The test of the return code of change_length.
  changed : Connection → ℕ → ℕ → ℕ → Outcome → Effect
  unfolding advance fail_with
  changed c ec transferred requested (g, e, failure) =
      fail_with (record c { rev_mgr = g }) side.rev_exceed ec
  changed c ec transferred requested (g, e, success) =
      advance (record c { rev_mgr = g }) ec transferred requested

  -- read_handler(ec, bytes_transferred, bytes_requested); `ec` is 0 when there is no error.
  unfoldable pub read_handler : Connection → ℕ → ℕ → ℕ → Effect
  unfolding changed close
  read_handler c ec transferred requested =
      if c.is_valid
      then if ec == 0
        then changed c ec transferred requested (change_length c.rev_mgr transferred error_what)
        else close c ec
      else (c, [])
