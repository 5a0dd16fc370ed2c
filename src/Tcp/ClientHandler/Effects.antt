-- ===== src/Tcp/ClientHandler/Effects.antt =====
-- bingo/TCP/tcp_cet_handler.h: what the client's handler does when it closes, and with the package of
-- the first message.
use bingo_v.Prelude.{ℕ, ◌≡◌, refl, true, arith}
use bingo_v.ErrorWhat.{ErrorWhat}
use bingo_v.MemGuard.{MemGuard, mem_guard}
use bingo_v.Tcp.Types.{SendReply, refused, ready, Application, Connection}
use bingo_v.Tcp.Accounting.{Balance}
use bingo_v.Tcp.Reader.{fail_with}
use bingo_v.Tcp.Reader.Balance.{fail_with-Balance}
use bingo_v.Tcp.Reader.Reconnects.{IsPaired, read_handler-IsPaired}
use bingo_v.Tcp.ServerHandler.{run_close}
use bingo_v.Tcp.ClientHandler.{client_side, read_handler, active_close, start, first_reply}

first_reply-IsPaired :
    (app : Application) (c : Connection) (pk : MemGuard) (r : SendReply)
    → IsPaired client_side (first_reply app c pk r)
unfolding first_reply fail_with
first_reply-IsPaired app c pk (refused pk' e) = refl
first_reply-IsPaired app c pk (ready pk') = ground arith

-- Whenever the client's handler completes a close, in start(), in read_handler or in a posted close,
-- it calls the reconnect callback exactly once, and it calls it at no other time.
pub client-reconnects :
    (app : Application) (c : Connection) (ec t r : ℕ) (e : ErrorWhat)
    → IsPaired client_side (start app c)
      × IsPaired client_side (read_handler app c ec t r)
      × IsPaired client_side (active_close app c e)
unfolding start fail_with run_close
client-reconnects app c ec t r e = (
  first_reply-IsPaired app c (mem_guard c.package_size) (app.on_first (mem_guard c.package_size)),
  read_handler-IsPaired client_side app c ec t r,
  ground arith,
)

first_reply-Balance :
    (app : Application) (c : Connection) (pk : MemGuard) (r : SendReply)
    → c.is_valid ≡ true
    → Balance 0 c (first_reply app c pk r)
unfolding first_reply
first_reply-Balance app c pk (refused pk' e) live =
    ground (arith, fail_with-Balance client_side app c e 0 live)
first_reply-Balance app c pk (ready pk') live = ground arith

-- On a valid handler, start() keeps the books: the package it makes is freed or written, and close_complete_func is called
-- once if the handler becomes invalid, and not otherwise.
pub start-Balance :
    (app : Application) (c : Connection) → c.is_valid ≡ true → Balance 0 c (start app c)
unfolding start
start-Balance app c live =
    first_reply-Balance app c (mem_guard c.package_size) (app.on_first (mem_guard c.package_size))
      live
