-- ===== src/Tcp/SslHandler.antt =====
-- bingo/TCP/tcp_svr_ssl_handler.h: the handler of one client over SSL. Its methods have the bodies of
-- those in bingo/TCP/tcp_svr_handler.h, but for start() and the handshake; and the handler is a
-- plain object, which `delete this` destroys, where the other handler is shared.
pub mod Handshake
use bingo_v.Prelude.{ℕ, Bool, true, false, Option, List, [], ◌∷◌, if◌then◌else◌}
use bingo_v.ErrorWhat.{ErrorWhat, error_what, err_no, err_message}
use bingo_v.MemGuard.{MemGuard}
use bingo_v.Tcp.Types.{Action, async_read, catch_error_func, Application, Connection}
use bingo_v.Tcp.Reader as Reader
use bingo_v.Tcp.Reader.{Effect, then_do, close_completed}
use bingo_v.Tcp.ServerHandler as ServerHandler
use bingo_v.Tcp.ServerHandler.{Server, Malloc, server_side}
use bingo_v.Tcp.ServerHandler.World.{World, Event, absorb, step}

abbrev pub tcp_svr_ssl_handler : ℕ → ℕ → ℕ → ℕ → Server
tcp_svr_ssl_handler = ServerHandler.tcp_svr_handler

-- start(): the times are set, and async_handshake begins.
unfoldable pub start : Server → ℕ → ℕ → Server
start s t3 t2 = record s { p3 = t3; p2 = t2 }

-- handle_handshake(error), without an error or with one, and whether it ends with `delete this`.
unfoldable pub handle_handshake : Application → Connection → Bool → Effect × Bool
handle_handshake app c true = ((c, async_read app.header_size ∷ []), false)
handle_handshake app c false = (
  if c.is_valid
      then then_do
          (catch_error_func (err_no 0x0F (err_message "ssl handshake is fail" error_what)) ∷ [])
          (close_completed server_side app c 0)
      else (c, []),
  true,
)

abbrev pub check_heartjump_timeout : ℕ → Server → ℕ → Bool
check_heartjump_timeout = ServerHandler.check_heartjump_timeout

abbrev pub check_authentication_pass : ℕ → Server → ℕ → Bool
check_authentication_pass = ServerHandler.check_authentication_pass

abbrev pub set_authentication_pass : Server → ℕ → Server
set_authentication_pass = ServerHandler.set_authentication_pass

abbrev pub send_data_in_thread : Connection → List ℕ → Option (List Action)
send_data_in_thread = ServerHandler.send_data_in_thread

abbrev pub send_close_in_thread : ErrorWhat → List Action
send_close_in_thread = ServerHandler.send_close_in_thread

abbrev pub active_close : Application → Connection → ErrorWhat → Effect
active_close = ServerHandler.run_close server_side

abbrev pub active_send_data : Application → Connection → MemGuard → List Action
active_send_data = ServerHandler.run_send_data

abbrev pub read_handler : Application → Connection → ℕ → ℕ → ℕ → Effect
read_handler = Reader.read_handler server_side

abbrev pub write_handler : ℕ → ℕ → MemGuard → List Action
write_handler = ServerHandler.write_handler

abbrev pub close : Application → Connection → ℕ → Effect
close = Reader.close server_side

abbrev pub malloc_snd_buffer : Connection → List ℕ → Option Malloc
malloc_snd_buffer = ServerHandler.malloc_snd_buffer

-- The handler with the io_service; `destroyed` says that the object was deleted.
pub record SslWorld : Type 0 where
  pub world : World
  pub destroyed : Bool

pub data SslEvent : Type 0 where
  handshake_done : Bool → SslEvent
  handler_event : Event → SslEvent

module _ (app : Application) where
  unfoldable pub begin_ssl : ℕ → ℕ → ℕ → ℕ → ℕ → ℕ → SslWorld
  unfolding start
  begin_ssl size t1 t3 t2 t3' t2' =
      let s = start (tcp_svr_ssl_handler size t1 t3 t2) t3' t2' in
      record {
        world = record { connection = s.connection; jobs = []; writes = []; trace = [] };
        destroyed = false;
      }

  -- One event while the object is alive.
  unfoldable pub live_step : World → SslEvent → SslWorld
  unfolding absorb step handle_handshake
  live_step w (handshake_done ok) =
      let (effect, deleted) = handle_handshake app w.connection ok in
      record { world = absorb w effect; destroyed = deleted }
  live_step w (handler_event e) = record { world = step server_side app w e; destroyed = false }

  -- What runs on a destroyed object is undefined; the model stops there.
  unfoldable pub ssl_step : SslWorld → SslEvent → SslWorld
  unfolding live_step
  ssl_step s e = if s.destroyed then s else live_step s.world e

  unfoldable pub ssl_steps : SslWorld → List SslEvent → SslWorld
  ssl_steps s [] = s
  ssl_steps s (e ∷ es) = ssl_steps (ssl_step s e) es
