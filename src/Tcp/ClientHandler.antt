-- ===== src/Tcp/ClientHandler.antt =====
-- bingo/TCP/tcp_cet_handler.h: the handler of the client's connection. The methods whose bodies are
-- those of the server's handler are that handler's, for the client's side.
pub mod Effects
use bingo_v.Prelude.{
  ℕ, ◌+◌, ◌*◌, Bool, true, false, Option, List, [], ◌∷◌, ◌++◌, ltb, ◌==◌, if◌then◌else◌,
}
use bingo_v.ErrorWhat.{ErrorWhat, error_with}
use bingo_v.MemGuard.{MemGuard, mem_guard, contents}
use bingo_v.Tcp.Types.{
  Action, async_read, async_write_first, authenticate, new_package, delete_package,
  write_pk_full_complete_func, make_first_sended_package_func, SendReply, refused, ready,
  Application, Connection, Side,
}
use bingo_v.Tcp.Reader as Reader
use bingo_v.Tcp.Reader.{Effect, fail_with}
use bingo_v.Tcp.ServerHandler as ServerHandler
use bingo_v.Tcp.ServerHandler.{Malloc, microseconds}

-- The class tcp_cet_handler: p1 is the last heartbeat.
pub record Client : Type 0 where
  pub connection : Connection
  pub p1 : ℕ

-- The errors 0x01 and 0x0A of read_handler and close.
abbrev pub client_side : Side
client_side = record {
  rev_exceed = error_with 0x01 "receive message is more than max size!";
  closed_by_peer = error_with 0x0A "tcp client socket is been closed by server!";
  reconnects = true;
}

-- The constructor; p1_ is not set there.
unfoldable pub tcp_cet_handler : ℕ → ℕ → Client
tcp_cet_handler size p1 = record {
  connection = record {
    is_valid = true;
    is_open = true;
    rev_mgr = mem_guard size;
    package_size = size;
  };
  p1 = p1;
}

first_reply : Application → Connection → MemGuard → SendReply → Effect
unfolding fail_with
first_reply app c pk (refused pk' e) =
    let (c', rest) = fail_with client_side app c e 0 in
    (c', new_package pk ∷ make_first_sended_package_func pk ∷ delete_package pk' ∷ rest)
first_reply app c pk (ready pk') = (
  c,
  new_package pk
      ∷ make_first_sended_package_func pk
      ∷ (if pk'.len == 0
          then delete_package pk' ∷ async_read app.header_size ∷ []
          else async_write_first pk' ∷ []),
)

-- start(): the application fills the first package, which is sent unless it is empty.
unfoldable pub start : Application → Connection → Effect
unfolding first_reply
start app c = let pk = mem_guard c.package_size in first_reply app c pk (app.on_first pk)

-- write_first_handler(ec, bytes_transferred, pk)
unfoldable pub write_first_handler : Application → ℕ → ℕ → MemGuard → List Action
write_first_handler app ec transferred pk =
    write_pk_full_complete_func (contents pk) transferred ec
    ∷ delete_package pk
    ∷ async_read app.header_size
    ∷ []

unfoldable pub set_heartjump_datetime : Client → ℕ → Client
set_heartjump_datetime c now = record c { p1 = now }

-- check_heartjump_timeout(), with PARSER::max_interval_seconds_check_heartjump.
unfoldable pub check_heartjump_timeout : ℕ → Client → ℕ → Bool
check_heartjump_timeout seconds c now = ltb (c.p1 + seconds * microseconds) now

unfoldable pub set_authenticate_pass : Bool → List Action
set_authenticate_pass is_pass = authenticate is_pass ∷ []

abbrev pub read_handler : Application → Connection → ℕ → ℕ → ℕ → Effect
read_handler = Reader.read_handler client_side

-- close(ec) and close_completed(ec_value), which ends with reconnet().
abbrev pub close : Application → Connection → ℕ → Effect
close = Reader.close client_side

abbrev pub close_completed : Application → Connection → ℕ → Effect
close_completed = Reader.close_completed client_side

abbrev pub send_data_in_thread : Connection → List ℕ → Option (List Action)
send_data_in_thread = ServerHandler.send_data_in_thread

abbrev pub send_close_in_thread : ErrorWhat → List Action
send_close_in_thread = ServerHandler.send_close_in_thread

abbrev pub active_send : Application → Connection → MemGuard → List Action
active_send = ServerHandler.run_send_data

abbrev pub active_close : Application → Connection → ErrorWhat → Effect
active_close = ServerHandler.run_close client_side

abbrev pub write_handler : ℕ → ℕ → MemGuard → List Action
write_handler = ServerHandler.write_handler

abbrev pub malloc_snd_buffer : Connection → List ℕ → Option Malloc
malloc_snd_buffer = ServerHandler.malloc_snd_buffer
