-- ===== src/Tcp/ServerHandler.antt =====
-- bingo/TCP/tcp_svr_handler.h: the handler of one client on the server, without read_handler, close
-- and close_completed, which stand in Tcp/Reader. Times are microseconds; the local time that a
-- method reads is its argument.
pub mod World
pub mod Ownership
pub mod Silence
use bingo_v.Prelude.{
  ℕ, ◌+◌, ◌*◌, ◌≡◌, Bool, true, false, Option, none, some, List, [], ◌∷◌, ltb, if◌then◌else◌,
  length,
}
use bingo_v.ErrorWhat.{ErrorWhat, Status, error_what, error_with, clone}
use bingo_v.MemGuard.{MemGuard, Outcome, mem_guard, copy, contents}
use bingo_v.Tcp.Types.{
  Job, active_send_heartjump, active_send_data, active_close, Action, async_read, async_write, post,
  new_package, delete_package, catch_error_func, write_pk_full_complete_func,
  active_send_in_ioservice_func, active_send_heartjump_in_ioservice_func, SendReply, refused, ready,
  Application, Connection, Side,
}
use bingo_v.Tcp.Reader.{Effect, fail_with}

-- The class tcp_svr_handler: p1 is the last heartbeat, p2 the start of the authentication, p3 the
-- start of the active heartbeat.
pub record Server : Type 0 where
  pub connection : Connection
  pub is_authentication_pass : Bool
  pub p1 : ℕ
  pub p2 : ℕ
  pub p3 : ℕ

-- The errors 0x01 and 0x06 of read_handler and close.
abbrev pub server_side : Side
server_side = record {
  rev_exceed = error_with 0x01 "tcp receive message is more than max size!";
  closed_by_peer = error_with 0x06 "tcp server socket is been closed by client!";
  reconnects = false;
}

abbrev pub microseconds : ℕ
microseconds = 1000000

-- The constructor; `size` is sizeof(TCP_MESSAGE_PACKAGE).
unfoldable pub tcp_svr_handler : ℕ → ℕ → ℕ → ℕ → Server
tcp_svr_handler size t1 t3 t2 = record {
  connection = record {
    is_valid = true;
    is_open = true;
    rev_mgr = mem_guard size;
    package_size = size;
  };
  is_authentication_pass = false;
  p1 = t1;
  p2 = t2;
  p3 = t3;
}

unfoldable pub start : Application → Server → ℕ → ℕ → Server × List Action
start app s t3 t2 = (record s { p3 = t3; p2 = t2 }, async_read app.header_size ∷ [])

-- check_heartjump_timeout(), with PARSER::max_wait_for_heartjump_seconds: p1_ < now - seconds.
unfoldable pub check_heartjump_timeout : ℕ → Server → ℕ → Bool
check_heartjump_timeout seconds s now =
    if s.is_authentication_pass then ltb (s.p1 + seconds * microseconds) now else false

unfoldable pub set_heartjump_datetime : Server → ℕ → Server
set_heartjump_datetime s now = record s { p1 = now }

unfoldable pub set_active_heartjump_datetime : Server → ℕ → Server
set_active_heartjump_datetime s now = record s { p3 = now }

-- check_authentication_pass(), with PARSER::max_wait_for_authentication_pass_seconds.
unfoldable pub check_authentication_pass : ℕ → Server → ℕ → Bool
check_authentication_pass seconds s now =
    if s.is_authentication_pass
    then true
    else if ltb (s.p2 + seconds * microseconds) now
    then false
    else true

unfoldable pub set_authentication_pass : Server → ℕ → Server
unfolding set_heartjump_datetime
set_authentication_pass s now =
    set_heartjump_datetime (record s { is_authentication_pass = true }) now

-- malloc_snd_buffer: an error, or a new package with a copy of the data; `none` is a fault.
pub data Malloc : Type 0 where
  too_long : ErrorWhat → Malloc
  made : MemGuard → Malloc

made_of : Option Outcome → Option Malloc
made_of none = none
made_of (some (g, e, st)) = some (made g)

unfoldable pub malloc_snd_buffer : Connection → List ℕ → Option Malloc
unfolding made_of
malloc_snd_buffer c src =
    if ltb c.package_size (length src)
    then some (too_long (error_with 0x05 "tcp send message is more than max size!"))
    else made_of (copy (mem_guard c.package_size) src error_what)

-- The methods that other threads call: they post to the io_service.
unfoldable pub send_heartjump_in_thread : List Action
send_heartjump_in_thread = post active_send_heartjump ∷ []

unfoldable pub send_close_in_thread : ErrorWhat → List Action
send_close_in_thread e = post (active_close (clone e error_what)) ∷ []

sent : Option Malloc → Option (List Action)
unfolding send_close_in_thread
sent none = none
sent (some (too_long e)) = some (send_close_in_thread e)
sent (some (made pk)) = some (new_package pk ∷ post (active_send_data pk) ∷ [])

unfoldable pub send_data_in_thread : Connection → List ℕ → Option (List Action)
unfolding sent malloc_snd_buffer
send_data_in_thread c src = sent (malloc_snd_buffer c src)

-- The jobs that the io_service runs.
unfoldable pub run_send_heartjump : Connection → List Action
run_send_heartjump c = if c.is_valid then active_send_heartjump_in_ioservice_func ∷ [] else []

unfoldable pub run_close : Side → Application → Connection → ErrorWhat → Effect
run_close side app c e = if c.is_valid then fail_with side app c e 0 else (c, [])

send_reply : MemGuard → SendReply → List Action
send_reply pk (refused pk' e) =
    active_send_in_ioservice_func pk ∷ catch_error_func e ∷ delete_package pk' ∷ []
send_reply pk (ready pk') = active_send_in_ioservice_func pk ∷ async_write pk' ∷ []

unfoldable pub run_send_data : Application → Connection → MemGuard → List Action
unfolding send_reply
run_send_data app c pk =
    if c.is_valid then send_reply pk (app.on_send pk) else delete_package pk ∷ []

unfoldable pub write_handler : ℕ → ℕ → MemGuard → List Action
write_handler ec transferred pk =
    write_pk_full_complete_func (contents pk) transferred ec ∷ delete_package pk ∷ []
