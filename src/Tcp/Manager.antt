-- ===== src/Tcp/Manager.antt =====
-- bingo/TCP/tcp_handler_manager.h, bingo/TCP/tcp_svr_hdr_manager.h: the handlers that a server keeps.
-- A pointer is a number, 0 is null. The class HANDLER is tcp_svr_handler: `store` is the handler
-- at a pointer, `now` the local time that the handler at a pointer reads. Each method runs under
-- the mutex mu_. A method returns what the handlers that it calls do, with their pointers.
pub mod Members
pub mod Timeouts
use bingo_v.Prelude.{
  ℕ, Bool, true, false, not, Option, none, some, List, [], ◌∷◌, ◌++◌, ◌==◌, if◌then◌else◌,
}
use bingo_v.ErrorWhat.{ErrorWhat, Status, success, failure, set_error, error_with}
use bingo_v.Tcp.Types.{Action}
use bingo_v.Tcp.ServerHandler.{
  Server, send_data_in_thread, send_close_in_thread, send_heartjump_in_thread,
  check_heartjump_timeout, check_authentication_pass,
}

abbrev pub Calls : Type 0
Calls = List (ℕ × List Action)

-- boost::find_if with find_first_tcp_handler_same_pointer.
unfoldable pub find_first : ℕ → List ℕ → Bool
find_first hdr [] = false
find_first hdr (p ∷ sets) = if p == hdr then true else find_first hdr sets

unfoldable pub push : ℕ → List ℕ → List ℕ
push hdr sets = sets ++ hdr ∷ []

-- sets_.erase of the element that find_if found.
unfoldable pub erase_first : ℕ → List ℕ → List ℕ
erase_first hdr [] = []
erase_first hdr (p ∷ sets) = if p == hdr then sets else p ∷ erase_first hdr sets

abbrev no_exist : ErrorWhat → ErrorWhat
no_exist e = set_error 0x11 "tcp handler isn't exist!" e

unfoldable pub erase : ℕ → List ℕ → ErrorWhat → List ℕ × ErrorWhat × Status
unfolding find_first erase_first
erase hdr sets e =
    if find_first hdr sets then (erase_first hdr sets, e, success) else (sets, no_exist e, failure)

-- The call of a handler under `if (p0)`.
abbrev unless_null : ℕ → Calls → Calls
unless_null p calls = if p == 0 then [] else calls

posting : ℕ → ErrorWhat → Option (List Action) → Option (Calls × ErrorWhat × Status)
posting hdr e none = none
posting hdr e (some actions) = some ((hdr, actions) ∷ [], e, success)

-- send_data_in_thread(hdr, data, data_size, e_what); `none` is a fault in the handler.
unfoldable pub send_data :
    (ℕ → Server) → ℕ → List ℕ → List ℕ → ErrorWhat → Option (Calls × ErrorWhat × Status)
unfolding find_first posting
send_data store hdr src sets e =
    if find_first hdr sets
    then if hdr == 0
      then some ([], e, success)
      else posting hdr e (send_data_in_thread (store hdr).connection src)
    else some ([], no_exist e, failure)

-- send_close_in_thread(hdr, e_what)
unfoldable pub send_close : ℕ → List ℕ → ErrorWhat → Calls × ErrorWhat × Status
unfolding find_first
send_close hdr sets e =
    if find_first hdr sets
    then (unless_null hdr ((hdr, send_close_in_thread e) ∷ []), e, success)
    else ([], no_exist e, failure)

-- send_heartjump_in_thread()
unfoldable pub send_heartjump : List ℕ → Calls
send_heartjump [] = []
send_heartjump (p ∷ sets) =
    unless_null p ((p, send_heartjump_in_thread) ∷ []) ++ send_heartjump sets

abbrev pub by_heartbeat : ErrorWhat
by_heartbeat = error_with 0x07 "tcp server socket is been closed by heartbeat!"

abbrev pub by_authentication : ErrorWhat
by_authentication = error_with 0x08 "tcp server socket is been closed by authentication!"

module _ (seconds : ℕ) (store : ℕ → Server) (now : ℕ → ℕ) where
  -- find_all_of_handler_because_heartjump_timeout
  unfoldable pub heartjump_timeout : ℕ → Bool
  heartjump_timeout p = if p == 0 then false else check_heartjump_timeout seconds (store p) (now p)

  -- check_heartjump_in_thread()
  unfoldable pub check_heartjump_in_thread : List ℕ → Calls
  unfolding heartjump_timeout
  check_heartjump_in_thread [] = []
  check_heartjump_in_thread (p ∷ sets) =
      (if heartjump_timeout p
        then unless_null p ((p, send_close_in_thread by_heartbeat) ∷ [])
        else [])
      ++ check_heartjump_in_thread sets

  -- check_heartjump() has the same body.
  abbrev pub check_heartjump : List ℕ → Calls
  check_heartjump = check_heartjump_in_thread

  -- check_authentication_pass_in_thread()
  unfoldable pub check_authentication_pass_in_thread : List ℕ → Calls
  check_authentication_pass_in_thread [] = []
  check_authentication_pass_in_thread (p ∷ sets) =
      unless_null p (
        if not (check_authentication_pass seconds (store p) (now p))
        then (p, send_close_in_thread by_authentication) ∷ []
        else [])
      ++ check_authentication_pass_in_thread sets

  -- check_authentication_pass() has the same body.
  abbrev pub check_authentication : List ℕ → Calls
  check_authentication = check_authentication_pass_in_thread
