-- ===== src/Tcp/Server.antt =====
-- bingo/TCP/tcp_server.h: accepting connections and the two timers that check the handlers. The class
-- SOCKET_MANAGER is tcp_svr_hdr_manager. The answer of accept_success_func is an error or none.
pub mod Listening
use bingo_v.Prelude.{
  ℕ, suc, ◌+◌, ◌-◌, Bool, true, false, Option, none, some, List, [], ◌∷◌, ◌++◌, ltb, ◌==◌,
  if◌then◌else◌,
}
use bingo_v.ErrorWhat.{ErrorWhat}
use bingo_v.Tcp.ServerHandler.{Server}
use bingo_v.Tcp.Manager as Manager
use bingo_v.Tcp.Manager.{Calls}

-- The constants of the class PARSER that the server reads.
pub record Waits : Type 0 where
  pub max_wait_for_authentication_pass_seconds : ℕ
  pub max_wait_for_heartjump_seconds : ℕ

pub data ServerAction : Type 0 where
  -- a new handler and async_accept; async_wait of the two timers with their seconds
  async_accept : ServerAction
  authentication_wait heartjump_wait : ℕ → ServerAction
  -- start() of a handler, or catch_error and close_socket; accept_error_func
  handler_start : ServerAction
  handler_refuse : ErrorWhat → ServerAction
  accept_error_func : ServerAction
  -- what the manager has the handlers do
  manager_calls : Calls → ServerAction

unfoldable pub check_authentication : Waits → List ServerAction
check_authentication w =
    if ltb 0 w.max_wait_for_authentication_pass_seconds
    then authentication_wait w.max_wait_for_authentication_pass_seconds ∷ []
    else []

unfoldable pub check_heartjump : Waits → List ServerAction
check_heartjump w =
    if ltb 0 w.max_wait_for_heartjump_seconds
    then heartjump_wait w.max_wait_for_heartjump_seconds ∷ []
    else []

-- The constructor.
unfoldable pub tcp_server : Waits → List ServerAction
unfolding check_authentication check_heartjump
tcp_server w = async_accept ∷ (check_heartjump w ++ check_authentication w)

-- accept_handler(new_handler, ec), without an error or with one.
unfoldable pub accept_handler : Bool → Option ErrorWhat → List ServerAction
accept_handler true none = handler_start ∷ async_accept ∷ []
accept_handler true (some e) = handler_refuse e ∷ async_accept ∷ []
accept_handler false reply = accept_error_func ∷ async_accept ∷ []

module _ (w : Waits) (store : ℕ → Server) where
  -- authentication_handler(ec), without an error or with one, over the handlers in the manager.
  unfoldable pub authentication_handler : Bool → (ℕ → ℕ) → List ℕ → List ServerAction
  unfolding check_authentication
  authentication_handler false now sets = []
  authentication_handler true now sets =
      manager_calls
        (Manager.check_authentication w.max_wait_for_authentication_pass_seconds store now sets)
      ∷ check_authentication w

  unfoldable pub heartjump_handler : Bool → (ℕ → ℕ) → List ℕ → List ServerAction
  unfolding check_heartjump
  heartjump_handler false now sets = []
  heartjump_handler true now sets =
      manager_calls (Manager.check_heartjump w.max_wait_for_heartjump_seconds store now sets)
      ∷ check_heartjump w

-- A completion: of the accept, or of one of the timers with the local times of the handlers and the
-- handlers that the manager holds then.
pub data Completion : Type 0 where
  accepted : Bool → Option ErrorWhat → Completion
  authentication_fired heartjump_fired : Bool → (ℕ → ℕ) → List ℕ → Completion

-- The operations under way, and all effects so far.
pub record Listener : Type 0 where
  pub accepts : ℕ
  pub authentication_timers : ℕ
  pub heartjump_timers : ℕ
  pub trace : List ServerAction

abbrev pub count_accepts : List ServerAction → ℕ
count_accepts [] = 0
count_accepts (async_accept ∷ rest) = suc (count_accepts rest)
count_accepts (_ ∷ rest) = count_accepts rest

abbrev pub count_authentications : List ServerAction → ℕ
count_authentications [] = 0
count_authentications (authentication_wait s ∷ rest) = suc (count_authentications rest)
count_authentications (_ ∷ rest) = count_authentications rest

abbrev pub count_heartjumps : List ServerAction → ℕ
count_heartjumps [] = 0
count_heartjumps (heartjump_wait s ∷ rest) = suc (count_heartjumps rest)
count_heartjumps (_ ∷ rest) = count_heartjumps rest

abbrev pub begins : Listener → List ServerAction → Listener
begins l effects = record {
  accepts = l.accepts + count_accepts effects;
  authentication_timers = l.authentication_timers + count_authentications effects;
  heartjump_timers = l.heartjump_timers + count_heartjumps effects;
  trace = l.trace ++ effects;
}

unfoldable pub listen : Waits → Listener
unfolding tcp_server
listen w =
    begins (record { accepts = 0; authentication_timers = 0; heartjump_timers = 0; trace = [] })
      (tcp_server w)

module _ (w : Waits) (store : ℕ → Server) where
  -- A completion of an operation that is under way; another one cannot happen.
  unfoldable pub complete : Listener → Completion → Listener
  unfolding accept_handler authentication_handler heartjump_handler
  complete l (accepted ok reply) =
      if l.accepts == 0
      then l
      else begins (record l { accepts = l.accepts - 1 }) (accept_handler ok reply)
  complete l (authentication_fired ok now sets) =
      if l.authentication_timers == 0
      then l
      else begins (record l { authentication_timers = l.authentication_timers - 1 })
          (authentication_handler w store ok now sets)
  complete l (heartjump_fired ok now sets) =
      if l.heartjump_timers == 0
      then l
      else begins (record l { heartjump_timers = l.heartjump_timers - 1 })
          (heartjump_handler w store ok now sets)

  unfoldable pub complete_all : Listener → List Completion → Listener
  complete_all l [] = l
  complete_all l (e ∷ es) = complete_all (complete l e) es
