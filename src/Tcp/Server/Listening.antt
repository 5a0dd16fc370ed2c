-- ===== src/Tcp/Server/Listening.antt =====
-- bingo/TCP/tcp_server.h: the accept and the timers that are under way.
use bingo_v.Prelude.{
  All, ℕ, ◌≤◌, ◌≡◌, true, false, none, some, List, [], ◌∷◌, ltb, if◌then◌else◌, arith,
}
use bingo_v.Tcp.ServerHandler.{Server}
use bingo_v.Tcp.Server.{
  Waits, Listener, Completion, accepted, authentication_fired, heartjump_fired, tcp_server,
  check_authentication, check_heartjump, accept_handler, authentication_handler, heartjump_handler,
  listen, complete, complete_all,
}

-- No timer that fires reports an error; an accept may.
abbrev pub IsClean : Completion → Type 0
IsClean (accepted ok reply) = Unit
IsClean (authentication_fired ok now sets) = ok ≡ true
IsClean (heartjump_fired ok now sets) = ok ≡ true

-- One accept under way, and each timer that is wanted at most once.
pub record IsListening (w : Waits) (l : Listener) : Type 0 where
  pub one_accept : l.accepts ≡ 1
  pub authentication_once :
      l.authentication_timers ≤ (if ltb 0 w.max_wait_for_authentication_pass_seconds then 1 else 0)
  pub heartjump_once :
      l.heartjump_timers ≤ (if ltb 0 w.max_wait_for_heartjump_seconds then 1 else 0)

listen-IsListening : (w : Waits) → IsListening w (listen w)
unfolding listen tcp_server check_heartjump check_authentication
listen-IsListening w = ground arith

-- Each timer that is wanted is under way, once.
pub record IsWatching (w : Waits) (l : Listener) : Type 0 where
  pub authentication_on :
      l.authentication_timers ≡ (if ltb 0 w.max_wait_for_authentication_pass_seconds then 1 else 0)
  pub heartjump_on : l.heartjump_timers ≡ (if ltb 0 w.max_wait_for_heartjump_seconds then 1 else 0)

listen-IsWatching : (w : Waits) → IsWatching w (listen w)
unfolding listen tcp_server check_heartjump check_authentication
listen-IsWatching w = ground arith

module _ (w : Waits) (store : ℕ → Server) where
  complete-IsListening :
      (l : Listener) (e : Completion) → IsListening w l → IsListening w (complete w store l e)
  unfolding complete accept_handler authentication_handler heartjump_handler check_heartjump
      check_authentication
  complete-IsListening l (accepted true none) v = ground arith
  complete-IsListening l (accepted true (some e)) v = ground arith
  complete-IsListening l (accepted false reply) v = ground arith
  complete-IsListening l (authentication_fired true now sets) v = ground arith
  complete-IsListening l (authentication_fired false now sets) v = ground arith
  complete-IsListening l (heartjump_fired true now sets) v = ground arith
  complete-IsListening l (heartjump_fired false now sets) v = ground arith

  complete_all-IsListening :
      (l : Listener) (es : List Completion)
      → IsListening w l
      → IsListening w (complete_all w store l es)
  unfolding complete_all
  complete_all-IsListening l [] v = v
  complete_all-IsListening l (e ∷ es) v =
      complete_all-IsListening (complete w store l e) es (complete-IsListening l e v)

  -- After every history of completions from the constructor on, with errors or without, the server has
  -- exactly one accept under way, and each of its two timers at most once, and not at all when its number of
  -- seconds is 0.
  pub listen-accepts : (es : List Completion) → IsListening w (complete_all w store (listen w) es)
  listen-accepts es = complete_all-IsListening (listen w) es (listen-IsListening w)

  complete-IsWatching :
      (l : Listener) (e : Completion)
      → IsClean e
      → IsWatching w l
      → IsWatching w (complete w store l e)
  unfolding complete accept_handler authentication_handler heartjump_handler check_heartjump
      check_authentication
  complete-IsWatching l (accepted true none) c v = ground arith
  complete-IsWatching l (accepted true (some e)) c v = ground arith
  complete-IsWatching l (accepted false reply) c v = ground arith
  complete-IsWatching l (authentication_fired true now sets) c v = ground arith
  complete-IsWatching l (authentication_fired false now sets) c v = ground arith
  complete-IsWatching l (heartjump_fired true now sets) c v = ground arith
  complete-IsWatching l (heartjump_fired false now sets) c v = ground arith

  complete_all-IsWatching :
      (l : Listener) (es : List Completion)
      → All IsClean es
      → IsWatching w l
      → IsWatching w (complete_all w store l es)
  unfolding complete_all
  complete_all-IsWatching l [] c v = v
  complete_all-IsWatching l (e ∷ es) c v =
      complete_all-IsWatching (complete w store l e) es c.1 (complete-IsWatching l e c.0 v)

  -- After every history of completions from the constructor on in which no timer reports an error, each
  -- timer with a positive number of seconds is under way exactly once: the checks of the handlers go
  -- on for ever.
  pub listen-watches :
      (es : List Completion) → All IsClean es → IsWatching w (complete_all w store (listen w) es)
  listen-watches es c = complete_all-IsWatching (listen w) es c (listen-IsWatching w)
