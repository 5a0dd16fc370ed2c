-- ===== src/Tcp/ServerHandler/World.antt =====
-- bingo/TCP/tcp_svr_handler.h: one handler with the io_service. Any thread calls the posting
-- methods, posted jobs run in order, and reads and writes complete in any order, with any outcome.
use bingo_v.Prelude.{ℕ, zero, suc, Option, none, some, List, [], ◌∷◌, ◌++◌}
use bingo_v.ErrorWhat.{ErrorWhat}
use bingo_v.MemGuard.{MemGuard}
use bingo_v.Tcp.Types.{
  Job, active_send_heartjump, active_send_data, active_close, Action, Application, Connection, Side,
}
use bingo_v.Tcp.Accounting.{posted, started}
use bingo_v.Tcp.Reader.{Effect, read_handler}
use bingo_v.Tcp.ServerHandler.{
  send_heartjump_in_thread, send_close_in_thread, send_data_in_thread, run_send_heartjump,
  run_close, run_send_data, write_handler, tcp_svr_handler, start,
}

pub record World : Type 0 where
  pub connection : Connection
  pub jobs : List Job
  pub writes : List MemGuard
  pub trace : List Action

pub data Event : Type 0 where
  send_data : List ℕ → Event
  send_close : ErrorWhat → Event
  send_heartjump : Event
  run_job : Event
  -- a read completes: error code, bytes transferred, bytes requested
  read_done : ℕ → ℕ → ℕ → Event
  -- the write at a position completes: error code, bytes transferred
  write_done : ℕ → ℕ → ℕ → Event

-- An element and the list without it.
abbrev pub pick {ℓ} : {A : Type ℓ} → ℕ → List A → Option (A × List A)
pick i [] = none
pick zero (x ∷ xs) = some (x, xs)
pick (suc i) (x ∷ xs) = elim (pick i xs) [ none ↦ none | some (y, ys) ↦ some (y, x ∷ ys) ]

unfoldable pub absorb : World → Effect → World
absorb w (c, effects) = record {
  connection = c;
  jobs = w.jobs ++ posted effects;
  writes = w.writes ++ started effects;
  trace = w.trace ++ effects;
}

module _ (side : Side) (app : Application) where
  unfoldable pub run : Connection → Job → Effect
  run c active_send_heartjump = (c, run_send_heartjump c)
  run c (active_send_data pk) = (c, run_send_data app c pk)
  run c (active_close e) = run_close side app c e

  unfoldable pub run_next : World → List Job → World
  unfolding absorb run
  run_next w [] = w
  run_next w (j ∷ rest) = absorb (record w { jobs = rest }) (run w.connection j)

  unfoldable pub written : World → ℕ → ℕ → Option (MemGuard × List MemGuard) → World
  unfolding absorb
  written w ec n none = w
  written w ec n (some (pk, rest)) =
      absorb (record w { writes = rest }) (w.connection, write_handler ec n pk)

  unfoldable pub sends : World → Option (List Action) → World
  unfolding absorb
  sends w none = w
  sends w (some effects) = absorb w (w.connection, effects)

  unfoldable pub step : World → Event → World
  unfolding absorb run_next written sends
  step w (send_data src) = sends w (send_data_in_thread w.connection src)
  step w (send_close e) = absorb w (w.connection, send_close_in_thread e)
  step w send_heartjump = absorb w (w.connection, send_heartjump_in_thread)
  step w run_job = run_next w w.jobs
  step w (read_done ec n r) = absorb w (read_handler side app w.connection ec n r)
  step w (write_done i ec n) = written w ec n (pick i w.writes)

  -- The world after the constructor and start(), with the local times that they read.
  unfoldable pub begin : ℕ → ℕ → ℕ → ℕ → ℕ → ℕ → World
  unfolding absorb
  begin size t1 t3 t2 t3' t2' =
      let s = tcp_svr_handler size t1 t3 t2 in
      let started_server = start app s t3' t2' in
      absorb (record { connection = s.connection; jobs = []; writes = []; trace = [] })
        (started_server.0.connection, started_server.1)

  unfoldable pub steps : World → List Event → World
  steps w [] = w
  steps w (e ∷ es) = steps (step w e) es
