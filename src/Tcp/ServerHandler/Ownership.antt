-- ===== src/Tcp/ServerHandler/Ownership.antt =====
-- bingo/TCP/tcp_svr_handler.h: who holds a package, and how often a close completes.
use bingo_v.Prelude.{
  ℕ, zero, suc, ◌+◌, ◌≡◌, refl, ap, Option, none, some, List, [], ◌∷◌, arith, length, length-append,
  Option-cases, inl, inr,
}
use bingo_v.ErrorWhat.{ErrorWhat}
use bingo_v.MemGuard.{MemGuard}
use bingo_v.Tcp.Types.{
  Job, active_send_heartjump, active_send_data, active_close, Action, Application, Connection, Side,
}
use bingo_v.Tcp.Accounting.{
  posted, started, packages, news, deletes, closings, alive, packages-append, news-append,
  deletes-append, closings-append, Balance,
}
use bingo_v.Tcp.Reader.Balance.{read_handler-Balance}
use bingo_v.Tcp.Reader.{Effect, fail_with, read_handler}
use bingo_v.Tcp.ServerHandler.{
  send_heartjump_in_thread, send_close_in_thread, send_data_in_thread, run_send_heartjump,
  run_close, tcp_svr_handler, start, run_send_data, write_handler, malloc_snd_buffer,
}
use bingo_v.Tcp.ServerHandler.World.{
  World, Event, send_data, send_close, send_heartjump, run_job, read_done, write_done, pick, absorb,
  run, run_next, written, sends, step, steps, begin,
}

-- Each package made is freed, posted or being written; each valid handler closes at most once.
pub record Inv (w : World) : Type 0 where
  pub owned : news w.trace ≡ deletes w.trace + (packages w.jobs + length w.writes)
  pub closed : closings w.trace + alive w.connection ≡ 1

pub absorb-Inv :
    (w : World) (held : ℕ) (r : Effect)
    → news w.trace ≡ deletes w.trace + (packages w.jobs + length w.writes) + held
    → closings w.trace + alive w.connection ≡ 1
    → Balance held w.connection r
    → Inv (absorb w r)
unfolding absorb
absorb-Inv w held (c, effects) o k b = record {
  owned = omega (
    arith,
    news-append w.trace effects,
    deletes-append w.trace effects,
    packages-append w.jobs (posted effects),
    length-append w.writes (started effects),
    b.owned,
  );
  closed = omega (arith, closings-append w.trace effects, b.closed);
}

run_close-Balance :
    (side : Side) (app : Application) (c : Connection) (e : ErrorWhat)
    → Balance 0 c (run_close side app c e)
unfolding run_close fail_with
run_close-Balance side app c e = ground arith

run_send_data-Balance :
    (app : Application) (c : Connection) (pk : MemGuard) → Balance 1 c (c, run_send_data app c pk)
unfolding run_send_data
run_send_data-Balance app c pk = ground arith

pub length-pick {ℓ} :
    {A : Type ℓ} (i : ℕ) (xs : List A) (y : A) (ys : List A)
    → pick i xs ≡ some (y, ys)
    → length xs ≡ suc (length ys)
length-pick i [] y ys e = cc
length-pick zero (x ∷ xs) y ys e = ground arith
length-pick (suc i) (x ∷ xs) y ys e = elim (Option-cases (pick i xs)) [
  | inl none_left ↦ ground (arith, none_left)
  | inr ((z, zs), hit) ↦ ground (arith, length-pick i xs z zs hit)
]

-- The effects of send_data_in_thread: a close is posted, or a new package.
send_data_in_thread-Balance :
    (c : Connection) (src : List ℕ) (effects : List Action)
    → send_data_in_thread c src ≡ some effects
    → Balance 0 c (c, effects)
unfolding send_data_in_thread send_close_in_thread malloc_snd_buffer
send_data_in_thread-Balance c src effects e = ground arith

module _ (side : Side) (app : Application) where
  sends-Inv :
      (w : World) (src : List ℕ) (o : Option (List Action))
      → send_data_in_thread w.connection src ≡ o
      → Inv w
      → Inv (sends side app w o)
  unfolding sends
  sends-Inv w src none e v = v
  sends-Inv w src (some effects) e v =
      absorb-Inv w 0 (w.connection, effects) (omega (arith, v.owned)) v.closed
        (send_data_in_thread-Balance w.connection src effects e)

  run_next-Inv : (w : World) (js : List Job) → w.jobs ≡ js → Inv w → Inv (run_next side app w js)
  unfolding run_next run
  run_next-Inv w [] e v = v
  run_next-Inv w (active_send_heartjump ∷ rest) e v =
      absorb-Inv (record w { jobs = rest }) 0 (w.connection, run_send_heartjump w.connection)
        (omega (arith, v.owned, ap packages e)) v.closed (unfold run_send_heartjump in ground arith)
  run_next-Inv w (active_send_data pk ∷ rest) e v =
      absorb-Inv (record w { jobs = rest }) 1 (w.connection, run_send_data app w.connection pk)
        (omega (arith, v.owned, ap packages e)) v.closed (run_send_data-Balance app w.connection pk)
  run_next-Inv w (active_close err ∷ rest) e v =
      absorb-Inv (record w { jobs = rest }) 0 (run_close side app w.connection err)
        (omega (arith, v.owned, ap packages e)) v.closed
        (run_close-Balance side app w.connection err)

  written-Inv :
      (w : World) (i ec n : ℕ) (o : Option (MemGuard × List MemGuard))
      → pick i w.writes ≡ o
      → Inv w
      → Inv (written side app w ec n o)
  unfolding written
  written-Inv w i ec n none e v = v
  written-Inv w i ec n (some (pk, rest)) e v =
      absorb-Inv (record w { writes = rest }) 1 (w.connection, write_handler ec n pk)
        (omega (arith, v.owned, length-pick i w.writes pk rest e)) v.closed
        (unfold write_handler in ground arith)

  pub step-Inv : (w : World) (e : Event) → Inv w → Inv (step side app w e)
  unfolding step
  step-Inv w (send_data src) v = sends-Inv w src (send_data_in_thread w.connection src) refl v
  step-Inv w (send_close e) v =
      absorb-Inv w 0 (w.connection, send_close_in_thread e) (omega (arith, v.owned)) v.closed
        (unfold send_close_in_thread in ground arith)
  step-Inv w send_heartjump v =
      absorb-Inv w 0 (w.connection, send_heartjump_in_thread) (omega (arith, v.owned)) v.closed
        (unfold send_heartjump_in_thread in ground arith)
  step-Inv w run_job v = run_next-Inv w w.jobs refl v
  step-Inv w (read_done ec n r) v =
      absorb-Inv w 0 (read_handler side app w.connection ec n r) (omega (arith, v.owned)) v.closed
        (read_handler-Balance side app w.connection ec n r)
  step-Inv w (write_done i ec n) v = written-Inv w i ec n (pick i w.writes) refl v

  steps-Inv : (w : World) (es : List Event) → Inv w → Inv (steps side app w es)
  unfolding steps
  steps-Inv w [] v = v
  steps-Inv w (e ∷ es) v = steps-Inv (step side app w e) es (step-Inv w e v)

  -- In every history of a handler from its start on, whatever the order and the outcome of reads,
  -- writes and jobs: the packages that were made are those freed, those in posted jobs and
  -- those being written, each counted once; and close_complete_func was called once if the handler is no
  -- longer valid, and not at all while it is.
  pub begin-Inv :
      (size t1 t3 t2 t3' t2' : ℕ) (es : List Event)
      → Inv (steps side app (begin side app size t1 t3 t2 t3' t2') es)
  begin-Inv size t1 t3 t2 t3' t2' es =
      steps-Inv (begin side app size t1 t3 t2 t3' t2') es
        (unfold begin tcp_svr_handler start absorb in record { owned = refl; closed = refl })
