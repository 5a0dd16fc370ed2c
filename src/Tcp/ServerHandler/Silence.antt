-- ===== src/Tcp/ServerHandler/Silence.antt =====
-- bingo/TCP/tcp_svr_handler.h: a handler that is no longer valid.
use bingo_v.Prelude.{
  ℕ, suc, ◌+◌, ◌≡◌, ◌∙◌, refl, ap, false, Option, none, some, List, [], ◌∷◌, ◌++◌, arith, length,
  length-append,
}
use bingo_v.MemGuard.{MemGuard}
use bingo_v.Tcp.Types.{
  Job, active_send_heartjump, active_send_data, active_close, Action, async_read, async_write,
  async_write_first, Application, Side,
}
use bingo_v.Tcp.Accounting.{started}
use bingo_v.Tcp.Reader.{Effect, read_handler}
use bingo_v.Tcp.ServerHandler.{
  send_heartjump_in_thread, send_close_in_thread, send_data_in_thread, run_send_heartjump,
  run_close, run_send_data, write_handler, malloc_snd_buffer, sent,
}
use bingo_v.Tcp.ServerHandler.World.{
  World, Event, send_data, send_close, send_heartjump, run_job, read_done, write_done, pick, absorb,
  run, run_next, written, sends, step, steps,
}

-- The reads that a list of effects starts.
abbrev pub reads : List Action → ℕ
reads [] = 0
reads (async_read n ∷ rest) = suc (reads rest)
reads (_ ∷ rest) = reads rest

reads-append : (xs ys : List Action) → reads (xs ++ ys) ≡ reads xs + reads ys
reads-append [] ys = omega arith
reads-append (async_read n ∷ xs) ys = omega (arith, reads-append xs ys)
reads-append (_ ∷ xs) ys = reads-append xs ys

started-append : (xs ys : List Action) → started (xs ++ ys) ≡ started xs ++ started ys
started-append [] ys = refl
started-append (async_write g ∷ xs) ys = ap (◌∷◌ g) (started-append xs ys)
started-append (async_write_first g ∷ xs) ys = ap (◌∷◌ g) (started-append xs ys)
started-append (_ ∷ xs) ys = started-append xs ys

-- Nothing is started between the two worlds, and the handler stays as it is.
pub record Silent (w w' : World) : Type 0 where
  pub same : w'.connection ≡ w.connection
  pub no_read : reads w'.trace ≡ reads w.trace
  pub no_write : length (started w'.trace) ≡ length (started w.trace)

absorb-Silent :
    (w : World) (r : Effect)
    → r.0 ≡ w.connection
    → reads r.1 ≡ 0
    → length (started r.1) ≡ 0
    → Silent w (absorb w r)
unfolding absorb
absorb-Silent w (c, effects) e n s = record {
  same = e;
  no_read = omega (arith, reads-append w.trace effects, n);
  no_write = omega (
    arith,
    ap length (started-append w.trace effects),
    length-append (started w.trace) (started effects),
    s,
  );
}

-- The jobs and the writes that were there do not count.
less-Silent :
    (w : World) (js : List Job) (ws : List MemGuard) (w' : World)
    → Silent (record w { jobs = js; writes = ws }) w'
    → Silent w w'
less-Silent w js ws w' s = record { same = s.same; no_read = s.no_read; no_write = s.no_write }

trans-Silent : (u v w : World) → Silent u v → Silent v w → Silent u w
trans-Silent u v w a b = record {
  same = b.same ∙ a.same;
  no_read = b.no_read ∙ a.no_read;
  no_write = b.no_write ∙ a.no_write;
}

module _ (side : Side) (app : Application) where
  sends-Silent :
      (w : World) (src : List ℕ) (o : Option (List Action))
      → send_data_in_thread w.connection src ≡ o
      → Silent w (sends side app w o)
  unfolding sends
  sends-Silent w src none e = record { same = refl; no_read = refl; no_write = refl }
  sends-Silent w src (some effects) e =
      absorb-Silent w (w.connection, effects) refl
        (unfold send_data_in_thread sent send_close_in_thread malloc_snd_buffer in ground arith)
        (unfold send_data_in_thread sent send_close_in_thread malloc_snd_buffer in ground arith)

  run_next-Silent :
      (w : World) (js : List Job)
      → w.connection.is_valid ≡ false
      → Silent w (run_next side app w js)
  unfolding run_next run
  run_next-Silent w [] gone = record { same = refl; no_read = refl; no_write = refl }
  run_next-Silent w (active_send_heartjump ∷ rest) gone = less-Silent w rest w.writes _ (
      absorb-Silent (record w { jobs = rest }) (w.connection, run_send_heartjump w.connection) refl
        (unfold run_send_heartjump in ground arith) (unfold run_send_heartjump in ground arith))
  run_next-Silent w (active_send_data pk ∷ rest) gone = less-Silent w rest w.writes _ (
      absorb-Silent (record w { jobs = rest }) (w.connection, run_send_data app w.connection pk)
        refl (unfold run_send_data in ground arith) (unfold run_send_data in ground arith))
  run_next-Silent w (active_close err ∷ rest) gone = less-Silent w rest w.writes _ (
      absorb-Silent (record w { jobs = rest }) (run_close side app w.connection err)
        (unfold run_close in ground arith) (unfold run_close in ground arith)
        (unfold run_close in ground arith))

  written-Silent :
      (w : World) (i ec n : ℕ) (o : Option (MemGuard × List MemGuard))
      → pick i w.writes ≡ o
      → Silent w (written side app w ec n o)
  unfolding written
  written-Silent w i ec n none e = record { same = refl; no_read = refl; no_write = refl }
  written-Silent w i ec n (some (pk, rest)) e = less-Silent w w.jobs rest _ (
      absorb-Silent (record w { writes = rest }) (w.connection, write_handler ec n pk) refl
        (unfold write_handler in ground arith) (unfold write_handler in ground arith))

  step-Silent :
      (w : World) (e : Event) → w.connection.is_valid ≡ false → Silent w (step side app w e)
  unfolding step
  step-Silent w (send_data src) gone =
      sends-Silent w src (send_data_in_thread w.connection src) refl
  step-Silent w (send_close e) gone =
      absorb-Silent w (w.connection, send_close_in_thread e) refl
        (unfold send_close_in_thread in ground arith) (unfold send_close_in_thread in ground arith)
  step-Silent w send_heartjump gone =
      absorb-Silent w (w.connection, send_heartjump_in_thread) refl
        (unfold send_heartjump_in_thread in ground arith)
        (unfold send_heartjump_in_thread in ground arith)
  step-Silent w run_job gone = run_next-Silent w w.jobs gone
  step-Silent w (read_done ec n r) gone =
      absorb-Silent w (read_handler side app w.connection ec n r)
        (unfold read_handler in ground arith) (unfold read_handler in ground arith)
        (unfold read_handler in ground arith)
  step-Silent w (write_done i ec n) gone = written-Silent w i ec n (pick i w.writes) refl

  -- Once a handler is not valid, it stays as it is, and whatever arrives it starts no further read and
  -- no further write.
  pub steps-Silent :
      (w : World) (es : List Event) → w.connection.is_valid ≡ false → Silent w (steps side app w es)
  unfolding steps
  steps-Silent w [] gone = record { same = refl; no_read = refl; no_write = refl }
  steps-Silent w (e ∷ es) gone =
      let first = step-Silent w e gone in
      trans-Silent w (step side app w e) _ first
        (steps-Silent (step side app w e) es (ap (λ c. c.is_valid) first.same ∙ gone))
