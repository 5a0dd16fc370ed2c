-- ===== src/Tcp/SslHandler/Handshake.antt =====
-- bingo/TCP/tcp_svr_ssl_handler.h: the books of the SSL handler, and what a failed handshake leaves.
use bingo_v.Prelude.{
  ℕ, ◌≡◌, refl, Bool, true, false, List, [], ◌∷◌, arith, append-nil, Bool-cases, inl, inr,
  if◌then◌else◌, sym,
}
use mathlib.Core.Path.{subst}
use bingo_v.Tcp.Types.{Application, Connection}
use bingo_v.Tcp.Accounting.{Balance}
use bingo_v.Tcp.Reader.{close_completed}
use bingo_v.Tcp.ServerHandler.{server_side, tcp_svr_handler}
use bingo_v.Tcp.ServerHandler.World.{World, absorb}
use bingo_v.Tcp.ServerHandler.Ownership.{Inv, absorb-Inv, step-Inv}
use bingo_v.Tcp.SslHandler.{
  SslWorld, SslEvent, handshake_done, handler_event, handle_handshake, start, begin_ssl, live_step,
  ssl_step, ssl_steps,
}

handle_handshake-Balance :
    (app : Application) (c : Connection) (ok : Bool) → Balance 0 c (handle_handshake app c ok).0
unfolding handle_handshake close_completed
handle_handshake-Balance app c true = ground arith
handle_handshake-Balance app c false = ground arith

module _ (app : Application) where
  live_step-Inv : (w : World) (e : SslEvent) → Inv w → Inv (live_step app w e).world
  unfolding live_step
  live_step-Inv w (handshake_done ok) v =
      absorb-Inv w 0 (handle_handshake app w.connection ok).0 (omega (arith, v.owned)) v.closed
        (handle_handshake-Balance app w.connection ok)
  live_step-Inv w (handler_event e) v = step-Inv server_side app w e v

  ssl_step-Inv : (s : SslWorld) (e : SslEvent) → Inv s.world → Inv (ssl_step app s e).world
  unfolding ssl_step
  ssl_step-Inv s e v = elim (Bool-cases s.destroyed) [
    | inl gone ↦ subst (λ d. Inv (if d then s else live_step app s.world e).world) (sym gone) v
    | inr here ↦
        subst (λ d. Inv (if d then s else live_step app s.world e).world) (sym here)
          (live_step-Inv s.world e v)
  ]

  ssl_steps-Inv : (s : SslWorld) (es : List SslEvent) → Inv s.world → Inv (ssl_steps app s es).world
  unfolding ssl_steps
  ssl_steps-Inv s [] v = v
  ssl_steps-Inv s (e ∷ es) v = ssl_steps-Inv (ssl_step app s e) es (ssl_step-Inv s e v)

  -- In every history of an SSL handler from its start on, with handshakes that succeed or fail: the
  -- packages that were made are those freed, those in posted jobs and those being written, each
  -- counted once; and close_complete_func was called once if the handler is no longer valid, and
  -- not at all while it is.
  pub begin_ssl-Inv :
      (size t1 t3 t2 t3' t2' : ℕ) (es : List SslEvent)
      → Inv (ssl_steps app (begin_ssl app size t1 t3 t2 t3' t2') es).world
  begin_ssl-Inv size t1 t3 t2 t3' t2' es =
      ssl_steps-Inv (begin_ssl app size t1 t3 t2 t3' t2') es
        (unfold begin_ssl start tcp_svr_handler in record { owned = refl; closed = refl })

  -- A failed handshake destroys a live handler and makes it invalid, but takes none of the jobs out
  -- that other threads had posted for it: they stay to run on a destroyed object.
  pub failed_handshake_leaves_jobs :
      (s : SslWorld)
      → s.destroyed ≡ false
      → ((ssl_step app s (handshake_done false)).destroyed ≡ true)
        × ((ssl_step app s (handshake_done false)).world.connection.is_valid ≡ false)
        × ((ssl_step app s (handshake_done false)).world.jobs ≡ s.world.jobs)
  unfolding ssl_step live_step handle_handshake absorb close_completed
  failed_handshake_leaves_jobs s here =
      (ground arith, ground arith, grind (arith, append-nil s.world.jobs))
