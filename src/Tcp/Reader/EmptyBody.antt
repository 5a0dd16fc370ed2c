-- ===== src/Tcp/Reader/EmptyBody.antt =====
-- bingo/TCP/tcp_svr_handler.h and bingo/TCP/tcp_cet_handler.h: a header that asks for an empty
-- body.
use bingo_v.Prelude.{
  ℕ, suc, zero, ◌≤◌, ◌<◌, ◌≡◌, refl, ◌∙◌, List, [], ◌++◌, All, arith, length, append-nil, flatten,
  replicate,
}
use bingo_v.Tcp.Types.{remain_size, Application, Side}
use bingo_v.Tcp.Reader.Network.{Reading, messages, receive, receive_all}
use bingo_v.Tcp.Reader.Framing.{Awaiting, receive-header}
use bingo_v.Tcp.Reader.Stream.{IsIdle, IsChunk, collect, receive_all-append}

module _ (side : Side) (app : Application) (size : ℕ) where
  -- Each empty read takes the header for a header again.
  empty_reads :
      (s : Reading) (p : List ℕ) (k : ℕ)
      → Awaiting size s p 0
      → length p ≡ app.header_size
      → app.header_size ≤ size
      → app.on_header p ≡ remain_size 0
      → let t = receive_all side app s (replicate k []) in
        (messages t.trace ≡ messages s.trace) × Awaiting size t p 0
  unfolding receive_all
  empty_reads s p zero w e h reply = (refl, w)
  empty_reads s p (suc k) w e h reply =
      let (t, m) =
        receive-header w [] (omega arith) side app 0 refl (rw (append-nil p) e)
          (rw (append-nil p) reply) (omega arith) in
      let (n, u) = empty_reads (receive side app s []) p k (rw (append-nil p) at t) e h reply in
      (n ∙ m, u)

  -- From a connection that is ready for a header: if the application asks for an empty body, no
  -- message is handed over however many of the empty reads that follow complete, and the connection
  -- still waits for 0 bytes.
  pub empty_body_never_delivered :
      (s : Reading) (hs : List (List ℕ)) (k : ℕ)
      → IsIdle app size s
      → All IsChunk hs
      → length (flatten hs) ≡ app.header_size
      → 0 < app.header_size
      → app.header_size ≤ size
      → app.on_header (flatten hs) ≡ remain_size 0
      → let t = receive_all side app s (hs ++ replicate k []) in
        (messages t.trace ≡ messages s.trace) × Awaiting size t (flatten hs) 0
  empty_body_never_delivered s hs k w v whole pos h reply =
      let r = collect side app size s [] hs (rw whole w) v (rw whole pos) in
      let (t, m) =
        receive-header r.waits r.last (omega arith) side app 0 refl (rw r.joined whole)
          (rw r.joined reply) (omega arith) in
      let (n, u) =
        empty_reads (receive side app r.before r.last) (flatten hs) k (rw r.joined at t) whole h
          reply in
      rw (receive_all-append side app s hs (replicate k []), r.ends) (n ∙ m ∙ r.same, u)
