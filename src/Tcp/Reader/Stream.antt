-- ===== src/Tcp/Reader/Stream.antt =====
-- bingo/TCP/tcp_svr_handler.h and bingo/TCP/tcp_cet_handler.h: a stream of messages in chunks.
use bingo_v.Prelude.{
  ℕ, ◌+◌, ◌-◌, ◌≤◌, ◌<◌, ◌≡◌, ◌≢◌, refl, sym, ap, ap₂, ◌∙◌, List, [], ◌∷◌, ◌++◌, All, arith, length,
  length-append, append_assoc, append-nil, flatten, map,
}
use bingo_v.Tcp.Types.{remain_size, body_done, Application, Side}
use bingo_v.Tcp.Reader.Network.{Reading, messages, receive, receive_all}
use bingo_v.Tcp.Reader.Framing.{Awaiting, receive-part, receive-header, receive-body}

-- A chunk with a byte in it.
abbrev pub IsChunk : List ℕ → Type 0
IsChunk chunk = 0 < length chunk

module _ (side : Side) (app : Application) where
  pub receive_all-append :
      (s : Reading) (cs ds : List (List ℕ))
      → receive_all side app s (cs ++ ds) ≡ receive_all side app (receive_all side app s cs) ds
  unfolding receive_all
  receive_all-append s [] ds = refl
  receive_all-append s (c ∷ cs) ds = receive_all-append (receive side app s c) cs ds

  -- All that is asked for has arrived but the last chunk.
  pub record Collected (size : ℕ) (s : Reading) (p : List ℕ) (chunks : List (List ℕ)) : Type 0 where
    pub before : Reading
    pub got : List ℕ
    pub last : List ℕ
    pub waits : Awaiting size before got (length last)
    pub joined : got ++ last ≡ p ++ flatten chunks
    pub same : messages before.trace ≡ messages s.trace
    pub ends : receive_all side app s chunks ≡ receive side app before last

  pub collect :
      (size : ℕ) (s : Reading) (p : List ℕ) (chunks : List (List ℕ))
      → Awaiting size s p (length (flatten chunks))
      → All IsChunk chunks
      → 0 < length (flatten chunks)
      → Collected size s p chunks
  unfolding receive_all flatten
  collect size s p [] w all h = absurd (omega arith)
  collect size s p (c ∷ []) w all h = record {
    before = s;
    got = p;
    last = c;
    waits = rw (append-nil c) at w;
    joined = ap (◌++◌ p) (sym (append-nil c));
    same = refl;
    ends = refl;
  }
  collect size s p (c ∷ d ∷ cs) w all h =
      let rest : List ℕ = d ++ flatten cs in
      let sum = length-append c rest in
      let sum' = length-append d (flatten cs) in
      let part = receive-part w c (omega (arith, sum)) side app (omega (arith, sum, sum')) in
      let e : length (c ++ rest) - length c ≡ length rest = omega (arith, sum) in
      let r =
        collect size (receive side app s c) (p ++ c) (d ∷ cs) (rw e at part.0) all.1
          (omega (arith, sum')) in
      record {
        before = r.before;
        got = r.got;
        last = r.last;
        waits = r.waits;
        joined = r.joined ∙ append_assoc p c rest;
        same = r.same ∙ part.1;
        ends = r.ends;
      }

-- A message as the chunks in which its header and its body arrive.
pub record Frame : Type 0 where
  pub header_chunks : List (List ℕ)
  pub body_chunks : List (List ℕ)

abbrev pub header : Frame → List ℕ
header f = flatten f.header_chunks

abbrev pub body : Frame → List ℕ
body f = flatten f.body_chunks

abbrev pub message : Frame → List ℕ
message f = header f ++ body f

-- The application reads the length of the body from the header, and accepts the message; neither
-- part is empty, and the message fits the block.
pub record IsFrame (app : Application) (size : ℕ) (f : Frame) : Type 0 where
  pub header_chunked : All IsChunk f.header_chunks
  pub body_chunked : All IsChunk f.body_chunks
  pub header_length : length (header f) ≡ app.header_size
  pub header_some : 0 < app.header_size
  pub body_some : 0 < length (body f)
  pub fits : app.header_size + length (body f) ≤ size
  pub header_read : app.on_header (header f) ≡ remain_size (length (body f))
  pub body_accepted : app.on_full (message f) ≡ body_done

abbrev pub chunks : List Frame → List (List ℕ)
chunks [] = []
chunks (f ∷ fs) = f.header_chunks ++ (f.body_chunks ++ chunks fs)

-- Ready for the next message.
abbrev pub IsIdle : Application → ℕ → Reading → Type 0
IsIdle app size s = Awaiting size s [] app.header_size

module _ (side : Side) (app : Application) (size : ℕ) where
  pub receive-header_chunks :
      (s : Reading) (f : Frame)
      → IsIdle app size s
      → IsFrame app size f
      → let t = receive_all side app s f.header_chunks in
        Awaiting size t (header f) (length (body f)) × (messages t.trace ≡ messages s.trace)
  receive-header_chunks s f w v =
      let r =
        collect side app size s [] f.header_chunks (rw v.header_length w) v.header_chunked
          (rw v.header_length v.header_some) in
      let (t, m) =
        receive-header r.waits r.last (omega arith) side app (length (body f)) refl
          (rw r.joined v.header_length) (rw r.joined v.header_read) v.fits in
      rw r.ends (rw r.joined at t, m ∙ r.same)

  receive-body_chunks :
      (s : Reading) (f : Frame)
      → Awaiting size s (header f) (length (body f))
      → IsFrame app size f
      → let t = receive_all side app s f.body_chunks in
        IsIdle app size t × (messages t.trace ≡ messages s.trace ++ message f ∷ [])
  receive-body_chunks s f w v =
      let r = collect side app size s (header f) f.body_chunks w v.body_chunked v.body_some in
      let beyond : length (r.got ++ r.last) ≢ app.header_size =
        rw r.joined
          (omega (arith, length-append (header f) (body f), v.header_length, v.body_some)) in
      let (t, m) =
        receive-body r.waits r.last (omega arith) side app refl beyond (rw r.joined v.body_accepted)
          (omega (arith, v.fits)) in
      rw r.ends (t, m ∙ ap₂ (λ h q. h ++ q ∷ []) r.same r.joined)

  -- Messages that fit, in any chunks, arrive in order and whole: from a connection that is ready
  -- for a header, read_pk_full_complete_func is called with exactly those messages, and the
  -- connection is ready for the next one.
  pub receive_all-messages :
      (s : Reading) (fs : List Frame)
      → IsIdle app size s
      → All (IsFrame app size) fs
      → (messages (receive_all side app s (chunks fs)).trace ≡ messages s.trace ++ map message fs)
        × IsIdle app size (receive_all side app s (chunks fs))
  unfolding receive_all
  receive_all-messages s [] w all = (sym (append-nil (messages s.trace)), w)
  receive_all-messages s (f ∷ fs) w all =
      let (t, m) = receive-header_chunks s f w all.0 in
      let (u, n) = receive-body_chunks (receive_all side app s f.header_chunks) f t all.0 in
      let later = receive_all side app (receive_all side app s f.header_chunks) f.body_chunks in
      let (done, ready) = receive_all-messages later fs u all.1 in
      rw
        (
          receive_all-append side app s f.header_chunks (f.body_chunks ++ chunks fs),
          receive_all-append side app (receive_all side app s f.header_chunks) f.body_chunks
              (chunks fs),
        )
        (
          done
              ∙ ap (λ h. h ++ map message fs) (n ∙ ap (λ h. h ++ message f ∷ []) m)
              ∙ append_assoc (messages s.trace) (message f ∷ []) (map message fs),
          ready,
        )
