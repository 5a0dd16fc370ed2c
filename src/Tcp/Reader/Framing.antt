-- ===== src/Tcp/Reader/Framing.antt =====
-- bingo/TCP/tcp_svr_handler.h and bingo/TCP/tcp_cet_handler.h: one chunk of a header or of a body.
use bingo_v.Prelude.{
  ℕ, ◌+◌, ◌-◌, ◌≤◌, ◌<◌, ◌≡◌, ◌≢◌, refl, ap, ◌∙◌, true, some, List, [], ◌∷◌, ◌++◌, arith, length,
  length-append, append-nil,
}
use bingo_v.MemGuard.{MemGuard, clear, contents, IsValid}
use bingo_v.MemGuard.Bounds.{
  splice, length-splice, take-splice, check_block_remain_space_iff, clear-IsValid,
}
use bingo_v.Tcp.Types.{
  Action, async_read, read_pk_header_complete_func, read_pk_full_complete_func, remain_size,
  body_done, Application, Connection, Side,
}
use bingo_v.Tcp.Reader.{header_reply, full_reply, advance}
use bingo_v.Tcp.Reader.Bounds.{read_handler-advance}
use bingo_v.Tcp.Reader.Network.{
  Reading, arrive-eq, requested, messages, messages-append, resume, receive,
}

-- The connection is open, `p` has arrived of the current message, and `r` more bytes are asked for.
pub record Awaiting (size : ℕ) (s : Reading) (p : List ℕ) (r : ℕ) : Type 0 where
  pub live : s.connection.is_valid ≡ true
  pub block : IsValid s.connection.rev_mgr
  pub held : contents s.connection.rev_mgr ≡ p
  pub counted : s.connection.rev_mgr.len ≡ length p
  pub sized : s.connection.rev_mgr.size ≡ size
  pub asked : s.pending ≡ some r
  pub room : s.connection.rev_mgr.len + r ≤ size

-- The connection after a chunk, its length counted.
abbrev filled : Connection → List ℕ → Connection
filled c chunk = record c {
  rev_mgr = record c.rev_mgr {
    bytes = splice c.rev_mgr.bytes c.rev_mgr.len chunk;
    len = c.rev_mgr.len + length chunk;
  };
}

module _ {size : ℕ} {s : Reading} {p : List ℕ} {r : ℕ} (w : Awaiting size s p r) (chunk : List ℕ)
    (le : length chunk ≤ r) where
  abbrev block_of : MemGuard
  block_of = s.connection.rev_mgr

  abbrev spliced : List ℕ
  spliced = splice block_of.bytes block_of.len chunk

  fits : block_of.len + length chunk ≤ length block_of.bytes
  fits = omega (arith, w.block.whole, w.room, w.sized)

  spliced-IsValid :
      (n : ℕ) → n ≤ block_of.size → IsValid (record block_of { bytes = spliced; len = n })
  spliced-IsValid n h = record {
    whole = length-splice block_of.bytes block_of.len chunk fits ∙ w.block.whole;
    within = h;
    small = w.block.small;
  }

  filled-contents : contents (filled s.connection chunk).rev_mgr ≡ p ++ chunk
  filled-contents = take-splice block_of.bytes block_of.len chunk fits ∙ ap (λ q. q ++ chunk) w.held

  room : block_of.len + length chunk ≤ block_of.size
  room = omega (arith, w.block.whole, fits)

  receive-advance :
      (side : Side) (app : Application)
      → receive side app s chunk
        ≡ resume s (advance side app (filled s.connection chunk) 0 (length chunk) r)
  unfolding receive
  receive-advance side app =
      rw (w.asked, receive, arrive-eq block_of chunk w.block room)
        (ap (resume s) (
          read_handler-advance side app
            (record s.connection { rev_mgr = record block_of { bytes = spliced } }) 0 (length chunk)
            r w.live refl (spliced-IsValid block_of.len w.block.within) room))

  -- The connection with the chunk in it goes on to ask for `n` bytes.
  asks :
      (side : Side) (app : Application) (n : ℕ) (effects : List Action)
      → advance side app (filled s.connection chunk) 0 (length chunk) r
        ≡ (filled s.connection chunk, effects)
      → requested effects ≡ some n
      → messages effects ≡ []
      → length p + length chunk + n ≤ size
      → Awaiting size (receive side app s chunk) (p ++ chunk) n
        × (messages (receive side app s chunk).trace ≡ messages s.trace)
  unfolding resume
  asks side app n effects e q m h =
      rw (receive-advance side app, e)
        (
          record {
            live = w.live;
            block = spliced-IsValid (block_of.len + length chunk) room;
            held = filled-contents;
            counted = omega (arith, length-append p chunk, w.counted);
            sized = w.sized;
            asked = q;
            room = omega (arith, w.counted);
          },
          rw (messages-append, m) (append-nil (messages s.trace)),
        )

  -- A part of what is asked for: the rest of it is asked for.
  pub receive-part :
      (side : Side) (app : Application)
      → length chunk < r
      → Awaiting size (receive side app s chunk) (p ++ chunk) (r - length chunk)
        × (messages (receive side app s chunk).trace ≡ messages s.trace)
  receive-part side app lt =
      asks side app (r - length chunk) (async_read (r - length chunk) ∷ [])
        (unfold advance in ground arith) refl refl (omega (arith, w.room, w.counted))

  -- The last part of a header, for which the application asks for `n` more bytes.
  pub receive-header :
      (side : Side) (app : Application) (n : ℕ)
      → length chunk ≡ r
      → length (p ++ chunk) ≡ app.header_size
      → app.on_header (p ++ chunk) ≡ remain_size n
      → app.header_size + n ≤ size
      → Awaiting size (receive side app s chunk) (p ++ chunk) n
        × (messages (receive side app s chunk).trace ≡ messages s.trace)
  receive-header side app n whole header reply h =
      let within : block_of.len + length chunk + n ≤ block_of.size =
        omega (arith, length-append p chunk, w.counted, w.sized) in
      asks side app n (read_pk_header_complete_func (p ++ chunk) ∷ async_read n ∷ [])
        (unfold advance header_reply in
          rw (filled-contents, reply)
            (ground (
              arith,
              length-append p chunk,
              w.counted,
              (check_block_remain_space_iff (filled s.connection chunk).rev_mgr n
                    (spliced-IsValid (block_of.len + length chunk) room) (omega (arith, within))).1
                  (omega (arith, within)),
            )))
        refl refl (omega (arith, length-append p chunk))

  -- The last part of a body: the message is handed over, and the next header is asked for.
  pub receive-body :
      (side : Side) (app : Application)
      → length chunk ≡ r
      → length (p ++ chunk) ≢ app.header_size
      → app.on_full (p ++ chunk) ≡ body_done
      → app.header_size ≤ size
      → Awaiting size (receive side app s chunk) [] app.header_size
        × (messages (receive side app s chunk).trace ≡ messages s.trace ++ (p ++ chunk) ∷ [])
  unfolding resume
  receive-body side app whole beyond reply h =
      let g = (filled s.connection chunk).rev_mgr in
      let e : advance side app (filled s.connection chunk) 0 (length chunk) r ≡ (
        record s.connection { rev_mgr = clear g },
        read_pk_full_complete_func (p ++ chunk) ∷ async_read app.header_size ∷ [],
      ) =
        unfold advance full_reply in
        rw (filled-contents, reply) (ground (arith, length-append p chunk, w.counted)) in
      rw (receive-advance side app, e)
        (
          record {
            live = w.live;
            block = clear-IsValid {g = g} (spliced-IsValid (block_of.len + length chunk) room);
            held = unfold clear in refl;
            counted = unfold clear in refl;
            sized = unfold clear in w.sized;
            asked = refl;
            room = unfold clear in omega arith;
          },
          rw messages-append,
        )
