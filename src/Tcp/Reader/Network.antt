-- ===== src/Tcp/Reader/Network.antt =====
-- A connection and the bytes that boost::asio brings: each read that is asked for completes with a
-- chunk, which asio writes to rev_mgr_.current() before it calls read_handler
-- (bingo/TCP/tcp_svr_handler.h, bingo/TCP/tcp_cet_handler.h).
use bingo_v.Prelude.{
  ap, ℕ, ◌+◌, ◌≤◌, ◌≡◌, refl, Option, none, some, List, [], ◌∷◌, ◌++◌, length, arith,
}
use bingo_v.MemGuard.{MemGuard, memcpy, IsValid}
use bingo_v.MemGuard.Bounds.{splice, memcpy-eq}
use bingo_v.Tcp.Types.{
  Action, async_read, read_pk_full_complete_func, Application, Connection, Side,
}
use bingo_v.Tcp.Reader.{Effect, read_handler}

-- The chunk lies behind the bytes in use; no write where it does not fit.
abbrev pub arrive : MemGuard → List ℕ → MemGuard
arrive g chunk = elim (memcpy g.bytes g.len chunk) [ none ↦ g | some bs ↦ record g { bytes = bs } ]

-- The read that an effect asks for.
abbrev pub requested : List Action → Option ℕ
requested [] = none
requested (async_read n ∷ rest) = some n
requested (_ ∷ rest) = requested rest

-- The messages that read_pk_full_complete_func was called with.
abbrev pub messages : List Action → List (List ℕ)
messages [] = []
messages (read_pk_full_complete_func p ∷ rest) = p ∷ messages rest
messages (_ ∷ rest) = messages rest

pub messages-append :
    (first rest : List Action) → messages (first ++ rest) ≡ messages first ++ messages rest
messages-append [] rest = refl
messages-append (read_pk_full_complete_func p ∷ first) rest =
    ap (◌∷◌ p) (messages-append first rest)
messages-append (_ ∷ first) rest = messages-append first rest

-- A connection, the length of the read that is under way, and all effects so far.
pub record Reading : Type 0 where
  pub connection : Connection
  pub pending : Option ℕ
  pub trace : List Action

unfoldable pub resume : Reading → Effect → Reading
resume s (c, effects) = record {
  connection = c;
  pending = requested effects;
  trace = s.trace ++ effects;
}

module _ (side : Side) (app : Application) where
  -- A read under way completes with a chunk and no error.
  unfoldable pub receive : Reading → List ℕ → Reading
  unfolding resume
  receive s chunk = elim s.pending [
    | none ↦ s
    | some r ↦
        let c = s.connection in
        resume s
          (read_handler side app (record c { rev_mgr = arrive c.rev_mgr chunk }) 0 (length chunk) r)
  ]

  unfoldable pub receive_all : Reading → List (List ℕ) → Reading
  receive_all s [] = s
  receive_all s (chunk ∷ chunks) = receive_all (receive s chunk) chunks

-- What lies in the block after a chunk that fits has arrived and its length is counted.
pub arrive-eq :
    (g : MemGuard) (chunk : List ℕ)
    → IsValid g
    → g.len + length chunk ≤ g.size
    → arrive g chunk ≡ record g { bytes = splice g.bytes g.len chunk }
arrive-eq g chunk v h = ground (arith, memcpy-eq g.bytes g.len chunk (omega arith))
