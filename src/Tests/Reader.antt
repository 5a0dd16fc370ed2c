-- ===== src/Tests/Reader.antt =====
-- bingo/TCP: an application with a header of one byte, and the reader at two messages.
use bingo_v.Prelude.{
  ℕ, ◌+◌, ◌<◌, ◌≡◌, refl, true, some, List, [], ◌∷◌, ◌++◌, arith, map, length, flatten, replicate,
  ltb, if◌then◌else◌,
}
use bingo_v.MemGuard.{size_mod, IsValid}
use bingo_v.Tcp.Types.{HeaderReply, remain_size, body_done, ready, Application, Connection}
use bingo_v.Tcp.ServerHandler.{server_side}
use bingo_v.Tcp.Reader.{read_handler}
use bingo_v.Tcp.Reader.Bounds.{IsSafe, IsSound, read_handler-IsSafe}
use bingo_v.Tcp.Reader.Framing.{Awaiting}
use bingo_v.Tcp.Reader.Network.{Reading, messages, receive_all}
use bingo_v.Tcp.Reader.Stream.{Frame, IsFrame, IsIdle, chunks, message, receive_all-messages}
use bingo_v.Tcp.Reader.EmptyBody.{empty_body_never_delivered}

abbrev demo_header : List ℕ → HeaderReply
demo_header [] = remain_size 0
demo_header (n ∷ rest) = remain_size (if ltb n 4 then n else 3)

-- An application whose header is one byte, the length of the body.
abbrev pub demo : Application
demo = record {
  header_size = 1;
  on_header = demo_header;
  on_full = λ p. body_done;
  on_send = λ pk. ready pk;
  on_first = λ pk. ready pk;
}

abbrev pub fresh : Connection
fresh = record {
  is_valid = true;
  is_open = true;
  rev_mgr = record { bytes = 0 ∷ 0 ∷ 0 ∷ 0 ∷ []; size = 4; len = 0 };
  package_size = 4;
}

remain_size-injective : (m n : ℕ) → remain_size m ≡ remain_size n → m ≡ n
remain_size-injective m n e = cc

demo_header-small :
    (p : List ℕ) (n : ℕ) → demo_header p ≡ remain_size n → demo.header_size + n < size_mod
demo_header-small [] n e = omega (arith, remain_size-injective 0 n e)
demo_header-small (m ∷ rest) n e =
    ground (arith, remain_size-injective (if ltb m 4 then m else 3) n e)

demo-IsSound : IsSound demo 4
demo-IsSound = record { header_fits = omega arith; remain_small = demo_header-small }

fresh-IsValid : IsValid fresh.rev_mgr
fresh-IsValid = record { whole = refl; within = omega arith; small = omega arith }

abbrev idle : Reading
idle = record { connection = fresh; pending = some 1; trace = [] }

idle-IsIdle : IsIdle demo 4 idle
idle-IsIdle = record {
  live = refl;
  block = fresh-IsValid;
  held = refl;
  counted = refl;
  sized = refl;
  asked = refl;
  room = omega arith;
}

-- A body of two bytes in two chunks, and a body of one byte.
abbrev first_frame : Frame
first_frame = record { header_chunks = (2 ∷ []) ∷ []; body_chunks = (7 ∷ []) ∷ (8 ∷ []) ∷ [] }

abbrev second_frame : Frame
second_frame = record { header_chunks = (1 ∷ []) ∷ []; body_chunks = (9 ∷ []) ∷ [] }

abbrev frames : List Frame
frames = first_frame ∷ second_frame ∷ []

first_frame-IsFrame : IsFrame demo 4 first_frame
unfolding flatten
first_frame-IsFrame = record {
  header_chunked = (omega arith, tt);
  body_chunked = (omega arith, (omega arith, tt));
  header_length = refl;
  header_some = omega arith;
  body_some = omega arith;
  fits = omega arith;
  header_read = refl;
  body_accepted = refl;
}

second_frame-IsFrame : IsFrame demo 4 second_frame
unfolding flatten
second_frame-IsFrame = record {
  header_chunked = (omega arith, tt);
  body_chunked = (omega arith, tt);
  header_length = refl;
  header_some = omega arith;
  body_some = omega arith;
  fits = omega arith;
  header_read = refl;
  body_accepted = refl;
}

abbrev empty_header : List (List ℕ)
empty_header = (0 ∷ []) ∷ []

empty_header-length : length (flatten empty_header) ≡ demo.header_size
unfolding flatten
empty_header-length = refl

empty_header-remain_size : demo.on_header (flatten empty_header) ≡ remain_size 0
unfolding flatten
empty_header-remain_size = refl

receive_all-messages_example :
    (messages (receive_all server_side demo idle (chunks frames)).trace
      ≡ messages idle.trace ++ map message frames)
    × IsIdle demo 4 (receive_all server_side demo idle (chunks frames))
receive_all-messages_example =
    receive_all-messages server_side demo 4 idle frames idle-IsIdle
      (first_frame-IsFrame, (second_frame-IsFrame, tt))

read_handler-IsSafe_example : IsSafe fresh.rev_mgr.size (read_handler server_side demo fresh 0 1 1)
read_handler-IsSafe_example =
    read_handler-IsSafe server_side demo fresh 0 1 1 fresh-IsValid demo-IsSound (omega arith)
      (omega arith)

empty_body_never_delivered_example :
    let t = receive_all server_side demo idle (empty_header ++ replicate 2 []) in
    (messages t.trace ≡ messages idle.trace) × Awaiting 4 t (flatten empty_header) 0
empty_body_never_delivered_example =
    empty_body_never_delivered server_side demo 4 idle empty_header 2 idle-IsIdle (omega arith, tt)
      empty_header-length (omega arith) (omega arith) empty_header-remain_size
