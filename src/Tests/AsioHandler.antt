-- ===== src/Tests/AsioHandler.antt =====
-- bingo/RabbitMQ/visitor/asiohandler.cpp with small buffers and a short history.
use bingo_v.Prelude.{
  ℕ, ◌+◌, ◌≤◌, ◌≡◌, refl, true, false, Option, none, some, List, [], ◌∷◌, ◌++◌, length, replicate,
  arith,
}
use bingo_v.Bytes.{Bytes}
use bingo_v.RabbitMq.Buffer.{amqp_buffer}
use bingo_v.RabbitMq.Buffer.Queue.{
  Op, writes, shifts, drains, run, replay, outcome, contents, push, IsValid, amqp_buffer-IsValid,
  buffer-refines,
}
use bingo_v.RabbitMq.AsioHandler.{
  AsioHandler, Callback, sends, read_handler, on_data, connect_handler, write_handler,
}
use bingo_v.RabbitMq.AsioHandler.Machine.{
  Event, given_data, connect_done, write_done, begin, step, steps,
}
use bingo_v.RabbitMq.AsioHandler.Writes.{Fifo}
use bingo_v.RabbitMq.AsioHandler.Histories.{IsFlushed, begin-steps-Fifo, waiting_is_sent}
use bingo_v.RabbitMq.AsioHandler.Reads.{buffer_size, read_handler-Keeps}

abbrev ops : List Op
ops = writes (1 ∷ 2 ∷ 3 ∷ []) ∷ shifts 1 ∷ writes (4 ∷ 5 ∷ 6 ∷ []) ∷ drains ∷ writes (7 ∷ []) ∷ []

buffer-refines_example : outcome (run (amqp_buffer 4) ops) ≡ replay 4 [] ops
buffer-refines_example = buffer-refines 4 ops

-- A connection that uses every byte and answers each block with one byte.
echo : ℕ → Bytes → ℕ × ℕ × List Callback
echo c s = (length s, c + 1, sends (1 ∷ []) ∷ [])

echo-lawful : (c : ℕ) (s : Bytes) → (echo c s).0 ≤ length s
unfolding echo
echo-lawful c s = omega arith

-- Two buffers are given before the connection is made, and the first is sent.
abbrev events : List Event
events = given_data (1 ∷ 2 ∷ []) ∷ given_data (3 ∷ []) ∷ connect_done none 5 ∷ write_done none ∷ []

abbrev begun : AsioHandler ℕ
begun = begin 0 true

abbrev reached : Option (AsioHandler ℕ) → AsioHandler ℕ
reached none = begun
reached (some h) = h

abbrev one_sent : AsioHandler ℕ
one_sent = reached (steps echo begun events)

events_run : steps echo begun events ≡ some one_sent
unfolding steps step begin on_data connect_handler
events_run = refl

one_sent_runs : one_sent.stopped ≡ false
unfolding steps step begin on_data connect_handler write_handler
one_sent_runs = refl

one_sent_connected : one_sent.connected ≡ true
unfolding steps step begin on_data connect_handler write_handler
one_sent_connected = refl

begin-steps-Fifo_example : Fifo one_sent
begin-steps-Fifo_example = begin-steps-Fifo echo 0 true events one_sent events_run

waiting_is_sent_example :
    (h' : AsioHandler ℕ) × (steps echo one_sent
        (replicate (length one_sent.output) (write_done none))
      ≡ some h')
    × IsFlushed one_sent.given h'
waiting_is_sent_example =
    waiting_is_sent echo 0 true events one_sent events_run one_sent_runs one_sent_connected

begun-IsValid : IsValid buffer_size begun.input
unfolding begin
begun-IsValid = amqp_buffer-IsValid buffer_size

abbrev chunk : Bytes
chunk = 1 ∷ 2 ∷ 3 ∷ []

read_handler-Keeps_example :
    (h' : AsioHandler ℕ) × (read_handler echo begun chunk 7 ≡ some h')
    × IsValid buffer_size h'.input
    × (h'.parsed ++ contents h'.input
        ≡ begun.parsed ++ push buffer_size (contents begun.input) chunk)
    × (h'.reading ≡ true)
read_handler-Keeps_example = read_handler-Keeps echo echo-lawful begun chunk 7 begun-IsValid
