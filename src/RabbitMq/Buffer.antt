-- ===== src/RabbitMq/Buffer.antt =====
-- bingo/RabbitMQ/visitor/asiohandler.cpp, the class AmqpBuffer: a vector of a fixed size of which the
-- first `use` bytes are in use.
pub mod Queue
use bingo_v.Prelude.{
  ℕ, ◌+◌, ◌-◌, Bool, true, false, Option, none, some, List, ◌++◌, ltb, ◌==◌, if◌then◌else◌, length,
  take, drop, replicate,
}
use bingo_v.Bytes.{Bytes}

pub record AmqpBuffer : Type 0 where
  pub bytes : Bytes
  pub used : ℕ

unfoldable pub amqp_buffer : ℕ → AmqpBuffer
amqp_buffer size = record { bytes = replicate size 0; used = 0 }

-- The number of bytes that write copies: what fits of `size` bytes.
abbrev pub write_size : AmqpBuffer → ℕ → ℕ
write_size b size = if ltb (size + b.used) (length b.bytes) then size else length b.bytes - b.used

-- write(data, size), and how many bytes were written.
unfoldable pub write : AmqpBuffer → Bytes → AmqpBuffer × ℕ
write b src =
    if b.used == length b.bytes
    then (b, 0)
    else let n = write_size b (length src) in
      (
        record {
          bytes = take b.used b.bytes ++ (take n src ++ drop (b.used + n) b.bytes);
          used = b.used + n;
        },
        n,
      )

unfoldable pub drain : AmqpBuffer → AmqpBuffer
drain b = record b { used = 0 }

unfoldable pub available : AmqpBuffer → ℕ
available b = b.used

-- shl(count), memmove to the front; `none` is the failing assertion.
unfoldable pub shl : AmqpBuffer → ℕ → Option AmqpBuffer
shl b count =
    let diff = b.used - count in
    if ltb count b.used
    then some (record { bytes = take diff (drop count b.bytes) ++ drop diff b.bytes; used = diff })
    else none
