-- ===== src/RabbitMq/Config.antt =====
-- bingo/RabbitMQ/config: what the readers of the configuration share, beside the checks.
pub use bingo_v.Prelude.{ℤ, pos, negsuc}
use bingo_v.Prelude.{ℕ, Bool, false, Option, ◌==◌}
use bingo_v.Bytes.{Bytes}

-- The enum rb_cfg_type, by its values 1 to 5; a value of it is an int that was cast.
abbrev pub is_type : ℕ → ℤ → Bool
is_type k (pos n) = n == k
is_type k (negsuc n) = false

abbrev pub simple_type : ℕ
simple_type = 0x01

abbrev pub worker_type : ℕ
worker_type = 0x02

abbrev pub publish_type : ℕ
publish_type = 0x03

abbrev pub routing_type : ℕ
routing_type = 0x04

abbrev pub topic_type : ℕ
topic_type = 0x05

abbrev pub mapkey_max_size : ℕ
mapkey_max_size = 40

-- The functions that lexical_cast<int> and lexical_cast<uint16_t> are.
pub record Casts : Type 0 where
  pub to_int : Bytes → Option ℤ
  pub to_port : Bytes → Option ℕ
