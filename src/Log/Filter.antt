-- ===== src/Log/Filter.antt =====
-- bingo/log/handlers/local_log_visitor.cpp: which messages are written.
use Prim.Native.String.{String}
use bingo_v.Prelude.{
  ℤ, pos, negsuc, ℕ, ◌≤◌, ◌<◌, ◌≡◌, ◌⊎◌, true, none, some, arith, ◌==◌, if◌then◌else◌,
}
use bingo_v.Log.{
  LogLevel, value_of, log_f, log_e, log_i, log_d, log_message, LocalLogVisitor, handle, set_level,
}

-- The level that a message is written at, and its name: what is not 1, 2 or 3 counts as debug.
abbrev pub rank : ℤ → ℕ
rank (negsuc n) = 4
rank (pos level) = if level == 1 then 1 else if level == 2 then 2 else if level == 3 then 3 else 4

abbrev pub rank_name : ℤ → String
rank_name (negsuc n) = "debug"
rank_name (pos level) =
    if level == 1
    then "fatal"
    else if level == 2
    then "error"
    else if level == 3
    then "info"
    else "debug"

-- An int that is at most a level.
abbrev pub IsWithin : ℤ → LogLevel → Type 0
IsWithin (negsuc n) l = Unit
IsWithin (pos level) l = level ≤ value_of l

-- What a message needs in order to be written.
abbrev pub IsWritten : LocalLogVisitor → LogLevel → ℤ → Type 0
IsWritten v cur level =
    (v.config.is_valid ≡ true) × IsWithin level v.config.level × (rank level ≤ value_of cur)

-- On a visitor with a logger, handle writes one message, with the text and the name of its level, when
-- the configuration is valid, the level is at most the configured one, and the level it is written
-- at is at most the logger's; otherwise it writes nothing.
pub handle_lem :
    (v : LocalLogVisitor) (cur : LogLevel) (level : ℤ) (now tag info : String)
    → v.logger ≡ some cur
    → (IsWritten v cur level
        × (handle v level now tag info ≡ some (some (log_message now tag (rank_name level) info))))
      ⊎ ((¬ IsWritten v cur level) × (handle v level now tag info ≡ some none))
unfolding handle log_f log_e log_i log_d
handle_lem v cur (pos level) now tag info e = ground arith
handle_lem v cur (negsuc n) now tag info e = ground arith

-- set_level on a visitor with a logger does not reach the logger: a message whose level is above the
-- logger's stays unwritten, whatever level is set.
pub set_level_keeps_logger :
    (v : LocalLogVisitor) (cur l : LogLevel) (level : ℤ) (now tag info : String)
    → v.logger ≡ some cur
    → value_of cur < rank level
    → handle (set_level v l) level now tag info ≡ some none
unfolding set_level handle log_f log_e log_i log_d
set_level_keeps_logger v cur l (pos level) now tag info e above = ground arith
set_level_keeps_logger v cur l (negsuc n) now tag info e above = ground arith
