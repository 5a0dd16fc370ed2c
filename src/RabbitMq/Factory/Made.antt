-- ===== src/RabbitMq/Factory/Made.antt =====
-- bingo/RabbitMQ/rabbitmq_factory.cpp: what a make method leaves.
use Prim.Native.String.{String}
use bingo_v.Prelude.{◌+◌, ◌≡◌, ◌⊎◌, Bool, true, false, Option, none, some, [], if◌then◌else◌}
use bingo_v.ErrorWhat.{ErrorWhat, error_what, clone}
use bingo_v.Bytes.{Bytes}
use bingo_v.MemGuard.{MemGuard}
use bingo_v.Thread.ManyToOne.{ManyToOne, many_to_one}
use bingo_v.RabbitMq.Sendor.{construct_task}
use bingo_v.RabbitMq.Config.{simple_type}
use bingo_v.RabbitMq.SendorCfg.{RbSendorCfg}
use bingo_v.RabbitMq.Sendor.Keyed.{KeyedSendor}
use bingo_v.RabbitMq.Sendor.Simple as Simple
use bingo_v.RabbitMq.Sendor.Threads.{of_type}
use bingo_v.RabbitMq.Factory.{RabbitmqFactory, simple, overwritten}

-- The queue that the singleton had, or a new one.
abbrev IsTask : Option (ManyToOne MemGuard) → Option (ManyToOne MemGuard) → Type 0
IsTask none made = made ≡ some many_to_one
IsTask (some q) made = made ≡ some q

-- What the factory is when a simple sender was made, and when that failed.
abbrev pub IsMade : Option (ManyToOne MemGuard) → RabbitmqFactory → RabbitmqFactory → Bool → Type 0
IsMade self f f' ok =
    (s : KeyedSendor) × (f'.snd ≡ some (simple s))
    × (s.is_valid ≡ ok)
    × (f'.lost ≡ f.lost + overwritten f.snd)
    × (((ok ≡ true)
          × IsTask self s.task_queue
          × (s.threads ≡ of_type simple_type s.cfg.values)
          × (f'.e_what ≡ f.e_what))
        ⊎ ((ok ≡ false)
            × (s.task_queue ≡ self)
            × (s.threads ≡ [])
            × (f'.e_what.number ≡ 0x64)
            × (f'.e_what.message ≡ s.cfg.err.message)))

-- What the constructor makes of a configuration.
abbrev new_sendor : Option (ManyToOne MemGuard) → RbSendorCfg → Bool → KeyedSendor
new_sendor self c ok = record {
  is_valid = ok;
  cfg = c;
  e_what = if ok then error_what else clone c.err error_what;
  task_queue = if ok then some (construct_task self) else self;
  has_logger = false;
  log = [];
  published = [];
  deleted = 0;
  threads = [];
}
