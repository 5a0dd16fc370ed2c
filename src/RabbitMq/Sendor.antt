-- ===== src/RabbitMq/Sendor.antt =====
-- bingo/RabbitMQ/rb_sendor.h and what the five senders of bingo/RabbitMQ/handlers spell out alike: the
-- package of a key and a body, and its way into the queue of the thread that sends. AMQP-CPP is a
-- parameter: `accepts` is the result of a channel's publish. The lines of the log stand without their
-- fixed texts; those of BINGO_MQ_DEBUG are left out. `none` is a fault.
pub mod Keyed
pub mod Simple
pub mod Work
pub mod Publishing
pub mod Routed
pub mod Routing
pub mod Topic
pub mod Package
pub mod Delivery
pub mod Expected
pub mod Published
pub mod Refusal
pub mod Threads
use bingo_v.Prelude.{
  ℕ, ◌+◌, ◌-◌, Bool, true, false, Option, none, some, List, [], ◌∷◌, ◌++◌, length, take, drop,
  replicate, ltb, if◌then◌else◌,
}
use bingo_v.ErrorWhat.{ErrorWhat, Status, success, failure, error_what}
use bingo_v.Bytes.{Bytes, c_str}
use bingo_v.MemGuard.{MemGuard, mem_guard, copy, memcpy, Outcome}
use bingo_v.Thread.ManyToOne.{ManyToOne, Message, many_to_one, task, put}
use bingo_v.RabbitMq.Config.{mapkey_max_size}

abbrev pub message_max_size : ℕ
message_max_size = 2048

-- The errors that a sender logs.
pub data LogLine : Type 0 where
  size_of_key_more_than_40 channel_is_empty send_fail : LogLine
  routingkey_not_exist map_key_not_exist : Bytes → LogLine
  create_task_data_error put_data_error : ℕ → LogLine

-- A call of publish on a channel: exchange, routing key, body, and whether the delivery mode is 2.
pub record Publish : Type 0 where
  pub channel : ℕ
  pub exchange : Bytes
  pub routingkey : Bytes
  pub body : Bytes
  pub persistent : Bool

-- A sender with a configuration: its fields, the thread_task of its singleton, its logger, and the
-- calls of publish and the deleted messages. `threads` are the connections that were started.
pub record Sendor (Cfg Value : Type 0) : Type 0 where
  pub is_valid : Bool
  pub cfg : Cfg
  pub e_what : ErrorWhat
  pub task_queue : Option (ManyToOne MemGuard)
  pub has_logger : Bool
  pub log : List LogLine
  pub published : List Publish
  pub deleted : ℕ
  pub threads : List Value

-- char message[40 + in_size], the key and the body copied into it.
unfoldable pub make_message : Bytes → Bytes → Option Bytes
make_message key body = elim (memcpy (replicate (mapkey_max_size + length body) 0) 0 key) [
  | none ↦ none
  | some m ↦ memcpy m mapkey_max_size body
]

-- The key and the body that rb_top takes from a message.
unfoldable pub take_message : MemGuard → Option (Bytes × Bytes)
take_message g =
    if ltb g.len mapkey_max_size
    then none
    else some (
      c_str (take mapkey_max_size g.bytes ++ (0 ∷ [])),
      take (g.len - mapkey_max_size) (drop mapkey_max_size g.bytes),
    )

-- RB_..._SENDOR_TASK_TYPE::construct(f): a thread_task that is there stays, with the callback of the
-- sender that made it.
unfoldable pub construct_task : Option (ManyToOne MemGuard) → ManyToOne MemGuard
construct_task none = many_to_one
construct_task (some q) = q

module _ {Cfg Value : Type 0} where
  -- if(logger) logger->handle(...)
  abbrev pub log_error : LogLine → Sendor Cfg Value → Sendor Cfg Value
  log_error l s = record s { log = if s.has_logger then s.log ++ (l ∷ []) else s.log }

  was_put : Sendor Cfg Value → ManyToOne MemGuard × ErrorWhat × Status → Sendor Cfg Value
  was_put s (q, e, success) = record s { task_queue = some q }
  was_put s (q, e, failure) = record (log_error (put_data_error e.number) s) {
    task_queue = some q;
    deleted = s.deleted + 1;
  }

  was_copied : Sendor Cfg Value → Option (ManyToOne MemGuard) → Outcome → Option (Sendor Cfg Value)
  unfolding was_put
  was_copied s q (g, e, failure) =
      some (record (log_error (create_task_data_error e.number) s) { deleted = s.deleted + 1 })
  was_copied s none (g, e, success) = none
  was_copied s (some q) (g, e, success) = some (was_put s (put q (task g) e))

  -- The end of the two transfer methods: make the message, copy it into a new task, and put that.
  unfoldable pub send_message : Sendor Cfg Value → Bytes → Bytes → Option (Sendor Cfg Value)
  unfolding make_message was_copied
  send_message s key body = elim (make_message key body) [
    | none ↦ none
    | some m ↦ elim (copy (mem_guard message_max_size) m error_what) [
      | none ↦ none
      | some r ↦ was_copied s s.task_queue r
    ]
  ]

  -- transfer_data_by_key(key, in, in_size), which every sender has.
  unfoldable pub transfer_by_key : Sendor Cfg Value → Bytes → Bytes → Option (Sendor Cfg Value)
  unfolding send_message
  transfer_by_key s key body =
      if s.is_valid
      then if ltb mapkey_max_size (length key)
        then some (log_error size_of_key_more_than_40 s)
        else send_message s key body
      else some s

  -- The call of publish in rb_top, and its result.
  unfoldable pub publish : (Publish → Bool) → Publish → Sendor Cfg Value → Sendor Cfg Value
  publish accepts p s =
      let s' : Sendor Cfg Value = record s { published = s.published ++ (p ∷ []) } in
      if accepts p then s' else log_error send_fail s'

  received : (Bytes → Bytes → Sendor Cfg Value) → Option (Bytes × Bytes) → Option (Sendor Cfg Value)
  received send none = none
  received send (some (key, body)) = some (send key body)

  -- rb_top(msg), for what a sender does with a key and a body.
  unfoldable pub top_by :
      (Sendor Cfg Value → Bytes → Bytes → Sendor Cfg Value)
      → Sendor Cfg Value
      → MemGuard
      → Option (Sendor Cfg Value)
  unfolding received take_message
  top_by send s g = if s.is_valid then received (send s) (take_message g) else some s

  -- The destructor: the singleton is released if the configuration was valid.
  unfoldable pub release : Sendor Cfg Value → Sendor Cfg Value
  release s = if s.is_valid then record s { task_queue = none } else s
