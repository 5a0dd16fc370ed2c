-- ===== src/RabbitMq/Sendor/Keyed.antt =====
-- bingo/RabbitMQ/handlers: what simple_sendor.cpp, work_sendor.cpp and publish_sendor.cpp, which have
-- the configuration rb_sendor_cfg, spell out alike.
use bingo_v.Prelude.{
  ℕ, zero, suc, Bool, false, Option, none, some, List, [], ◌∷◌, ◌++◌, if◌then◌else◌,
}
use bingo_v.ErrorWhat.{ErrorWhat, error_what, clone}
use bingo_v.Bytes.{Bytes, c_str}
use bingo_v.MemGuard.{MemGuard}
use bingo_v.Thread.ManyToOne.{ManyToOne}
use bingo_v.Configuration.{Found}
use bingo_v.RabbitMq.Config.{Casts, is_type}
use bingo_v.RabbitMq.SendorCfg.{
  RbSendorCfg, RbSendorCfgValue, rb_sendor_cfg, read_xml, get_by_key, get_by_routingkey, size,
  at_index,
}
use bingo_v.RabbitMq.Sendor.{
  Sendor, routingkey_not_exist, map_key_not_exist, channel_is_empty, Publish, log_error, publish,
  send_message, construct_task,
}

abbrev pub KeyedSendor : Type 0
KeyedSendor = Sendor RbSendorCfg RbSendorCfgValue

-- What is published for a value, its channel and a body.
abbrev pub Packet : Type 0
Packet = RbSendorCfgValue → ℕ → Bytes → Publish

send_on :
    (Publish → Bool) → Packet → KeyedSendor → Bytes → RbSendorCfgValue → Option ℕ → KeyedSendor
send_on accepts packet s body p none = log_error channel_is_empty s
send_on accepts packet s body p (some ch) = publish accepts (packet p ch body) s

send_to :
    (Publish → Bool) → Packet → KeyedSendor → Bytes → Bytes → Option RbSendorCfgValue → KeyedSendor
unfolding send_on
send_to accepts packet s key body none = log_error (map_key_not_exist key) s
send_to accepts packet s key body (some p) = send_on accepts packet s body p p.channel

-- What rb_top does with a key and a body.
unfoldable pub send : (Publish → Bool) → Packet → KeyedSendor → Bytes → Bytes → KeyedSendor
unfolding send_to
send accepts packet s key body = send_to accepts packet s key body (get_by_key s.cfg key)

by_value : KeyedSendor → Bytes → Bytes → Option RbSendorCfgValue → Option KeyedSendor
by_value s r body none = some (log_error (routingkey_not_exist (c_str r)) s)
by_value s r body (some v) = send_message s v.map_key body

-- transfer_data_by_routingkey(routingkey, in, in_size)
unfoldable pub transfer_by_routingkey : KeyedSendor → Bytes → Bytes → Option KeyedSendor
unfolding by_value
transfer_by_routingkey s r body =
    if s.is_valid then by_value s r body (get_by_routingkey s.cfg r) else some s

-- `self` is what the singleton of the thread_task holds.
unfoldable pub constructed :
    Option (ManyToOne MemGuard) → Option (RbSendorCfg × Bool) → Option KeyedSendor
constructed self none = none
constructed self (some (c, ok)) = some (record {
  is_valid = ok;
  cfg = c;
  e_what = if ok then error_what else clone c.err error_what;
  task_queue = if ok then some (construct_task self) else self;
  has_logger = false;
  log = [];
  published = [];
  deleted = 0;
  threads = [];
})

-- The constructors: the file is read, and the thread_task is constructed if it is valid.
unfoldable pub construct :
    Casts → Option Found → ErrorWhat → Option (ManyToOne MemGuard) → Option KeyedSendor
unfolding constructed
construct casts file e self = constructed self (read_xml casts rb_sendor_cfg file e)

-- The loop of connet_to_server, `left` rounds before its end; `none` is a use of a null pointer.
unfoldable pub start_threads :
    ℕ → RbSendorCfg → ℕ → ℕ → List RbSendorCfgValue → Option (List RbSendorCfgValue)
start_threads type c zero i ts = some ts
start_threads type c (suc left) i ts = elim (at_index c i) [
  | none ↦ none
  | some p ↦ start_threads type c left (suc i) (if is_type type p.type then ts ++ (p ∷ []) else ts)
]

-- connet_to_server(log) up to join_all; `has_log` says whether the logger is not null.
unfoldable pub connect : ℕ → KeyedSendor → Bool → Option KeyedSendor
unfolding start_threads
connect type s has_log =
    if s.is_valid
    then elim (start_threads type s.cfg (size s.cfg) 0 s.threads) [
      | none ↦ none
      | some ts ↦ some (record s { has_logger = has_log; threads = ts })
    ]
    else some s
