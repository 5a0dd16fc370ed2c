-- ===== src/RabbitMq/Sendor/Routed.antt =====
-- bingo/RabbitMQ/handlers: what routing_sendor.cpp and topic_sendor.cpp, which have the configurations
-- rb_routing_sendor_cfg and rb_topic_sendor_cfg, spell out alike.
use bingo_v.Prelude.{
  ℕ, zero, suc, Bool, false, Option, none, some, List, [], ◌∷◌, ◌++◌, if◌then◌else◌,
}
use bingo_v.ErrorWhat.{ErrorWhat, error_what, clone}
use bingo_v.Bytes.{Bytes, c_str}
use bingo_v.MemGuard.{MemGuard}
use bingo_v.Thread.ManyToOne.{ManyToOne}
use bingo_v.Configuration.{Found}
use bingo_v.RabbitMq.Config.{ℤ, Casts, is_type}
use bingo_v.RabbitMq.RoutingCfg.{
  RbRoutingSendorCfg, RbRoutingSendorCfgValue, rb_routing_sendor_cfg, read_xml, get_by_key,
  map_to_routingkey, size, at_index,
}
use bingo_v.RabbitMq.Sendor.{
  Sendor, map_key_not_exist, channel_is_empty, Publish, log_error, publish, construct_task,
}

abbrev pub RoutedSendor : Type 0
RoutedSendor = Sendor RbRoutingSendorCfg RbRoutingSendorCfgValue

-- The arguments of publish in rb_top.
unfoldable pub packet : RoutedSendor → RbRoutingSendorCfgValue → ℕ → Bytes → Bytes → Publish
packet s p ch key body = record {
  channel = ch;
  exchange = c_str p.exchange;
  routingkey = c_str (map_to_routingkey s.cfg key);
  body = body;
  persistent = false;
}

send_on :
    (Publish → Bool)
    → RoutedSendor
    → Bytes
    → Bytes
    → RbRoutingSendorCfgValue
    → Option ℕ
    → RoutedSendor
unfolding packet
send_on accepts s key body p none = log_error channel_is_empty s
send_on accepts s key body p (some ch) = publish accepts (packet s p ch key body) s

send_to :
    (Publish → Bool) → RoutedSendor → Bytes → Bytes → Option RbRoutingSendorCfgValue → RoutedSendor
unfolding send_on
send_to accepts s key body none = log_error (map_key_not_exist key) s
send_to accepts s key body (some p) = send_on accepts s key body p p.channel

-- What rb_top does with a key and a body.
unfoldable pub send : (Publish → Bool) → RoutedSendor → Bytes → Bytes → RoutedSendor
unfolding send_to
send accepts s key body = send_to accepts s key body (get_by_key s.cfg key)

-- `self` is what the singleton of the thread_task holds.
constructed : Option (ManyToOne MemGuard) → Option (RbRoutingSendorCfg × Bool) → Option RoutedSendor
constructed self none = none
constructed self (some (c, ok)) = some (record {
  is_valid = ok;
  cfg = c;
  e_what = if ok then error_what else clone c.err error_what;
  task_queue = if ok then some (construct_task self) else self;
  has_logger = false;
  log = [];
  published = [];
  deleted = 0;
  threads = [];
})

-- The constructors; `kind` is check_rb_type of the configuration.
unfoldable pub construct :
    (ℤ → Bool)
    → Casts
    → Option Found
    → ErrorWhat
    → Option (ManyToOne MemGuard)
    → Option RoutedSendor
unfolding constructed
construct kind casts file e self =
    constructed self (read_xml kind casts rb_routing_sendor_cfg file e)

-- The loop of connet_to_server, `left` rounds before its end; `none` is a use of a null pointer or of
-- one past the end.
unfoldable pub start_threads :
    ℕ
    → RbRoutingSendorCfg
    → ℕ
    → ℕ
    → List RbRoutingSendorCfgValue
    → Option (List RbRoutingSendorCfgValue)
start_threads type c zero i ts = some ts
start_threads type c (suc left) i ts = elim (at_index c i) [
  | some (some p) ↦
      start_threads type c left (suc i) (if is_type type p.type then ts ++ (p ∷ []) else ts)
  | _ ↦ none
]

-- connet_to_server(log) up to join_all; `has_log` says whether the logger is not null.
unfoldable pub connect : ℕ → RoutedSendor → Bool → Option RoutedSendor
unfolding start_threads
connect type s has_log =
    if s.is_valid
    then elim (start_threads type s.cfg (size s.cfg) 0 s.threads) [
      | none ↦ none
      | some ts ↦ some (record s { has_logger = has_log; threads = ts })
    ]
    else some s
