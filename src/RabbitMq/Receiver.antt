-- ===== src/RabbitMq/Receiver.antt =====
-- bingo/RabbitMQ/rb_receiver.h and the receivers of bingo/RabbitMQ/handlers. A round of the loop of
-- connet_to_server asks AMQP-CPP for operations on a channel; they stand as lists, one for what is
-- asked at once and one for each callback that asks for more. The logger is left out.
pub mod Messages
use bingo_v.Prelude.{ℕ, Bool, true, false, Option, none, some, List, [], ◌∷◌, ◌++◌, if◌then◌else◌}
use bingo_v.ErrorWhat.{ErrorWhat, error_what, clone}
use bingo_v.Bytes.{Bytes, c_str}
use bingo_v.RabbitMq.Config.{Casts}
use bingo_v.RabbitMq.ReceiverCfg.{
  Got, RbReceiverCfg, rb_receiver_cfg, check_node, check_routing_node, read_xml,
}
use Prim.Native.String.{String}

-- AMQP::ExchangeType
pub data ExchangeType : Type 0 where
  fanout direct topic : ExchangeType

-- An operation on the channel. `durable`, `exclusive` and `noack` are flags; a queue that the server
-- names is declared without a name.
pub data Operation : Type 0 where
  set_qos : ℕ → Operation
  declare_queue : (queue : Bytes) (durable : Bool) → Operation
  declare_exclusive_queue : Operation
  declare_exchange : (exchange : Bytes) → ExchangeType → Operation
  bind_queue : (exchange queue routingkey : Bytes) → Operation
  consume : (queue : Bytes) (noack : Bool) → Operation
  ack : ℕ → Operation

-- A receiver: its configuration, the callback f_ if one is set, what f_ was called with, and the
-- operations that were asked for.
pub record Receiver : Type 0 where
  pub is_valid : Bool
  pub cfg : RbReceiverCfg
  pub e_what : ErrorWhat
  pub has_callback : Bool
  pub called : List Bytes
  pub asked : List Operation

made : Option (RbReceiverCfg × Bool) → Option Receiver
made none = none
made (some (c, ok)) = some (record {
  is_valid = ok;
  cfg = c;
  e_what = if ok then error_what else clone c.err error_what;
  has_callback = false;
  called = [];
  asked = [];
})

-- The constructors simple_receiver, work_receiver and publish_receiver.
unfoldable pub simple_receiver : Casts → Option (String → Got) → ErrorWhat → Option Receiver
unfolding made
simple_receiver casts file e = made (read_xml (check_node casts) rb_receiver_cfg file e)

-- The constructors routing_receiver and topic_receiver.
unfoldable pub routing_receiver :
    Casts → (Bytes → List Bytes) → Option (String → Got) → ErrorWhat → Option Receiver
unfolding made
routing_receiver casts split file e =
    made (read_xml (λ get. check_routing_node casts get split) rb_receiver_cfg file e)

-- callback(f)
unfoldable pub set_callback : Bool → Receiver → Receiver
set_callback f r = record r { has_callback = f }

abbrev ask : List Operation → Receiver → Receiver
ask ops r = record r { asked = r.asked ++ ops }

-- A round of connet_to_server of simple_receiver, up to the wait for messages.
unfoldable pub simple_round : Receiver → Receiver
simple_round r =
    if r.is_valid
    then ask (declare_queue (c_str r.cfg.value.routingkey) false ∷ consume [] true ∷ []) r
    else r

unfoldable pub work_round : Receiver → Receiver
work_round r =
    if r.is_valid
    then ask
        (set_qos 1
          ∷ declare_queue (c_str r.cfg.value.routingkey) true
          ∷ consume (c_str r.cfg.value.routingkey) false
          ∷ [])
        r
    else r

-- The rounds of the other receivers differ in the type of the exchange; they go on in callbacks.
unfoldable pub exchange_round : ExchangeType → Receiver → Receiver
exchange_round t r =
    if r.is_valid then ask (declare_exchange (c_str r.cfg.value.exchange) t ∷ []) r else r

-- The callback of declareExchange.
unfoldable pub exchange_declared : Receiver → Receiver
exchange_declared r = ask (declare_exclusive_queue ∷ []) r

-- The callbacks of declareQueue, with the name that the server has given.
unfoldable pub publish_declared : Bytes → Receiver → Receiver
publish_declared queue r =
    ask (bind_queue (c_str r.cfg.value.exchange) queue [] ∷ consume queue true ∷ []) r

-- The loop over the routing keys; `bound` is the name of the queue that bindQueue is given.
bind_keys : Bytes → Bytes → Bytes → List Bytes → List Operation
bind_keys exchange bound queue [] = []
bind_keys exchange bound queue (k ∷ ks) =
    bind_queue exchange bound (c_str k) ∷ consume queue true ∷ bind_keys exchange bound queue ks

unfoldable pub routing_declared : Bytes → Receiver → Receiver
unfolding bind_keys
routing_declared queue r =
    ask (bind_keys (c_str r.cfg.value.exchange) [] queue r.cfg.routingkeyset) r

unfoldable pub topic_declared : Bytes → Receiver → Receiver
unfolding bind_keys
topic_declared queue r =
    ask (bind_keys (c_str r.cfg.value.exchange) queue queue r.cfg.routingkeyset) r

-- The callbacks of a message: f_ is called; a work receiver acknowledges too.
unfoldable pub receive_message : Receiver → Bytes → ℕ → Receiver
receive_message r message tag =
    if r.has_callback then record r { called = r.called ++ (message ∷ []) } else r

unfoldable pub work_message : Receiver → Bytes → ℕ → Receiver
unfolding receive_message
work_message r message tag = ask (ack tag ∷ []) (receive_message r message tag)
