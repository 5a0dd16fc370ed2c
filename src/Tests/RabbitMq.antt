-- ===== src/Tests/RabbitMq.antt =====
-- bingo/RabbitMQ with a file of one simple sender, and messages of a few bytes.
use Prim.Native.String.{String}
use bingo_v.Prelude.{
  ◌-◌, ◌≡◌, ◌⊎◌, refl, Bool, true, false, Option, none, some, List, [], ◌∷◌, ◌++◌, map, arith,
}
use bingo_v.ErrorWhat.{error_what}
use bingo_v.Bytes.{Bytes, codes}
use bingo_v.MemGuard.{MemGuard, contents}
use bingo_v.Thread.ManyToOne.{many_to_one, task}
use bingo_v.Configuration.{Node, node, NodeAttr, no_node, and_node, Found, found}
use bingo_v.RabbitMq.Config.{ℤ, pos, Casts}
use bingo_v.RabbitMq.SendorCfg as Keys
use bingo_v.RabbitMq.SendorCfg.{RbSendorCfg, RbSendorCfgValue, rb_sendor_cfg}
use bingo_v.RabbitMq.RoutingCfg.{RbRoutingSendorCfg}
use bingo_v.RabbitMq.ReceiverCfg as Receiving
use bingo_v.RabbitMq.ReceiverCfg.{Got, got, RbReceiverCfg, rb_receiver_cfg}
use bingo_v.RabbitMq.ReceiverCfg.Values.{IsRoutingRead, read_xml-IsRoutingRead}
use bingo_v.RabbitMq.Sendor.{Publish, transfer_by_key}
use bingo_v.RabbitMq.Sendor.Package.{layout}
use bingo_v.RabbitMq.Sendor.Keyed.{KeyedSendor}
use bingo_v.RabbitMq.Sendor.Routed.{RoutedSendor}
use bingo_v.RabbitMq.Sendor.Simple as Simple
use bingo_v.RabbitMq.Sendor.Routing as Routing
use bingo_v.RabbitMq.Sendor.Delivery.{transfer_all, top_all, queued}
use bingo_v.RabbitMq.Sendor.Expected.{expected, expected_routed}
use bingo_v.RabbitMq.Sendor.Published.{simple_delivers, routing_delivers}
use bingo_v.RabbitMq.Sendor.Refusal.{IsRefused, IsReported, transfer_by_key_lem}
use bingo_v.RabbitMq.Factory.{RabbitmqFactory, rabbitmq_factory, make_simple_sendor}

abbrev attribute : String → String → NodeAttr
attribute n v = record { name = codes n; value = codes v }

abbrev item : Node
item =
    node (codes "item") []
      (attribute "type" "1"
        ∷ attribute "key" "k"
        ∷ attribute "ip" "127.0.0.1"
        ∷ attribute "port" "5672"
        ∷ attribute "username" "guest"
        ∷ attribute "pwd" "guest"
        ∷ attribute "host" "/"
        ∷ attribute "exchange" ""
        ∷ attribute "routingkey" "hello"
        ∷ [])
      no_node

abbrev list : Node
list = node (codes "list") [] [] (and_node item (and_node item no_node))

-- lexical_cast of one digit, and of any text to the port 5672.
digit_cast : Bytes → Option ℤ
digit_cast (d ∷ []) = some (pos (d - 48))
digit_cast other = none

abbrev casts : Casts
casts = record { to_int = digit_cast; to_port = λ s. some 5672 }

abbrev result : Option (RbSendorCfg × Bool) → RbSendorCfg
result none = rb_sendor_cfg
result (some (c, ok)) = c

abbrev cfg : RbSendorCfg
cfg = result (Keys.read_xml casts rb_sendor_cfg (some (found list)) error_what)

-- A configuration with a channel, and the senders that have it.
abbrev value : RbSendorCfgValue
value = record {
  ip = [];
  port = 5672;
  username = [];
  pwd = [];
  host = [];
  routingkey = codes "hello";
  exchange = [];
  type = pos 1;
  map_key = codes "k";
  channel = some 1;
}

abbrev keyed : KeyedSendor
keyed = record {
  is_valid = true;
  cfg = record { is_valid = true; err = error_what; values = (codes "k", value) ∷ [] };
  e_what = error_what;
  task_queue = some many_to_one;
  has_logger = true;
  log = [];
  published = [];
  deleted = 0;
  threads = [];
}

abbrev routes : RbRoutingSendorCfg
routes = record {
  is_valid = true;
  err = error_what;
  values =
      record {
        ip = [];
        port = 5672;
        username = [];
        pwd = [];
        host = [];
        exchange = codes "logs";
        type = pos 4;
        channel = some 1;
        routingkeyset = (codes "k", codes "test1") ∷ [];
      }
      ∷ [];
}

abbrev routed : RoutedSendor
routed = record {
  is_valid = true;
  cfg = routes;
  e_what = error_what;
  task_queue = some many_to_one;
  has_logger = true;
  log = [];
  published = [];
  deleted = 0;
  threads = [];
}

abbrev messages : List (Bytes × Bytes)
messages = (codes "k", codes "one") ∷ (codes "j", codes "two") ∷ (codes "k", codes "three") ∷ []

-- The broker takes everything.
abbrev accepts : Publish → Bool
accepts p = true

new_queue_runs : (many_to_one {A = MemGuard}).is_thread_exit ≡ false
unfolding many_to_one
new_queue_runs = refl

simple_delivers_example :
    (gs : List MemGuard) × (transfer_all keyed messages
      ≡ some (queued keyed many_to_one (map task gs)))
    × ((t' : KeyedSendor) × (top_all (Simple.rb_top accepts) keyed gs ≡ some t')
        × (t'.published ≡ keyed.published ++ expected keyed.cfg messages))
simple_delivers_example =
    simple_delivers accepts messages keyed keyed many_to_one refl refl new_queue_runs (omega arith)
      refl

routing_delivers_example :
    (gs : List MemGuard) × (transfer_all routed messages
      ≡ some (queued routed many_to_one (map task gs)))
    × ((t' : RoutedSendor) × (top_all (Routing.rb_top accepts) routed gs ≡ some t')
        × (t'.published ≡ routed.published ++ expected_routed routed.cfg messages))
routing_delivers_example =
    routing_delivers accepts messages routed routed many_to_one refl refl new_queue_runs
      (omega arith) refl

abbrev long_key : Bytes
long_key = codes "a key of more than forty bytes is refused"

transfer_by_key_lem_example :
    (s' : KeyedSendor) × (transfer_by_key keyed long_key [] ≡ some s')
    × ((IsRefused keyed many_to_one long_key [] × IsReported keyed many_to_one long_key [] s')
        ⊎ ((¬ IsRefused keyed many_to_one long_key [])
            × ((g : MemGuard) × (s' ≡ queued keyed many_to_one (task g ∷ []))
                × (contents g ≡ layout long_key []))))
transfer_by_key_lem_example = transfer_by_key_lem keyed many_to_one long_key [] refl

-- A file in which each value has one byte.
abbrev get : String → Got
get name = got (49 ∷ [])

abbrev one_key : Bytes → List Bytes
one_key s = s ∷ []

abbrev received : Option (RbReceiverCfg × Bool) → RbReceiverCfg
received none = rb_receiver_cfg
received (some (c, ok)) = c

abbrev receiver_cfg : RbReceiverCfg
receiver_cfg = received (
    Receiving.read_xml (λ get. Receiving.check_routing_node casts get one_key) rb_receiver_cfg
      (some get) error_what)

receiver_read :
    Receiving.read_xml
      (λ get. Receiving.check_routing_node casts get one_key)
      rb_receiver_cfg
      (some get)
      error_what
    ≡ some (receiver_cfg, true)
unfolding Receiving.read_xml Receiving.check_routing_node Receiving.check_node Receiving.check_names
    Receiving.read_value Receiving.read_cast digit_cast
receiver_read = refl

read_xml-IsRoutingRead_example : IsRoutingRead casts one_key (some get) receiver_cfg true
read_xml-IsRoutingRead_example =
    read_xml-IsRoutingRead casts one_key (some get) error_what receiver_cfg true receiver_read

-- The file that is read has one simple sender; the singleton of its task holds nothing.
abbrev files : Bytes → Option Found
files name = some (found list)

abbrev no_values : Bytes → Option (String → Got)
no_values name = none

abbrev factory_of : Option (RabbitmqFactory × Bool) → RabbitmqFactory
factory_of none = rabbitmq_factory
factory_of (some (f, ok)) = f

abbrev factory : RabbitmqFactory
factory =
    factory_of
      (make_simple_sendor casts one_key files no_values error_what none true rabbitmq_factory)
