-- ===== src/RabbitMq/Factory.antt =====
-- bingo/RabbitMQ/rabbitmq_factory.cpp: the object that makes a sender or a receiver. The files that a
-- configuration may be read from are a parameter, and so is what the singleton of the sender's thread_task
-- holds before; `none` is a fault or an exception.
pub mod Made
use Prim.Native.String.{String}
use bingo_v.Prelude.{
  ℕ, ◌+◌, Bool, true, false, Option, none, some, List, [], ◌∷◌, ◌++◌, if◌then◌else◌,
}
use bingo_v.ErrorWhat.{ErrorWhat, error_what, set_error, err_message, err_no}
use bingo_v.Bytes.{Bytes, codes, c_str}
use bingo_v.MemGuard.{MemGuard}
use bingo_v.Thread.ManyToOne.{ManyToOne}
use bingo_v.Configuration.{Found}
use bingo_v.RabbitMq.Config.{Casts}
use bingo_v.RabbitMq.ReceiverCfg.{Got}
use bingo_v.RabbitMq.Sendor.{Sendor}
use bingo_v.RabbitMq.Sendor.Keyed.{KeyedSendor}
use bingo_v.RabbitMq.Sendor.Routed.{RoutedSendor}
use bingo_v.RabbitMq.Sendor.Simple as Simple
use bingo_v.RabbitMq.Sendor.Work as Work
use bingo_v.RabbitMq.Sendor.Publishing as Publishing
use bingo_v.RabbitMq.Sendor.Routing as Routing
use bingo_v.RabbitMq.Sendor.Topic as Topic
use bingo_v.RabbitMq.Receiver.{Receiver, simple_receiver, routing_receiver, set_callback}

-- The object behind the pointer snd_.
pub data AnySendor : Type 0 where
  simple work publishing : KeyedSendor → AnySendor
  routing topic : RoutedSendor → AnySendor

-- The class rabbitmq_factory. `logged` are the errors that the logger was given; `lost` counts the
-- objects whose pointer was overwritten.
pub record RabbitmqFactory : Type 0 where
  pub snd : Option AnySendor
  pub rev : Option Receiver
  pub has_logger : Bool
  pub e_what : ErrorWhat
  pub cfg_file : Bytes
  pub logged : List ErrorWhat
  pub lost : ℕ

unfoldable pub rabbitmq_factory : RabbitmqFactory
rabbitmq_factory = record {
  snd = none;
  rev = none;
  has_logger = false;
  e_what = error_what;
  cfg_file = codes "./cfg.xml";
  logged = [];
  lost = 0;
}

unfoldable pub set_cfg : Bytes → RabbitmqFactory → RabbitmqFactory
set_cfg file f = record f { cfg_file = file }

-- How many objects a pointer loses when it is overwritten.
abbrev pub overwritten {ℓ} : {A : Type ℓ} → Option A → ℕ
overwritten none = 0
overwritten (some a) = 1

-- e_what_ gets the number of the method and the message of the object, and is logged.
abbrev failed : ℕ → ErrorWhat → RabbitmqFactory → RabbitmqFactory
failed n e f =
    let e' = set_error n e.message f.e_what in
    record f { e_what = e'; logged = if f.has_logger then f.logged ++ (e' ∷ []) else f.logged }

abbrev set_snd : AnySendor → RabbitmqFactory → RabbitmqFactory
set_snd s f = record f { snd = some s; lost = f.lost + overwritten f.snd }

-- The end of a make method of a sender: `wrap` stores it, `connect` is its connet_to_server.
finish :
    {Cfg Value : Type 0}
    → ℕ
    → (Sendor Cfg Value → AnySendor)
    → (Sendor Cfg Value → Bool → Option (Sendor Cfg Value))
    → RabbitmqFactory
    → Option (Sendor Cfg Value)
    → Option (RabbitmqFactory × Bool)
finish n wrap connect f none = none
finish n wrap connect f (some s) =
    if s.is_valid
    then elim (connect s f.has_logger) [ none ↦ none | some s' ↦ some (set_snd (wrap s') f, true) ]
    else some (failed n s.e_what (set_snd (wrap s) f), false)

-- The end of a make method of a receiver: the callback is set and connet_to_server called, which ends
-- only with the process, so that the result is what it starts from.
finish_receiver : ℕ → Bool → RabbitmqFactory → Option Receiver → Option (RabbitmqFactory × Bool)
finish_receiver n callback f none = none
finish_receiver n callback f (some r) =
    let f' : RabbitmqFactory = record f { rev = some r; lost = f.lost + overwritten f.rev } in
    if r.is_valid
    then some (record f' { rev = some (set_callback callback r) }, true)
    else some (failed n r.e_what f', false)

module _ (casts : Casts) (split : Bytes → List Bytes) (files : Bytes → Option Found)
    (values : Bytes → Option (String → Got)) (e : ErrorWhat)
    (self : Option (ManyToOne MemGuard)) where
  abbrev logging : Bool → RabbitmqFactory → RabbitmqFactory
  logging log f = record f { has_logger = log }

  unfoldable pub make_simple_sendor : Bool → RabbitmqFactory → Option (RabbitmqFactory × Bool)
  unfolding finish
  make_simple_sendor log f =
      finish 0x64 simple Simple.connet_to_server (logging log f)
        (Simple.simple_sendor casts (files f.cfg_file) e self)

  unfoldable pub make_work_sendor : Bool → RabbitmqFactory → Option (RabbitmqFactory × Bool)
  unfolding finish
  make_work_sendor log f =
      finish 0x66 work Work.connet_to_server (logging log f)
        (Work.work_sendor casts (files f.cfg_file) e self)

  unfoldable pub make_publish_sendor : Bool → RabbitmqFactory → Option (RabbitmqFactory × Bool)
  unfolding finish
  make_publish_sendor log f =
      finish 0x68 publishing Publishing.connet_to_server (logging log f)
        (Publishing.publish_sendor casts (files f.cfg_file) e self)

  unfoldable pub make_routing_sendor : Bool → RabbitmqFactory → Option (RabbitmqFactory × Bool)
  unfolding finish
  make_routing_sendor log f =
      finish 0x6A routing Routing.connet_to_server (logging log f)
        (Routing.routing_sendor casts (files f.cfg_file) e self)

  unfoldable pub make_topic_sendor : Bool → RabbitmqFactory → Option (RabbitmqFactory × Bool)
  unfolding finish
  make_topic_sendor log f =
      finish 0x6C topic Topic.connet_to_server (logging log f)
        (Topic.topic_sendor casts (files f.cfg_file) e self)

  unfoldable pub make_simple_receiver :
      Bool → Bool → RabbitmqFactory → Option (RabbitmqFactory × Bool)
  unfolding finish_receiver
  make_simple_receiver log callback f =
      finish_receiver 0x65 callback (logging log f) (simple_receiver casts (values f.cfg_file) e)

  unfoldable pub make_work_receiver :
      Bool → Bool → RabbitmqFactory → Option (RabbitmqFactory × Bool)
  unfolding finish_receiver
  make_work_receiver log callback f =
      finish_receiver 0x67 callback (logging log f) (simple_receiver casts (values f.cfg_file) e)

  unfoldable pub make_publish_receiver :
      Bool → Bool → RabbitmqFactory → Option (RabbitmqFactory × Bool)
  unfolding finish_receiver
  make_publish_receiver log callback f =
      finish_receiver 0x69 callback (logging log f) (simple_receiver casts (values f.cfg_file) e)

  unfoldable pub make_routing_receiver :
      Bool → Bool → RabbitmqFactory → Option (RabbitmqFactory × Bool)
  unfolding finish_receiver
  make_routing_receiver log callback f =
      finish_receiver 0x6B callback (logging log f)
        (routing_receiver casts split (values f.cfg_file) e)

  unfoldable pub make_topic_receiver :
      Bool → Bool → RabbitmqFactory → Option (RabbitmqFactory × Bool)
  unfolding finish_receiver
  make_topic_receiver log callback f =
      finish_receiver 0x6D callback (logging log f)
        (routing_receiver casts split (values f.cfg_file) e)

stored :
    {Cfg Value : Type 0}
    → (Sendor Cfg Value → AnySendor)
    → RabbitmqFactory
    → Option (Sendor Cfg Value)
    → Option RabbitmqFactory
stored wrap f none = none
stored wrap f (some s) = some (record f { snd = some (wrap s) })

by_key : RabbitmqFactory → Option AnySendor → Bytes → Bytes → Option RabbitmqFactory
unfolding stored
by_key f none key body = some f
by_key f (some (simple s)) key body = stored simple f (Simple.transfer_data_by_key s key body)
by_key f (some (work s)) key body = stored work f (Work.transfer_data_by_key s key body)
by_key f (some (publishing s)) key body =
    stored publishing f (Publishing.transfer_data_by_key s key body)
by_key f (some (routing s)) key body = stored routing f (Routing.transfer_data_by_key s key body)
by_key f (some (topic s)) key body = stored topic f (Topic.transfer_data_by_key s key body)

unfoldable pub transfer_data_by_key : RabbitmqFactory → Bytes → Bytes → Option RabbitmqFactory
unfolding by_key
transfer_data_by_key f key body = by_key f f.snd key body

by_route : RabbitmqFactory → Option AnySendor → Bytes → Bytes → Option RabbitmqFactory
unfolding stored
by_route f none r body = some f
by_route f (some (simple s)) r body = stored simple f (Simple.transfer_data_by_routingkey s r body)
by_route f (some (work s)) r body = stored work f (Work.transfer_data_by_routingkey s r body)
by_route f (some (publishing s)) r body =
    stored publishing f (Publishing.transfer_data_by_routingkey s r body)
by_route f (some (routing s)) r body =
    stored routing f (Routing.transfer_data_by_routingkey s r body)
by_route f (some (topic s)) r body = stored topic f (Topic.transfer_data_by_routingkey s r body)

unfoldable pub transfer_data_by_routingkey :
    RabbitmqFactory → Bytes → Bytes → Option RabbitmqFactory
unfolding by_route
transfer_data_by_routingkey f r body = by_route f f.snd r body

-- The destructor: how many objects it deletes.
unfoldable pub deleted : RabbitmqFactory → ℕ
deleted f = overwritten f.snd + overwritten f.rev
