-- ===== src/RabbitMq/ReceiverCfg.antt =====
-- bingo/RabbitMQ/config/rb_receiver_cfg.cpp: the configuration of the receivers. What get_value gives
-- for a name, and boost::algorithm::split, are parameters.
pub mod Values
use Prim.Native.String.{String}
use bingo_v.Prelude.{ℕ, Bool, true, false, Option, none, some, List, []}
use bingo_v.ErrorWhat.{ErrorWhat, error_what, err_no, clone}
use bingo_v.Bytes.{Bytes}
use bingo_v.RabbitMq.Config.{ℤ, pos, Casts}

-- What xml_parser::get_value gives: false with the error that the parser then has, or the text.
pub data Got : Type 0 where
  absent : ErrorWhat → Got
  got : Bytes → Got

-- The struct rb_cfg_value.
pub record RbCfgValue : Type 0 where
  pub ip : Bytes
  pub port : ℕ
  pub username : Bytes
  pub pwd : Bytes
  pub host : Bytes
  pub routingkey : Bytes
  pub exchange : Bytes
  pub type : ℤ

-- The classes rb_recevier_cfg and rb_routing_recevier_cfg, which has the routing keys.
pub record RbReceiverCfg : Type 0 where
  pub is_valid : Bool
  pub err : ErrorWhat
  pub value : RbCfgValue
  pub routingkeyset : List Bytes

unfoldable pub rb_receiver_cfg : RbReceiverCfg
rb_receiver_cfg = record {
  is_valid = false;
  err = error_what;
  value = record {
    ip = [];
    port = 0;
    username = [];
    pwd = [];
    host = [];
    routingkey = [];
    exchange = [];
    type = pos 0;
  };
  routingkeyset = [];
}

-- The configuration and what a check returns; `none` is bad_lexical_cast.
abbrev pub Outcome : Type 0
Outcome = Option (RbReceiverCfg × Bool)

-- if(!xml_.get_value(name, out)){ xml_.err().clone(err_); return false; }
unfoldable pub read_value : RbReceiverCfg → Got → (Bytes → Outcome) → Outcome
read_value c (absent e) next = some (record c { err = clone e c.err }, false)
read_value c (got s) next = next s

unfoldable pub read_cast : {A : Type 0} → Option A → (A → Outcome) → Outcome
read_cast none next = none
read_cast (some a) next = next a

abbrev pub with_value : RbReceiverCfg → RbCfgValue → RbReceiverCfg
with_value c v = record c { value = v }

module _ (casts : Casts) (get : String → Got) where
  -- The names behind the port.
  unfoldable pub check_names : RbReceiverCfg → Outcome
  check_names c = read_value c (get "application.rabbitmq_receiver.username") λ username.
      let c = with_value c (record c.value { username = username }) in
      read_value c (get "application.rabbitmq_receiver.pwd") λ pwd.
        let c = with_value c (record c.value { pwd = pwd }) in
        read_value c (get "application.rabbitmq_receiver.host") λ host.
          let c = with_value c (record c.value { host = host }) in
          read_value c (get "application.rabbitmq_receiver.exchange") λ exchange.
            let c = with_value c (record c.value { exchange = exchange }) in
            read_value c (get "application.rabbitmq_receiver.routingkey")
              λ routingkey. some (with_value c (record c.value { routingkey = routingkey }), true)

  unfoldable pub check_node : RbReceiverCfg → Outcome
  check_node c = read_value c (get "application.rabbitmq_receiver.type") λ s_type.
      read_cast (casts.to_int s_type) λ type.
        let c = with_value c (record c.value { type = type }) in
        read_value c (get "application.rabbitmq_receiver.ip") λ ip.
          let c = with_value c (record c.value { ip = ip }) in
          read_value c (get "application.rabbitmq_receiver.port") λ s_port.
            read_cast (casts.to_port s_port)
              λ port. check_names (with_value c (record c.value { port = port }))

  split_keys : (Bytes → List Bytes) → Outcome → Outcome
  split_keys split none = none
  split_keys split (some (c, false)) = some (c, false)
  split_keys split (some (c, true)) =
      some (record c { routingkeyset = split c.value.routingkey }, true)

  -- check_node() of rb_routing_recevier_cfg.
  unfoldable pub check_routing_node : (Bytes → List Bytes) → RbReceiverCfg → Outcome
  unfolding check_node split_keys
  check_routing_node split c = split_keys split (check_node c)

verdict : Outcome → Outcome
verdict none = none
verdict (some (c, true)) = some (record c { is_valid = true }, true)
verdict (some (c, false)) = some (record c { is_valid = false; err = err_no 0x63 c.err }, false)

-- read_xml(cfg_file), for the check_node of a class; from what xml_.read gives and its error.
unfoldable pub read_xml :
    ((String → Got) → RbReceiverCfg → Outcome)
    → RbReceiverCfg
    → Option (String → Got)
    → ErrorWhat
    → Outcome
unfolding verdict
read_xml check c none e = some (record c { err = err_no 0x62 (clone e c.err) }, false)
read_xml check c (some get) e = verdict (check get c)
