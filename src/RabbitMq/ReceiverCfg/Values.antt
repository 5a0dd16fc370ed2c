-- ===== src/RabbitMq/ReceiverCfg/Values.antt =====
-- bingo/RabbitMQ/config/rb_receiver_cfg.cpp: which values a configuration has.
use Prim.Native.String.{String}
use bingo_v.Prelude.{
  ℕ, ◌≡◌, refl, sym, ◌⊎◌, inl, inr, Bool, true, false, Option, none, some, List, arith,
}
use bingo_v.ErrorWhat.{ErrorWhat}
use bingo_v.Bytes.{Bytes}
use bingo_v.RabbitMq.Config.{Casts}
use bingo_v.RabbitMq.ReceiverCfg.{
  Got, absent, got, RbCfgValue, RbReceiverCfg, rb_receiver_cfg, Outcome, read_value, read_cast,
  check_names, check_node, check_routing_node, read_xml, verdict, split_keys,
}

-- The values are those of the file.
pub record IsRead (casts : Casts) (get : String → Got) (v : RbCfgValue) : Type 0 where
  pub s_type : Bytes
  pub s_port : Bytes
  pub type_got : get "application.rabbitmq_receiver.type" ≡ got s_type
  pub type_cast : casts.to_int s_type ≡ some v.type
  pub ip_got : get "application.rabbitmq_receiver.ip" ≡ got v.ip
  pub port_got : get "application.rabbitmq_receiver.port" ≡ got s_port
  pub port_cast : casts.to_port s_port ≡ some v.port
  pub username_got : get "application.rabbitmq_receiver.username" ≡ got v.username
  pub pwd_got : get "application.rabbitmq_receiver.pwd" ≡ got v.pwd
  pub host_got : get "application.rabbitmq_receiver.host" ≡ got v.host
  pub exchange_got : get "application.rabbitmq_receiver.exchange" ≡ got v.exchange
  pub routingkey_got : get "application.rabbitmq_receiver.routingkey" ≡ got v.routingkey

-- A property of the values, if a check returns true.
abbrev IfTrue : (RbReceiverCfg → Type 0) → Outcome → Type 0
IfTrue P none = Unit
IfTrue P (some (c, false)) = Unit
IfTrue P (some (c, true)) = P c

read_value-IfTrue :
    (P : RbReceiverCfg → Type 0) (c : RbReceiverCfg) (g : Got) (next : Bytes → Outcome)
    → ((s : Bytes) → g ≡ got s → IfTrue P (next s))
    → IfTrue P (read_value c g next)
unfolding read_value
read_value-IfTrue P c (absent e) next h = tt
read_value-IfTrue P c (got s) next h = h s refl

read_cast-IfTrue :
    {A : Type 0} (P : RbReceiverCfg → Type 0) (o : Option A) (next : A → Outcome)
    → ((a : A) → o ≡ some a → IfTrue P (next a))
    → IfTrue P (read_cast o next)
unfolding read_cast
read_cast-IfTrue P none next h = tt
read_cast-IfTrue P (some a) next h = h a refl

module _ (casts : Casts) (get : String → Got) where
  abbrev Reads : RbReceiverCfg → Type 0
  Reads c = IsRead casts get c.value

  -- The values before the names.
  record HasPort (v : RbCfgValue) : Type 0 where
    s_type : Bytes
    s_port : Bytes
    type_got : get "application.rabbitmq_receiver.type" ≡ got s_type
    type_cast : casts.to_int s_type ≡ some v.type
    ip_got : get "application.rabbitmq_receiver.ip" ≡ got v.ip
    port_got : get "application.rabbitmq_receiver.port" ≡ got s_port
    port_cast : casts.to_port s_port ≡ some v.port

  check_names-Reads : (c : RbReceiverCfg) → HasPort c.value → IfTrue Reads (check_names casts get c)
  unfolding check_names
  check_names-Reads c p =
      read_value-IfTrue Reads c (get "application.rabbitmq_receiver.username") _ λ username g1.
        read_value-IfTrue Reads _ (get "application.rabbitmq_receiver.pwd") _ λ pwd g2.
          read_value-IfTrue Reads _ (get "application.rabbitmq_receiver.host") _ λ host g3.
            read_value-IfTrue Reads _ (get "application.rabbitmq_receiver.exchange") _
              λ exchange g4.
                read_value-IfTrue Reads _ (get "application.rabbitmq_receiver.routingkey") _
                  λ routingkey g5. record {
                    s_type = p.s_type;
                    s_port = p.s_port;
                    type_got = p.type_got;
                    type_cast = p.type_cast;
                    ip_got = p.ip_got;
                    port_got = p.port_got;
                    port_cast = p.port_cast;
                    username_got = g1;
                    pwd_got = g2;
                    host_got = g3;
                    exchange_got = g4;
                    routingkey_got = g5;
                  }

  check_node-Reads : (c : RbReceiverCfg) → IfTrue Reads (check_node casts get c)
  unfolding check_node
  check_node-Reads c =
      read_value-IfTrue Reads c (get "application.rabbitmq_receiver.type") _ λ s_type g1.
        read_cast-IfTrue Reads (casts.to_int s_type) _ λ type g2.
          read_value-IfTrue Reads _ (get "application.rabbitmq_receiver.ip") _ λ ip g3.
            read_value-IfTrue Reads _ (get "application.rabbitmq_receiver.port") _ λ s_port g4.
              read_cast-IfTrue Reads (casts.to_port s_port) _ λ port g5.
                check_names-Reads _ (record {
                  s_type = s_type;
                  s_port = s_port;
                  type_got = g1;
                  type_cast = g2;
                  ip_got = g3;
                  port_got = g4;
                  port_cast = g5;
                })

abbrev pub number_of : Option (String → Got) → ℕ
number_of none = 0x62
number_of (some get) = 0x63

-- What read_xml of a routing or topic receiver leaves.
abbrev pub IsRoutingRead :
    Casts → (Bytes → List Bytes) → Option (String → Got) → RbReceiverCfg → Bool → Type 0
IsRoutingRead casts split file c ok =
    ((ok ≡ true)
      × (c.is_valid ≡ true)
      × (c.routingkeyset ≡ split c.value.routingkey)
      × ((get : String → Got) × (file ≡ some get) × IsRead casts get c.value))
    ⊎ ((ok ≡ false) × (c.is_valid ≡ false) × (c.err.number ≡ number_of file))

module _ (casts : Casts) (split : Bytes → List Bytes) where
  split-Read :
      (get : String → Got) (o : Outcome) (c : RbReceiverCfg) (ok : Bool)
      → IfTrue (λ d. IsRead casts get d.value) o
      → verdict (split_keys casts get split o) ≡ some (c, ok)
      → IsRoutingRead casts split (some get) c ok
  unfolding verdict split_keys
  split-Read get none c ok r h = absurd (ground (arith, h))
  split-Read get (some (d, false)) c ok r h =
      inr (ground (arith, h), ground (arith, h), ground (arith, h))
  split-Read get (some (d, true)) c ok r h =
      let same_value : d.value ≡ c.value = ground (arith, h) in
      inl (
        ground (arith, h),
        ground (arith, h),
        ground (arith, h),
        (get, refl, rw (sym same_value) r),
      )

  -- read_xml of a new rb_routing_recevier_cfg returns true only with a valid configuration in which
  -- each value is that of its name in the file, type and port as lexical_cast reads them, and the
  -- routing keys are those that split gives; when it returns false, the configuration is not valid and
  -- the number of the error is 0x62 if the file was not read, else 0x63.
  pub read_xml-IsRoutingRead :
      (file : Option (String → Got)) (e : ErrorWhat) (c : RbReceiverCfg) (ok : Bool)
      → read_xml (λ get. check_routing_node casts get split) rb_receiver_cfg file e ≡ some (c, ok)
      → IsRoutingRead casts split file c ok
  unfolding read_xml rb_receiver_cfg check_routing_node
  read_xml-IsRoutingRead none e c ok h =
      inr (ground (arith, h), ground (arith, h), ground (arith, h))
  read_xml-IsRoutingRead (some get) e c ok h =
      split-Read get (check_node casts get _) c ok (check_node-Reads casts get _) h
