-- ===== src/RabbitMq/RoutingCfg.antt =====
-- bingo/RabbitMQ/config/rb_sendor_cfg.cpp, the classes rb_routing_sendor_cfg and rb_topic_sendor_cfg:
-- the configuration of the routing and topic senders. They differ in the type of item that they take,
-- which is `kind` here.
pub mod Lookup
use Prim.Native.String.{String}
use bingo_v.Prelude.{
  ℕ, ◌-◌, Bool, true, false, Option, none, some, List, [], ◌∷◌, ◌++◌, ltb, if◌then◌else◌, length,
  get_elem?,
}
use bingo_v.ErrorWhat.{ErrorWhat, error_what, err_no, err_message, clone}
use bingo_v.Bytes.{Bytes, c_str, same}
use bingo_v.Configuration.{Node, Found, missing, found, child, collection, value}
use bingo_v.Configuration.Checks.{Checked, ok, bad, thrown, ◌>>=◌, attr, cast}
use bingo_v.RabbitMq.Config.{ℤ, is_type, routing_type, topic_type, Casts}

-- The struct rb_routing_sendor_cfg_value.
pub record RbRoutingSendorCfgValue : Type 0 where
  pub ip : Bytes
  pub port : ℕ
  pub username : Bytes
  pub pwd : Bytes
  pub host : Bytes
  pub exchange : Bytes
  pub type : ℤ
  pub channel : Option ℕ
  pub routingkeyset : List (Bytes × Bytes)

pub record RbRoutingSendorCfg : Type 0 where
  pub is_valid : Bool
  pub err : ErrorWhat
  pub values : List RbRoutingSendorCfgValue

unfoldable pub rb_routing_sendor_cfg : RbRoutingSendorCfg
rb_routing_sendor_cfg = record { is_valid = false; err = error_what; values = [] }

-- check_rb_type(type) of the two classes.
unfoldable pub check_routing_type : ℤ → Bool
check_routing_type t = is_type routing_type t

unfoldable pub check_topic_type : ℤ → Bool
check_topic_type t = is_type topic_type t

-- The loop over the children of an item.
unfoldable pub check_keys : List Node → List (Bytes × Bytes) → Checked (List (Bytes × Bytes))
check_keys [] set = ok set
check_keys (n ∷ ns) set = attr n "key" "routingkey's attribute is empty!" >>= λ key.
    check_keys ns (set ++ ((key, value n) ∷ []))

module _ (kind : ℤ → Bool) (casts : Casts) where
  -- The attributes behind the type, and the children.
  unfoldable pub check_attrs : Node → ℤ → Checked RbRoutingSendorCfgValue
  unfolding check_keys
  check_attrs item n = do
    ip ← attr item "ip" "ip's attribute is empty!"
    s_port ← attr item "port" "port's attribute is empty!"
    port ← cast (casts.to_port s_port)
    username ← attr item "username" "username's attribute is empty!"
    pwd ← attr item "pwd" "pwd's attribute is empty!"
    host ← attr item "host" "host's attribute is empty!"
    exchange ← attr item "exchange" "exchange's attribute is empty!"
    set ← check_keys (collection (child item)) []
    ok (record {
      ip = c_str ip;
      port = port;
      username = c_str username;
      pwd = c_str pwd;
      host = c_str host;
      exchange = c_str exchange;
      type = n;
      channel = none;
      routingkeyset = set;
    })

  added : Checked RbRoutingSendorCfgValue → Checked (List RbRoutingSendorCfgValue)
  added (ok v) = ok (v ∷ [])
  added (bad s) = bad s
  added thrown = thrown

  -- One round of the loop of check_node: the values that it pushes.
  unfoldable pub check_item : Node → Checked (List RbRoutingSendorCfgValue)
  unfolding check_attrs added
  check_item item = do
    s ← attr item "type" "type's attribute is empty!"
    n ← cast (casts.to_int s)
    if kind n then added (check_attrs item n) else ok []

  -- The loop: the values, and the message of the check that failed.
  unfoldable pub check_items :
      List Node
      → List RbRoutingSendorCfgValue
      → Option (List RbRoutingSendorCfgValue × Option String)
  unfolding check_item
  check_items [] vs = some (vs, none)
  check_items (item ∷ items) vs = elim (check_item item) [
    | ok more ↦ check_items items (vs ++ more)
    | bad s ↦ some (vs, some s)
    | thrown ↦ none
  ]

  checked :
      RbRoutingSendorCfg
      → Option (List RbRoutingSendorCfgValue × Option String)
      → Option (RbRoutingSendorCfg × Bool)
  checked c none = none
  checked c (some (vs, none)) = some (record c { values = vs }, true)
  checked c (some (vs, some s)) = some (record c { values = vs; err = err_message s c.err }, false)

  -- check_node(), from what get_node("application.rabbitmq_sendor.list") gives; `none` is an exception.
  unfoldable pub check_node : RbRoutingSendorCfg → Found → Option (RbRoutingSendorCfg × Bool)
  unfolding check_items checked
  check_node c (missing e) = some (record c { err = clone e c.err }, false)
  check_node c (found list) = checked c (check_items (collection (child list)) c.values)

  verdict : Option (RbRoutingSendorCfg × Bool) → Option (RbRoutingSendorCfg × Bool)
  verdict none = none
  verdict (some (c, true)) = some (record c { is_valid = true }, true)
  verdict (some (c, false)) = some (record c { is_valid = false; err = err_no 0x61 c.err }, false)

  -- read_xml(cfg_file), from what xml_.read gives and the error that the parser then has.
  unfoldable pub read_xml :
      RbRoutingSendorCfg → Option Found → ErrorWhat → Option (RbRoutingSendorCfg × Bool)
  unfolding check_node verdict
  read_xml c none e = some (record c { err = err_no 0x60 (clone e c.err) }, false)
  read_xml c (some list) e = verdict (check_node c list)

-- The inner loops of get_by_key and map_to_routingkey, on the pairs of one value.
unfoldable pub route : Bytes → List (Bytes × Bytes) → Option Bytes
route k [] = none
route k ((j, r) ∷ rest) = let later = route k rest in if same j (c_str k) then some r else later

unfoldable pub by_key : Bytes → List RbRoutingSendorCfgValue → Option RbRoutingSendorCfgValue
unfolding route
by_key k [] = none
by_key k (v ∷ vs) =
    let later = by_key k vs in elim (route k v.routingkeyset) [ none ↦ later | some r ↦ some v ]

unfoldable pub get_by_key : RbRoutingSendorCfg → Bytes → Option RbRoutingSendorCfgValue
unfolding by_key
get_by_key c k = by_key k c.values

unfoldable pub to_route : Bytes → List RbRoutingSendorCfgValue → Bytes
unfolding route
to_route k [] = []
to_route k (v ∷ vs) =
    let later = to_route k vs in elim (route k v.routingkeyset) [ none ↦ later | some r ↦ r ]

unfoldable pub map_to_routingkey : RbRoutingSendorCfg → Bytes → Bytes
unfolding to_route
map_to_routingkey c k = to_route k c.values

unfoldable pub size : RbRoutingSendorCfg → ℕ
size c = length c.values

element : Option RbRoutingSendorCfgValue → Option (Option RbRoutingSendorCfgValue)
element none = none
element (some v) = some (some v)

-- operator[](index): the inner `none` is 0, the outer one an access past the end.
unfoldable pub at_index : RbRoutingSendorCfg → ℕ → Option (Option RbRoutingSendorCfgValue)
unfolding element
at_index c i = if ltb (length c.values - 1) i then some none else element (get_elem? c.values i)
