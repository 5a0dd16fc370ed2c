-- ===== src/RabbitMq/SendorCfg.antt =====
-- bingo/RabbitMQ/config/rb_sendor_cfg.cpp, the class rb_sendor_cfg: the configuration of the simple,
-- work and publish senders. The ptr_map is a list in the order of its keys.
pub mod Lookup
use Prim.Native.String.{String}
use bingo_v.Prelude.{
  ℕ, ◌≤◌, Bool, true, false, ◌||◌, Option, none, some, List, [], ◌∷◌, ltb, if◌then◌else◌, length,
  get_elem?,
}
use bingo_v.ErrorWhat.{ErrorWhat, error_what, err_no, err_message, clone}
use bingo_v.Bytes.{Bytes, c_str, same}
use bingo_v.PtrMap.{PtrMap, insert, find}
use bingo_v.Configuration.{Node, Found, missing, found, child, collection}
use bingo_v.Configuration.Checks.{Checked, ok, bad, thrown, ◌>>=◌, attr, cast}
use bingo_v.RabbitMq.Config.{
  ℤ, is_type, simple_type, worker_type, publish_type, mapkey_max_size, Casts,
}

-- The struct rb_sendor_cfg_value; a channel is a number, 0 is `none`.
pub record RbSendorCfgValue : Type 0 where
  pub ip : Bytes
  pub port : ℕ
  pub username : Bytes
  pub pwd : Bytes
  pub host : Bytes
  pub routingkey : Bytes
  pub exchange : Bytes
  pub type : ℤ
  pub map_key : Bytes
  pub channel : Option ℕ

abbrev pub Values : Type 0
Values = PtrMap RbSendorCfgValue

-- The class rb_sendor_cfg.
pub record RbSendorCfg : Type 0 where
  pub is_valid : Bool
  pub err : ErrorWhat
  pub values : Values

unfoldable pub rb_sendor_cfg : RbSendorCfg
rb_sendor_cfg = record { is_valid = false; err = error_what; values = [] }

abbrev pub is_sendor_type : ℤ → Bool
is_sendor_type t = is_type simple_type t || (is_type worker_type t || is_type publish_type t)

module _ (casts : Casts) where
  -- The attributes behind the type.
  unfoldable pub check_attrs : Node → ℤ → Checked (Bytes × RbSendorCfgValue)
  check_attrs item n = do
    k ← attr item "key" "key's attribute is empty!"
    if ltb mapkey_max_size (length k) then bad "size of key is more than 40!" else (do
      ip ← attr item "ip" "ip's attribute is empty!"
      s_port ← attr item "port" "port's attribute is empty!"
      port ← cast (casts.to_port s_port)
      username ← attr item "username" "username's attribute is empty!"
      pwd ← attr item "pwd" "pwd's attribute is empty!"
      host ← attr item "host" "host's attribute is empty!"
      exchange ← attr item "exchange" "exchange's attribute is empty!"
      routingkey ← attr item "routingkey" "routingkey's attribute is empty!"
      ok (
        k,
        record {
          ip = c_str ip;
          port = port;
          username = c_str username;
          pwd = c_str pwd;
          host = c_str host;
          routingkey = c_str routingkey;
          exchange = c_str exchange;
          type = n;
          map_key = c_str k;
          channel = none;
        },
      ))

  added : Checked (Bytes × RbSendorCfgValue) → Checked (Option (Bytes × RbSendorCfgValue))
  added (ok kv) = ok (some kv)
  added (bad s) = bad s
  added thrown = thrown

  -- One round of the loop of check_node; `none` is a node that is passed over.
  unfoldable pub check_item : Node → Checked (Option (Bytes × RbSendorCfgValue))
  unfolding check_attrs added
  check_item item = do
    s ← attr item "type" "type's attribute is empty!"
    n ← cast (casts.to_int s)
    if is_sendor_type n then added (check_attrs item n) else ok none

  abbrev insert_item : Option (Bytes × RbSendorCfgValue) → Values → Values
  insert_item none m = m
  insert_item (some (k, v)) m = insert k v m

  -- The loop: the values, and the message of the check that failed.
  unfoldable pub check_items : List Node → Values → Option (Values × Option String)
  unfolding check_item
  check_items [] m = some (m, none)
  check_items (item ∷ items) m = elim (check_item item) [
    | ok kv ↦ check_items items (insert_item kv m)
    | bad s ↦ some (m, some s)
    | thrown ↦ none
  ]

  checked : RbSendorCfg → Option (Values × Option String) → Option (RbSendorCfg × Bool)
  checked c none = none
  checked c (some (m, none)) = some (record c { values = m }, true)
  checked c (some (m, some s)) = some (record c { values = m; err = err_message s c.err }, false)

  -- check_node(), from what get_node("application.rabbitmq_sendor.list") gives; `none` is an exception.
  unfoldable pub check_node : RbSendorCfg → Found → Option (RbSendorCfg × Bool)
  unfolding check_items checked
  check_node c (missing e) = some (record c { err = clone e c.err }, false)
  check_node c (found list) = checked c (check_items (collection (child list)) c.values)

  verdict : Option (RbSendorCfg × Bool) → Option (RbSendorCfg × Bool)
  verdict none = none
  verdict (some (c, true)) = some (record c { is_valid = true }, true)
  verdict (some (c, false)) = some (record c { is_valid = false; err = err_no 0x61 c.err }, false)

  -- read_xml(cfg_file), from what xml_.read gives and the error that the parser then has.
  unfoldable pub read_xml : RbSendorCfg → Option Found → ErrorWhat → Option (RbSendorCfg × Bool)
  unfolding check_node verdict
  read_xml c none e = some (record c { err = err_no 0x60 (clone e c.err) }, false)
  read_xml c (some list) e = verdict (check_node c list)

unfoldable pub get_by_key : RbSendorCfg → Bytes → Option RbSendorCfgValue
unfolding find
get_by_key c k = find k c.values

-- The loop of get_by_routingkey, over the values in the order of their keys.
find_route : Bytes → Values → Option RbSendorCfgValue
find_route r [] = none
find_route r ((k, v) ∷ rest) =
    let later = find_route r rest in if same v.routingkey (c_str r) then some v else later

unfoldable pub get_by_routingkey : RbSendorCfg → Bytes → Option RbSendorCfgValue
unfolding find_route
get_by_routingkey c r = find_route r c.values

unfoldable pub size : RbSendorCfg → ℕ
size c = length c.values

unfoldable pub value_of : Option (Bytes × RbSendorCfgValue) → Option RbSendorCfgValue
value_of none = none
value_of (some (k, v)) = some v

-- operator[](index) and at(index), which are alike; 0 past the end.
unfoldable pub at_index : RbSendorCfg → ℕ → Option RbSendorCfgValue
unfolding value_of
at_index c i = value_of (get_elem? c.values i)
