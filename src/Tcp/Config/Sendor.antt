-- ===== src/Tcp/Config/Sendor.antt =====
-- bingo/TCP/config/sendor_cfg.cpp, the class sendor_cfg: the servers that a client connects to. The
-- pointer to the handler is a number, 0 is `none`.
pub mod Lookup
use Prim.Native.String.{String}
use bingo_v.Prelude.{ℕ, Bool, true, false, Option, none, some, List, [], ◌∷◌, length, get_elem?}
use bingo_v.ErrorWhat.{ErrorWhat, error_what, err_no, err_message, clone}
use bingo_v.Bytes.{Bytes, c_str}
use bingo_v.Configuration.{Node, Found, missing, found, child, collection}
use bingo_v.Configuration.Checks.{Checked, ok, bad, thrown, ◌>>=◌, attr, cast}
use bingo_v.PtrMap.{PtrMap, insert, find}

-- The struct tcp_sendor_cfg_value.
pub record TcpSendorCfgValue : Type 0 where
  pub ip : Bytes
  pub port : ℕ
  pub map_key : Bytes
  pub handler : Option ℕ

-- The class sendor_cfg.
pub record SendorCfg : Type 0 where
  pub is_valid : Bool
  pub err : ErrorWhat
  pub values : PtrMap TcpSendorCfgValue

unfoldable pub sendor_cfg : SendorCfg
sendor_cfg = record { is_valid = false; err = error_what; values = [] }

module _ (to_port : Bytes → Option ℕ) where
  -- One round of the loop of check_node, up to the insert.
  unfoldable pub check_item : Node → Checked (Bytes × TcpSendorCfgValue)
  check_item item = do
    key ← attr item "key" "key's attribute is empty!"
    ip ← attr item "ip" "ip's attribute is empty!"
    s_port ← attr item "port" "port's attribute is empty!"
    port ← cast (to_port s_port)
    ok (key, record { ip = c_str ip; port = port; map_key = c_str key; handler = none })

  -- The loop: the values, and the message of the check that failed.
  unfoldable pub check_items :
      List Node → PtrMap TcpSendorCfgValue → Option (PtrMap TcpSendorCfgValue × Option String)
  check_items [] m = some (m, none)
  check_items (item ∷ items) m = elim (check_item item) [
    | ok (k, v) ↦ check_items items (insert k v m)
    | bad s ↦ some (m, some s)
    | thrown ↦ none
  ]

  checked :
      SendorCfg → Option (PtrMap TcpSendorCfgValue × Option String) → Option (SendorCfg × Bool)
  checked c none = none
  checked c (some (m, none)) = some (record c { values = m }, true)
  checked c (some (m, some s)) = some (record c { values = m; err = err_message s c.err }, false)

  -- check_node(), from what get_node("application.tcp_sendor.list") gives; `none` is an exception.
  unfoldable pub check_node : SendorCfg → Found → Option (SendorCfg × Bool)
  unfolding checked
  check_node c (missing e) = some (record c { err = clone e c.err }, false)
  check_node c (found list) = checked c (check_items (collection (child list)) c.values)

  verdict : Option (SendorCfg × Bool) → Option (SendorCfg × Bool)
  verdict none = none
  verdict (some (c, true)) = some (record c { is_valid = true }, true)
  verdict (some (c, false)) = some (record c { is_valid = false; err = err_no 0x13 c.err }, false)

  -- read_xml(), from what xml_.read gives and the error that the parser then has.
  unfoldable pub read_xml : SendorCfg → Option Found → ErrorWhat → Option (SendorCfg × Bool)
  unfolding check_node verdict
  read_xml c none e = some (record c { err = err_no 0x12 (clone e c.err) }, false)
  read_xml c (some list) e = verdict (check_node c list)

unfoldable pub get_cfg : SendorCfg → Bytes → Option TcpSendorCfgValue
get_cfg c k = find k c.values

unfoldable pub size : SendorCfg → ℕ
size c = length c.values

value_of : Option (Bytes × TcpSendorCfgValue) → Option TcpSendorCfgValue
value_of none = none
value_of (some (k, v)) = some v

-- operator[](index); 0 past the end.
unfoldable pub at_index : SendorCfg → ℕ → Option TcpSendorCfgValue
unfolding value_of
at_index c i = value_of (get_elem? c.values i)
