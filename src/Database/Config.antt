-- ===== src/Database/Config.antt =====
-- bingo/database/config/cfg.cpp: the configuration of the connections to a database. What get_node
-- gives, and lexical_cast to a port, are parameters.
pub mod Values
use Prim.Native.String.{String}
use bingo_v.Prelude.{ℕ, Bool, true, false, Option, none, some, List, [], ◌∷◌, ◌++◌, if◌then◌else◌}
use bingo_v.ErrorWhat.{ErrorWhat, error_what, err_no, err_message, clone}
use bingo_v.Bytes.{Bytes, c_str, same}
use bingo_v.Configuration.{Node, Found, missing, found, child, collection}
use bingo_v.Configuration.Checks.{Checked, ok, bad, thrown, ◌>>=◌, attr, cast}
use bingo_v.Database.Result.{negsuc}
use bingo_v.Database.Pool.{to_int, int_eq}

-- The struct cfg_value.
pub record CfgValue : Type 0 where
  pub ip : Bytes
  pub dbname : Bytes
  pub user : Bytes
  pub pwd : Bytes
  pub port : ℕ
  pub key : Bytes

-- The class cfg_value_set: push_back, and get, where 0 is `none`.
unfoldable pub push_back : List CfgValue → CfgValue → List CfgValue
push_back vs v = vs ++ (v ∷ [])

unfoldable pub get : List CfgValue → Bytes → Option CfgValue
get [] k = none
get (v ∷ vs) k = let later = get vs k in if same v.key (c_str k) then some v else later

-- The class cfg.
pub record Cfg : Type 0 where
  pub is_valid : Bool
  pub err : ErrorWhat
  pub value : List CfgValue

unfoldable pub cfg : Cfg
cfg = record { is_valid = false; err = error_what; value = [] }

module _ (to_port : Bytes → Option ℕ) where
  -- One round of the loop of check_node: the attributes of a connector.
  unfoldable pub check_conn : Node → Checked CfgValue
  check_conn conn = do
    key ← attr conn "key" "connector node attribute 'key' isn't exist!"
    ip ← attr conn "ip" "connector node attribute 'ip' isn't exist!"
    dbname ← attr conn "dbname" "connector node attribute 'dbname' isn't exist!"
    user ← attr conn "user" "connector node attribute 'user' isn't exist!"
    pwd ← attr conn "pwd" "connector node attribute 'pwd' isn't exist!"
    s_port ← attr conn "port" "connector node attribute 'port' isn't exist!"
    port ← cast (to_port s_port)
    ok (record { ip = ip; dbname = dbname; user = user; pwd = pwd; port = port; key = key })

  -- The loop; `none` is bad_lexical_cast.
  unfoldable pub check_conns : List Node → Cfg → Option (Cfg × Bool)
  unfolding push_back
  check_conns [] c = some (c, true)
  check_conns (conn ∷ conns) c = elim (check_conn conn) [
    | ok v ↦ check_conns conns (record c { value = push_back c.value v })
    | bad s ↦ some (record c { err = err_message s (err_no 0x23 c.err) }, false)
    | thrown ↦ none
  ]

  -- check_node(), from what get_node("application.database_connector") gives.
  unfoldable pub check_node : Cfg → Found → Option (Cfg × Bool)
  check_node c (missing e) = some (record c { err = clone e c.err }, false)
  check_node c (found conn_set) = check_conns (collection (child conn_set)) c

  verdict : Option (Cfg × Bool) → Option (Cfg × Bool)
  verdict none = none
  verdict (some (c, true)) = some (record c { is_valid = true }, true)
  verdict (some (c, false)) = some (record c { is_valid = false; err = err_no 0x23 c.err }, false)

  -- read_xml(): `xml_.read(...) == -1` compares the bool that read returns with -1. The error is that of
  -- the parser after read, and get_node runs on what was read.
  unfoldable pub read_xml : Cfg → Bool → ErrorWhat → Found → Option (Cfg × Bool)
  unfolding check_node verdict
  read_xml c read e conn_set =
      if int_eq (to_int read) (negsuc 0)
      then some (record c { err = err_no 0x22 (clone e c.err) }, false)
      else verdict (check_node c conn_set)
