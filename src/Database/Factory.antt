-- ===== src/Database/Factory.antt =====
-- bingo/database/db_factory.cpp: the methods that make a pool or a visitor, and the queries over them.
-- bingo/database/db_connector.cpp: where to connect to.
pub mod Conserve
pub mod Making
use Prim.Native.String.{String}
use bingo_v.Prelude.{ℕ, Bool, true, false, Option, none, some, List, [], ◌∷◌, ◌++◌, if◌then◌else◌}
use bingo_v.ErrorWhat.{ErrorWhat, error_what, clone, error_with, err_no, err_message}
use bingo_v.Database.Result.{DbResult}
use bingo_v.Database.Connector.{Connector, Reply, query_result, query_transaction}
use bingo_v.Database.Batch.{query_results, visit_result, visit_results}
use bingo_v.Bytes.{Bytes, c_str}
use bingo_v.Configuration.{Found}
use bingo_v.Database.Config.{CfgValue, get, Cfg, cfg, read_xml}
use bingo_v.Database.Pool.{Pool, mysql_pool, make_connector_pool, get_connector, free_connector}

-- visitor_: the null pointer, a pool, or a visitor that opens a connection for each query.
pub data Visitor : Type 0 where
  no_visitor : Visitor
  pool_visitor : Pool → Visitor
  mysql_visitor : Visitor

-- The class db_connector.
pub record DbConnector : Type 0 where
  pub ip : Bytes
  pub user : Bytes
  pub pwd : Bytes
  pub dbname : Bytes
  pub port : ℕ

-- Its constructor without arguments; its setters take a const char*.
unfoldable pub db_connector : DbConnector
db_connector = record { ip = []; user = []; pwd = []; dbname = []; port = 0 }

-- The class db_factory.
pub record Factory : Type 0 where
  pub cfg_ : Cfg
  pub conn_info : DbConnector
  pub e_what : ErrorWhat
  pub visitor : Visitor

unfoldable pub db_factory : Factory
unfolding cfg db_connector
db_factory = record {
  cfg_ = cfg;
  conn_info = db_connector;
  e_what = error_what;
  visitor = no_visitor;
}

-- conn_info_ after the setters: port is a u16_t in the configuration and a u32_t here.
unfoldable pub conn_info_of : CfgValue → DbConnector
conn_info_of v = record {
  ip = c_str v.ip;
  user = c_str v.user;
  pwd = c_str v.pwd;
  dbname = c_str v.dbname;
  port = v.port;
}

-- What the two make methods do with the value of the key.
use_value : (Factory → Factory) → Factory → Option CfgValue → Factory × Bool
unfolding conn_info_of
use_value make f none = (
  record f {
    e_what = err_message "get configuration fail! key isn't exist." (err_no 0x24 f.e_what);
  },
  false,
)
use_value make f (some v) = (make (record f { conn_info = conn_info_of v }), true)

use_cfg : (Factory → Factory) → Bytes → Factory → Option (Cfg × Bool) → Option (Factory × Bool)
unfolding use_value
use_cfg make key f none = none
use_cfg make key f (some (c, false)) =
    some (record f { cfg_ = c; e_what = clone c.err f.e_what }, false)
use_cfg make key f (some (c, true)) =
    some (use_value make (record f { cfg_ = c }) (get c.value key))

-- The two methods over what cfg_.read_xml() reads: whether xml_.read succeeds, the error of the parser,
-- and what get_node gives. `none` is bad_lexical_cast.
module _ (to_port : Bytes → Option ℕ) (read : Bool) (parser_err : ErrorWhat)
    (conn_set : Found) where
  unfoldable pub make_mysql_visitor : Bytes → Factory → Option (Factory × Bool)
  unfolding use_cfg
  make_mysql_visitor key f =
      use_cfg (λ g. record g { visitor = mysql_visitor }) key f
        (read_xml to_port f.cfg_ read parser_err conn_set)

  -- With num not below 0, and the pool as it is when its thread comes to ios_.run(); `connects` is the
  -- outcome of mysql_real_connect for what conn_info holds.
  unfoldable pub make_mysql_pool :
      (DbConnector → Connector → Bool) → ℕ → Bytes → Factory → Option (Factory × Bool)
  unfolding use_cfg
  make_mysql_pool connects num key f =
      use_cfg
        (λ g. record g {
          visitor = pool_visitor (make_connector_pool (connects g.conn_info) num mysql_pool).0;
        })
        key f (read_xml to_port f.cfg_ read parser_err conn_set)

-- conn->err().clone(e_what_) when the query has failed.
abbrev pub keep_error : Factory → ErrorWhat → Bool → Factory
keep_error f e true = f
keep_error f e false = record f { e_what = clone e f.e_what }

module _ {S R : Type 0} (run : Connector → S → R → Option (Connector × S × R × Bool))
    (visit : S → R → Option (ErrorWhat × S × R × Bool)) where
  -- The connector is given back, whatever the query returned.
  give_back : Factory → Pool → Option (Connector × S × R × Bool) → Option (Factory × S × R × Bool)
  give_back f p none = none
  give_back f p (some (c, s, r, ok)) =
      some (
        keep_error (record f { visitor = pool_visitor (free_connector p c) }) c.e_what ok,
        s,
        r,
        ok,
      )

  from_pool : Factory → S → R → Option Connector × Pool → Option (Factory × S × R × Bool)
  unfolding give_back
  from_pool f s r (none, p) = some (
    record f {
      e_what = err_message "mysql pool is empty!" (err_no 0x25 f.e_what);
      visitor = pool_visitor p;
    },
    s,
    r,
    false,
  )
  from_pool f s r (some c, p) = give_back f p (run c s r)

  visited : Factory → Option (ErrorWhat × S × R × Bool) → Option (Factory × S × R × Bool)
  visited f none = none
  visited f (some (e, s, r, ok)) = some (keep_error f e ok, s, r, ok)

  query_with : Factory → S → R → Visitor → Option (Factory × S × R × Bool)
  unfolding from_pool visited
  query_with f s r no_visitor = some (
    record f { e_what = err_message "db factory isn't create install!" (err_no 0x26 f.e_what) },
    s,
    r,
    false,
  )
  query_with f s r (pool_visitor p) = from_pool f s r (get_connector p)
  query_with f s r mysql_visitor = visited f (visit s r)

  -- The three methods query_result: they differ in the call `run` of the connector and `visit` of the
  -- visitor; `R` is the result that the caller passes in. `none` is a fault of such a call.
  unfoldable pub query : Factory → S → R → Option (Factory × S × R × Bool)
  unfolding query_with
  query f s r = query_with f s r f.visitor

-- The three methods, over the server `execute`; `connected` is the outcome of mysql_real_connect when
-- the visitor opens a connection.
module _ {S : Type 0} (execute : S → String → S × Reply) (connected : Bool) where
  abbrev pub query_one : String → Factory → S → DbResult → Option (Factory × S × DbResult × Bool)
  query_one sql f s r =
      query (λ c s' r'. query_result execute c s' sql r')
        (λ s' r'. visit_result execute connected error_what s' sql r') f s r

  abbrev pub query_many :
      List String → Factory → S → List DbResult → Option (Factory × S × List DbResult × Bool)
  query_many sqls f s r =
      query (λ c s' r'. query_results execute c s' sqls r')
        (λ s' r'. visit_results execute connected error_what s' sqls r') f s r
