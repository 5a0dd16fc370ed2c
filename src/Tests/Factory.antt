-- ===== src/Tests/Factory.antt =====
-- bingo/database with a file of two connectors.
use Prim.Native.String.{String}
use bingo_v.Prelude.{ℕ, ◌≡◌, refl, Bool, true, Option, none, some, [], ◌∷◌}
use bingo_v.ErrorWhat.{error_what}
use bingo_v.Bytes.{Bytes, codes, c_str, same}
use bingo_v.Configuration.{Node, node, NodeAttr, no_node, and_node, found, collection, child}
use bingo_v.Configuration.Checks.{attr}
use bingo_v.Database.Connector.{Connector}
use bingo_v.Database.Config.{cfg, get, check_conns, check_conn, read_xml}
use bingo_v.Database.Pool.{mysql_pool, make_connector_pool}
use bingo_v.Database.Pool.Heartbeat.{connected}
use bingo_v.Database.Factory.{
  pool_visitor, DbConnector, Factory, db_factory, db_connector, conn_info_of, make_mysql_pool,
}
use bingo_v.Database.Factory.Making.{IsMade, make_mysql_pool-IsMade}

abbrev attribute : String → String → NodeAttr
attribute n v = record { name = codes n; value = codes v }

abbrev conn : String → String → Node
conn key ip =
    node (codes "connector") []
      (attribute "key" key
        ∷ attribute "ip" ip
        ∷ attribute "dbname" "shop"
        ∷ attribute "user" "root"
        ∷ attribute "pwd" "secret"
        ∷ attribute "port" "3306"
        ∷ [])
      no_node

abbrev conn_set : Node
conn_set =
    node (codes "database_connector") [] []
      (and_node (conn "first" "10.0.0.1") (and_node (conn "second" "10.0.0.2") no_node))

abbrev to_port : Bytes → Option ℕ
to_port s = some 3306

abbrev connects : DbConnector → Connector → Bool
connects i c = true

abbrev factory_of : Option (Factory × Bool) → Factory
factory_of none = db_factory
factory_of (some (f, ret)) = f

abbrev factory : Factory
factory = factory_of (
    make_mysql_pool to_port true error_what (found conn_set) connects 2 (codes "second") db_factory)

pool_made :
    make_mysql_pool to_port true error_what (found conn_set) connects 2 (codes "second") db_factory
    ≡ some (factory, true)
unfolding make_mysql_pool db_factory db_connector read_xml cfg get conn_info_of collection child
    attr same mysql_pool make_connector_pool check_conns check_conn c_str
pool_made = refl

make_mysql_pool-IsMade_example :
    IsMade to_port
      (found conn_set)
      (codes "second")
      (λ i.
        pool_visitor (record mysql_pool { conns = connected (connects i) 2 0; heartjump = true }))
      factory
      true
make_mysql_pool-IsMade_example =
    make_mysql_pool-IsMade to_port (found conn_set) (codes "second") connects 2 true error_what
      factory true pool_made
