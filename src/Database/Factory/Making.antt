-- ===== src/Database/Factory/Making.antt =====
-- bingo/database/db_factory.cpp: what the make methods leave.
use mathlib.Core.Path.{subst}
use bingo_v.Prelude.{
  ℕ, ◌≡◌, refl, ◌⊎◌, inl, inr, Bool, true, false, Option, none, some, List, ◌∷◌, ◌++◌, All,
  Pairwise, arith,
}
use bingo_v.ErrorWhat.{ErrorWhat}
use bingo_v.Bytes.{Bytes, c_str, same}
use bingo_v.Configuration.{Node, Found, found, child, collection}
use bingo_v.Configuration.Checks.{ok, check_all}
use bingo_v.Database.Connector.{Connector}
use bingo_v.Database.Config.{CfgValue, get, Cfg, check_conn}
use bingo_v.Database.Config.Values.{
  IsCfgRead, read_xml-IsCfgRead, IsConn, check_conn-Pairwise, get_lem, get-none,
}
use bingo_v.Database.Pool.{mysql_pool, make_connector_pool}
use bingo_v.Database.Pool.Heartbeat.{connected, make_connector_pool_never_fails}
use bingo_v.Database.Factory.{
  Visitor, no_visitor, pool_visitor, mysql_visitor, DbConnector, Factory, db_factory, conn_info_of,
  use_value, use_cfg, make_mysql_visitor, make_mysql_pool,
}

-- A connection with the data of a value.
abbrev pub connection_of : CfgValue → DbConnector
connection_of v = record {
  ip = c_str v.ip;
  user = c_str v.user;
  pwd = c_str v.pwd;
  dbname = c_str v.dbname;
  port = v.port;
}

module _ (to_port : Bytes → Option ℕ) (conn_set : Found) (key : Bytes) where
  -- The values are those of the connectors of the file, and `v` is the first with the key.
  abbrev pub IsFirst : List CfgValue → CfgValue → Type 0
  IsFirst vs v =
      ((set : Node) × (conn_set ≡ found set)
        × Pairwise (IsConn to_port) (collection (child set)) vs)
      × (v.key ≡ c_str key)
      × ((before after : List CfgValue) × (vs ≡ before ++ (v ∷ after))
          × All (λ w. same w.key (c_str key) ≡ false) before)

  -- What a make method leaves: the data of the first value with the key, and a visitor; or an error.
  abbrev pub IsMade : (DbConnector → Visitor) → Factory → Bool → Type 0
  IsMade made f ret =
      ((ret ≡ true)
        × ((v : CfgValue) × IsFirst f.cfg_.value v
            × (f.conn_info ≡ connection_of v)
            × (f.visitor ≡ made (connection_of v))))
      ⊎ ((ret ≡ false)
          × (f.visitor ≡ no_visitor)
          × (((f.cfg_.is_valid ≡ false) × (f.e_what.number ≡ 0x23))
              ⊎ ((f.cfg_.is_valid ≡ true)
                  × All (λ w. same w.key (c_str key) ≡ false) f.cfg_.value
                  × (f.e_what.number ≡ 0x24))))

  use_value-IsMade :
      (made : DbConnector → Visitor) (c : Cfg) (set : Node) (o : Option CfgValue) (f : Factory)
      (ret : Bool)
      → conn_set ≡ found set
      → check_all (check_conn to_port) (collection (child set)) ≡ ok c.value
      → c.is_valid ≡ true
      → get c.value key ≡ o
      → use_value (λ g. record g { visitor = made g.conn_info }) (record db_factory { cfg_ = c }) o
        ≡ (f, ret)
      → IsMade made f ret
  unfolding use_value db_factory conn_info_of
  use_value-IsMade made c set none f ret n all valid g h =
      let same_cfg : f.cfg_ ≡ c = ground (arith, h) in
      inr (
        ground (arith, h),
        ground (arith, h),
        inr (rw same_cfg valid, rw same_cfg (get-none c.value key g), ground (arith, h)),
      )
  use_value-IsMade made c set (some v) f ret n all valid g h =
      let (is_key, parts) = get_lem c.value key v g in
      let same_cfg : f.cfg_ ≡ c = ground (arith, h) in
      inl (
        ground (arith, h),
        (
          v,
          rw same_cfg (
            (set, n, check_conn-Pairwise to_port (collection (child set)) c.value all),
            is_key,
            parts,
          ),
          ground (arith, h),
          ground (arith, h),
        ),
      )

  use_cfg-IsMade :
      (made : DbConnector → Visitor) (r : Option (Cfg × Bool)) (f : Factory) (ret : Bool)
      → ((c : Cfg) (b : Bool) → r ≡ some (c, b) → IsCfgRead to_port conn_set c b)
      → use_cfg (λ g. record g { visitor = made g.conn_info }) key db_factory r ≡ some (f, ret)
      → IsMade made f ret
  unfolding use_cfg db_factory
  use_cfg-IsMade made none f ret reads h = absurd (ground (arith, h))
  use_cfg-IsMade made (some (c, false)) f ret reads h = elim (reads c false refl) [
    | inl t ↦ absurd (ground (arith, t.0))
    | inr (e, invalid, number) ↦
        inr (ground (arith, h), ground (arith, h), inl (ground (arith, h), ground (arith, h)))
  ]
  use_cfg-IsMade made (some (c, true)) f ret reads h = elim (reads c true refl) [
    | inl (e, valid, (set, n, all)) ↦
        use_value-IsMade made c set _ f ret n all valid refl (ground (arith, h))
    | inr t ↦ absurd (ground (arith, t.0))
  ]

  -- make_mysql_visitor of a new factory returns true only with a visitor, and with the data of the first
  -- value with the key among those of the file, which all pass their check; when it returns false, there
  -- is no visitor, and the number of the error is 0x23 if the configuration is not valid, and 0x24 if it
  -- is valid and has no value with the key.
  pub make_mysql_visitor-IsMade :
      (read : Bool) (e : ErrorWhat) (f : Factory) (ret : Bool)
      → make_mysql_visitor to_port read e conn_set key db_factory ≡ some (f, ret)
      → IsMade (λ i. mysql_visitor) f ret
  unfolding make_mysql_visitor db_factory
  make_mysql_visitor-IsMade read e f ret h =
      use_cfg-IsMade (λ i. mysql_visitor) _ f ret
        (λ c b. read_xml-IsCfgRead to_port read e conn_set c b) h

  -- make_mysql_pool of a new factory returns true only with a pool of num connectors, each of which tried
  -- once to connect with the data of the first value with the key among those of the file, which all pass
  -- their check; when it returns false, there is no pool, and the number of the error is 0x23 if the
  -- configuration is not valid, and 0x24 if it is valid and has no value with the key.
  pub make_mysql_pool-IsMade :
      (connects : DbConnector → Connector → Bool) (num : ℕ) (read : Bool) (e : ErrorWhat)
      (f : Factory) (ret : Bool)
      → make_mysql_pool to_port read e conn_set connects num key db_factory ≡ some (f, ret)
      → IsMade
          (λ i.
            pool_visitor
              (record mysql_pool { conns = connected (connects i) num 0; heartjump = true }))
          f
          ret
  unfolding make_mysql_pool db_factory mysql_pool
  make_mysql_pool-IsMade connects num read e f ret h =
      subst (λ made. IsMade made f ret)
        (λ j i. pool_visitor (make_connector_pool_never_fails (connects i) num mysql_pool j).0)
        (use_cfg-IsMade (λ i. pool_visitor (make_connector_pool (connects i) num mysql_pool).0) _ f
          ret (λ c b. read_xml-IsCfgRead to_port read e conn_set c b) h)
