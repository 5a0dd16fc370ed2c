-- ===== src/Database/Config/Values.antt =====
-- bingo/database/config/cfg.cpp: which values a file gives, and how they are found.
use bingo_v.Prelude.{
  ℕ, ◌≡◌, refl, ◌∙◌, ◌⊎◌, inl, inr, Bool, true, false, Option, none, some, List, [], ◌∷◌, ◌++◌,
  append-nil, append_assoc, All, Pairwise, arith, Bool-cases, sym,
}
use bingo_v.ErrorWhat.{ErrorWhat}
use bingo_v.Bytes.{Bytes, c_str, same, same-eq}
use bingo_v.Configuration.{Node, Found, missing, found, child, collection}
use bingo_v.Configuration.Checks.{
  Checked, ok, bad, thrown, attr, check_all, HasAttr, IfOk, attr-HasAttr, bind-IfOk_from, cast-IfOk,
  check_all-Pairwise,
}
use bingo_v.Database.Config.{
  CfgValue, push_back, get, Cfg, cfg, check_conn, check_conns, check_node, verdict, read_xml,
}

-- get(key) gives a value with that key that stands behind values with other keys only.
pub get_lem :
    (vs : List CfgValue) (k : Bytes) (v : CfgValue)
    → get vs k ≡ some v
    → (v.key ≡ c_str k)
      × ((before after : List CfgValue) × (vs ≡ before ++ (v ∷ after))
          × All (λ w. same w.key (c_str k) ≡ false) before)
unfolding get
get_lem [] k v h = absurd (ground (arith, h))
get_lem (w ∷ vs) k v h = elim (Bool-cases (same w.key (c_str k))) [
  | inl eq ↦
      let it : w ≡ v = ground (arith, h, eq) in
      (ground (arith, it, same-eq w.key (c_str k) eq), ([], vs, ground (arith, it), tt))
  | inr ne ↦
      let (is_key, (before, after, split, others)) = get_lem vs k v (ground (arith, h, ne)) in
      (is_key, (w ∷ before, after, ground (arith, split), (ne, others)))
]

-- Without such a value get gives 0.
pub get-none :
    (vs : List CfgValue) (k : Bytes) → get vs k ≡ none → All (λ w. same w.key (c_str k) ≡ false) vs
unfolding get
get-none [] k h = tt
get-none (w ∷ vs) k h = (ground (arith, h), get-none vs k (ground (arith, h)))

-- A value is that of a connector node: each text is that of the attribute with its name, and the port is
-- what lexical_cast reads.
pub record IsConn (to_port : Bytes → Option ℕ) (conn : Node) (v : CfgValue) : Type 0 where
  pub s_port : Bytes
  pub key_attr : HasAttr conn "key" v.key
  pub ip_attr : HasAttr conn "ip" v.ip
  pub dbname_attr : HasAttr conn "dbname" v.dbname
  pub user_attr : HasAttr conn "user" v.user
  pub pwd_attr : HasAttr conn "pwd" v.pwd
  pub port_attr : HasAttr conn "port" s_port
  pub port_cast : to_port s_port ≡ some v.port

check_conn-IsConn :
    (to_port : Bytes → Option ℕ) (conn : Node)
    → IfOk (IsConn to_port conn) (check_conn to_port conn)
unfolding check_conn
check_conn-IsConn to_port conn =
    bind-IfOk_from (IsConn to_port conn) (attr conn "key" _) _ λ key g1.
      bind-IfOk_from (IsConn to_port conn) (attr conn "ip" _) _ λ ip g2.
        bind-IfOk_from (IsConn to_port conn) (attr conn "dbname" _) _ λ dbname g3.
          bind-IfOk_from (IsConn to_port conn) (attr conn "user" _) _ λ user g4.
            bind-IfOk_from (IsConn to_port conn) (attr conn "pwd" _) _ λ pwd g5.
              bind-IfOk_from (IsConn to_port conn) (attr conn "port" _) _ λ s_port g6.
                cast-IfOk (IsConn to_port conn) (to_port s_port) _ λ port g7. record {
                  s_port = s_port;
                  key_attr = attr-HasAttr conn "key" _ key g1;
                  ip_attr = attr-HasAttr conn "ip" _ ip g2;
                  dbname_attr = attr-HasAttr conn "dbname" _ dbname g3;
                  user_attr = attr-HasAttr conn "user" _ user g4;
                  pwd_attr = attr-HasAttr conn "pwd" _ pwd g5;
                  port_attr = attr-HasAttr conn "port" _ s_port g6;
                  port_cast = g7;
                }

pub check_conn-Pairwise :
    (to_port : Bytes → Option ℕ) (conns : List Node) (vs : List CfgValue)
    → check_all (check_conn to_port) conns ≡ ok vs
    → Pairwise (IsConn to_port) conns vs
check_conn-Pairwise to_port conns vs h =
    check_all-Pairwise (check_conn to_port) (IsConn to_port) conns vs (check_conn-IsConn to_port) h

module _ (to_port : Bytes → Option ℕ) where
  check_conns_lem :
      (conns : List Node) (c c' : Cfg)
      → check_conns to_port conns c ≡ some (c', true)
      → (vs : List CfgValue) × (check_all (check_conn to_port) conns ≡ ok vs)
        × (c'.value ≡ c.value ++ vs)
  unfolding check_conns push_back
  check_conns_lem [] c c' h =
      let same_c : c ≡ c' = ground (arith, h) in
      ([], refl, rw (sym same_c) (sym (append-nil c.value)))
  check_conns_lem (conn ∷ conns) c c' h =
      by (check_conn to_port conn) refl (λ c1. check_conns_lem conns c1 c')
    where
      by :
          (r : Checked CfgValue)
          → check_conn to_port conn ≡ r
          → ((c1 : Cfg)
              → check_conns to_port conns c1 ≡ some (c', true)
              → (vs : List CfgValue) × (check_all (check_conn to_port) conns ≡ ok vs)
                × (c'.value ≡ c1.value ++ vs))
          → (vs : List CfgValue) × (check_all (check_conn to_port) (conn ∷ conns) ≡ ok vs)
            × (c'.value ≡ c.value ++ vs)
      by (ok v) f ih =
          let (vs, all, values) = ih (record c { value = c.value ++ (v ∷ []) }) (ground arith) in
          (v ∷ vs, rw (f, all) refl, values ∙ append_assoc c.value (v ∷ []) vs)
      by (bad s) f ih = absurd (ground arith)
      by thrown f ih = absurd (ground arith)

  -- What read_xml of a new cfg leaves.
  abbrev pub IsCfgRead : Found → Cfg → Bool → Type 0
  IsCfgRead conn_set c ret =
      ((ret ≡ true)
        × (c.is_valid ≡ true)
        × ((set : Node) × (conn_set ≡ found set)
            × (check_all (check_conn to_port) (collection (child set)) ≡ ok c.value)))
      ⊎ ((ret ≡ false) × (c.is_valid ≡ false) × (c.err.number ≡ 0x23))

  verdict-Read :
      (set : Node) (r : Option (Cfg × Bool)) (c : Cfg) (ret : Bool)
      → check_conns to_port (collection (child set)) cfg ≡ r
      → verdict to_port r ≡ some (c, ret)
      → IsCfgRead (found set) c ret
  unfolding verdict cfg
  verdict-Read set none c ret f e = absurd (ground (arith, e))
  verdict-Read set (some (d, false)) c ret f e =
      inr (ground (arith, e), ground (arith, e), ground (arith, e))
  verdict-Read set (some (d, true)) c ret f e =
      let (vs, all, values) = check_conns_lem (collection (child set)) cfg d f in
      let same_value : c.value ≡ d.value = ground (arith, e) in
      inl (ground (arith, e), ground (arith, e), (set, refl, rw (same_value, values) all))

  check_node-Read :
      (conn_set : Found) (c : Cfg) (ret : Bool)
      → verdict to_port (check_node to_port cfg conn_set) ≡ some (c, ret)
      → IsCfgRead conn_set c ret
  unfolding verdict check_node
  check_node-Read (missing m) c ret h =
      inr (ground (arith, h), ground (arith, h), ground (arith, h))
  check_node-Read (found set) c ret h = verdict-Read set _ c ret refl h

  -- read_xml of a new cfg returns true only with a valid configuration that has, in order, the values of
  -- the connectors of the file, which all pass their check; when it returns false, the configuration is
  -- not valid and the number of the error is 0x23, also when the file was not read.
  pub read_xml-IsCfgRead :
      (read : Bool) (e : ErrorWhat) (conn_set : Found) (c : Cfg) (ret : Bool)
      → read_xml to_port cfg read e conn_set ≡ some (c, ret)
      → IsCfgRead conn_set c ret
  unfolding read_xml
  read_xml-IsCfgRead true e conn_set c ret h = check_node-Read conn_set c ret h
  read_xml-IsCfgRead false e conn_set c ret h = check_node-Read conn_set c ret h
