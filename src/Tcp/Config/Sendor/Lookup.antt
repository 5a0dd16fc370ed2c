-- ===== src/Tcp/Config/Sendor/Lookup.antt =====
-- bingo/TCP/config/sendor_cfg.cpp: which values a file gives, and how they are found.
use Prim.Native.String.{String}
use bingo_v.Prelude.{
  ℕ, ◌≡◌, refl, sym, ◌∙◌, ◌⊎◌, inl, inr, Bool, true, false, Option, none, some, List, [], ◌∷◌,
  arith,
}
use bingo_v.ErrorWhat.{ErrorWhat}
use bingo_v.Bytes.{Bytes}
use bingo_v.PtrMap.{PtrMap, insert, find}
use bingo_v.PtrMap.Keys.{IsSorted, or_else, or_else-none, insert-IsSorted, find-insert}
use bingo_v.Configuration.{Node, Found, missing, found, child, collection}
use bingo_v.Configuration.Checks.{Checked, ok, bad, thrown, check_all}
use bingo_v.Tcp.Config.Sendor.{
  TcpSendorCfgValue, SendorCfg, sendor_cfg, check_item, check_items, checked, check_node, verdict,
  read_xml, get_cfg,
}

-- The number of the error of a file that cannot be read, and of one that fails its check.
abbrev pub number_of : {A : Type 0} → Option A → ℕ
number_of none = 0x12
number_of (some a) = 0x13

module _ (to_port : Bytes → Option ℕ) where
  -- The values that are there: in order, and for each key the one of `m`, else the first of the items.
  abbrev AreFirst : List Node → PtrMap TcpSendorCfgValue → PtrMap TcpSendorCfgValue → Type 0
  AreFirst items m m' =
      IsSorted m'
      × ((kvs : PtrMap TcpSendorCfgValue) × (check_all (check_item to_port) items ≡ ok kvs)
          × ((k : Bytes) → find k m' ≡ or_else (find k m) (find k kvs)))

  check_items-AreFirst :
      (items : List Node) (m m' : PtrMap TcpSendorCfgValue)
      → IsSorted m
      → check_items to_port items m ≡ some (m', none)
      → AreFirst items m m'
  unfolding check_items find
  check_items-AreFirst [] m m' s e =
      let same_m : m ≡ m' = ground (arith, e) in
      rw (sym same_m) (s, ([], refl, λ k. or_else-none (find k m)))
  check_items-AreFirst (item ∷ items) m m' s e =
      by (check_item to_port item) refl (λ m1. check_items-AreFirst items m1 m')
    where
      by :
          (r : Checked (Bytes × TcpSendorCfgValue))
          → check_item to_port item ≡ r
          → ((m1 : PtrMap TcpSendorCfgValue)
              → IsSorted m1
              → check_items to_port items m1 ≡ some (m', none)
              → AreFirst items m1 m')
          → AreFirst (item ∷ items) m m'
      by (ok (j, v)) f ih =
          let (s', (kvs, all, h)) = ih (insert j v m) (insert-IsSorted j v m s) (ground arith) in
          (s', ((j, v) ∷ kvs, rw (f, all) refl, λ k. h k ∙ find-insert j k v m kvs s))
      by (bad msg) f ih = absurd (ground arith)
      by thrown f ih = absurd (ground arith)

  -- What read_xml of a new sendor_cfg leaves.
  abbrev pub IsSendorRead : Option Found → SendorCfg → Bool → Type 0
  IsSendorRead file c ret =
      ((ret ≡ true)
        × (c.is_valid ≡ true)
        × IsSorted c.values
        × ((list : Node) × (kvs : PtrMap TcpSendorCfgValue) × (file ≡ some (found list))
            × (check_all (check_item to_port) (collection (child list)) ≡ ok kvs)
            × ((k : Bytes) → get_cfg c k ≡ find k kvs)))
      ⊎ ((ret ≡ false) × (c.is_valid ≡ false) × (c.err.number ≡ number_of file))

  checked-Read :
      (list : Node) (r : Option (PtrMap TcpSendorCfgValue × Option String)) (c : SendorCfg)
      (ret : Bool)
      → check_items to_port (collection (child list)) [] ≡ r
      → verdict to_port (checked to_port sendor_cfg r) ≡ some (c, ret)
      → IsSendorRead (some (found list)) c ret
  unfolding verdict checked sendor_cfg get_cfg find
  checked-Read list none c ret f e = absurd (ground (arith, e))
  checked-Read list (some (m, some s)) c ret f e =
      inr (ground (arith, e), ground (arith, e), ground (arith, e))
  checked-Read list (some (m, none)) c ret f e =
      let (s, (kvs, all, h)) = check_items-AreFirst (collection (child list)) [] m tt f in
      let values : c.values ≡ m = ground (arith, e) in
      inl (
        ground (arith, e),
        ground (arith, e),
        rw values s,
        (list, kvs, refl, all, λ k. rw values (h k)),
      )

  -- read_xml of a new sendor_cfg returns true only with a valid configuration whose keys stand in order,
  -- when every item of the list passes its check, and get_cfg then gives for each key the value of the
  -- first item with that key; when it returns false, the configuration is not valid and the number of
  -- the error is 0x12 if the file was not read, else 0x13.
  pub read_xml-IsSendorRead :
      (file : Option Found) (e : ErrorWhat) (c : SendorCfg) (ret : Bool)
      → read_xml to_port sendor_cfg file e ≡ some (c, ret)
      → IsSendorRead file c ret
  unfolding read_xml check_node sendor_cfg verdict
  read_xml-IsSendorRead none e c ret h =
      inr (ground (arith, h), ground (arith, h), ground (arith, h))
  read_xml-IsSendorRead (some (missing m)) e c ret h =
      inr (ground (arith, h), ground (arith, h), ground (arith, h))
  read_xml-IsSendorRead (some (found list)) e c ret h = checked-Read list _ c ret refl h
