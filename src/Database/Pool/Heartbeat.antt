-- ===== src/Database/Pool/Heartbeat.antt =====
-- bingo/database/mysql/mysql_pool.cpp: what making the pool and a heartbeat do to the connectors.
use bingo_v.Prelude.{
  ℕ, zero, suc, ◌≡◌, refl, ◌∙◌, Bool, true, false, some, List, [], ◌∷◌, ◌++◌, map, arith, length,
  append-nil, append_assoc, not, if◌then◌else◌,
}
use bingo_v.ErrorWhat.{success}
use bingo_v.Database.Connector.{Connector, connector, connect}
use bingo_v.Database.Result.{negsuc}
use bingo_v.Database.Pool.{
  int_eq, to_int, Pool, make_loop, make_connector_pool, beat, beat_loop, check_heartbeat,
}

-- Neither bool is -1.
not-minus-one : (b : Bool) → int_eq (to_int b) (negsuc 0) ≡ false
not-minus-one true = refl
not-minus-one false = refl

module _ (connects : Connector → Bool) where
  -- The connectors of rounds i to i + n - 1, each with the outcome of its connect.
  abbrev pub connected : ℕ → ℕ → List Connector
  connected zero i = []
  connected (suc n) i = (connect (connects (connector i)) (connector i)).0 ∷ connected n (suc i)

  make_loop-eq :
      (n i : ℕ) (p : Pool)
      → make_loop connects n i p ≡ (record p { conns = p.conns ++ connected n i }, success)
  unfolding make_loop
  make_loop-eq zero i p = rw (append-nil p.conns)
  make_loop-eq (suc n) i p =
      let conn = (connect (connects (connector i)) (connector i)).0 in
      rw (not-minus-one (connect (connects (connector i)) (connector i)).1) (
        make_loop-eq n (suc i) (record p { conns = p.conns ++ (conn ∷ []) })
        ∙ rw (append_assoc p.conns (conn ∷ []) (connected n (suc i))))

  -- make_connector_pool returns 0 and puts n connectors into the pool whatever mysql_real_connect
  -- says: connectors that could not connect are among them, and no error is reported.
  pub make_connector_pool_never_fails :
      (n : ℕ) (p : Pool)
      → make_connector_pool connects n p
        ≡ (record p { conns = p.conns ++ connected n 0; heartjump = true }, success)
  unfolding make_connector_pool
  make_connector_pool_never_fails n p = rw (make_loop-eq n 0 p)

module _ (connects heartbeat_fails : Connector → Bool) where
  beat_loop-eq :
      (done todo : List Connector)
      → beat_loop connects heartbeat_fails (length todo) (todo ++ done)
        ≡ some (done ++ map (beat connects heartbeat_fails) todo)
  unfolding beat_loop
  beat_loop-eq done [] = rw (append-nil done)
  beat_loop-eq done (c ∷ todo) =
      let c' = beat connects heartbeat_fails c in
      rw (append_assoc todo done (c' ∷ [])) (
        beat_loop-eq (done ++ (c' ∷ [])) todo
        ∙ rw (append_assoc done (c' ∷ []) (map (beat connects heartbeat_fails) todo)))

  -- check_heartbeat never takes from an empty queue; it treats every connector once and leaves the
  -- queue in its order: a connector that is not connected is connected again, and one whose
  -- heartbeat statement fails is marked as not connected.
  pub check_heartbeat-map :
      (p : Pool)
      → check_heartbeat connects heartbeat_fails p
        ≡ some (record p { conns = map (beat connects heartbeat_fails) p.conns })
  unfolding check_heartbeat
  check_heartbeat-map p =
      let whole : beat_loop connects heartbeat_fails (length p.conns) p.conns
          ≡ some (map (beat connects heartbeat_fails) p.conns) =
        rw (append-nil p.conns) at (beat_loop-eq [] p.conns) in
      rw (whole, check_heartbeat)

  -- A connector counts as connected after a heartbeat exactly if it did before and its statement
  -- passes, or it did not and its new connect succeeds.
  pub beat-usable :
      (c : Connector)
      → (beat connects heartbeat_fails c).is_connect_success
        ≡ (if c.is_connect_success then not (heartbeat_fails c) else connects c)
  unfolding beat connect
  beat-usable c = ground arith
