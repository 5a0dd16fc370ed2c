-- ===== src/Database/Pool.antt =====
-- bingo/database/mysql/mysql_pool.cpp: the queue of connectors. The outcome of
-- mysql_real_connect and of the heartbeat statement are parameters.
pub mod Heartbeat
use bingo_v.Prelude.{
  ℕ, zero, suc, ◌+◌, ◌-◌, Bool, true, false, not, Option, none, some, List, [], ◌∷◌, ◌++◌, length,
  if◌then◌else◌, ◌==◌,
}
use bingo_v.ErrorWhat.{ErrorWhat, Status, success, failure, error_what, clone}
use bingo_v.Database.Result.{ℤ, pos, negsuc}
use bingo_v.Database.Connector.{Connector, connector, connect}

-- The class mysql_pool: conns_, e_what_, and whether the timer heartjump_ is made.
pub record Pool : Type 0 where
  pub conns : List Connector
  pub e_what : ErrorWhat
  pub heartjump : Bool

unfoldable pub mysql_pool : Pool
mysql_pool = record { conns = []; e_what = error_what; heartjump = false }

-- A bool in a comparison with an int.
abbrev pub to_int : Bool → ℤ
to_int true = pos 1
to_int false = pos 0

abbrev pub int_eq : ℤ → ℤ → Bool
int_eq (pos a) (pos b) = a == b
int_eq (negsuc a) (negsuc b) = a == b
int_eq _ _ = false

module _ (connects : Connector → Bool) where
  -- The loop of make_connector_pool from round i on, with `n` rounds left: `conn->connect() == -1`
  -- compares the bool that connect returns with -1.
  unfoldable pub make_loop : ℕ → ℕ → Pool → Pool × Status
  make_loop zero i p = (p, success)
  make_loop (suc n) i p =
      let (conn, connected) = connect (connects (connector i)) (connector i) in
      let next = make_loop n (suc i) (record p { conns = p.conns ++ (conn ∷ []) }) in
      if int_eq (to_int connected) (negsuc 0)
      then (record p { e_what = clone conn.e_what p.e_what }, failure)
      else next

  made : Pool × Status → Pool × Status
  made (p, failure) = (p, failure)
  made (p, success) = (record p { heartjump = true }, success)

  -- make_connector_pool(n, conn_info), up to ios_.run().
  unfoldable pub make_connector_pool : ℕ → Pool → Pool × Status
  unfolding make_loop made
  make_connector_pool n p = made (make_loop n 0 p)

-- get_connector(): the null pointer when the queue is empty.
unfoldable pub get_connector : Pool → Option Connector × Pool
get_connector p = elim p.conns [
  | [] ↦ (none, p)
  | conn ∷ rest ↦ (some conn, record p { conns = rest })
]

unfoldable pub free_connector : Pool → Connector → Pool
free_connector p conn = record p { conns = p.conns ++ (conn ∷ []) }

unfoldable pub size : Pool → ℕ
size p = length p.conns

module _ (connects : Connector → Bool) (heartbeat_fails : Connector → Bool) where
  -- The body of the loop of check_heartbeat for one connector.
  unfoldable pub beat : Connector → Connector
  beat conn =
      if conn.is_connect_success
      then (if heartbeat_fails conn then record conn { is_connect_success = false } else conn)
      else (connect (connects conn) conn).0

  -- The loop, with `n` rounds left; `none` is front() of an empty queue.
  unfoldable pub beat_loop : ℕ → List Connector → Option (List Connector)
  beat_loop zero conns = some conns
  beat_loop (suc n) [] = none
  beat_loop (suc n) (conn ∷ rest) = beat_loop n (rest ++ (beat conn ∷ []))

  unfoldable pub check_heartbeat : Pool → Option Pool
  unfolding beat_loop
  check_heartbeat p = elim (beat_loop (length p.conns) p.conns) [
    | none ↦ none
    | some conns ↦ some (record p { conns = conns })
  ]
