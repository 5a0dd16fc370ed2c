-- ===== src/Database/Connector.antt =====
-- bingo/database/mysql/mysql_connector.cpp: one connection to a MySQL server. The MySQL client
-- library and the server are parameters: a server state, what a statement does to it and what
-- mysql_error and mysql_store_result then give, and whether mysql_real_connect succeeds.
pub mod Transaction
pub mod Fetch
use Prim.Native.String
use Prim.Native.String.{String}
use bingo_v.Prelude.{
  ℕ, zero, suc, Bool, true, false, Option, none, some, List, [], ◌∷◌, ◌++◌, get_elem?,
  if◌then◌else◌,
}
use bingo_v.ErrorWhat.{ErrorWhat, error_what, err_no, err_message, error_with}
use bingo_v.Database.Result.{
  ℤ, pos, negsuc, int_of, DbField, db_field, DbRow, DbResult, db_result, add_header, add_row,
  add_field,
}

-- The class mysql_connector: whether mysql_conn_ is not null, is_connect_success and e_what_.
pub record Connector : Type 0 where
  pub id : ℕ
  pub has_handle : Bool
  pub is_connect_success : Bool
  pub e_what : ErrorWhat

unfoldable pub connector : ℕ → Connector
connector n = record { id = n; has_handle = false; is_connect_success = false; e_what = error_what }

-- connect(), given the outcome of mysql_real_connect.
unfoldable pub connect : Bool → Connector → Connector × Bool
connect true c = (record c { has_handle = true; is_connect_success = true }, true)
connect false c = (
  record c {
    has_handle = false;
    e_what = err_message "database connect fail" (err_no 0x20 c.e_what);
  },
  false,
)

-- MYSQL_RES: the counts, the names of the columns, and for each row the values, with the bytes that can
-- be read from each, and their lengths.
pub record ResultSet : Type 0 where
  pub num_rows : ℕ
  pub num_fields : ℕ
  pub columns : List String
  pub values : List (List (Option (List ℕ) × ℕ))

-- What mysql_error and mysql_store_result give after mysql_query.
pub record Reply : Type 0 where
  pub error_text : String
  pub stored : Option ResultSet

-- (*er) != 0x00, and sqls[i] != ""
abbrev pub is_nonempty : String → Bool
is_nonempty String.[] = false
is_nonempty (String.◌∷◌ c s) = true

-- for(int i = 0; i < column_amount; i++) result->add_header(columns[i].name); `n` rounds are left.
-- `none` is a read past the end of the array.
unfoldable pub add_headers : ℕ → ℕ → List String → DbResult → Option DbResult
add_headers zero i columns r = some r
add_headers (suc n) i columns r = elim (get_elem? columns i) [
  | none ↦ none
  | some name ↦ add_headers n (suc i) columns (add_header r name)
]

-- for(int i = 0; i < column_amount; i++) d_row->add_field(new db_field(row[i], FieldLength[i]));
unfoldable pub add_fields : ℕ → ℕ → List (Option (List ℕ) × ℕ) → DbRow → Option DbRow
add_fields zero i row d = some d
add_fields (suc n) i row d = elim (get_elem? row i) [
  | none ↦ none
  | some (value, size) ↦ elim (db_field value size) [
    | none ↦ none
    | some f ↦ add_fields n (suc i) row (add_field d f)
  ]
]

-- while((row = mysql_fetch_row(res)) != NULL)
unfoldable pub add_rows : ℕ → List (List (Option (List ℕ) × ℕ)) → DbResult → Option DbResult
unfolding add_fields
add_rows n [] r = some r
add_rows n (row ∷ rows) r = elim (add_fields n 0 row (record { fields = [] })) [
  | none ↦ none
  | some d ↦ add_rows n rows (add_row r d)
]

-- The rounds of a loop from 0 below an int.
abbrev pub rounds : ℤ → ℕ
rounds (pos n) = n
rounds (negsuc n) = 0

-- The counts, which are ints, the headers and the rows of a stored result.
unfoldable pub fetch : ResultSet → DbResult → Option DbResult
unfolding add_headers add_rows
fetch res r =
    let columns = rounds (int_of res.num_fields) in
    elim (add_headers columns 0 res.columns
      (record r { row_amount = int_of res.num_rows; column_amount = int_of res.num_fields })) [
        | none ↦ none
        | some r' ↦ add_rows columns res.values r'
      ]

unfoldable pub query_failed : String → Connector → Connector
query_failed er c = record c {
  e_what = err_message (String.◌++◌ "database query fail! error info:" er) (err_no 0x21 c.e_what);
}

module _ {S : Type 0} (execute : S → String → S × Reply) where
  stored_result :
      Connector → S → Option ResultSet → DbResult → Option (Connector × S × DbResult × Bool)
  stored_result c s none r = none
  stored_result c s (some res) r = elim (fetch res r) [
    | none ↦ none
    | some r' ↦ some (c, s, r', true)
  ]

  -- query_result(sql, result); `none` is a fault: a call with the null MYSQL pointer, or
  -- mysql_num_rows of the null pointer that mysql_store_result returns when there is no result set.
  unfoldable pub query_result :
      Connector → S → String → DbResult → Option (Connector × S × DbResult × Bool)
  unfolding query_failed stored_result
  query_result c s sql r =
      let (s', reply) = execute s sql in
      if c.has_handle
      then if is_nonempty reply.error_text
        then some (query_failed reply.error_text c, s', r, false)
        else stored_result c s' reply.stored r
      else none

  -- The loop of query_result(sqls): empty statements are skipped, an error rolls back.
  unfoldable pub run_all : Connector → S → List String → Connector × S × Bool
  unfolding query_failed
  run_all c s [] = (c, (execute s "commit;").0, true)
  run_all c s (sql ∷ sqls) =
      let skip = run_all c s sqls in
      let (s', reply) = execute s sql in
      let next = run_all c s' sqls in
      if is_nonempty sql
      then if is_nonempty reply.error_text
        then (query_failed reply.error_text c, (execute s' "rollback;").0, false)
        else next
      else skip

  -- query_result(sqls); `none` is a call with the null MYSQL pointer.
  unfoldable pub query_transaction : Connector → S → List String → Option (Connector × S × Bool)
  unfolding run_all
  query_transaction c s sqls =
      if c.has_handle then some (run_all c (execute s "start transaction;").0 sqls) else none
