-- ===== src/Tests/Database.antt =====
-- bingo/database over a small server: a table of statements, a transaction, and a statement that fails.
use Prim.Native.String.{String}
use text.Mathlib.Text.{◌==◌ as str_eq}
use bingo_v.Prelude.{
  ◌≡◌, ◌⊎◌, refl, Bool, true, false, Option, none, some, List, [], ◌∷◌, ◌++◌, map, length,
  get_elem?, if◌then◌else◌, arith,
}
use bingo_v.ErrorWhat.{ErrorWhat, error_what}
use bingo_v.Database.Result.{pos, int_of, DbField, DbRow, DbResult, db_result, get_field_by_name}
use bingo_v.Database.Result.Lookup.{Differs, get_field_by_name_lem}
use bingo_v.Database.Connector.{Connector, ResultSet, Reply, fetch, query_transaction}
use bingo_v.Database.Connector.Fetch.{IsShaped, copied_row, fetch_lem}
use bingo_v.Database.Batch.{run_batch, visit_transaction, query_results, visit_results}
use bingo_v.Database.Batch.Counting.{HasRun, replies, run_batch_lem, visitor-agrees}
use bingo_v.Database.Pool.{Pool, check_heartbeat, beat}
use bingo_v.Database.Pool.Heartbeat.{check_heartbeat-map}
use bingo_v.Database.Factory.{db_factory, pool_visitor, Factory}
use bingo_v.Database.Factory.Conserve.{query_all, serve, query_all-serve}

record Server : Type 0 where
  committed : List String
  working : List String

abbrev fine : Reply
fine = record { error_text = ""; stored = none }

abbrev refused : Reply
refused = record { error_text = "no such table"; stored = none }

abbrev execute : Server → String → Server × Reply
execute s sql =
    if str_eq sql "commit;"
    then (record { committed = s.working; working = s.working }, fine)
    else if str_eq sql "rollback;"
    then (record { committed = s.committed; working = s.committed }, fine)
    else if str_eq sql "start transaction;"
    then (s, fine)
    else if str_eq sql "bad"
    then (s, refused)
    else (record s { working = s.working ++ sql ∷ [] }, fine)

abbrev visible : Server → List String
visible s = s.committed

abbrev pending : Server → List String
pending s = s.working

abbrev Within : Server → Server → Type 0
Within s t = t.committed ≡ s.committed

abbrev server : Server
server = record { committed = "old" ∷ []; working = "old" ∷ [] }

abbrev statements_run : List String
statements_run = "insert" ∷ "" ∷ "bad" ∷ []

abbrev open_connector : Connector
open_connector = record {
  id = 1;
  has_handle = true;
  is_connect_success = true;
  e_what = error_what;
}

abbrev other_connector : Connector
other_connector = record {
  id = 2;
  has_handle = true;
  is_connect_success = false;
  e_what = error_what;
}

abbrev result_set : ResultSet
result_set = record {
  num_rows = 1;
  num_fields = 2;
  columns = "id" ∷ "name" ∷ [];
  values = ((some (49 ∷ 0 ∷ []), 1) ∷ (none, 0) ∷ []) ∷ [];
}

result_set-IsShaped : IsShaped result_set
result_set-IsShaped = record {
  few_fields = omega arith;
  columns_shaped = refl;
  rows_shaped = ((refl, ((omega arith, omega arith), (tt, tt))), tt);
}

abbrev no_result : DbResult
no_result = record { row_amount = pos 0; column_amount = pos 0; rows = []; headers = [] }

abbrev batch_outcome : Server × List DbResult × Option String
batch_outcome =
    (record server { working = "old" ∷ "insert" ∷ [] }, no_result ∷ [], some "no such table")

batch_run : run_batch execute server statements_run [] ≡ some batch_outcome
unfolding run_batch db_result
batch_run = refl

abbrev two_columns : DbResult
two_columns = record no_result { headers = "id" ∷ "name" ∷ [] }

abbrev two_fields : DbRow
two_fields = record {
  fields =
      record { bytes = 49 ∷ 0 ∷ []; data_size = 1 } ∷ record { bytes = 0 ∷ []; data_size = 0 } ∷ [];
}

abbrev lower : String → String
lower s = s

abbrev pool : Pool
pool = record {
  conns = open_connector ∷ other_connector ∷ [];
  e_what = error_what;
  heartjump = true;
}

abbrev pool_factory : Factory
pool_factory = record db_factory { visitor = pool_visitor pool }

abbrev run_insert :
    Connector → Server → List DbResult → Option (Connector × Server × List DbResult × Bool)
run_insert c s r = query_results execute c s ("insert" ∷ []) r

abbrev visit_insert : Server → List DbResult → Option (ErrorWhat × Server × List DbResult × Bool)
visit_insert s r = visit_results execute true error_what s ("insert" ∷ []) r

abbrev server_after : Server
server_after = record server { working = "old" ∷ "insert" ∷ [] }

abbrev results_before : List DbResult
results_before = []

abbrev results_after : List DbResult
results_after = no_result ∷ []

insert_run :
    run_insert open_connector server results_before
    ≡ some (open_connector, server_after, results_after, true)
unfolding query_results run_batch db_result
insert_run = refl

abbrev refuses : Connector → Bool
refuses c = false

fetch_lem_example :
    fetch result_set no_result
    ≡ some (record {
      row_amount = int_of result_set.num_rows;
      column_amount = pos result_set.num_fields;
      rows = no_result.rows ++ map copied_row result_set.values;
      headers = no_result.headers ++ result_set.columns;
    })
fetch_lem_example = fetch_lem result_set no_result result_set-IsShaped

run_batch_lem_example :
    HasRun execute server (replies execute server statements_run) results_before batch_outcome
run_batch_lem_example =
    run_batch_lem execute server statements_run results_before batch_outcome batch_run

visitor-agrees_example :
    ((r : Connector × Server × Bool) × (query_transaction execute open_connector server
          statements_run
        ≡ some r)
      × ((visit_transaction execute true error_what server statements_run).1 ≡ r.1)
      × ((visit_transaction execute true error_what server statements_run).2 ≡ r.2))
    × (((visit_transaction execute false error_what server statements_run).1 ≡ server)
        × ((visit_transaction execute false error_what server statements_run).2 ≡ false)
        × ((visit_transaction execute false error_what server statements_run).0.number ≡ 0x20))
visitor-agrees_example = visitor-agrees execute open_connector error_what server statements_run refl

-- One query, run by the first of the two connectors.
one_served :
    serve run_insert visit_insert (open_connector ∷ []) (results_before ∷ []) server
    ≡ some (open_connector ∷ [], server_after, (results_after, true) ∷ [])
one_served = ground (arith, insert_run)

query_all-serve_example :
    (f' : Factory) × (query_all run_insert visit_insert (results_before ∷ []) pool_factory server
      ≡ some (f', server_after, (results_after, true) ∷ []))
    × (f'.visitor
        ≡ pool_visitor (record pool { conns = (other_connector ∷ []) ++ (open_connector ∷ []) }))
query_all-serve_example =
    query_all-serve run_insert visit_insert (open_connector ∷ []) (other_connector ∷ [])
      (results_before ∷ []) pool_factory pool server server_after (open_connector ∷ [])
      ((results_after, true) ∷ []) refl refl refl one_served

get_field_by_name_lem_example :
    ((before : List String) × (h : String) × (after : List String) × (f : DbField)
      × (two_columns.headers ≡ before ++ h ∷ after)
      × Differs lower ("name") before
      × (lower h ≡ lower ("name"))
      × (get_elem? two_fields.fields (length before) ≡ some f)
      × (get_field_by_name lower two_columns two_fields ("name") ≡ some (some f)))
    ⊎ (Differs lower ("name") two_columns.headers
        × (get_field_by_name lower two_columns two_fields ("name") ≡ some none))
get_field_by_name_lem_example = get_field_by_name_lem lower two_columns two_fields ("name") refl

check_heartbeat-map_example :
    check_heartbeat refuses refuses pool
    ≡ some (record pool { conns = map (beat refuses refuses) pool.conns })
check_heartbeat-map_example = check_heartbeat-map refuses refuses pool
