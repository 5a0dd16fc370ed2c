-- ===== src/Database/Batch.antt =====
-- bingo/database/mysql/mysql_connector.cpp and mysql_visitor.cpp: query_result(sqls, results), the loop
-- that the two classes share, and the methods of both. mysql_close, with which each method of
-- mysql_visitor ends a connection that was made, has no effect on what is modelled and is left out.
pub mod Counting
use Prim.Native.String
use Prim.Native.String.{String}
use bingo_v.Prelude.{Bool, true, false, Option, none, some, List, [], ◌∷◌, ◌++◌, if◌then◌else◌}
use bingo_v.ErrorWhat.{ErrorWhat, err_no, err_message}
use bingo_v.Database.Result.{DbResult, db_result}
use bingo_v.Database.Connector.{
  Connector, ResultSet, Reply, is_nonempty, fetch, query_failed, run_all, query_transaction,
}

-- if(res): a statement without a result set leaves the new result empty.
unfoldable pub fetch_stored : Option ResultSet → Option DbResult
unfolding fetch
fetch_stored none = some db_result
fetch_stored (some res) = fetch res db_result

module _ {S : Type 0} (execute : S → String → S × Reply) where
  -- The loop: the text of the error that stopped it, if one did; `none` is a read past an array.
  unfoldable pub run_batch :
      S → List String → List DbResult → Option (S × List DbResult × Option String)
  unfolding fetch_stored
  run_batch s [] results = some (s, results, none)
  run_batch s (sql ∷ sqls) results =
      let (s', reply) = execute s sql in
      let skip = run_batch s sqls results in
      let next : Option (S × List DbResult × Option String) = elim (fetch_stored reply.stored) [
        | none ↦ none
        | some r ↦ run_batch s' sqls (results ++ r ∷ [])
      ] in
      if is_nonempty sql
      then (if is_nonempty reply.error_text
          then some (s', results, some reply.error_text)
          else next)
      else skip

  batch_done :
      Connector
      → Option (S × List DbResult × Option String)
      → Option (Connector × S × List DbResult × Bool)
  unfolding query_failed
  batch_done c none = none
  batch_done c (some (s, results, none)) = some (c, s, results, true)
  batch_done c (some (s, results, some er)) = some (query_failed er c, s, results, false)

  -- mysql_connector::query_result(sqls, results)
  unfoldable pub query_results :
      Connector → S → List String → List DbResult → Option (Connector × S × List DbResult × Bool)
  unfolding batch_done
  query_results c s sqls results =
      if c.has_handle then batch_done c (run_batch s sqls results) else none

  -- The errors that mysql_visitor sets.
  visitor_connect_failed : ErrorWhat → ErrorWhat
  visitor_connect_failed e = err_message "database connect fail!" (err_no 0x20 e)

  visitor_query_failed : String → ErrorWhat → ErrorWhat
  visitor_query_failed er e =
      err_message (String.◌++◌ "database query fail! error:" er) (err_no 0x21 e)

  visit_done :
      ErrorWhat
      → Option (S × List DbResult × Option String)
      → Option (ErrorWhat × S × List DbResult × Bool)
  unfolding visitor_query_failed
  visit_done e none = none
  visit_done e (some (s, results, none)) = some (e, s, results, true)
  visit_done e (some (s, results, some er)) = some (visitor_query_failed er e, s, results, false)

  -- mysql_visitor::query_result(sqls, results), given the outcome of mysql_real_connect.
  unfoldable pub visit_results :
      Bool
      → ErrorWhat
      → S
      → List String
      → List DbResult
      → Option (ErrorWhat × S × List DbResult × Bool)
  unfolding visitor_connect_failed visit_done
  visit_results connected e s sqls results =
      if connected
      then visit_done e (run_batch s sqls results)
      else some (visitor_connect_failed e, s, results, false)

  visit_stored :
      ErrorWhat → S → Option ResultSet → DbResult → Option (ErrorWhat × S × DbResult × Bool)
  visit_stored e s none r = none
  visit_stored e s (some res) r = elim (fetch res r) [
    | none ↦ none
    | some r' ↦ some (e, s, r', true)
  ]

  -- mysql_visitor::query_result(sql, result)
  unfoldable pub visit_result :
      Bool → ErrorWhat → S → String → DbResult → Option (ErrorWhat × S × DbResult × Bool)
  unfolding visitor_connect_failed visitor_query_failed visit_stored
  visit_result connected e s sql r =
      let (s', reply) = execute s sql in
      if connected
      then if is_nonempty reply.error_text
        then some (visitor_query_failed reply.error_text e, s', r, false)
        else visit_stored e s' reply.stored r
      else some (visitor_connect_failed e, s, r, false)

  -- The loop of mysql_visitor::query_result(sqls).
  unfoldable pub visit_all : ErrorWhat → S → List String → ErrorWhat × S × Bool
  unfolding visitor_query_failed
  visit_all e s [] = (e, (execute s "commit;").0, true)
  visit_all e s (sql ∷ sqls) =
      let skip = visit_all e s sqls in
      let (s', reply) = execute s sql in
      let next = visit_all e s' sqls in
      if is_nonempty sql
      then if is_nonempty reply.error_text
        then (visitor_query_failed reply.error_text e, (execute s' "rollback;").0, false)
        else next
      else skip

  -- mysql_visitor::query_result(sqls)
  unfoldable pub visit_transaction : Bool → ErrorWhat → S → List String → ErrorWhat × S × Bool
  unfolding visit_all visitor_connect_failed
  visit_transaction connected e s sqls =
      if connected
      then visit_all e (execute s "start transaction;").0 sqls
      else (visitor_connect_failed e, s, false)
