-- ===== src/Database/Batch/Counting.antt =====
-- bingo/database/mysql/mysql_connector.cpp and mysql_visitor.cpp: which results the loop over
-- several statements leaves, and the transactions of the two classes side by side.
use Prim.Native.String.{String}
use bingo_v.Prelude.{
  ◌≡◌, ◌∙◌, refl, sym, ap, All, Pairwise, ◌⊎◌, inl, inr, Bool, true, false, Option, none, some,
  List, [], ◌∷◌, ◌++◌, arith, append_assoc, append-nil, if◌then◌else◌, Bool-cases, Option-cases,
  some-injective,
}
use mathlib.Core.Path.{subst}
use bingo_v.ErrorWhat.{ErrorWhat}
use bingo_v.Database.Result.{DbResult, db_result}
use bingo_v.Database.Connector.{
  Connector, ResultSet, Reply, fetch, is_nonempty, run_all, query_transaction,
}
use bingo_v.Database.Batch.{fetch_stored, run_batch, visit_transaction, visit_all}

module _ {S : Type 0} (execute : S → String → S × Reply) where
  -- The state and the reply after each statement that is not empty, if all are executed.
  abbrev pub replies : S → List String → List (S × Reply)
  replies s [] = []
  replies s (sql ∷ sqls) =
      let skip = replies s sqls in
      let next = execute s sql ∷ replies (execute s sql).0 sqls in
      if is_nonempty sql then next else skip

  -- The state after the last of them.
  abbrev pub after_all : S → List (S × Reply) → S
  after_all s [] = s
  after_all s ((s', reply) ∷ rest) = after_all s' rest

  abbrev pub IsFine : S × Reply → Type 0
  IsFine (s, reply) = is_nonempty reply.error_text ≡ false

  -- The result that is added for a reply: the copy of its result set, or an empty one without it.
  abbrev pub IsResult : S × Reply → DbResult → Type 0
  IsResult (s, reply) r =
      ((reply.stored ≡ none) × (r ≡ db_result))
      ⊎ ((res : ResultSet) × (reply.stored ≡ some res) × (fetch res db_result ≡ some r))

  -- Every statement succeeded; or those before a failing one did, and the loop has stopped at it.
  abbrev pub HasRun :
      S → List (S × Reply) → List DbResult → S × List DbResult × Option String → Type 0
  HasRun s rs results (s', results', er) =
      (added : List DbResult) × (results' ≡ results ++ added)
      × (((er ≡ none) × All IsFine rs × Pairwise IsResult rs added × (s' ≡ after_all s rs))
          ⊎ ((before after : List (S × Reply)) × (failing : S × Reply) × (rs
                ≡ before ++ (failing ∷ after))
              × All IsFine before
              × Pairwise IsResult before added
              × (is_nonempty failing.1.error_text ≡ true)
              × (er ≡ some failing.1.error_text)
              × (s' ≡ failing.0)))

  one_more :
      (s : S) (now : S × Reply) (rs : List (S × Reply)) (results : List DbResult) (r : DbResult)
      (o : S × List DbResult × Option String)
      → IsFine now
      → IsResult now r
      → HasRun now.0 rs (results ++ r ∷ []) o
      → HasRun s (now ∷ rs) results o
  one_more s now rs results r (s', results', er) fine is (added, e, ran) = (
    r ∷ added,
    e ∙ append_assoc results (r ∷ []) added,
    elim ran [
      | inl (none_failed, all, pairs, state) ↦ inl (none_failed, (fine, all), (is, pairs), state)
      | inr (before, after, failing, split, all, pairs, failed, text, state) ↦ inr (
        now ∷ before,
        after,
        failing,
        ap (◌∷◌ now) split,
        (fine, all),
        (is, pairs),
        failed,
        text,
        state,
      )
    ],
  )

  fetch_stored-IsResult :
      (s : S) (reply : Reply) (r : DbResult)
      → fetch_stored reply.stored ≡ some r
      → IsResult (s, reply) r
  unfolding fetch_stored
  fetch_stored-IsResult s reply r e = by reply.stored refl
    where
      by : (o : Option ResultSet) → reply.stored ≡ o → IsResult (s, reply) r
      by none f = inl (f, ground (arith, e, f))
      by (some res) f = inr (res, f, ground (arith, e, f))

  -- The loop of query_result(sqls, results) keeps the results that were there. If no statement fails, it
  -- adds one result for each that is not empty, in order, which is the copy of its result set, or empty
  -- without one, and reports no error. Otherwise it adds those of the statements before the first that
  -- fails, reports the error of that one, and executes none after it.
  pub run_batch_lem :
      (s : S) (sqls : List String) (results : List DbResult) (o : S × List DbResult × Option String)
      → run_batch execute s sqls results ≡ some o
      → HasRun s (replies s sqls) results o
  unfolding run_batch
  run_batch_lem s [] results o e =
      subst (HasRun s [] results) (some-injective _ _ e)
        ([], sym (append-nil results), inl (refl, tt, tt, refl))
  run_batch_lem s (sql ∷ sqls) results o e = elim (Bool-cases (is_nonempty sql)) [
    | inr empty ↦ rw empty (run_batch_lem s sqls results o (ground arith))
    | inl real ↦ elim (Bool-cases (is_nonempty (execute s sql).1.error_text)) [
      | inl failed ↦ rw real (
          subst (HasRun s (execute s sql ∷ replies (execute s sql).0 sqls) results)
            (some-injective ((execute s sql).0, results, some (execute s sql).1.error_text) o
              (ground arith))
            (
              [],
              sym (append-nil results),
              inr (
                [],
                replies (execute s sql).0 sqls,
                execute s sql,
                refl,
                tt,
                tt,
                failed,
                refl,
                refl,
              ),
            ))
      | inr fine ↦ elim (Option-cases (fetch_stored (execute s sql).1.stored)) [
        | inl fault ↦ absurd (ground arith)
        | inr (r, copied) ↦ rw real (
            one_more s (execute s sql) (replies (execute s sql).0 sqls) results r o fine
              (fetch_stored-IsResult (execute s sql).0 (execute s sql).1 r copied)
              (run_batch_lem (execute s sql).0 sqls (results ++ r ∷ []) o (ground arith)))
      ]
    ]
  ]

  visit_all-run_all :
      (c : Connector) (w : ErrorWhat) (s : S) (sqls : List String)
      → ((visit_all execute w s sqls).1 ≡ (run_all execute c s sqls).1)
        × ((visit_all execute w s sqls).2 ≡ (run_all execute c s sqls).2)
  unfolding visit_all run_all
  visit_all-run_all c w s [] = (refl, refl)
  visit_all-run_all c w s (sql ∷ sqls) =
      ground (arith, visit_all-run_all c w s sqls, visit_all-run_all c w (execute s sql).0 sqls)

  -- query_result(sqls) of mysql_visitor, once it has connected, leaves the server as query_result(sqls) of
  -- an open mysql_connector does, and returns the same; when it cannot connect it leaves the server
  -- alone and returns false with the error 0x20.
  pub visitor-agrees :
      (c : Connector) (w : ErrorWhat) (s : S) (sqls : List String)
      → c.has_handle ≡ true
      → ((r : Connector × S × Bool) × (query_transaction execute c s sqls ≡ some r)
          × ((visit_transaction execute true w s sqls).1 ≡ r.1)
          × ((visit_transaction execute true w s sqls).2 ≡ r.2))
        × (((visit_transaction execute false w s sqls).1 ≡ s)
            × ((visit_transaction execute false w s sqls).2 ≡ false)
            × ((visit_transaction execute false w s sqls).0.number ≡ 0x20))
  unfolding query_transaction visit_transaction
  visitor-agrees c w s sqls live = (
    (
      run_all execute c (execute s "start transaction;").0 sqls,
      ground arith,
      (visit_all-run_all c w (execute s "start transaction;").0 sqls).0,
      (visit_all-run_all c w (execute s "start transaction;").0 sqls).1,
    ),
    (refl, refl, refl),
  )
