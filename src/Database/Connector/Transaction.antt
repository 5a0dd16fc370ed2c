-- ===== src/Database/Connector/Transaction.antt =====
-- bingo/database/mysql/mysql_connector.cpp: query_result(sqls) on a server with transactions.
use Prim.Native.String.{String}
use bingo_v.Prelude.{◌≡◌, ◌⊎◌, Bool, true, false, List, [], ◌∷◌, if◌then◌else◌}
use bingo_v.Database.Connector.{Connector, Reply, is_nonempty}

module _ {S D : Type 0} (execute : S → String → S × Reply) (visible pending : S → D)
    (Within : S → S → Type 0) where
  -- The documented behaviour of transactions: Within s t says that t is a server state inside a
  -- transaction begun at s, a rollback brings back what was visible at s, and a commit that reports no
  -- error makes visible what the transaction has pending.
  pub record IsTransactional : Type 0 where
    pub begins : (s : S) → Within s (execute s "start transaction;").0
    pub rolls_back : (s t : S) → Within s t → visible (execute t "rollback;").0 ≡ visible s
    pub commits :
        (s t : S)
        → Within s t
        → is_nonempty (execute t "commit;").1.error_text ≡ false
        → visible (execute t "commit;").0 ≡ pending t

  -- A statement that does not end a transaction.
  abbrev pub StaysWithin : S → String → Type 0
  StaysWithin s sql = (t : S) → Within s t → Within s (execute t sql).0

  -- The statements that are not empty, one after the other.
  abbrev pub execute_all : S → List String → S
  execute_all s [] = s
  execute_all s (sql ∷ sqls) = execute_all (if is_nonempty sql then (execute s sql).0 else s) sqls

  -- What a commit at the end of a transaction leaves; its error is not looked at.
  abbrev pub IsCommitted : S → S → Type 0
  IsCommitted t s' =
      (s' ≡ (execute t "commit;").0)
      × (((is_nonempty (execute t "commit;").1.error_text ≡ false) × (visible s' ≡ pending t))
          ⊎ (is_nonempty (execute t "commit;").1.error_text ≡ true))

  abbrev pub IsFinished : S → S → List String → Connector × S × Bool → Type 0
  IsFinished s t sqls (c, s', ok) =
      ((ok ≡ true) × IsCommitted (execute_all t sqls) s')
      ⊎ ((ok ≡ false) × (visible s' ≡ visible s) × (c.e_what.number ≡ 0x21))
