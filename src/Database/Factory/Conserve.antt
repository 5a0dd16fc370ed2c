-- ===== src/Database/Factory/Conserve.antt =====
-- bingo/database/db_factory.cpp: the pool before and after a query.
use bingo_v.Prelude.{
  ◌≡◌, refl, ◌⊎◌, inl, inr, Bool, true, false, Option, some, List, [], ◌∷◌, ◌++◌, arith, ap, ◌∙◌,
  none, length, append_assoc, append-nil, Option-cases,
}
use bingo_v.ErrorWhat.{ErrorWhat}
use bingo_v.Database.Connector.{Connector}
use bingo_v.Database.Pool.{Pool, get_connector, free_connector}
use bingo_v.Database.Factory.{no_visitor, pool_visitor, Factory, query}

module _ {S R : Type 0} (run : Connector → S → R → Option (Connector × S × R × Bool))
    (visit : S → R → Option (ErrorWhat × S × R × Bool)) where
  -- One query: the first connector runs it and goes to the end of the queue.
  query-pool :
      (f : Factory) (p : Pool) (c c' : Connector) (rest : List Connector) (s s' : S) (r r' : R)
      (ok : Bool)
      → f.visitor ≡ pool_visitor p
      → p.conns ≡ c ∷ rest
      → run c s r ≡ some (c', s', r', ok)
      → (f' : Factory) × (query run visit f s r ≡ some (f', s', r', ok))
        × (f'.visitor ≡ pool_visitor (record p { conns = rest ++ (c' ∷ []) }))
        × (((ok ≡ true) × (f'.e_what ≡ f.e_what)) ⊎ ((ok ≡ false) × (f'.e_what ≡ c'.e_what)))
  unfolding query get_connector free_connector
  query-pool f p c c' rest s s' r r' true fv pc run_ok = (
    record f { visitor = pool_visitor (record p { conns = rest ++ (c' ∷ []) }) },
    ground arith,
    refl,
    inl (refl, refl),
  )
  query-pool f p c c' rest s s' r r' false fv pc run_ok = (
    record f {
      e_what = c'.e_what;
      visitor = pool_visitor (record p { conns = rest ++ (c' ∷ []) });
    },
    ground arith,
    refl,
    inr (refl, refl),
  )

  -- A query over an empty pool, or without a visitor, leaves the server, the caller's result and the
  -- visitor as they were, and returns false with error 0x25 or 0x26.
  pub query_refused :
      (f : Factory) (p : Pool) (s : S) (r : R)
      → (f.visitor ≡ no_visitor) ⊎ ((f.visitor ≡ pool_visitor p) × (p.conns ≡ []))
      → (f' : Factory) × (query run visit f s r ≡ some (f', s, r, false))
        × (f'.visitor ≡ f.visitor)
        × ((f'.e_what.number ≡ 0x25) ⊎ (f'.e_what.number ≡ 0x26))
  unfolding query get_connector
  query_refused f p s r (inl none_made) = (
    record f { e_what = record { number = 0x26; message = "db factory isn't create install!" } },
    rw none_made,
    refl,
    inr refl,
  )
  query_refused f p s r (inr (fv, empty)) = (
    record f { e_what = record { number = 0x25; message = "mysql pool is empty!" } },
    ground arith,
    refl,
    inl refl,
  )

  -- Queries one after the other, each with the result that its caller passes in.
  abbrev pub query_all : List R → Factory → S → Option (Factory × S × List (R × Bool))
  query_all [] f s = some (f, s, [])
  query_all (r ∷ rs) f s = elim (query run visit f s r) [
    | none ↦ none
    | some (f', s', r', ok) ↦ elim (query_all rs f' s') [
      | none ↦ none
      | some (f'', s'', outcomes) ↦ some (f'', s'', (r', ok) ∷ outcomes)
    ]
  ]

  -- The queries on connectors of their own, the first on the first.
  abbrev pub serve : List Connector → List R → S → Option (List Connector × S × List (R × Bool))
  serve [] rs s = some ([], s, [])
  serve (c ∷ cs) [] s = some (c ∷ cs, s, [])
  serve (c ∷ cs) (r ∷ rs) s = elim (run c s r) [
    | none ↦ none
    | some (c', s', r', ok) ↦ elim (serve cs rs s') [
      | none ↦ none
      | some (cs', s'', outcomes) ↦ some (c' ∷ cs', s'', (r', ok) ∷ outcomes)
    ]
  ]

  -- Over a pool, as many queries in a row as the queue has connectors in its first part are run by those,
  -- each by another one and in the order of the queue, with the outcomes that they have there; these
  -- connectors then stand, in the same order, behind those that did not run. None is lost, and none runs
  -- twice before each of the others has run.
  pub query_all-serve :
      (cs others : List Connector) (rs : List R) (f : Factory) (p : Pool) (s s' : S)
      (cs' : List Connector) (outcomes : List (R × Bool))
      → f.visitor ≡ pool_visitor p
      → p.conns ≡ cs ++ others
      → length rs ≡ length cs
      → serve cs rs s ≡ some (cs', s', outcomes)
      → (f' : Factory) × (query_all rs f s ≡ some (f', s', outcomes))
        × (f'.visitor ≡ pool_visitor (record p { conns = others ++ cs' }))
  query_all-serve [] others [] f p s s' cs' outcomes fv pc n h =
      (f, ground (arith, h), fv ∙ ap pool_visitor (ground (arith, h, pc, append-nil others)))
  query_all-serve [] others (r ∷ rs) f p s s' cs' outcomes fv pc n h = absurd (omega (arith, n))
  query_all-serve (c ∷ cs) others [] f p s s' cs' outcomes fv pc n h = absurd (omega (arith, n))
  query_all-serve (c ∷ cs) others (r ∷ rs) f p s s' cs' outcomes fv pc n h =
      elim (Option-cases (run c s r)) [
        | inl fault ↦ absurd (ground (arith, h))
        | inr ((c1, s1, r1, ok), e1) ↦ elim (Option-cases (serve cs rs s1)) [
          | inl fault ↦ absurd (ground (arith, h, e1))
          | inr ((cs1, s2, rest), e2) ↦
              let (f1, ran, first_visitor, error) =
                query-pool f p c c1 (cs ++ others) s s1 r r1 ok fv pc e1 in
              let p1 : Pool = record p { conns = (cs ++ others) ++ (c1 ∷ []) } in
              let (f2, all, last_visitor) =
                query_all-serve cs (others ++ (c1 ∷ [])) rs f1 p1 s1 s2 cs1 rest first_visitor
                  (append_assoc cs others (c1 ∷ [])) (omega (arith, n)) e2 in
              let kept : (others ++ (c1 ∷ [])) ++ cs1 ≡ others ++ cs' =
                append_assoc others (c1 ∷ []) cs1 ∙ ap (◌++◌ others) (ground (arith, h, e1, e2)) in
              (
                f2,
                ground (arith, h, e1, e2, ran, all),
                last_visitor ∙ ap (λ conns. pool_visitor (record p { conns = conns })) kept,
              )
        ]
      ]
