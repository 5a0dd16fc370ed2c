-- ===== src/Singleton.antt =====
-- bingo/singleton.h: the classes singleton_v0 to singleton_v3, which differ in the arguments of the
-- constructor of T only. An object is a number, 0 is `none`; a write through the reference that
-- instance() gives is not modelled.
pub mod Lifetime
use bingo_v.Prelude.{ℕ, suc, Option, none, some, List, [], ◌∷◌, ◌++◌}

-- The static member self_, and the objects that were made and deleted, in order.
pub record Singleton : Type 0 where
  pub self : Option ℕ
  pub made : ℕ
  pub deleted : List ℕ

unfoldable pub singleton : Singleton
singleton = record { self = none; made = 0; deleted = [] }

unfoldable pub construct : Singleton → Singleton
construct s = elim s.self [ none ↦ record s { self = some s.made; made = suc s.made } | some p ↦ s ]

-- instance(); `none` is a failed assertion.
unfoldable pub instance_of : Singleton → Option ℕ
instance_of s = s.self

unfoldable pub release : Singleton → Singleton
release s = elim s.self [
  | none ↦ s
  | some p ↦ record s { self = none; deleted = s.deleted ++ (p ∷ []) }
]

pub data Call : Type 0 where
  constructs releases : Call

unfoldable pub calls : List Call → Singleton → Singleton
unfolding construct release
calls [] s = s
calls (constructs ∷ rest) s = calls rest (construct s)
calls (releases ∷ rest) s = calls rest (release s)
