-- ===== src/Singleton/Lifetime.antt =====
-- bingo/singleton.h: the lifetime of the objects.
use bingo_v.Prelude.{
  ℕ, zero, suc, ◌≡◌, refl, ◌∙◌, sym, ap, Option, none, some, List, [], ◌∷◌, ◌++◌, append-nil,
}
use bingo_v.Singleton.{Singleton, singleton, construct, release, Call, constructs, releases, calls}

-- The numbers below n, in order.
below : ℕ → List ℕ
below zero = []
below (suc n) = below n ++ (n ∷ [])

current : Option ℕ → List ℕ
current none = []
current (some p) = p ∷ []

-- Each object was deleted once, in order, but for the one that is current.
IsKept : Singleton → Type 0
unfolding below current
IsKept s = s.deleted ++ current s.self ≡ below s.made

construct-IsKept : (s : Singleton) → IsKept s → IsKept (construct s)
unfolding IsKept construct current below
construct-IsKept s h = by s.self refl h
  where
    by : (o : Option ℕ) → s.self ≡ o → s.deleted ++ current o ≡ below s.made → IsKept (construct s)
    by none e k = rw e (ap (λ xs. xs ++ (s.made ∷ [])) (sym (append-nil s.deleted) ∙ k))
    by (some p) e k = rw e k

release-IsKept : (s : Singleton) → IsKept s → IsKept (release s)
unfolding IsKept release current
release-IsKept s h = by s.self refl h
  where
    by : (o : Option ℕ) → s.self ≡ o → s.deleted ++ current o ≡ below s.made → IsKept (release s)
    by none e k = rw e k
    by (some p) e k = rw e (append-nil (s.deleted ++ (p ∷ [])) ∙ k)

calls_keep : (cs : List Call) (s : Singleton) → IsKept s → IsKept (calls cs s)
unfolding calls
calls_keep [] s h = h
calls_keep (constructs ∷ rest) s h = calls_keep rest (construct s) (construct-IsKept s h)
calls_keep (releases ∷ rest) s h = calls_keep rest (release s) (release-IsKept s h)

-- After any calls of construct and release from the start, the objects that were made are, in order,
-- those that were deleted, each once, and then the current one, if there is one.
calls-IsKept : (cs : List Call) → IsKept (calls cs singleton)
unfolding singleton IsKept below current
calls-IsKept cs = calls_keep cs singleton refl
