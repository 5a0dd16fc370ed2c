-- ===== src/Bytes/Order.antt =====
-- The order of strings is strict and total.
use bingo_v.Prelude.{◌≡◌, refl, true, false, [], ◌∷◌, arith}
use bingo_v.Bytes.{Bytes, same, before}

pub before_irrefl : (s : Bytes) → before s s ≡ false
unfolding before
before_irrefl [] = refl
before_irrefl (b ∷ bs) = ground (arith, before_irrefl bs)

pub before_trans : (s t u : Bytes) → before s t ≡ true → before t u ≡ true → before s u ≡ true
unfolding before
before_trans s t [] h k = cc
before_trans s [] (d ∷ ds) h k = cc
before_trans [] (c ∷ cs) (d ∷ ds) h k = refl
before_trans (b ∷ bs) (c ∷ cs) (d ∷ ds) h k = ground (arith, before_trans bs cs ds)

pub before-connex : (s t : Bytes) → before s t ≡ false → before t s ≡ false → s ≡ t
unfolding before
before-connex [] [] h k = refl
before-connex [] (c ∷ cs) h k = cc
before-connex (b ∷ bs) [] h k = cc
before-connex (b ∷ bs) (c ∷ cs) h k = ground (arith, before-connex bs cs)

pub before→same : (s t : Bytes) → before s t ≡ true → same t s ≡ false
unfolding before same
before→same s [] h = cc
before→same [] (c ∷ cs) h = refl
before→same (b ∷ bs) (c ∷ cs) h = ground (arith, before→same bs cs)
