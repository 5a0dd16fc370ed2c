-- ===== src/Database/Result/Lookup.antt =====
-- bingo/database/db_result.cpp and db_row.cpp: what a lookup by index or by name finds.
use Prim.Native.String.{String}
use text.Mathlib.Text.{◌==◌ as str_eq}
use text.Mathlib.TextEquality.{eq_iff}
use bingo_v.Prelude.{
  ℕ, zero, suc, ◌+◌, ◌<◌, ◌≡◌, ◌≢◌, refl, ◌⊎◌, inl, inr, none, some, List, [], ◌∷◌, ◌++◌, arith,
  length, get_elem?, Bool-cases, All, ap, ◌∙◌, length-append,
}
use bingo_v.Database.Result.{
  ℤ, pos, negsuc, DbField, DbRow, DbResult, get_header_index, index_from, get_field_by_name,
  field_at,
}

get_elem?-some {ℓ} :
    {A : Type ℓ} (n : ℕ) (xs : List A) → n < length xs → (x : A) × (get_elem? xs n ≡ some x)
get_elem?-some n [] h = absurd (omega arith)
get_elem?-some zero (x ∷ xs) h = (x, refl)
get_elem?-some (suc n) (x ∷ xs) h = get_elem?-some n xs (omega arith)

module _ (lower : String → String) where
  -- No name of the list agrees with `name` in lower case.
  abbrev pub Differs : String → List String → Type 0
  Differs name = All (λ h. lower h ≢ lower name)

  -- Where the search ends: at the first header that agrees, or nowhere.
  abbrev pub Finds : ℕ → String → List String → ℤ → Type 0
  Finds start name hs i =
      ((before : List String) × (h : String) × (after : List String) × (hs ≡ before ++ h ∷ after)
        × Differs name before
        × (lower h ≡ lower name)
        × (i ≡ pos (start + length before)))
      ⊎ (Differs name hs × (i ≡ negsuc 0))

  Finds-later :
      (start : ℕ) (name h : String) (hs : List String) (i : ℤ)
      → lower h ≢ lower name
      → Finds (suc start) name hs i
      → Finds start name (h ∷ hs) i
  Finds-later start name h hs i d (inl (before, g, after, e, all, hit, at_i)) =
      inl (h ∷ before, g, after, ap (◌∷◌ h) e, (d, all), hit, at_i ∙ ap pos (omega arith))
  Finds-later start name h hs i d (inr (all, at_i)) = inr ((d, all), at_i)

  index_from-Finds :
      (start : ℕ) (name : String) (hs : List String)
      → Finds start name hs (index_from lower start name hs)
  unfolding index_from
  index_from-Finds start name [] = inr (tt, refl)
  index_from-Finds start name (h ∷ hs) = elim (Bool-cases (str_eq (lower h) (lower name))) [
    | inl same ↦
        rw same
          (inl ([], h, hs, refl, tt, (eq_iff (lower h) (lower name)).0 same, ap pos (omega arith)))
    | inr other ↦ rw other (
        Finds-later start name h hs (index_from lower (suc start) name hs)
          (λ e. cc ((eq_iff (lower h) (lower name)).1 e)) (index_from-Finds (suc start) name hs))
  ]

  field_at-found :
      (row : DbRow) (m n : ℕ) (f : DbField)
      → m ≡ n
      → get_elem? row.fields n ≡ some f
      → field_at lower row (pos m) ≡ some (some f)
  unfolding field_at
  field_at-found row m n f e found = rw e (ground (arith, found))

  -- get_field(field_name) on a row with a field for every header never reads past the end: it
  -- returns the field under the first header that agrees with the name in lower case, or the null
  -- pointer when no header does.
  pub get_field_by_name_lem :
      (r : DbResult) (row : DbRow) (name : String)
      → length row.fields ≡ length r.headers
      → ((before : List String) × (h : String) × (after : List String) × (f : DbField) × (r.headers
            ≡ before ++ h ∷ after)
          × Differs name before
          × (lower h ≡ lower name)
          × (get_elem? row.fields (length before) ≡ some f)
          × (get_field_by_name lower r row name ≡ some (some f)))
        ⊎ (Differs name r.headers × (get_field_by_name lower r row name ≡ some none))
  unfolding get_field_by_name get_header_index
  get_field_by_name_lem r row name e = elim (index_from-Finds 0 name r.headers) [
    | inl (before, h, after, split, all, hit, at_i) ↦
        let (f, found) =
          get_elem?-some (length before) row.fields
            (omega (arith, e, ap length split, length-append before (h ∷ after))) in
        inl (
          before,
          h,
          after,
          f,
          split,
          all,
          hit,
          found,
          rw at_i (field_at-found row (0 + length before) (length before) f (omega arith) found),
        )
    | inr (all, at_i) ↦ inr (all, rw at_i)
  ]
