-- ===== src/Database/Connector/Fetch.antt =====
-- bingo/database/mysql/mysql_connector.cpp: the copy of a stored result.
use Prim.Native.String.{String}
use mathlib.Core.Path.{subst}
use bingo_v.Prelude.{
  ℕ, zero, suc, ◌+◌, ◌≤◌, ◌<◌, ◌≡◌, refl, ap, ◌∙◌, Option, none, some, List, [], ◌∷◌, ◌++◌, map,
  All, arith, length, take, drop, ◌%◌, ◌^◌, get_elem?, append-nil, append_assoc,
}
use bingo_v.Database.Result.{
  pos, int_of, DbField, db_field, DbRow, DbResult, add_header, add_row, add_field,
}
use bingo_v.Database.Connector.{ResultSet, add_headers, add_fields, add_rows, fetch, rounds}

-- A value whose length is that of bytes that can be read, and not the largest u64_t.
abbrev pub IsReadable : Option (List ℕ) × ℕ → Type 0
IsReadable (none, size) = Unit
IsReadable (some src, size) = (size ≤ length src) × (size + 1 < 2 ^ 64)

-- The documented shape of a MYSQL_RES: fewer than 2 ^ 31 fields; as many columns, and values in each row,
-- as it has fields; and for each value as many bytes as its length says.
pub record IsShaped (res : ResultSet) : Type 0 where
  pub few_fields : res.num_fields < 2 ^ 31
  pub columns_shaped : length res.columns ≡ res.num_fields
  pub rows_shaped : All (λ row. (length row ≡ res.num_fields) × All IsReadable row) res.values

-- The bytes of a value with a 0 behind them.
abbrev pub copied : Option (List ℕ) × ℕ → DbField
copied (none, size) = record { bytes = 0 ∷ []; data_size = size }
copied (some src, size) = record { bytes = take size src ++ (0 ∷ []); data_size = size }

abbrev pub copied_row : List (Option (List ℕ) × ℕ) → DbRow
copied_row row = record { fields = map copied row }

db_field-copied :
    (value : Option (List ℕ)) (size : ℕ)
    → IsReadable (value, size)
    → db_field value size ≡ some (copied (value, size))
unfolding db_field
db_field-copied none size h = refl
db_field-copied (some src) size h = ground (arith, h.0, h.1)

All-drop {ℓ κ} : {A : Type ℓ} (P : A → Type κ) (i : ℕ) (xs : List A) → All P xs → All P (drop i xs)
All-drop P zero xs h = h
All-drop P (suc i) [] h = tt
All-drop P (suc i) (x ∷ xs) h = All-drop P i xs h.1

get_elem?-drop {ℓ} :
    {A : Type ℓ} (i : ℕ) (xs : List A)
    → i < length xs
    → (x : A) × (get_elem? xs i ≡ some x) × (drop i xs ≡ x ∷ drop (suc i) xs)
get_elem?-drop i [] h = absurd (omega arith)
get_elem?-drop zero (x ∷ xs) h = (x, refl, refl)
get_elem?-drop (suc i) (x ∷ xs) h = get_elem?-drop i xs (omega arith)

drop-all {ℓ} : {A : Type ℓ} (i : ℕ) (xs : List A) → length xs ≤ i → drop i xs ≡ []
drop-all zero [] h = refl
drop-all zero (x ∷ xs) h = absurd (omega arith)
drop-all (suc i) [] h = refl
drop-all (suc i) (x ∷ xs) h = drop-all i xs (omega arith)

add_headers-eq :
    (n i : ℕ) (columns : List String) (r : DbResult)
    → i + n ≡ length columns
    → add_headers n i columns r ≡ some (record r { headers = r.headers ++ drop i columns })
unfolding add_headers
add_headers-eq zero i columns r e = rw (drop-all i columns (omega arith), append-nil r.headers)
add_headers-eq (suc n) i columns r e =
    let (name, found, rest) = get_elem?-drop i columns (omega arith) in
    rw (found, add_headers, rest)
      (add_headers-eq n (suc i) columns (add_header r name) (omega arith)
        ∙ rw (append_assoc r.headers (name ∷ []) (drop (suc i) columns)))

add_fields-eq :
    (n i : ℕ) (row : List (Option (List ℕ) × ℕ)) (d : DbRow)
    → i + n ≡ length row
    → All IsReadable (drop i row)
    → add_fields n i row d ≡ some (record { fields = d.fields ++ map copied (drop i row) })
unfolding add_fields
add_fields-eq zero i row d e all = rw (drop-all i row (omega arith), append-nil d.fields)
add_fields-eq (suc n) i row d e all =
    let ((value, size), found, rest) = get_elem?-drop i row (omega arith) in
    let here : All IsReadable ((value, size) ∷ drop (suc i) row) =
      subst (All IsReadable) rest all in
    rw (found, add_fields, db_field-copied value size here.0, rest)
      (add_fields-eq n (suc i) row (add_field d (copied (value, size))) (omega arith) here.1
        ∙ rw (append_assoc d.fields (copied (value, size) ∷ []) (map copied (drop (suc i) row))))

add_rows-eq :
    (n : ℕ) (rows : List (List (Option (List ℕ) × ℕ))) (r : DbResult)
    → All (λ row. (length row ≡ n) × All IsReadable row) rows
    → add_rows n rows r ≡ some (record r { rows = r.rows ++ map copied_row rows })
unfolding add_rows
add_rows-eq n [] r all = rw (append-nil r.rows)
add_rows-eq n (row ∷ rows) r all =
    rw (add_fields-eq n 0 row (record { fields = [] }) (omega (arith, all.0.0)) all.0.1, add_rows)
      (add_rows-eq n rows (add_row r (copied_row row)) all.1
        ∙ rw (append_assoc r.rows (copied_row row ∷ []) (map copied_row rows)))

int_of-pos : (n : ℕ) → n < 2 ^ 31 → int_of n ≡ pos n
unfolding int_of
int_of-pos n h = let small : n % 2 ^ 32 ≡ n = omega (arith, h) in rw small (ground (arith, h))

-- A result of the documented shape is copied without a read past the end of an array or of a value: its
-- columns are counted, the count of its rows is the int that the number of rows converts to, and its column
-- names and rows follow, in order and with the bytes that their lengths say, what was there before.
pub fetch_lem :
    (res : ResultSet) (r : DbResult)
    → IsShaped res
    → fetch res r
      ≡ some (record {
        row_amount = int_of res.num_rows;
        column_amount = pos res.num_fields;
        rows = r.rows ++ map copied_row res.values;
        headers = r.headers ++ res.columns;
      })
unfolding fetch
fetch_lem res r v =
    let counted : DbResult = record r {
      row_amount = int_of res.num_rows;
      column_amount = pos res.num_fields;
    } in
    rw
      (
        fetch,
        int_of-pos res.num_fields v.few_fields,
        add_headers-eq res.num_fields 0 res.columns counted (omega (arith, v.columns_shaped)),
      )
      (rw (ap rounds (int_of-pos res.num_fields v.few_fields)) (
        add_rows-eq res.num_fields res.values
          (record counted { headers = r.headers ++ res.columns }) v.rows_shaped))
