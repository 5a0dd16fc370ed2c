-- ===== src/Database/Result.antt =====
-- bingo/database/db_field.cpp, db_row.cpp and db_result.cpp: what a query returns.
-- An int index is an ℤ: a negative one is refused. boost::to_lower is the parameter `lower`.
pub mod Lookup
use Prim.Native.String.{String}
pub use bingo_v.Prelude.{ℤ, pos, negsuc}
use text.Mathlib.Text.{◌==◌ as str_eq}
use bingo_v.Prelude.{
  ℕ, suc, ◌+◌, ◌-◌, ◌%◌, ◌^◌, ◌||◌, take, Bool, true, false, Option, none, some, List, [], ◌∷◌,
  ◌++◌, length, get_elem?, if◌then◌else◌, ltb,
}

-- What an int holds that is set from an unsigned number of 32 or 64 bits.
unfoldable pub int_of : ℕ → ℤ
int_of n = let m = n % 2 ^ 32 in if ltb m (2 ^ 31) then pos m else negsuc (2 ^ 32 - 1 - m)

-- The class db_field: the bytes of data_ with the 0 that ends them, and data_size_.
pub record DbField : Type 0 where
  pub bytes : List ℕ
  pub data_size : ℕ

-- db_field(data, data_size): a null pointer gives one 0. `some src` are the bytes that can be read from
-- data on; `none` is a read past them, or a write past the new array, whose size data_size + 1 is a u64_t.
unfoldable pub db_field : Option (List ℕ) → ℕ → Option DbField
db_field none n = some (record { bytes = 0 ∷ []; data_size = n })
db_field (some src) n =
    if ltb (length src) n || ltb ((n + 1) % 2 ^ 64) n
    then none
    else some (record { bytes = take n src ++ (0 ∷ []); data_size = n })

pub record DbRow : Type 0 where
  pub fields : List DbField

-- The class db_result; the names of its headers.
pub record DbResult : Type 0 where
  pub row_amount : ℤ
  pub column_amount : ℤ
  pub rows : List DbRow
  pub headers : List String

unfoldable pub db_result : DbResult
db_result = record { row_amount = pos 0; column_amount = pos 0; rows = []; headers = [] }

abbrev pub add_header : DbResult → String → DbResult
add_header r h = record r { headers = r.headers ++ (h ∷ []) }

abbrev pub add_row : DbResult → DbRow → DbResult
add_row r row = record r { rows = r.rows ++ (row ∷ []) }

abbrev pub add_field : DbRow → DbField → DbRow
add_field row f = record { fields = row.fields ++ (f ∷ []) }

-- index >= 0 && size > 0 && index <= size - 1; a size_t never is below 0.
abbrev pub at_index {ℓ} : {A : Type ℓ} → List A → ℤ → Option A
at_index xs (negsuc i) = none
at_index xs (pos i) = if ltb i (length xs) then get_elem? xs i else none

unfoldable pub get_row : DbResult → ℤ → Option DbRow
get_row r i = at_index r.rows i

unfoldable pub get_header : DbResult → ℤ → Option String
get_header r i = at_index r.headers i

unfoldable pub get_field : DbRow → ℤ → Option DbField
get_field row i = at_index row.fields i

module _ (lower : String → String) where
  -- The loop of get_header_index from a position on; -1 when no name fits.
  index_from : ℕ → String → List String → ℤ
  index_from i name [] = negsuc 0
  index_from i name (h ∷ hs) =
      if str_eq (lower h) (lower name) then pos i else index_from (suc i) name hs

  unfoldable pub get_header_index : DbResult → String → ℤ
  unfolding index_from
  get_header_index r name = index_from 0 name r.headers

  -- fields_[index], for an index that is not -1; `none` is a read past the end.
  unfoldable pub field_at : DbRow → ℤ → Option (Option DbField)
  field_at row (negsuc i) = some none
  field_at row (pos i) = elim (get_elem? row.fields i) [ none ↦ none | some f ↦ some (some f) ]

  -- get_field(field_name): the inner `none` is the null pointer, the outer one a fault.
  unfoldable pub get_field_by_name : DbResult → DbRow → String → Option (Option DbField)
  unfolding field_at
  get_field_by_name r row name = field_at row (get_header_index r name)
