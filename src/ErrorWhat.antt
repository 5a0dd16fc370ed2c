-- ===== src/ErrorWhat.antt =====
-- bingo/error_what.h and bingo/error_what.cpp: the error record that the components fill in, and
-- the error numbers that the models use.
use Prim.Native.String.{String}
use bingo_v.Prelude.{ℕ}

-- A return code: 0 is `success`, -1 is `failure`.
pub data Status : Type 0 where
  success failure : Status

-- The class error_what: a number and a text.
pub record ErrorWhat : Type 0 where
  pub number : ℕ
  pub message : String

-- The constructor: err_no_ is 0, err_ is empty.
abbrev pub error_what : ErrorWhat
error_what = record { number = 0; message = "" }

-- The setters err_no(n) and err_message(err).
abbrev pub err_no : ℕ → ErrorWhat → ErrorWhat
err_no n e = record e { number = n }

abbrev pub err_message : String → ErrorWhat → ErrorWhat
err_message s e = record e { message = s }

abbrev pub set_error : ℕ → String → ErrorWhat → ErrorWhat
set_error n s e = record e { number = n; message = s }

-- clone(obj) writes both fields of this object to obj.
abbrev pub clone : ErrorWhat → ErrorWhat → ErrorWhat
clone e obj = err_message e.message (err_no e.number obj)

-- A fresh error with its number and text set.
abbrev pub error_with : ℕ → String → ErrorWhat
error_with n s = err_message s (err_no n error_what)
