-- ===== src/Log/Levels.antt =====
-- bingo/log/log_level.cpp: the names of the levels.
use Prim.Native.String.{String}
use text.Mathlib.Text.{◌==◌ as str_eq}
use text.Mathlib.TextEquality.{eq_iff}
use bingo_v.Prelude.{◌≡◌, ◌⊎◌, inl, inr, refl, Bool-cases, if◌then◌else◌}
use bingo_v.Log.{
  LogLevel, log_level_off, log_level_fatal, log_level_error, log_level_info, log_level_debug,
  log_level_all, log_level_unknown, level_to_string, string_to_level,
}

level-named : (l : LogLevel) → string_to_level (level_to_string l) ≡ l
unfolding level_to_string string_to_level
level-named log_level_off = refl
level-named log_level_fatal = refl
level-named log_level_error = refl
level-named log_level_info = refl
level-named log_level_debug = refl
level-named log_level_all = refl
level-named log_level_unknown = refl

-- A level that was read is unknown, or the text is its name.
abbrev IsNamed : String → LogLevel → Type 0
IsNamed s l = (l ≡ log_level_unknown) ⊎ (s ≡ level_to_string l)

IsNamed-if :
    (s : String) (l rest : LogLevel)
    → IsNamed s rest
    → IsNamed s (if str_eq s (level_to_string l) then l else rest)
IsNamed-if s l rest h = elim (Bool-cases (str_eq s (level_to_string l))) [
  | inl same ↦ rw same (inr ((eq_iff s (level_to_string l)).0 same))
  | inr other ↦ rw other h
]

string_to_level-IsNamed : (s : String) → IsNamed s (string_to_level s)
unfolding string_to_level level_to_string
string_to_level-IsNamed s = IsNamed-if s log_level_off _ (
    IsNamed-if s log_level_fatal _ (
      IsNamed-if s log_level_error _ (
        IsNamed-if s log_level_info _ (
          IsNamed-if s log_level_debug _
            (IsNamed-if s log_level_all log_level_unknown (inl refl))))))

-- Every level is read back from its name; and a text that is read as a known level is the name of that
-- level.
pub level-roundtrip :
    (l : LogLevel) (s : String)
    → (string_to_level (level_to_string l) ≡ l)
      × ((string_to_level s ≡ log_level_unknown) ⊎ (s ≡ level_to_string (string_to_level s)))
level-roundtrip l s = (level-named l, string_to_level-IsNamed s)
