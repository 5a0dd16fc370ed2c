-- ===== src/Log/Reading.antt =====
-- bingo/log/handlers/local_log_visitor.cpp and config/local_cfg.cpp: what read_config takes from a file.
use Prim.Native.String.{String}
use text.Mathlib.Text.{◌==◌ as str_eq}
use text.Mathlib.TextEquality.{eq_iff}
use bingo_v.Prelude.{
  ℕ, ◌≡◌, ◌≢◌, sym, ap, ◌∙◌, ◌⊎◌, inl, inr, refl, Bool, true, false, Option, none, some, arith,
  if◌then◌else◌, Bool-cases,
}
use bingo_v.ErrorWhat.{ErrorWhat}
use bingo_v.Log.{
  LogLevel, log_level_off, log_level_fatal, log_level_error, log_level_info, log_level_debug,
  log_level_all, log_level_unknown, string_to_level, LocalLoggerType, every_day, every_hour,
  one_file, logger_type_unknown, string_to_local_logger_type, LocalCfg, LocalLogVisitor, Node,
  missing, found, check_node, check_type, check_rest, check_known, check_text, check_level,
  with_level, checked, read_xml, read_config, configured, make_logger,
}

-- The texts of the levels and of the types of a logger.
abbrev pub level_name : LogLevel → String
level_name log_level_off = "off"
level_name log_level_fatal = "fatal"
level_name log_level_error = "error"
level_name log_level_info = "info"
level_name log_level_debug = "debug"
level_name log_level_all = "all"
level_name log_level_unknown = ""

abbrev pub type_name : LocalLoggerType → String
type_name every_day = "every_day"
type_name every_hour = "every_hour"
type_name one_file = "one_file"
type_name logger_type_unknown = ""

-- A value that was read from a text is the unknown one, or the text is its name.
abbrev IsNamed : {A : Type 0} → (A → String) → A → String → A → Type 0
IsNamed name unknown s a = (a ≡ unknown) ⊎ ((a ≢ unknown) × (s ≡ name a))

IsNamed-if :
    {A : Type 0} (name : A → String) (unknown : A) (s : String) (a rest : A)
    → a ≢ unknown
    → IsNamed name unknown s rest
    → IsNamed name unknown s (if str_eq s (name a) then a else rest)
IsNamed-if name unknown s a rest known h = elim (Bool-cases (str_eq s (name a))) [
  | inl same ↦ rw same (inr (known, (eq_iff s (name a)).0 same))
  | inr other ↦ rw other h
]

level-IsNamed : (s : String) → IsNamed level_name log_level_unknown s (string_to_level s)
unfolding string_to_level
level-IsNamed s = IsNamed-if level_name log_level_unknown s log_level_off _ (ground arith) (
    IsNamed-if level_name log_level_unknown s log_level_fatal _ (ground arith) (
      IsNamed-if level_name log_level_unknown s log_level_error _ (ground arith) (
        IsNamed-if level_name log_level_unknown s log_level_info _ (ground arith) (
          IsNamed-if level_name log_level_unknown s log_level_debug _ (ground arith) (
            IsNamed-if level_name log_level_unknown s log_level_all _ (ground arith) (inl refl))))))

type-IsNamed :
    (s : String) → IsNamed type_name logger_type_unknown s (string_to_local_logger_type s)
unfolding string_to_local_logger_type
type-IsNamed s = IsNamed-if type_name logger_type_unknown s every_day _ (ground arith) (
    IsNamed-if type_name logger_type_unknown s every_hour _ (ground arith)
      (IsNamed-if type_name logger_type_unknown s one_file _ (ground arith) (inl refl)))

-- A property of a configuration, if its check returns true.
abbrev IfTrue : (LocalCfg → Type 0) → LocalCfg × Bool → Type 0
IfTrue P (c, ok) = (ok ≡ false) ⊎ ((ok ≡ true) × P c)

-- The level is that of the file, and the type is `t`.
abbrev HasLevel : Node → LocalLoggerType → LocalCfg → Type 0
HasLevel n t c =
    (c.logger_type ≡ t) × (n ≡ found (level_name c.level)) × (c.level ≢ log_level_unknown)

with_level-HasLevel :
    (c : LocalCfg) (s : String) (l : LogLevel)
    → IsNamed level_name log_level_unknown s l
    → IfTrue (HasLevel (found s) c.logger_type) (with_level c l)
unfolding with_level
with_level-HasLevel c s log_level_unknown h = inl refl
with_level-HasLevel c s log_level_off (inl u) = absurd (ground (arith, u))
with_level-HasLevel c s log_level_off (inr (k, t)) = inr (refl, (refl, ap found t, k))
with_level-HasLevel c s log_level_fatal (inl u) = absurd (ground (arith, u))
with_level-HasLevel c s log_level_fatal (inr (k, t)) = inr (refl, (refl, ap found t, k))
with_level-HasLevel c s log_level_error (inl u) = absurd (ground (arith, u))
with_level-HasLevel c s log_level_error (inr (k, t)) = inr (refl, (refl, ap found t, k))
with_level-HasLevel c s log_level_info (inl u) = absurd (ground (arith, u))
with_level-HasLevel c s log_level_info (inr (k, t)) = inr (refl, (refl, ap found t, k))
with_level-HasLevel c s log_level_debug (inl u) = absurd (ground (arith, u))
with_level-HasLevel c s log_level_debug (inr (k, t)) = inr (refl, (refl, ap found t, k))
with_level-HasLevel c s log_level_all (inl u) = absurd (ground (arith, u))
with_level-HasLevel c s log_level_all (inr (k, t)) = inr (refl, (refl, ap found t, k))

check_level-HasLevel :
    (c : LocalCfg) (n : Node) → IfTrue (HasLevel n c.logger_type) (check_level c n)
unfolding check_level
check_level-HasLevel c (missing e) = inl refl
check_level-HasLevel c (found s) = with_level-HasLevel c s (string_to_level s) (level-IsNamed s)

check_text-IfTrue :
    (P : LocalCfg → Type 0) (c : LocalCfg) (n : Node) (next : LocalCfg × Bool)
    → IfTrue P next
    → IfTrue P (check_text c n next)
unfolding check_text
check_text-IfTrue P c (missing e) next h = inl refl
check_text-IfTrue P c (found s) next h = h

module _ (get : String → Node) where
  check_rest-HasLevel :
      (c : LocalCfg)
      → IfTrue
          (HasLevel (get "application.local_log_visitor.level") c.logger_type)
          (check_rest c get)
  unfolding check_rest
  check_rest-HasLevel c =
      let P : LocalCfg → Type 0 =
        HasLevel (get "application.local_log_visitor.level") c.logger_type in
      check_text-IfTrue P c (get "application.local_log_visitor.filename") _ (
        check_text-IfTrue P c (get "application.local_log_visitor.path") _
          (check_level-HasLevel c (get "application.local_log_visitor.level")))

  -- The type and the level are those of the file, and known.
  abbrev pub HasTexts : LocalCfg → Type 0
  HasTexts c =
      (get "application.local_log_visitor.type" ≡ found (type_name c.logger_type))
      × (c.logger_type ≢ logger_type_unknown)
      × (get "application.local_log_visitor.level" ≡ found (level_name c.level))
      × (c.level ≢ log_level_unknown)

  known-HasTexts :
      (t : LocalLoggerType) (r : LocalCfg × Bool)
      → get "application.local_log_visitor.type" ≡ found (type_name t)
      → t ≢ logger_type_unknown
      → IfTrue (HasLevel (get "application.local_log_visitor.level") t) r
      → IfTrue HasTexts r
  known-HasTexts t (c, ok) text known (inl e) = inl e
  known-HasTexts t (c, ok) text known (inr (e, (same_type, level, known_level))) = inr (
    e,
    (text ∙ ap (λ u. found (type_name u)) (sym same_type), rw same_type known, level, known_level),
  )

  check_known-HasTexts :
      (c : LocalCfg) (s : String) (t : LocalLoggerType)
      → get "application.local_log_visitor.type" ≡ found s
      → IsNamed type_name logger_type_unknown s t
      → IfTrue HasTexts (check_known c get t)
  unfolding check_known
  check_known-HasTexts c s logger_type_unknown e h = inl refl
  check_known-HasTexts c s every_day e (inl u) = absurd (ground (arith, u))
  check_known-HasTexts c s every_hour e (inl u) = absurd (ground (arith, u))
  check_known-HasTexts c s one_file e (inl u) = absurd (ground (arith, u))
  check_known-HasTexts c s every_day e (inr (k, t)) =
      known-HasTexts every_day (check_rest (record c { logger_type = every_day }) get)
        (e ∙ ap found t) k (check_rest-HasLevel (record c { logger_type = every_day }))
  check_known-HasTexts c s every_hour e (inr (k, t)) =
      known-HasTexts every_hour (check_rest (record c { logger_type = every_hour }) get)
        (e ∙ ap found t) k (check_rest-HasLevel (record c { logger_type = every_hour }))
  check_known-HasTexts c s one_file e (inr (k, t)) =
      known-HasTexts one_file (check_rest (record c { logger_type = one_file }) get)
        (e ∙ ap found t) k (check_rest-HasLevel (record c { logger_type = one_file }))

  check_type-HasTexts :
      (c : LocalCfg) (n : Node)
      → get "application.local_log_visitor.type" ≡ n
      → IfTrue HasTexts (check_type c get n)
  unfolding check_type
  check_type-HasTexts c (missing m) e = inl refl
  check_type-HasTexts c (found s) e =
      check_known-HasTexts c s (string_to_local_logger_type s) e (type-IsNamed s)

-- The number of the error of a file that cannot be read, and of one that fails its check.
abbrev number_of : Option (String → Node) → ℕ
number_of none = 0x50
number_of (some get) = 0x51

-- What a visitor is after read_config: configured as the file says, or with the logger that it had.
abbrev pub IsConfigured : LocalLogVisitor → Option (String → Node) → LocalLogVisitor × Bool → Type 0
IsConfigured v file (v', ok) =
    ((ok ≡ true)
      × (v'.config.is_valid ≡ true)
      × (v'.logger ≡ some v'.config.level)
      × ((get : String → Node) × (file ≡ some get) × HasTexts get v'.config))
    ⊎ ((ok ≡ false) × (v'.logger ≡ v.logger) × (v'.e_what.number ≡ number_of file))

make_logger-known :
    (v : LocalLogVisitor) (t : LocalLoggerType)
    → t ≢ logger_type_unknown
    → make_logger v t ≡ (record v { logger = some v.config.level }, true)
unfolding make_logger
make_logger-known v logger_type_unknown known = absurd (known refl)
make_logger-known v every_day known = refl
make_logger-known v every_hour known = refl
make_logger-known v one_file known = refl

checked-IsConfigured :
    (v : LocalLogVisitor) (get : String → Node) (r : LocalCfg × Bool)
    → IfTrue (HasTexts get) r
    → IsConfigured v (some get) (configured v (checked r))
unfolding checked configured
checked-IsConfigured v get (c, false) h = inr (refl, refl, refl)
checked-IsConfigured v get (c, true) (inl e) = absurd (ground (arith, e))
checked-IsConfigured v get (c, true) (inr (e, h)) =
    rw (make_logger-known (record v { config = record c { is_valid = true } }) c.logger_type h.1)
      (inl (refl, refl, refl, (get, refl, h)))

-- read_config, on any visitor, returns true only with a valid configuration whose level and type of logger
-- are known and have the texts that the file has for them, and with a logger of that level; when it
-- returns false, the logger, if there is one, is the one before, and the number of the error is 0x50 if
-- the file was not read, else 0x51.
pub read_config-IsConfigured :
    (v : LocalLogVisitor) (file : Option (String → Node)) (e : ErrorWhat)
    → IsConfigured v file (read_config v file e)
unfolding read_config read_xml configured check_node
read_config-IsConfigured v none e = inr (refl, refl, refl)
read_config-IsConfigured v (some get) e =
    checked-IsConfigured v get (check_node v.config get)
      (check_type-HasTexts get v.config (get "application.local_log_visitor.type") refl)
