-- ===== src/Strings/Roundtrip.antt =====
-- bingo/string.cpp: texts that are read back.
use bingo_v.Prelude.{
  ℕ, ◌/◌, ◌%◌, ◌^◌, ◌≤◌, ◌<◌, ◌≡◌, ◌⊎◌, refl, ◌∙◌, ap, true, Option, none, some, List, [], ◌∷◌,
  ◌++◌, append_assoc, All, ◌==◌, holds_to, holds_to-eq, ==_iff, arith, ltb, if◌then◌else◌,
}
use bingo_v.Bytes.{Bytes}
use bingo_v.Strings.{
  char_value, char_to_int, hex_digit, hex_byte, append_hex, stream_to_string, token_value,
  values_of, string_to_stream, short_to_stream, stream_to_short, decimal, int_to_ip, ip_value,
  ip_of, ip_to_int,
}

-- Texts with a separator between them.
abbrev pub join : ℕ → List Bytes → Bytes
join sep [] = []
join sep (t ∷ []) = t
join sep (t ∷ u ∷ ts) = t ++ (sep ∷ join sep (u ∷ ts))

-- A block of bytes as tokens of two digits.
abbrev pub tokens : Bytes → List Bytes
tokens [] = []
tokens (b ∷ bs) = hex_byte b ∷ tokens bs

-- A u16_t is read back from its stream.
pub short-roundtrip : (v : ℕ) → v < 2 ^ 16 → stream_to_short (short_to_stream v) ≡ some v
unfolding stream_to_short short_to_stream
short-roundtrip v h = ground arith

hex_table : holds_to (λ d. char_value (hex_digit d ∷ []) == d) 16 ≡ true
unfolding holds_to char_value
hex_table = refl

char_value-hex_digit : (d : ℕ) → d < 16 → char_value (hex_digit d ∷ []) ≡ d
char_value-hex_digit d h =
    (==_iff (char_value (hex_digit d ∷ [])) d).0
      (holds_to-eq (λ d. char_value (hex_digit d ∷ []) == d) 16 d hex_table h)

append_hex-join :
    (bs : Bytes) (b : ℕ) (str : Bytes)
    → append_hex str (b ∷ bs) ≡ str ++ (join 32 (tokens (b ∷ bs)) ++ (32 ∷ []))
unfolding append_hex
append_hex-join [] b str = refl
append_hex-join (c ∷ cs) b str =
    append_hex-join cs c (str ++ (hex_byte b ++ (32 ∷ [])))
    ∙ append_assoc str (hex_byte b ++ (32 ∷ [])) (join 32 (tokens (c ∷ cs)) ++ (32 ∷ []))

module _ (to_lower : Bytes → Bytes)
    (lower : (d : ℕ) → d < 16 → to_lower (hex_digit d ∷ []) ≡ hex_digit d ∷ []) where
  token_value-hex : (b : ℕ) → b < 256 → token_value to_lower (hex_byte b) ≡ some b
  unfolding token_value char_to_int
  token_value-hex b h =
      rw
        (
          lower (b / 16) (omega arith),
          lower (b % 16) (omega arith),
          char_value-hex_digit (b / 16) (omega arith),
          char_value-hex_digit (b % 16) (omega arith),
        )
        (ap some (omega arith))

  values_of-tokens : (bs : Bytes) → All (λ b. b < 256) bs → values_of to_lower (tokens bs) ≡ some bs
  unfolding values_of
  values_of-tokens [] h = refl
  values_of-tokens (b ∷ bs) h = ground (arith, token_value-hex b h.0, values_of-tokens bs h.1)

  -- The text that stream_to_string makes of a block of bytes that is not empty is read back by
  -- string_to_stream, where to_lower leaves a digit as it is, trim takes the last blank away, and
  -- split gives the tokens between blanks.
  pub hex-roundtrip :
      (trim : Bytes → Bytes) (split : Bytes → List Bytes) (b : ℕ) (bs : Bytes)
      → All (λ c. c < 256) (b ∷ bs)
      → trim (join 32 (tokens (b ∷ bs)) ++ (32 ∷ [])) ≡ join 32 (tokens (b ∷ bs))
      → split (join 32 (tokens (b ∷ bs))) ≡ tokens (b ∷ bs)
      → string_to_stream to_lower split (stream_to_string trim (b ∷ bs)) ≡ some (b ∷ bs)
  unfolding string_to_stream stream_to_string
  hex-roundtrip trim split b bs h trims splits =
      ap (λ s. values_of to_lower (split (trim s))) (append_hex-join bs b [])
      ∙ ap (λ s. values_of to_lower (split s)) trims
      ∙ ap (values_of to_lower) splits
      ∙ values_of-tokens (b ∷ bs) h

-- The four parts of an address.
abbrev pub parts : ℕ → List Bytes
parts n =
    decimal (n % 256)
    ∷ decimal (n / 256 % 256)
    ∷ decimal (n / 256 / 256 % 256)
    ∷ decimal (n / 256 / 256 / 256)
    ∷ []

-- A u32_t below 2 ^ 31 is read back from the text that int_to_ip makes of it, where split gives the texts
-- between the dots, and lexical_cast reads back what %d writes of a byte; from 2 ^ 31 on, that text makes
-- ip_to_int overflow.
pub ip-roundtrip :
    (split : Bytes → List Bytes) (to_u32 : Bytes → Option ℕ) (n : ℕ)
    → n < 2 ^ 32
    → split (join 46 (parts n)) ≡ parts n
    → ((d : ℕ) → d < 256 → to_u32 (decimal d) ≡ some d)
    → ((n < 2 ^ 31) × (ip_to_int split to_u32 (int_to_ip n) ≡ some n))
      ⊎ ((2 ^ 31 ≤ n) × (ip_to_int split to_u32 (int_to_ip n) ≡ none))
unfolding ip_to_int int_to_ip ip_of ip_value
ip-roundtrip split to_u32 n h splits casts =
    rw
      (
        splits,
        casts (n % 256) (omega arith),
        casts (n / 256 % 256) (omega arith),
        casts (n / 256 / 256 % 256) (omega arith),
        casts (n / 256 / 256 / 256) (omega arith),
      )
      (summed (omega arith))
  where
    summed :
        {m : ℕ}
        → m ≡ n
        → ((n < 2 ^ 31) × ((if ltb m (2 ^ 31) then some m else none) ≡ some n))
          ⊎ ((2 ^ 31 ≤ n) × ((if ltb m (2 ^ 31) then some m else none) ≡ none))
    summed e = ground (arith, e)
