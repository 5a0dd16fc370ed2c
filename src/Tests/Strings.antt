-- ===== src/Tests/Strings.antt =====
-- bingo/string.cpp with functions that do what boost documents, on a block and an address.
use bingo_v.Prelude.{
  ◌^◌, ◌≤◌, ◌⊎◌, none, ℕ, ◌+◌, ◌-◌, ◌*◌, ◌<◌, ◌≡◌, refl, true, ◌&&◌, Option, some, List, [], ◌∷◌,
  leb, ◌==◌, holds_to, holds_to-eq, ==_iff, ap, map, if◌then◌else◌, arith,
}
use bingo_v.Bytes.{Bytes}
use bingo_v.Strings.{hex_digit, stream_to_string, string_to_stream, decimal, int_to_ip, ip_to_int}
use bingo_v.Strings.Roundtrip.{hex-roundtrip, ip-roundtrip}

-- to_lower, trim_right and split at one separator with token_compress_on.
abbrev lower_byte : ℕ → ℕ
lower_byte c = if leb 65 c && leb c 90 then c + 32 else c

abbrev to_lower : Bytes → Bytes
to_lower = map lower_byte

abbrev cons_trimmed : ℕ → Bytes → Bytes
cons_trimmed c [] = if c == 32 then [] else c ∷ []
cons_trimmed c (d ∷ ds) = c ∷ d ∷ ds

trim : Bytes → Bytes
trim [] = []
trim (c ∷ cs) = cons_trimmed c (trim cs)

abbrev cons_token : ℕ → List Bytes → List Bytes
cons_token c [] = (c ∷ []) ∷ []
cons_token c (t ∷ ts) = (c ∷ t) ∷ ts

abbrev next_token : List Bytes → List Bytes
next_token ([] ∷ ts) = [] ∷ ts
next_token ts = [] ∷ ts

split : ℕ → Bytes → List Bytes
split sep [] = [] ∷ []
split sep (c ∷ cs) = let ts = split sep cs in if c == sep then next_token ts else cons_token c ts

digit-lower : (d : ℕ) → d < 16 → to_lower (hex_digit d ∷ []) ≡ hex_digit d ∷ []
digit-lower d h = ground arith

abbrev block : Bytes
block = 171 ∷ 0 ∷ []

hex-roundtrip_example :
    string_to_stream to_lower (split 32) (stream_to_string trim (7 ∷ block)) ≡ some (7 ∷ block)
unfolding trim split
hex-roundtrip_example =
    hex-roundtrip to_lower digit-lower trim (split 32) 7 block (omega arith) refl refl

-- The number that a decimal text stands for.
read_digits : ℕ → Bytes → ℕ
read_digits n [] = n
read_digits n (d ∷ ds) = read_digits (10 * n + (d - 48)) ds

abbrev to_u32 : Bytes → Option ℕ
to_u32 s = some (read_digits 0 s)

decimal_table : holds_to (λ d. read_digits 0 (decimal d) == d) 256 ≡ true
unfolding holds_to read_digits decimal
decimal_table = refl

decimal-read : (d : ℕ) → d < 256 → to_u32 (decimal d) ≡ some d
decimal-read d h = ap some (
    (==_iff (read_digits 0 (decimal d)) d).0
      (holds_to-eq (λ d. read_digits 0 (decimal d) == d) 256 d decimal_table h))

abbrev address : ℕ
address = 16820416

ip-roundtrip_example :
    ((address < 2 ^ 31) × (ip_to_int (split 46) to_u32 (int_to_ip address) ≡ some address))
    ⊎ ((2 ^ 31 ≤ address) × (ip_to_int (split 46) to_u32 (int_to_ip address) ≡ none))
unfolding split decimal
ip-roundtrip_example = ip-roundtrip (split 46) to_u32 address (omega arith) refl decimal-read
