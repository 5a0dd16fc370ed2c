-- ===== src/Strings.antt =====
-- bingo/string.h and string.cpp: the conversions of string_ex between bytes and texts. The functions of
-- boost::algorithm and lexical_cast are parameters; sprintf is written out; the machine is little-endian.
pub mod Roundtrip
use bingo_v.Prelude.{
  ℕ, zero, suc, ◌+◌, ◌-◌, ◌*◌, ◌/◌, ◌%◌, ◌^◌, Bool, true, false, Option, none, some, List, [], ◌∷◌,
  ◌++◌, ltb, ◌==◌, if◌then◌else◌, length,
}
use bingo_v.Bytes.{Bytes, codes, same}

-- The comparisons of char_to_int.
char_value : Bytes → ℕ
unfolding same
char_value chr =
    if same chr (codes "1")
    then 1
    else if same chr (codes "2")
    then 2
    else if same chr (codes "3")
    then 3
    else if same chr (codes "4")
    then 4
    else if same chr (codes "5")
    then 5
    else if same chr (codes "6")
    then 6
    else if same chr (codes "7")
    then 7
    else if same chr (codes "8")
    then 8
    else if same chr (codes "9")
    then 9
    else if same chr (codes "a")
    then 10
    else if same chr (codes "b")
    then 11
    else if same chr (codes "c")
    then 12
    else if same chr (codes "d")
    then 13
    else if same chr (codes "e")
    then 14
    else if same chr (codes "f")
    then 15
    else 0

unfoldable pub char_to_int : (Bytes → Bytes) → Bytes → ℕ
unfolding char_value
char_to_int to_lower chr = char_value (to_lower chr)

-- A digit of %x.
abbrev pub hex_digit : ℕ → ℕ
hex_digit d = if ltb d 10 then 48 + d else 87 + d

-- %02x of a byte.
abbrev pub hex_byte : ℕ → Bytes
hex_byte b = hex_digit (b / 16) ∷ hex_digit (b % 16) ∷ []

-- The loop of stream_to_string.
append_hex : Bytes → Bytes → Bytes
append_hex str [] = str
append_hex str (b ∷ bs) = append_hex (str ++ (hex_byte b ++ (32 ∷ []))) bs

unfoldable pub stream_to_string : (Bytes → Bytes) → Bytes → Bytes
unfolding append_hex
stream_to_string trim p = trim (append_hex [] p)

-- A round of string_to_stream; substr(1, 1) of an empty text throws.
token_value : (Bytes → Bytes) → Bytes → Option ℕ
token_value to_lower [] = none
token_value to_lower (h ∷ []) =
    some ((char_to_int to_lower [] + char_to_int to_lower (h ∷ []) * 16) % 256)
token_value to_lower (h ∷ l ∷ rest) =
    some ((char_to_int to_lower (l ∷ []) + char_to_int to_lower (h ∷ []) * 16) % 256)

values_of : (Bytes → Bytes) → List Bytes → Option Bytes
unfolding token_value
values_of to_lower [] = some []
values_of to_lower (t ∷ ts) = elim (token_value to_lower t) [
  | none ↦ none
  | some v ↦ elim (values_of to_lower ts) [ none ↦ none | some vs ↦ some (v ∷ vs) ]
]

-- string_to_stream(in, out): the bytes that are written to out.
unfoldable pub string_to_stream : (Bytes → Bytes) → (Bytes → List Bytes) → Bytes → Option Bytes
unfolding values_of
string_to_stream to_lower split s = values_of to_lower (split s)

-- The first two bytes of chr_; value is a u16_t.
unfoldable pub short_to_stream : ℕ → Bytes
short_to_stream value = (value % 256) ∷ (value / 256) ∷ []

-- memcpy of two bytes; `none` is a read past the end.
unfoldable pub stream_to_short : Bytes → Option ℕ
stream_to_short (l ∷ h ∷ rest) = some (l + h * 256)
stream_to_short other = none

-- %d of a number of ten digits at most.
digits : ℕ → ℕ → Bytes → Bytes
digits zero n acc = acc
digits (suc f) n acc =
    let rest = digits f (n / 10) ((48 + n % 10) ∷ acc) in
    if ltb n 10 then (48 + n % 10) ∷ acc else rest

unfoldable pub decimal : ℕ → Bytes
unfolding digits
decimal n = digits 10 n []

unfoldable pub int_to_ip : ℕ → Bytes
unfolding decimal
int_to_ip n =
    decimal (n % 256)
    ++ (46
        ∷ (decimal (n / 256 % 256)
            ++ (46 ∷ (decimal (n / 256 / 256 % 256) ++ (46 ∷ decimal (n / 256 / 256 / 256))))))

-- data[i] = lexical_cast<u32_t>(v[i]), a u8_t; the sum is one of int, which data[3] of 128 or more
-- overflows.
ip_value : Option ℕ → Option ℕ → Option ℕ → Option ℕ → Option ℕ
ip_value (some a) (some b) (some c) (some d) =
    let sum = a % 256 + b % 256 * 256 + c % 256 * 256 * 256 + d % 256 * 256 * 256 * 256 in
    if ltb sum (2 ^ 31) then some sum else none
ip_value a b c d = none

ip_of : (Bytes → Option ℕ) → List Bytes → Option ℕ
unfolding ip_value
ip_of to_u32 (a ∷ b ∷ c ∷ d ∷ []) = ip_value (to_u32 a) (to_u32 b) (to_u32 c) (to_u32 d)
ip_of to_u32 other = some 0

-- ip_to_int(s); `none` is bad_lexical_cast or an overflow of int.
unfoldable pub ip_to_int : (Bytes → List Bytes) → (Bytes → Option ℕ) → Bytes → Option ℕ
unfolding ip_of
ip_to_int split to_u32 s = ip_of to_u32 (split s)
