-- ===== src/Bytes.antt =====
-- std::string and blocks of char as lists of bytes.
pub mod Order
use Prim.Native.String
use Prim.Native.String.{String}
use Prim.Native.Char.{code}
use bingo_v.Prelude.{
  ℕ, ◌≡◌, ◌≢◌, refl, Bool, true, false, List, [], ◌∷◌, ◌++◌, ap, arith, ltb, ◌==◌, if◌then◌else◌,
  ◌&&◌, ◌||◌,
}

abbrev pub Bytes : Type 0
Bytes = List ℕ

-- The bytes of an ASCII literal.
abbrev pub codes : String → Bytes
codes String.[] = []
codes (String.◌∷◌ c s) = code c ∷ codes s

-- A string made from the C string at a pointer: up to the first zero byte.
unfoldable pub c_str : Bytes → Bytes
c_str [] = []
c_str (b ∷ bs) = let rest = b ∷ c_str bs in if b == 0 then [] else rest

-- compare(s) == 0
unfoldable pub same : Bytes → Bytes → Bool
same [] [] = true
same [] (c ∷ cs) = false
same (b ∷ bs) [] = false
same (b ∷ bs) (c ∷ cs) = (b == c) && same bs cs

-- operator< of std::string
unfoldable pub before : Bytes → Bytes → Bool
before s [] = false
before [] (c ∷ cs) = true
before (b ∷ bs) (c ∷ cs) = ltb b c || ((b == c) && before bs cs)

pub same-eq : (s t : Bytes) → same s t ≡ true → s ≡ t
unfolding same
same-eq [] [] h = refl
same-eq [] (c ∷ cs) h = cc
same-eq (b ∷ bs) [] h = cc
same-eq (b ∷ bs) (c ∷ cs) h = ground (arith, same-eq bs cs)

pub same_refl : (s : Bytes) → same s s ≡ true
unfolding same
same_refl [] = refl
same_refl (b ∷ bs) = ground (arith, same_refl bs)

-- A string holds no zero byte.
abbrev pub NoZero : Bytes → Type 0
NoZero [] = Unit
NoZero (b ∷ bs) = (b ≢ 0) × NoZero bs

-- A string without a zero byte, with zeros behind it, is read back.
pub c_str-zero : (s rest : Bytes) → NoZero s → c_str (s ++ (0 ∷ rest)) ≡ s
unfolding c_str
c_str-zero [] rest h = refl
c_str-zero (b ∷ bs) rest h = ground (arith, c_str-zero bs rest h.1)

pub c_str-NoZero : (s : Bytes) → NoZero s → c_str s ≡ s
unfolding c_str
c_str-NoZero [] h = refl
c_str-NoZero (b ∷ bs) h = ground (arith, c_str-NoZero bs h.1)

pub NoZero-c_str : (s : Bytes) → NoZero (c_str s)
unfolding c_str
NoZero-c_str [] = tt
NoZero-c_str (b ∷ bs) = ground (arith, NoZero-c_str bs)
