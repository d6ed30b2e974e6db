-- ===== src/Base/Text.antt =====
-- Texts as Python reads them: `len`, `int(s)`, `int(s, 16)`, `bytes.fromhex` and hexadecimal digits, over the
-- code points of a text. White space and digits beyond ASCII, and the limit on the digits of a number, are
-- not modelled.
pub mod Digits
pub mod Numerals
use Prim.Native.Nat.{ℕ, zero, suc, ◌+◌, ◌-◌, ◌*◌, ◌/◌, ◌%◌}
use Prim.Native.String
use Prim.Native.Char.{code}
use Prim.Native.String.{String}
use mathlib.Core.Path.{◌≡◌, refl}
use mathlib.Core.Bool.{Bool, true, false, ◌&&◌, ◌||◌}
use mathlib.Core.Option
use mathlib.Core.Option.{Option, none, some}
use mathlib.Core.List.{List, [], ◌∷◌, reverse}
use mini_chain.Base.Lists.{get_or}
use mini_chain.Base.Tests.{leb, ltb, ◌==◌, if◌then◌else◌}
use mini_chain.Base.Int.{ℤ, pos, ◌-ℤ◌}

-- The code points of a text. `String` has its own `[]` and `∷`.
abbrev pub codes : String → List ℕ
codes String.[] = []
codes (String.◌∷◌ c s) = code c ∷ codes s

unfoldable pub hex_digit : ℕ → Option ℕ
hex_digit c =
    if leb b'0' c && leb c b'9'
    then some (c - b'0')
    else if leb b'a' c && leb c b'f'
    then some (c - 87)
    else if leb b'A' c && leb c b'F'
    then some (c - 55)
    else none

is_space : ℕ → Bool
is_space c = (leb 9 c && leb c 13) || (leb 28 c && leb c 32)

skip_spaces : List ℕ → List ℕ
unfolding is_space
skip_spaces [] = []
skip_spaces (c ∷ s) = let rest = skip_spaces s in if is_space c then rest else c ∷ s

unfoldable pub decimal_digit : ℕ → Option ℕ
decimal_digit c = if leb b'0' c && leb c b'9' then some (c - b'0') else none

-- Digits with single underscores between them; `after` tells whether a digit went before.
pub digits_from : (ℕ → Option ℕ) → ℕ → Bool → ℕ → List ℕ → Option ℕ
digits_from digit base after acc [] = if after then some acc else none
digits_from digit base after acc (c ∷ s) = elim (digit c) [
  | some d ↦ digits_from digit base true (acc * base + d) s
  | none ↦ elim (after && c == b'_') [ true ↦ digits_from digit base false acc s | false ↦ none ]
]

-- The underscore that may stand behind the prefix.
skip_underscore : List ℕ → List ℕ
skip_underscore [] = []
skip_underscore (c ∷ s) = if c == b'_' then s else c ∷ s

magnitude : List ℕ → Option ℕ
magnitude (a ∷ b ∷ s) =
    if a == b'0' && (b == b'x' || b == b'X')
    then digits_from hex_digit 16 false 0 (skip_underscore s)
    else digits_from hex_digit 16 false 0 (a ∷ b ∷ s)
magnitude s = digits_from hex_digit 16 false 0 s

signed : (List ℕ → Option ℕ) → List ℕ → Option ℤ
signed read [] = none
signed read (c ∷ s) =
    if c == b'-'
    then Option.map (λ n. pos 0 -ℤ pos n) (read s)
    else if c == b'+'
    then Option.map pos (read s)
    else Option.map pos (read (c ∷ s))

-- `s.strip()`
stripped : String → List ℕ
stripped s = reverse (skip_spaces (reverse (skip_spaces (codes s))))

-- `int(s, 16)`, `none` where it raises `ValueError`.
unfoldable pub int16 : String → Option ℤ
unfolding hex_digit is_space skip_spaces digits_from skip_underscore magnitude signed stripped ◌-ℤ◌
int16 s = signed magnitude (stripped s)

-- `int(s)`, `none` where it raises `ValueError`.
unfoldable pub int10 : String → Option ℤ
unfolding decimal_digit is_space skip_spaces digits_from signed stripped ◌-ℤ◌
int10 s = signed (digits_from decimal_digit 10 false 0) (stripped s)

-- `bytes.fromhex`, `none` where it raises `ValueError`: pairs of digits, with spaces between pairs.
from_hex_codes : List ℕ → Option (List ℕ)
from_hex_codes [] = some []
from_hex_codes (a ∷ []) = if is_space a then some [] else none
from_hex_codes (a ∷ b ∷ s) = elim (is_space a) [
  | true ↦ from_hex_codes (b ∷ s)
  | false ↦ elim (hex_digit a) [
    | none ↦ none
    | some x ↦ elim (hex_digit b) [
      | none ↦ none
      | some y ↦ Option.map (λ r. (x * 16 + y) ∷ r) (from_hex_codes s)
    ]
  ]
]

unfoldable pub from_hex : String → Option (List ℕ)
unfolding hex_digit is_space from_hex_codes
from_hex s = from_hex_codes (codes s)

int16_prefix : int16 " -0x_1F " ≡ some (pos 0 -ℤ pos 31)
unfolding int16 ◌-ℤ◌
int16_prefix = refl

int16_double_underscore : int16 "1__2" ≡ none
unfolding int16
int16_double_underscore = refl

int10_signed : int10 " -1_20" ≡ some (pos 0 -ℤ pos 120)
unfolding int10 ◌-ℤ◌
int10_signed = refl

from_hex_spaces : from_hex "0a ff" ≡ some (10 ∷ 255 ∷ [])
unfolding from_hex
from_hex_spaces = refl

digit_text : ℕ → String
digit_text n = get_or ("0" ∷ "1" ∷ "2" ∷ "3" ∷ "4" ∷ "5" ∷ "6" ∷ "7" ∷ "8" ∷ "9" ∷ []) n ""

-- The digits of a number in a base, on fuel above it.
pub written : (ℕ → String) → ℕ → ℕ → ℕ → String
written text base zero n = ""
written text base (suc f) n = elim (ltb n base) [
  | true ↦ text n
  | false ↦ String.◌++◌ (written text base f (n / base)) (text (n % base))
]

-- `str(n)`
unfoldable pub decimal : ℕ → String
unfolding digit_text written
decimal n = written digit_text 10 (suc n) n

hex_text : ℕ → String
hex_text n =
    get_or
      ("0" ∷ "1" ∷ "2" ∷ "3" ∷ "4" ∷ "5" ∷ "6" ∷ "7" ∷ "8" ∷ "9" ∷ "a" ∷ "b" ∷ "c" ∷ "d" ∷ "e" ∷ "f"
        ∷ [])
      n ""

-- `hex(n)`
unfoldable pub hex : ℕ → String
unfolding hex_text written
hex n = String.◌++◌ "0x" (written hex_text 16 (suc n) n)

hex_255 : hex 255 ≡ "0xff"
unfolding hex
hex_255 = refl

decimal_120 : decimal 120 ≡ "120"
unfolding decimal
decimal_120 = refl
