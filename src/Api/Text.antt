-- ===== src/Api/Text.antt =====
-- What internal/api uses of Go's strings and strconv: TrimSpace, HasPrefix and Atoi.
use Prim.Native.Char.{Char, code}
use taskflow.Common.{
  ℕ, ◌+◌, ◌-◌, ◌*◌, ◌^◌, ℤ, pos, negsuc, String, Bool, true, false, ◌||◌, ◌&&◌, ◌==◌, leb,
  if◌then◌else◌, Option, none, some,
}

-- unicode.IsSpace
abbrev pub is_space : ℕ → Bool
is_space c =
    (leb 9 c && leb c 13)
    || c == 32
    || c == 0x85
    || c == 0xa0
    || c == 0x1680
    || (leb 0x2000 c && leb c 0x200a)
    || c == 0x2028
    || c == 0x2029
    || c == 0x202f
    || c == 0x205f
    || c == 0x3000

unfoldable pub trim_left : String → String
trim_left String.[] = String.[]
trim_left (String.◌∷◌ c s) = if is_space (code c) then trim_left s else String.◌∷◌ c s

-- `c` before a text that has been trimmed on the right.
abbrev keep : Char → String → String
keep c String.[] = if is_space (code c) then String.[] else String.◌∷◌ c String.[]
keep c (String.◌∷◌ d s) = String.◌∷◌ c (String.◌∷◌ d s)

unfoldable pub trim_right : String → String
trim_right String.[] = String.[]
trim_right (String.◌∷◌ c s) = keep c (trim_right s)

unfoldable pub trim_space : String → String
unfolding trim_left trim_right
trim_space s = trim_left (trim_right s)

abbrev pub is_empty : String → Bool
is_empty String.[] = true
is_empty (String.◌∷◌ c s) = false

-- `header[len(prefix):]` where the prefix is there.
unfoldable pub after_prefix : String → String → Option String
after_prefix String.[] s = some s
after_prefix (String.◌∷◌ p ps) String.[] = none
after_prefix (String.◌∷◌ p ps) (String.◌∷◌ c s) =
    if code p == code c then after_prefix ps s else none

abbrev is_digit : ℕ → Bool
is_digit c = leb b'0' c && leb c b'9'

unfoldable pub digits : ℕ → String → Option ℕ
digits n String.[] = some n
digits n (String.◌∷◌ c s) = if is_digit (code c) then digits (n * 10 + (code c - b'0')) s else none

abbrev pub max_int : ℕ
max_int = 2 ^ 63 - 1

-- ErrRange below -2^63 and above 2^63 - 1.
abbrev in_range : Bool → Option ℕ → Option ℤ
in_range negative none = none
in_range true (some n) =
    if n == 0 then some (pos 0) else if leb n (2 ^ 63) then some (negsuc (n - 1)) else none
in_range false (some n) = if leb n max_int then some (pos n) else none

-- At least one digit.
abbrev natural : String → Option ℕ
natural String.[] = none
natural (String.◌∷◌ c s) = digits 0 (String.◌∷◌ c s)

unfoldable pub atoi : String → Option ℤ
unfolding digits
atoi String.[] = none
atoi (String.◌∷◌ c s) =
    if code c == b'-'
    then in_range true (natural s)
    else if code c == b'+'
    then in_range false (natural s)
    else in_range false (natural (String.◌∷◌ c s))
