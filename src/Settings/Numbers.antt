-- ===== src/Settings/Numbers.antt =====
-- The integers that strtol and strtoull of the C library read with base 0, which env_settings.c
-- uses: white space, a sign, and then decimal, octal (0…) or hexadecimal (0x…) digits.
pub mod Decimal
use xsecurelock.Prelude.{
  ℕ, ◌+◌, ◌-◌, ◌*◌, Bool, true, false, ◌&&◌, ◌||◌, Option, none, some, List, [], ◌∷◌, ltb, leb,
  ◌==◌, if◌then◌else◌,
}

pub record Parsed : Type 0 where
  pub negative : Bool
  pub magnitude : ℕ
  pub rest : List ℕ

is_space : ℕ → Bool
is_space c = c == b' ' || (leb 9 c && leb c 13)

skip_space : List ℕ → List ℕ
unfolding is_space
skip_space [] = []
skip_space (c ∷ cs) = if is_space c then skip_space cs else c ∷ cs

-- The value of a character as a digit of the base.
digit_of : ℕ → ℕ → Option ℕ
digit_of base c =
    let d =
      if leb b'0' c && leb c b'9'
      then c - b'0'
      else if leb b'a' c && leb c b'z'
      then c - b'a' + 10
      else if leb b'A' c && leb c b'Z'
      then c - b'A' + 10
      else 36 in
    if ltb d base then some d else none

-- Digits to the first character that is none.
digits_from : ℕ → ℕ → List ℕ → ℕ × List ℕ
digits_from base acc [] = (acc, [])
digits_from base acc (c ∷ cs) = elim (digit_of base c) [
  | none ↦ (acc, c ∷ cs)
  | some d ↦ digits_from base (acc * base + d) cs
]

is_digit_of : ℕ → List ℕ → Bool
is_digit_of base [] = false
is_digit_of base (c ∷ cs) = elim (digit_of base c) [ none ↦ false | some d ↦ true ]

-- The base that the prefix chooses, and the text behind the prefix; "0x" alone is the number 0
-- before an "x".
base_of : List ℕ → ℕ × List ℕ
base_of (c ∷ x ∷ cs) =
    if c == b'0'
    then (if (x == b'x' || x == b'X') && is_digit_of 16 cs then (16, cs) else (8, c ∷ x ∷ cs))
    else (10, c ∷ x ∷ cs)
base_of cs = (10, cs)

sign_of : List ℕ → Bool × List ℕ
sign_of [] = (false, [])
sign_of (c ∷ cs) =
    if c == b'-' then (true, cs) else if c == b'+' then (false, cs) else (false, c ∷ cs)

-- With no digit the text is left as it is, and the number is 0.
unfoldable pub parse_integer : List ℕ → Parsed
unfolding skip_space sign_of base_of digits_from is_digit_of digit_of
parse_integer text =
    let signed = sign_of (skip_space text) in
    let based = base_of signed.1 in
    let result = digits_from based.0 0 based.1 in
    if is_digit_of based.0 based.1
    then record { negative = signed.0; magnitude = result.0; rest = result.1 }
    else record { negative = false; magnitude = 0; rest = text }
