-- ===== src/Settings/Numbers/Decimal.antt =====
-- strtol of the C library, as env_settings.c uses it, reads what snprintf's "%d" writes.
use xsecurelock.Prelude.{
  ℕ, zero, suc, ◌+◌, ◌-◌, ◌*◌, ◌^◌, ◌≤◌, ◌<◌, ◌≡◌, ◌≢◌, refl, true, false, some, List, [], ◌∷◌,
  arith,
}
use xsecurelock.AuthProto.Decimal.{
  decimal, decimal-IsNumeral, decimal-NoLeadingZero, NoLeadingZero, value_from, AllDigits,
}
use xsecurelock.Settings.Numbers.{
  parse_integer, digit_of, digits_from, is_digit_of, skip_space, sign_of, base_of,
}

digit_of-ten : (c : ℕ) → b'0' ≤ c → c ≤ b'9' → digit_of 10 c ≡ some (c - b'0')
unfolding digit_of
digit_of-ten c lo hi = ground arith

digits_from-value :
    (acc : ℕ) (ds : List ℕ) → AllDigits ds → digits_from 10 acc ds ≡ (value_from acc ds, [])
unfolding digits_from value_from
digits_from-value acc [] d = refl
digits_from-value acc (c ∷ ds) d =
    rw (digit_of-ten c d.0 d.1, digits_from) (digits_from-value (acc * 10 + (c - b'0')) ds d.2)

skip_space-digit : (c : ℕ) (cs : List ℕ) → b'0' ≤ c → skip_space (c ∷ cs) ≡ c ∷ cs
unfolding skip_space
skip_space-digit c cs h = ground arith

sign_of-digit : (c : ℕ) (cs : List ℕ) → b'0' ≤ c → sign_of (c ∷ cs) ≡ (false, c ∷ cs)
unfolding sign_of
sign_of-digit c cs h = ground arith

base_of-digit : (c : ℕ) (cs : List ℕ) → c ≢ b'0' → base_of (c ∷ cs) ≡ (10, c ∷ cs)
unfolding base_of
base_of-digit c [] h = refl
base_of-digit c (x ∷ cs) h = ground arith

is_digit_of-ten : (c : ℕ) (cs : List ℕ) → b'0' ≤ c → c ≤ b'9' → is_digit_of 10 (c ∷ cs) ≡ true
unfolding is_digit_of
is_digit_of-ten c cs lo hi = rw (digit_of-ten c lo hi, is_digit_of)

pub parse_integer-digits :
    (ds : List ℕ)
    → AllDigits ds
    → NoLeadingZero ds
    → parse_integer ds ≡ record { negative = false; magnitude = value_from 0 ds; rest = [] }
unfolding parse_integer
parse_integer-digits [] d h = absurd h
parse_integer-digits (c ∷ cs) d h = rw (
  skip_space-digit c cs d.0,
  sign_of-digit c cs d.0,
  base_of-digit c cs h,
  is_digit_of-ten c cs d.0 d.1,
  digits_from-value 0 (c ∷ cs) d,
)

parse_integer-zero :
    parse_integer (decimal 0) ≡ record { negative = false; magnitude = 0; rest = [] }
unfolding parse_integer decimal
parse_integer-zero = refl

pub parse_integer-decimal :
    (n : ℕ)
    → n < 10 ^ 10
    → parse_integer (decimal n) ≡ record { negative = false; magnitude = n; rest = [] }
parse_integer-decimal zero h = parse_integer-zero
parse_integer-decimal (suc n) h =
    let v = decimal-IsNumeral (suc n) h in
    rw v.value at (
      parse_integer-digits (decimal (suc n)) v.digits
        (decimal-NoLeadingZero (suc n) (omega arith) h))
