-- ===== src/AuthProto/Decimal.antt =====
-- Decimal numbers as authproto.c writes them by snprintf ("%d") and reads them digit by digit.
use native.Mathlib.Nat.{pow-suc}
use xsecurelock.Prelude.{
  ℕ, zero, suc, ◌+◌, ◌-◌, ◌*◌, ◌/◌, ◌%◌, ◌^◌, ◌≤◌, ◌<◌, ◌≡◌, ◌≢◌, refl, ◌&&◌, Option, none, some,
  List, [], ◌∷◌, ◌++◌, arith, ltb, leb, if◌then◌else◌, length, length-append, Bool-cases, inl, inr,
  lt→ltb, ltb→lt,
}

-- The digits of a number below `10 ^ fuel`, most significant first.
decimal_digits : ℕ → ℕ → List ℕ
decimal_digits zero n = []
decimal_digits (suc fuel) n =
    let rest = decimal_digits fuel (n / 10) in
    if ltb n 10 then (b'0' + n) ∷ [] else rest ++ (b'0' + n % 10) ∷ []

-- snprintf's "%d" for an `int` that is not negative: ten digits are enough below `2 ^ 31`.
unfoldable pub decimal : ℕ → List ℕ
unfolding decimal_digits
decimal n = decimal_digits 10 n

-- The ten cases '0' to '9' of the switch in ReadPacket.
abbrev pub digit? : ℕ → Option ℕ
digit? c = if leb b'0' c && leb c b'9' then some (c - b'0') else none

pub digit?-some : (c : ℕ) → b'0' ≤ c → c ≤ b'9' → digit? c ≡ some (c - b'0')
digit?-some c lo hi = ground arith

-- The number that a text of digits stands for, read after `acc`.
unfoldable pub value_from : ℕ → List ℕ → ℕ
value_from acc [] = acc
value_from acc (c ∷ cs) = value_from (acc * 10 + (c - b'0')) cs

abbrev pub AllDigits : List ℕ → Type 0
AllDigits [] = Unit {0}
AllDigits (c ∷ cs) = (b'0' ≤ c) × (c ≤ b'9') × AllDigits cs

pub value_from-append :
    (acc : ℕ) (xs : List ℕ) (c : ℕ)
    → value_from acc (xs ++ c ∷ []) ≡ value_from acc xs * 10 + (c - b'0')
unfolding value_from
value_from-append acc [] c = refl
value_from-append acc (x ∷ xs) c = value_from-append (acc * 10 + (x - b'0')) xs c

pub AllDigits-append :
    (xs : List ℕ) (c : ℕ) → AllDigits xs → b'0' ≤ c → c ≤ b'9' → AllDigits (xs ++ c ∷ [])
AllDigits-append [] c d lo hi = (lo, hi, tt)
AllDigits-append (x ∷ xs) c d lo hi = (d.0, d.1, AllDigits-append xs c d.2 lo hi)

pub value_from-le : (acc : ℕ) (cs : List ℕ) → acc ≤ value_from acc cs
unfolding value_from
value_from-le acc [] = omega arith
value_from-le acc (c ∷ cs) = omega (arith, value_from-le (acc * 10 + (c - b'0')) cs)

-- `ds` is a numeral for `n` of at most `width` digits.
pub record IsNumeral (width n : ℕ) (ds : List ℕ) : Type 0 where
  pub value : value_from 0 ds ≡ n
  pub digits : AllDigits ds
  pub bounded : length ds ≤ width

one_digit-IsNumeral : (width n : ℕ) → n < 10 → IsNumeral (suc width) n ((b'0' + n) ∷ [])
unfolding value_from
one_digit-IsNumeral width n h = record {
  value = omega arith;
  digits = omega arith;
  bounded = omega arith;
}

append-IsNumeral :
    (width n : ℕ) (ds : List ℕ)
    → IsNumeral width (n / 10) ds
    → IsNumeral (suc width) n (ds ++ (b'0' + n % 10) ∷ [])
append-IsNumeral width n ds v = record {
  value = rw (value_from-append 0 ds (b'0' + n % 10), v.value) (omega arith);
  digits = AllDigits-append ds (b'0' + n % 10) v.digits (omega arith) (omega arith);
  bounded = omega (arith, length-append {0} ds ((b'0' + n % 10) ∷ []), v.bounded);
}

decimal_digits-IsNumeral :
    (fuel n : ℕ) → n < 10 ^ suc fuel → IsNumeral (suc fuel) n (decimal_digits (suc fuel) n)
unfolding decimal_digits
decimal_digits-IsNumeral zero n h = rw (lt→ltb n 10 (omega arith)) (one_digit-IsNumeral 0 n h)
decimal_digits-IsNumeral (suc fuel) n h = elim (Bool-cases (ltb n 10)) [
  | inl small ↦ rw small (one_digit-IsNumeral (suc fuel) n (ltb→lt n 10 small))
  | inr large ↦ rw large (
      append-IsNumeral (suc fuel) n (decimal_digits (suc fuel) (n / 10))
        (decimal_digits-IsNumeral fuel (n / 10) (omega (arith, pow-suc 10 (suc fuel)))))
]

-- What snprintf writes is a numeral for its argument.
pub decimal-IsNumeral : (n : ℕ) → n < 10 ^ 10 → IsNumeral 10 n (decimal n)
unfolding decimal
decimal-IsNumeral n h = decimal_digits-IsNumeral 9 n h

-- The first digit is not '0'.
abbrev pub NoLeadingZero : List ℕ → Type 0
NoLeadingZero [] = ⊥
NoLeadingZero (c ∷ cs) = c ≢ b'0'

NoLeadingZero-append : (xs ys : List ℕ) → NoLeadingZero xs → NoLeadingZero (xs ++ ys)
NoLeadingZero-append [] ys h = absurd h
NoLeadingZero-append (x ∷ xs) ys h = h

decimal_digits-NoLeadingZero :
    (fuel n : ℕ) → 0 < n → n < 10 ^ suc fuel → NoLeadingZero (decimal_digits (suc fuel) n)
unfolding decimal_digits
decimal_digits-NoLeadingZero zero n p h = rw (lt→ltb n 10 (omega arith)) (omega arith)
decimal_digits-NoLeadingZero (suc fuel) n p h = elim (Bool-cases (ltb n 10)) [
  | inl small ↦ rw small (omega arith)
  | inr large ↦ rw large (
      NoLeadingZero-append (decimal_digits (suc fuel) (n / 10)) _ (
        decimal_digits-NoLeadingZero fuel (n / 10) (ground arith)
          (omega (arith, pow-suc 10 (suc fuel)))))
]

pub decimal-NoLeadingZero : (n : ℕ) → 0 < n → n < 10 ^ 10 → NoLeadingZero (decimal n)
unfolding decimal
decimal-NoLeadingZero n p h = decimal_digits-NoLeadingZero 9 n p h

decimal-zero-ne-nil : decimal 0 ≢ []
unfolding decimal
decimal-zero-ne-nil e = cc

pub decimal-ne-nil : (n : ℕ) → n < 10 ^ 10 → decimal n ≢ []
decimal-ne-nil zero h e = decimal-zero-ne-nil e
decimal-ne-nil (suc n) h e = rw e at (decimal-NoLeadingZero (suc n) (omega arith) h)
