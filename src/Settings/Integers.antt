-- ===== src/Settings/Integers.antt =====
-- env_settings.c: a number written in decimal is read as that number, or gives the default if it is too
-- large.
use Prim.Native.String.{String}
use xsecurelock.Prelude.{
  ℕ, ◌^◌, ◌<◌, ◌≤◌, ◌≡◌, ◌≢◌, inl, inr, refl, Bool, true, false, if◌then◌else◌, Option, some, List,
  [], ◌∷◌, arith, Bool-cases,
}
use xsecurelock.Prelude.Int.{ℤ, pos, in_range}
use xsecurelock.AuthProto.Decimal.{decimal, decimal-ne-nil, AllDigits, NoLeadingZero, value_from}
use xsecurelock.Settings.Numbers.Decimal.{parse_integer-decimal, parse_integer-digits}
use xsecurelock.Settings.{
  accept, or_default, strtol, strtoull, get_unsigned_long_long_setting, get_int_setting, number,
}

either : {A : Type 0} (b : Bool) (a : A) → (if b then a else a) ≡ a
either true a = refl
either false a = refl

or_default-some :
    {A : Type 0} (def : A) (f : List ℕ → A) (value : List ℕ)
    → value ≢ []
    → or_default def f (some value) ≡ f value
unfolding or_default
or_default-some def f [] h = absurd (h refl)
or_default-some def f (c ∷ cs) h = refl

strtol-decimal : (n : ℕ) → n < 2 ^ 31 → strtol (decimal n) ≡ number (pos n) []
unfolding strtol
strtol-decimal n h = rw (parse_integer-decimal n (omega arith)) (ground arith)

strtoull-decimal : (n : ℕ) → n < 2 ^ 32 → strtoull (decimal n) ≡ number n []
unfolding strtoull
strtoull-decimal n h = rw (parse_integer-decimal n (omega arith)) (ground arith)

module _ (getenv : String → Option (List ℕ)) where
  -- A setting that holds an `int` that is not negative, printed with "%d", is read as that number.
  pub get_int_setting-decimal :
      (name : String) (def : ℤ) (n : ℕ)
      → getenv name ≡ some (decimal n)
      → n < 2 ^ 31
      → get_int_setting getenv name def ≡ pos n
  unfolding get_int_setting
  get_int_setting-decimal name def n e h =
      rw
        (
          e,
          or_default-some def (λ value. accept def (strtol value)) (decimal n)
              (decimal-ne-nil n (omega arith)),
          strtol-decimal n h,
        )
        (ground arith)

  -- A setting that holds a number in decimal, of any length, that is too large for an `int` gives the
  -- default, whether the number fits into a `long` or strtol reports ERANGE.
  pub get_int_setting-overflow :
      (name : String) (def : ℤ) (ds : List ℕ)
      → getenv name ≡ some ds
      → AllDigits ds
      → NoLeadingZero ds
      → 2 ^ 31 ≤ value_from 0 ds
      → get_int_setting getenv name def ≡ def
  unfolding get_int_setting strtol
  get_int_setting-overflow name def [] e d l h = absurd l
  get_int_setting-overflow name def (c ∷ cs) e d l h =
      elim (Bool-cases (in_range (2 ^ 63) (pos (value_from 0 (c ∷ cs))))) [
        | inl fits ↦
            rw (e, or_default-some def (λ value. accept def (strtol value)) (c ∷ cs) (λ p. cc (p)))
              (rw (parse_integer-digits (c ∷ cs) d l, fits) (ground arith))
        | inr over ↦
            rw (e, or_default-some def (λ value. accept def (strtol value)) (c ∷ cs) (λ p. cc (p)))
              (rw (parse_integer-digits (c ∷ cs) d l, over) (either (in_range (2 ^ 31) def) def))
      ]

  -- A setting that holds a number of 32 bits, printed in decimal, is read as that number.
  pub get_unsigned_long_long_setting-decimal :
      (name : String) (def : ℕ) (n : ℕ)
      → getenv name ≡ some (decimal n)
      → n < 2 ^ 32
      → get_unsigned_long_long_setting getenv name def ≡ n
  unfolding get_unsigned_long_long_setting
  get_unsigned_long_long_setting-decimal name def n e h =
      rw
        (
          e,
          or_default-some def (λ value. accept def (strtoull value)) (decimal n)
              (decimal-ne-nil n (omega arith)),
          strtoull-decimal n h,
        )
        (ground arith)
