-- ===== src/Settings.antt =====
-- env_settings.c: settings from environment variables. A text is the list of its bytes without the
-- NUL; `getenv` and `access` are parameters. strtol and strtoull are those of the C standard with
-- base 0, for a `long` of 64 bits. Log lines are left out, and so is GetDoubleSetting, which nothing
-- calls and which needs floating point.
pub mod Numbers
pub mod Executable
pub mod Integers
mod Tests
use xsecurelock.Prelude.{
  ℕ, ◌-◌, ◌^◌, ◌%◌, Bool, true, false, not, ◌&&◌, ◌||◌, Option, none, some, List, [], ◌∷◌, ltb,
  ◌==◌, if◌then◌else◌,
}
use Prim.Native.String.{String}
use xsecurelock.Prelude.Int.{ℤ, pos, in_range, neg_ℕ}
use Numbers.{parse_integer}

-- What strtol and strtoull report: errno is ERANGE, or a number and the text behind it.
pub data Strto (A : Type 0) : Type 0 where
  out_of_range : Strto A
  number : A → List ℕ → Strto A

pub strtol : List ℕ → Strto ℤ
strtol text =
    let p = parse_integer text in
    let n = if p.negative then neg_ℕ p.magnitude else pos p.magnitude in
    if in_range (2 ^ 63) n then number n p.rest else out_of_range

-- A minus sign negates the number in `unsigned long long`.
pub strtoull : List ℕ → Strto ℕ
strtoull text =
    let p = parse_integer text in
    if ltb p.magnitude (2 ^ 64)
    then number (if p.negative then (2 ^ 64 - p.magnitude) % 2 ^ 64 else p.magnitude) p.rest
    else out_of_range

-- The checks that follow strtol or strtoull, with the default.
accept : {A : Type 0} → A → Strto A → A
accept def out_of_range = def
accept def (number n []) = n
accept def (number n (c ∷ rest)) = def

-- A value that is not set, or empty, gives the default.
or_default : {A : Type 0} → A → (List ℕ → A) → Option (List ℕ) → A
or_default def f none = def
or_default def f (some []) = def
or_default def f (some (c ∷ value)) = f (c ∷ value)

module _ (getenv : String → Option (List ℕ)) where
  pub get_unsigned_long_long_setting : String → ℕ → ℕ
  unfolding or_default accept strtoull
  get_unsigned_long_long_setting name def =
      or_default def (λ value. accept def (strtoull value)) (getenv name)

  unfoldable pub get_long_setting : String → ℤ → ℤ
  unfolding or_default accept strtol
  get_long_setting name def = or_default def (λ value. accept def (strtol value)) (getenv name)

  -- `lnumber != (long)number`: the number does not fit an `int` of 32 bits.
  unfoldable pub get_int_setting : String → ℤ → ℤ
  unfolding get_long_setting
  get_int_setting name def =
      let lnumber = get_long_setting name def in if in_range (2 ^ 31) lnumber then lnumber else def

  unfoldable pub get_string_setting : String → List ℕ → List ℕ
  unfolding or_default
  get_string_setting name def = or_default def (λ value. value) (getenv name)

abbrev pub slash : ℕ
slash = b'/'

pub has_slash : List ℕ → Bool
has_slash [] = false
has_slash (c ∷ cs) = c == slash || has_slash cs

-- What stands behind the last slash, or the whole text if it has none.
pub basename : List ℕ → List ℕ
unfolding has_slash
basename [] = []
basename (c ∷ cs) =
    let rest = basename cs in if has_slash cs then rest else if c == slash then cs else c ∷ cs

unfoldable pub starts_with : List ℕ → List ℕ → Bool
starts_with [] text = true
starts_with (c ∷ cs) [] = false
starts_with (c ∷ cs) (d ∷ text) = c == d && starts_with cs text

abbrev pub auth_ : List ℕ
auth_ = b'a' ∷ b'u' ∷ b't' ∷ b'h' ∷ b'_' ∷ []

-- The strncmp that goes with `is_auth`.
abbrev pub is_misnamed : Bool → List ℕ → Bool
is_misnamed is_auth base = if is_auth then not (starts_with auth_ base) else starts_with auth_ base

module _ (getenv : String → Option (List ℕ)) (executable : List ℕ → Bool) where
  -- The checks on a value that is not empty.
  check_executable : Bool → List ℕ → List ℕ → List ℕ
  check_executable is_auth def value =
      if has_slash value && not (starts_with (slash ∷ []) value)
      then def
      else if is_misnamed is_auth (basename value)
      then def
      else if not (executable value)
      then def
      else value

  pub get_executable_path_setting : String → List ℕ → Bool → List ℕ
  unfolding or_default check_executable
  get_executable_path_setting name def is_auth =
      or_default def (check_executable is_auth def) (getenv name)
