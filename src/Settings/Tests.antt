-- ===== src/Settings/Tests.antt =====
-- Settings read from a small environment.
use Prim.Native.String.{String}
use xsecurelock.Prelude.{ℕ, ◌≡◌, refl, List, [], ◌∷◌, true, Option, some, arith}
use xsecurelock.Prelude.Int.{pos}
use xsecurelock.Settings.{get_int_setting, get_executable_path_setting}
use xsecurelock.Settings.Executable.{Chosen, get_executable_path_setting-Chosen}
use xsecurelock.Settings.Integers.{get_int_setting-overflow, get_int_setting-decimal}
use xsecurelock.AuthProto.Decimal.{decimal, value_from}

-- "./auth_x", whatever the variable
abbrev relative : String → Option (List ℕ)
relative name = some (b'.' ∷ b'/' ∷ b'a' ∷ b'u' ∷ b't' ∷ b'h' ∷ b'_' ∷ b'x' ∷ [])

abbrev forty_two : String → Option (List ℕ)
forty_two name = some (decimal 42)

get_executable_path_setting-Chosen_example :
    Chosen
      (λ path. true)
      true
      (relative "XSECURELOCK_AUTH")
      (b'd' ∷ [])
      (get_executable_path_setting relative (λ path. true) "XSECURELOCK_AUTH" (b'd' ∷ []) true)
get_executable_path_setting-Chosen_example =
    get_executable_path_setting-Chosen relative (λ path. true) "XSECURELOCK_AUTH" (b'd' ∷ []) true

-- 2 ^ 64, which strtol does not read as a `long`
abbrev huge : List ℕ
huge =
    b'1' ∷ b'8' ∷ b'4' ∷ b'4' ∷ b'6' ∷ b'7' ∷ b'4' ∷ b'4' ∷ b'0' ∷ b'7' ∷ b'3' ∷ b'7' ∷ b'0' ∷ b'9'
    ∷ b'5' ∷ b'5' ∷ b'1' ∷ b'6' ∷ b'1' ∷ b'6' ∷ []

get_int_setting-overflow_example :
    get_int_setting (λ name. some huge) "XSECURELOCK_BLANK_TIMEOUT" (pos 600) ≡ pos 600
unfolding value_from
get_int_setting-overflow_example =
    get_int_setting-overflow (λ name. some huge) "XSECURELOCK_BLANK_TIMEOUT" (pos 600) huge refl
      (omega arith) (omega arith) (omega arith)

get_int_setting-decimal_example :
    get_int_setting forty_two "XSECURELOCK_BLANK_TIMEOUT" (pos 600) ≡ pos 42
get_int_setting-decimal_example =
    get_int_setting-decimal forty_two "XSECURELOCK_BLANK_TIMEOUT" (pos 600) 42 refl (omega arith)
