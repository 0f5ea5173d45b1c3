-- ===== src/Main/Start/Tests.antt =====
-- Starting the locker with an argument and a notify command.
use Prim.Native.String.{String}
use xsecurelock.Prelude.{ℕ, ◌≡◌, ◌↔◌, ◌⊎◌, refl, true, List, [], ◌∷◌, Option, none, some}
use xsecurelock.Settings.{starts_with}
use xsecurelock.Main.Start.{
  MainSettings, starts, exits, dashes, parse_arguments, load_defaults, prepare, checked,
  check_locking_effectiveness,
}
use xsecurelock.Main.Start.Arguments.{auth, saver, texts, choose_all, parse_arguments-texts}
use xsecurelock.Main.Start.Checks.{
  Starts, IsForced, IsPlainSession, IsPrepared, prepare-IsPrepared, check_locking_effectiveness_iff,
}

abbrev no_env : String → Option (List ℕ)
no_env name = none

abbrev defaults : MainSettings
defaults = load_defaults no_env (λ path. true) (b'a' ∷ []) (b's' ∷ [])

-- A misspelt argument ends the program with status 0.
misspelt :
    prepare no_env (λ path. true) (b'a' ∷ []) (b's' ∷ []) true true ((b'x' ∷ []) ∷ []) ≡ exits 0
unfolding prepare parse_arguments checked starts_with
misspelt = refl

parse_arguments-texts_example :
    parse_arguments (texts (auth (b'x' ∷ []) ∷ saver [] ∷ []) (dashes ∷ (b'y' ∷ []) ∷ [])) defaults
    ≡ starts (record (choose_all defaults (auth (b'x' ∷ []) ∷ saver [] ∷ [])) {
      notify_command = some ((b'y' ∷ []) ∷ []);
    })
parse_arguments-texts_example =
    parse_arguments-texts (auth (b'x' ∷ []) ∷ saver [] ∷ []) ((b'y' ∷ []) ∷ []) defaults

check_locking_effectiveness_iff_example :
    (check_locking_effectiveness no_env ≡ true) ↔ (IsForced no_env ⊎ IsPlainSession no_env)
check_locking_effectiveness_iff_example = check_locking_effectiveness_iff no_env

prepare-IsPrepared_example :
    Starts
      (IsPrepared no_env (λ path. true) (b'a' ∷ []) (b's' ∷ []) [])
      (prepare no_env (λ path. true) (b'a' ∷ []) (b's' ∷ []) true true [])
prepare-IsPrepared_example =
    prepare-IsPrepared no_env (λ path. true) (b'a' ∷ []) (b's' ∷ []) true true []
