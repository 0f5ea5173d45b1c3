-- ===== src/Main/Start/Arguments.antt =====
-- main.c: ParseArgumentsOrExit.
use xsecurelock.Prelude.{ℕ, ◌≡◌, refl, List, [], ◌∷◌, ◌++◌, some}
use xsecurelock.Settings.{starts_with, auth_}
use xsecurelock.Main.Start.{MainSettings, starts, saver_, dashes, parse_arguments}

-- An argument that chooses a program.
pub data Choice : Type 0 where
  auth saver : (rest : List ℕ) → Choice

abbrev pub text : Choice → List ℕ
text (auth rest) = auth_ ++ rest
text (saver rest) = saver_ ++ rest

abbrev pub texts : List Choice → List (List ℕ) → List (List ℕ)
texts [] more = more
texts (c ∷ cs) more = text c ∷ texts cs more

-- The settings behind some such arguments: the last of a kind counts.
abbrev pub choose : MainSettings → Choice → MainSettings
choose s (auth rest) = record s { auth_executable = some (auth_ ++ rest) }
choose s (saver rest) = record s { saver_executable = some (saver_ ++ rest) }

abbrev pub choose_all : MainSettings → List Choice → MainSettings
choose_all s [] = s
choose_all s (c ∷ cs) = choose_all (choose s c) cs

-- ParseArgumentsOrExit takes any number of arguments that choose programs, in their order, and what
-- follows the first `--` becomes the notify command, whatever it is.
pub parse_arguments-texts :
    (choices : List Choice) (command : List (List ℕ)) (s : MainSettings)
    → parse_arguments (texts choices (dashes ∷ command)) s
      ≡ starts (record (choose_all s choices) { notify_command = some command })
unfolding parse_arguments starts_with
parse_arguments-texts [] command s = refl
parse_arguments-texts (auth rest ∷ cs) command s =
    parse_arguments-texts cs command (choose s (auth rest))
parse_arguments-texts (saver rest ∷ cs) command s =
    parse_arguments-texts cs command (choose s (saver rest))
