-- ===== src/Dialog/Authenticate/Tests.antt =====
-- The dialog with a program that asks for a password, and exits with 0.
use xsecurelock.Prelude.{ℕ, refl, List, [], ◌∷◌, some, arith}
use xsecurelock.Prelude.Int.{ℤ, pos}
use xsecurelock.AuthProto.Decimal.{decimal}
use xsecurelock.AuthProto.Write.{packet}
use xsecurelock.AuthProto.Tests.{pipe_out, pipe_stream, pipe_in, pipe_sink}
use xsecurelock.Sys.Spec.{Ends, Finishes}
use xsecurelock.Process.Tests.{success, success-IsReliable, world}
use xsecurelock.Dialog.{ready, prompt, rounds, round, read_byte, on_byte}
use xsecurelock.Dialog.Authenticate.{Talk, User, authenticate, serve}
use xsecurelock.Dialog.Authenticate.Serves.{EndsPrompts, Serves, serve-Serves}
use xsecurelock.Dialog.Authenticate.Proves.{Proves, authenticate-Proves}
use xsecurelock.Dialog.Authenticate.Returns.{IsOver, authenticate-IsOver}

abbrev bytewise : List ℕ → ℤ
bytewise bs = pos 1

-- The user types "a" and Return.
abbrev user : User
user = record { now = λ log. 5; inputs = λ log. ready 5 (some b'a') ∷ ready 6 (some 0x0A) ∷ [] }

user-EndsPrompts : EndsPrompts user bytewise 30
unfolding prompt rounds round read_byte on_byte
user-EndsPrompts log = (some (b'a' ∷ []), refl)

abbrev talk : Talk pipe_out pipe_in
talk = record { log = []; requests = packet b'P' (b'?' ∷ []); responses = [] }

serve-Serves_example : Serves pipe_sink talk (serve pipe_out pipe_in user bytewise 30 20 20 talk)
unfolding decimal
serve-Serves_example =
    serve-Serves pipe_sink user bytewise 30 user-EndsPrompts pipe_stream 20 20 talk (omega arith)
      (omega arith)

authenticate-Proves_example :
    Ends
      (Proves (b'p' ∷ []))
      (authenticate pipe_out pipe_in user bytewise 30 success (b'p' ∷ []) talk world)
authenticate-Proves_example = authenticate-Proves (b'p' ∷ []) user bytewise 30 success talk world

authenticate-IsOver_example :
    Finishes IsOver (authenticate pipe_out pipe_in user bytewise 30 success (b'p' ∷ []) talk world)
unfolding decimal
authenticate-IsOver_example =
    authenticate-IsOver pipe_sink pipe_stream user bytewise 30 (b'p' ∷ []) success 0
      user-EndsPrompts success-IsReliable (omega arith) talk (omega arith) world
