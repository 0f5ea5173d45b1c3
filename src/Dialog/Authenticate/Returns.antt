-- ===== src/Dialog/Authenticate/Returns.antt =====
-- helpers/auth_x11.c: Authenticate returns, and with the dialog's answers sent.
use xsecurelock.Prelude.{
  ℕ, ◌≡◌, refl, ◌<◌, ◌∷◌, Bool, true, List, Option, none, some, if◌then◌else◌, length,
}
use xsecurelock.Prelude.Int.{ℤ, is_zero}
use xsecurelock.AuthProto.Fd.{Reader, Writer, IsStream, IsSink}
use xsecurelock.Sys.Calls.{ForkAnswer, fork_failed, child_pid, closed}
use xsecurelock.Sys.{Env, World, pure}
use xsecurelock.Sys.Spec.{Finishes, bind-Finishes, Ends→Finishes}
use xsecurelock.Process.{Waited, alive, died, wait_proc}
use xsecurelock.Process.Returns.{
  OnItsOwn, OnItsOwn-IsStable, IsReliable, wait_proc-Returns, Over, wait_proc-Over,
}
use xsecurelock.Dialog.Authenticate.{
  Talk, Served, done, prompting, undefined, out_of_fuel, Outcome, returned, stays_prompting,
  is_undefined, aborted, User, serve, on_status, conclude, on_fork, on_second_pipe, on_first_pipe,
  authenticate,
}
use xsecurelock.Dialog.Authenticate.Serves.{EndsPrompts, Serves, serve-Serves}

-- Neither does it wait for ever nor abort.
abbrev pub IsOver : {r : Reader} {w : Writer} → Outcome r w → World → Type 0
IsOver (returned status t) v = Unit {0}
IsOver stays_prompting v = ⊥
IsOver is_undefined v = Unit {0}
IsOver aborted v = ⊥

module _ {r : Reader} {w : Writer} (sink : IsSink w) (stream : IsStream r) (user : User)
    (mblen : List ℕ → ℤ) (prompt_timeout : ℕ) (executable : List ℕ) (e : Env) (patience : ℕ) where
  module _ (ends : EndsPrompts user mblen prompt_timeout)
      (reliable : IsReliable e patience OnItsOwn) (enough : patience < e.fuel) where
    on_status-IsOver :
        (t : Talk r w) (waiting : Waited) (v : World)
        → ((s : ℤ) × (waiting ≡ died s))
        → Finishes IsOver (on_status r w user mblen prompt_timeout e executable t waiting v)
    unfolding on_status
    on_status-IsOver t alive v (s, p) = absurd (cc (p))
    on_status-IsOver t (died s) v p = go (is_zero s) _ _
      where
        go :
            (b : Bool) (o o' : Talk r w)
            → Finishes IsOver ((if b then pure (returned 0 o) else pure (returned 1 o')) v)
        go Bool.true o o' = tt
        go Bool.false o o' = tt

    conclude-IsOver :
        (requestfd responsefd pid : ℕ) (t : Talk r w) (served : Served r w) (u : World)
        → Serves sink t served
        → Finishes IsOver
            (conclude r w user mblen prompt_timeout e executable requestfd responsefd pid served u)
    unfolding conclude
    conclude-IsOver requestfd responsefd pid t₀ (done t) u served =
        let v = record u { trace = closed responsefd ∷ closed requestfd ∷ u.trace } in
        bind-Finishes (λ waiting _. (s : ℤ) × (waiting ≡ died s)) IsOver (wait_proc e pid true v) _
          (Ends→Finishes (Over e true) (Over e true) (λ waiting _. (s : ℤ) × (waiting ≡ died s))
            (wait_proc e pid true v)
            (wait_proc-Returns e patience OnItsOwn-IsStable reliable pid true v (λ b. tt) enough)
            (wait_proc-Over e pid true v) (wait_proc-Over e pid true v) λ waiting x p q. p refl)
          λ waiting x p. on_status-IsOver t waiting x p
    conclude-IsOver requestfd responsefd pid t₀ prompting u served = served
    conclude-IsOver requestfd responsefd pid t₀ undefined u served = tt
    conclude-IsOver requestfd responsefd pid t₀ out_of_fuel u served = served

    module _ (t : Talk r w) (short : length (stream.pending t.requests) < e.fuel) where
      on_fork-IsOver :
          (requestfd responsefd : ℕ × ℕ) (a : ForkAnswer) (u : World)
          → Finishes IsOver
              (on_fork r w user mblen prompt_timeout e executable requestfd responsefd t a u)
      unfolding on_fork
      on_fork-IsOver requestfd responsefd fork_failed u = tt
      on_fork-IsOver requestfd responsefd (child_pid pid) u =
          conclude-IsOver requestfd.0 responsefd.1 pid t
            (serve r w user mblen prompt_timeout e.fuel e.fuel t)
            (record u { trace = closed responsefd.0 ∷ closed requestfd.1 ∷ u.trace })
            (serve-Serves sink user mblen prompt_timeout ends stream e.fuel e.fuel t short short)

      on_second_pipe-IsOver :
          (requestfd : ℕ × ℕ) (responsefd : Option (ℕ × ℕ)) (u : World)
          → Finishes IsOver
              (on_second_pipe r w user mblen prompt_timeout e executable requestfd t responsefd u)
      unfolding on_second_pipe
      on_second_pipe-IsOver requestfd none u = tt
      on_second_pipe-IsOver requestfd (some responsefd) u = on_fork-IsOver requestfd responsefd _ _

      on_first_pipe-IsOver :
          (requestfd : Option (ℕ × ℕ)) (u : World)
          → Finishes IsOver (on_first_pipe r w user mblen prompt_timeout e executable t requestfd u)
      unfolding on_first_pipe
      on_first_pipe-IsOver none u = tt
      on_first_pipe-IsOver (some requestfd) u = on_second_pipe-IsOver requestfd (e.pipe u.trace) _

      -- Authenticate returns a status, if the other program sends less bytes than the fuel and ends
      -- within `patience` wakeups, which is less than the fuel, pipes and waitpid behave as
      -- documented, and every Prompt ends; unless the length in a packet overflows. It never
      -- aborts.
      pub authenticate-IsOver :
          (u : World)
          → Finishes IsOver (authenticate r w user mblen prompt_timeout e executable t u)
      unfolding authenticate
      authenticate-IsOver u = on_first_pipe-IsOver (e.pipe u.trace) _
