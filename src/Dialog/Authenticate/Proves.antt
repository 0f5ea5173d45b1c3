-- ===== src/Dialog/Authenticate/Proves.antt =====
-- helpers/auth_x11.c: Authenticate reports success only for a child that has exited with 0.
use mathlib.Core.Path.{subst}
use xsecurelock.Prelude.{
  ℕ, zero, suc, ◌≡◌, refl, ◌∙◌, ap, inl, inr, Bool, true, false, List, ◌∷◌, ◌++◌, Option, none,
  some, if◌then◌else◌,
}
use xsecurelock.Prelude.Int.{ℤ, is_zero, is_zero-pos}
use xsecurelock.AuthProto.Fd.{Reader, Writer}
use xsecurelock.Sys.Calls.{
  Trace, ForkAnswer, fork_failed, child_pid, forked, authproto_child, waited, reported, exited,
  WaitAnswer, closed,
}
use xsecurelock.Sys.{Env, World, pure}
use xsecurelock.Sys.Spec.{Made, Made-append_left, Made-Grows, Ends, bind-Ends}
use xsecurelock.Process.{Waited, alive, died, wait_proc}
use xsecurelock.Process.Spec.{Justified, wait_proc-Justified, step-success}
use xsecurelock.Dialog.Authenticate.{
  Talk, played, sound_success, Served, done, prompting, undefined, out_of_fuel, Outcome, returned,
  stays_prompting, is_undefined, aborted, User, serve, on_status, conclude, on_fork, on_second_pipe,
  on_first_pipe, authenticate,
}

-- A process was started to run the program behind the dialog, and has exited with 0.
abbrev pub ChildSucceeded : List ℕ → Trace → Type 0
ChildSucceeded executable tr =
    (pid stdin stdout : ℕ) × Made (forked (authproto_child executable stdin stdout) (child_pid pid))
      tr
    × Made (waited pid (reported pid (exited 0))) tr

module _ {r : Reader} {w : Writer} (executable : List ℕ) where
  -- If the result is 0, the child has succeeded.
  abbrev pub Proves : Outcome r w → World → Type 0
  Proves (returned zero t) v = ChildSucceeded executable v.trace
  Proves (returned (suc n) t) v = Unit {0}
  Proves stays_prompting v = Unit {0}
  Proves is_undefined v = Unit {0}
  Proves aborted v = Unit {0}

  module _ (user : User) (mblen : List ℕ → ℤ) (prompt_timeout : ℕ) (e : Env) where
    on_status-Proves :
        (t : Talk r w) (pid stdin stdout : ℕ) (waiting : Waited) (u v : World)
        → Made (forked (authproto_child executable stdin stdout) (child_pid pid)) u.trace
        → Justified pid u waiting v
        → Ends Proves (on_status r w user mblen prompt_timeout e executable t waiting v)
    unfolding on_status
    on_status-Proves t pid stdin stdout alive u v made j = tt
    on_status-Proves t pid stdin stdout (died s) u v made (new, p, (a, waits, h)) =
        go (is_zero s) refl
      where
        grown : v.trace ≡ new ++ u.trace
        grown = ap (λ (x : World). x.trace) p

        go :
            (b : Bool)
            → is_zero s ≡ b
            → Ends Proves (
                (if b
                    then pure (returned 0 (record t { log = played sound_success ∷ t.log }))
                    else pure (returned 1 t))
                  v)
        go true z = (
          pid,
          stdin,
          stdout,
          Made-Grows _ u v (new, grown) made,
          rw grown (
              Made-append_left _ new u.trace (
                subst (λ (c : WaitAnswer). Made (waited pid c) new)
                  (step-success pid a (h ∙ ap (λ (x : ℤ). some (died x)) (is_zero-pos s z)))
                  waits)),
        )
        go false z = tt

    conclude-Proves :
        (requestfd responsefd pid stdin stdout : ℕ) (served : Served r w) (u : World)
        → Made (forked (authproto_child executable stdin stdout) (child_pid pid)) u.trace
        → Ends Proves
            (conclude r w user mblen prompt_timeout e executable requestfd responsefd pid served u)
    unfolding conclude
    conclude-Proves requestfd responsefd pid stdin stdout (done t) u made =
        let v = record u { trace = closed responsefd ∷ closed requestfd ∷ u.trace } in
        bind-Ends (Justified pid v) Proves (wait_proc e pid true v) _
          (wait_proc-Justified e pid true v)
          λ waiting x j. on_status-Proves t pid stdin stdout waiting v x (inr (inr made)) j
    conclude-Proves requestfd responsefd pid stdin stdout prompting u made = tt
    conclude-Proves requestfd responsefd pid stdin stdout undefined u made = tt
    conclude-Proves requestfd responsefd pid stdin stdout out_of_fuel u made = tt

    on_fork-Proves :
        (requestfd responsefd : ℕ × ℕ) (t : Talk r w) (a : ForkAnswer) (u : World)
        → ((pid : ℕ)
            → a ≡ child_pid pid
            → Made
                (forked (authproto_child executable responsefd.0 requestfd.1) (child_pid pid))
                u.trace)
        → Ends Proves
            (on_fork r w user mblen prompt_timeout e executable requestfd responsefd t a u)
    unfolding on_fork
    on_fork-Proves requestfd responsefd t fork_failed u made = tt
    on_fork-Proves requestfd responsefd t (child_pid pid) u made =
        conclude-Proves requestfd.0 responsefd.1 pid responsefd.0 requestfd.1
          (serve r w user mblen prompt_timeout e.fuel e.fuel t)
          (record u { trace = closed responsefd.0 ∷ closed requestfd.1 ∷ u.trace })
          (inr (inr (made pid refl)))

    on_second_pipe-Proves :
        (requestfd : ℕ × ℕ) (t : Talk r w) (responsefd : Option (ℕ × ℕ)) (u : World)
        → Ends Proves
            (on_second_pipe r w user mblen prompt_timeout e executable requestfd t responsefd u)
    unfolding on_second_pipe
    on_second_pipe-Proves requestfd t none u = tt
    on_second_pipe-Proves requestfd t (some responsefd) u =
        go (e.fork u.trace (authproto_child executable responsefd.0 requestfd.1))
      where
        go :
            (a : ForkAnswer)
            → Ends Proves (
                on_fork r w user mblen prompt_timeout e executable requestfd responsefd t a
                  (record u {
                    trace =
                        forked (authproto_child executable responsefd.0 requestfd.1) a ∷ u.trace;
                  }))
        go a = on_fork-Proves requestfd responsefd t a _ (λ pid p. inl (rw p refl))

    on_first_pipe-Proves :
        (t : Talk r w) (requestfd : Option (ℕ × ℕ)) (u : World)
        → Ends Proves (on_first_pipe r w user mblen prompt_timeout e executable t requestfd u)
    unfolding on_first_pipe
    on_first_pipe-Proves t none u = tt
    on_first_pipe-Proves t (some requestfd) u = on_second_pipe-Proves requestfd t (e.pipe u.trace) _

    -- If Authenticate reports success, it has started a process that runs the given program, and
    -- waitpid has said of that process that it exited with 0; whatever the packets say.
    pub authenticate-Proves :
        (t : Talk r w) (u : World)
        → Ends Proves (authenticate r w user mblen prompt_timeout e executable t u)
    unfolding authenticate
    authenticate-Proves t u = on_first_pipe-Proves t (e.pipe u.trace) _
