-- ===== src/AuthChild/Exits.antt =====
-- auth_child.c: an authentication child that has exited with 0 counts as success.
use mathlib.Core.Path.{subst}
use xsecurelock.Prelude.{ℕ, ◌<◌, ◌≡◌, refl, sym, List, Bool, true, false, Option, ◌==◌}
use xsecurelock.Prelude.Int.{pos}
use xsecurelock.Sys.{Env, World}
use xsecurelock.Sys.Spec.{Finishes, bind-Finishes}
use xsecurelock.Process.{Waited, died, wait_pgrp}
use xsecurelock.Process.Exits.{Exits, wait_pgrp-Succeeds}
use xsecurelock.AuthChild.{want_auth_child, reaped, reap_auth_child, watch_rest, watch_auth_child}

module _ (e : Env) where
  reap_auth_child-true :
      (w : World)
      → (w.auth_child_pid == 0) ≡ false
      → Exits e w.auth_child_pid
      → 0 < e.fuel
      → Finishes (λ r _. r ≡ true) (reap_auth_child e w)
  unfolding reap_auth_child reaped
  reap_auth_child-true w nz h enough =
      rw (nz, Finishes)
        (bind-Finishes (λ r _. r ≡ died (pos 0)) (λ r _. r ≡ true)
          (wait_pgrp e w.auth_child_pid false false w) (reaped e)
          (wait_pgrp-Succeeds e w.auth_child_pid false false w h enough)
          λ r v p. subst (λ (o : Waited). Finishes (λ r _. r ≡ true) (reaped e o v)) (sym p) refl)

  pub watch_auth_child-true :
      (window : ℕ) (executable : List ℕ) (force_auth : Bool) (stdinbuf : Option (List ℕ))
      (w : World)
      → (w.auth_child_pid == 0) ≡ false
      → Exits e w.auth_child_pid
      → 0 < e.fuel
      → Finishes
          (λ r _. r ≡ (true, false))
          (watch_auth_child e window executable force_auth stdinbuf w)
  unfolding watch_auth_child watch_rest
  watch_auth_child-true window executable force_auth stdinbuf w nz h enough =
      bind-Finishes (λ r _. r ≡ true) (λ r _. r ≡ (true, false)) (reap_auth_child e w)
        (watch_rest e window executable force_auth stdinbuf) (reap_auth_child-true w nz h enough)
        λ ok v p.
          subst
            (λ (b : Bool).
              Finishes (λ r _. r ≡ (true, false))
                (watch_rest e window executable force_auth stdinbuf b v))
            (sym p) refl

  pub want_auth_child-true :
      (force_auth : Bool) (w : World)
      → (w.auth_child_pid == 0) ≡ false
      → Finishes (λ r v. (r ≡ true) × (v ≡ w)) (want_auth_child e force_auth w)
  unfolding want_auth_child
  want_auth_child-true true w nz = (refl, refl)
  want_auth_child-true false w nz = (rw nz, refl)
