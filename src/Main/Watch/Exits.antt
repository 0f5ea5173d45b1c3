-- ===== src/Main/Watch/Exits.antt =====
-- main.c: WatchChildren tells the program to exit when the authentication child has exited with 0.
use mathlib.Core.Path.{subst}
use xsecurelock.Prelude.{ℕ, ◌<◌, ◌≡◌, refl, sym, List, Bool, true, false, Option, ◌==◌}
use xsecurelock.Prelude.Int.{pos}
use xsecurelock.Sys.{Env, World}
use xsecurelock.Sys.Spec.{Finishes, bind-Finishes}
use xsecurelock.Process.Closed.{IsClosed, IsTotal}
use xsecurelock.Process.Exits.{Exits}
use xsecurelock.AuthChild.{want_auth_child, watch_auth_child}
use xsecurelock.AuthChild.Exits.{watch_auth_child-true, want_auth_child-true}
use xsecurelock.SaverChild.{watch_saver_child}
use xsecurelock.SaverChild.Closed.{watch_saver_child-Closed}
use xsecurelock.Main.Watch.{WatchChildrenState, Settings, after_auth, watch_children, is_force_auth}

module _ {e : Env} (c : IsClosed e (λ A m. IsTotal m)) (s : Settings) where
  open s use {auth_executable, saver_executable, auth_win, saver_win}

  after_auth-true :
      (state : WatchChildrenState) (running : Bool) (w : World)
      → Finishes (λ r _. r ≡ true) (after_auth e s state (true, running) w)
  unfolding after_auth
  after_auth-true state running w =
      bind-Finishes (λ _ _. Unit {0}) (λ r _. r ≡ true)
        (watch_saver_child e saver_win (pos 0) saver_executable false w) _
        ((watch_saver_child-Closed c saver_win (pos 0) saver_executable false).ends w) λ _ _ _. refl

  pub watch_children-true :
      (state : WatchChildrenState) (stdinbuf : Option (List ℕ)) (w : World)
      → (w.auth_child_pid == 0) ≡ false
      → Exits e w.auth_child_pid
      → 0 < e.fuel
      → Finishes (λ r _. r ≡ true) (watch_children e s state stdinbuf w)
  unfolding watch_children
  watch_children-true state stdinbuf w nz h enough =
      bind-Finishes (λ r v. (r ≡ true) × (v ≡ w)) (λ r _. r ≡ true)
        (want_auth_child e (is_force_auth state) w) _
        (want_auth_child-true e (is_force_auth state) w nz)
        λ want v (p, q).
          rw (p, q, Finishes)
            (bind-Finishes (λ r _. r ≡ (true, false)) (λ r _. r ≡ true)
              (watch_auth_child e auth_win auth_executable (is_force_auth state) stdinbuf w)
              (after_auth e s state)
              (watch_auth_child-true e auth_win auth_executable (is_force_auth state) stdinbuf w nz
                h enough)
              λ r u same.
                subst (λ (o : Bool × Bool). Finishes (λ r _. r ≡ true) (after_auth e s state o u))
                  (sym same) (after_auth-true state false u))
