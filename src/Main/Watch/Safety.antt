-- ===== src/Main/Watch/Safety.antt =====
-- main.c: WatchChildren and WakeUp tell the program to exit only after a successful authentication.
use mathlib.Core.Path.{subst}
use xsecurelock.Prelude.{sym, ℕ, ◌≡◌, refl, List, Bool, true, false, not, Option, if◌then◌else◌}
use xsecurelock.Prelude.Int.{pos}
use xsecurelock.Sys.{Env, World, M, pure, ◌>>=◌}
use xsecurelock.Process.Closed.{Keeps-IsClosed}
use xsecurelock.Sys.Spec.{
  Grows-refl, Grows-trans, Ends, bind-Ends, Ends-both, bind-Ends_any, IsPreorder, Stays, Stays-pure,
  Stays-then, Stays-if,
}
use xsecurelock.Sys.Keeps.{Keeps, Keeps-IsPreorder}
use xsecurelock.AuthChild.{want_auth_child, watch_auth_child}
use xsecurelock.AuthChild.Safety.{
  IsOurs, Authenticated-Grows, Proves, watch_auth_child-Proves, Keeps-IsOurs, want_auth_child-same,
}
use xsecurelock.SaverChild.{watch_saver_child}
use xsecurelock.SaverChild.Closed.{watch_saver_child-Closed}
use xsecurelock.Main.Blank.{unblank_screen, maybe_blank_screen}
use xsecurelock.Main.Watch.Closed.{auth_closed-Closed, show_saver-Closed}
use xsecurelock.Main.Watch.{
  WatchChildrenState, Settings, auth_closed, show_saver, after_auth, watch_children, wake_up,
  is_saver_disabled, is_force_auth, force_auth,
}

module _ (e : Env) (s : Settings) where
  open s use {
    auth_executable, saver_executable, saver_reset_on_auth_close, blank, auth_win, saver_win,
  }

  abbrev O : IsPreorder Keeps
  O = Keeps-IsPreorder

  -- The invariant and the promise for the program's own windows and programs.
  abbrev pub OurChild : World → Type 0
  OurChild = IsOurs auth_win auth_executable

  abbrev pub Unlocks : World → Bool → World → Type 0
  Unlocks = Proves auth_win auth_executable

  show_saver-result :
      (state : WatchChildrenState) (running : Bool) (w : World)
      → Ends (λ r _. r ≡ false) (show_saver e s state running w)
  unfolding show_saver
  show_saver-result state running w =
      bind-Ends_any _
        (watch_saver_child e saver_win (pos 0) saver_executable (not (is_saver_disabled state)) w) _
        λ _ v.
          bind-Ends_any _
            ((if running then unblank_screen e blank else maybe_blank_screen e blank) v) _
            λ _ u. refl

  -- Code that leaves the child alone, and whose result is false.
  no_news :
      (w v : World) (m : M Bool)
      → Unlocks w false v
      → Stays Keeps m
      → Ends (λ r _. r ≡ false) (m v)
      → Ends (Unlocks w) (m v)
  no_news w v m (g, o, _) h r =
      Ends-both (λ r _. r ≡ false) (λ _ u. Keeps v u) (Unlocks w) (m v) r (h.stays v)
        λ b u isfalse k. (
          Grows-trans w v u g k.grows,
          Keeps-IsOurs auth_win auth_executable v u k o,
          λ yes. absurd (cc (yes, isfalse)),
        )

  after_auth-Unlocks :
      (state : WatchChildrenState) (ok running : Bool) (w v : World)
      → Unlocks w ok v
      → Ends (Unlocks w) (after_auth e s state (ok, running) v)
  unfolding after_auth
  after_auth-Unlocks state true running w v (g, o, h) =
      bind-Ends (λ _ u. Keeps v u) (Unlocks w)
        (watch_saver_child e saver_win (pos 0) saver_executable false v) _
        ((watch_saver_child-Closed (Keeps-IsClosed e) saver_win (pos 0) saver_executable
            false).stays
          v)
        λ _ u k. (
          Grows-trans w v u g k.grows,
          Keeps-IsOurs auth_win auth_executable v u k o,
          λ yes. Authenticated-Grows auth_win auth_executable w v u (h refl) k.grows,
        )
  after_auth-Unlocks state false running w v h =
      no_news w v (after_auth e s state (false, running)) h
        (Stays-then O
          (Stays-if (not running) (auth_closed-Closed (Keeps-IsClosed e) s) (Stays-pure O tt))
          (show_saver-Closed (Keeps-IsClosed e) s state running))
        (bind-Ends_any _ ((if not running then auth_closed e s else pure tt) v) _
          λ _ u. show_saver-result state running u)

  -- If the child that the main process knows of is one that it has started to run the
  -- authentication module, and WatchChildren returns, then this is still so, and if its result is
  -- true, waitpid has meanwhile reported that a process that had been started so before has exited
  -- with 0.
  pub watch_children-Unlocks :
      (state : WatchChildrenState) (stdinbuf : Option (List ℕ)) (w : World)
      → OurChild w
      → Ends (Unlocks w) (watch_children e s state stdinbuf w)
  unfolding watch_children
  watch_children-Unlocks state stdinbuf w o =
      bind-Ends (λ _ v. v ≡ w) (Unlocks w) (want_auth_child e (is_force_auth state) w) _
        (want_auth_child-same e (is_force_auth state) w)
        λ want v same.
          subst
            (λ (u : World). Ends (Unlocks w) (
              (if want
                  then (watch_auth_child e auth_win auth_executable (is_force_auth state) stdinbuf
                      >>= after_auth e s state)
                  else show_saver e s state false)
                u))
            (sym same) (go want)
    where
      go :
          (want : Bool)
          → Ends (Unlocks w) (
              (if want
                  then (watch_auth_child e auth_win auth_executable (is_force_auth state) stdinbuf
                      >>= after_auth e s state)
                  else show_saver e s state false)
                w)
      go true =
          bind-Ends (λ r v. Unlocks w r.0 v) (Unlocks w)
            (watch_auth_child e auth_win auth_executable (is_force_auth state) stdinbuf w)
            (after_auth e s state)
            (watch_auth_child-Proves auth_win auth_executable e (is_force_auth state) stdinbuf w o)
            λ r v h. after_auth-Unlocks state r.0 r.1 w v h
      go false =
          no_news w w (show_saver e s state false) (Grows-refl w, o, (λ h. absurd (cc (h))))
            (show_saver-Closed (Keeps-IsClosed e) s state false) (show_saver-result state false w)

  pub wake_up-Unlocks :
      (stdinbuf : Option (List ℕ)) (w : World)
      → OurChild w
      → Ends (Unlocks w) (wake_up e s stdinbuf w)
  unfolding wake_up
  wake_up-Unlocks stdinbuf w o = watch_children-Unlocks force_auth stdinbuf w o
