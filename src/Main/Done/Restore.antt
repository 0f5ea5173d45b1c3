-- ===== src/Main/Done/Restore.antt =====
-- main.c: at its end the program has unblanked the screen, uncovered it and left DPMS as it was.
use xsecurelock.Prelude.{ℕ, ◌≡◌, refl, ◌∙◌, ◌∷◌, Bool, true, false, not, ◌==◌, if◌then◌else◌}
use xsecurelock.Sys.Calls.{
  Trace, Request, x, set_input_focus, destroy_window, release_overlay_window, close_display,
}
use xsecurelock.Sys.{Env, World, pure, call}
use xsecurelock.Sys.Spec.{Finishes, bind-Finishes}
use xsecurelock.Main.Blank.{unblank_screen}
use xsecurelock.Main.Blank.Restore.{
  IsConsistent, IsRestored, enabled_by_us, unblank_screen-restores,
}
use xsecurelock.Main.Loop.Events.{LoopSettings}
use xsecurelock.Main.Done.{release_resources, clean_up}

module _ (e : Env) (s : LoopSettings) where
  open s use {watch, background_win, saver_win, obscurer_win, composite_win}

  -- The last calls of the program.
  abbrev pub Ending : Trace → Type 0
  Ending tr =
      (earlier : Trace) × (tr
        ≡ x close_display
          ∷ x (destroy_window background_win)
          ∷ x (destroy_window saver_win)
          ∷ x (destroy_window watch.auth_win)
          ∷ earlier)

  Restored : Unit {0} → World → Type 0
  Restored _ v = IsRestored v

  -- A request that is made only for a window that is there, and that does nothing to DPMS.
  optional-Restored :
      (b : Bool) (r : Request) (w : World)
      → enabled_by_us (x r ∷ w.trace) ≡ enabled_by_us w.trace
      → IsRestored w
      → Finishes Restored ((if b then call (x r) else pure tt) w)
  unfolding Restored
  optional-Restored true r w p (b, m, u) = (b, m, p ∙ u)
  optional-Restored false r w p h = h

  release_resources-Restored :
      (previous_focused_window : ℕ) (w : World)
      → IsRestored w
      → Finishes
          (λ _ v. IsRestored v × Ending v.trace)
          (release_resources e s previous_focused_window w)
  unfolding release_resources Restored
  release_resources-Restored previous_focused_window w h =
      bind-Finishes Restored _ _ _
        (optional-Restored (not (previous_focused_window == 0))
          (set_input_focus previous_focused_window) w refl h)
        λ _ v h₁.
          bind-Finishes Restored _ _ _
            (optional-Restored (not (obscurer_win == 0)) (destroy_window obscurer_win) v refl h₁)
            λ _ u h₂.
              bind-Finishes Restored _ _ _
                (optional-Restored (not (composite_win == 0)) (release_overlay_window composite_win)
                  u refl h₂)
                λ _ t h₃. (h₃, (t.trace, refl))

  -- If the record of whether DPMS has to be disabled is correct, then the code behind `done` returns,
  -- the screen is not blanked then, DPMS is not left enabled by the program, and its last calls have
  -- destroyed the windows for authentication, saver and background, in this order, and closed the
  -- display.
  pub clean_up-restores :
      (previous_focused_window : ℕ) (w : World)
      → IsConsistent w
      → Finishes (λ _ v. IsRestored v × Ending v.trace) (clean_up e s previous_focused_window w)
  unfolding clean_up
  clean_up-restores previous_focused_window w c =
      bind-Finishes (λ _ v. IsRestored v) (λ _ v. IsRestored v × Ending v.trace)
        (unblank_screen e watch.blank w) (λ _. release_resources e s previous_focused_window)
        (unblank_screen-restores e watch.blank w c)
        λ _ v h. release_resources-Restored previous_focused_window v h
