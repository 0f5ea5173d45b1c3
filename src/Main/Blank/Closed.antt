-- ===== src/Main/Blank/Closed.antt =====
-- main.c: the functions for blanking have every property of Process.Closed.
use xsecurelock.Prelude.{refl, true, false, ◌||◌}
use xsecurelock.Prelude.Int.{ℤ, pos, negsuc}
use xsecurelock.Sys.Calls.{
  Time, DpmsAnswer, dpms_missing, dpms_off, dpms_on, x, dpms_enable, dpms_disable, flush,
  force_screen_saver,
}
use xsecurelock.Sys.{Env, M}
use xsecurelock.Sys.Spec.{Grows-refl}
use xsecurelock.Process.Closed.{
  IsClosed, Has, Closed-pure, Closed-gets, Closed-bind, Closed-then, Closed-if, Closed-call,
  Closed-modify, Closed-gettimeofday, Closed-dpms,
}
use xsecurelock.Main.Blank.{
  BlankSettings, DpmsState, on_state, standby_state, suspend_state, off_state, other_state,
  reset_timer, reset_blank_screen_timer, force_level, blank_dpms, blank_now, blank_at,
  maybe_blank_screen, screen_no_longer_blanked, unblank_screen, init_blank_screen, is_disabled,
  is_before, later_by,
}

module _ {e : Env} {P : (A : Type 0) → M A → Type 0} (c : IsClosed e P) (s : BlankSettings) where
  open s use {blank_timeout, blank_dpms_state}

  reset_timer-Closed : (t : ℤ) → Has c (reset_timer e s t)
  unfolding reset_timer
  reset_timer-Closed (negsuc n) = Closed-pure c tt
  reset_timer-Closed (pos n) = Closed-bind c (Closed-gettimeofday c) λ now.
      Closed-modify c (λ w. record w { time_to_blank = later_by n now })
        λ w. record { grows = Grows-refl w; pid = refl; fd = refl }

  force_level-Closed : (d : DpmsState) → Has c (force_level e s d)
  unfolding force_level
  force_level-Closed standby_state = Closed-call c _
  force_level-Closed suspend_state = Closed-call c _
  force_level-Closed off_state = Closed-call c _
  force_level-Closed on_state = Closed-pure c tt
  force_level-Closed other_state = Closed-pure c tt

  blank_dpms-Closed : (d : DpmsState) (a : DpmsAnswer) → Has c (blank_dpms e s d a)
  unfolding blank_dpms
  blank_dpms-Closed d dpms_missing = Closed-pure c tt
  blank_dpms-Closed d dpms_off =
      Closed-then c
        (Closed-modify c (λ w. record w { must_disable_dpms = true })
          λ w. record { grows = Grows-refl w; pid = refl; fd = refl })
        (Closed-then c (Closed-call c (x dpms_enable)) (force_level-Closed d))
  blank_dpms-Closed d dpms_on = force_level-Closed d

  blank_now-Closed : (d : DpmsState) → Has c (blank_now e s d)
  unfolding blank_now
  blank_now-Closed on_state = Closed-pure c tt
  blank_now-Closed standby_state = Closed-bind c (Closed-dpms c) (blank_dpms-Closed standby_state)
  blank_now-Closed suspend_state = Closed-bind c (Closed-dpms c) (blank_dpms-Closed suspend_state)
  blank_now-Closed off_state = Closed-bind c (Closed-dpms c) (blank_dpms-Closed off_state)
  blank_now-Closed other_state = Closed-bind c (Closed-dpms c) (blank_dpms-Closed other_state)

  blank_at-Closed : (t now : Time) → Has c (blank_at e s t now)
  unfolding blank_at
  blank_at-Closed t now = Closed-if c (is_before now t) (Closed-pure c tt) (
      Closed-then c
        (Closed-modify c (λ w. record w { blanked = true })
          λ w. record { grows = Grows-refl w; pid = refl; fd = refl })
        (Closed-then c (Closed-call c (x (force_screen_saver true)))
          (Closed-then c (blank_now-Closed blank_dpms_state) (Closed-call c (x flush)))))

  pub maybe_blank_screen-Closed : Has c (maybe_blank_screen e s)
  unfolding maybe_blank_screen
  maybe_blank_screen-Closed = Closed-bind c (Closed-gets c (λ w. w.blanked)) λ blanked.
      Closed-if c (is_disabled e s blank_timeout || blanked) (Closed-pure c tt) (
        Closed-bind c (Closed-gettimeofday c)
          λ now. Closed-bind c (Closed-gets c (λ w. w.time_to_blank)) λ t. blank_at-Closed t now)

  pub screen_no_longer_blanked-Closed : Has c (screen_no_longer_blanked e s)
  unfolding screen_no_longer_blanked
  screen_no_longer_blanked-Closed = Closed-bind c (Closed-gets c (λ w. w.must_disable_dpms)) λ b.
      Closed-then c
        (Closed-if c b
          (Closed-then c (Closed-call c (x dpms_disable)) (
            Closed-then c
              (Closed-modify c (λ w. record w { must_disable_dpms = false })
                λ w. record { grows = Grows-refl w; pid = refl; fd = refl })
              (Closed-call c (x flush))))
          (Closed-pure c tt))
        (Closed-modify c (λ w. record w { blanked = false })
          λ w. record { grows = Grows-refl w; pid = refl; fd = refl })

  pub unblank_screen-Closed : Has c (unblank_screen e s)
  unfolding unblank_screen reset_blank_screen_timer
  unblank_screen-Closed = Closed-bind c (Closed-gets c (λ w. w.blanked)) λ b.
      Closed-then c
        (Closed-if c b
          (Closed-then c (Closed-call c (x (force_screen_saver false)))
            screen_no_longer_blanked-Closed)
          (Closed-pure c tt))
        (reset_timer-Closed blank_timeout)

  pub init_blank_screen-Closed : Has c (init_blank_screen e s)
  unfolding init_blank_screen reset_blank_screen_timer
  init_blank_screen-Closed = Closed-if c (is_disabled e s blank_timeout) (Closed-pure c tt) (
      Closed-then c
        (Closed-modify c (λ w. record w { blanked = false })
          λ w. record { grows = Grows-refl w; pid = refl; fd = refl })
        (reset_timer-Closed blank_timeout))
