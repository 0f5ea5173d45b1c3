-- ===== src/Main/Blank/Restore.antt =====
-- main.c: unblanking takes back what blanking has done to DPMS.
use xsecurelock.Prelude.{
  ◌≡◌, refl, sym, ◌∙◌, inl, inr, [], ◌∷◌, Bool, true, false, ◌||◌, Option, none, some, Bool-cases,
}
use xsecurelock.Prelude.Int.{ℤ, pos, negsuc}
use xsecurelock.Sys.Calls.{
  Call, Trace, Time, DpmsAnswer, dpms_missing, dpms_off, dpms_on, x, dpms_enable, dpms_disable,
  force_screen_saver, asked_dpms, clock,
}
use xsecurelock.Sys.{Env, World, ◌>>=◌, dpms}
use xsecurelock.Sys.Spec.{Finishes, bind-Finishes}
use xsecurelock.Main.Blank.{
  BlankSettings, DpmsState, on_state, standby_state, suspend_state, off_state, other_state,
  reset_timer, reset_blank_screen_timer, force_level, blank_dpms, blank_now, blank_at,
  maybe_blank_screen, screen_no_longer_blanked, unblank_screen, is_disabled, is_before,
}

-- What a call does to DPMS.
abbrev pub switches : Call → Option Bool
switches (x dpms_enable) = some true
switches (x dpms_disable) = some false
switches _ = none

-- Whether DPMS is on because the program has enabled it, and has not disabled it since.
abbrev pub enabled_by_us : Trace → Bool
enabled_by_us [] = false
enabled_by_us (c ∷ tr) = elim (switches c) [ none ↦ enabled_by_us tr | some b ↦ b ]

-- `must_disable_dpms` says so, and is set only while the screen is blanked.
pub record IsConsistent (w : World) : Type 0 where
  pub flag : w.must_disable_dpms ≡ enabled_by_us w.trace
  pub while_blanked : w.must_disable_dpms ≡ true → w.blanked ≡ true

-- The screen is not blanked, and DPMS is not left enabled by the program.
abbrev pub IsRestored : World → Type 0
IsRestored v = (v.blanked ≡ false) × (v.must_disable_dpms ≡ false) × (enabled_by_us v.trace ≡ false)

module _ (e : Env) (s : BlankSettings) where
  open s use {blank_timeout, blank_dpms_state}

  abbrev Flagged : World → Type 0
  Flagged v = (v.must_disable_dpms ≡ enabled_by_us v.trace) × (v.blanked ≡ true)

  force_level-Flagged :
      (d : DpmsState) (w : World) → Flagged w → Finishes (λ _ v. Flagged v) (force_level e s d w)
  unfolding force_level
  force_level-Flagged standby_state w h = h
  force_level-Flagged suspend_state w h = h
  force_level-Flagged off_state w h = h
  force_level-Flagged on_state w h = h
  force_level-Flagged other_state w h = h

  blank_dpms-Flagged :
      (d : DpmsState) (a : DpmsAnswer) (w : World)
      → Flagged w
      → Finishes (λ _ v. Flagged v) (blank_dpms e s d a w)
  unfolding blank_dpms
  blank_dpms-Flagged d dpms_missing w h = h
  blank_dpms-Flagged d dpms_on w h = force_level-Flagged d w h
  blank_dpms-Flagged d dpms_off w (f, b) =
      force_level-Flagged d (record w { must_disable_dpms = true; trace = x dpms_enable ∷ w.trace })
        (refl, b)

  asks_dpms :
      (d : DpmsState) (w : World)
      → Flagged w
      → Finishes (λ _ v. Flagged v) ((dpms e >>= blank_dpms e s d) w)
  asks_dpms d w h =
      blank_dpms-Flagged d (e.dpms w.trace)
        (record w { trace = asked_dpms (e.dpms w.trace) ∷ w.trace }) h

  blank_now-Flagged :
      (d : DpmsState) (w : World) → Flagged w → Finishes (λ _ v. Flagged v) (blank_now e s d w)
  unfolding blank_now
  blank_now-Flagged on_state w h = h
  blank_now-Flagged standby_state w h = asks_dpms standby_state w h
  blank_now-Flagged suspend_state w h = asks_dpms suspend_state w h
  blank_now-Flagged off_state w h = asks_dpms off_state w h
  blank_now-Flagged other_state w h = asks_dpms other_state w h

  blank_at-IsConsistent :
      (t now : Time) (w : World)
      → IsConsistent w
      → Finishes (λ _ v. IsConsistent v) (blank_at e s t now w)
  unfolding blank_at
  blank_at-IsConsistent t now w c = elim (Bool-cases (is_before now t)) [
    | inl early ↦ rw (early, Finishes) c
    | inr due ↦
        rw (due, Finishes)
          (bind-Finishes (λ _ v. Flagged v) (λ _ v. IsConsistent v)
            (blank_now e s blank_dpms_state blanking) _
            (blank_now-Flagged blank_dpms_state blanking (c.flag, refl))
            λ _ v h. record { flag = h.0; while_blanked = λ _. h.1 })
  ]
    where
      blanking : World
      blanking = record w { blanked = true; trace = x (force_screen_saver true) ∷ w.trace }

  -- MaybeBlankScreen returns and keeps the record of whether DPMS has to be disabled correct: it is
  -- what the program has done to DPMS, and is set only while the screen is blanked.
  pub maybe_blank_screen-IsConsistent :
      (w : World) → IsConsistent w → Finishes (λ _ v. IsConsistent v) (maybe_blank_screen e s w)
  unfolding maybe_blank_screen
  maybe_blank_screen-IsConsistent w c =
      elim (Bool-cases (is_disabled e s blank_timeout || w.blanked)) [
        | inl done ↦ rw (done, Finishes) c
        | inr awake ↦
            rw (awake, Finishes)
              (blank_at-IsConsistent w.time_to_blank (e.gettimeofday w.trace)
                (record w { trace = clock (e.gettimeofday w.trace) ∷ w.trace })
                (record { flag = c.flag; while_blanked = c.while_blanked }))
      ]

  screen_no_longer_blanked-restores :
      (w : World)
      → w.must_disable_dpms ≡ enabled_by_us w.trace
      → Finishes (λ _ v. IsRestored v) (screen_no_longer_blanked e s w)
  unfolding screen_no_longer_blanked
  screen_no_longer_blanked-restores w p = elim (Bool-cases w.must_disable_dpms) [
    | inl ours ↦ rw (ours, Finishes) (refl, refl, refl)
    | inr theirs ↦ rw (theirs, Finishes) (refl, refl, sym p ∙ theirs)
  ]

  reset_timer-restores :
      (t : ℤ) (w : World) → IsRestored w → Finishes (λ _ v. IsRestored v) (reset_timer e s t w)
  unfolding reset_timer
  reset_timer-restores (pos n) w h = h
  reset_timer-restores (negsuc n) w h = h

  pub unblank_screen-restores :
      (w : World) → IsConsistent w → Finishes (λ _ v. IsRestored v) (unblank_screen e s w)
  unfolding unblank_screen reset_blank_screen_timer
  unblank_screen-restores w c = elim (Bool-cases w.blanked) [
    | inl blanked ↦
        rw (blanked, Finishes)
          (bind-Finishes Restored Restored (screen_no_longer_blanked e s called) _
            (screen_no_longer_blanked-restores called c.flag)
            λ _ v h. reset_timer-restores blank_timeout v h)
    | inr awake ↦
        rw (awake, Finishes)
          (reset_timer-restores blank_timeout (record w { blanked = false })
            (refl, off awake, sym c.flag ∙ off awake))
  ]
    where
      Restored : Unit {0} → World → Type 0
      Restored _ v =
          (v.blanked ≡ false) × (v.must_disable_dpms ≡ false) × (enabled_by_us v.trace ≡ false)

      called : World
      called = record w { blanked = true; trace = x (force_screen_saver false) ∷ w.trace }

      off : w.blanked ≡ false → w.must_disable_dpms ≡ false
      off awake = elim (Bool-cases w.must_disable_dpms) [
        | inl on ↦ absurd (cc (c.while_blanked on, awake))
        | inr theirs ↦ theirs
      ]
