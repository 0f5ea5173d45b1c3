-- ===== src/Main/Blank.antt =====
-- main.c: blanking the screen after a time without input. The extensions that main.c can be
-- compiled with are there, so HAVE_DPMS_EXT is defined.
pub mod Closed
pub mod Restore
use xsecurelock.Prelude.{ℕ, ◌+◌, Bool, true, false, ◌&&◌, ◌||◌, [], ltb, ◌==◌, if◌then◌else◌}
use xsecurelock.Prelude.Int.{ℤ, pos, negsuc}
use xsecurelock.Sys.Calls.{
  Time, DpmsAnswer, dpms_missing, dpms_off, dpms_on, standby, suspend, off, x, force_screen_saver,
  dpms_enable, dpms_disable, dpms_force_level, flush,
}
use xsecurelock.Sys.{Env, M, pure, ◌>>=◌, ◌>>◌, call, modify, gets, gettimeofday, dpms}

-- The settings blank_timeout and blank_dpms_state; `other` is any text but the four.
pub data DpmsState : Type 0 where
  on_state standby_state suspend_state off_state other_state : DpmsState

pub record BlankSettings : Type 0 where
  pub blank_timeout : ℤ
  pub blank_dpms_state : DpmsState

-- Whether `now` is before `t`.
abbrev pub is_before : Time → Time → Bool
is_before now t = ltb now.tv_sec t.tv_sec || ((now.tv_sec == t.tv_sec) && ltb now.tv_usec t.tv_usec)

abbrev pub later_by : ℕ → Time → Time
later_by seconds t = record t { tv_sec = t.tv_sec + seconds }

module _ (e : Env) (s : BlankSettings) where
  open s use {blank_timeout, blank_dpms_state}

  -- ResetBlankScreenTimer, with `seconds` for a `blank_timeout` that is not negative.
  reset_timer : ℤ → M (Unit {0})
  reset_timer (negsuc n) = pure tt
  reset_timer (pos seconds) = do
    now ← gettimeofday e
    modify (λ w. record w { time_to_blank = later_by seconds now })

  pub reset_blank_screen_timer : M (Unit {0})
  unfolding reset_timer
  reset_blank_screen_timer = reset_timer blank_timeout

  abbrev is_disabled : ℤ → Bool
  is_disabled (negsuc n) = true
  is_disabled (pos n) = false

  -- InitBlankScreen
  pub init_blank_screen : M (Unit {0})
  unfolding reset_blank_screen_timer
  init_blank_screen =
      if is_disabled blank_timeout
      then pure tt
      else (modify (λ w. record w { blanked = false }) >> reset_blank_screen_timer)

  force_level : DpmsState → M (Unit {0})
  force_level standby_state = call (x (dpms_force_level standby))
  force_level suspend_state = call (x (dpms_force_level suspend))
  force_level off_state = call (x (dpms_force_level off))
  force_level on_state = pure tt
  force_level other_state = pure tt

  -- The part of MaybeBlankScreen for DPMS.
  blank_dpms : DpmsState → DpmsAnswer → M (Unit {0})
  unfolding force_level
  blank_dpms state dpms_missing = pure tt
  blank_dpms state dpms_off = do
    modify (λ w. record w { must_disable_dpms = true })
    call (x dpms_enable)
    force_level state
  blank_dpms state dpms_on = force_level state

  blank_now : DpmsState → M (Unit {0})
  unfolding blank_dpms
  blank_now on_state = pure tt
  blank_now state = dpms e >>= blank_dpms state

  -- MaybeBlankScreen behind gettimeofday.
  blank_at : Time → Time → M (Unit {0})
  unfolding blank_now
  blank_at time_to_blank now = if is_before now time_to_blank then pure tt else (do
    modify (λ w. record w { blanked = true })
    call (x (force_screen_saver true))
    blank_now blank_dpms_state
    call (x flush))

  -- MaybeBlankScreen
  pub maybe_blank_screen : M (Unit {0})
  unfolding blank_at
  maybe_blank_screen = do
    blanked ← gets (λ w. w.blanked)
    if is_disabled blank_timeout || blanked then pure tt else (do
      now ← gettimeofday e
      time_to_blank ← gets (λ w. w.time_to_blank)
      blank_at time_to_blank now)

  -- ScreenNoLongerBlanked
  pub screen_no_longer_blanked : M (Unit {0})
  screen_no_longer_blanked = do
    must_disable ← gets (λ w. w.must_disable_dpms)
    (if must_disable
        then (do
          call (x dpms_disable)
          modify (λ w. record w { must_disable_dpms = false })
          call (x flush))
        else pure tt)
    modify (λ w. record w { blanked = false })

  -- UnblankScreen
  pub unblank_screen : M (Unit {0})
  unfolding screen_no_longer_blanked reset_blank_screen_timer
  unblank_screen = do
    blanked ← gets (λ w. w.blanked)
    (if blanked then (call (x (force_screen_saver false)) >> screen_no_longer_blanked) else pure tt)
    reset_blank_screen_timer
