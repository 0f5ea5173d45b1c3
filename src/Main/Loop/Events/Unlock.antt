-- ===== src/Main/Loop/Events/Unlock.antt =====
-- main.c: an event ends the loop of main only after a successful authentication.
use xsecurelock.Prelude.{
  ℕ, ◌≡◌, refl, List, ◌++◌, Bool, true, false, not, ◌&&◌, Option, none, some, if◌then◌else◌,
  Bool-cases, inl, inr,
}
use xsecurelock.Sys.Calls.{Trace, reported, exited, waited, ran_command}
use xsecurelock.Sys.{Env, World, M, pure, ◌>>=◌, call}
use xsecurelock.Process.Closed.{Keeps-IsClosed}
use xsecurelock.Sys.Spec.{Made, Ends, bind-Ends, Stays}
use xsecurelock.Sys.Keeps.{Keeps, call-Keeps}
use xsecurelock.AuthChild.Safety.{Started, Keeps-IsOurs, Authenticated}
use xsecurelock.Main.Blank.{screen_no_longer_blanked}
use xsecurelock.Main.Blank.Closed.{screen_no_longer_blanked-Closed}
use xsecurelock.Main.Watch.{wake_up}
use xsecurelock.Main.Watch.Safety.{OurChild, Unlocks, wake_up-Unlocks}
use xsecurelock.Main.Key.{KeyAction, wake_up_with, run_command, do_nothing, key_press_action}
use xsecurelock.Main.Loop.Events.{
  LoopSettings, LoopState, Event, filtered, configure_notify, visibility_notify, mouse, key_press,
  release, map_notify, unmap_notify, focus, screen_saver_notify, other_event, on_event, on_key,
  on_map, woken, and_then, step_with, notify_if_locked, handle_event, is_filtered, on_visibility,
  on_unmap, on_focus, on_configure, notify_of_lock,
}
use xsecurelock.Main.Loop.Events.Closed.{
  on_configure-Closed, on_visibility-Closed, on_unmap-Closed, on_focus-Closed,
  notify_of_lock-Closed,
}

module _ (e : Env) (s : LoopSettings) where
  open s use {watch, key_command}

  -- At some time a process had been started to run the authentication module, and later it was
  -- reported to have exited with 0.
  abbrev pub Unlocked : Trace → Type 0
  Unlocked tr =
      (pid : ℕ) × (later earlier : Trace) × (tr ≡ later ++ earlier)
      × Started watch.auth_win watch.auth_executable pid earlier
      × Made (waited pid (reported pid (exited 0))) later

  -- The child is ours, and the loop has been left only if the screen may be unlocked.
  abbrev pub Safe : Option LoopState → World → Type 0
  Safe r v = OurChild e watch v × (r ≡ none → Unlocked v.trace)

  pub Authenticated→Unlocked :
      (w v : World) → Authenticated watch.auth_win watch.auth_executable w v → Unlocked v.trace
  Authenticated→Unlocked w v (pid, new, p, s, made) = (pid, new, w.trace, p, s, made)

  pub Keeps-OurChild : (w v : World) → Keeps w v → OurChild e watch w → OurChild e watch v
  Keeps-OurChild w v k o = Keeps-IsOurs watch.auth_win watch.auth_executable w v k o

  pub some-Safe : (st : LoopState) (v : World) → OurChild e watch v → Safe (some st) v
  some-Safe st v o = (o, λ h. absurd (cc (h)))

  pub step_with-Safe :
      (next : LoopState → M (Option LoopState)) (m : M (Option LoopState)) (w : World)
      → Ends Safe (m w)
      → ((st : LoopState) (v : World) → OurChild e watch v → Ends Safe (next st v))
      → Ends Safe (step_with next m w)
  step_with-Safe next m w h k = bind-Ends Safe Safe (m w) (and_then next) h go
    where
      go : (r : Option LoopState) (v : World) → Safe r v → Ends Safe (and_then next r v)
      go none v h = h
      go (some st) v (o, _) = k st v o

  -- Code that leaves the child alone, and then goes on.
  pub then-Safe :
      {A : Type 0} (m : M A) (k : A → M (Option LoopState)) (w : World)
      → OurChild e watch w
      → Stays Keeps m
      → ((a : A) (v : World) → OurChild e watch v → Ends Safe (k a v))
      → Ends Safe ((m >>= k) w)
  then-Safe m k w o h f =
      bind-Ends (λ _ v. Keeps w v) Safe (m w) k (h.stays w)
        λ a v kept. f a v (Keeps-OurChild w v kept o)

  woken-Safe :
      (st : LoopState) (stdinbuf : Option (List ℕ)) (w : World)
      → OurChild e watch w
      → Ends Safe ((wake_up e watch stdinbuf >>= woken e s st) w)
  unfolding woken
  woken-Safe st stdinbuf w o =
      bind-Ends (Unlocks e watch w) Safe (wake_up e watch stdinbuf w) (woken e s st)
        (wake_up-Unlocks e watch stdinbuf w o) go
    where
      go : (ok : Bool) (v : World) → Unlocks e watch w ok v → Ends Safe (woken e s st ok v)
      go true v (g, o, h) = (o, λ _. Authenticated→Unlocked w v (h refl))
      go false v (g, o, h) = some-Safe st v o

  on_key-Safe :
      (st : LoopState) (a : KeyAction) (w : World)
      → OurChild e watch w
      → Ends Safe (on_key e s st a w)
  unfolding on_key
  on_key-Safe st (wake_up_with text) w o = woken-Safe st (some text) w o
  on_key-Safe st (run_command name) w o =
      then-Safe (call (ran_command name)) (λ _. pure (some st)) w o (call-Keeps _)
        λ _ v. some-Safe st v
  on_key-Safe st do_nothing w o = some-Safe st w o

  on_event-Safe :
      (ev : Event) (st : LoopState) (w : World)
      → OurChild e watch w
      → Ends Safe (on_event e s ev st w)
  unfolding on_event
  on_event-Safe filtered st w o = some-Safe st w o
  on_event-Safe (configure_notify window width height) st w o =
      then-Safe (on_configure e s st window width height) (λ _. pure (some st)) w o
        (on_configure-Closed (Keeps-IsClosed e) s st window width height) λ _ v. some-Safe st v
  on_event-Safe (visibility_notify window unobscured) st w o =
      then-Safe (on_visibility e s st window unobscured) (λ st'. pure (some st')) w o
        (on_visibility-Closed (Keeps-IsClosed e) s st window unobscured) some-Safe
  on_event-Safe mouse st w o =
      then-Safe (screen_no_longer_blanked e watch.blank)
        (λ _. wake_up e watch none >>= woken e s st) w o
        (screen_no_longer_blanked-Closed (Keeps-IsClosed e) watch.blank) λ _ v. woken-Safe st none v
  on_event-Safe (key_press k) st w o =
      then-Safe (screen_no_longer_blanked e watch.blank)
        (λ _. on_key e s st (key_press_action key_command k)) w o
        (screen_no_longer_blanked-Closed (Keeps-IsClosed e) watch.blank)
        λ _ v. on_key-Safe st (key_press_action key_command k) v
  on_event-Safe release st w o =
      then-Safe (screen_no_longer_blanked e watch.blank) (λ _. pure (some st)) w o
        (screen_no_longer_blanked-Closed (Keeps-IsClosed e) watch.blank) λ _ v. some-Safe st v
  on_event-Safe (map_notify window) st w o = some-Safe (on_map e s st window) w o
  on_event-Safe (unmap_notify window) st w o =
      then-Safe (on_unmap e s st window) (λ st'. pure (some st')) w o
        (on_unmap-Closed (Keeps-IsClosed e) s st window) some-Safe
  on_event-Safe (focus window ungrab) st w o =
      then-Safe (on_focus e s st window ungrab) (λ st'. pure (some st')) w o
        (on_focus-Closed (Keeps-IsClosed e) s st window ungrab) some-Safe
  on_event-Safe (screen_saver_notify on) st w o = some-Safe _ w o
  on_event-Safe other_event st w o = some-Safe st w o

  notify_if_locked-Safe :
      (st : LoopState) (w : World) → OurChild e watch w → Ends Safe (notify_if_locked e s st w)
  unfolding notify_if_locked
  notify_if_locked-Safe st w o =
      elim (Bool-cases (
        st.background_window_mapped
        && st.background_window_visible
        && st.saver_window_mapped
        && not st.xss_lock_notified)) [
          | inl locked ↦
              rw (locked, Ends)
                (then-Safe (notify_of_lock e s st)
                  (λ st'. pure (some (record st' { xss_lock_notified = true }))) w o
                  (notify_of_lock-Closed (Keeps-IsClosed e) s st)
                  λ st' v. some-Safe (record st' { xss_lock_notified = true }) v)
          | inr not_yet ↦ rw (not_yet, Ends) (some-Safe st w o)
        ]

  pub handle_event-Safe :
      (ev : Event) (st : LoopState) (w : World)
      → OurChild e watch w
      → Ends Safe (handle_event e s ev st w)
  unfolding handle_event
  handle_event-Safe ev st w o = go (is_filtered e s ev)
    where
      go :
          (b : Bool)
          → Ends Safe (
              (if b then pure (some st) else step_with (notify_if_locked e s) (on_event e s ev st))
                w)
      go true = some-Safe st w o
      go false =
          step_with-Safe (notify_if_locked e s) (on_event e s ev st) w (on_event-Safe ev st w o)
            notify_if_locked-Safe
