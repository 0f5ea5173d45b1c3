-- ===== src/Main/Loop/Events/Total.antt =====
-- main.c: the loop of main handles every event and goes on or leaves.
use xsecurelock.Prelude.{Bool, true, false, not, ◌&&◌, Option, none, some}
use xsecurelock.Sys.Calls.{ran_command}
use xsecurelock.Sys.{Env, M, pure, ◌>>=◌}
use xsecurelock.Process.Closed.{
  IsClosed, IsTotal, Closed-pure, Closed-bind, Closed-then, Closed-if, Closed-call,
}
use xsecurelock.Main.Blank.Closed.{screen_no_longer_blanked-Closed}
use xsecurelock.Main.Watch.Total.{wake_up-IsTotal}
use xsecurelock.Main.Key.{KeyAction, wake_up_with, run_command, do_nothing, key_press_action}
use xsecurelock.Main.Loop.Events.{
  LoopSettings, LoopState, Event, filtered, configure_notify, visibility_notify, mouse, key_press,
  release, map_notify, unmap_notify, focus, screen_saver_notify, other_event, on_event, on_key,
  on_map, woken, and_then, step_with, notify_if_locked, handle_event, is_filtered,
}
use xsecurelock.Main.Loop.Events.Closed.{
  on_configure-Closed, on_visibility-Closed, on_unmap-Closed, on_focus-Closed,
  notify_of_lock-Closed,
}

module _ {e : Env} (c : IsClosed e (λ A m. IsTotal m)) where
  pub step_with-IsTotal :
      (next : LoopState → M (Option LoopState)) (m : M (Option LoopState))
      → IsTotal m
      → ((st : LoopState) → IsTotal (next st))
      → IsTotal (step_with next m)
  step_with-IsTotal next m h k = Closed-bind c h go
    where
      go : (r : Option LoopState) → IsTotal (and_then next r)
      go none = Closed-pure c none
      go (some st) = k st

  -- Code that returns a state, and goes on with it.
  going_on : {m : M LoopState} → IsTotal m → IsTotal (m >>= λ st. pure (some st))
  going_on h = Closed-bind c h λ st. Closed-pure c (some st)

  module _ (s : LoopSettings) where
    open s use {watch, key_command}

    woken-IsTotal : (st : LoopState) (ok : Bool) → IsTotal (woken e s st ok)
    unfolding woken
    woken-IsTotal st true = Closed-pure c none
    woken-IsTotal st false = Closed-pure c (some st)

    on_key-IsTotal : (st : LoopState) (a : KeyAction) → IsTotal (on_key e s st a)
    unfolding on_key
    on_key-IsTotal st (wake_up_with text) =
        Closed-bind c (wake_up-IsTotal c watch (some text)) (woken-IsTotal st)
    on_key-IsTotal st (run_command name) =
        Closed-then c (Closed-call c (ran_command name)) (Closed-pure c (some st))
    on_key-IsTotal st do_nothing = Closed-pure c (some st)

    on_event-IsTotal : (ev : Event) (st : LoopState) → IsTotal (on_event e s ev st)
    unfolding on_event
    on_event-IsTotal filtered st = Closed-pure c (some st)
    on_event-IsTotal (configure_notify window width height) st =
        Closed-then c (on_configure-Closed c s st window width height) (Closed-pure c (some st))
    on_event-IsTotal (visibility_notify window unobscured) st =
        going_on (on_visibility-Closed c s st window unobscured)
    on_event-IsTotal mouse st =
        Closed-then c (screen_no_longer_blanked-Closed c watch.blank)
          (Closed-bind c (wake_up-IsTotal c watch none) (woken-IsTotal st))
    on_event-IsTotal (key_press k) st =
        Closed-then c (screen_no_longer_blanked-Closed c watch.blank)
          (on_key-IsTotal st (key_press_action key_command k))
    on_event-IsTotal release st =
        Closed-then c (screen_no_longer_blanked-Closed c watch.blank) (Closed-pure c (some st))
    on_event-IsTotal (map_notify window) st = Closed-pure c (some (on_map e s st window))
    on_event-IsTotal (unmap_notify window) st = going_on (on_unmap-Closed c s st window)
    on_event-IsTotal (focus window ungrab) st = going_on (on_focus-Closed c s st window ungrab)
    on_event-IsTotal (screen_saver_notify on) st = Closed-pure c _
    on_event-IsTotal other_event st = Closed-pure c (some st)

    notify_if_locked-IsTotal : (st : LoopState) → IsTotal (notify_if_locked e s st)
    unfolding notify_if_locked
    notify_if_locked-IsTotal st =
        Closed-if c
          (st.background_window_mapped
            && st.background_window_visible
            && st.saver_window_mapped
            && not st.xss_lock_notified)
          (Closed-bind c (notify_of_lock-Closed c s st)
            λ st'. Closed-pure c (some (record st' { xss_lock_notified = true })))
          (Closed-pure c (some st))

    pub handle_event-IsTotal : (ev : Event) (st : LoopState) → IsTotal (handle_event e s ev st)
    unfolding handle_event
    handle_event-IsTotal ev st = Closed-if c (is_filtered e s ev) (Closed-pure c (some st)) (
        step_with-IsTotal (notify_if_locked e s) (on_event e s ev st) (on_event-IsTotal ev st)
          notify_if_locked-IsTotal)
