-- ===== src/Main/Loop.antt =====
-- main.c: the loop of main, from the first WatchChildren on. `none` stands for `goto done`.
-- ALWAYS_REINSTATE_GRABS and AUTO_RAISE are undefined, as main.c has it.
pub mod Events
pub mod Closed
pub mod Total
pub mod Leaves
mod Tests
pub mod Unlock
use xsecurelock.Prelude.{
  Bool, true, false, not, ◌&&◌, List, [], ◌∷◌, Option, none, some, ◌==◌, if◌then◌else◌,
}
use xsecurelock.Sys.Calls.{x, undefine_cursor, flush, map_raised, clear_window, raise_window}
use xsecurelock.Sys.{Env, M, pure, ◌>>=◌, ◌>>◌, call, gets}
use xsecurelock.Process.{Waited, alive, died, wait_proc}
use xsecurelock.Main.Blank.{init_blank_screen, unblank_screen}
use xsecurelock.Main.Watch.{WatchChildrenState, saver_disabled, watch_children, wake_up}
use xsecurelock.Main.Grabs.{acquire_grabs}
use Events.{LoopSettings, LoopState, Event, handle_event, step_with}

module _ (e : Env) (s : LoopSettings) where
  open s use {
    watch, root_win, background_win, saver_win, obscurer_win, my_windows, saver_stop_on_blank,
  }

  -- What the frame does about the children: a saver need not run while the screen is blanked.
  requested_saver_state : LoopState → Bool → WatchChildrenState
  requested_saver_state st blanked =
      if saver_stop_on_blank && blanked then saver_disabled else st.xss_requested_saver_state

  pub reinstate_grabs : LoopState → M LoopState
  reinstate_grabs st =
      if st.need_to_reinstate_grabs
      then (do
        ok ← acquire_grabs e my_windows false
        pure (record st { need_to_reinstate_grabs = not ok }))
      else pure st

  reaped_notify : LoopState → Waited → LoopState
  reaped_notify st alive = st
  reaped_notify st (died status) = record st { notify_command_pid = 0 }

  pub take_care_of_zombies : LoopState → M LoopState
  unfolding reaped_notify
  take_care_of_zombies st =
      if not (st.notify_command_pid == 0)
      then (do r ← wait_proc e st.notify_command_pid false; pure (reaped_notify st r))
      else pure st

  -- A signal has asked for a wakeup.
  signal_wake_up : Bool → LoopState → M (Option LoopState)
  signal_wake_up signal_wakeup st =
      if signal_wakeup
      then (unblank_screen e watch.blank
          >> (wake_up e watch none >>= λ ok. pure (if ok then none else some st)))
      else pure (some st)

  -- The frame behind WatchChildren and before the events.
  before_events : Bool → LoopState → M (Option LoopState)
  unfolding reinstate_grabs take_care_of_zombies signal_wake_up
  before_events signal_wakeup st = do
    call (x (undefine_cursor saver_win))
    granted ← reinstate_grabs st
    cleaned ← take_care_of_zombies granted
    signal_wake_up signal_wakeup cleaned

  -- All events of a frame.
  handle_events : List Event → LoopState → M (Option LoopState)
  handle_events [] st = pure (some st)
  handle_events (ev ∷ evs) st = step_with (handle_events evs) (handle_event e s ev st)

  -- One round of the loop: whether a signal has asked for a wakeup, and the events.
  pub frame : Bool → List Event → LoopState → M (Option LoopState)
  unfolding before_events handle_events
  frame signal_wakeup evs st = do
    blanked ← gets (λ w. w.blanked)
    ok ← watch_children e watch (requested_saver_state st blanked) none
    (if ok then pure none else step_with (handle_events evs) (before_events signal_wakeup st))

  -- Any number of rounds, given what happens in each.
  loop : List (Bool × List Event) → LoopState → M (Option LoopState)
  unfolding frame
  loop [] st = pure (some st)
  loop ((signal_wakeup, evs) ∷ rounds) st = step_with (loop rounds) (frame signal_wakeup evs st)

  pub map_windows : M (Unit {0})
  map_windows = do
    call (x (map_raised saver_win))
    call (x (map_raised background_win))
    call (x (clear_window background_win))
    call (x (raise_window watch.auth_win))
    (if not (obscurer_win == 0) then call (x (map_raised obscurer_win)) else pure tt)
    call (x flush)

  first_state : WatchChildrenState → LoopState
  first_state xss_state = record {
    background_window_mapped = false;
    background_window_visible = false;
    auth_window_mapped = false;
    saver_window_mapped = false;
    need_to_reinstate_grabs = false;
    xss_lock_notified = false;
    xss_requested_saver_state = xss_state;
    notify_command_pid = 0;
  }

  -- Behind the first WatchChildren.
  enter_loop : WatchChildrenState → List (Bool × List Event) → Bool → M (Option LoopState)
  unfolding loop map_windows first_state
  enter_loop xss_state rounds true = pure none
  enter_loop xss_state rounds false = map_windows >> loop rounds (first_state xss_state)

  -- From InitBlankScreen on; `xss_state` is the state that the X server has asked for.
  pub run : WatchChildrenState → List (Bool × List Event) → M (Option LoopState)
  unfolding enter_loop
  run xss_state rounds =
      init_blank_screen e watch.blank
      >> (call (x flush) >> (watch_children e watch xss_state none >>= enter_loop xss_state rounds))
