-- ===== src/Main/Loop/Events.antt =====
-- main.c: the events that the loop of main handles, and what it keeps between them.
pub mod Closed
pub mod Total
pub mod Unlock
use xsecurelock.Prelude.{
  ℕ, ◌+◌, ◌-◌, ◌%◌, ◌^◌, Bool, true, false, not, ◌&&◌, ◌||◌, List, [], Option, none, some, ◌==◌,
  if◌then◌else◌,
}
use xsecurelock.Sys.Calls.{
  x, map_raised, map_window, clear_window, raise_window, move_resize_window, ForkAnswer,
  fork_failed, child_pid, notify_child, closed, ran_command,
}
use xsecurelock.Sys.{Env, M, pure, ◌>>=◌, ◌>>◌, call, fork}
use xsecurelock.Main.Blank.{screen_no_longer_blanked}
use xsecurelock.Main.Watch.{WatchChildrenState, normal, saver_disabled, Settings, wake_up}
use xsecurelock.Main.Grabs.{acquire_grabs, maybe_raise_window}
use xsecurelock.Main.Key.{
  KeyPress, KeyAction, wake_up_with, run_command, do_nothing, key_press_action,
}

-- The windows and the settings of main; a window that is not there is 0.
pub record LoopSettings : Type 0 where
  pub watch : Settings
  pub root_win : ℕ
  pub background_win : ℕ
  pub saver_win : ℕ
  pub obscurer_win : ℕ
  pub composite_win : ℕ
  pub my_windows : List ℕ
  pub saver_stop_on_blank : Bool
  pub xss_sleep_lock_fd : Option ℕ
  pub has_notify_command : Bool
  -- The environment variables XSECURELOCK_KEY_<name>_COMMAND.
  pub key_command : List ℕ → Option (List ℕ)

-- The local variables of main, and notify_command_pid.
pub record LoopState : Type 0 where
  pub background_window_mapped : Bool
  pub background_window_visible : Bool
  pub auth_window_mapped : Bool
  pub saver_window_mapped : Bool
  pub need_to_reinstate_grabs : Bool
  pub xss_lock_notified : Bool
  pub xss_requested_saver_state : WatchChildrenState
  pub notify_command_pid : ℕ

pub data Event : Type 0 where
  -- XFilterEvent has taken it
  filtered : Event
  configure_notify : (window width height : ℕ) → Event
  visibility_notify : (window : ℕ) (unobscured : Bool) → Event
  -- MotionNotify or ButtonPress
  mouse : Event
  key_press : KeyPress → Event
  -- KeyRelease or ButtonRelease
  release : Event
  map_notify unmap_notify : (window : ℕ) → Event
  -- FocusIn or FocusOut, and whether the mode is NotifyUngrab
  focus : (window : ℕ) (ungrab : Bool) → Event
  screen_saver_notify : (on : Bool) → Event
  -- MappingNotify, EnterNotify, LeaveNotify, ClientMessage, and what is only logged
  other_event : Event

-- What comes next unless it is `goto done`.
abbrev pub and_then : (LoopState → M (Option LoopState)) → Option LoopState → M (Option LoopState)
and_then next none = pure none
and_then next (some st) = next st

abbrev pub step_with :
    (LoopState → M (Option LoopState)) → M (Option LoopState) → M (Option LoopState)
step_with next m = m >>= and_then next

-- `n - 2` as an unsigned int.
abbrev less_two : ℕ → ℕ
less_two n = (n + (2 ^ 32 - 2)) % 2 ^ 32

module _ (e : Env) (s : LoopSettings) where
  open s use {
    watch, root_win, background_win, saver_win, obscurer_win, composite_win, my_windows,
    xss_sleep_lock_fd, has_notify_command, key_command,
  }

  -- `optional != None && window == optional`
  abbrev is_optional : ℕ → ℕ → Bool
  is_optional optional window = not (optional == 0) && (window == optional)

  pub on_configure : LoopState → ℕ → ℕ → ℕ → M (Unit {0})
  on_configure st window width height = do
    (if window == root_win
        then (do
          (if not (obscurer_win == 0)
              then call (x (move_resize_window obscurer_win 1 1 (less_two width) (less_two height)))
              else pure tt)
          call (x (move_resize_window background_win 0 0 width height))
          call (x (clear_window background_win))
          call (x (move_resize_window saver_win 0 0 width height)))
        else pure tt)
    (if st.auth_window_mapped && (window == watch.auth_win)
        then maybe_raise_window e watch.auth_win false
        else (if window == background_win
            then (maybe_raise_window e background_win false
                >> call (x (clear_window background_win)))
            else (if is_optional obscurer_win window
                then maybe_raise_window e obscurer_win false
                else pure tt)))

  on_obscured : LoopState → ℕ → M LoopState
  on_obscured st window =
      if st.auth_window_mapped && (window == watch.auth_win)
      then (maybe_raise_window e watch.auth_win true >> pure st)
      else (if window == background_win
          then (do
            maybe_raise_window e background_win true
            call (x (clear_window background_win))
            pure (record st { background_window_visible = false }))
          else (if is_optional obscurer_win window
              then (maybe_raise_window e obscurer_win true >> pure st)
              else (if is_optional composite_win window
                  then (call (x (raise_window composite_win)) >> pure st)
                  else pure st)))

  pub on_visibility : LoopState → ℕ → Bool → M LoopState
  unfolding on_obscured
  on_visibility st window true =
      pure (if window == background_win then record st { background_window_visible = true } else st)
  on_visibility st window false = on_obscured st window

  -- The result of WakeUp.
  woken : LoopState → Bool → M (Option LoopState)
  woken st true = pure none
  woken st false = pure (some st)

  on_key : LoopState → KeyAction → M (Option LoopState)
  unfolding woken
  on_key st (wake_up_with text) = wake_up e watch (some text) >>= woken st
  on_key st (run_command name) = call (ran_command name) >> pure (some st)
  on_key st do_nothing = pure (some st)

  on_map : LoopState → ℕ → LoopState
  on_map st window =
      if window == watch.auth_win
      then record st { auth_window_mapped = true }
      else (if window == saver_win
          then record st { saver_window_mapped = true }
          else (if window == background_win
              then record st { background_window_mapped = true }
              else st))

  pub on_unmap : LoopState → ℕ → M LoopState
  on_unmap st window =
      if window == watch.auth_win
      then pure (record st { auth_window_mapped = false })
      else (if window == saver_win
          then (call (x (map_window saver_win)) >> pure (record st { saver_window_mapped = false }))
          else (if window == background_win
              then (do
                call (x (map_raised background_win))
                call (x (clear_window background_win))
                pure (record st { background_window_mapped = false }))
              else (if (is_optional obscurer_win window || is_optional composite_win window)
                    || (window == root_win)
                  then (call (x (map_raised window)) >> pure st)
                  else pure st)))

  pub on_focus : LoopState → ℕ → Bool → M LoopState
  on_focus st window ungrab =
      if (window == root_win) && ungrab
      then (acquire_grabs e my_windows false >>= λ ok.
          pure (if ok then st else record st { need_to_reinstate_grabs = true }))
      else pure st

  -- The switch over the type of the event.
  on_event : Event → LoopState → M (Option LoopState)
  unfolding on_configure on_visibility woken on_key on_map on_unmap on_focus
  on_event filtered st = pure (some st)
  on_event (configure_notify window width height) st =
      on_configure st window width height >> pure (some st)
  on_event (visibility_notify window unobscured) st =
      on_visibility st window unobscured >>= λ st'. pure (some st')
  on_event mouse st = screen_no_longer_blanked e watch.blank >> (wake_up e watch none >>= woken st)
  on_event (key_press k) st =
      screen_no_longer_blanked e watch.blank >> on_key st (key_press_action key_command k)
  on_event release st = screen_no_longer_blanked e watch.blank >> pure (some st)
  on_event (map_notify window) st = pure (some (on_map st window))
  on_event (unmap_notify window) st = on_unmap st window >>= λ st'. pure (some st')
  on_event (focus window ungrab) st = on_focus st window ungrab >>= λ st'. pure (some st')
  on_event (screen_saver_notify on) st =
      pure (some (record st { xss_requested_saver_state = if on then saver_disabled else normal }))
  on_event other_event st = pure (some st)

  notify_started : LoopState → ForkAnswer → LoopState
  notify_started st fork_failed = st
  notify_started st (child_pid pid) = record st { notify_command_pid = pid }

  close_sleep_lock : Option ℕ → M (Unit {0})
  close_sleep_lock none = pure tt
  close_sleep_lock (some fd) = call (closed fd)

  -- NotifyOfLock
  pub notify_of_lock : LoopState → M LoopState
  unfolding notify_started close_sleep_lock
  notify_of_lock st = do
    close_sleep_lock xss_sleep_lock_fd
    (if has_notify_command
        then (fork e notify_child >>= λ a. pure (notify_started st a))
        else pure st)

  -- Behind the switch: is the screen locked now?
  notify_if_locked : LoopState → M (Option LoopState)
  unfolding notify_of_lock
  notify_if_locked st =
      if st.background_window_mapped
        && st.background_window_visible
        && st.saver_window_mapped
        && not st.xss_lock_notified
      then (notify_of_lock st >>= λ st'. pure (some (record st' { xss_lock_notified = true })))
      else pure (some st)

  abbrev is_filtered : Event → Bool
  is_filtered filtered = true
  is_filtered _ = false

  pub handle_event : Event → LoopState → M (Option LoopState)
  unfolding on_event notify_if_locked
  handle_event ev st =
      if is_filtered ev then pure (some st) else step_with notify_if_locked (on_event ev st)
