-- ===== src/Main/Loop/Events/Closed.antt =====
-- main.c: what the loop of main does about windows and grabs has every property of
-- Process.Closed.
use xsecurelock.Prelude.{
  ℕ, Bool, true, false, not, ◌&&◌, ◌||◌, Option, none, some, ◌==◌, if◌then◌else◌,
}
use xsecurelock.Sys.Calls.{
  x, notify_child, closed, map_window, map_raised, clear_window, raise_window, move_resize_window,
}
use xsecurelock.Sys.{Env, M}
use xsecurelock.Process.Closed.{
  IsClosed, Has, Closed-pure, Closed-bind, Closed-then, Closed-if, Closed-call, Closed-fork,
}
use xsecurelock.Main.Grabs.{maybe_raise_window}
use xsecurelock.Main.Grabs.Closed.{maybe_raise_window-Closed, acquire_grabs-Closed}
use xsecurelock.Main.Loop.Events.{
  LoopSettings, LoopState, on_configure, on_obscured, on_visibility, on_unmap, on_focus,
  notify_of_lock, close_sleep_lock, notify_started, is_optional, less_two,
}

module _ {e : Env} {P : (A : Type 0) → M A → Type 0} (c : IsClosed e P) (s : LoopSettings) where
  open s use {
    watch, root_win, background_win, saver_win, obscurer_win, composite_win, my_windows,
    xss_sleep_lock_fd, has_notify_command,
  }

  raise : (w : ℕ) (force : Bool) → Has c (maybe_raise_window e w force)
  raise w force = maybe_raise_window-Closed c w force

  pub on_configure-Closed :
      (st : LoopState) (window width height : ℕ) → Has c (on_configure e s st window width height)
  unfolding on_configure
  on_configure-Closed st window width height =
      Closed-then c
        (Closed-if c (window == root_win)
          (Closed-then c
            (Closed-if c (not (obscurer_win == 0))
              (Closed-call c
                (x (move_resize_window obscurer_win 1 1 (less_two width) (less_two height))))
              (Closed-pure c tt))
            (Closed-then c (Closed-call c (x (move_resize_window background_win 0 0 width height)))
              (Closed-then c (Closed-call c (x (clear_window background_win)))
                (Closed-call c (x (move_resize_window saver_win 0 0 width height))))))
          (Closed-pure c tt))
        (Closed-if c (st.auth_window_mapped && (window == watch.auth_win))
          (raise watch.auth_win false)
          (Closed-if c (window == background_win)
            (Closed-then c (raise background_win false)
              (Closed-call c (x (clear_window background_win))))
            (Closed-if c (is_optional e s obscurer_win window) (raise obscurer_win false)
              (Closed-pure c tt))))

  on_obscured-Closed : (st : LoopState) (window : ℕ) → Has c (on_obscured e s st window)
  unfolding on_obscured
  on_obscured-Closed st window =
      Closed-if c (st.auth_window_mapped && (window == watch.auth_win))
        (Closed-then c (raise watch.auth_win true) (Closed-pure c st))
        (Closed-if c (window == background_win)
          (Closed-then c (raise background_win true) (
            Closed-then c (Closed-call c (x (clear_window background_win)))
              (Closed-pure c (record st { background_window_visible = false }))))
          (Closed-if c (is_optional e s obscurer_win window)
            (Closed-then c (raise obscurer_win true) (Closed-pure c st))
            (Closed-if c (is_optional e s composite_win window)
              (Closed-then c (Closed-call c (x (raise_window composite_win))) (Closed-pure c st))
              (Closed-pure c st))))

  pub on_visibility-Closed :
      (st : LoopState) (window : ℕ) (unobscured : Bool)
      → Has c (on_visibility e s st window unobscured)
  unfolding on_visibility
  on_visibility-Closed st window true =
      Closed-pure c
        (if window == background_win then record st { background_window_visible = true } else st)
  on_visibility-Closed st window false = on_obscured-Closed st window

  pub on_unmap-Closed : (st : LoopState) (window : ℕ) → Has c (on_unmap e s st window)
  unfolding on_unmap
  on_unmap-Closed st window =
      Closed-if c (window == watch.auth_win)
        (Closed-pure c (record st { auth_window_mapped = false }))
        (Closed-if c (window == saver_win)
          (Closed-then c (Closed-call c (x (map_window saver_win)))
            (Closed-pure c (record st { saver_window_mapped = false })))
          (Closed-if c (window == background_win)
            (Closed-then c (Closed-call c (x (map_raised background_win))) (
              Closed-then c (Closed-call c (x (clear_window background_win)))
                (Closed-pure c (record st { background_window_mapped = false }))))
            (Closed-if c
              ((is_optional e s obscurer_win window || is_optional e s composite_win window)
                || (window == root_win))
              (Closed-then c (Closed-call c (x (map_raised window))) (Closed-pure c st))
              (Closed-pure c st))))

  pub on_focus-Closed :
      (st : LoopState) (window : ℕ) (ungrab : Bool) → Has c (on_focus e s st window ungrab)
  unfolding on_focus
  on_focus-Closed st window ungrab =
      Closed-if c ((window == root_win) && ungrab)
        (Closed-bind c (acquire_grabs-Closed c my_windows false)
          λ ok. Closed-pure c (if ok then st else record st { need_to_reinstate_grabs = true }))
        (Closed-pure c st)

  close_sleep_lock-Closed : (fd? : Option ℕ) → Has c (close_sleep_lock e s fd?)
  unfolding close_sleep_lock
  close_sleep_lock-Closed none = Closed-pure c tt
  close_sleep_lock-Closed (some fd) = Closed-call c (closed fd)

  pub notify_of_lock-Closed : (st : LoopState) → Has c (notify_of_lock e s st)
  unfolding notify_of_lock
  notify_of_lock-Closed st = Closed-then c (close_sleep_lock-Closed xss_sleep_lock_fd) (
      Closed-if c has_notify_command
        (Closed-bind c (Closed-fork c notify_child) λ a. Closed-pure c (notify_started e s st a))
        (Closed-pure c st))
