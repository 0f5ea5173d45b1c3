-- ===== src/Main/Done.antt =====
-- main.c: the code behind `done`. Pixmaps and cursors are left out, and so is the mode in which the focus
-- reverts. A window that is not there is 0.
pub mod Restore
mod Tests
use xsecurelock.Prelude.{ℕ, not, ◌==◌, if◌then◌else◌}
use xsecurelock.Sys.Calls.{
  x, set_input_focus, destroy_window, release_overlay_window, close_display,
}
use xsecurelock.Sys.{Env, M, pure, ◌>>◌, call}
use xsecurelock.Main.Blank.{unblank_screen}
use xsecurelock.Main.Loop.Events.{LoopSettings}

module _ (e : Env) (s : LoopSettings) where
  open s use {watch, background_win, saver_win, obscurer_win, composite_win}

  -- Behind UnblankScreen.
  release_resources : ℕ → M (Unit {0})
  release_resources previous_focused_window = do
    (if not (previous_focused_window == 0)
        then call (x (set_input_focus previous_focused_window))
        else pure tt)
    (if not (obscurer_win == 0) then call (x (destroy_window obscurer_win)) else pure tt)
    (if not (composite_win == 0) then call (x (release_overlay_window composite_win)) else pure tt)
    call (x (destroy_window watch.auth_win))
    call (x (destroy_window saver_win))
    call (x (destroy_window background_win))
    call (x close_display)

  -- From `done` to the end of main, which returns EXIT_SUCCESS.
  pub clean_up : ℕ → M (Unit {0})
  unfolding release_resources
  clean_up previous_focused_window =
      unblank_screen e watch.blank >> release_resources previous_focused_window
