-- ===== src/Main/Watch/Closed.antt =====
-- main.c: what WatchChildren does about the saver has every property of Process.Closed.
use xsecurelock.Prelude.{Bool, false, not}
use xsecurelock.Prelude.Int.{pos}
use xsecurelock.Sys.Calls.{x, unmap_window, sigusr1}
use xsecurelock.Sys.{Env, M}
use xsecurelock.Process.Closed.{IsClosed, Has, Closed-pure, Closed-then, Closed-if, Closed-call}
use xsecurelock.SaverChild.Closed.{watch_saver_child-Closed, kill_all_saver_children-Closed}
use xsecurelock.Main.Blank.Closed.{unblank_screen-Closed, maybe_blank_screen-Closed}
use xsecurelock.Main.Watch.{
  WatchChildrenState, Settings, auth_closed, show_saver, is_saver_disabled,
}

module _ {e : Env} {P : (A : Type 0) → M A → Type 0} (c : IsClosed e P) (s : Settings) where
  open s use {saver_executable, saver_reset_on_auth_close, blank, auth_win, saver_win}

  pub auth_closed-Closed : Has c (auth_closed e s)
  unfolding auth_closed
  auth_closed-Closed = Closed-then c (Closed-call c (x (unmap_window auth_win))) (
      Closed-if c saver_reset_on_auth_close (kill_all_saver_children-Closed c sigusr1)
        (Closed-pure c tt))

  pub show_saver-Closed :
      (state : WatchChildrenState) (running : Bool) → Has c (show_saver e s state running)
  unfolding show_saver
  show_saver-Closed state running =
      Closed-then c
        (watch_saver_child-Closed c saver_win (pos 0) saver_executable
          (not (is_saver_disabled state)))
        (Closed-then c
          (Closed-if c running (unblank_screen-Closed c blank) (maybe_blank_screen-Closed c blank))
          (Closed-pure c false))
