-- ===== src/Main/Watch/Total.antt =====
-- main.c: WatchChildren and WakeUp return.
use xsecurelock.Prelude.{ℕ, List, Bool, true, false, not, Option}
use xsecurelock.Prelude.Int.{pos}
use xsecurelock.Sys.{Env}
use xsecurelock.Process.Closed.{IsClosed, IsTotal, Closed-pure, Closed-bind, Closed-then, Closed-if}
use xsecurelock.AuthChild.Closed.{want_auth_child-Closed}
use xsecurelock.AuthChild.Total.{watch_auth_child-IsTotal}
use xsecurelock.SaverChild.Closed.{watch_saver_child-Closed}
use xsecurelock.Main.Watch.Closed.{auth_closed-Closed, show_saver-Closed}
use xsecurelock.Main.Watch.{
  WatchChildrenState, Settings, after_auth, watch_children, wake_up, is_force_auth, force_auth,
}

module _ {e : Env} (c : IsClosed e (λ A m. IsTotal m)) (s : Settings) where
  open s use {auth_executable, saver_executable, auth_win, saver_win}

  after_auth-IsTotal :
      (state : WatchChildrenState) (r : Bool × Bool) → IsTotal (after_auth e s state r)
  unfolding after_auth
  after_auth-IsTotal state (true, running) =
      Closed-then c (watch_saver_child-Closed c saver_win (pos 0) saver_executable false)
        (Closed-pure c true)
  after_auth-IsTotal state (false, running) =
      Closed-then c (Closed-if c (not running) (auth_closed-Closed c s) (Closed-pure c tt))
        (show_saver-Closed c s state running)

  pub watch_children-IsTotal :
      (state : WatchChildrenState) (stdinbuf : Option (List ℕ))
      → IsTotal (watch_children e s state stdinbuf)
  unfolding watch_children
  watch_children-IsTotal state stdinbuf =
      Closed-bind c (want_auth_child-Closed c (is_force_auth state)) λ want_auth.
        Closed-if c want_auth
          (Closed-bind c
            (watch_auth_child-IsTotal c auth_win auth_executable stdinbuf (is_force_auth state))
            (after_auth-IsTotal state))
          (show_saver-Closed c s state false)

  pub wake_up-IsTotal : (stdinbuf : Option (List ℕ)) → IsTotal (wake_up e s stdinbuf)
  unfolding wake_up
  wake_up-IsTotal stdinbuf = watch_children-IsTotal force_auth stdinbuf
