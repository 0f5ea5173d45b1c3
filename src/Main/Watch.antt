-- ===== src/Main/Watch.antt =====
-- main.c: WatchChildren, WakeUp and the settings that they use.
pub mod Closed
pub mod Exits
pub mod Safety
pub mod Total
use xsecurelock.Prelude.{ℕ, Bool, true, false, not, List, [], Option, if◌then◌else◌}
use xsecurelock.Prelude.Int.{pos}
use xsecurelock.Sys.Calls.{x, unmap_window, sigusr1}
use xsecurelock.Sys.{Env, M, pure, ◌>>=◌, ◌>>◌, call}
use xsecurelock.AuthChild.{want_auth_child, watch_auth_child}
use xsecurelock.SaverChild.{watch_saver_child, kill_all_saver_children}
use xsecurelock.Main.Blank.{BlankSettings, unblank_screen, maybe_blank_screen}

-- enum WatchChildrenState
pub data WatchChildrenState : Type 0 where
  normal saver_disabled force_auth : WatchChildrenState

abbrev pub is_force_auth : WatchChildrenState → Bool
is_force_auth force_auth = true
is_force_auth normal = false
is_force_auth saver_disabled = false

abbrev pub is_saver_disabled : WatchChildrenState → Bool
is_saver_disabled saver_disabled = true
is_saver_disabled normal = false
is_saver_disabled force_auth = false

-- The settings of the main program that these functions read, and the two windows.
pub record Settings : Type 0 where
  pub auth_executable : List ℕ
  pub saver_executable : List ℕ
  pub saver_reset_on_auth_close : Bool
  pub blank : BlankSettings
  pub auth_win : ℕ
  pub saver_win : ℕ

module _ (e : Env) (s : Settings) where
  open s use {
    auth_executable, saver_executable, saver_reset_on_auth_close, blank, auth_win, saver_win,
  }

  -- Auth has just ended, or could not be started.
  pub auth_closed : M (Unit {0})
  auth_closed =
      call (x (unmap_window auth_win))
      >> (if saver_reset_on_auth_close then kill_all_saver_children e sigusr1 else pure tt)

  -- The second half of WatchChildren.
  pub show_saver : WatchChildrenState → Bool → M Bool
  show_saver state auth_running = do
    watch_saver_child e saver_win (pos 0) saver_executable (not (is_saver_disabled state))
    (if auth_running then unblank_screen e blank else maybe_blank_screen e blank)
    pure false

  -- Behind WatchAuthChild.
  after_auth : WatchChildrenState → Bool × Bool → M Bool
  unfolding auth_closed show_saver
  after_auth state (true, auth_running) =
      watch_saver_child e saver_win (pos 0) saver_executable false >> pure true
  after_auth state (false, auth_running) =
      (if not auth_running then auth_closed else pure tt) >> show_saver state auth_running

  -- WatchChildren: true if authentication was successful and the program should exit.
  pub watch_children : WatchChildrenState → Option (List ℕ) → M Bool
  unfolding after_auth
  watch_children state stdinbuf = do
    want_auth ← want_auth_child e (is_force_auth state)
    if want_auth
        then (watch_auth_child e auth_win auth_executable (is_force_auth state) stdinbuf
            >>= after_auth state)
        else show_saver state false

  -- WakeUp
  pub wake_up : Option (List ℕ) → M Bool
  wake_up stdinbuf = watch_children force_auth stdinbuf
