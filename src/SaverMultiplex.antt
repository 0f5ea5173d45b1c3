-- ===== src/SaverMultiplex.antt =====
-- helpers/saver_multiplex.c: a saver on the monitor of a window of its own, which a change of the
-- monitors replaces. What XRandR and the X server say is a parameter, `Server`; it may depend on all
-- calls made so far. The signal handlers call KillAllSaverChildrenSigHandler, and are left out.
pub mod Runs
mod Tests
use xsecurelock.Prelude.{ℕ, Bool, not, List, [], ◌∷◌, Option, ◌==◌, if◌then◌else◌}
use xsecurelock.Prelude.Int.{ℤ, pos, is_zero}
use xsecurelock.Sys.Calls.{Trace, x, create_window, map_raised, flush, destroy_window}
use xsecurelock.Sys.{Env, M, pure, ◌>>=◌, ◌>>◌, call, gets}
use xsecurelock.SaverChild.{watch_saver_child}
use xsecurelock.Monitors.{
  Monitor, MonitorInfo, WindowArea, get_primary_monitor, is_monitor_change_event,
}

pub record Server : Type 0 where
  -- what XCreateWindow returns
  pub new_window : Trace → ℕ
  -- the window of the saver, and XRRGetMonitors
  pub area : Trace → WindowArea
  pub monitors : Trace → Option (List MonitorInfo)
  pub event_base : ℕ

-- The static variables `monitor` and `window`.
pub record Screen : Type 0 where
  pub monitor : Monitor
  pub window : ℕ

-- How main ends before its loop, or the state in which the loop begins.
pub data Begun : Type 0 where
  exited_with : ℕ → Begun
  began : Screen → Begun

module _ (e : Env) (server : Server) (parent : ℕ) (saver_executable : List ℕ) where
  -- SpawnSaver
  spawn_saver : Monitor → M Screen
  spawn_saver monitor = do
    win ← gets (λ w. server.new_window w.trace)
    call (x (create_window parent win monitor.x monitor.y monitor.width monitor.height))
    call (x (map_raised win))
    call (x flush)
    watch_saver_child e win (pos 0) saver_executable Bool.true
    pure (record { monitor = monitor; window = win })

  -- KillSaver
  kill_saver : Screen → M (Unit {0})
  kill_saver screen =
      watch_saver_child e screen.window (pos 0) saver_executable Bool.false
      >> call (x (destroy_window screen.window))

  -- GetPrimaryMonitor
  update_monitor : Monitor → M Monitor
  update_monitor monitor =
      gets λ w. get_primary_monitor (server.area w.trace) (server.monitors w.trace) monitor

  -- The body of the loop over pending events, for an event of the given type.
  pub on_event : Screen → ℕ → M Screen
  unfolding spawn_saver kill_saver update_monitor
  on_event screen type =
      if is_monitor_change_event server.event_base type
      then update_monitor screen.monitor >>= (λ monitor. kill_saver screen >> spawn_saver monitor)
      else pure screen

  on_events : Screen → List ℕ → M Screen
  unfolding on_event
  on_events screen [] = pure screen
  on_events screen (type ∷ types) = on_event screen type >>= λ next. on_events next types

  -- The loop, for the events that are pending behind each return of select.
  pub rounds : Screen → List (List ℕ) → M Screen
  unfolding on_events
  rounds screen [] = pure screen
  rounds screen (types ∷ more) =
      watch_saver_child e screen.window (pos 0) saver_executable Bool.true
      >> (on_events screen types >>= λ next. rounds next more)

  -- main up to the loop: with the setting XSECURELOCK_INSIDE_SAVER_MULTIPLEX, whether there is a
  -- display, and `monitor` as it is at first. The setting is exported as 1 to all that is started.
  pub begin : (inside : ℤ) (has_display : Bool) → Monitor → M Begun
  unfolding spawn_saver update_monitor
  begin inside has_display monitor =
      if not (is_zero inside)
      then pure (exited_with 1)
      else if not has_display
      then pure (exited_with 1)
      else if parent == 0
      then pure (exited_with 1)
      else (update_monitor monitor >>= λ m. spawn_saver m >>= λ screen. pure (began screen))
