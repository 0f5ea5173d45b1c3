-- ===== src/Main/Loop/Total.antt =====
-- main.c: no round of the loop of main hangs.
use xsecurelock.Prelude.{ℕ, ◌<◌, List, [], ◌∷◌, Bool, true, false, none, some}
use xsecurelock.Sys.Calls.{x, undefine_cursor, flush}
use xsecurelock.Sys.{Env, World}
use xsecurelock.Process.Returns.{Asked, IsReliable, Returns}
use xsecurelock.Process.Closed.{
  IsClosed, IsTotal, IsTotal-IsClosed, IsTotal-Returns, Closed-pure, Closed-gets, Closed-bind,
  Closed-then, Closed-if, Closed-call,
}
use xsecurelock.Main.Blank.Closed.{init_blank_screen-Closed, unblank_screen-Closed}
use xsecurelock.Main.Watch.{WatchChildrenState}
use xsecurelock.Main.Watch.Total.{watch_children-IsTotal, wake_up-IsTotal}
use xsecurelock.Main.Loop.Events.{LoopSettings, LoopState, Event, handle_event}
use xsecurelock.Main.Loop.Events.Total.{step_with-IsTotal, handle_event-IsTotal}
use xsecurelock.Main.Loop.Closed.{
  reinstate_grabs-Closed, take_care_of_zombies-Closed, map_windows-Closed,
}
use xsecurelock.Main.Loop.{
  requested_saver_state, signal_wake_up, before_events, handle_events, frame, loop, run, enter_loop,
  first_state,
}

module _ {e : Env} (c : IsClosed e (λ A m. IsTotal m)) (s : LoopSettings) where
  open s use {watch, saver_win}

  signal_wake_up-IsTotal :
      (signal_wakeup : Bool) (st : LoopState) → IsTotal (signal_wake_up e s signal_wakeup st)
  unfolding signal_wake_up
  signal_wake_up-IsTotal signal_wakeup st =
      Closed-if c signal_wakeup
        (Closed-then c (unblank_screen-Closed c watch.blank)
          (Closed-bind c (wake_up-IsTotal c watch none) λ ok. Closed-pure c _))
        (Closed-pure c (some st))

  before_events-IsTotal :
      (signal_wakeup : Bool) (st : LoopState) → IsTotal (before_events e s signal_wakeup st)
  unfolding before_events
  before_events-IsTotal signal_wakeup st =
      Closed-then c (Closed-call c (x (undefine_cursor saver_win))) (
        Closed-bind c (reinstate_grabs-Closed c s st) λ granted.
          Closed-bind c (take_care_of_zombies-Closed c s granted)
            (signal_wake_up-IsTotal signal_wakeup))

  handle_events-IsTotal : (evs : List Event) (st : LoopState) → IsTotal (handle_events e s evs st)
  unfolding handle_events
  handle_events-IsTotal [] st = Closed-pure c (some st)
  handle_events-IsTotal (ev ∷ evs) st =
      step_with-IsTotal c (handle_events e s evs) (handle_event e s ev st)
        (handle_event-IsTotal c s ev st) (handle_events-IsTotal evs)

  frame-IsTotal :
      (signal_wakeup : Bool) (evs : List Event) (st : LoopState)
      → IsTotal (frame e s signal_wakeup evs st)
  unfolding frame
  frame-IsTotal signal_wakeup evs st = Closed-bind c (Closed-gets c (λ w. w.blanked)) λ blanked.
      Closed-bind c (watch_children-IsTotal c watch (requested_saver_state e s st blanked) none)
        λ ok. Closed-if c ok (Closed-pure c none) (
          step_with-IsTotal c (handle_events e s evs) (before_events e s signal_wakeup st)
            (before_events-IsTotal signal_wakeup st) (handle_events-IsTotal evs))

  loop-IsTotal : (rounds : List (Bool × List Event)) (st : LoopState) → IsTotal (loop e s rounds st)
  unfolding loop
  loop-IsTotal [] st = Closed-pure c (some st)
  loop-IsTotal ((signal_wakeup, evs) ∷ rounds) st =
      step_with-IsTotal c (loop e s rounds) (frame e s signal_wakeup evs st)
        (frame-IsTotal signal_wakeup evs st) (loop-IsTotal rounds)

  enter_loop-IsTotal :
      (xss_state : WatchChildrenState) (rounds : List (Bool × List Event)) (ok : Bool)
      → IsTotal (enter_loop e s xss_state rounds ok)
  unfolding enter_loop
  enter_loop-IsTotal xss_state rounds true = Closed-pure c none
  enter_loop-IsTotal xss_state rounds false =
      Closed-then c (map_windows-Closed c s) (loop-IsTotal rounds (first_state e s xss_state))

  run-IsTotal :
      (xss_state : WatchChildrenState) (rounds : List (Bool × List Event))
      → IsTotal (run e s xss_state rounds)
  unfolding run
  run-IsTotal xss_state rounds = Closed-then c (init_blank_screen-Closed c watch.blank) (
      Closed-then c (Closed-call c (x flush)) (
        Closed-bind c (watch_children-IsTotal c watch xss_state none)
          (enter_loop-IsTotal xss_state rounds)))

-- If waitpid behaves as documented, and a child to which the program has sent SIGTERM since it was
-- started ends within `patience` wakeups, which is less than the fuel, then any number of rounds of the loop, whatever
-- signals and events come, is completed, or left by `goto done`, from any world.
pub run-Returns :
    (e : Env) (s : LoopSettings) (patience : ℕ)
    → IsReliable e patience Asked
    → patience < e.fuel
    → (xss_state : WatchChildrenState) (rounds : List (Bool × List Event)) (w : World)
    → Returns (run e s xss_state rounds w)
run-Returns e s patience reliable enough xss_state rounds w =
    IsTotal-Returns (run e s xss_state rounds)
      (run-IsTotal (IsTotal-IsClosed e patience reliable enough) s xss_state rounds) w
