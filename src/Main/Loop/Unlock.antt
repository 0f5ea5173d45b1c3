-- ===== src/Main/Loop/Unlock.antt =====
-- main.c: main reaches `done`, where the screen is unlocked, only after a successful authentication.
use xsecurelock.Prelude.{
  ◌≡◌, refl, List, [], ◌∷◌, Bool, true, false, Option, none, some, inl, if◌then◌else◌,
}
use xsecurelock.Sys.Calls.{x, undefine_cursor, flush}
use xsecurelock.Sys.{Env, World, M, pure, ◌>>=◌, ◌>>◌, call}
use xsecurelock.Process.Closed.{Keeps-IsClosed}
use xsecurelock.Sys.Spec.{Ends, bind-Ends, Ends-mono}
use xsecurelock.Sys.Keeps.{call-Keeps}
use xsecurelock.Main.Blank.{init_blank_screen, unblank_screen}
use xsecurelock.Main.Blank.Closed.{init_blank_screen-Closed, unblank_screen-Closed}
use xsecurelock.Main.Watch.{WatchChildrenState, watch_children, wake_up}
use xsecurelock.Main.Watch.Safety.{OurChild, Unlocks, watch_children-Unlocks, wake_up-Unlocks}
use xsecurelock.Main.Loop.Events.{LoopSettings, LoopState, Event, handle_event}
use xsecurelock.Main.Loop.Events.Unlock.{
  Unlocked, Safe, Authenticated→Unlocked, some-Safe, step_with-Safe, then-Safe, handle_event-Safe,
}
use xsecurelock.Main.Loop.Closed.{
  reinstate_grabs-Closed, take_care_of_zombies-Closed, map_windows-Closed,
}
use xsecurelock.Main.Loop.{
  requested_saver_state, reinstate_grabs, take_care_of_zombies, signal_wake_up, before_events,
  handle_events, frame, loop, map_windows, run, enter_loop, first_state,
}

module _ (e : Env) (s : LoopSettings) where
  open s use {watch, background_win, saver_win, obscurer_win, my_windows}

  -- Code that has asked WatchChildren or WakeUp, and leaves the loop exactly on true.
  asked-Safe :
      (m : M Bool) (f : Bool → M (Option LoopState)) (w : World)
      → Ends (Unlocks e watch w) (m w)
      → ((v : World) → Ends (λ r u. (r ≡ none) × (u ≡ v)) (f true v))
      → ((v : World) → OurChild e watch v → Ends (Safe e s) (f false v))
      → Ends (Safe e s) ((m >>= f) w)
  asked-Safe m f w h ends continues = bind-Ends (Unlocks e watch w) (Safe e s) (m w) f h go
    where
      go : (ok : Bool) (v : World) → Unlocks e watch w ok v → Ends (Safe e s) (f ok v)
      go true v (g, o, h) =
          Ends-mono (λ r u. (r ≡ none) × (u ≡ v)) (Safe e s) (f true v) (ends v)
            λ r u (isnone, same). rw same (o, λ _. Authenticated→Unlocked e s w v (h refl))
      go false v (g, o, h) = continues v o

  signal_wake_up-Safe :
      (signal_wakeup : Bool) (st : LoopState) (w : World)
      → OurChild e watch w
      → Ends (Safe e s) (signal_wake_up e s signal_wakeup st w)
  unfolding signal_wake_up
  signal_wake_up-Safe false st w o = some-Safe e s st w o
  signal_wake_up-Safe true st w o =
      then-Safe e s (unblank_screen e watch.blank) _ w o
        (unblank_screen-Closed (Keeps-IsClosed e) watch.blank)
        λ _ v o'.
          asked-Safe (wake_up e watch none) (λ ok. pure (if ok then none else some st)) v
            (wake_up-Unlocks e watch none v o') (λ u. (refl, refl)) (some-Safe e s st)

  before_events-Safe :
      (signal_wakeup : Bool) (st : LoopState) (w : World)
      → OurChild e watch w
      → Ends (Safe e s) (before_events e s signal_wakeup st w)
  unfolding before_events
  before_events-Safe signal_wakeup st w o =
      then-Safe e s (call (x (undefine_cursor saver_win))) _ w o (call-Keeps _) λ _ v o'.
        then-Safe e s (reinstate_grabs e s st) _ v o'
          (reinstate_grabs-Closed (Keeps-IsClosed e) s st)
          λ granted u o''.
            then-Safe e s (take_care_of_zombies e s granted) (signal_wake_up e s signal_wakeup) u
              o'' (take_care_of_zombies-Closed (Keeps-IsClosed e) s granted)
              (signal_wake_up-Safe signal_wakeup)

  handle_events-Safe :
      (evs : List Event) (st : LoopState) (w : World)
      → OurChild e watch w
      → Ends (Safe e s) (handle_events e s evs st w)
  unfolding handle_events
  handle_events-Safe [] st w o = some-Safe e s st w o
  handle_events-Safe (ev ∷ evs) st w o =
      step_with-Safe e s (handle_events e s evs) (handle_event e s ev st) w
        (handle_event-Safe e s ev st w o) (handle_events-Safe evs)

  frame-Safe :
      (signal_wakeup : Bool) (evs : List Event) (st : LoopState) (w : World)
      → OurChild e watch w
      → Ends (Safe e s) (frame e s signal_wakeup evs st w)
  unfolding frame
  frame-Safe signal_wakeup evs st w o =
      asked-Safe (watch_children e watch (requested_saver_state e s st w.blanked) none) _ w
        (watch_children-Unlocks e watch (requested_saver_state e s st w.blanked) none w o)
        (λ v. (refl, refl))
        λ v o'.
          step_with-Safe e s (handle_events e s evs) (before_events e s signal_wakeup st) v
            (before_events-Safe signal_wakeup st v o') (handle_events-Safe evs)

  loop-Safe :
      (rounds : List (Bool × List Event)) (st : LoopState) (w : World)
      → OurChild e watch w
      → Ends (Safe e s) (loop e s rounds st w)
  unfolding loop
  loop-Safe [] st w o = some-Safe e s st w o
  loop-Safe ((signal_wakeup, evs) ∷ rounds) st w o =
      step_with-Safe e s (loop e s rounds) (frame e s signal_wakeup evs st) w
        (frame-Safe signal_wakeup evs st w o) (loop-Safe rounds)

  -- From a world in which there is no authentication child yet, and whatever the kernel and the X
  -- server answer, and whatever signals and events come: if main reaches `done`, then a process had
  -- been forked to run the authentication module on the authentication window, and after that
  -- waitpid has reported that it exited with 0.
  pub run-Unlocked :
      (xss_state : WatchChildrenState) (rounds : List (Bool × List Event)) (w : World)
      → w.auth_child_pid ≡ 0
      → Ends (λ r v. r ≡ none → Unlocked e s v.trace) (run e s xss_state rounds w)
  unfolding run enter_loop
  run-Unlocked xss_state rounds w idle =
      Ends-mono (Safe e s) (λ r v. r ≡ none → Unlocked e s v.trace) (run e s xss_state rounds w)
        (then-Safe e s (init_blank_screen e watch.blank) (λ _. call (x flush) >> rest) w (inl idle)
          (init_blank_screen-Closed (Keeps-IsClosed e) watch.blank)
          λ _ v o.
            then-Safe e s (call (x flush)) (λ _. rest) v o (call-Keeps (x flush))
              λ _ v' o'.
                asked-Safe (watch_children e watch xss_state none) (enter_loop e s xss_state rounds)
                  v' (watch_children-Unlocks e watch xss_state none v' o') (λ u. (refl, refl))
                  λ u o''.
                    then-Safe e s (map_windows e s)
                      (λ _. loop e s rounds (first_state e s xss_state)) u o''
                      (map_windows-Closed (Keeps-IsClosed e) s)
                      λ _ u'. loop-Safe rounds (first_state e s xss_state) u')
        λ r v h. h.1
    where
      rest : M (Option LoopState)
      rest = watch_children e watch xss_state none >>= enter_loop e s xss_state rounds
