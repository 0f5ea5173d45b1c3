-- ===== src/SaverMultiplex/Runs.antt =====
-- helpers/saver_multiplex.c: the saver runs in the window that the program has.
use xsecurelock.Prelude.{ℕ, ◌<◌, ◌≡◌, inl, List, [], ◌∷◌, Bool, true, false, if◌then◌else◌, arith}
use xsecurelock.Prelude.Int.{pos}
use xsecurelock.Sys.Calls.{x, create_window, map_raised, flush}
use xsecurelock.Sys.{Env, World, M, pure, ◌>>=◌, ◌>>◌}
use xsecurelock.Sys.Spec.{Ends, bind-Ends, Ends-mono, Finishes→Ends}
use xsecurelock.Process.Returns.{Asked, IsReliable}
use xsecurelock.SaverChild.{watch_saver_child}
use xsecurelock.SaverChild.Slots.{Others, watch_saver_child-frees}
use xsecurelock.SaverChild.Runs.{RunsIn, watch_saver_child-Leads}
use xsecurelock.Monitors.{Monitor, is_monitor_change_event}
use xsecurelock.SaverMultiplex.{
  Server, Screen, spawn_saver, kill_saver, update_monitor, on_event, on_events, rounds,
}

module _ (e : Env) (server : Server) (parent : ℕ) (executable : List ℕ) (patience : ℕ)
    (reliable : IsReliable e patience Asked) (enough : patience < e.fuel) where
  -- The saver, if there is one, runs in the window of the screen.
  abbrev pub RunsOn : Screen → World → Type 0
  RunsOn screen w = RunsIn screen.window executable w

  -- The calls of SpawnSaver, from a world in which the slot is free.
  spawn_saver-RunsOn :
      (monitor : Monitor) (w : World)
      → w.saver_child_pid 0 ≡ 0
      → Ends RunsOn (spawn_saver e server parent executable monitor w)
  unfolding spawn_saver
  spawn_saver-RunsOn monitor w free =
      let win = server.new_window w.trace in
      let v = record w {
        trace =
            x flush
            ∷ x (map_raised win)
            ∷ x (create_window parent win monitor.x monitor.y monitor.width monitor.height)
            ∷ w.trace;
      } in
      bind-Ends (λ _ u. RunsIn win executable u) RunsOn
        (watch_saver_child e win (pos 0) executable true v) _
        (Ends-mono _ (λ _ u. RunsIn win executable u)
          (watch_saver_child e win (pos 0) executable true v)
          ((watch_saver_child-Leads win executable e true).stays v) λ _ u lead. lead (inl free))
        λ _ u h. h

  kill_saver-frees :
      (screen : Screen) (w : World)
      → Ends (λ _ v. v.saver_child_pid 0 ≡ 0) (kill_saver e server parent executable screen w)
  unfolding kill_saver
  kill_saver-frees screen w =
      bind-Ends (λ _ v. (v.saver_child_pid 0 ≡ 0) × Others 0 w v) (λ _ v. v.saver_child_pid 0 ≡ 0)
        (watch_saver_child e screen.window (pos 0) executable false w) _
        (Finishes→Ends _ (watch_saver_child e screen.window (pos 0) executable false w) (
          watch_saver_child-frees e patience reliable enough screen.window 0 executable w
            (omega arith)))
        λ _ v (free, others). free

  on_event-RunsOn :
      (screen : Screen) (type : ℕ) (w : World)
      → RunsOn screen w
      → Ends RunsOn (on_event e server parent executable screen type w)
  unfolding on_event update_monitor
  on_event-RunsOn screen type w h = go (is_monitor_change_event server.event_base type)
    where
      changed : M Screen
      changed = update_monitor e server parent executable screen.monitor >>= λ monitor.
          kill_saver e server parent executable screen
          >> spawn_saver e server parent executable monitor

      go : (b : Bool) → Ends RunsOn ((if b then changed else pure screen) w)
      go true =
          bind-Ends (λ _ v. v.saver_child_pid 0 ≡ 0) RunsOn
            (kill_saver e server parent executable screen w) _ (kill_saver-frees screen w)
            λ _ v free. spawn_saver-RunsOn _ v free
      go false = h

  on_events-RunsOn :
      (types : List ℕ) (screen : Screen) (w : World)
      → RunsOn screen w
      → Ends RunsOn (on_events e server parent executable screen types w)
  unfolding on_events
  on_events-RunsOn [] screen w h = h
  on_events-RunsOn (type ∷ types) screen w h =
      bind-Ends RunsOn RunsOn (on_event e server parent executable screen type w) _
        (on_event-RunsOn screen type w h) (on_events-RunsOn types)

  -- If waitpid behaves as documented and savers that have been asked to end do so within `patience`
  -- wakeups, which is less than the fuel, then from a world where the saver, if there is one, was started in the window of the
  -- screen with the configured program, any sequence of events leads to such worlds only: a change
  -- of the monitors never leaves a saver that was started in an earlier window.
  pub rounds-RunsOn :
      (more : List (List ℕ)) (screen : Screen) (w : World)
      → RunsOn screen w
      → Ends RunsOn (rounds e server parent executable screen more w)
  unfolding rounds
  rounds-RunsOn [] screen w h = h
  rounds-RunsOn (types ∷ more) screen w h =
      bind-Ends (λ _ v. RunsOn screen v) RunsOn
        (watch_saver_child e screen.window (pos 0) executable true w) _
        (Ends-mono _ (λ _ v. RunsOn screen v) _
          ((watch_saver_child-Leads screen.window executable e true).stays w) λ _ v lead. lead h)
        λ _ v k.
          bind-Ends RunsOn RunsOn (on_events e server parent executable screen types v) _
            (on_events-RunsOn types screen v k) (rounds-RunsOn more)
