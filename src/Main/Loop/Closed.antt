-- ===== src/Main/Loop/Closed.antt =====
-- main.c: the parts of a frame that leave the children alone have every property of Process.Closed.
use xsecurelock.Prelude.{false, not, ◌==◌}
use xsecurelock.Sys.Calls.{x, map_raised}
use xsecurelock.Sys.{Env, M}
use xsecurelock.Process.Closed.{
  IsClosed, Has, Closed-pure, Closed-bind, Closed-then, Closed-if, Closed-call,
}
use xsecurelock.Main.Grabs.Closed.{acquire_grabs-Closed}
use xsecurelock.Main.Loop.Events.{LoopSettings, LoopState}
use xsecurelock.Main.Loop.{reinstate_grabs, take_care_of_zombies, reaped_notify, map_windows}

module _ {e : Env} {P : (A : Type 0) → M A → Type 0} (c : IsClosed e P) (s : LoopSettings) where
  open s use {obscurer_win, my_windows}

  pub reinstate_grabs-Closed : (st : LoopState) → Has c (reinstate_grabs e s st)
  unfolding reinstate_grabs
  reinstate_grabs-Closed st =
      Closed-if c st.need_to_reinstate_grabs
        (Closed-bind c (acquire_grabs-Closed c my_windows false)
          λ ok. Closed-pure c (record st { need_to_reinstate_grabs = not ok }))
        (Closed-pure c st)

  pub take_care_of_zombies-Closed : (st : LoopState) → Has c (take_care_of_zombies e s st)
  unfolding take_care_of_zombies
  take_care_of_zombies-Closed st =
      Closed-if c (not (st.notify_command_pid == 0))
        (Closed-bind c (c.waits_proc st.notify_command_pid)
          λ r. Closed-pure c (reaped_notify e s st r))
        (Closed-pure c st)

  pub map_windows-Closed : Has c (map_windows e s)
  unfolding map_windows
  map_windows-Closed = Closed-then c (Closed-call c _) (
      Closed-then c (Closed-call c _) (
        Closed-then c (Closed-call c _) (
          Closed-then c (Closed-call c _) (
            Closed-then c
              (Closed-if c (not (obscurer_win == 0)) (Closed-call c (x (map_raised obscurer_win)))
                (Closed-pure c tt))
              (Closed-call c _)))))
