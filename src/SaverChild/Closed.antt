-- ===== src/SaverChild/Closed.antt =====
-- saver_child.c: its functions have every property of Process.Closed.
use xsecurelock.Prelude.{ℕ, zero, suc, refl, List, Bool, true, false, not, ◌&&◌, ◌==◌, leb}
use xsecurelock.Prelude.Int.{ℤ, pos, negsuc}
use xsecurelock.Sys.Calls.{fork_failed, child_pid, ForkAnswer, saver_child}
use xsecurelock.Sys.{Env, modify, M}
use xsecurelock.Sys.Spec.{Grows-refl}
use xsecurelock.Process.Closed.{
  IsClosed, Has, Closed-pure, Closed-gets, Closed-bind, Closed-then, Closed-if, Closed-call,
  Closed-modify, Closed-fork, Closed-kill_pgrp,
}
use xsecurelock.Process.{Waited, alive, died}
use xsecurelock.SaverChild.{
  set_pid, kill_savers_from, kill_all_saver_children, watch_running, saver_waited, started_saver,
  watch_saver_at, watch_saver_child, max_savers,
}

module _ {e : Env} {P : (A : Type 0) → M A → Type 0} (c : IsClosed e P) where
  set_pid-Closed : (index pid : ℕ) → Has c (modify (set_pid index pid))
  set_pid-Closed index pid =
      Closed-modify c (set_pid index pid)
        λ w. record { grows = Grows-refl w; pid = refl; fd = refl }

  kill_savers_from-Closed : (n i signo : ℕ) → Has c (kill_savers_from e n i signo)
  unfolding kill_savers_from
  kill_savers_from-Closed zero i signo = Closed-pure c tt
  kill_savers_from-Closed (suc n) i signo =
      Closed-bind c (Closed-gets c (λ w. w.saver_child_pid i)) λ pid.
        Closed-if c (not (pid == 0))
          (Closed-then c (Closed-kill_pgrp c pid signo) (kill_savers_from-Closed n (suc i) signo))
          (kill_savers_from-Closed n (suc i) signo)

  pub kill_all_saver_children-Closed : (signo : ℕ) → Has c (kill_all_saver_children e signo)
  unfolding kill_all_saver_children
  kill_all_saver_children-Closed signo = kill_savers_from-Closed max_savers 0 signo

  saver_waited-Closed : (window index : ℕ) (r : Waited) → Has c (saver_waited e window index r)
  unfolding saver_waited
  saver_waited-Closed window index alive = Closed-pure c tt
  saver_waited-Closed window index (died s) =
      Closed-then c (set_pid-Closed index 0) (Closed-call c _)

  watch_running-Closed :
      (window index pid : ℕ) (run : Bool) → Has c (watch_running e window index pid run)
  unfolding watch_running
  watch_running-Closed window index pid true =
      Closed-then c (Closed-pure c tt)
        (Closed-bind c (c.waits_pgrp pid) (saver_waited-Closed window index))
  watch_running-Closed window index pid false =
      c.stops pid (saver_waited e window index) (saver_waited-Closed window index)

  started_saver-Closed : (index : ℕ) (a : ForkAnswer) → Has c (started_saver e index a)
  unfolding started_saver
  started_saver-Closed index fork_failed = Closed-pure c tt
  started_saver-Closed index (child_pid pid) = set_pid-Closed index pid

  watch_saver_at-Closed :
      (window index : ℕ) (executable : List ℕ) (run : Bool)
      → Has c (watch_saver_at e window index executable run)
  unfolding watch_saver_at
  watch_saver_at-Closed window index executable run =
      Closed-bind c (Closed-gets c (λ w. w.saver_child_pid index)) λ pid.
        Closed-then c
          (Closed-if c (not (pid == 0)) (watch_running-Closed window index pid run)
            (Closed-pure c tt))
          (Closed-bind c (Closed-gets c (λ w. w.saver_child_pid index)) λ pid'.
            Closed-if c (run && (pid' == 0))
              (Closed-bind c (Closed-fork c (saver_child window index executable))
                (started_saver-Closed index))
              (Closed-pure c tt))

  pub watch_saver_child-Closed :
      (window : ℕ) (index : ℤ) (executable : List ℕ) (run : Bool)
      → Has c (watch_saver_child e window index executable run)
  unfolding watch_saver_child
  watch_saver_child-Closed window (negsuc n) executable run = Closed-pure c tt
  watch_saver_child-Closed window (pos index) executable run =
      Closed-if c (leb max_savers index) (Closed-pure c tt)
        (watch_saver_at-Closed window index executable run)
