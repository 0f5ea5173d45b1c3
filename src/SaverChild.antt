-- ===== src/SaverChild.antt =====
-- saver_child.c: the saver children, by index.
pub mod Closed
pub mod Slots
pub mod Runs
use xsecurelock.Prelude.{ℕ, zero, suc, Bool, not, ◌&&◌, List, [], leb, ◌==◌, if◌then◌else◌}
use xsecurelock.Prelude.Int.{ℤ, pos, negsuc}
use xsecurelock.Sys.Calls.{
  ForkAnswer, fork_failed, child_pid, saver_child, sigterm, x, clear_window,
}
use xsecurelock.Sys.{Env, World, M, pure, ◌>>=◌, ◌>>◌, call, modify, gets, fork}
use xsecurelock.Process.{Waited, alive, died, wait_pgrp, kill_pgrp}

-- MAX_SAVERS
abbrev pub max_savers : ℕ
max_savers = 16

abbrev pub update {ℓ} : {A : Type ℓ} → (ℕ → A) → ℕ → A → ℕ → A
update f i a j = if i == j then a else f j

-- `saver_child_pid[index] = pid`
abbrev pub set_pid : ℕ → ℕ → World → World
set_pid index pid w = record w { saver_child_pid = update w.saver_child_pid index pid }

module _ (e : Env) where
  -- The loop of KillAllSaverChildrenSigHandler from `i` on, with `n` rounds left.
  kill_savers_from : ℕ → ℕ → ℕ → M (Unit {0})
  kill_savers_from zero i signo = pure tt
  kill_savers_from (suc n) i signo =
      let again = kill_savers_from n (suc i) signo in
      gets (λ w. w.saver_child_pid i) >>= λ pid.
      (if not (pid == 0) then (kill_pgrp e pid signo >> again) else again)

  -- KillAllSaverChildrenSigHandler
  pub kill_all_saver_children : ℕ → M (Unit {0})
  unfolding kill_savers_from
  kill_all_saver_children signo = kill_savers_from max_savers 0 signo

  -- Behind WaitPgrp: forget a child that has ended.
  saver_waited : ℕ → ℕ → Waited → M (Unit {0})
  saver_waited window index alive = pure tt
  saver_waited window index (died s) = modify (set_pid index 0) >> call (x (clear_window window))

  -- A running child: kill it if it should not run, and see whether it has ended.
  watch_running : ℕ → ℕ → ℕ → Bool → M (Unit {0})
  unfolding saver_waited
  watch_running window index pid should_be_running =
      (if not should_be_running then (kill_pgrp e pid sigterm >> pure tt) else pure tt)
      >> (wait_pgrp e pid (not should_be_running) (not should_be_running)
          >>= saver_waited window index)

  started_saver : ℕ → ForkAnswer → M (Unit {0})
  started_saver index fork_failed = pure tt
  started_saver index (child_pid pid) = modify (set_pid index pid)

  -- WatchSaverChild for an index in range.
  watch_saver_at : ℕ → ℕ → List ℕ → Bool → M (Unit {0})
  unfolding watch_running started_saver
  watch_saver_at window index executable should_be_running = do
    pid ← gets (λ w. w.saver_child_pid index)
    (if not (pid == 0) then watch_running window index pid should_be_running else pure tt)
    pid' ← gets (λ w. w.saver_child_pid index)
    (if should_be_running && (pid' == 0)
        then (fork e (saver_child window index executable) >>= started_saver index)
        else pure tt)

  -- WatchSaverChild; an index out of range is only logged.
  pub watch_saver_child : ℕ → ℤ → List ℕ → Bool → M (Unit {0})
  unfolding watch_saver_at
  watch_saver_child window (negsuc n) executable should_be_running = pure tt
  watch_saver_child window (pos index) executable should_be_running =
      if leb max_savers index
      then pure tt
      else watch_saver_at window index executable should_be_running
