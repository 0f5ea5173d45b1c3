-- ===== src/Process.antt =====
-- wait_pgrp.c: waiting for child processes and killing process groups. (What a new child does to
-- its signal handlers and its process group is not modelled; what it runs is a `Child`.)
pub mod Spec
pub mod Returns
pub mod Closed
pub mod Ended
pub mod Exits
pub mod Tests
use xsecurelock.Prelude.{
  ℕ, zero, suc, ◌-◌, ◌^◌, Bool, true, false, Option, none, some, ◌==◌, if◌then◌else◌, ltb, not,
}
use xsecurelock.Prelude.Int.{ℤ, pos, negsuc, neg_ℕ}
use xsecurelock.Sys.Calls.{
  WaitAnswer, wait_failed, not_yet, reported, echild, eintr, other_error, Status, signaled, exited,
  stopped, group, process, KillAnswer, kill_ok, no_such_process, kill_failed, sigterm, suspended,
  blocked, restored,
}
use xsecurelock.Sys.{Env, M, pure, bind, ◌>>=◌, ◌>>◌, call, waitpid, kill}

-- WAIT_ALREADY_DEAD and WAIT_NONPOSITIVE_SIGNAL: INT_MIN and INT_MIN + 1.
abbrev pub wait_already_dead : ℤ
wait_already_dead = negsuc (2 ^ 31 - 1)

abbrev pub wait_nonpositive_signal : ℤ
wait_nonpositive_signal = negsuc (2 ^ 31 - 2)

-- The result of WaitProc: 0, with `*pid` as it was; or 1, with `*pid` set to 0 and `*exit_status`.
pub data Waited : Type 0 where
  alive : Waited
  died : ℤ → Waited

-- `*exit_status` for a status that ends the loop.
pub final_status : Status → Option ℤ
final_status (signaled signo) = some (if ltb 0 signo then neg_ℕ signo else wait_nonpositive_signal)
final_status (exited code) = some (pos code)
final_status stopped = none

-- What the body of the loop makes of an answer: `some r` ends the loop with that result.
pub step : ℕ → WaitAnswer → Option Waited
unfolding final_status
step pid (wait_failed echild) = some (died wait_already_dead)
step pid (wait_failed eintr) = none
step pid (wait_failed other_error) = none
step pid (reported got status) =
    if got == pid then elim (final_status status) [ none ↦ none | some s ↦ some (died s) ] else none
step pid not_yet = none

pub is_not_yet : WaitAnswer → Bool
is_not_yet not_yet = true
is_not_yet (wait_failed _) = false
is_not_yet (reported _ _) = false

module _ (e : Env) where
  -- Behind waitpid, for what `step` makes of the answer.
  after_step : Bool → M Waited → WaitAnswer → Option Waited → M Waited
  unfolding is_not_yet
  after_step do_block again a (some r) = pure r
  after_step do_block again a none =
      if is_not_yet a then (if do_block then (call suspended >> again) else pure alive) else again

  after_wait : ℕ → Bool → M Waited → WaitAnswer → M Waited
  unfolding step after_step
  after_wait pid do_block again a = after_step do_block again a (step pid a)

  wait_loop : ℕ → ℕ → Bool → M Waited
  unfolding after_wait
  wait_loop zero pid do_block w = none
  wait_loop (suc fuel) pid do_block w =
      let again = wait_loop fuel pid do_block in
      bind (waitpid e pid w) (after_wait pid do_block again)

  -- WaitProc for a `*pid` that is not 0. `already_killed` matters for the log only.
  pub wait_proc : ℕ → Bool → M Waited
  unfolding wait_loop
  wait_proc pid do_block = do
    call (blocked do_block)
    r ← wait_loop e.fuel pid do_block
    call restored
    pure r

  -- Behind the first kill of KillPgrp.
  after_kill : ℕ → ℕ → KillAnswer → M KillAnswer
  after_kill pid signo no_such_process = kill e (process pid) signo
  after_kill pid signo kill_ok = pure kill_ok
  after_kill pid signo kill_failed = pure kill_failed

  -- KillPgrp
  pub kill_pgrp : ℕ → ℕ → M KillAnswer
  unfolding after_kill
  kill_pgrp pid signo = kill e (group pid) signo >>= after_kill pid signo

  -- Behind WaitProc in WaitPgrp: kill what is left of the group.
  kill_rest : ℕ → Bool → Waited → M Waited
  unfolding kill_pgrp
  kill_rest pid already_killed alive = pure alive
  kill_rest pid already_killed (died s) =
      if not already_killed then (kill_pgrp pid sigterm >> pure (died s)) else pure (died s)

  -- WaitPgrp
  pub wait_pgrp : ℕ → Bool → Bool → M Waited
  unfolding wait_proc kill_rest
  wait_pgrp pid do_block already_killed = wait_proc pid do_block >>= kill_rest pid already_killed
