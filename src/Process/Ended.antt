-- ===== src/Process/Ended.antt =====
-- wait_pgrp.c: the end of a process and its status, as waitpid(2) has them, and what WaitPgrp says.
use xsecurelock.Prelude.{
  ℕ, zero, suc, ◌≡◌, refl, inl, inr, Bool, true, false, Option, none, some, ◌==◌, Bool-cases, arith,
  ==_iff,
}
use xsecurelock.Prelude.Int.{ℤ, pos, negsuc}
use xsecurelock.Sys.Calls.{
  Trace, WaitAnswer, wait_failed, not_yet, reported, echild, eintr, other_error, Status, exited,
  signaled, stopped, waited,
}
use xsecurelock.Sys.{Env, World}
use xsecurelock.Sys.Spec.{Made, Ends, Ends-both, Adds}
use xsecurelock.Process.{
  Waited, alive, died, step, final_status, wait_pgrp, wait_already_dead, wait_nonpositive_signal,
}
use xsecurelock.Process.Spec.{Justified, wait_pgrp-Justified}
use xsecurelock.Process.Returns.{Over, wait_pgrp-Over}

-- What a status says of the end of a process: its exit code, or the signal that has killed it, negated.
pub data Says : Status → ℤ → Type 0 where
  by_exit : (code : ℕ) → Says (exited code) (pos code)
  by_signal : (n : ℕ) → Says (signaled (suc n)) (negsuc n)
  by_no_signal : Says (signaled 0) wait_nonpositive_signal

-- An answer of waitpid tells that the process has ended with a status: it reports this very process,
-- or that there is no such child.
pub data Tells (pid : ℕ) : WaitAnswer → ℤ → Type 0 where
  tells : {status : Status} {s : ℤ} → Says status s → Tells pid (reported pid status) s
  tells_no_child : Tells pid (wait_failed echild) wait_already_dead

-- `died s` with the answer that tells so among the calls `new`; `alive` only where the call must not
-- block.
abbrev pub Ended : ℕ → Bool → Waited → Trace → Type 0
Ended pid do_block (died s) new = (a : WaitAnswer) × Made (waited pid a) new × Tells pid a s
Ended pid do_block alive new = do_block ≡ false

final_status-Says : (status : Status) (s : ℤ) → final_status status ≡ some s → Says status s
unfolding final_status
final_status-Says (exited code) s h = let e : s ≡ pos code = cc (h) in rw e (by_exit code)
final_status-Says (signaled zero) s h =
    let e : s ≡ wait_nonpositive_signal = cc (h) in rw e by_no_signal
final_status-Says (signaled (suc n)) s h = let e : s ≡ negsuc n = ground arith in rw e (by_signal n)
final_status-Says stopped s h = absurd (cc (h))

step-Tells : (pid : ℕ) (a : WaitAnswer) (s : ℤ) → step pid a ≡ some (died s) → Tells pid a s
unfolding step
step-Tells pid (wait_failed echild) s h =
    let e : s ≡ wait_already_dead = cc (h) in rw e tells_no_child
step-Tells pid (wait_failed eintr) s h = absurd (cc (h))
step-Tells pid (wait_failed other_error) s h = absurd (cc (h))
step-Tells pid not_yet s h = absurd (cc (h))
step-Tells pid (reported got status) s h = elim (Bool-cases (got == pid)) [
  | inl same ↦
      let e : got ≡ pid = (==_iff got pid).0 same in
      rw e (tells (final_status-Says status s (by_status (final_status status) (rw same at h))))
  | inr other ↦ absurd (cc (rw other at h))
]
  where
    by_status :
        (o : Option ℤ)
        → elim o as (λ _. Option Waited) [ none ↦ none | some s ↦ some (died s) ] ≡ some (died s)
        → o ≡ some s
    by_status none h = absurd (cc (h))
    by_status (some z) h = cc (h)

-- If WaitPgrp returns, it has only made calls. It says that the process has ended with a status only
-- if waitpid, asked for this process, has told so: with a report on this very process that it has
-- exited with this code or was killed by the signal of this number, negated, or with ECHILD. It says
-- that the process is alive only if it must not block.
pub wait_pgrp-Ended :
    (e : Env) (pid : ℕ) (do_block already_killed : Bool) (w : World)
    → Ends
        (λ r v. (new : Trace) × Adds new w v × Ended pid do_block r new)
        (wait_pgrp e pid do_block already_killed w)
wait_pgrp-Ended e pid do_block already_killed w =
    Ends-both (Justified pid w) (Over e do_block) _ (wait_pgrp e pid do_block already_killed w)
      (wait_pgrp-Justified e pid do_block already_killed w)
      (wait_pgrp-Over e pid do_block already_killed w) (go do_block)
  where
    go :
        (b : Bool) (r : Waited) (v : World)
        → Justified pid w r v
        → Over e b r v
        → (new : Trace) × Adds new w v × Ended pid b r new
    go b (died s) v (new, p, (a, made, h)) over = (new, p, (a, made, step-Tells pid a s h))
    go false alive v (new, p, why) over = (new, p, refl)
    go true alive v (new, p, why) over = absurd (cc ((over refl).1))
