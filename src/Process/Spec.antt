-- ===== src/Process/Spec.antt =====
-- wait_pgrp.c: what the results of WaitProc, KillPgrp and WaitPgrp say of the calls made.
use xsecurelock.Prelude.{
  ℕ, zero, suc, ◌≡◌, ◌≢◌, refl, inl, inr, [], ◌∷◌, ◌++◌, Bool, true, false, Option, none, some,
  ◌==◌, Bool-cases, arith, ==_iff,
}
use xsecurelock.Prelude.Int.{ℤ, pos}
use xsecurelock.Sys.Calls.{
  Trace, WaitAnswer, wait_failed, not_yet, reported, echild, eintr, other_error, Status, exited,
  signaled, stopped, waited, suspended, killed, blocked, restored, group, KillAnswer, kill_ok,
  no_such_process, kill_failed, sigterm,
}
use xsecurelock.Sys.{Env, World, M}
use xsecurelock.Sys.Spec.{
  Made, Made-append_left, Made-append_right, Ends, bind-Ends, Ends-mono, Finishes, Finishes→Ends,
  Adds, Adds-trans,
}
use xsecurelock.Process.{
  Waited, alive, died, step, is_not_yet, wait_proc, kill_pgrp, wait_pgrp, wait_loop, after_wait,
  after_step, after_kill, kill_rest, final_status,
}

-- A process is taken to have ended only because waitpid said so, among the calls `new`.
abbrev pub Reason : ℕ → Waited → Trace → Type 0
Reason pid alive new = Unit {0}
Reason pid (died s) new = (a : WaitAnswer) × Made (waited pid a) new × (step pid a ≡ some (died s))

Reason-earlier : (pid : ℕ) (r : Waited) (m n : Trace) → Reason pid r n → Reason pid r (m ++ n)
Reason-earlier pid alive m n h = tt
Reason-earlier pid (died s) m n (a, made, e) = (a, Made-append_right (waited pid a) m n made, e)

Reason-later : (pid : ℕ) (r : Waited) (m n : Trace) → Reason pid r m → Reason pid r (m ++ n)
Reason-later pid alive m n h = tt
Reason-later pid (died s) m n (a, made, e) = (a, Made-append_left (waited pid a) m n made, e)

-- The result of waiting, from a world `w`: only calls were made, and they justify it.
abbrev pub Justified : ℕ → World → Waited → World → Type 0
Justified pid w r v = (new : Trace) × Adds new w v × Reason pid r new

Justified-after :
    (pid : ℕ) (n : Trace) (u v : World) (r : Waited) (w : World)
    → Adds n u v
    → Justified pid v r w
    → Justified pid u r w
Justified-after pid n u v r w p (m, q, h) =
    (m ++ n, Adds-trans n m u v w p q, Reason-later pid r m n h)

waited-Reason :
    (pid : ℕ) (a : WaitAnswer) (r : Waited) → step pid a ≡ some r → Reason pid r (waited pid a ∷ [])
waited-Reason pid a alive h = tt
waited-Reason pid a (died s) h = (a, inl refl, h)

signal_status-nonzero : (signo : ℕ) → final_status (signaled signo) ≢ some (pos 0)
unfolding final_status
signal_status-nonzero zero h = cc (h)
signal_status-nonzero (suc n) h = ground arith

status-success : (status : Status) → final_status status ≡ some (pos 0) → status ≡ exited 0
unfolding final_status
status-success (signaled n) h = absurd (signal_status-nonzero n h)
status-success (exited c) h = cc (h)
status-success stopped h = absurd (cc (h))

-- Success is reported for a process only if the kernel said that this very process exited with 0.
pub step-success :
    (pid : ℕ) (a : WaitAnswer) → step pid a ≡ some (died (pos 0)) → a ≡ reported pid (exited 0)
unfolding step
step-success pid (wait_failed echild) h = absurd (cc (h))
step-success pid (wait_failed eintr) h = absurd (cc (h))
step-success pid (wait_failed other_error) h = absurd (cc (h))
step-success pid not_yet h = absurd (cc (h))
step-success pid (reported got status) h = elim (Bool-cases (got == pid)) [
  | inl same ↦ by_status (final_status status) refl (rw same at h) ((==_iff got pid).0 same)
  | inr other ↦ absurd (cc (rw other at h))
]
  where
    by_status :
        (o : Option ℤ)
        → final_status status ≡ o
        → elim o as (λ _. Option Waited) [ none ↦ none | some s ↦ some (died s) ]
          ≡ some (died (pos 0))
        → got ≡ pid
        → reported got status ≡ reported pid (exited 0)
    by_status none e h same = absurd (cc (h))
    by_status (some s) e h same =
        let z : s ≡ pos 0 = cc (h) in cc (same, status-success status (cc (e, z)))

abbrev ByStep : ℕ → WaitAnswer → World → Waited → World → Type 0
ByStep pid a w r v = (new : Trace) × Adds new w v × Reason pid r (new ++ waited pid a ∷ [])

module _ (e : Env) where
  again-ByStep :
      (pid : ℕ) (a : WaitAnswer) (again : M Waited) (w : World)
      → Ends (Justified pid w) (again w)
      → Ends (ByStep pid a w) (again w)
  again-ByStep pid a again w h =
      Ends-mono (Justified pid w) (ByStep pid a w) (again w) h
        λ r v (new, p, why). (new, p, Reason-later pid r new (waited pid a ∷ []) why)

  after_step-ByStep :
      (pid : ℕ) (do_block : Bool) (again : M Waited) (a : WaitAnswer) (w : World)
      → ((v : World) → Ends (Justified pid v) (again v))
      → (o : Option Waited) → step pid a ≡ o
      → Ends (ByStep pid a w) (after_step e do_block again a o w)
  unfolding after_step is_not_yet
  after_step-ByStep pid do_block again a w h (some r) p = ([], refl, waited-Reason pid a r p)
  after_step-ByStep pid true again not_yet w h none p =
      let v = record w { trace = suspended ∷ w.trace } in
      Ends-mono (Justified pid v) (ByStep pid not_yet w) (again v) (h v) λ r u j.
        let (new, q, why) = Justified-after pid (suspended ∷ []) w v r u refl j in
        (new, q, Reason-later pid r new _ why)
  after_step-ByStep pid false again not_yet w h none p = ([], refl, tt)
  after_step-ByStep pid b again (wait_failed x) w h none p =
      again-ByStep pid (wait_failed x) again w (h w)
  after_step-ByStep pid b again (reported x y) w h none p =
      again-ByStep pid (reported x y) again w (h w)

  wait_loop-Justified :
      (fuel pid : ℕ) (do_block : Bool) (w : World)
      → Ends (Justified pid w) (wait_loop e fuel pid do_block w)
  unfolding wait_loop after_wait
  wait_loop-Justified zero pid do_block w = tt
  wait_loop-Justified (suc fuel) pid do_block w =
      let a = e.waitpid w.trace pid in
      let v = record w { trace = waited pid a ∷ w.trace } in
      Ends-mono (ByStep pid a v) (Justified pid w) _
        (after_step-ByStep pid do_block (wait_loop e fuel pid do_block) a v
          (wait_loop-Justified fuel pid do_block) (step pid a) refl)
        λ r u (new, q, why).
          (new ++ waited pid a ∷ [], Adds-trans (waited pid a ∷ []) new w v u refl q, why)

  pub wait_proc-Justified :
      (pid : ℕ) (do_block : Bool) (w : World) → Ends (Justified pid w) (wait_proc e pid do_block w)
  unfolding wait_proc
  wait_proc-Justified pid do_block w =
      let v = record w { trace = blocked do_block ∷ w.trace } in
      bind-Ends (Justified pid v) (Justified pid w) (wait_loop e e.fuel pid do_block v) _
        (wait_loop-Justified e.fuel pid do_block v)
        λ r u j.
          let (new, q, why) = Justified-after pid (blocked do_block ∷ []) w v r u refl j in
          (
            restored ∷ new,
            Adds-trans new (restored ∷ []) w u _ q refl,
            Reason-earlier pid r (restored ∷ []) new why,
          )

  abbrev pub Signals : ℕ → ℕ → World → KillAnswer → World → Type 0
  Signals pid signo w _ v =
      (new : Trace) × (a : KillAnswer) × Adds new w v × Made (killed (group pid) signo a) new

  -- KillPgrp returns, makes calls only, and sends the signal to the group.
  pub kill_pgrp-Finishes :
      (pid signo : ℕ) (w : World) → Finishes (Signals pid signo w) (kill_pgrp e pid signo w)
  unfolding kill_pgrp
  kill_pgrp-Finishes pid signo w = go (e.kill w.trace (group pid) signo)
    where
      go :
          (a : KillAnswer)
          → Finishes
              (Signals pid signo w)
              (after_kill e pid signo a (record w { trace = killed (group pid) signo a ∷ w.trace }))
      go kill_ok = (killed (group pid) signo kill_ok ∷ [], kill_ok, refl, inl refl)
      go kill_failed = (killed (group pid) signo kill_failed ∷ [], kill_failed, refl, inl refl)
      go no_such_process =
          (_ ∷ killed (group pid) signo no_such_process ∷ [], no_such_process, refl, inr (inl refl))

  pub kill_pgrp-Signals :
      (pid signo : ℕ) (w : World) → Ends (Signals pid signo w) (kill_pgrp e pid signo w)
  kill_pgrp-Signals pid signo w =
      Finishes→Ends (Signals pid signo w) (kill_pgrp e pid signo w) (kill_pgrp-Finishes pid signo w)

  kill_rest-Justified :
      (pid : ℕ) (already_killed : Bool) (r : Waited) (w v : World)
      → Justified pid w r v
      → Ends (λ r' u. (r' ≡ r) × Justified pid w r u) (kill_rest e pid already_killed r v)
  unfolding kill_rest
  kill_rest-Justified pid already_killed alive w v h = (refl, h)
  kill_rest-Justified pid true (died s) w v h = (refl, h)
  kill_rest-Justified pid false (died s) w v (new, p, why) =
      bind-Ends (Signals pid sigterm v) _ (kill_pgrp e pid sigterm v) _
        (kill_pgrp-Signals pid sigterm v)
        λ a u (more, b, q, made). (
          refl,
          (more ++ new, Adds-trans new more w v u p q, Reason-earlier pid (died s) more new why),
        )

  -- The result of WaitPgrp is that of `step` for an answer of waitpid.
  pub wait_pgrp-Justified :
      (pid : ℕ) (do_block already_killed : Bool) (w : World)
      → Ends (Justified pid w) (wait_pgrp e pid do_block already_killed w)
  unfolding wait_pgrp
  wait_pgrp-Justified pid do_block already_killed w =
      bind-Ends (Justified pid w) (Justified pid w) (wait_proc e pid do_block w) _
        (wait_proc-Justified pid do_block w)
        λ r v h.
          Ends-mono (λ r' u. (r' ≡ r) × Justified pid w r u) (Justified pid w) _
            (kill_rest-Justified pid already_killed r w v h) λ r' u (same, j). rw same j
