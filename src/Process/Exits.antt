-- ===== src/Process/Exits.antt =====
-- wait_pgrp.c: a child of which waitpid reports that it has exited with 0.
use mathlib.Core.Path.{subst}
use xsecurelock.Prelude.{
  ℕ, zero, suc, ◌<◌, ◌≡◌, refl, sym, ◌∷◌, Bool, true, false, Option, none, some, arith, ==_refl,
}
use xsecurelock.Prelude.Int.{pos}
use xsecurelock.Sys.Calls.{Trace, WaitAnswer, reported, exited, blocked, sigterm}
use xsecurelock.Sys.{Env, World, M}
use xsecurelock.Sys.Spec.{Finishes, bind-Finishes}
use xsecurelock.Process.{
  Waited, died, step, wait_proc, kill_pgrp, wait_pgrp, wait_loop, after_wait, after_step, kill_rest,
  final_status,
}
use xsecurelock.Process.Spec.{Signals, kill_pgrp-Finishes}

-- Whenever it is asked for this process, waitpid reports that it has exited with 0.
abbrev pub Exits : Env → ℕ → Type 0
Exits e pid = (tr : Trace) → e.waitpid tr pid ≡ reported pid (exited 0)

module _ (e : Env) (pid : ℕ) where
  abbrev Succeeds : Waited → World → Type 0
  Succeeds r v = r ≡ died (pos 0)

  after_step-Succeeds :
      (do_block : Bool) (again : M Waited) (a : WaitAnswer) (o : Option Waited) (w : World)
      → o ≡ some (died (pos 0))
      → Finishes Succeeds (after_step e do_block again a o w)
  unfolding after_step
  after_step-Succeeds do_block again a none w p = absurd (cc (p))
  after_step-Succeeds do_block again a (some r) w p = cc (p)

  step-exited : step pid (reported pid (exited 0)) ≡ some (died (pos 0))
  unfolding step final_status
  step-exited = rw (==_refl pid)

  wait_loop-Succeeds :
      (n : ℕ) (do_block : Bool) (w : World)
      → Exits e pid
      → Finishes Succeeds (wait_loop e (suc n) pid do_block w)
  unfolding wait_loop after_wait
  wait_loop-Succeeds n do_block w h =
      after_step-Succeeds do_block (wait_loop e n pid do_block) (e.waitpid w.trace pid)
        (step pid (e.waitpid w.trace pid)) _
        (subst (λ (a : WaitAnswer). step pid a ≡ some (died (pos 0))) (sym (h w.trace)) step-exited)

  wait_proc-Succeeds :
      (do_block : Bool) (w : World)
      → Exits e pid
      → 0 < e.fuel
      → Finishes Succeeds (wait_proc e pid do_block w)
  unfolding wait_proc
  wait_proc-Succeeds do_block w h enough =
      bind-Finishes Succeeds Succeeds (wait_loop e e.fuel pid do_block v) _ (go e.fuel enough)
        λ r u p. p
    where
      v : World
      v = record w { trace = blocked do_block ∷ w.trace }

      go : (n : ℕ) → 0 < n → Finishes Succeeds (wait_loop e n pid do_block v)
      go zero lt = absurd (omega arith)
      go (suc n) lt = wait_loop-Succeeds n do_block v h

  kill_rest-Succeeds :
      (already_killed : Bool) (w : World)
      → Finishes Succeeds (kill_rest e pid already_killed (died (pos 0)) w)
  unfolding kill_rest
  kill_rest-Succeeds true w = refl
  kill_rest-Succeeds false w =
      bind-Finishes (Signals e pid sigterm w) Succeeds (kill_pgrp e pid sigterm w) _
        (kill_pgrp-Finishes e pid sigterm w) λ a u h. refl

  pub wait_pgrp-Succeeds :
      (do_block already_killed : Bool) (w : World)
      → Exits e pid
      → 0 < e.fuel
      → Finishes (λ r _. r ≡ died (pos 0)) (wait_pgrp e pid do_block already_killed w)
  unfolding wait_pgrp
  wait_pgrp-Succeeds do_block already_killed w h enough =
      bind-Finishes Succeeds Succeeds (wait_proc e pid do_block w) (kill_rest e pid already_killed)
        (wait_proc-Succeeds do_block w h enough)
        λ r v p.
          subst (λ (o : Waited). Finishes Succeeds (kill_rest e pid already_killed o v)) (sym p)
            (kill_rest-Succeeds already_killed v)
