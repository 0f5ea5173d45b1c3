-- ===== src/Process/Returns.antt =====
-- wait_pgrp.c: the loop of WaitProc ends, and if it may block, only with the end of the process.
use mathlib.Core.Path.{subst}
use xsecurelock.Prelude.{
  ℕ, zero, suc, ◌+◌, ◌≤◌, ◌<◌, ◌≡◌, refl, sym, ◌⊎◌, inl, inr, [], ◌∷◌, Bool, not, ◌&&◌, ◌||◌, true,
  false, Option, none, some, ◌==◌, if◌then◌else◌, arith, ==_refl, Bool-cases,
}
use xsecurelock.Prelude.Int.{ℤ}
use xsecurelock.Sys.Calls.{
  forked, child_pid, Trace, WaitAnswer, wait_failed, echild, eintr, other_error, not_yet, reported,
  waited, suspended, blocked, restored, killed, group, KillAnswer, kill_ok, kill_failed,
  no_such_process, sigterm,
}
use xsecurelock.Sys.{Env, World, M, bind}
use xsecurelock.Sys.Spec.{Adds, Finishes, Ends, bind-Ends, bind-Ends_any}
use xsecurelock.Process.{
  Waited, alive, died, step, is_not_yet, wait_proc, kill_pgrp, wait_pgrp, wait_loop, after_wait,
  after_step, after_kill, kill_rest, final_status,
}

-- How often sigsuspend has just returned while the program has waited for the process.
abbrev pub wakeups : ℕ → Trace → ℕ
wakeups pid [] = 0
wakeups pid (c ∷ []) = 0
wakeups pid (suspended ∷ waited p a ∷ tr) = if p == pid then suc (wakeups pid tr) else 0
wakeups pid (_ ∷ _ ∷ tr) = 0

-- The program has sent SIGTERM to the group of the process since it was started.
abbrev pub asked_to_end : ℕ → Trace → Bool
asked_to_end pid [] = false
asked_to_end pid (killed (group p) signo a ∷ tr) =
    ((p == pid) && (signo == sigterm)) || asked_to_end pid tr
asked_to_end pid (forked child (child_pid p) ∷ tr) = not (p == pid) && asked_to_end pid tr
asked_to_end pid (_ ∷ tr) = asked_to_end pid tr

abbrev pub Asked : ℕ → Trace → Type 0
Asked pid tr = asked_to_end pid tr ≡ true

-- Of a process that ends without being asked to.
abbrev pub OnItsOwn : ℕ → Trace → Type 0
OnItsOwn pid tr = Unit {0}

-- waitpid behaves as documented: with WNOHANG it is neither interrupted nor reports a stop, and a
-- child of which this is expected ends within `patience` wakeups.
pub record IsReliable (e : Env) (patience : ℕ) (Expected : ℕ → Trace → Type 0) : Type 0 where
  pub answers :
      (tr : Trace) (pid : ℕ)
      → (e.waitpid tr pid ≡ not_yet) ⊎ ((r : Waited) × (step pid (e.waitpid tr pid) ≡ some r))
  pub wakes :
      (tr : Trace) (pid : ℕ)
      → Expected pid tr
      → patience ≤ wakeups pid tr
      → ¬ (e.waitpid tr pid ≡ not_yet)

-- What is expected does not change by waiting.
pub record IsStable (Expected : ℕ → Trace → Type 0) : Type 0 where
  pub blocking : (pid : ℕ) (b : Bool) (tr : Trace) → Expected pid tr → Expected pid (blocked b ∷ tr)
  pub idling :
      (pid : ℕ) (a : WaitAnswer) (tr : Trace)
      → Expected pid tr
      → Expected pid (suspended ∷ waited pid a ∷ tr)

pub Asked-IsStable : IsStable Asked
Asked-IsStable = record { blocking = λ pid b tr h. h; idling = λ pid a tr h. h }

pub OnItsOwn-IsStable : IsStable OnItsOwn
OnItsOwn-IsStable = record { blocking = λ pid b tr h. tt; idling = λ pid a tr h. tt }

-- The code returns from this world.
abbrev pub Returns : {A : Type 0} → Option (A × World) → Type 0
Returns {A} r? = (r : A × World) × (r? ≡ some r)

bind-Returns :
    {A B : Type 0} (m : Option (A × World)) (f : A → M B)
    → Returns m
    → ((a : A) (w : World) → Returns (f a w))
    → Returns (bind m f)
bind-Returns none f (r, p) k = absurd (cc (p))
bind-Returns (some (a, w)) f h k = k a w

wakeups-suspended :
    (pid : ℕ) (a : WaitAnswer) (tr : Trace)
    → wakeups pid (suspended ∷ waited pid a ∷ tr) ≡ suc (wakeups pid tr)
wakeups-suspended pid a tr = rw (==_refl pid)

step-alive : (pid : ℕ) (a : WaitAnswer) → ¬ (step pid a ≡ some alive)
unfolding step
step-alive pid (wait_failed echild) h = cc (h)
step-alive pid (wait_failed eintr) h = cc (h)
step-alive pid (wait_failed other_error) h = cc (h)
step-alive pid not_yet h = cc (h)
step-alive pid (reported got status) h = elim (Bool-cases (got == pid)) [
  | inl same ↦ by_status (final_status status) (rw same at h)
  | inr other ↦ cc (rw other at h)
]
  where
    by_status :
        (o : Option ℤ)
        → ¬ (elim o as (λ _. Option Waited) [ none ↦ none | some s ↦ some (died s) ] ≡ some alive)
    by_status none h = cc (h)
    by_status (some s) h = cc (h)

module _ (e : Env) where
  after_step-final :
      (do_block : Bool) (again : M Waited) (a : WaitAnswer) (o : Option Waited) (r : Waited)
      (w : World)
      → o ≡ some r
      → Returns (after_step e do_block again a o w)
  unfolding after_step
  after_step-final do_block again a none r w p = absurd (cc (p))
  after_step-final do_block again a (some r') r w p = ((r', w), refl)

  after_wait-idle :
      (pid : ℕ) (do_block : Bool) (again : M Waited) (w : World)
      → (do_block ≡ true → Returns (again (record w { trace = suspended ∷ w.trace })))
      → Returns (after_wait e pid do_block again not_yet w)
  unfolding after_wait after_step is_not_yet step
  after_wait-idle pid true again w h = h refl
  after_wait-idle pid false again w h = ((alive, w), refl)

  -- The world behind the answer `a` of waitpid.
  abbrev answered : ℕ → World → WaitAnswer → World
  answered pid w a = record w { trace = waited pid a ∷ w.trace }

module _ (e : Env) (patience : ℕ) {Expected : ℕ → Trace → Type 0} (stable : IsStable Expected)
    (reliable : IsReliable e patience Expected) where
  -- One round of the loop, with `n` rounds left.
  round_Returns :
      (n pid : ℕ) (do_block : Bool) (w : World)
      → (e.waitpid w.trace pid ≡ not_yet
          → do_block ≡ true
          → Returns (
              wait_loop e n pid do_block
                (record w { trace = suspended ∷ waited pid not_yet ∷ w.trace })))
      → Returns (wait_loop e (suc n) pid do_block w)
  unfolding wait_loop after_wait
  round_Returns n pid do_block w h = elim (reliable.answers w.trace pid) [
    | inr (r, p) ↦
        after_step-final e do_block (wait_loop e n pid do_block) (e.waitpid w.trace pid)
          (step pid (e.waitpid w.trace pid)) r (answered e pid w (e.waitpid w.trace pid)) p
    | inl idle ↦
        subst
          (λ (a : WaitAnswer).
            Returns (after_wait e pid do_block (wait_loop e n pid do_block) a (answered e pid w a)))
          (sym idle)
          (after_wait-idle e pid do_block (wait_loop e n pid do_block) (answered e pid w not_yet)
            (h idle))
  ]

  wait_loop-Returns :
      (n pid : ℕ) (do_block : Bool) (w : World)
      → (do_block ≡ true → Expected pid w.trace)
      → patience ≤ n + wakeups pid w.trace
      → Returns (wait_loop e (suc n) pid do_block w)
  unfolding wait_loop after_wait
  wait_loop-Returns zero pid do_block w ex h =
      round_Returns zero pid do_block w
        λ idle b. absurd (reliable.wakes w.trace pid (ex b) (omega arith) idle)
  wait_loop-Returns (suc n) pid do_block w ex h = round_Returns (suc n) pid do_block w λ idle b.
      wait_loop-Returns n pid do_block
        (record w { trace = suspended ∷ waited pid not_yet ∷ w.trace })
        (λ b'. stable.idling pid not_yet w.trace (ex b'))
        (omega (arith, wakeups-suspended pid not_yet w.trace))

  -- WaitProc returns if the fuel is more than the patience, and it may block only for a process that
  -- is expected to end.
  pub wait_proc-Returns :
      (pid : ℕ) (do_block : Bool) (w : World)
      → (do_block ≡ true → Expected pid w.trace)
      → patience < e.fuel
      → Returns (wait_proc e pid do_block w)
  unfolding wait_proc
  wait_proc-Returns pid do_block w ex h =
      bind-Returns (wait_loop e e.fuel pid do_block v) _ (enough e.fuel h)
        λ r u. ((r, record u { trace = restored ∷ u.trace }), refl)
    where
      v : World
      v = record w { trace = blocked do_block ∷ w.trace }

      enough : (fuel : ℕ) → patience < fuel → Returns (wait_loop e fuel pid do_block v)
      enough zero h = absurd (omega arith)
      enough (suc n) h =
          wait_loop-Returns n pid do_block v (λ b. stable.blocking pid do_block w.trace (ex b))
            (omega arith)

  kill_rest-Returns :
      (pid : ℕ) (already_killed : Bool) (r : Waited) (w : World)
      → Returns (kill_rest e pid already_killed r w)
  unfolding kill_rest
  kill_rest-Returns pid already_killed alive w = ((alive, w), refl)
  kill_rest-Returns pid true (died s) w = ((died s, w), refl)
  kill_rest-Returns pid false (died s) w =
      bind-Returns (kill_pgrp e pid sigterm w) _
        (killed_Returns (e.kill w.trace (group pid) sigterm)) λ a u. ((died s, u), refl)
    where
      killed_Returns :
          (a : KillAnswer)
          → Returns (
              after_kill e pid sigterm a
                (record w { trace = killed (group pid) sigterm a ∷ w.trace }))
      killed_Returns kill_ok = (_, refl)
      killed_Returns kill_failed = (_, refl)
      killed_Returns no_such_process = (_, refl)

  -- WaitPgrp returns, if waitpid behaves as documented, and if it may block, the child that it waits
  -- for is expected to end within `patience` wakeups, which is less than the fuel.
  pub wait_pgrp-Returns :
      (pid : ℕ) (do_block already_killed : Bool) (w : World)
      → (do_block ≡ true → Expected pid w.trace)
      → patience < e.fuel
      → Returns (wait_pgrp e pid do_block already_killed w)
  unfolding wait_pgrp
  wait_pgrp-Returns pid do_block already_killed w ex h =
      bind-Returns (wait_proc e pid do_block w) (kill_rest e pid already_killed)
        (wait_proc-Returns pid do_block w ex h) λ r u. kill_rest-Returns pid already_killed r u

module _ (e : Env) where
  -- KillPgrp with SIGTERM returns, makes calls only, and asks the process to end.
  pub kill_pgrp-Asked :
      (pid : ℕ) (w : World)
      → Finishes
          (λ _ v. Asked pid v.trace × ((new : Trace) × Adds new w v))
          (kill_pgrp e pid sigterm w)
  unfolding kill_pgrp after_kill
  kill_pgrp-Asked pid w = go (e.kill w.trace (group pid) sigterm)
    where
      go :
          (a : KillAnswer)
          → Finishes
              (λ _ v. Asked pid v.trace × ((new : Trace) × Adds new w v))
              (after_kill e pid sigterm a
                (record w { trace = killed (group pid) sigterm a ∷ w.trace }))
      go kill_ok = (rw (==_refl pid, Asked, asked_to_end) refl, (_ ∷ [], refl))
      go kill_failed = (rw (==_refl pid, Asked, asked_to_end) refl, (_ ∷ [], refl))
      go no_such_process = (rw (==_refl pid, Asked, asked_to_end) refl, (_ ∷ _ ∷ [], refl))

  -- The process has ended, if the call may block.
  abbrev pub Over : Bool → Waited → World → Type 0
  Over do_block r v = do_block ≡ true → (s : ℤ) × (r ≡ died s)

  after_step-Over :
      (pid : ℕ) (do_block : Bool) (again : M Waited) (a : WaitAnswer) (o : Option Waited)
      (w : World)
      → step pid a ≡ o
      → ((v : World) → Ends (Over do_block) (again v))
      → Ends (Over do_block) (after_step e do_block again a o w)
  unfolding after_step is_not_yet
  after_step-Over pid do_block again a (some (died s)) w p h = λ _. (s, refl)
  after_step-Over pid do_block again a (some alive) w p h = absurd (step-alive pid a p)
  after_step-Over pid true again not_yet none w p h = h (record w { trace = suspended ∷ w.trace })
  after_step-Over pid false again not_yet none w p h = λ b. absurd (cc (b))
  after_step-Over pid do_block again (wait_failed x) none w p h = h w
  after_step-Over pid do_block again (reported x y) none w p h = h w

  wait_loop-Over :
      (n pid : ℕ) (do_block : Bool) (w : World)
      → Ends (Over do_block) (wait_loop e n pid do_block w)
  unfolding wait_loop after_wait
  wait_loop-Over zero pid do_block w = tt
  wait_loop-Over (suc n) pid do_block w =
      after_step-Over pid do_block (wait_loop e n pid do_block) (e.waitpid w.trace pid)
        (step pid (e.waitpid w.trace pid)) _ refl (wait_loop-Over n pid do_block)

  kill_rest-Over :
      (pid : ℕ) (do_block already_killed : Bool) (r : Waited) (w : World)
      → Over do_block r w
      → Ends (Over do_block) (kill_rest e pid already_killed r w)
  unfolding kill_rest
  kill_rest-Over pid do_block already_killed alive w h = h
  kill_rest-Over pid do_block true (died s) w h = h
  kill_rest-Over pid do_block false (died s) w h =
      bind-Ends_any (Over do_block) (kill_pgrp e pid sigterm w) _ λ a u. h

  pub wait_proc-Over :
      (pid : ℕ) (do_block : Bool) (w : World) → Ends (Over do_block) (wait_proc e pid do_block w)
  unfolding wait_proc
  wait_proc-Over pid do_block w =
      bind-Ends (Over do_block) (Over do_block)
        (wait_loop e e.fuel pid do_block (record w { trace = blocked do_block ∷ w.trace })) _
        (wait_loop-Over e.fuel pid do_block _) λ r u h. h

  pub wait_pgrp-Over :
      (pid : ℕ) (do_block already_killed : Bool) (w : World)
      → Ends (Over do_block) (wait_pgrp e pid do_block already_killed w)
  unfolding wait_pgrp
  wait_pgrp-Over pid do_block already_killed w =
      bind-Ends (Over do_block) (Over do_block) (wait_proc e pid do_block w)
        (kill_rest e pid already_killed) (wait_proc-Over pid do_block w)
        λ r u h. kill_rest-Over pid do_block already_killed r u h
