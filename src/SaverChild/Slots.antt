-- ===== src/SaverChild/Slots.antt =====
-- saver_child.c: what WatchSaverChild does to the slots of the saver children.
use xsecurelock.Prelude.{
  ℕ, ◌<◌, ◌≡◌, ◌≢◌, refl, sym, ◌∙◌, ap, inl, inr, List, true, false, ◌==◌, Bool-cases, ==_refl,
  ==_iff, ne→==, lt→leb,
}
use xsecurelock.Prelude.Int.{ℤ, pos}
use xsecurelock.Sys.Calls.{Trace, sigterm}
use xsecurelock.Sys.{Env, World, pure, ◌>>◌}
use xsecurelock.Sys.Spec.{Adds, Finishes, bind-Finishes, Finishes-mono, Ends→Finishes}
use xsecurelock.Process.{Waited, alive, died, kill_pgrp, wait_pgrp}
use xsecurelock.Process.Spec.{Justified, wait_pgrp-Justified}
use xsecurelock.Process.Returns.{
  Over, wait_pgrp-Over, IsReliable, Asked, Asked-IsStable, kill_pgrp-Asked, wait_pgrp-Returns,
}
use xsecurelock.SaverChild.{
  watch_running, saver_waited, watch_saver_at, watch_saver_child, max_savers, update,
}

-- The slots are those of `w`, except perhaps `index`.
abbrev pub Others : ℕ → World → World → Type 0
Others index w v = (j : ℕ) → j ≢ index → v.saver_child_pid j ≡ w.saver_child_pid j

update_same : {A : Type 0} (i : ℕ) (a : A) (f : ℕ → A) → update f i a i ≡ a
update_same i a f = rw (==_refl i)

update_other : {A : Type 0} (i j : ℕ) (a : A) (f : ℕ → A) → j ≢ i → update f i a j ≡ f j
update_other i j a f h = rw (ne→== i j (λ p. h (sym p)))

module _ (e : Env) (patience : ℕ) (reliable : IsReliable e patience Asked)
    (enough : patience < e.fuel) where
  -- Behind waiting that may block: the slot is free.
  saver_waited-frees :
      (window index : ℕ) (w v : World) (r : Waited)
      → v.saver_child_pid ≡ w.saver_child_pid
      → (s : ℤ) × (r ≡ died s)
      → Finishes
          (λ _ u. (u.saver_child_pid index ≡ 0) × Others index w u)
          (saver_waited e window index r v)
  unfolding saver_waited
  saver_waited-frees window index w v alive p (s, h) = absurd (cc (h))
  saver_waited-frees window index w v (died s) p h = (
    update_same index 0 v.saver_child_pid,
    λ j other. update_other index j 0 v.saver_child_pid other ∙ ap (λ (f : ℕ → ℕ). f j) p,
  )

  kill_pgrp-same_slots :
      (pid : ℕ) (w : World)
      → Finishes
          (λ _ v. Asked pid v.trace × (v.saver_child_pid ≡ w.saver_child_pid))
          (kill_pgrp e pid sigterm w)
  kill_pgrp-same_slots pid w =
      Finishes-mono (λ _ v. Asked pid v.trace × ((new : Trace) × Adds new w v))
        (λ _ v. Asked pid v.trace × (v.saver_child_pid ≡ w.saver_child_pid))
        (kill_pgrp e pid sigterm w) (kill_pgrp-Asked e pid w)
        λ a v (asked, (new, p)). (asked, ap (λ (u : World). u.saver_child_pid) p)

  watch_running-frees :
      (window index pid : ℕ) (w : World)
      → Finishes
          (λ _ u. (u.saver_child_pid index ≡ 0) × Others index w u)
          (watch_running e window index pid false w)
  unfolding watch_running
  watch_running-frees window index pid w =
      bind-Finishes Asks R ((kill_pgrp e pid sigterm >> pure tt) w) _
        (bind-Finishes (λ _ v. Asks tt v) Asks (kill_pgrp e pid sigterm w) _
          (kill_pgrp-same_slots pid w) λ a v h. h)
        λ _ v (asked, p).
          bind-Finishes (Waits v) R (wait_pgrp e pid true true v) (saver_waited e window index)
            (Ends→Finishes (Justified pid v) (Over e true) (Waits v) (wait_pgrp e pid true true v)
              (wait_pgrp-Returns e patience Asked-IsStable reliable pid true true v (λ b. asked)
                enough)
              (wait_pgrp-Justified e pid true true v) (wait_pgrp-Over e pid true true v)
              λ r u (new, q, why) over. (ap (λ (t : World). t.saver_child_pid) q, over refl))
            λ r u (q, over). saver_waited-frees window index w u r (q ∙ p) over
    where
      Asks : Unit {0} → World → Type 0
      Asks _ v = Asked pid v.trace × (v.saver_child_pid ≡ w.saver_child_pid)

      R : Unit {0} → World → Type 0
      R _ u = (u.saver_child_pid index ≡ 0) × Others index w u

      Waits : World → Waited → World → Type 0
      Waits v r u = (u.saver_child_pid ≡ v.saver_child_pid) × ((s : ℤ) × (r ≡ died s))

  watch_saver_at-frees :
      (window index : ℕ) (executable : List ℕ) (w : World)
      → Finishes
          (λ _ u. (u.saver_child_pid index ≡ 0) × Others index w u)
          (watch_saver_at e window index executable false w)
  unfolding watch_saver_at
  watch_saver_at-frees window index executable w =
      elim (Bool-cases (w.saver_child_pid index == 0)) [
        | inl idle ↦
            rw (idle, Finishes) ((==_iff (w.saver_child_pid index) 0).0 idle, λ j other. refl)
        | inr busy ↦
            rw (busy, Finishes)
              (bind-Finishes _ _ (watch_running e window index (w.saver_child_pid index) false w) _
                (watch_running-frees window index (w.saver_child_pid index) w) λ _ u h. h)
      ]

  -- WatchSaverChild for an index in range and a saver that should not run, if waitpid behaves as
  -- documented and the saver, having been asked to, ends within `patience` wakeups, which is less than
  -- the fuel: it returns, the slot of the index is free, and the other slots are as they were.
  pub watch_saver_child-frees :
      (window index : ℕ) (executable : List ℕ) (w : World)
      → index < max_savers
      → Finishes
          (λ _ u. (u.saver_child_pid index ≡ 0) × Others index w u)
          (watch_saver_child e window (pos index) executable false w)
  unfolding watch_saver_child
  watch_saver_child-frees window index executable w h =
      rw (lt→leb max_savers index h, Finishes) (watch_saver_at-frees window index executable w)
