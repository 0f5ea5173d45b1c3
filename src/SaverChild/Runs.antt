-- ===== src/SaverChild/Runs.antt =====
-- saver_child.c: in which window and with which program the saver of a slot runs.
use xsecurelock.Prelude.{ℕ, ◌≡◌, refl, ◌∙◌, ap, ◌⊎◌, inl, inr, List, [], Bool, not, ◌==◌, ◌∷◌, ◌&&◌}
use xsecurelock.Prelude.Int.{pos}
use xsecurelock.Sys.Calls.{
  Call, ForkAnswer, fork_failed, child_pid, forked, saver_child, sigterm, x, clear_window,
}
use xsecurelock.Sys.{Env, World, ◌>>=◌, call, fork, modify}
use xsecurelock.Sys.Spec.{
  Made, Grows, Made-Grows, Ends, Ends-mono, IsPreorder, Stays, Stays-pure, Stays-gets, Stays-bind,
  Stays-then, Stays-if,
}
use xsecurelock.Process.{Waited, alive, died, kill_pgrp, wait_pgrp}
use xsecurelock.Process.Spec.{Justified, Signals, kill_pgrp-Signals, wait_pgrp-Justified}
use xsecurelock.SaverChild.{
  set_pid, watch_running, saver_waited, started_saver, watch_saver_at, watch_saver_child,
}

module _ (window : ℕ) (executable : List ℕ) where
  -- The slot 0 is free, or its process was started to run that program in that window.
  abbrev pub RunsIn : World → Type 0
  RunsIn w =
      (w.saver_child_pid 0 ≡ 0)
      ⊎ Made (forked (saver_child window 0 executable) (child_pid (w.saver_child_pid 0))) w.trace

  abbrev pub Leads : World → World → Type 0
  Leads w v = RunsIn w → RunsIn v

  pub Leads-IsPreorder : IsPreorder Leads
  Leads-IsPreorder = record { reflexive = λ w h. h; transitive = λ p q h. q (p h) }

  -- Calls do not change the slots.
  pub grown-Leads :
      (w v : World) → Grows w v → v.saver_child_pid 0 ≡ w.saver_child_pid 0 → Leads w v
  grown-Leads w v g p (inl z) = inl (p ∙ z)
  grown-Leads w v g p (inr m) = inr (rw p (Made-Grows _ w v g m))

  module _ (e : Env) where
    abbrev O : IsPreorder Leads
    O = Leads-IsPreorder

    pub call-Leads : (c : Call) → Stays Leads (call c)
    call-Leads c = record {
      stays = λ w. grown-Leads w (record w { trace = c ∷ w.trace }) (c ∷ [], refl) refl;
    }

    kill_pgrp-Leads : (pid signo : ℕ) → Stays Leads (kill_pgrp e pid signo)
    kill_pgrp-Leads pid signo = record {
      stays = λ w.
          Ends-mono (Signals e pid signo w) (λ _ v. Leads w v) (kill_pgrp e pid signo w)
            (kill_pgrp-Signals e pid signo w)
            λ a v (new, b, p, made).
              grown-Leads w v (new, ap (λ (u : World). u.trace) p)
                (ap (λ (u : World). u.saver_child_pid 0) p);
    }

    wait_pgrp-Leads :
        (pid : ℕ) (do_block already_killed : Bool)
        → Stays Leads (wait_pgrp e pid do_block already_killed)
    wait_pgrp-Leads pid do_block already_killed = record {
      stays = λ w.
          Ends-mono (Justified pid w) (λ _ v. Leads w v) (wait_pgrp e pid do_block already_killed w)
            (wait_pgrp-Justified e pid do_block already_killed w)
            λ r v (new, p, why).
              grown-Leads w v (new, ap (λ (u : World). u.trace) p)
                (ap (λ (u : World). u.saver_child_pid 0) p);
    }

    freed-Leads : Stays Leads (modify (set_pid 0 0))
    freed-Leads = record { stays = λ w h. inl refl }

    saver_waited-Leads : (r : Waited) → Stays Leads (saver_waited e window 0 r)
    unfolding saver_waited
    saver_waited-Leads alive = Stays-pure O tt
    saver_waited-Leads (died s) = Stays-then O freed-Leads (call-Leads (x (clear_window window)))

    spawned-Leads : Stays Leads (fork e (saver_child window 0 executable) >>= started_saver e 0)
    unfolding started_saver
    spawned-Leads = record { stays = λ w. go w (e.fork w.trace (saver_child window 0 executable)) }
      where
        go :
            (w : World) (a : ForkAnswer)
            → Ends
                (λ _ v. Leads w v)
                (started_saver e 0 a
                  (record w { trace = forked (saver_child window 0 executable) a ∷ w.trace }))
        go w fork_failed =
            let c = forked (saver_child window 0 executable) fork_failed in
            grown-Leads w (record w { trace = c ∷ w.trace }) (c ∷ [], refl) refl
        go w (child_pid pid) = λ h. inr (inl refl)

    watch_saver_at-Leads : (run : Bool) → Stays Leads (watch_saver_at e window 0 executable run)
    unfolding watch_saver_at watch_running
    watch_saver_at-Leads run = Stays-bind O (Stays-gets O (λ w. w.saver_child_pid 0)) λ pid.
        Stays-then O
          (Stays-if (not (pid == 0))
            (Stays-then O
              (Stays-if (not run) (Stays-then O (kill_pgrp-Leads pid sigterm) (Stays-pure O tt))
                (Stays-pure O tt))
              (Stays-bind O (wait_pgrp-Leads pid (not run) (not run)) saver_waited-Leads))
            (Stays-pure O tt))
          (Stays-bind O (Stays-gets O (λ w. w.saver_child_pid 0))
            λ pid'. Stays-if (run && (pid' == 0)) spawned-Leads (Stays-pure O tt))

    -- WatchSaverChild for the index 0 keeps the saver of the slot 0 in its window.
    pub watch_saver_child-Leads :
        (run : Bool) → Stays Leads (watch_saver_child e window (pos 0) executable run)
    unfolding watch_saver_child
    watch_saver_child-Leads run = watch_saver_at-Leads run
