-- ===== src/AuthChild/Safety.antt =====
-- auth_child.c: the child that the main process waits for is one that it has started to run the
-- authentication module, and success is only what that child reports by exiting with 0.
use mathlib.Core.Path.{subst}
use xsecurelock.Prelude.{
  ℕ, ◌≡◌, refl, sym, ◌∙◌, ap, ◌⊎◌, inl, inr, List, [], ◌∷◌, ◌++◌, append_assoc, Bool, true, false,
  not, ◌&&◌, Option, none, some, ◌==◌, if◌then◌else◌, Bool-cases, arith,
}
use xsecurelock.Prelude.Int.{is_zero-pos}
use xsecurelock.Sys.Calls.{
  Trace, WaitAnswer, reported, exited, waited, forked, closed, ForkAnswer, fork_failed, child_pid,
  auth_child,
}
use xsecurelock.Sys.{Env, World, M, pure, pipe}
use xsecurelock.Sys.Spec.{
  Made, Made-append_right, Made-Grows, Grows, Grows-refl, Grows-trans, Ends, bind-Ends,
  bind-Ends_any, Ends-both, Ends-mono, IsPreorder, Stays, Stays-pure, Stays-gets, Stays-bind,
  Stays-then, Stays-if,
}
use xsecurelock.Sys.Keeps.{Keeps, Adds→Keeps}
use xsecurelock.Process.{Waited, alive, died, wait_pgrp}
use xsecurelock.Process.Spec.{Justified, wait_pgrp-Justified, step-success}
use xsecurelock.Process.Closed.{Keeps-IsClosed}
use xsecurelock.AuthChild.Closed.{send_keys-Closed}
use xsecurelock.AuthChild.{
  want_auth_child, reaped, reap_auth_child, started, piped_child, spawn_auth_child, send_keys,
  watch_rest, watch_auth_child,
}

module _ (window : ℕ) (executable : List ℕ) where
  -- Process `pid` was forked to run the authentication module.
  abbrev pub Started : ℕ → Trace → Type 0
  Started pid tr =
      (stdin : ℕ) × Made (forked (auth_child window executable stdin) (child_pid pid)) tr

  -- If the main process has an authentication child, it has started it.
  abbrev pub IsOurs : World → Type 0
  IsOurs w = (w.auth_child_pid ≡ 0) ⊎ Started w.auth_child_pid w.trace

  -- Among the calls from `w` to `v`, a process that had been started to run the authentication
  -- module was reported to have exited with 0.
  abbrev pub Authenticated : World → World → Type 0
  Authenticated w v =
      (pid : ℕ) × (new : Trace) × (v.trace ≡ new ++ w.trace)
      × Started pid w.trace
      × Made (waited pid (reported pid (exited 0))) new

  pub Started-Grows :
      (pid : ℕ) (w v : World) → Grows w v → Started pid w.trace → Started pid v.trace
  Started-Grows pid w v g (stdin, made) = (stdin, Made-Grows _ w v g made)

  pub Keeps-IsOurs : (w v : World) → Keeps w v → IsOurs w → IsOurs v
  Keeps-IsOurs w v k (inl z) = inl (k.pid ∙ z)
  Keeps-IsOurs w v k (inr s) = inr (rw k.pid (Started-Grows w.auth_child_pid w v k.grows s))

  pub Authenticated-Grows : (u v w : World) → Authenticated u v → Grows v w → Authenticated u w
  Authenticated-Grows u v w (pid, new, p, s, made) (more, q) =
      (pid, more ++ new, q ∙ rw (p, append_assoc), s, Made-append_right _ more new made)

  -- What code that may find out about success promises.
  abbrev pub Proves : World → Bool → World → Type 0
  Proves w ok v = Grows w v × IsOurs v × (ok ≡ true → Authenticated w v)

  module _ (e : Env) where
    reaped-Proves :
        (w v : World) (r : Waited)
        → Started w.auth_child_pid w.trace
        → Justified w.auth_child_pid w r v
        → Ends (Proves w) (reaped e r v)
    unfolding reaped
    reaped-Proves w v alive s (new, p, why) = (
      (new, ap (λ (u : World). u.trace) p),
      Keeps-IsOurs w v (Adds→Keeps new w v p) (inr s),
      (λ h. absurd (cc (h))),
    )
    reaped-Proves w v (died st) s (new, p, (a, made, h)) = (
      (closed v.auth_child_fd ∷ new, grown),
      inl refl,
      λ ok.
          let z = is_zero-pos st ok in
          let reported_it = step-success w.auth_child_pid a (h ∙ rw z) in
          (
            w.auth_child_pid,
            closed v.auth_child_fd ∷ new,
            grown,
            s,
            inr (subst (λ (c : WaitAnswer). Made (waited w.auth_child_pid c) new) reported_it made),
          ),
    )
      where
        grown : closed v.auth_child_fd ∷ v.trace ≡ closed v.auth_child_fd ∷ new ++ w.trace
        grown = rw p

    reap_auth_child-Proves : (w : World) → IsOurs w → Ends (Proves w) (reap_auth_child e w)
    unfolding reap_auth_child
    reap_auth_child-Proves w ours = elim (Bool-cases (w.auth_child_pid == 0)) [
      | inl z ↦ rw (z, Ends) (Grows-refl w, ours, (λ h. absurd (cc (h))))
      | inr nz ↦
          rw (nz, Ends)
            (bind-Ends (Justified w.auth_child_pid w) (Proves w)
              (wait_pgrp e w.auth_child_pid false false w) (reaped e)
              (wait_pgrp-Justified e w.auth_child_pid false false w)
              λ r v j. reaped-Proves w v r (is_started nz ours) j)
    ]
      where
        is_started : (w.auth_child_pid == 0) ≡ false → IsOurs w → Started w.auth_child_pid w.trace
        is_started nz (inl z) = absurd (ground arith)
        is_started nz (inr s) = s

  pub record Preserves (w v : World) : Type 0 where
    pub grows : Grows w v
    pub ours : IsOurs w → IsOurs v

  pub Preserves-IsPreorder : IsPreorder Preserves
  Preserves-IsPreorder = record {
    reflexive = λ w. record { grows = Grows-refl w; ours = λ h. h };
    transitive = λ {u} {v} {w} p q. record {
      grows = Grows-trans u v w p.grows q.grows;
      ours = λ h. q.ours (p.ours h);
    };
  }

  pub Keeps-Preserves : {A : Type 0} (m : M A) → Stays Keeps m → Stays Preserves m
  Keeps-Preserves m h = record {
    stays = λ w.
        Ends-mono (λ _ v. Keeps w v) (λ _ v. Preserves w v) (m w) (h.stays w)
          λ a v k. record { grows = k.grows; ours = Keeps-IsOurs w v k };
  }

  module _ (e : Env) where
    abbrev P : IsPreorder Preserves
    P = Preserves-IsPreorder

    piped_child-Preserves :
        (stdinbuf : Option (List ℕ)) (pc? : Option (ℕ × ℕ))
        → Stays Preserves (piped_child e window executable stdinbuf pc?)
    unfolding piped_child started
    piped_child-Preserves stdinbuf none = Stays-pure P stdinbuf
    piped_child-Preserves stdinbuf (some pc) = record {
      stays = λ w. go w (e.fork w.trace (auth_child window executable pc.0));
    }
      where
        go :
            (w : World) (a : ForkAnswer)
            → Ends
                (λ _ v. Preserves w v)
                (started e pc stdinbuf a
                  (record w { trace = forked (auth_child window executable pc.0) a ∷ w.trace }))
        go w fork_failed = record {
          grows = (_ ∷ [], refl);
          ours = Keeps-IsOurs w _ (Adds→Keeps (_ ∷ []) w _ refl);
        }
        go w (child_pid pid) = record {
          grows = (_ ∷ _ ∷ [], refl);
          ours = λ _. inr (pc.0, inr (inl refl));
        }

    watch_rest-Preserves :
        (force_auth : Bool) (stdinbuf : Option (List ℕ)) (ok : Bool)
        → Stays Preserves (watch_rest e window executable force_auth stdinbuf ok)
    unfolding watch_rest spawn_auth_child
    watch_rest-Preserves force_auth stdinbuf true = Stays-pure P (true, false)
    watch_rest-Preserves force_auth stdinbuf false =
        Stays-bind P (Stays-gets P (λ w. w.auth_child_pid)) λ pid.
          Stays-bind P
            (Stays-if (force_auth && (pid == 0))
              (Stays-bind P
                (Keeps-Preserves (pipe e) (record { stays = λ w. Adds→Keeps (_ ∷ []) w _ refl }))
                (piped_child-Preserves stdinbuf))
              (Stays-pure P stdinbuf))
            λ keys. Stays-bind P (Stays-gets P (λ w. not (w.auth_child_pid == 0))) λ running.
              Stays-then P
                (Keeps-Preserves (send_keys e keys) (send_keys-Closed (Keeps-IsClosed e) keys))
                (Stays-pure P (false, running))

    watch_rest-result :
        (force_auth : Bool) (stdinbuf : Option (List ℕ)) (ok : Bool) (v : World)
        → Ends (λ r _. r.0 ≡ ok) (watch_rest e window executable force_auth stdinbuf ok v)
    unfolding watch_rest
    watch_rest-result force_auth stdinbuf true v = refl
    watch_rest-result force_auth stdinbuf false v =
        bind-Ends_any R
          ((if force_auth && (v.auth_child_pid == 0)
              then spawn_auth_child e window executable stdinbuf
              else pure stdinbuf)
            v)
          _ λ keys u. bind-Ends_any R (send_keys e keys u) _ λ _ t. refl
      where
        R : Bool × Bool → World → Type 0
        R r _ = r.0 ≡ false

    -- If the child that the main process knows of is one that it has started to run the
    -- authentication module, and WatchAuthChild returns, then this is still so, and if its result
    -- is true, waitpid has meanwhile reported that a process that had been started so before has
    -- exited with 0.
    pub watch_auth_child-Proves :
        (force_auth : Bool) (stdinbuf : Option (List ℕ)) (w : World)
        → IsOurs w
        → Ends (λ r v. Proves w r.0 v) (watch_auth_child e window executable force_auth stdinbuf w)
    unfolding watch_auth_child
    watch_auth_child-Proves force_auth stdinbuf w ours =
        bind-Ends (Proves w) (λ r v. Proves w r.0 v) (reap_auth_child e w) _
          (reap_auth_child-Proves e w ours)
          λ ok v (g, o, h).
            Ends-both (λ r _. r.0 ≡ ok) (λ _ u. Preserves v u) (λ r u. Proves w r.0 u)
              (watch_rest e window executable force_auth stdinbuf ok v)
              (watch_rest-result force_auth stdinbuf ok v)
              ((watch_rest-Preserves force_auth stdinbuf ok).stays v)
              λ r u same p. (
                Grows-trans w v u g p.grows,
                p.ours o,
                λ yes. Authenticated-Grows w v u (h (sym same ∙ yes)) p.grows,
              )

module _ (e : Env) where
  pub want_auth_child-same :
      (force_auth : Bool) (w : World) → Ends (λ _ v. v ≡ w) (want_auth_child e force_auth w)
  unfolding want_auth_child
  want_auth_child-same true w = refl
  want_auth_child-same false w = refl
