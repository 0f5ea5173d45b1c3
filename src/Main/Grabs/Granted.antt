-- ===== src/Main/Grabs/Granted.antt =====
-- main.c: when AcquireGrabs succeeds, both grabs have been granted.
use xsecurelock.Prelude.{
  ℕ, zero, suc, ◌≡◌, refl, ◌∙◌, List, [], ◌∷◌, ◌++◌, append_assoc, Bool, true, false, ◌&&◌, none,
  some, if◌then◌else◌, inl, inr, ltb,
}
use xsecurelock.Sys.Calls.{
  Trace, grabbed_pointer, grabbed_keyboard, x, grab_server, ungrab_server, flush,
}
use xsecurelock.Sys.{Env, World, pure, ◌>>=◌}
use xsecurelock.Process.Closed.{Keeps-IsClosed}
use xsecurelock.Sys.Spec.{
  Made, Made-append_left, Made-append_right, Grows, Grows-refl, Grows-trans, Ends, bind-Ends,
  Ends-mono,
}
use xsecurelock.Sys.Keeps.{Keeps}
use xsecurelock.UnmapAll.{
  UnmapAllWindowsState, unmap_all_windows, remap_all_windows, init_unmap_all_windows_state,
}
use xsecurelock.UnmapAll.Closed.{init_unmap_all_windows_state-Closed, remap_all_windows-Closed}
use xsecurelock.UnmapAll.Stops.{Result, unmap_all_windows-Result}
use xsecurelock.Main.Grabs.{
  try_acquire_grabs, force_grabs, acquire_grabs, acquire_with_retries, acquire_first_grabs, refocus,
  res_class,
}

-- Among the calls from `w` to `v`, the X server has granted the pointer and the keyboard.
abbrev pub Granted : World → World → Type 0
Granted w v =
    (new : Trace) × (v.trace ≡ new ++ w.trace)
    × Made (grabbed_pointer true) new
    × Made (grabbed_keyboard true) new

abbrev pub Grants : World → Bool → World → Type 0
Grants = Result Granted

Granted-before : (u w v : World) → Grows u w → Granted w v → Granted u v
Granted-before u w v (m, p) (n, q, a, b) =
    (n ++ m, q ∙ rw (p, append_assoc), Made-append_left _ n m a, Made-append_left _ n m b)

Granted-after : (u v w : World) → Granted u v → Grows v w → Granted u w
Granted-after u v w (n, q, a, b) (m, p) =
    (m ++ n, p ∙ rw (q, append_assoc), Made-append_right _ m n a, Made-append_right _ m n b)

Grants-before : (ok : Bool) (u w v : World) → Grows u w → Grants w ok v → Grants u ok v
Grants-before ok u w v g (h, f) = (Grows-trans u w v g h, λ yes. Granted-before u w v g (f yes))

Grants-after : (ok : Bool) (u v w : World) → Grants u ok v → Grows v w → Grants u ok w
Grants-after ok u v w (h, f) g = (Grows-trans u v w h g, λ yes. Granted-after u v w (f yes) g)

module _ (e : Env) where
  try_acquire_grabs-Grants : (w : World) → Ends (Grants w) (try_acquire_grabs e w)
  unfolding try_acquire_grabs
  try_acquire_grabs-Grants w =
      go (e.grab_pointer w.trace)
        (e.grab_keyboard (grabbed_pointer (e.grab_pointer w.trace) ∷ w.trace))
    where
      go :
          (pointer keyboard : Bool)
          → Grants w
              (pointer && keyboard)
              (record w { trace = grabbed_keyboard keyboard ∷ grabbed_pointer pointer ∷ w.trace })
      go true true = ((_ ∷ _ ∷ [], refl), λ yes. (_ ∷ _ ∷ [], refl, inr (inl refl), inl refl))
      go true false = ((_ ∷ _ ∷ [], refl), λ yes. absurd (cc (yes)))
      go false keyboard = ((_ ∷ _ ∷ [], refl), λ yes. absurd (cc (yes)))

  force_grabs-Grants :
      (init : UnmapAllWindowsState × Bool) (w : World) → Ends (Grants w) (force_grabs e init w)
  unfolding force_grabs
  force_grabs-Grants (state, true) w =
      bind-Ends (λ r v. Grants w r.0 v) (Grants w)
        (unmap_all_windows e state (λ _. try_acquire_grabs e) w) _
        (unmap_all_windows-Result Granted Granted-before e (λ _. try_acquire_grabs e)
          (λ _. try_acquire_grabs-Grants) state w)
        λ r v h.
          bind-Ends (λ _ u. Keeps v u) (Grants w) (remap_all_windows e r.1 v) _
            ((remap_all_windows-Closed (Keeps-IsClosed e) r.1).stays v)
            λ _ u k. Grants-after r.0 w v u h k.grows
  force_grabs-Grants (state, false) w = try_acquire_grabs-Grants w

  pub acquire_grabs-Grants :
      (ignored : List ℕ) (force : Bool) (w : World)
      → Ends (Grants w) (acquire_grabs e ignored force w)
  unfolding acquire_grabs
  acquire_grabs-Grants ignored false w = try_acquire_grabs-Grants w
  acquire_grabs-Grants ignored true w =
      let u = record w { trace = x grab_server ∷ w.trace } in
      bind-Ends (λ _ v. Keeps u v) (Grants w)
        (init_unmap_all_windows_state e ignored (some res_class) none false u) _
        ((init_unmap_all_windows_state-Closed (Keeps-IsClosed e) ignored (some res_class) none
            false).stays
          u)
        λ init v k.
          bind-Ends (Grants v) (Grants w) (force_grabs e init v) _ (force_grabs-Grants init v)
            λ ok t h.
              Grants-after ok w t (record t { trace = x flush ∷ x ungrab_server ∷ t.trace })
                (Grants-before ok w v t (Grows-trans w u v (x grab_server ∷ [], refl) k.grows) h)
                (x flush ∷ x ungrab_server ∷ [], refl)

  refocus-Grows : (previous : ℕ) (w : World) → Ends (λ _ v. Grows w v) (refocus e previous w)
  unfolding refocus
  refocus-Grows zero w = (_ ∷ _ ∷ _ ∷ [], refl)
  refocus-Grows (suc p) w = Grows-refl w

  acquire_with_retries-Grants :
      (my_windows : List ℕ) (force_grab : Bool) (n previous : ℕ) (w : World)
      → Ends (λ r v. Grants w r.0 v) (acquire_with_retries e my_windows force_grab n previous w)
  unfolding acquire_with_retries
  acquire_with_retries-Grants my_windows force_grab zero previous w =
      (Grows-refl w, λ yes. absurd (cc (yes)))
  acquire_with_retries-Grants my_windows force_grab (suc retries) previous w =
      bind-Ends (Grants w) (λ r v. Grants w r.0 v)
        (acquire_grabs e my_windows (ltb retries (if force_grab then 1 else 0)) w) _
        (acquire_grabs-Grants my_windows (ltb retries (if force_grab then 1 else 0)) w)
        λ ok v h. go ok v h (λ u p. acquire_with_retries-Grants my_windows force_grab retries p u)
    where
      go :
          (ok : Bool) (v : World)
          → Grants w ok v
          → ((u : World) (p : ℕ)
              → Ends
                  (λ r t. Grants u r.0 t)
                  (acquire_with_retries e my_windows force_grab retries p u))
          → Ends
              (λ r t. Grants w r.0 t)
              ((if ok
                  then pure (true, previous)
                  else (refocus e previous
                      >>= acquire_with_retries e my_windows force_grab retries))
                v)
      go true v h again = h
      go false v (g, _) again =
          bind-Ends (λ _ u. Grows v u) (λ r t. Grants w r.0 t) (refocus e previous v) _
            (refocus-Grows previous v)
            λ p u g'.
              Ends-mono (λ r t. Grants u r.0 t) (λ r t. Grants w r.0 t) _ (again u p)
                λ r t h. Grants-before r.0 w u t (Grows-trans w v u g g') h

  -- If the loop that acquires the grabs at the start ends by `break`, then during it the X server
  -- has granted the pointer and the keyboard, with `force_grab` or without.
  pub acquire_first_grabs-Grants :
      (my_windows : List ℕ) (force_grab : Bool) (w : World)
      → Ends (λ r v. Grants w r.0 v) (acquire_first_grabs e my_windows force_grab w)
  unfolding acquire_first_grabs
  acquire_first_grabs-Grants my_windows force_grab w =
      acquire_with_retries-Grants my_windows force_grab 11 0 w
