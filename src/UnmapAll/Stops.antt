-- ===== src/UnmapAll/Stops.antt =====
-- unmap_all.c: UnmapAllWindows returns true only if its callback did.
use xsecurelock.Prelude.{
  ℕ, zero, suc, ◌≡◌, refl, [], ◌∷◌, Bool, true, false, ◌==◌, if◌then◌else◌, Bool-cases, inl, inr,
}
use xsecurelock.Sys.Calls.{x, unmap_window}
use xsecurelock.Sys.{Env, World, M, pure}
use xsecurelock.Sys.Spec.{Grows, Grows-refl, Grows-trans, Ends, bind-Ends, Ends-mono}
use xsecurelock.UnmapAll.{UnmapAllWindowsState, window_at, unmap_below, unmap_all_windows}

module _ (R : World → World → Type 0) where
  -- On true, `R` holds from `w` to `v`.
  abbrev pub Result : World → Bool → World → Type 0
  Result w ok v = Grows w v × (ok ≡ true → R w v)

module _ (R : World → World → Type 0) (before : (u w v : World) → Grows u w → R w v → R u v)
    (e : Env) (can_stop : ℕ → M Bool)
    (h : (win : ℕ) (w : World) → Ends (Result R w) (can_stop win w)) where
  Result-before : (ok : Bool) (u w v : World) → Grows u w → Result R w ok v → Result R u ok v
  Result-before ok u w v g (k, f) = (Grows-trans u w v g k, λ yes. before u w v g (f yes))

  unmap_below-Result :
      (n : ℕ) (s : UnmapAllWindowsState) (w : World)
      → Ends (λ r v. Result R w r.0 v) (unmap_below e can_stop n s w)
  unfolding unmap_below
  unmap_below-Result zero s w = (Grows-refl w, λ yes. absurd (cc (yes)))
  unmap_below-Result (suc i) s w = elim (Bool-cases (window_at s.windows i == 0)) [
    | inl none_here ↦ rw (none_here, Ends) (unmap_below-Result i s w)
    | inr here ↦
        rw (here, Ends)
          (bind-Ends (Result R called) (λ r v. Result R w r.0 v) (can_stop win called) _
            (h win called)
            λ ret v r.
              go ret v (Result-before ret w called v (x (unmap_window win) ∷ [], refl) r)
                (unmap_below-Result i unmapped v))
  ]
    where
      win : ℕ
      win = window_at s.windows i

      called : World
      called = record w { trace = x (unmap_window win) ∷ w.trace }

      unmapped : UnmapAllWindowsState
      unmapped = record s { first_unmapped_window = i }

      go :
          (ret : Bool) (v : World)
          → Result R w ret v
          → Ends (λ r u. Result R v r.0 u) (unmap_below e can_stop i unmapped v)
          → Ends
              (λ r u. Result R w r.0 u)
              ((if ret then pure (true, unmapped) else unmap_below e can_stop i unmapped) v)
      go true v r again = r
      go false v (g, _) again =
          Ends-mono (λ r u. Result R v r.0 u) (λ r u. Result R w r.0 u) _ again
            λ r u k. Result-before r.0 w v u g k

  pub unmap_all_windows-Result :
      (s : UnmapAllWindowsState) (w : World)
      → Ends (λ r v. Result R w r.0 v) (unmap_all_windows e s can_stop w)
  unfolding unmap_all_windows
  unmap_all_windows-Result s w = unmap_below-Result s.first_unmapped_window s w
