-- ===== src/UnmapAll/Restore.antt =====
-- unmap_all.c: what UnmapAllWindows unmaps is what RemapAllWindows maps again.
use mathlib.Core.Path.{subst}
use mathlib.Core.List.{reverse, reverse-cons}
use xsecurelock.Prelude.{
  ℕ, zero, suc, ◌≤◌, ◌<◌, ◌≡◌, refl, sym, ◌∙◌, ap, Bool, true, false, List, [], ◌∷◌, ◌++◌,
  append_assoc, append-nil, ◌==◌, if◌then◌else◌, length, drop, arith, Bool-cases, inl, inr,
}
use xsecurelock.Sys.Calls.{Call, Trace, x, unmap_window, map_window}
use xsecurelock.Sys.{Env, World, M, pure, ◌>>=◌}
use xsecurelock.Sys.Spec.{Finishes, bind-Finishes, Finishes-mono}
use xsecurelock.UnmapAll.{
  UnmapAllWindowsState, window_at, unmap_below, unmap_all_windows, remap_windows, remap_all_windows,
}

-- The windows that the calls unmap and map, the last one first.
abbrev pub unmapped_by : Call → List ℕ
unmapped_by (x (unmap_window w)) = w ∷ []
unmapped_by _ = []

abbrev pub mapped_by : Call → List ℕ
mapped_by (x (map_window w)) = w ∷ []
mapped_by _ = []

abbrev pub unmaps : Trace → List ℕ
unmaps [] = []
unmaps (c ∷ tr) = unmapped_by c ++ unmaps tr

abbrev pub maps : Trace → List ℕ
maps [] = []
maps (c ∷ tr) = mapped_by c ++ maps tr

unmaps-append : (a b : Trace) → unmaps (a ++ b) ≡ unmaps a ++ unmaps b
unmaps-append [] b = refl
unmaps-append (c ∷ a) b = rw (unmaps-append a b, append_assoc)

maps-append : (a b : Trace) → maps (a ++ b) ≡ maps a ++ maps b
maps-append [] b = refl
maps-append (c ∷ a) b = rw (maps-append a b, append_assoc)

-- The windows of a list that are not None.
abbrev present : List ℕ → List ℕ
present [] = []
present (w ∷ ws) = if w == 0 then present ws else w ∷ present ws

drop-window_at :
    (i : ℕ) (ws : List ℕ) → i < length ws → drop i ws ≡ window_at ws i ∷ drop (suc i) ws
drop-window_at i [] h = absurd (omega arith)
drop-window_at zero (w ∷ ws) h = refl
drop-window_at (suc i) (w ∷ ws) h = drop-window_at i ws (omega arith)

drop-length : (ws : List ℕ) → drop (length ws) ws ≡ []
drop-length [] = refl
drop-length (w ∷ ws) = drop-length ws

present-skip :
    (i : ℕ) (ws : List ℕ)
    → i < length ws
    → (window_at ws i == 0) ≡ true
    → present (drop i ws) ≡ present (drop (suc i) ws)
present-skip i ws h z = rw (drop-window_at i ws h, z)

present-keep :
    (i : ℕ) (ws : List ℕ)
    → i < length ws
    → (window_at ws i == 0) ≡ false
    → present (drop i ws) ≡ window_at ws i ∷ present (drop (suc i) ws)
present-keep i ws h z = rw (drop-window_at i ws h, z)

-- Calls that unmap `us` and map `ms`.
abbrev pub Shows : List ℕ → List ℕ → World → World → Type 0
Shows us ms w v = (new : Trace) × (v.trace ≡ new ++ w.trace) × (unmaps new ≡ us) × (maps new ≡ ms)

Shows-trans :
    (us ms us' ms' : List ℕ) (u v w : World)
    → Shows us ms u v
    → Shows us' ms' v w
    → Shows (us' ++ us) (ms' ++ ms) u w
Shows-trans us ms us' ms' u v w (a, p, d, f) (b, q, d', f') =
    (b ++ a, q ∙ rw (p, append_assoc), unmaps-append b a ∙ rw (d, d'), maps-append b a ∙ rw (f, f'))

module _ (e : Env) (can_stop : ℕ → M Bool)
    (quiet : (win : ℕ) (w : World) → Finishes (λ _ v. Shows [] [] w v) (can_stop win w)) where
  -- So far, the windows from `first_unmapped_window` on have been unmapped.
  abbrev Tracks : List ℕ → World → UnmapAllWindowsState → World → Type 0
  Tracks ws w s v = (s.windows ≡ ws) × Shows (present (drop s.first_unmapped_window ws)) [] w v

  unmap_below-Tracks :
      (ws : List ℕ) (n : ℕ) (s : UnmapAllWindowsState) (w v : World)
      → n ≤ length ws
      → present (drop s.first_unmapped_window ws) ≡ present (drop n ws)
      → Tracks ws w s v
      → Finishes (λ r u. Tracks ws w r.1 u) (unmap_below e can_stop n s v)
  unfolding unmap_below
  unmap_below-Tracks ws zero s w v h same t = t
  unmap_below-Tracks ws (suc i) s w v h same (p, t) =
      elim (Bool-cases (window_at s.windows i == 0)) [
        | inl none_here ↦
            rw (none_here, Finishes)
              (unmap_below-Tracks ws i s w v (omega arith)
                (same ∙ sym (present-skip i ws (omega arith) (rw (← p) none_here))) (p, t))
        | inr here ↦
            rw (here, Finishes)
              (bind-Finishes (λ _ u. Shows [] [] called u) (λ r u. Tracks ws w r.1 u)
                (can_stop win called) _ (quiet win called)
                λ ret u q.
                  continued ret u (further u here q)
                    (unmap_below-Tracks ws i unmapped w u (omega arith) refl (further u here q)))
      ]
    where
      win : ℕ
      win = window_at s.windows i

      called : World
      called = record v { trace = x (unmap_window win) ∷ v.trace }

      unmapped : UnmapAllWindowsState
      unmapped = record s { first_unmapped_window = i }

      grown :
          (win == 0) ≡ false → present (drop i ws) ≡ win ∷ present (drop s.first_unmapped_window ws)
      grown here = present-keep i ws (omega arith) (rw (← p) here) ∙ rw (p, same)

      further : (u : World) → (win == 0) ≡ false → Shows [] [] called u → Tracks ws w unmapped u
      further u here q = (
        p,
        rw (grown here) (
            Shows-trans _ [] [] [] w called u
              (Shows-trans _ [] (win ∷ []) [] w v called t
                (x (unmap_window win) ∷ [], refl, refl, refl))
              q),
      )

      continued :
          (ret : Bool) (u : World)
          → Tracks ws w unmapped u
          → Finishes (λ r t. Tracks ws w r.1 t) (unmap_below e can_stop i unmapped u)
          → Finishes
              (λ r t. Tracks ws w r.1 t)
              ((if ret then pure (true, unmapped) else unmap_below e can_stop i unmapped) u)
      continued true u t rest = t
      continued false u t rest = rest

module _ (e : Env) where
  remap_windows-Shows :
      (ws : List ℕ) (w : World)
      → Finishes (λ _ v. Shows [] (reverse (present ws)) w v) (remap_windows e ws w)
  unfolding remap_windows
  remap_windows-Shows [] w = ([], refl, refl, refl)
  remap_windows-Shows (win ∷ ws) w = elim (Bool-cases (win == 0)) [
    | inl none_here ↦
        rw (none_here, Finishes)
          (Finishes-mono (λ _ v. Shows [] (reverse (present ws)) w v) _ (remap_windows e ws w)
            (remap_windows-Shows ws w) λ _ v h. rw (present_zero none_here) h)
    | inr here ↦
        rw (here, Finishes)
          (Finishes-mono (λ _ v. Shows [] (reverse (present ws)) called v) _
            (remap_windows e ws called) (remap_windows-Shows ws called)
            λ _ v h.
              rw (present_win here, reverse-cons win (present ws))
                (Shows-trans [] (win ∷ []) [] (reverse (present ws)) w called v
                  (x (map_window win) ∷ [], refl, refl, refl) h))
  ]
    where
      present_zero : (win == 0) ≡ true → present (win ∷ ws) ≡ present ws
      present_zero z = rw z

      present_win : (win == 0) ≡ false → present (win ∷ ws) ≡ win ∷ present ws
      present_win z = rw z

      called : World
      called = record w { trace = x (map_window win) ∷ w.trace }

module _ (e : Env) (can_stop : ℕ → M Bool)
    (quiet : (win : ℕ) (w : World) → Finishes (λ _ v. Shows [] [] w v) (can_stop win w)) where
  -- UnmapAllWindows on a list of windows of which none is unmapped, with a callback that returns and
  -- neither maps nor unmaps a window, and then RemapAllWindows on the state that it leaves: they
  -- return, the windows that were unmapped have been mapped in the opposite order, and the state
  -- says again that none is unmapped.
  pub unmap_all_windows-remap_all_windows :
      (ws : List ℕ) (w : World)
      → Finishes
          (λ s v.
            (us : List ℕ) × Shows us (reverse us) w v
            × (s.windows ≡ ws)
            × (s.first_unmapped_window ≡ length ws))
          ((unmap_all_windows e
                (record { windows = ws; first_unmapped_window = length ws })
                can_stop
              >>= λ r. remap_all_windows e r.1)
            w)
  unfolding unmap_all_windows remap_all_windows
  unmap_all_windows-remap_all_windows ws w =
      bind-Finishes (λ r v. Tracks e can_stop quiet ws w r.1 v) _
        (unmap_below e can_stop (length ws) start w) _
        (unmap_below-Tracks e can_stop quiet ws (length ws) start w w (omega arith) refl
          (refl, rw (drop-length ws) ([], refl, refl, refl)))
        λ r v (p, t).
          let us = drop r.1.first_unmapped_window ws in
          bind-Finishes (λ _ u. Shows [] (reverse (present us)) v u) _
            (remap_windows e (drop r.1.first_unmapped_window r.1.windows) v) _
            (rw (p, Finishes) (remap_windows-Shows e us v))
            λ _ u h. (
              present us,
              subst (λ (ms : List ℕ). Shows (present us) ms w u) (append-nil (reverse (present us)))
                  (Shows-trans (present us) [] [] (reverse (present us)) w v u t h),
              p,
              ap length p,
            )
    where
      start : UnmapAllWindowsState
      start = record { windows = ws; first_unmapped_window = length ws }
