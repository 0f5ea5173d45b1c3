-- ===== src/Dialog/Windows/Kept.antt =====
-- helpers/auth_x11.c: which windows the dialog has.
use xsecurelock.Prelude.{
  ℕ, ◌≡◌, refl, ap, Bool, true, false, List, [], ◌∷◌, ◌++◌, none, some, if◌then◌else◌, get_elem?,
}
use xsecurelock.Prelude.Int.{ℤ}
use xsecurelock.Monitors.{Monitor}
use xsecurelock.Dialog.Windows.{
  Box, Request, WindowState, move_resize_window, set_background, map_window, unmap_window, place,
  destroy_loop, destroy_per_monitor_windows, add_window, create_or_update,
  create_or_update_per_monitor_window, has_pointer, keep_first, update_per_monitor_windows,
}

module _ (main_window : ℕ) (new_window : List Request → ℕ) where
  -- The dialog has no window, or the one that the locker has given to it.
  abbrev pub HasMain : List ℕ → Type 0
  HasMain [] = Unit {0}
  HasMain (win ∷ []) = win ≡ main_window
  HasMain (win ∷ v ∷ wins) = ⊥

  -- The requests by which the window comes to stand at a place.
  abbrev pub shown : Box → List ℕ → List Request
  shown box [] =
      map_window main_window ∷ set_background main_window ∷ move_resize_window main_window box ∷ []
  shown box (win ∷ wins) = move_resize_window win box ∷ []

  abbrev pub hidden : List ℕ → List Request
  hidden [] = []
  hidden (win ∷ wins) = unmap_window main_window ∷ []

  destroyed :
      (wins : List ℕ) (rs : List Request)
      → HasMain wins
      → destroy_per_monitor_windows 0 (record { windows = wins; requests = rs })
        ≡ record { windows = []; requests = hidden wins ++ rs }
  unfolding destroy_per_monitor_windows destroy_loop
  destroyed [] rs q = refl
  destroyed (win ∷ []) rs q = rw q
  destroyed (win ∷ v ∷ wins) rs q = absurd q

  kept :
      (b : Bool) (box : Box) (wins : List ℕ) (rs : List Request)
      → HasMain wins
      → let updated =
          create_or_update main_window new_window 0 box
            (record { windows = wins; requests = rs })
            (get_elem? wins 0) in
        (if b then updated else keep_first main_window new_window updated)
        ≡ some (record { windows = main_window ∷ []; requests = shown box wins ++ rs })
  unfolding create_or_update add_window keep_first destroy_per_monitor_windows destroy_loop
  kept true box [] rs q = refl
  kept false box [] rs q = refl
  kept true box (win ∷ []) rs q = rw q
  kept false box (win ∷ []) rs q = rw q
  kept b box (win ∷ v ∷ wins) rs q = absurd q

  -- With a monitor, an update of a dialog that has no window or the main one does not abort; behind
  -- it the main window is the only one, and it has been put at the place on that monitor, and mapped
  -- if the dialog had none. This holds wherever the pointer is.
  pub update_per_monitor_windows-shown :
      (m : Monitor) (region_w region_h : ℤ) (pointer : ℤ × ℤ) (st : WindowState)
      → HasMain st.windows
      → update_per_monitor_windows main_window new_window (some m) region_w region_h pointer st
        ≡ some (record {
          windows = main_window ∷ [];
          requests = shown (place m region_w region_h) st.windows ++ st.requests;
        })
  unfolding update_per_monitor_windows create_or_update_per_monitor_window
  update_per_monitor_windows-shown m w h p st q =
      kept (has_pointer main_window new_window m p.0 p.1) (place m w h) st.windows st.requests q

  -- Without a monitor, an update leaves the dialog no window: the main one is unmapped, and never
  -- destroyed.
  pub update_per_monitor_windows-none :
      (region_w region_h : ℤ) (pointer : ℤ × ℤ) (st : WindowState)
      → HasMain st.windows
      → update_per_monitor_windows main_window new_window none region_w region_h pointer st
        ≡ some (record { windows = []; requests = hidden st.windows ++ st.requests })
  unfolding update_per_monitor_windows
  update_per_monitor_windows-none w h p st q = ap some (destroyed st.windows st.requests q)
