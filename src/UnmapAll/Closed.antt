-- ===== src/UnmapAll/Closed.antt =====
-- unmap_all.c: its functions have every property of Process.Closed.
use xsecurelock.Prelude.{
  ℕ, zero, suc, refl, List, [], ◌∷◌, Bool, true, false, not, Option, ◌==◌, drop,
}
use xsecurelock.Sys.Calls.{x, queried_tree, unmap_window, map_window}
use xsecurelock.Sys.{Env, M}
use xsecurelock.Sys.Keeps.{Adds→Keeps}
use xsecurelock.Process.Closed.{
  IsClosed, Has, Closed-pure, Closed-bind, Closed-then, Closed-if, Closed-call,
}
use xsecurelock.UnmapAll.{
  UnmapAllWindowsState, window_at, init_unmap_all_windows_state, unmap_below, unmap_all_windows,
  remap_windows, remap_all_windows,
}

module _ {e : Env} {P : (A : Type 0) → M A → Type 0} (c : IsClosed e P) where
  pub init_unmap_all_windows_state-Closed :
      (ignored : List ℕ) (my_res_class my_res_name : Option (List ℕ)) (include_frame : Bool)
      → Has c (init_unmap_all_windows_state e ignored my_res_class my_res_name include_frame)
  unfolding init_unmap_all_windows_state
  init_unmap_all_windows_state-Closed ignored my_res_class my_res_name include_frame =
      c.calls (init_unmap_all_windows_state e ignored my_res_class my_res_name include_frame)
        λ w. Adds→Keeps (queried_tree ∷ []) w _ refl

  module _ (can_stop : ℕ → M Bool) (h : (win : ℕ) → Has c (can_stop win)) where
    unmap_below-Closed : (n : ℕ) (s : UnmapAllWindowsState) → Has c (unmap_below e can_stop n s)
    unfolding unmap_below
    unmap_below-Closed zero s = Closed-pure c (false, s)
    unmap_below-Closed (suc i) s =
        let win = window_at s.windows i in
        let unmapped = record s { first_unmapped_window = i } in
        Closed-if c (not (win == 0))
          (Closed-then c (Closed-call c (x (unmap_window win))) (
            Closed-bind c (h win) λ ret.
              Closed-if c ret (Closed-pure c (true, unmapped)) (unmap_below-Closed i unmapped)))
          (unmap_below-Closed i s)

    pub unmap_all_windows-Closed :
        (s : UnmapAllWindowsState) → Has c (unmap_all_windows e s can_stop)
    unfolding unmap_all_windows
    unmap_all_windows-Closed s = unmap_below-Closed s.first_unmapped_window s

  remap_windows-Closed : (ws : List ℕ) → Has c (remap_windows e ws)
  unfolding remap_windows
  remap_windows-Closed [] = Closed-pure c tt
  remap_windows-Closed (w ∷ ws) =
      Closed-if c (not (w == 0))
        (Closed-then c (Closed-call c (x (map_window w))) (remap_windows-Closed ws))
        (remap_windows-Closed ws)

  pub remap_all_windows-Closed : (s : UnmapAllWindowsState) → Has c (remap_all_windows e s)
  unfolding remap_all_windows
  remap_all_windows-Closed s =
      Closed-then c (remap_windows-Closed (drop s.first_unmapped_window s.windows))
        (Closed-pure c _)
