-- ===== src/Main/Grabs/Closed.antt =====
-- main.c: the functions that grab and raise windows have every property of Process.Closed.
use xsecurelock.Prelude.{ℕ, refl, List, [], ◌∷◌, Bool, true, false, ◌||◌, none, some}
use xsecurelock.Sys.Calls.{x, raise_window, grab_server, ungrab_server, flush}
use xsecurelock.Sys.{Env, top_sibling, M}
use xsecurelock.Sys.Keeps.{Adds→Keeps}
use xsecurelock.Process.Closed.{
  IsClosed, Has, Closed-pure, Closed-bind, Closed-then, Closed-if, Closed-call,
}
use xsecurelock.UnmapAll.{UnmapAllWindowsState}
use xsecurelock.UnmapAll.Closed.{
  init_unmap_all_windows_state-Closed, unmap_all_windows-Closed, remap_all_windows-Closed,
}
use xsecurelock.Main.Grabs.{
  is_covered, maybe_raise_window, try_acquire_grabs, force_grabs, acquire_grabs, res_class,
}

module _ {e : Env} {P : (A : Type 0) → M A → Type 0} (c : IsClosed e P) where
  pub maybe_raise_window-Closed : (w : ℕ) (force : Bool) → Has c (maybe_raise_window e w force)
  unfolding maybe_raise_window
  maybe_raise_window-Closed w force = Closed-bind c (top_sibling-Closed w) λ top.
      Closed-if c (force || is_covered e w top) (Closed-call c (x (raise_window w)))
        (Closed-pure c tt)
    where
      top_sibling-Closed : (win : ℕ) → Has c (top_sibling e win)
      top_sibling-Closed win = c.calls (top_sibling e win) λ v. Adds→Keeps (_ ∷ []) v _ refl

  pub try_acquire_grabs-Closed : Has c (try_acquire_grabs e)
  unfolding try_acquire_grabs
  try_acquire_grabs-Closed = c.calls (try_acquire_grabs e) λ w. Adds→Keeps (_ ∷ _ ∷ []) w _ refl

  force_grabs-Closed : (init : UnmapAllWindowsState × Bool) → Has c (force_grabs e init)
  unfolding force_grabs
  force_grabs-Closed (state, true) =
      Closed-bind c
        (unmap_all_windows-Closed c (λ w. try_acquire_grabs e) (λ w. try_acquire_grabs-Closed)
          state)
        λ r. Closed-then c (remap_all_windows-Closed c r.1) (Closed-pure c r.0)
  force_grabs-Closed (state, false) = try_acquire_grabs-Closed

  pub acquire_grabs-Closed :
      (ignored : List ℕ) (force : Bool) → Has c (acquire_grabs e ignored force)
  unfolding acquire_grabs
  acquire_grabs-Closed ignored false = try_acquire_grabs-Closed
  acquire_grabs-Closed ignored true = Closed-then c (Closed-call c (x grab_server)) (
      Closed-bind c (init_unmap_all_windows_state-Closed c ignored (some res_class) none false)
        λ init. Closed-bind c (force_grabs-Closed init) λ ok.
          Closed-then c (Closed-call c (x ungrab_server))
            (Closed-then c (Closed-call c (x flush)) (Closed-pure c ok)))
