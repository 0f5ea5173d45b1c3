-- ===== src/Main/Grabs.antt =====
-- main.c: grabbing the pointer and the keyboard, and keeping a window on top. Window 0 is None.
pub mod Closed
pub mod Granted
use xsecurelock.Prelude.{
  ℕ, zero, suc, Bool, true, false, not, ◌&&◌, ◌||◌, List, [], ◌∷◌, Option, none, some, ltb, ◌==◌,
  if◌then◌else◌,
}
use xsecurelock.Sys.Calls.{x, grab_server, ungrab_server, flush, raise_window, set_input_focus}
use xsecurelock.Sys.{
  Env, M, pure, ◌>>=◌, ◌>>◌, call, grab_pointer, grab_keyboard, top_sibling, input_focus,
}
use xsecurelock.UnmapAll.{
  UnmapAllWindowsState, init_unmap_all_windows_state, unmap_all_windows, remap_all_windows,
}

-- "xsecurelock", the class that SetWMProperties gives to the windows of the program.
abbrev res_class : List ℕ
res_class = b'x' ∷ b's' ∷ b'e' ∷ b'c' ∷ b'u' ∷ b'r' ∷ b'e' ∷ b'l' ∷ b'o' ∷ b'c' ∷ b'k' ∷ []

-- PointerRoot
abbrev pointer_root : ℕ
pointer_root = 1

module _ (e : Env) where
  is_covered : ℕ → Option ℕ → Bool
  is_covered w none = false
  is_covered w (some top) = not (w == top)

  -- MaybeRaiseWindow
  pub maybe_raise_window : ℕ → Bool → M (Unit {0})
  unfolding is_covered
  maybe_raise_window w force = do
    top ← top_sibling e w
    (if force || is_covered w top then call (x (raise_window w)) else pure tt)

  -- TryAcquireGrabs; its window is only logged.
  pub try_acquire_grabs : M Bool
  try_acquire_grabs = do
    pointer ← grab_pointer e
    keyboard ← grab_keyboard e
    pure (pointer && keyboard)

  -- What AcquireGrabs does with the server grabbed.
  force_grabs : UnmapAllWindowsState × Bool → M Bool
  unfolding try_acquire_grabs
  force_grabs (state, true) = do
    r ← unmap_all_windows e state (λ w. try_acquire_grabs)
    remap_all_windows e r.1
    pure r.0
  force_grabs (state, false) = try_acquire_grabs

  -- AcquireGrabs. `force` is 0 or 1 wherever it is called, so that frames are not included.
  pub acquire_grabs : List ℕ → Bool → M Bool
  unfolding force_grabs
  acquire_grabs ignored_windows false = try_acquire_grabs
  acquire_grabs ignored_windows true = do
    call (x grab_server)
    init ← init_unmap_all_windows_state e ignored_windows (some res_class) none false
    ok ← force_grabs init
    call (x ungrab_server)
    call (x flush)
    pure ok

  -- After a failure: try to change the input focus, unless that has been done. The result is
  -- `previous_focused_window`.
  refocus : ℕ → M ℕ
  refocus zero = do
    previous ← input_focus e
    call (x (set_input_focus pointer_root))
    call (x flush)
    pure previous
  refocus (suc w) = pure (suc w)

  -- The loop of main that acquires the grabs at first, from `retries == n - 1` on. The results are
  -- whether it ended by `break`, and `previous_focused_window`.
  acquire_with_retries : List ℕ → Bool → ℕ → ℕ → M (Bool × ℕ)
  unfolding acquire_grabs refocus
  acquire_with_retries my_windows force_grab zero previous = pure (false, previous)
  acquire_with_retries my_windows force_grab (suc retries) previous =
      let next = acquire_with_retries my_windows force_grab retries in
      acquire_grabs my_windows (ltb retries (if force_grab then 1 else 0)) >>= λ ok.
      (if ok then pure (true, previous) else (refocus previous >>= next))

  -- The loop, from `retries = 10` on.
  pub acquire_first_grabs : List ℕ → Bool → M (Bool × ℕ)
  unfolding acquire_with_retries
  acquire_first_grabs my_windows force_grab = acquire_with_retries my_windows force_grab 11 0
