-- ===== src/UnmapAll.antt =====
-- unmap_all.c: unmapping the windows of other programs, and mapping them again. Window 0 is None.
-- The strings of XGetClassHint are lists of bytes.
pub mod Closed
pub mod Restore
pub mod Stops
use xsecurelock.Prelude.{
  same_text, ℕ, zero, suc, Bool, true, false, not, ◌&&◌, ◌||◌, List, [], ◌∷◌, Option, none, some,
  ◌==◌, if◌then◌else◌, length, get_elem?, drop,
}
use xsecurelock.Sys.Calls.{Tree, ClassHint, x, unmap_window, map_window}
use xsecurelock.Sys.{Env, M, pure, ◌>>=◌, ◌>>◌, call, tree}

-- UnmapAllWindowsState; `n_windows` is the length of `windows`.
pub record UnmapAllWindowsState : Type 0 where
  pub windows : List ℕ
  pub first_unmapped_window : ℕ

-- A name that is NULL matches all.
abbrev matches : Option (List ℕ) → List ℕ → Bool
matches none text = true
matches (some name) text = same_text name text

abbrev is_given : Option (List ℕ) → Bool
is_given none = false
is_given (some name) = true

abbrev bspwm : List ℕ
bspwm = b'B' ∷ b's' ∷ b'p' ∷ b'w' ∷ b'm' ∷ []

abbrev is_ignored : List ℕ → ℕ → Bool
is_ignored [] w = false
is_ignored (i ∷ is) w = (w == i) || is_ignored is w

module _ (my_res_class my_res_name : Option (List ℕ)) where
  -- Whether the window is of this program.
  abbrev pub is_mine : Option ClassHint → Bool
  is_mine none = false
  is_mine (some cls) =
      (is_given my_res_class || is_given my_res_name)
      && (matches my_res_class cls.res_class && matches my_res_name cls.res_name)

  abbrev pub is_bspwm : Option ClassHint → Bool
  is_bspwm none = false
  is_bspwm (some cls) = same_text cls.res_class bspwm

  module _ (t : Tree) (ignored : List ℕ) (include_frame : Bool) where
    -- One round of the loop of InitUnmapAllWindowsState: what becomes of the window, and whether
    -- one may proceed.
    pub init_window : ℕ → ℕ × Bool
    init_window w =
        if t.is_unmapped w
        then (0, true)
        else (let client = if include_frame then w else t.client_window w in
            if is_ignored ignored client || (client == 0)
            then (0, true)
            else (let cls = t.class_hint client in
                (if is_mine cls || is_bspwm cls then 0 else client, not (is_mine cls))))

    pub init_windows : List ℕ → List ℕ × Bool
    unfolding init_window
    init_windows [] = ([], true)
    init_windows (w ∷ ws) =
        let first = init_window w in
        let rest = init_windows ws in (first.0 ∷ rest.0, first.1 && rest.1)

-- `windows[i]`; the loops below stay within the list.
abbrev pub window_at : List ℕ → ℕ → ℕ
window_at ws i = elim (get_elem? ws i) [ none ↦ 0 | some w ↦ w ]

module _ (e : Env) where
  -- InitUnmapAllWindowsState
  pub init_unmap_all_windows_state :
      List ℕ → Option (List ℕ) → Option (List ℕ) → Bool → M (UnmapAllWindowsState × Bool)
  unfolding init_windows
  init_unmap_all_windows_state ignored my_res_class my_res_name include_frame = do
    t ← tree e
    let r = init_windows my_res_class my_res_name t ignored include_frame t.children
    pure (record { windows = r.0; first_unmapped_window = length r.0 }, r.1)

  -- The loop of UnmapAllWindows for the windows below `n`, from the top.
  unmap_below : (ℕ → M Bool) → ℕ → UnmapAllWindowsState → M (Bool × UnmapAllWindowsState)
  unmap_below can_stop zero s = pure (false, s)
  unmap_below can_stop (suc i) s =
      let w = window_at s.windows i in
      let unmapped = record s { first_unmapped_window = i } in
      let next = unmap_below can_stop i s in
      let next' = unmap_below can_stop i unmapped in
      if not (w == 0)
      then (call (x (unmap_window w))
          >> (can_stop w >>= λ ret. (if ret then pure (true, unmapped) else next')))
      else next

  -- UnmapAllWindows
  pub unmap_all_windows : UnmapAllWindowsState → (ℕ → M Bool) → M (Bool × UnmapAllWindowsState)
  unfolding unmap_below
  unmap_all_windows s can_stop = unmap_below can_stop s.first_unmapped_window s

  -- The loop of RemapAllWindows for the windows from `windows[i]` on, which are `ws`.
  remap_windows : List ℕ → M (Unit {0})
  remap_windows [] = pure tt
  remap_windows (w ∷ ws) =
      let next = remap_windows ws in
      if not (w == 0) then (call (x (map_window w)) >> next) else next

  -- RemapAllWindows
  pub remap_all_windows : UnmapAllWindowsState → M UnmapAllWindowsState
  unfolding remap_windows
  remap_all_windows s = do
    remap_windows (drop s.first_unmapped_window s.windows)
    pure (record s { first_unmapped_window = length s.windows })
