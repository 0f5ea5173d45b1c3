-- ===== src/Dialog/Windows.antt =====
-- helpers/auth_x11.c: the windows of the dialog and their places. Graphics contexts are left out. An
-- `int` is taken not to overflow, as the coordinates of X have 16 bits.
pub mod Place
pub mod Kept
use xsecurelock.Prelude.{
  ℕ, zero, suc, ◌+◌, Bool, ◌&&◌, not, List, [], ◌∷◌, ◌++◌, Option, none, some, ltb, ◌==◌,
  if◌then◌else◌, length, take, drop, get_elem?,
}
use xsecurelock.Prelude.Int.{ℤ, pos, ◌+ℤ◌, ◌-ℤ◌, half, lt}
use xsecurelock.Monitors.{Monitor}

pub record Box : Type 0 where
  pub x : ℤ
  pub y : ℤ
  pub w : ℤ
  pub h : ℤ

-- Requests to the X server.
pub data Request : Type 0 where
  move_resize_window : (window : ℕ) → Box → Request
  set_background : (window : ℕ) → Request
  create_window : (window : ℕ) → Box → Request
  restack_windows : (window below : ℕ) → Request
  map_window unmap_window destroy_window : (window : ℕ) → Request

-- `windows` up to `num_windows`, and the requests so far, the last one first.
pub record WindowState : Type 0 where
  pub windows : List ℕ
  pub requests : List Request

-- One coordinate of "Clip to monitor": a start and a size, and where the monitor ends.
unfoldable pub clip : ℤ → ℤ → ℤ → ℤ × ℤ
clip x w limit =
    let x' = if lt x (pos 0) then pos 0 else x in
    let w' = if lt x (pos 0) then w +ℤ x else w in
    (x', if lt limit (x' +ℤ w') then limit -ℤ x' else w')

-- The box of a region of the given size.
unfoldable pub place : Monitor → ℤ → ℤ → Box
place monitor region_w region_h =
    let x = monitor.x +ℤ half (monitor.width -ℤ region_w) in
    let y = monitor.y +ℤ monitor.height -ℤ region_h in
    let (x', w') = clip x region_w (monitor.x +ℤ monitor.width) in
    let (y', h') = clip y region_h (monitor.y +ℤ monitor.height) in
    record { x = x'; y = y'; w = w'; h = h' }

abbrev pub request : Request → WindowState → WindowState
request r st = record st { requests = r ∷ st.requests }

-- The loop of DestroyPerMonitorWindows, for the windows from the index `i` on.
unfoldable pub destroy_loop : ℕ → List ℕ → WindowState → WindowState
destroy_loop i [] st = st
destroy_loop i (win ∷ wins) st =
    destroy_loop (i + 1) wins (request (if i == 0 then unmap_window win else destroy_window win) st)

-- DestroyPerMonitorWindows
unfoldable pub destroy_per_monitor_windows : ℕ → WindowState → WindowState
unfolding destroy_loop
destroy_per_monitor_windows keep st =
    let after = destroy_loop keep (drop keep st.windows) st in
    record after { windows = take keep after.windows }

-- `new_window` is what XCreateWindow returns after some requests.
module _ (main_window : ℕ) (new_window : List Request → ℕ) where
  -- "Add a new window": it becomes `windows[i]`, `i` being the number of windows.
  unfoldable pub add_window : ℕ → Box → WindowState → WindowState
  add_window zero box st = record {
    windows = st.windows ++ main_window ∷ [];
    requests =
        map_window main_window
        ∷ set_background main_window
        ∷ move_resize_window main_window box
        ∷ st.requests;
  }
  add_window (suc i) box st =
      let win = new_window st.requests in
      record {
        windows = st.windows ++ win ∷ [];
        requests =
            map_window win ∷ restack_windows main_window win ∷ create_window win box ∷ st.requests;
      }

  -- For the box, with `windows[i]` if `i` is below the number of windows.
  unfoldable pub create_or_update : ℕ → Box → WindowState → Option ℕ → Option WindowState
  unfolding add_window
  create_or_update i box st (some win) = some (request (move_resize_window win box) st)
  create_or_update i box st none =
      if ltb (length st.windows) i then none else some (add_window i box st)

  -- CreateOrUpdatePerMonitorWindow; `none` if it aborts.
  unfoldable pub create_or_update_per_monitor_window :
      ℕ → Monitor → ℤ → ℤ → WindowState → Option WindowState
  unfolding place create_or_update
  create_or_update_per_monitor_window i monitor region_w region_h st =
      create_or_update i (place monitor region_w region_h) st (get_elem? st.windows i)

  -- Whether the pointer is on the monitor.
  unfoldable pub has_pointer : Monitor → ℤ → ℤ → Bool
  has_pointer monitor x y =
      not (lt x monitor.x)
      && lt x (monitor.x +ℤ monitor.width)
      && not (lt y monitor.y)
      && lt y (monitor.y +ℤ monitor.height)

  -- Only the first window is kept.
  unfoldable pub keep_first : Option WindowState → Option WindowState
  unfolding destroy_per_monitor_windows
  keep_first none = none
  keep_first (some st) = some (destroy_per_monitor_windows 1 st)

  -- UpdatePerMonitorWindows, with where XQueryPointer finds the pointer.
  unfoldable pub update_per_monitor_windows :
      Option Monitor → ℤ → ℤ → (pointer : ℤ × ℤ) → WindowState → Option WindowState
  unfolding create_or_update_per_monitor_window has_pointer destroy_per_monitor_windows keep_first
  update_per_monitor_windows none region_w region_h pointer st =
      some (destroy_per_monitor_windows 0 st)
  update_per_monitor_windows (some monitor) region_w region_h pointer st =
      let updated = create_or_update_per_monitor_window 0 monitor region_w region_h st in
      if has_pointer monitor pointer.0 pointer.1 then updated else keep_first updated
