-- ===== src/Monitors.antt =====
-- helpers/monitors.c: the monitor on which the dialog and the saver are shown. What XRandR and the
-- X server say is an argument. The resolution, ppi, is computed with floating-point numbers and left
-- out. An `int` is taken not to overflow, as the coordinates of X have 16 bits.
pub mod Inside
pub mod Chosen
mod Tests
use xsecurelock.Prelude.{ℕ, ◌+◌, ◌==◌, Bool, List, [], ◌∷◌, Option, none, some, ◌||◌, if◌then◌else◌}
use xsecurelock.Prelude.Int.{ℤ, ◌+ℤ◌, ◌-ℤ◌, lt, pos}

pub record Monitor : Type 0 where
  pub x : ℤ
  pub y : ℤ
  pub width : ℤ
  pub height : ℤ
  pub mwidth : ℤ
  pub mheight : ℤ
  pub is_primary : Bool

-- XRRMonitorInfo
pub record MonitorInfo : Type 0 where
  pub x : ℤ
  pub y : ℤ
  pub width : ℤ
  pub height : ℤ
  pub mwidth : ℤ
  pub mheight : ℤ
  pub primary : Bool

-- The size of the window, and its position: XTranslateCoordinates, or XGetWindowAttributes where
-- that failed.
pub record WindowArea : Type 0 where
  pub x : ℤ
  pub y : ℤ
  pub width : ℤ
  pub height : ℤ
  pub translated : Option (ℤ × ℤ)

-- CLAMP
abbrev pub clamp : ℤ → ℤ → ℤ → ℤ
clamp x mi ma = if lt x mi then mi else (if lt ma x then ma else x)

module _ (area : WindowArea) where
  -- wx and wy
  abbrev pub origin : ℤ × ℤ
  origin = elim area.translated [ none ↦ (area.x, area.y) | some at ↦ at ]

  -- What a round of the loop stores in `*monitor` unless w or h are below 0.
  unfoldable pub visible_part : MonitorInfo → Monitor
  visible_part info =
      let wx = origin.0 in
      let wy = origin.1 in
      let x = clamp info.x wx (wx +ℤ area.width) -ℤ wx in
      let y = clamp info.y wy (wy +ℤ area.height) -ℤ wy in
      record {
        x = x;
        y = y;
        width = clamp (info.x +ℤ info.width) (wx +ℤ x) (wx +ℤ area.width) -ℤ (wx +ℤ x);
        height = clamp (info.y +ℤ info.height) (wy +ℤ y) (wy +ℤ area.height) -ℤ (wy +ℤ y);
        mwidth = info.mwidth;
        mheight = info.mheight;
        is_primary = info.primary;
      }

  -- A round of the loop: the monitor, and whether the loop ends.
  unfoldable pub visit : MonitorInfo → Monitor → Monitor × Bool
  unfolding visible_part
  visit info monitor =
      let m = visible_part info in
      if lt m.width (pos 0) || lt m.height (pos 0) then (monitor, Bool.false) else (m, info.primary)

  -- The loop, from the last monitor to the first.
  unfoldable pub scan : List MonitorInfo → Monitor → Monitor × Bool
  unfolding visit
  scan [] monitor = (monitor, Bool.false)
  scan (info ∷ infos) monitor =
      let later = scan infos monitor in if later.1 then later else visit info later.0

  -- GetPrimaryMonitor and QueryXRandR; `none` if XRRGetMonitors gives no list.
  unfoldable pub get_primary_monitor : Option (List MonitorInfo) → Monitor → Monitor
  unfolding scan
  get_primary_monitor none monitor = monitor
  get_primary_monitor (some infos) monitor = (scan infos monitor).0

-- IsMonitorChangeEvent. Behind `event_base`, RRScreenChangeNotify is 0, RRNotify is 1,
-- RRNotify_CrtcChange is 0 and RRNotify_OutputChange is 1.
unfoldable pub is_monitor_change_event : ℕ → ℕ → Bool
is_monitor_change_event event_base type =
    (type == event_base) || (type == event_base + 1) || (type == event_base + 2)
