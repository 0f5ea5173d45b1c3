-- ===== src/Monitors/Inside.antt =====
-- helpers/monitors.c: the monitor lies within the window.
use xsecurelock.Prelude.{
  ◌≡◌, Bool, true, false, ◌||◌, List, [], ◌∷◌, Option, none, some, if◌then◌else◌, arith,
}
use xsecurelock.Prelude.Int.{ℤ, pos, ◌+ℤ◌, ◌-ℤ◌, lt, ◌≤ℤ◌, parts, parts-add, parts-sub}
use xsecurelock.Monitors.{
  Monitor, MonitorInfo, WindowArea, clamp, visible_part, visit, scan, get_primary_monitor, origin,
}

clamp_le : (x mi ma : ℤ) → mi ≤ℤ ma → clamp x mi ma ≤ℤ ma
clamp_le x mi ma h = ground arith

le_clamp : (x mi ma : ℤ) → mi ≤ℤ ma → mi ≤ℤ clamp x mi ma
le_clamp x mi ma h = ground arith

-- One coordinate: the part from `v`, of the length `len`, of what a window shows from `o` on, over
-- the length `size`.
start_inside :
    (v o size : ℤ)
    → pos 0 ≤ℤ size
    → let x = clamp v o (o +ℤ size) -ℤ o in (pos 0 ≤ℤ x) × (o +ℤ x ≤ℤ o +ℤ size)
start_inside v o size h =
    let c = clamp v o (o +ℤ size) in
    let (p, n) = parts-add o size in
    let (q, k) = parts-sub c o in
    let below = clamp_le v o (o +ℤ size) (omega (arith, parts o, parts size)) in
    let above = le_clamp v o (o +ℤ size) (omega (arith, parts o, parts size)) in
    let (r, m) = parts-add o (c -ℤ o) in (omega (arith, parts c), omega (arith, parts c, parts o))

extent_inside :
    (v o x size : ℤ)
    → pos 0 ≤ℤ x
    → o +ℤ x ≤ℤ o +ℤ size
    → let w = clamp v (o +ℤ x) (o +ℤ size) -ℤ (o +ℤ x) in (pos 0 ≤ℤ w) × (x +ℤ w ≤ℤ size)
extent_inside v o x size h k =
    let c = clamp v (o +ℤ x) (o +ℤ size) in
    let (p, n) = parts-add o size in
    let (r, m) = parts-add o x in
    let (q, j) = parts-sub c (o +ℤ x) in
    let (s, i) = parts-add x (c -ℤ (o +ℤ x)) in
    let below = clamp_le v (o +ℤ x) (o +ℤ size) k in
    let above = le_clamp v (o +ℤ x) (o +ℤ size) k in
    (omega (arith, parts c), omega (arith, parts c, parts o, parts x, parts size))

-- The monitor's box lies within a window of that size.
abbrev pub IsInside : WindowArea → Monitor → Type 0
IsInside area m =
    ((pos 0 ≤ℤ m.x) × (pos 0 ≤ℤ m.width) × (m.x +ℤ m.width ≤ℤ area.width))
    × ((pos 0 ≤ℤ m.y) × (pos 0 ≤ℤ m.height) × (m.y +ℤ m.height ≤ℤ area.height))

module _ (area : WindowArea) (h : pos 0 ≤ℤ area.width) (k : pos 0 ≤ℤ area.height) where
  pub visible_part-IsInside : (info : MonitorInfo) → IsInside area (visible_part area info)
  unfolding visible_part
  visible_part-IsInside info =
      let (wx, wy) = origin area in
      let (a, b) = start_inside info.x wx area.width h in
      let (c, d) = start_inside info.y wy area.height k in
      let (p, q) = extent_inside (info.x +ℤ info.width) wx _ area.width a b in
      let (r, s) = extent_inside (info.y +ℤ info.height) wy _ area.height c d in
      ((a, p, q), (c, r, s))

  -- So no round of the loop is skipped.
  pub visit_inside :
      (info : MonitorInfo) (m : Monitor)
      → visit area info m ≡ (visible_part area info, info.primary)
  unfolding visit
  visit_inside info m =
      go (lt w (pos 0)) (lt v (pos 0)) (not_below w inside.0.1) (not_below v inside.1.1)
    where
      part : Monitor
      part = visible_part area info

      w : ℤ
      w = part.width

      v : ℤ
      v = part.height

      inside : IsInside area part
      inside = visible_part-IsInside info

      not_below : (z : ℤ) → pos 0 ≤ℤ z → lt z (pos 0) ≡ false
      not_below z h = ground arith

      go :
          (b c : Bool)
          → b ≡ false
          → c ≡ false
          → ◌≡◌ {A = Monitor × Bool}
              (if b || c then (m, false) else (part, info.primary))
              (part, info.primary)
      go b c p q = rw (p, q)

  scan-IsInside :
      (infos : List MonitorInfo) (m : Monitor)
      → IsInside area m
      → IsInside area (scan area infos m).0
  unfolding scan
  scan-IsInside [] m i = i
  scan-IsInside (info ∷ infos) m i = go (scan area infos m).1 (scan-IsInside infos m i)
    where
      go :
          (b : Bool)
          → IsInside area (scan area infos m).0
          → IsInside area (if b then scan area infos m else visit area info (scan area infos m).0).0
      go true j = j
      go false j = rw (visit_inside info (scan area infos m).0) (visible_part-IsInside info)

  -- In a window of a width and height that are not below 0, the monitor that GetPrimaryMonitor
  -- leaves lies within the window, whatever boxes XRandR reports, if the one before did.
  pub get_primary_monitor-IsInside :
      (infos : Option (List MonitorInfo)) (m : Monitor)
      → IsInside area m
      → IsInside area (get_primary_monitor area infos m)
  unfolding get_primary_monitor
  get_primary_monitor-IsInside none m i = i
  get_primary_monitor-IsInside (some infos) m i = scan-IsInside infos m i
