-- ===== src/Dialog/Windows/Place.antt =====
-- helpers/auth_x11.c: where the window of the dialog is put.
use xsecurelock.Prelude.{◌≡◌, refl, arith}
use xsecurelock.Prelude.Int.{
  ℤ, pos, ◌+ℤ◌, ◌-ℤ◌, half, ◌≤ℤ◌, ◌<ℤ◌, parts, parts-add, parts-sub, parts-half, parts-injective,
}
use xsecurelock.Monitors.{Monitor}
use xsecurelock.Dialog.Windows.{Box, clip, place}

-- Within the monitor, clipping changes nothing.
clip_inside : (x w limit : ℤ) → pos 0 ≤ℤ x → x +ℤ w ≤ℤ limit → clip x w limit ≡ (x, w)
unfolding clip
clip_inside x w limit h k = ground arith

-- The box lies within the monitor.
abbrev pub IsWithin : Monitor → Box → Type 0
IsWithin m box =
    ((m.x ≤ℤ box.x) × (pos 0 ≤ℤ box.w) × (box.x +ℤ box.w ≤ℤ m.x +ℤ m.width))
    × ((m.y ≤ℤ box.y) × (pos 0 ≤ℤ box.h) × (box.y +ℤ box.h ≤ℤ m.y +ℤ m.height))

module _ (m : Monitor) (region_w region_h : ℤ) where
  -- The coordinates before the clipping.
  left : ℤ
  left = m.x +ℤ half (m.width -ℤ region_w)

  top : ℤ
  top = m.y +ℤ m.height -ℤ region_h

  left_le :
      pos 0 ≤ℤ region_w → region_w ≤ℤ m.width → (m.x ≤ℤ left) × (left +ℤ region_w ≤ℤ m.x +ℤ m.width)
  unfolding left
  left_le h k =
      let (a, b) = parts-sub m.width region_w in
      let (c, d) = parts-half (m.width -ℤ region_w) in
      let (e, f) = parts-add m.x (half (m.width -ℤ region_w)) in
      let (g, i) = parts-add (m.x +ℤ half (m.width -ℤ region_w)) region_w in
      let (j, l) = parts-add m.x m.width in
      (
        omega (arith, parts m.x, parts m.width, parts region_w),
        omega (arith, parts m.x, parts m.width, parts region_w),
      )

  top_le : top +ℤ region_h ≤ℤ m.y +ℤ m.height
  unfolding top
  top_le =
      let (a, b) = parts-add m.y m.height in
      let (c, d) = parts-sub (m.y +ℤ m.height) region_h in
      let (e, f) = parts-add (m.y +ℤ m.height -ℤ region_h) region_h in
      omega (arith, parts region_h, parts (m.y +ℤ m.height))

  top-add : top +ℤ region_h ≡ m.y +ℤ m.height
  unfolding top
  top-add =
      let (c, d) = parts-sub (m.y +ℤ m.height) region_h in
      let (e, f) = parts-add (m.y +ℤ m.height -ℤ region_h) region_h in
      parts-injective _ _ (omega (arith, parts region_h, parts (m.y +ℤ m.height)))

  top_ge : region_h ≤ℤ m.height → m.y ≤ℤ top
  unfolding top
  top_ge h =
      let (a, b) = parts-add m.y m.height in
      let (c, d) = parts-sub (m.y +ℤ m.height) region_h in
      omega (arith, parts region_h, parts m.y, parts m.height)

  top_lt : m.height <ℤ region_h → top <ℤ m.y
  unfolding top
  top_lt h =
      let (a, b) = parts-add m.y m.height in
      let (c, d) = parts-sub (m.y +ℤ m.height) region_h in
      omega (arith, parts region_h, parts m.y, parts m.height)

  top_on_screen : region_h ≤ℤ m.y +ℤ m.height → pos 0 ≤ℤ top
  unfolding top
  top_on_screen h =
      let (c, d) = parts-sub (m.y +ℤ m.height) region_h in
      omega (arith, parts region_h, parts (m.y +ℤ m.height))

  -- If the monitor begins on the screen and the region is no larger than the monitor, the window of
  -- the dialog lies within the monitor, keeps the size of the region, and ends where the monitor ends.
  pub place-IsWithin :
      pos 0 ≤ℤ m.x
      → pos 0 ≤ℤ m.y
      → pos 0 ≤ℤ region_w
      → pos 0 ≤ℤ region_h
      → region_w ≤ℤ m.width
      → region_h ≤ℤ m.height
      → let box = place m region_w region_h in
        IsWithin m box
        × (box.w ≡ region_w)
        × (box.h ≡ region_h)
        × (box.y +ℤ box.h ≡ m.y +ℤ m.height)
  unfolding place left top
  place-IsWithin hx hy hw hh kw kh =
      let (a, b) = left_le hw kw in
      rw
        (
          clip_inside left region_w (m.x +ℤ m.width) (omega (arith, parts left, parts m.x)) b,
          clip_inside top region_h (m.y +ℤ m.height)
              (omega (arith, parts top, parts m.y, top_ge kh)) top_le,
        )
        (((a, hw, b), (top_ge kh, hh, top_le)), refl, refl, top-add)

  -- A region that is higher than the monitor is put over what is above the monitor: if it begins on
  -- the screen, the window begins above the monitor, with the whole height of the region.
  pub place_above :
      m.height <ℤ region_h
      → region_h ≤ℤ m.y +ℤ m.height
      → let box = place m region_w region_h in (box.y <ℤ m.y) × (box.h ≡ region_h)
  unfolding place top
  place_above h k =
      rw (clip_inside top region_h (m.y +ℤ m.height) (top_on_screen k) top_le) (top_lt h, refl)
