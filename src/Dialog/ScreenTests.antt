-- ===== src/Dialog/ScreenTests.antt =====
-- What the dialog shows on two screens, one above the other, and with a German keyboard.
use xsecurelock.Prelude.{ℕ, ◌≡◌, refl, ◌+◌, true, false, List, [], ◌∷◌, none, some, length, arith}
use xsecurelock.Prelude.Int.{pos, ◌+ℤ◌, ◌-ℤ◌, half, ◌<ℤ◌}
use xsecurelock.Monitors.{Monitor}
use xsecurelock.Dialog.Windows.{
  Request, WindowState, place, clip, update_per_monitor_windows, unmap_window,
}
use xsecurelock.Dialog.Windows.Place.{IsWithin, place-IsWithin, place_above}
use xsecurelock.Dialog.Windows.Kept.{
  shown, update_per_monitor_windows-shown, update_per_monitor_windows-none,
}
use xsecurelock.Dialog.Texts.{build_login, before_dot}
use xsecurelock.Dialog.Texts.Login.{build_login_lem}
use xsecurelock.Dialog.Indicators.{
  XkbState, Keyboard, get_indicators, implicit, modifiers, has_bit, with_state,
  with_indicator_state, indicators_of, fill, layout_part, put_layout, returned_text, last_byte,
  strip_country, is_caps_on, add_caps_lock, is_caps_lock, layout_name,
}
use xsecurelock.Dialog.Indicators.Fits.{IsShort, get_indicators-IsShort}
use xsecurelock.Dialog.Indicators.Joined.{with_country, joined, active, get_indicators-joined}

abbrev lower : Monitor
lower = record {
  x = pos 100;
  y = pos 1000;
  width = pos 1920;
  height = pos 1080;
  mwidth = pos 300;
  mheight = pos 200;
  is_primary = true;
}

lower_half :
    place lower (pos 1000) (pos 594)
    ≡ record { x = pos 560; y = pos 1486; w = pos 1000; h = pos 594 }
unfolding place clip ◌+ℤ◌ ◌-ℤ◌ half
lower_half = refl

place-IsWithin_example :
    let box = place lower (pos 1920) (pos 594) in
    IsWithin lower box
    × (box.w ≡ pos 1920)
    × (box.h ≡ pos 594)
    × (box.y +ℤ box.h ≡ lower.y +ℤ lower.height)
place-IsWithin_example =
    place-IsWithin lower (pos 1920) (pos 594) (omega arith) (omega arith) (omega arith)
      (omega arith) (omega arith) (omega arith)

-- 55 percent of the height, at 200 pixels per inch
place_above_example :
    let box = place lower (pos 1920) (pos 1188) in (box.y <ℤ lower.y) × (box.h ≡ pos 1188)
unfolding ◌+ℤ◌
place_above_example = place_above lower (pos 1920) (pos 1188) (omega arith) (omega arith)

abbrev no_windows : WindowState
no_windows = record { windows = []; requests = [] }

abbrev new_window : List Request → ℕ
new_window rs = 50 + length rs

update_per_monitor_windows-shown_example :
    update_per_monitor_windows 7 new_window
      (some lower)
      (pos 1920)
      (pos 594)
      (pos 0, pos 0)
      no_windows
    ≡ some (record {
      windows = 7 ∷ [];
      requests = shown 7 new_window (place lower (pos 1920) (pos 594)) [];
    })
update_per_monitor_windows-shown_example =
    update_per_monitor_windows-shown 7 new_window lower (pos 1920) (pos 594) (pos 0, pos 0)
      no_windows tt

update_per_monitor_windows-none_example :
    update_per_monitor_windows 7 new_window none
      (pos 1920)
      (pos 594)
      (pos 0, pos 0)
      (record no_windows { windows = 7 ∷ [] })
    ≡ some (record { windows = []; requests = unmap_window 7 ∷ [] })
update_per_monitor_windows-none_example =
    update_per_monitor_windows-none 7 new_window (pos 1920) (pos 594) (pos 0, pos 0)
      (record no_windows { windows = 7 ∷ [] }) refl

build_login_lem_example :
    build_login (b'm' ∷ b'e' ∷ []) (b'p' ∷ b'c' ∷ b'.' ∷ b'x' ∷ []) 256
    ≡ some (b'm' ∷ b'e' ∷ b'@' ∷ b'p' ∷ b'c' ∷ [])
unfolding before_dot
build_login_lem_example = build_login_lem (b'm' ∷ b'e' ∷ []) (b'p' ∷ b'c' ∷ b'.' ∷ b'x' ∷ []) 255

-- "G (DE)"
abbrev german : List ℕ
german = b'G' ∷ b' ' ∷ b'(' ∷ b'D' ∷ b'E' ∷ b')' ∷ []

abbrev shift_lock : XkbState
shift_lock = record { group = 0; latched_mods = 1; locked_mods = 2 }

abbrev keyboard : List ℕ → Keyboard
keyboard name = record {
  num_groups = some 2;
  has_names = true;
  state = some shift_lock;
  indicator_state = some 1;
  groups = λ group. some name;
  symbols = none;
  indicators = λ i. none;
}

with_indicators :
    (get_indicators true false (keyboard german) true).text
    ≡ some (b'G' ∷ b' ' ∷ b'[' ∷ b'A' ∷ b'b' ∷ b'c' ∷ b']' ∷ [])
unfolding get_indicators with_state with_indicator_state indicators_of fill layout_part put_layout
    returned_text last_byte strip_country is_caps_on add_caps_lock is_caps_lock layout_name has_bit
with_indicators = refl

get_indicators-IsShort_example : IsShort (get_indicators true false (keyboard german) true).text
get_indicators-IsShort_example = get_indicators-IsShort true false (keyboard german) true

get_indicators-joined_example : get_indicators true true (keyboard german) true ≡ record {
  text = some (joined (b'G' ∷ []) (active shift_lock modifiers));
  warning = implicit shift_lock 1;
  have_multiple_layouts = true;
}
unfolding layout_name
get_indicators-joined_example =
    get_indicators-joined (keyboard german) 2 shift_lock (with_country (b'G' ∷ []) b'D' b'E') refl
      refl refl refl (omega arith)
