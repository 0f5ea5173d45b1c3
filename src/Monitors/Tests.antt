-- ===== src/Monitors/Tests.antt =====
-- Two monitors of a screen of 3000 by 1000.
use xsecurelock.Prelude.{◌≡◌, refl, true, false, [], ◌∷◌, some, none, arith}
use xsecurelock.Prelude.Int.{pos, negsuc, ◌+ℤ◌, ◌-ℤ◌}
use xsecurelock.Monitors.{Monitor, MonitorInfo, WindowArea, get_primary_monitor, visible_part}
use xsecurelock.Monitors.Inside.{IsInside, get_primary_monitor-IsInside}
use xsecurelock.Monitors.Chosen.{get_primary_monitor-chosen}

abbrev screen : WindowArea
screen = record { x = pos 0; y = pos 0; width = pos 3000; height = pos 1000; translated = none }

abbrev left : MonitorInfo
left = record {
  x = negsuc 9;
  y = pos 0;
  width = pos 1010;
  height = pos 700;
  mwidth = pos 300;
  mheight = pos 200;
  primary = true;
}

abbrev right : MonitorInfo
right = record left { x = pos 1000; width = pos 2500; primary = false }

abbrev before : Monitor
before = record {
  x = pos 0;
  y = pos 0;
  width = pos 0;
  height = pos 0;
  mwidth = pos 0;
  mheight = pos 0;
  is_primary = false;
}

left_clipped : visible_part screen left ≡ record before {
  width = pos 1000;
  height = pos 700;
  mwidth = pos 300;
  mheight = pos 200;
  is_primary = true;
}
unfolding visible_part ◌+ℤ◌ ◌-ℤ◌
left_clipped = refl

get_primary_monitor-IsInside_example :
    IsInside screen (get_primary_monitor screen (some (left ∷ right ∷ [])) before)
unfolding ◌+ℤ◌
get_primary_monitor-IsInside_example =
    get_primary_monitor-IsInside screen (omega arith) (omega arith) (some (left ∷ right ∷ []))
      before ((omega arith, omega arith, omega arith), (omega arith, omega arith, omega arith))

get_primary_monitor-chosen_example :
    get_primary_monitor screen (some (left ∷ right ∷ [])) before ≡ visible_part screen left
get_primary_monitor-chosen_example =
    get_primary_monitor-chosen screen (omega arith) (omega arith) left (right ∷ []) before
