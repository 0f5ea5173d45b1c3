-- ===== src/Monitors/Chosen.antt =====
-- helpers/monitors.c: which of the monitors is chosen.
use xsecurelock.Prelude.{◌≡◌, refl, ap, Bool, true, false, List, [], ◌∷◌, some, if◌then◌else◌}
use xsecurelock.Prelude.Int.{pos, ◌≤ℤ◌}
use xsecurelock.Monitors.{
  Monitor, MonitorInfo, WindowArea, visible_part, visit, scan, get_primary_monitor,
}
use xsecurelock.Monitors.Inside.{visit_inside}

abbrev pub NonePrimary : List MonitorInfo → Type 0
NonePrimary [] = Unit {0}
NonePrimary (info ∷ infos) = (info.primary ≡ false) × NonePrimary infos

-- The last monitor that is primary, or the first of all: the description of the choice.
abbrev pub later : MonitorInfo → Bool → MonitorInfo → MonitorInfo
later a true b = b
later a false b = a

abbrev pub chosen : MonitorInfo → List MonitorInfo → MonitorInfo
chosen info [] = info
chosen info (next ∷ infos) = let rest = chosen next infos in later info rest.primary rest

module _ (area : WindowArea) (h : pos 0 ≤ℤ area.width) (k : pos 0 ≤ℤ area.height) where
  scan-chosen :
      (info : MonitorInfo) (infos : List MonitorInfo) (m : Monitor)
      → scan area (info ∷ infos) m
        ≡ (visible_part area (chosen info infos), (chosen info infos).primary)
  unfolding scan
  scan-chosen info [] m = visit_inside area h k info m
  scan-chosen info (next ∷ infos) m =
      rw (scan-chosen next infos m) (go (chosen next infos) (chosen next infos).primary refl)
    where
      go :
          (rest : MonitorInfo) (b : Bool)
          → rest.primary ≡ b
          → (if b then (visible_part area rest, b) else visit area info (visible_part area rest))
            ≡ (visible_part area (later info b rest), (later info b rest).primary)
      go rest true p = rw p
      go rest false p = visit_inside area h k info (visible_part area rest)

  -- In a window of a width and height that are not below 0, GetPrimaryMonitor leaves the part of a
  -- monitor that the window shows: of the last one that XRandR calls primary, or of the first one if
  -- it calls none so.
  pub get_primary_monitor-chosen :
      (info : MonitorInfo) (infos : List MonitorInfo) (m : Monitor)
      → get_primary_monitor area (some (info ∷ infos)) m ≡ visible_part area (chosen info infos)
  unfolding get_primary_monitor
  get_primary_monitor-chosen info infos m = ap (λ r. r.0) (scan-chosen info infos m)
