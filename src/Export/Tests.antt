-- ===== src/Export/Tests.antt =====
-- A window whose ID is handed to a child.
use Prim.Native.String.{String}
use xsecurelock.Prelude.{ℕ, ◌≡◌, refl, List, Option, arith}
use xsecurelock.Export.{export_window_id, read_window_id, read_window_id-export_window_id}

abbrev window : ℕ
window = 0x1400002

abbrev child_env : String → Option (List ℕ)
child_env name = export_window_id window

read_window_id-export_window_id_example : read_window_id child_env ≡ 0x1400002
read_window_id-export_window_id_example =
    read_window_id-export_window_id child_env window (omega arith) refl
