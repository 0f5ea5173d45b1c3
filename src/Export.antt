-- ===== src/Export.antt =====
-- xscreensaver_api.c: the ID of a window, handed to a child in an environment variable. An ID of X
-- has 32 bits, for which ten digits are enough.
mod Tests
use Prim.Native.String.{String}
use xsecurelock.Prelude.{
  ℕ, ◌^◌, ◌<◌, ◌≡◌, refl, ◌||◌, Option, none, some, List, [], ◌∷◌, leb, ◌==◌, if◌then◌else◌, length,
  arith, ne→==, lt→leb,
}
use xsecurelock.AuthProto.Decimal.{decimal, decimal-IsNumeral, decimal-ne-nil}
use xsecurelock.Settings.{get_unsigned_long_long_setting}
use xsecurelock.Settings.Integers.{get_unsigned_long_long_setting-decimal}

-- sizeof (window_id_str)
abbrev str_size : ℕ
str_size = 32

-- ExportWindowID: the value that setenv gets, or none if it does not fit.
pub export_window_id : ℕ → Option (List ℕ)
export_window_id w =
    let text = decimal w in
    if (length text == 0) || leb str_size (length text) then none else some text

-- ReadWindowID
pub read_window_id : (String → Option (List ℕ)) → ℕ
read_window_id getenv = get_unsigned_long_long_setting getenv "XSCREENSAVER_WINDOW" 0

export_window_id-decimal : (w : ℕ) → w < 2 ^ 32 → export_window_id w ≡ some (decimal w)
unfolding export_window_id
export_window_id-decimal w h =
    let v = decimal-IsNumeral w (omega arith) in
    rw
      (
        ne→== (length (decimal w)) 0 (λ e. decimal-ne-nil w (omega arith) (nil (decimal w) e)),
        lt→leb str_size (length (decimal w)) (omega (arith, v.bounded)),
      )
      refl
  where
    nil : (xs : List ℕ) → length xs ≡ 0 → xs ≡ []
    nil [] e = refl
    nil (x ∷ xs) e = absurd (omega arith)

-- A child whose environment has what ExportWindowID exported for a window reads the ID of that
-- window, if the ID has 32 bits.
pub read_window_id-export_window_id :
    (getenv : String → Option (List ℕ)) (w : ℕ)
    → w < 2 ^ 32
    → getenv "XSCREENSAVER_WINDOW" ≡ export_window_id w
    → read_window_id getenv ≡ w
unfolding read_window_id
read_window_id-export_window_id getenv w h e =
    get_unsigned_long_long_setting-decimal getenv "XSCREENSAVER_WINDOW" 0 w
      (rw e (export_window_id-decimal w h)) h
