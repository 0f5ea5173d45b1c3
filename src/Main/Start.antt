-- ===== src/Main/Start.antt =====
-- main.c: the settings, the arguments and the checks before anything is locked. The executables that
-- configure has chosen are parameters, and so are `getenv`, `access`, and what chdir and access say.
pub mod Arguments
pub mod Checks
mod Tests
use Prim.Native.String.{String}
use xsecurelock.Prelude.{
  ℕ, Bool, true, false, not, List, [], ◌∷◌, Option, none, some, if◌then◌else◌, same_text,
}
use xsecurelock.Prelude.Int.{ℤ, pos, is_zero}
use xsecurelock.Settings.{
  get_executable_path_setting, get_int_setting, get_string_setting, starts_with, auth_,
}

-- The global variables that LoadDefaults and ParseArgumentsOrExit set; `none` is NULL.
pub record MainSettings : Type 0 where
  pub auth_executable : Option (List ℕ)
  pub saver_executable : Option (List ℕ)
  pub no_composite : ℤ
  pub composite_obscurer : ℤ
  pub force_grab : ℤ
  pub debug_window_info : ℤ
  pub blank_timeout : ℤ
  pub blank_dpms_state : List ℕ
  pub saver_reset_on_auth_close : ℤ
  pub saver_delay_ms : ℤ
  pub saver_stop_on_blank : ℤ
  pub notify_command : Option (List (List ℕ))

-- How a part of main ends: it goes on, or the program ends with a status.
pub data Start : Type 0 where
  starts : MainSettings → Start
  exits : ℕ → Start

-- "saver_", "--", "--help" and "--version"
abbrev pub saver_ : List ℕ
saver_ = b's' ∷ b'a' ∷ b'v' ∷ b'e' ∷ b'r' ∷ b'_' ∷ []

abbrev pub dashes : List ℕ
dashes = b'-' ∷ b'-' ∷ []

abbrev help : List ℕ
help = b'-' ∷ b'-' ∷ b'h' ∷ b'e' ∷ b'l' ∷ b'p' ∷ []

abbrev version : List ℕ
version = b'-' ∷ b'-' ∷ b'v' ∷ b'e' ∷ b'r' ∷ b's' ∷ b'i' ∷ b'o' ∷ b'n' ∷ []

-- The loop of ParseArgumentsOrExit, from `argv[1]` on; Usage and Version print only.
unfoldable pub parse_arguments : List (List ℕ) → MainSettings → Start
parse_arguments [] s = starts s
parse_arguments (arg ∷ args) s =
    let with_auth = parse_arguments args (record s { auth_executable = some arg }) in
    let with_saver = parse_arguments args (record s { saver_executable = some arg }) in
    if starts_with auth_ arg
    then with_auth
    else if starts_with saver_ arg
    then with_saver
    else if same_text arg dashes
    then starts (record s { notify_command = some args })
    else if same_text arg help
    then exits 0
    else if same_text arg version
    then exits 0
    else exits 0

-- CheckSettings
unfoldable pub is_given : Option (List ℕ) → Bool
is_given none = false
is_given (some executable) = true

unfoldable pub check_settings : MainSettings → Bool
unfolding is_given
check_settings s =
    if not (is_given s.auth_executable)
    then false
    else if not (is_given s.saver_executable)
    then false
    else true

-- The first character of a string is not the 0 that ends it.
unfoldable pub is_nonempty : List ℕ → Bool
is_nonempty [] = false
is_nonempty (c ∷ cs) = true

module _ (getenv : String → Option (List ℕ)) where
  -- `*GetStringSetting (name, "")`
  unfoldable pub is_set : String → Bool
  unfolding is_nonempty
  is_set name = is_nonempty (get_string_setting getenv name [])

  -- CheckLockingEffectiveness
  unfoldable pub check_locking_effectiveness : Bool
  unfolding is_set
  check_locking_effectiveness =
      let error_status = not (
        is_zero
          (get_int_setting getenv "XSECURELOCK_DEBUG_ALLOW_LOCKING_IF_INEFFECTIVE" (pos 0))) in
      if is_set "WAYLAND_DISPLAY"
      then error_status
      else if is_set "VNCDESKTOP"
      then error_status
      else if is_set "CHROME_REMOTE_DESKTOP_SESSION"
      then error_status
      else true

  module _ (executable : List ℕ → Bool) (auth_default saver_default : List ℕ) where
    -- LoadDefaults
    unfoldable pub load_defaults : MainSettings
    load_defaults = record {
      auth_executable =
          some (get_executable_path_setting getenv executable "XSECURELOCK_AUTH" auth_default true);
      saver_executable = some (
          get_executable_path_setting getenv executable "XSECURELOCK_GLOBAL_SAVER" saver_default
            false);
      no_composite = get_int_setting getenv "XSECURELOCK_NO_COMPOSITE" (pos 0);
      composite_obscurer = get_int_setting getenv "XSECURELOCK_COMPOSITE_OBSCURER" (pos 1);
      force_grab = get_int_setting getenv "XSECURELOCK_FORCE_GRAB" (pos 0);
      debug_window_info = get_int_setting getenv "XSECURELOCK_DEBUG_WINDOW_INFO" (pos 0);
      blank_timeout = get_int_setting getenv "XSECURELOCK_BLANK_TIMEOUT" (pos 600);
      blank_dpms_state =
          get_string_setting getenv "XSECURELOCK_BLANK_DPMS_STATE" (b'o' ∷ b'f' ∷ b'f' ∷ []);
      saver_reset_on_auth_close =
          get_int_setting getenv "XSECURELOCK_SAVER_RESET_ON_AUTH_CLOSE" (pos 0);
      saver_delay_ms = get_int_setting getenv "XSECURELOCK_SAVER_DELAY_MS" (pos 0);
      saver_stop_on_blank = get_int_setting getenv "XSECURELOCK_SAVER_STOP_ON_BLANK" (pos 1);
      notify_command = none;
    }

    -- CheckSettings and CheckLockingEffectiveness, behind ParseArgumentsOrExit.
    unfoldable pub checked : Start → Start
    unfolding check_settings check_locking_effectiveness
    checked (exits status) = exits status
    checked (starts s) =
        if not (check_settings s)
        then exits 1
        else if not check_locking_effectiveness
        then exits 1
        else starts s

    -- main from chdir to CheckLockingEffectiveness: whether chdir ("/") succeeds, whether the
    -- directory of the helpers is accessible, and the arguments behind the program's name.
    unfoldable pub prepare : (in_root has_helpers : Bool) → List (List ℕ) → Start
    unfolding load_defaults parse_arguments checked
    prepare in_root has_helpers args =
        if not in_root
        then exits 1
        else if not has_helpers
        then exits 1
        else checked (parse_arguments args load_defaults)
