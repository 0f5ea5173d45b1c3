-- ===== src/Main/Start/Checks.antt =====
-- main.c: what has been checked when the locker begins to lock.
use Prim.Native.String.{String}
use xsecurelock.Prelude.{
  ℕ, ◌≡◌, refl, ap, ◌⊎◌, inl, inr, ◌↔◌, Bool, true, false, not, List, [], ◌∷◌, Option, some,
  same_text, if◌then◌else◌,
}
use xsecurelock.Prelude.Int.{pos, is_zero}
use xsecurelock.Settings.{
  starts_with, auth_, get_int_setting, get_string_setting, get_executable_path_setting,
}
use xsecurelock.Settings.Executable.{
  BeginsWith, BeginsWith-of, Chosen, get_executable_path_setting-Chosen,
}
use xsecurelock.Main.Start.{
  MainSettings, Start, starts, exits, saver_, dashes, help, version, parse_arguments,
  check_settings, is_nonempty, is_set, check_locking_effectiveness, load_defaults, checked, prepare,
}

-- `arg` is one of the arguments.
abbrev pub IsArgument : List ℕ → List (List ℕ) → Type 0
IsArgument arg [] = ⊥
IsArgument arg (a ∷ args) = (arg ≡ a) ⊎ IsArgument arg args

-- What holds of the settings, if the program goes on.
abbrev pub Starts : (MainSettings → Type 0) → Start → Type 0
Starts P (starts s) = P s
Starts P (exits status) = Unit {0}

-- The authentication program is as before, or an argument that begins with `auth_`.
abbrev FromArguments : List (List ℕ) → Option (List ℕ) → MainSettings → Type 0
FromArguments args before s =
    (s.auth_executable ≡ before)
    ⊎ ((arg : List ℕ) × (s.auth_executable ≡ some arg) × IsArgument arg args × BeginsWith auth_ arg)

Starts-mono :
    (P Q : MainSettings → Type 0) (r : Start)
    → Starts P r
    → ((s : MainSettings) → P s → Q s)
    → Starts Q r
Starts-mono P Q (starts s) p k = k s p
Starts-mono P Q (exits status) p k = tt

parse_arguments-Starts :
    (args : List (List ℕ)) (s : MainSettings)
    → Starts (FromArguments args s.auth_executable) (parse_arguments args s)
unfolding parse_arguments
parse_arguments-Starts [] s = inl refl
parse_arguments-Starts (a ∷ args) s =
    go (starts_with auth_ a) (starts_with saver_ a) (same_text a dashes) (same_text a help)
      (same_text a version) (BeginsWith-of auth_ a) (parse_arguments-Starts args with_auth)
      (parse_arguments-Starts args with_saver)
  where
    with_auth : MainSettings
    with_auth = record s { auth_executable = some a }

    with_saver : MainSettings
    with_saver = record s { saver_executable = some a }

    From : MainSettings → Type 0
    From = FromArguments (a ∷ args) s.auth_executable

    go :
        (au sa da he ve : Bool)
        → (au ≡ true → BeginsWith auth_ a)
        → Starts (FromArguments args (some a)) (parse_arguments args with_auth)
        → Starts (FromArguments args s.auth_executable) (parse_arguments args with_saver)
        → Starts From (
            if au
            then parse_arguments args with_auth
            else if sa
            then parse_arguments args with_saver
            else if da
            then starts (record s { notify_command = some args })
            else if he
            then exits 0
            else if ve
            then exits 0
            else exits 0)
    go true sa da he ve b p q =
        Starts-mono (FromArguments args (some a)) From (parse_arguments args with_auth) p λ t.
          elim [
            | inl same ↦ inr (a, same, inl refl, b refl)
            | inr (arg, same, is, begins) ↦ inr (arg, same, inr is, begins)
          ]
    go false true da he ve b p q =
        Starts-mono (FromArguments args s.auth_executable) From (parse_arguments args with_saver) q
          λ t. elim [
            | inl same ↦ inl same
            | inr (arg, same, is, begins) ↦ inr (arg, same, inr is, begins)
          ]
    go false false true he ve b p q = inl refl
    go false false false true ve b p q = tt
    go false false false false true b p q = tt
    go false false false false false b p q = tt

module _ (getenv : String → Option (List ℕ)) where
  -- The variable is not set, or empty.
  abbrev pub IsUnset : String → Type 0
  IsUnset name = get_string_setting getenv name [] ≡ []

  is_set-IsUnset : (name : String) → is_set getenv name ≡ false → IsUnset name
  unfolding is_set is_nonempty
  is_set-IsUnset name h = empty (get_string_setting getenv name []) h
    where
      empty : (value : List ℕ) → is_nonempty value ≡ false → value ≡ []
      empty [] h = refl
      empty (c ∷ cs) h = absurd (cc (h))

  IsUnset-is_set : (name : String) → IsUnset name → is_set getenv name ≡ false
  unfolding is_set is_nonempty
  IsUnset-is_set name h = ap is_nonempty h

  -- The setting that allows locking anyway is not 0.
  abbrev pub IsForced : Type 0
  IsForced =
      is_zero (get_int_setting getenv "XSECURELOCK_DEBUG_ALLOW_LOCKING_IF_INEFFECTIVE" (pos 0))
      ≡ false

  abbrev pub IsPlainSession : Type 0
  IsPlainSession =
      IsUnset "WAYLAND_DISPLAY" × IsUnset "VNCDESKTOP" × IsUnset "CHROME_REMOTE_DESKTOP_SESSION"

  -- CheckLockingEffectiveness allows locking exactly if none of the variables of Wayland, VNC and
  -- Chrome Remote Desktop has a value, or the setting that allows it anyway is not 0.
  pub check_locking_effectiveness_iff :
      (check_locking_effectiveness getenv ≡ true) ↔ (IsForced ⊎ IsPlainSession)
  unfolding check_locking_effectiveness
  check_locking_effectiveness_iff =
      go (is_zero (get_int_setting getenv "XSECURELOCK_DEBUG_ALLOW_LOCKING_IF_INEFFECTIVE" (pos 0)))
        (is_set getenv "WAYLAND_DISPLAY") (is_set getenv "VNCDESKTOP")
        (is_set getenv "CHROME_REMOTE_DESKTOP_SESSION") (is_set-IsUnset "WAYLAND_DISPLAY")
        (is_set-IsUnset "VNCDESKTOP") (is_set-IsUnset "CHROME_REMOTE_DESKTOP_SESSION")
        (IsUnset-is_set "WAYLAND_DISPLAY") (IsUnset-is_set "VNCDESKTOP")
        (IsUnset-is_set "CHROME_REMOTE_DESKTOP_SESSION")
    where
      go :
          (z w v c : Bool) {W V C : Type 0}
          → (w ≡ false → W)
          → (v ≡ false → V)
          → (c ≡ false → C)
          → (W → w ≡ false)
          → (V → v ≡ false)
          → (C → c ≡ false)
          → ((if w then not z else if v then not z else if c then not z else true) ≡ true)
            ↔ ((z ≡ false) ⊎ (W × V × C))
      go false w v c a b d f g h = ((λ _. inl refl), λ _. any w v c)
        where
          any :
              (w v c : Bool)
              → (if w then true else if v then true else if c then true else true) ≡ true
          any true v c = refl
          any false true c = refl
          any false false true = refl
          any false false false = refl
      go true false false false a b d f g h = ((λ _. inr (a refl, b refl, d refl)), λ _. refl)
      go true true v c a b d f g h = ((λ e. cc (e)), elim [ inl e ↦ cc (e) | inr p ↦ cc (f p.0) ])
      go true false true c a b d f g h =
          ((λ e. cc (e)), elim [ inl e ↦ cc (e) | inr p ↦ cc (g p.1) ])
      go true false false true a b d f g h =
          ((λ e. cc (e)), elim [ inl e ↦ cc (e) | inr p ↦ cc (h p.2) ])

  module _ (executable : List ℕ → Bool) (auth_default saver_default : List ℕ) where
    -- The authentication program is the configured one, the value of XSECURELOCK_AUTH if that is
    -- allowed, or an argument whose name begins with `auth_`.
    abbrev pub IsAuth : List (List ℕ) → MainSettings → Type 0
    IsAuth args s =
        (program : List ℕ) × (s.auth_executable ≡ some program)
        × (Chosen executable true (getenv "XSECURELOCK_AUTH") auth_default program
            ⊎ (IsArgument program args × BeginsWith auth_ program))

    -- What main has made sure of.
    abbrev pub IsPrepared : List (List ℕ) → MainSettings → Type 0
    IsPrepared args s = IsAuth args s × (IsForced ⊎ IsPlainSession)

    checked-IsPrepared :
        (args : List (List ℕ)) (parsed : Start)
        → Starts (IsAuth args) parsed
        → Starts (IsPrepared args) (checked getenv executable auth_default saver_default parsed)
    unfolding checked
    checked-IsPrepared args (exits status) h = tt
    checked-IsPrepared args (starts s) h =
        go (check_settings s) (check_locking_effectiveness getenv) check_locking_effectiveness_iff.0
      where
        go :
            (b c : Bool)
            → (c ≡ true → IsForced ⊎ IsPlainSession)
            → Starts
                (IsPrepared args)
                (if not b then exits 1 else if not c then exits 1 else starts s)
        go false c f = tt
        go true false f = tt
        go true true f = (h, f refl)

    -- If main goes on to lock, the authentication program is the configured one, the value of
    -- XSECURELOCK_AUTH if that is allowed, or an argument that begins with `auth_`; and none of the
    -- variables of Wayland, VNC and Chrome Remote Desktop has a value, or locking is allowed anyway.
    pub prepare-IsPrepared :
        (in_root has_helpers : Bool) (args : List (List ℕ))
        → Starts
            (IsPrepared args)
            (prepare getenv executable auth_default saver_default in_root has_helpers args)
    unfolding prepare load_defaults
    prepare-IsPrepared false has_helpers args = tt
    prepare-IsPrepared true false args = tt
    prepare-IsPrepared true true args = checked-IsPrepared args (parse_arguments args defaults) (
        Starts-mono (FromArguments args defaults.auth_executable) (IsAuth args)
          (parse_arguments args defaults) (parse_arguments-Starts args defaults)
          λ s. elim [
            | inl same ↦ (
              chosen,
              same,
              inl (
                  get_executable_path_setting-Chosen getenv executable "XSECURELOCK_AUTH"
                    auth_default true),
            )
            | inr (arg, same, is, begins) ↦ (arg, same, inr (is, begins))
          ])
      where
        defaults : MainSettings
        defaults = load_defaults getenv executable auth_default saver_default

        chosen : List ℕ
        chosen = get_executable_path_setting getenv executable "XSECURELOCK_AUTH" auth_default true
