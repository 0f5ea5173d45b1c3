-- ===== src/Settings/Executable.antt =====
-- env_settings.c: what GetExecutablePathSetting lets through.
use Prim.Native.String.{String}
use xsecurelock.Prelude.{
  ℕ, ◌≡◌, ◌≢◌, ◌⊎◌, inl, inr, refl, ap, Bool, true, false, not, ◌&&◌, Option, none, some, List, [],
  ◌∷◌, ◌++◌, arith, ◌==◌, Bool-cases, ==_iff,
}
use xsecurelock.Settings.{
  has_slash, basename, starts_with, is_misnamed, auth_, slash, check_executable, or_default,
  get_executable_path_setting,
}

abbrev pub NoSlash : List ℕ → Type 0
NoSlash [] = Unit {0}
NoSlash (c ∷ cs) = (c ≢ slash) × NoSlash cs

-- `base` is what follows the last slash of `path`, or all of it.
abbrev pub IsBasename : List ℕ → List ℕ → Type 0
IsBasename path base =
    NoSlash base × ((path ≡ base) ⊎ ((dir : List ℕ) × (path ≡ dir ++ slash ∷ base)))

abbrev pub BeginsWith : List ℕ → List ℕ → Type 0
BeginsWith prefix text = (rest : List ℕ) × (text ≡ prefix ++ rest)

-- What a value of the variable has to satisfy: it is absolute or has no slash, the last part of the
-- path begins with `auth_` exactly if an authentication module is asked for, and it is executable.
pub record IsAllowed (executable : List ℕ → Bool) (is_auth : Bool) (value : List ℕ) : Type 0 where
  pub nonempty : value ≢ []
  pub absolute_or_plain : NoSlash value ⊎ BeginsWith (slash ∷ []) value
  pub base : List ℕ
  pub last : IsBasename value base
  pub auth : is_auth ≡ true → BeginsWith auth_ base
  pub non_auth : is_auth ≡ false → ¬ BeginsWith auth_ base
  pub runs : executable value ≡ true

NoSlash-of : (cs : List ℕ) → has_slash cs ≡ false → NoSlash cs
unfolding has_slash
NoSlash-of [] h = tt
NoSlash-of (c ∷ cs) h = (ground arith, NoSlash-of cs (ground arith))

has_slash-of : (cs : List ℕ) → NoSlash cs → has_slash cs ≡ false
unfolding has_slash
has_slash-of [] n = refl
has_slash-of (c ∷ cs) n = ground (arith, has_slash-of cs n.1)

basename-IsBasename : (path : List ℕ) → IsBasename path (basename path)
unfolding basename has_slash
basename-IsBasename [] = (tt, inl refl)
basename-IsBasename (c ∷ cs) = elim (Bool-cases (has_slash cs)) [
  | inl more ↦ rw more (later more (basename-IsBasename cs))
  | inr none_left ↦ rw none_left (elim (Bool-cases (c == slash)) [
    | inl here ↦ rw here (NoSlash-of cs none_left, inr ([], rw ((==_iff c slash).0 here)))
    | inr plain ↦ rw plain (((λ e. ground arith), NoSlash-of cs none_left), inl refl)
  ])
]
  where
    later : has_slash cs ≡ true → IsBasename cs (basename cs) → IsBasename (c ∷ cs) (basename cs)
    later more (n, inl e) = absurd (cc (more, has_slash-of cs (rw (← e) at n)))
    later more (n, inr (dir, e)) = (n, inr (c ∷ dir, ap (λ (t : List ℕ). c ∷ t) e))

pub BeginsWith-of : (prefix text : List ℕ) → starts_with prefix text ≡ true → BeginsWith prefix text
unfolding starts_with
BeginsWith-of [] text h = (text, refl)
BeginsWith-of (c ∷ cs) [] h = absurd (cc h)
BeginsWith-of (c ∷ cs) (d ∷ text) h =
    let (rest, e) = BeginsWith-of cs text (ground arith) in
    let same : c ≡ d = ground arith in (rest, rw (← same) (ap (λ (t : List ℕ). c ∷ t) e))

starts_with-append : (prefix rest : List ℕ) → starts_with prefix (prefix ++ rest) ≡ true
unfolding starts_with
starts_with-append [] rest = refl
starts_with-append (c ∷ cs) rest = ground (arith, starts_with-append cs rest)

not-BeginsWith-of :
    (prefix text : List ℕ) → starts_with prefix text ≡ false → ¬ BeginsWith prefix text
not-BeginsWith-of prefix text h (rest, e) =
    cc (h, starts_with-append prefix rest, ap (starts_with prefix) e)

-- The value of the default, or of the variable, if that is allowed.
abbrev pub Chosen :
    (executable : List ℕ → Bool) (is_auth : Bool) (value? : Option (List ℕ)) (def : List ℕ)
    → List ℕ
    → Type 0
Chosen executable is_auth value? def result =
    (result ≡ def) ⊎ ((value? ≡ some result) × IsAllowed executable is_auth result)

module _ (getenv : String → Option (List ℕ)) (executable : List ℕ → Bool) where
  check_executable-Chosen :
      (is_auth : Bool) (def v : List ℕ)
      → v ≢ []
      → Chosen executable is_auth (some v) def (check_executable getenv executable is_auth def v)
  unfolding check_executable
  check_executable-Chosen is_auth def v nonempty =
      elim (Bool-cases (has_slash v && not (starts_with (slash ∷ []) v))) [
        | inl relative ↦ rw relative (inl refl)
        | inr placed ↦ rw placed (elim (Bool-cases (is_misnamed is_auth (basename v))) [
          | inl misnamed ↦ rw misnamed (inl refl)
          | inr named ↦ rw named (elim (Bool-cases (executable v)) [
            | inl runs ↦ rw runs (
                inr (
                  refl,
                  record {
                    nonempty = nonempty;
                    absolute_or_plain = absolute_or_plain placed;
                    base = basename v;
                    last = basename-IsBasename v;
                    auth = λ e. BeginsWith-of auth_ (basename v) (ground arith);
                    non_auth = λ e. not-BeginsWith-of auth_ (basename v) (ground arith);
                    runs = runs;
                  },
                ))
            | inr stuck ↦ rw stuck (inl refl)
          ])
        ])
      ]
    where
      absolute_or_plain :
          (has_slash v && not (starts_with (slash ∷ []) v)) ≡ false
          → NoSlash v ⊎ BeginsWith (slash ∷ []) v
      absolute_or_plain h = elim (Bool-cases (has_slash v)) [
        | inl slashed ↦ inr (BeginsWith-of (slash ∷ []) v (ground arith))
        | inr plain ↦ inl (NoSlash-of v plain)
      ]

  -- Whatever the variable holds, the program runs the default or a value that is allowed.
  pub get_executable_path_setting-Chosen :
      (name : String) (def : List ℕ) (is_auth : Bool)
      → Chosen executable is_auth
          (getenv name)
          def
          (get_executable_path_setting getenv executable name def is_auth)
  unfolding get_executable_path_setting
  get_executable_path_setting-Chosen name def is_auth = go (getenv name)
    where
      go :
          (value? : Option (List ℕ))
          → Chosen executable is_auth value? def
              (or_default def (check_executable getenv executable is_auth def) value?)
      go none = inl refl
      go (some []) = inl refl
      go (some (c ∷ cs)) = check_executable-Chosen is_auth def (c ∷ cs) (λ e. cc)
