-- ===== src/EnvInfo.antt =====
-- env_info.c: the names of the user and the host. What gethostname leaves in a buffer and what
-- getpwuid_r finds are arguments.
mod Tests
use xsecurelock.Prelude.{
  ℕ, zero, suc, ◌-◌, ◌≤◌, ◌<◌, ◌≡◌, refl, Bool, true, false, List, [], ◌∷◌, Option, none, some, leb,
  ◌==◌, if◌then◌else◌, length, set, c_string, arith,
}

-- GetHostName, for the buffer as gethostname leaves it unless it fails: the string in it.
pub get_host_name : Option (List ℕ) → Option (List ℕ)
get_host_name none = none
get_host_name (some buf) = some (c_string (set buf (length buf - 1) 0))

-- GetUserName, for the size of the buffer and the name that getpwuid_r finds. malloc is taken to
-- succeed.
pub get_user_name : ℕ → Option (List ℕ) → Option (List ℕ)
get_user_name username_buflen none = none
get_user_name username_buflen (some name) =
    if leb username_buflen (length name) then none else some name

-- A name with the 0 behind it fits into a buffer.
abbrev pub FitsName : ℕ → Option (List ℕ) → Type 0
FitsName size none = Unit {0}
FitsName size (some name) = length name < size

c_string-set : (buf : List ℕ) (n : ℕ) → n < length buf → length (c_string (set buf n 0)) ≤ n
c_string-set [] n h = absurd (omega arith)
c_string-set (c ∷ cs) zero h = omega arith
c_string-set (c ∷ cs) (suc n) h =
    go (c == 0) (c_string (set cs n 0)) (c_string-set cs n (omega arith))
  where
    go : (b : Bool) (rest : List ℕ) → length rest ≤ n → length (if b then [] else c ∷ rest) ≤ suc n
    go true rest k = omega arith
    go false rest k = omega arith

-- Whatever gethostname leaves in a buffer that is not empty, the name of the host ends within the
-- buffer; and whatever name the user has, it is taken only if it fits into the buffer for it.
pub names-FitsName :
    (buf : List ℕ) (username_buflen : ℕ) (user : Option (List ℕ))
    → 0 < length buf
    → FitsName (length buf) (get_host_name (some buf))
      × FitsName username_buflen (get_user_name username_buflen user)
unfolding get_host_name get_user_name
names-FitsName buf username_buflen user h =
    (omega (arith, c_string-set buf (length buf - 1) (omega arith)), fits user)
  where
    fits : (user : Option (List ℕ)) → FitsName username_buflen (get_user_name username_buflen user)
    fits none = tt
    fits (some name) = go (leb username_buflen (length name)) refl
      where
        go :
            (b : Bool)
            → leb username_buflen (length name) ≡ b
            → FitsName username_buflen (if b then none else some name)
        go true e = tt
        go false e = ground arith
