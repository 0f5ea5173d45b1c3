-- ===== src/Dialog/Texts/Login.antt =====
-- helpers/auth_x11.c: BuildLogin cuts off what does not fit.
use xsecurelock.Prelude.{
  ℕ, suc, ◌-◌, ◌≤◌, ◌≡◌, refl, ◌∙◌, ap, Bool, true, false, List, [], ◌∷◌, ◌++◌, append_assoc, some,
  leb, ◌==◌, if◌then◌else◌, length, take, length-append, length-take, length-take_le, take_all,
  take-append, take-length, arith, leb→le,
}
use xsecurelock.Dialog.Texts.{str_append, before_dot, build_login}

-- With room for `r` bytes and the 0, StrAppend appends as much as the room allows.
str_append_room :
    (r : ℕ) (output input : List ℕ)
    → str_append (output, suc r) input
      ≡ some (output ++ take r input, suc r - length (take r input))
unfolding str_append
str_append_room r output input =
    let (p, q) = go (leb (suc r) (length input)) refl in rw (suc_ne, p, q) refl
  where
    one_less : suc r - 1 ≡ r
    one_less = omega arith

    suc_ne : (suc r == 0) ≡ false
    suc_ne = ground arith

    le_of : leb (suc r) (length input) ≡ false → length input ≤ r
    le_of p = ground arith

    go :
        (b : Bool)
        → leb (suc r) (length input) ≡ b
        → let k = if b then suc r - 1 else length input in
          (take k input ≡ take r input) × (k ≡ length (take r input))
    go true p =
        let e = length-take r input (omega (arith, leb→le (suc r) (length input) p)) in
        (rw one_less refl, omega (arith, e))
    go false p = let e = take_all r input (le_of p) in (rw (e, take-length input) refl, rw e refl)

-- So it keeps as much of the whole text as fits.
str_append_lem :
    (n : ℕ) (text input : List ℕ)
    → str_append (take n text, suc n - length (take n text)) input
      ≡ some (take n (text ++ input), suc n - length (take n (text ++ input)))
str_append_lem n text input =
    let room : suc n - length (take n text) ≡ suc (n - length (take n text)) =
      omega (arith, length-take_le n text) in
    rw
      (
        take-append n text input,
        length-append (take n text) (take (n - length (take n text)) input),
      )
      (ap (λ k. str_append (take n text, k) input) room
        ∙ str_append_room (n - length (take n text)) (take n text) input
        ∙ ap (λ k. some (take n text ++ take (n - length (take n text)) input, k))
            (omega (arith, length-take_le n text)))

-- In a buffer that is not empty, BuildLogin leaves the user, an @ and the host's name up to its first
-- dot, cut off behind as many bytes as the buffer has, less one for the 0.
pub build_login_lem :
    (username hostname : List ℕ) (n : ℕ)
    → build_login username hostname (suc n) ≡ some (take n (username ++ b'@' ∷ before_dot hostname))
unfolding build_login
build_login_lem username hostname n =
    rw
      (
        str_append_room n [] username,
        str_append_lem n username at_sign,
        str_append_lem n (username ++ at_sign) (before_dot hostname),
      )
      (ap (λ text. some (take n text)) (append_assoc username at_sign (before_dot hostname)))
  where
    at_sign : List ℕ
    at_sign = b'@' ∷ []
