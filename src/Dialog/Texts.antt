-- ===== src/Dialog/Texts.antt =====
-- helpers/auth_x11.c: the user and the host, as the dialog shows them.
pub mod Login
use xsecurelock.Prelude.{
  ℕ, ◌+◌, ◌-◌, List, [], ◌∷◌, ◌++◌, Option, none, some, leb, ◌==◌, if◌then◌else◌, length, take,
}

infixl 5 ◌>>=◌
abbrev ◌>>=◌ {ℓ} : {A B : Type ℓ} → Option A → (A → Option B) → Option B
none >>= f = none
some a >>= f = f a

-- StrAppend: the text so far and the bytes that are left, behind `input`. `none` stands for the wrap
-- of `*output_size - 1` below 0.
str_append : List ℕ × ℕ → List ℕ → Option (List ℕ × ℕ)
str_append (output, output_size) input =
    let input_size = if leb output_size (length input) then output_size - 1 else length input in
    if output_size == 0
    then none
    else some (output ++ take input_size input, output_size - input_size)

-- The first `strcspn (hostname, ".")` bytes.
unfoldable pub before_dot : List ℕ → List ℕ
before_dot [] = []
before_dot (c ∷ cs) = let rest = before_dot cs in if c == b'.' then [] else c ∷ rest

-- BuildLogin: the string in a buffer of `output_size` bytes.
pub build_login : List ℕ → List ℕ → ℕ → Option (List ℕ)
unfolding str_append before_dot
build_login username hostname output_size = do
  named ← str_append ([], output_size) username
  joined ← str_append named (b'@' ∷ [])
  hosted ← str_append joined (before_dot hostname)
  some hosted.0
