-- ===== src/EnvInfo/Tests.antt =====
-- Names that do not fit.
use xsecurelock.Prelude.{◌≡◌, refl, [], ◌∷◌, some, arith}
use xsecurelock.EnvInfo.{get_host_name, get_user_name, FitsName, names-FitsName}

cut_host : get_host_name (some (b'a' ∷ b'b' ∷ b'c' ∷ [])) ≡ some (b'a' ∷ b'b' ∷ [])
unfolding get_host_name
cut_host = refl

names-FitsName_example :
    FitsName 3 (get_host_name (some (b'a' ∷ b'b' ∷ b'c' ∷ [])))
    × FitsName 2 (get_user_name 2 (some (b'm' ∷ b'e' ∷ [])))
names-FitsName_example =
    names-FitsName (b'a' ∷ b'b' ∷ b'c' ∷ []) 2 (some (b'm' ∷ b'e' ∷ [])) (omega arith)
