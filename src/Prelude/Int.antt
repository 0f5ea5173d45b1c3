-- ===== src/Prelude/Int.antt =====
-- Signed integers over the native numbers, as far as the program computes with them.
use Prim.Native.Nat.{ℕ, suc, ◌+◌, ◌-◌, ◌/◌, ◌<◌, ◌≤◌}
use mathlib.Core.Path.{◌≡◌, refl, ap, ◌∙◌}
use native.Mathlib.Omega.{arith}
use mathlib.Core.Bool.{Bool, true, false}
use xsecurelock.Prelude.Tests.{leb, ltb, if◌then◌else◌, ◌==◌, ==_iff}

-- `negsuc n` is -(n + 1).
pub data ℤ : Type 0 where
  pos : ℕ → ℤ
  negsuc : ℕ → ℤ

abbrev pub pos_part : ℤ → ℕ
pos_part (pos n) = n
pos_part (negsuc n) = 0

abbrev pub neg_part : ℤ → ℕ
neg_part (pos n) = 0
neg_part (negsuc n) = suc n

-- a - b, as an integer.
abbrev pub sub_ℕ : ℕ → ℕ → ℤ
sub_ℕ a b = if leb b a then pos (a - b) else negsuc (b - a - 1)

-- -n
abbrev pub neg_ℕ : ℕ → ℤ
neg_ℕ n = sub_ℕ 0 n

abbrev pub is_zero : ℤ → Bool
is_zero (pos n) = n == 0
is_zero (negsuc n) = false

-- Whether an integer is in the range of a signed type of `w + 1` bits, `m` being `2 ^ w`.
abbrev pub in_range : ℕ → ℤ → Bool
in_range m (pos n) = if leb m n then false else true
in_range m (negsuc n) = if leb m n then false else true

infixl 6 ◌+ℤ◌ ◌-ℤ◌
unfoldable pub ◌+ℤ◌ : ℤ → ℤ → ℤ
x +ℤ y = sub_ℕ (pos_part x + pos_part y) (neg_part x + neg_part y)

unfoldable pub ◌-ℤ◌ : ℤ → ℤ → ℤ
x -ℤ y = sub_ℕ (pos_part x + neg_part y) (neg_part x + pos_part y)

-- x / 2 in C, which rounds towards 0
unfoldable pub half : ℤ → ℤ
half (pos n) = pos (n / 2)
half (negsuc n) = neg_ℕ (suc n / 2)

abbrev pub lt : ℤ → ℤ → Bool
lt x y = ltb (pos_part x + neg_part y) (pos_part y + neg_part x)

infix 4 ◌≤ℤ◌ ◌<ℤ◌
abbrev pub ◌≤ℤ◌ : ℤ → ℤ → Type 0
x ≤ℤ y = pos_part x + neg_part y ≤ pos_part y + neg_part x

abbrev pub ◌<ℤ◌ : ℤ → ℤ → Type 0
x <ℤ y = pos_part x + neg_part y < pos_part y + neg_part x

pub pos_part-sub_ℕ : (a b : ℕ) → pos_part (sub_ℕ a b) ≡ a - b
pos_part-sub_ℕ a b = ground arith

pub neg_part-sub_ℕ : (a b : ℕ) → neg_part (sub_ℕ a b) ≡ b - a
neg_part-sub_ℕ a b = ground arith

-- One of the parts is 0.
pub parts : (x : ℤ) → pos_part x - neg_part x ≡ pos_part x
parts (pos n) = omega arith
parts (negsuc n) = omega arith

pub parts-add :
    (x y : ℤ)
    → (pos_part (x +ℤ y) ≡ (pos_part x + pos_part y) - (neg_part x + neg_part y))
      × (neg_part (x +ℤ y) ≡ (neg_part x + neg_part y) - (pos_part x + pos_part y))
unfolding ◌+ℤ◌
parts-add x y = (pos_part-sub_ℕ _ _, neg_part-sub_ℕ _ _)

pub parts-sub :
    (x y : ℤ)
    → (pos_part (x -ℤ y) ≡ (pos_part x + neg_part y) - (neg_part x + pos_part y))
      × (neg_part (x -ℤ y) ≡ (neg_part x + pos_part y) - (pos_part x + neg_part y))
unfolding ◌-ℤ◌
parts-sub x y = (pos_part-sub_ℕ _ _, neg_part-sub_ℕ _ _)

pub parts-half :
    (x : ℤ) → (pos_part (half x) ≡ pos_part x / 2) × (neg_part (half x) ≡ neg_part x / 2)
unfolding half
parts-half (pos n) = (refl, refl)
parts-half (negsuc n) =
    (pos_part-sub_ℕ 0 (suc n / 2) ∙ omega arith, neg_part-sub_ℕ 0 (suc n / 2) ∙ omega arith)

-- Integers with the same difference of parts are equal.
pub parts-injective : (x y : ℤ) → pos_part x + neg_part y ≡ pos_part y + neg_part x → x ≡ y
parts-injective (pos a) (pos b) h = ap pos (omega arith)
parts-injective (pos a) (negsuc b) h = absurd (omega arith)
parts-injective (negsuc a) (pos b) h = absurd (omega arith)
parts-injective (negsuc a) (negsuc b) h = ap negsuc (omega arith)

pub is_zero-pos : (x : ℤ) → is_zero x ≡ true → x ≡ pos 0
is_zero-pos (pos n) h = ap pos ((==_iff n 0).0 h)
is_zero-pos (negsuc n) h = cc (h)
