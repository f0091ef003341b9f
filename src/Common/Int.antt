-- ===== src/Common/Int.antt =====
-- Signed integers over the native numbers, under the library's names.
use Prim.Native.Nat.{ℕ, suc, ◌+◌, ◌-◌, ◌*◌, ◌<◌}
use mathlib.Core.Path.{◌≡◌, ap, ap₂}
use native.Mathlib.Nat.{add_comm}
use mathlib.Core.Logic.{◌↔◌}
use native.Mathlib.Omega.{arith}
use lisp_machine.Common.Tests.{leb, if◌then◌else◌}

-- `negsuc n` is one below the negation of `n`.
pub data ℤ : Type 0 where
  pos : ℕ → ℤ
  negsuc : ℕ → ℤ

-- The difference of two numbers.
abbrev pub sub_ℕ : ℕ → ℕ → ℤ
sub_ℕ a b = if leb b a then pos (a - b) else negsuc (b - a - 1)

-- What an integer adds, and what it takes away.
abbrev pub pos_part : ℤ → ℕ
pos_part (pos n) = n
pos_part (negsuc n) = 0

abbrev pub neg_part : ℤ → ℕ
neg_part (pos n) = 0
neg_part (negsuc n) = suc n

infixl 65 ◌+ℤ◌
infixl 70 ◌*ℤ◌
unfoldable pub ◌+ℤ◌ : ℤ → ℤ → ℤ
x +ℤ y = sub_ℕ (pos_part x + pos_part y) (neg_part x + neg_part y)

unfoldable pub ◌*ℤ◌ : ℤ → ℤ → ℤ
x *ℤ y =
    sub_ℕ (pos_part x * pos_part y + neg_part x * neg_part y)
      (pos_part x * neg_part y + neg_part x * pos_part y)

unfoldable pub neg : ℤ → ℤ
neg x = sub_ℕ (neg_part x) (pos_part x)

-- An integer is known by any pair of numbers whose difference it is.
pub sub-eq : (a b c d : ℕ) → a + d ≡ c + b → sub_ℕ a b ≡ sub_ℕ c d
sub-eq a b c d h = ground arith

pub sub-parts : (z : ℤ) → sub_ℕ (pos_part z) (neg_part z) ≡ z
sub-parts (pos n) = ground arith
sub-parts (negsuc n) = ground arith

pub sub-add_sub : (a b c d : ℕ) → sub_ℕ a b +ℤ sub_ℕ c d ≡ sub_ℕ (a + c) (b + d)
unfolding ◌+ℤ◌
sub-add_sub a b c d = ground arith

pub neg-sub : (a b : ℕ) → neg (sub_ℕ a b) ≡ sub_ℕ b a
unfolding neg
neg-sub a b = ground arith

pub +ℤ_comm : (x y : ℤ) → x +ℤ y ≡ y +ℤ x
unfolding ◌+ℤ◌
+ℤ_comm x y = ap₂ sub_ℕ (add_comm (pos_part x) (pos_part y)) (add_comm (neg_part x) (neg_part y))

infix 50 ◌<ℤ◌
abbrev pub ◌<ℤ◌ : ℤ → ℤ → Type 0
x <ℤ y = pos_part x + neg_part y < pos_part y + neg_part x

pub sub-lt_zero : (a b : ℕ) → (sub_ℕ a b <ℤ pos 0) ↔ (a < b)
sub-lt_zero a b = (λ h. ground arith, λ h. ground arith)

pub lt_iff_sub : (x y : ℤ) → (x +ℤ neg y <ℤ pos 0) ↔ (x <ℤ y)
unfolding ◌+ℤ◌ neg
lt_iff_sub x y = (λ h. ground arith, λ h. ground arith)

sub_parts : (a b : ℕ) → pos_part (sub_ℕ a b) + b ≡ a + neg_part (sub_ℕ a b)
sub_parts a b = ground arith

-- The product of two differences, by their parts.
product_of_parts :
    (a b c d p n q m : ℕ)
    → p + b ≡ a + n
    → q + d ≡ c + m
    → p * q + n * m + (a * d + b * c) ≡ a * c + b * d + (p * m + n * q)
product_of_parts a b c d p n q m e f =
    omega (arith, ap (λ t. t * q) e, ap (λ t. t * m) e, ap (λ t. a * t) f, ap (λ t. b * t) f)

pub sub-mul_sub : (a b c d : ℕ) → sub_ℕ a b *ℤ sub_ℕ c d ≡ sub_ℕ (a * c + b * d) (a * d + b * c)
unfolding ◌*ℤ◌
sub-mul_sub a b c d =
    let x : ℤ = sub_ℕ a b in
    let y : ℤ = sub_ℕ c d in
    sub-eq (pos_part x * pos_part y + neg_part x * neg_part y)
      (pos_part x * neg_part y + neg_part x * pos_part y) (a * c + b * d) (a * d + b * c)
      (product_of_parts a b c d (pos_part x) (neg_part x) (pos_part y) (neg_part y) (sub_parts a b)
        (sub_parts c d))

pub *ℤ_comm : (x y : ℤ) → x *ℤ y ≡ y *ℤ x
unfolding ◌*ℤ◌
*ℤ_comm x y = ap₂ sub_ℕ (omega arith) (omega arith)

pub zero-mul : (y : ℤ) → pos 0 *ℤ y ≡ pos 0
unfolding ◌*ℤ◌
zero-mul y = ground arith

pub sub_zero : (a : ℕ) → sub_ℕ a 0 ≡ pos a
sub_zero a = ground arith
