-- ===== src/Num.antt =====
-- The big numbers of datastructures.c: a number is a list of words, the lowest one first, read in
-- two's complement.
pub mod Value
pub mod Negate
pub mod Add
pub mod Le
pub mod Mul
pub mod Text
pub mod Store
pub mod Shift
pub mod Logic
use lisp_machine.Common.{ℕ, zero, suc, ◌+◌, ◌-◌, ◌*◌, ◌/◌, ◌%◌, ◌^◌, ◌<◌, ◌≤◌, ◌≡◌, arith, refl, ap}
use lisp_machine.Common.{List, [], ◌∷◌, length, bit_and, bit_or}
use lisp_machine.Word.Bits.{bit_and_mask}
use lisp_machine.Word.{add_word, not_word, shr}

-- The carry of `x + y + carry`, from the top bits of the operands and the bit carried into them.
unfoldable pub carry_of : ℕ → ℕ → ℕ → ℕ
carry_of x y z = bit_or (bit_or (bit_and x y) (bit_and x z)) (bit_and y z)

-- `adc`: the result and the carry.
unfoldable pub adc : ℕ → ℕ → ℕ × ℕ
unfolding carry_of
adc x y =
    let mask = 2 ^ 63 - 1 in
    let z = shr (add_word (bit_and x mask) (bit_and y mask)) 63 in
    (add_word x y, carry_of (shr x 63) (shr y 63) z)

-- The loop of `num_negate`, with the carry.
unfoldable negate_from : ℕ → List ℕ → List ℕ
unfolding adc
negate_from carry [] = []
negate_from carry (w ∷ ws) = let r = adc (not_word w) carry in r.0 ∷ negate_from r.1 ws

unfoldable pub num_negate : List ℕ → List ℕ
unfolding negate_from
num_negate ws = negate_from 1 ws

pub bit_cases : (P : ℕ → Type 0) → P 0 → P 1 → (n : ℕ) → n < 2 → P n
bit_cases P a b zero h = a
bit_cases P a b (suc zero) h = b
bit_cases P a b (suc (suc n)) h = absurd (omega arith)

carry_of_lem : (x y z : ℕ) → x < 2 → y < 2 → z < 2 → carry_of x y z ≡ (x + y + z) / 2
unfolding carry_of
carry_of_lem x y z p q r =
    bit_cases (λ x. carry_of x y z ≡ (x + y + z) / 2)
      (bit_cases (λ y. carry_of 0 y z ≡ (0 + y + z) / 2)
        (bit_cases (λ z. carry_of 0 0 z ≡ (0 + 0 + z) / 2) refl refl z r)
        (bit_cases (λ z. carry_of 0 1 z ≡ (0 + 1 + z) / 2) refl refl z r) y q)
      (bit_cases (λ y. carry_of 1 y z ≡ (1 + y + z) / 2)
        (bit_cases (λ z. carry_of 1 0 z ≡ (1 + 0 + z) / 2) refl refl z r)
        (bit_cases (λ z. carry_of 1 1 z ≡ (1 + 1 + z) / 2) refl refl z r) y q)
      x p

-- `adc` is a full adder: with the carry as the digit above it, the result is the sum.
pub adc_lem : (x y : ℕ) → x < 2 ^ 64 → y < 2 ^ 64 → (adc x y).0 + 2 ^ 64 * (adc x y).1 ≡ x + y
unfolding adc
adc_lem x y p q =
    let z : ℕ = shr (add_word (bit_and x (2 ^ 63 - 1)) (bit_and y (2 ^ 63 - 1))) 63 in
    let ez : z ≡ (x % 2 ^ 63 + y % 2 ^ 63) / 2 ^ 63 =
      omega (arith, bit_and_mask 63 x, bit_and_mask 63 y) in
    omega (
      arith,
      ez,
      carry_of_lem (x / 2 ^ 63) (y / 2 ^ 63) z (omega arith) (omega arith) (omega (arith, ez)),
    )

pub adc-lt : (x y : ℕ) → (adc x y).0 < 2 ^ 64
unfolding adc
adc-lt x y = omega arith
