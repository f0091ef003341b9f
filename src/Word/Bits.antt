-- ===== src/Word/Bits.antt =====
-- The bit operators of C on fields of a word, as arithmetic at every width.
use Prim.Native.Nat.{digits, bit_and-bitwise, bit_or-bitwise}
use native.Mathlib.Decide.{dec_lt}
use native.Mathlib.Nat.{pow-suc, one-le-pow, div-add-mod', mul-add-mod_self_right, mod-eq_of_lt}
use native.Mathlib.Nat.{mod-lt}
use lisp_machine.Common.{ℕ, zero, suc, ◌+◌, ◌-◌, ◌*◌, ◌/◌, ◌%◌, ◌^◌, ◌≤◌, ◌<◌, min, max}
use lisp_machine.Common.{bit_and, bit_or, ◌≡◌, refl, ap, ◌∙◌, sym, arith}

-- Any count of digits to go that is not below the number gives the same result.
more_digits :
    (z : ℕ → ℕ) (f : ℕ → ℕ → ℕ) (a b n m : ℕ) → a ≤ n → a ≤ m → digits z f n a b ≡ digits z f m a b
more_digits z f zero b zero zero p q = refl
more_digits z f zero b zero (suc m) p q = refl
more_digits z f zero b (suc n) zero p q = refl
more_digits z f zero b (suc n) (suc m) p q = refl
more_digits z f (suc a) b zero m p q = elim p [ ]
more_digits z f (suc a) b (suc n) zero p q = elim q [ ]
more_digits z f (suc a) b (suc n) (suc m) p q =
    ap (λ t. t * 2 + f (suc a % 2) (b % 2))
      (more_digits z f (suc a / 2) (b / 2) n m (omega arith) (omega arith))

-- `|` and `&`, lowest digit first.
bit_or_low : (a b : ℕ) → bit_or a b ≡ bit_or (a / 2) (b / 2) * 2 + max (a % 2) (b % 2)
bit_or_low zero b = omega (arith, bit_or-bitwise 0 b, bit_or-bitwise 0 (b / 2))
bit_or_low (suc a) b = omega (
  arith,
  bit_or-bitwise (suc a) b,
  bit_or-bitwise (suc a / 2) (b / 2),
  more_digits (λ d. d) max (suc a / 2) (b / 2) a (suc a / 2) (omega arith) (omega arith),
)

bit_and_low : (a b : ℕ) → bit_and a b ≡ bit_and (a / 2) (b / 2) * 2 + min (a % 2) (b % 2)
bit_and_low zero b = omega (arith, bit_and-bitwise 0 b, bit_and-bitwise 0 (b / 2))
bit_and_low (suc a) b = omega (
  arith,
  bit_and-bitwise (suc a) b,
  bit_and-bitwise (suc a / 2) (b / 2),
  more_digits (λ d. zero) min (suc a / 2) (b / 2) a (suc a / 2) (omega arith) (omega arith),
)

-- Both operators commute; the induction halves both operands.
bit_or_comm_zero : (a b : ℕ) → a ≡ 0 → b ≡ 0 → bit_or a b ≡ bit_or b a
bit_or_comm_zero a b p q = rw (p, q) refl

bit_or_comm_below : (n a b : ℕ) → a + b ≤ n → bit_or a b ≡ bit_or b a
bit_or_comm_below zero a b h = bit_or_comm_zero a b (omega arith) (omega arith)
bit_or_comm_below (suc n) a b h = elim (dec_lt 0 (a + b)) [
  | yes p ↦
      omega
        (arith, bit_or_low a b, bit_or_low b a, bit_or_comm_below n (a / 2) (b / 2) (omega arith))
  | no p ↦ bit_or_comm_zero a b (omega arith) (omega arith)
]

pub bit_or_comm : (a b : ℕ) → bit_or a b ≡ bit_or b a
bit_or_comm a b = bit_or_comm_below (a + b) a b (omega arith)

pub bit_or-zero : (a : ℕ) → bit_or a 0 ≡ a
bit_or-zero a = bit_or_comm a 0 ∙ bit_or-bitwise 0 a

bit_and-zero_below : (n a : ℕ) → a ≤ n → bit_and a 0 ≡ 0
bit_and-zero_below n zero h = bit_and-bitwise 0 0
bit_and-zero_below zero (suc a) h = elim h [ ]
bit_and-zero_below (suc n) (suc a) h =
    omega (arith, bit_and_low (suc a) 0, bit_and-zero_below n (suc a / 2) (omega arith))

pub bit_and-zero : (a : ℕ) → bit_and a 0 ≡ 0
bit_and-zero a = bit_and-zero_below a a (omega arith)

scale_suc : (q k : ℕ) → q * 2 ^ suc k ≡ q * 2 ^ k * 2
scale_suc q k = omega (arith, ap (λ (t : ℕ). q * t) (pow-suc 2 k))

-- Disjoint fields: `(q << k) | r` is a sum when `r` has no digit from `k` on.
pub bit_or_fields : (k q r : ℕ) → r < 2 ^ k → bit_or (q * 2 ^ k) r ≡ q * 2 ^ k + r
bit_or_fields zero q r h = ground (arith, bit_or-zero q)
bit_or_fields (suc k) q r h = ground (
  arith,
  bit_or_low (q * 2 ^ suc k) r,
  scale_suc q k,
  pow-suc 2 k,
  bit_or_fields k q (r / 2) (omega (arith, pow-suc 2 k)),
)

-- `a % 2 ^ suc k`, lowest digit last.
mod_two_pow_suc : (k a : ℕ) → a % 2 ^ suc k ≡ a / 2 % 2 ^ k * 2 + a % 2
mod_two_pow_suc k a =
    let p = 2 ^ k in
    let q = a / 2 / p in
    let r = a / 2 % p * 2 + a % 2 in
    let pos : 0 < p = one-le-pow k 2 (omega arith) in
    let split : a ≡ q * (p * 2) + r =
      omega (arith, div-add-mod' (a / 2) p, ap (λ (t : ℕ). t * 2) (div-add-mod' (a / 2) p)) in
    let small : r < p * 2 = omega (arith, mod-lt (a / 2) pos) in
    rw pow-suc
      (ap (λ t. t % (p * 2)) split ∙ mul-add-mod_self_right q (p * 2) r ∙ mod-eq_of_lt small)

-- A mask of `k` low digits takes the remainder.
pub bit_and_mask : (k a : ℕ) → bit_and a (2 ^ k - 1) ≡ a % 2 ^ k
bit_and_mask zero a = omega (arith, bit_and-zero a)
bit_and_mask (suc k) a = ground (
  arith,
  bit_and_low a (2 ^ suc k - 1),
  pow-suc 2 k,
  one-le-pow k 2,
  bit_and_mask k (a / 2),
  mod_two_pow_suc k a,
)

-- A mask shifted left by `k` acts on what stands from digit `k` on.
bit_and_fields :
    (k q r m : ℕ) → r < 2 ^ k → bit_and (q * 2 ^ k + r) (m * 2 ^ k) ≡ bit_and q m * 2 ^ k
bit_and_fields zero q r m h =
    let r0 : r ≡ 0 = omega arith in rw r0 (ground (arith, bit_and_low q m))
bit_and_fields (suc k) q r m h = ground (
  arith,
  bit_and_low (q * 2 ^ suc k + r) (m * 2 ^ suc k),
  scale_suc q k,
  scale_suc m k,
  scale_suc (bit_and q m) k,
  pow-suc 2 k,
  bit_and_fields k q (r / 2) m (omega (arith, pow-suc 2 k)),
)

pub bit_and_shifted : (k a m : ℕ) → bit_and a (m * 2 ^ k) ≡ bit_and (a / 2 ^ k) m * 2 ^ k
bit_and_shifted k a m =
    ap (λ t. bit_and t (m * 2 ^ k)) (sym (div-add-mod' a (2 ^ k)))
    ∙ bit_and_fields k (a / 2 ^ k) (a % 2 ^ k) m (mod-lt a (one-le-pow k 2 (omega arith)))
