-- ===== src/Num/Negate.antt =====
-- `num_negate` of datastructures.c against the integers.
use native.Mathlib.Decide.{dec_lt}
use lisp_machine.Common.{ℕ, zero, suc, ◌+◌, ◌*◌, ◌^◌, ◌<◌, ◌≤◌, ◌≡◌, arith, refl, ap}
use lisp_machine.Common.{List, [], ◌∷◌, length, ◌⊎◌, inl, inr, ◌∙◌, sym}
use lisp_machine.Common.Int.{neg, sub_ℕ, sub-eq, neg-sub}
use lisp_machine.Word.{not_word, max_word}
use lisp_machine.Num.{adc, adc_lem, negate_from, num_negate}
use lisp_machine.Num.Value.{
  value, base_pow, IsWords, last_word, signed, IsNum, low_pow, low_lt, low_pow-eq, IsNum-small,
  IsNum-large, value_lt, nonneg, negative, IsNum-Bounds, signed-nonneg, signed-negative,
  base_pow_split, base_pow-eq,
}

-- With the carry that leaves the number, the loop adds the carry to the complement.
negate_from_lem :
    (c : ℕ) (ws : List ℕ)
    → c ≤ 1
    → IsWords ws
    → (k : ℕ) × ((k ≤ 1)
        × (value (negate_from c ws) + value ws + k * base_pow ws + 1 ≡ base_pow ws + c))
unfolding negate_from adc
negate_from_lem c [] h v = (c, (h, omega arith))
negate_from_lem c (w ∷ ws) h v =
    let s = adc_lem (not_word w) c (omega arith) (omega arith) in
    let r = negate_from_lem (adc (not_word w) c).1 ws (omega (arith, s)) v.1 in
    (r.0, (r.1.0, omega (arith, s, r.1.1)))

length-negate_from : (c : ℕ) (ws : List ℕ) → length (negate_from c ws) ≡ length ws
unfolding negate_from
length-negate_from c [] = refl
length-negate_from c (w ∷ ws) = ap suc (length-negate_from (adc (not_word w) c).1 ws)

negate_from-IsWords : (c : ℕ) (ws : List ℕ) → IsWords (negate_from c ws)
unfolding negate_from adc
negate_from-IsWords c [] = tt
negate_from-IsWords c (w ∷ ws) = (omega arith, negate_from-IsWords (adc (not_word w) c).1 ws)

negated :
    (k t v b : ℕ)
    → k ≤ 1
    → t + v + k * b + 1 ≡ b + 1
    → t < b
    → ((v ≡ 0) × (t ≡ 0)) ⊎ ((1 ≤ v) × (t + v ≡ b))
negated zero t v b p q r = inr (omega arith, omega arith)
negated (suc zero) t v b p q r = inl (omega arith, omega arith)
negated (suc (suc k)) t v b p q r = absurd (omega arith)

-- The value: the complement to the power of the base, and 0 for 0.
pub negate_value :
    (ws : List ℕ)
    → IsWords ws
    → ((value ws ≡ 0) × (value (num_negate ws) ≡ 0))
      ⊎ ((1 ≤ value ws) × (value (num_negate ws) + value ws ≡ base_pow ws))
unfolding num_negate
negate_value ws v =
    let r = negate_from_lem 1 ws (omega arith) v in
    let t = value_lt (negate_from 1 ws) (negate_from-IsWords 1 ws) in
    let b = base_pow-eq (negate_from 1 ws) ws (length-negate_from 1 ws) in
    negated r.0 (value (negate_from 1 ws)) (value ws) (base_pow ws) r.1.0 r.1.1
      (omega (arith, t, b))

-- The one number of its length that has no negation of this length.
abbrev pub IsLeast : List ℕ → Type 0
IsLeast xs = (last_word xs ≡ max_word) × (value xs + low_pow xs ≡ base_pow xs)

pub length-num_negate : (xs : List ℕ) → length (num_negate xs) ≡ length xs
unfolding num_negate
length-num_negate xs = length-negate_from 1 xs

pub num_negate-IsWords : (xs : List ℕ) → IsWords (num_negate xs)
unfolding num_negate
num_negate-IsWords xs = negate_from-IsWords 1 xs

module _ (xs : List ℕ) (n : IsNum xs) where
  long : 2 ≤ length (num_negate xs)
  long = omega (arith, length-num_negate xs, n.long)

  pow : low_pow (num_negate xs) ≡ low_pow xs
  pow = low_pow-eq (num_negate xs) xs (omega (arith, long)) (length-num_negate xs)

  base : base_pow (num_negate xs) ≡ base_pow xs
  base = base_pow-eq (num_negate xs) xs (length-num_negate xs)

  unit : 1 ≤ low_pow xs
  unit = omega (arith, low_lt xs n.words)

  split : base_pow xs ≡ 2 ^ 64 * low_pow xs
  split = base_pow_split xs (omega (arith, n.long))

  -- The absolute value of a negative number.
  pub negate-negative :
      last_word xs ≡ max_word
      → base_pow xs ≤ value xs + low_pow xs
      → ¬ IsLeast xs
      → IsNum (num_negate xs)
        × ((last_word (num_negate xs) ≡ 0) × (value (num_negate xs) + value xs ≡ base_pow xs))
  negate-negative m big least = elim (negate_value xs n.words) [
    | inl z ↦ absurd (omega (arith, split, unit))
    | inr s ↦
        let small : value (num_negate xs) < low_pow (num_negate xs) =
          elim (dec_lt (value (num_negate xs)) (low_pow xs)) [
            | yes p ↦ omega (arith, pow)
            | no p ↦ absurd (least (m, omega arith))
          ] in
        let r = IsNum-small (num_negate xs) (num_negate-IsWords xs) long small in (r.0, (r.1, s.1))
  ]

  negate-nonneg :
      last_word xs ≡ 0
      → value xs < low_pow xs
      → IsNum (num_negate xs) × (signed (num_negate xs) ≡ neg (signed xs))
  negate-nonneg z small =
      let e : neg (signed xs) ≡ sub_ℕ 0 (value xs) =
        ap neg (signed-nonneg xs z) ∙ neg-sub (value xs) 0 in
      elim (negate_value xs n.words) [
        | inl o ↦
            let r =
              IsNum-small (num_negate xs) (num_negate-IsWords xs) long (omega (arith, pow, unit)) in
            (
              r.0,
              signed-nonneg (num_negate xs) r.1
                  ∙ sub-eq (value (num_negate xs)) 0 0 (value xs) (omega arith)
                  ∙ sym e,
            )
        | inr s ↦
            let r =
              IsNum-large (num_negate xs) (num_negate-IsWords xs) long (omega (arith, pow, base)) in
            (
              r.0,
              signed-negative (num_negate xs) r.1
                  ∙ sub-eq (value (num_negate xs)) (base_pow (num_negate xs)) 0 (value xs)
                      (omega (arith, base))
                  ∙ sym e,
            )
      ]

-- `num_negate` negates the integer, in place: the result has as many words and is a number again,
-- unless the number is the least one of its length.
pub num_negate_lem :
    (xs : List ℕ)
    → IsNum xs
    → ¬ IsLeast xs
    → IsNum (num_negate xs)
      × ((length (num_negate xs) ≡ length xs) × (signed (num_negate xs) ≡ neg (signed xs)))
num_negate_lem xs n least = elim (IsNum-Bounds xs n) [
  | nonneg z small ↦ let r = negate-nonneg xs n z small in (r.0, (length-num_negate xs, r.1))
  | negative m _ big ↦
      let r = negate-negative xs n m big least in
      (
        r.0,
        (
          length-num_negate xs,
          signed-nonneg (num_negate xs) r.1.0
              ∙ sub-eq (value (num_negate xs)) 0 (base_pow xs) (value xs) (omega (arith, r.1.1))
              ∙ sym (ap neg (signed-negative xs m) ∙ neg-sub (value xs) (base_pow xs)),
        ),
      )
]
