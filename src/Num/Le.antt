-- ===== src/Num/Le.antt =====
-- `num_le` of datastructures.c: the sign of the difference. The second operand is negated in
-- place and negated back, so the objects' contents stand by their addresses.
use mathlib.Core.Path.{subst}
use lisp_machine.Common.{ℕ, ◌≡◌, ◌≢◌, ◌↔◌, arith, refl, ap, ap₂}
use lisp_machine.Common.{List, [], ◌∷◌, length, inl, inr, sym, ◌∙◌}
use lisp_machine.Common.Int.{pos, neg, ◌+ℤ◌, ◌<ℤ◌, lt_iff_sub, sub-lt_zero}
use lisp_machine.Num.{num_negate}
use lisp_machine.Num.Store.{
  negate_if, negate_at_if, negate_at_if_self, negate_at_if_elsewhere, once-back,
}
use lisp_machine.Num.Value.{value, base_pow, IsWords, last_word, signed, IsNum, value_lt}
use lisp_machine.Num.Value.{signed-nonneg, signed-negative, base_pow-eq}
use lisp_machine.Num.Add.{num_add}
use lisp_machine.Num.Add.Laws.{num_add_lem}
use lisp_machine.Num.Negate.{
  IsLeast, num_negate_lem, negate_value, num_negate-IsWords, length-num_negate,
}

-- The result, and the contents afterwards.
unfoldable pub num_le : (ℕ → List ℕ) → ℕ → ℕ → ℕ × (ℕ → List ℕ)
unfolding negate_at_if
num_le nums num1 num2 =
    let negated = negate_at_if 1 nums num2 in
    let num3 = num_add (negated num1) (negated num2) in
    (last_word num3, negate_at_if 1 negated num2)

value_injective :
    (xs ys : List ℕ)
    → IsWords xs
    → IsWords ys
    → length xs ≡ length ys
    → value xs ≡ value ys
    → xs ≡ ys
value_injective [] [] u v l e = refl
value_injective [] (y ∷ ys) u v l e = absurd (omega arith)
value_injective (x ∷ xs) [] u v l e = absurd (omega arith)
value_injective (x ∷ xs) (y ∷ ys) u v l e =
    ap₂ (λ w ws. w ∷ ws) (omega arith) (value_injective xs ys u.1 v.1 (omega arith) (omega arith))

-- A second negation gives the words back.
pub negate-negate : (xs : List ℕ) → IsWords xs → num_negate (num_negate xs) ≡ xs
negate-negate xs v =
    let ys : List ℕ = num_negate xs in
    let w = num_negate-IsWords xs in
    let l = length-num_negate xs in
    let e : value (num_negate ys) ≡ value xs = elim (negate_value xs v) [
      | inl z ↦ elim (negate_value ys w) [ inl z' ↦ omega arith | inr s' ↦ absurd (omega arith) ]
      | inr s ↦ elim (negate_value ys w) [
        | inl z' ↦ absurd (omega (arith, value_lt xs v))
        | inr s' ↦ omega (arith, base_pow-eq ys xs l)
      ]
    ] in
    value_injective (num_negate ys) xs (num_negate-IsWords ys) v (length-num_negate ys ∙ l) e

-- The sign word of a number tells whether its integer is below 0.
sign_iff : (xs : List ℕ) → IsNum xs → (last_word xs ≢ 0) ↔ (signed xs <ℤ pos 0)
sign_iff xs n = elim n.sign [
  | inl z ↦ (
    λ h. absurd (h z),
    λ h. absurd (
        omega
          (arith, (sub-lt_zero (value xs) 0).0 (subst (λ t. t <ℤ pos 0) (signed-nonneg xs z) h))),
  )
  | inr m ↦ (
    λ h.
        subst (λ t. t <ℤ pos 0) (sym (signed-negative xs m))
          ((sub-lt_zero (value xs) (base_pow xs)).1 (value_lt xs n.words)),
    λ h z. absurd (omega arith),
  )
]

-- `num_le` returns other than 0 exactly when the first integer is below the second one, for two
-- different objects of which the second can be negated, and leaves every object as it was.
pub num_le_lem :
    (nums : ℕ → List ℕ) (p q : ℕ)
    → p ≢ q
    → IsNum (nums p)
    → IsNum (nums q)
    → ¬ IsLeast (nums q)
    → (((num_le nums p q).0 ≢ 0) ↔ (signed (nums p) <ℤ signed (nums q)))
      × ((x : ℕ) → (num_le nums p q).1 x ≡ nums x)
unfolding num_le negate_if
num_le_lem nums p q apart a b least =
    let n1 : List ℕ = nums p in
    let n2 : List ℕ = nums q in
    let sum : num_add (negate_at_if 1 nums q p) (negate_at_if 1 nums q q)
        ≡ num_add n1 (num_negate n2) =
      ap₂ (λ x y. num_add x y) (negate_at_if_elsewhere 1 nums q p apart)
        (negate_at_if_self 1 nums q) in
    let m = num_negate_lem n2 b least in
    let s = num_add_lem n1 (num_negate n2) a m.0 in
    let e : signed (num_add n1 (num_negate n2)) ≡ signed n1 +ℤ neg (signed n2) =
      s.1 ∙ ap (λ t. signed n1 +ℤ t) m.1.1 in
    let i = sign_iff (num_add n1 (num_negate n2)) s.0 in
    let j = lt_iff_sub (signed n1) (signed n2) in
    (
      subst (λ w. (last_word w ≢ 0) ↔ (signed n1 <ℤ signed n2)) (sym sum)
          (
            λ h. j.0 (subst (λ t. t <ℤ pos 0) e (i.0 h)),
            λ h. i.1 (subst (λ t. t <ℤ pos 0) (sym e) (j.1 h)),
          ),
      once-back nums q 1 (negate-negate n2 b.words),
    )
