-- ===== src/Num/Mul/Product.antt =====
-- `num_mul` of datastructures.c: the words of the product of two absolute values.
use lisp_machine.Common.{ℕ, zero, suc, ◌+◌, ◌-◌, ◌*◌, ◌<◌, ◌≤◌, ◌≡◌, arith, refl, ap, ◌∙◌}
use lisp_machine.Common.{List, [], ◌∷◌, ◌++◌, length, take, replicate}
use lisp_machine.Common.{ap₂, length-replicate, length-append}
use lisp_machine.Num.Value.{value, base_pow, IsWords, last_word, IsNum}
use lisp_machine.Num.Value.{low_pow, IsNum-small}
use lisp_machine.Num.Value.{base_pow_split, base_pow-eq}
use lisp_machine.Num.Add.Trim.{value-take, take-IsWords, length-take}
use lisp_machine.Num.Mul.{mul_words}
use lisp_machine.Num.Mul.Rows.{Row, rows_lem}

base_pow-append : (xs ys : List ℕ) → base_pow (xs ++ ys) ≡ base_pow xs * base_pow ys
base_pow-append [] ys = omega arith
base_pow-append (x ∷ xs) ys = grind (arith, base_pow-append xs ys)

value_zeros : (n : ℕ) → value (replicate n 0) ≡ 0
value_zeros zero = refl
value_zeros (suc n) = omega (arith, value_zeros n)

zeros-IsWords : (n : ℕ) → IsWords (replicate n 0)
zeros-IsWords zero = tt
zeros-IsWords (suc n) = (omega arith, zeros-IsWords n)

product_lt : (a b c d : ℕ) → a < c → b < d → a * b < c * d
product_lt a b c d p q = grind arith

module _ (m1 m2 : List ℕ) (u : IsWords m1) (v : IsWords m2) (a : 2 ≤ length m1) (b : 2 ≤ length m2)
    (p : value m1 < low_pow m1) (q : value m2 < low_pow m2) (z : last_word m2 ≡ 0) where
  without_sign : value (take (length m2 - 1) m2) ≡ value m2
  without_sign =
      let e = value-take (length m2 - 1) m2 (omega arith) in
      omega (arith, e.0, ap (λ t. base_pow (take (length m2 - 1) m2) * t) z)

  -- The words of the product.
  product : Row (replicate (length m1 + length m2 - 1) 0) (mul_words m1 m2) (value m1 * value m2)
  unfolding mul_words
  product =
      let n : ℕ = length m1 + length m2 - 1 in
      let k = length-take (length m2 - 1) m2 (omega arith) in
      let r =
        rows_lem m1 u (take (length m2 - 1) m2) (replicate n 0) (take-IsWords (length m2 - 1) m2 v)
          (zeros-IsWords n) (omega arith) p (omega (arith, k, length-replicate {A = ℕ} n 0))
          (omega (arith, value_zeros n)) in
      record {
        words = r.words;
        size = r.size;
        val = omega (arith, r.val, value_zeros n, ap (λ t. value m1 * t) without_sign);
      }

  pub length-mul_words : length (mul_words m1 m2) ≡ length m1 + length m2 - 1
  length-mul_words =
      let r = product in r.size ∙ length-replicate {A = ℕ} (length m1 + length m2 - 1) 0

  pub product-IsNum :
      IsNum (mul_words m1 m2)
      × ((last_word (mul_words m1 m2) ≡ 0) × (value (mul_words m1 m2) ≡ value m1 * value m2))
  product-IsNum =
      let r = product in
      let bound : value m1 * value m2 < low_pow m1 * low_pow m2 =
        product_lt (value m1) (value m2) (low_pow m1) (low_pow m2) p q in
      let e : low_pow (mul_words m1 m2) ≡ low_pow m1 * low_pow m2 = omega (
        arith,
        base_pow-append m1 m2,
        base_pow-eq (0 ∷ mul_words m1 m2) (m1 ++ m2)
            (omega (arith, length-append m1 m2, length-mul_words)),
        base_pow_split (mul_words m1 m2) (omega (arith, length-mul_words)),
        ap₂ (λ x y. x * y) (base_pow_split m1 (omega arith)) (base_pow_split m2 (omega arith)),
      ) in
      let n =
        IsNum-small (mul_words m1 m2) r.words (omega (arith, length-mul_words))
          (omega (arith, r.val, bound, e)) in
      (n.0, (n.1, r.val))
