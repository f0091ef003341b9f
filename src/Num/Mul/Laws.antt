-- ===== src/Num/Mul/Laws.antt =====
-- `num_mul` of datastructures.c against the product of the integers.
use lisp_machine.Common.{
  ℕ, zero, suc, ◌+◌, ◌-◌, ◌*◌, ◌^◌, ◌<◌, ◌≤◌, ◌≡◌, ◌≢◌, arith, refl, ap, sym, ◌∙◌,
}
use mathlib.Core.Path.{subst}
use lisp_machine.Common.{List, [], ◌∷◌, length, get_or, ltb, ◌==◌, Bool-cases}
use lisp_machine.Common.{inl, inr, ◌⊎◌, bit_xor, false, ◌&&◌, ap₂}
use lisp_machine.Common.Int.{sub_ℕ, sub-eq, ◌*ℤ◌, sub-mul_sub, *ℤ_comm, zero-mul, neg, neg-sub}
use lisp_machine.Word.{max_word}
use lisp_machine.Num.{num_negate}
use lisp_machine.Num.Value.{value, base_pow, last_word, signed, IsNum}
use lisp_machine.Num.Value.{low_pow, nonneg, negative, IsNum-Bounds}
use lisp_machine.Num.Value.{signed-nonneg, signed-negative, base_pow_split, low_pow-eq}
use lisp_machine.Num.Negate.{
  IsLeast, num_negate_lem, negate-negative, negate_value, length-num_negate,
}
use lisp_machine.Num.Le.{negate-negate}
use lisp_machine.Num.Add.{trim}
use lisp_machine.Num.Add.Trim.{trim_lem}
use lisp_machine.Num.Store.{negate_if, both-first, both-second, both-back}
use lisp_machine.Num.Mul.{mul_words, mul_sorted, num_mul}
use lisp_machine.Num.Mul.Product.{product-IsNum, length-mul_words}

-- The absolute value of a number, which the sign gives back.
record Magnitude (n m : List ℕ) : Type 0 where
  num : IsNum m
  size : length m ≡ length n
  small : value m < low_pow m
  zero_last : last_word m ≡ 0
  back : negate_if (last_word n) m ≡ n
  sign :
      ((last_word n ≡ 0) × (signed n ≡ sub_ℕ (value m) 0))
      ⊎ ((last_word n ≡ max_word) × (signed n ≡ sub_ℕ 0 (value m)))

zero_small : (n : List ℕ) → IsNum n → last_word n ≡ 0 → value n < low_pow n
zero_small n a z = elim (IsNum-Bounds n a) [
  | nonneg _ s ↦ s
  | negative m _ _ ↦ absurd (omega arith)
]

magnitude : (n : List ℕ) → IsNum n → ¬ IsLeast n → Magnitude n (negate_if (last_word n) n)
unfolding negate_if
magnitude n a least = elim (IsNum-Bounds n a) [
  | nonneg z s ↦ rw z (record {
    num = a;
    size = refl;
    small = s;
    zero_last = z;
    back = rw z refl;
    sign = inl (z, signed-nonneg n z);
  })
  | negative m _ s ↦
      let r = negate-negative n a m s least in
      rw m (record {
        num = r.0;
        size = length-num_negate n;
        small = zero_small (num_negate n) r.0 r.1.0;
        zero_last = r.1.0;
        back = rw m (negate-negate n a.words);
        sign = inr (
          m,
          signed-negative n m
              ∙ sub-eq (value n) (base_pow n) 0 (value (num_negate n)) (omega (arith, r.1.1)),
        );
      })
]

-- Zeros have no words that repeat a sign of ones.
zero_words : (i : ℕ) (xs : List ℕ) → value xs ≡ 0 → get_or xs i 0 ≡ 0
zero_words i [] h = refl
zero_words zero (x ∷ xs) h = omega arith
zero_words (suc i) (x ∷ xs) h = zero_words i xs (omega arith)

trim_zeros : (i : ℕ) (xs : List ℕ) → value xs ≡ 0 → trim max_word i xs ≡ xs
unfolding trim
trim_zeros zero xs h = refl
trim_zeros (suc i) xs h =
    let e : (get_or xs i 0 == max_word) ≡ false = ground (arith, zero_words i xs h) in
    let f : (ltb 1 (suc i) && get_or xs i 0 == max_word) ≡ false = ground (arith, e) in rw f refl

-- The result for operands of different signs.
negative_result :
    (w : List ℕ) (i : ℕ)
    → IsNum w
    → last_word w ≡ 0
    → length w ≡ suc i
    → IsNum (trim max_word i (num_negate w))
      × (signed (trim max_word i (num_negate w)) ≡ sub_ℕ 0 (value w))
negative_result w i a z l =
    let n : List ℕ = num_negate w in
    let r = num_negate_lem w a (λ least. absurd (omega (arith, least.0))) in
    let e : signed n ≡ sub_ℕ 0 (value w) =
      r.1.1 ∙ ap neg (signed-nonneg w z) ∙ neg-sub (value w) 0 in
    elim r.0.sign [
      | inr m ↦ let t = trim_lem i max_word n r.0 (omega (arith, r.1.0)) m in (t.0, t.1.1 ∙ e)
      | inl y ↦
          let none_left : value n ≡ 0 = elim (negate_value w a.words) [
            | inl v ↦ v.1
            | inr v ↦ absurd (
                omega (
                  arith,
                  zero_small w a z,
                  zero_small n r.0 y,
                  low_pow-eq n w (omega (arith, r.1.0)) r.1.0,
                  base_pow_split w (omega arith),
                ))
          ] in
          rw (trim_zeros i n none_left) (r.0, e)
    ]

-- The product of the absolute values, with its sign and without the words that repeat it.
signed_result :
    (w : List ℕ) (s i : ℕ)
    → IsNum w
    → last_word w ≡ 0
    → length w ≡ suc i
    → ((s ≡ 0)
        → IsNum (trim s i (negate_if s w))
          × (signed (trim s i (negate_if s w)) ≡ sub_ℕ (value w) 0))
      × ((s ≡ max_word)
          → IsNum (trim s i (negate_if s w))
            × (signed (trim s i (negate_if s w)) ≡ sub_ℕ 0 (value w)))
unfolding negate_if
signed_result w s i a z l = (
  λ e. let t = trim_lem i 0 w a l z in rw e (t.0, t.1.1 ∙ signed-nonneg w z),
  λ e. rw e (negative_result w i a z l),
)

two_words :
    (xs : List ℕ)
    → length xs ≡ 2
    → get_or xs 0 0 ≡ 0
    → (value xs ≡ 2 ^ 64 * last_word xs) × ((low_pow xs ≡ 2 ^ 64) × (base_pow xs ≡ 2 ^ 64 * 2 ^ 64))
two_words [] l z = absurd (omega arith)
two_words (x ∷ []) l z = absurd (omega arith)
two_words (x ∷ y ∷ []) l z = (omega arith, (omega arith, omega arith))
two_words (x ∷ y ∷ w ∷ ws) l z = absurd (omega arith)

-- What the product of two numbers has to be.
abbrev pub IsProduct : List ℕ → List ℕ → List ℕ → Type 0
IsProduct n1 n2 r = IsNum r × (signed r ≡ signed n1 *ℤ signed n2)

module _ (n1 n2 : List ℕ) (a : IsNum n1) (b : IsNum n2) (la : ¬ IsLeast n1)
    (lb : ¬ IsLeast n2) where
  -- The words of the product of the absolute values.
  words_lem :
      (w : List ℕ)
      → w ≡ mul_words (negate_if (last_word n1) n1) (negate_if (last_word n2) n2)
      → IsNum w
        × ((last_word w ≡ 0)
            × ((length w ≡ suc (length n1 + length n2 - 1 - 1))
                × (value w
                    ≡ value (negate_if (last_word n1) n1) * value (negate_if (last_word n2) n2))))
  words_lem w e =
      let p = magnitude n1 a la in
      let q = magnitude n2 b lb in
      let m1 : List ℕ = negate_if (last_word n1) n1 in
      let m2 : List ℕ = negate_if (last_word n2) n2 in
      let long1 : 2 ≤ length m1 = omega (arith, p.size, a.long) in
      let long2 : 2 ≤ length m2 = omega (arith, q.size, b.long) in
      let r = product-IsNum m1 m2 p.num.words q.num.words long1 long2 p.small q.small q.zero_last in
      let l =
        length-mul_words m1 m2 p.num.words q.num.words long1 long2 p.small q.small q.zero_last in
      rw e (r.0, (r.1.0, (omega (arith, l, p.size, q.size, a.long), r.1.1)))

  result_lem : IsProduct n1 n2 (
      trim (bit_xor (last_word n1) (last_word n2)) (length n1 + length n2 - 1 - 1) (
        negate_if
          (bit_xor (last_word n1) (last_word n2))
          (mul_words (negate_if (last_word n1) n1) (negate_if (last_word n2) n2))))
  result_lem =
      let p = magnitude n1 a la in
      let q = magnitude n2 b lb in
      let v1 : ℕ = value (negate_if (last_word n1) n1) in
      let v2 : ℕ = value (negate_if (last_word n2) n2) in
      let w : List ℕ = mul_words (negate_if (last_word n1) n1) (negate_if (last_word n2) n2) in
      let r = words_lem w refl in
      let s =
        signed_result w (bit_xor (last_word n1) (last_word n2)) (length n1 + length n2 - 1 - 1) r.0
          r.1.0 r.1.1.0 in
      elim p.sign [
        | inl (z1, e1) ↦ elim q.sign [
          | inl (z2, e2) ↦
              let t = s.0 (ap₂ bit_xor z1 z2) in
              (
                t.0,
                t.1
                    ∙ sub-eq (value w) 0 (v1 * v2 + 0 * 0) (v1 * 0 + 0 * v2)
                        (omega (arith, r.1.1.1))
                    ∙ sym (ap₂ ◌*ℤ◌ e1 e2 ∙ sub-mul_sub v1 0 v2 0),
              )
          | inr (z2, e2) ↦
              let t = s.1 (ap₂ bit_xor z1 z2) in
              (
                t.0,
                t.1
                    ∙ sub-eq 0 (value w) (v1 * 0 + 0 * v2) (v1 * v2 + 0 * 0)
                        (omega (arith, r.1.1.1))
                    ∙ sym (ap₂ ◌*ℤ◌ e1 e2 ∙ sub-mul_sub v1 0 0 v2),
              )
        ]
        | inr (z1, e1) ↦ elim q.sign [
          | inl (z2, e2) ↦
              let t = s.1 (ap₂ bit_xor z1 z2) in
              (
                t.0,
                t.1
                    ∙ sub-eq 0 (value w) (0 * v2 + v1 * 0) (0 * 0 + v1 * v2)
                        (omega (arith, r.1.1.1))
                    ∙ sym (ap₂ ◌*ℤ◌ e1 e2 ∙ sub-mul_sub 0 v1 v2 0),
              )
          | inr (z2, e2) ↦
              let t = s.0 (ap₂ bit_xor z1 z2) in
              (
                t.0,
                t.1
                    ∙ sub-eq (value w) 0 (0 * 0 + v1 * v2) (0 * v2 + v1 * 0)
                        (omega (arith, r.1.1.1))
                    ∙ sym (ap₂ ◌*ℤ◌ e1 e2 ∙ sub-mul_sub 0 v1 0 v2),
              )
        ]
      ]

  -- The number 0, which is known by its first word.
  zero_first : length n1 ≡ 2 → get_or n1 0 0 ≡ 0 → signed n1 ≡ sub_ℕ 0 0
  zero_first l z =
      let t = two_words n1 l z in
      elim a.sign [
        | inl y ↦ signed-nonneg n1 y ∙ sub-eq (value n1) 0 0 0 (omega (arith, t))
        | inr y ↦ absurd (la (y, omega (arith, t)))
      ]

module _ (nums : ℕ → List ℕ) where
  sorted_lem :
      (p q : ℕ)
      → p ≢ q
      → IsNum (nums p)
      → IsNum (nums q)
      → ¬ IsLeast (nums p)
      → ¬ IsLeast (nums q)
      → IsProduct (nums p) (nums q) (mul_sorted nums p q).0
        × ((x : ℕ) → (mul_sorted nums p q).1 x ≡ nums x)
  unfolding mul_sorted
  sorted_lem p q apart a b la lb =
      let n1 : List ℕ = nums p in
      let n2 : List ℕ = nums q in
      elim (Bool-cases (length n1 == 2 && get_or n1 0 0 == 0)) [
        | inl e ↦
            let l : length n1 ≡ 2 = ground (arith, e) in
            let z : get_or n1 0 0 ≡ 0 = ground (arith, e) in
            let n : IsNum (0 ∷ 0 ∷ []) = record {
              words = omega arith;
              long = omega arith;
              sign = inl refl;
            } in
            let v : signed (0 ∷ 0 ∷ []) ≡ signed n1 *ℤ signed n2 =
              signed-nonneg (0 ∷ 0 ∷ []) refl
              ∙ sym (
                  ap (λ t. t *ℤ signed n2) (zero_first n1 n2 a b la lb l z)
                  ∙ zero-mul (signed n2)) in
            rw e ((n, v), λ x. refl)
        | inr e ↦
            let s : ℕ = last_word n1 in
            let t : ℕ = last_word n2 in
            let words =
              ap₂ (λ m1 m2. mul_words m1 m2) (both-first nums p q s t apart)
                (both-second nums p q s t apart) in
            let product =
              subst
                (λ w.
                  IsProduct n1 n2 (
                    trim (bit_xor s t) (length n1 + length n2 - 1 - 1) (negate_if (bit_xor s t) w)))
                (sym words) (result_lem n1 n2 a b la lb) in
            rw e (
              product,
              both-back nums p q s t apart (magnitude n1 a la).back (magnitude n2 b lb).back,
            )
      ]

  -- `num_mul` multiplies: for two different objects whose numbers can be negated, the result is a
  -- number whose integer is the product of theirs, and every object ends as it was.
  pub num_mul_lem :
      (p q : ℕ)
      → p ≢ q
      → IsNum (nums p)
      → IsNum (nums q)
      → ¬ IsLeast (nums p)
      → ¬ IsLeast (nums q)
      → IsProduct (nums p) (nums q) (num_mul nums p q).0
        × ((x : ℕ) → (num_mul nums p q).1 x ≡ nums x)
  unfolding num_mul
  num_mul_lem p q apart a b la lb = elim (Bool-cases (ltb (length (nums q)) (length (nums p)))) [
    | inr e ↦ rw e (sorted_lem p q apart a b la lb)
    | inl e ↦
        let r = sorted_lem q p (λ h. apart (sym h)) b a lb la in
        rw e ((r.0.0, r.0.1 ∙ *ℤ_comm (signed (nums q)) (signed (nums p))), r.1)
  ]
