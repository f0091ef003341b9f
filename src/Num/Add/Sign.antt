-- ===== src/Num/Add/Sign.antt =====
-- The sign word at the end of a sum, in `num_add` of datastructures.c.
use lisp_machine.Common.{ℕ, ◌+◌, ◌-◌, ◌*◌, ◌^◌, ◌<◌, ◌≤◌, ◌≡◌, arith, refl, ◌∙◌}
use lisp_machine.Common.{List, [], ◌∷◌, ◌++◌, length, ◌==◌, Bool-cases, inl, inr, not}
use lisp_machine.Common.{length-append, ==_iff, ◌⊎◌}
use lisp_machine.Common.Int.{sub_ℕ, sub-eq}
use lisp_machine.Word.{max_word}
use lisp_machine.Num.Value.{value, base_pow, IsWords, last_word, signed, IsNum, top}
use lisp_machine.Num.Value.{last_word-eq-top}
use lisp_machine.Num.Value.{signed-nonneg, signed-negative}
use lisp_machine.Num.Add.{keep_sign}
use lisp_machine.Num.Add.Trim.{trim_lem}

pub append_value : (xs : List ℕ) (w : ℕ) → value (xs ++ w ∷ []) ≡ value xs + base_pow xs * w
append_value [] w = omega arith
append_value (x ∷ xs) w = grind (arith, append_value xs w)

pub append_pow : (xs : List ℕ) (w : ℕ) → base_pow (xs ++ w ∷ []) ≡ 2 ^ 64 * base_pow xs
append_pow [] w = omega arith
append_pow (x ∷ xs) w = omega (arith, append_pow xs w)

pub append_top : (xs : List ℕ) (w : ℕ) → top (xs ++ w ∷ []) ≡ w
append_top [] w = refl
append_top (x ∷ []) w = refl
append_top (x ∷ y ∷ ys) w = append_top (y ∷ ys) w

pub append-IsWords : (xs : List ℕ) (w : ℕ) → IsWords xs → w < 2 ^ 64 → IsWords (xs ++ w ∷ [])
append-IsWords [] w v h = (h, tt)
append-IsWords (x ∷ xs) w v h = (v.0, append-IsWords xs w v.1 h)

-- A word of its sign behind the words of a number.
pub append-IsNum :
    (xs : List ℕ) (w : ℕ)
    → IsWords xs
    → 1 ≤ length xs
    → (w ≡ 0) ⊎ (w ≡ max_word)
    → IsNum (xs ++ w ∷ []) × (last_word (xs ++ w ∷ []) ≡ w)
append-IsNum xs w v l s =
    let e : last_word (xs ++ w ∷ []) ≡ w = last_word-eq-top (xs ++ w ∷ []) ∙ append_top xs w in
    (
      record {
        words = append-IsWords xs w v (elim s [ inl z ↦ omega arith | inr z ↦ omega arith ]);
        long = omega (arith, length-append xs (w ∷ []));
        sign = elim s [ inl z ↦ inl (e ∙ z) | inr z ↦ inr (e ∙ z) ];
      },
      e,
    )

module _ (r : List ℕ) (v : IsWords r) (l : 2 ≤ length r) where
  -- The sum of two numbers that are not below 0.
  pub keep_sign-nonneg : IsNum (keep_sign 0 0 r) × (signed (keep_sign 0 0 r) ≡ sub_ℕ (value r) 0)
  unfolding keep_sign
  keep_sign-nonneg = elim (Bool-cases (last_word r == 0)) [
    | inl e ↦
        let z = (==_iff (last_word r) 0).0 e in
        let n : IsNum r = record { words = v; long = l; sign = inl z } in
        let t = trim_lem (length r - 1) (last_word r) r n (omega arith) refl in
        rw e (t.0, t.1.1 ∙ signed-nonneg r z)
    | inr e ↦
        let a = append-IsNum r 0 v (omega arith) (inl refl) in
        rw e (
          a.0,
          signed-nonneg (r ++ 0 ∷ []) a.1
              ∙ sub-eq (value (r ++ 0 ∷ [])) 0 (value r) 0 (omega (arith, append_value r 0)),
        )
  ]

  -- The sum of two numbers below 0.
  pub keep_sign-negative :
      IsNum (keep_sign 1 1 r) × (signed (keep_sign 1 1 r) ≡ sub_ℕ (value r) (base_pow r))
  unfolding keep_sign
  keep_sign-negative = elim (Bool-cases (last_word r == max_word)) [
    | inl e ↦
        let m = (==_iff (last_word r) max_word).0 e in
        let n : IsNum r = record { words = v; long = l; sign = inr m } in
        let t = trim_lem (length r - 1) (last_word r) r n (omega arith) refl in
        rw e (t.0, t.1.1 ∙ signed-negative r m)
    | inr e ↦
        let a = append-IsNum r max_word v (omega arith) (inr refl) in
        rw e (
          a.0,
          signed-negative (r ++ max_word ∷ []) a.1
              ∙ sub-eq (value (r ++ max_word ∷ [])) (base_pow (r ++ max_word ∷ [])) (value r)
                  (base_pow r) (omega (arith, append_value r max_word, append_pow r max_word)),
        )
  ]

-- The sum of two numbers with different signs.
pub keep_sign-mixed :
    (s1 s2 : ℕ) (r : List ℕ)
    → (s1 == 0) ≡ not (s2 == 0)
    → IsNum r
    → IsNum (keep_sign s1 s2 r) × (signed (keep_sign s1 s2 r) ≡ signed r)
unfolding keep_sign
keep_sign-mixed s1 s2 r d n =
    let t = trim_lem (length r - 1) (last_word r) r n (omega (arith, n.long)) refl in
    elim (Bool-cases (s2 == 0)) [ inl e ↦ rw (d, e) (t.0, t.1.1) | inr e ↦ rw (d, e) (t.0, t.1.1) ]
