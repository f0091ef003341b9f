-- ===== src/Num/Add/Laws.antt =====
-- `num_add` of datastructures.c against the sum of the integers.
use lisp_machine.Common.{ℕ, zero, suc, ◌+◌, ◌*◌, ◌^◌, ◌<◌, ◌≤◌, ◌≡◌, arith, refl, sym, ◌∙◌}
use lisp_machine.Common.{List, [], ◌∷◌, length, ltb, ◌==◌, Bool-cases, inl, inr, ◌⊎◌, ltb→lt}
use lisp_machine.Common.{if◌then◌else◌}
use lisp_machine.Common.Int.{sub_ℕ, sub-eq, ◌+ℤ◌, sub-add_sub, +ℤ_comm}
use lisp_machine.Word.{max_word, shr}
use lisp_machine.Num.Value.{value, base_pow, IsWords, last_word, signed, IsNum, low_lt, value_lt}
use lisp_machine.Num.Value.{low_pow, nonneg, negative, IsNum-Bounds, IsNum-small, IsNum-large}
use lisp_machine.Num.Value.{signed-nonneg, signed-negative, base_pow_split, base_pow-eq, low_pow-eq}
use lisp_machine.Num.Add.{add_words, keep_sign, add_sorted, num_add}
use lisp_machine.Num.Add.Words.{add_words_lem, length-add_words, add_words-IsWords}
use lisp_machine.Num.Add.Sign.{keep_sign-nonneg, keep_sign-negative, keep_sign-mixed}

-- What the sum of two numbers has to be.
abbrev pub IsSum : List ℕ → List ℕ → List ℕ → Type 0
IsSum n1 n2 r = IsNum r × (signed r ≡ signed n1 +ℤ signed n2)

base_pow-le : (xs ys : List ℕ) → length ys ≤ length xs → base_pow ys ≤ base_pow xs
base_pow-le [] [] h = omega arith
base_pow-le [] (y ∷ ys) h = absurd (omega arith)
base_pow-le (x ∷ xs) [] h = omega (arith, base_pow-le xs [] (omega arith))
base_pow-le (x ∷ xs) (y ∷ ys) h = omega (arith, base_pow-le xs ys (omega arith))

-- The carry out of the sum, multiplied.
carry_out : (k b : ℕ) → k ≤ 1 → (k * b ≡ 0) ⊎ (k * b ≡ b)
carry_out zero b h = inl (omega arith)
carry_out (suc zero) b h = inr (omega arith)
carry_out (suc (suc k)) b h = absurd (omega arith)

module _ (n1 n2 : List ℕ) (a : IsNum n1) (b : IsNum n2) (le : length n2 ≤ length n1) where
  -- The sum by the last words of the operands.
  shape :
      (l1 l2 : ℕ)
      → last_word n1 ≡ l1
      → last_word n2 ≡ l2
      → add_sorted n1 n2
        ≡ keep_sign
            (shr l1 63)
            (shr l2 63)
            (add_words (if shr l2 63 == 0 then 0 else max_word) 0 n1 n2)
  unfolding add_sorted
  shape l1 l2 e1 e2 = rw (e1, e2) refl

  pows : base_pow n1 ≡ 2 ^ 64 * low_pow n1
  pows = base_pow_split n1 (omega (arith, a.long))

  pows' : base_pow n2 ≡ 2 ^ 64 * low_pow n2
  pows' = base_pow_split n2 (omega (arith, b.long))

  smaller : low_pow n2 ≤ low_pow n1
  smaller = omega (arith, pows, pows', base_pow-le n1 n2 le)

  unit : 1 ≤ low_pow n1
  unit = omega (arith, low_lt n1 a.words)

  -- The sum of the words for each padding.
  module _ (pad : ℕ) where
    long : 2 ≤ length (add_words pad 0 n1 n2)
    long = omega (arith, length-add_words pad 0 n1 n2, a.long)

    base : base_pow (add_words pad 0 n1 n2) ≡ base_pow n1
    base = base_pow-eq (add_words pad 0 n1 n2) n1 (length-add_words pad 0 n1 n2)

    low : low_pow (add_words pad 0 n1 n2) ≡ low_pow n1
    low = low_pow-eq (add_words pad 0 n1 n2) n1 (omega (arith, long)) (length-add_words pad 0 n1 n2)

    words : IsWords (add_words pad 0 n1 n2)
    words = add_words-IsWords pad 0 n1 n2

    below : value (add_words pad 0 n1 n2) < base_pow n1
    below = omega (arith, value_lt (add_words pad 0 n1 n2) words, base)

  positive-IsSum :
      last_word n1 ≡ 0
      → last_word n2 ≡ 0
      → value n1 < low_pow n1
      → value n2 < low_pow n2
      → IsSum n1 n2 (add_sorted n1 n2)
  positive-IsSum z1 z2 s1 s2 =
      let r : List ℕ = add_words 0 0 n1 n2 in
      let k =
        add_words_lem 0 0 0 n1 n2 (omega arith) (omega arith) (omega arith) le a.words b.words in
      let v : value r ≡ value n1 + value n2 = elim (carry_out k.0 (base_pow n1) k.1.0) [
        | inl e ↦ omega (arith, e, k.1.1)
        | inr e ↦ absurd (omega (arith, e, k.1.1, pows, smaller, unit))
      ] in
      let s = keep_sign-nonneg r (words 0) (long 0) in
      let sum : signed n1 +ℤ signed n2 ≡ sub_ℕ (value n1 + value n2) (0 + 0) =
        rw (signed-nonneg n1 z1, signed-nonneg n2 z2) (sub-add_sub (value n1) 0 (value n2) 0) in
      rw (shape 0 0 z1 z2)
        (s.0, s.1 ∙ sub-eq (value r) 0 (value n1 + value n2) (0 + 0) (omega (arith, v)) ∙ sym sum)

  negative-IsSum :
      last_word n1 ≡ max_word
      → last_word n2 ≡ max_word
      → base_pow n1 ≤ value n1 + low_pow n1
      → base_pow n2 ≤ value n2 + low_pow n2
      → IsSum n1 n2 (add_sorted n1 n2)
  negative-IsSum z1 z2 s1 s2 =
      let r : List ℕ = add_words max_word 0 n1 n2 in
      let k =
        add_words_lem 1 max_word 0 n1 n2 (omega arith) (omega arith) (omega arith) le a.words
          b.words in
      let v : value r + base_pow n2 ≡ value n1 + value n2 =
        elim (carry_out k.0 (base_pow n1) k.1.0) [
          | inr e ↦ omega (arith, e, k.1.1)
          | inl e ↦ absurd (omega (arith, e, k.1.1, pows, smaller, unit, below max_word))
        ] in
      let s = keep_sign-negative r (words max_word) (long max_word) in
      let sum : signed n1 +ℤ signed n2 ≡ sub_ℕ (value n1 + value n2) (base_pow n1 + base_pow n2) =
        rw (signed-negative n1 z1, signed-negative n2 z2)
          (sub-add_sub (value n1) (base_pow n1) (value n2) (base_pow n2)) in
      rw (shape max_word max_word z1 z2) (
        s.0,
        s.1
            ∙ sub-eq (value r) (base_pow r) (value n1 + value n2) (base_pow n1 + base_pow n2)
                (omega (arith, v, base max_word))
            ∙ sym sum,
      )

  -- Operands with different signs: the words of the sum are a number already, with the sign that
  -- the carry tells.
  mixed :
      (pad d : ℕ)
      → (value (add_words pad 0 n1 n2) + d ≡ value n1 + value n2)
          × (value (add_words pad 0 n1 n2) < low_pow n1)
        ⊎ (value (add_words pad 0 n1 n2) + d ≡ value n1 + value n2 + base_pow n1)
          × (base_pow n1 ≤ value (add_words pad 0 n1 n2) + low_pow n1)
      → IsNum (add_words pad 0 n1 n2)
        × (signed (add_words pad 0 n1 n2) ≡ sub_ℕ (value n1 + value n2) d)
  mixed pad d h =
      let r : List ℕ = add_words pad 0 n1 n2 in
      elim h [
        | inl s ↦
            let n = IsNum-small r (words pad) (long pad) (omega (arith, low pad)) in
            (n.0, signed-nonneg r n.1 ∙ sub-eq (value r) 0 (value n1 + value n2) d (omega arith))
        | inr s ↦
            let n = IsNum-large r (words pad) (long pad) (omega (arith, low pad, base pad)) in
            (
              n.0,
              signed-negative r n.1
                  ∙ sub-eq (value r) (base_pow r) (value n1 + value n2) d (omega (arith, base pad)),
            )
      ]

  mixed-IsSum :
      last_word n1 ≡ 0
      → last_word n2 ≡ max_word
      → value n1 < low_pow n1
      → base_pow n2 ≤ value n2 + low_pow n2
      → IsSum n1 n2 (add_sorted n1 n2)
  mixed-IsSum z1 z2 s1 s2 =
      let r : List ℕ = add_words max_word 0 n1 n2 in
      let k =
        add_words_lem 1 max_word 0 n1 n2 (omega arith) (omega arith) (omega arith) le a.words
          b.words in
      let m = mixed max_word (base_pow n2) (elim (carry_out k.0 (base_pow n1) k.1.0) [
        | inl e ↦ inr (omega (arith, e, k.1.1), omega (arith, e, k.1.1, smaller))
        | inr e ↦ inl (omega (arith, e, k.1.1), omega (arith, e, k.1.1, value_lt n2 b.words))
      ]) in
      let s = keep_sign-mixed 0 1 r refl m.0 in
      let sum : signed n1 +ℤ signed n2 ≡ sub_ℕ (value n1 + value n2) (0 + base_pow n2) =
        rw (signed-nonneg n1 z1, signed-negative n2 z2)
          (sub-add_sub (value n1) 0 (value n2) (base_pow n2)) in
      rw (shape 0 max_word z1 z2) (
        s.0,
        s.1
            ∙ m.1
            ∙ sub-eq (value n1 + value n2) (base_pow n2) (value n1 + value n2) (0 + base_pow n2)
                (omega arith)
            ∙ sym sum,
      )

  mixed-IsSum' :
      last_word n1 ≡ max_word
      → last_word n2 ≡ 0
      → base_pow n1 ≤ value n1 + low_pow n1
      → value n2 < low_pow n2
      → IsSum n1 n2 (add_sorted n1 n2)
  mixed-IsSum' z1 z2 s1 s2 =
      let r : List ℕ = add_words 0 0 n1 n2 in
      let k =
        add_words_lem 0 0 0 n1 n2 (omega arith) (omega arith) (omega arith) le a.words b.words in
      let m = mixed 0 (base_pow n1) (elim (carry_out k.0 (base_pow n1) k.1.0) [
        | inl e ↦ inr (omega (arith, e, k.1.1), omega (arith, e, k.1.1))
        | inr e ↦
            inl (omega (arith, e, k.1.1), omega (arith, e, k.1.1, smaller, value_lt n1 a.words))
      ]) in
      let s = keep_sign-mixed 1 0 r refl m.0 in
      let sum : signed n1 +ℤ signed n2 ≡ sub_ℕ (value n1 + value n2) (base_pow n1 + 0) =
        rw (signed-negative n1 z1, signed-nonneg n2 z2)
          (sub-add_sub (value n1) (base_pow n1) (value n2) 0) in
      rw (shape max_word 0 z1 z2) (
        s.0,
        s.1
            ∙ m.1
            ∙ sub-eq (value n1 + value n2) (base_pow n1) (value n1 + value n2) (base_pow n1 + 0)
                (omega arith)
            ∙ sym sum,
      )

  add_sorted_lem : IsSum n1 n2 (add_sorted n1 n2)
  add_sorted_lem = elim (IsNum-Bounds n1 a) [
    | nonneg z1 s1 ↦ elim (IsNum-Bounds n2 b) [
      | nonneg z2 s2 ↦ positive-IsSum z1 z2 s1 s2
      | negative z2 _ s2 ↦ mixed-IsSum z1 z2 s1 s2
    ]
    | negative z1 _ s1 ↦ elim (IsNum-Bounds n2 b) [
      | nonneg z2 s2 ↦ mixed-IsSum' z1 z2 s1 s2
      | negative z2 _ s2 ↦ negative-IsSum z1 z2 s1 s2
    ]
  ]

-- `num_add` adds: the result is a number again, and its integer is the sum of the integers of the
-- operands, whatever their signs and lengths are.
pub num_add_lem : (n1 n2 : List ℕ) → IsNum n1 → IsNum n2 → IsSum n1 n2 (num_add n1 n2)
unfolding num_add
num_add_lem n1 n2 a b = elim (Bool-cases (ltb (length n1) (length n2))) [
  | inr e ↦ rw e (add_sorted_lem n1 n2 a b (ground (arith, e)))
  | inl e ↦
      let r = add_sorted_lem n2 n1 b a (omega (arith, ltb→lt (length n1) (length n2) e)) in
      rw e (r.0, r.1 ∙ +ℤ_comm (signed n2) (signed n1))
]
