-- ===== src/Num/Add/Trim.antt =====
-- The words that repeat the sign at the end of a number, which `num_add` and `num_mul` of
-- datastructures.c take away.
use lisp_machine.Common.{ℕ, zero, suc, ◌+◌, ◌-◌, ◌*◌, ◌^◌, ◌<◌, ◌≡◌, arith, refl, ap, sym, ◌∙◌}
use lisp_machine.Common.{List, [], ◌∷◌, length, get_or, take, ltb, ◌==◌, Bool-cases, inl, inr}
use lisp_machine.Common.{true, ==_iff}
use lisp_machine.Common.Int.{sub-eq}
use lisp_machine.Word.{max_word}
use lisp_machine.Num.Value.{value, base_pow, IsWords, last_word, signed, IsNum}
use lisp_machine.Num.Value.{signed-nonneg, signed-negative}
use lisp_machine.Num.Add.{trim}

pub length-take : (n : ℕ) (xs : List ℕ) → length xs ≡ suc n → length (take n xs) ≡ n
length-take zero xs h = refl
length-take (suc n) [] h = absurd (omega arith)
length-take (suc n) (x ∷ xs) h = ap suc (length-take n xs (omega arith))

pub take-IsWords : (n : ℕ) (xs : List ℕ) → IsWords xs → IsWords (take n xs)
take-IsWords zero xs v = tt
take-IsWords (suc n) [] v = tt
take-IsWords (suc n) (x ∷ xs) v = (v.0, take-IsWords n xs v.1)

get_or-take : (n i : ℕ) (xs : List ℕ) → i < n → get_or (take n xs) i 0 ≡ get_or xs i 0
get_or-take zero i xs h = absurd (omega arith)
get_or-take (suc n) i [] h = refl
get_or-take (suc n) zero (x ∷ xs) h = refl
get_or-take (suc n) (suc i) (x ∷ xs) h = get_or-take n i xs (omega arith)

-- A number and the number without its last word.
pub value-take :
    (n : ℕ) (xs : List ℕ)
    → length xs ≡ suc n
    → (value xs ≡ value (take n xs) + base_pow (take n xs) * get_or xs n 0)
      × (base_pow xs ≡ 2 ^ 64 * base_pow (take n xs))
value-take zero [] h = absurd (omega arith)
value-take zero (x ∷ []) h = (omega arith, omega arith)
value-take zero (x ∷ y ∷ ys) h = absurd (omega arith)
value-take (suc n) [] h = absurd (omega arith)
value-take (suc n) (x ∷ xs) h =
    let r = value-take n xs (omega arith) in (grind (arith, r.0), omega (arith, r.1))

-- The step of the loop.
trim_step :
    (n l : ℕ) (xs : List ℕ)
    → IsNum xs
    → length xs ≡ suc (suc (suc n))
    → last_word xs ≡ l
    → get_or xs (suc n) 0 ≡ l
    → IsNum (take (suc (suc n)) xs)
      × ((last_word (take (suc (suc n)) xs) ≡ l) × (signed (take (suc (suc n)) xs) ≡ signed xs))
trim_step n l xs num len last same =
    let ys : List ℕ = take (suc (suc n)) xs in
    let len' : length ys ≡ suc (suc n) = length-take (suc (suc n)) xs len in
    let at_end : length xs - 1 ≡ suc (suc n) = omega arith in
    let before_end : length ys - 1 ≡ suc n = omega (arith, len') in
    let last' : last_word ys ≡ l =
      ap (λ i. get_or ys i 0) before_end
      ∙ get_or-take (suc (suc n)) (suc n) xs (omega arith)
      ∙ same in
    let e = value-take (suc (suc n)) xs len in
    let w : get_or xs (suc (suc n)) 0 ≡ last_word xs = ap (λ i. get_or xs i 0) (sym at_end) in
    let v : value xs ≡ value ys + base_pow ys * last_word xs =
      e.0 ∙ ap (λ t. value ys + base_pow ys * t) w in
    elim num.sign [
      | inl z ↦
          let zero_last : last_word ys ≡ 0 = last' ∙ sym last ∙ z in
          (
            record {
              words = take-IsWords (suc (suc n)) xs num.words;
              long = omega (arith, len');
              sign = inl zero_last;
            },
            (
              last',
              signed-nonneg ys zero_last
                  ∙ sub-eq (value ys) 0 (value xs) 0 (omega (arith, v, ap (λ t. base_pow ys * t) z))
                  ∙ sym (signed-nonneg xs z),
            ),
          )
      | inr m ↦
          let ones_last : last_word ys ≡ max_word = last' ∙ sym last ∙ m in
          (
            record {
              words = take-IsWords (suc (suc n)) xs num.words;
              long = omega (arith, len');
              sign = inr ones_last;
            },
            (
              last',
              signed-negative ys ones_last
                  ∙ sub-eq (value ys) (base_pow ys) (value xs) (base_pow xs)
                      (omega (arith, v, e.1, ap (λ t. base_pow ys * t) m))
                  ∙ sym (signed-negative xs m),
            ),
          )
    ]

-- The loop takes away words that repeat the sign, and leaves the integer as it is.
pub trim_lem :
    (i l : ℕ) (xs : List ℕ)
    → IsNum xs
    → length xs ≡ suc i
    → last_word xs ≡ l
    → IsNum (trim l i xs) × ((last_word (trim l i xs) ≡ l) × (signed (trim l i xs) ≡ signed xs))
unfolding trim
trim_lem zero l xs num len last = (num, (last, refl))
trim_lem (suc zero) l xs num len last = (num, (last, refl))
trim_lem (suc (suc n)) l xs num len last =
    let more : ltb 1 (suc (suc n)) ≡ true = ground arith in
    elim (Bool-cases (get_or xs (suc n) 0 == l)) [
      | inr e ↦ rw (more, e) (num, (last, refl))
      | inl e ↦
          let m : length xs - 1 ≡ suc (suc n) = omega arith in
          let s = trim_step n l xs num len last ((==_iff (get_or xs (suc n) 0) l).0 e) in
          let r =
            trim_lem (suc n) l (take (suc (suc n)) xs) s.0 (length-take (suc (suc n)) xs len)
              s.1.0 in
          rw (more, e, m) (r.0, (r.1.0, r.1.1 ∙ s.1.1))
    ]
