-- ===== src/Num/Mul/Row.antt =====
-- One row of `num_mul` of datastructures.c: a multiple of the first number by a power of 2 is added.
use native.Mathlib.Nat.{
  pow-suc, div-add-mod', mod-lt, suc-add, zero-add, div-lt_iff_lt-mul, one-le-pow,
}
use native.Mathlib.Decide.{dec_lt}
use lisp_machine.Common.{
  ℕ, zero, suc, ◌+◌, ◌-◌, ◌*◌, ◌/◌, ◌%◌, ◌^◌, ◌<◌, ◌≤◌, ◌≡◌, arith, refl, ap, sym, ◌∙◌,
}
use lisp_machine.Common.{List, [], ◌∷◌, length, bit_or, if◌then◌else◌, ◌==◌, false}
use lisp_machine.Word.{shl}
use lisp_machine.Word.Bits.{bit_or_fields, bit_or_comm, bit_or-zero}
use lisp_machine.Num.{adc, adc-lt}
use lisp_machine.Num.Value.{value, base_pow, IsWords}
use lisp_machine.Num.Add.{add_digit}
use lisp_machine.Num.Add.Words.{add_digit_lem}
use lisp_machine.Num.Mul.{shifted, add_row}

pow-add : (k m : ℕ) → 2 ^ (k + m) ≡ 2 ^ k * 2 ^ m
pow-add zero m = omega (arith, ap (λ t. 2 ^ t) (zero-add m))
pow-add (suc k) m =
    ap (λ t. 2 ^ t) (suc-add k m)
    ∙ pow-suc 2 (k + m)
    ∙ ap (λ t. t * 2) (pow-add k m)
    ∙ omega (arith, ap (λ t. t * 2 ^ m) (pow-suc 2 k))

-- The bits that a shift by `nsh` moves out of a word.
abbrev pub lost : ℕ → ℕ → ℕ
lost nsh w = if nsh == 0 then 0 else w / 2 ^ (64 - nsh)

-- A word times a power of 2, where `m` is the other power up to the word.
module _ (p m w : ℕ) (e : p * m ≡ 2 ^ 64) where
  pos : 1 ≤ m
  pos = elim (dec_lt 0 m) [
    | yes h ↦ h
    | no h ↦ let z : m ≡ 0 = omega arith in absurd (omega (arith, e, ap (λ t. p * t) z))
  ]

  rest_lt : w % m < m
  rest_lt = mod-lt w pos

  kept_le : (w % m) * p + p ≤ 2 ^ 64
  kept_le = grind (arith, rest_lt, e)

  split_word : w * p ≡ w / m * 2 ^ 64 + (w % m) * p
  split_word = omega (arith, ap (λ t. t * p) (div-add-mod' w m), ap (λ t. w / m * t) e)

  kept_lt : 1 ≤ p → (w % m) * p < 2 ^ 64
  kept_lt h = omega (arith, kept_le)

  shl_word : 1 ≤ p → (w * p) % 2 ^ 64 ≡ (w % m) * p
  shl_word h = omega (arith, split_word, kept_lt h)

  lost_lt : w < 2 ^ 64 → w / m < p
  lost_lt h = (div-lt_iff_lt-mul pos).1 (omega (arith, e))

lost-suc : (k w : ℕ) → lost (suc k) w ≡ w / 2 ^ (64 - suc k)
lost-suc k w = ground arith

shifted-suc :
    (k prev curr : ℕ)
    → shifted (suc k) prev curr ≡ bit_or (prev / 2 ^ (64 - suc k)) (shl curr (suc k))
unfolding shifted
shifted-suc k prev curr = let t : (suc k == 0) ≡ false = ground arith in rw t refl

shifted_lem :
    (nsh prev curr : ℕ)
    → nsh < 64
    → prev < 2 ^ 64
    → curr < 2 ^ 64
    → (shifted nsh prev curr + 2 ^ 64 * lost nsh curr ≡ lost nsh prev + 2 ^ nsh * curr)
      × (shifted nsh prev curr < 2 ^ 64)
unfolding shifted
shifted_lem zero prev curr h p q =
    let e : bit_or 0 (shl curr 0) ≡ curr =
      bit_or_comm 0 (shl curr 0) ∙ bit_or-zero (shl curr 0) ∙ omega arith in
    (omega (arith, e), omega (arith, e))
shifted_lem (suc k) prev curr h p q =
    let m : ℕ = 2 ^ (64 - suc k) in
    let all : suc k + (64 - suc k) ≡ 64 = omega arith in
    let e : 2 ^ suc k * m ≡ 2 ^ 64 = sym (pow-add (suc k) (64 - suc k)) ∙ ap (λ t. 2 ^ t) all in
    let u : 1 ≤ 2 ^ suc k = one-le-pow (suc k) 2 (omega arith) in
    let l = lost_lt (2 ^ suc k) m prev e p in
    let b : bit_or (prev / m) (shl curr (suc k)) ≡ (curr % m) * 2 ^ suc k + prev / m =
      ap (bit_or (prev / m)) (shl_word (2 ^ suc k) m curr e u)
      ∙ bit_or_comm (prev / m) ((curr % m) * 2 ^ suc k)
      ∙ bit_or_fields (suc k) (curr % m) (prev / m) l in
    let s = split_word (2 ^ suc k) m curr e in
    let t = kept_le (2 ^ suc k) m curr e in
    (
      omega (arith, shifted-suc k prev curr, b, s, lost-suc k prev, lost-suc k curr),
      omega (arith, shifted-suc k prev curr, b, l, t),
    )

-- A row adds the shifted number, up to what is carried out of the words behind it.
pub add_row_lem :
    (nsh prev c : ℕ) (xs rs : List ℕ)
    → nsh < 64
    → prev < 2 ^ 64
    → c ≤ 1
    → IsWords xs
    → IsWords rs
    → length xs ≤ length rs
    → (k : ℕ) × (value (add_row nsh prev c xs rs) + k * base_pow xs
        ≡ value rs + c + lost nsh prev + 2 ^ nsh * value xs)
unfolding add_row
add_row_lem nsh prev c [] rs h p hc u v l = (c + lost nsh prev, omega arith)
add_row_lem nsh prev c (x ∷ xs) [] h p hc u v l = absurd (omega arith)
add_row_lem nsh prev c (x ∷ xs) (r ∷ rs) h p hc u v l =
    let s = shifted_lem nsh prev x h p u.0 in
    let d = add_digit_lem r (shifted nsh prev x) c v.0 s.1 hc in
    let c' : ℕ = (add_digit r (shifted nsh prev x) c).1 in
    let i = add_row_lem nsh x c' xs rs h u.0 (omega (arith, d, s.1)) u.1 v.1 (omega arith) in
    (i.0, omega (arith, s.0, d.0, i.1))

pub length-add_row :
    (nsh prev c : ℕ) (xs rs : List ℕ)
    → length xs ≤ length rs
    → length (add_row nsh prev c xs rs) ≡ length rs
unfolding add_row
length-add_row nsh prev c [] rs l = refl
length-add_row nsh prev c (x ∷ xs) [] l = absurd (omega arith)
length-add_row nsh prev c (x ∷ xs) (r ∷ rs) l =
    ap suc (length-add_row nsh x (add_digit r (shifted nsh prev x) c).1 xs rs (omega arith))

pub add_row-IsWords :
    (nsh prev c : ℕ) (xs rs : List ℕ) → IsWords rs → IsWords (add_row nsh prev c xs rs)
unfolding add_row add_digit
add_row-IsWords nsh prev c [] rs v = v
add_row-IsWords nsh prev c (x ∷ xs) [] v = tt
add_row-IsWords nsh prev c (x ∷ xs) (r ∷ rs) v = (
  adc-lt (adc r c).0 (shifted nsh prev x),
  add_row-IsWords nsh x (add_digit r (shifted nsh prev x) c).1 xs rs v.1,
)
