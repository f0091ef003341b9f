-- ===== src/Num/Value.antt =====
-- What the words of a big number stand for: in two's complement, lowest word first, with a sign
-- word at the end that is all zeros or all ones.
use native.Mathlib.Decide.{dec_lt}
use native.Mathlib.Nat.{mul-le-mul_left}
use lisp_machine.Common.{ℕ, suc, ◌+◌, ◌-◌, ◌*◌, ◌^◌, ◌<◌, ◌≤◌, ◌≡◌, arith, refl, ap}
use lisp_machine.Common.{◌∙◌, List, [], ◌∷◌, length, get_or, ◌⊎◌, inl, inr}
use lisp_machine.Common.Int.{ℤ, sub_ℕ, sub-eq}
use lisp_machine.Word.{max_word, shr}

abbrev pub value : List ℕ → ℕ
value [] = 0
value (w ∷ ws) = w + 2 ^ 64 * value ws

abbrev pub base_pow : List ℕ → ℕ
base_pow [] = 1
base_pow (w ∷ ws) = 2 ^ 64 * base_pow ws

abbrev pub IsWords : List ℕ → Type 0
IsWords [] = Unit
IsWords (w ∷ ws) = (w < 2 ^ 64) × IsWords ws

abbrev pub last_word : List ℕ → ℕ
last_word xs = get_or xs (length xs - 1) 0

-- The integer: a number with its top bit set is below 0.
unfoldable pub signed : List ℕ → ℤ
signed xs = sub_ℕ (value xs) (shr (last_word xs) 63 * base_pow xs)

pub record IsNum (xs : List ℕ) : Type 0 where
  pub words : IsWords xs
  pub long : 2 ≤ length xs
  pub sign : (last_word xs ≡ 0) ⊎ (last_word xs ≡ max_word)

-- The last word, and the words below it.
abbrev pub top : List ℕ → ℕ
top [] = 0
top (w ∷ []) = w
top (w ∷ v ∷ vs) = top (v ∷ vs)

abbrev pub low : List ℕ → ℕ
low [] = 0
low (w ∷ []) = 0
low (w ∷ v ∷ vs) = w + 2 ^ 64 * low (v ∷ vs)

abbrev pub low_pow : List ℕ → ℕ
low_pow [] = 1
low_pow (w ∷ []) = 1
low_pow (w ∷ v ∷ vs) = 2 ^ 64 * low_pow (v ∷ vs)

pub last_word-eq-top : (xs : List ℕ) → last_word xs ≡ top xs
last_word-eq-top [] = refl
last_word-eq-top (w ∷ []) = refl
last_word-eq-top (w ∷ v ∷ vs) =
    let e : length (w ∷ v ∷ vs) - 1 ≡ suc (length (v ∷ vs) - 1) = omega arith in
    rw e (last_word-eq-top (v ∷ vs))

pub value_split : (xs : List ℕ) → value xs ≡ low xs + low_pow xs * top xs
value_split [] = omega arith
value_split (w ∷ []) = omega arith
value_split (w ∷ v ∷ vs) = grind (arith, value_split (v ∷ vs))

pub base_pow_split : (xs : List ℕ) → 1 ≤ length xs → base_pow xs ≡ 2 ^ 64 * low_pow xs
base_pow_split [] h = absurd (omega arith)
base_pow_split (w ∷ []) h = omega arith
base_pow_split (w ∷ v ∷ vs) h = ap (λ t. 2 ^ 64 * t) (base_pow_split (v ∷ vs) (omega arith))

pub low_lt : (xs : List ℕ) → IsWords xs → low xs < low_pow xs
low_lt [] v = omega arith
low_lt (w ∷ []) v = omega arith
low_lt (w ∷ u ∷ us) v = omega (arith, low_lt (u ∷ us) v.1)

pub value_lt : (xs : List ℕ) → IsWords xs → value xs < base_pow xs
value_lt [] v = omega arith
value_lt (w ∷ ws) v = omega (arith, value_lt ws v.1)

pub top_lt : (xs : List ℕ) → IsWords xs → top xs < 2 ^ 64
top_lt [] v = omega arith
top_lt (w ∷ []) v = v.0
top_lt (w ∷ u ∷ us) v = top_lt (u ∷ us) v.1

-- The last word from the value.
pub top-lt : (xs : List ℕ) (q : ℕ) → value xs < low_pow xs * q → top xs < q
top-lt xs q h = elim (dec_lt (top xs) q) [
  | yes p ↦ p
  | no p ↦
      let m : low_pow xs * q ≤ low_pow xs * top xs = mul-le-mul_left (low_pow xs) (omega arith) in
      absurd (omega (arith, value_split xs, m))
]

pub top-ge : (xs : List ℕ) (q : ℕ) → IsWords xs → low_pow xs * q ≤ value xs → q ≤ top xs
top-ge xs q v h = elim (dec_lt (top xs) q) [
  | no p ↦ omega arith
  | yes p ↦
      let m : low_pow xs * suc (top xs) ≤ low_pow xs * q =
        mul-le-mul_left (low_pow xs) (omega arith) in
      absurd (grind (arith, value_split xs, m, low_lt xs v))
]

-- The range of a number of either sign.
pub data Bounds (xs : List ℕ) : Type 0 where
  nonneg : last_word xs ≡ 0 → value xs < low_pow xs → Bounds xs
  negative :
      last_word xs ≡ max_word
      → value xs + low_pow xs < base_pow xs + low_pow xs
      → base_pow xs ≤ value xs + low_pow xs
      → Bounds xs

pub IsNum-Bounds : (xs : List ℕ) → IsNum xs → Bounds xs
IsNum-Bounds xs n = elim n.sign [
  | inl z ↦ nonneg z (
      let t : top xs ≡ 0 = omega (arith, last_word-eq-top xs) in
      grind (arith, value_split xs, low_lt xs n.words, t))
  | inr m ↦
      let t : top xs ≡ max_word = omega (arith, last_word-eq-top xs) in
      let v : value xs ≡ low xs + low_pow xs * max_word = rw (← t) (value_split xs) in
      negative m (omega (arith, value_lt xs n.words))
        (omega (arith, v, base_pow_split xs (omega (arith, n.long))))
]

-- The sign from the value, and the integer from the sign.
pub IsNum-small :
    (xs : List ℕ)
    → IsWords xs
    → 2 ≤ length xs
    → value xs < low_pow xs
    → IsNum xs × (last_word xs ≡ 0)
IsNum-small xs w l h =
    let e : last_word xs ≡ 0 = omega (arith, last_word-eq-top xs, top-lt xs 1 (omega arith)) in
    (record { words = w; long = l; sign = inl e }, e)

pub IsNum-large :
    (xs : List ℕ)
    → IsWords xs
    → 2 ≤ length xs
    → base_pow xs ≤ value xs + low_pow xs
    → IsNum xs × (last_word xs ≡ max_word)
IsNum-large xs w l h =
    let b = base_pow_split xs (omega arith) in
    let e : last_word xs ≡ max_word =
      omega (arith, last_word-eq-top xs, top_lt xs w, top-ge xs max_word w (omega (arith, b))) in
    (record { words = w; long = l; sign = inr e }, e)

pub signed-nonneg : (xs : List ℕ) → last_word xs ≡ 0 → signed xs ≡ sub_ℕ (value xs) 0
unfolding signed
signed-nonneg xs e =
    ap (λ w. sub_ℕ (value xs) (shr w 63 * base_pow xs)) e
    ∙ sub-eq (value xs) (0 * base_pow xs) (value xs) 0 (omega arith)

pub signed-negative :
    (xs : List ℕ) → last_word xs ≡ max_word → signed xs ≡ sub_ℕ (value xs) (base_pow xs)
unfolding signed
signed-negative xs e =
    ap (λ w. sub_ℕ (value xs) (shr w 63 * base_pow xs)) e
    ∙ sub-eq (value xs) (1 * base_pow xs) (value xs) (base_pow xs) (omega arith)

-- The powers go by the number of words.
pub base_pow-eq : (xs ys : List ℕ) → length xs ≡ length ys → base_pow xs ≡ base_pow ys
base_pow-eq [] [] h = refl
base_pow-eq [] (y ∷ ys) h = absurd (omega arith)
base_pow-eq (x ∷ xs) [] h = absurd (omega arith)
base_pow-eq (x ∷ xs) (y ∷ ys) h = ap (λ t. 2 ^ 64 * t) (base_pow-eq xs ys (omega arith))

pub low_pow-eq : (xs ys : List ℕ) → 1 ≤ length xs → length xs ≡ length ys → low_pow xs ≡ low_pow ys
low_pow-eq xs ys p h =
    omega (arith, base_pow-eq xs ys h, base_pow_split xs p, base_pow_split ys (omega arith))
