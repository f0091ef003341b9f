-- ===== src/Util/Digits.antt =====
-- `uintn_to_str` of util.c: the digits of a number in a base, as characters.
use native.Mathlib.Nat.{pow-suc, pow-zero, div-lt_iff_lt-mul, div-add-mod', mod-lt}
use mathlib.Core.Path.{subst}
use lisp_machine.Common.{ℕ, zero, suc, ◌+◌, ◌-◌, ◌*◌, ◌/◌, ◌%◌, ◌^◌, ◌<◌, ◌≤◌, ltb, leb, ◌==◌}
use lisp_machine.Common.{if◌then◌else◌, true, false, ◌≡◌, refl, arith, List, [], ◌∷◌}
use lisp_machine.Common.{Bool-cases, inl, inr, Option, none, some, ap, ◌∙◌, sym, length}
use mathlib.Core.Option.{some-injective}

-- A digit as a character: `0` to `9`, then `A` to `Z`, then `a` on.
unfoldable pub digit_char : ℕ → ℕ
digit_char d =
    let c = d + 48 in if leb 58 c then (let c = c + 7 in if leb 91 c then c + 6 else c) else c

-- The loop of `uintn_to_str`, lowest digit first, with the rounds that are left; `i` counts the
-- digits that are written and `buf` holds them, last one first.
unfoldable to_digits : ℕ → ℕ → ℕ → ℕ → ℕ → List ℕ → Option (List ℕ)
unfolding digit_char
to_digits zero buf_sz num base i buf = if num == 0 then some buf else none
to_digits (suc fuel) buf_sz num base i buf =
    let rest = to_digits fuel buf_sz (num / base) base (suc i) (digit_char (num % base) ∷ buf) in
    if num == 0 then some buf else if leb (buf_sz - 1) i then none else rest

-- The text that ends up in the buffer, its terminator left out, or none for the result -1. The
-- loop refuses the round after `buf_sz - 1` digits, so `buf_sz` rounds are enough.
unfoldable pub uintn_to_str : ℕ → ℕ → ℕ → Option (List ℕ)
unfolding to_digits
uintn_to_str buf_sz num base =
    if ltb buf_sz 2
    then none
    else if num == 0
    then some (48 ∷ [])
    else to_digits buf_sz buf_sz num base 0 []

-- The digit of a character.
abbrev pub char_digit : ℕ → ℕ
char_digit c = if ltb c 58 then c - 48 else if ltb c 91 then c - 55 else c - 61

-- The number that a text continues `acc` to.
abbrev pub read_text : ℕ → List ℕ → ℕ → ℕ
read_text base [] acc = acc
read_text base (c ∷ cs) acc = read_text base cs (acc * base + char_digit c)

-- `digit_char` has 62 digits.
pub digit-char : (d : ℕ) → d < 62 → char_digit (digit_char d) ≡ d
unfolding digit_char
digit-char d h = ground arith

module _ (base : ℕ) (two : 2 ≤ base) (few : base ≤ 62) where
  -- A step of the loop keeps the number that the digits and the rest stand for.
  read-step :
      (num : ℕ) (buf : List ℕ)
      → read_text base (digit_char (num % base) ∷ buf) (num / base) ≡ read_text base buf num
  read-step num buf =
      let m : num % base < base = mod-lt num (omega arith) in
      let d : char_digit (digit_char (num % base)) ≡ num % base =
        digit-char (num % base) (omega arith) in
      ap (read_text base buf) (ap (λ t. num / base * base + t) d ∙ div-add-mod' num base)

  to_digits-zero :
      (fuel buf_sz num i : ℕ) (buf : List ℕ)
      → num ≡ 0
      → (t : List ℕ) × ((to_digits fuel buf_sz num base i buf ≡ some t)
          × (read_text base t 0 ≡ read_text base buf num))
  unfolding to_digits
  to_digits-zero zero buf_sz num i buf e = rw e (buf, (refl, refl))
  to_digits-zero (suc fuel) buf_sz num i buf e = rw e (buf, (refl, refl))

  to_digits_lem :
      (k fuel buf_sz num i : ℕ) (buf : List ℕ)
      → num < base ^ k
      → k ≤ fuel
      → i + k + 1 ≡ buf_sz
      → (t : List ℕ) × ((to_digits fuel buf_sz num base i buf ≡ some t)
          × (read_text base t 0 ≡ read_text base buf num))
  unfolding to_digits
  to_digits_lem zero fuel buf_sz num i buf h p q =
      to_digits-zero fuel buf_sz num i buf (omega (arith, pow-zero base))
  to_digits_lem (suc k) zero buf_sz num i buf h p q = absurd (omega arith)
  to_digits_lem (suc k) (suc fuel) buf_sz num i buf h p q = elim (Bool-cases (num == 0)) [
    | inl e ↦ to_digits-zero (suc fuel) buf_sz num i buf (ground (arith, e))
    | inr e ↦
        let pos : 0 < base = omega arith in
        let small : num / base < base ^ k =
          (div-lt_iff_lt-mul pos).1 (subst (λ t. num < t) (pow-suc base k) h) in
        let room : leb (buf_sz - 1) i ≡ false = ground (arith, q) in
        let r =
          to_digits_lem k fuel buf_sz (num / base) (suc i) (digit_char (num % base) ∷ buf) small
            (omega arith) (omega arith) in
        (r.0, (rw (e, room) r.1.0, r.1.1 ∙ read-step num buf))
  ]

  uintn_to_str-zero :
      (n num : ℕ) → 1 ≤ n → (num == 0) ≡ true → uintn_to_str (suc n) num base ≡ some (48 ∷ [])
  unfolding uintn_to_str
  uintn_to_str-zero n num pos e =
      let room : ltb (suc n) 2 ≡ false = ground arith in rw (room, e) refl

  uintn_to_str-loop :
      (n num : ℕ)
      → 1 ≤ n
      → (num == 0) ≡ false
      → uintn_to_str (suc n) num base ≡ to_digits (suc n) (suc n) num base 0 []
  unfolding uintn_to_str
  uintn_to_str-loop n num pos e =
      let room : ltb (suc n) 2 ≡ false = ground arith in rw (room, e) refl

  -- In a base of up to 62 digits, a number that fits the buffer is written, and reading the text
  -- back gives the number.
  pub uintn_to_str_lem :
      (n num : ℕ)
      → 1 ≤ n
      → num < base ^ n
      → (t : List ℕ) × ((uintn_to_str (suc n) num base ≡ some t) × (read_text base t 0 ≡ num))
  uintn_to_str_lem n num pos h = elim (Bool-cases (num == 0)) [
    | inl e ↦ (48 ∷ [], (uintn_to_str-zero n num pos e, ground (arith, e)))
    | inr e ↦
        let r = to_digits_lem n (suc n) (suc n) num 0 [] h (omega arith) (omega arith) in
        (r.0, (uintn_to_str-loop n num pos e ∙ r.1.0, r.1.1))
  ]

-- Characters of digits below the base.
abbrev pub Digits : ℕ → List ℕ → Type 0
Digits base [] = Unit
Digits base (c ∷ cs) = ((d : ℕ) × ((d < base) × (c ≡ digit_char d))) × Digits base cs

to_digits-Digits :
    (fuel buf_sz num base i : ℕ) (buf : List ℕ) {t : List ℕ}
    → 1 ≤ base
    → length buf ≡ i
    → i < buf_sz
    → Digits base buf
    → to_digits fuel buf_sz num base i buf ≡ some t
    → Digits base t × ((length buf ≤ length t) × (length t < buf_sz))
unfolding to_digits
to_digits-Digits zero buf_sz num base i buf {t} b l h d e = elim (Bool-cases (num == 0)) [
  | inl z ↦
      let same : buf ≡ t = some-injective buf t (rw z at e) in
      subst (λ t. Digits base t × ((length buf ≤ length t) × (length t < buf_sz))) same
        (d, (omega arith, omega arith))
  | inr z ↦ let bad : Path (Option (List ℕ)) none (some t) = rw z at e in absurd (cc)
]
to_digits-Digits (suc fuel) buf_sz num base i buf {t} b l h d e = elim (Bool-cases (num == 0)) [
  | inl z ↦
      let same : buf ≡ t = some-injective buf t (rw z at e) in
      subst (λ t. Digits base t × ((length buf ≤ length t) × (length t < buf_sz))) same
        (d, (omega arith, omega arith))
  | inr z ↦ elim (Bool-cases (leb (buf_sz - 1) i)) [
    | inl y ↦ let bad : Path (Option (List ℕ)) none (some t) = rw (z, y) at e in absurd (cc)
    | inr y ↦
        let more : to_digits fuel buf_sz (num / base) base (suc i) (digit_char (num % base) ∷ buf)
            ≡ some t =
          rw (z, y) at e in
        let r =
          to_digits-Digits fuel buf_sz (num / base) base (suc i) (digit_char (num % base) ∷ buf) b
            (omega arith) (ground (arith, y)) ((num % base, (mod-lt num b, refl)), d) more in
        (r.0, (omega (arith, r.1), r.1.1))
  ]
]

zero_char : digit_char 0 ≡ 48
unfolding digit_char
zero_char = refl

first_digit :
    (base n num : ℕ)
    → 1 ≤ n
    → (num == 0) ≡ false
    → to_digits (suc n) (suc n) num base 0 []
      ≡ to_digits n (suc n) (num / base) base 1 (digit_char (num % base) ∷ [])
unfolding to_digits
first_digit base n num pos z =
    let room : leb (suc n - 1) 0 ≡ false = ground arith in rw (z, room) refl

-- A text that is written has between one digit and as many as the buffer takes.
pub uintn_to_str-Digits :
    (base n num : ℕ) {t : List ℕ}
    → 2 ≤ base
    → base ≤ 62
    → 1 ≤ n
    → uintn_to_str (suc n) num base ≡ some t
    → Digits base t × ((1 ≤ length t) × (length t ≤ n))
uintn_to_str-Digits base n num {t} two few pos e = elim (Bool-cases (num == 0)) [
  | inl z ↦
      let same : 48 ∷ [] ≡ t =
        some-injective (48 ∷ []) t (sym (uintn_to_str-zero base two few n num pos z) ∙ e) in
      subst (λ t. Digits base t × ((1 ≤ length t) × (length t ≤ n))) same
        (((0, (omega arith, sym zero_char)), tt), (omega arith, omega arith))
  | inr z ↦
      let one : Digits base (digit_char (num % base) ∷ []) =
        ((num % base, (mod-lt num (omega arith), refl)), tt) in
      let r =
        to_digits-Digits n (suc n) (num / base) base 1 (digit_char (num % base) ∷ []) (omega arith)
          refl (omega arith) one
          (sym (first_digit base n num pos z)
            ∙ (sym (uintn_to_str-loop base two few n num pos z) ∙ e)) in
      (r.0, (r.1.0, omega (arith, r.1.1)))
]
