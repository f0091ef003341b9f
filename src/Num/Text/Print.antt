-- ===== src/Num/Text/Print.antt =====
-- `num_to_str` of datastructures.c: its text, read back.
use native.Mathlib.Nat.{pow-suc}
use mathlib.Core.Path.{subst}
use lisp_machine.Common.{ℕ, zero, suc, ◌+◌, ◌-◌, ◌*◌, ◌^◌, ◌<◌, ◌≤◌, ◌≡◌, arith, refl, ap, sym, ◌∙◌}
use lisp_machine.Common.{Option, none, some, inl, inr, List, [], ◌∷◌, ◌++◌, length}
use lisp_machine.Common.{take, replicate, get_or, ◌==◌, false}
use lisp_machine.Common.{length-replicate, length-append, take_all}
use mathlib.Core.Option.{some-injective}
use lisp_machine.Common.Int.{ℤ, pos, neg, sub-eq, neg-sub, sub_zero}
use lisp_machine.Util.Digits.{uintn_to_str_lem, uintn_to_str-Digits, digit_char}
use lisp_machine.Util.Digits.{char_digit, read_text, Digits, digit-char}
use lisp_machine.Num.{num_negate}
use lisp_machine.Num.Value.{value, base_pow, IsWords, last_word, signed, IsNum, signed-nonneg}
use lisp_machine.Num.Value.{nonneg, negative, IsNum-Bounds, signed-negative}
use lisp_machine.Num.Negate.{IsLeast, negate-negative, length-num_negate}
use lisp_machine.Num.Text.{hex_val, word_text, padded_text, lower_text, num_to_str, str_to_num}
use lisp_machine.Num.Text.Digits.{digit_value, hex_val_lem, hex_value, hex_value-append, pow16}
use lisp_machine.Num.Text.Parse.{pow16_eq, str_to_num_lem, text_value}

hex_val-char : (d : ℕ) → d < 16 → hex_val (digit_char d) ≡ some d
unfolding hex_val digit_char
hex_val-char d h = ground arith

-- Both readers agree on the digits of base 16.
hex_value-read :
    (acc : ℕ) (cs : List ℕ) → Digits 16 cs → hex_value acc cs ≡ some (read_text 16 cs acc)
unfolding hex_value
hex_value-read acc [] v = refl
hex_value-read acc (c ∷ cs) ((d, (l, e)), v) =
    let h : digit_value c ≡ some d = sym (hex_val_lem c) ∙ ap hex_val e ∙ hex_val-char d l in
    let f : char_digit c ≡ d = ap char_digit e ∙ digit-char d (omega arith) in
    rw (h, hex_value)
      (hex_value-read (acc * 16 + d) cs v ∙ ap (λ t. some (read_text 16 cs (acc * 16 + t))) (sym f))

read_text-acc : (acc : ℕ) (cs : List ℕ) → read_text 16 cs acc ≡ acc * pow16 cs + read_text 16 cs 0
read_text-acc acc [] = omega arith
read_text-acc acc (c ∷ cs) =
    omega
      (arith, read_text-acc (acc * 16 + char_digit c) cs, read_text-acc (0 * 16 + char_digit c) cs)

-- The text of a word.
record WordText (w : ℕ) (t : List ℕ) : Type 0 where
  some_digits : 1 ≤ length t
  few_digits : length t ≤ 16
  digits : Digits 16 t
  reads : (acc : ℕ) → hex_value acc t ≡ some (acc * pow16 t + w)

word_text_lem : (w : ℕ) → w < 2 ^ 64 → WordText w (word_text w)
unfolding word_text
word_text_lem w h =
    let r = uintn_to_str_lem 16 (omega arith) (omega arith) 16 w (omega arith) h in
    let d = uintn_to_str-Digits 16 16 w (omega arith) (omega arith) (omega arith) r.1.0 in
    let e : word_text w ≡ r.0 = rw (r.1.0, word_text) refl in
    subst (WordText w) (sym e) (record {
      some_digits = d.1.0;
      few_digits = d.1.1;
      digits = d.0;
      reads =
          λ acc. hex_value-read acc r.0 d.0 ∙ ap some (omega (arith, read_text-acc acc r.0, r.1.1));
    })

-- Zeros in front.
zeros_lem :
    (k acc : ℕ) (t : List ℕ) → hex_value acc (replicate k b'0' ++ t) ≡ hex_value (acc * 16 ^ k) t
unfolding hex_value digit_value
zeros_lem zero acc t = ap (λ a. hex_value a t) (omega arith)
zeros_lem (suc k) acc t =
    zeros_lem k (acc * 16 + 0) t
    ∙ ap (λ a. hex_value a t) (omega (arith, ap (λ t. acc * t) (pow-suc 16 k)))

zeros_pow : (k : ℕ) (t : List ℕ) → pow16 (replicate k b'0' ++ t) ≡ 16 ^ k * pow16 t
zeros_pow zero t = omega arith
zeros_pow (suc k) t = omega (arith, zeros_pow k t, ap (λ z. z * pow16 t) (pow-suc 16 k))

padded_word :
    (w acc : ℕ) (t : List ℕ)
    → WordText w t
    → hex_value acc (replicate (16 - length t) b'0' ++ t) ≡ some (acc * 2 ^ 64 + w)
padded_word w acc t r =
    let k : ℕ = 16 - length t in
    let full : length (replicate k b'0' ++ t) ≡ 16 =
      omega (
        arith,
        length-append (replicate k b'0') t,
        length-replicate {A = ℕ} k b'0',
        r.few_digits,
      ) in
    let p : 16 ^ k * pow16 t ≡ 2 ^ 64 =
      sym (zeros_pow k t) ∙ pow16_eq 16 (replicate k b'0' ++ t) full in
    zeros_lem k acc t ∙ r.reads (acc * 16 ^ k) ∙ ap some (omega (arith, ap (λ z. acc * z) p))

padded_lem : (w acc : ℕ) → w < 2 ^ 64 → hex_value acc (padded_text w) ≡ some (acc * 2 ^ 64 + w)
unfolding padded_text
padded_lem w acc h = padded_word w acc (word_text w) (word_text_lem w h)

-- The words below an index.
value-take-suc :
    (i : ℕ) (n : List ℕ)
    → i < length n
    → (value (take (suc i) n) ≡ value (take i n) + base_pow (take i n) * get_or n i 0)
      × (base_pow (take (suc i) n) ≡ 2 ^ 64 * base_pow (take i n))
value-take-suc i [] h = absurd (omega arith)
value-take-suc zero (w ∷ ws) h = (omega arith, omega arith)
value-take-suc (suc i) (w ∷ ws) h =
    let r = value-take-suc i ws (omega arith) in (omega (arith, r.0), omega (arith, r.1))

get_or-lt : (i : ℕ) (n : List ℕ) → IsWords n → get_or n i 0 < 2 ^ 64
get_or-lt i [] v = omega arith
get_or-lt zero (w ∷ ws) v = v.0
get_or-lt (suc i) (w ∷ ws) v = get_or-lt i ws v.1

lower_lem :
    (n : List ℕ) (i acc : ℕ)
    → IsWords n
    → i ≤ length n
    → hex_value acc (lower_text n i) ≡ some (acc * base_pow (take i n) + value (take i n))
unfolding lower_text hex_value
lower_lem n zero acc v h = ap some (omega arith)
lower_lem n (suc i) acc v h =
    let w : ℕ = get_or n i 0 in
    let s = value-take-suc i n (omega arith) in
    hex_value-append acc (padded_text w) (lower_text n i)
    ∙ rw (padded_lem w acc (get_or-lt i n v)) (
        lower_lem n i (acc * 2 ^ 64 + w) v (omega arith)
        ∙ ap some (omega (arith, s.0, ap (λ z. acc * z) s.1)))

-- The digits of a number that is not below 0.
digits_lem :
    (n : List ℕ) (s : ℕ)
    → IsNum n
    → last_word n ≡ 0
    → length n ≡ suc (suc s)
    → hex_value 0 (word_text (get_or n s 0) ++ lower_text n s) ≡ some (value n)
digits_lem n s a z l =
    let w : ℕ = get_or n s 0 in
    let t = word_text_lem w (get_or-lt s n a.words) in
    let r = value-take-suc s n (omega arith) in
    let last : get_or n (suc s) 0 ≡ 0 =
      ap (λ i. get_or n i 0) {y = length n - 1} (omega arith) ∙ z in
    let q = value-take-suc (suc s) n (omega arith) in
    let all : value n ≡ value (take (suc s) n) = omega (
      arith,
      q.0,
      ap value (take_all (suc (suc s)) n (omega arith)),
      ap (λ t. base_pow (take (suc s) n) * t) last,
    ) in
    hex_value-append 0 (word_text w) (lower_text n s)
    ∙ rw (t.reads 0) (
        lower_lem n s (0 * pow16 (word_text w) + w) a.words (omega arith)
        ∙ ap some (omega (arith, r.0, all)))

digit-ne-sign : (c : ℕ) → (d : ℕ) × ((d < 16) × (c ≡ digit_char d)) → (c == b'-') ≡ false
unfolding digit_char
digit-ne-sign c (d, (l, e)) = ground (arith, e)

-- The first character of a word is no sign.
plain_value :
    (w v : ℕ) (t rest : List ℕ)
    → WordText w t
    → hex_value 0 (t ++ rest) ≡ some v
    → text_value (t ++ rest) ≡ some (pos v)
unfolding text_value
plain_value w v [] rest r h = let l = r.some_digits in absurd (omega arith)
plain_value w v (c ∷ cs) rest r h =
    let no_sign : (c == b'-') ≡ false = digit-ne-sign c r.digits.0 in rw (no_sign, h) refl

signed_value :
    (w v : ℕ) (t rest : List ℕ)
    → WordText w t
    → hex_value 0 (t ++ rest) ≡ some v
    → text_value (b'-' ∷ (t ++ rest)) ≡ some (neg (pos v))
unfolding text_value
signed_value w v [] rest r h = let l = r.some_digits in absurd (omega arith)
signed_value w v (c ∷ cs) rest r h = rw h refl

-- The text of a number stands for its integer.
num_to_str-value :
    (n : List ℕ) → IsNum n → ¬ IsLeast n → text_value (num_to_str n) ≡ some (signed n)
unfolding num_to_str
num_to_str-value n a least = elim (IsNum-Bounds n a) [
  | nonneg z s ↦
      let i : ℕ = length n - 2 in
      let w = word_text_lem (get_or n i 0) (get_or-lt i n a.words) in
      rw z (
        plain_value (get_or n i 0) (value n) (word_text (get_or n i 0)) (lower_text n i) w
          (digits_lem n i a z (omega (arith, a.long)))
        ∙ ap some (sym (signed-nonneg n z ∙ sub_zero (value n))))
  | negative m _ big ↦
      let r = negate-negative n a m big least in
      let k : List ℕ = num_negate n in
      let l = length-num_negate n in
      let i : ℕ = length k - 2 in
      let w = word_text_lem (get_or k i 0) (get_or-lt i k r.0.words) in
      let e : signed n ≡ neg (pos (value k)) =
        signed-negative n m
        ∙ sub-eq (value n) (base_pow n) 0 (value k) (omega (arith, r.1.1))
        ∙ sym (neg-sub (value k) 0)
        ∙ ap neg (sub_zero (value k)) in
      rw m (
        signed_value (get_or k i 0) (value k) (word_text (get_or k i 0)) (lower_text k i) w
          (digits_lem k i r.0 r.1.0 (omega (arith, l, a.long)))
        ∙ ap some (sym e))
]

-- A number that is printed and read again comes back, if it is not the least one of its length:
-- `str_to_num` takes the text that `num_to_str` makes, and returns a number with the same integer.
pub str_to_num-num_to_str :
    (n : List ℕ)
    → IsNum n
    → ¬ IsLeast n
    → (m : List ℕ) × ((str_to_num (num_to_str n) ≡ some m) × (IsNum m × (signed m ≡ signed n)))
str_to_num-num_to_str n a least =
    let v = num_to_str-value n a least in
    elim (str_to_num_lem (num_to_str n)) [
      | inl (x, y) ↦ let bad : Path (Option ℤ) none (some (signed n)) = sym y ∙ v in absurd (cc)
      | inr (m, (x, (b, y))) ↦ (m, (x, (b, some-injective (signed m) (signed n) (sym y ∙ v))))
    ]
