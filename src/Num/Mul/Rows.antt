-- ===== src/Num/Mul/Rows.antt =====
-- The loops of `num_mul` of datastructures.c: the value of the product.
use native.Mathlib.Nat.{pow-suc, mul-le-mul_left}
use mathlib.Core.Path.{subst}
use lisp_machine.Common.{
  ℕ, zero, suc, ◌+◌, ◌-◌, ◌*◌, ◌/◌, ◌%◌, ◌^◌, ◌<◌, ◌≤◌, ◌≡◌, arith, refl, ap, sym, ◌∙◌,
}
use lisp_machine.Common.{List, [], ◌∷◌, length, bit_and, ◌==◌, Bool-cases, inl, inr, List-cases}
use lisp_machine.Word.Bits.{bit_and_mask}
use lisp_machine.Num.Value.{value, base_pow, IsWords, low_pow, base_pow_split}
use lisp_machine.Num.Mul.{add_row, mul_bits, mul_rows}
use lisp_machine.Num.Mul.Row.{add_row_lem, length-add_row, add_row-IsWords, lost}

-- What a loop leaves: words again, as many as before, with the value that is claimed.
pub record Row (rs out : List ℕ) (v : ℕ) : Type 0 where
  pub words : IsWords out
  pub size : length out ≡ length rs
  pub val : value out ≡ v

-- Nothing is carried out of a row that has room for the sum.
no_carry : (k b s t : ℕ) → s + k * b ≡ t → t < b → s ≡ t
no_carry zero b s t e h = omega arith
no_carry (suc k) b s t e h = absurd (grind arith)

module _ (n1 : List ℕ) (u : IsWords n1) where
  row :
      (nsh : ℕ) (rs : List ℕ)
      → nsh < 64
      → IsWords rs
      → length n1 ≤ length rs
      → value rs + 2 ^ nsh * value n1 < base_pow n1
      → Row rs (add_row nsh 0 0 n1 rs) (value rs + 2 ^ nsh * value n1)
  row nsh rs h v l b =
      let r = add_row_lem nsh 0 0 n1 rs h (omega arith) (omega arith) u v l in
      let z : lost nsh 0 ≡ 0 = ground arith in
      record {
        words = add_row-IsWords nsh 0 0 n1 rs v;
        size = length-add_row nsh 0 0 n1 rs l;
        val =
            no_carry r.0 (base_pow n1) (value (add_row nsh 0 0 n1 rs))
              (value rs + 2 ^ nsh * value n1) (omega (arith, r.1, z)) b;
      }

  -- The lowest bit of the word, and the bits above it.
  even : (nsh w : ℕ) → w % 2 ≡ 0 → 2 ^ suc nsh * (w / 2) * value n1 ≡ 2 ^ nsh * w * value n1
  even nsh w z =
      let h : w ≡ w / 2 * 2 = omega arith in
      omega (
        arith,
        ap (λ x. x * (w / 2) * value n1) (pow-suc 2 nsh),
        ap (λ x. 2 ^ nsh * x * value n1) h,
      )

  odd :
      (nsh w : ℕ)
      → w % 2 ≡ 1
      → 2 ^ nsh * value n1 + 2 ^ suc nsh * (w / 2) * value n1 ≡ 2 ^ nsh * w * value n1
  odd nsh w z =
      let h : w ≡ w / 2 * 2 + 1 = omega arith in
      omega (
        arith,
        ap (λ x. x * (w / 2) * value n1) (pow-suc 2 nsh),
        ap (λ x. 2 ^ nsh * x * value n1) h,
      )

  no_bits :
      (nsh w : ℕ) (rs : List ℕ) → w ≡ 0 → IsWords rs → Row rs rs (value rs + 2 ^ nsh * w * value n1)
  no_bits nsh w rs z v = record {
    words = v;
    size = refl;
    val = omega (arith, ap (λ x. 2 ^ nsh * x * value n1) z);
  }

  bits_lem :
      (bits nsh w : ℕ) (rs : List ℕ)
      → nsh + bits ≡ 64
      → w < 2 ^ bits
      → IsWords rs
      → length n1 ≤ length rs
      → value rs + 2 ^ nsh * w * value n1 < base_pow n1
      → Row rs (mul_bits bits nsh w n1 rs) (value rs + 2 ^ nsh * w * value n1)
  unfolding mul_bits
  bits_lem zero nsh w rs e h v l b = no_bits nsh w rs (omega arith) v
  bits_lem (suc bits) nsh w rs e h v l b =
      let half : w / 2 < 2 ^ bits = omega (arith, pow-suc 2 bits) in
      let bit : bit_and w 1 ≡ w % 2 = bit_and_mask 1 w in
      elim (Bool-cases (w == 0)) [
        | inl z ↦ rw z (no_bits nsh w rs (ground (arith, z)) v)
        | inr z ↦ elim (Bool-cases (bit_and w 1 == 0)) [
          | inl y ↦
              let p = even nsh w (ground (arith, bit, y)) in
              let r =
                bits_lem bits (suc nsh) (w / 2) rs (omega arith) half v l (omega (arith, p)) in
              rw (z, y) (record { words = r.words; size = r.size; val = omega (arith, r.val, p) })
          | inr y ↦
              let p = odd nsh w (ground (arith, bit, y)) in
              let a = row nsh rs (omega arith) v l (omega (arith, p)) in
              let r =
                bits_lem bits (suc nsh) (w / 2) (add_row nsh 0 0 n1 rs) (omega arith) half a.words
                  (omega (arith, a.size)) (omega (arith, p, a.val)) in
              rw (z, y)
                (record {
                  words = r.words;
                  size = r.size ∙ a.size;
                  val = omega (arith, r.val, p, a.val);
                })
        ]
      ]

  -- A row for each word of the second number.
  pub rows_lem :
      (n2 rs : List ℕ)
      → IsWords n2
      → IsWords rs
      → 1 ≤ length n1
      → value n1 < low_pow n1
      → length n1 + length n2 ≤ length rs
      → value rs ≤ value n1
      → Row rs (mul_rows n1 n2 rs) (value rs + value n1 * value n2)
  unfolding mul_rows
  rows_lem [] rs v w one small l b = record { words = w; size = refl; val = omega arith }
  rows_lem (x ∷ n2) rs v w one small l b =
      let most : value n1 * x ≤ value n1 * (2 ^ 64 - 1) =
        mul-le-mul_left (value n1) (omega (arith, v.0)) in
      let m : value rs + 2 ^ 0 * x * value n1 < base_pow n1 =
        omega (arith, most, base_pow_split n1 one) in
      let r = bits_lem 64 0 x rs (omega arith) v.0 w (omega arith) m in
      elim (List-cases (mul_bits 64 0 x n1 rs)) [
        | inl e ↦ absurd (omega (arith, r.size, ap length e))
        | inr (d, ds, e) ↦
            let out : IsWords (d ∷ ds) = subst IsWords e r.words in
            let sum : d + 2 ^ 64 * value ds ≡ value rs + 2 ^ 0 * x * value n1 =
              sym (ap value e) ∙ r.val in
            let size : suc (length ds) ≡ length rs = sym (ap length e) ∙ r.size in
            let i =
              rows_lem n2 ds v.1 out.1 one small (omega (arith, size)) (omega (arith, sum, most)) in
            rw (e, mul_rows)
              (record {
                words = (out.0, i.words);
                size = omega (arith, size, i.size);
                val = omega (arith, i.val, sum);
              })
      ]
