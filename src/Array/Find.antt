-- ===== src/Array/Find.antt =====
-- `array_find` of datastructures.c.
use lisp_machine.Common.{
  ℕ, zero, suc, ◌+◌, ◌*◌, ◌≡◌, refl, ap, ap₂, sym, ◌∙◌, ◌-◌, ◌<◌, ◌≤◌, ◌⊎◌, ltb, lt→ltb, true,
  false, drop, Bool, if◌then◌else◌, Bool-cases,
}
use lisp_machine.Common.{inl, inr, Option, none, some, List, [], ◌∷◌, arith}
use lisp_machine.Memory.{Block}
use lisp_machine.Array.{item_sz, array_len, item_at, find_from, array_find, array_bsz}
use lisp_machine.Array.Items.{rows, items}
use mathlib.Core.Option.{map}

-- The first item that passes a test, as its index.
unfoldable pub first_index : (List ℕ → Bool) → List (List ℕ) → Option ℕ
first_index test [] = none
first_index test (x ∷ xs) =
    let rest = map suc (first_index test xs) in if test x then some 0 else rest

le_total : (m n : ℕ) → (m ≤ n) ⊎ (n ≤ m)
le_total m n = ground arith

map_shift :
    (isz off : ℕ) (o : Option ℕ)
    → map (λ i. off + isz + i * isz) o ≡ map (λ i. off + i * isz) (map suc o)
map_shift isz off none = refl
map_shift isz off (some i) = ap some (grind arith)

-- A find that begins at the item `i`, with as many rounds as there are items behind it or more.
find_from_lem :
    (b : Block) (eq_fn : List ℕ → List ℕ → Bool) (item : List ℕ) (rounds n i : ℕ)
    → 0 < item_sz b
    → n ≤ rounds
    → i + n ≡ array_len b
    → find_from b eq_fn item rounds (i * item_sz b)
      ≡ map
          (λ j. i * item_sz b + j * item_sz b)
          (first_index (λ x. eq_fn item x) (rows b.words (item_sz b) (array_bsz + i * item_sz b) n))
unfolding find_from first_index
find_from_lem b eq_fn item zero zero i pos le e = refl
find_from_lem b eq_fn item zero (suc n) i pos le e = absurd (omega arith)
find_from_lem b eq_fn item (suc rounds) zero i pos le e =
    let end : ltb (i * item_sz b) (array_len b * item_sz b) ≡ false =
      ground (arith, ap (λ t. t * item_sz b) e) in
    rw (end, find_from) refl
find_from_lem b eq_fn item (suc rounds) (suc n) i pos le e =
    let isz = item_sz b in
    let room : i * isz < array_len b * isz = grind arith in
    let inside : ltb (i * isz) (array_len b * isz) ≡ true =
      lt→ltb (i * isz) (array_len b * isz) room in
    let next : i * isz + isz ≡ suc i * isz = omega arith in
    elim (Bool-cases (eq_fn item (item_at b (i * isz)))) [
      | inl hit ↦ rw (inside, hit) (ap some (omega arith))
      | inr other ↦
          rw (inside, other)
            (ap (λ off. find_from b eq_fn item rounds off) next
              ∙ find_from_lem b eq_fn item rounds n (suc i) pos (omega arith) (omega arith)
              ∙ ap₂ (λ off o. map (λ j. off + j * isz) o) (sym next)
                  (ap (λ k. first_index (λ x. eq_fn item x) (rows b.words isz k n)) (omega arith))
              ∙ map_shift isz (i * isz) (
                  first_index (λ x. eq_fn item x) (rows b.words isz (array_bsz + i * isz + isz) n)))
    ]

-- The rows behind the first ones, and no match behind the end.
rows-drop :
    (ws : List ℕ) (isz off i n m : ℕ)
    → i + n ≡ m
    → rows ws isz (off + i * isz) n ≡ drop i (rows ws isz off m)
rows-drop ws isz off zero n m e =
    let at : off + 0 * isz ≡ off = omega arith in
    let all : n ≡ m = omega (arith, e) in ap₂ (λ k r. rows ws isz k r) at all
rows-drop ws isz off (suc i) n zero e = absurd (omega (arith, e))
rows-drop ws isz off (suc i) n (suc m) e =
    ap (λ k. rows ws isz k n) {y = off + isz + i * isz} (omega arith)
    ∙ rows-drop ws isz (off + isz) i n m (omega (arith, e))

drop-rows_all : (ws : List ℕ) (isz off i n : ℕ) → n ≤ i → drop i (rows ws isz off n) ≡ []
drop-rows_all ws isz off zero zero h = refl
drop-rows_all ws isz off zero (suc n) h = absurd (omega arith)
drop-rows_all ws isz off (suc i) zero h = refl
drop-rows_all ws isz off (suc i) (suc n) h = drop-rows_all ws isz (off + isz) i n (omega arith)

find_from-behind :
    (b : Block) (eq_fn : List ℕ → List ℕ → Bool) (item : List ℕ) (rounds off : ℕ)
    → array_len b * item_sz b ≤ off
    → find_from b eq_fn item rounds off ≡ none
unfolding find_from
find_from-behind b eq_fn item zero off h = refl
find_from-behind b eq_fn item (suc rounds) off h =
    let end : ltb off (array_len b * item_sz b) ≡ false = ground arith in rw (end, find_from) refl

-- `array_find` from the item `i` on gives the place of the first item there that the test accepts,
-- or the null pointer, for items of a word at least.
pub array_find_lem :
    (b : Block) (i : ℕ) (eq_fn : List ℕ → List ℕ → Bool) (item : List ℕ)
    → 0 < item_sz b
    → array_find b (i * item_sz b) item eq_fn
      ≡ map
          (λ j. i * item_sz b + j * item_sz b)
          (first_index (λ x. eq_fn item x) (drop i (items b)))
unfolding array_find first_index
array_find_lem b i eq_fn item pos =
    let isz = item_sz b in
    let len : ℕ = array_len b in
    let shown =
      λ (o : List (List ℕ)). map (λ j. i * isz + j * isz) (first_index (λ x. eq_fn item x) o) in
    elim (le_total i len) [
      | inl le ↦
          let e : i + (len - i) ≡ len = omega arith in
          find_from_lem b eq_fn item len (len - i) i pos (omega arith) e
          ∙ ap shown (rows-drop b.words isz array_bsz i (len - i) len e)
      | inr ge ↦
          let out : len * isz ≤ i * isz = grind arith in
          find_from-behind b eq_fn item len (i * isz) out
          ∙ sym (ap shown (drop-rows_all b.words isz array_bsz i len ge))
    ]
