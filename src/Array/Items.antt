-- ===== src/Array/Items.antt =====
-- A growable array seen as the list of its items.
use native.Mathlib.Nat.{mul-div_cancel}
use lisp_machine.Common.{
  ℕ, zero, suc, ◌+◌, ◌*◌, ◌/◌, ◌≤◌, ◌<◌, ◌^◌, inr, ◌≡◌, refl, sym, ap, ap₂, ◌∙◌,
}
use lisp_machine.Common.{
  List, [], ◌∷◌, ◌++◌, length, get_or, set, length-set, get_or-set_self, get_or-set_ne, arith,
}
use lisp_machine.Word.{add_word}
use lisp_machine.Memory.{Block}
use lisp_machine.Memory.Words.{read_words, write_words, length-write_words, length-read_words}
use lisp_machine.Memory.Words.{read_words-write_words_self, read_words-write_words_outside}
use lisp_machine.Memory.Words.{get_or-write_words_outside}
use lisp_machine.Array.{array_bsz, used_sz, item_sz, array_len, store_item}

-- `n` items of `isz` words from offset `off` on.
abbrev pub rows : List ℕ → ℕ → ℕ → ℕ → List (List ℕ)
rows ws isz off zero = []
rows ws isz off (suc n) = read_words ws off isz ∷ rows ws isz (off + isz) n

abbrev pub items : Block → List (List ℕ)
items b = rows b.words (item_sz b) array_bsz (array_len b)

-- Items of `isz` words that fill the used part, which lies inside the block.
pub record IsValid (isz : ℕ) (b : Block) : Type 0 where
  pub size : item_sz b ≡ isz
  pub pos : 0 < isz
  pub used : used_sz b ≡ array_len b * isz
  pub fits : array_bsz + used_sz b ≤ length b.words

-- What two blocks have in common where they agree.
pub rows-eq :
    (ws vs : List ℕ) (isz off n : ℕ)
    → ((i : ℕ) → off ≤ i → i + isz ≤ off + n * isz → read_words ws i isz ≡ read_words vs i isz)
    → rows ws isz off n ≡ rows vs isz off n
rows-eq ws vs isz off zero h = refl
rows-eq ws vs isz off (suc n) h =
    ap₂ ◌∷◌ (h off (omega arith) (grind arith))
      (rows-eq ws vs isz (off + isz) n (λ i p q. h i (omega arith) (grind arith)))

rows-snoc :
    (ws : List ℕ) (isz off n : ℕ)
    → rows ws isz off (suc n) ≡ rows ws isz off n ++ (read_words ws (off + n * isz) isz ∷ [])
rows-snoc ws isz off zero = ap (λ i. read_words ws i isz ∷ []) (omega arith)
rows-snoc ws isz off (suc n) =
    ap (λ r. read_words ws off isz ∷ r)
      (rows-snoc ws isz (off + isz) n
        ∙ ap (λ i. rows ws isz (off + isz) n ++ (read_words ws i isz ∷ [])) (grind arith))

read_words-set_first :
    (ws : List ℕ) (v i n : ℕ) → 0 < i → read_words (set ws 0 v) i n ≡ read_words ws i n
unfolding write_words
read_words-set_first ws v i n h =
    read_words-write_words_outside ws 0 i n (v ∷ []) (inr (omega arith))

-- Storing an item that fits puts it behind the others.
pub store_item_lem :
    {isz : ℕ} (b : Block) (item : List ℕ)
    → IsValid isz b
    → array_bsz + used_sz b + isz ≤ length b.words
    → used_sz b + isz < 2 ^ 64
    → IsValid isz (store_item b item)
      × (items (store_item b item) ≡ items b ++ (read_words item 0 isz ∷ []))
unfolding store_item array_len
store_item_lem {isz} b item v room small =
    let n = array_len b in
    let off = array_bsz + used_sz b in
    let xs = read_words item 0 (item_sz b) in
    let ws = write_words b.words off xs in
    let used' = add_word (used_sz b) (item_sz b) in
    let sum : used' ≡ used_sz b + item_sz b = omega (arith, small, v.size) in
    let len_xs : length xs ≡ isz = length-read_words item 0 (item_sz b) ∙ v.size in
    let len_ws : length ws ≡ length b.words = length-write_words b.words off xs in
    let ws' = set ws 0 used' in
    let used_eq : get_or ws' 0 0 ≡ used' = get_or-set_self ws 0 used' 0 (omega arith) in
    let size' : get_or ws' 1 0 ≡ isz =
      get_or-set_ne ws 0 1 used' 0 (omega arith)
      ∙ get_or-write_words_outside b.words off 1 xs (omega arith)
      ∙ v.size in
    let next : used' ≡ suc n * isz = grind arith in
    let len' : array_len (store_item b item) ≡ suc n =
      ap₂ (λ x y. x / y) used_eq size' ∙ ap (λ t. t / isz) next ∙ mul-div_cancel (suc n) v.pos in
    let kept : (i : ℕ)
        → array_bsz ≤ i
        → i + isz ≤ array_bsz + n * isz
        → read_words ws' i isz ≡ read_words b.words i isz =
      λ i p q.
        read_words-set_first ws used' i isz (omega arith)
        ∙ read_words-write_words_outside b.words off i isz xs (omega arith) in
    let stored : read_words ws' (array_bsz + n * isz) isz ≡ read_words item 0 isz =
      read_words-set_first ws used' (array_bsz + n * isz) isz (omega arith)
      ∙ ap₂ (λ i m. read_words ws i m) (omega arith) (sym len_xs)
      ∙ read_words-write_words_self b.words off xs (omega arith)
      ∙ ap (λ m. read_words item 0 m) v.size in
    (
      record {
        size = size';
        pos = v.pos;
        used = used_eq ∙ next ∙ ap (λ t. t * isz) (sym len');
        fits = omega (arith, length-set ws 0 used');
      },
      (λ j. rows ws' (size' j) array_bsz (len' j))
          ∙ rows-snoc ws' isz array_bsz n
          ∙ ap₂ (λ r w. r ++ (w ∷ [])) (rows-eq ws' b.words isz array_bsz n kept) stored
          ∙ ap (λ m. rows b.words m array_bsz n ++ (read_words item 0 isz ∷ [])) (sym v.size),
    )
