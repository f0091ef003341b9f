-- ===== src/Array/Append.antt =====
-- `array_append` of datastructures.c, with the growth of the block.
use mathlib.Core.Option.{some-injective}
use mathlib.Core.Path.{subst}
use lisp_machine.Common.{
  ℕ, zero, suc, ◌+◌, ◌-◌, ◌*◌, ◌/◌, ◌≤◌, ◌<◌, ◌^◌, inl, inr, min, ◌≡◌, refl, sym, ap, ap₂, ◌∙◌,
}
use lisp_machine.Common.{ltb, Bool-cases, Option, none, some, Option-cases}
use lisp_machine.Common.{List, [], ◌∷◌, ◌++◌, length, get_or, arith}
use lisp_machine.Word.{add_word, sub_word}
use lisp_machine.Memory.{Block, Allocator, mem_sz, get_mem_sz, realloc}
use lisp_machine.Memory.Words.{read_words, copy_words, length-copy_words, get_or-copy_words_inside}
use lisp_machine.Array.{array_bsz, used_sz, item_sz, array_len, array_append, store_item}
use lisp_machine.Array.Items.{items, rows, rows-eq, IsValid, store_item_lem}

read_words-eq :
    (ws vs : List ℕ) (i n : ℕ)
    → ((j : ℕ) → j < i + n → get_or ws j 0 ≡ get_or vs j 0)
    → read_words ws i n ≡ read_words vs i n
unfolding read_words
read_words-eq ws vs i zero h = refl
read_words-eq ws vs i (suc n) h =
    ap₂ ◌∷◌ (h i (omega arith)) (read_words-eq ws vs (i + 1) n (λ j p. h j (omega arith)))

-- A block that begins with the words of an array holds the same items.
moved_lem :
    {isz : ℕ} (b b' : Block)
    → IsValid isz b
    → length b.words ≤ length b'.words
    → ((j : ℕ) → j < length b.words → get_or b'.words j 0 ≡ get_or b.words j 0)
    → IsValid isz b' × (items b' ≡ items b)
unfolding array_len
moved_lem {isz} b b' v more same =
    let two : 2 ≤ length b.words = omega (arith, v.fits) in
    let size_eq : item_sz b' ≡ item_sz b = same 1 (omega arith) in
    let used_eq : used_sz b' ≡ used_sz b = same 0 (omega arith) in
    let len_eq : array_len b' ≡ array_len b = ap₂ (λ x y. x / y) used_eq size_eq in
    (
      record {
        size = size_eq ∙ v.size;
        pos = v.pos;
        used = used_eq ∙ v.used ∙ ap (λ n. n * isz) (sym len_eq);
        fits = omega (arith, v.fits);
      },
      (λ j. rows b'.words (size_eq j) array_bsz (len_eq j))
          ∙ rows-eq b'.words b.words (item_sz b) array_bsz (array_len b) (λ i p q.
            read_words-eq b'.words b.words i (item_sz b)
              (λ j r. same j (omega (arith, v.fits, v.used, ap (λ t. array_len b * t) v.size)))),
    )

module _ (a : Allocator) where
  open a use {Heap, alloc}

  -- What `realloc` gives has the words asked for, and the old words first.
  abbrev Extends : Block → ℕ → Block × Heap → Type 0
  Extends b n (b', h') =
      (n ≤ length b'.words)
      × ((j : ℕ) → j < length b.words → get_or b'.words j 0 ≡ get_or b.words j 0)

  realloc_lem :
      (h : Heap) (b : Block) (n : ℕ) (r : Block × Heap)
      → length b.words ≤ n
      → n + 1 < 2 ^ 64
      → realloc a h b n ≡ some r
      → Extends b n r
  unfolding realloc
  realloc_lem h b n r le lt e = elim (Option-cases (alloc h n)) [
    | inl refused ↦ (let bad : none ≡ some r = rw (refused, realloc) at e in absurd (cc))
    | inr ((new, h'), granted) ↦
        (let enough : n ≤ length new.words = a.granted h n lt granted in
          let count = min (mem_sz b - 1) n in
          let copied : count ≡ length b.words = omega arith in
          let ws = copy_words count 0 b.words new.words in
          let same : some (record new { words = ws }, a.free h' b.addr) ≡ some r =
            rw (granted, realloc) at e in
          subst (λ r. Extends b n r) (some-injective _ _ same)
            (
              omega (arith, length-copy_words count 0 b.words new.words),
              λ j p.
                  get_or-copy_words_inside count 0 j b.words new.words (omega arith) (omega arith)
                    (omega arith),
            ))
  ]

  abbrev Appended : ℕ → Block → List ℕ → Block × Heap → Type 0
  Appended isz b item (b', h') =
      IsValid isz b' × (items b' ≡ items b ++ (read_words item 0 isz ∷ []))

  -- An append that is not refused leaves the items that were there, whether or not the block
  -- had to grow, and puts the new item behind them, for a block so small that the size it would
  -- grow to, with its size word, is a word.
  pub append-items :
      {isz : ℕ} (h : Heap) (b : Block) (item : List ℕ) {b' : Block} {h' : Heap}
      → IsValid isz b
      → length b.words + length b.words / 2 + isz + 1 < 2 ^ 64
      → array_append a h b item ≡ some (b', h')
      → IsValid isz b' × (items b' ≡ items b ++ (read_words item 0 isz ∷ []))
  unfolding array_append
  append-items {isz} h b item {b'} {h'} v small e =
      let held = sub_word (get_mem_sz b) array_bsz in
      let n = add_word (add_word (get_mem_sz b) (held / 2)) (item_sz b) in
      let held_eq : held ≡ length b.words - 2 = omega (arith, v.fits, small) in
      let n_eq : n ≡ length b.words + (length b.words - 2) / 2 + isz =
        omega (arith, v.size, held_eq, small) in
      let sum : used_sz b + isz < 2 ^ 64 = omega (arith, v.fits, small) in
      elim (Bool-cases (ltb held (add_word (used_sz b) (item_sz b)))) [
        | inr fits ↦
            (let same : Path (Option (Block × Heap)) (some (store_item b item, h)) (some (b', h')) =
                rw (fits, array_append) at e in
              subst (λ r. Appended isz b item r)
                (some-injective (store_item b item, h) (b', h') same)
                (store_item_lem b item v (ground (arith, v.size, v.fits, held_eq, sum)) sum))
        | inl full ↦ elim (Option-cases (realloc a h b n)) [
          | inl refused ↦
              (let bad : Path (Option (Block × Heap)) none (some (b', h')) =
                  rw (full, refused, array_append) at e in
                absurd (cc))
          | inr ((new, h1), granted) ↦
              (let same : Path (Option (Block × Heap)) (some (store_item new item, h1))
                    (some (b', h')) =
                  rw (full, granted, array_append) at e in
                let (more, words) =
                  realloc_lem h b n (new, h1) (omega (arith, n_eq)) (omega (arith, n_eq, small))
                    granted in
                let (v', kept) = moved_lem b new v (omega arith) words in
                let used : used_sz new ≡ used_sz b = words 0 (omega (arith, v.fits)) in
                let (v2, added) =
                  store_item_lem new item v'
                    (omega (arith, v.fits, v.size, v.pos, used, n_eq, more))
                    (omega (arith, used, sum)) in
                subst (λ r. Appended isz b item r)
                  (some-injective (store_item new item, h1) (b', h') same)
                  (v2, added ∙ ap (λ r. r ++ (read_words item 0 isz ∷ [])) kept))
        ]
      ]
