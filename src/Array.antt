-- ===== src/Array.antt =====
-- The growable arrays of datastructures.c. An `array_ds` is a used block whose first two words
-- are `used_sz` and `item_sz`; the items lie behind them, `item_sz` words each.
pub mod Items
pub mod Append
pub mod Find
use lisp_machine.Common.{ℕ, zero, suc, ◌+◌, ◌-◌, ◌*◌, ◌/◌, Bool, ltb}
use lisp_machine.Common.{if◌then◌else◌, Option, none, some, List, [], ◌∷◌, get_or, set}
use lisp_machine.Word.{add_word, sub_word, mul_word}
use lisp_machine.Memory.{Block, Allocator, mem_sz, get_mem_sz, realloc}
use lisp_machine.Memory.Words.{read_words, write_words}

-- `sizeof(Array)/sizeof(word) - 1`
abbrev pub array_bsz : ℕ
array_bsz = 2

abbrev pub used_sz : Block → ℕ
used_sz b = get_or b.words 0 0

abbrev pub item_sz : Block → ℕ
item_sz b = get_or b.words 1 0

abbrev pub set_used_sz : Block → ℕ → Block
set_used_sz b n = record b { words = set b.words 0 n }

abbrev pub set_item_sz : Block → ℕ → Block
set_item_sz b n = record b { words = set b.words 1 n }

-- The words of the item that starts `off` words behind the handle.
abbrev pub item_at : Block → ℕ → List ℕ
item_at b off = read_words b.words (array_bsz + off) (item_sz b)

unfoldable pub array_capacity : Block → ℕ
array_capacity b = (mem_sz b - array_bsz - 1) / item_sz b

unfoldable pub array_len : Block → ℕ
array_len b = used_sz b / item_sz b

-- `array_find`, from `off` on. `eq_fn` is given the words of the item that is looked for and those
-- of an item of the array, and has `extra_params` in it. Places are offsets from the first item.
-- No more rounds are needed than the array has items, since a pointer before the array's end moves
-- on by one item in each.
unfoldable pub find_from : Block → (List ℕ → List ℕ → Bool) → List ℕ → ℕ → ℕ → Option ℕ
find_from b eq_fn item zero off = none
find_from b eq_fn item (suc rounds) off =
    let rest = find_from b eq_fn item rounds (off + item_sz b) in
    if ltb off (array_len b * item_sz b)
    then (if eq_fn item (item_at b off) then some off else rest)
    else none

unfoldable pub array_find : Block → ℕ → List ℕ → (List ℕ → List ℕ → Bool) → Option ℕ
array_find b start item eq_fn = find_from b eq_fn item (array_len b) start

-- The loop that stores the `item_sz` words behind `item`, and the new `used_sz`.
unfoldable pub store_item : Block → List ℕ → Block
store_item b item =
    set_used_sz
      (record b {
        words = write_words b.words (array_bsz + used_sz b) (read_words item 0 (item_sz b));
      })
      (add_word (used_sz b) (item_sz b))

module _ (a : Allocator) where
  open a use {Heap, alloc, free}

  unfoldable pub array : Heap → ℕ → ℕ → Option (Block × Heap)
  array h size item_sz = elim (alloc h (add_word (mul_word size item_sz) array_bsz)) [
    | none ↦ none
    | some (mem, h') ↦ some (set_item_sz (set_used_sz mem 0) item_sz, h')
  ]

  unfoldable pub array_resize : Heap → Block → ℕ → Option (Block × Heap)
  array_resize h b new_size = realloc a h b (add_word array_bsz (mul_word new_size (item_sz b)))

  unfoldable pub array_append : Heap → Block → List ℕ → Option (Block × Heap)
  array_append h b item =
      let true_mem_sz = get_mem_sz b in
      let words_held = sub_word true_mem_sz array_bsz in
      if ltb words_held (add_word (used_sz b) (item_sz b))
      then elim (realloc a h b (add_word (add_word true_mem_sz (words_held / 2)) (item_sz b))) [
        | none ↦ none
        | some (b', h') ↦ some (store_item b' item, h')
      ]
      else some (store_item b item, h)

  -- `str` holds the bytes up to the terminator.
  unfoldable pub array_append_str : Heap → Block → List ℕ → Option Block × Heap
  array_append_str h b [] = (some b, h)
  array_append_str h b (x ∷ str) = elim (array_append h b (x ∷ [])) [
    | none ↦ (none, h)
    | some (b', h') ↦ array_append_str h' b' str
  ]

  unfoldable pub array_delete : Heap → Block → Heap
  array_delete h b = free h b.addr
