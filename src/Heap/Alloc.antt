-- ===== src/Heap/Alloc.antt =====
-- `alloc` of alloc.c takes words from one free block and from nowhere else.
use mathlib.Core.Option.{some-injective}
use mathlib.Core.Path.{subst, subst₂}
use lisp_machine.Common.{
  ℕ, ◌+◌, ◌-◌, ◌<◌, ◌≤◌, ◌≡◌, refl, sym, ap, ◌∙◌, inl, inr, leb, ==_refl, Bool-cases,
}
use lisp_machine.Common.{Option, none, some, Option-cases, [], ◌∷◌, ◌++◌, arith}
use lisp_machine.Word.{word_mod, add_word}
use lisp_machine.Avl.{Entry, Tree, plug, entries, avl_mem_cmp}
use lisp_machine.Avl.Insert.{insert_node}
use lisp_machine.Avl.Delete.{Spot, avl_min_ge, remove_spot}
use lisp_machine.Avl.Sorted.{AllBelow}
use lisp_machine.Avl.Balanced.{IsBalanced, insert_node-IsBalanced}
use lisp_machine.Avl.DeleteOrder.{lower, upper}
use lisp_machine.Avl.Remove.{remove_spot-entries, remove_spot-IsBalanced}
use lisp_machine.Heap.Fit.{Fitting, FittingSome, avl_min_ge-Fitting, avl_min_ge-none}
use lisp_machine.Heap.Place.{insert_between}
use lisp_machine.Heap.{Heap, umds_sz, min_alloc_sz, request, taken_sz, split_block, set_size, alloc}
use lisp_machine.Heap.Blocks.{
  start, end, IsApart, total, AllClear, total-append, IsApart-split, IsApart-append, IsApart-insert,
  IsApart-IsSorted,
}
use lisp_machine.Heap.Blocks.{
  AllFrom-weaken, AllUpTo-weaken, AllUpTo-AllBelow, AllClear-append, AllUpTo-AllClear,
  AllFrom-AllClear,
}

-- A heap whose free blocks stand in a balanced tree, in order and apart from each other.
pub record IsHeap (h : Heap) : Type 0 where
  pub balanced : IsBalanced h.fmds_ptr
  pub apart : IsApart (entries h.fmds_ptr)

-- The tree after a block of `size` words has been taken from the front of a node's block: the
-- other blocks are as they were, and the words behind the taken ones are free still.
record Taken (size : ℕ) (s : Spot) (t : Tree) : Type 0 where
  bal : IsBalanced t
  apart : IsApart (entries t)
  words_kept : total (entries t) + size ≡ total (lower s ++ (s.entry ∷ upper s))
  clear : AllClear (start s.entry) size (entries t)

split_block-Taken :
    (s : Spot) (size : ℕ)
    → Fitting size (lower s ++ (s.entry ∷ upper s)) s
    → IsApart (lower s ++ (s.entry ∷ upper s))
    → Taken (taken_sz s.entry.data_word size) s (split_block s size)
unfolding split_block taken_sz
split_block-Taken s size f h =
    let x = s.entry in
    let (low, sl, high, sh) = IsApart-split (lower s) x (upper s) h in
    let removed = remove_spot-entries s f.inside (IsApart-IsSorted (lower s ++ (x ∷ upper s)) h) in
    let without : IsApart (lower s ++ upper s) =
      IsApart-append (start x) (lower s) (upper s) low sl
        (AllFrom-weaken (start x) (end x) (upper s) (omega arith) high) sh in
    let sums = total-append (lower s) (upper s) in
    let sums' = total-append (lower s) (x ∷ upper s) in
    elim (Bool-cases (leb (size + min_alloc_sz) x.data_word)) [
      | inl large ↦
          (let e : Entry = record { addr = x.addr + size; data_word = x.data_word - size } in
            let fits : size + min_alloc_sz ≤ x.data_word = ground arith in
            let low' = AllUpTo-weaken (start x) (start e) (lower s) (omega arith) low in
            let high' = AllFrom-weaken (end e) (end x) (upper s) (omega arith) high in
            let placed : entries (insert_node avl_mem_cmp (remove_spot s) e).1
                ≡ lower s ++ (e ∷ upper s) =
              insert_between (remove_spot s) e (lower s) (upper s) removed
                (IsApart-IsSorted (lower s ++ upper s) without)
                (AllUpTo-AllBelow (start e) (lower s) low')
                (AllFrom-weaken (start e) (end x) (upper s) (omega arith) high) in
            rw (large, split_block, taken_sz)
              (record {
                bal =
                    insert_node-IsBalanced avl_mem_cmp e (remove_spot s)
                      (remove_spot-IsBalanced s f.inside);
                apart =
                    subst (λ es. IsApart es) (sym placed)
                      (IsApart-insert (lower s) e (upper s) low' sl high' sh);
                words_kept =
                    ap (λ es. total es + size) placed
                    ∙ omega (arith, total-append (lower s) (e ∷ upper s), sums');
                clear =
                    subst (λ es. AllClear (start x) size es) (sym placed)
                      (AllClear-append (start x) size (lower s) (e ∷ upper s)
                        (AllUpTo-AllClear (start x) size (lower s) low)
                        (
                          inr (omega arith),
                          AllFrom-AllClear (start x) size (end x) (upper s) (omega arith) high,
                        ));
              }))
      | inr small ↦
          rw (small, split_block, taken_sz)
            (record {
              bal = remove_spot-IsBalanced s f.inside;
              apart = subst (λ es. IsApart es) (sym removed) without;
              words_kept = ap (λ es. total es + x.data_word) removed ∙ omega (arith, sums, sums');
              clear =
                  subst (λ es. AllClear (start x) x.data_word es) (sym removed)
                    (AllClear-append (start x) x.data_word (lower s) (upper s)
                      (AllUpTo-AllClear (start x) x.data_word (lower s) low)
                      (AllFrom-AllClear (start x) x.data_word (end x) (upper s) (omega arith)
                        high));
            })
    ]

-- What a granted request has done to the heap.
pub record Granted (h : Heap) (n a : ℕ) (h' : Heap) : Type 0 where
  pub heap : IsHeap h'
  pub enough : n + umds_sz ≤ h'.sizes (a - umds_sz)
  pub conserved : total (entries h'.fmds_ptr) + h'.sizes (a - umds_sz) ≡ total (entries h.fmds_ptr)
  pub clear : AllClear (a - umds_sz) (h'.sizes (a - umds_sz)) (entries h'.fmds_ptr)
  pub counted : h'.words_used ≡ add_word h.words_used (h'.sizes (a - umds_sz))
  pub same_start : h'.heap_start ≡ h.heap_start
  pub same_end : h'.heap_end ≡ h.heap_end

abbrev GrantedPair : Heap → ℕ → ℕ × Heap → Type 0
GrantedPair h n (a, h') = Granted h n a h'

set_size_self : (sizes : ℕ → ℕ) (a v : ℕ) → set_size sizes a v a ≡ v
unfolding set_size
set_size_self sizes a v = rw ==_refl refl

abbrev after_alloc : Heap → ℕ → Spot → ℕ × Heap
after_alloc h n s =
    let taken = taken_sz s.entry.data_word (request n) in
    (
      s.entry.addr + umds_sz,
      record h {
        fmds_ptr = split_block s (request n);
        true_num_alloced = add_word h.true_num_alloced 1;
        words_used = add_word h.words_used taken;
        sizes = set_size h.sizes s.entry.addr taken;
      },
    )

after_alloc-Granted :
    (h : Heap) (n : ℕ) (s : Spot)
    → IsHeap h
    → n + umds_sz < word_mod
    → Fitting (request n) (entries h.fmds_ptr) s
    → GrantedPair h n (after_alloc h n s)
unfolding request taken_sz
after_alloc-Granted h n s hh small f =
    let all = lower s ++ (s.entry ∷ upper s) in
    let here : Fitting (request n) all s = record {
      inside = f.inside;
      placed = refl;
      enough = f.enough;
    } in
    let taken = taken_sz s.entry.data_word (request n) in
    let t =
      split_block-Taken s (request n) here (subst (λ es. IsApart es) (sym f.placed) hh.apart) in
    let back : s.entry.addr + umds_sz - umds_sz ≡ s.entry.addr = omega arith in
    let size : set_size h.sizes s.entry.addr taken (s.entry.addr + umds_sz - umds_sz) ≡ taken =
      ap (λ j. set_size h.sizes s.entry.addr taken j) back
      ∙ set_size_self h.sizes s.entry.addr taken in
    record {
      heap = record { balanced = t.bal; apart = t.apart };
      enough = rw size (ground (arith, f.enough));
      conserved =
          ap (λ k. total (entries (split_block s (request n))) + k) size
          ∙ t.words_kept
          ∙ ap (λ es. total es) f.placed;
      clear =
          subst₂ (λ j k. AllClear j k (entries (split_block s (request n)))) (sym back) (sym size)
            t.clear;
      counted = ap (λ k. add_word h.words_used k) (sym size);
      same_start = refl;
      same_end = refl;
    }

-- `alloc` on a heap in order: the block that it grants has the words asked for and its size
-- word, no free block overlaps it afterwards, the words of the block and of the free blocks
-- together are as many as were free before, and the heap is in order again.
pub alloc_lem :
    (h : Heap) (n : ℕ) {a : ℕ} {h' : Heap}
    → IsHeap h
    → n + umds_sz < word_mod
    → alloc h n ≡ some (a, h')
    → Granted h n a h'
unfolding alloc plug
alloc_lem h n {a} {h'} hh small e = elim (Option-cases (avl_min_ge h.fmds_ptr (request n) [])) [
  | inl refused ↦
      (let bad : Path (Option (ℕ × Heap)) none (some (a, h')) = rw (refused, alloc) at e in
        absurd (cc))
  | inr (s, found) ↦
      (let f =
          subst (λ o. FittingSome (request n) (entries h.fmds_ptr) o) found
            (avl_min_ge-Fitting h.fmds_ptr (request n) [] hh.balanced tt) in
        let same : Path (Option (ℕ × Heap)) (some (after_alloc h n s)) (some (a, h')) =
          rw (found, alloc) at e in
        subst (λ r. GrantedPair h n r) (some-injective (after_alloc h n s) (a, h') same)
          (after_alloc-Granted h n s hh small f))
]

-- `alloc` refuses only where no free block is large enough.
pub alloc-refused :
    (h : Heap) (n : ℕ)
    → alloc h n ≡ none
    → AllBelow (λ x. x.data_word) (request n) (entries h.fmds_ptr)
unfolding alloc
alloc-refused h n e = elim (Option-cases (avl_min_ge h.fmds_ptr (request n) [])) [
  | inl refused ↦ avl_min_ge-none h.fmds_ptr (request n) [] refused
  | inr (s, found) ↦
      (let bad : Path (Option (ℕ × Heap)) (some (after_alloc h n s)) none =
          rw (found, alloc) at e in
        absurd (cc))
]
