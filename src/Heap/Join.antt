-- ===== src/Heap/Join.antt =====
-- `avl_merge` of datastructures.c: the block joined with its neighbours and put in their place.
use mathlib.Core.Path.{subst, subst₂}
use lisp_machine.Common.{ℕ, suc, ◌+◌, ◌-◌, ◌<◌, ◌≤◌, ◌≡◌, refl, sym, ap, ◌∙◌}
use lisp_machine.Common.{Option, none, some, List, [], ◌∷◌, ◌++◌, append_assoc, arith}
use lisp_machine.Avl.{Entry, Tree, entries, height, avl_mem_cmp}
use lisp_machine.Avl.Insert.{insert_node}
use lisp_machine.Avl.Balanced.{IsBalanced, insert_node-IsBalanced}
use lisp_machine.Heap.Blocks.{
  start, end, AllFrom, AllUpTo, IsApart, total, AllClear, total-append, IsApart-IsSorted,
  IsApart-split, IsApart-append, IsApart-insert, AllFrom-weaken, AllUpTo-weaken, AllUpTo-AllBelow,
}
use lisp_machine.Heap.Place.{insert_between}
use lisp_machine.Heap.Merge.{Search, remove_at, join, avl_merge}
use lisp_machine.Heap.Touching.{ends_at, starts_at}
use lisp_machine.Heap.Search.{OnTheWay, neighbours_lem}
use lisp_machine.Heap.Sides.{EndsAt, StartsAt, opt, first_word, last_word, Sides, Sides-of}
use lisp_machine.Heap.Without.{without, without-below, remove_at-Without}

first_word-le : (addr : ℕ) (o : Option Entry) → EndsAt addr o → first_word addr o ≤ addr
first_word-le addr none h = omega arith
first_word-le addr (some x) h = omega arith

last_word-le : (amax : ℕ) (o : Option Entry) → StartsAt amax o → amax ≤ last_word amax o
last_word-le amax none h = omega arith
last_word-le amax (some y) h = omega arith

module _ (addr size : ℕ) (pos : 0 < size) (es : List Entry) (s : Sides addr size pos es) where
  -- A tree of the blocks further off, with one block put between them.
  record Joined (words : ℕ) (t : Tree) : Type 0 where
    bal : IsBalanced t
    apart : IsApart (entries t)
    sum : total (entries t) ≡ total s.lo + (total s.hi + words)

  place :
      (tr : Tree) (e : Entry)
      → IsBalanced tr
      → entries tr ≡ s.lo ++ s.hi
      → start e ≡ first_word addr s.before
      → end e ≡ last_word (addr + size) s.after
      → Joined e.data_word (insert_node avl_mem_cmp tr e).1
  place tr e bal eq first last =
      let le = first_word-le addr s.before s.touch_before in
      let ge = last_word-le (addr + size) s.after s.touch_after in
      let low = AllUpTo-weaken (first_word addr s.before) (start e) s.lo (omega arith) s.low in
      let high =
        AllFrom-weaken (end e) (last_word (addr + size) s.after) s.hi (omega arith) s.high in
      let high' = AllFrom-weaken (start e) (end e) s.hi (omega arith) high in
      let off = IsApart-append (start e) s.lo s.hi low s.apart_lo high' s.apart_hi in
      let placed =
        insert_between tr e s.lo s.hi eq (IsApart-IsSorted (s.lo ++ s.hi) off)
          (AllUpTo-AllBelow (start e) s.lo low) high' in
      record {
        bal = insert_node-IsBalanced avl_mem_cmp e tr bal;
        apart =
            subst (λ ts. IsApart ts) (sym placed)
              (IsApart-insert s.lo e s.hi low s.apart_lo high s.apart_hi);
        sum = ap (λ ts. total ts) placed ∙ omega (arith, total-append s.lo (e ∷ s.hi));
      }

-- The words of the blocks that touch.
abbrev words_in : Option Entry → ℕ
words_in none = 0
words_in (some x) = x.data_word

total-whole :
    (lo hi : List Entry) (before after : Option Entry)
    → total (lo ++ (opt before ++ (opt after ++ hi)))
      ≡ total lo + (total hi + (words_in before + words_in after))
total-whole lo hi none none = omega (arith, total-append lo hi)
total-whole lo hi none (some y) = omega (arith, total-append lo (y ∷ hi))
total-whole lo hi (some x) none = omega (arith, total-append lo (x ∷ hi))
total-whole lo hi (some x) (some y) = omega (arith, total-append lo (x ∷ y ∷ hi))

-- One block leaves the tree.
record Left (t : Tree) (es : List Entry) : Type 0 where
  bal : IsBalanced t
  rest : entries t ≡ es
  apart : IsApart (entries t)

remove_block :
    (t : Tree) (xs : List Entry) (y : Entry) (ys : List Entry)
    → Left t (xs ++ (y ∷ ys))
    → Left (remove_at t (start y)) (xs ++ ys)
remove_block t xs y ys h =
    let (low, sx, high, sy) = IsApart-split xs y ys (subst (λ es. IsApart es) h.rest h.apart) in
    let w = remove_at-Without t (start y) h.bal (IsApart-IsSorted (entries t) h.apart) in
    let rest : entries (remove_at t (start y)) ≡ xs ++ ys =
      w.rest
      ∙ ap (λ es. without (start y) es) h.rest
      ∙ without-below (start y) xs y ys (AllUpTo-AllBelow (start y) xs low) refl in
    record {
      bal = w.bal;
      rest = rest;
      apart =
          subst (λ es. IsApart es) (sym rest)
            (IsApart-append (start y) xs ys low sx
              (AllFrom-weaken (start y) (end y) ys (omega arith) high) sy);
    }

-- The heap's tree after the block has come back.
pub record Merged (t : Tree) (size : ℕ) (t' : Tree) : Type 0 where
  pub balanced : IsBalanced t'
  pub apart : IsApart (entries t')
  pub conserved : total (entries t') ≡ total (entries t) + size

module _ (addr size : ℕ) (pos : 0 < size) (t : Tree) where
  -- The four ways in which neighbours may touch.
  join-Merged :
      (before after : Option Entry) (tree : Tree) (lo hi : List Entry)
      → Left t (lo ++ (opt before ++ (opt after ++ hi)))
      → AllUpTo (first_word addr before) lo
      → AllFrom (last_word (addr + size) after) hi
      → IsApart lo
      → IsApart hi
      → EndsAt addr before
      → StartsAt (addr + size) after
      → ends_at addr (entries t) ≡ before
      → starts_at (addr + size) (entries t) ≡ after
      → Merged t size
          (join t addr size (record { before_it = before; behind_it = after; tree = tree }))
  unfolding join
  join-Merged before after tree lo hi h low high al ah tb ta e f =
      go before after h low high tb ta e f
    where
      finish :
          (before after : Option Entry) {words : ℕ} {t' : Tree}
          (s : Sides addr size pos (entries t))
          → s.lo ≡ lo
          → s.hi ≡ hi
          → Joined addr size pos (entries t) s words t'
          → entries t ≡ lo ++ (opt before ++ (opt after ++ hi))
          → words ≡ size + (words_in before + words_in after)
          → Merged t size t'
      finish before after s el eh j whole w = record {
        balanced = j.bal;
        apart = j.apart;
        conserved = omega (
          arith,
          j.sum,
          ap (λ es. total es) el,
          ap (λ es. total es) eh,
          ap (λ es. total es) whole,
          total-whole lo hi before after,
        );
      }

      go :
          (before after : Option Entry)
          → Left t (lo ++ (opt before ++ (opt after ++ hi)))
          → AllUpTo (first_word addr before) lo
          → AllFrom (last_word (addr + size) after) hi
          → EndsAt addr before
          → StartsAt (addr + size) after
          → ends_at addr (entries t) ≡ before
          → starts_at (addr + size) (entries t) ≡ after
          → Merged t size
              (join t addr size (record { before_it = before; behind_it = after; tree = tree }))
      go none none h low high tb ta e f =
          let s : Sides addr size pos (entries t) = record {
            lo = lo;
            before = none;
            after = none;
            hi = hi;
            whole = h.rest;
            low = low;
            high = high;
            apart_lo = al;
            apart_hi = ah;
            touch_before = tb;
            touch_after = ta;
            ends = e;
            starts = f;
          } in
          finish none none s refl refl
            (place addr size pos (entries t) s t (record { addr = addr; data_word = size }) h.bal
              h.rest refl refl)
            h.rest (omega arith)
      go none (some y) h low high tb ta e f =
          let s : Sides addr size pos (entries t) = record {
            lo = lo;
            before = none;
            after = some y;
            hi = hi;
            whole = h.rest;
            low = low;
            high = high;
            apart_lo = al;
            apart_hi = ah;
            touch_before = tb;
            touch_after = ta;
            ends = e;
            starts = f;
          } in
          let t1 = remove_block t lo y hi h in
          finish none (some y) s refl refl
            (place addr size pos (entries t) s (remove_at t (start y))
              (record { addr = addr; data_word = size + y.data_word }) t1.bal t1.rest refl
              (omega arith))
            h.rest (omega arith)
      go (some x) none h low high tb ta e f =
          let s : Sides addr size pos (entries t) = record {
            lo = lo;
            before = some x;
            after = none;
            hi = hi;
            whole = h.rest;
            low = low;
            high = high;
            apart_lo = al;
            apart_hi = ah;
            touch_before = tb;
            touch_after = ta;
            ends = e;
            starts = f;
          } in
          let t1 = remove_block t lo x hi h in
          finish (some x) none s refl refl
            (place addr size pos (entries t) s (remove_at t (start x))
              (record { addr = addr - x.data_word; data_word = size + x.data_word }) t1.bal t1.rest
              (omega arith) (omega arith))
            h.rest (omega arith)
      go (some x) (some y) h low high tb ta e f =
          let s : Sides addr size pos (entries t) = record {
            lo = lo;
            before = some x;
            after = some y;
            hi = hi;
            whole = h.rest;
            low = low;
            high = high;
            apart_lo = al;
            apart_hi = ah;
            touch_before = tb;
            touch_after = ta;
            ends = e;
            starts = f;
          } in
          let regroup = sym (append_assoc lo (x ∷ []) (y ∷ hi)) in
          let t1 =
            remove_block t (lo ++ (x ∷ [])) y hi
              (record { bal = h.bal; rest = h.rest ∙ regroup; apart = h.apart }) in
          let t2 = remove_block (remove_at t (start y)) lo x hi (record {
            bal = t1.bal;
            rest = t1.rest ∙ append_assoc lo (x ∷ []) hi;
            apart = t1.apart;
          }) in
          finish (some x) (some y) s refl refl
            (place addr size pos (entries t) s (remove_at (remove_at t (start y)) (start x))
              (record { addr = addr - x.data_word; data_word = size + y.data_word + x.data_word })
              t2.bal t2.rest (omega arith) (omega arith))
            h.rest (omega arith)

  -- `avl_merge` of a block that no free block overlaps: the tree stays balanced, its blocks stay
  -- in order with used words between any two, and no word is lost or counted twice.
  pub avl_merge_lem :
      IsBalanced t
      → IsApart (entries t)
      → AllClear addr size (entries t)
      → Merged t size (avl_merge t addr size)
  unfolding avl_merge
  avl_merge_lem bal h clear =
      let s = Sides-of addr size pos (entries t) h clear in
      let begin : Search = record { before_it = none; behind_it = none; tree = t } in
      let way : OnTheWay addr size pos begin = record {
        apart = h;
        clear = clear;
        found_before = λ f. absurd (f refl);
        found_behind = λ f. absurd (f refl);
      } in
      let (s', ran, ended) =
        neighbours_lem addr size pos (suc (height t)) begin way (omega arith) in
      let b : s'.before_it ≡ s.before = ended.before_found ∙ s.ends in
      let a : s'.behind_it ≡ s.after = ended.behind_found ∙ s.starts in
      let merged =
        join-Merged s.before s.after s'.tree s.lo s.hi
          (record { bal = bal; rest = s.whole; apart = h }) s.low s.high s.apart_lo s.apart_hi
          s.touch_before s.touch_after s.ends s.starts in
      rw (ran, avl_merge)
        (subst₂
          (λ o p.
            Merged t size
              (join t addr size (record { before_it = o; behind_it = p; tree = s'.tree })))
          (sym b) (sym a) merged)
