-- ===== src/Gc/FreeAlloc.antt =====
-- `gc_free` of alloc.c takes back what `gc_alloc` did to the collector's set.
use mathlib.Core.Option.{map, some-injective}
use mathlib.Core.Path.{subst, fun_ext}
use lisp_machine.Common.{
  ℕ, ◌^◌, ◌<◌, ◌==◌, ltb, ◌≡◌, refl, sym, ap, ◌∙◌, arith, inl, inr, Bool, true, false,
}
use lisp_machine.Common.{
  if◌then◌else◌, Option, none, some, List, [], ◌∷◌, Bool-cases, Option-cases, ==_refl, ==_ne,
  ltb→lt,
}
use lisp_machine.Word.{add_word}
use lisp_machine.Memory.{Allocator, Block}
use lisp_machine.Avl.{Entry, Tree, entries, avl_basic_cmp, compare_by}
use lisp_machine.Avl.Find.{found_entry, find_key, find_spot-find_key}
use lisp_machine.Avl.Sorted.{IsSorted, insert_sorted}
use lisp_machine.Avl.Order.{insert_node_lem, Inserted}
use lisp_machine.Avl.Balanced.{IsBalanced, insert_node-IsBalanced}
use lisp_machine.Avl.Insert.{insert_node}
use lisp_machine.Avl.Delete.{avl_find, find_spot, Spot}
use lisp_machine.Common.{◌++◌, ◌||◌, ◌≢◌, ap₂}
use lisp_machine.Avl.{plug}
use lisp_machine.Avl.Delete.{delete_spot}
use lisp_machine.Avl.DeleteBalanced.{InBalanced, InBalancedSome, find_spot-InBalanced}
use lisp_machine.Avl.DeleteOrder.{
  Found, FoundSome, find_spot-Found, equal_data, lower, upper, own, successor, delete_spot-Deleted,
  words, remove, delete_found_lem,
}
use lisp_machine.Avl.Nodes.{avl_insert}
use lisp_machine.Set.{set_remove}
use lisp_machine.Set.Order.{Adds, refused, placed, avl_insert-Adds}
use lisp_machine.Gc.{Gc, gc_alloc, gc_free}

abbrev pub data_of : Entry → ℕ
data_of n = n.data_word

avl_basic_cmp-eq : avl_basic_cmp ≡ compare_by data_of
unfolding avl_basic_cmp
avl_basic_cmp-eq = fun_ext (λ x. fun_ext (λ y. refl))

-- The list without what an insertion put into it.
abbrev Undone : Entry → List Entry → Option (List Entry) → Type 0
Undone e xs none = Unit
Undone e xs (some ys) = remove e.data_word (words ys) ≡ words xs

Undone-behind :
    (e x : Entry) (xs : List Entry) (o : Option (List Entry))
    → x.data_word < e.data_word
    → Undone e xs o
    → Undone e (x ∷ xs) (map (λ ys. x ∷ ys) o)
unfolding remove
Undone-behind e x xs none lt h = tt
Undone-behind e x xs (some ys) lt h =
    rw (==_ne x.data_word e.data_word (omega arith)) (ap (λ ws. x.data_word ∷ ws) h)

insert_sorted-Undone : (e : Entry) (xs : List Entry) → Undone e xs (insert_sorted data_of e xs)
unfolding insert_sorted remove
insert_sorted-Undone e [] = rw (==_refl e.data_word) refl
insert_sorted-Undone e (x ∷ xs) = elim (Bool-cases (ltb x.data_word e.data_word)) [
  | inl less ↦ rw less (
      Undone-behind e x xs (insert_sorted data_of e xs) (ltb→lt x.data_word e.data_word less)
        (insert_sorted-Undone e xs))
  | inr other ↦ elim (Bool-cases (x.data_word == e.data_word)) [
    | inl same ↦ rw (other, same) tt
    | inr more ↦ rw (other, more) (rw (==_refl e.data_word) refl)
  ]
]

-- An entry at an address.
unfoldable pub has_addr : ℕ → List Entry → Bool
has_addr m [] = false
has_addr m (x ∷ xs) = x.addr == m || has_addr m xs

has_addr-middle : (x : Entry) (xs ys : List Entry) → has_addr x.addr (xs ++ x ∷ ys) ≡ true
unfolding has_addr
has_addr-middle x [] ys = rw (==_refl x.addr) refl
has_addr-middle x (z ∷ xs) ys = rw (has_addr-middle x xs ys) (or_true (z.addr == x.addr))
  where
    or_true : (b : Bool) → (b || true) ≡ true
    or_true true = refl
    or_true false = refl

has_addr-insert :
    (m : ℕ) (x : Entry) (xs ys : List Entry)
    → has_addr m (xs ++ ys) ≡ true
    → has_addr m (xs ++ x ∷ ys) ≡ true
unfolding has_addr
has_addr-insert m x [] ys h = ground (arith, h)
has_addr-insert m x (z ∷ xs) ys h = elim (Bool-cases (z.addr == m)) [
  | inl e ↦ rw e refl
  | inr e ↦ rw e (has_addr-insert m x xs ys (rw e at h))
]

-- The node that `_avl_delete` gives out was one of the tree.
freed-has :
    (s : Spot)
    → InBalanced s
    → has_addr (delete_spot s).0.addr (lower s ++ s.entry ∷ upper s) ≡ true
freed-has s h = elim (delete_spot-Deleted s h) [
  | own e _ ↦
      subst (λ n. has_addr (Entry.addr n) (lower s ++ s.entry ∷ upper s) ≡ true) (sym e)
        (has_addr-middle s.entry (lower s) (upper s))
  | successor xs ys _ moved ↦ has_addr-insert (delete_spot s).0.addr s.entry (lower s) (upper s) (
      subst (λ es. has_addr (delete_spot s).0.addr es ≡ true) moved
        (has_addr-middle (delete_spot s).0 xs ys))
]

Found_lem :
    (tr : Tree) (d : ℕ) (s : Spot)
    → IsBalanced tr
    → avl_find tr d avl_basic_cmp ≡ some s
    → InBalanced s × Found avl_basic_cmp (record { addr = 0; data_word = d }) (entries tr) s
unfolding avl_find plug
Found_lem tr d s bal e =
    let k : Entry = record { addr = 0; data_word = d } in
    (
      subst (λ o. InBalancedSome o) e (find_spot-InBalanced avl_basic_cmp tr k [] bal tt),
      subst (λ o. FoundSome avl_basic_cmp k (entries tr) o) e
          (find_spot-Found avl_basic_cmp k tr []),
    )

module _ (a : Allocator) where
  -- An insertion that is not refused.
  abbrev Grown : Tree → ℕ → Bool → Tree → Type 0
  Grown tr d out tr' =
      out ≡ false → IsBalanced tr' × (remove d (words (entries tr')) ≡ words (entries tr))

  Inserted-Grown :
      (tr : Tree) (e : Entry) (out : Bool × Tree) (o : Option (List Entry))
      → IsBalanced out.1
      → Inserted data_of e tr out o
      → Undone e (entries tr) o
      → Grown tr e.data_word out.0 out.1
  Inserted-Grown tr e out none bal (n, _) _ = λ y. absurd (let bad = sym n ∙ y in cc)
  Inserted-Grown tr e out (some ys) bal (_, eq) u =
      λ y. (bal, ap (λ es. remove e.data_word (words es)) eq ∙ u)

  avl_insert-Grown :
      (h : Allocator.Heap a) (tr : Tree) (d : ℕ)
      → IsBalanced tr
      → IsSorted data_of (entries tr)
      → Grown tr d (avl_insert a h tr d avl_basic_cmp).0 (avl_insert a h tr d avl_basic_cmp).1.0
  unfolding avl_insert
  avl_insert-Grown h tr d bal sorted = elim (Option-cases (Allocator.alloc a h 4)) [
    | inl none_left ↦ rw (none_left, avl_insert) (λ y. absurd (cc))
    | inr ((b, h'), granted) ↦
        let e : Entry = record { addr = b.addr; data_word = d } in
        let i : Inserted data_of e tr (insert_node avl_basic_cmp tr e)
            (insert_sorted data_of e (entries tr)) =
          subst
            (λ c. Inserted data_of e tr (insert_node c tr e) (insert_sorted data_of e (entries tr)))
            (sym avl_basic_cmp-eq) (insert_node_lem data_of e tr sorted) in
        rw (granted, avl_insert)
          (Inserted-Grown tr e (insert_node avl_basic_cmp tr e)
            (insert_sorted data_of e (entries tr)) (insert_node-IsBalanced avl_basic_cmp e tr bal) i
            (insert_sorted-Undone e (entries tr)))
  ]

  -- The address that was put in is found.
  Adds-found :
      (tr : Tree) (d : ℕ) (out : Bool) (tr' : Tree)
      → Adds data_of tr d out tr'
      → out ≡ false
      → IsSorted data_of (entries tr') × ((s : Spot) × (avl_find tr' d avl_basic_cmp ≡ some s))
  unfolding avl_find avl_basic_cmp compare_by
  Adds-found tr d out tr' (refused n _) y = absurd (let bad = sym n ∙ y in cc)
  Adds-found tr d out tr' (placed e is _ sorted find) y =
      let k : Entry = record { addr = 0; data_word = d } in
      let same : (data_of e == d) ≡ true = ground (arith, is) in
      let this : (if data_of e == d then some e else find_key data_of d (entries tr)) ≡ some e =
        rw same refl in
      let f : found_entry (find_spot avl_basic_cmp tr' k []) ≡ some e =
        find_spot-find_key data_of avl_basic_cmp k d (λ x. refl) tr' [] sorted ∙ find d ∙ this in
      (
        sorted,
        elim (Option-cases (find_spot avl_basic_cmp tr' k [])) [
          | inl e0 ↦
              let bad : Path (Option Entry) none (some e) = ap found_entry (sym e0) ∙ f in
              absurd (cc)
          | inr (s, e1) ↦ (s, e1)
        ],
      )

  -- What the heap is once a node of the collector's set and the block at `d` have been given back.
  abbrev pub GaveBack : Gc a → ℕ → Allocator.Heap a → Type 0
  GaveBack g d h =
      (m : ℕ) × ((has_addr m (entries g.gc_set) ≡ true)
        × (h ≡ Allocator.free a (Allocator.free a g.store.heap m) d))

  gc_free-found :
      (g : Gc a) (d : ℕ) (s : Spot)
      → d ≢ 0
      → IsBalanced g.gc_set
      → IsSorted data_of (entries g.gc_set)
      → avl_find g.gc_set d avl_basic_cmp ≡ some s
      → (words (entries (gc_free a g d).gc_set) ≡ remove d (words (entries g.gc_set)))
        × GaveBack g d (gc_free a g d).store.heap
  unfolding gc_free set_remove
  gc_free-found g d s nz bal sorted e =
      let k : Entry = record { addr = 0; data_word = d } in
      let (inside, f) = Found_lem g.gc_set d s bal e in
      let some_yet : (s.entry.data_word == 0) ≡ false =
        ==_ne s.entry.data_word 0 (λ z. nz (sym (equal_data s.entry k f.equal) ∙ z)) in
      let node =
        subst (λ es. has_addr (delete_spot s).0.addr es ≡ true) f.placed (freed-has s inside) in
      let m : ℕ = (delete_spot s).0.addr in
      let left_over : (gc_free a g d).store.heap
          ≡ Allocator.free a (Allocator.free a g.store.heap m) d =
        rw (e, set_remove, gc_free) (rw some_yet refl) in
      let kept : words (entries (gc_free a g d).gc_set) ≡ remove d (words (entries g.gc_set)) =
        rw (e, set_remove, gc_free) (delete_found_lem g.gc_set d s bal sorted e) in
      (kept, (m, (node, left_over)))

  -- A block that `gc_alloc` grants, at an address other than 0, is given back by `gc_free`: the
  -- heap takes back a node of the collector's set and the block, the set, balanced and in order
  -- before, has the same addresses again, and the count is the one from before.
  pub gc_free-gc_alloc :
      (g : Gc a) (n : ℕ) (b : Block) (g' : Gc a)
      → IsBalanced g.gc_set
      → IsSorted data_of (entries g.gc_set)
      → g.gc_num_alloced < 2 ^ 64
      → b.addr ≢ 0
      → gc_alloc a g n ≡ (some b, g')
      → (words (entries (gc_free a g' b.addr).gc_set) ≡ words (entries g.gc_set))
        × (((gc_free a g' b.addr).gc_num_alloced ≡ g.gc_num_alloced)
            × GaveBack g' b.addr (gc_free a g' b.addr).store.heap)
  unfolding gc_alloc gc_free
  gc_free-gc_alloc g n b g' bal sorted fits nz e =
      elim (Option-cases (Allocator.alloc a g.store.heap n)) [
        | inl none_left ↦
            let made : Path (Option Block × Gc a) (none, g) (some b, g') =
              rw (none_left, gc_alloc) at e in
            let bad : Path (Option Block) none (some b) = ap (λ p. p.0) made in absurd (cc)
        | inr ((b', h), granted) ↦
            let r = avl_insert a h g.gc_set b'.addr avl_basic_cmp in
            elim (Bool-cases r.0) [
              | inl full ↦
                  let made = rw (granted, gc_alloc, full) at e in
                  let bad : Path (Option Block) none (some b) = ap (λ p. p.0) made in absurd (cc)
              | inr y ↦
                  let made = rw (granted, gc_alloc, y) at e in
                  let at : b' ≡ b = some-injective b' b (ap (λ p. p.0) made) in
                  let tree : r.1.0 ≡ g'.gc_set = ap (λ p. p.1.gc_set) made in
                  let num : add_word g.gc_num_alloced 1 ≡ g'.gc_num_alloced =
                    ap (λ p. p.1.gc_num_alloced) made in
                  let grown = avl_insert-Grown h g.gc_set b'.addr bal sorted y in
                  let (order, (s, there)) =
                    Adds-found g.gc_set b'.addr r.0 r.1.0
                      (avl_insert-Adds data_of avl_basic_cmp avl_basic_cmp-eq a h g.gc_set b'.addr
                        sorted)
                      y in
                  let there' : avl_find g'.gc_set b.addr avl_basic_cmp ≡ some s =
                    sym (ap₂ (λ t c. avl_find t (Block.addr c) avl_basic_cmp) tree at) ∙ there in
                  let undone : remove b.addr (words (entries g'.gc_set))
                      ≡ words (entries g.gc_set) =
                    sym (ap₂ (λ t c. remove (Block.addr c) (words (entries t))) tree at)
                    ∙ grown.1 in
                  let freed =
                    gc_free-found g' b.addr s nz (subst (λ t. IsBalanced t) tree grown.0)
                      (subst (λ t. IsSorted data_of (entries t)) tree order) there' in
                  (freed.0 ∙ undone, (omega (arith, num, fits), freed.1))
            ]
      ]
