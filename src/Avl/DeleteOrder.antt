-- ===== src/Avl/DeleteOrder.antt =====
-- What `_avl_delete` leaves of the data of an AVL tree.
use mathlib.Core.Path.{subst}
use mathlib.Core.List.{map-append}
use lisp_machine.Common.{ℕ, ◌==◌, ==_ne, ==_refl, ◌≡◌, refl, sym, ap, ◌∙◌, if◌then◌else◌}
use lisp_machine.Common.{
  Option, none, some, List, [], ◌∷◌, ◌++◌, map, append_assoc, append-nil, arith,
}
use lisp_machine.Avl.{
  Dir, left, right, Entry, Balance, even, high, Tree, leaf, node, Frame, build, plug, entries,
  height,
}
use lisp_machine.Avl.{left_of, right_of, balance_factor, compare_by, avl_basic_cmp}
use lisp_machine.Avl.{avl_rotate_left, avl_rotate_right, avl_rotate_lr, avl_rotate_rl}
use lisp_machine.Avl.Insert.{Leaning, over, stored}
use lisp_machine.Avl.Delete.{
  Spot, leftmost, lean_back, rotate_shrunk, far_balance, shrunk, delete_spot, find_spot, avl_find,
}
use lisp_machine.Avl.Rotate.{
  entries-build_eq, entries-plug_eq, entries-rotate_left, entries-rotate_right,
}
use lisp_machine.Avl.Rotate.{entries-rotate_lr, entries-rotate_rl}
use lisp_machine.Avl.Order.{before, behind, entries-plug}
use lisp_machine.Avl.Balanced.{IsBalanced, Agrees}
use lisp_machine.Avl.DeleteBalanced.{InBalanced, find_spot-InBalanced, InBalancedSome}
use lisp_machine.Avl.Sorted.{IsSorted, IsSorted-split, AllBelow}

rotate_shrunk-entries : (d : Dir) (t : Tree) → entries (rotate_shrunk d t) ≡ entries t
unfolding rotate_shrunk
rotate_shrunk-entries left t = go (balance_factor (right_of t))
  where
    go :
        (b : Balance)
        → entries (elim b as (λ _. Tree) [ high left ↦ avl_rotate_rl t | _ ↦ avl_rotate_left t ])
          ≡ entries t
    go even = entries-rotate_left t
    go (high right) = entries-rotate_left t
    go (high left) = entries-rotate_rl t
rotate_shrunk-entries right t = go (balance_factor (left_of t))
  where
    go :
        (b : Balance)
        → entries (elim b as (λ _. Tree) [ high right ↦ avl_rotate_lr t | _ ↦ avl_rotate_right t ])
          ≡ entries t
    go even = entries-rotate_right t
    go (high left) = entries-rotate_right t
    go (high right) = entries-rotate_lr t

-- The last loop keeps the order.
pub shrunk-entries :
    (path : List Frame) (t : Tree) → entries (shrunk path t) ≡ entries (plug path t)
unfolding shrunk plug
shrunk-entries [] t = refl
shrunk-entries (f ∷ path) t =
    go (lean_back f.dir f.balance) (far_balance f.dir nd) (λ t'. shrunk-entries path t')
  where
    nd : Tree
    nd = build f.dir f.entry f.balance f.sibling t

    go :
        (l : Leaning) (c : Balance)
        → ((t' : Tree) → entries (shrunk path t') ≡ entries (plug path t'))
        → entries (elim l as (λ _. Tree) [
          | stored even ↦ shrunk path (build f.dir f.entry even f.sibling t)
          | stored (high d) ↦ plug path (build f.dir f.entry (high d) f.sibling t)
          | over ↦ elim c as (λ _. Tree) [
            | even ↦ plug path (rotate_shrunk f.dir nd)
            | high d ↦ shrunk path (rotate_shrunk f.dir nd)
          ]
        ])
          ≡ entries (plug path nd)
    go (stored even) c rest =
        rest (build f.dir f.entry even f.sibling t)
        ∙ entries-plug_eq path _ _
            (entries-build_eq f.dir f.entry even f.balance f.sibling t t refl)
    go (stored (high d)) c rest =
        entries-plug_eq path _ _
          (entries-build_eq f.dir f.entry (high d) f.balance f.sibling t t refl)
    go over even rest = entries-plug_eq path _ _ (rotate_shrunk-entries f.dir nd)
    go over (high d) rest =
        rest (rotate_shrunk f.dir nd) ∙ entries-plug_eq path _ _ (rotate_shrunk-entries f.dir nd)

-- The leftmost node comes first.
pub leftmost-before :
    (y : Entry) (c : Balance) (l r : Tree) (inner path : List Frame)
    → before ((leftmost y c l r inner).path ++ path) ≡ before (inner ++ path)
unfolding leftmost
leftmost-before y c leaf r inner path = refl
leftmost-before y c (node z d ll lr) r inner path =
    leftmost-before z d ll lr (record { dir = left; entry = y; balance = c; sibling = r } ∷ inner)
      path

pub leftmost-behind :
    (y : Entry) (c : Balance) (l r : Tree) (inner path : List Frame)
    → let m = leftmost y c l r inner in
      m.entry ∷ (entries m.child ++ behind (m.path ++ path))
      ≡ entries (node y c l r) ++ behind (inner ++ path)
unfolding leftmost
leftmost-behind y c leaf r inner path = refl
leftmost-behind y c (node z d ll lr) r inner path =
    leftmost-behind z d ll lr (record { dir = left; entry = y; balance = c; sibling = r } ∷ inner)
      path
    ∙ sym (append_assoc (entries (node z d ll lr)) (y ∷ entries r) (behind (inner ++ path)))

abbrev pub words : List Entry → List ℕ
words es = map (λ n. n.data_word) es

-- The entries of the tree on either side of a spot.
abbrev pub lower : Spot → List Entry
lower s = before s.path ++ entries s.l

abbrev pub upper : Spot → List Entry
upper s = entries s.r ++ behind s.path

-- The deleted node is the spot's own, or its successor, whose data stand under the address of
-- the spot.
pub data Deleted (s : Spot) (freed : Entry) (es : List Entry) : Type 0 where
  own : freed ≡ s.entry → es ≡ lower s ++ upper s → Deleted s freed es
  successor :
      (xs ys : List Entry)
      → es ≡ xs ++ (record { addr = s.entry.addr; data_word = freed.data_word } ∷ ys)
      → xs ++ (freed ∷ ys) ≡ lower s ++ upper s
      → Deleted s freed es

pub delete_spot-Deleted :
    (s : Spot) → InBalanced s → Deleted s (delete_spot s).0 (entries (delete_spot s).1)
unfolding delete_spot
delete_spot-Deleted s h = go s.balance s.l s.r h.bal_l h.agrees
  where
    go :
        (b : Balance) (l r : Tree)
        → IsBalanced l
        → Agrees b (height l) (height r)
        → let s' : Spot = record { path = s.path; entry = s.entry; balance = b; l = l; r = r } in
          Deleted s' (delete_spot s').0 (entries (delete_spot s').1)
    go b l (node y c yl yr) bl a =
        let m = leftmost y c yl yr [] in
        let top : Frame = record {
          dir = right;
          entry = record { addr = s.entry.addr; data_word = m.entry.data_word };
          balance = b;
          sibling = l;
        } in
        let path = m.path ++ (top ∷ s.path) in
        let rest = entries m.child ++ behind path in
        successor (before s.path ++ entries l) rest
          (shrunk-entries path m.child
            ∙ entries-plug path m.child
            ∙ ap (λ ts. ts ++ rest) (leftmost-before y c yl yr [] (top ∷ s.path))
            ∙ simp append_assoc refl)
          (ap (λ ts. (before s.path ++ entries l) ++ ts)
            (leftmost-behind y c yl yr [] (top ∷ s.path)))
    go even (node y c yl yr) leaf bl a = absurd (omega arith)
    go (high right) (node y c yl yr) leaf bl a = absurd (omega arith)
    go (high left) (node y c (node z d zl zr) yr) leaf bl a = absurd (omega arith)
    go (high left) (node y c leaf (node z d zl zr)) leaf bl a = absurd (omega arith)
    go (high left) (node y c leaf leaf) leaf bl a =
        let top : Frame = record {
          dir = left;
          entry = record { addr = s.entry.addr; data_word = y.data_word };
          balance = high left;
          sibling = leaf;
        } in
        successor (before s.path) (behind s.path)
          (shrunk-entries (top ∷ s.path) leaf ∙ entries-plug (top ∷ s.path) leaf)
          (sym (append_assoc (before s.path) (y ∷ []) (behind s.path)))
    go b leaf leaf bl a = own refl (
        shrunk-entries s.path leaf
        ∙ entries-plug s.path leaf
        ∙ ap (λ ts. ts ++ behind s.path) (sym (append-nil (before s.path))))

pub delete_spot-words :
    (s : Spot) → InBalanced s → words (entries (delete_spot s).1) ≡ words (lower s ++ upper s)
delete_spot-words s h = go (delete_spot-Deleted s h)
  where
    go :
        {freed : Entry} {es : List Entry}
        → Deleted s freed es
        → words es ≡ words (lower s ++ upper s)
    go (own same kept) = ap words kept
    go {freed = freed} (successor xs ys kept moved) =
        ap words kept
        ∙ map-append (λ n. n.data_word) xs
            (record { addr = s.entry.addr; data_word = freed.data_word } ∷ ys)
        ∙ sym (map-append (λ n. n.data_word) xs (freed ∷ ys))
        ∙ ap words moved

-- The specification of a deletion: the list without the value.
unfoldable pub remove : ℕ → List ℕ → List ℕ
remove v [] = []
remove v (w ∷ ws) = let rest = w ∷ remove v ws in if w == v then ws else rest

remove-past :
    (xs : List Entry) (x : Entry) (ys : List Entry)
    → AllBelow (λ n. n.data_word) x.data_word xs
    → remove x.data_word (words (xs ++ (x ∷ ys))) ≡ words (xs ++ ys)
unfolding remove
remove-past [] x ys h = rw (==_refl x.data_word) refl
remove-past (z ∷ xs) x ys (lt, h) =
    rw (==_ne z.data_word x.data_word (omega arith))
      (ap (λ ws. z.data_word ∷ ws) (remove-past xs x ys h))

-- What `find_spot` finds is a node of the tree that compares as 0.
pub record Found (cmp : Entry → Entry → Option Dir) (e : Entry) (all : List Entry) (s : Spot)
    : Type 0 where
  pub equal : cmp s.entry e ≡ none
  pub placed : (before s.path ++ entries s.l) ++ (s.entry ∷ (entries s.r ++ behind s.path)) ≡ all

abbrev pub FoundSome : (Entry → Entry → Option Dir) → Entry → List Entry → Option Spot → Type 0
FoundSome cmp e all none = Unit
FoundSome cmp e all (some s) = Found cmp e all s

pub find_spot-Found :
    (cmp : Entry → Entry → Option Dir) (e : Entry) (t : Tree) (path : List Frame)
    → FoundSome cmp e (entries (plug path t)) (find_spot cmp t e path)
unfolding find_spot plug
find_spot-Found cmp e leaf path = tt
find_spot-Found cmp e (node x b l r) path =
    go (cmp x e) refl _ _
      (find_spot-Found cmp e l (record { dir = left; entry = x; balance = b; sibling = r } ∷ path))
      (find_spot-Found cmp e r (record { dir = right; entry = x; balance = b; sibling = l } ∷ path))
  where
    go :
        (c : Option Dir)
        → cmp x e ≡ c
        → (o1 o2 : Option Spot) → FoundSome cmp e (entries (plug path (node x b l r))) o1
        → FoundSome cmp e (entries (plug path (node x b l r))) o2
        → FoundSome cmp e (entries (plug path (node x b l r))) (elim c as (λ _. Option Spot) [
          | none ↦ some (record { path = path; entry = x; balance = b; l = l; r = r })
          | some left ↦ o1
          | some right ↦ o2
        ])
    go none eq o1 o2 p q = record {
      equal = eq;
      placed = simp append_assoc refl ∙ sym (entries-plug path (node x b l r));
    }
    go (some left) eq o1 o2 p q = p
    go (some right) eq o1 o2 p q = q

pub equal_data : (n e : Entry) → avl_basic_cmp n e ≡ none → n.data_word ≡ e.data_word
unfolding avl_basic_cmp compare_by
equal_data n e h = ground arith

-- On a balanced tree with increasing data, `avl_find` and then `_avl_delete` take the value that
-- was looked for out of the data, and leave the others in their order.
pub delete_found_lem :
    (t : Tree) (value : ℕ) (s : Spot)
    → IsBalanced t
    → IsSorted (λ n. n.data_word) (entries t)
    → avl_find t value avl_basic_cmp ≡ some s
    → words (entries (delete_spot s).1) ≡ remove value (words (entries t))
unfolding avl_find plug
delete_found_lem t value s bal sorted found =
    let e : Entry = record { addr = 0; data_word = value } in
    let here =
      subst (λ o. InBalancedSome o) found (find_spot-InBalanced avl_basic_cmp t e [] bal tt) in
    let f =
      subst (λ o. FoundSome avl_basic_cmp e (entries t) o) found
        (find_spot-Found avl_basic_cmp e t []) in
    let same : s.entry.data_word ≡ value = equal_data s.entry e f.equal in
    let (low, _, _, _) =
      IsSorted-split (λ n. n.data_word) (before s.path ++ entries s.l) s.entry
        (entries s.r ++ behind s.path)
        (subst (λ es. IsSorted (λ n. n.data_word) es) (sym f.placed) sorted) in
    delete_spot-words s here
    ∙ sym (remove-past (before s.path ++ entries s.l) s.entry (entries s.r ++ behind s.path) low)
    ∙ ap (λ es. remove s.entry.data_word (words es)) f.placed
    ∙ ap (λ v. remove v (words (entries t))) same
