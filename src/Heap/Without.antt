-- ===== src/Heap/Without.antt =====
-- One free block taken out of the tree by its address.
use mathlib.Core.Path.{subst}
use lisp_machine.Common.{ℕ, ◌≤◌, ◌==◌, ltb, ==_ne, inl, inr, ◌≡◌, ◌≢◌, refl, sym, ap, ◌∙◌}
use lisp_machine.Common.{
  true, false, if◌then◌else◌, Option, none, some, Option-cases, List, [], ◌∷◌, ◌++◌, arith,
}
use lisp_machine.Avl.{
  left, right, Entry, Tree, leaf, node, Frame, plug, entries, avl_mem_cmp, compare_by,
}
use lisp_machine.Avl.Delete.{Spot, find_spot}
use lisp_machine.Avl.Sorted.{IsSorted, IsSorted-split, AllBelow, AllAbove}
use lisp_machine.Common.{lt_trichotomy}
use lisp_machine.Avl.Balanced.{IsBalanced}
use lisp_machine.Avl.DeleteBalanced.{InBalancedSome, find_spot-InBalanced}
use lisp_machine.Avl.DeleteOrder.{lower, upper, FoundSome, find_spot-Found}
use lisp_machine.Avl.Remove.{remove_spot-entries, remove_spot-IsBalanced}
use lisp_machine.Heap.Blocks.{start}
use lisp_machine.Heap.Merge.{remove_at}

-- The list without the block that starts at `k`.
abbrev pub without : ℕ → List Entry → List Entry
without k [] = []
without k (x ∷ xs) = let rest = x ∷ without k xs in if start x == k then xs else rest

pub without-below :
    (k : ℕ) (xs : List Entry) (x : Entry) (ys : List Entry)
    → AllBelow start k xs
    → start x ≡ k
    → without k (xs ++ (x ∷ ys)) ≡ xs ++ ys
without-below k [] x ys h e = let hit : (start x == k) ≡ true = ground arith in rw hit refl
without-below k (z ∷ xs) x ys (lt, h) e =
    rw (==_ne (start z) k (omega arith)) (ap (λ ts. z ∷ ts) (without-below k xs x ys h e))

abbrev NotIn : ℕ → List Entry → Type 0
NotIn k [] = Unit
NotIn k (x ∷ xs) = (start x ≢ k) × NotIn k xs

without-NotIn : (k : ℕ) (xs : List Entry) → NotIn k xs → without k xs ≡ xs
without-NotIn k [] h = refl
without-NotIn k (x ∷ xs) (ne, h) =
    rw (==_ne (start x) k ne) (ap (λ ts. x ∷ ts) (without-NotIn k xs h))

NotIn-append : (k : ℕ) (xs ys : List Entry) → NotIn k xs → NotIn k ys → NotIn k (xs ++ ys)
NotIn-append k [] ys p q = q
NotIn-append k (x ∷ xs) ys (ne, p) q = (ne, NotIn-append k xs ys p q)

AllBelow-NotIn : (j k : ℕ) (xs : List Entry) → j ≤ k → AllBelow start j xs → NotIn k xs
AllBelow-NotIn j k [] le h = tt
AllBelow-NotIn j k (x ∷ xs) le (lt, h) = ((λ e. absurd (omega arith)), AllBelow-NotIn j k xs le h)

AllAbove-NotIn : (j k : ℕ) (xs : List Entry) → k ≤ j → AllAbove start j xs → NotIn k xs
AllAbove-NotIn j k [] le h = tt
AllAbove-NotIn j k (x ∷ xs) le (lt, h) = ((λ e. absurd (omega arith)), AllAbove-NotIn j k xs le h)

-- A search that finds nothing means that there is nothing.
find_spot-NotIn :
    (t : Tree) (e : Entry) (path : List Frame)
    → IsSorted start (entries t)
    → find_spot avl_mem_cmp t e path ≡ none
    → NotIn (start e) (entries t)
unfolding find_spot avl_mem_cmp compare_by
find_spot-NotIn leaf e path h f = tt
find_spot-NotIn (node x b l r) e path h f =
    let (low, sl, sr, high) = IsSorted-split start (entries l) x (entries r) h in
    let lframe : Frame = record { dir = left; entry = x; balance = b; sibling = r } in
    let rframe : Frame = record { dir = right; entry = x; balance = b; sibling = l } in
    elim (lt_trichotomy (start x) (start e)) [
      | inl less ↦
          (let lt : ltb (start x) (start e) ≡ true = ground arith in
            let f' : find_spot avl_mem_cmp r e (rframe ∷ path) ≡ none = rw (lt, find_spot) at f in
            NotIn-append (start e) (entries l) (x ∷ entries r)
              (AllBelow-NotIn (start x) (start e) (entries l) (omega arith) low)
              ((λ q. absurd (omega arith)), find_spot-NotIn r e (rframe ∷ path) sr f'))
      | inr (inl same) ↦
          (let lt : ltb (start x) (start e) ≡ false = ground arith in
            let eq : (start x == start e) ≡ true = ground arith in
            let bad : Path (Option Spot)
                (some (record { path = path; entry = x; balance = b; l = l; r = r })) none =
              rw (lt, eq, find_spot) at f in
            absurd (cc))
      | inr (inr more) ↦
          (let lt : ltb (start x) (start e) ≡ false = ground arith in
            let eq : (start x == start e) ≡ false = ground arith in
            let f' : find_spot avl_mem_cmp l e (lframe ∷ path) ≡ none =
              rw (lt, eq, find_spot) at f in
            NotIn-append (start e) (entries l) (x ∷ entries r)
              (find_spot-NotIn l e (lframe ∷ path) sl f')
              (
                (λ q. absurd (omega arith)),
                AllAbove-NotIn (start x) (start e) (entries r) (omega arith) high,
              ))
    ]

equal_start : (n e : Entry) → avl_mem_cmp n e ≡ none → start n ≡ start e
unfolding avl_mem_cmp compare_by
equal_start n e h = ground arith

pub record Without (k : ℕ) (t t' : Tree) : Type 0 where
  pub bal : IsBalanced t'
  pub rest : entries t' ≡ without k (entries t)

pub remove_at-Without :
    (t : Tree) (k : ℕ) → IsBalanced t → IsSorted start (entries t) → Without k t (remove_at t k)
unfolding remove_at plug
remove_at-Without t k bal sorted =
    let e : Entry = record { addr = k; data_word = 0 } in
    elim (Option-cases (find_spot avl_mem_cmp t e [])) [
      | inl absent ↦
          rw (absent, remove_at)
            (record {
              bal = bal;
              rest = sym (without-NotIn k (entries t) (find_spot-NotIn t e [] sorted absent));
            })
      | inr (s, found) ↦
          (let inside =
              subst (λ o. InBalancedSome o) found
                (find_spot-InBalanced avl_mem_cmp t e [] bal tt) in
            let f =
              subst (λ o. FoundSome avl_mem_cmp e (entries t) o) found
                (find_spot-Found avl_mem_cmp e t []) in
            let here = equal_start s.entry e f.equal in
            let sorted' = subst (λ es. IsSorted start es) (sym f.placed) sorted in
            let (low, _, _, _) = IsSorted-split start (lower s) s.entry (upper s) sorted' in
            rw (found, remove_at)
              (record {
                bal = remove_spot-IsBalanced s inside;
                rest =
                    remove_spot-entries s inside sorted'
                    ∙ sym (
                        without-below k (lower s) s.entry (upper s)
                          (subst (λ j. AllBelow start j (lower s)) here low) here)
                    ∙ ap (λ es. without k es) f.placed;
              }))
    ]
