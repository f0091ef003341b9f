-- ===== src/Avl/Remove.antt =====
-- `_avl_delete` with the `avl_move` after it, as alloc.c uses them: one entry leaves the tree.
use mathlib.Core.Path.{subst}
use mathlib.Core.List.{map-append}
use lisp_machine.Common.{
  ℕ, suc, ◌==◌, ==_ne, ==_refl, max, ◌≡◌, ◌≢◌, refl, sym, ap, ap₂, ◌∙◌, inl, inr, true, Bool-cases,
  if◌then◌else◌,
}
use lisp_machine.Common.{List, [], ◌∷◌, ◌++◌, map, arith}
use lisp_machine.Avl.{Entry, Tree, leaf, node, entries, height}
use lisp_machine.Avl.Delete.{Spot, delete_spot, avl_move, remove_spot}
use lisp_machine.Avl.Balanced.{IsBalanced}
use lisp_machine.Avl.Sorted.{IsSorted, IsSorted-split, AllBelow, AllAbove}
use lisp_machine.Avl.DeleteBalanced.{InBalanced, delete_spot-IsBalanced}
use lisp_machine.Avl.DeleteOrder.{lower, upper, Deleted, own, successor, delete_spot-Deleted}

-- `avl_move` on the entries.
abbrev renamed : ℕ → ℕ → List Entry → List Entry
renamed dest src es =
    map (λ x. record { addr = if x.addr == src then dest else x.addr; data_word = x.data_word }) es

avl_move-entries :
    (dest src : ℕ) (t : Tree) → entries (avl_move dest src t) ≡ renamed dest src (entries t)
unfolding avl_move
avl_move-entries dest src leaf = refl
avl_move-entries dest src (node x b l r) =
    ap₂
      (λ ls rs.
        ls
        ++ (record { addr = if x.addr == src then dest else x.addr; data_word = x.data_word } ∷ rs))
      (avl_move-entries dest src l) (avl_move-entries dest src r)
    ∙ sym (map-append _ (entries l) (x ∷ entries r))

avl_move-height : (dest src : ℕ) (t : Tree) → height (avl_move dest src t) ≡ height t
unfolding avl_move
avl_move-height dest src leaf = refl
avl_move-height dest src (node x b l r) =
    ap₂ (λ m n. suc (max m n)) (avl_move-height dest src l) (avl_move-height dest src r)

avl_move-IsBalanced : (dest src : ℕ) (t : Tree) → IsBalanced t → IsBalanced (avl_move dest src t)
unfolding avl_move
avl_move-IsBalanced dest src leaf h = tt
avl_move-IsBalanced dest src (node x b l r) (bl, br, a) = (
  avl_move-IsBalanced dest src l bl,
  avl_move-IsBalanced dest src r br,
  rw (avl_move-height dest src l, avl_move-height dest src r) a,
)

-- No entry has the address.
abbrev AllOther : ℕ → List Entry → Type 0
AllOther k [] = Unit
AllOther k (x ∷ xs) = (x.addr ≢ k) × AllOther k xs

AllOther-sides :
    (k : ℕ) (xs ys : List Entry)
    → AllBelow (λ n. n.addr) k xs
    → AllAbove (λ n. n.addr) k ys
    → AllOther k (xs ++ ys)
AllOther-sides k [] [] a b = tt
AllOther-sides k [] (y ∷ ys) a (lt, b) = ((λ e. absurd (omega arith)), AllOther-sides k [] ys tt b)
AllOther-sides k (x ∷ xs) ys (lt, a) b = ((λ e. absurd (omega arith)), AllOther-sides k xs ys a b)

AllOther-split :
    (k : ℕ) (xs : List Entry) (x : Entry) (ys : List Entry)
    → AllOther k (xs ++ (x ∷ ys))
    → AllOther k xs × (x.addr ≢ k) × AllOther k ys
AllOther-split k [] x ys (ne, h) = (tt, ne, h)
AllOther-split k (z ∷ xs) x ys (ne, h) =
    let (a, b, c) = AllOther-split k xs x ys h in ((ne, a), b, c)

renamed_other : (dest src : ℕ) (es : List Entry) → AllOther src es → renamed dest src es ≡ es
renamed_other dest src [] h = refl
renamed_other dest src (x ∷ es) (ne, h) =
    rw (==_ne x.addr src ne) (ap (λ ts. x ∷ ts) (renamed_other dest src es h))

renamed_moved :
    (src : ℕ) (xs ys : List Entry) (freed : Entry)
    → AllOther src xs
    → AllOther src ys
    → renamed freed.addr src (xs ++ (record { addr = src; data_word = freed.data_word } ∷ ys))
      ≡ xs ++ (freed ∷ ys)
renamed_moved src xs ys freed hx hy =
    map-append _ xs (record { addr = src; data_word = freed.data_word } ∷ ys)
    ∙ ap₂ (λ ps qs. ps ++ qs) (renamed_other freed.addr src xs hx)
        (rw (==_refl src) (ap (λ ts. freed ∷ ts) (renamed_other freed.addr src ys hy)))

-- With increasing addresses, the entry of the spot leaves the tree and the others stay.
pub remove_spot-entries :
    (s : Spot)
    → InBalanced s
    → IsSorted (λ n. n.addr) (lower s ++ (s.entry ∷ upper s))
    → entries (remove_spot s) ≡ lower s ++ upper s
unfolding remove_spot
remove_spot-entries s h sorted =
    let (below, _, _, above) = IsSorted-split (λ n. n.addr) (lower s) s.entry (upper s) sorted in
    go (delete_spot s).0 (delete_spot s).1 (delete_spot-Deleted s h)
      (AllOther-sides s.entry.addr (lower s) (upper s) below above)
  where
    go :
        (freed : Entry) (t : Tree)
        → Deleted s freed (entries t)
        → AllOther s.entry.addr (lower s ++ upper s)
        → entries (if freed.addr == s.entry.addr then t else avl_move freed.addr s.entry.addr t)
          ≡ lower s ++ upper s
    go freed t (own same kept) other =
        let here : (freed.addr == s.entry.addr) ≡ true =
          ap (λ a. a.addr == s.entry.addr) same ∙ ==_refl s.entry.addr in
        rw here kept
    go freed t (successor xs ys kept moved) other =
        let (hx, ne, hy) =
          AllOther-split s.entry.addr xs freed ys
            (subst (λ es. AllOther s.entry.addr es) (sym moved) other) in
        rw (==_ne freed.addr s.entry.addr ne) (
          avl_move-entries freed.addr s.entry.addr t
          ∙ ap (λ es. renamed freed.addr s.entry.addr es) kept
          ∙ renamed_moved s.entry.addr xs ys freed hx hy
          ∙ moved)

pub remove_spot-IsBalanced : (s : Spot) → InBalanced s → IsBalanced (remove_spot s)
unfolding remove_spot
remove_spot-IsBalanced s h = elim (Bool-cases ((delete_spot s).0.addr == s.entry.addr)) [
  | inl same ↦ rw (same, remove_spot) (delete_spot-IsBalanced s h)
  | inr other ↦
      rw (other, remove_spot)
        (avl_move-IsBalanced (delete_spot s).0.addr s.entry.addr (delete_spot s).1
          (delete_spot-IsBalanced s h))
]
