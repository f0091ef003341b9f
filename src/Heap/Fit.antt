-- ===== src/Heap/Fit.antt =====
-- `avl_min_ge` of datastructures.c, as `alloc` uses it.
use mathlib.Core.Path.{subst}
use lisp_machine.Common.{ℕ, ◌≤◌, ◌≡◌, refl, sym, ◌∙◌, inl, inr, leb, Bool-cases}
use lisp_machine.Common.{if◌then◌else◌, Option, none, some, List, ◌∷◌, ◌++◌, append_assoc, arith}
use lisp_machine.Avl.{left, right, Entry, Tree, leaf, node, Frame, plug, entries, height}
use lisp_machine.Avl.Delete.{Spot, avl_min_ge}
use lisp_machine.Avl.Sorted.{AllBelow, AllBelow-append}
use lisp_machine.Avl.Order.{entries-plug}
use lisp_machine.Avl.Balanced.{IsBalanced, Fits}
use lisp_machine.Avl.DeleteBalanced.{InBalanced}
use lisp_machine.Avl.DeleteOrder.{lower, upper}

-- A node that is in the tree and large enough.
pub record Fitting (size : ℕ) (all : List Entry) (s : Spot) : Type 0 where
  pub inside : InBalanced s
  pub placed : lower s ++ (s.entry ∷ upper s) ≡ all
  pub enough : size ≤ s.entry.data_word

abbrev pub FittingSome : ℕ → List Entry → Option Spot → Type 0
FittingSome size all none = Unit
FittingSome size all (some s) = Fitting size all s

pub avl_min_ge-Fitting :
    (t : Tree) (size : ℕ) (path : List Frame)
    → IsBalanced t
    → Fits (height t) path
    → FittingSome size (entries (plug path t)) (avl_min_ge t size path)
unfolding avl_min_ge plug
avl_min_ge-Fitting leaf size path bal fits = tt
avl_min_ge-Fitting (node x b l r) size path (bl, br, a) fits =
    go _ _
      (avl_min_ge-Fitting l size (record { dir = left; entry = x; balance = b; sibling = r } ∷ path)
        bl (br, a, fits))
      (avl_min_ge-Fitting r size
        (record { dir = right; entry = x; balance = b; sibling = l } ∷ path) br
        (bl, a, subst (λ k. Fits k path) (omega arith) fits))
  where
    go :
        (o1 o2 : Option Spot)
        → FittingSome size (entries (plug path (node x b l r))) o1
        → FittingSome size (entries (plug path (node x b l r))) o2
        → FittingSome size (entries (plug path (node x b l r))) (elim o1 as (λ _. Option Spot) [
          | some o ↦ some o
          | none ↦ elim o2 as (λ _. Option Spot) [
            | some o ↦ some o
            | none ↦
                if leb size x.data_word
                then some (record { path = path; entry = x; balance = b; l = l; r = r })
                else none
          ]
        ])
    go (some o) o2 p q = p
    go none (some o) p q = q
    go none none p q = elim (Bool-cases (leb size x.data_word)) [
      | inl fit ↦ rw fit (record {
        inside = record { bal_l = bl; bal_r = br; agrees = a; fits = fits };
        placed = simp append_assoc refl ∙ sym (entries-plug path (node x b l r));
        enough = ground arith;
      })
      | inr small ↦ rw small tt
    ]

-- What `avl_min_ge` has passed over is too small.
pub avl_min_ge-none :
    (t : Tree) (size : ℕ) (path : List Frame)
    → avl_min_ge t size path ≡ none
    → AllBelow (λ x. x.data_word) size (entries t)
unfolding avl_min_ge
avl_min_ge-none leaf size path e = tt
avl_min_ge-none (node x b l r) size path e =
    go _ _
      (avl_min_ge-none l size (record { dir = left; entry = x; balance = b; sibling = r } ∷ path))
      (avl_min_ge-none r size (record { dir = right; entry = x; balance = b; sibling = l } ∷ path))
      e
  where
    go :
        (o1 o2 : Option Spot)
        → (o1 ≡ none → AllBelow (λ x. x.data_word) size (entries l))
        → (o2 ≡ none → AllBelow (λ x. x.data_word) size (entries r))
        → (elim o1 as (λ _. Option Spot) [
          | some o ↦ some o
          | none ↦ elim o2 as (λ _. Option Spot) [
            | some o ↦ some o
            | none ↦
                if leb size x.data_word
                then some (record { path = path; entry = x; balance = b; l = l; r = r })
                else none
          ]
        ])
          ≡ none
        → AllBelow (λ x. x.data_word) size (entries l ++ (x ∷ entries r))
    go (some o) o2 p q e = absurd (cc)
    go none (some o) p q e = absurd (cc)
    go none none p q e = elim (Bool-cases (leb size x.data_word)) [
      | inl fit ↦
          (let bad : Path (Option Spot)
                (some (record { path = path; entry = x; balance = b; l = l; r = r })) none =
              rw fit at e in
            absurd (cc))
      | inr small ↦
          AllBelow-append (λ x. x.data_word) size (entries l) (x ∷ entries r) (p refl)
            (ground arith, q refl)
    ]
