-- ===== src/Avl/Rotate.antt =====
-- The rotations of the AVL trees keep the order of the entries.
use lisp_machine.Common.{◌≡◌, refl, sym, ap, ◌∙◌, List, [], ◌∷◌, ◌++◌, append_assoc}
use lisp_machine.Avl.{
  Dir, left, right, Entry, Balance, even, high, Tree, leaf, node, Frame, build, plug, entries,
}
use lisp_machine.Avl.{
  is_even, balance_factor, set_balance_factor, left_of, right_of, fix_lr, fix_rl,
}
use lisp_machine.Avl.{avl_rotate_left, avl_rotate_right, avl_rotate_lr, avl_rotate_rl}

pub entries-build_eq :
    (d : Dir) (x : Entry) (b c : Balance) (s t t' : Tree)
    → entries t ≡ entries t'
    → entries (build d x b s t) ≡ entries (build d x c s t')
entries-build_eq left x b c s t t' e = ap (λ ts. ts ++ (x ∷ entries s)) e
entries-build_eq right x b c s t t' e = ap (λ ts. entries s ++ (x ∷ ts)) e

pub entries-plug_eq :
    (path : List Frame) (t t' : Tree)
    → entries t ≡ entries t'
    → entries (plug path t) ≡ entries (plug path t')
unfolding plug
entries-plug_eq [] t t' e = e
entries-plug_eq (f ∷ path) t t' e =
    entries-plug_eq path (build f.dir f.entry f.balance f.sibling t)
      (build f.dir f.entry f.balance f.sibling t')
      (entries-build_eq f.dir f.entry f.balance f.balance f.sibling t t' e)

entries-set_balance_factor : (b : Balance) (t : Tree) → entries (set_balance_factor b t) ≡ entries t
unfolding set_balance_factor
entries-set_balance_factor b leaf = refl
entries-set_balance_factor b (node x c l r) = refl

pub entries-rotate_left : (t : Tree) → entries (avl_rotate_left t) ≡ entries t
unfolding avl_rotate_left is_even
entries-rotate_left leaf = refl
entries-rotate_left (node x b l leaf) = refl
entries-rotate_left (node x b l (node y even rl rr)) =
    append_assoc (entries l) (x ∷ entries rl) (y ∷ entries rr)
entries-rotate_left (node x b l (node y (high d) rl rr)) =
    append_assoc (entries l) (x ∷ entries rl) (y ∷ entries rr)

pub entries-rotate_right : (t : Tree) → entries (avl_rotate_right t) ≡ entries t
unfolding avl_rotate_right is_even
entries-rotate_right leaf = refl
entries-rotate_right (node x b leaf r) = refl
entries-rotate_right (node x b (node y even ll lr) r) =
    sym (append_assoc (entries ll) (y ∷ entries lr) (x ∷ entries r))
entries-rotate_right (node x b (node y (high d) ll lr) r) =
    sym (append_assoc (entries ll) (y ∷ entries lr) (x ∷ entries r))

entries-fix_lr : (b : Balance) (t : Tree) → entries (fix_lr b t) ≡ entries t
unfolding fix_lr
entries-fix_lr b leaf = refl
entries-fix_lr (high right) (node x c l r) = simp entries-set_balance_factor refl
entries-fix_lr (high left) (node x c l r) = simp entries-set_balance_factor refl
entries-fix_lr even (node x c l r) = simp entries-set_balance_factor refl

entries-fix_rl : (b : Balance) (t : Tree) → entries (fix_rl b t) ≡ entries t
unfolding fix_rl
entries-fix_rl b leaf = refl
entries-fix_rl (high right) (node x c l r) = simp entries-set_balance_factor refl
entries-fix_rl (high left) (node x c l r) = simp entries-set_balance_factor refl
entries-fix_rl even (node x c l r) = simp entries-set_balance_factor refl

pub entries-rotate_lr : (t : Tree) → entries (avl_rotate_lr t) ≡ entries t
unfolding avl_rotate_lr
entries-rotate_lr leaf = refl
entries-rotate_lr (node x b child r) =
    entries-fix_lr (balance_factor (right_of child))
      (avl_rotate_right (node x b (avl_rotate_left child) r))
    ∙ entries-rotate_right (node x b (avl_rotate_left child) r)
    ∙ ap (λ ts. ts ++ (x ∷ entries r)) (entries-rotate_left child)

pub entries-rotate_rl : (t : Tree) → entries (avl_rotate_rl t) ≡ entries t
unfolding avl_rotate_rl
entries-rotate_rl leaf = refl
entries-rotate_rl (node x b l child) =
    entries-fix_rl (balance_factor (left_of child))
      (avl_rotate_left (node x b l (avl_rotate_right child)))
    ∙ entries-rotate_left (node x b l (avl_rotate_right child))
    ∙ ap (λ ts. entries l ++ (x ∷ ts)) (entries-rotate_right child)
