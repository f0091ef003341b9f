-- ===== src/Avl/DeleteBalanced.antt =====
-- `_avl_delete` keeps the AVL trees balanced.
use mathlib.Core.Path.{subst}
use lisp_machine.Common.{ℕ, suc, max, ◌≡◌, refl}
use lisp_machine.Common.{Option, none, some, List, [], ◌∷◌, ◌++◌, arith}
use lisp_machine.Avl.{
  Dir, left, right, Entry, Balance, even, high, Tree, leaf, node, Frame, plug, height,
}
use lisp_machine.Avl.{
  is_even, balance_factor, set_balance_factor, left_of, right_of, fix_lr, fix_rl,
}
use lisp_machine.Avl.{avl_rotate_left, avl_rotate_right, avl_rotate_lr, avl_rotate_rl}
use lisp_machine.Avl.Delete.{
  Spot, leftmost, lean_back, rotate_shrunk, far_balance, shrunk, delete_spot, find_spot, avl_find,
}
use lisp_machine.Avl.Balanced.{Agrees, AgreesAt, IsBalanced, Fits, plug-IsBalanced}

-- A rotation after a deletion: with an even far child the height is as before, and else it is
-- one less.
abbrev Lowered : ℕ → Balance → Tree → Type 0
Lowered h even t = IsBalanced t × (height t ≡ suc h)
Lowered h (high d) t = IsBalanced t × (height t ≡ h)

rotate_shrunk_left :
    (x : Entry) (b : Balance) (t s : Tree) (h : ℕ)
    → IsBalanced t
    → IsBalanced s
    → height s ≡ h
    → h ≡ suc (suc (height t))
    → Lowered h (far_balance left (node x b t s)) (rotate_shrunk left (node x b t s))
unfolding rotate_shrunk far_balance left_of right_of balance_factor set_balance_factor
    avl_rotate_right avl_rotate_left avl_rotate_rl fix_rl is_even
rotate_shrunk_left x b t leaf h bt bs hs e = absurd (omega arith)
rotate_shrunk_left x b t (node y even rl rr) h bt (bl, br, a) hs e =
    (((bt, bl, omega arith), br, omega arith), omega arith)
rotate_shrunk_left x b t (node y (high right) rl rr) h bt (bl, br, a) hs e =
    (((bt, bl, omega arith), br, omega arith), omega arith)
rotate_shrunk_left x b t (node y (high left) leaf rr) h bt (bl, br, a) hs e = absurd (omega arith)
rotate_shrunk_left x b t (node y (high left) (node z even zl zr) rr) h bt ((bzl, bzr, az), br, a) hs
      e =
    (((bt, bzl, omega arith), (bzr, br, omega arith), omega arith), omega arith)
rotate_shrunk_left x b t (node y (high left) (node z (high left) zl zr) rr) h bt
      ((bzl, bzr, az), br, a) hs e =
    (((bt, bzl, omega arith), (bzr, br, omega arith), omega arith), omega arith)
rotate_shrunk_left x b t (node y (high left) (node z (high right) zl zr) rr) h bt
      ((bzl, bzr, az), br, a) hs e =
    (((bt, bzl, omega arith), (bzr, br, omega arith), omega arith), omega arith)

rotate_shrunk_right :
    (x : Entry) (b : Balance) (t s : Tree) (h : ℕ)
    → IsBalanced t
    → IsBalanced s
    → height s ≡ h
    → h ≡ suc (suc (height t))
    → Lowered h (far_balance right (node x b s t)) (rotate_shrunk right (node x b s t))
unfolding rotate_shrunk far_balance left_of right_of balance_factor set_balance_factor
    avl_rotate_right avl_rotate_left avl_rotate_lr fix_lr is_even
rotate_shrunk_right x b t leaf h bt bs hs e = absurd (omega arith)
rotate_shrunk_right x b t (node y even ll lr) h bt (bl, br, a) hs e =
    ((bl, (br, bt, omega arith), omega arith), omega arith)
rotate_shrunk_right x b t (node y (high left) ll lr) h bt (bl, br, a) hs e =
    ((bl, (br, bt, omega arith), omega arith), omega arith)
rotate_shrunk_right x b t (node y (high right) ll leaf) h bt (bl, br, a) hs e = absurd (omega arith)
rotate_shrunk_right x b t (node y (high right) ll (node z even zl zr)) h bt (bl, (bzl, bzr, az), a)
      hs e =
    (((bl, bzl, omega arith), (bzr, bt, omega arith), omega arith), omega arith)
rotate_shrunk_right x b t (node y (high right) ll (node z (high left) zl zr)) h bt
      (bl, (bzl, bzr, az), a) hs e =
    (((bl, bzl, omega arith), (bzr, bt, omega arith), omega arith), omega arith)
rotate_shrunk_right x b t (node y (high right) ll (node z (high right) zl zr)) h bt
      (bl, (bzl, bzr, az), a) hs e =
    (((bl, bzl, omega arith), (bzr, bt, omega arith), omega arith), omega arith)

-- One round of the last loop, for a subtree whose height `h` is one less than it was.
shrunk_step :
    (d : Dir) (b : Balance) (x : Entry) (s t : Tree) (path : List Frame) (h : ℕ)
    → IsBalanced t
    → height t ≡ h
    → IsBalanced s
    → AgreesAt d b (suc h) (height s)
    → Fits (suc (max (suc h) (height s))) path
    → ((t' : Tree) (h' : ℕ)
        → IsBalanced t'
        → height t' ≡ h'
        → Fits (suc h') path
        → IsBalanced (shrunk path t'))
    → IsBalanced (shrunk (record { dir = d; entry = x; balance = b; sibling = s } ∷ path) t)
unfolding shrunk lean_back
shrunk_step left even x s t path h bt ht bs a fits rest =
    plug-IsBalanced path (node x (high right) t s) (suc (max (suc h) (height s)))
      (bt, bs, omega arith) (omega arith) fits
shrunk_step right even x s t path h bt ht bs a fits rest =
    plug-IsBalanced path (node x (high left) s t) (suc (max (suc h) (height s)))
      (bs, bt, omega arith) (omega arith) fits
shrunk_step left (high left) x s t path h bt ht bs a fits rest =
    rest (node x even t s) (suc h) (bt, bs, omega arith) (omega arith)
      (subst (λ k. Fits k path) (omega arith) fits)
shrunk_step right (high right) x s t path h bt ht bs a fits rest =
    rest (node x even s t) (suc h) (bs, bt, omega arith) (omega arith)
      (subst (λ k. Fits k path) (omega arith) fits)
shrunk_step left (high right) x s t path h bt ht bs a fits rest =
    go (far_balance left (node x (high right) t s)) (rotate_shrunk left (node x (high right) t s))
      (rotate_shrunk_left x (high right) t s (height s) bt bs refl (omega arith))
  where
    go :
        (c : Balance) (t' : Tree)
        → Lowered (height s) c t'
        → IsBalanced (elim c as (λ _. Tree) [ even ↦ plug path t' | high d ↦ shrunk path t' ])
    go even t' (bal, tall) =
        plug-IsBalanced path t' (suc (max (suc h) (height s))) bal (omega arith) fits
    go (high d) t' (bal, tall) =
        rest t' (height s) bal tall (subst (λ k. Fits k path) (omega arith) fits)
shrunk_step right (high left) x s t path h bt ht bs a fits rest =
    go (far_balance right (node x (high left) s t)) (rotate_shrunk right (node x (high left) s t))
      (rotate_shrunk_right x (high left) t s (height s) bt bs refl (omega arith))
  where
    go :
        (c : Balance) (t' : Tree)
        → Lowered (height s) c t'
        → IsBalanced (elim c as (λ _. Tree) [ even ↦ plug path t' | high d ↦ shrunk path t' ])
    go even t' (bal, tall) =
        plug-IsBalanced path t' (suc (max (suc h) (height s))) bal (omega arith) fits
    go (high d) t' (bal, tall) =
        rest t' (height s) bal tall (subst (λ k. Fits k path) (omega arith) fits)

shrunk-IsBalanced :
    (path : List Frame) (t : Tree) (h : ℕ)
    → IsBalanced t
    → height t ≡ h
    → Fits (suc h) path
    → IsBalanced (shrunk path t)
unfolding shrunk
shrunk-IsBalanced [] t h bal e fits = bal
shrunk-IsBalanced (f ∷ path) t h bal e (bs, a, fits) =
    shrunk_step f.dir f.balance f.entry f.sibling t path h bal e bs a fits
      (λ t' h' b' e' fits'. shrunk-IsBalanced path t' h' b' e' fits')

-- The leftmost node of a subtree, taken out of a balanced tree.
leftmost-Fits :
    (y : Entry) (c : Balance) (l r : Tree) (inner path : List Frame)
    → IsBalanced (node y c l r)
    → Fits (height (node y c l r)) (inner ++ path)
    → let m = leftmost y c l r inner in
      IsBalanced m.child × Fits (suc (height m.child)) (m.path ++ path)
unfolding leftmost
leftmost-Fits y c leaf r inner path (bl, br, a) fits =
    (br, subst (λ k. Fits k (inner ++ path)) (omega arith) fits)
leftmost-Fits y c (node z d ll lr) r inner path (bl, br, a) fits =
    leftmost-Fits z d ll lr (record { dir = left; entry = y; balance = c; sibling = r } ∷ inner)
      path bl (br, a, fits)

-- A node of a balanced tree.
pub record InBalanced (s : Spot) : Type 0 where
  pub bal_l : IsBalanced s.l
  pub bal_r : IsBalanced s.r
  pub agrees : Agrees s.balance (height s.l) (height s.r)
  pub fits : Fits (suc (max (height s.l) (height s.r))) s.path

pub delete_spot-IsBalanced : (s : Spot) → InBalanced s → IsBalanced (delete_spot s).1
unfolding delete_spot
delete_spot-IsBalanced s h = go s.balance s.l s.r h.bal_l h.bal_r h.agrees h.fits
  where
    go :
        (b : Balance) (l r : Tree)
        → IsBalanced l
        → IsBalanced r
        → Agrees b (height l) (height r)
        → Fits (suc (max (height l) (height r))) s.path
        → IsBalanced
            (delete_spot (record { path = s.path; entry = s.entry; balance = b; l = l; r = r })).1
    go b l (node y c yl yr) bl br a fits =
        let m = leftmost y c yl yr [] in
        let top : Frame = record {
          dir = right;
          entry = record { addr = s.entry.addr; data_word = m.entry.data_word };
          balance = b;
          sibling = l;
        } in
        let (bc, fc) =
          leftmost-Fits y c yl yr [] (top ∷ s.path) br
            (bl, a, subst (λ k. Fits k s.path) (omega arith) fits) in
        shrunk-IsBalanced (m.path ++ (top ∷ s.path)) m.child (height m.child) bc refl fc
    go even (node y c yl yr) leaf bl br a fits = absurd (omega arith)
    go (high right) (node y c yl yr) leaf bl br a fits = absurd (omega arith)
    go (high left) (node y c yl yr) leaf (bll, blr, al) br a fits =
        shrunk-IsBalanced
          (record {
            dir = left;
            entry = record { addr = s.entry.addr; data_word = y.data_word };
            balance = high left;
            sibling = leaf;
          }
            ∷ s.path)
          yr 0 blr (omega arith) (tt, refl, subst (λ k. Fits k s.path) (omega arith) fits)
    go b leaf leaf bl br a fits = shrunk-IsBalanced s.path leaf 0 tt refl fits

abbrev pub InBalancedSome : Option Spot → Type 0
InBalancedSome none = Unit
InBalancedSome (some s) = InBalanced s

pub find_spot-InBalanced :
    (cmp : Entry → Entry → Option Dir) (t : Tree) (e : Entry) (path : List Frame)
    → IsBalanced t
    → Fits (height t) path
    → InBalancedSome (find_spot cmp t e path)
unfolding find_spot
find_spot-InBalanced cmp leaf e path bal fits = tt
find_spot-InBalanced cmp (node x b l r) e path (bl, br, a) fits =
    go (cmp x e) _ _
      (find_spot-InBalanced cmp l e
        (record { dir = left; entry = x; balance = b; sibling = r } ∷ path) bl (br, a, fits))
      (find_spot-InBalanced cmp r e
        (record { dir = right; entry = x; balance = b; sibling = l } ∷ path) br
        (bl, a, subst (λ k. Fits k path) (omega arith) fits))
  where
    go :
        (c : Option Dir) (o1 o2 : Option Spot)
        → InBalancedSome o1
        → InBalancedSome o2
        → InBalancedSome (elim c as (λ _. Option Spot) [
          | none ↦ some (record { path = path; entry = x; balance = b; l = l; r = r })
          | some left ↦ o1
          | some right ↦ o2
        ])
    go none o1 o2 p q = record { bal_l = bl; bal_r = br; agrees = a; fits = fits }
    go (some left) o1 o2 p q = p
    go (some right) o1 o2 p q = q

-- `_avl_delete` of a node that `avl_find` has found keeps a tree balanced.
pub delete_found-IsBalanced :
    (t : Tree) (value : ℕ) (cmp : Entry → Entry → Option Dir) (s : Spot)
    → IsBalanced t
    → avl_find t value cmp ≡ some s
    → IsBalanced (delete_spot s).1
unfolding avl_find
delete_found-IsBalanced t value cmp s bal found = delete_spot-IsBalanced s (
    subst (λ o. InBalancedSome o) found
      (find_spot-InBalanced cmp t (record { addr = 0; data_word = value }) [] bal tt))
