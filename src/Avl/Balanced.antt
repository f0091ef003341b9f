-- ===== src/Avl/Balanced.antt =====
-- The balance of the AVL trees, and that `_avl_insert` keeps it.
use mathlib.Core.Path.{subst}
use lisp_machine.Common.{
  ℕ, suc, max, ◌≡◌, ◌≢◌, refl, sym, ap, ◌∙◌, ◌⊎◌, inl, inr, Bool, true, false,
}
use lisp_machine.Common.{Option, none, some, List, [], ◌∷◌, arith}
use lisp_machine.Avl.{
  Dir, left, right, Entry, Balance, even, high, Tree, leaf, node, Frame, build, plug, height,
}
use lisp_machine.Avl.{
  is_even, balance_factor, set_balance_factor, left_of, right_of, fix_lr, fix_rl,
}
use lisp_machine.Avl.{avl_rotate_left, avl_rotate_right, avl_rotate_lr, avl_rotate_rl}
use lisp_machine.Avl.Insert.{descend, lean, rotate_grown, grown, attach, insert_node}

-- What a stored balance says of the heights of the two subtrees.
abbrev pub Agrees : Balance → ℕ → ℕ → Type 0
Agrees even a b = a ≡ b
Agrees (high left) a b = a ≡ suc b
Agrees (high right) a b = b ≡ suc a

-- Every stored balance is right, so that no two siblings differ by more than one.
abbrev pub IsBalanced : Tree → Type 0
IsBalanced leaf = Unit
IsBalanced (node x b l r) = IsBalanced l × IsBalanced r × Agrees b (height l) (height r)

abbrev pub AgreesAt : Dir → Balance → ℕ → ℕ → Type 0
AgreesAt left b h s = Agrees b h s
AgreesAt right b h s = Agrees b s h

-- A path whose tree is balanced with a subtree of height `h` at its end.
abbrev pub Fits : ℕ → List Frame → Type 0
Fits h [] = Unit
Fits h (f ∷ path) =
    IsBalanced f.sibling
    × AgreesAt f.dir f.balance h (height f.sibling)
    × Fits (suc (max h (height f.sibling))) path

pub height-build :
    (d : Dir) (x : Entry) (b : Balance) (s t : Tree)
    → height (build d x b s t) ≡ suc (max (height t) (height s))
height-build left x b s t = refl
height-build right x b s t = ground arith

pub build-IsBalanced :
    (d : Dir) (x : Entry) (b : Balance) (s t : Tree)
    → IsBalanced s
    → IsBalanced t
    → AgreesAt d b (height t) (height s)
    → IsBalanced (build d x b s t)
build-IsBalanced left x b s t hs ht a = (ht, hs, a)
build-IsBalanced right x b s t hs ht a = (hs, ht, a)

pub plug-IsBalanced :
    (path : List Frame) (t : Tree) (h : ℕ)
    → IsBalanced t
    → height t ≡ h
    → Fits h path
    → IsBalanced (plug path t)
unfolding plug
plug-IsBalanced [] t h bal e fits = bal
plug-IsBalanced (f ∷ path) t h bal e (hs, agrees, fits) =
    plug-IsBalanced path (build f.dir f.entry f.balance f.sibling t)
      (suc (max h (height f.sibling)))
      (build-IsBalanced f.dir f.entry f.balance f.sibling t hs bal
        (subst (λ k. AgreesAt f.dir f.balance k (height f.sibling)) (sym e) agrees))
      (height-build f.dir f.entry f.balance f.sibling t
        ∙ ap (λ k. suc (max k (height f.sibling))) e)
      fits

-- The rotations of a node that has become too high on one side.
abbrev Rotated : ℕ → Tree → Type 0
Rotated h t = IsBalanced t × (height t ≡ suc h)

rotate_grown_left :
    (x : Entry) (b : Balance) (t s : Tree) (h : ℕ)
    → IsBalanced t
    → IsBalanced s
    → height t ≡ suc h
    → h ≡ suc (height s)
    → balance_factor t ≢ even
    → Rotated h (rotate_grown left (node x b t s))
unfolding rotate_grown left_of right_of balance_factor set_balance_factor avl_rotate_right
    avl_rotate_left avl_rotate_lr fix_lr is_even
rotate_grown_left x b leaf s h bt bs ht hs ne = absurd (omega arith)
rotate_grown_left x b (node y even ll lr) s h bt bs ht hs ne = absurd (ne refl)
rotate_grown_left x b (node y (high left) ll lr) s h (bl, br, a) bs ht hs ne =
    ((bl, (br, bs, omega arith), omega arith), omega arith)
rotate_grown_left x b (node y (high right) ll leaf) s h (bl, br, a) bs ht hs ne =
    absurd (omega arith)
rotate_grown_left x b (node y (high right) ll (node z even zl zr)) s h (bl, (bzl, bzr, az), a) bs ht
      hs ne =
    (((bl, bzl, omega arith), (bzr, bs, omega arith), omega arith), omega arith)
rotate_grown_left x b (node y (high right) ll (node z (high left) zl zr)) s h
      (bl, (bzl, bzr, az), a) bs ht hs ne =
    (((bl, bzl, omega arith), (bzr, bs, omega arith), omega arith), omega arith)
rotate_grown_left x b (node y (high right) ll (node z (high right) zl zr)) s h
      (bl, (bzl, bzr, az), a) bs ht hs ne =
    (((bl, bzl, omega arith), (bzr, bs, omega arith), omega arith), omega arith)

rotate_grown_right :
    (x : Entry) (b : Balance) (t s : Tree) (h : ℕ)
    → IsBalanced t
    → IsBalanced s
    → height t ≡ suc h
    → h ≡ suc (height s)
    → balance_factor t ≢ even
    → Rotated h (rotate_grown right (node x b s t))
unfolding rotate_grown left_of right_of balance_factor set_balance_factor avl_rotate_right
    avl_rotate_left avl_rotate_rl fix_rl is_even
rotate_grown_right x b leaf s h bt bs ht hs ne = absurd (omega arith)
rotate_grown_right x b (node y even rl rr) s h bt bs ht hs ne = absurd (ne refl)
rotate_grown_right x b (node y (high right) rl rr) s h (bl, br, a) bs ht hs ne =
    (((bs, bl, omega arith), br, omega arith), omega arith)
rotate_grown_right x b (node y (high left) leaf rr) s h (bl, br, a) bs ht hs ne =
    absurd (omega arith)
rotate_grown_right x b (node y (high left) (node z even zl zr) rr) s h ((bzl, bzr, az), br, a) bs ht
      hs ne =
    (((bs, bzl, omega arith), (bzr, br, omega arith), omega arith), omega arith)
rotate_grown_right x b (node y (high left) (node z (high left) zl zr) rr) s h
      ((bzl, bzr, az), br, a) bs ht hs ne =
    (((bs, bzl, omega arith), (bzr, br, omega arith), omega arith), omega arith)
rotate_grown_right x b (node y (high left) (node z (high right) zl zr) rr) s h
      ((bzl, bzr, az), br, a) bs ht hs ne =
    (((bs, bzl, omega arith), (bzr, br, omega arith), omega arith), omega arith)

-- A subtree that has grown by one: its root is not even unless it is the new node.
record Grown (h : ℕ) (t : Tree) : Type 0 where
  bal : IsBalanced t
  tall : height t ≡ suc h
  steep : (h ≡ 0) ⊎ (balance_factor t ≢ even)

-- One round of the second loop. The rest of it is the induction hypothesis.
grown_step :
    (d : Dir) (b : Balance) (x : Entry) (s t : Tree) (path : List Frame) (h : ℕ)
    → Grown h t
    → IsBalanced s
    → AgreesAt d b h (height s)
    → Fits (suc (max h (height s))) path
    → ((t' : Tree) (h' : ℕ) → Grown h' t' → Fits h' path → IsBalanced (grown path t'))
    → IsBalanced (grown (record { dir = d; entry = x; balance = b; sibling = s } ∷ path) t)
unfolding grown lean balance_factor
grown_step left even x s t path h g bs a fits rest =
    rest (node x (high left) t s) (suc h)
      (record {
        bal = (g.bal, bs, omega (arith, g.tall));
        tall = omega (arith, g.tall);
        steep = inr (λ e. cc);
      })
      (subst (λ k. Fits k path) (omega arith) fits)
grown_step right even x s t path h g bs a fits rest =
    rest (node x (high right) s t) (suc h)
      (record {
        bal = (bs, g.bal, omega (arith, g.tall));
        tall = omega (arith, g.tall);
        steep = inr (λ e. cc);
      })
      (subst (λ k. Fits k path) (omega arith) fits)
grown_step left (high right) x s t path h g bs a fits rest =
    plug-IsBalanced path (node x even t s) (suc (max h (height s)))
      (g.bal, bs, omega (arith, g.tall)) (omega (arith, g.tall)) fits
grown_step right (high left) x s t path h g bs a fits rest =
    plug-IsBalanced path (node x even s t) (suc (max h (height s)))
      (bs, g.bal, omega (arith, g.tall)) (omega (arith, g.tall)) fits
grown_step left (high left) x s t path h g bs a fits rest =
    let steep : balance_factor t ≢ even = elim (g.steep) [
      | inl zero_h ↦ absurd (omega arith)
      | inr ne ↦ ne
    ] in
    let (bal, tall) = rotate_grown_left x (high left) t s h g.bal bs g.tall a steep in
    plug-IsBalanced path (rotate_grown left (node x (high left) t s)) (suc (max h (height s))) bal
      (tall ∙ omega arith) fits
grown_step right (high right) x s t path h g bs a fits rest =
    let steep : balance_factor t ≢ even = elim (g.steep) [
      | inl zero_h ↦ absurd (omega arith)
      | inr ne ↦ ne
    ] in
    let (bal, tall) = rotate_grown_right x (high right) t s h g.bal bs g.tall a steep in
    plug-IsBalanced path (rotate_grown right (node x (high right) s t)) (suc (max h (height s))) bal
      (tall ∙ omega arith) fits

grown-IsBalanced :
    (path : List Frame) (t : Tree) (h : ℕ) → Grown h t → Fits h path → IsBalanced (grown path t)
unfolding grown
grown-IsBalanced [] t h g fits = g.bal
grown-IsBalanced (f ∷ path) t h g (bs, a, fits) =
    grown_step f.dir f.balance f.entry f.sibling t path h g bs a fits
      (λ t' h' g' fits'. grown-IsBalanced path t' h' g' fits')

attach-IsBalanced :
    (path : List Frame) (e : Entry) → Fits 0 path → IsBalanced (attach path (node e even leaf leaf))
unfolding attach
attach-IsBalanced [] e fits = (tt, tt, refl)
attach-IsBalanced (f ∷ path) e (bs, a, fits) = go f.dir f.balance f.sibling bs a fits
  where
    single : Tree
    single = node e even leaf leaf

    go :
        (d : Dir) (b : Balance) (s : Tree)
        → IsBalanced s
        → AgreesAt d b 0 (height s)
        → Fits (suc (max 0 (height s))) path
        → IsBalanced (elim s as (λ _. Tree) [
          | leaf ↦
              grown (record { dir = d; entry = f.entry; balance = b; sibling = s } ∷ path) single
          | node x c l r ↦ plug path (build d f.entry even s single)
        ])
    go d b leaf bs a fits =
        grown-IsBalanced (record { dir = d; entry = f.entry; balance = b; sibling = leaf } ∷ path)
          single 0 (record { bal = (tt, tt, refl); tall = refl; steep = inl refl }) (bs, a, fits)
    go left even (node x c l r) bs a fits = absurd (omega arith)
    go left (high left) (node x c l r) bs a fits = absurd (omega arith)
    go left (high right) (node x c l r) bs a fits =
        plug-IsBalanced path (node f.entry even single (node x c l r))
          (suc (max 0 (height (node x c l r)))) ((tt, tt, refl), bs, omega arith) (omega arith) fits
    go right even (node x c l r) bs a fits = absurd (omega arith)
    go right (high right) (node x c l r) bs a fits = absurd (omega arith)
    go right (high left) (node x c l r) bs a fits =
        plug-IsBalanced path (node f.entry even (node x c l r) single)
          (suc (max 0 (height (node x c l r)))) (bs, (tt, tt, refl), omega arith) (omega arith) fits

module _ (cmp : Entry → Entry → Option Dir) (e : Entry) where
  abbrev FitsSome : Option (List Frame) → Type 0
  FitsSome none = Unit
  FitsSome (some path) = Fits 0 path

  descend-Fits :
      (t : Tree) (path : List Frame)
      → IsBalanced t
      → Fits (height t) path
      → FitsSome (descend cmp t e path)
  unfolding descend
  descend-Fits leaf path bal fits = fits
  descend-Fits (node x b l r) path (bl, br, a) fits =
      go (cmp x e) _ _
        (descend-Fits l (record { dir = left; entry = x; balance = b; sibling = r } ∷ path) bl
          (br, a, fits))
        (descend-Fits r (record { dir = right; entry = x; balance = b; sibling = l } ∷ path) br
          (bl, a, subst (λ k. Fits k path) (omega arith) fits))
    where
      go :
          (c : Option Dir) (o1 o2 : Option (List Frame))
          → FitsSome o1
          → FitsSome o2
          → FitsSome (elim c as (λ _. Option (List Frame)) [
            | none ↦ none
            | some left ↦ o1
            | some right ↦ o2
          ])
      go none o1 o2 p q = tt
      go (some left) o1 o2 p q = p
      go (some right) o1 o2 p q = q

  -- `_avl_insert` keeps a tree balanced, whatever the comparison is.
  pub insert_node-IsBalanced : (t : Tree) → IsBalanced t → IsBalanced (insert_node cmp t e).1
  unfolding insert_node
  insert_node-IsBalanced t bal = go (descend cmp t e []) (descend-Fits t [] bal tt)
    where
      go :
          (o : Option (List Frame))
          → FitsSome o
          → IsBalanced
              (elim o as (λ _. Bool × Tree) [
                | none ↦ (true, t)
                | some path ↦ (false, attach path (node e even leaf leaf))
              ]).1
      go none p = bal
      go (some path) p = attach-IsBalanced path e p
