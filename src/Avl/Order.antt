-- ===== src/Avl/Order.antt =====
-- `_avl_insert` against insertion into a sorted list.
use lisp_machine.Common.{lt_trichotomy}
use mathlib.Core.Option.{map}
use mathlib.Core.Path.{subst₂}
use lisp_machine.Avl.Sorted.{map-map, AllBelow}
use lisp_machine.Common.{ℕ, ◌<◌, ◌==◌, ltb, ◌≡◌, refl, sym, ap, ◌∙◌, inl, inr, Bool, true, false}
use lisp_machine.Common.{Option, none, some, List, [], ◌∷◌, ◌++◌, append_assoc, append-nil, arith}
use lisp_machine.Avl.{
  Dir, left, right, Entry, Balance, even, high, Tree, leaf, node, Frame, build, plug, entries,
  compare_by,
}
use lisp_machine.Avl.{left_of, right_of, balance_factor}
use lisp_machine.Avl.Sorted.{insert_sorted, IsSorted, IsSorted-split, AllBelow-weaken}
use lisp_machine.Avl.Sorted.{insert_sorted-past, insert_sorted-before}
use lisp_machine.Avl.Insert.{
  descend, Leaning, over, stored, lean, rotate_grown, grown, attach, insert_node,
}
use lisp_machine.Avl.Rotate.{
  entries-build_eq, entries-plug_eq, entries-rotate_left, entries-rotate_right,
}
use lisp_machine.Avl.Rotate.{entries-rotate_lr, entries-rotate_rl}
use lisp_machine.Avl.{avl_rotate_left, avl_rotate_right, avl_rotate_lr, avl_rotate_rl}

-- The entries before and behind the place where a path ends.
abbrev pub before : List Frame → List Entry
before [] = []
before (f ∷ path) = elim f.dir [
  | left ↦ before path
  | right ↦ before path ++ (entries f.sibling ++ (f.entry ∷ []))
]

abbrev pub behind : List Frame → List Entry
behind [] = []
behind (f ∷ path) = elim f.dir [
  | left ↦ f.entry ∷ (entries f.sibling ++ behind path)
  | right ↦ behind path
]

pub entries-plug :
    (path : List Frame) (t : Tree)
    → entries (plug path t) ≡ before path ++ (entries t ++ behind path)
unfolding plug
entries-plug [] t = sym (append-nil (entries t))
entries-plug (f ∷ path) t = go f.dir (λ t. entries-plug path t)
  where
    go :
        (d : Dir)
        → ((t : Tree) → entries (plug path t) ≡ before path ++ (entries t ++ behind path))
        → entries (plug path (build d f.entry f.balance f.sibling t))
          ≡ before
              (record { dir = d; entry = f.entry; balance = f.balance; sibling = f.sibling } ∷ path)
            ++ (entries t
                ++ behind (
                    record { dir = d; entry = f.entry; balance = f.balance; sibling = f.sibling }
                    ∷ path))
    go left rest =
        rest (node f.entry f.balance t f.sibling)
        ∙ ap (λ ts. before path ++ ts)
            (append_assoc (entries t) (f.entry ∷ entries f.sibling) (behind path))
    go right rest = rest (node f.entry f.balance f.sibling t) ∙ simp append_assoc refl

rotate_grown-entries : (d : Dir) (t : Tree) → entries (rotate_grown d t) ≡ entries t
unfolding rotate_grown
rotate_grown-entries left t = go (balance_factor (left_of t))
  where
    go :
        (b : Balance)
        → entries (elim b as (λ _. Tree) [ high left ↦ avl_rotate_right t | _ ↦ avl_rotate_lr t ])
          ≡ entries t
    go even = entries-rotate_lr t
    go (high left) = entries-rotate_right t
    go (high right) = entries-rotate_lr t
rotate_grown-entries right t = go (balance_factor (right_of t))
  where
    go :
        (b : Balance)
        → entries (elim b as (λ _. Tree) [ high right ↦ avl_rotate_left t | _ ↦ avl_rotate_rl t ])
          ≡ entries t
    go even = entries-rotate_rl t
    go (high left) = entries-rotate_rl t
    go (high right) = entries-rotate_left t

-- Rebalancing keeps the order.
grown-entries : (path : List Frame) (t : Tree) → entries (grown path t) ≡ entries (plug path t)
unfolding grown plug
grown-entries [] t = refl
grown-entries (f ∷ path) t =
    go (lean f.dir f.balance) (λ b. grown-entries path (build f.dir f.entry b f.sibling t))
  where
    go :
        (l : Leaning)
        → ((b : Balance)
            → entries (grown path (build f.dir f.entry b f.sibling t))
              ≡ entries (plug path (build f.dir f.entry b f.sibling t)))
        → entries (elim l as (λ _. Tree) [
          | over ↦ plug path (rotate_grown f.dir (build f.dir f.entry f.balance f.sibling t))
          | stored even ↦ plug path (build f.dir f.entry even f.sibling t)
          | stored (high d) ↦ grown path (build f.dir f.entry (high d) f.sibling t)
        ])
          ≡ entries (plug path (build f.dir f.entry f.balance f.sibling t))
    go over rest =
        entries-plug_eq path _ _
          (rotate_grown-entries f.dir (build f.dir f.entry f.balance f.sibling t))
    go (stored even) rest =
        entries-plug_eq path _ _ (entries-build_eq f.dir f.entry even f.balance f.sibling t t refl)
    go (stored (high d)) rest =
        rest (high d)
        ∙ entries-plug_eq path _ _
            (entries-build_eq f.dir f.entry (high d) f.balance f.sibling t t refl)

attach-entries :
    (path : List Frame) (t : Tree)
    → entries (attach path t) ≡ before path ++ (entries t ++ behind path)
unfolding attach plug
attach-entries [] t = sym (append-nil (entries t))
attach-entries (f ∷ path) t = go f.sibling
  where
    go :
        (s : Tree)
        → entries (elim s as (λ _. Tree) [
          | leaf ↦ grown (f ∷ path) t
          | node x b l r ↦ plug path (build f.dir f.entry even f.sibling t)
        ])
          ≡ before (f ∷ path) ++ (entries t ++ behind (f ∷ path))
    go leaf = grown-entries (f ∷ path) t ∙ entries-plug (f ∷ path) t
    go (node x b l r) =
        entries-plug_eq path _ _ (entries-build_eq f.dir f.entry even f.balance f.sibling t t refl)
        ∙ entries-plug (f ∷ path) t

-- What `descend` finds against what insertion into the sorted list gives.
data Matches (path : List Frame) (e : Entry)
    : Option (List Frame) → Option (List Entry) → Type 0 where
  present : Matches path e none none
  placed :
      {path' : List Frame} {xs : List Entry}
      → before path' ++ (e ∷ behind path') ≡ before path ++ (xs ++ behind path)
      → Matches path e (some path') (some xs)

module _ (key : Entry → ℕ) (e : Entry) where
  Matches-left :
      (x : Entry) (b : Balance) (r : Tree) (path : List Frame) {o : Option (List Frame)}
      {zs : Option (List Entry)}
      → Matches (record { dir = left; entry = x; balance = b; sibling = r } ∷ path) e o zs
      → Matches path e o (map (λ ys. ys ++ (x ∷ entries r)) zs)
  Matches-left x b r path present = present
  Matches-left x b r path (placed {xs = xs} p) =
      placed
        (p ∙ ap (λ ts. before path ++ ts) (sym (append_assoc xs (x ∷ entries r) (behind path))))

  Matches-right :
      (x : Entry) (b : Balance) (l : Tree) (path : List Frame) {o : Option (List Frame)}
      {zs : Option (List Entry)}
      → Matches (record { dir = right; entry = x; balance = b; sibling = l } ∷ path) e o zs
      → Matches path e o (map (λ ys. entries l ++ (x ∷ ys)) zs)
  Matches-right x b l path present = present
  Matches-right x b l path (placed {xs = xs} p) = placed (p ∙ simp append_assoc refl)

  -- Where the comparison sends the descent.
  descend-right :
      (x : Entry) (b : Balance) (l r : Tree) (path : List Frame)
      → key x < key e
      → descend (compare_by key) (node x b l r) e path
        ≡ descend
            (compare_by key)
            r
            e
            (record { dir = right; entry = x; balance = b; sibling = l } ∷ path)
  unfolding descend compare_by
  descend-right x b l r path h =
      let less : ltb (key x) (key e) ≡ true = ground arith in rw (less, descend) refl

  descend-left :
      (x : Entry) (b : Balance) (l r : Tree) (path : List Frame)
      → key e < key x
      → descend (compare_by key) (node x b l r) e path
        ≡ descend
            (compare_by key)
            l
            e
            (record { dir = left; entry = x; balance = b; sibling = r } ∷ path)
  unfolding descend compare_by
  descend-left x b l r path h =
      let less : ltb (key x) (key e) ≡ false = ground arith in
      let same : (key x == key e) ≡ false = ground arith in rw (less, same, descend) refl

  descend-none :
      (x : Entry) (b : Balance) (l r : Tree) (path : List Frame)
      → key x ≡ key e
      → descend (compare_by key) (node x b l r) e path ≡ none
  unfolding descend compare_by
  descend-none x b l r path h =
      let less : ltb (key x) (key e) ≡ false = ground arith in
      let same : (key x == key e) ≡ true = ground arith in rw (less, same, descend) refl

  insert_sorted-greater :
      (x : Entry) (xs ys : List Entry)
      → key x < key e
      → AllBelow key (key x) xs
      → insert_sorted key e (xs ++ (x ∷ ys)) ≡ map (λ zs. xs ++ (x ∷ zs)) (insert_sorted key e ys)
  unfolding insert_sorted
  insert_sorted-greater x xs ys h low =
      let less : ltb (key x) (key e) ≡ true = ground arith in
      insert_sorted-past key e xs (x ∷ ys)
        (AllBelow-weaken key (key x) (key e) xs (omega arith) low)
      ∙ rw less (map-map (λ zs. xs ++ zs) (λ zs. x ∷ zs) (insert_sorted key e ys))

  insert_sorted-present :
      (x : Entry) (xs ys : List Entry)
      → key x ≡ key e
      → AllBelow key (key x) xs
      → insert_sorted key e (xs ++ (x ∷ ys)) ≡ none
  unfolding insert_sorted
  insert_sorted-present x xs ys h low =
      let less : ltb (key x) (key e) ≡ false = ground arith in
      let same : (key x == key e) ≡ true = ground arith in
      insert_sorted-past key e xs (x ∷ ys)
        (AllBelow-weaken key (key x) (key e) xs (omega arith) low)
      ∙ rw (less, same) refl

  descend-Matches :
      (t : Tree) (path : List Frame)
      → IsSorted key (entries t)
      → Matches path e (descend (compare_by key) t e path) (insert_sorted key e (entries t))
  unfolding descend insert_sorted
  descend-Matches leaf path h = placed refl
  descend-Matches (node x b l r) path h =
      let (low, sorted_l, sorted_r, _) = IsSorted-split key (entries l) x (entries r) h in
      let on_left =
        descend-Matches l (record { dir = left; entry = x; balance = b; sibling = r } ∷ path)
          sorted_l in
      let on_right =
        descend-Matches r (record { dir = right; entry = x; balance = b; sibling = l } ∷ path)
          sorted_r in
      elim (lt_trichotomy (key x) (key e)) [
        | inl less ↦
            subst₂ (λ o zs. Matches path e o zs) (sym (descend-right x b l r path less))
              (sym (insert_sorted-greater x (entries l) (entries r) less low))
              (Matches-right x b l path on_right)
        | inr (inl same) ↦
            subst₂ (λ o zs. Matches path e o zs) (sym (descend-none x b l r path same))
              (sym (insert_sorted-present x (entries l) (entries r) same low)) present
        | inr (inr more) ↦
            subst₂ (λ o zs. Matches path e o zs) (sym (descend-left x b l r path more))
              (sym (insert_sorted-before key e x (entries l) (entries r) more))
              (Matches-left x b r path on_left)
      ]

  abbrev pub Inserted : Tree → Bool × Tree → Option (List Entry) → Type 0
  Inserted t (refused, t') none = (refused ≡ true) × (t' ≡ t)
  Inserted t (refused, t') (some xs) = (refused ≡ false) × (entries t' ≡ xs)

  -- `_avl_insert` on a tree with increasing keys does what insertion into the sorted list of its
  -- entries does: it returns 1 and changes nothing when the key is there, and else the entries
  -- are those of the longer list.
  pub insert_node_lem :
      (t : Tree)
      → IsSorted key (entries t)
      → Inserted t (insert_node (compare_by key) t e) (insert_sorted key e (entries t))
  unfolding insert_node
  insert_node_lem t h = go (descend-Matches t [] h)
    where
      go :
          {o : Option (List Frame)} {zs : Option (List Entry)}
          → Matches [] e o zs
          → Inserted t
              (elim o as (λ _. Bool × Tree) [
                | none ↦ (true, t)
                | some path ↦ (false, attach path (node e even leaf leaf))
              ])
              zs
      go present = (refl, refl)
      go (placed {path' = path'} {xs = xs} p) =
          (refl, attach-entries path' (node e even leaf leaf) ∙ p ∙ append-nil xs)
