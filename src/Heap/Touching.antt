-- ===== src/Heap/Touching.antt =====
-- Which free blocks touch a given place, and where in the tree they stand.
use lisp_machine.Common.{ℕ, ◌+◌, ◌<◌, ◌≤◌, ◌==◌, ==_ne, ◌⊎◌, ◌≡◌, refl, ◌∙◌}
use lisp_machine.Common.{true, if◌then◌else◌, Option, none, some, List, [], ◌∷◌, ◌++◌, arith}
use lisp_machine.Avl.{Entry, Balance, Tree, node, entries}
use lisp_machine.Heap.Blocks.{start, end, AllFrom, AllUpTo, IsApart, AllClear, IsApart-split}

-- The first block that ends before the word `a`, and the first that starts there.
abbrev pub ends_at : ℕ → List Entry → Option Entry
ends_at a [] = none
ends_at a (x ∷ xs) = let rest = ends_at a xs in if end x == a then some x else rest

abbrev pub starts_at : ℕ → List Entry → Option Entry
starts_at a [] = none
starts_at a (x ∷ xs) = let rest = starts_at a xs in if start x == a then some x else rest

pub ends_at-AllFrom : (a k : ℕ) (xs : List Entry) → a ≤ k → AllFrom k xs → ends_at a xs ≡ none
ends_at-AllFrom a k [] le h = refl
ends_at-AllFrom a k (x ∷ xs) le (lt, h) =
    rw (==_ne (end x) a (omega arith)) (ends_at-AllFrom a k xs le h)

pub starts_at-AllFrom : (a k : ℕ) (xs : List Entry) → a ≤ k → AllFrom k xs → starts_at a xs ≡ none
starts_at-AllFrom a k [] le h = refl
starts_at-AllFrom a k (x ∷ xs) le (lt, h) =
    rw (==_ne (start x) a (omega arith)) (starts_at-AllFrom a k xs le h)

ends_at-AllUpTo :
    (a k : ℕ) (xs ys : List Entry) → k ≤ a → AllUpTo k xs → ends_at a (xs ++ ys) ≡ ends_at a ys
ends_at-AllUpTo a k [] ys le h = refl
ends_at-AllUpTo a k (x ∷ xs) ys le (lt, h) =
    rw (==_ne (end x) a (omega arith)) (ends_at-AllUpTo a k xs ys le h)

starts_at-AllUpTo :
    (a k : ℕ) (xs ys : List Entry) → k ≤ a → AllUpTo k xs → starts_at a (xs ++ ys) ≡ starts_at a ys
starts_at-AllUpTo a k [] ys le h = refl
starts_at-AllUpTo a k (x ∷ xs) ys le (lt, h) =
    rw (==_ne (start x) a (omega arith)) (starts_at-AllUpTo a k xs ys le h)

ends_at-append :
    (a : ℕ) (xs ys : List Entry) → ends_at a ys ≡ none → ends_at a (xs ++ ys) ≡ ends_at a xs
ends_at-append a [] ys h = h
ends_at-append a (x ∷ xs) ys h = ground (arith, ends_at-append a xs ys h)

starts_at-append :
    (a : ℕ) (xs ys : List Entry) → starts_at a ys ≡ none → starts_at a (xs ++ ys) ≡ starts_at a xs
starts_at-append a [] ys h = h
starts_at-append a (x ∷ xs) ys h = ground (arith, starts_at-append a xs ys h)

pub AllClear-split :
    (a n : ℕ) (xs : List Entry) (x : Entry) (ys : List Entry)
    → AllClear a n (xs ++ (x ∷ ys))
    → AllClear a n xs × ((end x ≤ a) ⊎ (a + n ≤ start x)) × AllClear a n ys
AllClear-split a n [] x ys (c, h) = (tt, c, h)
AllClear-split a n (z ∷ xs) x ys (c, h) =
    let (p, q, r) = AllClear-split a n xs x ys h in ((c, p), q, r)

starts_at-AllUpTo-none : (a k : ℕ) (xs : List Entry) → k ≤ a → AllUpTo k xs → starts_at a xs ≡ none
starts_at-AllUpTo-none a k [] le h = refl
starts_at-AllUpTo-none a k (x ∷ xs) le (lt, h) =
    rw (==_ne (start x) a (omega arith)) (starts_at-AllUpTo-none a k xs le h)

module _ (addr size : ℕ) (pos : 0 < size) where
  -- What a node of the tree says of its two subtrees, by where its block lies.
  module _ (x : Entry) (b : Balance) (l r : Tree) (apart : IsApart (entries (node x b l r))) where
    pub ends_left :
        addr + size ≤ start x → ends_at addr (entries (node x b l r)) ≡ ends_at addr (entries l)
    ends_left le =
        let (low, _, high, _) = IsApart-split (entries l) x (entries r) apart in
        ends_at-append addr (entries l) (x ∷ entries r) (
          rw (==_ne (end x) addr (omega arith))
            (ends_at-AllFrom addr (end x) (entries r) (omega arith) high))

    pub starts_right :
        end x ≤ addr
        → starts_at (addr + size) (entries (node x b l r)) ≡ starts_at (addr + size) (entries r)
    starts_right le =
        let (low, _, high, _) = IsApart-split (entries l) x (entries r) apart in
        starts_at-AllUpTo (addr + size) (start x) (entries l) (x ∷ entries r) (omega arith) low
        ∙ rw (==_ne (start x) (addr + size) (omega arith)) refl

    pub starts_here :
        start x ≡ addr + size
        → (starts_at (addr + size) (entries (node x b l r)) ≡ some x)
          × (starts_at (addr + size) (entries l) ≡ none)
    starts_here e =
        let (low, _, high, _) = IsApart-split (entries l) x (entries r) apart in
        let hit : (start x == addr + size) ≡ true = ground arith in
        (
          starts_at-AllUpTo (addr + size) (start x) (entries l) (x ∷ entries r) (omega arith) low
              ∙ rw hit refl,
          starts_at-AllUpTo-none (addr + size) (start x) (entries l) (omega arith) low,
        )

    pub starts_left :
        addr + size < start x
        → starts_at (addr + size) (entries (node x b l r)) ≡ starts_at (addr + size) (entries l)
    starts_left lt =
        let (low, _, high, _) = IsApart-split (entries l) x (entries r) apart in
        starts_at-append (addr + size) (entries l) (x ∷ entries r) (
          rw (==_ne (start x) (addr + size) (omega arith))
            (starts_at-AllFrom (addr + size) (end x) (entries r) (omega arith) high))

    pub ends_here :
        end x ≡ addr
        → (ends_at addr (entries (node x b l r)) ≡ some x) × (ends_at addr (entries r) ≡ none)
    ends_here e =
        let (low, _, high, _) = IsApart-split (entries l) x (entries r) apart in
        let hit : (end x == addr) ≡ true = ground arith in
        (
          ends_at-AllUpTo addr (start x) (entries l) (x ∷ entries r) (omega arith) low
              ∙ rw hit refl,
          ends_at-AllFrom addr (end x) (entries r) (omega arith) high,
        )

    pub ends_right : end x < addr → ends_at addr (entries (node x b l r)) ≡ ends_at addr (entries r)
    ends_right lt =
        let (low, _, high, _) = IsApart-split (entries l) x (entries r) apart in
        ends_at-AllUpTo addr (start x) (entries l) (x ∷ entries r) (omega arith) low
        ∙ rw (==_ne (end x) addr (omega arith)) refl
