-- ===== src/Avl/Find.antt =====
-- `avl_find` of datastructures.c on a tree in order, against a search in the list of its entries.
use mathlib.Core.Option.{map}
use lisp_machine.Common.{ℕ, ◌<◌, ◌≤◌, ◌==◌, ltb, ◌≡◌, refl, sym, ap, ◌∙◌, inl, inr, true, false}
use lisp_machine.Common.{if◌then◌else◌, Bool-cases, Option, none, some, List, [], ◌∷◌, ◌++◌, arith}
use lisp_machine.Common.{lt_trichotomy}
use lisp_machine.Avl.{Entry, Dir, left, right, Tree, leaf, node, Frame, entries}
use lisp_machine.Avl.Delete.{Spot, find_spot}
use lisp_machine.Avl.Sorted.{AllBelow, AllAbove, AllBelow-weaken, IsSorted, IsSorted-split}
use lisp_machine.Avl.Sorted.{insert_sorted}

abbrev pub compare_at : ℕ → ℕ → Option Dir
compare_at j k = if ltb j k then some right else if j == k then none else some left

abbrev pub found_entry : Option Spot → Option Entry
found_entry none = none
found_entry (some s) = some (s.entry)

module _ (key : Entry → ℕ) where
  unfoldable pub find_key : ℕ → List Entry → Option Entry
  find_key k [] = none
  find_key k (x ∷ xs) = let rest = find_key k xs in if key x == k then some x else rest

  pub find_key-past :
      (k : ℕ) (xs ys : List Entry) → AllBelow key k xs → find_key k (xs ++ ys) ≡ find_key k ys
  unfolding find_key
  find_key-past k [] ys low = refl
  find_key-past k (x ∷ xs) ys (lt, low) =
      let other : (key x == k) ≡ false = ground arith in rw other (find_key-past k xs ys low)

  pub find_key-above :
      (j k : ℕ) (xs : List Entry) → k ≤ j → AllAbove key j xs → find_key k xs ≡ none
  unfolding find_key
  find_key-above j k [] h high = refl
  find_key-above j k (x ∷ xs) h (lt, high) =
      let other : (key x == k) ≡ false = ground arith in rw other (find_key-above j k xs h high)

  find_key-before :
      (k : ℕ) (x : Entry) (xs ys : List Entry)
      → k < key x
      → AllAbove key (key x) ys
      → find_key k (xs ++ x ∷ ys) ≡ find_key k xs
  unfolding find_key
  find_key-before k x [] ys h high =
      let other : (key x == k) ≡ false = ground arith in
      rw other (find_key-above (key x) k ys (omega arith) high)
  find_key-before k x (z ∷ xs) ys h high =
      ap (λ o. if key z == k then some z else o) (find_key-before k x xs ys h high)

  -- A search with any comparison that looks at the keys.
  pub find_spot-find_key :
      (cmp : Entry → Entry → Option Dir) (e : Entry) (k : ℕ)
      → ((x : Entry) → cmp x e ≡ compare_at (key x) k)
      → (t : Tree) (path : List Frame) → IsSorted key (entries t)
      → found_entry (find_spot cmp t e path) ≡ find_key k (entries t)
  unfolding find_spot find_key
  find_spot-find_key cmp e k same leaf path h = refl
  find_spot-find_key cmp e k same (node x b l r) path h =
      let (low, on_left, on_right, high) = IsSorted-split key (entries l) x (entries r) h in
      elim (lt_trichotomy (key x) k) [
        | inl lt ↦
            let c : compare_at (key x) k ≡ some right = ground arith in
            let other : (key x == k) ≡ false = ground arith in
            let past =
              find_key-past k (entries l) (x ∷ entries r)
                (AllBelow-weaken key (key x) k (entries l) (omega arith) low) in
            rw (same x ∙ c, find_spot)
              (find_spot-find_key cmp e k same r
                  (record { dir = right; entry = x; balance = b; sibling = l } ∷ path) on_right
                ∙ sym (past ∙ rw (other, find_key) refl))
        | inr (inl eq) ↦
            let c : compare_at (key x) k ≡ none = ground arith in
            let this : (key x == k) ≡ true = ground arith in
            let past =
              find_key-past k (entries l) (x ∷ entries r)
                (AllBelow-weaken key (key x) k (entries l) (omega arith) low) in
            rw (same x ∙ c, find_spot) (sym (past ∙ rw (this, find_key) refl))
        | inr (inr gt) ↦
            let c : compare_at (key x) k ≡ some left = ground arith in
            rw (same x ∙ c, find_spot)
              (find_spot-find_key cmp e k same l
                  (record { dir = left; entry = x; balance = b; sibling = r } ∷ path) on_left
                ∙ sym (find_key-before k x (entries l) (entries r) gt high))
      ]

  -- What an insertion does to a search, whether it is refused or not.
  abbrev pub Extends : Entry → List Entry → Option (List Entry) → Type 0
  Extends e xs none = (x : Entry) × (find_key (key e) xs ≡ some x)
  Extends e xs (some ys) =
      (find_key (key e) xs ≡ none)
      × ((k : ℕ) → find_key k ys ≡ (if key e == k then some e else find_key k xs))

  Extends-behind :
      (e x : Entry) (xs : List Entry) (o : Option (List Entry))
      → key x < key e
      → Extends e xs o
      → Extends e (x ∷ xs) (map (λ ys. x ∷ ys) o)
  unfolding find_key
  Extends-behind e x xs none lt (y, f) =
      let other : (key x == key e) ≡ false = ground arith in (y, rw other f)
  Extends-behind e x xs (some ys) lt (f, g) =
      let other : (key x == key e) ≡ false = ground arith in
      (
        rw other f,
        λ k. elim (Bool-cases (key x == k)) [
          | inl here ↦ let apart : (key e == k) ≡ false = ground arith in rw (here, apart) refl
          | inr more ↦ rw (more, g k) refl
        ],
      )

  pub insert_sorted-Extends :
      (e : Entry) (xs : List Entry) → IsSorted key xs → Extends e xs (insert_sorted key e xs)
  unfolding insert_sorted find_key
  insert_sorted-Extends e [] h = (refl, λ k. refl)
  insert_sorted-Extends e (x ∷ xs) (high, h) = elim (Bool-cases (ltb (key x) (key e))) [
    | inl less ↦
        let lt : key x < key e = ground arith in
        rw less (Extends-behind e x xs (insert_sorted key e xs) lt (insert_sorted-Extends e xs h))
    | inr other ↦ elim (Bool-cases (key x == key e)) [
      | inl same ↦ rw (other, same) (x, rw same refl)
      | inr more ↦
          let below : key e ≤ key x = ground arith in
          rw (other, more) (rw more (find_key-above (key x) (key e) xs below high), λ k. refl)
    ]
  ]
