-- ===== src/Avl/Sorted.antt =====
-- Lists of entries in the order of a key: what the AVL trees stand for.
use mathlib.Core.Option.{map}
use mathlib.Core.Path.{subst}
use lisp_machine.Common.{ℕ, ◌<◌, ◌≤◌, ◌==◌, ltb, lt→ltb, ◌≡◌, refl, sym, ap, ◌∙◌, inl, inr, true}
use lisp_machine.Common.{if◌then◌else◌, Bool-cases, Option, none, some, List, [], ◌∷◌, ◌++◌, arith}
use lisp_machine.Avl.{Entry}

pub map-map :
    {A B C : Type 0} (f : B → C) (g : A → B) (o : Option A) → map f (map g o) ≡ map (λ x. f (g x)) o
map-map f g none = refl
map-map f g (some x) = refl

map_id : {A : Type 0} (o : Option A) → map (λ x. x) o ≡ o
map_id none = refl
map_id (some x) = refl

module _ (key : Entry → ℕ) where
  -- The specification of an insertion: the sorted list with the entry, or `none` for a key that
  -- is there.
  unfoldable pub insert_sorted : Entry → List Entry → Option (List Entry)
  insert_sorted e [] = some (e ∷ [])
  insert_sorted e (x ∷ xs) =
      let rest = map (λ ys. x ∷ ys) (insert_sorted e xs) in
      if ltb (key x) (key e) then rest else if key x == key e then none else some (e ∷ x ∷ xs)

  abbrev pub AllBelow : ℕ → List Entry → Type 0
  AllBelow k [] = Unit
  AllBelow k (x ∷ xs) = (key x < k) × AllBelow k xs

  abbrev pub AllAbove : ℕ → List Entry → Type 0
  AllAbove k [] = Unit
  AllAbove k (x ∷ xs) = (k < key x) × AllAbove k xs

  -- Strictly increasing keys.
  abbrev pub IsSorted : List Entry → Type 0
  IsSorted [] = Unit
  IsSorted (x ∷ xs) = AllAbove (key x) xs × IsSorted xs

  pub AllBelow-append :
      (k : ℕ) (xs ys : List Entry) → AllBelow k xs → AllBelow k ys → AllBelow k (xs ++ ys)
  AllBelow-append k [] ys p q = q
  AllBelow-append k (x ∷ xs) ys (lt, p) q = (lt, AllBelow-append k xs ys p q)

  pub AllBelow-weaken : (j k : ℕ) (xs : List Entry) → j ≤ k → AllBelow j xs → AllBelow k xs
  AllBelow-weaken j k [] h a = tt
  AllBelow-weaken j k (x ∷ xs) h (lt, a) = (omega arith, AllBelow-weaken j k xs h a)

  AllAbove-weaken : (j k : ℕ) (xs : List Entry) → j ≤ k → AllAbove k xs → AllAbove j xs
  AllAbove-weaken j k [] h a = tt
  AllAbove-weaken j k (x ∷ xs) h (lt, a) = (omega arith, AllAbove-weaken j k xs h a)

  AllAbove-split :
      (k : ℕ) (xs : List Entry) (x : Entry) (ys : List Entry)
      → AllAbove k (xs ++ (x ∷ ys))
      → AllAbove k xs × (k < key x)
  AllAbove-split k [] x ys (lt, a) = (tt, lt)
  AllAbove-split k (z ∷ xs) x ys (lt, a) =
      let (low, mid) = AllAbove-split k xs x ys a in ((lt, low), mid)

  pub IsSorted-split :
      (xs : List Entry) (x : Entry) (ys : List Entry)
      → IsSorted (xs ++ (x ∷ ys))
      → AllBelow (key x) xs × IsSorted xs × IsSorted ys × AllAbove (key x) ys
  IsSorted-split [] x ys (a, s) = (tt, tt, s, a)
  IsSorted-split (z ∷ xs) x ys (a, s) =
      let (low, sorted, rest, high) = IsSorted-split xs x ys s in
      let (above, lt) = AllAbove-split (key z) xs x ys a in ((lt, low), (above, sorted), rest, high)

  pub insert_sorted-past :
      (e : Entry) (xs ys : List Entry)
      → AllBelow (key e) xs
      → insert_sorted e (xs ++ ys) ≡ map (λ zs. xs ++ zs) (insert_sorted e ys)
  unfolding insert_sorted
  insert_sorted-past e [] ys h = sym (map_id (insert_sorted e ys))
  insert_sorted-past e (x ∷ xs) ys (lt, h) =
      let less : ltb (key x) (key e) ≡ true = lt→ltb (key x) (key e) lt in
      rw less (
        ap (λ o. map (λ zs. x ∷ zs) o) (insert_sorted-past e xs ys h)
        ∙ map-map (λ zs. x ∷ zs) (λ zs. xs ++ zs) (insert_sorted e ys))

  pub insert_sorted-before :
      (e x : Entry) (xs ys : List Entry)
      → key e < key x
      → insert_sorted e (xs ++ (x ∷ ys)) ≡ map (λ zs. zs ++ (x ∷ ys)) (insert_sorted e xs)
  unfolding insert_sorted
  insert_sorted-before e x [] ys h = ground arith
  insert_sorted-before e x (z ∷ xs) ys h = elim (Bool-cases (ltb (key z) (key e))) [
    | inl less ↦ rw less (
        ap (λ o. map (λ zs. z ∷ zs) o) (insert_sorted-before e x xs ys h)
        ∙ map-map (λ zs. z ∷ zs) (λ zs. zs ++ (x ∷ ys)) (insert_sorted e xs)
        ∙ sym (map-map (λ zs. zs ++ (x ∷ ys)) (λ zs. z ∷ zs) (insert_sorted e xs)))
    | inr other ↦ elim (Bool-cases (key z == key e)) [
      | inl same ↦ rw (other, same) refl
      | inr more ↦ rw (other, more) refl
    ]
  ]

  -- What holds of a result that is there.
  abbrev pub OnSome : (List Entry → Type 0) → Option (List Entry) → Type 0
  OnSome P none = Unit
  OnSome P (some xs) = P xs

  insert_sorted-AllAbove :
      (k : ℕ) (e : Entry) (xs : List Entry)
      → k < key e
      → AllAbove k xs
      → OnSome (AllAbove k) (insert_sorted e xs)
  unfolding insert_sorted
  insert_sorted-AllAbove k e [] h a = (h, tt)
  insert_sorted-AllAbove k e (x ∷ xs) h (lt, a) = elim (Bool-cases (ltb (key x) (key e))) [
    | inl less ↦ rw less (go (insert_sorted e xs) (insert_sorted-AllAbove k e xs h a))
    | inr other ↦ elim (Bool-cases (key x == key e)) [
      | inl same ↦ rw (other, same) tt
      | inr more ↦ rw (other, more) (h, (lt, a))
    ]
  ]
    where
      go :
          (o : Option (List Entry))
          → OnSome (AllAbove k) o
          → OnSome (AllAbove k) (map (λ ys. x ∷ ys) o)
      go none p = tt
      go (some ys) p = (lt, p)

  -- An insertion keeps a list sorted.
  pub insert_sorted-OnSome :
      (e : Entry) (xs : List Entry) → IsSorted xs → OnSome IsSorted (insert_sorted e xs)
  unfolding insert_sorted
  insert_sorted-OnSome e [] s = (tt, tt)
  insert_sorted-OnSome e (x ∷ xs) (a, s) = elim (Bool-cases (ltb (key x) (key e))) [
    | inl less ↦ rw less (
        go (insert_sorted e xs) (insert_sorted-AllAbove (key x) e xs (ground arith) a)
          (insert_sorted-OnSome e xs s))
    | inr other ↦ elim (Bool-cases (key x == key e)) [
      | inl same ↦ rw (other, same) tt
      | inr more ↦
          (let lt : key e < key x = ground arith in
            rw (other, more) ((lt, AllAbove-weaken (key e) (key x) xs (omega arith) a), (a, s)))
    ]
  ]
    where
      go :
          (o : Option (List Entry))
          → OnSome (AllAbove (key x)) o
          → OnSome IsSorted o
          → OnSome IsSorted (map (λ ys. x ∷ ys) o)
      go none p q = tt
      go (some ys) p q = (p, q)

  pub insert_sorted-IsSorted :
      (e : Entry) (xs : List Entry) {ys : List Entry}
      → IsSorted xs
      → insert_sorted e xs ≡ some ys
      → IsSorted ys
  insert_sorted-IsSorted e xs s eq = subst (λ o. OnSome IsSorted o) eq (insert_sorted-OnSome e xs s)
