-- ===== src/Set/Taken.antt =====
-- Removals from the trees of datastructures.c whose keys depend on the data: what a search by a key
-- finds afterwards.
use mathlib.Core.Path.{subst}
use lisp_machine.Common.{ℕ, ◌<◌, ◌==◌, ◌≡◌, refl, sym, ap, ◌∙◌, inl, inr, arith, Bool-cases}
use lisp_machine.Common.{if◌then◌else◌, false, Option, none, some, List, [], ◌∷◌, ◌++◌}
use lisp_machine.Common.{==_iff}
use lisp_machine.Avl.{Entry, entries}
use lisp_machine.Avl.Find.{find_key, find_key-past, find_key-above}
use lisp_machine.Avl.Sorted.{IsSorted, IsSorted-split, AllAbove, AllBelow}
use lisp_machine.Avl.Delete.{Spot, delete_spot}
use lisp_machine.Avl.DeleteOrder.{words, lower, upper, delete_spot-words}
use lisp_machine.Avl.DeleteBalanced.{InBalanced}

abbrev pub data_of : Option Entry → Option ℕ
data_of none = none
data_of (some n) = some n.data_word

module _ (f : ℕ → ℕ) where
  abbrev pub key : Entry → ℕ
  key n = f n.data_word

  abbrev AboveWords : ℕ → List ℕ → Type 0
  AboveWords k [] = Unit
  AboveWords k (w ∷ ws) = (k < f w) × AboveWords k ws

  abbrev SortedWords : List ℕ → Type 0
  SortedWords [] = Unit
  SortedWords (w ∷ ws) = AboveWords (f w) ws × SortedWords ws

  AllAbove-words : (k : ℕ) (es : List Entry) → AllAbove key k es → AboveWords k (words es)
  AllAbove-words k [] h = tt
  AllAbove-words k (x ∷ es) (lt, h) = (lt, AllAbove-words k es h)

  words-AllAbove : (k : ℕ) (es : List Entry) → AboveWords k (words es) → AllAbove key k es
  words-AllAbove k [] h = tt
  words-AllAbove k (x ∷ es) (lt, h) = (lt, words-AllAbove k es h)

  IsSorted-words : (es : List Entry) → IsSorted key es → SortedWords (words es)
  IsSorted-words [] h = tt
  IsSorted-words (x ∷ es) (a, h) = (AllAbove-words (key x) es a, IsSorted-words es h)

  words-IsSorted : (es : List Entry) → SortedWords (words es) → IsSorted key es
  words-IsSorted [] h = tt
  words-IsSorted (x ∷ es) (a, h) = (words-AllAbove (key x) es a, words-IsSorted es h)

  -- The data of the entry with a key.
  unfoldable find_word : ℕ → List ℕ → Option ℕ
  find_word k [] = none
  find_word k (w ∷ ws) = let rest = find_word k ws in if f w == k then some w else rest

  find_key-words : (k : ℕ) (es : List Entry) → data_of (find_key key k es) ≡ find_word k (words es)
  unfolding find_key find_word
  find_key-words k [] = refl
  find_key-words k (x ∷ es) = elim (Bool-cases (key x == k)) [
    | inl e ↦ rw e refl
    | inr e ↦ rw e (find_key-words k es)
  ]

  -- The list without one of its entries.
  find_key-other :
      (k : ℕ) (xs : List Entry) (x : Entry) (ys : List Entry)
      → (key x == k) ≡ false
      → find_key key k (xs ++ (x ∷ ys)) ≡ find_key key k (xs ++ ys)
  unfolding find_key
  find_key-other k [] x ys ne = rw ne refl
  find_key-other k (z ∷ xs) x ys ne =
      ap (λ o. if key z == k then some z else o) (find_key-other k xs x ys ne)

  AllAbove-drop :
      (k : ℕ) (xs : List Entry) (x : Entry) (ys : List Entry)
      → AllAbove key k (xs ++ (x ∷ ys))
      → AllAbove key k (xs ++ ys)
  AllAbove-drop k [] x ys (_, h) = h
  AllAbove-drop k (z ∷ xs) x ys (lt, h) = (lt, AllAbove-drop k xs x ys h)

  IsSorted-drop :
      (xs : List Entry) (x : Entry) (ys : List Entry)
      → IsSorted key (xs ++ (x ∷ ys))
      → IsSorted key (xs ++ ys)
  IsSorted-drop [] x ys (_, h) = h
  IsSorted-drop (z ∷ xs) x ys (a, h) = (AllAbove-drop (key z) xs x ys a, IsSorted-drop xs x ys h)

  find_key-dropped :
      (xs : List Entry) (x : Entry) (ys : List Entry) (k : ℕ)
      → IsSorted key (xs ++ (x ∷ ys))
      → find_key key k (xs ++ ys) ≡ (if key x == k then none else find_key key k (xs ++ (x ∷ ys)))
  find_key-dropped xs x ys k h = elim (Bool-cases (key x == k)) [
    | inr ne ↦ rw ne (sym (find_key-other k xs x ys ne))
    | inl e ↦
        let (low, _, _, high) = IsSorted-split key xs x ys h in
        let at : key x ≡ k = (==_iff (key x) k).0 e in
        rw e (
          find_key-past key k xs ys (subst (λ j. AllBelow key j xs) at low)
          ∙ find_key-above key (key x) k ys (omega (arith, at)) high)
  ]

  -- The tree after the removal of a node.
  pub delete_spot-find :
      (s : Spot) (all : List Entry)
      → InBalanced s
      → lower s ++ (s.entry ∷ upper s) ≡ all
      → IsSorted key all
      → IsSorted key (entries (delete_spot s).1)
        × ((k : ℕ)
            → data_of (find_key key k (entries (delete_spot s).1))
              ≡ (if key (s.entry) == k then none else data_of (find_key key k all)))
  delete_spot-find s all bal at h =
      let sorted = subst (λ es. IsSorted key es) (sym at) h in
      let kept = delete_spot-words s bal in
      let after = entries (delete_spot s).1 in
      let without = lower s ++ upper s in
      (
        words-IsSorted after (
            subst (λ ws. SortedWords ws) (sym kept)
              (IsSorted-words without (IsSorted-drop (lower s) (s.entry) (upper s) sorted))),
        λ k.
            let now =
              find_key-words k after
              ∙ ap (λ ws. find_word k ws) kept
              ∙ sym (find_key-words k without)
              ∙ ap data_of (find_key-dropped (lower s) (s.entry) (upper s) k sorted) in
            elim (Bool-cases (key (s.entry) == k)) [
              | inl e ↦ rw e (now ∙ rw e refl)
              | inr e ↦ rw e (now ∙ rw e (ap (λ es. data_of (find_key key k es)) at))
            ],
      )
