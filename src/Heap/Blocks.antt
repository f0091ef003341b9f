-- ===== src/Heap/Blocks.antt =====
-- Lists of free blocks in the order of their addresses.
use lisp_machine.Common.{ℕ, ◌+◌, ◌<◌, ◌≤◌, ◌⊎◌, ◌≡◌, inl, inr, List, [], ◌∷◌, ◌++◌, arith}
use lisp_machine.Avl.{Entry}
use lisp_machine.Avl.Sorted.{AllAbove, AllBelow, IsSorted}

abbrev pub start : Entry → ℕ
start x = x.addr

-- The first word behind a block.
abbrev pub end : Entry → ℕ
end x = x.addr + x.data_word

abbrev pub AllFrom : ℕ → List Entry → Type 0
AllFrom k xs = AllAbove start k xs

abbrev pub AllUpTo : ℕ → List Entry → Type 0
AllUpTo k [] = Unit
AllUpTo k (x ∷ xs) = (end x < k) × AllUpTo k xs

-- Blocks in order with at least one word in use between any two.
abbrev pub IsApart : List Entry → Type 0
IsApart [] = Unit
IsApart (x ∷ xs) = AllFrom (end x) xs × IsApart xs

-- The words of all blocks together.
abbrev pub total : List Entry → ℕ
total [] = 0
total (x ∷ xs) = x.data_word + total xs

-- No block has a word of the block of `n` words at `a`.
abbrev pub AllClear : ℕ → ℕ → List Entry → Type 0
AllClear a n [] = Unit
AllClear a n (x ∷ xs) = ((end x ≤ a) ⊎ (a + n ≤ start x)) × AllClear a n xs

pub AllFrom-weaken : (j k : ℕ) (xs : List Entry) → j ≤ k → AllFrom k xs → AllFrom j xs
AllFrom-weaken j k [] h a = tt
AllFrom-weaken j k (x ∷ xs) h (lt, a) = (omega arith, AllFrom-weaken j k xs h a)

pub AllUpTo-weaken : (j k : ℕ) (xs : List Entry) → j ≤ k → AllUpTo j xs → AllUpTo k xs
AllUpTo-weaken j k [] h a = tt
AllUpTo-weaken j k (x ∷ xs) h (lt, a) = (omega arith, AllUpTo-weaken j k xs h a)

pub AllFrom-append :
    (k : ℕ) (xs ys : List Entry) → AllFrom k xs → AllFrom k ys → AllFrom k (xs ++ ys)
AllFrom-append k [] ys a b = b
AllFrom-append k (x ∷ xs) ys (lt, a) b = (lt, AllFrom-append k xs ys a b)

pub AllFrom-split :
    (k : ℕ) (xs ys : List Entry) → AllFrom k (xs ++ ys) → AllFrom k xs × AllFrom k ys
AllFrom-split k [] ys a = (tt, a)
AllFrom-split k (x ∷ xs) ys (lt, a) = let (b, c) = AllFrom-split k xs ys a in ((lt, b), c)

pub total-append : (xs ys : List Entry) → total (xs ++ ys) ≡ total xs + total ys
total-append [] ys = omega arith
total-append (x ∷ xs) ys = omega (arith, total-append xs ys)

pub IsApart-split :
    (xs : List Entry) (x : Entry) (ys : List Entry)
    → IsApart (xs ++ (x ∷ ys))
    → AllUpTo (start x) xs × IsApart xs × AllFrom (end x) ys × IsApart ys
IsApart-split [] x ys (a, s) = (tt, tt, a, s)
IsApart-split (z ∷ xs) x ys (a, s) =
    let (low, sx, high, sy) = IsApart-split xs x ys s in
    let (ax, (lt, _)) = AllFrom-split (end z) xs (x ∷ ys) a in ((lt, low), (ax, sx), high, sy)

-- Two lists of blocks with a place between them.
pub IsApart-append :
    (k : ℕ) (xs ys : List Entry)
    → AllUpTo k xs
    → IsApart xs
    → AllFrom k ys
    → IsApart ys
    → IsApart (xs ++ ys)
IsApart-append k [] ys low sx high sy = sy
IsApart-append k (x ∷ xs) ys (lt, low) (ax, sx) high sy = (
  AllFrom-append (end x) xs ys ax (AllFrom-weaken (end x) k ys (omega arith) high),
  IsApart-append k xs ys low sx high sy,
)

-- The same with a block in that place.
pub IsApart-insert :
    (xs : List Entry) (x : Entry) (ys : List Entry)
    → AllUpTo (start x) xs
    → IsApart xs
    → AllFrom (end x) ys
    → IsApart ys
    → IsApart (xs ++ (x ∷ ys))
IsApart-insert [] x ys low sx high sy = (high, sy)
IsApart-insert (z ∷ xs) x ys (lt, low) (az, sx) high sy = (
  AllFrom-append (end z) xs (x ∷ ys) az (lt, AllFrom-weaken (end z) (end x) ys (omega arith) high),
  IsApart-insert xs x ys low sx high sy,
)

pub IsApart-IsSorted : (xs : List Entry) → IsApart xs → IsSorted start xs
IsApart-IsSorted [] s = tt
IsApart-IsSorted (x ∷ xs) (a, s) =
    (AllFrom-weaken (start x) (end x) xs (omega arith) a, IsApart-IsSorted xs s)

pub AllUpTo-AllBelow : (k : ℕ) (xs : List Entry) → AllUpTo k xs → AllBelow start k xs
AllUpTo-AllBelow k [] a = tt
AllUpTo-AllBelow k (x ∷ xs) (lt, a) = (omega arith, AllUpTo-AllBelow k xs a)

pub AllClear-append :
    (a n : ℕ) (xs ys : List Entry) → AllClear a n xs → AllClear a n ys → AllClear a n (xs ++ ys)
AllClear-append a n [] ys p q = q
AllClear-append a n (x ∷ xs) ys (c, p) q = (c, AllClear-append a n xs ys p q)

pub AllUpTo-AllClear : (a n : ℕ) (xs : List Entry) → AllUpTo a xs → AllClear a n xs
AllUpTo-AllClear a n [] h = tt
AllUpTo-AllClear a n (x ∷ xs) (lt, h) = (inl (omega arith), AllUpTo-AllClear a n xs h)

pub AllFrom-AllClear : (a n k : ℕ) (ys : List Entry) → a + n ≤ k → AllFrom k ys → AllClear a n ys
AllFrom-AllClear a n k [] le h = tt
AllFrom-AllClear a n k (y ∷ ys) le (lt, h) = (inr (omega arith), AllFrom-AllClear a n k ys le h)
