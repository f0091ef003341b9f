-- ===== src/Memory/Words.antt =====
-- The copying loops of the C code, on lists of words.
use native.Mathlib.Decide.{ℕ_discrete}
use lisp_machine.Common.{ℕ, zero, suc, ◌+◌, ◌≤◌, ◌<◌, ◌≡◌, refl, ap, ap₂, ◌∙◌, ◌⊎◌}
use lisp_machine.Common.{sym, List, [], ◌∷◌, length, get_or, set, length-set, arith}
use lisp_machine.Common.{get_or-set_self, get_or-set_ne}

-- `for (; left; ++i) new[i] = old[i]`
unfoldable pub copy_words : ℕ → ℕ → List ℕ → List ℕ → List ℕ
copy_words zero i old new = new
copy_words (suc left) i old new = copy_words left (i + 1) old (set new i (get_or old i 0))

-- The `n` words from offset `i` on.
unfoldable pub read_words : List ℕ → ℕ → ℕ → List ℕ
read_words ws i zero = []
read_words ws i (suc n) = get_or ws i 0 ∷ read_words ws (i + 1) n

-- Stores a list of words from offset `i` on.
unfoldable pub write_words : List ℕ → ℕ → List ℕ → List ℕ
write_words ws i [] = ws
write_words ws i (x ∷ xs) = write_words (set ws i x) (i + 1) xs

pub length-copy_words :
    (left i : ℕ) (old new : List ℕ) → length (copy_words left i old new) ≡ length new
unfolding copy_words
length-copy_words zero i old new = refl
length-copy_words (suc left) i old new =
    length-copy_words left (i + 1) old (set new i (get_or old i 0)) ∙ length-set new i _

pub length-write_words :
    (ws : List ℕ) (i : ℕ) (xs : List ℕ) → length (write_words ws i xs) ≡ length ws
unfolding write_words
length-write_words ws i [] = refl
length-write_words ws i (x ∷ xs) = length-write_words (set ws i x) (i + 1) xs ∙ length-set ws i x

pub length-read_words : (ws : List ℕ) (i n : ℕ) → length (read_words ws i n) ≡ n
unfolding read_words
length-read_words ws i zero = refl
length-read_words ws i (suc n) = ap suc (length-read_words ws (i + 1) n)

-- Copying leaves everything outside the range `[i, i + left)` as it was.
pub get_or-copy_words_outside :
    (left i j : ℕ) (old new : List ℕ)
    → (j < i) ⊎ (i + left ≤ j)
    → get_or (copy_words left i old new) j 0 ≡ get_or new j 0
unfolding copy_words
get_or-copy_words_outside zero i j old new h = refl
get_or-copy_words_outside (suc left) i j old new h =
    get_or-copy_words_outside left (i + 1) j old (set new i (get_or old i 0)) (omega arith)
    ∙ get_or-set_ne new i j (get_or old i 0) 0 (omega arith)

-- Inside the range the copy holds the old words.
pub get_or-copy_words_inside :
    (left i j : ℕ) (old new : List ℕ)
    → i ≤ j
    → j < i + left
    → i + left ≤ length new
    → get_or (copy_words left i old new) j 0 ≡ get_or old j 0
unfolding copy_words
get_or-copy_words_inside zero i j old new p q r = absurd (omega arith)
get_or-copy_words_inside (suc left) i j old new p q r = elim (ℕ_discrete i j) [
  | yes e ↦
      (get_or-copy_words_outside left (i + 1) j old (set new i (get_or old i 0)) (omega arith)
        ∙ ap (λ k. get_or (set new i (get_or old i 0)) k 0) (sym e)
        ∙ get_or-set_self new i (get_or old i 0) 0 (omega arith)
        ∙ ap (λ k. get_or old k 0) e)
  | no ne ↦
      get_or-copy_words_inside left (i + 1) j old (set new i (get_or old i 0)) (omega arith)
        (omega arith) (rw length-set (omega arith))
]

-- Outside the written range nothing changes.
pub get_or-write_words_outside :
    (ws : List ℕ) (i j : ℕ) (xs : List ℕ)
    → (j < i) ⊎ (i + length xs ≤ j)
    → get_or (write_words ws i xs) j 0 ≡ get_or ws j 0
unfolding write_words
get_or-write_words_outside ws i j [] h = refl
get_or-write_words_outside ws i j (x ∷ xs) h =
    get_or-write_words_outside (set ws i x) (i + 1) j xs (omega arith)
    ∙ get_or-set_ne ws i j x 0 (omega arith)

pub read_words-write_words_outside :
    (ws : List ℕ) (i j n : ℕ) (xs : List ℕ)
    → (j + n ≤ i) ⊎ (i + length xs ≤ j)
    → read_words (write_words ws i xs) j n ≡ read_words ws j n
unfolding read_words
read_words-write_words_outside ws i j zero xs h = refl
read_words-write_words_outside ws i j (suc n) xs h =
    ap₂ ◌∷◌ (get_or-write_words_outside ws i j xs (omega arith))
      (read_words-write_words_outside ws i (j + 1) n xs (omega arith))

-- What was written is read back.
pub read_words-write_words_self :
    (ws : List ℕ) (i : ℕ) (xs : List ℕ)
    → i + length xs ≤ length ws
    → read_words (write_words ws i xs) i (length xs) ≡ xs
unfolding read_words write_words
read_words-write_words_self ws i [] h = refl
read_words-write_words_self ws i (x ∷ xs) h =
    ap₂ ◌∷◌
      (get_or-write_words_outside (set ws i x) (i + 1) i xs (omega arith)
        ∙ get_or-set_self ws i x 0 (omega arith))
      (read_words-write_words_self (set ws i x) (i + 1) xs (rw length-set (omega arith)))

read_words-cons :
    (x : ℕ) (ws : List ℕ) (i n : ℕ) → read_words (x ∷ ws) (suc i) n ≡ read_words ws i n
unfolding read_words
read_words-cons x ws i zero = refl
read_words-cons x ws i (suc n) =
    ap (λ r. get_or ws i 0 ∷ r)
      (ap (λ k. read_words (x ∷ ws) k n) (omega arith) ∙ read_words-cons x ws (i + 1) n)

-- Reading all the words of a list gives the list.
pub read_words_whole : (ws : List ℕ) → read_words ws 0 (length ws) ≡ ws
unfolding read_words
read_words_whole [] = refl
read_words_whole (x ∷ ws) =
    ap (λ r. x ∷ r) (read_words-cons x ws 0 (length ws) ∙ read_words_whole ws)

pub get_or-read_words_first :
    (ws : List ℕ) (i n : ℕ) → 0 < n → get_or (read_words ws i n) 0 0 ≡ get_or ws i 0
unfolding read_words
get_or-read_words_first ws i zero h = absurd (omega arith)
get_or-read_words_first ws i (suc n) h = refl

pub get_or-read_words :
    (ws : List ℕ) (i n k : ℕ) → k < n → get_or (read_words ws i n) k 0 ≡ get_or ws (i + k) 0
unfolding read_words
get_or-read_words ws i zero k h = absurd (omega arith)
get_or-read_words ws i (suc n) zero h = ap (λ j. get_or ws j 0) (omega arith)
get_or-read_words ws i (suc n) (suc k) h =
    get_or-read_words ws (i + 1) n k (omega arith) ∙ ap (λ j. get_or ws j 0) (omega arith)

pub get_or-write_words_inside :
    (ws : List ℕ) (i k : ℕ) (xs : List ℕ)
    → i + length xs ≤ length ws
    → k < length xs
    → get_or (write_words ws i xs) (i + k) 0 ≡ get_or xs k 0
unfolding write_words
get_or-write_words_inside ws i k [] h p = absurd (omega arith)
get_or-write_words_inside ws i zero (x ∷ xs) h p =
    get_or-write_words_outside (set ws i x) (i + 1) (i + 0) xs (omega arith)
    ∙ ap (λ j. get_or (set ws i x) j 0) (omega arith)
    ∙ get_or-set_self ws i x 0 (omega arith)
get_or-write_words_inside ws i (suc k) (x ∷ xs) h p =
    ap (λ j. get_or (write_words (set ws i x) (i + 1) xs) j 0) (omega arith)
    ∙ get_or-write_words_inside (set ws i x) (i + 1) k xs (rw length-set (omega arith))
        (omega arith)
