-- ===== src/Object/Key.antt =====
-- The order that `obj_cmp` of datastructures.c puts objects in, as the order of numbers.
use lisp_machine.Common.{ℕ, ◌+◌, ◌*◌, ◌^◌, ◌<◌, ◌≤◌, ◌≡◌, refl, ap, ◌∙◌, arith, lt_trichotomy}
use lisp_machine.Common.{List, [], ◌∷◌, length, inl, inr}
use lisp_machine.Word.{max_word}
use lisp_machine.Num.Value.{IsWords}
use lisp_machine.Object.{Object, cmp_contents, obj_cmp}

-- The contents as the digits of a number behind `acc`, the first word highest.
unfoldable pub code : ℕ → List ℕ → ℕ
code acc [] = acc
code acc (w ∷ ws) = code (acc * 2 ^ 64 + w) ws

-- A number with the order of the contents, shorter ones first.
abbrev pub contents_key : List ℕ → ℕ
contents_key ws = code 1 ws

acc-le-code : (acc : ℕ) (ws : List ℕ) → acc ≤ code acc ws
unfolding code
acc-le-code acc [] = omega arith
acc-le-code acc (w ∷ ws) = omega (arith, acc-le-code (acc * 2 ^ 64 + w) ws)

code-lt-longer :
    (acc acc' : ℕ) (xs ys : List ℕ)
    → IsWords xs
    → length xs < length ys
    → acc + 1 ≤ acc' * 2 ^ 64
    → code acc xs < code acc' ys
unfolding code
code-lt-longer acc acc' [] [] a h lt = omega arith
code-lt-longer acc acc' (x ∷ xs) [] a h lt = omega arith
code-lt-longer acc acc' [] (y ∷ ys) a h lt = omega (arith, acc-le-code (acc' * 2 ^ 64 + y) ys)
code-lt-longer acc acc' (x ∷ xs) (y ∷ ys) (w, a) h lt =
    code-lt-longer (acc * 2 ^ 64 + x) (acc' * 2 ^ 64 + y) xs ys a (omega arith) (omega arith)

code-lt-same :
    (acc acc' : ℕ) (xs ys : List ℕ)
    → IsWords xs
    → length xs ≡ length ys
    → acc < acc'
    → code acc xs < code acc' ys
unfolding code
code-lt-same acc acc' [] [] a h lt = lt
code-lt-same acc acc' [] (y ∷ ys) a h lt = absurd (omega arith)
code-lt-same acc acc' (x ∷ xs) [] a h lt = absurd (omega arith)
code-lt-same acc acc' (x ∷ xs) (y ∷ ys) (w, a) h lt =
    code-lt-same (acc * 2 ^ 64 + x) (acc' * 2 ^ 64 + y) xs ys a (omega arith) (omega arith)

-- How a comparison as a word goes with two numbers.
pub data Compared (j k w : ℕ) : Type 0 where
  less : j < k → w ≡ 1 → Compared j k w
  equal : j ≡ k → w ≡ 0 → Compared j k w
  more : k < j → w ≡ max_word → Compared j k w

cmp_contents-Compared :
    (acc : ℕ) (xs ys : List ℕ)
    → IsWords xs
    → IsWords ys
    → length xs ≡ length ys
    → Compared (code acc xs) (code acc ys) (cmp_contents xs ys)
unfolding code cmp_contents
cmp_contents-Compared acc [] [] a b h = equal refl refl
cmp_contents-Compared acc [] (y ∷ ys) a b h = absurd (omega arith)
cmp_contents-Compared acc (x ∷ xs) [] a b h = absurd (omega arith)
cmp_contents-Compared acc (x ∷ xs) (y ∷ ys) (u, a) (v, b) h = elim (lt_trichotomy x y) [
  | inl lt ↦
      less (code-lt-same (acc * 2 ^ 64 + x) (acc * 2 ^ 64 + y) xs ys a (omega arith) (omega arith))
        (ground arith)
  | inr (inl e) ↦
      let c = ap (λ t. code (acc * 2 ^ 64 + t) ys) e in
      elim (cmp_contents-Compared (acc * 2 ^ 64 + x) xs ys a b (omega arith)) [
        | less p q ↦ less (omega (arith, p, c)) (ground (arith, q))
        | equal p q ↦ equal (p ∙ c) (ground (arith, q))
        | more p q ↦ more (omega (arith, p, c)) (ground (arith, q))
      ]
  | inr (inr gt) ↦
      more (code-lt-same (acc * 2 ^ 64 + y) (acc * 2 ^ 64 + x) ys xs b (omega arith) (omega arith))
        (ground arith)
]

-- `obj_cmp` compares the numbers of the contents.
pub obj_cmp-Compared :
    (p q : Object)
    → IsWords p.contents
    → IsWords q.contents
    → Compared (contents_key p.contents) (contents_key q.contents) (obj_cmp p q)
unfolding obj_cmp
obj_cmp-Compared p q a b = elim (lt_trichotomy (length p.contents) (length q.contents)) [
  | inl lt ↦ less (code-lt-longer 1 1 p.contents q.contents a lt (omega arith)) (ground arith)
  | inr (inl e) ↦ elim (cmp_contents-Compared 1 p.contents q.contents a b e) [
    | less u v ↦ less u (ground (arith, v))
    | equal u v ↦ equal u (ground (arith, v))
    | more u v ↦ more u (ground (arith, v))
  ]
  | inr (inr gt) ↦ more (code-lt-longer 1 1 q.contents p.contents b gt (omega arith)) (ground arith)
]
