-- ===== src/Util/Strings.antt =====
-- The functions of util.c on strings and blocks of memory. A pointer is a function from the
-- offset to the item there; the count of rounds that are left is the measure of each loop.
use native.Mathlib.Decide.{dec_lt}
use mathlib.Core.Path.{subst}
use lisp_machine.Common.{ℕ, zero, suc, ◌+◌, ◌/◌, ◌<◌, ◌≤◌, ltb, ◌==◌}
use lisp_machine.Common.{if◌then◌else◌, ◌≡◌, arith, List, [], ◌∷◌}
use lisp_machine.Common.{Bool-cases, ltb→lt, inl, inr}
use lisp_machine.Word.{max_word}

unfoldable memcmp_from : (ℕ → ℕ) → (ℕ → ℕ) → ℕ → ℕ → ℕ
memcmp_from m1 m2 i zero = 0
memcmp_from m1 m2 i (suc n) =
    let rest = memcmp_from m1 m2 (suc i) n in
    if ltb (m2 i) (m1 i) then max_word else if ltb (m1 i) (m2 i) then 1 else rest

unfoldable pub memcmp : (ℕ → ℕ) → (ℕ → ℕ) → ℕ → ℕ
unfolding memcmp_from
memcmp m1 m2 len = memcmp_from m1 m2 0 len

-- Both tests of `strncmp` are the same.
unfoldable strncmp_from : (ℕ → ℕ) → (ℕ → ℕ) → ℕ → ℕ → ℕ
strncmp_from s1 s2 i zero = 0
strncmp_from s1 s2 i (suc n) =
    let rest = strncmp_from s1 s2 (suc i) n in
    if ltb (s2 i) (s1 i) then max_word else if ltb (s2 i) (s1 i) then 1 else rest

unfoldable pub strncmp : (ℕ → ℕ) → (ℕ → ℕ) → ℕ → ℕ
unfolding strncmp_from
strncmp s1 s2 len = strncmp_from s1 s2 0 len

-- `for (; *str; ++str){}` on the items up to the terminator, with the items that were passed.
unfoldable walk : List ℕ → ℕ → ℕ
walk [] passed = passed
walk (c ∷ str) passed = let rest = walk str (suc passed) in if c == 0 then passed else rest

-- The difference of the pointers counts words already, and is divided by their size.
unfoldable pub strlen : List ℕ → ℕ
unfolding walk
strlen str = walk str 0 / 8

-- Two blocks with the same items from `i` up to `k`.
abbrev pub Agree : (ℕ → ℕ) → (ℕ → ℕ) → ℕ → ℕ → Type 0
Agree m1 m2 i k = (j : ℕ) → i ≤ j → j < k → m1 j ≡ m2 j

-- The first difference from `i` up to `lim`, as `memcmp` tells it.
pub data Compared (m1 m2 : ℕ → ℕ) (i lim : ℕ) : ℕ → Type 0 where
  same : Agree m1 m2 i lim → Compared m1 m2 i lim 0
  below : (k : ℕ) → i ≤ k → k < lim → Agree m1 m2 i k → m1 k < m2 k → Compared m1 m2 i lim 1
  above : (k : ℕ) → i ≤ k → k < lim → Agree m1 m2 i k → m2 k < m1 k → Compared m1 m2 i lim max_word

Agree-cons : (m1 m2 : ℕ → ℕ) (i k : ℕ) → m1 i ≡ m2 i → Agree m1 m2 (suc i) k → Agree m1 m2 i k
Agree-cons m1 m2 i k e r j p q = elim (dec_lt i j) [
  | yes h ↦ r j h q
  | no h ↦ let ij : i ≡ j = omega arith in subst (λ t. m1 t ≡ m2 t) ij e
]

-- A difference behind an equal item.
Compared-cons :
    (m1 m2 : ℕ → ℕ) (i lim : ℕ) {r : ℕ}
    → m1 i ≡ m2 i
    → Compared m1 m2 (suc i) lim r
    → Compared m1 m2 i lim r
Compared-cons m1 m2 i lim e (same a) = same (Agree-cons m1 m2 i lim e a)
Compared-cons m1 m2 i lim e (below k p q a l) = below k (omega arith) q (Agree-cons m1 m2 i k e a) l
Compared-cons m1 m2 i lim e (above k p q a l) = above k (omega arith) q (Agree-cons m1 m2 i k e a) l

-- The items before `i` and from `i` on.
nothing_before : (m1 m2 : ℕ → ℕ) (i : ℕ) → Agree m1 m2 i i
nothing_before m1 m2 i j p q = absurd (omega arith)

memcmp_from_lem : (m1 m2 : ℕ → ℕ) (i n : ℕ) → Compared m1 m2 i (i + n) (memcmp_from m1 m2 i n)
unfolding memcmp_from
memcmp_from_lem m1 m2 i zero = same (λ j p q. absurd (omega arith))
memcmp_from_lem m1 m2 i (suc n) = elim (Bool-cases (ltb (m2 i) (m1 i))) [
  | inl e ↦
      rw e (above i (omega arith) (omega arith) (nothing_before m1 m2 i) (ltb→lt (m2 i) (m1 i) e))
  | inr e ↦ elim (Bool-cases (ltb (m1 i) (m2 i))) [
    | inl f ↦
        rw (e, f)
          (below i (omega arith) (omega arith) (nothing_before m1 m2 i) (ltb→lt (m1 i) (m2 i) f))
    | inr f ↦
        let same_item : m1 i ≡ m2 i = ground (arith, e, f) in
        rw (e, f)
          (Compared-cons m1 m2 i (i + suc n) same_item (
            subst (λ t. Compared m1 m2 (suc i) t (memcmp_from m1 m2 (suc i) n)) (omega arith)
              (memcmp_from_lem m1 m2 (suc i) n)))
  ]
]

-- `memcmp` finds the first difference of the two blocks: it returns 1 when the item of the first
-- block is the smaller one there, -1 when it is the greater one, and 0 when there is none.
pub memcmp_lem : (m1 m2 : ℕ → ℕ) (len : ℕ) → Compared m1 m2 0 len (memcmp m1 m2 len)
unfolding memcmp
memcmp_lem m1 m2 len =
    subst (λ t. Compared m1 m2 0 t (memcmp_from m1 m2 0 len)) (omega arith)
      (memcmp_from_lem m1 m2 0 len)
