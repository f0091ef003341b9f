-- ===== src/Object.antt =====
-- Objects of datastructures.c. The field `size` of the source is the number of the contents.
pub mod Key
pub mod Store
use mathlib.Core.Path.{subst}
use lisp_machine.Common.{ℕ, ltb, if◌then◌else◌, List, [], ◌∷◌, length}
use lisp_machine.Common.{◌≡◌, ◌↔◌, refl, ap, ap₂, arith}
use lisp_machine.Word.{max_word}

pub record Object : Type 0 where
  pub max_sz : ℕ
  pub refcount : ℕ
  pub type : ℕ
  pub contents : List ℕ

-- The loop of `obj_cmp`, on contents of one length.
unfoldable pub cmp_contents : List ℕ → List ℕ → ℕ
cmp_contents [] qs = 0
cmp_contents (p ∷ ps) [] = 0
cmp_contents (p ∷ ps) (q ∷ qs) =
    let rest = cmp_contents ps qs in if ltb p q then 1 else if ltb q p then max_word else rest

unfoldable pub obj_cmp : Object → Object → ℕ
unfolding cmp_contents
obj_cmp p1 p2 =
    if ltb (length p1.contents) (length p2.contents)
    then 1
    else if ltb (length p2.contents) (length p1.contents)
    then max_word
    else cmp_contents p1.contents p2.contents

cmp_contents-equal : (ps qs : List ℕ) → length ps ≡ length qs → cmp_contents ps qs ≡ 0 → ps ≡ qs
unfolding cmp_contents
cmp_contents-equal [] [] e z = refl
cmp_contents-equal [] (q ∷ qs) e z = absurd (omega arith)
cmp_contents-equal (p ∷ ps) [] e z = absurd (omega arith)
cmp_contents-equal (p ∷ ps) (q ∷ qs) e z =
    let rest : cmp_contents ps qs ≡ 0 = ground (arith, z) in
    let first : p ≡ q = ground (arith, z) in
    ap₂ (λ x xs. x ∷ xs) first (cmp_contents-equal ps qs (omega arith) rest)

cmp_contents_refl : (ps : List ℕ) → cmp_contents ps ps ≡ 0
unfolding cmp_contents
cmp_contents_refl [] = refl
cmp_contents_refl (p ∷ ps) = ground (arith, cmp_contents_refl ps)

-- `obj_cmp` returns 0 for objects with the same contents, and for no others.
pub obj_cmp_iff : (a b : Object) → (obj_cmp a b ≡ 0) ↔ (a.contents ≡ b.contents)
unfolding obj_cmp
obj_cmp_iff a b = (
  λ z.
      let e : length a.contents ≡ length b.contents = ground (arith, z) in
      cmp_contents-equal a.contents b.contents e (ground (arith, z)),
  λ e.
      let size : length a.contents ≡ length b.contents = ap length e in
      let z : cmp_contents a.contents b.contents ≡ 0 =
        subst (λ qs. cmp_contents a.contents qs ≡ 0) e (cmp_contents_refl a.contents) in
      ground (arith, size, z),
)
