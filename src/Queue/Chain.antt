-- ===== src/Queue/Chain.antt =====
-- The chain of cells behind a queue of datastructures.c.
use mathlib.Core.Path.{subst}
use lisp_machine.Common.{ℕ, ◌≡◌, ◌≢◌, refl, ap, sym, ◌∙◌, ◌==◌, ==_refl, ==_ne}
use lisp_machine.Common.{List, [], ◌∷◌, ◌++◌, map, ap₂, Bool-cases, inl, inr, ==_iff}
use lisp_machine.Queue.{Link, put_link, set_prev, set_next}

-- `a` is the address of none of the cells.
abbrev pub NotIn : ℕ → List ℕ → Type 0
NotIn a [] = Unit
NotIn a (b ∷ bs) = (a ≢ b) × NotIn a bs

-- Cells from `first` to `last`, newest first, each with the pointers to both neighbours; `prev` is
-- what the first cell points back to.
abbrev pub Linked : (ℕ → Link) → ℕ → List ℕ → ℕ → ℕ → Type 0
Linked links prev [] first last = (first ≡ 0) × (last ≡ prev)
Linked links prev (a ∷ as') first last =
    (first ≡ a)
    × ((a ≢ 0)
        × ((Link.prev (links a) ≡ prev)
            × (NotIn a as' × Linked links a as' (Link.next (links a)) last)))

abbrev pub contents : (ℕ → Link) → List ℕ → List ℕ
contents links cells = map (λ a. Link.data_word (links a)) cells

-- A write to another cell is not seen.
pub put_ne : (links : ℕ → Link) (a : ℕ) (l : Link) (j : ℕ) → j ≢ a → put_link links a l j ≡ links j
put_ne links a l j h = rw (==_ne j a h) refl

pub put_self : (links : ℕ → Link) (a : ℕ) (l : Link) → put_link links a l a ≡ l
put_self links a l = rw (==_refl a) refl

pub Linked-put :
    (links : ℕ → Link) (b : ℕ) (l : Link) (prev first last : ℕ) (cells : List ℕ)
    → NotIn b cells
    → Linked links prev cells first last
    → Linked (put_link links b l) prev cells first last
Linked-put links b l prev first last [] n c = c
Linked-put links b l prev first last (a ∷ as') (ne, n) (e, (z, (p, (u, c)))) =
    let same : put_link links b l a ≡ links a = put_ne links b l a (λ h. ne (sym h)) in
    (
      e,
      (
        z,
        (
          ap Link.prev same ∙ p,
          (
            u,
            Linked-put links b l a (Link.next (put_link links b l a)) last as' n
                (subst (λ t. Linked links a as' t last) (sym (ap Link.next same)) c),
          ),
        ),
      ),
    )

pub contents-put :
    (links : ℕ → Link) (b : ℕ) (l : Link) (cells : List ℕ)
    → NotIn b cells
    → contents (put_link links b l) cells ≡ contents links cells
contents-put links b l [] n = refl
contents-put links b l (a ∷ as') (ne, n) =
    ap₂ (λ x xs. x ∷ xs) (ap Link.data_word (put_ne links b l a (λ h. ne (sym h))))
      (contents-put links b l as' n)

-- Another cell in front of the first one, or none.
pub Linked-set_prev :
    (links : ℕ → Link) (b prev first last a : ℕ) (cells : List ℕ)
    → Linked links prev (a ∷ cells) first last
    → Linked (set_prev links a b) b (a ∷ cells) a last
unfolding set_prev
Linked-set_prev links b prev first last a cells (e, (z, (p, (u, c)))) =
    let l : Link = record (links a) { prev = b } in
    let same = put_self links a l in
    (
      refl,
      (
        z,
        (
          ap Link.prev same,
          (
            u,
            Linked-put links a l a (Link.next (put_link links a l a)) last cells u
                (subst (λ t. Linked links a cells t last) (sym (ap Link.next same)) c),
          ),
        ),
      ),
    )

-- The contents do not change with the pointers.
data_put :
    (links : ℕ → Link) (a : ℕ) (l : Link) (c : ℕ)
    → Link.data_word l ≡ Link.data_word (links a)
    → Link.data_word (put_link links a l c) ≡ Link.data_word (links c)
data_put links a l c h = elim (Bool-cases (c == a)) [
  | inl e ↦
      let same : c ≡ a = (==_iff c a).0 e in
      rw e (h ∙ ap (λ t. Link.data_word (links t)) (sym same))
  | inr e ↦ rw e refl
]

pub contents-eq :
    (links : ℕ → Link) (a : ℕ) (l : Link) (cells : List ℕ)
    → Link.data_word l ≡ Link.data_word (links a)
    → contents (put_link links a l) cells ≡ contents links cells
contents-eq links a l [] h = refl
contents-eq links a l (c ∷ cs) h =
    ap₂ (λ x xs. x ∷ xs) (data_put links a l c h) (contents-eq links a l cs h)

-- The last cell, and the chain without it.
pub data End (links : ℕ → Link) (prev first last : ℕ) (xs : List ℕ) (z : ℕ) : Type 0 where
  alone : last ≡ z → xs ≡ [] → Link.prev (links z) ≡ prev → End links prev first last xs z
  behind :
      last ≡ z
      → Link.prev (links z) ≢ 0
      → ((a : ℕ) → NotIn a xs → a ≢ Link.prev (links z))
      → Linked (set_next links (Link.prev (links z)) 0) prev xs first (Link.prev (links z))
      → End links prev first last xs z

NotIn-append : (a z : ℕ) (xs : List ℕ) → NotIn a (xs ++ z ∷ []) → NotIn a xs
NotIn-append a z [] n = tt
NotIn-append a z (x ∷ xs) (h, n) = (h, NotIn-append a z xs n)

pub Linked-End :
    (links : ℕ → Link) (prev first last : ℕ) (xs : List ℕ) (z : ℕ)
    → Linked links prev (xs ++ z ∷ []) first last
    → End links prev first last xs z
unfolding set_next
Linked-End links prev first last [] z (e, (nz, (p, (u, (e', l))))) = alone l refl p
Linked-End links prev first last (a ∷ xs) z (e, (nz, (p, (u, c)))) =
    elim (Linked-End links a (Link.next (links a)) last xs z c) [
      | alone l none_left q ↦
          let same = put_self links a (record (links a) { next = 0 }) in
          let only : Linked (put_link links a (record (links a) { next = 0 })) prev (a ∷ []) first
              a =
            (e, (nz, (ap Link.prev same ∙ p, (tt, (ap Link.next same, refl))))) in
          let at_prev : Linked (set_next links (Link.prev (links z)) 0) prev (a ∷ []) first
              (Link.prev (links z)) =
            subst
              (λ t. Linked (put_link links t (record (links t) { next = 0 })) prev (a ∷ []) first t)
              (sym q) only in
          behind l (λ h. nz (sym q ∙ h)) (λ b n h. n.0 (h ∙ q))
            (subst
              (λ ys.
                Linked (set_next links (Link.prev (links z)) 0) prev (a ∷ ys) first
                  (Link.prev (links z)))
              (sym none_left) at_prev)
      | behind l pz out r ↦
          let q : ℕ = Link.prev (links z) in
          let same =
            put_ne links q (record (links q) { next = 0 }) a (out a (NotIn-append a z xs u)) in
          behind l pz (λ b n. out b n.1)
            (
              e,
              (
                nz,
                (
                  ap Link.prev same ∙ p,
                  (
                    NotIn-append a z xs u,
                    subst (λ t. Linked (set_next links q 0) a xs t q) (sym (ap Link.next same)) r,
                  ),
                ),
              ),
            )
    ]

pub last_ne :
    (links : ℕ → Link) (prev first last : ℕ) (xs : List ℕ) (z : ℕ)
    → Linked links prev (xs ++ z ∷ []) first last
    → z ≢ 0
last_ne links prev first last [] z c = c.1.0
last_ne links prev first last (a ∷ xs) z c =
    last_ne links a (Link.next (links a)) last xs z c.1.1.1.1

pub contents-set_prev :
    (links : ℕ → Link) (a b : ℕ) (cells : List ℕ)
    → contents (set_prev links a b) cells ≡ contents links cells
unfolding set_prev
contents-set_prev links a b cells = contents-eq links a (record (links a) { prev = b }) cells refl

pub contents-set_next :
    (links : ℕ → Link) (a b : ℕ) (cells : List ℕ)
    → contents (set_next links a b) cells ≡ contents links cells
unfolding set_next
contents-set_next links a b cells = contents-eq links a (record (links a) { next = b }) cells refl
