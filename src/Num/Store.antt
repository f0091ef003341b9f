-- ===== src/Num/Store.antt =====
-- Big numbers of datastructures.c that are changed in place: the contents of the number objects by
-- their addresses. Two operands at one address are one object.
use lisp_machine.Common.{
  ℕ, ◌==◌, ◌≡◌, ◌≢◌, refl, ap, sym, ◌∙◌, if◌then◌else◌, Bool-cases, inl, inr, List,
}
use lisp_machine.Common.{==_refl, ==_ne, ==_iff}
use lisp_machine.Num.{num_negate}

unfoldable pub negate_if : ℕ → List ℕ → List ℕ
negate_if sgn n = if sgn == 0 then n else num_negate n

abbrev pub put_num : (ℕ → List ℕ) → ℕ → List ℕ → ℕ → List ℕ
put_num nums p xs q = if q == p then xs else nums q

-- `if (sgn) {num_negate(num);}`
unfoldable pub negate_at_if : ℕ → (ℕ → List ℕ) → ℕ → ℕ → List ℕ
unfolding negate_if
negate_at_if sgn nums p = put_num nums p (negate_if sgn (nums p))

pub negate_at_if_self :
    (sgn : ℕ) (nums : ℕ → List ℕ) (p : ℕ) → negate_at_if sgn nums p p ≡ negate_if sgn (nums p)
unfolding negate_at_if
negate_at_if_self sgn nums p = rw (==_refl p) refl

pub negate_at_if_elsewhere :
    (sgn : ℕ) (nums : ℕ → List ℕ) (p q : ℕ) → q ≢ p → negate_at_if sgn nums p q ≡ nums q
unfolding negate_at_if
negate_at_if_elsewhere sgn nums p q ne = rw (==_ne q p ne) refl

-- One object that is negated and negated back.
pub once-back :
    (nums : ℕ → List ℕ) (p s : ℕ)
    → negate_if s (negate_if s (nums p)) ≡ nums p
    → (x : ℕ) → negate_at_if s (negate_at_if s nums p) p x ≡ nums x
once-back nums p s h x = elim (Bool-cases (x == p)) [
  | inl e ↦
      let at : x ≡ p = (==_iff x p).0 e in
      ap (λ y. negate_at_if s (negate_at_if s nums p) p y) at
      ∙ negate_at_if_self s (negate_at_if s nums p) p
      ∙ ap (λ n. negate_if s n) (negate_at_if_self s nums p)
      ∙ h
      ∙ ap nums (sym at)
  | inr off ↦
      let ne : x ≢ p = λ e. absurd (let bad = sym off ∙ (==_iff x p).1 e in cc) in
      negate_at_if_elsewhere s (negate_at_if s nums p) p x ne ∙ negate_at_if_elsewhere s nums p x ne
]

-- Two objects that are negated and negated back.
module _ (nums : ℕ → List ℕ) (p q s t : ℕ) (apart : p ≢ q) where
  abbrev both : ℕ → List ℕ
  both = negate_at_if t (negate_at_if s nums p) q

  pub both-first : negate_at_if t (negate_at_if s nums p) q p ≡ negate_if s (nums p)
  both-first =
      negate_at_if_elsewhere t (negate_at_if s nums p) q p apart ∙ negate_at_if_self s nums p

  pub both-second : negate_at_if t (negate_at_if s nums p) q q ≡ negate_if t (nums q)
  both-second =
      negate_at_if_self t (negate_at_if s nums p) q
      ∙ ap (λ n. negate_if t n) (negate_at_if_elsewhere s nums p q (λ e. apart (sym e)))

  pub both-back :
      negate_if s (negate_if s (nums p)) ≡ nums p
      → negate_if t (negate_if t (nums q)) ≡ nums q
      → (x : ℕ)
      → negate_at_if t (negate_at_if s (negate_at_if t (negate_at_if s nums p) q) p) q x ≡ nums x
  both-back h k x =
      let there : ℕ → List ℕ = negate_at_if t (negate_at_if s nums p) q in
      let half : ℕ → List ℕ = negate_at_if s there p in
      elim (Bool-cases (x == q)) [
        | inl e ↦
            let at : x ≡ q = (==_iff x q).0 e in
            ap (λ y. negate_at_if t half q y) at
            ∙ negate_at_if_self t half q
            ∙ ap (λ n. negate_if t n)
                (negate_at_if_elsewhere s there p q (λ e. apart (sym e)) ∙ both-second)
            ∙ k
            ∙ ap nums (sym at)
        | inr off_q ↦
            let ne : x ≢ q = λ e. absurd (let bad = sym off_q ∙ (==_iff x q).1 e in cc) in
            negate_at_if_elsewhere t half q x ne ∙ elim (Bool-cases (x == p)) [
              | inl e ↦
                  let at : x ≡ p = (==_iff x p).0 e in
                  ap (λ y. half y) at
                  ∙ negate_at_if_self s there p
                  ∙ ap (λ n. negate_if s n) both-first
                  ∙ h
                  ∙ ap nums (sym at)
              | inr off_p ↦
                  let ne' : x ≢ p = λ e. absurd (let bad = sym off_p ∙ (==_iff x p).1 e in cc) in
                  negate_at_if_elsewhere s there p x ne'
                  ∙ negate_at_if_elsewhere t (negate_at_if s nums p) q x ne
                  ∙ negate_at_if_elsewhere s nums p x ne'
            ]
      ]
