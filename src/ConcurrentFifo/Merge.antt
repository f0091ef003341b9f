-- ===== src/ConcurrentFifo/Merge.antt =====
-- Two sequences merged into one, each in its own order.
use mathlib.Core.Path.{subst}
use lisp_machine.Common.{◌+◌, ◌≡◌, refl, ◌⊎◌, inl, inr, List, [], ◌∷◌, ◌++◌, length, arith}

pub data Merge {ℓ} {A : Type ℓ} : List A → List A → List A → Type ℓ where
  done : Merge [] [] []
  left : {xs ys zs : List A} (z : A) → Merge xs ys zs → Merge (z ∷ xs) ys (z ∷ zs)
  right : {xs ys zs : List A} (z : A) → Merge xs ys zs → Merge xs (z ∷ ys) (z ∷ zs)

module _ {ℓ} {A : Type ℓ} where
  pub Merge-snoc_left :
      {xs ys zs : List A} (z : A) → Merge xs ys zs → Merge (xs ++ (z ∷ [])) ys (zs ++ (z ∷ []))
  Merge-snoc_left z done = left z done
  Merge-snoc_left z (left x m) = left x (Merge-snoc_left z m)
  Merge-snoc_left z (right x m) = right x (Merge-snoc_left z m)

  pub Merge-snoc_right :
      {xs ys zs : List A} (z : A) → Merge xs ys zs → Merge xs (ys ++ (z ∷ [])) (zs ++ (z ∷ []))
  Merge-snoc_right z done = right z done
  Merge-snoc_right z (left x m) = left x (Merge-snoc_right z m)
  Merge-snoc_right z (right x m) = right x (Merge-snoc_right z m)

  pub length-Merge : {xs ys zs : List A} → Merge xs ys zs → length zs ≡ length xs + length ys
  length-Merge done = omega arith
  length-Merge (left z m) = omega (arith, length-Merge m)
  length-Merge (right z m) = omega (arith, length-Merge m)

  pub Merge-nil : {xs ys zs : List A} → Merge xs ys zs → zs ≡ [] → (xs ≡ []) × (ys ≡ [])
  Merge-nil done e = (refl, refl)
  Merge-nil (left z m) e = absurd (cc)
  Merge-nil (right z m) e = absurd (cc)

  -- The first item comes from one side or from the other.
  pub Merge-cons :
      {xs ys zs : List A} (z : A) (rest : List A)
      → Merge xs ys zs
      → zs ≡ z ∷ rest
      → ((xs' : List A) × (xs ≡ z ∷ xs') × Merge xs' ys rest)
        ⊎ ((ys' : List A) × (ys ≡ z ∷ ys') × Merge xs ys' rest)
  Merge-cons z rest done e = absurd (cc)
  Merge-cons z rest (left {xs = xs'} {ys = ys'} w m) e =
      inl (xs', cc, subst (λ r. Merge xs' ys' r) (cc) m)
  Merge-cons z rest (right {xs = xs'} {ys = ys'} w m) e =
      inr (ys', cc, subst (λ r. Merge xs' ys' r) (cc) m)

  pub Merge-swap : {xs ys zs : List A} → Merge xs ys zs → Merge ys xs zs
  Merge-swap done = done
  Merge-swap (left z m) = right z (Merge-swap m)
  Merge-swap (right z m) = left z (Merge-swap m)
