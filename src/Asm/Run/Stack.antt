-- ===== src/Asm/Run/Stack.antt =====
-- What the writes of the entry to an exception handler, in `run`, leave in the registers and on
-- the stack.
use lisp_machine.Common.{ℕ, zero, suc, ◌+◌, ◌/◌, ◌^◌, ◌≤◌, ◌<◌, ◌==◌}
use lisp_machine.Common.{
  if◌then◌else◌, List, [], ◌∷◌, length, get_or, set, length-set, get_or-set_self,
}
use lisp_machine.Common.{get_or-set_ne, ◌≡◌, refl, ap, ◌∙◌, ◌⊎◌, inl, inr, Bool-cases, arith}
use lisp_machine.Word.{add_word, mul_word}
use lisp_machine.Asm.Reg
use lisp_machine.Asm.Machine.{Machine, store, update}
use lisp_machine.Asm.Run.{push_words}
use lisp_machine.Asm.Run.Halves.{update_self, update_ne}

-- A write to a register that exists is seen there and nowhere else.
pub get_or-set :
    (xs : List ℕ) (i j v : ℕ)
    → i < length xs
    → get_or (set xs i v) j 0 ≡ (if j == i then v else get_or xs j 0)
get_or-set xs i j v h = elim (Bool-cases (j == i)) [
  | inl same ↦
      (let e : j ≡ i = ground arith in
        rw same (ap (λ k. get_or (set xs i v) k 0) e ∙ get_or-set_self xs i v 0 h))
  | inr other ↦ rw other (get_or-set_ne xs i j v 0 (ground arith))
]

-- Storing the words of an item changes neither the registers nor the words outside its range.
pub push_words-regs :
    (old i : ℕ) (xs : List ℕ) (m : Machine) → (push_words old i xs m).regs ≡ m.regs
unfolding push_words
push_words-regs old i [] m = refl
push_words-regs old i (x ∷ xs) m = push_words-regs old (i + 1) xs _

pub push_words-outside :
    (old i j : ℕ) (xs : List ℕ) (m : Machine)
    → old + i + length xs < 2 ^ 61
    → (j < old + i) ⊎ (old + i + length xs ≤ j)
    → (push_words old i xs m).mem j ≡ m.mem j
unfolding push_words
push_words-outside old i j [] m small out = refl
push_words-outside old i j (x ∷ xs) m small out =
    let a = add_word (mul_word 8 old) (mul_word 8 i) / 8 in
    let place : a ≡ old + i = omega arith in
    push_words-outside old (i + 1) j xs (store m a x) (omega arith) (omega arith)
    ∙ update_ne m.mem a j x (omega arith)

pub push_words-inside :
    (old i k : ℕ) (xs : List ℕ) (m : Machine)
    → old + i + length xs < 2 ^ 61
    → k < length xs
    → (push_words old i xs m).mem (old + i + k) ≡ get_or xs k 0
unfolding push_words
push_words-inside old i k [] m small h = absurd (omega arith)
push_words-inside old i zero (x ∷ xs) m small h =
    let a = add_word (mul_word 8 old) (mul_word 8 i) / 8 in
    let place : old + i + 0 ≡ a = omega arith in
    push_words-outside old (i + 1) (old + i + 0) xs (store m a x) (omega arith) (omega arith)
    ∙ ap (λ j. update m.mem a x j) place
    ∙ update_self m.mem a x
push_words-inside old i (suc k) (x ∷ xs) m small h =
    let a = add_word (mul_word 8 old) (mul_word 8 i) / 8 in
    let place : old + i + suc k ≡ old + (i + 1) + k = omega arith in
    ap (λ j. (push_words old (i + 1) xs (store m a x)).mem j) place
    ∙ push_words-inside old (i + 1) k xs (store m a x) (omega arith) (omega arith)

-- The three registers that the entry and the return write.
abbrev pub set_three : List ℕ → ℕ → ℕ → ℕ → List ℕ
set_three xs s l p = set (set (set xs Reg.sp s) Reg.lr l) Reg.pc p

pub get_or-set_three :
    (xs : List ℕ) (s l p j : ℕ)
    → length xs ≡ 33
    → get_or (set_three xs s l p) j 0
      ≡ (if j == 30 then p else if j == 27 then l else if j == 24 then s else get_or xs j 0)
get_or-set_three xs s l p j h =
    let one = length-set xs Reg.sp s in
    let two = length-set (set xs Reg.sp s) Reg.lr l in
    ground (
      arith,
      get_or-set (set (set xs Reg.sp s) Reg.lr l) Reg.pc j p (omega arith),
      get_or-set (set xs Reg.sp s) Reg.lr j l (omega arith),
      get_or-set xs Reg.sp j s (omega arith),
    )
