-- ===== src/Asm/Compile/Total.antt =====
-- `compile` returns, whatever the text is.
use lisp_machine.Common.{ℕ, zero, suc, ◌+◌, ◌≤◌, true, leb, ◌==◌, ◌/◌, Option, none, some, List}
use lisp_machine.Common.{◌≡◌, refl, inl, inr, Bool-cases, Option-cases, arith}
use lisp_machine.Memory.{Block, Allocator}
use lisp_machine.Array.{array}
use lisp_machine.Asm.Lex.{ignore_whitespace}
use lisp_machine.Asm.Lex.Laws.{AtToken, ignore_whitespace_lem}
use lisp_machine.Asm.Compile.{lbl_info_sz, State, Outcome, ok, error, assemble_token, assemble}
use lisp_machine.Asm.Compile.{link, conclude, compile}
use lisp_machine.Asm.Compile.Progress.{MovesOn, assemble_token-MovesOn}

module _ (a : Allocator) (code : List ℕ) (code_sz : ℕ) where
  open a use {Heap}

  -- As much fuel as there are characters left, and one more, is enough for the first loop.
  pub assemble-returns :
      (fuel : ℕ) (st : State a)
      → code_sz ≤ st.idx + fuel
      → AtToken code code_sz st.idx
      → (out : Outcome a) × assemble a code code_sz (suc fuel) st ≡ some out
  unfolding assemble
  assemble-returns zero st h tok =
      let over : leb code_sz st.idx ≡ true = ground arith in rw (over, assemble) (ok st, refl)
  assemble-returns (suc fuel) st h tok = elim (Bool-cases (leb code_sz st.idx)) [
    | inl over ↦ rw (over, assemble) (ok st, refl)
    | inr inside ↦
        rw (inside, assemble)
          (go (assemble_token a code code_sz st)
            (assemble_token-MovesOn code code_sz a st (ground arith) tok)
            (λ st' h' tok'. assemble-returns fuel st' h' tok'))
  ]
    where
      go :
          (out : Outcome a)
          → MovesOn code code_sz a st.idx out
          → ((st' : State a)
              → code_sz ≤ st'.idx + fuel
              → AtToken code code_sz st'.idx
              → (out : Outcome a) × assemble a code code_sz (suc fuel) st' ≡ some out)
          → (out' : Outcome a) × (elim out as (λ _. Option (Outcome a)) [
            | ok st' ↦ assemble a code code_sz (suc fuel) st'
            | error st' ↦ some (error st')
          ]
              ≡ some out')
      go (ok st') (lt, tok') rest = rest st' (omega arith) tok'
      go (error st') m rest = (error st', refl)

  -- `compile` returns for every text and every heap, with an array or with the null pointer.
  pub compile-returns : (h : Heap) → (r : Option Block × Heap) × compile a code code_sz h ≡ some r
  unfolding compile
  compile-returns h = elim (Bool-cases (code_sz == 0)) [
    | inl empty ↦ rw (empty, compile) ((none, h), refl)
    | inr e0 ↦ elim (Option-cases (array a h (code_sz / 32) 1)) [
      | inl e1 ↦ rw (e0, e1, compile) ((none, h), refl)
      | inr ((arr, h1), e1) ↦ elim (Option-cases (array a h1 (code_sz / 8) lbl_info_sz)) [
        | inl e2 ↦ rw (e0, e1, e2, compile) (_, refl)
        | inr ((lbl_refs, h2), e2) ↦ elim (Option-cases (array a h2 (code_sz / 8) lbl_info_sz)) [
          | inl e3 ↦ rw (e0, e1, e2, e3, compile) (_, refl)
          | inr ((lbls, h3), e3) ↦
              (let start : State a = record {
                heap = h3;
                arr = arr;
                lbl_refs = lbl_refs;
                lbls = lbls;
                prgm_ctr = 0;
                idx = ignore_whitespace code code_sz 0;
              } in
                let (lo, hi, tok) = ignore_whitespace_lem code code_sz 0 in
                let returned : (out : Outcome a) × assemble a code code_sz (suc code_sz) start
                      ≡ some out =
                  assemble-returns code_sz start (omega arith) tok in
                let (out, e4) = returned in
                rw (e0, e1, e2, e3, e4, compile)
                  (conclude a code code_sz (link a code code_sz out), refl))
        ]
      ]
    ]
  ]
