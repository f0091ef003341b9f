-- ===== src/Asm/Compile/Progress.antt =====
-- The first loop of `compile` ends: every round moves on in the text.
use lisp_machine.Common.{ℕ, zero, suc, ◌-◌, ◌≤◌, ◌<◌, ◌||◌, ◌==◌}
use lisp_machine.Common.{some, List, [], ◌∷◌, ◌≡◌}
use lisp_machine.Common.{inl, inr, Bool-cases, Option-cases, arith}
use lisp_machine.Word.{max_word, shr}
use lisp_machine.Memory.{Allocator}
use lisp_machine.Array.{array_append, array_find}
use lisp_machine.Asm.{num_regs, get_flx_op_mask, instruction}
use lisp_machine.Asm.Lex.{ignore_whitespace, ignore_non_whitespace, expect_whitespace}
use lisp_machine.Asm.Lex.{expect_whitespace_or_end, match_opcode, expect_str, expect_hex_from_str}
use lisp_machine.Asm.Lex.Laws.{AtToken, ignore_whitespace_lem, ignore_non_whitespace-le}
use lisp_machine.Asm.Lex.Laws.{ignore_non_whitespace-lt, expect_whitespace-le, expect_whitespace-lt}
use lisp_machine.Asm.Lex.Laws.{expect_whitespace_or_end-le, expect_whitespace_or_end-AtToken}
use lisp_machine.Asm.Lex.Laws.{match_opcode-le, expect_str-le, expect_hex_from_str_lem}
use lisp_machine.Asm.Lex.Laws.{expect_hex_from_str-le}
use lisp_machine.Asm.Encode.{Partial, place_opcode, place_reg}
use lisp_machine.Asm.Compile.{lbl_info, reg_des, neg_sgn, LastArg, complete, label_ref, scan_regs}
use lisp_machine.Asm.Compile.{
  scan_last_reg, scan_last, State, Outcome, ok, error, emit, define_label,
}
use lisp_machine.Asm.Compile.{finish, assemble_instr, assemble_token, ref_eq}

-- Where scanning goes on after the last argument.
abbrev end_of : LastArg → ℕ
end_of (complete idx instr) = idx
end_of (label_ref idx instr) = idx

module _ (code : List ℕ) (code_sz : ℕ) where
  scan_regs-le :
      (left idx : ℕ) (p : Partial) {j : ℕ} {q : Partial}
      → scan_regs code code_sz left idx p ≡ some (j, q)
      → idx ≤ j
  unfolding scan_regs
  scan_regs-le zero idx p e = ground arith
  scan_regs-le (suc left) idx p {j} {q} e =
      let r = expect_str code code_sz reg_des idx in
      let reg = expect_hex_from_str code code_sz r.idx (num_regs - 1) 0 in
      let ws = expect_whitespace code code_sz reg.idx in
      ground (
        arith,
        expect_str-le code code_sz reg_des idx,
        expect_hex_from_str-le code code_sz r.idx (num_regs - 1) 0,
        expect_whitespace-le code code_sz reg.idx,
        scan_regs-le left ws.idx (place_reg p reg.output) {j = j} {q = q},
      )

  scan_last_reg-le : (idx : ℕ) (p : Partial) → idx ≤ end_of (scan_last_reg code code_sz idx p)
  unfolding scan_last_reg
  scan_last_reg-le idx p =
      let r = expect_str code code_sz reg_des idx in
      let reg = expect_hex_from_str code code_sz r.idx (num_regs - 1) 0 in
      let ws = expect_whitespace_or_end code code_sz reg.idx in
      ground (
        arith,
        expect_str-le code code_sz reg_des idx,
        expect_hex_from_str-le code code_sz r.idx (num_regs - 1) 0,
        expect_whitespace_or_end-le code code_sz reg.idx,
        ignore_non_whitespace-le code code_sz ws.idx,
      )

  scan_last-le : (n idx : ℕ) (p : Partial) → idx ≤ end_of (scan_last code code_sz n idx p)
  unfolding scan_last
  scan_last-le n idx p =
      let neg = expect_str code code_sz neg_sgn idx in
      let hex = expect_hex_from_str code code_sz neg.idx (shr (get_flx_op_mask n) 1) 0 in
      ground (
        arith,
        expect_str-le code code_sz neg_sgn idx,
        expect_hex_from_str-le code code_sz neg.idx (shr (get_flx_op_mask n) 1) 0,
        expect_whitespace_or_end-le code code_sz hex.idx,
        scan_last_reg-le idx p,
      )

  module _ (a : Allocator) where
    -- A round that does not fail ends at a token further on, or at the end.
    abbrev pub MovesOn : ℕ → Outcome a → Type 0
    MovesOn i (ok st) = (i < st.idx) × AtToken code code_sz st.idx
    MovesOn i (error st) = Unit

    emit-MovesOn :
        (st : State a) (word i j : ℕ)
        → i < j
        → AtToken code code_sz j
        → MovesOn i (emit a code code_sz st word j)
    unfolding emit
    emit-MovesOn st word i j h tok =
        elim (Option-cases (array_append a st.heap st.arr (word ∷ []))) [
          | inl e ↦ rw (e, emit) tt
          | inr (r, e) ↦ rw (e, emit) (h, tok)
        ]

    define_label-MovesOn :
        (st : State a)
        → st.idx < code_sz
        → AtToken code code_sz st.idx
        → MovesOn st.idx (define_label a code code_sz st)
    unfolding define_label
    define_label-MovesOn st h tok =
        let past = ignore_non_whitespace code code_sz st.idx in
        let next = ignore_whitespace code code_sz past in
        let lbl = lbl_info st.idx st.prgm_ctr in
        let lt : st.idx < past = elim tok [
          | inl over ↦ omega arith
          | inr no_ws ↦ ignore_non_whitespace-lt code code_sz st.idx h no_ws
        ] in
        let (le, _, next_tok) = ignore_whitespace_lem code code_sz past in
        let further : st.idx < next = omega arith in
        elim (Option-cases (array_find st.lbls 0 lbl ref_eq)) [
          | inl new ↦ elim (Option-cases (array_append a st.heap st.lbls lbl)) [
            | inl full ↦ rw (new, full, define_label) tt
            | inr (r, e) ↦ rw (new, e, define_label) (further, next_tok)
          ]
          | inr (off, known) ↦ rw (known, define_label) (further, next_tok)
        ]

    finish-MovesOn :
        (st : State a) (reset_addr i : ℕ) (l : LastArg)
        → i < end_of l
        → MovesOn i (finish a code code_sz st reset_addr l)
    unfolding finish
    finish-MovesOn st reset_addr i (complete idx instr) h =
        let (le, _, tok) = ignore_whitespace_lem code code_sz idx in
        emit-MovesOn st instr i (ignore_whitespace code code_sz idx) (omega arith) tok
    finish-MovesOn st reset_addr i (label_ref idx instr) h =
        let (le, _, tok) = ignore_whitespace_lem code code_sz idx in
        elim (Option-cases (array_append a st.heap st.lbl_refs (lbl_info reset_addr st.prgm_ctr))) [
          | inl full ↦ rw (full, finish) tt
          | inr ((lbl_refs, heap), e) ↦
              rw (e, finish)
                (emit-MovesOn (record st { heap = heap; lbl_refs = lbl_refs }) instr i
                  (ignore_whitespace code code_sz idx) (omega arith) tok)
        ]

    assemble_instr-MovesOn :
        (st : State a) (n_args i idx : ℕ)
        → st.idx < idx
        → MovesOn st.idx (assemble_instr a code code_sz st n_args i idx)
    unfolding assemble_instr
    assemble_instr-MovesOn st n_args i idx h =
        elim (Option-cases (scan_regs code code_sz (n_args - 1) idx (place_opcode i))) [
          | inl bad ↦ rw (bad, assemble_instr) tt
          | inr ((idx', p), e) ↦
              (let le = scan_regs-le (n_args - 1) idx (place_opcode i) e in
                elim (Bool-cases (n_args == 0)) [
                  | inl no_args ↦
                      rw (e, no_args, assemble_instr)
                        (finish-MovesOn st idx' st.idx (complete idx' p.instr) (omega arith))
                  | inr args ↦
                      (let le' = scan_last-le n_args idx' p in
                        rw (e, args, assemble_instr)
                          (finish-MovesOn st idx' st.idx (scan_last code code_sz n_args idx' p)
                            (omega arith)))
                ])
        ]

    -- A round that does not fail moves on, to a token or to the end of the text.
    pub assemble_token-MovesOn :
        (st : State a)
        → st.idx < code_sz
        → AtToken code code_sz st.idx
        → MovesOn st.idx (assemble_token a code code_sz st)
    unfolding assemble_token
    assemble_token-MovesOn st h tok =
        let hex = expect_hex_from_str code code_sz st.idx max_word 0 in
        let end = expect_whitespace_or_end code code_sz hex.idx in
        let opc = match_opcode code code_sz st.idx hex.output in
        let ws = expect_whitespace code code_sz opc.idx in
        elim (Bool-cases (hex.err || end.err)) [
          | inl no_num ↦ elim (Bool-cases (opc.err || ws.err)) [
            | inl no_opc ↦ rw (no_num, no_opc, assemble_token) (define_label-MovesOn st h tok)
            | inr opcode ↦
                (let le = match_opcode-le code code_sz st.idx hex.output in
                  let lt = expect_whitespace-lt code code_sz opc.idx (ground arith) in
                  elim (Option-cases (instruction opc.output)) [
                    | inl bad ↦ rw (no_num, opcode, bad, assemble_token) tt
                    | inr (op, e) ↦
                        rw (no_num, opcode, e, assemble_token)
                          (assemble_instr-MovesOn st op.n_args opc.output ws.idx (omega arith))
                  ])
          ]
          | inr num ↦
              (let lt = expect_hex_from_str_lem code code_sz st.idx max_word 0 (ground arith) in
                let le = expect_whitespace_or_end-le code code_sz hex.idx in
                rw (num, assemble_token)
                  (emit-MovesOn st hex.output st.idx end.idx (omega arith)
                    (expect_whitespace_or_end-AtToken code code_sz hex.idx (ground arith))))
        ]
