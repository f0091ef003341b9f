-- ===== src/Asm/Compile.antt =====
-- `compile` of asm.c: from a text to an array of words, in one pass over the text and one over
-- the references to labels. A label is known by the place in the text where it starts.
pub mod Progress
pub mod Total
use lisp_machine.Common.{ℕ, zero, suc, ◌+◌, ◌-◌, ◌*◌, ◌/◌, Bool, true, false, not, ◌||◌, leb, ◌==◌}
use lisp_machine.Common.{if◌then◌else◌, Option, none, some, List, [], ◌∷◌, get_or, set, bit_or}
use lisp_machine.Word.{max_word, shr}
use lisp_machine.Memory.{Block, Allocator}
use lisp_machine.Array.{
  array_bsz, array, array_append, array_find, array_len, array_delete, item_at,
}
use lisp_machine.Asm.{num_regs, get_flx_op_mask, OpData, instruction}
use lisp_machine.Asm.Lex.{Moved, Scan, ignore_whitespace, ignore_non_whitespace, expect_whitespace}
use lisp_machine.Asm.Lex.{expect_whitespace_or_end, match_opcode, expect_str, expect_hex_from_str}
use lisp_machine.Asm.Lex.{lbl_streq}
use lisp_machine.Asm.Encode.{Partial, place_opcode, place_reg, place_last_reg, immediate}
use lisp_machine.Asm.Encode.{place_immediate}

-- `lbl_info`: two words, the label and an address.
abbrev pub lbl_info_sz : ℕ
lbl_info_sz = 2

abbrev pub lbl_info : ℕ → ℕ → List ℕ
lbl_info label addr = label ∷ addr ∷ []

abbrev pub label_of : List ℕ → ℕ
label_of l = get_or l 0 0

abbrev pub addr_of : List ℕ → ℕ
addr_of l = get_or l 1 0

unfoldable pub ref_eq : List ℕ → List ℕ → Bool
ref_eq r1 r2 = label_of r1 == label_of r2

abbrev pub reg_des : List ℕ
reg_des = b'r' ∷ []

abbrev pub neg_sgn : List ℕ
neg_sgn = b'-' ∷ []

-- What the last argument of an instruction turned out to be, and where scanning goes on.
pub data LastArg : Type 0 where
  complete : ℕ → ℕ → LastArg
  label_ref : ℕ → ℕ → LastArg

module _ (code : List ℕ) (code_sz : ℕ) where
  -- The register arguments but the last, `left` of them. `none` is the jump to `error`.
  unfoldable pub scan_regs : ℕ → ℕ → Partial → Option (ℕ × Partial)
  scan_regs zero idx p = some (idx, p)
  scan_regs (suc left) idx p =
      let r = expect_str code code_sz reg_des idx in
      let reg = expect_hex_from_str code code_sz r.idx (num_regs - 1) 0 in
      let ws = expect_whitespace code code_sz reg.idx in
      let rest = scan_regs left ws.idx (place_reg p reg.output) in
      if r.err || reg.err || ws.err then none else rest

  -- A register or a label as the last argument.
  unfoldable pub scan_last_reg : ℕ → Partial → LastArg
  scan_last_reg idx p =
      let r = expect_str code code_sz reg_des idx in
      let reg = expect_hex_from_str code code_sz r.idx (num_regs - 1) 0 in
      let ws = expect_whitespace_or_end code code_sz reg.idx in
      if r.err || reg.err || ws.err
      then label_ref (ignore_non_whitespace code code_sz ws.idx) p.instr
      else complete ws.idx (place_last_reg p reg.output)

  unfoldable pub scan_last : ℕ → ℕ → Partial → LastArg
  scan_last n_args idx p =
      let neg = expect_str code code_sz neg_sgn idx in
      let hex = expect_hex_from_str code code_sz neg.idx (shr (get_flx_op_mask n_args) 1) 0 in
      let ws = expect_whitespace_or_end code code_sz hex.idx in
      if hex.err || ws.err
      then scan_last_reg idx p
      else complete ws.idx (place_immediate p (immediate n_args (not neg.err) hex.output))

module _ (a : Allocator) where
  open a use {Heap}

  -- The variables of the first loop.
  pub record State : Type 0 where
    pub heap : Heap
    pub arr : Block
    pub lbl_refs : Block
    pub lbls : Block
    pub prgm_ctr : ℕ
    pub idx : ℕ

  -- `error` stands for the jump to that label, with the arrays that are then deleted.
  pub data Outcome : Type 0 where
    ok : State → Outcome
    error : State → Outcome

  module _ (code : List ℕ) (code_sz : ℕ) where
    unfoldable pub emit : State → ℕ → ℕ → Outcome
    emit st word idx = elim (array_append a st.heap st.arr (word ∷ [])) [
      | none ↦ error st
      | some (arr, heap) ↦
          ok (record st { heap = heap; arr = arr; prgm_ctr = st.prgm_ctr + 1; idx = idx })
    ]

    -- A token that is neither a number nor an opcode is a label.
    unfoldable pub define_label : State → Outcome
    define_label st =
        let next = ignore_whitespace code code_sz (ignore_non_whitespace code code_sz st.idx) in
        let lbl = lbl_info st.idx st.prgm_ctr in
        elim (array_find st.lbls 0 lbl ref_eq) [
          | some _ ↦ ok (record st { idx = next })
          | none ↦ elim (array_append a st.heap st.lbls lbl) [
            | none ↦ error st
            | some (lbls, heap) ↦ ok (record st { heap = heap; lbls = lbls; idx = next })
          ]
        ]

    -- The reference is noted, and its bits are left 0 for the second loop.
    unfoldable pub finish : State → ℕ → LastArg → Outcome
    finish st reset_addr (complete idx instr) = emit st instr (ignore_whitespace code code_sz idx)
    finish st reset_addr (label_ref idx instr) =
        elim (array_append a st.heap st.lbl_refs (lbl_info reset_addr st.prgm_ctr)) [
          | none ↦ error st
          | some (lbl_refs, heap) ↦
              emit (record st { heap = heap; lbl_refs = lbl_refs }) instr
                (ignore_whitespace code code_sz idx)
        ]

    -- The arguments of the instruction with table entry `i`, from `idx` on.
    unfoldable pub assemble_instr : State → ℕ → ℕ → ℕ → Outcome
    assemble_instr st n_args i idx =
        elim (scan_regs code code_sz (n_args - 1) idx (place_opcode i)) [
          | none ↦ error st
          | some (idx', p) ↦
              if n_args == 0
              then finish st idx' (complete idx' p.instr)
              else finish st idx' (scan_last code code_sz n_args idx' p)
        ]

    -- One round of the first loop.
    unfoldable pub assemble_token : State → Outcome
    assemble_token st =
        let hex = expect_hex_from_str code code_sz st.idx max_word 0 in
        let end = expect_whitespace_or_end code code_sz hex.idx in
        let opc = match_opcode code code_sz st.idx hex.output in
        let ws = expect_whitespace code code_sz opc.idx in
        if not (hex.err || end.err)
        then emit st hex.output end.idx
        else if opc.err || ws.err
        then define_label st
        else elim (instruction opc.output) [
          | none ↦ error st
          | some op ↦ assemble_instr st op.n_args opc.output ws.idx
        ]

    -- The first loop. `none` means that the fuel ran out.
    unfoldable pub assemble : ℕ → State → Option Outcome
    assemble zero st = none
    assemble (suc fuel) st =
        if leb code_sz st.idx
        then some (ok st)
        else elim (assemble_token st) [ ok st' ↦ assemble fuel st' | error st' ↦ some (error st') ]

    -- The second loop, with `left` references from the `i`-th on still to go.
    unfoldable pub resolve : ℕ → ℕ → State → Outcome
    resolve zero i st = ok st
    resolve (suc left) i st =
        let ref = item_at st.lbl_refs (i * lbl_info_sz) in
        elim (array_find st.lbls 0 ref (λ r l. lbl_streq code code_sz (label_of r) (label_of l))) [
          | none ↦ error st
          | some off ↦
              let place = array_bsz + addr_of ref in
              let target = addr_of (item_at st.lbls off) in
              resolve left (i + 1) (record st {
                arr = record (st.arr) {
                  words = set st.arr.words place (bit_or (get_or st.arr.words place 0) target);
                };
              })
        ]

    -- What becomes of the arrays at the end. On an error all three are deleted.
    unfoldable pub conclude : Outcome → Option Block × Heap
    conclude (ok st) = (some st.arr, array_delete a (array_delete a st.heap st.lbls) st.lbl_refs)
    conclude (error st) =
        (none, array_delete a (array_delete a (array_delete a st.heap st.lbls) st.lbl_refs) st.arr)

    unfoldable pub link : Outcome → Outcome
    link (ok st) = resolve (array_len st.lbl_refs) 0 st
    link (error st) = error st

    -- The result is `none` only if the first loop ran out of fuel. The pointers are not null.
    unfoldable pub compile : Heap → Option (Option Block × Heap)
    compile h = if code_sz == 0 then some (none, h) else elim (array a h (code_sz / 32) 1) [
      | none ↦ some (none, h)
      | some (arr, h1) ↦ elim (array a h1 (code_sz / 8) lbl_info_sz) [
        | none ↦ some (none, array_delete a h1 arr)
        | some (lbl_refs, h2) ↦ elim (array a h2 (code_sz / 8) lbl_info_sz) [
          | none ↦ some (none, array_delete a (array_delete a h2 lbl_refs) arr)
          | some (lbls, h3) ↦
              let start : State = record {
                heap = h3;
                arr = arr;
                lbl_refs = lbl_refs;
                lbls = lbls;
                prgm_ctr = 0;
                idx = ignore_whitespace code code_sz 0;
              } in
              elim (assemble (suc code_sz) start) [
                | none ↦ none
                | some out ↦ some (conclude (link out))
              ]
        ]
      ]
    ]
