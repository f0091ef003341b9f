-- ===== src/Asm/Lex/Laws.antt =====
-- How far the scanning functions go.
use native.Mathlib.Decide.{dec_le}
use lisp_machine.Common.{ℕ, zero, suc, ◌+◌, ◌-◌, ◌≤◌, ◌<◌, true, false, leb}
use lisp_machine.Common.{◌==◌, if◌then◌else◌, some, List, [], ◌∷◌, ◌≡◌}
use lisp_machine.Common.{◌⊎◌, inl, inr, Bool-cases, Option-cases, bit_or, arith}
use lisp_machine.Word.{shl}
use lisp_machine.Asm.{OpData, instructions}
use lisp_machine.Asm.Lex.{whitespace, Scan, NameMatch, matched, differs, at_end, hex_digit, at}
use lisp_machine.Asm.Lex.{skip_whitespace, skip_non_whitespace, ignore_whitespace}
use lisp_machine.Asm.Lex.{ignore_non_whitespace, expect_whitespace, expect_whitespace_or_end}
use lisp_machine.Asm.Lex.{match_name, match_from, match_opcode, str_end, expect_str, hex_digits}
use lisp_machine.Asm.Lex.{expect_hex_from_str}

module _ (code : List ℕ) (code_sz : ℕ) where
  -- A place where a token starts, or the end of the text.
  abbrev pub AtToken : ℕ → Type 0
  AtToken i = (code_sz ≤ i) ⊎ (whitespace (at code code_sz i) ≡ false)

  skip_whitespace_lem :
      (left i : ℕ)
      → i + left ≡ code_sz
      → (i ≤ skip_whitespace code code_sz left i)
        × (skip_whitespace code code_sz left i ≤ code_sz)
        × AtToken (skip_whitespace code code_sz left i)
  unfolding skip_whitespace
  skip_whitespace_lem zero i e = (omega arith, omega arith, inl (omega arith))
  skip_whitespace_lem (suc left) i e = elim (Bool-cases (whitespace (at code code_sz i))) [
    | inl ws ↦
        (let (lo, hi, tok) = skip_whitespace_lem left (i + 1) (omega arith) in
          rw ws (omega arith, hi, tok))
    | inr no_ws ↦ rw no_ws (omega arith, omega arith, inr no_ws)
  ]

  -- `ignore_whitespace` stops at the next token or at the end, never further on.
  pub ignore_whitespace_lem :
      (i : ℕ)
      → let j = ignore_whitespace code code_sz i in
        (i ≤ j) × ((i ≤ code_sz) → j ≤ code_sz) × AtToken j
  unfolding ignore_whitespace skip_whitespace
  ignore_whitespace_lem i = elim (dec_le i code_sz) [
    | yes p ↦
        (let (lo, hi, tok) = skip_whitespace_lem (code_sz - i) i (omega arith) in
          (lo, (λ _. hi), tok))
    | no p ↦
        (let none_left : code_sz - i ≡ 0 = omega arith in
          rw none_left (omega arith, (λ h. absurd (omega arith)), inl (omega arith)))
  ]

  skip_non_whitespace-le : (left i : ℕ) → i ≤ skip_non_whitespace code code_sz left i
  unfolding skip_non_whitespace
  skip_non_whitespace-le zero i = omega arith
  skip_non_whitespace-le (suc left) i = ground (arith, skip_non_whitespace-le left (i + 1))

  pub ignore_non_whitespace-le : (i : ℕ) → i ≤ ignore_non_whitespace code code_sz i
  unfolding ignore_non_whitespace
  ignore_non_whitespace-le i = skip_non_whitespace-le (code_sz - i) i

  -- A token has at least one character.
  pub ignore_non_whitespace-lt :
      (i : ℕ)
      → i < code_sz
      → whitespace (at code code_sz i) ≡ false
      → i < ignore_non_whitespace code code_sz i
  unfolding ignore_non_whitespace skip_non_whitespace
  ignore_non_whitespace-lt i h no_ws =
      let more : code_sz - i ≡ suc (code_sz - i - 1) = omega arith in
      rw (more, no_ws) (omega (arith, skip_non_whitespace-le (code_sz - i - 1) (i + 1)))

  pub expect_whitespace-le : (i : ℕ) → i ≤ (expect_whitespace code code_sz i).idx
  unfolding expect_whitespace
  expect_whitespace-le i = ground (arith, ignore_whitespace_lem i)

  ignore_whitespace-lt :
      (i : ℕ)
      → i < code_sz
      → whitespace (at code code_sz i) ≡ true
      → i < ignore_whitespace code code_sz i
  unfolding ignore_whitespace skip_whitespace
  ignore_whitespace-lt i h ws =
      let more : code_sz - i ≡ suc (code_sz - i - 1) = omega arith in
      let (lo, _, _) = skip_whitespace_lem (code_sz - i - 1) (i + 1) (omega arith) in
      rw (more, ws) (omega (arith, lo))

  -- Where it succeeds, at least one character was passed.
  pub expect_whitespace-lt :
      (i : ℕ)
      → (expect_whitespace code code_sz i).err ≡ false
      → i < (expect_whitespace code code_sz i).idx
  unfolding expect_whitespace
  expect_whitespace-lt i h = ground (arith, ignore_whitespace-lt i)

  pub expect_whitespace_or_end-le : (i : ℕ) → i ≤ (expect_whitespace_or_end code code_sz i).idx
  unfolding expect_whitespace_or_end
  expect_whitespace_or_end-le i = expect_whitespace-le i

  -- Where it succeeds, a token or the end follows.
  pub expect_whitespace_or_end-AtToken :
      (i : ℕ)
      → (expect_whitespace_or_end code code_sz i).err ≡ false
      → AtToken (expect_whitespace_or_end code code_sz i).idx
  unfolding expect_whitespace_or_end expect_whitespace
  expect_whitespace_or_end-AtToken i h = ground (arith, ignore_whitespace_lem i)

  -- The place that a comparison with a name has reached.
  abbrev reached : ℕ → NameMatch → ℕ
  reached i (matched j) = j
  reached i differs = i
  reached i at_end = i

  match_name-le : (name : List ℕ) (i : ℕ) → i ≤ reached i (match_name code code_sz name i)
  unfolding match_name
  match_name-le [] i = omega arith
  match_name-le (c ∷ name) i =
      step (match_name code code_sz name (i + 1)) (match_name-le name (i + 1))
    where
      step :
          (m : NameMatch)
          → i + 1 ≤ reached (i + 1) m
          → i
            ≤ reached i
                (if leb code_sz i then at_end else if c == at code code_sz i then m else differs)
      step (matched j) h = ground arith
      step differs h = ground arith
      step at_end h = ground arith

  match_from-le :
      (ops : List OpData) (i idx output : ℕ) → idx ≤ (match_from code code_sz ops i idx output).idx
  unfolding match_from
  match_from-le [] i idx output = omega arith
  match_from-le (op ∷ ops) i idx output =
      step (match_name code code_sz op.name idx) (match_name-le op.name idx)
        (match_from-le ops (i + 1) idx output)
    where
      step :
          (m : NameMatch)
          → idx ≤ reached idx m
          → idx ≤ (match_from code code_sz ops (i + 1) idx output).idx
          → idx
            ≤ (elim m as (λ _. Scan) [
              | matched idx' ↦ record { err = false; idx = idx'; output = i }
              | differs ↦ match_from code code_sz ops (i + 1) idx output
              | at_end ↦ record { err = true; idx = idx; output = output }
            ]).idx
      step (matched j) h r = h
      step differs h r = r
      step at_end h r = omega arith

  pub match_opcode-le : (idx output : ℕ) → idx ≤ (match_opcode code code_sz idx output).idx
  unfolding match_opcode
  match_opcode-le idx output = match_from-le instructions 0 idx output

  str_end-le : (str : List ℕ) (i j : ℕ) → str_end code code_sz str i ≡ some j → i ≤ j
  unfolding str_end
  str_end-le [] i j e = ground arith
  str_end-le (c ∷ str) i j e = ground (arith, str_end-le str (i + 1) j)

  pub expect_str-le : (str : List ℕ) (i : ℕ) → i ≤ (expect_str code code_sz str i).idx
  unfolding expect_str
  expect_str-le str i = elim (Option-cases (str_end code code_sz str i)) [
    | inl e ↦ rw (e, expect_str) (omega arith)
    | inr (j, e) ↦ rw (e, expect_str) (str_end-le str i j e)
  ]

  -- The digit loop never passes the end of the text, and keeps the value within its bound.
  hex_digits_lem :
      (max_val left idx i res : ℕ) {j n out : ℕ}
      → res ≤ max_val
      → hex_digits code code_sz max_val left idx i res ≡ some (j, n, out)
      → (j + i ≡ idx + n)
        × (i ≤ n)
        × (n ≤ i + left)
        × (out ≤ max_val)
        × ((idx ≤ code_sz) → j ≤ code_sz)
  unfolding hex_digits
  hex_digits_lem max_val zero idx i res h e = ground arith
  hex_digits_lem max_val (suc left) idx i res {j} {n} {out} h e =
      elim (Option-cases (hex_digit (at code code_sz idx))) [
        | inl no_digit ↦ ground arith
        | inr (d, digit) ↦ ground (
          arith,
          hex_digits_lem max_val left (idx + 1) (i + 1) (bit_or (shl res 4) d) {j = j} {n = n}
              {out = out},
        )
      ]

  -- A hexadecimal number that is accepted has at least one digit and at most sixteen, ends
  -- inside the text and is at most `max_val`.
  pub expect_hex_from_str_lem :
      (idx max_val output : ℕ)
      → let hex = expect_hex_from_str code code_sz idx max_val output in
        hex.err ≡ false
        → (idx < hex.idx)
          × (hex.idx ≤ idx + 16)
          × (hex.output ≤ max_val)
          × ((idx ≤ code_sz) → hex.idx ≤ code_sz)
  unfolding expect_hex_from_str
  expect_hex_from_str_lem idx max_val output h =
      elim (Option-cases (hex_digits code code_sz max_val 16 idx 0 0)) [
        | inl e ↦ (let bad : true ≡ false = rw (e, expect_hex_from_str) at h in absurd (cc))
        | inr ((j, n, out), e) ↦
            ground
              (arith, hex_digits_lem max_val 16 idx 0 0 {j = j} {n = n} {out = out} (omega arith) e)
      ]

  pub expect_hex_from_str-le :
      (idx max_val output : ℕ) → idx ≤ (expect_hex_from_str code code_sz idx max_val output).idx
  unfolding expect_hex_from_str
  expect_hex_from_str-le idx max_val output =
      elim (Bool-cases (expect_hex_from_str code code_sz idx max_val output).err) [
        | inl bad ↦ ground arith
        | inr good ↦ omega (arith, expect_hex_from_str_lem idx max_val output good)
      ]
