-- ===== src/Asm/Lex.antt =====
-- The scanning functions of asm.c. The text is a list of words, of which the first `code_sz`
-- are read. A function that stores through `idx` or `output` returns the new values; `err` is
-- `true` where the code returns 1, and then the values are those that were passed in.
pub mod Laws
use lisp_machine.Common.{ℕ, zero, suc, ◌+◌, ◌-◌, Bool, true, false, not, ◌&&◌, ◌||◌, ltb, leb, ◌==◌}
use lisp_machine.Common.{if◌then◌else◌, Option, none, some, List, [], ◌∷◌, get_or, bit_or}
use lisp_machine.Word.{shl}
use lisp_machine.Asm.{OpData, instructions}

unfoldable pub whitespace : ℕ → Bool
whitespace ch = ch == b' ' || ch == 10 || ch == 9 || ch == 0

pub record Moved : Type 0 where
  pub err : Bool
  pub idx : ℕ

pub record Scan : Type 0 where
  pub err : Bool
  pub idx : ℕ
  pub output : ℕ

-- The value of a hexadecimal digit in either case.
unfoldable pub hex_digit : ℕ → Option ℕ
hex_digit ch =
    if leb b'0' ch && leb ch b'9'
    then some (ch - b'0')
    else if leb b'a' ch && leb ch b'f'
    then some (ch - b'a' + 10)
    else if leb b'A' ch && leb ch b'F'
    then some (ch - b'A' + 10)
    else none

-- How the comparison with one name of the table ends.
pub data NameMatch : Type 0 where
  matched : ℕ → NameMatch
  differs at_end : NameMatch

module _ (code : List ℕ) (code_sz : ℕ) where
  abbrev pub at : ℕ → ℕ
  at i = get_or code i 0

  -- The loops go on while `i < code_sz`, so `code_sz - i` rounds are left.
  unfoldable pub skip_whitespace : ℕ → ℕ → ℕ
  skip_whitespace zero i = i
  skip_whitespace (suc left) i =
      let rest = skip_whitespace left (i + 1) in if whitespace (at i) then rest else i

  unfoldable pub skip_non_whitespace : ℕ → ℕ → ℕ
  skip_non_whitespace zero i = i
  skip_non_whitespace (suc left) i =
      let rest = skip_non_whitespace left (i + 1) in if whitespace (at i) then i else rest

  unfoldable pub ignore_whitespace : ℕ → ℕ
  ignore_whitespace idx = skip_whitespace (code_sz - idx) idx

  unfoldable pub ignore_non_whitespace : ℕ → ℕ
  ignore_non_whitespace idx = skip_non_whitespace (code_sz - idx) idx

  unfoldable pub expect_whitespace : ℕ → Moved
  expect_whitespace idx =
      if leb code_sz idx || not (whitespace (at idx))
      then record { err = true; idx = idx }
      else record { err = false; idx = ignore_whitespace idx }

  unfoldable pub expect_whitespace_or_end : ℕ → Moved
  expect_whitespace_or_end idx =
      let ws = expect_whitespace idx in
      record { err = not (not ws.err || leb code_sz ws.idx); idx = ws.idx }

  unfoldable pub match_name : List ℕ → ℕ → NameMatch
  match_name [] idx = matched idx
  match_name (ch ∷ name) idx =
      let rest = match_name name (idx + 1) in
      if leb code_sz idx then at_end else if ch == at idx then rest else differs

  -- The outer loop from the table's entry `i` on. It gives up where the text ends within a name.
  unfoldable pub match_from : List OpData → ℕ → ℕ → ℕ → Scan
  match_from [] i idx output = record { err = true; idx = idx; output = output }
  match_from (op ∷ ops) i idx output = elim (match_name op.name idx) [
    | matched idx' ↦ record { err = false; idx = idx'; output = i }
    | differs ↦ match_from ops (i + 1) idx output
    | at_end ↦ record { err = true; idx = idx; output = output }
  ]

  unfoldable pub match_opcode : ℕ → ℕ → Scan
  match_opcode idx output = match_from instructions 0 idx output

  -- The end of a text that starts at `idx`, if it stands there.
  unfoldable pub str_end : List ℕ → ℕ → Option ℕ
  str_end [] idx = some idx
  str_end (ch ∷ str) idx =
      let rest = str_end str (idx + 1) in
      if leb code_sz idx || not (at idx == ch) then none else rest

  unfoldable pub expect_str : List ℕ → ℕ → Moved
  expect_str str idx = elim (str_end str idx) [
    | none ↦ record { err = true; idx = idx }
    | some idx' ↦ record { err = false; idx = idx' }
  ]

  -- The digit loop with `left` rounds to go. `none` is the return on a value above `max_val`.
  unfoldable pub hex_digits : ℕ → ℕ → ℕ → ℕ → ℕ → Option (ℕ × ℕ × ℕ)
  hex_digits max_val zero idx i res = some (idx, i, res)
  hex_digits max_val (suc left) idx i res =
      if leb code_sz idx then some (idx, i, res) else elim (hex_digit (at idx)) [
        | none ↦ some (idx, i, res)
        | some tmp ↦
            let pval = bit_or (shl res 4) tmp in
            let rest = hex_digits max_val left (idx + 1) (i + 1) pval in
            if ltb max_val pval then none else rest
      ]

  unfoldable pub expect_hex_from_str : ℕ → ℕ → ℕ → Scan
  expect_hex_from_str idx max_val output = elim (hex_digits max_val 16 idx 0 0) [
    | none ↦ record { err = true; idx = idx; output = output }
    | some (idx', i, res) ↦
        if i == 0
        then record { err = true; idx = idx; output = output }
        else record { err = false; idx = idx'; output = res }
  ]

  -- `lbl_streq` on two labels given by their places in the text, with `left` rounds to go.
  unfoldable pub same_label : ℕ → ℕ → ℕ → Bool
  same_label zero l1 l2 = true
  same_label (suc left) l1 l2 =
      let rest = same_label left (l1 + 1) (l2 + 1) in
      if leb code_sz l1 || leb code_sz l2
      then true
      else if whitespace (at l1)
      then whitespace (at l2)
      else if at l1 == at l2
      then rest
      else false

  unfoldable pub lbl_streq : ℕ → ℕ → Bool
  lbl_streq l1 l2 = same_label code_sz l1 l2
