-- ===== src/Heap/Counts.antt =====
-- The count word of an object, of alloc.c: the reference count in the lower half, the temporary
-- count of the collector in the upper half, and its mark in the top bit.
use native.Mathlib.Nat.{mod-eq_of_lt}
use lisp_machine.Common.{ℕ, ◌+◌, ◌-◌, ◌*◌, ◌/◌, ◌^◌, ◌<◌, ◌≡◌, arith, bit_and, bit_or}
use lisp_machine.Common.{ap, ◌∙◌}
use lisp_machine.Word.{shl, shr, not_word, max_word}
use lisp_machine.Word.Bits.{bit_and_mask, bit_or_fields, bit_or_comm, bit_and_shifted}

abbrev pub refcount_mask : ℕ
refcount_mask = shr max_word 32

abbrev pub visited_mask : ℕ
visited_mask = shl 1 63

unfoldable pub get_rc : ℕ → ℕ
get_rc o = bit_and o refcount_mask

unfoldable pub get_tmp_rc : ℕ → ℕ
get_tmp_rc o = shr (bit_and o (not_word visited_mask)) 32

-- `_set_tmp_rc`, which takes the mark away.
unfoldable pub reset_tmp_rc : ℕ → ℕ → ℕ
reset_tmp_rc o val = bit_or (bit_and o refcount_mask) (shl val 32)

unfoldable pub set_tmp_rc : ℕ → ℕ → ℕ
set_tmp_rc o val = bit_or (bit_and o (bit_or refcount_mask visited_mask)) (shl val 32)

unfoldable pub visited : ℕ → ℕ
visited o = bit_and o visited_mask

unfoldable pub set_visited : ℕ → ℕ → ℕ
set_visited o val = bit_or (bit_and o (shr max_word 1)) (shl val 63)

-- The word that three fields make.
abbrev pub count_word : ℕ → ℕ → ℕ → ℕ
count_word mark tmp rc = mark * 2 ^ 63 + tmp * 2 ^ 32 + rc

-- The fields of such a word.
pub get_rc-word : (m t r : ℕ) → r < 2 ^ 32 → get_rc (count_word m t r) ≡ r
unfolding get_rc
get_rc-word m t r h = omega (arith, bit_and_mask 32 (count_word m t r))

pub get_tmp_rc-word : (m t r : ℕ) → t < 2 ^ 31 → r < 2 ^ 32 → get_tmp_rc (count_word m t r) ≡ t
unfolding get_tmp_rc
get_tmp_rc-word m t r p q = omega (arith, bit_and_mask 63 (count_word m t r))

-- A field that is put above the ones that are kept.
put_field :
    (k low hi : ℕ) → low < 2 ^ k → hi * 2 ^ k < 2 ^ 64 → bit_or low (shl hi k) ≡ hi * 2 ^ k + low
put_field k low hi p q =
    ap (bit_or low) (mod-eq_of_lt q) ∙ bit_or_comm low (hi * 2 ^ k) ∙ bit_or_fields k hi low p

pub set_visited-word :
    (m t r val : ℕ)
    → t < 2 ^ 31
    → r < 2 ^ 32
    → val < 2
    → set_visited (count_word m t r) val ≡ count_word val t r
unfolding set_visited
set_visited-word m t r val p q h =
    let low : bit_and (count_word m t r) (2 ^ 63 - 1) ≡ t * 2 ^ 32 + r =
      omega (arith, bit_and_mask 63 (count_word m t r)) in
    ap (λ z. bit_or z (shl val 63)) low
    ∙ put_field 63 (t * 2 ^ 32 + r) val (omega arith) (omega arith)
    ∙ omega arith

pub reset_tmp_rc-word :
    (m t r val : ℕ)
    → r < 2 ^ 32
    → val < 2 ^ 31
    → reset_tmp_rc (count_word m t r) val ≡ count_word 0 val r
unfolding reset_tmp_rc
reset_tmp_rc-word m t r val q h =
    let low : bit_and (count_word m t r) (2 ^ 32 - 1) ≡ r =
      omega (arith, bit_and_mask 32 (count_word m t r)) in
    ap (λ z. bit_or z (shl val 32)) low ∙ put_field 32 r val q (omega arith) ∙ omega arith

visited-unmarked : (t r : ℕ) → r < 2 ^ 32 → t < 2 ^ 31 → visited (count_word 0 t r) ≡ 0
unfolding visited
visited-unmarked t r q k =
    let top : count_word 0 t r / 2 ^ 63 ≡ 0 = omega arith in
    bit_and_shifted 63 (count_word 0 t r) 1 ∙ ap (λ z. bit_and z 1 * 2 ^ 63) top

-- Marking an object keeps its counts: the reference count and the temporary count are those from
-- before, and a new temporary count by `_set_tmp_rc` keeps the reference count and unmarks.
pub counts_apart :
    (m t r mark val : ℕ)
    → t < 2 ^ 31
    → r < 2 ^ 32
    → mark < 2
    → val < 2 ^ 31
    → (get_rc (set_visited (count_word m t r) mark) ≡ r)
      × ((get_tmp_rc (set_visited (count_word m t r) mark) ≡ t)
          × ((get_rc (reset_tmp_rc (count_word m t r) val) ≡ r)
              × ((get_tmp_rc (reset_tmp_rc (count_word m t r) val) ≡ val)
                  × (visited (reset_tmp_rc (count_word m t r) val) ≡ 0))))
counts_apart m t r mark val p q h k =
    let s = set_visited-word m t r mark p q h in
    let w = reset_tmp_rc-word m t r val q k in
    (
      ap get_rc s ∙ get_rc-word mark t r q,
      (
        ap get_tmp_rc s ∙ get_tmp_rc-word mark t r p q,
        (
          ap get_rc w ∙ get_rc-word 0 val r q,
          (
            ap get_tmp_rc w ∙ get_tmp_rc-word 0 val r k q,
            ap visited w ∙ visited-unmarked val r q k,
          ),
        ),
      ),
    )
