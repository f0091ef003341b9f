-- ===== src/Asm/Run/Halves.antt =====
-- `ldr` and `str` of `run` access a word as two halves.
use lisp_machine.Common.{ℕ, ◌+◌, ◌*◌, ◌/◌, ◌%◌, ◌^◌, ◌<◌, bit_or, ◌≡◌, ◌≢◌, refl, ap, ◌∙◌, arith}
use lisp_machine.Common.{==_refl, ==_ne}
use lisp_machine.Word.{word_mod, shr}
use lisp_machine.Word.Bits.{bit_or_comm, bit_or_fields}
use lisp_machine.Asm.Machine.{update, load_halves, store_low, store_halves}

pub update_self : (mem : ℕ → ℕ) (a v : ℕ) → update mem a v a ≡ v
unfolding update
update_self mem a v = rw ==_refl refl

pub update_ne : (mem : ℕ → ℕ) (a b v : ℕ) → b ≢ a → update mem a v b ≡ mem b
unfolding update
update_ne mem a b v h = rw (==_ne b a h) refl

store_halves_self : (mem : ℕ → ℕ) (a v : ℕ) → v < word_mod → store_halves mem a v a ≡ v
unfolding store_halves
store_halves_self mem a v h =
    let low = update_self mem a (mem a / 2 ^ 32 * 2 ^ 32 + v % 2 ^ 32) in
    update_self (store_low mem a (v % 2 ^ 32)) a
      (shr v 32 % 2 ^ 32 * 2 ^ 32 + store_low mem a (v % 2 ^ 32) a % 2 ^ 32)
    ∙ omega (arith, low)

load_halves_lem : (mem : ℕ → ℕ) (a : ℕ) → mem a < word_mod → load_halves mem a ≡ mem a
unfolding load_halves
load_halves_lem mem a h =
    let v = mem a in
    omega (
      arith,
      bit_or_comm (v % 2 ^ 32) (v / 2 ^ 32 * 2 ^ 32 % word_mod),
      bit_or_fields 32 (v / 2 ^ 32) (v % 2 ^ 32) (omega arith),
      ap (λ t. bit_or t (v % 2 ^ 32)) {x = v / 2 ^ 32 * 2 ^ 32 % word_mod} {y = v / 2 ^ 32 * 2 ^ 32}
          (omega arith),
    )

store_halves_ne : (mem : ℕ → ℕ) (a b v : ℕ) → b ≢ a → store_halves mem a v b ≡ mem b
unfolding store_halves
store_halves_ne mem a b v h =
    update_ne (store_low mem a (v % 2 ^ 32)) a b
      (shr v 32 % 2 ^ 32 * 2 ^ 32 + store_low mem a (v % 2 ^ 32) a % 2 ^ 32) h
    ∙ update_ne mem a b (mem a / 2 ^ 32 * 2 ^ 32 + v % 2 ^ 32) h

-- A word that is stored by halves is loaded again as it was, and no other word changes.
pub load-store_halves :
    (mem : ℕ → ℕ) (a v : ℕ)
    → v < word_mod
    → (load_halves (store_halves mem a v) a ≡ v)
      × ((b : ℕ) → b ≢ a → store_halves mem a v b ≡ mem b)
load-store_halves mem a v h =
    let same = store_halves_self mem a v h in
    (
      load_halves_lem (store_halves mem a v) a (rw same h) ∙ same,
      λ b ne. store_halves_ne mem a b v ne,
    )
