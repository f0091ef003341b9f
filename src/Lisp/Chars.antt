-- ===== src/Lisp/Chars.antt =====
-- The sets of characters of lisp.c: the white space, the operators that stand for themselves, and
-- the quote and the brackets. They are lists, against which the reader's tests are held.
use lisp_machine.Common.{ℕ, ◌≡◌, arith, ◌==◌, ◌||◌, Bool, true, false, List, [], ◌∷◌, ◌++◌}
use lisp_machine.Lisp.{in_ws, in_ops, kind, space}
use lisp_machine.Lisp.{operator, other}

abbrev pub spaces : List ℕ
spaces = 0 ∷ 9 ∷ 10 ∷ 32 ∷ []

abbrev pub signs : List ℕ
signs = b'<' ∷ b'>' ∷ b':' ∷ b'|' ∷ b'~' ∷ []

abbrev pub stops : List ℕ
stops = spaces ++ (signs ++ (b'\'' ∷ b'[' ∷ b']' ∷ []))

abbrev pub listed : ℕ → List ℕ → Bool
listed c [] = false
listed c (x ∷ xs) = c == x || listed c xs

pub stops_lem : (c : ℕ) → (in_ws c || in_ops c) ≡ listed c stops
unfolding in_ws in_ops
stops_lem c = ground arith

pub space_kind : (c : ℕ) → listed c spaces ≡ true → kind c ≡ space
unfolding kind in_ws
space_kind c h = ground (arith, h)

pub sign_kind : (c : ℕ) → listed c signs ≡ true → kind c ≡ operator
unfolding kind in_ws in_ops
sign_kind c h = ground (arith, h)

pub other_kind : (c : ℕ) → listed c stops ≡ false → kind c ≡ other
unfolding kind in_ws in_ops
other_kind c h = ground (arith, h)

pub kind_space : (c : ℕ) → kind c ≡ space → listed c spaces ≡ true
unfolding kind in_ws in_ops
kind_space c h = ground (arith, h)

pub kind_sign : (c : ℕ) → kind c ≡ operator → listed c signs ≡ true
unfolding kind in_ws in_ops
kind_sign c h = ground (arith, h)

pub kind_other : (c : ℕ) → kind c ≡ other → listed c stops ≡ false
unfolding kind in_ws in_ops
kind_other c h = ground (arith, h)
