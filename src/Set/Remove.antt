-- ===== src/Set/Remove.antt =====
-- What the sets of datastructures.c promise: a search in a set after a removal.
use mathlib.Core.Path.{subst}
use lisp_machine.Common.{
  ℕ, ◌==◌, ◌≡◌, refl, sym, ap, ◌∙◌, inl, inr, arith, Bool-cases, Option-cases,
}
use lisp_machine.Common.{if◌then◌else◌, true, Option, none, some, [], ==_iff}
use lisp_machine.Memory.{Allocator}
use lisp_machine.Object.{Object, obj_cmp}
use lisp_machine.Object.Store.{Store}
use lisp_machine.Avl.{Entry, Tree, entries, plug}
use lisp_machine.Avl.Find.{compare_at, find_key}
use lisp_machine.Avl.Sorted.{IsSorted}
use lisp_machine.Avl.Balanced.{IsBalanced}
use lisp_machine.Avl.Delete.{avl_find, find_spot, Spot, delete_spot}
use lisp_machine.Avl.DeleteOrder.{Found, FoundSome, find_spot-Found}
use lisp_machine.Avl.DeleteBalanced.{
  InBalanced, InBalancedSome, find_spot-InBalanced, delete_spot-IsBalanced,
}
use lisp_machine.Set.{set_cmp, in_set, set_remove}
use lisp_machine.Set.Order.{Fit, key_at, obj_cmp-zero}
use lisp_machine.Set.Lookup.{element_key, data_or_null, in_set-find_key, set_cmp_lem}
use lisp_machine.Set.Taken.{data_of, delete_spot-find}

-- What a removal returns, the tree after it, and what a search in it finds.
abbrev pub Removed : (ℕ → Object) → Tree → ℕ → ℕ → Tree → Type 0
Removed objects tr d res tr' =
    (res ≡ in_set objects tr d)
    × (IsBalanced tr'
        × (IsSorted (element_key objects) (entries tr')
            × ((x : ℕ)
                → in_set objects tr' x
                  ≡ (if obj_cmp (objects d) (objects x) == 0 then 0 else in_set objects tr x))))

equal_keys : (j k : ℕ) → compare_at j k ≡ none → j ≡ k
equal_keys j k h = ground arith

abbrev word_or_null : Option ℕ → ℕ
word_or_null none = 0
word_or_null (some d) = d

data_or_null_eq : (o : Option Entry) → data_or_null o ≡ word_or_null (data_of o)
data_or_null_eq none = refl
data_or_null_eq (some n) = refl

module _ (objects : ℕ → Object) (fit : Fit objects) (tr : Tree) (d : ℕ) where
  -- Objects with the same contents are looked for in the same way.
  in_set-same :
      (x : ℕ)
      → IsSorted (element_key objects) (entries tr)
      → (key_at objects d == key_at objects x) ≡ true
      → in_set objects tr x ≡ in_set objects tr d
  in_set-same x h e =
      let same = (==_iff (key_at objects d) (key_at objects x)).0 e in
      in_set-find_key objects fit tr x h
      ∙ ap (λ k. data_or_null (find_key (element_key objects) k (entries tr))) (sym same)
      ∙ sym (in_set-find_key objects fit tr d h)

  absent :
      in_set objects tr d ≡ 0
      → IsBalanced tr
      → IsSorted (element_key objects) (entries tr)
      → Removed objects tr d 0 tr
  absent z bal h = (
    sym z,
    (
      bal,
      (
        h,
        λ x. elim (Bool-cases (key_at objects d == key_at objects x)) [
          | inl e ↦ let c = obj_cmp-zero objects d x fit ∙ e in rw c (in_set-same x h e ∙ z)
          | inr e ↦ let c = obj_cmp-zero objects d x fit ∙ e in rw c refl
        ],
      ),
    ),
  )

  taken :
      (s : Spot)
      → in_set objects tr d ≡ s.entry.data_word
      → InBalanced s
      → Found (set_cmp objects) (record { addr = 0; data_word = d }) (entries tr) s
      → IsSorted (element_key objects) (entries tr)
      → Removed objects tr d s.entry.data_word (delete_spot s).1
  taken s z bal f h =
      let e : Entry = record { addr = 0; data_word = d } in
      let t = (delete_spot s).1 in
      let (sorted, find) = delete_spot-find (key_at objects) s (entries tr) bal f.placed h in
      let same : element_key objects s.entry ≡ key_at objects d =
        equal_keys (element_key objects s.entry) (key_at objects d)
          (sym (set_cmp_lem objects fit s.entry e) ∙ f.equal) in
      (
        sym z,
        (
          delete_spot-IsBalanced s bal,
          (
            sorted,
            λ x.
                let zero =
                  obj_cmp-zero objects d x fit ∙ ap (λ k. k == key_at objects x) (sym same) in
                let now =
                  in_set-find_key objects fit t x sorted
                  ∙ data_or_null_eq (find_key (element_key objects) (key_at objects x) (entries t))
                  ∙ ap word_or_null (find (key_at objects x)) in
                let before =
                  in_set-find_key objects fit tr x h
                  ∙ data_or_null_eq
                      (find_key (element_key objects) (key_at objects x) (entries tr)) in
                elim (Bool-cases (element_key objects s.entry == key_at objects x)) [
                  | inl here ↦ let c = zero ∙ here in rw c (now ∙ rw here refl)
                  | inr other ↦ let c = zero ∙ other in rw c (now ∙ rw other (sym before))
                ],
          ),
        ),
      )

module _ (a : Allocator) where
  -- `set_remove` under `set_cmp`, on a balanced set in order and objects whose contents are words,
  -- returns what `in_set` finds and leaves a balanced set in order. A search that follows finds
  -- nothing when it looks for the same contents, and else what it found before.
  pub set_remove_lem :
      (s : Store a) (tr : Tree) (d : ℕ)
      → Fit s.objects
      → IsBalanced tr
      → IsSorted (element_key s.objects) (entries tr)
      → Removed s.objects tr d (set_remove a s tr d set_cmp).0 (set_remove a s tr d set_cmp).1.0
  unfolding set_remove avl_find in_set plug
  set_remove_lem s tr d fit bal h =
      let e : Entry = record { addr = 0; data_word = d } in
      elim (Option-cases (find_spot (set_cmp s.objects) tr e [])) [
        | inl none_there ↦
            let z : in_set s.objects tr d ≡ 0 = rw (none_there, in_set) refl in
            rw (none_there, set_remove) (absent s.objects fit tr d z bal h)
        | inr (spot, there) ↦
            let z : in_set s.objects tr d ≡ spot.entry.data_word = rw (there, in_set) refl in
            let inside =
              subst (λ o. InBalancedSome o) there
                (find_spot-InBalanced (set_cmp s.objects) tr e [] bal tt) in
            let found =
              subst (λ o. FoundSome (set_cmp s.objects) e (entries tr) o) there
                (find_spot-Found (set_cmp s.objects) e tr []) in
            rw (there, set_remove) (taken s.objects fit tr d spot z inside found h)
      ]
