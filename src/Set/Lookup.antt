-- ===== src/Set/Lookup.antt =====
-- What the sets of datastructures.c promise: a search in a set after an addition.
use mathlib.Core.Path.{subst, fun_ext}
use lisp_machine.Common.{ℕ, ◌==◌, ◌≡◌, refl, sym, ap, ◌∙◌, inl, inr, Bool-cases}
use lisp_machine.Common.{if◌then◌else◌, Bool, not, ◌&&◌, Option, none, some, []}
use lisp_machine.Memory.{Allocator}
use lisp_machine.Object.{Object, obj_cmp}
use lisp_machine.Object.Key.{contents_key, obj_cmp-Compared}
use lisp_machine.Object.Store.{Store}
use lisp_machine.Num.Value.{IsWords}
use lisp_machine.Avl.{Entry, Tree, entries, compare_by}
use lisp_machine.Avl.Find.{compare_at, found_entry, find_key, find_spot-find_key}
use lisp_machine.Avl.Sorted.{IsSorted}
use lisp_machine.Avl.Delete.{avl_find, find_spot, Spot}
use lisp_machine.Avl.Nodes.{avl_insert}
use lisp_machine.Set.{set_cmp, in_set, set_add}
use lisp_machine.Set.Order.{Adds, refused, placed, avl_insert-Adds, dir_of-Compared, Fit, key_at}
use lisp_machine.Set.Order.{obj_cmp-zero, counted, counted-contents}

-- The number that the node of a set is ordered by.
abbrev pub element_key : (ℕ → Object) → Entry → ℕ
element_key objects n = key_at objects n.data_word

-- The tree after an addition, and what a search in it finds.
abbrev pub Added : (ℕ → Object) → Tree → ℕ → Bool → Tree → Type 0
Added objects tr d out tr' =
    IsSorted (element_key objects) (entries tr')
    × ((x : ℕ)
        → in_set objects tr' x
          ≡ (if not out && (obj_cmp (objects d) (objects x) == 0) then d else in_set objects tr x))

-- The element of a list with the contents of an object.
abbrev pub data_or_null : Option Entry → ℕ
data_or_null none = 0
data_or_null (some n) = n.data_word

abbrev spot_data : Option Spot → ℕ
spot_data none = 0
spot_data (some s) = s.entry.data_word

spot_data_eq : (o : Option Spot) → spot_data o ≡ data_or_null (found_entry o)
spot_data_eq none = refl
spot_data_eq (some s) = refl

module _ (objects : ℕ → Object) (fit : Fit objects) where
  pub set_cmp_lem :
      (x e : Entry)
      → set_cmp objects x e ≡ compare_at (element_key objects x) (element_key objects e)
  unfolding set_cmp
  set_cmp_lem x e =
      dir_of-Compared (element_key objects x) (element_key objects e)
        (obj_cmp (objects x.data_word) (objects e.data_word))
        (obj_cmp-Compared (objects x.data_word) (objects e.data_word) (fit x.data_word)
          (fit e.data_word))

  set_cmp-eq : set_cmp objects ≡ compare_by (element_key objects)
  unfolding compare_by
  set_cmp-eq = fun_ext (λ x. fun_ext (λ e. set_cmp_lem x e))

  pub in_set-find_key :
      (tr : Tree) (obj : ℕ)
      → IsSorted (element_key objects) (entries tr)
      → in_set objects tr obj
        ≡ data_or_null (find_key (element_key objects) (key_at objects obj) (entries tr))
  unfolding in_set avl_find
  in_set-find_key tr obj h =
      let e : Entry = record { addr = 0; data_word = obj } in
      let f =
        find_spot-find_key (element_key objects) (set_cmp objects) e (key_at objects obj)
          (λ x. set_cmp_lem x e) tr [] h in
      spot_data_eq (find_spot (set_cmp objects) tr e []) ∙ ap data_or_null f

  Adds-Added :
      (tr : Tree) (d : ℕ) (out : Bool) (tr' : Tree)
      → IsSorted (element_key objects) (entries tr)
      → Adds (element_key objects) tr d out tr'
      → Added objects tr d out tr'
  Adds-Added tr d out tr' h (refused n same) = (
    subst (λ t. IsSorted (element_key objects) (entries t)) (sym same) h,
    λ x. rw n (ap (λ t. in_set objects t x) same),
  )
  Adds-Added tr d out tr' h (placed e is y sorted find) = (
    sorted,
    λ x.
        let now = in_set-find_key tr' x sorted ∙ ap data_or_null (find (key_at objects x)) in
        let same = ap (λ t. key_at objects t) is in
        let zero = obj_cmp-zero objects d x fit ∙ ap (λ t. t == key_at objects x) (sym same) in
        elim (Bool-cases (element_key objects e == key_at objects x)) [
          | inl here ↦ let z = zero ∙ here in rw (y, z) (now ∙ rw here is)
          | inr other ↦
              let z = zero ∙ other in rw (y, z) (now ∙ rw other (sym (in_set-find_key tr x h)))
        ],
  )

module _ (a : Allocator) where
  -- `set_add` under `set_cmp`, on a set in order and objects whose contents are words, keeps the
  -- order. A search that follows finds the added object when it looks for the same contents,
  -- unless the addition was refused, and else what it found before.
  pub set_add_lem :
      (s : Store a) (tr : Tree) (d : ℕ)
      → Fit s.objects
      → IsSorted (element_key s.objects) (entries tr)
      → Added
          (set_add a s tr d set_cmp).1.1.objects
          tr
          d
          (set_add a s tr d set_cmp).0
          (set_add a s tr d set_cmp).1.0
  unfolding set_add
  set_add_lem s tr d fit sorted =
      let objects : ℕ → Object = counted s.objects d in
      let fits : Fit objects =
        λ p. subst (λ ws. IsWords ws) (sym (counted-contents s.objects d p)) (fit p) in
      let h : IsSorted (element_key objects) (entries tr) =
        subst (λ k. IsSorted k (entries tr))
          (fun_ext
            (λ n. ap (λ ws. contents_key ws) (sym (counted-contents s.objects d n.data_word))))
          sorted in
      Adds-Added objects fits tr d (avl_insert a s.heap tr d (set_cmp objects)).0
        (avl_insert a s.heap tr d (set_cmp objects)).1.0 h
        (avl_insert-Adds (element_key objects) (set_cmp objects) (set_cmp-eq objects fits) a s.heap
          tr d h)
