-- ===== src/Set/Values.antt =====
-- Sets of pairs in datastructures.c as maps: `set_get_value` after an addition of a pair.
use mathlib.Core.Path.{subst, fun_ext}
use lisp_machine.Common.{ℕ, ◌==◌, ◌≡◌, refl, sym, ap, ◌∙◌, inl, inr, Bool-cases, get_or}
use lisp_machine.Common.{if◌then◌else◌, Bool, not, ◌&&◌, Option, none, some, []}
use lisp_machine.Memory.{Allocator}
use lisp_machine.Object.{Object, obj_cmp}
use lisp_machine.Object.Key.{contents_key, obj_cmp-Compared}
use lisp_machine.Object.Store.{Store}
use lisp_machine.Num.Value.{IsWords}
use lisp_machine.Avl.{Entry, Tree, entries, compare_by}
use lisp_machine.Avl.Find.{compare_at, found_entry, find_key, find_spot-find_key}
use lisp_machine.Avl.Sorted.{IsSorted}
use lisp_machine.Avl.Delete.{avl_find, find_spot, Spot}
use lisp_machine.Avl.Nodes.{avl_insert}
use lisp_machine.Set.{key_of, set_keycmp, set_keyfind_cmp, set_get_value, set_add}
use lisp_machine.Set.Order.{Adds, refused, placed, avl_insert-Adds, dir_of-Compared, Fit, key_at}
use lisp_machine.Set.Order.{obj_cmp-zero, counted, counted-contents}

-- The number that a pair is ordered by.
abbrev pub pair_key : (ℕ → Object) → Entry → ℕ
pair_key objects n = key_at objects (key_of objects n.data_word)

abbrev pub value_of : (ℕ → Object) → ℕ → ℕ
value_of objects p = get_or (objects p).contents 1 0

-- The tree after an addition of the pair `p`, and the values that are found in it.
abbrev pub Bound : (ℕ → Object) → Tree → ℕ → Bool → Tree → Type 0
Bound objects tr p out tr' =
    IsSorted (pair_key objects) (entries tr')
    × ((x : ℕ)
        → set_get_value objects tr' x ≡ (
            if not out && (obj_cmp (objects (key_of objects p)) (objects x) == 0)
            then value_of objects p
            else set_get_value objects tr x))

abbrev value_or_null : (ℕ → Object) → Option Entry → ℕ
value_or_null objects none = 0
value_or_null objects (some n) = value_of objects n.data_word

abbrev spot_value : (ℕ → Object) → Option Spot → ℕ
spot_value objects none = 0
spot_value objects (some s) = value_of objects s.entry.data_word

spot_value_eq :
    (objects : ℕ → Object) (o : Option Spot)
    → spot_value objects o ≡ value_or_null objects (found_entry o)
spot_value_eq objects none = refl
spot_value_eq objects (some s) = refl

module _ (objects : ℕ → Object) (fit : Fit objects) where
  set_keycmp-eq : set_keycmp objects ≡ compare_by (pair_key objects)
  unfolding compare_by set_keycmp
  set_keycmp-eq =
      let key = key_of objects in
      fun_ext (λ x. fun_ext (λ e.
        dir_of-Compared (pair_key objects x) (pair_key objects e)
          (obj_cmp (objects (key x.data_word)) (objects (key e.data_word)))
          (obj_cmp-Compared (objects (key x.data_word)) (objects (key e.data_word))
            (fit (key x.data_word)) (fit (key e.data_word)))))

  set_keyfind_cmp_lem :
      (x e : Entry)
      → set_keyfind_cmp objects x e ≡ compare_at (pair_key objects x) (key_at objects e.data_word)
  unfolding set_keyfind_cmp
  set_keyfind_cmp_lem x e =
      let k : ℕ = key_of objects x.data_word in
      dir_of-Compared (pair_key objects x) (key_at objects e.data_word)
        (obj_cmp (objects k) (objects e.data_word))
        (obj_cmp-Compared (objects k) (objects e.data_word) (fit k) (fit e.data_word))

  set_get_value-find_key :
      (tr : Tree) (obj : ℕ)
      → IsSorted (pair_key objects) (entries tr)
      → set_get_value objects tr obj
        ≡ value_or_null objects (find_key (pair_key objects) (key_at objects obj) (entries tr))
  unfolding set_get_value avl_find
  set_get_value-find_key tr obj h =
      let e : Entry = record { addr = 0; data_word = obj } in
      let f =
        find_spot-find_key (pair_key objects) (set_keyfind_cmp objects) e (key_at objects obj)
          (λ x. set_keyfind_cmp_lem x e) tr [] h in
      spot_value_eq objects (find_spot (set_keyfind_cmp objects) tr e [])
      ∙ ap (value_or_null objects) f

  Adds-Bound :
      (tr : Tree) (p : ℕ) (out : Bool) (tr' : Tree)
      → IsSorted (pair_key objects) (entries tr)
      → Adds (pair_key objects) tr p out tr'
      → Bound objects tr p out tr'
  Adds-Bound tr p out tr' h (refused n same) = (
    subst (λ t. IsSorted (pair_key objects) (entries t)) (sym same) h,
    λ x. rw n (ap (λ t. set_get_value objects t x) same),
  )
  Adds-Bound tr p out tr' h (placed e is y sorted find) = (
    sorted,
    λ x.
        let now =
          set_get_value-find_key tr' x sorted
          ∙ ap (value_or_null objects) (find (key_at objects x)) in
        let same = ap (λ t. key_at objects (key_of objects t)) is in
        let zero =
          obj_cmp-zero objects (key_of objects p) x fit
          ∙ ap (λ t. t == key_at objects x) (sym same) in
        elim (Bool-cases (pair_key objects e == key_at objects x)) [
          | inl here ↦
              let z = zero ∙ here in rw (y, z) (now ∙ rw here (ap (λ t. value_of objects t) is))
          | inr other ↦
              let z = zero ∙ other in
              rw (y, z) (now ∙ rw other (sym (set_get_value-find_key tr x h)))
        ],
  )

module _ (a : Allocator) where
  -- `set_add` of a pair under `set_keycmp`, on a set of pairs in the order of their keys and objects
  -- whose contents are words, keeps the order. `set_get_value` then finds the value of the pair
  -- under its key, unless the addition was refused, and under the other keys what it found before.
  pub set_get_value-set_add :
      (s : Store a) (tr : Tree) (p : ℕ)
      → Fit s.objects
      → IsSorted (pair_key s.objects) (entries tr)
      → Bound
          (set_add a s tr p set_keycmp).1.1.objects
          tr
          p
          (set_add a s tr p set_keycmp).0
          (set_add a s tr p set_keycmp).1.0
  unfolding set_add
  set_get_value-set_add s tr p fit sorted =
      let objects : ℕ → Object = counted s.objects p in
      let kept = counted-contents s.objects p in
      let fits : Fit objects = λ q. subst (λ ws. IsWords ws) (sym (kept q)) (fit q) in
      let key : (n : Entry) → pair_key s.objects n ≡ pair_key objects n = λ n.
        ap (λ ws. contents_key ws) (sym (kept (key_of s.objects n.data_word)))
        ∙ ap (λ ws. key_at objects (get_or ws 0 0)) (sym (kept n.data_word)) in
      let h : IsSorted (pair_key objects) (entries tr) =
        subst (λ k. IsSorted k (entries tr)) (fun_ext key) sorted in
      let r = avl_insert a s.heap tr p (set_keycmp objects) in
      Adds-Bound objects fits tr p r.0 r.1.0 h (
        avl_insert-Adds (pair_key objects) (set_keycmp objects) (set_keycmp-eq objects fits) a
          s.heap tr p h)
