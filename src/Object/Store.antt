-- ===== src/Object/Store.antt =====
-- Objects in memory: `object`, `object_append_word`, `object_append` and `pair` of
-- datastructures.c. The address of an object is that of its size word, in front of its block.
use lisp_machine.Common.{ℕ, ◌+◌, ◌-◌, ◌/◌, ◌==◌, leb, ltb, if◌then◌else◌, Option, none, some}
use lisp_machine.Common.{List, [], ◌∷◌, ◌++◌, length, take, drop}
use lisp_machine.Word.{add_word, sub_word}
use lisp_machine.Memory.{Allocator, mem_sz}
use lisp_machine.Object.{Object}

abbrev pub obj_sz : ℕ
obj_sz = 4

abbrev pub put_object : (ℕ → Object) → ℕ → Object → ℕ → Object
put_object objects p o q = if q == p then o else objects q

-- `++refcount`, which wraps.
unfoldable pub add_ref : (ℕ → Object) → ℕ → ℕ → Object
add_ref objects p =
    put_object objects p (record (objects p) { refcount = add_word (objects p).refcount 1 })

module _ (a : Allocator) where
  open a use {Heap, alloc, free}

  pub record Store : Type 0 where
    pub heap : Heap
    pub objects : ℕ → Object

  -- Without contents, the words are those that the block held.
  unfoldable pub object : Store → ℕ → ℕ → Option (List ℕ) → ℕ → Option (ℕ × Store)
  unfolding add_ref
  object s type size contents n_words =
      if ltb size n_words then none else elim (alloc (s.heap) (sub_word (add_word size obj_sz) 1)) [
        | none ↦ none
        | some (b, h) ↦
            let obj : Object = record {
              max_sz = mem_sz b;
              refcount = 0;
              type = type;
              contents = take n_words (elim contents [ none ↦ drop 3 (b.words) | some ws ↦ ws ]);
            } in
            let objects1 = put_object (s.objects) (b.addr - 1) obj in
            some (
              b.addr - 1,
              record { heap = h; objects = if type == 0 then objects1 else add_ref objects1 type },
            )
      ]

  -- The object moves into a larger block when it is full.
  unfoldable pub object_append_word : Store → ℕ → ℕ → Option (ℕ × Store)
  object_append_word s obj value =
      let o = s.objects obj in
      let size = length (o.contents) in
      let longer : Object = record o { contents = o.contents ++ value ∷ [] } in
      if obj == 0
      then none
      else if leb (sub_word o.max_sz obj_sz) size
      then (elim (alloc (s.heap) (add_word (add_word (add_word obj_sz size) (size / 2)) 1)) [
        | none ↦ none
        | some (b, h) ↦ some (
          b.addr - 1,
          record {
            heap = free h (obj + 1);
            objects = put_object (s.objects) (b.addr - 1) (record longer { max_sz = mem_sz b });
          },
        )
      ])
      else some (obj, record s { objects = put_object (s.objects) obj longer })

  unfoldable pub object_append : Store → ℕ → ℕ → Option (ℕ × Store)
  unfolding object_append_word add_ref
  object_append s obj value =
      if obj == 0
      then none
      else if value == 0
      then none
      else object_append_word (record s { objects = add_ref (s.objects) value }) obj value

  -- `cell_type` is a parameter: the address of the object that stands for the type.
  unfoldable pub pair : ℕ → Store → ℕ → ℕ → Option (ℕ × Store)
  unfolding object add_ref
  pair cell_type s obj1 obj2 = elim (object s cell_type 2 none 0) [
    | none ↦ none
    | some (p, s') ↦
        let cell : Object = record (s'.objects p) { contents = obj1 ∷ obj2 ∷ [] } in
        some
          (p, record s' { objects = add_ref (add_ref (put_object (s'.objects) p cell) obj1) obj2 })
  ]
