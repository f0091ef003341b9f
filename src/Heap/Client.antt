-- ===== src/Heap/Client.antt =====
-- The allocator of alloc.c as its clients see it: with the words of the blocks, which are whatever
-- memory holds there.
use lisp_machine.Common.{
  ℕ, zero, suc, ◌+◌, ◌-◌, ◌<◌, ◌≤◌, ◌≡◌, refl, ap, arith, inl, inr, leb, Bool-cases,
}
use lisp_machine.Common.{Option, none, some, Option-cases, List, [], ◌∷◌, length}
use mathlib.Core.Path.{subst}
use mathlib.Core.Option.{some-injective}
use lisp_machine.Word.{word_mod}
use lisp_machine.Memory.{Block, Allocator, umds_sz}
use lisp_machine.Avl.{Tree, leaf, node, left, right, Frame}
use lisp_machine.Avl.Delete.{Spot, avl_min_ge}
use lisp_machine.Heap.{Heap, alloc, free, request, taken_sz, set_size}

-- What `avl_min_ge` finds is large enough, in any tree.
abbrev EnoughSome : ℕ → Option Spot → Type 0
EnoughSome size none = Unit
EnoughSome size (some s) = size ≤ s.entry.data_word

avl_min_ge-EnoughSome :
    (t : Tree) (size : ℕ) (path : List Frame) → EnoughSome size (avl_min_ge t size path)
unfolding avl_min_ge
avl_min_ge-EnoughSome leaf size path = tt
avl_min_ge-EnoughSome (node x b l r) size path =
    let l_path = record { dir = left; entry = x; balance = b; sibling = r } ∷ path in
    let r_path = record { dir = right; entry = x; balance = b; sibling = l } ∷ path in
    let on_left = avl_min_ge-EnoughSome l size l_path in
    let on_right = avl_min_ge-EnoughSome r size r_path in
    elim (Option-cases (avl_min_ge l size l_path)) [
      | inr (s, e) ↦ rw (e, avl_min_ge) (rw e at on_left)
      | inl e ↦ elim (Option-cases (avl_min_ge r size r_path)) [
        | inr (s, f) ↦ rw (e, f, avl_min_ge) (rw f at on_right)
        | inl f ↦ elim (Bool-cases (leb size x.data_word)) [
          | inl fit ↦ rw (e, f, fit, avl_min_ge) (ground (arith, fit))
          | inr small ↦ rw (e, f, small, avl_min_ge) tt
        ]
      ]
    ]

-- `n` words of memory from `a` on.
abbrev read_memory : (ℕ → ℕ) → ℕ → ℕ → List ℕ
read_memory mem a zero = []
read_memory mem a (suc n) = mem a ∷ read_memory mem (a + 1) n

length-read_memory : (mem : ℕ → ℕ) (a n : ℕ) → length (read_memory mem a n) ≡ n
length-read_memory mem a zero = refl
length-read_memory mem a (suc n) = ap suc (length-read_memory mem (a + 1) n)

-- The block of a size word, which goes from behind that word to the end.
abbrev block_at : (ℕ → ℕ) → ℕ → Heap → Block
block_at mem addr h = record {
  addr = addr;
  words = read_memory mem addr (h.sizes (addr - umds_sz) - umds_sz);
}

abbrev client_alloc : Heap × (ℕ → ℕ) → ℕ → Option (Block × (Heap × (ℕ → ℕ)))
client_alloc (h, mem) n = elim (alloc h n) [
  | none ↦ none
  | some (addr, h') ↦ some (block_at mem addr h', (h', mem))
]

request-enough : (n : ℕ) → n + umds_sz < word_mod → n + umds_sz ≤ request n
unfolding request
request-enough n h = ground arith

-- The size word of a granted block.
size_word :
    (h : Heap) (n : ℕ) (addr : ℕ) (h' : Heap)
    → alloc h n ≡ some (addr, h')
    → request n ≤ h'.sizes (addr - umds_sz)
unfolding alloc taken_sz set_size
size_word h n addr h' e = elim (Option-cases (avl_min_ge h.fmds_ptr (request n) [])) [
  | inl refused ↦
      let bad : Path (Option (ℕ × Heap)) none (some (addr, h')) = rw (refused, alloc) at e in
      absurd (cc)
  | inr (s, found) ↦
      let enough =
        subst (λ o. EnoughSome (request n) o) found
          (avl_min_ge-EnoughSome h.fmds_ptr (request n) []) in
      let made = some-injective _ _ (rw (found, alloc) at e) in
      let at : s.entry.addr + umds_sz ≡ addr = ap (λ p. p.0) made in
      let sizes : set_size h.sizes s.entry.addr (taken_sz s.entry.data_word (request n))
            (addr - umds_sz)
          ≡ h'.sizes (addr - umds_sz) =
        ap (λ p. p.1.sizes (addr - umds_sz)) made in
      ground (arith, enough, at, sizes)
]

client_granted :
    (h : Heap × (ℕ → ℕ)) (n : ℕ) {b : Block} {h' : Heap × (ℕ → ℕ)}
    → n + umds_sz < word_mod
    → client_alloc h n ≡ some (b, h')
    → n ≤ length b.words
client_granted (h, mem) n {b} {h'} lt e = elim (Option-cases (alloc h n)) [
  | inl refused ↦
      let bad : Path (Option (Block × (Heap × (ℕ → ℕ)))) none (some (b, h')) =
        rw (refused, client_alloc) at e in
      absurd (cc)
  | inr ((addr, h1), granted) ↦
      let made = some-injective _ _ (rw (granted, client_alloc) at e) in
      let size = size_word h n addr h1 granted in
      let len : length (block_at mem addr h1).words ≡ length b.words =
        ap (λ p. length (p.0.words)) made in
      omega (
        arith,
        size,
        request-enough n lt,
        len,
        length-read_memory mem addr (h1.sizes (addr - umds_sz) - umds_sz),
      )
]

-- `alloc` and `free` of alloc.c, behind the interface of the data structures. The words of a
-- block are in the block once it is granted.
pub heap_allocator : Allocator
heap_allocator = record {
  Heap = Heap × (ℕ → ℕ);
  alloc = client_alloc;
  free = λ h addr. (free h.0 addr, h.1);
  granted = client_granted;
}
