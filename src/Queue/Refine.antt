-- ===== src/Queue/Refine.antt =====
-- The queue of datastructures.c against a list of its items, newest first.
use mathlib.Core.Path.{subst}
use lisp_machine.Common.{ℕ, ◌≡◌, ◌≢◌, refl, ap, sym, ◌∙◌, arith, ◌==◌, ==_ne}
use mathlib.Core.Option.{some-injective}
use lisp_machine.Common.{Option-cases, inl, inr, ◌⊎◌}
use lisp_machine.Common.{
  List, [], ◌∷◌, ◌++◌, ap₂, Option, some, none, true, false, get_or, drop, length, length-append,
}
use lisp_machine.Memory.{Allocator}
use lisp_machine.Queue.{Link, put_link, set_prev, set_next, QueueState, push_link, queue_push}
use lisp_machine.Queue.{queue_last, queue_pop}
use lisp_machine.Queue.Chain.{
  put_ne, NotIn, Linked, contents, put_self, Linked-put, contents-put, contents-set_prev,
  contents-set_next, last_ne,
}
use lisp_machine.Queue.Chain.{Linked-set_prev, alone, behind, Linked-End}

-- The three operations on the pointers of the queue, `f` and `l`.
module _ (links : ℕ → Link) (link d : ℕ) (nz : link ≢ 0) where
  front : ℕ → ℕ → Link
  front f = put_link links link (record { data_word = d; next = f; prev = 0 })

  push_first : (f l : ℕ) → f ≡ 0 → Linked (front f) 0 (link ∷ []) link link
  unfolding front
  push_first f l e =
      let same = put_self links link (record { data_word = d; next = f; prev = 0 }) in
      (refl, (nz, (ap Link.prev same, (tt, (ap Link.next same ∙ e, refl)))))

  push_more :
      (f l c : ℕ) (cs : List ℕ)
      → NotIn link (c ∷ cs)
      → Linked links 0 (c ∷ cs) f l
      → Linked (set_prev (front f) f link) 0 (link ∷ c ∷ cs) link l
  unfolding front set_prev
  push_more f l c cs n k =
      let new : Link = record { data_word = d; next = f; prev = 0 } in
      let p =
        Linked-set_prev (front f) link 0 f l c cs (Linked-put links link new 0 f l (c ∷ cs) n k) in
      let at_f : Linked (set_prev (front f) f link) link (c ∷ cs) f l =
        subst (λ t. Linked (set_prev (front f) t link) link (c ∷ cs) t l) (sym k.0) p in
      let same : set_prev (front f) f link link ≡ new =
        put_ne (front f) f (record (front f f) { prev = link }) link (λ h. n.0 (h ∙ k.0))
        ∙ put_self links link new in
      (
        refl,
        (
          nz,
          (
            ap Link.prev same,
            (
              n,
              subst (λ t. Linked (set_prev (front f) f link) link (c ∷ cs) t l)
                  (sym (ap Link.next same)) at_f,
            ),
          ),
        ),
      )

contents-append :
    (links : ℕ → Link) (cs : List ℕ) (c : ℕ)
    → contents links (cs ++ c ∷ []) ≡ contents links cs ++ Link.data_word (links c) ∷ []
contents-append links [] c = refl
contents-append links (b ∷ cs) c =
    ap (λ ys. Link.data_word (links b) ∷ ys) (contents-append links cs c)

snoc_injective : (ys xs : List ℕ) (y x : ℕ) → ys ++ y ∷ [] ≡ xs ++ x ∷ [] → (ys ≡ xs) × (y ≡ x)
snoc_injective [] [] y x e = (refl, ap (λ t. get_or t 0 0) e)
snoc_injective [] (b ∷ xs) y x e = absurd (omega (arith, ap length e, length-append xs (x ∷ [])))
snoc_injective (b ∷ ys) [] y x e = absurd (omega (arith, ap length e, length-append ys (y ∷ [])))
snoc_injective (b ∷ ys) (b' ∷ xs) y x e =
    let r = snoc_injective ys xs y x (ap (λ t. drop 1 t) e) in
    (ap₂ (λ t ts. t ∷ ts) (ap (λ t. get_or t 0 0) e) r.0, r.1)

abbrev pub newest : List ℕ → ℕ
newest [] = 0
newest (x ∷ xs) = x

abbrev pub oldest : List ℕ → ℕ
oldest [] = 0
oldest (x ∷ []) = x
oldest (x ∷ y ∷ ys) = oldest (y ∷ ys)

oldest-append : (xs : List ℕ) (x : ℕ) → oldest (xs ++ x ∷ []) ≡ x
oldest-append [] x = refl
oldest-append (y ∷ []) x = refl
oldest-append (y ∷ z ∷ zs) x = oldest-append (z ∷ zs) x

-- A list from its other end.
Snoc-cases : (xs : List ℕ) → (xs ≡ []) ⊎ ((ys : List ℕ) × (y : ℕ) × (xs ≡ ys ++ y ∷ []))
Snoc-cases [] = inl refl
Snoc-cases (x ∷ xs) = elim (Snoc-cases xs) [
  | inl e ↦ inr ([], x, ap (λ t. x ∷ t) e)
  | inr (ys, y, e) ↦ inr (x ∷ ys, y, ap (λ t. x ∷ t) e)
]

-- The operations of the queue.
module _ (a : Allocator) where
  -- The cells of a queue, and their items.
  pub record Holds (s : QueueState a) (cells items : List ℕ) : Type 0 where
    pub linked : Linked s.links 0 cells s.queue.first s.queue.last
    pub stored : contents s.links cells ≡ items

  push-Holds :
      (s : QueueState a) (link : ℕ) (h : Allocator.Heap a) (d : ℕ) (cells items : List ℕ)
      → link ≢ 0
      → NotIn link cells
      → Holds s cells items
      → Holds (push_link a link h s.links s.queue d) (link ∷ cells) (d ∷ items)
  unfolding push_link front
  push-Holds s link h d [] items nz n v =
      let f : ℕ = s.queue.first in
      let none_yet : (f == 0) ≡ true = ground (arith, v.linked.0) in
      let new : Link = record { data_word = d; next = f; prev = 0 } in
      rw none_yet (record {
        linked = push_first s.links link d nz f s.queue.last v.linked.0;
        stored = ap₂ (λ y ys. y ∷ ys) (ap Link.data_word (put_self s.links link new)) v.stored;
      })
  push-Holds s link h d (c ∷ cs) items nz n v =
      let f : ℕ = s.queue.first in
      let some_yet : (f == 0) ≡ false = ==_ne f 0 (λ e. v.linked.1.0 (sym v.linked.0 ∙ e)) in
      let new : Link = record { data_word = d; next = f; prev = 0 } in
      let links1 : ℕ → Link = put_link s.links link new in
      let same : contents (set_prev links1 f link) (link ∷ c ∷ cs) ≡ d ∷ items =
        contents-set_prev links1 f link (link ∷ c ∷ cs)
        ∙ ap₂ (λ y ys. y ∷ ys) (ap Link.data_word (put_self s.links link new))
            (contents-put s.links link new (c ∷ cs) n ∙ v.stored) in
      rw some_yet (record {
        linked = push_more s.links link d nz f s.queue.last c cs n v.linked;
        stored = same;
      })

  -- The first cell goes.
  pop-Holds :
      (s : QueueState a) (c : ℕ) (cs : List ℕ) (x : ℕ) (xs : List ℕ)
      → Holds s (c ∷ cs) (x ∷ xs)
      → ((queue_pop a s).0 ≡ x) × Holds (queue_pop a s).1 cs xs
  unfolding queue_pop
  pop-Holds s c [] x xs v =
      let f : ℕ = s.queue.first in
      let e : f ≡ c = v.linked.0 in
      let some_yet : (f == 0) ≡ false = ==_ne f 0 (λ h. v.linked.1.0 (sym e ∙ h)) in
      let next : Link.next (s.links f) ≡ 0 =
        ap (λ t. Link.next (s.links t)) e ∙ v.linked.1.1.1.1.0 in
      let only : (Link.next (s.links f) == 0) ≡ true = ground (arith, next) in
      let item = ap (λ t. Link.data_word (s.links t)) e ∙ ap (λ ys. get_or ys 0 0) v.stored in
      rw (some_yet, only)
        (item, record { linked = (next, refl); stored = ap (λ ys. drop 1 ys) v.stored })
  pop-Holds s c (c' ∷ cs) x xs v =
      let f : ℕ = s.queue.first in
      let e : f ≡ c = v.linked.0 in
      let some_yet : (f == 0) ≡ false = ==_ne f 0 (λ h. v.linked.1.0 (sym e ∙ h)) in
      let tail = v.linked.1.1.1.1 in
      let next : Link.next (s.links f) ≡ c' = ap (λ t. Link.next (s.links t)) e ∙ tail.0 in
      let more : (Link.next (s.links f) == 0) ≡ false =
        ==_ne (Link.next (s.links f)) 0 (λ h. tail.1.0 (sym next ∙ h)) in
      let item = ap (λ t. Link.data_word (s.links t)) e ∙ ap (λ ys. get_or ys 0 0) v.stored in
      let chain : Linked (set_prev s.links (Link.next (s.links f)) 0) 0 (c' ∷ cs)
          (Link.next (s.links f)) s.queue.last =
        subst (λ t. Linked (set_prev s.links t 0) 0 (c' ∷ cs) t s.queue.last) (sym next)
          (Linked-set_prev s.links 0 c (Link.next (s.links c)) s.queue.last c' cs tail) in
      rw (some_yet, more)
        (
          item,
          record {
            linked = chain;
            stored =
                contents-set_prev s.links (Link.next (s.links f)) 0 (c' ∷ cs)
                ∙ ap (λ ys. drop 1 ys) v.stored;
          },
        )

  -- The last cell goes.
  last-Holds :
      (s : QueueState a) (cs : List ℕ) (c : ℕ) (xs : List ℕ) (x : ℕ)
      → Holds s (cs ++ c ∷ []) (xs ++ x ∷ [])
      → ((queue_last a s).0 ≡ x) × Holds (queue_last a s).1 cs xs
  unfolding queue_last
  last-Holds s cs c xs x v =
      let l : ℕ = s.queue.last in
      let parts =
        snoc_injective (contents s.links cs) xs (Link.data_word (s.links c)) x
          (sym (contents-append s.links cs c) ∙ v.stored) in
      let ne = last_ne s.links 0 s.queue.first l cs c v.linked in
      elim (Linked-End s.links 0 s.queue.first l cs c v.linked) [
        | alone e none_left q ↦
            let prev : Link.prev (s.links l) ≡ 0 = ap (λ t. Link.prev (s.links t)) e ∙ q in
            let only : (Link.prev (s.links l) == 0) ≡ true = ground (arith, prev) in
            let some_yet : (l == 0) ≡ false = ==_ne l 0 (λ h. ne (sym e ∙ h)) in
            rw (some_yet, only)
              (
                ap (λ t. Link.data_word (s.links t)) e ∙ parts.1,
                record {
                  linked =
                      subst (λ t. Linked s.links 0 t 0 (Link.prev (s.links l))) (sym none_left)
                        (refl, prev);
                  stored = parts.0;
                },
              )
        | behind e pz out r ↦
            let p : ℕ = Link.prev (s.links l) in
            let more : (p == 0) ≡ false =
              ==_ne p 0 (λ h. pz (sym (ap (λ t. Link.prev (s.links t)) e) ∙ h)) in
            let some_yet : (l == 0) ≡ false = ==_ne l 0 (λ h. ne (sym e ∙ h)) in
            let chain : Linked (set_next s.links p 0) 0 cs s.queue.first p =
              subst
                (λ t.
                  Linked (set_next s.links (Link.prev (s.links t)) 0) 0 cs s.queue.first
                    (Link.prev (s.links t)))
                (sym e) r in
            rw (some_yet, more)
              (
                ap (λ t. Link.data_word (s.links t)) e ∙ parts.1,
                record { linked = chain; stored = contents-set_next s.links p 0 cs ∙ parts.0 },
              )
      ]

  -- Nothing is taken from an empty queue.
  empty-Holds :
      (s : QueueState a) → Holds s [] [] → (queue_pop a s ≡ (0, s)) × (queue_last a s ≡ (0, s))
  unfolding queue_pop queue_last
  empty-Holds s v =
      let first : (s.queue.first == 0) ≡ true = ground (arith, v.linked.0) in
      let last : (s.queue.last == 0) ≡ true = ground (arith, v.linked.1) in
      (rw first refl, rw last refl)

  -- The operations that lead to a state, with its cells and the items that they leave. A block
  -- that `alloc` grants is at none of the addresses that are in use, and not at 0.
  pub data Runs : QueueState a → List ℕ → List ℕ → Type 0 where
    start :
        (h : Allocator.Heap a) (links : ℕ → Link)
        → Runs (record { heap = h; links = links; queue = record { first = 0; last = 0 } }) [] []
    pushed :
        (s s' : QueueState a) (cells items : List ℕ) (d link : ℕ)
        → Runs s cells items
        → queue_push a s d ≡ some (link, s')
        → link ≢ 0
        → NotIn link cells
        → Runs s' (link ∷ cells) (d ∷ items)
    popped :
        (s : QueueState a) (c : ℕ) (cs : List ℕ) (x : ℕ) (xs : List ℕ)
        → Runs s (c ∷ cs) (x ∷ xs)
        → Runs (queue_pop a s).1 cs xs
    taken :
        (s : QueueState a) (c : ℕ) (cs : List ℕ) (x : ℕ) (xs : List ℕ)
        → Runs s (cs ++ c ∷ []) (xs ++ x ∷ [])
        → Runs (queue_last a s).1 cs xs

  push_done :
      (s s' : QueueState a) (cells items : List ℕ) (d link : ℕ)
      → queue_push a s d ≡ some (link, s')
      → link ≢ 0
      → NotIn link cells
      → Holds s cells items
      → Holds s' (link ∷ cells) (d ∷ items)
  unfolding queue_push
  push_done s s' cells items d link e nz n v = elim (Option-cases (Allocator.alloc a s.heap 3)) [
    | inl none_left ↦
        let bad : Path (Option (ℕ × QueueState a)) none (some (link, s')) =
          rw (none_left, queue_push) at e in
        absurd (cc)
    | inr ((b, h), granted) ↦
        let made : Path (Option (ℕ × QueueState a))
            (some (b.addr, push_link a b.addr h s.links s.queue d)) (some (link, s')) =
          rw (granted, queue_push) at e in
        let same =
          some-injective (b.addr, push_link a b.addr h s.links s.queue d) (link, s') made in
        let at : b.addr ≡ link = ap (λ t. t.0) same in
        subst (λ t. Holds t (link ∷ cells) (d ∷ items)) (ap (λ t. t.1) same)
          (subst (λ t. Holds (push_link a b.addr h s.links s.queue d) (t ∷ cells) (d ∷ items)) at
            (push-Holds s b.addr h d cells items (λ z. nz (sym at ∙ z))
              (subst (λ t. NotIn t cells) (sym at) n) v))
  ]

  Runs-Holds : {s : QueueState a} {cells items : List ℕ} → Runs s cells items → Holds s cells items
  Runs-Holds (start h links) = record { linked = (refl, refl); stored = refl }
  Runs-Holds (pushed s s' cells items d link r e nz n) =
      push_done s s' cells items d link e nz n (Runs-Holds r)
  Runs-Holds (popped s c cs x xs r) = (pop-Holds s c cs x xs (Runs-Holds r)).1
  Runs-Holds (taken s c cs x xs r) = (last-Holds s cs c xs x (Runs-Holds r)).1

  pop_newest :
      (s : QueueState a) (cells items : List ℕ)
      → Holds s cells items
      → (queue_pop a s).0 ≡ newest items
  pop_newest s [] [] v = ap (λ t. t.0) (empty-Holds s v).0
  pop_newest s [] (x ∷ xs) v = let e = ap length v.stored in absurd (omega (arith, e))
  pop_newest s (c ∷ cs) [] v = let e = ap length v.stored in absurd (omega (arith, e))
  pop_newest s (c ∷ cs) (x ∷ xs) v = (pop-Holds s c cs x xs v).0

  last_oldest :
      (s : QueueState a) (cells items : List ℕ)
      → Holds s cells items
      → (queue_last a s).0 ≡ oldest items
  last_oldest s cells items v = elim (Snoc-cases cells) [
    | inl e ↦ elim (Snoc-cases items) [
      | inl f ↦
          let w : Holds s [] [] = subst (λ t. Holds s [] t) f (subst (λ t. Holds s t items) e v) in
          ap (λ t. t.0) (empty-Holds s w).1 ∙ ap oldest (sym f)
      | inr (xs, x, f) ↦
          let l : length (contents s.links cells) ≡ length items = ap length v.stored in
          absurd (
            omega (
              arith,
              l,
              ap (λ t. length (contents s.links t)) e,
              ap length f,
              length-append xs (x ∷ []),
            ))
    ]
    | inr (cs, c, e) ↦ elim (Snoc-cases items) [
      | inl f ↦
          let l : length (contents s.links cells) ≡ length items = ap length v.stored in
          absurd (
            omega (
              arith,
              l,
              ap (λ t. length (contents s.links t)) e,
              ap length (contents-append s.links cs c),
              length-append (contents s.links cs) (Link.data_word (s.links c) ∷ []),
              ap length f,
            ))
      | inr (xs, x, f) ↦
          let w : Holds s (cs ++ c ∷ []) (xs ++ x ∷ []) =
            subst (λ t. Holds s (cs ++ c ∷ []) t) f (subst (λ t. Holds s t items) e v) in
          (last-Holds s cs c xs x w).0 ∙ sym (ap oldest f ∙ oldest-append xs x)
    ]
  ]

  -- After any run of additions, at addresses that are not in use, and removals at either end,
  -- `queue_pop` returns the newest item that is left and `queue_last` the oldest one, and both
  -- return 0 when none is left.
  pub queue_lem :
      {s : QueueState a} (cells items : List ℕ)
      → Runs s cells items
      → ((queue_pop a s).0 ≡ newest items) × ((queue_last a s).0 ≡ oldest items)
  queue_lem {s} cells items r =
      let v = Runs-Holds r in (pop_newest s cells items v, last_oldest s cells items v)
