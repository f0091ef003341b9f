-- ===== src/ConcurrentFifo/Refine.antt =====
-- The FIFO, called without interruption, against a bounded queue.
use mathlib.Core.Path.{subst}
use lisp_machine.Common.{ℕ, ◌+◌, ◌-◌, ◌≡◌, refl, ap, ap₂, ◌∙◌}
use lisp_machine.Common.{Bool, true, false, ◌==◌, if◌then◌else◌}
use lisp_machine.Common.{Option, none, some, List, [], ◌∷◌, ◌++◌, length, drop, arith}
use lisp_machine.Word.{add_word}
use lisp_machine.Memory.Words.{read_words}
use lisp_machine.RingBuf.{ring_buf_item_sz}
use lisp_machine.RingBuf.Contents.{capacity, isfull_iff_count, capacity-add}
use lisp_machine.RingBuf.Contents.{capacity-pop}
use lisp_machine.ConcurrentFifo.{ConcurrentFifo, fifo_add, fifo_pop, fifo_isfull}
use lisp_machine.ConcurrentFifo.{Source, from_a, from_b, nothing, next_source}
use lisp_machine.ConcurrentFifo.{take_item, tag_item}
use lisp_machine.ConcurrentFifo.Holds.{Holds, length-queue, add-Holds, add-refused, relock-Holds}
use lisp_machine.ConcurrentFifo.Pop.{Leads, take-Holds, next_source-Leads, next_source_nothing}

-- The specification: a queue of at most `cap` items, oldest first.
unfoldable pub push : ℕ → List (List ℕ) → List ℕ → Bool × List (List ℕ)
push cap q x = if length q == cap then (true, q) else (false, q ++ (x ∷ []))

unfoldable pub pop : List (List ℕ) → Option (List ℕ) × List (List ℕ)
pop [] = (none, [])
pop (x ∷ q) = (some x, q)

-- An unlocked FIFO of items of `isz` words, tag included, that stands for the queue `q`.
pub record Represents (isz cap : ℕ) (q : List (List ℕ)) (cf : ConcurrentFifo) : Type 0 where
  pub held : Holds isz cf.curr_tag q cf
  pub unlocked_a : cf.a_lck ≡ 0
  pub unlocked_b : cf.b_lck ≡ 0
  pub room : cap + 2 ≡ capacity cf.a + capacity cf.b

-- Both rings are full exactly when the queue is at its capacity.
isfull_iff_length :
    {isz cap : ℕ} {q : List (List ℕ)} {cf : ConcurrentFifo}
    → Represents isz cap q cf
    → fifo_isfull cf ≡ (length q == cap)
unfolding fifo_isfull
isfull_iff_length {cf = cf} r = ground (
  arith,
  length-queue r.held,
  isfull_iff_count cf.a r.held.valid_a,
  isfull_iff_count cf.b r.held.valid_b,
  r.held.valid_a.head_in,
  r.held.valid_a.tail_in,
  r.held.valid_b.head_in,
  r.held.valid_b.tail_in,
)

-- What an addition leaves alone.
add_keeps :
    (cf : ConcurrentFifo) (item : List ℕ)
    → ((fifo_add cf item).1.curr_tag ≡ cf.curr_tag)
      × ((fifo_add cf item).1.a_lck ≡ cf.a_lck)
      × ((fifo_add cf item).1.b_lck ≡ cf.b_lck)
      × (capacity (fifo_add cf item).1.a ≡ capacity cf.a)
      × (capacity (fifo_add cf item).1.b ≡ capacity cf.b)
unfolding fifo_add
add_keeps cf item =
    let stored = tag_item (ring_buf_item_sz cf.a) cf.tag item in
    ground (arith, capacity-add cf.a stored, capacity-add cf.b stored)

-- `concurrent_fifo_add` on an unlocked FIFO does what `push` does on the queue: it returns 1
-- exactly when the queue is at its capacity, and else appends the item's words.
pub add_refines :
    {isz cap : ℕ} {q : List (List ℕ)} {cf : ConcurrentFifo} (item : List ℕ)
    → Represents isz cap q cf
    → let (refused, q') = push cap q (read_words item 0 (isz - 1)) in
      ((fifo_add cf item).0 ≡ refused) × Represents isz cap q' (fifo_add cf item).1
unfolding push fifo_isfull
add_refines {isz} {cap} {q} {cf} item r = (
  answer ∙ at_limit (length q == cap),
  record {
    held = rw keeps.0 (
        subst (λ xs. Holds isz cf.curr_tag xs (fifo_add cf item).1)
          (ap (λ b. if b then q else q ++ (read_words item 0 (isz - 1) ∷ [])) answer
            ∙ new_queue (length q == cap))
          (add-Holds cf item r.held));
    unlocked_a = keeps.1 ∙ r.unlocked_a;
    unlocked_b = keeps.2 ∙ r.unlocked_b;
    room = omega (arith, keeps.3, keeps.4, r.room);
  },
)
  where
    item' : List ℕ
    item' = read_words item 0 (isz - 1)

    keeps :
        ((fifo_add cf item).1.curr_tag ≡ cf.curr_tag)
        × ((fifo_add cf item).1.a_lck ≡ cf.a_lck)
        × ((fifo_add cf item).1.b_lck ≡ cf.b_lck)
        × (capacity (fifo_add cf item).1.a ≡ capacity cf.a)
        × (capacity (fifo_add cf item).1.b ≡ capacity cf.b)
    keeps = add_keeps cf item

    answer : (fifo_add cf item).0 ≡ (length q == cap)
    answer =
        ground (arith, add-refused cf item r.held, isfull_iff_length r, r.unlocked_a, r.unlocked_b)

    spec : Bool → Bool × List (List ℕ)
    spec b = if b then (true, q) else (false, q ++ (item' ∷ []))

    at_limit : (b : Bool) → b ≡ (spec b).0
    at_limit true = refl
    at_limit false = refl

    new_queue : (b : Bool) → (if b then q else q ++ (item' ∷ [])) ≡ (spec b).1
    new_queue true = refl
    new_queue false = refl

pop_step :
    {isz cap : ℕ} {x : List ℕ} {q : List (List ℕ)} (cf : ConcurrentFifo) (src : Source)
    → Represents isz cap (x ∷ q) cf
    → next_source cf ≡ src
    → Leads (cf.curr_tag ∷ x) cf src
    → ((fifo_pop cf).0 ≡ some x) × Represents isz cap q (fifo_pop cf).1
unfolding fifo_pop
pop_step {x = x} {q = q} cf from_a r e l =
    let (same, rest) = take-Holds cf r.held from_a l in
    rw (e, fifo_pop)
      (
        ap (λ i. some (drop 1 i)) same,
        record {
          held = relock-Holds (take_item from_a cf).1 0 cf.b_lck (add_word cf.curr_tag 1) rest;
          unlocked_a = refl;
          unlocked_b = r.unlocked_b;
          room = omega (arith, r.room, capacity-pop cf.a);
        },
      )
pop_step {x = x} {q = q} cf from_b r e l =
    let (same, rest) = take-Holds cf r.held from_b l in
    rw (e, fifo_pop)
      (
        ap (λ i. some (drop 1 i)) same,
        record {
          held = relock-Holds (take_item from_b cf).1 cf.a_lck 0 (add_word cf.curr_tag 1) rest;
          unlocked_a = r.unlocked_a;
          unlocked_b = refl;
          room = omega (arith, r.room, capacity-pop cf.b);
        },
      )
pop_step cf nothing r e l = elim l [ ]

-- `concurrent_fifo_pop` on an unlocked FIFO does what `pop` does on the queue: it returns 1 and
-- changes nothing when the queue is empty, and else gives the oldest item.
pub pop_refines :
    {isz cap : ℕ} {q : List (List ℕ)} {cf : ConcurrentFifo}
    → Represents isz cap q cf
    → let (out, q') = pop q in ((fifo_pop cf).0 ≡ out) × Represents isz cap q' (fifo_pop cf).1
unfolding pop fifo_pop
pop_refines {q = []} {cf = cf} r = rw (next_source_nothing cf r.held, fifo_pop) (refl, r)
pop_refines {q = x ∷ q} {cf = cf} r =
    pop_step cf (next_source cf) r refl (next_source-Leads cf r.held refl)

-- A caller's operations in order, and what each returns.
pub data Op : Type 0 where
  add : List ℕ → Op
  take : Op

pub data Reply : Type 0 where
  added : Bool → Reply
  taken : Option (List ℕ) → Reply

unfoldable pub run_fifo : ConcurrentFifo → List Op → List Reply
run_fifo cf [] = []
run_fifo cf (add x ∷ ops) = let (b, cf') = fifo_add cf x in added b ∷ run_fifo cf' ops
run_fifo cf (take ∷ ops) = let (o, cf') = fifo_pop cf in taken o ∷ run_fifo cf' ops

-- The same operations on the queue, where an item is the `width` words that the FIFO stores.
unfoldable pub run_queue : ℕ → ℕ → List (List ℕ) → List Op → List Reply
run_queue width cap q [] = []
run_queue width cap q (add x ∷ ops) =
    let (b, q') = push cap q (read_words x 0 width) in added b ∷ run_queue width cap q' ops
run_queue width cap q (take ∷ ops) = let (o, q') = pop q in taken o ∷ run_queue width cap q' ops

-- No sequence of calls tells the tagged pair of rings from one bounded queue.
pub run_refines :
    (ops : List Op) {isz cap : ℕ} {q : List (List ℕ)} {cf : ConcurrentFifo}
    → Represents isz cap q cf
    → run_fifo cf ops ≡ run_queue (isz - 1) cap q ops
unfolding run_fifo run_queue
run_refines [] r = refl
run_refines (add x ∷ ops) r =
    let (same, r') = add_refines x r in ap₂ (λ b rest. added b ∷ rest) same (run_refines ops r')
run_refines (take ∷ ops) r =
    let (same, r') = pop_refines r in ap₂ (λ o rest. taken o ∷ rest) same (run_refines ops r')
