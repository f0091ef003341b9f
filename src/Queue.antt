-- ===== src/Queue.antt =====
-- The queue of datastructures.c: doubly linked cells, newest first. A pointer is the address of a
-- cell in the store of the links, and 0 is none.
pub mod Chain
pub mod Refine
use lisp_machine.Common.{ℕ, ◌==◌, if◌then◌else◌, Option, none, some}
use lisp_machine.Memory.{Allocator}

pub record Link : Type 0 where
  pub data_word : ℕ
  pub next : ℕ
  pub prev : ℕ

pub record Queue : Type 0 where
  pub first : ℕ
  pub last : ℕ

abbrev pub put_link : (ℕ → Link) → ℕ → Link → ℕ → Link
put_link links a l j = if j == a then l else links j

unfoldable pub set_prev : (ℕ → Link) → ℕ → ℕ → ℕ → Link
set_prev links a p = put_link links a (record (links a) { prev = p })

unfoldable pub set_next : (ℕ → Link) → ℕ → ℕ → ℕ → Link
set_next links a n = put_link links a (record (links a) { next = n })

module _ (a : Allocator) where
  open a use {Heap, alloc, free}

  pub record QueueState : Type 0 where
    pub heap : Heap
    pub links : ℕ → Link
    pub queue : Queue

  -- The queue at the address of its block.
  unfoldable pub queue : Heap → Option (ℕ × (Queue × Heap))
  queue h = elim (alloc h 2) [
    | none ↦ none
    | some (b, h') ↦ some (b.addr, (record { first = 0; last = 0 }, h'))
  ]

  -- The cell that the data are put in; the result is its address.
  unfoldable pub push_link : ℕ → Heap → (ℕ → Link) → Queue → ℕ → QueueState
  unfolding set_prev
  push_link link h links q data_word =
      let links1 =
        put_link links link (record { data_word = data_word; next = q.first; prev = 0 }) in
      record {
        heap = h;
        links = if q.first == 0 then links1 else set_prev links1 q.first link;
        queue = record { first = link; last = if q.first == 0 then link else q.last };
      }

  unfoldable pub queue_push : QueueState → ℕ → Option (ℕ × QueueState)
  unfolding push_link
  queue_push s data_word = elim (alloc s.heap 3) [
    | none ↦ none
    | some (b, h) ↦ some (b.addr, push_link b.addr h s.links s.queue data_word)
  ]

  -- The oldest item leaves; 0 stands for an empty queue.
  unfoldable pub queue_last : QueueState → ℕ × QueueState
  unfolding set_next
  queue_last s =
      let last = s.queue.last in
      let l = s.links last in
      if last == 0 then (0, s) else (
        l.data_word,
        record {
          heap = free s.heap last;
          links = if l.prev == 0 then s.links else set_next s.links l.prev 0;
          queue = record { first = if l.prev == 0 then 0 else s.queue.first; last = l.prev };
        },
      )

  -- The newest item leaves.
  unfoldable pub queue_pop : QueueState → ℕ × QueueState
  unfolding set_prev
  queue_pop s =
      let first = s.queue.first in
      let l = s.links first in
      if first == 0 then (0, s) else (
        l.data_word,
        record {
          heap = free s.heap first;
          links = if l.next == 0 then s.links else set_prev s.links l.next 0;
          queue = record { first = l.next; last = if l.next == 0 then 0 else s.queue.last };
        },
      )
