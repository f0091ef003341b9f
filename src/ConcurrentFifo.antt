-- ===== src/ConcurrentFifo.antt =====
-- The two-ring FIFO of datastructures.c, through which main.c's `exc_handler` hands exceptions
-- to the interpreter of asm.c. Each item carries a tag, so that the order of arrival survives
-- although a new item may go to either ring.
pub mod Merge
pub mod Holds
pub mod Pop
pub mod Refine
pub mod Interrupt
use lisp_machine.Common.{ℕ, zero, suc, ◌+◌, ◌-◌, ◌*◌, Bool, true, false, not, ◌&&◌, ◌==◌}
use lisp_machine.Common.{if◌then◌else◌, Option, none, some, List, [], ◌∷◌, get_or, drop}
use lisp_machine.Word.{add_word, sub_word}
use lisp_machine.Memory.{Block, Allocator}
use lisp_machine.Memory.Words.{read_words}
use lisp_machine.Array.{array_bsz}
use lisp_machine.RingBuf.{RingBuf, isempty, isfull, ring_buf_item_sz, ring_buf_add, ring_buf_pop}
use lisp_machine.RingBuf.{ring_buf, ring_buf_delete}

-- `ConcurrentFIFO`: `cf_addr` is the address of the struct itself.
pub record ConcurrentFifo : Type 0 where
  pub cf_addr : ℕ
  pub a : RingBuf
  pub b : RingBuf
  pub a_lck : ℕ
  pub b_lck : ℕ
  pub tag : ℕ
  pub curr_tag : ℕ

unfoldable pub fifo_isempty : ConcurrentFifo → Bool
fifo_isempty cf = isempty cf.a && isempty cf.b

unfoldable pub fifo_isfull : ConcurrentFifo → Bool
fifo_isfull cf = isfull cf.a && isfull cf.b

unfoldable pub fifo_item_sz : ConcurrentFifo → ℕ
fifo_item_sz cf = ring_buf_item_sz cf.a

-- The loop copies `item_sz - 1` words behind the tag.
unfoldable pub tag_item : ℕ → ℕ → List ℕ → List ℕ
tag_item item_sz tag item = tag ∷ read_words item 0 (item_sz - 1)

-- The result is `true` where the code returns 1, for an item that found no room.
unfoldable pub fifo_add : ConcurrentFifo → List ℕ → Bool × ConcurrentFifo
unfolding tag_item
fifo_add cf item =
    let tagged_item = tag_item (ring_buf_item_sz cf.a) cf.tag item in
    let taken = record cf { tag = add_word cf.tag 1 } in
    if (cf.a_lck == 0) && not (isfull cf.a)
    then (false, record taken { a = ring_buf_add cf.a tagged_item })
    else if (cf.b_lck == 0) && not (isfull cf.b)
    then (false, record taken { b = ring_buf_add cf.b tagged_item })
    else (true, record taken { tag = sub_word taken.tag 1 })

-- The tag of the item at a ring's tail, read whether or not there is one.
unfoldable pub head_tag : ℕ → RingBuf → ℕ
head_tag item_sz rb = get_or rb.buf.words (array_bsz + item_sz * rb.tail) 0

-- Which ring `concurrent_fifo_pop` takes the next item from.
pub data Source : Type 0 where
  from_a from_b nothing : Source

unfoldable pub next_source : ConcurrentFifo → Source
unfolding head_tag
next_source cf =
    let item_sz = ring_buf_item_sz cf.a in
    if not (isempty cf.a) && (cf.curr_tag == head_tag item_sz cf.a)
    then from_a
    else if not (isempty cf.b) && (cf.curr_tag == head_tag item_sz cf.b)
    then from_b
    else nothing

-- The pop in the steps between which an interrupt may add an item: the lock is taken, the item
-- is copied out and the tail moved, the lock is given back, and the next tag is awaited.
unfoldable pub lock : Source → ConcurrentFifo → ConcurrentFifo
lock from_a cf = record cf { a_lck = 1 }
lock from_b cf = record cf { b_lck = 1 }
lock nothing cf = cf

unfoldable pub take_item : Source → ConcurrentFifo → List ℕ × ConcurrentFifo
take_item from_a cf = let (item, a') = ring_buf_pop cf.a in (item, record cf { a = a' })
take_item from_b cf = let (item, b') = ring_buf_pop cf.b in (item, record cf { b = b' })
take_item nothing cf = ([], cf)

unfoldable pub unlock : Source → ConcurrentFifo → ConcurrentFifo
unlock from_a cf = record cf { a_lck = 0 }
unlock from_b cf = record cf { b_lck = 0 }
unlock nothing cf = cf

unfoldable pub await_next : ConcurrentFifo → ConcurrentFifo
await_next cf = record cf { curr_tag = add_word cf.curr_tag 1 }

-- `none` where the code returns 1. The tag is not handed out.
unfoldable pub fifo_pop : ConcurrentFifo → Option (List ℕ) × ConcurrentFifo
unfolding lock take_item unlock await_next
fifo_pop cf = elim (next_source cf) [
  | nothing ↦ (none, cf)
  | from_a ↦
      let (item, cf') = take_item from_a (lock from_a cf) in
      (some (drop 1 item), await_next (unlock from_a cf'))
  | from_b ↦
      let (item, cf') = take_item from_b (lock from_b cf) in
      (some (drop 1 item), await_next (unlock from_b cf'))
]

module _ (al : Allocator) where
  open al use {Heap, alloc, free}

  -- The struct takes six words. On the last error path only the struct of the first ring is
  -- freed, and not its array.
  unfoldable pub concurrent_fifo : Heap → ℕ → ℕ → ℕ → Option ConcurrentFifo × Heap
  concurrent_fifo h primary_capacity secondary_capacity item_sz = elim (alloc h 6) [
    | none ↦ (none, h)
    | some (cf, h1) ↦
        let (ra, h2) = ring_buf al h1 primary_capacity (add_word item_sz 1) in
        elim ra [
          | none ↦ (none, free h2 cf.addr)
          | some a ↦
              let (rb, h3) = ring_buf al h2 secondary_capacity (add_word item_sz 1) in
              elim rb [
                | none ↦ (none, free (free h3 a.rb_addr) cf.addr)
                | some b ↦ (
                  some (record {
                    cf_addr = cf.addr;
                    a = a;
                    b = b;
                    a_lck = 0;
                    b_lck = 0;
                    tag = 0;
                    curr_tag = 0;
                  }),
                  h3,
                )
              ]
        ]
  ]

  unfoldable pub concurrent_fifo_delete : Heap → ConcurrentFifo → Heap
  concurrent_fifo_delete h cf =
      free (ring_buf_delete al (ring_buf_delete al h cf.a) cf.b) cf.cf_addr
