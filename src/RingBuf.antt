-- ===== src/RingBuf.antt =====
-- The ring buffer of datastructures.c, over an array block.
pub mod Contents
use lisp_machine.Common.{ℕ, zero, suc, ◌+◌, ◌-◌, ◌*◌, ◌/◌, ◌%◌, ◌≤◌, ◌<◌, Bool, leb, ◌==◌}
use lisp_machine.Common.{if◌then◌else◌, Option, none, some, List}
use lisp_machine.Memory.{Block, Allocator}
use lisp_machine.Memory.Words.{read_words, write_words}
use lisp_machine.Array.{array_bsz, item_sz, array, array_delete, array_capacity, item_at}

-- `RingBuf`: `rb_addr` is the address of the struct itself.
pub record RingBuf : Type 0 where
  pub rb_addr : ℕ
  pub buf : Block
  pub head : ℕ
  pub tail : ℕ

unfoldable pub isempty : RingBuf → Bool
isempty rb = rb.head == rb.tail

unfoldable pub isfull : RingBuf → Bool
isfull rb = let sz = array_capacity rb.buf in (rb.tail + (sz - 1)) % sz == rb.head

unfoldable pub ring_buf_item_sz : RingBuf → ℕ
ring_buf_item_sz rb = item_sz rb.buf

-- An index one further round the ring.
abbrev pub advance : ℕ → ℕ → ℕ
advance sz i = if leb sz (i + 1) then 0 else i + 1

-- The loop copies the `item_sz` words behind `item`.
unfoldable pub ring_buf_add : RingBuf → List ℕ → RingBuf
ring_buf_add rb item =
    let sz = array_capacity rb.buf in
    let off = ring_buf_item_sz rb * rb.head in
    record rb {
      buf = record (rb.buf) {
        words =
            write_words rb.buf.words (array_bsz + off) (read_words item 0 (ring_buf_item_sz rb));
      };
      head = advance sz rb.head;
    }

-- The item at the tail, and the ring without it.
unfoldable pub ring_buf_pop : RingBuf → List ℕ × RingBuf
ring_buf_pop rb =
    let sz = array_capacity rb.buf in
    (item_at rb.buf (ring_buf_item_sz rb * rb.tail), record rb { tail = advance sz rb.tail })

module _ (a : Allocator) where
  open a use {Heap, alloc, free}

  -- The struct takes three words. It is freed again when the array is refused.
  unfoldable pub ring_buf : Heap → ℕ → ℕ → Option RingBuf × Heap
  ring_buf h size item_sz = if leb size 1 then (none, h) else elim (alloc h 3) [
    | none ↦ (none, h)
    | some (rb, h1) ↦ elim (array a h1 size item_sz) [
      | none ↦ (none, free h1 rb.addr)
      | some (arr, h2) ↦ (some (record { rb_addr = rb.addr; buf = arr; head = 0; tail = 0 }), h2)
    ]
  ]

  unfoldable pub ring_buf_delete : Heap → RingBuf → Heap
  ring_buf_delete h rb = free (array_delete a h rb.buf) rb.rb_addr
