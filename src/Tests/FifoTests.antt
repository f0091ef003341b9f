-- ===== src/Tests/FifoTests.antt =====
-- The FIFO at work, on concrete operations and exceptions.
use lisp_machine.Common.{ℕ, ◌≡◌, refl, List, [], ◌∷◌, ◌++◌, arith}
use lisp_machine.Word.{add_word}
use lisp_machine.Array.{array_capacity}
use lisp_machine.RingBuf.{RingBuf, ring_buf_item_sz, ring_buf_add, isfull}
use lisp_machine.RingBuf.Contents.{IsValid, contents, contents-add}
use lisp_machine.Memory.Words.{read_words}
use lisp_machine.ConcurrentFifo.{ConcurrentFifo, fifo_add}
use lisp_machine.ConcurrentFifo.Merge.{done}
use lisp_machine.ConcurrentFifo.Holds.{Holds}
use lisp_machine.ConcurrentFifo.Refine.{Represents, add, take, push}
use lisp_machine.ConcurrentFifo.Refine.{run_fifo, run_queue, run_refines, add_refines}
use lisp_machine.ConcurrentFifo.Interrupt.{
  interrupted_pop, interrupted_pop_lem, Arrivals, Picks, payloads,
}
use lisp_machine.ConcurrentFifo.Interrupt.{all_arrivals}
use lisp_machine.RingBuf.{isempty, ring_buf_pop}
use lisp_machine.RingBuf.Contents.{contents-pop, add-IsValid}

-- Rings of three and two slots for items of two words, and one word for the tag.
abbrev ring_a : RingBuf
ring_a = record {
  rb_addr = 8;
  buf = record { addr = 16; words = 0 ∷ 3 ∷ 0 ∷ 0 ∷ 0 ∷ 0 ∷ 0 ∷ 0 ∷ 0 ∷ 0 ∷ 0 ∷ [] };
  head = 0;
  tail = 0;
}

abbrev ring_b : RingBuf
ring_b = record {
  rb_addr = 40;
  buf = record { addr = 48; words = 0 ∷ 3 ∷ 0 ∷ 0 ∷ 0 ∷ 0 ∷ 0 ∷ 0 ∷ [] };
  head = 0;
  tail = 0;
}

abbrev empty_fifo : ConcurrentFifo
empty_fifo = record {
  cf_addr = 1;
  a = ring_a;
  b = ring_b;
  a_lck = 0;
  b_lck = 0;
  tag = 0;
  curr_tag = 0;
}

a-IsValid : IsValid 3 ring_a
unfolding ring_buf_item_sz array_capacity
a-IsValid = record {
  size = refl;
  pos = omega arith;
  room = omega arith;
  head_in = omega arith;
  tail_in = omega arith;
}

b-IsValid : IsValid 3 ring_b
unfolding ring_buf_item_sz array_capacity
b-IsValid = record {
  size = refl;
  pos = omega arith;
  room = omega arith;
  head_in = omega arith;
  tail_in = omega arith;
}

empty-Represents : Represents 3 3 [] empty_fifo
unfolding array_capacity
empty-Represents = record {
  held = record {
    valid_a = a-IsValid;
    valid_b = b-IsValid;
    merged = done;
    next_tag = refl;
    tag_fits = omega arith;
    small = omega arith;
  };
  unlocked_a = refl;
  unlocked_b = refl;
  room = refl;
}

-- Four additions, of which the last finds no room, and a pop.
run_refines_example :
    run_fifo empty_fifo
      (add (5 ∷ 6 ∷ []) ∷ add (7 ∷ 8 ∷ []) ∷ add (1 ∷ 2 ∷ []) ∷ add (3 ∷ 4 ∷ []) ∷ take ∷ [])
    ≡ run_queue 2 3 []
        (add (5 ∷ 6 ∷ []) ∷ add (7 ∷ 8 ∷ []) ∷ add (1 ∷ 2 ∷ []) ∷ add (3 ∷ 4 ∷ []) ∷ take ∷ [])
run_refines_example =
    run_refines
      (add (5 ∷ 6 ∷ []) ∷ add (7 ∷ 8 ∷ []) ∷ add (1 ∷ 2 ∷ []) ∷ add (3 ∷ 4 ∷ []) ∷ take ∷ [])
      empty-Represents

-- One exception waits.
abbrev one_waiting : ConcurrentFifo
one_waiting = (fifo_add empty_fifo (5 ∷ 6 ∷ [])).1

one-Represents : Represents 3 3 ((5 ∷ 6 ∷ []) ∷ []) one_waiting
unfolding push read_words
one-Represents = (add_refines (5 ∷ 6 ∷ []) empty-Represents).1

one-Holds : Holds 3 (one_waiting.curr_tag) ((5 ∷ 6 ∷ []) ∷ []) one_waiting
one-Holds = one-Represents.held

-- An exception arrives at each of the four places.
abbrev four : Arrivals
four = record {
  looked_up = (1 ∷ 1 ∷ []) ∷ [];
  locked = (2 ∷ 2 ∷ []) ∷ [];
  copied = (3 ∷ 3 ∷ []) ∷ [];
  unlocked = (4 ∷ 4 ∷ []) ∷ [];
}

interrupted_pop_example :
    ((interrupted_pop one_waiting four).0 ≡ 5 ∷ 6 ∷ [])
    × ((late : List (List ℕ)) × Picks late (payloads 3 (all_arrivals four))
        × Holds 3
            (add_word one_waiting.curr_tag 1)
            ([] ++ late)
            (interrupted_pop one_waiting four).1)
interrupted_pop_example = interrupted_pop_lem one_waiting four one-Holds

contents-add_example :
    contents (ring_buf_add ring_a (9 ∷ 5 ∷ 6 ∷ []))
    ≡ contents ring_a ++ (read_words (9 ∷ 5 ∷ 6 ∷ []) 0 3 ∷ [])
unfolding isfull array_capacity
contents-add_example = contents-add ring_a (9 ∷ 5 ∷ 6 ∷ []) a-IsValid refl

abbrev ring_one : RingBuf
ring_one = ring_buf_add ring_a (9 ∷ 5 ∷ 6 ∷ [])

one-IsValid : IsValid 3 ring_one
unfolding read_words
one-IsValid = add-IsValid ring_a (9 ∷ 5 ∷ 6 ∷ []) a-IsValid

contents-pop_example :
    contents ring_one ≡ (ring_buf_pop ring_one).0 ∷ contents (ring_buf_pop ring_one).1
unfolding isempty ring_buf_add array_capacity
contents-pop_example = contents-pop ring_one one-IsValid refl
