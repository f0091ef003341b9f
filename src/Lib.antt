-- ===== src/Lib.antt =====
-- The lisp machine: a runtime for a small 64-bit machine, in C. Its parts, and how they are modelled:
--
-- * config.h and the helpers of util.c: `Word` (the wrap-around and the bit operations of `word`),
--   `Util` (`max`, `umax`, `min`, `umin`, `abs`, `nat_pow`), `Util/Strings` (`memcmp`,
--   `strncmp`, `strlen`) and `Util/Digits` (`uintn_to_str`).
-- * datastructures.c, growable arrays (`array_*`): `Array`, over the allocator's client interface
--   `Memory`, in which `realloc` of alloc.c is defined from alloc and free.
-- * datastructures.c, ring buffers (`ring_buf_*`): `RingBuf`. A ring is its array with the
--   indices `head` and `tail` below the capacity; the state with one free slot is full.
-- * datastructures.c, the FIFO that an interrupt handler shares with the main program
--   (`fifo_*`, `concurrent_fifo`): `ConcurrentFifo`, two rings and the lock between them.
--   `ConcurrentFifo/Interrupt` runs the handler's additions (`exc_handler` of main.c) between the
--   steps of a pop; `ConcurrentFifo/Refine` has the plain queue that the two rings implement.
-- * datastructures.c, AVL trees (`avl_*`): `Avl` and its children. A tree is a value; a parent
--   pointer is the path from a node to the root, a list of `Frame`, and the loops that climb by
--   parent pointers are recursions on that path. The balance bits are the three values of `Balance`.
-- * alloc.c, the allocator (`alloc`, `free`, `avl_merge`, `init_heap`): `Heap` and its children.
--   The state has the tree of the free blocks, with their addresses and sizes, and the size word in
--   front of each block that is taken, as a function of the address. Addresses count words.
--   `Heap/Client` has `alloc` and `free` as the data structures see them, an instance of the
--   interface in `Memory`: a request so near 2^64 that it wraps is granted a smaller block.
-- * asm.c, the assembler (`compile` and its scanning functions): `Asm/Lex`, `Asm/Encode`,
--   `Asm/Compile`. The text is a list of characters and a pointer into it is its suffix.
-- * asm.c, the interpreter (`run`): `Asm/Machine` and `Asm/Run`. Memory is a function of the
--   word address, the registers are a list, and one round of the loop is `step`.
-- * alloc.c, the fields of an object's count word (`get_rc`, `set_visited` and so on): `Heap/Counts`.
-- * datastructures.c, the queue of linked cells (`queue_*`): `Queue`, with the links as a function of
--   the address; `Queue/Refine` has the list of items that it implements.
-- * datastructures.c, objects (`obj_cmp`; `object`, `object_append*` and `pair`): `Object` and
--   `Object/Store`, where memory is a function from addresses to objects.
-- * datastructures.c, sets (`set_*`, `in_set`): `Set`, trees of `Avl` whose data are addresses of
--   objects. `Object/Key` turns the order of `obj_cmp` into one of numbers.
-- * alloc.c, the collector's set (`gc_alloc`, `gc_add`, `gc_free`): `Gc`.
-- * datastructures.c, big numbers: lists of words with the lowest one first and the sign word at the
--   end, which `Num/Value` reads as integers. Where operands are negated in place, their contents
--   stand by their addresses (`Num/Store`), and two operands may be one object. `Num` (`adc`,
--   `num_negate`), `Num/Add` (`num_add`), `Num/Le` (`num_le`), `Num/Mul` (`num_mul`), `Num/Shift`
--   (`num_shift*`), `Num/Logic` (`num_and`, `num_or`, `num_xor`, `num_not`, `num_ldr`,
--   `num_store`), `Num/Text` (`str_to_num`, `num_to_str`,
--   `word_to_num`). The objects that hold the words are always granted.
-- * lisp.c, the reader (`tokenize`, `_tokenize`): `Lisp`, from a text to nested arrays of strings and
--   numbers; `Lisp/Grammar` has the grammar that it implements, over the lists of characters in
--   `Lisp/Chars`, and `Lisp/Rounds` the reading of a text of any form.
--
-- Parameters: the allocator where a container uses it (`Memory`), and the supervisor call of the
-- interpreter. Both are arguments of the definitions that use them, and so are the addresses of
-- the objects that stand for types.
--
-- Loops. `assemble` has as many rounds as the text has characters and one more: each token takes a
-- character at least. The search of `avl_merge` has one round more than the tree is high. `run` has
-- no bound in the code and takes the number of instructions as an argument. `uintn_to_str` has as
-- many rounds as the buffer has words: it stops before the buffer is full. `tokenize` has one round
-- more than the text has characters: each round takes one at least. All other loops are
-- recursions on the structure that they walk through.
--
-- Not modelled: x86_64/ (an older copy of the program for another machine) with gnu-efi (a library
-- of another project), the console, drivers and start-up code of main.c and boot.S (input and
-- output), and the functions that print. Also not modelled: the collector itself of alloc.c, the
-- other operations on objects of datastructures.c, and the evaluator of lisp.c.
pub mod Common
pub mod Word
pub mod Memory
pub mod Array
pub mod RingBuf
pub mod ConcurrentFifo
pub mod Util
pub mod Num
pub mod Queue
pub mod Object
pub mod Avl
pub mod Set
pub mod Gc
pub mod Lisp
pub mod Heap
pub mod Asm
pub mod Tests
