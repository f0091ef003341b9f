-- ===== src/RingBuf/Contents.antt =====
-- A ring buffer seen as the list of its items, oldest first.
use native.Mathlib.Decide.{dec_lt}
use native.Mathlib.Nat.{mod-eq_of_lt, mod-eq-sub-mod, div-mul-le_self}
use lisp_machine.Common.{ℕ, zero, suc, ◌+◌, ◌-◌, ◌*◌, ◌/◌, ◌≤◌, ◌<◌, ◌⊎◌, inl, inr}
use lisp_machine.Common.{◌≡◌, ◌≢◌, ◌↔◌, sym, refl, ap, ap₂, ◌∙◌, true, false, leb, if◌then◌else◌}
use lisp_machine.Common.{List, [], ◌∷◌, ◌++◌, length, arith}
use lisp_machine.Memory.Words.{read_words, write_words, length-write_words, length-read_words}
use lisp_machine.Memory.Words.{read_words-write_words_self, read_words-write_words_outside}
use lisp_machine.Memory.Words.{get_or-write_words_outside}
use lisp_machine.Array.{array_bsz, item_sz, array_capacity}
use lisp_machine.RingBuf.{RingBuf, isempty, isfull, ring_buf_item_sz, ring_buf_add, ring_buf_pop}
use lisp_machine.RingBuf.{advance}

-- How many slots lie from index `i` on before index `h`, going round at `sz`.
abbrev pub distance : ℕ → ℕ → ℕ → ℕ
distance sz i h = if leb i h then h - i else h + sz - i

-- The `n` items from slot `i` on, `isz` words each.
abbrev pub window : List ℕ → ℕ → ℕ → ℕ → ℕ → List (List ℕ)
window ws isz sz i zero = []
window ws isz sz i (suc n) =
    read_words ws (array_bsz + isz * i) isz ∷ window ws isz sz (advance sz i) n

abbrev pub capacity : RingBuf → ℕ
capacity rb = array_capacity rb.buf

abbrev pub count : RingBuf → ℕ
count rb = distance (capacity rb) rb.tail rb.head

abbrev pub contents : RingBuf → List (List ℕ)
contents rb = window rb.buf.words (ring_buf_item_sz rb) (capacity rb) rb.tail (count rb)

-- Items of `isz` words, indices inside the array.
pub record IsValid (isz : ℕ) (rb : RingBuf) : Type 0 where
  pub size : ring_buf_item_sz rb ≡ isz
  pub pos : 0 < isz
  pub room : 2 ≤ capacity rb
  pub head_in : rb.head < capacity rb
  pub tail_in : rb.tail < capacity rb

-- Two different slots do not overlap.
slots_apart :
    (isz i h : ℕ)
    → i ≢ h
    → (array_bsz + isz * i + isz ≤ array_bsz + isz * h)
      ⊎ (array_bsz + isz * h + isz ≤ array_bsz + isz * i)
slots_apart isz i h ne = elim (dec_lt i h) [ yes p ↦ inl (grind arith) | no p ↦ inr (grind arith) ]

length-window : (ws : List ℕ) (isz sz i n : ℕ) → length (window ws isz sz i n) ≡ n
length-window ws isz sz i zero = refl
length-window ws isz sz i (suc n) = ap suc (length-window ws isz sz (advance sz i) n)

pub length-contents : (rb : RingBuf) → length (contents rb) ≡ count rb
length-contents rb = length-window _ _ _ _ (count rb)

-- Going one slot on brings `h` one slot nearer.
distance-advance :
    (sz i h n : ℕ)
    → i < sz
    → h < sz
    → suc n ≤ distance sz i h
    → (i ≢ h) × (n ≤ distance sz (advance sz i) h) × (advance sz i < sz)
distance-advance sz i h n hi hh le = ground arith

-- A write to slot `h` is not seen by a window that ends before it.
window-write_before :
    (ws : List ℕ) (isz sz h : ℕ) (item : List ℕ) (n i : ℕ)
    → length item ≡ isz
    → i < sz
    → h < sz
    → n ≤ distance sz i h
    → window (write_words ws (array_bsz + isz * h) item) isz sz i n ≡ window ws isz sz i n
window-write_before ws isz sz h item zero i li hi hh le = refl
window-write_before ws isz sz h item (suc n) i li hi hh le =
    let (ne, le', hi') = distance-advance sz i h n hi hh le in
    ap₂ ◌∷◌
      (read_words-write_words_outside ws (array_bsz + isz * h) (array_bsz + isz * i) isz item
        (ground (arith, slots_apart isz i h ne, li)))
      (window-write_before ws isz sz h item n (advance sz i) li hi' hh le')

-- A write to the slot just past a window adds its item at the end.
window-write_end :
    (ws : List ℕ) (isz sz h : ℕ) (item : List ℕ) (n i : ℕ)
    → length item ≡ isz
    → array_bsz + isz * h + isz ≤ length ws
    → i < sz
    → h < sz
    → suc n ≤ sz
    → n ≡ distance sz i h
    → window (write_words ws (array_bsz + isz * h) item) isz sz i (suc n)
      ≡ window ws isz sz i n ++ (item ∷ [])
window-write_end ws isz sz h item zero i li fits hi hh le e =
    let same : i ≡ h = ground arith in
    ap (λ t. t ∷ [])
      (ap₂ (λ j m. read_words (write_words ws (array_bsz + isz * h) item) (array_bsz + isz * j) m)
          same (sym li)
        ∙ read_words-write_words_self ws (array_bsz + isz * h) item (omega arith))
window-write_end ws isz sz h item (suc n) i li fits hi hh le e =
    let (ne, le', hi') = distance-advance sz i h n hi hh (omega arith) in
    ap₂ ◌∷◌
      (read_words-write_words_outside ws (array_bsz + isz * h) (array_bsz + isz * i) isz item
        (ground (arith, slots_apart isz i h ne, li)))
      (window-write_end ws isz sz h item n (advance sz i) li fits hi' hh (omega arith)
        (ground arith))

-- The array holds every slot.
slot_fits :
    (rb : RingBuf) (isz h : ℕ)
    → IsValid isz rb
    → h < capacity rb
    → array_bsz + isz * h + isz ≤ length rb.buf.words
unfolding ring_buf_item_sz array_capacity
slot_fits rb isz h v hh =
    let len = length rb.buf.words in
    let q = (len + 1 - array_bsz - 1) / isz in
    let cap_eq : capacity rb ≡ q = ap (λ t. (len + 1 - array_bsz - 1) / t) v.size in
    let bound : q * isz ≤ len + 1 - array_bsz - 1 = div-mul-le_self _ isz in
    let step : isz * h + isz ≤ q * isz = grind arith in
    let two : 0 < q * isz = grind arith in omega arith

-- The size words are out of the reach of a write to a slot.
add_keeps_sizes :
    (rb : RingBuf) (item : List ℕ)
    → (capacity (ring_buf_add rb item) ≡ capacity rb)
      × (ring_buf_item_sz (ring_buf_add rb item) ≡ ring_buf_item_sz rb)
unfolding ring_buf_add ring_buf_item_sz array_capacity
add_keeps_sizes rb item =
    let off = array_bsz + item_sz rb.buf * rb.head in
    let xs = read_words item 0 (item_sz rb.buf) in
    let size = get_or-write_words_outside rb.buf.words off 1 xs (omega arith) in
    (ap₂ (λ a b. (a + 1 - array_bsz - 1) / b) (length-write_words rb.buf.words off xs) size, size)

pub capacity-add : (rb : RingBuf) (item : List ℕ) → capacity (ring_buf_add rb item) ≡ capacity rb
capacity-add rb item = (add_keeps_sizes rb item).0

pub capacity-pop : (rb : RingBuf) → capacity (ring_buf_pop rb).1 ≡ capacity rb
unfolding ring_buf_pop
capacity-pop rb = refl

pub add-IsValid :
    {isz : ℕ} (rb : RingBuf) (item : List ℕ) → IsValid isz rb → IsValid isz (ring_buf_add rb item)
add-IsValid rb item v = record {
  size = (add_keeps_sizes rb item).1 ∙ v.size;
  pos = v.pos;
  room = rw (capacity-add rb item) (v.room);
  head_in = rw (capacity-add rb item) (unfold ring_buf_add in ground (arith, v.head_in, v.room));
  tail_in = rw (capacity-add rb item) (unfold ring_buf_add in v.tail_in);
}

pub pop-IsValid : {isz : ℕ} (rb : RingBuf) → IsValid isz rb → IsValid isz (ring_buf_pop rb).1
unfolding ring_buf_pop ring_buf_item_sz
pop-IsValid rb v = record {
  size = v.size;
  pos = v.pos;
  room = v.room;
  head_in = v.head_in;
  tail_in = ground (arith, v.tail_in, v.room);
}

-- `ring_buf_isempty` tells whether there is no item.
pub isempty_iff_count :
    {isz : ℕ} (rb : RingBuf) → IsValid isz rb → (isempty rb ≡ true) ↔ (count rb ≡ 0)
unfolding isempty
isempty_iff_count rb v = ground (arith, v.head_in, v.tail_in)

-- `ring_buf_isfull` tells whether all slots but one are taken.
pub isfull_iff_count :
    {isz : ℕ} (rb : RingBuf) → IsValid isz rb → (isfull rb ≡ true) ↔ (count rb + 1 ≡ capacity rb)
unfolding isfull
isfull_iff_count rb v = elim (dec_lt (rb.tail + (capacity rb - 1)) (capacity rb)) [
  | yes p ↦ ground (arith, v.head_in, v.tail_in, v.room, mod-eq_of_lt p)
  | no p ↦ ground (
    arith,
    v.head_in,
    v.tail_in,
    v.room,
    mod-eq-sub-mod {n = rb.tail + (capacity rb - 1)} {m = capacity rb} (omega arith),
    mod-eq_of_lt {n = rb.tail + (capacity rb - 1) - capacity rb} {m = capacity rb}
        (omega (arith, v.tail_in, v.room)),
  )
]

-- Adding to a ring that is not full puts the item behind the others.
pub contents-add :
    {isz : ℕ} (rb : RingBuf) (item : List ℕ)
    → IsValid isz rb
    → isfull rb ≡ false
    → contents (ring_buf_add rb item) ≡ contents rb ++ (read_words item 0 isz ∷ [])
unfolding ring_buf_add
contents-add {isz} rb item v nf =
    let sz = capacity rb in
    let head' = advance sz rb.head in
    let off = array_bsz + ring_buf_item_sz rb * rb.head in
    let xs = read_words item 0 (ring_buf_item_sz rb) in
    let ws' = write_words rb.buf.words off xs in
    let more : distance sz rb.tail head' ≡ suc (count rb) =
      ground (arith, isfull_iff_count rb v, v.head_in, v.tail_in, v.room) in
    let (cap_eq, size_eq) = add_keeps_sizes rb item in
    let fits = slot_fits rb isz rb.head v v.head_in in
    (λ j. window ws' (size_eq j) (cap_eq j) rb.tail (distance (cap_eq j) rb.tail head'))
    ∙ ap (λ n. window ws' (ring_buf_item_sz rb) sz rb.tail n) more
    ∙ window-write_end rb.buf.words (ring_buf_item_sz rb) sz rb.head xs (count rb) rb.tail
        (length-read_words item 0 (ring_buf_item_sz rb)) (rw v.size fits) v.tail_in v.head_in
        (ground (arith, v.head_in, v.tail_in)) refl
    ∙ ap (λ m. contents rb ++ (read_words item 0 m ∷ [])) v.size

-- Popping from a ring that is not empty takes the first item.
pub contents-pop :
    {isz : ℕ} (rb : RingBuf)
    → IsValid isz rb
    → isempty rb ≡ false
    → contents rb ≡ (ring_buf_pop rb).0 ∷ contents (ring_buf_pop rb).1
unfolding ring_buf_pop ring_buf_item_sz
contents-pop {isz} rb v ne =
    let sz = capacity rb in
    let n = count (ring_buf_pop rb).1 in
    let less : count rb ≡ suc n =
      ground (arith, isempty_iff_count rb v, v.head_in, v.tail_in, v.room) in
    ap (λ k. window rb.buf.words (item_sz rb.buf) sz rb.tail k) less
