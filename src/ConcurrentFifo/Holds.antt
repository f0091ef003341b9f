-- ===== src/ConcurrentFifo/Holds.antt =====
-- What the FIFO holds: the items in the order of their arrival, spread over the two rings.
use lisp_machine.Common.{ℕ, suc, ◌+◌, ◌-◌, ◌%◌, ◌≤◌, ◌<◌, ◌≡◌, refl, sym, ap, ap₂}
use lisp_machine.Common.{◌∙◌, inl, inr, false, not, ◌&&◌, ◌||◌, ◌==◌, if◌then◌else◌}
use lisp_machine.Common.{List, [], ◌∷◌, ◌++◌, length, length-append}
use lisp_machine.Common.{Bool-cases, arith}
use lisp_machine.Word.{word_mod, add_word, sub_word}
use lisp_machine.Memory.Words.{read_words, length-read_words, read_words_whole}
use lisp_machine.RingBuf.{RingBuf, isfull, ring_buf_item_sz, ring_buf_add}
use lisp_machine.RingBuf.Contents.{
  IsValid, capacity, count, contents, length-contents, contents-add,
}
use lisp_machine.RingBuf.Contents.{add-IsValid, capacity-add}
use lisp_machine.ConcurrentFifo.{ConcurrentFifo, tag_item, fifo_add}
use lisp_machine.ConcurrentFifo.Merge.{Merge, Merge-snoc_left, Merge-snoc_right}
use lisp_machine.ConcurrentFifo.Merge.{length-Merge}

-- The items of a queue under consecutive tags, as they stand in the rings.
abbrev pub tagged : ℕ → List (List ℕ) → List (List ℕ)
tagged t [] = []
tagged t (x ∷ q) = (t ∷ x) ∷ tagged (add_word t 1) q

-- `cf` holds the queue `q`, whose oldest item has the tag `t`.
pub record Holds (isz t : ℕ) (q : List (List ℕ)) (cf : ConcurrentFifo) : Type 0 where
  pub valid_a : IsValid isz cf.a
  pub valid_b : IsValid isz cf.b
  pub merged : Merge (contents cf.a) (contents cf.b) (tagged t q)
  pub next_tag : cf.tag ≡ (t + length q) % word_mod
  pub tag_fits : t < word_mod
  pub small : capacity cf.a + capacity cf.b ≤ word_mod

length-tagged : (t : ℕ) (q : List (List ℕ)) → length (tagged t q) ≡ length q
length-tagged t [] = refl
length-tagged t (x ∷ q) = ap suc (length-tagged (add_word t 1) q)

tagged-snoc :
    (t : ℕ) (q : List (List ℕ)) (x : List ℕ)
    → t < word_mod
    → tagged t (q ++ (x ∷ [])) ≡ tagged t q ++ (((t + length q) % word_mod ∷ x) ∷ [])
tagged-snoc t [] x h = ap (λ n. (n ∷ x) ∷ []) (omega arith)
tagged-snoc t (y ∷ q) x h =
    ap (λ r. (t ∷ y) ∷ r)
      (tagged-snoc (add_word t 1) q x (omega arith)
        ∙ ap (λ n. tagged (add_word t 1) q ++ ((n ∷ x) ∷ [])) (omega arith))

-- Fewer items than tags.
pub length-queue :
    {isz t : ℕ} {q : List (List ℕ)} {cf : ConcurrentFifo}
    → Holds isz t q cf
    → length q ≡ count cf.a + count cf.b
length-queue {t = t} {q = q} {cf = cf} h =
    omega
      (arith, length-tagged t q, length-Merge h.merged, length-contents cf.a, length-contents cf.b)

pub count-lt-capacity : {isz : ℕ} (rb : RingBuf) → IsValid isz rb → count rb < capacity rb
count-lt-capacity rb v = ground (arith, v.head_in, v.tail_in)

module _ {isz t : ℕ} {q : List (List ℕ)} (cf : ConcurrentFifo) (item : List ℕ)
    (h : Holds isz t q cf) where
  -- The words that the code stores for `item`.
  abbrev pub payload : List ℕ
  payload = read_words item 0 (isz - 1)

  abbrev stored : List ℕ
  stored = tag_item (ring_buf_item_sz cf.a) cf.tag item

  stored_eq : read_words stored 0 isz ≡ (t + length q) % word_mod ∷ payload
  unfolding tag_item
  stored_eq =
      let whole : length stored ≡ isz = omega (
        arith,
        length-read_words item 0 (ring_buf_item_sz cf.a - 1),
        h.valid_a.size,
        h.valid_a.pos,
      ) in
      ap (λ n. read_words stored 0 n) (sym whole)
      ∙ read_words_whole stored
      ∙ ap₂ (λ g m. g ∷ read_words item 0 (m - 1)) h.next_tag h.valid_a.size

  -- Adding to a ring that has room lengthens the queue.
  next_tag_after : add_word cf.tag 1 ≡ (t + length (q ++ (payload ∷ []))) % word_mod
  next_tag_after = omega (arith, h.next_tag, length-append q (payload ∷ []))

  add_to_a :
      isfull cf.a ≡ false
      → Holds isz t
          (q ++ (payload ∷ []))
          (record cf { tag = add_word cf.tag 1; a = ring_buf_add cf.a stored })
  add_to_a room = record {
    valid_a = add-IsValid cf.a stored h.valid_a;
    valid_b = h.valid_b;
    merged =
        rw (contents-add cf.a stored h.valid_a room, stored_eq, tagged-snoc t q payload h.tag_fits)
          (Merge-snoc_left _ h.merged);
    next_tag = next_tag_after;
    tag_fits = h.tag_fits;
    small = omega (arith, h.small, capacity-add cf.a stored);
  }

  add_to_b :
      isfull cf.b ≡ false
      → Holds isz t
          (q ++ (payload ∷ []))
          (record cf { tag = add_word cf.tag 1; b = ring_buf_add cf.b stored })
  add_to_b room = record {
    valid_a = h.valid_a;
    valid_b = add-IsValid cf.b stored h.valid_b;
    merged =
        rw (contents-add cf.b stored h.valid_b room, stored_eq, tagged-snoc t q payload h.tag_fits)
          (Merge-snoc_right _ h.merged);
    next_tag = next_tag_after;
    tag_fits = h.tag_fits;
    small = omega (arith, h.small, capacity-add cf.b stored);
  }

  refuse : Holds isz t q (record cf { tag = sub_word (add_word cf.tag 1) 1 })
  refuse = record {
    valid_a = h.valid_a;
    valid_b = h.valid_b;
    merged = h.merged;
    next_tag = omega (arith, h.next_tag);
    tag_fits = h.tag_fits;
    small = h.small;
  }

  -- Whatever the locks are, an item that is accepted comes last, and a refused one changes
  -- nothing.
  pub add-Holds :
      let (refused, cf') = fifo_add cf item in
      Holds isz t (if refused then q else q ++ (payload ∷ [])) cf'
  unfolding fifo_add
  add-Holds = elim (Bool-cases ((cf.a_lck == 0) && not (isfull cf.a))) [
    | inl e ↦ rw e (add_to_a (ground arith))
    | inr e ↦ elim (Bool-cases ((cf.b_lck == 0) && not (isfull cf.b))) [
      | inl e' ↦ rw (e, e') (add_to_b (ground arith))
      | inr e' ↦ rw (e, e') refuse
    ]
  ]

  -- An item is refused exactly when each ring is locked or full.
  pub add-refused :
      (fifo_add cf item).0
      ≡ not ((cf.a_lck == 0) && not (isfull cf.a) || (cf.b_lck == 0) && not (isfull cf.b))
  unfolding fifo_add
  add-refused = ground arith

-- The locks and the awaited tag do not matter for what is held.
pub relock-Holds :
    {isz t : ℕ} {q : List (List ℕ)} (cf : ConcurrentFifo) (la lb c : ℕ)
    → Holds isz t q cf
    → Holds isz t q (record cf { a_lck = la; b_lck = lb; curr_tag = c })
relock-Holds cf la lb c h = record {
  valid_a = h.valid_a;
  valid_b = h.valid_b;
  merged = h.merged;
  next_tag = h.next_tag;
  tag_fits = h.tag_fits;
  small = h.small;
}
