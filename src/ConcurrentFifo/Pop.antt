-- ===== src/ConcurrentFifo/Pop.antt =====
-- Taking the oldest item out of the FIFO.
use mathlib.Core.Path.{subst}
use lisp_machine.Common.{ℕ, suc, ◌+◌, ◌*◌, ◌%◌, ◌<◌, ◌≡◌, ◌≢◌, refl, sym, ap}
use lisp_machine.Common.{◌∙◌, inl, inr, false}
use lisp_machine.Common.{List, [], ◌∷◌, length, get_or}
use lisp_machine.Common.{List-cases, arith}
use lisp_machine.Word.{word_mod, add_word}
use lisp_machine.Memory.Words.{get_or-read_words_first}
use lisp_machine.Array.{array_bsz, item_sz}
use lisp_machine.RingBuf.{RingBuf, isempty, ring_buf_item_sz, ring_buf_pop}
use lisp_machine.RingBuf.Contents.{IsValid, count, contents, length-contents}
use lisp_machine.RingBuf.Contents.{contents-pop, pop-IsValid, capacity-pop, isempty_iff_count}
use lisp_machine.ConcurrentFifo.{ConcurrentFifo, head_tag, next_source}
use lisp_machine.ConcurrentFifo.{Source, from_a, from_b, nothing, take_item}
use lisp_machine.ConcurrentFifo.Merge.{Merge, done, left, right, Merge-nil, Merge-cons, Merge-swap}
use lisp_machine.ConcurrentFifo.Holds.{Holds, tagged, length-queue, count-lt-capacity}

-- An item of one side of a merged queue has one of the queue's tags.
left_tag :
    (t : ℕ) (q : List (List ℕ)) {xs ys zs : List (List ℕ)} (z : List ℕ) (rest : List (List ℕ))
    → t < word_mod
    → Merge xs ys zs
    → zs ≡ tagged t q
    → xs ≡ z ∷ rest
    → (k : ℕ) × (k < length q) × (get_or z 0 0 ≡ (t + k) % word_mod)
left_tag t q z rest h done e f = absurd (cc)
left_tag t [] z rest h (left w m) e f = absurd (cc)
left_tag t (x ∷ q) z rest h (left w m) e f =
    let same : z ≡ t ∷ x = cc in (0, omega arith, omega (arith, ap (λ u. get_or u 0 0) same))
left_tag t [] z rest h (right w m) e f = absurd (cc)
left_tag t (x ∷ q) z rest h (right w m) e f =
    let (k, lt, g) = left_tag (add_word t 1) q z rest (omega arith) m (cc) f in
    (suc k, omega arith, omega (arith, g))

nonempty :
    {isz : ℕ} (rb : RingBuf) (z : List ℕ) (rest : List (List ℕ))
    → IsValid isz rb
    → contents rb ≡ z ∷ rest
    → isempty rb ≡ false
nonempty rb z rest v e =
    let positive : 0 < count rb = omega (arith, ap length e, length-contents rb) in
    ground (arith, isempty_iff_count rb v)

-- `ring_buf_pop` gives the first item and leaves the others.
pop-contents :
    {isz : ℕ} (rb : RingBuf) (z : List ℕ) (rest : List (List ℕ))
    → IsValid isz rb
    → contents rb ≡ z ∷ rest
    → ((ring_buf_pop rb).0 ≡ z) × (contents (ring_buf_pop rb).1 ≡ rest)
pop-contents rb z rest v e =
    let split = sym (contents-pop rb v (nonempty rb z rest v e)) ∙ e in (cc split, cc split)

-- The tag that is looked at is that of the first item.
head_tag_eq :
    {isz : ℕ} (rb : RingBuf) (z : List ℕ) (rest : List (List ℕ))
    → IsValid isz rb
    → contents rb ≡ z ∷ rest
    → head_tag isz rb ≡ get_or z 0 0
unfolding head_tag ring_buf_pop ring_buf_item_sz
head_tag_eq {isz} rb z rest v e =
    ap (λ n. get_or rb.buf.words (array_bsz + n * rb.tail) 0) (sym v.size)
    ∙ sym (
        get_or-read_words_first rb.buf.words (array_bsz + item_sz rb.buf * rb.tail) (item_sz rb.buf)
          (omega (arith, v.size, v.pos)))
    ∙ ap (λ u. get_or u 0 0) (pop-contents rb z rest v e).0

-- The oldest item of a queue stands first in exactly one ring, and only its tag is awaited.
pub data Leads (z : List ℕ) (cf : ConcurrentFifo) : Source → Type 0 where
  leads_a : (rest : List (List ℕ)) → contents cf.a ≡ z ∷ rest → Leads z cf from_a
  leads_b : (rest : List (List ℕ)) → contents cf.b ≡ z ∷ rest → Leads z cf from_b

module _ {isz t : ℕ} {x : List ℕ} {q : List (List ℕ)} (cf : ConcurrentFifo)
    (h : Holds isz t (x ∷ q) cf) where
  few : suc (length q) < word_mod
  few = omega (
    arith,
    length-queue h,
    count-lt-capacity cf.a h.valid_a,
    count-lt-capacity cf.b h.valid_b,
    h.small,
  )

  -- The item that leads is not the first of the other ring.
  other_tag :
      {xs ys : List (List ℕ)} (z : List ℕ) (rest : List (List ℕ))
      → Merge xs ys (tagged (add_word t 1) q)
      → xs ≡ z ∷ rest
      → get_or z 0 0 ≢ t
  other_tag z rest m e same =
      let (k, lt, g) = left_tag (add_word t 1) q z rest (omega arith) m refl e in
      omega (arith, few, h.tag_fits, g)

  -- What is left when the item is taken off the one ring or the other.
  after :
      {xs ys : List (List ℕ)} (rest : List (List ℕ))
      → Merge xs ys (tagged t (x ∷ q))
      → xs ≡ (t ∷ x) ∷ rest
      → Merge rest ys (tagged (add_word t 1) q)
  after {xs} {ys} rest m e = elim (Merge-cons (t ∷ x) (tagged (add_word t 1) q) m refl) [
    | inl (xs', f, m') ↦ subst (λ r. Merge r ys (tagged (add_word t 1) q)) (cc) m'
    | inr (ys', f, m') ↦ absurd (other_tag (t ∷ x) rest m' e refl)
  ]

  -- Taking the leading item, whatever the locks are.
  pub take-Holds :
      (src : Source)
      → Leads (t ∷ x) cf src
      → ((take_item src cf).0 ≡ t ∷ x) × Holds isz (add_word t 1) q (take_item src cf).1
  unfolding take_item
  take-Holds from_a (leads_a rest e) =
      let (same, left_over) = pop-contents cf.a (t ∷ x) rest h.valid_a e in
      (
        same,
        record {
          valid_a = pop-IsValid cf.a h.valid_a;
          valid_b = h.valid_b;
          merged = rw left_over (after rest h.merged e);
          next_tag = omega (arith, h.next_tag);
          tag_fits = omega arith;
          small = omega (arith, h.small, capacity-pop cf.a);
        },
      )
  take-Holds from_b (leads_b rest e) =
      let (same, left_over) = pop-contents cf.b (t ∷ x) rest h.valid_b e in
      (
        same,
        record {
          valid_a = h.valid_a;
          valid_b = pop-IsValid cf.b h.valid_b;
          merged = rw left_over (Merge-swap (after rest (Merge-swap h.merged) e));
          next_tag = omega (arith, h.next_tag);
          tag_fits = omega arith;
          small = omega (arith, h.small, capacity-pop cf.b);
        },
      )
  take-Holds nothing l = elim l [ ]

  -- The ring that `concurrent_fifo_pop` looks up is the one where the oldest item leads.
  source_in_a :
      (rest : List (List ℕ))
      → contents cf.a ≡ (t ∷ x) ∷ rest
      → cf.curr_tag ≡ t
      → next_source cf ≡ from_a
  unfolding next_source
  source_in_a rest e awaited = ground (
    arith,
    nonempty cf.a (t ∷ x) rest h.valid_a e,
    ap (λ n. head_tag n cf.a) h.valid_a.size ∙ head_tag_eq cf.a (t ∷ x) rest h.valid_a e,
  )

  source_in_b :
      (rest : List (List ℕ))
      → contents cf.b ≡ (t ∷ x) ∷ rest
      → cf.curr_tag ≡ t
      → next_source cf ≡ from_b
  unfolding next_source
  source_in_b rest e awaited =
      let tag_b =
        ap (λ n. head_tag n cf.b) h.valid_a.size ∙ head_tag_eq cf.b (t ∷ x) rest h.valid_b e in
      let full_b = nonempty cf.b (t ∷ x) rest h.valid_b e in
      elim (List-cases (contents cf.a)) [
        | inl empty ↦ ground (
          arith,
          tag_b,
          full_b,
          isempty_iff_count cf.a h.valid_a,
          length-contents cf.a,
          ap length empty,
        )
        | inr (z, r, f) ↦ ground (
          arith,
          tag_b,
          full_b,
          ap (λ n. head_tag n cf.a) h.valid_a.size ∙ head_tag_eq cf.a z r h.valid_a f,
          other_tag z r (Merge-swap (after rest (Merge-swap h.merged) e)) f,
        )
      ]

  pub next_source-Leads : cf.curr_tag ≡ t → Leads (t ∷ x) cf (next_source cf)
  next_source-Leads awaited = elim (Merge-cons (t ∷ x) (tagged (add_word t 1) q) h.merged refl) [
    | inl (rest, e, m) ↦ rw (source_in_a rest e awaited) (leads_a rest e)
    | inr (rest, e, m) ↦ rw (source_in_b rest e awaited) (leads_b rest e)
  ]

-- Nothing is taken from an empty queue.
pub next_source_nothing :
    {isz t : ℕ} (cf : ConcurrentFifo) → Holds isz t [] cf → next_source cf ≡ nothing
unfolding next_source
next_source_nothing cf h =
    let (none_a, none_b) = Merge-nil h.merged refl in
    ground (
      arith,
      isempty_iff_count cf.a h.valid_a,
      isempty_iff_count cf.b h.valid_b,
      length-contents cf.a,
      length-contents cf.b,
      ap length none_a,
      ap length none_b,
    )
