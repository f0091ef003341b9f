-- ===== src/ConcurrentFifo/Interrupt.antt =====
-- A pop that `exc_handler` interrupts: main.c's handler runs to its end wherever an exception
-- arrives, and adds one item each time.
use mathlib.Core.Path.{subst}
use mathlib.Core.List.{map-append}
use lisp_machine.Common.{ℕ, ◌-◌, ◌≡◌, ◌≢◌, refl, sym, ap, ◌∙◌, inl, inr}
use lisp_machine.Common.{
  Bool, true, false, not, ◌&&◌, ◌==◌, if◌then◌else◌, Bool-cases, append-nil, append_assoc,
}
use lisp_machine.Common.{List, [], ◌∷◌, ◌++◌, map, drop, arith}
use lisp_machine.Word.{add_word}
use lisp_machine.Memory.Words.{read_words}
use lisp_machine.RingBuf.{isfull, ring_buf_item_sz}
use lisp_machine.RingBuf.Contents.{contents, contents-add}
use lisp_machine.ConcurrentFifo.{ConcurrentFifo, tag_item, fifo_add, next_source, Source}
use lisp_machine.ConcurrentFifo.{from_a, from_b, nothing, lock, take_item, unlock, await_next}
use lisp_machine.ConcurrentFifo.Holds.{Holds, add-Holds, relock-Holds}
use lisp_machine.ConcurrentFifo.Pop.{Leads, leads_a, leads_b, take-Holds, next_source-Leads}

-- Exceptions that arrive one after another.
unfoldable pub interrupts : ConcurrentFifo → List (List ℕ) → ConcurrentFifo
interrupts cf [] = cf
interrupts cf (e ∷ es) = interrupts (fifo_add cf e).1 es

-- The exceptions that arrive after the look-up, under the lock, after the copy, and after the
-- lock has been given back.
pub record Arrivals : Type 0 where
  pub looked_up : List (List ℕ)
  pub locked : List (List ℕ)
  pub copied : List (List ℕ)
  pub unlocked : List (List ℕ)

abbrev pub all_arrivals : Arrivals → List (List ℕ)
all_arrivals e = e.looked_up ++ (e.locked ++ (e.copied ++ e.unlocked))

unfoldable pub interrupted_pop : ConcurrentFifo → Arrivals → List ℕ × ConcurrentFifo
unfolding interrupts lock take_item unlock await_next
interrupted_pop cf e =
    let src = next_source cf in
    let before = interrupts (lock src (interrupts cf e.looked_up)) e.locked in
    let (item, popped) = take_item src before in
    let after = interrupts (unlock src (interrupts popped e.copied)) e.unlocked in
    (drop 1 item, await_next after)

-- Some of the items, in their order.
pub data Picks {ℓ} {A : Type ℓ} : List A → List A → Type ℓ where
  stop : Picks [] []
  keep : {xs ys : List A} (x : A) → Picks xs ys → Picks (x ∷ xs) (x ∷ ys)
  skip : {xs ys : List A} (y : A) → Picks xs ys → Picks xs (y ∷ ys)

Picks-append {ℓ} :
    {A : Type ℓ} {xs ys xs' ys' : List A}
    → Picks xs ys
    → Picks xs' ys'
    → Picks (xs ++ xs') (ys ++ ys')
Picks-append stop q = q
Picks-append (keep x p) q = keep x (Picks-append p q)
Picks-append (skip y p) q = skip y (Picks-append p q)

-- The words that the FIFO stores of each item.
abbrev pub payloads : ℕ → List (List ℕ) → List (List ℕ)
payloads isz es = map (λ e. read_words e 0 (isz - 1)) es

-- After some exceptions the queue is longer by those that found room.
abbrev Later : ℕ → ℕ → List (List ℕ) → List (List ℕ) → ConcurrentFifo → Type 0
Later isz t q es cf =
    (late : List (List ℕ)) × Picks late (payloads isz es) × Holds isz t (q ++ late) cf

Later-cons :
    {isz t : ℕ} (q : List (List ℕ)) (e : List ℕ) (es : List (List ℕ)) {cf final : ConcurrentFifo}
    (refused : Bool)
    → Holds isz t (if refused then q else q ++ (read_words e 0 (isz - 1) ∷ [])) cf
    → ((q' : List (List ℕ)) → Holds isz t q' cf → Later isz t q' es final)
    → Later isz t q (e ∷ es) final
Later-cons q e es true h rest = let (late, picks, h') = rest q h in (late, skip _ picks, h')
Later-cons {isz} q e es false h rest =
    let x = read_words e 0 (isz - 1) in
    let (late, picks, h') = rest (q ++ (x ∷ [])) h in
    (x ∷ late, keep x picks, rw append_assoc at h')

interrupts-Later :
    (es : List (List ℕ)) {isz t : ℕ} {q : List (List ℕ)} (cf : ConcurrentFifo)
    → Holds isz t q cf
    → Later isz t q es (interrupts cf es)
unfolding interrupts
interrupts-Later [] {q = q} cf h = ([], stop, rw append-nil h)
interrupts-Later (e ∷ es) {q = q} cf h =
    Later-cons q e es (fifo_add cf e).0 (add-Holds cf e h)
      (λ q' h'. interrupts-Later es {q = q'} (fifo_add cf e).1 h')

-- An addition only lengthens what the rings hold.
Grows : List (List ℕ) → List (List ℕ) → Type 0
Grows xs ys = (more : List (List ℕ)) × (ys ≡ xs ++ more)

same_Grows : (xs : List (List ℕ)) → Grows xs xs
unfolding Grows
same_Grows xs = ([], sym (append-nil xs))

add-Grows :
    {isz t : ℕ} {q : List (List ℕ)} (cf : ConcurrentFifo) (item : List ℕ)
    → Holds isz t q cf
    → Grows (contents cf.a) (contents (fifo_add cf item).1.a)
      × Grows (contents cf.b) (contents (fifo_add cf item).1.b)
unfolding Grows fifo_add
add-Grows {isz} cf item h =
    let stored = tag_item (ring_buf_item_sz cf.a) cf.tag item in
    elim (Bool-cases ((cf.a_lck == 0) && not (isfull cf.a))) [
      | inl e ↦ rw e (
        (read_words stored 0 isz ∷ [], contents-add cf.a stored h.valid_a (ground arith)),
        same_Grows (contents cf.b),
      )
      | inr e ↦ elim (Bool-cases ((cf.b_lck == 0) && not (isfull cf.b))) [
        | inl e' ↦
            rw (e, e')
              (
                same_Grows (contents cf.a),
                (read_words stored 0 isz ∷ [], contents-add cf.b stored h.valid_b (ground arith)),
              )
        | inr e' ↦ rw (e, e') (same_Grows (contents cf.a), same_Grows (contents cf.b))
      ]
    ]

-- The leading item keeps its place.
add-Leads :
    {isz t : ℕ} {q : List (List ℕ)} (z : List ℕ) (cf : ConcurrentFifo) (src : Source)
    (item : List ℕ)
    → Holds isz t q cf
    → Leads z cf src
    → Leads z (fifo_add cf item).1 src
unfolding Grows
add-Leads z cf from_a item h (leads_a rest e) =
    let (more, g) = (add-Grows cf item h).0 in leads_a (rest ++ more) (g ∙ ap (λ r. r ++ more) e)
add-Leads z cf from_b item h (leads_b rest e) =
    let (more, g) = (add-Grows cf item h).1 in leads_b (rest ++ more) (g ∙ ap (λ r. r ++ more) e)
add-Leads z cf nothing item h l = elim l [ ]

interrupts-Leads :
    (es : List (List ℕ)) {isz t : ℕ} {q : List (List ℕ)} (z : List ℕ) (cf : ConcurrentFifo)
    (src : Source)
    → Holds isz t q cf
    → Leads z cf src
    → Leads z (interrupts cf es) src
unfolding interrupts
interrupts-Leads [] z cf src h l = l
interrupts-Leads (e ∷ es) {isz} {q = q} z cf src h l =
    interrupts-Leads es {q = if (fifo_add cf e).0 then q else q ++ (read_words e 0 (isz - 1) ∷ [])}
      z (fifo_add cf e).1 src (add-Holds cf e h) (add-Leads z cf src e h l)

-- Locking, unlocking and awaiting the next tag change neither what is held nor who leads.
lock-Holds :
    {isz t : ℕ} {q : List (List ℕ)} (src : Source) (cf : ConcurrentFifo)
    → Holds isz t q cf
    → Holds isz t q (lock src cf)
unfolding lock
lock-Holds from_a cf h = relock-Holds cf 1 cf.b_lck cf.curr_tag h
lock-Holds from_b cf h = relock-Holds cf cf.a_lck 1 cf.curr_tag h
lock-Holds nothing cf h = h

lock-Leads :
    (src : Source) (cf : ConcurrentFifo) {z : List ℕ} → Leads z cf src → Leads z (lock src cf) src
unfolding lock
lock-Leads from_a cf (leads_a rest e) = leads_a rest e
lock-Leads from_b cf (leads_b rest e) = leads_b rest e
lock-Leads nothing cf l = l

unlock-Holds :
    {isz t : ℕ} {q : List (List ℕ)} (src : Source) (cf : ConcurrentFifo)
    → Holds isz t q cf
    → Holds isz t q (unlock src cf)
unfolding unlock
unlock-Holds from_a cf h = relock-Holds cf 0 cf.b_lck cf.curr_tag h
unlock-Holds from_b cf h = relock-Holds cf cf.a_lck 0 cf.curr_tag h
unlock-Holds nothing cf h = h

append_four {ℓ} :
    {A : Type ℓ} (q a b c d : List A) → (((q ++ a) ++ b) ++ c) ++ d ≡ q ++ (a ++ (b ++ (c ++ d)))
append_four q a b c d = simp append_assoc

payloads-append :
    (isz : ℕ) (e : Arrivals) {late : List (List ℕ)}
    → Picks late (
        payloads isz e.looked_up
        ++ (payloads isz e.locked ++ (payloads isz e.copied ++ payloads isz e.unlocked)))
    → Picks late (payloads isz (all_arrivals e))
payloads-append isz e p = simp map-append p

-- A pop from a FIFO that holds `x` and then `q` gives `x`, whatever exceptions arrive meanwhile;
-- what is held afterwards is `q` and, in the order of their arrival, those of the exceptions
-- that found room.
pub interrupted_pop_lem :
    {isz : ℕ} {x : List ℕ} {q : List (List ℕ)} (cf : ConcurrentFifo) (e : Arrivals)
    → Holds isz cf.curr_tag (x ∷ q) cf
    → let (item, cf') = interrupted_pop cf e in
      (item ≡ x)
      × ((late : List (List ℕ)) × Picks late (payloads isz (all_arrivals e))
          × Holds isz (add_word cf.curr_tag 1) (q ++ late) cf')
unfolding interrupted_pop
interrupted_pop_lem {isz} {x} {q} cf e h =
    let t = cf.curr_tag in
    let src = next_source cf in
    let lead = next_source-Leads cf h refl in
    let c1 = interrupts cf e.looked_up in
    let (l1, p1, h1) = interrupts-Later e.looked_up cf h in
    let lead1 = interrupts-Leads e.looked_up (t ∷ x) cf src h lead in
    let c2 = interrupts (lock src c1) e.locked in
    let (l2, p2, h2) = interrupts-Later e.locked (lock src c1) (lock-Holds src c1 h1) in
    let lead2 =
      interrupts-Leads e.locked (t ∷ x) (lock src c1) src (lock-Holds src c1 h1)
        (lock-Leads src c1 lead1) in
    let (same, h3) = take-Holds c2 h2 src lead2 in
    let popped = (take_item src c2).1 in
    let c4 = interrupts popped e.copied in
    let (l3, p3, h4) = interrupts-Later e.copied popped h3 in
    let c5 = interrupts (unlock src c4) e.unlocked in
    let (l4, p4, h5) = interrupts-Later e.unlocked (unlock src c4) (unlock-Holds src c4 h4) in
    (
      ap (λ i. drop 1 i) same,
      (
        l1 ++ (l2 ++ (l3 ++ l4)),
        payloads-append isz e (Picks-append p1 (Picks-append p2 (Picks-append p3 p4))),
        relock-Holds c5 c5.a_lck c5.b_lck (add_word c5.curr_tag 1)
            (subst (λ r. Holds isz (add_word t 1) r c5) (append_four q l1 l2 l3 l4) h5),
      ),
    )

-- While a ring is locked no exception touches it, so that the copy and the move of the tail
-- under the lock are as one step.
pub add-locked :
    (cf : ConcurrentFifo) (item : List ℕ)
    → ((cf.a_lck ≢ 0) → (fifo_add cf item).1.a ≡ cf.a)
      × ((cf.b_lck ≢ 0) → (fifo_add cf item).1.b ≡ cf.b)
unfolding fifo_add
add-locked cf item = (λ h. ground arith, λ h. ground arith)
