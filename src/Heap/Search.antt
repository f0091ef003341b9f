-- ===== src/Heap/Search.antt =====
-- The search of `avl_merge` for the free blocks that touch the block that comes back.
use lisp_machine.Common.{
  ℕ, zero, suc, ◌+◌, ◌<◌, ◌≤◌, ◌==◌, ltb, ◌⊎◌, inl, inr, ◌≡◌, ◌≢◌, refl, sym, ap, ◌∙◌,
}
use lisp_machine.Common.{true, Bool-cases, Option, none, some, arith}
use lisp_machine.Avl.{Entry, Balance, Tree, leaf, node, entries, height}
use lisp_machine.Heap.Blocks.{start, end, IsApart, AllClear, IsApart-split}
use lisp_machine.Heap.Merge.{Search, note_neighbour, pass_by, both_found, is_leaf, neighbours}
use lisp_machine.Heap.Touching.{
  ends_at, starts_at, AllClear-split, ends_left, starts_right, starts_here, starts_left, ends_here,
  ends_right,
}

abbrev pub first_of : Option Entry → Option Entry → Option Entry
first_of none o = o
first_of (some x) o = some x

first_of-none : (o : Option Entry) → o ≡ first_of o none
first_of-none none = refl
first_of-none (some x) = refl

module _ (addr size : ℕ) (pos : 0 < size) where
  -- The search is under way: what has been found is not looked for any more.
  pub record OnTheWay (s : Search) : Type 0 where
    pub apart : IsApart (entries s.tree)
    pub clear : AllClear addr size (entries s.tree)
    pub found_before : s.before_it ≢ none → ends_at addr (entries s.tree) ≡ none
    pub found_behind : s.behind_it ≢ none → starts_at (addr + size) (entries s.tree) ≡ none

  abbrev pub all_before : Search → Option Entry
  all_before s = first_of s.before_it (ends_at addr (entries s.tree))

  abbrev pub all_behind : Search → Option Entry
  all_behind s = first_of s.behind_it (starts_at (addr + size) (entries s.tree))

  record Progress (s s' : Search) : Type 0 where
    on : OnTheWay s'
    same_before : all_before s' ≡ all_before s
    same_behind : all_behind s' ≡ all_behind s
    lower : height s'.tree ≤ height s.tree

  stay : (s : Search) → OnTheWay s → Progress s s
  stay s h = record { on = h; same_before = refl; same_behind = refl; lower = omega arith }

  -- Into a subtree that has all that the tree has.
  into :
      (s : Search) (t : Tree)
      → OnTheWay s
      → IsApart (entries t)
      → AllClear addr size (entries t)
      → ends_at addr (entries s.tree) ≡ ends_at addr (entries t)
      → starts_at (addr + size) (entries s.tree) ≡ starts_at (addr + size) (entries t)
      → height t ≤ height s.tree
      → Progress s (record s { tree = t })
  into s t h ap_t cl es ss le = record {
    on = record {
      apart = ap_t;
      clear = cl;
      found_before = λ f. sym es ∙ h.found_before f;
      found_behind = λ f. sym ss ∙ h.found_behind f;
    };
    same_before = ap (λ o. first_of s.before_it o) (sym es);
    same_behind = ap (λ o. first_of s.behind_it o) (sym ss);
    lower = le;
  }

  pass_by-Progress : (s : Search) → OnTheWay s → Progress s (pass_by addr (addr + size) s)
  unfolding pass_by
  pass_by-Progress s h = go s.before_it s.behind_it s.tree h
    where
      go :
          (o1 o2 : Option Entry) (t : Tree)
          → OnTheWay (record { before_it = o1; behind_it = o2; tree = t })
          → let s' : Search = record { before_it = o1; behind_it = o2; tree = t } in
            Progress s' (pass_by addr (addr + size) s')
      go o1 o2 leaf h = stay (record { before_it = o1; behind_it = o2; tree = leaf }) h
      go o1 o2 (node x b l r) h =
          let s' : Search = record { before_it = o1; behind_it = o2; tree = node x b l r } in
          let (_, al, _, ar) = IsApart-split (entries l) x (entries r) h.apart in
          let (cl, _, cr) = AllClear-split addr size (entries l) x (entries r) h.clear in
          elim (Bool-cases (ltb (addr + size) x.addr)) [
            | inl above ↦ rw above (
                into s' l h al cl (ends_left addr size pos x b l r h.apart (ground arith))
                  (starts_left addr size pos x b l r h.apart (ground arith)) (omega arith))
            | inr not_above ↦ elim (Bool-cases (ltb (x.addr + x.data_word) addr)) [
              | inl below ↦
                  rw (not_above, below)
                    (into s' r h ar cr (ends_right addr size pos x b l r h.apart (ground arith))
                      (starts_right addr size pos x b l r h.apart (ground arith)) (omega arith))
              | inr touches ↦ rw (not_above, touches) (stay s' h)
            ]
          ]

  -- A neighbour that the tree still has cannot have been found before.
  first_of-some :
      (o p : Option Entry) (x : Entry) → (o ≢ none → p ≡ none) → p ≡ some x → first_of o p ≡ some x
  first_of-some none p x h e = e
  first_of-some (some y) p x h e =
      let bad : Path (Option Entry) (some x) none = sym e ∙ h (λ f. cc) in absurd (cc)

  note_behind :
      (o1 o2 : Option Entry) (x : Entry) (b : Balance) (l r : Tree)
      → let s : Search = record { before_it = o1; behind_it = o2; tree = node x b l r } in
        OnTheWay s
        → start x ≡ addr + size
        → Progress s (record { before_it = o1; behind_it = some x; tree = l })
  note_behind o1 o2 x b l r h e =
      let (_, al, _, ar) = IsApart-split (entries l) x (entries r) h.apart in
      let (cl, _, cr) = AllClear-split addr size (entries l) x (entries r) h.clear in
      let ends = ends_left addr size pos x b l r h.apart (omega arith) in
      let (here, gone) = starts_here addr size pos x b l r h.apart e in
      record {
        on = record {
          apart = al;
          clear = cl;
          found_before = λ f. sym ends ∙ h.found_before f;
          found_behind = λ f. gone;
        };
        same_before = ap (λ o. first_of o1 o) (sym ends);
        same_behind = sym (
            first_of-some o2 (starts_at (addr + size) (entries (node x b l r))) x h.found_behind
              here);
        lower = omega arith;
      }

  note_before :
      (o1 o2 : Option Entry) (x : Entry) (b : Balance) (l r : Tree)
      → let s : Search = record { before_it = o1; behind_it = o2; tree = node x b l r } in
        OnTheWay s
        → end x ≡ addr
        → Progress s (record { before_it = some x; behind_it = o2; tree = r })
  note_before o1 o2 x b l r h e =
      let (_, al, _, ar) = IsApart-split (entries l) x (entries r) h.apart in
      let (cl, _, cr) = AllClear-split addr size (entries l) x (entries r) h.clear in
      let starts = starts_right addr size pos x b l r h.apart (omega arith) in
      let (here, gone) = ends_here addr size pos x b l r h.apart e in
      record {
        on = record {
          apart = ar;
          clear = cr;
          found_before = λ f. gone;
          found_behind = λ f. sym starts ∙ h.found_behind f;
        };
        same_before =
            sym (first_of-some o1 (ends_at addr (entries (node x b l r))) x h.found_before here);
        same_behind = ap (λ o. first_of o2 o) (sym starts);
        lower = omega arith;
      }

  pass_by-down :
      (o1 o2 : Option Entry) (x : Entry) (b : Balance) (l r : Tree)
      → (end x < addr) ⊎ (addr + size < start x)
      → let s : Search = record { before_it = o1; behind_it = o2; tree = node x b l r } in
        height (pass_by addr (addr + size) s).tree < height s.tree
  unfolding pass_by
  pass_by-down o1 o2 x b l r c = elim (Bool-cases (ltb (addr + size) x.addr)) [
    | inl above ↦ rw above (omega arith)
    | inr not_above ↦
        (let below : ltb (x.addr + x.data_word) addr ≡ true = ground arith in
          rw (not_above, below) (omega arith))
  ]

  -- One round of the search goes down by one node at least.
  record Round (s s' : Search) : Type 0 where
    progress : Progress s s'
    down : height s'.tree < height s.tree

  round :
      (o1 o2 : Option Entry) (x : Entry) (b : Balance) (l r : Tree)
      → let s : Search = record { before_it = o1; behind_it = o2; tree = node x b l r } in
        OnTheWay s → Round s (pass_by addr (addr + size) (note_neighbour addr (addr + size) s))
  unfolding note_neighbour pass_by
  round o1 o2 x b l r h =
      let s : Search = record { before_it = o1; behind_it = o2; tree = node x b l r } in
      let (cl, c, cr) = AllClear-split addr size (entries l) x (entries r) h.clear in
      elim (Bool-cases (x.addr == addr + size)) [
        | inl behind ↦
            (let p = note_behind o1 o2 x b l r h (ground arith) in
              let s1 : Search = record { before_it = o1; behind_it = some x; tree = l } in
              rw behind (after s s1 p (omega arith)))
        | inr not_behind ↦ elim (Bool-cases (x.addr + x.data_word == addr)) [
          | inl before ↦
              (let p = note_before o1 o2 x b l r h (ground arith) in
                let s1 : Search = record { before_it = some x; behind_it = o2; tree = r } in
                rw (not_behind, before) (after s s1 p (omega arith)))
          | inr not_before ↦
              (let away : (end x < addr) ⊎ (addr + size < start x) = ground arith in
                rw (not_behind, not_before)
                  (record {
                    progress = pass_by-Progress s h;
                    down = pass_by-down o1 o2 x b l r away;
                  }))
        ]
      ]
    where
      after :
          (s s1 : Search)
          → Progress s s1
          → height s1.tree < height s.tree
          → Round s (pass_by addr (addr + size) s1)
      after s s1 p lt =
          let q = pass_by-Progress s1 p.on in
          record {
            progress = record {
              on = q.on;
              same_before = q.same_before ∙ p.same_before;
              same_behind = q.same_behind ∙ p.same_behind;
              lower = omega (arith, q.lower, p.lower);
            };
            down = omega (arith, q.lower);
          }

  -- The search ends with the blocks that touch the given one on either side.
  pub record Ended (s s' : Search) : Type 0 where
    pub before_found : s'.before_it ≡ all_before s
    pub behind_found : s'.behind_it ≡ all_behind s

  -- Fuel above the height is enough, since every round goes down.
  pub neighbours_lem :
      (fuel : ℕ) (s : Search)
      → OnTheWay s
      → height s.tree < fuel
      → (s' : Search) × (neighbours fuel addr (addr + size) s ≡ some s') × Ended s s'
  unfolding neighbours both_found is_leaf
  neighbours_lem zero s h lt = absurd (omega arith)
  neighbours_lem (suc fuel) s h lt =
      go s.before_it s.behind_it s.tree h lt (λ s'. neighbours_lem fuel s')
    where
      further :
          (s0 : Search)
          → let s1 = pass_by addr (addr + size) (note_neighbour addr (addr + size) s0) in
            Round s0 s1
            → height s0.tree < suc fuel
            → ((s1 : Search)
                → OnTheWay s1
                → height s1.tree < fuel
                → (s' : Search) × (neighbours fuel addr (addr + size) s1 ≡ some s') × Ended s1 s')
            → (s' : Search) × (neighbours fuel addr (addr + size) s1 ≡ some s') × Ended s0 s'
      further s0 r lt rest =
          let s1 = pass_by addr (addr + size) (note_neighbour addr (addr + size) s0) in
          let (s', eq, e) = rest s1 r.progress.on (omega (arith, r.down)) in
          (
            s',
            eq,
            record {
              before_found = e.before_found ∙ r.progress.same_before;
              behind_found = e.behind_found ∙ r.progress.same_behind;
            },
          )

      go :
          (o1 o2 : Option Entry) (t : Tree)
          → let s0 : Search = record { before_it = o1; behind_it = o2; tree = t } in
            OnTheWay s0
            → height t < suc fuel
            → ((s1 : Search)
                → OnTheWay s1
                → height s1.tree < fuel
                → (s' : Search) × (neighbours fuel addr (addr + size) s1 ≡ some s') × Ended s1 s')
            → (s' : Search) × (neighbours (suc fuel) addr (addr + size) s0 ≡ some s') × Ended s0 s'
      go o1 o2 leaf h lt rest = (
        record { before_it = o1; behind_it = o2; tree = leaf },
        refl,
        record { before_found = first_of-none o1; behind_found = first_of-none o2 },
      )
      go (some y) (some z) (node x b l r) h lt rest = (
        record { before_it = some y; behind_it = some z; tree = node x b l r },
        refl,
        record { before_found = refl; behind_found = refl },
      )
      go none o2 (node x b l r) h lt rest =
          further (record { before_it = none; behind_it = o2; tree = node x b l r })
            (round none o2 x b l r h) lt rest
      go (some y) none (node x b l r) h lt rest =
          further (record { before_it = some y; behind_it = none; tree = node x b l r })
            (round (some y) none x b l r h) lt rest
