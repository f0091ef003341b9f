-- ===== src/Heap/Sides.antt =====
-- The free blocks on the two sides of a block that comes back.
use mathlib.Core.Path.{subst}
use lisp_machine.Common.{ℕ, ◌+◌, ◌<◌, ◌≤◌, ◌==◌, ltb, ==_ne, inl, inr, ◌≡◌, refl, ap}
use lisp_machine.Common.{Bool-cases, Option, none, some, List, [], ◌∷◌, ◌++◌, arith}
use lisp_machine.Avl.{Entry}
use lisp_machine.Heap.Blocks.{
  start, end, AllFrom, AllUpTo, IsApart, AllClear, AllFrom-weaken, AllFrom-split,
}
use lisp_machine.Heap.Touching.{ends_at, starts_at, ends_at-AllFrom, starts_at-AllFrom}

-- The block on a side, if it touches, and what the joined block begins and ends with.
abbrev pub opt : Option Entry → List Entry
opt none = []
opt (some x) = x ∷ []

abbrev pub first_word : ℕ → Option Entry → ℕ
first_word addr none = addr
first_word addr (some x) = start x

abbrev pub last_word : ℕ → Option Entry → ℕ
last_word amax none = amax
last_word amax (some y) = end y

abbrev pub EndsAt : ℕ → Option Entry → Type 0
EndsAt addr none = Unit
EndsAt addr (some x) = end x ≡ addr

abbrev pub StartsAt : ℕ → Option Entry → Type 0
StartsAt amax none = Unit
StartsAt amax (some y) = start y ≡ amax

module _ (addr size : ℕ) (pos : 0 < size) where
  -- What lies behind the block.
  pub record Behind (es : List Entry) : Type 0 where
    pub after : Option Entry
    pub hi : List Entry
    pub whole : es ≡ opt after ++ hi
    pub touch : StartsAt (addr + size) after
    pub high : AllFrom (last_word (addr + size) after) hi
    pub apart : IsApart hi
    pub starts : starts_at (addr + size) es ≡ after

  Behind-of : (es : List Entry) → IsApart es → AllClear addr size es → AllFrom addr es → Behind es
  Behind-of [] h c f = record {
    after = none;
    hi = [];
    whole = refl;
    touch = tt;
    high = tt;
    apart = tt;
    starts = refl;
  }
  Behind-of (y ∷ es) (a, h) (c, cs) (lt, f) = elim (Bool-cases (start y == addr + size)) [
    | inl hit ↦ record {
      after = some y;
      hi = es;
      whole = refl;
      touch = ground arith;
      high = a;
      apart = h;
      starts = rw hit refl;
    }
    | inr miss ↦
        (let beyond : addr + size < start y = ground arith in
          record {
            after = none;
            hi = y ∷ es;
            whole = refl;
            touch = tt;
            high = (beyond, AllFrom-weaken (addr + size) (end y) es (omega arith) a);
            apart = (a, h);
            starts = rw miss (starts_at-AllFrom (addr + size) (end y) es (omega arith) a);
          })
  ]

  -- Both sides.
  pub record Sides (es : List Entry) : Type 0 where
    pub lo : List Entry
    pub before : Option Entry
    pub after : Option Entry
    pub hi : List Entry
    pub whole : es ≡ lo ++ (opt before ++ (opt after ++ hi))
    pub low : AllUpTo (first_word addr before) lo
    pub high : AllFrom (last_word (addr + size) after) hi
    pub apart_lo : IsApart lo
    pub apart_hi : IsApart hi
    pub touch_before : EndsAt addr before
    pub touch_after : StartsAt (addr + size) after
    pub ends : ends_at addr es ≡ before
    pub starts : starts_at (addr + size) es ≡ after

  end-lt-first_word :
      (x : Entry) (lo : List Entry) (before : Option Entry) (rest : List Entry)
      → end x < addr
      → AllFrom (end x) (lo ++ (opt before ++ rest))
      → end x < first_word addr before
  end-lt-first_word x lo none rest lt f = lt
  end-lt-first_word x lo (some z) rest lt f =
      let (_, (zlt, _)) = AllFrom-split (end x) lo (z ∷ rest) f in zlt

  pub Sides-of : (es : List Entry) → IsApart es → AllClear addr size es → Sides es
  Sides-of [] h c = record {
    lo = [];
    before = none;
    after = none;
    hi = [];
    whole = refl;
    low = tt;
    high = tt;
    apart_lo = tt;
    apart_hi = tt;
    touch_before = tt;
    touch_after = tt;
    ends = refl;
    starts = refl;
  }
  Sides-of (x ∷ es) (a, h) (c, cs) = elim (Bool-cases (ltb (end x) addr)) [
    | inl under ↦
        (let s = Sides-of es h cs in
          let lt : end x < addr = ground arith in
          let all = subst (λ ts. AllFrom (end x) ts) s.whole a in
          let (lo_from, _) =
            AllFrom-split (end x) s.lo (opt s.before ++ (opt s.after ++ s.hi)) all in
          record {
            lo = x ∷ s.lo;
            before = s.before;
            after = s.after;
            hi = s.hi;
            whole = ap (λ ts. x ∷ ts) s.whole;
            low = (end-lt-first_word x s.lo s.before (opt s.after ++ s.hi) lt all, s.low);
            high = s.high;
            apart_lo = (lo_from, s.apart_lo);
            apart_hi = s.apart_hi;
            touch_before = s.touch_before;
            touch_after = s.touch_after;
            ends = rw (==_ne (end x) addr (omega arith)) s.ends;
            starts = rw (==_ne (start x) (addr + size) (omega arith)) s.starts;
          })
    | inr over ↦ elim (Bool-cases (end x == addr)) [
      | inl hit ↦
          (let e : end x ≡ addr = ground arith in
            let b = Behind-of es h cs (AllFrom-weaken addr (end x) es (omega arith) a) in
            record {
              lo = [];
              before = some x;
              after = b.after;
              hi = b.hi;
              whole = ap (λ ts. x ∷ ts) b.whole;
              low = tt;
              high = b.high;
              apart_lo = tt;
              apart_hi = b.apart;
              touch_before = e;
              touch_after = b.touch;
              ends = rw hit refl;
              starts = rw (==_ne (start x) (addr + size) (omega arith)) b.starts;
            })
      | inr miss ↦
          (let beyond : addr + size ≤ start x = ground arith in
            let b =
              Behind-of (x ∷ es) (a, h) (c, cs)
                (omega arith, AllFrom-weaken addr (end x) es (omega arith) a) in
            record {
              lo = [];
              before = none;
              after = b.after;
              hi = b.hi;
              whole = b.whole;
              low = tt;
              high = b.high;
              apart_lo = tt;
              apart_hi = b.apart;
              touch_before = tt;
              touch_after = b.touch;
              ends = rw miss (ends_at-AllFrom addr (end x) es (omega arith) a);
              starts = b.starts;
            })
    ]
  ]
