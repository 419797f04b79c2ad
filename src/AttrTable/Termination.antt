-- ===== src/AttrTable/Termination.antt =====
-- When the probing loops of src/object.c end, in a table where nothing was deleted and in one that
-- has no slot left that was never used.
use prothon.Base.{
  ℕ, zero, suc, ◌+◌, ◌*◌, ◌^◌, ◌/◌, ◌%◌, ◌≤◌, ◌<◌, ◌≡◌, refl, sym, ap, ◌∙◌, ◌≢◌, inl, inr, false,
  Option, none, some, arith, Bool-cases,
}
use native.Mathlib.Nat.{mod-lt, div-add-mod}
use prothon.AttrTable.{
  Slot, empty, deleted, live, Slots, Attrs, is_crowded, set_in_attrs, find, seek,
}
use prothon.AttrTable.Probe.{Pass}
use prothon.AttrTable.Walk.{last_hole, find-Pass, seek-Pass}
use prothon.AttrTable.Count.{weight_used, total, HasEmpty-of_lt}
use prothon.AttrTable.Insert.{Holds, holds}
use prothon.AttrTable.Table.{
  IsTable, Open, Sets, Sets-after, CanGrow, attrs_realloc-lem, put_attr-lem,
}

-- A table in which no attribute was ever deleted: only live slots are in use, and some are free.
pub record IsFresh (a : Attrs) : Type 0 where
  pub table : IsTable a
  pub used : total weight_used a.slots a.asize ≤ a.alen
  pub room : a.alen < a.asize

pub Open-of_fresh : (a : Attrs) → IsFresh a → Open a
Open-of_fresh a f = HasEmpty-of_lt a.slots a.asize (omega (arith, f.used, f.room))

mul-le : (n q : ℕ) → q ≤ 66 → n * q ≤ 66 * n
mul-le n q h = grind arith

-- The load that `set_attr` tolerates leaves room for two more.
room-of_uncrowded : (a : Attrs) → 8 ≤ a.asize → is_crowded a ≡ false → a.alen + 1 < a.asize
room-of_uncrowded a h e =
    let q = a.alen * 100 / a.asize in
    let small : q ≤ 66 = ground arith in
    omega (
      arith,
      mul-le a.asize q small,
      div-add-mod (a.alen * 100) a.asize,
      mod-lt (a.alen * 100) {m = a.asize} (omega arith),
    )

-- In a well-formed table without deleted slots and with a free one, whose length the product by 300
-- keeps below 2 ^ 31, setting an attribute with a positive key always ends, binds the attribute, changes no other one, and leaves a table of the same kind, which has
-- a slot that was never used.
pub set_in_attrs-IsFresh :
    (a : Attrs) (k v : ℕ)
    → 0 < k
    → IsFresh a
    → CanGrow a
    → (b : Attrs) × (set_in_attrs a k v ≡ some b) × IsFresh b × Sets a k v b × Open b
unfolding set_in_attrs
set_in_attrs-IsFresh a k v z f more = elim (Bool-cases (is_crowded a)) [
  | inl h ↦
      let (b, run, t, same, used, room, _, _, _) = attrs_realloc-lem a f.table more in
      let o = HasEmpty-of_lt b.slots b.asize (omega arith) in
      let (c, run', w, s, g) = put_attr-lem b k v z t o in
      let fresh : IsFresh c = record {
        table = w;
        used = omega (arith, g.used);
        room = omega (arith, g.one_more, g.same_size);
      } in
      (c, rw (h, run, run'), fresh, Sets-after same s, Open-of_fresh c fresh)
  | inr h ↦
      let (c, run, w, s, g) = put_attr-lem a k v z f.table (Open-of_fresh a f) in
      let spare = room-of_uncrowded a f.table.sized h in
      let fresh : IsFresh c = record {
        table = w;
        used = omega (arith, g.used, f.used);
        room = omega (arith, g.one_more, g.same_size);
      } in
      (c, rw (h, run), fresh, s, Open-of_fresh c fresh)
]

-- No slot below `n` is one that was never used.
pub data IsFull (s : Slots) (n : ℕ) : Type 0 where
  full : ((p : ℕ) → p < n → s p ≢ empty) → IsFull s n

Pass-of : {k : ℕ} (x : Slot) → x ≢ empty → ((w : ℕ) → x ≢ live k w) → Pass k x
Pass-of empty h free = h refl
Pass-of (deleted v) h free = tt
Pass-of (live j v) h free = λ e. free v (ap (λ y. live y v) (sym e))

-- A search for a key that is not bound, in a table that has slots but none that was never used, is
-- still running after every number of rounds in which its index stays below 2 ^ 31, both in the loop of
-- `get_attr`, `del_attr` and `attr_value_by_key` and in that of `set_attr`.
pub search-loops :
    (s : Slots) (n k : ℕ)
    → 0 < n
    → IsFull s n
    → ((w : ℕ) → ¬ Holds s n k w)
    → (fuel i : ℕ) (hole : Option ℕ) → i + fuel ≤ 2 ^ 31
    → (find fuel s n k i ≡ none) × (seek fuel s n k hole i ≡ none)
unfolding find seek
search-loops s n k pos f free zero i hole few = (refl, refl)
search-loops s n k pos (full f) free (suc fuel) i hole few =
    let lt : i % n < n = mod-lt i pos in
    let goes = Pass-of (s (i % n)) (f (i % n) lt) (λ w e. free w (holds (i % n) lt e)) in
    let ih =
      λ (o : Option ℕ). search-loops s n k pos (full f) free fuel (i + 1) o (omega (arith, few)) in
    (
      find-Pass s n k fuel i goes ∙ (ih hole).0,
      seek-Pass s n k fuel i hole goes ∙ (ih (last_hole s n hole 1 i)).1,
    )
