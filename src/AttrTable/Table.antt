-- ===== src/AttrTable/Table.antt =====
-- The operations on the attribute block, against the set of its bindings.
use prothon.Base.{
  [], ◌∷◌, ℕ, ◌+◌, ◌-◌, ◌*◌, ◌/◌, ◌^◌, ◌≤◌, ◌<◌, ◌≡◌, refl, sym, ap, ◌∙◌, ◌≢◌, ◌↔◌, ◌⊎◌, inl, inr,
  true, false, some, arith, ◌==◌, if◌then◌else◌, Bool-cases, length,
}
use prothon.AttrTable.{
  deleted, live, Slots, write, Attrs, attrs_realloc, put_attr, is_crowded, set_in_attrs,
  del_in_attrs, grown_asize, percent_of, attrs_pad_percent_factor, attrs_proto_padding, target,
  no_proto,
}
use prothon.AttrTable.Probe.{Ends-of_empty}
use prothon.AttrTable.Placed.{IsPlaced, find-live, live_unique, delete-IsPlaced}
use prothon.AttrTable.Count.{
  weight_used, weight_live, total, total-write, HasEmpty, has_empty, HasEmpty-of_lt,
}
use prothon.AttrTable.Insert.{Holds, holds, put-Puts}
use prothon.AttrTable.Rehash.{rehash-cleared}

-- The invariant of the block: every live slot is where the probe of its key finds it, and `alen`
-- counts the live slots.
pub record IsTable (a : Attrs) : Type 0 where
  pub placed : IsPlaced a.slots a.asize
  pub sized : 8 ≤ a.asize
  pub counted : total weight_live a.slots a.asize ≡ a.alen

-- The object has the attribute `k` with the value `v`.
abbrev pub Binds : Attrs → (k v : ℕ) → Type 0
Binds a k v = Holds a.slots a.asize k v

-- `a` and `b` have the same attributes.
abbrev pub SameBindings : Attrs → Attrs → Type 0
SameBindings a b = (k v : ℕ) → Binds a k v ↔ Binds b k v

-- A slot that was never used is left, so every probe ends.
abbrev pub Open : Attrs → Type 0
Open a = HasEmpty a.slots a.asize

-- The attributes of `b` are those of `a`, with `k` set to `v`.
pub record Sets (a : Attrs) (k v : ℕ) (b : Attrs) : Type 0 where
  pub bound : Binds b k v
  pub kept : (j w : ℕ) → k ≢ j → Binds a j w ↔ Binds b j w

-- One more attribute at most, and a slot more in use for it at most.
pub record Grows (a b : Attrs) : Type 0 where
  pub same_size : b.asize ≡ a.asize
  pub one_more : b.alen ≤ a.alen + 1
  pub used : total weight_used b.slots b.asize + a.alen ≤ total weight_used a.slots a.asize + b.alen

-- The product in `attrs_realloc` does not overflow.
abbrev pub CanGrow : Attrs → Type 0
CanGrow a = a.alen * attrs_pad_percent_factor < 2 ^ 31

percent_of-lem : (n : ℕ) → n * 300 < 2 ^ 31 → percent_of n 300 ≡ n * 300 / 100
percent_of-lem n h = ground (arith, h)

grown_asize-lt : (n : ℕ) → n * 300 < 2 ^ 31 → (n + 1 < grown_asize n) × (8 ≤ grown_asize n)
grown_asize-lt n h = (omega (arith, percent_of-lem n h), omega arith)

-- Building a well-formed table anew, whose length the product by 300 keeps below 2 ^ 31, ends and gives a well-formed
-- table with the same prototypes and attributes; no slot of it is a deleted one, two at least were never used, and there is room
-- for one more prototype, in a cleared entry.
pub attrs_realloc-lem :
    (a : Attrs)
    → IsTable a
    → CanGrow a
    → (b : Attrs) × (attrs_realloc a ≡ some b)
      × IsTable b
      × SameBindings a b
      × (total weight_used b.slots b.asize ≡ b.alen)
      × (b.alen + 1 < b.asize)
      × (b.protos ≡ a.protos)
      × (b.spare ≡ no_proto ∷ [])
      × (b.psize ≡ length a.protos + 1)
unfolding attrs_realloc
attrs_realloc-lem a t g =
    let (more, least) = grown_asize-lt a.alen g in
    let (s, run, m) =
      rehash-cleared (grown_asize a.alen) t.placed (omega (arith, t.counted, more)) in
    (
      record {
        psize = length a.protos + attrs_proto_padding;
        protos = a.protos;
        spare = no_proto ∷ [];
        asize = grown_asize a.alen;
        alen = a.alen;
        slots = s;
      },
      rw run,
      record { placed = m.placed; sized = least; counted = omega (arith, m.lives, t.counted) },
      λ k v. (m.to_new k v, m.to_old k v),
      omega (arith, m.used, t.counted),
      more,
      refl,
      refl,
      refl,
    )

pub put_attr-lem :
    (a : Attrs) (k v : ℕ)
    → 0 < k
    → IsTable a
    → Open a
    → (b : Attrs) × (put_attr a k v ≡ some b) × IsTable b × Sets a k v b × Grows a b
unfolding put_attr
put_attr-lem a k v z t (has_empty p lt e) =
    let not_zero : (k == 0) ≡ false = ground (arith, z) in
    let (l, run, put) = put-Puts v t.placed z (Ends-of_empty a.slots a.asize k p lt e) in
    (
      record a {
        alen = if l.matched then a.alen else a.alen + 1;
        slots = write a.slots (target l) (live k v);
      },
      rw (run, not_zero) refl,
      record {
        placed = put.placed;
        sized = t.sized;
        counted = ground (arith, put.counted, t.counted);
      },
      record { bound = put.bound; kept = put.kept },
      record { same_size = refl; one_more = ground arith; used = ground (arith, put.used) },
    )

pub Sets-after : {a b c : Attrs} {k v : ℕ} → SameBindings a b → Sets b k v c → Sets a k v c
Sets-after same s = record {
  bound = s.bound;
  kept =
      λ j x ne. (λ g. (s.kept j x ne).0 ((same j x).0 g), λ g. (same j x).1 ((s.kept j x ne).1 g));
}

-- In a well-formed table that has a slot that was never used or is crowded enough to be built
-- anew, and that can grow, setting an attribute with a positive key ends, gives a well-formed table, binds the attribute and changes no
-- other one.
pub set_in_attrs-lem :
    (a : Attrs) (k v : ℕ)
    → 0 < k
    → IsTable a
    → CanGrow a
    → (is_crowded a ≡ true) ⊎ Open a
    → (b : Attrs) × (set_in_attrs a k v ≡ some b) × IsTable b × Sets a k v b
unfolding set_in_attrs
set_in_attrs-lem a k v z t more way = elim (Bool-cases (is_crowded a)) [
  | inl h ↦
      let (b, run, u, same, used, room, _, _, _) = attrs_realloc-lem a t more in
      let (c, run', w, s, _) =
        put_attr-lem b k v z u (HasEmpty-of_lt b.slots b.asize (omega arith)) in
      (c, rw (h, run, run'), w, Sets-after same s)
  | inr h ↦ let (c, run, w, s, _) = put_attr-lem a k v z t (opened h way) in (c, rw (h, run), w, s)
]
  where
    opened : is_crowded a ≡ false → (is_crowded a ≡ true) ⊎ Open a → Open a
    opened h (inl g) = cc
    opened h (inr o) = o

-- Deleting an attribute that a well-formed table binds succeeds, gives a well-formed table,
-- unbinds the attribute and changes no other one.
pub del_in_attrs-lem :
    (a : Attrs) (k v : ℕ)
    → IsTable a
    → Binds a k v
    → (b : Attrs) × (del_in_attrs a k ≡ some (true, b))
      × IsTable b
      × ((w : ℕ) → ¬ Binds b k w)
      × ((j w : ℕ) → k ≢ j → Binds a j w ↔ Binds b j w)
unfolding del_in_attrs
del_in_attrs-lem a k v t (holds p lt e) = (
  record a { alen = a.alen - 1; slots = s' },
  rw (del_in_attrs, find-live t.placed p k v lt e, e),
  record {
    placed = delete-IsPlaced p v t.placed;
    sized = t.sized;
    counted = omega (
      arith,
      t.counted,
      total-write weight_live a.slots a.asize p (deleted v) lt,
      ap weight_live e,
    );
  },
  λ w h. gone w h,
  λ j w ne. (λ h. to j w ne h, λ h. from j w h),
)
  where
    s' : Slots
    s' = write a.slots p (deleted v)

    gone : (w : ℕ) → ¬ Holds s' a.asize k w
    gone w (holds q lq eq) = elim (Bool-cases (p == q)) [
      | inl h ↦ cc (rw h at eq)
      | inr h ↦
          let same : q ≡ p = live_unique t.placed q p k w v lq lt (rw h at eq) e in ground arith
    ]

    to : (j w : ℕ) → k ≢ j → Holds a.slots a.asize j w → Holds s' a.asize j w
    to j w ne (holds q lq eq) = elim (Bool-cases (p == q)) [
      | inl h ↦
          let same : p ≡ q = ground arith in
          let pair : live k v ≡ live j w = sym e ∙ rw (← same) at eq in absurd (ne (cc pair))
      | inr h ↦ holds q lq (rw h eq)
    ]

    from : (j w : ℕ) → Holds s' a.asize j w → Holds a.slots a.asize j w
    from j w (holds q lq eq) = elim (Bool-cases (p == q)) [
      | inl h ↦ cc (rw h at eq)
      | inr h ↦ holds q lq (rw h at eq)
    ]
