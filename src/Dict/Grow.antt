-- ===== src/Dict/Grow.antt =====
-- The rebuilding of a dictionary by `dict_realloc`.
use native.Mathlib.Nat.{mod-lt}
use prothon.Base.{
  ◌*◌, ◌/◌, ◌^◌, ℕ, zero, suc, ◌+◌, ◌%◌, ◌≤◌, ◌<◌, ◌≡◌, refl, sym, ap, ◌∙◌, ◌≢◌, ◌↔◌, inl, inr,
  some, arith, ◌==◌, Bool-cases,
}
use prothon.AttrTable.{write, percent_of}
use prothon.AttrTable.Count.{total, total-write}
use prothon.AttrTable.Probe.{dist, add-dist, dist-lt}
use prothon.Dict.{
  Entry, empty, deleted, live, Entries, Dict, move_entry, rehash, grown_size, cleared, dict_realloc,
  dict_pad_percent_factor,
}
use prothon.Dict.Walk.{IsUsed}
use prothon.Dict.Placed.{Binds, binds, IsPlaced, HasEmpty, has_empty, write_self, put-IsPlaced}
use prothon.Dict.Vacant.{used, total-cleared, empty_of_lt, vacant-lem}

-- The new table holds the entries of the old one below `i`, in at most `i` of its entries.
record Moved (id : ℕ → ℕ) (old : Entries) (m i : ℕ) (s : Entries) (n : ℕ) : Type 0 where
  placed : IsPlaced id s n
  holds : (g c w : ℕ) → Binds id s n g c w ↔ Binds id old i g c w
  fill : total used s n ≤ i

module _ (id : ℕ → ℕ) {old : Entries} {m : ℕ} (t : IsPlaced id old m) where
  Binds-skip :
      (i : ℕ)
      → ((h k v : ℕ) → old i ≢ live h k v)
      → (g c w : ℕ) → Binds id old i g c w ↔ Binds id old (i + 1) g c w
  Binds-skip i dead g c w = (to, from)
    where
      to : Binds id old i g c w → Binds id old (i + 1) g c w
      to (binds p k lt e ek) = binds p k (omega arith) e ek

      from : Binds id old (i + 1) g c w → Binds id old i g c w
      from (binds p k lt e ek) = elim (Bool-cases (p == i)) [
        | inl x ↦ let same : p ≡ i = ground arith in absurd (dead g k w (rw same at e))
        | inr x ↦ binds p k (ground (arith, lt, x)) e ek
      ]

  Moved-skip :
      {i : ℕ} {s : Entries} {n : ℕ}
      → ((h k v : ℕ) → old i ≢ live h k v)
      → Moved id old m i s n
      → Moved id old m (i + 1) s n
  Moved-skip {i} dead r = record {
    placed = r.placed;
    holds = λ g c w.
        let a = r.holds g c w in
        let b = Binds-skip i dead g c w in (λ x. b.0 (a.0 x), λ x. a.1 (b.1 x));
    fill = omega (arith, r.fill);
  }

  Moved-put :
      {i : ℕ} {s : Entries} {n : ℕ} (h k v d : ℕ)
      → i < m
      → old i ≡ live h k v
      → d < n
      → s ((h + d) % n) ≡ empty
      → ((e : ℕ) → e < d → IsUsed (s ((h + e) % n)))
      → Moved id old m i s n
      → Moved id old m (i + 1) (write s ((h + d) % n) (live h k v)) n
  Moved-put {i} {s} {n} h k v d li at lt em before r = record {
    placed =
        put-IsPlaced id h k v d r.placed lt before
          (λ p j w lp e same. absurd (other p j w lp e same));
    holds = λ g c w. (to g c w, from g c w);
    fill = omega (arith, r.fill, total-write used s n q (live h k v) lq, ap used em);
  }
    where
      q : ℕ
      q = (h + d) % n

      lq : q < n
      lq = mod-lt (h + d) (omega arith)

      -- No entry of the new table has the key yet, since no other of the old table has it.
      from_old : (j w : ℕ) → id k ≡ id j → Binds id old i h (id j) w → ⊥
      from_old j w same (binds p l lp e el) =
          omega (arith, lp, t.unique p i h l w k v (omega arith) li e at (el ∙ sym same))

      other : (p j w : ℕ) → p < n → s p ≡ live h j w → id k ≡ id j → ⊥
      other p j w lp e same = from_old j w same ((r.holds h (id j) w).0 (binds p j lp e refl))

      to : (g c w : ℕ) → Binds id (write s q (live h k v)) n g c w → Binds id old (i + 1) g c w
      to g c w (binds p j lp e ej) = elim (Bool-cases (q == p)) [
        | inl x ↦
            let same : live h k v ≡ live g j w = rw x at e in binds i j (omega arith) (at ∙ same) ej
        | inr x ↦ weaken ((r.holds g c w).0 (binds p j lp (rw x at e) ej))
      ]
        where
          weaken : Binds id old i g c w → Binds id old (i + 1) g c w
          weaken (binds p j lp e ej) = binds p j (omega arith) e ej

      from : (g c w : ℕ) → Binds id old (i + 1) g c w → Binds id (write s q (live h k v)) n g c w
      from g c w (binds p j lp e ej) = elim (Bool-cases (p == i)) [
        | inl x ↦
            let same : p ≡ i = ground arith in
            let eq : live h k v ≡ live g j w = sym at ∙ (rw same at e) in
            binds q j lq (write_self id s q (live h k v) ∙ eq) ej
        | inr x ↦ keep ((r.holds g c w).1 (binds p j (ground (arith, lp, x)) e ej))
      ]
        where
          keep : Binds id s n g c w → Binds id (write s q (live h k v)) n g c w
          keep (binds p j lp e ej) = elim (Bool-cases (q == p)) [
            | inl x ↦ let same : q ≡ p = ground arith in cc (em, ap s same, e)
            | inr x ↦ binds p j lp (rw x e) ej
          ]

  move_entry-lem :
      (i : ℕ) (s : Entries) (n : ℕ)
      → i < m
      → m < n
      → Moved id old m i s n
      → (s' : Entries) × (move_entry s n (old i) ≡ some s') × Moved id old m (i + 1) s' n
  unfolding move_entry
  move_entry-lem i s n li room r = by_entry (old i) refl
    where
      by_entry :
          (x : Entry)
          → old i ≡ x
          → (s' : Entries) × (move_entry s n x ≡ some s') × Moved id old m (i + 1) s' n
      by_entry empty e = (s, refl, Moved-skip (λ h k v f. cc (e, f)) r)
      by_entry (deleted k v) e = (s, refl, Moved-skip (λ h l w f. cc (e, f)) r)
      by_entry (live h k v) e =
          let (p, lp, em) = empty_of_lt s n (omega (arith, r.fill)) in
          let (d, lt, run, free, before) =
            vacant-lem s n h n (dist n h p) (dist-lt n h p lp) (rw (add-dist n h p lp) em) in
          (write s ((h + d) % n) (live h k v), rw run refl, Moved-put h k v d li e lt free before r)

  rehash-lem :
      (r i : ℕ) (s : Entries) (n : ℕ)
      → i + r ≡ m
      → m < n
      → Moved id old m i s n
      → (s' : Entries) × (rehash r i old s n ≡ some s') × Moved id old m m s' n
  unfolding rehash
  rehash-lem zero i s n e room moved =
      let at : i ≡ m = omega (arith, e) in (s, refl, rw at at moved)
  rehash-lem (suc r) i s n e room moved =
      let (s', run, next) = move_entry-lem i s n (omega (arith, e)) room moved in
      let (s'', runs, done) = rehash-lem r (i + 1) s' n (omega (arith, e)) room next in
      (s'', rw run runs, done)

Moved-cleared : (id : ℕ → ℕ) (old : Entries) (m n : ℕ) → Moved id old m 0 cleared n
Moved-cleared id old m n = record {
  placed = record { placed = λ p h k v lt e. cc e; unique = λ p q h k v j w lp lq e f. cc e };
  holds = λ g c w. (none_new g c w, none_old g c w);
  fill = omega (arith, total-cleared n);
}
  where
    none_new : (g c w : ℕ) → Binds id cleared n g c w → Binds id old 0 g c w
    none_new g c w (binds p k lt e ek) = cc e

    none_old : (g c w : ℕ) → Binds id old 0 g c w → Binds id cleared n g c w
    none_old g c w (binds p k lt e ek) = elim lt [ ]

-- The product in `dict_realloc` does not overflow.
abbrev pub CanGrow : Dict → Type 0
CanGrow d = d.size * dict_pad_percent_factor < 2 ^ 31

grown_size-lt : (n : ℕ) → n * 300 < 2 ^ 31 → n < grown_size n
grown_size-lt n h = let e : percent_of n 300 ≡ n * 300 / 100 = ground (arith, h) in omega (arith, e)

-- `dict_realloc` of a dictionary in which every entry is found, and whose size the product by 300 keeps
-- below 2 ^ 31, ends, in a larger table that binds the same keys to the same values, and that has an entry that was never used.
pub dict_realloc-lem :
    (id : ℕ → ℕ) (d : Dict)
    → IsPlaced id d.entries d.size
    → CanGrow d
    → (b : Dict) × (dict_realloc d ≡ some b)
      × IsPlaced id b.entries b.size
      × HasEmpty id b.entries b.size
      × ((g c w : ℕ) → Binds id b.entries b.size g c w ↔ Binds id d.entries d.size g c w)
      × (b.len ≡ d.len)
      × (d.size < b.size)
unfolding dict_realloc
dict_realloc-lem id d t more =
    let room : d.size < grown_size d.size = grown_size-lt d.size more in
    let (s, run, moved) =
      rehash-lem id t d.size 0 cleared (grown_size d.size) (omega arith) room
        (Moved-cleared id d.entries d.size (grown_size d.size)) in
    let (p, lp, em) = empty_of_lt s (grown_size d.size) (omega (arith, moved.fill, room)) in
    (
      record { size = grown_size d.size; len = d.len; entries = s },
      rw run refl,
      moved.placed,
      has_empty p lp em,
      moved.holds,
      refl,
      room,
    )
