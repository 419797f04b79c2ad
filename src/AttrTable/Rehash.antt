-- ===== src/AttrTable/Rehash.antt =====
-- `attrs_realloc`: the copying loop builds a table with the same bindings and no deleted slot.
use prothon.Base.{
  ℕ, zero, suc, ◌+◌, ◌%◌, ◌<◌, ◌≡◌, refl, sym, ap, ◌∙◌, ◌≢◌, inl, inr, true, false, some, arith,
  ◌==◌, Bool-cases, ◌>>=◌,
}
use native.Mathlib.Nat.{mod-lt}
use prothon.AttrTable.{Slot, empty, deleted, live, Slots, write, cleared, vacant, move_slot, rehash}
use prothon.AttrTable.Probe.{Stop, Passes, Ends, ends, Ends-of_empty}
use prothon.AttrTable.Walk.{is_live, vacant-Passes}
use prothon.AttrTable.Placed.{IsPlaced, live_unique}
use prothon.AttrTable.Count.{
  weight_used, weight_live, total, total-write, total-cleared, HasEmpty, has_empty, HasEmpty-of_lt,
  total_mono,
}
use prothon.AttrTable.Insert.{Holds, holds, Puts, Puts-fresh}

-- The new table `s` of `n` slots after the first `i` slots of `old`.
pub record Moved (old : Slots) (i : ℕ) (s : Slots) (n : ℕ) : Type 0 where
  pub placed : IsPlaced s n
  pub to_old : (k v : ℕ) → Holds s n k v → Holds old i k v
  pub to_new : (k v : ℕ) → Holds old i k v → Holds s n k v
  pub used : total weight_used s n ≡ total weight_live old i
  pub lives : total weight_live s n ≡ total weight_live old i

not-Holds-cleared : (n k v : ℕ) → ¬ Holds cleared n k v
not-Holds-cleared n k v (holds p lt e) = cc e

Moved-zero : (old : Slots) (n : ℕ) → Moved old 0 cleared n
unfolding total
Moved-zero old n = record {
  placed = record { placed = λ p k v lt e. cc };
  to_old = λ k v h. absurd (not-Holds-cleared n k v h);
  to_new = λ k v h. none_below h;
  used = total-cleared weight_used n refl;
  lives = total-cleared weight_live n refl;
}
  where
    none_below : {k v : ℕ} → Holds old 0 k v → Holds cleared n k v
    none_below (holds p lt e) = elim lt [ ]

Holds-suc : {old : Slots} {i k v : ℕ} → Holds old i k v → Holds old (suc i) k v
Holds-suc (holds p lt e) = holds p (omega arith) e

-- A slot that is not live is passed over.
Moved-skip :
    {old s : Slots} {i n : ℕ}
    → Moved old i s n
    → is_live (old i) ≡ false
    → weight_live (old i) ≡ 0
    → Moved old (suc i) s n
unfolding total
Moved-skip {old} {s} {i} {n} m dead w = record {
  placed = m.placed;
  to_old = λ k v h. Holds-suc (m.to_old k v h);
  to_new = λ k v h. m.to_new k v (below h);
  used = omega (arith, m.used);
  lives = omega (arith, m.lives);
}
  where
    below : {k v : ℕ} → Holds old (suc i) k v → Holds old i k v
    below (holds p lt e) = elim (Bool-cases (p == i)) [
      | inl h ↦ let same : p ≡ i = ground arith in cc (ap is_live (rw same at e), dead)
      | inr h ↦ holds p (ground arith) e
    ]

-- Each key is bound to one value.
pub Holds-unique : {s : Slots} {n k v w : ℕ} → IsPlaced s n → Holds s n k v → Holds s n k w → v ≡ w
Holds-unique t (holds p lp ep) (holds q lq eq) =
    let same : p ≡ q = live_unique t p q _ _ _ lp lq ep eq in cc (ep, rw (← same) at eq)

module _ {old : Slots} {n₀ n : ℕ} (t : IsPlaced old n₀) (room : total weight_live old n₀ < n) where
  module _ {s : Slots} {i k v : ℕ} (m : Moved old i s n) (lt : i < n₀) (e : old i ≡ live k v) where
    unbound : (w : ℕ) → ¬ Holds s n k w
    unbound w h = go (m.to_old k w h)
      where
        go : Holds old i k w → ⊥
        go (holds p lp ep) = absurd (omega (arith, live_unique t p i k w v (omega arith) lt ep e))

    unbound_slot : (p w : ℕ) → p < n → s p ≢ live k w
    unbound_slot p w lp ep = unbound w (holds p lp ep)

    Moved-write :
        (c : ℕ)
        → c < n
        → Passes s n k c k
        → s ((k + c) % n) ≡ empty
        → Moved old (suc i) (write s ((k + c) % n) (live k v)) n
    unfolding total
    Moved-write c lc ps se =
        let q = (k + c) % n in
        let lq : q < n = mod-lt (k + c) (omega arith) in
        let put = Puts-fresh v m.placed c lc ps (ap is_live se) unbound_slot in
        record {
          placed = put.placed;
          to_old = λ j w h. back j w put h;
          to_new = λ j w h. forth j w put h;
          used = omega (
            arith,
            m.used,
            total-write weight_used s n q (live k v) lq,
            ap weight_used se,
            ap weight_live e,
          );
          lives = omega (arith, m.lives, put.counted, ap weight_live e);
        }
      where
        s' : Slots
        s' = write s ((k + c) % n) (live k v)

        back : (j w : ℕ) → Puts s n k v true s' → Holds s' n j w → Holds old (suc i) j w
        back j w put h = elim (Bool-cases (k == j)) [
          | inl eq ↦
              let same : k ≡ j = ground arith in
              let value : v ≡ w = Holds-unique put.placed put.bound (rw (← same) at h) in
              holds i (omega arith) (e ∙ ap (λ x. live x v) same ∙ ap (live j) value)
          | inr ne ↦ Holds-suc (m.to_old j w ((put.kept j w (ground arith)).1 h))
        ]

        forth : (j w : ℕ) → Puts s n k v true s' → Holds old (suc i) j w → Holds s' n j w
        forth j w put (holds p lp ep) = elim (Bool-cases (p == i)) [
          | inl eq ↦
              let same : p ≡ i = ground arith in
              let pair : live k v ≡ live j w = sym e ∙ rw same at ep in
              let key : k ≡ j = cc pair in
              let value : v ≡ w = cc pair in rw (← key, ← value) put.bound
          | inr ne ↦
              let h : Holds old i j w = holds p (ground arith) ep in
              (put.kept j w (λ same. unbound w (rw same (m.to_new j w h)))).0 (m.to_new j w h)
        ]

    Moved-live : (s' : Slots) × (move_slot s n (live k v) ≡ some s') × Moved old (suc i) s' n
    unfolding move_slot
    Moved-live =
        let less = total_mono weight_live old i n₀ (omega arith) in
        go (HasEmpty-of_lt s n (omega (arith, m.used)))
      where
        close :
            (c : ℕ) (x : Slot)
            → c < n
            → Passes s n k c k
            → s ((k + c) % n) ≡ x
            → Stop k x
            → (s' : Slots) × ((vacant n s n k >>= λ q. some (write s q (live k v))) ≡ some s')
              × Moved old (suc i) s' n
        close c empty lc ps se st = (
          write s ((k + c) % n) (live k v),
          rw (vacant-Passes s n k c n k lc ps se),
          Moved-write c lc ps se,
        )
        close c (deleted w) lc ps se st = absurd st
        close c (live j w) lc ps se st = absurd (
            unbound_slot ((k + c) % n) w (mod-lt (k + c) (omega arith))
              (se ∙ ap (λ x. live x w) (sym st)))

        finish :
            Ends s n k
            → (s' : Slots) × ((vacant n s n k >>= λ q. some (write s q (live k v))) ≡ some s')
              × Moved old (suc i) s' n
        finish (ends c lc ps st) = close c (s ((k + c) % n)) lc ps refl st

        go :
            HasEmpty s n
            → (s' : Slots) × ((vacant n s n k >>= λ q. some (write s q (live k v))) ≡ some s')
              × Moved old (suc i) s' n
        go (has_empty p lp ep) = finish (Ends-of_empty s n k p lp ep)

  Moved-step :
      {s : Slots} {i : ℕ} (x : Slot)
      → old i ≡ x
      → i < n₀
      → Moved old i s n
      → (s' : Slots) × (move_slot s n x ≡ some s') × Moved old (suc i) s' n
  unfolding move_slot
  Moved-step {s} empty e lt m = (s, refl, Moved-skip m (ap is_live e) (ap weight_live e))
  Moved-step {s} (deleted v) e lt m = (s, refl, Moved-skip m (ap is_live e) (ap weight_live e))
  Moved-step (live k v) e lt m = Moved-live m lt e

  -- The loop ends, in as many rounds as the old table has slots.
  pub rehash-Moved :
      (r i : ℕ) (s : Slots)
      → i + r ≡ n₀
      → Moved old i s n
      → (s' : Slots) × (rehash r i old s n ≡ some s') × Moved old n₀ s' n
  unfolding rehash
  rehash-Moved zero i s e m = let same : i ≡ n₀ = omega arith in (s, refl, rw (← same) m)
  rehash-Moved (suc r) i s e m =
      let (s₁, run, m₁) = Moved-step (old i) refl (omega arith) m in
      let next : suc i ≡ i + 1 = omega arith in
      let (s₂, run', m₂) = rehash-Moved r (i + 1) s₁ (omega arith) (rw next at m₁) in
      (s₂, rw (run, run'), m₂)

pub rehash-cleared :
    {old : Slots} {n₀ : ℕ} (n : ℕ)
    → IsPlaced old n₀
    → total weight_live old n₀ < n
    → (s : Slots) × (rehash n₀ 0 old cleared n ≡ some s) × Moved old n₀ s n
rehash-cleared {old} {n₀} n t room =
    rehash-Moved t room n₀ 0 cleared (omega arith) (Moved-zero old n)
