-- ===== src/AttrTable/Insert.antt =====
-- One insertion: the loop and the writes of `set_attr`, against the pairs that the table holds.
use prothon.Base.{
  ℕ, ◌+◌, ◌%◌, ◌≤◌, ◌<◌, ◌≡◌, refl, sym, ap, ◌∙◌, ◌≢◌, ◌↔◌, inl, inr, true, false, not, Bool,
  Option, none, some, arith, ◌==◌, if◌then◌else◌, Bool-cases,
}
use native.Mathlib.Nat.{mod-lt}
use prothon.AttrTable.{Slot, empty, deleted, live, Slots, write, seek, Landing, target}
use prothon.AttrTable.Probe.{Stop, Passes, Passes-prefix, Ends, ends, dist, dist-lt, add-dist}
use prothon.AttrTable.Walk.{is_live, last_hole, seek-Passes, IsHole, last_hole-IsHole}
use prothon.AttrTable.Placed.{IsPlaced, live_unique, not-live-of_empty, put-IsPlaced}
use prothon.AttrTable.Count.{weight_used, weight_live, total, total-write}

-- The table of `n` slots binds the key `k` to the value `v`.
pub data Holds (s : Slots) (n k v : ℕ) : Type 0 where
  holds : (p : ℕ) → p < n → s p ≡ live k v → Holds s n k v

-- `s'` is the table `s` with `k` bound to `v`, and `fresh` says whether `k` was bound to nothing.
pub record Puts (s : Slots) (n k v : ℕ) (fresh : Bool) (s' : Slots) : Type 0 where
  pub placed : IsPlaced s' n
  pub bound : Holds s' n k v
  pub kept : (j w : ℕ) → k ≢ j → Holds s n j w ↔ Holds s' n j w
  pub absent : fresh ≡ true → (w : ℕ) → ¬ Holds s n k w
  pub present : fresh ≡ false → (w : ℕ) × Holds s n k w
  pub counted : total weight_live s' n ≡ total weight_live s n + (if fresh then 1 else 0)
  pub used : total weight_used s' n ≤ total weight_used s n + (if fresh then 1 else 0)

-- A write at a slot that holds no other key changes the binding of `k` alone.
write-kept :
    {s : Slots} {n k : ℕ} (q v : ℕ)
    → ((j w : ℕ) → k ≢ j → s q ≢ live j w)
    → (j w : ℕ) → k ≢ j
    → Holds s n j w ↔ Holds (write s q (live k v)) n j w
write-kept {s} {n} {k} q v own j w ne = (to, from)
  where
    to : Holds s n j w → Holds (write s q (live k v)) n j w
    to (holds p lt e) = elim (Bool-cases (q == p)) [
      | inl h ↦ let same : q ≡ p = ground arith in absurd (own j w ne (rw same e))
      | inr h ↦ holds p lt (rw h e)
    ]

    from : Holds (write s q (live k v)) n j w → Holds s n j w
    from (holds p lt e) = elim (Bool-cases (q == p)) [
      | inl h ↦ absurd (ground (arith, ne, rw h at e))
      | inr h ↦ holds p lt (rw h at e)
    ]

write_self : (s : Slots) (q : ℕ) (x : Slot) → write s q x q ≡ x
write_self s q x = ground arith

not-live-of_dead : (x : Slot) → is_live x ≡ false → (j w : ℕ) → x ≢ live j w
not-live-of_dead x h j w e = cc (ap is_live e)

weight-dead : (x : Slot) → is_live x ≡ false → weight_live x ≡ 0
weight-dead empty h = refl
weight-dead (deleted v) h = refl
weight-dead (live k v) h = cc

abbrev Landed : Slots → (n k v : ℕ) → Landing → Type 0
Landed s n k v l = Puts s n k v (not l.matched) (write s (target l) (live k v))

module _ {s : Slots} {n k : ℕ} (v : ℕ) (t : IsPlaced s n) where
  -- The key is bound, and its value is replaced.
  pub Puts-matched : (p w : ℕ) → p < n → s p ≡ live k w → Puts s n k v false (write s p (live k v))
  Puts-matched p w lt e = record {
    placed = rw (ap (λ q. IsPlaced (write s q (live k v)) n) (add-dist n k p lt)) at (
        put-IsPlaced k v (dist n k p) t (dist-lt n k p lt) (t.placed p k w lt e)
          (λ p' w' lt' e'. live_unique t p' p k w' w lt' lt e' e ∙ sym (add-dist n k p lt)));
    bound = holds p lt (write_self s p _);
    kept = write-kept p v (λ j w' ne e'. ground (arith, ne));
    absent = λ h. cc;
    present = λ _. (w, holds p lt e);
    counted = omega (arith, total-write weight_live s n p (live k v) lt, ap weight_live e);
    used = omega (arith, total-write weight_used s n p (live k v) lt, ap weight_used e);
  }

  -- The key is not bound; a slot on its probe that is not live receives it.
  pub Puts-fresh :
      (c : ℕ)
      → c < n
      → Passes s n k c k
      → is_live (s ((k + c) % n)) ≡ false
      → ((p w : ℕ) → p < n → s p ≢ live k w)
      → Puts s n k v true (write s ((k + c) % n) (live k v))
  Puts-fresh c lt ps dead free =
      let q = (k + c) % n in
      let lq : q < n = mod-lt (k + c) (omega arith) in
      record {
        placed = put-IsPlaced k v c t lt ps (λ p w lt' e'. absurd (free p w lt' e'));
        bound = holds q lq (write_self s q _);
        kept = write-kept q v (λ j w ne e'. not-live-of_dead (s q) dead j w e');
        absent = λ _ w h. unbound h;
        present = λ h. cc;
        counted =
            omega (arith, total-write weight_live s n q (live k v) lq, weight-dead (s q) dead);
        used = omega (arith, total-write weight_used s n q (live k v) lq);
      }
    where
      unbound : {w : ℕ} → ¬ Holds s n k w
      unbound (holds p lp e) = free p _ lp e

  land-empty :
      (c : ℕ) (o : Option ℕ)
      → c < n
      → Passes s n k c k
      → s ((k + c) % n) ≡ empty
      → IsHole s n c k o
      → Landed s n k v (record { pos = (k + c) % n; matched = false; hole = o })
  land-empty c none lt ps e h = Puts-fresh c lt ps (ap is_live e) (not-live-of_empty t c k lt ps e)
  land-empty c (some q) lt ps e (d, lt', eq, (w, e')) = rw eq (
      Puts-fresh d (omega arith) (Passes-prefix d (omega arith) ps) (ap is_live (rw eq at e'))
        (not-live-of_empty t c k lt ps e))

  land :
      (c : ℕ) (x : Slot) (o : Option ℕ)
      → c < n
      → Passes s n k c k
      → s ((k + c) % n) ≡ x
      → Stop k x
      → IsHole s n c k o
      → Landed s n k v (record { pos = (k + c) % n; matched = is_live x; hole = o })
  land c empty o lt ps e st h = land-empty c o lt ps e h
  land c (deleted w) o lt ps e st h = absurd st
  land c (live j w) o lt ps e st h =
      Puts-matched ((k + c) % n) w (mod-lt (k + c) (omega arith)) (e ∙ ap (λ x. live x w) (sym st))

  -- Where the probe of the key ends, so does the loop of `set_attr`, and the write binds the key.
  pub put-Puts :
      0 < k
      → Ends s n k
      → (l : Landing) × (seek n s n k none k ≡ some l)
        × Puts s n k v (not l.matched) (write s (target l) (live k v))
  put-Puts z (ends c lt ps st) = (
    record {
      pos = (k + c) % n;
      matched = is_live (s ((k + c) % n));
      hole = last_hole s n none c k;
    },
    seek-Passes s n k c n k none z lt ps st,
    land c (s ((k + c) % n)) (last_hole s n none c k) lt ps refl st
        (last_hole-IsHole s n 0 c c k k none (omega arith) (omega arith) tt),
  )
