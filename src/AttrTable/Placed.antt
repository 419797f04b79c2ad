-- ===== src/AttrTable/Placed.antt =====
-- A table in which every live slot is found by the probe of its key, and what keeps it so.
use prothon.Base.{
  ℕ, ◌+◌, ◌%◌, ◌<◌, ◌≡◌, refl, ap, ◌∙◌, ◌≢◌, inl, inr, some, arith, ◌==◌, Bool-cases,
}
use prothon.AttrTable.{Slot, empty, deleted, live, Slots, write, find}
use prothon.AttrTable.Probe.{Pass, Passes, dist, dist-lt, add-dist, dist-add}
use prothon.AttrTable.Walk.{outcome, find-Passes}

pub record IsPlaced (s : Slots) (n : ℕ) : Type 0 where
  pub placed : (p k v : ℕ) → p < n → s p ≡ live k v → Passes s n k (dist n k p) k

module _ {s : Slots} {n : ℕ} (t : IsPlaced s n) where
  -- The search finds a live slot, in `n` rounds at most.
  pub find-live : (p k v : ℕ) → p < n → s p ≡ live k v → find n s n k k ≡ some (some p)
  find-live p k v lt e =
      let at_p = add-dist n k p lt in
      find-Passes s n k (dist n k p) n k (dist-lt n k p lt) (t.placed p k v lt e)
        (rw (at_p, e) refl)
      ∙ rw (at_p, e)

  pub live_unique : (p q k v w : ℕ) → p < n → q < n → s p ≡ live k v → s q ≡ live k w → p ≡ q
  live_unique p q k v w lp lq ep eq = cc (find-live p k v lp ep, find-live q k w lq eq)

  -- A probe that ends at an empty slot shows that no slot holds its key.
  pub not-live-of_empty :
      (c k : ℕ)
      → c < n
      → Passes s n k c k
      → s ((k + c) % n) ≡ empty
      → (p v : ℕ) → p < n
      → s p ≢ live k v
  not-live-of_empty c k lt ps e p v lp ep =
      let stop = find-Passes s n k c n k lt ps (rw e tt) in
      cc (find-live p k v lp ep, stop, ap (λ x. outcome x ((k + c) % n)) e)

-- A write lets every search through that the old slot let through.
pub Passes-write :
    {s : Slots} {n k d i : ℕ} (q : ℕ) (x : Slot)
    → ((e : ℕ) → e < d → (i + e) % n ≡ q → Pass k x)
    → Passes s n k d i
    → Passes (write s q x) n k d i
Passes-write {s} {n} {k} {d} {i} q x ok ps = record {
  past = λ e lt. elim (Bool-cases (q == (i + e) % n)) [
    | inl h ↦ rw h (ok e lt (ground arith))
    | inr h ↦ rw h (ps.past e lt)
  ];
}

pub delete-IsPlaced :
    {s : Slots} {n : ℕ} (q v : ℕ) → IsPlaced s n → IsPlaced (write s q (deleted v)) n
delete-IsPlaced {s} {n} q v t = record { placed = kept }
  where
    kept :
        (p k w : ℕ)
        → p < n
        → write s q (deleted v) p ≡ live k w
        → Passes (write s q (deleted v)) n k (dist n k p) k
    kept p k w lt e = elim (Bool-cases (q == p)) [
      | inl h ↦ cc (rw h at e)
      | inr h ↦ Passes-write q (deleted v) (λ _ _ _. tt) (t.placed p k w lt (rw h at e))
    ]

-- A key is written at a slot that its own probe reaches, and no other slot holds it.
pub put-IsPlaced :
    {s : Slots} {n : ℕ} (k v c : ℕ)
    → IsPlaced s n
    → c < n
    → Passes s n k c k
    → ((p w : ℕ) → p < n → s p ≡ live k w → p ≡ (k + c) % n)
    → IsPlaced (write s ((k + c) % n) (live k v)) n
put-IsPlaced {s} {n} k v c t lt ps only = record { placed = kept }
  where
    q : ℕ
    q = (k + c) % n

    s' : Slots
    s' = write s q (live k v)

    own : Passes s' n k c k
    own =
        Passes-write q (live k v)
          (λ e le at.
            absurd
              (omega (arith, dist-add n k c lt, dist-add n k e (omega arith), ap (dist n k) at)))
          ps

    kept : (p j w : ℕ) → p < n → s' p ≡ live j w → Passes s' n j (dist n j p) j
    kept p j w lp e = elim (Bool-cases (q == p)) [
      | inl h ↦
          let at : q ≡ p = ground arith in
          let same : k ≡ j = ground (arith, (rw h at e)) in rw (← same, ← at, dist-add n k c lt) own
      | inr h ↦ elim (Bool-cases (k == j)) [
        | inl eq ↦
            let same : k ≡ j = ground arith in
            absurd (ground (arith, only p w lp (rw (same) (rw h at e))))
        | inr ne ↦ Passes-write q (live k v) (λ _ _ _. ground arith) (t.placed p j w lp (rw h at e))
      ]
    ]
