-- ===== src/AttrTable/Probe.antt =====
-- Probe sequences: the slots that a search for a key goes past, and the distance from its home.
use native.Mathlib.Nat.{mod-lt, mod-eq_of_lt, mod-eq-sub-mod, mod-add-mod}
use prothon.Base.{
  ℕ, zero, suc, ◌+◌, ◌-◌, ◌%◌, ◌≤◌, ◌<◌, ◌≡◌, ap, ◌∙◌, ◌≢◌, ◌⊎◌, inl, inr, arith, ltb, ◌==◌,
  if◌then◌else◌, Bool-cases,
}
use prothon.AttrTable.{Slot, empty, deleted, live, Slots}

-- One turn round a table of `n` slots.
wrap_below : (n x : ℕ) → x < n → x % n ≡ x
wrap_below n x h = mod-eq_of_lt h

wrap_above : (n x : ℕ) → n ≤ x → x < n + n → x % n ≡ x - n
wrap_above n x h h' = mod-eq-sub-mod h ∙ mod-eq_of_lt (omega arith)

-- The steps from the home of `k` to the slot `p`, going up and round.
pub dist : (n k p : ℕ) → ℕ
dist n k p = if ltb p (k % n) then p + n - k % n else p - k % n

pub dist-lt : (n k p : ℕ) → p < n → dist n k p < n
unfolding dist
dist-lt n k p h = ground (arith, mod-lt k {m = n} (omega arith))

pub add-dist : (n k p : ℕ) → p < n → (k + dist n k p) % n ≡ p
unfolding dist
add-dist n k p h =
    let r : k % n < n = mod-lt k (omega arith) in
    rw (← mod-add-mod k n) (elim (Bool-cases (ltb p (k % n))) [
      | inl e ↦ rw e (wrap_above n _ (ground arith) (ground arith) ∙ ground arith)
      | inr e ↦ rw e (wrap_below n _ (ground arith) ∙ ground arith)
    ])

pub dist-add : (n k d : ℕ) → d < n → dist n k ((k + d) % n) ≡ d
unfolding dist
dist-add n k d h =
    let r : k % n < n = mod-lt k (omega arith) in
    rw (← mod-add-mod k n) (elim (Bool-cases (ltb (k % n + d) n)) [
      | inl e ↦ rw (wrap_below n (k % n + d) (ground arith)) (ground arith)
      | inr e ↦ rw (wrap_above n (k % n + d) (ground arith) (omega arith)) (ground arith)
    ])

-- The search for key `k` goes past a slot.
abbrev pub Pass : ℕ → Slot → Type 0
Pass k empty = ⊥
Pass k (deleted v) = Unit
Pass k (live j v) = k ≢ j

-- The search for `k` goes past the `d` slots from index `i` on.
pub record Passes (s : Slots) (n k d i : ℕ) : Type 0 where
  pub past : (e : ℕ) → e < d → Pass k (s ((i + e) % n))

-- The search for `k` ends at a slot.
abbrev pub Stop : ℕ → Slot → Type 0
Stop k empty = Unit
Stop k (deleted v) = ⊥
Stop k (live j v) = k ≡ j

Pass-or-Stop : (k : ℕ) (x : Slot) → Pass k x ⊎ Stop k x
Pass-or-Stop k empty = inr tt
Pass-or-Stop k (deleted v) = inl tt
Pass-or-Stop k (live j v) = elim (Bool-cases (k == j)) [
  | inl e ↦ inr (ground arith)
  | inr e ↦ inl (ground arith)
]

pub not-Pass-Stop : (k : ℕ) (x : Slot) → Pass k x → Stop k x → ⊥
not-Pass-Stop k empty p q = p
not-Pass-Stop k (deleted v) p q = q
not-Pass-Stop k (live j v) p q = p q

module _ {s : Slots} {n k d i : ℕ} where
  pub Passes-tail : Passes s n k (suc d) i → Passes s n k d (i + 1)
  Passes-tail h = record {
    past = λ e lt.
        let same : i + suc e ≡ i + 1 + e = omega arith in
        rw (ap (λ x. s (x % n)) same) at (h.past (suc e) (omega arith));
  }

  pub Passes-head : Passes s n k (suc d) i → Pass k (s (i % n))
  Passes-head h =
      let same : i + 0 ≡ i = omega arith in
      rw (ap (λ x. s (x % n)) same) at (h.past 0 (omega arith))

  pub Passes-snoc : Passes s n k d i → Pass k (s ((i + d) % n)) → Passes s n k (suc d) i
  Passes-snoc h last = record {
    past = λ e lt. elim (Bool-cases (e == d)) [
      | inl eq ↦ let same : e ≡ d = ground arith in rw same last
      | inr ne ↦ h.past e (ground arith)
    ];
  }

  pub Passes-prefix : (c : ℕ) → c ≤ d → Passes s n k d i → Passes s n k c i
  Passes-prefix c le h = record { past = λ e lt. h.past e (omega arith) }

-- Among the first `d` slots the search ends, or it goes past them all.
pub data Reaches (s : Slots) (n k i d : ℕ) : Type 0 where
  stops : (c : ℕ) → c < d → Passes s n k c i → Stop k (s ((i + c) % n)) → Reaches s n k i d
  passes : Passes s n k d i → Reaches s n k i d

pub reaches : (s : Slots) (n k i d : ℕ) → Reaches s n k i d
reaches s n k i zero = passes (record { past = λ e lt. elim lt [ ] })
reaches s n k i (suc d) = extend (reaches s n k i d)
  where
    extend : Reaches s n k i d → Reaches s n k i (suc d)
    extend (stops c lt h st) = stops c (omega arith) h st
    extend (passes h) = elim (Pass-or-Stop k (s ((i + d) % n))) [
      | inl p ↦ passes (Passes-snoc h p)
      | inr st ↦ stops d (omega arith) h st
    ]

-- With an empty slot in the table a search that starts at its key's home ends within one turn.
pub data Ends (s : Slots) (n k : ℕ) : Type 0 where
  ends : (c : ℕ) → c < n → Passes s n k c k → Stop k (s ((k + c) % n)) → Ends s n k

pub Ends-of_empty : (s : Slots) (n k p : ℕ) → p < n → s p ≡ empty → Ends s n k
Ends-of_empty s n k p lt e = close (reaches s n k k n)
  where
    close : Reaches s n k k n → Ends s n k
    close (stops c h ps st) = ends c h ps st
    close (passes ps) =
        absurd (rw (e) at (rw (add-dist n k p lt) at (ps.past (dist n k p) (dist-lt n k p lt))))
