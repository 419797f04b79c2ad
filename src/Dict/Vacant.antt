-- ===== src/Dict/Vacant.antt =====
-- The entries in use are counted, and the free entry that `dict_realloc` finds.
use prothon.Base.{ℕ, zero, suc, ◌+◌, ◌%◌, ◌<◌, ◌≡◌, refl, ◌∙◌, ◌⊎◌, inl, inr, some, arith}
use prothon.AttrTable.Count.{total}
use prothon.Dict.{Entry, empty, deleted, live, Entries, vacant, cleared}
use prothon.Dict.Walk.{IsUsed}

abbrev pub used : Entry → ℕ
used empty = 0
used (deleted k v) = 1
used (live h k v) = 1

pub Entry-used : (x : Entry) → (x ≡ empty) ⊎ (IsUsed x × (used x ≡ 1))
Entry-used empty = inl refl
Entry-used (deleted k v) = inr (tt, refl)
Entry-used (live h k v) = inr (tt, refl)

pub total-cleared : (n : ℕ) → total used cleared n ≡ 0
unfolding total
total-cleared zero = refl
total-cleared (suc n) = omega (arith, total-cleared n)

-- Fewer entries in use than entries: one was never used.
pub empty_of_lt : (s : Entries) (n : ℕ) → total used s n < n → (p : ℕ) × (p < n) × (s p ≡ empty)
unfolding total
empty_of_lt s zero h = elim h [ ]
empty_of_lt s (suc n) h = elim (Entry-used (s n)) [
  | inl e ↦ (n, omega arith, e)
  | inr (u, e) ↦
      let (p, lt, em) = empty_of_lt s n (omega (arith, e, h)) in (p, omega (arith, lt), em)
]

-- The loop for a free entry ends at the first one, at distance `d`.
abbrev pub FirstEmpty : Entries → (n i f : ℕ) → Type 0
FirstEmpty s n i f =
    (d : ℕ) × (d < f)
    × (vacant f s n i ≡ some ((i + d) % n))
    × (s ((i + d) % n) ≡ empty)
    × ((e : ℕ) → e < d → IsUsed (s ((i + e) % n)))

-- One entry in use before the first free one.
pub FirstEmpty-suc :
    (s : Entries) (n i f : ℕ)
    → IsUsed (s (i % n))
    → vacant (suc f) s n i ≡ vacant f s n (i + 1)
    → FirstEmpty s n (i + 1) f
    → FirstEmpty s n i (suc f)
FirstEmpty-suc s n i f u run (d, lt, found, em, before) =
    let at : i + suc d ≡ i + 1 + d = omega arith in
    (suc d, omega (arith, lt), rw at (run ∙ found), rw at em, earlier)
  where
    earlier : (e : ℕ) → e < suc d → IsUsed (s ((i + e) % n))
    earlier zero le = let here : i + 0 ≡ i = omega arith in rw here u
    earlier (suc e) le =
        let at : i + suc e ≡ i + 1 + e = omega arith in rw at (before e (omega (arith, le)))

pub vacant-lem : (s : Entries) (n i f e : ℕ) → e < f → s ((i + e) % n) ≡ empty → FirstEmpty s n i f
unfolding vacant
vacant-lem s n i zero e lt em = elim lt [ ]
vacant-lem s n i (suc f) zero lt em =
    let here : i + 0 ≡ i = omega arith in
    let at : s (i % n) ≡ empty = rw here at em in
    (0, omega arith, rw (vacant, at, here) refl, em, λ e le. absurd (omega (arith, le)))
vacant-lem s n i (suc f) (suc e) lt em = elim (Entry-used (s (i % n))) [
  | inl at ↦
      let here : i + 0 ≡ i = omega arith in
      (0, omega arith, rw (vacant, at, here) refl, rw here at, λ j le. absurd (omega (arith, le)))
  | inr (u, w) ↦
      let same : i + suc e ≡ i + 1 + e = omega arith in
      FirstEmpty-suc s n i f u (past (s (i % n)) u)
        (vacant-lem s n (i + 1) f e (omega (arith, lt)) (rw same at em))
]
  where
    past :
        (x : Entry)
        → IsUsed x
        → elim x [
          | empty ↦ some (i % n)
          | deleted k v ↦ vacant f s n (i + 1)
          | live h k v ↦ vacant f s n (i + 1)
        ]
          ≡ vacant f s n (i + 1)
    past empty u = absurd u
    past (deleted k v) u = refl
    past (live h k v) u = refl
