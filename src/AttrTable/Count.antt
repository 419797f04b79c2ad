-- ===== src/AttrTable/Count.antt =====
-- Counting the slots of a table.
use prothon.Base.{ℕ, zero, suc, ◌+◌, ◌≤◌, ◌<◌, ◌≡◌, refl, inl, inr, ◌⊎◌, arith, ◌==◌, Bool-cases}
use prothon.AttrTable.{Slot, empty, deleted, live, Slots, write, cleared}

-- Slots in use, live or deleted.
abbrev pub weight_used : Slot → ℕ
weight_used empty = 0
weight_used (deleted v) = 1
weight_used (live k v) = 1

abbrev pub weight_live : Slot → ℕ
weight_live empty = 0
weight_live (deleted v) = 0
weight_live (live k v) = 1

-- The sum of the weights of the slots below `n`.
unfoldable pub total {ℓ} : {A : Type ℓ} → (A → ℕ) → (ℕ → A) → ℕ → ℕ
total f s zero = 0
total f s (suc n) = f (s n) + total f s n

total-write_above {ℓ} :
    {A : Type ℓ} (f : A → ℕ) (s : ℕ → A) (n q : ℕ) (x : A)
    → n ≤ q
    → total f (write s q x) n ≡ total f s n
unfolding total
total-write_above f s zero q x h = refl
total-write_above f s (suc n) q x h = ground (arith, total-write_above f s n q x)

-- A write exchanges the weight of one slot.
pub total-write {ℓ} :
    {A : Type ℓ} (f : A → ℕ) (s : ℕ → A) (n q : ℕ) (x : A)
    → q < n
    → total f (write s q x) n + f (s q) ≡ total f s n + f x
unfolding total
total-write f s zero q x h = elim h [ ]
total-write f s (suc n) q x h = ground (arith, total-write_above f s n q x, total-write f s n q x)

pub total-cleared : (f : Slot → ℕ) (n : ℕ) → f empty ≡ 0 → total f cleared n ≡ 0
unfolding total
total-cleared f zero h = refl
total-cleared f (suc n) h = omega (arith, total-cleared f n h)

pub data HasEmpty (s : Slots) (n : ℕ) : Type 0 where
  has_empty : (p : ℕ) → p < n → s p ≡ empty → HasEmpty s n

Slot-used : (x : Slot) → (x ≡ empty) ⊎ (weight_used x ≡ 1)
Slot-used empty = inl refl
Slot-used (deleted v) = inr refl
Slot-used (live k v) = inr refl

-- Fewer slots in use than slots: one is empty.
pub HasEmpty-of_lt : (s : Slots) (n : ℕ) → total weight_used s n < n → HasEmpty s n
unfolding total
HasEmpty-of_lt s zero h = elim h [ ]
HasEmpty-of_lt s (suc n) h = elim (Slot-used (s n)) [
  | inl e ↦ has_empty n (omega arith) e
  | inr e ↦ raise (HasEmpty-of_lt s n (omega arith))
]
  where
    raise : HasEmpty s n → HasEmpty s (suc n)
    raise (has_empty p lt e) = has_empty p (omega arith) e

pub total_mono : (f : Slot → ℕ) (s : Slots) (i n : ℕ) → i ≤ n → total f s i ≤ total f s n
unfolding total
total_mono f s i zero h = let e : i ≡ zero = omega arith in rw e (omega arith)
total_mono f s i (suc n) h = elim (Bool-cases (i == suc n)) [
  | inl e ↦ let same : i ≡ suc n = ground arith in rw same (omega arith)
  | inr e ↦ omega (arith, total_mono f s i n (ground arith))
]
