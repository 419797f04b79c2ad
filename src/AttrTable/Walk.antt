-- ===== src/AttrTable/Walk.antt =====
-- The three loops of the table, met with a probe sequence that ends after `c` slots.
use prothon.Base.{
  ℕ, zero, suc, ◌+◌, ◌%◌, ◌≤◌, ◌<◌, ◌≡◌, refl, ap, ◌∙◌, true, false, Bool, Option, none, some,
  arith,
}
use prothon.AttrTable.{Slot, empty, deleted, live, Slots, find, seek, vacant}
use prothon.AttrTable.Probe.{Pass, Stop, Passes, Passes-head, Passes-tail}

-- What `find` gives at the slot where it ends.
abbrev pub outcome : Slot → ℕ → Option ℕ
outcome empty p = none
outcome (deleted v) p = none
outcome (live k v) p = some p

abbrev pub is_live : Slot → Bool
is_live empty = false
is_live (deleted v) = false
is_live (live k v) = true

-- The last deleted slot among the `c` slots from `i` on, or `hole` where there is none.
pub last_hole : Slots → (n : ℕ) → Option ℕ → (c i : ℕ) → Option ℕ
last_hole s n hole zero i = hole
last_hole s n hole (suc c) i = elim (s (i % n)) [
  | empty ↦ last_hole s n hole c (i + 1)
  | deleted v ↦ last_hole s n (some (i % n)) c (i + 1)
  | live k v ↦ last_hole s n hole c (i + 1)
]

module _ (s : Slots) (n k : ℕ) where
  find-Stop :
      (f i : ℕ) → Stop k (s (i % n)) → find (suc f) s n k i ≡ some (outcome (s (i % n)) (i % n))
  unfolding find
  find-Stop f i h = ground arith

  pub find-Pass : (f i : ℕ) → Pass k (s (i % n)) → find (suc f) s n k i ≡ find f s n k (i + 1)
  unfolding find
  find-Pass f i h = ground arith

  seek-Stop :
      (f i : ℕ) (o : Option ℕ)
      → 0 < k
      → Stop k (s (i % n))
      → seek (suc f) s n k o i
        ≡ some (record { pos = i % n; matched = is_live (s (i % n)); hole = o })
  unfolding seek
  seek-Stop f i o z h = ground (arith, z)

  vacant-Pass : (f i : ℕ) → Pass k (s (i % n)) → vacant (suc f) s n i ≡ vacant f s n (i + 1)
  unfolding vacant
  vacant-Pass f i h = ground arith

  pub find-Passes :
      (c f i : ℕ)
      → c < f
      → Passes s n k c i
      → Stop k (s ((i + c) % n))
      → find f s n k i ≡ some (outcome (s ((i + c) % n)) ((i + c) % n))
  find-Passes c zero i lt ps st = elim lt [ ]
  find-Passes zero (suc f) i lt ps st =
      let e : i + 0 ≡ i = omega arith in rw e (find-Stop f i (rw (ap (λ x. s (x % n)) e) at st))
  find-Passes (suc c) (suc f) i lt ps st =
      let e : i + suc c ≡ i + 1 + c = omega arith in
      find-Pass f i (Passes-head ps)
      ∙ rw e (
          find-Passes c f (i + 1) (omega arith) (Passes-tail ps) (rw (ap (λ x. s (x % n)) e) at st))

  pub seek-Pass :
      (f i : ℕ) (o : Option ℕ)
      → Pass k (s (i % n))
      → seek (suc f) s n k o i ≡ seek f s n k (last_hole s n o 1 i) (i + 1)
  unfolding seek last_hole
  seek-Pass f i o h = ground arith

  last_hole-suc :
      (c i : ℕ) (o : Option ℕ)
      → last_hole s n o (suc c) i ≡ last_hole s n (last_hole s n o 1 i) c (i + 1)
  unfolding last_hole
  last_hole-suc c i o = ground arith

  pub seek-Passes :
      (c f i : ℕ) (o : Option ℕ)
      → 0 < k
      → c < f
      → Passes s n k c i
      → Stop k (s ((i + c) % n))
      → seek f s n k o i
        ≡ some (record {
          pos = (i + c) % n;
          matched = is_live (s ((i + c) % n));
          hole = last_hole s n o c i;
        })
  unfolding last_hole
  seek-Passes c zero i o z lt ps st = elim lt [ ]
  seek-Passes zero (suc f) i o z lt ps st =
      let e : i + 0 ≡ i = omega arith in rw e (seek-Stop f i o z (rw (ap (λ x. s (x % n)) e) at st))
  seek-Passes (suc c) (suc f) i o z lt ps st =
      let e : i + suc c ≡ i + 1 + c = omega arith in
      seek-Pass f i o (Passes-head ps)
      ∙ rw (e, last_hole-suc c i o)
          (seek-Passes c f (i + 1) (last_hole s n o 1 i) z (omega arith) (Passes-tail ps)
            (rw (ap (λ x. s (x % n)) e) at st))

  pub vacant-Passes :
      (c f i : ℕ)
      → c < f
      → Passes s n k c i
      → s ((i + c) % n) ≡ empty
      → vacant f s n i ≡ some ((i + c) % n)
  unfolding vacant
  vacant-Passes c zero i lt ps st = elim lt [ ]
  vacant-Passes zero (suc f) i lt ps st =
      let e : i + 0 ≡ i = omega arith in rw e (rw (rw (ap (λ x. s (x % n)) e) at st, vacant))
  vacant-Passes (suc c) (suc f) i lt ps st =
      let e : i + suc c ≡ i + 1 + c = omega arith in
      vacant-Pass f i (Passes-head ps)
      ∙ rw e (
          vacant-Passes c f (i + 1) (omega arith) (Passes-tail ps)
            (rw (ap (λ x. s (x % n)) e) at st))

-- A hole, where there is one, is a deleted slot among the first `c`.
abbrev pub IsHole : Slots → (n c i : ℕ) → Option ℕ → Type 0
IsHole s n c i none = Unit
IsHole s n c i (some q) = (e : ℕ) × (e < c) × (q ≡ (i + e) % n) × ((v : ℕ) × (s q ≡ deleted v))

IsHole-le : (s : Slots) (n b c i : ℕ) (o : Option ℕ) → b ≤ c → IsHole s n b i o → IsHole s n c i o
IsHole-le s n b c i none le h = tt
IsHole-le s n b c i (some q) le (e, lt, eq, v) = (e, omega arith, eq, v)

IsHole-past :
    (s : Slots) (n a i j : ℕ) (o : Option ℕ)
    → j ≡ i + a
    → IsHole s n a i o
    → IsHole s n (suc a) i (last_hole s n o 1 j)
unfolding last_hole
IsHole-past s n a i j o e h = go (s (j % n)) refl
  where
    go :
        (x : Slot)
        → s (j % n) ≡ x
        → IsHole s n (suc a) i (elim x [ empty ↦ o | deleted v ↦ some (j % n) | live k v ↦ o ])
    go empty eq = IsHole-le s n a (suc a) i o (omega arith) h
    go (live k v) eq = IsHole-le s n a (suc a) i o (omega arith) h
    go (deleted v) eq = (a, omega arith, ap (λ x. x % n) e, (v, eq))

pub last_hole-IsHole :
    (s : Slots) (n a b c i j : ℕ) (o : Option ℕ)
    → j ≡ i + a
    → a + c ≡ b
    → IsHole s n a i o
    → IsHole s n b i (last_hole s n o c j)
unfolding last_hole
last_hole-IsHole s n a b zero i j o e e' h = IsHole-le s n a b i o (omega arith) h
last_hole-IsHole s n a b (suc c) i j o e e' h = rw (last_hole-suc s n 0 c j o) (
    last_hole-IsHole s n (suc a) b c i (j + 1) (last_hole s n o 1 j) (omega arith) (omega arith)
      (IsHole-past s n a i j o e h))
