-- ===== src/Dict/Holes.antt =====
-- The deleted entry that the loop of `dict_add` remembers.
use prothon.Base.{ℕ, zero, suc, ◌+◌, ◌%◌, ◌<◌, ◌≡◌, refl, Option, none, some, arith}
use prothon.Dict.{Entry, empty, deleted, live, Entries}

-- The last deleted entry among the `d` entries from `i` on, or `hole` where there is none.
unfoldable pub last_hole : Entries → (n : ℕ) → Option ℕ → (d i : ℕ) → Option ℕ
last_hole s n hole zero i = hole
last_hole s n hole (suc d) i = elim (s (i % n)) [
  | empty ↦ last_hole s n hole d (i + 1)
  | deleted k v ↦ last_hole s n (some (i % n)) d (i + 1)
  | live h k v ↦ last_hole s n hole d (i + 1)
]

-- The last hole is one of the deleted entries that were passed.
abbrev pub IsHole : Entries → (n b m : ℕ) → Option ℕ → Type 0
IsHole s n b m none = Unit
IsHole s n b m (some q) =
    (e : ℕ) × (e < m) × (q ≡ (b + e) % n) × ((k : ℕ) × (v : ℕ) × (s q ≡ deleted k v))

IsHole-more : (s : Entries) (n b m : ℕ) (o : Option ℕ) → IsHole s n b m o → IsHole s n b (m + 1) o
IsHole-more s n b m none h = tt
IsHole-more s n b m (some q) (e, lt, at, x) = (e, omega arith, at, x)

pub last_hole-IsHole :
    (s : Entries) (n b d m : ℕ) (o : Option ℕ)
    → IsHole s n b m o
    → IsHole s n b (m + d) (last_hole s n o d (b + m))
unfolding last_hole
last_hole-IsHole s n b zero m o h = let e : m + 0 ≡ m = omega arith in rw e h
last_hole-IsHole s n b (suc d) m o h =
    let e : m + suc d ≡ m + 1 + d = omega arith in
    let f : b + m + 1 ≡ b + (m + 1) = omega arith in
    let rest : (o : Option ℕ)
        → IsHole s n b (m + 1) o
        → IsHole s n b (m + 1 + d) (last_hole s n o d (b + m + 1)) =
      λ o g. rw f (last_hole-IsHole s n b d (m + 1) o g) in
    rw e (by_entry (s ((b + m) % n)) refl rest)
  where
    by_entry :
        (x : Entry)
        → s ((b + m) % n) ≡ x
        → ((o : Option ℕ)
            → IsHole s n b (m + 1) o
            → IsHole s n b (m + 1 + d) (last_hole s n o d (b + m + 1)))
        → IsHole s n b (m + 1 + d) (elim x [
          | empty ↦ last_hole s n o d (b + m + 1)
          | deleted k v ↦ last_hole s n (some ((b + m) % n)) d (b + m + 1)
          | live g k v ↦ last_hole s n o d (b + m + 1)
        ])
    by_entry empty e rest = rest o (IsHole-more s n b m o h)
    by_entry (deleted k v) e rest = rest (some ((b + m) % n)) (m, omega arith, refl, (k, v, e))
    by_entry (live g k v) e rest = rest o (IsHole-more s n b m o h)
