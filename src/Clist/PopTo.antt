-- ===== src/Clist/PopTo.antt =====
-- `clist_pop_to` of src/clist.c.
use prothon.Base.{
  ℕ, ◌≡◌, refl, ap, ◌⊎◌, inl, inr, false, some, List, [], ◌∷◌, ◌++◌, arith, ◌==◌, Bool-cases,
  ==-eq_of_true, get_elem?,
}
use prothon.Clist.{Clist, before, clist_in, clist_in_cnt, clist_pop_to, count, in_items}

-- How `xs` parts at the first entry that equals `item`.
record Parts (item : ℕ) (xs rest : List ℕ) : Type 0 where
  whole : xs ≡ before xs item ++ rest
  free : count item (before xs item) ≡ 0
  first : (in_items xs item ≡ false) ⊎ (get_elem? rest 0 ≡ some item)

parts : (item : ℕ) (xs : List ℕ) → (rest : List ℕ) × Parts item xs rest
unfolding before count in_items
parts item [] = ([], record { whole = refl; free = refl; first = inl refl })
parts item (x ∷ xs) =
    let (rest, p) = parts item xs in
    elim (Bool-cases (x == item)) [
      | inl h ↦ (
        x ∷ xs,
        record {
          whole = rw h refl;
          free = rw h refl;
          first = inr (ap some (==-eq_of_true x item h));
        },
      )
      | inr h ↦ (
        rest,
        record {
          whole = rw h (ap (λ ys. x ∷ ys) p.whole);
          free = rw h (ground (arith, h, p.free));
          first = rw h p.first;
        },
      )
    ]

-- `clist_pop_to` keeps what stands before the first entry that equals the item: no such entry is
-- left, and what was dropped starts with one, where the item is in the list at all.
pub clist_pop_to-count :
    (l : Clist) (item : ℕ)
    → (rest : List ℕ) × (l.items ≡ (clist_pop_to l item).items ++ rest)
      × (clist_in_cnt (clist_pop_to l item) item ≡ 0)
      × ((clist_in l item ≡ false) ⊎ (get_elem? rest 0 ≡ some item))
unfolding clist_pop_to clist_in_cnt clist_in
clist_pop_to-count l item = let (rest, p) = parts item l.items in (rest, p.whole, p.free, p.first)
