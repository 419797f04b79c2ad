-- ===== src/Tuples/Laws.antt =====
-- The comparison of tuples, their least item, and the search in them.
use prothon.Base.{
  ℕ, zero, suc, ◌+◌, ◌≤◌, ◌≡◌, refl, ◌⊎◌, inl, inr, true, false, some, List, [], ◌∷◌, ◌++◌, arith,
  ltb, if◌then◌else◌, length, ℤ, pos, negsuc, is_neg, Bool-cases,
}
use prothon.ListMethods.{Reply, equal}
use prothon.ListMethods.Change.{AllUnequal}
use prothon.Tuples.{
  Result, returns, fails, is_zero, cmp_items, best_from, best_of, tuple_min, r_in, r_not_in,
  index_from, tuple_index,
}

abbrev pub negate : ℤ → ℤ
negate (pos zero) = pos zero
negate (pos (suc n)) = negsuc n
negate (negsuc n) = pos (suc n)

-- The same comparison the other way round.
abbrev pub turned : Result ℤ → Result ℤ
turned (returns n) = returns (negate n)
turned (fails e) = fails e

-- Where every comparison of two items is that of the two the other way round with the other sign,
-- or the same exception, the comparison of two tuples is so too.
cmp_items-turned :
    (cmp : (item other : ℕ) → Result ℤ)
    → ((x y : ℕ) → cmp y x ≡ turned (cmp x y))
    → (xs ys : List ℕ) → cmp_items cmp ys xs ≡ turned (cmp_items cmp xs ys)
unfolding cmp_items
cmp_items-turned cmp sign [] [] = refl
cmp_items-turned cmp sign [] (y ∷ ys) = refl
cmp_items-turned cmp sign (x ∷ xs) [] = refl
cmp_items-turned cmp sign (x ∷ xs) (y ∷ ys) =
    rw (cmp_items, sign x y) (step (cmp x y) (cmp_items-turned cmp sign xs ys))
  where
    step :
        (r : Result ℤ)
        → cmp_items cmp ys xs ≡ turned (cmp_items cmp xs ys)
        → elim (turned r) [
          | fails e ↦ fails e
          | returns n ↦ if is_zero n then cmp_items cmp ys xs else returns n
        ]
          ≡ turned (elim r [
            | fails e ↦ fails e
            | returns n ↦ if is_zero n then cmp_items cmp xs ys else returns n
          ])
    step (fails e) h = refl
    step (returns (pos zero)) h = h
    step (returns (pos (suc n))) h = refl
    step (returns (negsuc n)) h = refl

module _ (eq : ℕ → Reply) where
  index_from-first :
      (i x : ℕ) (pre post : List ℕ)
      → AllUnequal eq pre
      → eq x ≡ equal
      → index_from eq i (pre ++ x ∷ post) ≡ returns (i + length pre)
  unfolding index_from
  index_from-first i x [] post h e = let z : i + 0 ≡ i = omega arith in rw (index_from, e, z) refl
  index_from-first i x (y ∷ pre) post (h, hs) e =
      let rest = index_from-first (i + 1) x pre post hs e in
      let z : i + suc (length pre) ≡ i + 1 + length pre = omega arith in rw (index_from, h, z) rest

  r_in-first :
      (x : ℕ) (pre post : List ℕ)
      → AllUnequal eq pre
      → eq x ≡ equal
      → (r_in eq (pre ++ x ∷ post) ≡ returns true) × (r_not_in eq (pre ++ x ∷ post) ≡ returns false)
  unfolding r_in r_not_in
  r_in-first x [] post h e = (rw (r_in, e) refl, rw (r_not_in, e) refl)
  r_in-first x (y ∷ pre) post (h, hs) e =
      let rest = r_in-first x pre post hs e in (rw (r_in, h) rest.0, rw (r_not_in, h) rest.1)

  -- Where an item answers that it is equal and those before it that they are not, `index` gives its
  -- place, `rIn?` answers true and `rNotIn?` false.
  tuple_index-first :
      (x : ℕ) (pre post : List ℕ)
      → AllUnequal eq pre
      → eq x ≡ equal
      → (tuple_index eq (pre ++ x ∷ post) ≡ returns (length pre))
        × (r_in eq (pre ++ x ∷ post) ≡ returns true)
        × (r_not_in eq (pre ++ x ∷ post) ≡ returns false)
  unfolding tuple_index
  tuple_index-first x pre post h e =
      let z : 0 + length pre ≡ length pre = omega arith in
      let found = index_from-first 0 x pre post h e in
      let member = r_in-first x pre post h e in (rw z at found, member.0, member.1)

-- `m` is an item of the list with the least key.
abbrev pub IsLeast : (key : ℕ → ℕ) → (m : ℕ) → List ℕ → Type 0
IsLeast key m [] = Unit
IsLeast key m (x ∷ xs) = (key m ≤ key x) × IsLeast key m xs

abbrev pub IsItem : (m : ℕ) → List ℕ → Type 0
IsItem m [] = ⊥
IsItem m (x ∷ xs) = (m ≡ x) ⊎ IsItem m xs

-- The comparison of two items by their keys raises nothing, and its sign says which key is less.
pub record Compares (cmp : (item other : ℕ) → Result ℤ) (key : ℕ → ℕ) : Type 0 where
  pub sign : ℕ → ℕ → ℤ
  pub total : (x y : ℕ) → cmp x y ≡ returns (sign x y)
  pub less : (x y : ℕ) → is_neg (sign x y) ≡ ltb (key x) (key y)

module _ (cmp : (item other : ℕ) → Result ℤ) (key : ℕ → ℕ) (c : Compares cmp key) where
  best_from-IsLeast :
      (best : ℕ) (xs : List ℕ)
      → (m : ℕ) × (best_from cmp is_neg best xs ≡ returns (some m))
        × (key m ≤ key best)
        × IsLeast key m xs
        × ((m ≡ best) ⊎ IsItem m xs)
  unfolding best_from
  best_from-IsLeast best [] = (best, refl, omega arith, tt, inl refl)
  best_from-IsLeast best (x ∷ xs) = elim (Bool-cases (ltb (key x) (key best))) [
    | inl h ↦
        let (m, run, le, least, here) = best_from-IsLeast x xs in
        (
          m,
          rw (best_from, c.total x best, c.less x best, h) run,
          ground (arith, le, h),
          (le, least),
          inr here,
        )
    | inr h ↦
        let (m, run, le, least, here) = best_from-IsLeast best xs in
        (
          m,
          rw (best_from, c.total x best, c.less x best, h) run,
          le,
          (ground (arith, le, h), least),
          elim here [ inl e ↦ inl e | inr e ↦ inr (inr e) ],
        )
  ]

  -- Where the items are compared by a key, `min` of a tuple with at least two items gives an item whose
  -- key is the least.
  tuple_min-IsLeast :
      (x y : ℕ) (xs : List ℕ)
      → (m : ℕ) × (tuple_min cmp (x ∷ y ∷ xs) ≡ returns (some m))
        × IsLeast key m (x ∷ y ∷ xs)
        × IsItem m (x ∷ y ∷ xs)
  unfolding tuple_min
  tuple_min-IsLeast x y xs = elim (Bool-cases (ltb (key x) (key y))) [
    | inl h ↦
        let (m, run, le, least, here) = best_from-IsLeast x xs in
        (
          m,
          rw (best_of, c.total x y, c.less x y, h) run,
          (le, (ground (arith, le, h), least)),
          elim here [ inl e ↦ inl e | inr e ↦ inr (inr e) ],
        )
    | inr h ↦
        let (m, run, le, least, here) = best_from-IsLeast y xs in
        (
          m,
          rw (best_of, c.total x y, c.less x y, h) run,
          (ground (arith, le, h), (le, least)),
          elim here [ inl e ↦ inr (inl e) | inr e ↦ inr (inr e) ],
        )
  ]
