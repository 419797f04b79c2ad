-- ===== src/Tuples/Equal.antt =====
-- `eq?` and `cmp_` of tuples agree.
use prothon.Base.{
  ℕ, zero, suc, ◌≡◌, refl, ◌↔◌, inl, inr, Bool, true, false, List, [], ◌∷◌, arith, ◌==◌,
  if◌then◌else◌, length, ℤ, pos, negsuc, Bool-cases,
}
use prothon.Tuples.{Result, returns, fails, is_zero, cmp_items, same_items, tuple_eq}

-- What `eq?` answers where `cmp_` gives this.
abbrev pub agree : Result ℤ → Result Bool
agree (returns n) = returns (is_zero n)
agree (fails e) = fails e

agree-zero : (r : Result ℤ) → agree r ≡ returns true → r ≡ returns (pos 0)
agree-zero (returns (pos zero)) h = refl
agree-zero (returns (pos (suc n))) h = ground (arith, h)
agree-zero (returns (negsuc n)) h = ground (arith, h)
agree-zero (fails e) h = ground (arith, h)

module _ (cmp : (item other : ℕ) → Result ℤ) where
  cmp_items-length :
      (xs ys : List ℕ) → cmp_items cmp xs ys ≡ returns (pos 0) → (length xs == length ys) ≡ true
  unfolding cmp_items
  cmp_items-length [] [] h = refl
  cmp_items-length [] (y ∷ ys) h = ground (arith, h)
  cmp_items-length (x ∷ xs) [] h = ground (arith, h)
  cmp_items-length (x ∷ xs) (y ∷ ys) h = step (cmp x y) h (cmp_items-length xs ys)
    where
      step :
          (r : Result ℤ)
          → elim r [
            | fails e ↦ fails e
            | returns n ↦ if is_zero n then cmp_items cmp xs ys else returns n
          ]
            ≡ returns (pos 0)
          → (cmp_items cmp xs ys ≡ returns (pos 0) → (length xs == length ys) ≡ true)
          → (suc (length xs) == suc (length ys)) ≡ true
      step (fails e) h k = ground (arith, h)
      step (returns (pos zero)) h k = let same = k h in ground (arith, same)
      step (returns (pos (suc n))) h k = ground (arith, h)
      step (returns (negsuc n)) h k = ground (arith, h)

  module _ (eq : (item other : ℕ) → Result Bool) (same : (x y : ℕ) → eq x y ≡ agree (cmp x y)) where
    same_items-agree :
        (xs ys : List ℕ)
        → (length xs == length ys) ≡ true
        → same_items eq xs ys ≡ agree (cmp_items cmp xs ys)
    unfolding cmp_items same_items
    same_items-agree [] [] h = refl
    same_items-agree [] (y ∷ ys) h = ground (arith, h)
    same_items-agree (x ∷ xs) [] h = ground (arith, h)
    same_items-agree (x ∷ xs) (y ∷ ys) h =
        rw (same_items, same x y) (step (cmp x y) (same_items-agree xs ys (ground (arith, h))))
      where
        step :
            (r : Result ℤ)
            → same_items eq xs ys ≡ agree (cmp_items cmp xs ys)
            → elim (agree r) [
              | fails e ↦ fails e
              | returns b ↦ if b then same_items eq xs ys else returns false
            ]
              ≡ agree (elim r [
                | fails e ↦ fails e
                | returns n ↦ if is_zero n then cmp_items cmp xs ys else returns n
              ])
        step (fails e) k = refl
        step (returns (pos zero)) k = k
        step (returns (pos (suc n))) k = refl
        step (returns (negsuc n)) k = refl

    -- Where `eq?` of two items answers as their `cmp_` does, true for 0 and false for any other number,
    -- `eq?` of two tuples answers true exactly where their `cmp_` gives 0.
    pub tuple_eq-cmp_items :
        (xs ys : List ℕ)
        → (tuple_eq eq true xs ys ≡ returns true) ↔ (cmp_items cmp xs ys ≡ returns (pos 0))
    unfolding tuple_eq
    tuple_eq-cmp_items xs ys = (zero_of, true_of)
      where
        zero_of : tuple_eq eq true xs ys ≡ returns true → cmp_items cmp xs ys ≡ returns (pos 0)
        zero_of h = elim (Bool-cases (length xs == length ys)) [
          | inl e ↦ agree-zero (cmp_items cmp xs ys) (rw (e, same_items-agree xs ys e) at h)
          | inr e ↦ ground (arith, rw e at h)
        ]

        true_of : cmp_items cmp xs ys ≡ returns (pos 0) → tuple_eq eq true xs ys ≡ returns true
        true_of h = let e = cmp_items-length xs ys h in rw (e, same_items-agree xs ys e, h) refl
