-- ===== src/Tests/Orders.antt =====
-- The theorems on tuples at concrete ones.
use prothon.Base.{
  ℕ, ◌≡◌, refl, ◌↔◌, Bool, true, false, some, [], ◌∷◌, arith, ltb, ◌==◌, if◌then◌else◌, ℤ, pos,
}
use prothon.ListMethods.{Reply, equal, unequal}
use prothon.Tuples.{Result, returns, minus_one, cmp_items, tuple_eq, tuple_max, tuple_count}
use prothon.Tuples.Equal.{agree, tuple_eq-cmp_items}
use prothon.Tuples.Laws.{turned, Compares}

-- Items that are numbers, compared as such.
abbrev order_of : ℕ → ℕ → ℤ
order_of x y = if ltb x y then minus_one else if x == y then pos 0 else pos 1

abbrev by_number : ℕ → ℕ → Result ℤ
by_number x y = returns (order_of x y)

by_number-turned : (x y : ℕ) → by_number y x ≡ turned (by_number x y)
by_number-turned x y = ground arith

by_number-Compares : Compares by_number (λ x. x)
by_number-Compares = record { sign = order_of; total = λ x y. refl; less = λ x y. ground arith }

abbrev same_number : ℕ → ℕ → Result Bool
same_number x y = returns (x == y)

same_number-agree : (x y : ℕ) → same_number x y ≡ agree (by_number x y)
same_number-agree x y = ground arith

tuple_eq-cmp_items_example :
    (tuple_eq same_number true (1 ∷ 3 ∷ []) (1 ∷ 3 ∷ []) ≡ returns true)
    ↔ (cmp_items by_number (1 ∷ 3 ∷ []) (1 ∷ 3 ∷ []) ≡ returns (pos 0))
tuple_eq-cmp_items_example =
    tuple_eq-cmp_items by_number same_number same_number-agree (1 ∷ 3 ∷ []) (1 ∷ 3 ∷ [])

-- The lengths differ.
not_same : tuple_eq same_number true (1 ∷ 3 ∷ []) (1 ∷ []) ≡ returns false
unfolding tuple_eq
not_same = refl

abbrev is_two : ℕ → Reply
is_two x = if x == 2 then equal else unequal

two_twice : tuple_count is_two (4 ∷ 2 ∷ 2 ∷ []) ≡ returns 2
unfolding tuple_count
two_twice = refl

greatest : tuple_max by_number (4 ∷ 2 ∷ 7 ∷ []) ≡ returns (some 7)
unfolding tuple_max
greatest = refl
