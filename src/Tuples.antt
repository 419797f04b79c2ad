-- ===== src/Tuples.antt =====
-- The methods of tuples that compare their items (src/builtins-tuple.c, DEF(Tuple, ...)), which lists
-- inherit. The methods `cmp_` and `eq?` of the items are scripts or built-in functions: what they return
-- is a parameter. The methods run under the caller's read lock, so the items do not change.
pub mod Laws
pub mod Equal
use prothon.Base.{
  ℕ, zero, suc, ◌+◌, Bool, true, false, Option, none, some, List, [], ◌∷◌, ◌==◌, if◌then◌else◌,
  length, ℤ, pos, negsuc, is_neg,
}
use prothon.World.{Exc, index_exc}
use prothon.ListMethods.{Reply, equal, unequal, raised}

-- What a method returns, or the exception that it raises or that has come from an item's method.
pub data Result {ℓ} (A : Type ℓ) : Type ℓ where
  returns : A → Result A
  fails : Exc → Result A

abbrev pub minus_one : ℤ
minus_one = negsuc 0

-- res->data.i64 is not 0.
abbrev pub is_zero : ℤ → Bool
is_zero (pos zero) = true
is_zero (pos (suc n)) = false
is_zero (negsuc n) = false

abbrev pub is_pos : ℤ → Bool
is_pos (pos zero) = false
is_pos (pos (suc n)) = true
is_pos (negsuc n) = false

module _ (cmp : (item other : ℕ) → Result ℤ) where
  -- The loop of `cmp_` up to the shorter length, and the comparison of the lengths.
  unfoldable pub cmp_items : (self other : List ℕ) → Result ℤ
  cmp_items [] [] = returns (pos 0)
  cmp_items [] (y ∷ ys) = returns minus_one
  cmp_items (x ∷ xs) [] = returns (pos 1)
  cmp_items (x ∷ xs) (y ∷ ys) =
      let rest = cmp_items xs ys in
      elim (cmp x y) [ fails e ↦ fails e | returns n ↦ if is_zero n then rest else returns n ]

  -- The loops of `min` and `max`, where `better` tests the sign of a comparison.
  unfoldable pub best_from : (better : ℤ → Bool) → (best : ℕ) → List ℕ → Result (Option ℕ)
  best_from better best [] = returns (some best)
  best_from better best (x ∷ xs) = elim (cmp x best) [
    | fails e ↦ fails e
    | returns n ↦ elim (better n) [
      | true ↦ best_from better x xs
      | false ↦ best_from better best xs
    ]
  ]

  -- The first comparison is of the first item with the second one.
  unfoldable pub best_of : (better : ℤ → Bool) → List ℕ → Result (Option ℕ)
  unfolding best_from
  best_of better [] = returns none
  best_of better (x ∷ []) = returns (some x)
  best_of better (x ∷ y ∷ xs) = elim (cmp x y) [
    | fails e ↦ fails e
    | returns n ↦ elim (better n) [ true ↦ best_from better x xs | false ↦ best_from better y xs ]
  ]

  -- `none` is OBJ(NONE).
  unfoldable pub tuple_min : List ℕ → Result (Option ℕ)
  unfolding best_of
  tuple_min = best_of is_neg

  unfoldable pub tuple_max : List ℕ → Result (Option ℕ)
  unfolding best_of
  tuple_max = best_of is_pos

module _ (eq : (item other : ℕ) → Result Bool) where
  -- The loop of `eq?`, which runs on tuples of one length: `returns false` is OBJ(PR_FALSE), and any
  -- other object counts as true.
  unfoldable pub same_items : (self other : List ℕ) → Result Bool
  same_items [] ys = returns true
  same_items (x ∷ xs) [] = returns true
  same_items (x ∷ xs) (y ∷ ys) =
      let rest = same_items xs ys in
      elim (eq x y) [ fails e ↦ fails e | returns b ↦ if b then rest else returns false ]

  -- `is_seq` is has_proto(ist, parms[1], OBJ(SEQ_PROTO)).
  unfoldable pub tuple_eq : (is_seq : Bool) → (self other : List ℕ) → Result Bool
  unfolding same_items
  tuple_eq false xs ys = returns false
  tuple_eq true xs ys = if length xs == length ys then same_items xs ys else returns false

module _ (eq : ℕ → Reply) where
  unfoldable pub r_in : List ℕ → Result Bool
  r_in [] = returns false
  r_in (x ∷ xs) =
      let rest = r_in xs in
      elim (eq x) [ equal ↦ returns true | unequal ↦ rest | raised e ↦ fails e ]

  unfoldable pub r_not_in : List ℕ → Result Bool
  r_not_in [] = returns true
  r_not_in (x ∷ xs) =
      let rest = r_not_in xs in
      elim (eq x) [ equal ↦ returns false | unequal ↦ rest | raised e ↦ fails e ]

  unfoldable pub count_from : (cnt : ℕ) → List ℕ → Result ℕ
  count_from cnt [] = returns cnt
  count_from cnt (x ∷ xs) =
      let more = count_from (cnt + 1) xs in
      let same = count_from cnt xs in
      elim (eq x) [ equal ↦ more | unequal ↦ same | raised e ↦ fails e ]

  unfoldable pub tuple_count : List ℕ → Result ℕ
  unfolding count_from
  tuple_count = count_from 0

  unfoldable pub index_from : (i : ℕ) → List ℕ → Result ℕ
  index_from i [] = fails index_exc
  index_from i (x ∷ xs) =
      let rest = index_from (i + 1) xs in
      elim (eq x) [ equal ↦ returns i | unequal ↦ rest | raised e ↦ fails e ]

  unfoldable pub tuple_index : List ℕ → Result ℕ
  unfolding index_from
  tuple_index = index_from 0
