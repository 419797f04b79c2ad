-- ===== src/Slices/Select.antt =====
-- What a slice selects: `get_sequence_item` on every kind of slice and sequence.
use prothon.Base.{
  ◌*◌, ltb, Bool-cases, ◌^◌, inl, inr, ℕ, zero, suc, ◌+◌, ◌≤◌, ◌<◌, ◌≡◌, refl, ap, true, List, [],
  ◌∷◌, arith, some, leb, length, get_elem?, get_or, max, pos, negsuc,
}
use prothon.World.{index_exc, list_data}
use prothon.ListObj.{new_block, list_sizeof}
use prothon.ListObj.Laws.{append_items-lem}
use prothon.Slices.{
  overflowing, up_range, down_range, Index, missing, int, not_int, Slice, one, two, three, Bound,
  unbounded, at, bad, Step, forward, backward, bad_step, Range, single, up, down, refused,
  indexes_missing, first_bound, second_bound, step_of, first_of, or_else, make_range, second_range,
  rest_range, range_of, up_positions, down_positions, up_len, down_len, pick, SeqType, seq_bytes,
  seq_string, seq_items, Got, failed, item, buffer, block, copy_into, get_range, get_sequence_item,
}
use prothon.Slices.Positions.{
  IsBelow, up_positions-IsBelow, down_positions-IsBelow, length-up_positions, length-down_positions,
  up_len-le, down_len-le,
}

-- The items at some positions of a sequence.
abbrev pub selected : List ℕ → List ℕ → List ℕ
selected items [] = []
selected items (p ∷ ps) = get_or items p 0 ∷ selected items ps

-- A range within a sequence of `n` items.
unfoldable pub IsWithin : (n : ℕ) → Range → Type 0
IsWithin n (single i) = i < n
IsWithin n (up i e d) = (e ≤ n) × (1 ≤ d)
IsWithin n (down i e d) = (i ≤ n) × (1 ≤ d)
IsWithin n (refused e) = Unit
IsWithin n indexes_missing = Unit
IsWithin n overflowing = Unit

-- No sum of the indexes and the step passes 32 bits.
unfoldable pub IsNarrow : Range → Type 0
IsNarrow (single i) = Unit
IsNarrow (up i e d) = Unit
IsNarrow (down i e d) = Unit
IsNarrow (refused e) = Unit
IsNarrow indexes_missing = Unit
IsNarrow overflowing = ⊥

-- The new sequence of the items `xs`.
abbrev pub Holds : SeqType → (xs : List ℕ) → Got → Type 0
Holds seq_bytes xs g = g ≡ buffer xs
Holds seq_string xs g = g ≡ buffer xs
Holds seq_items xs g = (size : ℕ) × (length xs ≤ size) × (g ≡ block (list_data size xs))

-- What is returned for each range.
unfoldable pub Selects : SeqType → (items : List ℕ) → Range → Got → Type 0
Selects t items (single i) g = g ≡ item (get_or items i 0)
Selects t items (up i e d) g = Holds t (selected items (up_positions i e d)) g
Selects t items (down i e d) g = Holds t (selected items (down_positions i e d)) g
Selects t items (refused e) g = g ≡ failed e
Selects t items indexes_missing g = g ≡ failed index_exc
Selects t items overflowing g = ⊥

leb-true : (a b : ℕ) → a ≤ b → leb a b ≡ true
leb-true a b h = ground arith

IsIn : (n : ℕ) → Bound → Type 0
IsIn n unbounded = Unit
IsIn n (at i) = i < n
IsIn n (bad e) = Unit

IsUpTo : (n : ℕ) → Bound → Type 0
IsUpTo n unbounded = Unit
IsUpTo n (at i) = i ≤ n
IsUpTo n (bad e) = Unit

IsStep : Step → Type 0
IsStep (forward d) = 1 ≤ d
IsStep (backward d) = 1 ≤ d
IsStep (bad_step e) = Unit

first_bound-IsIn : (n : ℕ) (i : Index) → IsIn n (first_bound n i)
unfolding first_bound IsIn
first_bound-IsIn n missing = tt
first_bound-IsIn n (int (pos i)) = ground arith
first_bound-IsIn n (int (negsuc i)) = ground arith
first_bound-IsIn n not_int = tt

second_bound-IsUpTo : (n : ℕ) (i : Index) → IsUpTo n (second_bound n i)
unfolding second_bound IsUpTo
second_bound-IsUpTo n missing = tt
second_bound-IsUpTo n (int (pos i)) = ground arith
second_bound-IsUpTo n (int (negsuc i)) = ground arith
second_bound-IsUpTo n not_int = tt

step_of-IsStep : (i : Index) → IsStep (step_of i)
unfolding step_of IsStep
step_of-IsStep missing = ground arith
step_of-IsStep (int (pos zero)) = tt
step_of-IsStep (int (pos (suc d))) = ground arith
step_of-IsStep (int (negsuc d)) = ground arith
step_of-IsStep not_int = tt

start-le : (n : ℕ) (b : Bound) → IsIn n b → or_else b 1 n ≤ n
unfolding IsIn
start-le n unbounded h = omega arith
start-le n (at i) h = omega arith
start-le n (bad e) h = omega arith

up_range-IsWithin : (n i e d : ℕ) → e ≤ n → 1 ≤ d → IsWithin n (up_range i e d)
unfolding IsWithin
up_range-IsWithin n i e d le pd = elim (Bool-cases (leb (e + d) (2 ^ 31))) [
  | inl h ↦ rw h (le, pd)
  | inr h ↦ rw h tt
]

down_range-IsWithin : (n i e d : ℕ) → i ≤ n → 1 ≤ d → IsWithin n (down_range i e d)
unfolding IsWithin
down_range-IsWithin n i e d le pd = elim (Bool-cases (ltb (i + d) (2 ^ 31))) [
  | inl h ↦ rw h (le, pd)
  | inr h ↦ rw h tt
]

second_range-IsWithin :
    (n : ℕ) (b c : Bound) (s : Step)
    → IsIn n b
    → IsUpTo n c
    → IsStep s
    → IsWithin n (second_range n b s c)
unfolding second_range make_range IsWithin IsIn IsUpTo IsStep
second_range-IsWithin n b unbounded (forward d) hb hc hs =
    up_range-IsWithin n (or_else b 0 0) n d (omega arith) hs
second_range-IsWithin n b unbounded (backward d) hb hc hs =
    down_range-IsWithin n (or_else b 1 n) 0 d (start-le n b hb) hs
second_range-IsWithin n b unbounded (bad_step e) hb hc hs = tt
second_range-IsWithin n b (at i) (forward d) hb hc hs =
    up_range-IsWithin n (or_else b 0 0) (i + 0) d (omega (arith, hc)) hs
second_range-IsWithin n b (at i) (backward d) hb hc hs =
    down_range-IsWithin n (or_else b 1 n) (i + 1) d (start-le n b hb) hs
second_range-IsWithin n b (at i) (bad_step e) hb hc hs = tt
second_range-IsWithin n b (bad e) (forward d) hb hc hs = tt
second_range-IsWithin n b (bad e) (backward d) hb hc hs = tt
second_range-IsWithin n b (bad e) (bad_step e') hb hc hs = tt

rest_range-IsWithin : (n : ℕ) (b : Bound) (s : Slice) → IsIn n b → IsWithin n (rest_range n b s)
unfolding rest_range IsWithin IsIn IsStep
rest_range-IsWithin n unbounded (one i) h = tt
rest_range-IsWithin n (at k) (one i) h = h
rest_range-IsWithin n (bad e) (one i) h = tt
rest_range-IsWithin n b (two i j) h =
    second_range-IsWithin n b (second_bound n j) (forward 1) h (second_bound-IsUpTo n j)
      (omega arith)
rest_range-IsWithin n b (three i j k) h =
    second_range-IsWithin n b (second_bound n j) (step_of k) h (second_bound-IsUpTo n j)
      (step_of-IsStep k)

-- The range of a slice is within the sequence, whatever the slice holds.
pub range_of-IsWithin : (n : ℕ) (s : Slice) → IsWithin n (range_of n s)
unfolding range_of IsWithin
range_of-IsWithin n s = go (first_bound n (first_of s)) (first_bound-IsIn n (first_of s))
  where
    go :
        (b : Bound)
        → IsIn n b
        → IsWithin n (elim b [
          | bad e ↦ refused e
          | unbounded ↦ rest_range n unbounded s
          | at k ↦ rest_range n (at k) s
        ])
    go (bad e) h = tt
    go unbounded h = rest_range-IsWithin n unbounded s h
    go (at k) h = rest_range-IsWithin n (at k) s h

get_elem?-get_or :
    (items : List ℕ) (i : ℕ) → i < length items → get_elem? items i ≡ some (get_or items i 0)
get_elem?-get_or [] i h = elim h [ ]
get_elem?-get_or (x ∷ xs) zero h = refl
get_elem?-get_or (x ∷ xs) (suc i) h = get_elem?-get_or xs i (omega arith)

pick-selected :
    (items ps : List ℕ) → IsBelow (length items) ps → pick items ps ≡ some (selected items ps)
unfolding pick
pick-selected items [] h = refl
pick-selected items (p ∷ ps) (lt, h) =
    rw (pick, get_elem?-get_or items p lt, pick-selected items ps h) refl

length-selected : (items ps : List ℕ) → length (selected items ps) ≡ length ps
length-selected items [] = refl
length-selected items (p ∷ ps) = ap suc (length-selected items ps)

-- What is allocated has room for the items, and a list does not grow.
copy_into-Holds :
    (t : SeqType) (n : ℕ) (xs : List ℕ)
    → length xs ≤ n
    → n ≤ 2 ^ 28 + 3
    → Holds t xs (copy_into t n (some xs))
unfolding copy_into new_block
copy_into-Holds seq_bytes n xs h few = rw (leb-true (length xs) n h) refl
copy_into-Holds seq_string n xs h few =
    let small : ltb (n * 3 + 3) (2 ^ 31) ≡ true = ground (arith, few) in
    rw (leb-true (length xs) (n + 1) (omega arith), small) refl
copy_into-Holds seq_items n xs h few =
    let small : ltb (list_sizeof (max n 2)) (2 ^ 32) ≡ true = ground (arith, few) in
    (
      max n 2,
      omega arith,
      rw (copy_into, append_items-lem (max n 2) [] xs (omega arith), small) refl,
    )

-- A slice of a sequence of any kind and at most 2 ^ 28 items, whose indexes and step do not add up to more than 32 bits hold, never
-- reads outside the sequence and never writes outside the new one. One index gives the item there; a range gives a new sequence of the items at its positions, in
-- their order; an index of a wrong type or out of range, a step of 0 and a missing index give their
-- exceptions.
pub get_sequence_item-lem :
    (t : SeqType) (items : List ℕ) (s : Slice)
    → length items ≤ 2 ^ 28
    → IsNarrow (range_of (length items) s)
    → Selects t items (range_of (length items) s) (get_sequence_item t items s)
unfolding get_sequence_item get_range Selects IsWithin IsNarrow
get_sequence_item-lem t items s few narrow =
    by_range (range_of (length items) s) (range_of-IsWithin (length items) s) narrow
  where
    picked :
        (ps : List ℕ) (n : ℕ)
        → IsBelow (length items) ps
        → length ps ≤ n
        → n ≤ 2 ^ 28 + 3
        → Holds t (selected items ps) (copy_into t n (pick items ps))
    picked ps n below le small =
        rw (pick-selected items ps below)
          (copy_into-Holds t n (selected items ps) (omega (arith, length-selected items ps)) small)

    by_range :
        (r : Range)
        → IsWithin (length items) r
        → IsNarrow r
        → Selects t items r (get_range t items r)
    by_range (single i) h narrow = rw (get_range, get_elem?-get_or items i h) refl
    by_range (up i e d) (le, pd) narrow =
        picked (up_positions i e d) (up_len i e d) (up_positions-IsBelow i e d (length items) le)
          (length-up_positions i e d pd) (omega (arith, up_len-le i e d pd, le, few))
    by_range (down i e d) (le, pd) narrow =
        picked (down_positions i e d) (down_len i e d + 1)
          (down_positions-IsBelow i e d (length items) le)
          (omega (arith, length-down_positions i e d pd))
          (omega (arith, down_len-le i e d pd, le, few))
    by_range (refused e) h narrow = refl
    by_range indexes_missing h narrow = refl
    by_range overflowing h narrow = absurd narrow
