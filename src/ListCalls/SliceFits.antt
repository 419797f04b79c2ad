-- ===== src/ListCalls/SliceFits.antt =====
-- Assignment to a slice and its deletion stay inside the block of the list.
use prothon.Base.{
  ◌^◌, if◌then◌else◌, ℕ, zero, suc, ◌+◌, ◌-◌, ◌/◌, ◌≤◌, ◌<◌, ◌≡◌, sym, inl, inr, Bool, true, false,
  Option, none, some, List, [], ◌∷◌, ◌++◌, arith, ltb, leb, ◌==◌, length, set, take, drop,
  Bool-cases, length-append, length-take, length-drop, length-set, ==-eq_of_true,
}
use native.Mathlib.Nat.{div-lt_iff_lt-mul}
use prothon.World.{index_exc}
use prothon.Slices.{
  overflowing, Slice, one, two, three, Bound, unbounded, at, bad, Range, single, up, down, refused,
  indexes_missing, first_bound, rest_range, range_of, up_positions, down_positions, up_len,
  down_len,
}
use prothon.Slices.Positions.{
  IsBelow, up_positions-IsBelow, down_positions-IsBelow, length-up_positions, length-down_positions,
}
use prothon.Slices.Select.{IsWithin, range_of-IsWithin}
use prothon.ListMethods.{edited, failed, left_locked, erase_at}
use prothon.ListObj.{list_sizeof}
use prothon.ListSlices.{
  put_at, set_extended, replace, set_range, set_sequence, is_extended, set_item, delete_up, shorten,
  cut, del_range,
}
use prothon.ListCalls.ItemFits.{Fits, or_empty, stored_in-Fits, length-erase_at}

-- Not a slice whose second index is before its first.
unfoldable pub IsOrdered : Range → Type 0
IsOrdered (single i) = Unit
IsOrdered (up i e d) = i ≤ e
IsOrdered (down i e d) = Unit
IsOrdered (refused e) = Unit
IsOrdered indexes_missing = Unit
IsOrdered overflowing = ⊥

-- The same, and not a step down.
unfoldable pub IsForward : Range → Type 0
IsForward (single i) = Unit
IsForward (up i e d) = i ≤ e
IsForward (down i e d) = ⊥
IsForward (refused e) = Unit
IsForward indexes_missing = Unit
IsForward overflowing = ⊥

-- The range of a slice whose first index has been read.
abbrev range_from : Slice → ℕ → Bound → Range
range_from s n b = elim b [
  | bad e ↦ refused e
  | unbounded ↦ rest_range n unbounded s
  | at k ↦ rest_range n (at k) s
]

module _ (size : ℕ) where
  pub put_at-Fits :
      (items ps vs : List ℕ)
      → IsBelow (length items) ps
      → length ps ≤ length vs
      → length items ≤ size
      → 1 ≤ size
      → Fits (set_extended size (put_at items ps vs))
  unfolding put_at set_extended Fits
  put_at-Fits items [] vs below le h p = (h, p)
  put_at-Fits items (q ∷ ps) [] below le h p = elim le [ ]
  put_at-Fits items (q ∷ ps) (v ∷ vs) (lt, below) le h p =
      let n = length-set items q v in
      let rest = put_at-Fits (set items q v) ps vs (rw n below) (omega arith) (rw n h) p in
      let in_list : ltb q (length items) ≡ true = ground arith in rw (put_at, in_list) rest

  pub replace-Fits :
      (items vs : List ℕ) (i e : ℕ)
      → i ≤ e
      → e ≤ length items
      → 1 ≤ size
      → list_sizeof size < 2 ^ 32
      → list_sizeof (length items + length vs + 1) < 2 ^ 32
      → Fits (replace size items vs i e)
  unfolding replace
  replace-Fits items vs i e le in_list p sz more =
      let forward : ltb e i ≡ false = ground arith in
      let total = length-append (take i items ++ vs) (drop e items) in
      let tail = length-append (take i items) vs in
      let first = length-take i items in
      let last = length-drop e items in
      let new_len = i + length vs + (length items - e) in
      let size' = if ltb size (new_len + 1) then new_len + 1 else size in
      let room : new_len ≤ size' = ground arith in
      let one : 1 ≤ size' = ground (arith, p) in
      let small : list_sizeof size' < 2 ^ 32 = ground (arith, le, in_list, sz, more) in
      rw forward (
        stored_in-Fits size' (take i items ++ vs ++ drop e items) none
          (omega (arith, room, total, tail, first, last)) one small)

  pub cut-Fits :
      (items : List ℕ) (i e : ℕ)
      → i ≤ e
      → e ≤ length items
      → length items ≤ size
      → 1 ≤ size
      → Fits (cut size items i e)
  unfolding cut Fits
  cut-Fits items i e le in_list h p =
      let total = length-append (take i items) (drop e items) in
      let first = length-take i items in
      let last = length-drop e items in
      let room : ltb size (i + (length items - e)) ≡ false = ground (arith, le, in_list, h) in
      rw room (omega (arith, total, first, last), p)

  length-delete_up : (j : ℕ) (ps items : List ℕ) → length (delete_up j ps items) ≤ length items
  unfolding delete_up
  length-delete_up j [] items = omega arith
  length-delete_up j (q ∷ ps) items =
      let rest = length-delete_up (suc j) ps (erase_at items (q - j)) in
      omega (arith, length-erase_at items (q - j))

  -- (x + d - 1) / d is at most x.
  quotient_le : (x d : ℕ) → 1 ≤ d → (x + (d - 1)) / d ≤ x
  quotient_le x zero pd = elim pd [ ]
  quotient_le x (suc k) pd =
      let lt : (x + k) / suc k < x + 1 = (div-lt_iff_lt-mul pd).1 (omega arith) in
      let e : suc k - 1 ≡ k = omega arith in rw e (omega (arith, lt))

  pub shorten-Fits :
      (i e d : ℕ) (items : List ℕ)
      → i ≤ e
      → e ≤ length items
      → 1 ≤ d
      → length items ≤ size
      → 1 ≤ size
      → Fits
          (shorten (length items) (e + (d - 1)) i d size (delete_up 0 (up_positions i e d) items))
  unfolding shorten Fits
  shorten-Fits i e d items le in_list pd h p =
      let moved = delete_up 0 (up_positions i e d) items in
      let q = (e + (d - 1) - i) / d in
      let forward : leb i (e + (d - 1)) ≡ true = ground arith in
      let small : q ≤ e - i =
        let eq : e + (d - 1) - i ≡ e - i + (d - 1) = omega arith in
        rw eq (quotient_le (e - i) d pd) in
      let room : leb q (length items) ≡ true = ground (arith, small) in
      rw (forward, room) (omega (arith, length-take (length items - q) moved), p)

  pub set_range-Fits :
      (vs : List ℕ) (x : Bool) (r : Range) (items : List ℕ)
      → IsWithin (length items) r
      → IsOrdered r
      → length items ≤ size
      → 1 ≤ size
      → list_sizeof size < 2 ^ 32
      → list_sizeof (length items + length vs + 1) < 2 ^ 32
      → Fits (set_range vs x r size items)
  unfolding set_range Fits IsWithin IsOrdered
  set_range-Fits vs x (refused e) items w o h p sz more = tt
  set_range-Fits vs x indexes_missing items w o h p sz more = tt
  set_range-Fits vs x overflowing items w o h p sz more = absurd o
  set_range-Fits vs x (single i) items w o h p sz more = tt
  set_range-Fits vs false (up i e d) items (le, pd) o h p sz more =
      replace-Fits items vs i e o le p sz more
  set_range-Fits vs true (up i e d) items (le, pd) o h p sz more =
      elim (Bool-cases (up_len i e d == length vs)) [
        | inr g ↦ rw g tt
        | inl g ↦
            let same = ==-eq_of_true (up_len i e d) (length vs) g in
            let few : length (up_positions i e d) ≤ length vs =
              rw (sym same) (length-up_positions i e d pd) in
            rw g (
              put_at-Fits items (up_positions i e d) vs
                (up_positions-IsBelow i e d (length items) le) few h p)
      ]
  set_range-Fits vs x (down i e d) items (le, pd) o h p sz more =
      elim (Bool-cases (down_len i e d == length vs)) [
        | inr g ↦ rw (set_range, g) tt
        | inl g ↦
            let same = ==-eq_of_true (down_len i e d) (length vs) g in
            let few : length (down_positions i e d) ≤ length vs =
              rw (sym same) (length-down_positions i e d pd) in
            rw (set_range, g)
              (put_at-Fits items (down_positions i e d) vs
                (down_positions-IsBelow i e d (length items) le) few h p)
      ]

  pub del_range-Fits :
      (r : Range) (items : List ℕ)
      → IsWithin (length items) r
      → IsForward r
      → length items ≤ size
      → 1 ≤ size
      → Fits (del_range r size items)
  unfolding del_range Fits IsWithin IsForward
  del_range-Fits (refused e) items w o h p = tt
  del_range-Fits indexes_missing items w o h p = tt
  del_range-Fits overflowing items w o h p = absurd o
  del_range-Fits (single i) items w o h p = (omega (arith, length-erase_at items i), p)
  del_range-Fits (down i e d) items w o h p = absurd o
  del_range-Fits (up i e d) items (le, pd) o h p = elim (Bool-cases (d == 1)) [
    | inl g ↦ rw g (cut-Fits items i e o le h p)
    | inr g ↦ rw g (shorten-Fits i e d items o le pd h p)
  ]

  pub set_sequence-Fits :
      (seq : Option (List ℕ)) (s : Slice) (b : Bound) (items : List ℕ)
      → IsWithin (length items) (rest_range (length items) b s)
      → IsOrdered (rest_range (length items) b s)
      → length items ≤ size
      → 1 ≤ size
      → list_sizeof size < 2 ^ 32
      → list_sizeof (length items + length (or_empty seq) + 1) < 2 ^ 32
      → Fits (set_sequence seq s b size items)
  unfolding set_sequence Fits
  set_sequence-Fits none s b items w o h p sz more = tt
  set_sequence-Fits (some vs) s b items w o h p sz more =
      set_range-Fits vs (is_extended s) (rest_range (length items) b s) items w o h p sz more

  pub set_item-Fits :
      (v : ℕ) (seq : Option (List ℕ)) (s : Slice) (items : List ℕ)
      → IsOrdered (range_of (length items) s)
      → length items ≤ size
      → 1 ≤ size
      → list_sizeof size < 2 ^ 32
      → list_sizeof (length items + length (or_empty seq) + 1) < 2 ^ 32
      → Fits (set_item v seq s size items)
  unfolding set_item set_sequence range_of Fits IsOrdered
  set_item-Fits v seq (one i) items o h p sz more = by_bound (first_bound (length items) i)
    where
      by_bound :
          (b : Bound)
          → Fits (elim b [
            | bad e ↦ failed e
            | unbounded ↦ left_locked index_exc
            | at k ↦ edited size (set items k v) (some v)
          ])
      by_bound (bad e) = tt
      by_bound unbounded = tt
      by_bound (at k) = (omega (arith, length-set items k v), p)
  set_item-Fits v seq (two i j) items o h p sz more =
      by_bound (first_bound (length items) i) (range_of-IsWithin (length items) (two i j)) o
    where
      by_bound :
          (b : Bound)
          → IsWithin (length items) (range_from (two i j) (length items) b)
          → IsOrdered (range_from (two i j) (length items) b)
          → Fits (elim b [
            | bad e ↦ failed e
            | unbounded ↦ set_sequence seq (two i j) unbounded size items
            | at k ↦ set_sequence seq (two i j) (at k) size items
          ])
      by_bound (bad e) w o = tt
      by_bound unbounded w o = set_sequence-Fits seq (two i j) unbounded items w o h p sz more
      by_bound (at k) w o = set_sequence-Fits seq (two i j) (at k) items w o h p sz more
  set_item-Fits v seq (three i j k) items o h p sz more =
      by_bound (first_bound (length items) i) (range_of-IsWithin (length items) (three i j k)) o
    where
      by_bound :
          (b : Bound)
          → IsWithin (length items) (range_from (three i j k) (length items) b)
          → IsOrdered (range_from (three i j k) (length items) b)
          → Fits (elim b [
            | bad e ↦ failed e
            | unbounded ↦ set_sequence seq (three i j k) unbounded size items
            | at n ↦ set_sequence seq (three i j k) (at n) size items
          ])
      by_bound (bad e) w o = tt
      by_bound unbounded w o = set_sequence-Fits seq (three i j k) unbounded items w o h p sz more
      by_bound (at n) w o = set_sequence-Fits seq (three i j k) (at n) items w o h p sz more
