-- ===== src/ListSlices.antt =====
-- `List.setItem_` and `List.delItem_` (src/builtins-list.c): assignment to a slice of a list and its
-- deletion, as edits of the block.
use prothon.Base.{
  ℕ, suc, ◌+◌, ◌-◌, ◌/◌, Bool, true, false, ◌&&◌, Option, none, some, List, [], ◌∷◌, ◌++◌, ltb, leb,
  ◌==◌, if◌then◌else◌, length, set, take, drop,
}
use prothon.World.{index_exc, type_exc, when◌then◌else◌}
use prothon.Slices.{
  overflowing, Slice, one, two, three, Bound, unbounded, at, bad, Range, single, up, down, refused,
  indexes_missing, first_bound, rest_range, range_of, up_positions, down_positions, up_len,
  down_len,
}
use prothon.ListMethods.{stored_in, Edit, edited, failed, left_locked, faulted, erase_at}

-- listitem(self, i) = seq_item(ist, value, j), for each position in turn.
unfoldable pub put_at : List ℕ → (positions value : List ℕ) → Option (List ℕ)
put_at items [] vs = some items
put_at items (p ∷ ps) [] = none
put_at items (p ∷ ps) (v ∷ vs) =
    let rest = put_at (set items p v) ps vs in if ltb p (length items) then rest else none

-- The part of `setItem_` for a slice of three, after the lengths have been compared.
unfoldable pub set_extended : (size : ℕ) → Option (List ℕ) → Edit
set_extended size none = faulted
set_extended size (some items) = edited size items none

-- The part of `setItem_` for a slice of two. Where `index2` is before `index1`, the length grows, and
-- without a value no memory is moved there.
unfoldable pub replace : (size : ℕ) → (items value : List ℕ) → (index1 index2 : ℕ) → Edit
replace size items value i e =
    let new_len = i + length value + (length items - e) in
    if ltb e i && (length value == 0)
    then faulted
    else stored_in (if ltb size (new_len + 1) then new_len + 1 else size)
        (take i items ++ value ++ drop e items) none

abbrev pub is_extended : Slice → Bool
is_extended (one i) = false
is_extended (two i j) = false
is_extended (three i j k) = true

unfoldable pub set_range : (value : List ℕ) → (extended : Bool) → Range → (size : ℕ) → List ℕ → Edit
unfolding put_at set_extended replace up_positions down_positions up_len down_len
set_range vs x (refused e) size items = failed e
set_range vs x indexes_missing size items = left_locked index_exc
set_range vs x (single i) size items = failed type_exc
set_range vs x overflowing size items = faulted
set_range vs false (up i e d) size items = replace size items vs i e
set_range vs true (up i e d) size items =
    if up_len i e d == length vs
    then set_extended size (put_at items (up_positions i e d) vs)
    else failed index_exc
set_range vs x (down i e d) size items =
    if down_len i e d == length vs
    then set_extended size (put_at items (down_positions i e d) vs)
    else failed index_exc

-- `value` and, where it is a list, a tuple or a string, its items; it is another object than `self`.
unfoldable pub set_sequence :
    (sequence : Option (List ℕ)) → Slice → Bound → (size : ℕ) → List ℕ → Edit
unfolding set_range rest_range
set_sequence none s b size items = failed type_exc
set_sequence (some vs) s b size items =
    set_range vs (is_extended s) (rest_range (length items) b s) size items

unfoldable pub set_item :
    (value : ℕ) → (sequence : Option (List ℕ)) → Slice → (size : ℕ) → List ℕ → Edit
unfolding set_sequence first_bound
set_item v seq (one i) size items = elim (first_bound (length items) i) [
  | bad e ↦ failed e
  | unbounded ↦ left_locked index_exc
  | at k ↦ edited size (set items k v) (some v)
]
set_item v seq (two i j) size items = elim (first_bound (length items) i) [
  | bad e ↦ failed e
  | unbounded ↦ set_sequence seq (two i j) unbounded size items
  | at k ↦ set_sequence seq (two i j) (at k) size items
]
set_item v seq (three i j k) size items = elim (first_bound (length items) i) [
  | bad e ↦ failed e
  | unbounded ↦ set_sequence seq (three i j k) unbounded size items
  | at n ↦ set_sequence seq (three i j k) (at n) size items
]

-- The memory moves of `delItem_` for a step up: `j` items have gone before the one at `i`.
unfoldable pub delete_up : (j : ℕ) → (positions items : List ℕ) → List ℕ
delete_up j [] items = items
delete_up j (p ∷ ps) items = delete_up (suc j) ps (erase_at items (p - j))

-- The same for a step down.
unfoldable pub delete_down : (positions items : List ℕ) → List ℕ
delete_down [] items = items
delete_down (p ∷ ps) items = delete_down ps (erase_at items p)

-- listlen(self) -= exp_len, where exp_len is (plus - minus) / step, unsigned: a negative quotient
-- makes the list longer by items that were never stored.
unfoldable pub shorten : (self_len plus minus step : ℕ) → (size : ℕ) → (moved : List ℕ) → Edit
shorten n plus minus d size moved =
    if leb minus plus
    then (if leb ((plus - minus) / d) n
        then edited size (take (n - (plus - minus) / d) moved) none
        else faulted)
    else if (minus - plus) / d == 0
    then edited size moved none
    else faulted

-- The part of `delItem_` for a step of 1. Where `index2` is before `index1`, the list grows.
unfoldable pub cut : (size : ℕ) → List ℕ → (index1 index2 : ℕ) → Edit
cut size items i e =
    let new_len = i + (length items - e) in
    if ltb size new_len then faulted else edited size (take i items ++ drop e items) none

unfoldable pub del_range : Range → (size : ℕ) → List ℕ → Edit
unfolding delete_up delete_down shorten cut up_positions down_positions
del_range (refused e) size items = failed e
del_range indexes_missing size items = left_locked index_exc
del_range (single i) size items = edited size (erase_at items i) none
del_range overflowing size items = faulted
del_range (up i e d) size items =
    if d == 1
    then cut size items i e
    else shorten (length items) (e + (d - 1)) i d size (delete_up 0 (up_positions i e d) items)
del_range (down i e d) size items =
    shorten (length items) (i + d + 1) e d size (delete_down (down_positions i e d) items)

unfoldable pub del_item : Slice → (size : ℕ) → List ℕ → Edit
unfolding del_range range_of
del_item s size items = del_range (range_of (length items) s) size items
