-- ===== src/Slices.antt =====
-- Slices of sequences: `get_sequence_item` (src/builtins-core.c), and the reading of a slice's indexes,
-- which `List.setItem_` and `List.delItem_` (src/builtins-list.c) repeat line by line. The items of a
-- sequence are numbers: addresses of objects, characters or bytes. Sizes and indexes are within 32 bits.
pub mod Positions
pub mod Select
use prothon.Base.{
  ℕ, zero, suc, ◌+◌, ◌-◌, ◌*◌, ◌/◌, ◌^◌, max, ◌&&◌, Bool, true, false, Option, none, some, List, [],
  ◌∷◌, ltb, leb, ◌==◌, if◌then◌else◌, length, get_elem?, ℤ, pos, negsuc,
}
use prothon.World.{Binary, Exc, index_exc, type_exc}
use prothon.ListObj.{list_sizeof, new_block, append_items}

-- One part of a slice: empty (SLICEPARAM_EMPTY or OBJ(NONE)), an integer, or some other object. `int` holds
-- what `int2i32t` returns, in lists the low 32 bits: for an integer that does not fit 32 bits it raises OVERFLOW_EXC, which stays
-- raised, and returns 0, with which the code goes on.
pub data Index : Type 0 where
  missing : Index
  int : ℤ → Index
  not_int : Index

-- A slice by its length, 1 to 3; a sequence's index that is no slice is `one`.
pub data Slice : Type 0 where
  one : Index → Slice
  two : (first second : Index) → Slice
  three : (first second third : Index) → Slice

-- An index after the length is added to a negative one and its bounds are checked.
pub data Bound : Type 0 where
  unbounded : Bound
  at : ℕ → Bound
  bad : Exc → Bound

-- if (index1 < 0) index1 += self_len; if (index1 < 0 || index1 >= self_len) ...
unfoldable pub first_bound : (self_len : ℕ) → Index → Bound
first_bound n missing = unbounded
first_bound n (int (pos i)) = if ltb i n then at i else bad index_exc
first_bound n (int (negsuc i)) = if ltb i n then at (n - suc i) else bad index_exc
first_bound n not_int = bad type_exc

-- if (index2 < 0) index2 += self_len; if (index2 < 0 || index2 > self_len) ...
unfoldable pub second_bound : (self_len : ℕ) → Index → Bound
second_bound n missing = unbounded
second_bound n (int (pos i)) = if leb i n then at i else bad index_exc
second_bound n (int (negsuc i)) = if ltb i n then at (n - suc i) else bad index_exc
second_bound n not_int = bad type_exc

-- `index3`, which is not 0: the step up or down.
pub data Step : Type 0 where
  forward : ℕ → Step
  backward : ℕ → Step
  bad_step : Exc → Step

unfoldable pub step_of : Index → Step
step_of missing = forward 1
step_of (int (pos zero)) = bad_step index_exc
step_of (int (pos (suc d))) = forward (suc d)
step_of (int (negsuc d)) = backward (suc d)
step_of not_int = bad_step type_exc

abbrev pub first_of : Slice → Index
first_of (one i) = i
first_of (two i j) = i
first_of (three i j k) = i

-- What a slice means: one item, `index1` up to `index2` or down to it by a step, or an exception.
-- Downwards both are counted from 1, since `index2` may be -1. `overflowing`: an `int` may pass its bounds
-- where the indexes and the step are added; what the code does then is not followed.
pub data Range : Type 0 where
  single : ℕ → Range
  up : (first second step : ℕ) → Range
  down : (first second step : ℕ) → Range
  refused : Exc → Range
  indexes_missing : Range
  overflowing : Range

-- `index1` and `index2` where they are left empty; `i` is added for the count from 1.
abbrev pub or_else : Bound → (i d : ℕ) → ℕ
or_else unbounded i d = d
or_else (at n) i d = n + i
or_else (bad e) i d = d

-- The sums index2-index1+(index3-1) and i += index3 stay within 32 bits.
abbrev pub up_range : (index1 index2 index3 : ℕ) → Range
up_range i e d = if leb (e + d) (2 ^ 31) then up i e d else overflowing

abbrev pub down_range : (index1 index2 index3 : ℕ) → Range
down_range i e d = if ltb (i + d) (2 ^ 31) then down i e d else overflowing

unfoldable pub make_range : (self_len : ℕ) → (first second : Bound) → Step → Range
make_range n b c (forward d) = up_range (or_else b 0 0) (or_else c 0 n) d
make_range n b c (backward d) = down_range (or_else b 1 n) (or_else c 1 0) d
make_range n b c (bad_step e) = refused e

unfoldable pub second_range : (self_len : ℕ) → (first : Bound) → Step → (second : Bound) → Range
unfolding make_range
second_range n b s (bad e) = elim s [ bad_step e' ↦ refused e' | _ ↦ refused e ]
second_range n b s unbounded = make_range n b unbounded s
second_range n b s (at i) = make_range n b (at i) s

-- The rest of a slice, after its first index: the step is read before the second index.
unfoldable pub rest_range : (self_len : ℕ) → (first : Bound) → Slice → Range
unfolding second_range step_of second_bound
rest_range n unbounded (one i) = indexes_missing
rest_range n (at k) (one i) = single k
rest_range n (bad e) (one i) = refused e
rest_range n b (two i j) = second_range n b (forward 1) (second_bound n j)
rest_range n b (three i j k) = second_range n b (step_of k) (second_bound n j)

unfoldable pub range_of : (self_len : ℕ) → Slice → Range
unfolding first_bound rest_range
range_of n s = elim (first_bound n (first_of s)) [
  | bad e ↦ refused e
  | unbounded ↦ rest_range n unbounded s
  | at k ↦ rest_range n (at k) s
]

-- for(i = index1; i < index2; i += index3), for the indexes of an `up_range`
unfoldable pub up_from : (fuel i index2 index3 : ℕ) → List ℕ
up_from zero i e d = []
up_from (suc f) i e d = let rest = up_from f (i + d) e d in if ltb i e then i ∷ rest else []

-- for(i = index1; i > index2; i += index3), with `i` and `index2` counted from 1 and the step negated.
unfoldable pub down_from : (fuel i index2 index3 : ℕ) → List ℕ
down_from zero i e d = []
down_from (suc f) i e d =
    let rest = down_from f (i - d) e d in if ltb e i then (i - 1) ∷ rest else []

unfoldable pub up_positions : (index1 index2 index3 : ℕ) → List ℕ
unfolding up_from
up_positions i e d = up_from e i e d

unfoldable pub down_positions : (index1 index2 index3 : ℕ) → List ℕ
unfolding down_from
down_positions i e d = down_from i i e d

-- max((index2-index1+(index3-1))/index3, 0), for the indexes of an `up_range`. Subtraction on ℕ stops at 0 where the C quotient is not
-- positive, since the divisor is more than what is left.
unfoldable pub up_len : (index1 index2 index3 : ℕ) → ℕ
up_len i e d = (e - i + (d - 1)) / d

-- The same expression for a step down by `d`: (index1-index2+d+1)/d.
unfoldable pub down_len : (index1 index2 index3 : ℕ) → ℕ
down_len i e d = (i + d + 1 - e) / d

-- The items at some positions; `none` is a read outside the sequence.
unfoldable pub pick : List ℕ → (positions : List ℕ) → Option (List ℕ)
pick items [] = some []
pick items (p ∷ ps) = elim (get_elem? items p) [
  | none ↦ none
  | some x ↦ elim (pick items ps) [ none ↦ none | some xs ↦ some (x ∷ xs) ]
]

-- SEQ_TYPE_BYTES, SEQ_TYPE_STRING; SEQ_TYPE_TUPLE and SEQ_TYPE_LIST
pub data SeqType : Type 0 where
  seq_bytes seq_string seq_items : SeqType

-- `buffer`: the items of the new string or bytes. `overflow`: memory outside the buffer or the sequence,
-- or an `int` outside its bounds.
pub data Got : Type 0 where
  failed : Exc → Got
  item : ℕ → Got
  buffer : List ℕ → Got
  block : Binary → Got
  overflow : Got

-- The copy into what is allocated: `exp_len` bytes, `exp_len+1` characters, whose bytes are counted by an
-- `int`, or a list that grows, whose bytes are counted by 32 bits.
unfoldable pub copy_into : SeqType → (exp_len : ℕ) → Option (List ℕ) → Got
unfolding new_block append_items
copy_into t n none = overflow
copy_into seq_bytes n (some xs) = if leb (length xs) n then buffer xs else overflow
copy_into seq_string n (some xs) =
    if leb (length xs) (n + 1) && ltb (n * 3 + 3) (2 ^ 31) then buffer xs else overflow
copy_into seq_items n (some xs) = elim (append_items (new_block n) xs) [
  | none ↦ overflow
  | some b ↦ if ltb (list_sizeof (max n 2)) (2 ^ 32) then block b else overflow
]

unfoldable pub get_range : SeqType → List ℕ → Range → Got
unfolding copy_into pick up_positions down_positions up_len down_len
get_range t items (single i) = elim (get_elem? items i) [ none ↦ overflow | some x ↦ item x ]
get_range t items (up i e d) = copy_into t (up_len i e d) (pick items (up_positions i e d))
get_range t items (down i e d) =
    copy_into t (down_len i e d + 1) (pick items (down_positions i e d))
get_range t items (refused e) = failed e
get_range t items indexes_missing = failed index_exc
get_range t items overflowing = overflow

unfoldable pub get_sequence_item : SeqType → (self : List ℕ) → Slice → Got
unfolding get_range range_of
get_sequence_item t items s = get_range t items (range_of (length items) s)
