-- ===== src/ListMethods.antt =====
-- The methods of lists (src/builtins-list.c, DEF(List, ...)) that add, remove and move items: what each
-- does to the block of the list between `def_write_lock` and `def_write_unlock`. `imul_` copies the items
-- before it takes the lock. A parameter that is no integer, which `insert_BANG`, `pop_BANG` and `imul_`
-- refuse with TYPE_EXC before they take the lock, is left out, as is a failed allocation.
pub mod Change
pub mod Reverse
use prothon.Base.{
  ℕ, zero, suc, ◌+◌, ◌-◌, ◌*◌, ◌/◌, ◌^◌, Bool, true, false, not, ◌&&◌, ◌||◌, Option, none, some,
  List, [], ◌∷◌, ◌++◌, ltb, leb, ◌==◌, if◌then◌else◌, length, get_elem?, get_or, set, take, drop, ℤ,
  pos, negsuc,
}
use prothon.World.{
  Binary, no_data, imm_data, list_data, Obj, Exc, index_exc, type_exc, internal_exc, World, Cmd, ok,
  aborted, ◌>>=◌, ◌>>◌, when◌then◌else◌, pure, skip, get_obj, put_obj, raise_exception,
}
use prothon.Lock.{read_lock, read_unlock, write_lock, write_unlock}
use prothon.ListObj.{list_sizeof, list_growth_factor, room_for_one}
use prothon.Slices.{
  overflowing, Index, missing, int, not_int, Slice, one, two, three, Bound, unbounded, at, bad,
  Range, single, up, down, refused, indexes_missing, first_bound, first_of, rest_range, range_of,
  up_positions, down_positions, up_len, down_len,
}

-- What a method does to the block: the new size and items with the result, an exception, an exception
-- after which the method returns without `def_write_unlock`, or a use of memory that is not the list's.
pub data Edit : Type 0 where
  edited : (size : ℕ) → (items : List ℕ) → (res : Option ℕ) → Edit
  failed : Exc → Edit
  left_locked : Exc → Edit
  faulted : Edit

-- The items are stored in a block of `size` items. Where they are more, or where the bytes of the block
-- have more than 32 bits, so that a smaller one is allocated, memory behind the block is written.
abbrev pub stored_in : (size : ℕ) → (items : List ℕ) → (res : Option ℕ) → Edit
stored_in size items res =
    if leb (length items) size && ltb (list_sizeof size) (2 ^ 32)
    then edited size items res
    else faulted

-- Where the memory moves end.
abbrev pub erase_at : List ℕ → ℕ → List ℕ
erase_at items i = take i items ++ drop (suc i) items

unfoldable pub append_bang : (self item : ℕ) → (size : ℕ) → List ℕ → Edit
append_bang self item size items =
    stored_in (room_for_one size items) (items ++ item ∷ []) (some self)

-- `other`: the items of a tuple or a list, none where the parameter is neither.
unfoldable pub extend_bang : (self : ℕ) → (other : Option (List ℕ)) → (size : ℕ) → List ℕ → Edit
extend_bang self none size items = left_locked type_exc
extend_bang self (some other) size items =
    let total = length items + length other in
    stored_in (if ltb size total then total * list_growth_factor else size) (items ++ other)
      (some self)

unfoldable pub insert_bang : (self : ℕ) → (index : ℤ) → (item : ℕ) → (size : ℕ) → List ℕ → Edit
insert_bang self (negsuc i) item size items = failed index_exc
insert_bang self (pos i) item size items =
    if ltb (length items) i
    then failed index_exc
    else stored_in (room_for_one size items) (take i items ++ item ∷ drop i items) (some self)

-- The answer of an item's method `eq?`: an object that is OBJ(PR_TRUE) or not, or an exception.
pub data Reply : Type 0 where
  equal unequal : Reply
  raised : Exc → Reply

-- for (i=0; i < self_len; i++): the items that are left, and `i`.
unfoldable pub remove_from : (eq : ℕ → Reply) → (self i size : ℕ) → (rest items : List ℕ) → Edit
remove_from eq self i size [] items = failed index_exc
remove_from eq self i size (x ∷ rest) items =
    let next = remove_from eq self (suc i) size rest items in
    elim (eq x) [
      | equal ↦ edited size (erase_at items i) (some self)
      | unequal ↦ next
      | raised e ↦ left_locked e
    ]

unfoldable pub remove_bang : (eq : ℕ → Reply) → (self : ℕ) → (size : ℕ) → List ℕ → Edit
unfolding remove_from
remove_bang eq self size items = remove_from eq self 0 size items items

-- listitem(self, index), with the memory move and the shorter length behind it.
abbrev pub pop_at : ℕ → ℕ → List ℕ → Edit
pop_at i size items = elim (get_elem? items i) [
  | none ↦ failed index_exc
  | some x ↦ edited size (erase_at items i) (some x)
]

-- `self_len-1` is unsigned: no index that is not negative exceeds it where the list is empty.
unfoldable pub pop_bang : (index : Option ℤ) → (size : ℕ) → List ℕ → Edit
pop_bang none size [] = failed index_exc
pop_bang none size (x ∷ items) = pop_at (length items) size (x ∷ items)
pop_bang (some (negsuc i)) size items = failed index_exc
pop_bang (some (pos i)) size [] = faulted
pop_bang (some (pos i)) size (x ∷ items) = pop_at i size (x ∷ items)

-- while(p1<p2): p1 and p2 as indexes.
unfoldable pub swap_ends : (fuel p1 p2 : ℕ) → List ℕ → List ℕ
swap_ends zero i j items = items
swap_ends (suc f) i j items =
    let swapped = set (set items j (get_or items i 0)) i (get_or items j 0) in
    let rest = swap_ends f (i + 1) (j - 1) swapped in if ltb i j then rest else items

unfoldable pub reverse_bang : (self : ℕ) → (size : ℕ) → List ℕ → Edit
unfolding swap_ends
reverse_bang self size items =
    edited size (swap_ends (length items) 0 (length items - 1) items) (some self)

-- `clear`, that `imul_` calls, and the memory copies of `imul_`: a copy of the items for each time.
unfoldable pub repeated : (times : ℕ) → List ℕ → List ℕ
repeated zero items = []
repeated (suc n) items = items ++ repeated n items

-- The block of the result of `imul_`, for a number of times that fits an `int`. The block has room for
-- len*times items, but for the conversion of its bytes to 32 bits; a number of times below 0 makes the
-- length negative where there are items, and copies none.
unfoldable pub multiply : (self : ℕ) → (times : ℤ) → (size : ℕ) → List ℕ → Edit
unfolding repeated
multiply self (negsuc n) size [] = edited 0 [] (some self)
multiply self (negsuc n) size (x ∷ items) = faulted
multiply self (pos zero) size items = edited size [] (some self)
multiply self (pos (suc zero)) size items = edited size items (some self)
multiply self (pos (suc (suc n))) size items =
    stored_in (length items * suc (suc n)) (repeated (suc (suc n)) items) (some self)
