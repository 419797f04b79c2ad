-- ===== src/ListObj.antt =====
-- Lists (src/builtins-list.c): the block of a list object and the functions that read and write it.
-- An object is given by its address.
pub mod Laws
use prothon.Base.{
  ℕ, zero, suc, ◌+◌, ◌-◌, ◌*◌, max, Bool, true, false, Option, none, some, List, [], ◌∷◌, ◌++◌, ltb,
  ◌==◌, if◌then◌else◌, length, get_elem?, set,
}
use prothon.World.{
  Binary, no_data, imm_data, list_data, Obj, World, Cmd, ok, aborted, ◌>>=◌, ◌>>◌, when◌then◌else◌,
  pure, skip, get_obj, put_obj,
}
use prothon.Lock.{read_lock, read_unlock, write_lock, write_unlock}

-- LIST_GROWTH_FACTOR
abbrev pub list_growth_factor : ℕ
list_growth_factor = 2

-- The block that `new_list_obj` and `init_list_data` allocate.
unfoldable pub new_block : (initial_size : ℕ) → Binary
new_block initial_size = list_data (max initial_size 2) []

-- list_sizeof(n), before its conversion to the 32 bits of `data_size_t`: a header of 16 bytes, and 8 for
-- each item.
abbrev pub list_sizeof : ℕ → ℕ
list_sizeof n = 16 + n * 8

-- if(lstplen(lstp) == lstpsize(lstp)) { ... }
abbrev pub room_for_one : (size : ℕ) → List ℕ → ℕ
room_for_one size items = if length items == size then size * list_growth_factor else size

-- What `list_append` and `list_append_no_lock` do to the block; `none` where it is no list.
unfoldable pub append_item : Binary → (item : ℕ) → Option Binary
append_item no_data item = none
append_item (imm_data n) item = none
append_item (list_data size items) item =
    some (list_data (room_for_one size items) (items ++ item ∷ []))

-- The block of `list1`, `list2`, ... `list16`: of the size given, with the items appended in turn.
unfoldable pub append_items : Binary → List ℕ → Option Binary
unfolding append_item
append_items b [] = some b
append_items b (x ∷ xs) = elim (append_item b x) [ none ↦ none | some b' ↦ append_items b' xs ]

unfoldable pub list_of : List ℕ → Option Binary
unfolding new_block append_items
list_of items = append_items (new_block (length items)) items

-- `copy_list_obj`: the block of the copy has room for the items and no more.
unfoldable pub copy_block : Binary → Binary
copy_block no_data = no_data
copy_block (imm_data n) = imm_data n
copy_block (list_data size items) = list_data (length items) items

-- The length of the block, or 0 where the object has none.
unfoldable pub block_len : Binary → Cmd ℕ
block_len no_data = pure 0
block_len (imm_data n) = λ _. aborted
block_len (list_data size items) = pure (length items)

-- listitem(list_obj, i), inside the list
unfoldable pub block_item : Binary → (i : ℕ) → Option ℕ
block_item no_data i = none
block_item (imm_data n) i = none
block_item (list_data size items) i = get_elem? items i

-- listitem(list_obj, i) = new_item, inside the list
unfoldable pub set_block_item : Binary → (i new_item : ℕ) → Option Binary
set_block_item no_data i new_item = none
set_block_item (imm_data n) i new_item = none
set_block_item (list_data size items) i new_item =
    if ltb i (length items) then some (list_data size (set items i new_item)) else none

-- listlen(list_obj) = 0
unfoldable pub clear_block : Binary → Option Binary
clear_block no_data = none
clear_block (imm_data n) = none
clear_block (list_data size items) = some (list_data size [])

-- A read or write of memory that is not the list's.
abbrev pub within_list : {A : Type 0} → Option A → Cmd A
within_list none w = aborted
within_list (some a) w = ok a w

module _ (notify : ℕ → ℕ → Cmd (Unit {0})) where
  unfoldable pub list_len : (o : ℕ) → Cmd ℕ
  unfolding block_len
  list_len o = do
    refused ← read_lock notify o
    when refused
        then pure 0
        else do obj ← get_obj o; len ← block_len obj.binary; read_unlock o; pure len

  unfoldable pub list_clear : (o : ℕ) → Cmd (Unit {0})
  unfolding clear_block
  list_clear o = do
    refused ← write_lock o
    when refused then skip else do
      obj ← get_obj o
      b ← within_list (clear_block obj.binary)
      put_obj o (record obj { binary = b })
      write_unlock notify o

  unfoldable pub list_item : (o i : ℕ) → Cmd (Option ℕ)
  unfolding block_item
  list_item o i = do
    refused ← read_lock notify o
    when refused then pure none else do
      obj ← get_obj o
      res ← within_list (block_item obj.binary i)
      read_unlock o
      pure (some res)

  unfoldable pub list_item_set : (o i new_item : ℕ) → Cmd (Unit {0})
  unfolding set_block_item
  list_item_set o i new_item = do
    refused ← write_lock o
    when refused then skip else do
      obj ← get_obj o
      b ← within_list (set_block_item obj.binary i new_item)
      put_obj o (record obj { binary = b })
      write_unlock notify o

  unfoldable pub list_append : (o item : ℕ) → Cmd (Option ℕ)
  unfolding append_item
  list_append o item = do
    refused ← write_lock o
    when refused then pure none else do
      obj ← get_obj o
      b ← within_list (append_item obj.binary item)
      put_obj o (record obj { binary = b })
      write_unlock notify o
      pure (some o)

unfoldable pub list_append_no_lock : (o item : ℕ) → Cmd ℕ
unfolding append_item
list_append_no_lock o item = do
  obj ← get_obj o
  b ← within_list (append_item obj.binary item)
  put_obj o (record obj { binary = b })
  pure o
