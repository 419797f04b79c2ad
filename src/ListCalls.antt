-- ===== src/ListCalls.antt =====
-- The frame that the methods of lists share (src/builtins-list.c, include/prothon/prothon.h and
-- include/prothon/prothon_dll.h): the check of the data, the change of the caller's read lock to a write
-- lock, and the way back.
pub mod Frame
pub mod ItemFits
pub mod SliceFits
pub mod Fits
use prothon.Base.{
  ℕ, zero, suc, ◌+◌, ◌-◌, ◌*◌, ◌/◌, Bool, true, false, not, ◌&&◌, ◌||◌, Option, none, some, List,
  [], ◌∷◌, ◌++◌, ltb, leb, ◌==◌, if◌then◌else◌, length, get_elem?, get_or, set, take, drop, ℤ, pos,
  negsuc,
}
use prothon.World.{
  Binary, no_data, imm_data, list_data, Obj, Exc, index_exc, type_exc, internal_exc, World, Cmd, ok,
  aborted, ◌>>=◌, ◌>>◌, when◌then◌else◌, pure, skip, get_obj, put_obj, raise_exception,
}
use prothon.Lock.{read_lock, read_unlock, write_lock, write_unlock}
use prothon.ListObj.{list_growth_factor, room_for_one}
use prothon.Slices.{
  overflowing, Index, missing, int, not_int, Slice, one, two, three, Bound, unbounded, at, bad,
  Range, single, up, down, refused, indexes_missing, first_bound, first_of, rest_range, range_of,
  up_positions, down_positions, up_len, down_len,
}
use prothon.ListMethods.{
  Edit, edited, failed, left_locked, faulted, Reply, append_bang, extend_bang, insert_bang,
  remove_bang, pop_bang, reverse_bang, multiply,
}
use prothon.ListSlices.{set_item, del_item}

-- A call of a method that changes a list, with its parameters.
pub data Call : Type 0 where
  append : (item : ℕ) → Call
  extend : (other : Option (List ℕ)) → Call
  insert : (index : ℤ) → (item : ℕ) → Call
  remove : (eq : ℕ → Reply) → Call
  pop : (index : Option ℤ) → Call
  reverse : Call
  imul : (times : ℤ) → Call
  assign : (slice : Slice) → (value : ℕ) → (sequence : Option (List ℕ)) → Call
  delete : (slice : Slice) → Call

unfoldable pub edit_of : (self : ℕ) → Call → (size : ℕ) → List ℕ → Edit
unfolding append_bang extend_bang insert_bang remove_bang pop_bang reverse_bang multiply set_item
    del_item
edit_of self (append item) = append_bang self item
edit_of self (extend other) = extend_bang self other
edit_of self (insert index item) = insert_bang self index item
edit_of self (remove eq) = remove_bang eq self
edit_of self (pop index) = pop_bang index
edit_of self reverse = reverse_bang self
edit_of self (imul times) = multiply self times
edit_of self (assign slice value sequence) = set_item value sequence slice
edit_of self (delete slice) = del_item slice

module _ (notify : ℕ → ℕ → Cmd (Unit {0})) where
  -- def_write_unlock(self)
  unfoldable pub def_write_unlock : (self : ℕ) → Cmd Bool
  def_write_unlock self = do write_unlock notify self; read_lock notify self

  unfoldable pub put_edit : (self : ℕ) → Edit → Cmd (Option ℕ)
  unfolding def_write_unlock
  put_edit self (edited size items res) = do
    obj ← get_obj self
    put_obj self (record obj { binary = list_data size items })
    again ← def_write_unlock self
    pure res
  put_edit self (failed e) = do raise_exception e; again ← def_write_unlock self; pure none
  put_edit self (left_locked e) = do raise_exception e; pure none
  put_edit self faulted = λ _. aborted

  unfoldable pub edit_block : (self : ℕ) → (ℕ → List ℕ → Edit) → Binary → Cmd (Option ℕ)
  unfolding put_edit
  edit_block self edit no_data = λ _. aborted
  edit_block self edit (imm_data n) = λ _. aborted
  edit_block self edit (list_data size items) = put_edit self (edit size items)

  -- def_write_lock(self) and what follows it.
  unfoldable pub edit_locked : (self : ℕ) → (ℕ → List ℕ → Edit) → Cmd (Option ℕ)
  unfolding edit_block
  edit_locked self edit = do
    read_unlock self
    locked ← write_lock self
    when locked
        then (do again ← read_lock notify self; pure none)
        else do obj ← get_obj self; edit_block self edit obj.binary

  -- BIN_CONTENT_CHK(List): `owns` is proto_owns_binary(ist, List_OBJ, self).
  unfoldable pub list_method : (owns : Bool) → (self : ℕ) → (ℕ → List ℕ → Edit) → Cmd (Option ℕ)
  unfolding edit_locked
  list_method owns self edit = do
    obj ← get_obj self
    when not owns || is_no_data obj.binary
        then (do raise_exception internal_exc; pure none)
        else edit_locked self edit
    where
      is_no_data : Binary → Bool
      is_no_data no_data = true
      is_no_data (imm_data n) = false
      is_no_data (list_data size items) = false
