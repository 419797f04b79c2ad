-- ===== src/ListObj/Laws.antt =====
-- The functions of src/builtins-list.c on an idle list object: what they return, what they leave in
-- the block, and that the block has room for what they store.
use prothon.Base.{
  set, length-set, get_elem?-set, get_elem?-set_ne, ltb, ◌<◌, ◌≢◌, ℕ, ◌+◌, ◌*◌, max, ◌≤◌, ◌≡◌, refl,
  ◌∙◌, true, false, some, List, [], ◌∷◌, ◌++◌, arith, ◌==◌, ==_refl, length, get_elem?,
  length-append, get_elem?-append,
}
use mathlib.Core.List.{append-nil, append_assoc}
use prothon.World.{World, Binary, list_data, ok, Cmd}
use prothon.Lock.{read_lock, read_unlock, write_lock, write_unlock}
use prothon.Lock.Laws.{OnlyAt}
use prothon.Attr.Idle.{IsIdle, stored, update_ne, write_lock-idle, unlock-IsIdle, Read-of_idle}
use prothon.ListObj.{
  set_block_item, list_item_set, new_block, room_for_one, append_item, append_items, list_of,
  block_item, block_len, list_append, list_item, list_len,
}

pub append_items-lem :
    (size : ℕ) (items xs : List ℕ)
    → length items + length xs ≤ size
    → append_items (list_data size items) xs ≡ some (list_data size (items ++ xs))
unfolding append_items append_item
append_items-lem size items [] h = rw (append-nil items) refl
append_items-lem size items (x ∷ xs) h =
    let full : (length items == size) ≡ false = ground arith in
    let rest =
      append_items-lem size (items ++ x ∷ []) xs (omega (arith, length-append items (x ∷ []))) in
    rw (full, rest, append_assoc items (x ∷ []) xs) refl

-- `list1` to `list16`: the items in their order, in a block that is never allocated again.
pub list_of-lem : (xs : List ℕ) → list_of xs ≡ some (list_data (max (length xs) 2) xs)
unfolding list_of new_block
list_of-lem xs = append_items-lem (max (length xs) 2) [] xs (omega arith)

-- The list at `o` has `items` in a block with room for `size` of them.
pub record HasList (o : ℕ) (w : World) (size : ℕ) (items : List ℕ) : Type 0 where
  pub block : (w.heap o).binary ≡ list_data size items
  pub fits : length items ≤ size
  pub room : 2 ≤ size

module _ (notify : ℕ → ℕ → Cmd (Unit {0})) where
  list_append-run :
      (o item : ℕ) (w w₁ w' : World) (d : Binary)
      → write_lock o w ≡ ok false w₁
      → append_item ((w₁.heap o).binary) item ≡ some d
      → write_unlock notify o (stored o (record (w₁.heap o) { binary = d }) w₁) ≡ ok tt w'
      → list_append notify o item w ≡ ok (some o) w'
  unfolding list_append
  list_append-run o item w w₁ w' d locked found run = ground arith

  -- Appending to an idle list adds the item behind the others; the block is doubled where it was
  -- full.
  list_append-lem :
      (o item size : ℕ) (items : List ℕ) (w : World)
      → IsIdle o w
      → HasList o w size items
      → (w' : World) × (list_append notify o item w ≡ ok (some o) w')
        × HasList o w' (room_for_one size items) (items ++ item ∷ [])
        × (room_for_one size items ≤ max size (2 * length items))
        × ((w'.heap o).attr_proto ≡ (w.heap o).attr_proto)
        × IsIdle o w'
        × OnlyAt o w w'
  unfolding append_item
  list_append-lem o item size items w idle l =
      let d = list_data (room_for_one size items) (items ++ item ∷ []) in
      let (w₁, locked, h, only, same) = write_lock-idle o w idle in
      let w₂ : World = stored o (record (w₁.heap o) { binary = d }) w₁ in
      let at : w₂.heap o ≡ record (w.heap o) { wrlock = true; binary = d } =
        rw (==_refl o, h) refl in
      let (w', run, attrs, block, idle', only') =
        unlock-IsIdle notify o w w₂ ((w.heap o).attr_proto) d idle at same in
      (
        w',
        list_append-run o item w w₁ w' d locked (rw (h, l.block) refl) run,
        record {
          block = block;
          fits = ground (arith, l.fits, l.room, length-append items (item ∷ []));
          room = ground (arith, l.room);
        },
        ground (arith, l.fits, l.room),
        attrs,
        idle',
        λ q ne. only' q ne ∙ update_ne w₁.heap o q _ ne ∙ only q ne,
      )

  list_item-run :
      (o i x : ℕ) (w w₁ w' : World)
      → read_lock notify o w ≡ ok false w₁
      → block_item ((w₁.heap o).binary) i ≡ some x
      → read_unlock o w₁ ≡ ok tt w'
      → list_item notify o i w ≡ ok (some x) w'
  unfolding list_item
  list_item-run o i x w w₁ w' locked found run = ground arith

  -- On an idle list `list_item` gives the item at an index inside the list, changes no item and
  -- leaves the list idle.
  pub list_item-lem :
      (o i x size : ℕ) (items : List ℕ) (w : World)
      → IsIdle o w
      → HasList o w size items
      → get_elem? items i ≡ some x
      → (w' : World) × (list_item notify o i w ≡ ok (some x) w')
        × HasList o w' size items
        × IsIdle o w'
        × OnlyAt o w w'
  unfolding block_item
  list_item-lem o i x size items w idle l found =
      let (w₁, w', read) = Read-of_idle notify o w idle in
      (
        w',
        list_item-run o i x w w₁ w' read.locked (rw (read.same_binary, l.block) found)
            read.released,
        record { block = read.kept_binary ∙ l.block; fits = l.fits; room = l.room },
        read.idle,
        read.only,
      )

  list_len-run :
      (o n : ℕ) (w w₁ w' : World)
      → read_lock notify o w ≡ ok false w₁
      → block_len ((w₁.heap o).binary) w₁ ≡ ok n w₁
      → read_unlock o w₁ ≡ ok tt w'
      → list_len notify o w ≡ ok n w'
  unfolding list_len
  list_len-run o n w w₁ w' locked found run = ground arith

  -- On an idle list `list_len` gives the number of its items.
  pub list_len-lem :
      (o size : ℕ) (items : List ℕ) (w : World)
      → IsIdle o w
      → HasList o w size items
      → (w' : World) × (list_len notify o w ≡ ok (length items) w')
        × HasList o w' size items
        × IsIdle o w'
        × OnlyAt o w w'
  unfolding block_len
  list_len-lem o size items w idle l =
      let (w₁, w', read) = Read-of_idle notify o w idle in
      (
        w',
        list_len-run o (length items) w w₁ w' read.locked (rw (read.same_binary, l.block) refl)
            read.released,
        record { block = read.kept_binary ∙ l.block; fits = l.fits; room = l.room },
        read.idle,
        read.only,
      )

  -- What was appended last to an idle list is the item at the old length.
  list_append-list_item :
      (o item size : ℕ) (items : List ℕ) (w : World)
      → IsIdle o w
      → HasList o w size items
      → (w₁ : World) × (w₂ : World) × (list_append notify o item w ≡ ok (some o) w₁)
        × (list_item notify o (length items) w₁ ≡ ok (some item) w₂)
        × IsIdle o w₂
  list_append-list_item o item size items w idle l =
      let (w₁, run, l', _, _, idle', _) = list_append-lem o item size items w idle l in
      let (w₂, found, _, idle'', _) =
        list_item-lem o (length items) item (room_for_one size items) (items ++ item ∷ []) w₁ idle'
          l' (get_elem?-append items item) in
      (w₁, w₂, run, found, idle'')

  list_item_set-run :
      (o i x : ℕ) (w w₁ w' : World) (d : Binary)
      → write_lock o w ≡ ok false w₁
      → set_block_item ((w₁.heap o).binary) i x ≡ some d
      → write_unlock notify o (stored o (record (w₁.heap o) { binary = d }) w₁) ≡ ok tt w'
      → list_item_set notify o i x w ≡ ok tt w'
  unfolding list_item_set
  list_item_set-run o i x w w₁ w' d locked found run = ground arith

  -- On an idle list `list_item_set` at an index inside the list puts the item there and changes no
  -- other item.
  pub list_item_set-lem :
      (o i x size : ℕ) (items : List ℕ) (w : World)
      → IsIdle o w
      → HasList o w size items
      → i < length items
      → (w' : World) × (list_item_set notify o i x w ≡ ok tt w')
        × HasList o w' size (set items i x)
        × (get_elem? (set items i x) i ≡ some x)
        × ((j : ℕ) → i ≢ j → get_elem? (set items i x) j ≡ get_elem? items j)
        × IsIdle o w'
        × OnlyAt o w w'
  unfolding set_block_item
  list_item_set-lem o i x size items w idle l inside =
      let d = list_data size (set items i x) in
      let (w₁, locked, h, only, same) = write_lock-idle o w idle in
      let w₂ : World = stored o (record (w₁.heap o) { binary = d }) w₁ in
      let at : w₂.heap o ≡ record (w.heap o) { wrlock = true; binary = d } =
        rw (==_refl o, h) refl in
      let (w', run, _, block, idle', only') =
        unlock-IsIdle notify o w w₂ ((w.heap o).attr_proto) d idle at same in
      let yes : ltb i (length items) ≡ true = ground arith in
      (
        w',
        list_item_set-run o i x w w₁ w' d locked (rw (h, l.block, set_block_item, yes) refl) run,
        record { block = block; fits = omega (arith, l.fits, length-set items i x); room = l.room },
        get_elem?-set items i x inside,
        λ j ne. get_elem?-set_ne items i j x ne,
        idle',
        λ q ne. only' q ne ∙ update_ne w₁.heap o q _ ne ∙ only q ne,
      )
