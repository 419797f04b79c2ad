-- ===== src/Tests/Sequences.antt =====
-- The theorems on slices and on the methods of lists at concrete lists.
use prothon.Base.{
  ℕ, ◌≡◌, refl, true, none, some, List, [], ◌∷◌, arith, ◌==◌, if◌then◌else◌, length, get_elem?, pos,
  negsuc,
}
use prothon.World.{World, ok, list_data, index_exc}
use prothon.Attr.Idle.{Read, Read-of_idle}
use prothon.Slices.{
  missing, int, two, three, seq_items, seq_bytes, range_of, get_sequence_item, buffer,
}
use prothon.Slices.Select.{IsNarrow, Selects, get_sequence_item-lem}
use prothon.ListMethods.{
  edited, failed, append_bang, insert_bang, pop_bang, Reply, equal, unequal, reverse_bang,
}
use prothon.ListMethods.Reverse.{reverse_bang-lem}
use prothon.ListMethods.Change.{pop_bang-insert_bang}
use prothon.ListSlices.{set_item, del_item}
use prothon.ListCalls.{list_method}
use prothon.ListCalls.Frame.{Returned, list_method-edited}
use prothon.ListCalls.ItemFits.{Fits}
use prothon.Tests.Data.{quiet, list_world, list_world-IsIdle}

abbrev four : List ℕ
four = 5 ∷ 6 ∷ 7 ∷ 8 ∷ []

last-IsNarrow : IsNarrow (range_of 4 (two missing (int (negsuc 0))))
unfolding range_of IsNarrow
last-IsNarrow = tt

get_sequence_item-lem_example :
    Selects seq_items four
      (range_of 4 (two missing (int (negsuc 0))))
      (get_sequence_item seq_items four (two missing (int (negsuc 0))))
get_sequence_item-lem_example =
    get_sequence_item-lem seq_items four (two missing (int (negsuc 0))) (omega arith) last-IsNarrow

reverse_bang-lem_example :
    (items' : List ℕ) × (reverse_bang 1 4 four ≡ edited 4 items' (some 1))
    × (length items' ≡ 4)
    × (get_elem? items' 1 ≡ some 7)
reverse_bang-lem_example = reverse_bang-lem 1 4 1 four (omega arith)

pop_bang-insert_bang_example :
    (size' : ℕ) × (items' : List ℕ) × (insert_bang 1 (pos 2) 9 4 four
      ≡ edited size' items' (some 1))
    × (pop_bang (some (pos 2)) size' items' ≡ edited size' four (some 9))
pop_bang-insert_bang_example =
    pop_bang-insert_bang 1 4 2 9 four (omega arith) (omega arith) (omega arith) (omega arith)

abbrev equals_seven : ℕ → Reply
equals_seven x = if x == 7 then equal else unequal

-- The worlds while and after the thread holds a read lock on the list.
held : (w₁ : World) × (w' : World) × Read quiet 1 list_world w₁ w'
held = Read-of_idle quiet 1 list_world list_world-IsIdle

list_method-edited_example :
    (w₂ : World) × (w₃ : World) × (list_method quiet true 1 (append_bang 1 9) held.0
      ≡ ok (some 1) w₂)
    × Returned quiet 1 held.1 (list_data 4 (4 ∷ 5 ∷ 9 ∷ [])) w₂ w₃
unfolding append_bang
list_method-edited_example =
    list_method-edited quiet 1 2 (4 ∷ 5 ∷ []) (append_bang 1 9) 4 (4 ∷ 5 ∷ 9 ∷ []) (some 1)
      list_world held.0 held.1 list_world-IsIdle refl held.2 refl

-- Every second item, and the bytes backwards.
every_second :
    get_sequence_item seq_bytes four (three missing missing (int (pos 2))) ≡ buffer (5 ∷ 7 ∷ [])
unfolding get_sequence_item
every_second = refl

backwards :
    get_sequence_item seq_bytes four (three missing missing (int (negsuc 0)))
    ≡ buffer (8 ∷ 7 ∷ 6 ∷ 5 ∷ [])
unfolding get_sequence_item
backwards = refl

-- The length that is compared for a step down is not the number of items: four items may not be
-- assigned to all four places backwards.
set_backwards :
    set_item 50 (some four) (three missing missing (int (negsuc 0))) 4 four ≡ failed index_exc
unfolding set_item
set_backwards = refl

-- Two items more than those of the slice are deleted.
del_backwards :
    del_item (three missing (int (pos 2)) (int (negsuc 0))) 4 four ≡ edited 4 (5 ∷ []) none
unfolding del_item
del_backwards = refl
