-- ===== src/ListCalls/Fits.antt =====
-- Calls of the methods of lists that stay inside the block of the list.
use prothon.Base.{◌+◌, ◌*◌, ◌^◌, ◌<◌, ℕ, ◌≤◌, List, length, pos, negsuc}
use prothon.Slices.{range_of}
use prothon.ListObj.{list_sizeof}
use prothon.ListCalls.{Call, append, extend, insert, remove, pop, reverse, imul, assign, delete}
use prothon.ListCalls.ItemFits.{or_empty}
use prothon.ListCalls.SliceFits.{IsOrdered, IsForward}

-- The calls whose memory use is within the list: the others are a `pop` by an index from an empty
-- list, a multiplication of an empty list or by a negative number, a multiplication, an extension or an
-- assignment whose block needs more bytes than 32 bits count, a slice whose second index is before
-- its first, and the deletion of a slice with a step down.
unfoldable pub IsSafe : Call → List ℕ → Type 0
IsSafe (append item) items = Unit
IsSafe (extend other) items = list_sizeof ((length items + length (or_empty other)) * 2) < 2 ^ 32
IsSafe (insert index item) items = Unit
IsSafe (remove eq) items = Unit
IsSafe (pop index) items = 1 ≤ length items
IsSafe reverse items = Unit
IsSafe (imul (pos n)) items = (1 ≤ length items) × (list_sizeof (length items * n) < 2 ^ 32)
IsSafe (imul (negsuc n)) items = ⊥
IsSafe (assign slice value sequence) items =
    IsOrdered (range_of (length items) slice)
    × (list_sizeof (length items + length (or_empty sequence) + 1) < 2 ^ 32)
IsSafe (delete slice) items = IsForward (range_of (length items) slice)
