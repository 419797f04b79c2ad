-- ===== src/ListCalls/ItemFits.antt =====
-- The methods of lists that change single items stay inside the block of the list.
use prothon.Base.{
  ℕ, zero, suc, ◌+◌, ◌^◌, ◌<◌, ◌++◌, ◌*◌, ◌≤◌, ◌≡◌, inl, inr, Option, none, some, List, [], ◌∷◌,
  arith, ltb, length, get_elem?, take, drop, ℤ, pos, negsuc, Bool-cases, length-append, length-take,
  length-drop,
}
use prothon.World.{index_exc}
use prothon.ListObj.{room_for_one}
use prothon.ListMethods.{
  stored_in, Edit, edited, failed, left_locked, faulted, erase_at, append_bang, extend_bang,
  insert_bang, Reply, equal, unequal, raised, remove_from, pop_at, pop_bang, repeated, multiply,
}
use prothon.ListObj.{list_sizeof}

-- What is stored fits into the block, which is not empty, and no other memory is used.
unfoldable pub Fits : Edit → Type 0
Fits (edited size items res) = (length items ≤ size) × (1 ≤ size)
Fits (failed e) = Unit
Fits (left_locked e) = Unit
Fits faulted = ⊥

pub length-erase_at : (items : List ℕ) (i : ℕ) → length (erase_at items i) ≤ length items
length-erase_at items i = omega (
  arith,
  length-append (take i items) (drop (suc i) items),
  length-take i items,
  length-drop (suc i) items,
)

-- The items of a sequence, where the parameter is one.
abbrev pub or_empty : Option (List ℕ) → List ℕ
or_empty none = []
or_empty (some xs) = xs

pub stored_in-Fits :
    (size : ℕ) (items : List ℕ) (res : Option ℕ)
    → length items ≤ size
    → 1 ≤ size
    → list_sizeof size < 2 ^ 32
    → Fits (stored_in size items res)
unfolding Fits
stored_in-Fits size items res h p bytes = ground (arith, h, p, bytes)

room_for_one-le :
    (size : ℕ) (items : List ℕ)
    → length items ≤ size
    → 1 ≤ size
    → list_sizeof (size * 2) < 2 ^ 32
    → (length items + 1 ≤ room_for_one size items)
      × (1 ≤ room_for_one size items)
      × (list_sizeof (room_for_one size items) < 2 ^ 32)
room_for_one-le size items h p bytes = ground (arith, h, p, bytes)

module _ (self size : ℕ) where
  pub append_bang-Fits :
      (item : ℕ) (items : List ℕ)
      → length items ≤ size
      → 1 ≤ size
      → list_sizeof (size * 2) < 2 ^ 32
      → Fits (append_bang self item size items)
  unfolding append_bang
  append_bang-Fits item items h p bytes =
      let (room, one, fits) = room_for_one-le size items h p bytes in
      stored_in-Fits (room_for_one size items) (items ++ item ∷ []) (some self)
        (omega (arith, room, length-append items (item ∷ []))) one fits

  pub extend_bang-Fits :
      (other : Option (List ℕ)) (items : List ℕ)
      → length items ≤ size
      → 1 ≤ size
      → list_sizeof (size * 2) < 2 ^ 32
      → list_sizeof ((length items + length (or_empty other)) * 2) < 2 ^ 32
      → Fits (extend_bang self other size items)
  unfolding extend_bang Fits
  extend_bang-Fits none items h p bytes more = tt
  extend_bang-Fits (some other) items h p bytes more =
      ground (arith, h, p, bytes, more, length-append items other)

  pub insert_bang-Fits :
      (index : ℤ) (item : ℕ) (items : List ℕ)
      → length items ≤ size
      → 1 ≤ size
      → list_sizeof (size * 2) < 2 ^ 32
      → Fits (insert_bang self index item size items)
  unfolding insert_bang Fits
  insert_bang-Fits (negsuc i) item items h p bytes = tt
  insert_bang-Fits (pos i) item items h p bytes = elim (Bool-cases (ltb (length items) i)) [
    | inl g ↦ rw g tt
    | inr g ↦
        let (room, one, fits) = room_for_one-le size items h p bytes in
        rw g (
          stored_in-Fits (room_for_one size items) (take i items ++ item ∷ drop i items) (some self)
            (omega (
              arith,
              room,
              length-append (take i items) (item ∷ drop i items),
              length-take i items,
              length-drop i items,
            ))
            one fits)
  ]

  pub remove_from-Fits :
      (eq : ℕ → Reply) (i : ℕ) (rest items : List ℕ)
      → length items ≤ size
      → 1 ≤ size
      → Fits (remove_from eq self i size rest items)
  unfolding remove_from Fits
  remove_from-Fits eq i [] items h p = tt
  remove_from-Fits eq i (x ∷ rest) items h p =
      by_reply (eq x) (remove_from-Fits eq (suc i) rest items h p)
    where
      by_reply :
          (r : Reply)
          → Fits (remove_from eq self (suc i) size rest items)
          → Fits (elim r [
            | equal ↦ edited size (erase_at items i) (some self)
            | unequal ↦ remove_from eq self (suc i) size rest items
            | raised e ↦ left_locked e
          ])
      by_reply equal next = (omega (arith, length-erase_at items i), p)
      by_reply unequal next = next
      by_reply (raised e) next = tt

  pub pop_at-Fits :
      (i : ℕ) (items : List ℕ) → length items ≤ size → 1 ≤ size → Fits (pop_at i size items)
  unfolding Fits
  pop_at-Fits i items h p = by_item (get_elem? items i)
    where
      by_item :
          (o : Option ℕ)
          → Fits (elim o [
            | none ↦ failed index_exc
            | some x ↦ edited size (erase_at items i) (some x)
          ])
      by_item none = tt
      by_item (some x) = (omega (arith, length-erase_at items i), p)

  pub pop_bang-Fits :
      (index : Option ℤ) (items : List ℕ)
      → length items ≤ size
      → 1 ≤ size
      → 1 ≤ length items
      → Fits (pop_bang index size items)
  unfolding pop_bang Fits
  pop_bang-Fits index [] h p n = elim n [ ]
  pop_bang-Fits none (x ∷ items) h p n = pop_at-Fits (length items) (x ∷ items) h p
  pop_bang-Fits (some (negsuc i)) (x ∷ items) h p n = tt
  pop_bang-Fits (some (pos i)) (x ∷ items) h p n = pop_at-Fits i (x ∷ items) h p

  length-repeated : (n : ℕ) (items : List ℕ) → length (repeated n items) ≡ length items * n
  unfolding repeated
  length-repeated zero items = omega arith
  length-repeated (suc n) items =
      omega (arith, length-append items (repeated n items), length-repeated n items)

  pub multiply-Fits :
      (n : ℕ) (items : List ℕ)
      → length items ≤ size
      → 1 ≤ size
      → 1 ≤ length items
      → list_sizeof (length items * n) < 2 ^ 32
      → Fits (multiply self (pos n) size items)
  unfolding multiply Fits
  multiply-Fits zero items h p k bytes = (omega arith, p)
  multiply-Fits (suc zero) items h p k bytes = (h, p)
  multiply-Fits (suc (suc n)) items h p k bytes =
      stored_in-Fits (length items * suc (suc n)) (repeated (suc (suc n)) items) (some self)
        (omega (arith, length-repeated (suc (suc n)) items)) (omega arith) bytes
