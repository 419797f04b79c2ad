-- ===== src/ListMethods/Change.antt =====
-- `List.insert!`, `List.pop!` and `List.remove!` as changes of the sequence of items.
use prothon.Base.{
  ℕ, suc, ◌+◌, ◌≤◌, ◌≡◌, refl, ap, ◌∙◌, false, some, List, [], ◌∷◌, ◌++◌, arith, ltb, length,
  get_elem?, take, drop, ◌*◌, ◌^◌, ◌<◌, length-append, length-drop, take-append-drop, length-take,
  pos,
}
use prothon.ListObj.{room_for_one}
use prothon.ListMethods.{
  stored_in, edited, failed, erase_at, insert_bang, pop_bang, Reply, equal, unequal, remove_from,
  remove_bang,
}
use prothon.ListObj.{list_sizeof}
use prothon.World.{index_exc}

erase_at-append : (xs ys : List ℕ) (x : ℕ) → erase_at (xs ++ x ∷ ys) (length xs) ≡ xs ++ ys
erase_at-append [] ys x = refl
erase_at-append (z ∷ xs) ys x = ap (λ l. z ∷ l) (erase_at-append xs ys x)

get_elem?-middle : (xs ys : List ℕ) (x : ℕ) → get_elem? (xs ++ x ∷ ys) (length xs) ≡ some x
get_elem?-middle [] ys x = refl
get_elem?-middle (z ∷ xs) ys x = get_elem?-middle xs ys x

pop_bang-middle :
    (size : ℕ) (xs ys : List ℕ) (x : ℕ)
    → pop_bang (some (pos (length xs))) size (xs ++ x ∷ ys) ≡ edited size (xs ++ ys) (some x)
unfolding pop_bang
pop_bang-middle size [] ys x = refl
pop_bang-middle size (z ∷ xs) ys x = rw (get_elem?-middle xs ys x, erase_at-append xs ys x) refl

-- On a list that fits its block, which has at least one item and which can be doubled within 32 bits of
-- bytes, `insert!` at an index up to the length, and then `pop!` of that index: the item is returned and the
-- list holds the same items as before, in a block that `insert!` may have doubled.
pub pop_bang-insert_bang :
    (self size i x : ℕ) (items : List ℕ)
    → length items ≤ size
    → 1 ≤ size
    → list_sizeof (size * 2) < 2 ^ 32
    → i ≤ length items
    → (size' : ℕ) × (items' : List ℕ) × (insert_bang self (pos i) x size items
        ≡ edited size' items' (some self))
      × (pop_bang (some (pos i)) size' items' ≡ edited size' items (some x))
unfolding insert_bang
pop_bang-insert_bang self size i x items fits one bytes le =
    let inside : ltb (length items) i ≡ false = ground arith in
    let len : length (take i items) ≡ i = omega (arith, length-take i items) in
    let size' = room_for_one size items in
    let longer : length (take i items ++ x ∷ drop i items) ≡ length items + 1 =
      omega (arith, length-append (take i items) (x ∷ drop i items), length-drop i items, len) in
    let kept : stored_in size' (take i items ++ x ∷ drop i items) (some self)
        ≡ edited size' (take i items ++ x ∷ drop i items) (some self) =
      ground (arith, longer, fits, one, bytes) in
    let popped = pop_bang-middle size' (take i items) (drop i items) x in
    (
      size',
      take i items ++ x ∷ drop i items,
      rw inside kept,
      rw (len, take-append-drop i items) at popped,
    )

-- Every one of some items answers that it is not the one to remove.
abbrev pub AllUnequal : (eq : ℕ → Reply) → List ℕ → Type 0
AllUnequal eq [] = Unit
AllUnequal eq (x ∷ xs) = (eq x ≡ unequal) × AllUnequal eq xs

remove_from-past :
    (eq : ℕ → Reply) (self i size : ℕ) (pre rest items : List ℕ)
    → AllUnequal eq pre
    → remove_from eq self i size (pre ++ rest) items
      ≡ remove_from eq self (i + length pre) size rest items
unfolding remove_from
remove_from-past eq self i size [] rest items h = let e : i + 0 ≡ i = omega arith in rw e refl
remove_from-past eq self i size (x ∷ pre) rest items (h, hs) =
    let next = remove_from-past eq self (suc i) size pre rest items hs in
    let e : i + suc (length pre) ≡ suc i + length pre = omega arith in rw (remove_from, h, e) next

remove_from-found :
    (eq : ℕ → Reply) (self i size : ℕ) (x : ℕ) (rest items : List ℕ)
    → eq x ≡ equal
    → remove_from eq self i size (x ∷ rest) items ≡ edited size (erase_at items i) (some self)
unfolding remove_from
remove_from-found eq self i size x rest items h = rw (remove_from, h) refl

-- `remove!` takes the first item away that answers that it is equal: the items before it, which answer
-- that they are not, and those behind it stay in their order.
remove_bang-first :
    (eq : ℕ → Reply) (self size x : ℕ) (pre post : List ℕ)
    → AllUnequal eq pre
    → eq x ≡ equal
    → remove_bang eq self size (pre ++ x ∷ post) ≡ edited size (pre ++ post) (some self)
unfolding remove_bang
remove_bang-first eq self size x pre post h e =
    let z : 0 + length pre ≡ length pre = omega arith in
    let past = remove_from-past eq self 0 size pre (x ∷ post) (pre ++ x ∷ post) h in
    rw z at past
    ∙ remove_from-found eq self (length pre) size x post (pre ++ x ∷ post) e
    ∙ ap (λ l. edited size l (some self)) (erase_at-append pre post x)

remove_from-none :
    (eq : ℕ → Reply) (self i size : ℕ) (rest items : List ℕ)
    → AllUnequal eq rest
    → remove_from eq self i size rest items ≡ failed index_exc
unfolding remove_from
remove_from-none eq self i size [] items h = refl
remove_from-none eq self i size (x ∷ rest) items (h, hs) =
    let next = remove_from-none eq self (suc i) size rest items hs in rw (remove_from, h) next

-- Where every item answers that it is not equal, `remove!` raises INDEX_EXC and changes nothing.
pub remove_bang-absent :
    (eq : ℕ → Reply) (self size : ℕ) (items : List ℕ)
    → AllUnequal eq items
    → remove_bang eq self size items ≡ failed index_exc
unfolding remove_bang
remove_bang-absent eq self size items h = remove_from-none eq self 0 size items items h
