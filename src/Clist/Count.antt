-- ===== src/Clist/Count.antt =====
-- What the removals leave, counted entry by entry.
use prothon.Base.{
  inl, inr, ℕ, zero, suc, ◌+◌, ◌≤◌, ◌≡◌, refl, ◌∙◌, ◌≢◌, Bool, true, false, not, none, some, Option,
  List, [], ◌∷◌, ◌++◌, arith, ltb, ◌==◌, if◌then◌else◌, Bool-cases, length, drop, drop-length,
  length-append, drop-append, ==_refl, take-append, get_elem?-append, ◌-◌, sym,
}
use mathlib.Core.List.{append-nil}
use prothon.Clist.Bounds.{clist_push-items}
use prothon.Clist.{
  clist_push, Clist, in_items, clist_in, count, clist_in_cnt, remove_at, holds_at, pop_item_loop,
  clist_pop_item, dups_loop, clist_pop_dups, clist_pop, clist_len,
}

abbrev pub one_if : Bool → ℕ
one_if true = 1
one_if false = 0

in_items-count : (xs : List ℕ) (item : ℕ) → in_items xs item ≡ ltb 0 (count item xs)
unfolding in_items count
in_items-count [] item = refl
in_items-count (x ∷ xs) item = ground (arith, in_items-count xs item)

-- `clist_in` answers whether `clist_in_cnt` counts at least one entry.
pub clist_in-cnt : (l : Clist) (item : ℕ) → clist_in l item ≡ ltb 0 (clist_in_cnt l item)
unfolding clist_in clist_in_cnt
clist_in-cnt l item = in_items-count l.items item

pub count-append : (j : ℕ) (xs ys : List ℕ) → count j (xs ++ ys) ≡ count j xs + count j ys
unfolding count
count-append j [] ys = omega arith
count-append j (x ∷ xs) ys = omega (arith, count-append j xs ys)

-- Dropping the entry at `i`, which equals `item`.
count-remove_at :
    (i item j : ℕ) (xs : List ℕ)
    → holds_at xs i item ≡ true
    → count j xs ≡ count j (remove_at i xs) + one_if (item == j)
unfolding count
count-remove_at i item j [] h = cc
count-remove_at zero item j (x ∷ xs) h = ground arith
count-remove_at (suc i) item j (x ∷ xs) h = omega (arith, count-remove_at i item j xs h)

-- No entry from `i` on equals `item`.
count-drop-step :
    (i item : ℕ) (xs : List ℕ)
    → holds_at xs i item ≡ false
    → count item (drop (suc i) xs) ≡ 0
    → count item (drop i xs) ≡ 0
unfolding count
count-drop-step zero item [] h e = refl
count-drop-step (suc i) item [] h e = refl
count-drop-step zero item (x ∷ xs) h e = ground arith
count-drop-step (suc i) item (x ∷ xs) h e = count-drop-step i item xs h e

drop-remove_at : (i : ℕ) (xs : List ℕ) → drop i (remove_at i xs) ≡ drop (suc i) xs
drop-remove_at zero xs = refl
drop-remove_at (suc i) [] = refl
drop-remove_at (suc i) (x ∷ xs) = drop-remove_at i xs

count-drop-zero : (xs : List ℕ) (j : ℕ) → count j (drop 0 xs) ≡ count j xs
count-drop-zero xs j = refl

-- The outcome of the search from the end.
abbrev Popped : Option (List ℕ) → List ℕ → ℕ → Type 0
Popped none xs item = count item xs ≡ 0
Popped (some ys) xs item = (j : ℕ) → count j xs ≡ count j ys + one_if (item == j)

pop_item_loop-Popped :
    (rounds item : ℕ) (xs : List ℕ)
    → count item (drop rounds xs) ≡ 0
    → Popped (pop_item_loop rounds xs item) xs item
unfolding pop_item_loop
pop_item_loop-Popped zero item xs e = e
pop_item_loop-Popped (suc i) item xs e = elim (Bool-cases (holds_at xs i item)) [
  | inl h ↦ rw h (λ j. count-remove_at i item j xs h)
  | inr h ↦ rw h (pop_item_loop-Popped i item xs (count-drop-step i item xs h e))
]

Popped-of_all :
    (l : Clist) (item : ℕ) → Popped (pop_item_loop (clist_len l) l.items item) l.items item
Popped-of_all l item =
    pop_item_loop-Popped (clist_len l) item l.items
      (rw (drop-length l.items) (unfold count in refl))

-- `clist_pop_item` returns TRUE exactly where the item is not in the list. It then changes nothing;
-- otherwise it takes away one entry that equals the item, and the other entries stay as often as
-- they were.
pub clist_pop_item-count :
    (l : Clist) (item : ℕ)
    → ((clist_pop_item l item).0 ≡ not (clist_in l item))
      × ((j : ℕ)
          → clist_in_cnt l j
            ≡ clist_in_cnt (clist_pop_item l item).1 j
              + (if (clist_pop_item l item).0 then 0 else one_if (item == j)))
unfolding clist_pop_item clist_in_cnt
clist_pop_item-count l item = go (pop_item_loop (clist_len l) l.items item) (Popped-of_all l item)
  where
    Goal : Option (List ℕ) → Type 0
    Goal o =
        let r : Bool × Clist = elim o [
          | none ↦ (true, l)
          | some xs ↦ (false, record l { items = xs })
        ] in
        (r.0 ≡ not (clist_in l item))
        × ((j : ℕ) → count j l.items ≡ count j r.1.items + (if r.0 then 0 else one_if (item == j)))

    go : (o : Option (List ℕ)) → Popped o l.items item → Goal o
    go none h = (ground (arith, clist_in-cnt l item), λ j. omega arith)
    go (some ys) h = (ground (arith, clist_in-cnt l item, h item), h)

dups_loop-count_ne :
    (n item j : ℕ) (xs : List ℕ) → item ≢ j → count j (dups_loop n xs item) ≡ count j xs
unfolding dups_loop
dups_loop-count_ne zero item j xs ne = refl
dups_loop-count_ne (suc i) item j xs ne = elim (Bool-cases (holds_at xs i item)) [
  | inl h ↦ rw h (
      dups_loop-count_ne i item j (remove_at i xs) ne
      ∙ ground (arith, count-remove_at i item j xs h))
  | inr h ↦ rw h (dups_loop-count_ne i item j xs ne)
]

dups_loop-count_self :
    (n item : ℕ) (xs : List ℕ) → count item (drop n xs) ≡ 0 → count item (dups_loop n xs item) ≡ 0
unfolding dups_loop
dups_loop-count_self zero item xs e = e
dups_loop-count_self (suc i) item xs e = elim (Bool-cases (holds_at xs i item)) [
  | inl h ↦ rw h (dups_loop-count_self i item (remove_at i xs) (rw (drop-remove_at i xs) e))
  | inr h ↦ rw h (dups_loop-count_self i item xs (count-drop-step i item xs h e))
]

-- Popping the last entry.
pub clist_pop-last :
    (space item : ℕ) (xs : List ℕ)
    → clist_pop (record { space = space; items = xs ++ item ∷ [] })
      ≡ some (item, record { space = space; items = xs })
unfolding clist_pop
clist_pop-last space item xs =
    let e : length (xs ++ item ∷ []) - 1 ≡ length xs =
      omega (arith, length-append xs (item ∷ [])) in
    rw (clist_pop, e, get_elem?-append xs item, e, take-append xs (item ∷ []))

count-snoc_ne : (item j : ℕ) (xs : List ℕ) → item ≢ j → count j (xs ++ item ∷ []) ≡ count j xs
unfolding count
count-snoc_ne item j xs ne = rw (count-append j xs (item ∷ [])) (ground arith)

-- On a list that ends in `item`, `clist_pop_dups` returns that entry, leaves no other one equal to
-- it, and leaves every other entry as often as it was.
pub clist_pop_dups-count :
    (space item : ℕ) (xs : List ℕ)
    → let l : Clist = record { space = space; items = xs ++ item ∷ [] } in
      (r : Clist) × (clist_pop_dups l ≡ some (item, r))
      × (clist_in_cnt r item ≡ 0)
      × ((j : ℕ) → item ≢ j → clist_in_cnt r j ≡ clist_in_cnt l j)
unfolding clist_in_cnt clist_pop_dups
clist_pop_dups-count space item xs = (
  record { space = space; items = dups_loop (length xs) xs item },
  rw (clist_pop_dups, clist_pop-last space item xs),
  dups_loop-count_self (length xs) item xs (rw (drop-length xs) (unfold count in refl)),
  λ j ne. dups_loop-count_ne (length xs) item j xs ne ∙ sym (count-snoc_ne item j xs ne),
)

-- A push counts one more entry that equals the item, and no other.
pub cnt-push :
    (l : Clist) (item j : ℕ)
    → clist_len l ≤ 0x7fff_ffff
    → clist_in_cnt (clist_push l item) j ≡ clist_in_cnt l j + one_if (item == j)
unfolding clist_in_cnt
cnt-push l item j h =
    rw (clist_push-items l item h, count-append j l.items (item ∷ [])) (ground arith)

holds_at-last : (xs : List ℕ) (item : ℕ) → holds_at (xs ++ item ∷ []) (length xs) item ≡ true
holds_at-last xs item = rw (holds_at, get_elem?-append xs item, ==_refl item)

pop_item_loop-last :
    (xs : List ℕ) (item : ℕ)
    → pop_item_loop (suc (length xs)) (xs ++ item ∷ []) item ≡ some (xs ++ [])
unfolding pop_item_loop
pop_item_loop-last xs item =
    rw (holds_at-last xs item, take-append xs (item ∷ []), drop-append xs item)

-- `clist_pop_item` of the item that was pushed last takes off that entry: the lock stack is as it
-- was before the push.
pub clist_pop_item-push :
    (l : Clist) (item : ℕ)
    → clist_len l ≤ 0x7fff_ffff
    → ((clist_pop_item (clist_push l item) item).0 ≡ false)
      × ((clist_pop_item (clist_push l item) item).1.items ≡ l.items)
unfolding clist_pop_item
clist_pop_item-push l item h =
    let len : length (l.items ++ item ∷ []) ≡ suc (length l.items) =
      omega (arith, length-append l.items (item ∷ [])) in
    let run : pop_item_loop (clist_len (clist_push l item)) (clist_push l item).items item
        ≡ some (l.items ++ []) =
      rw (clist_push-items l item h, len) (pop_item_loop-last l.items item) in
    (rw (clist_pop_item, run), rw (clist_pop_item, run) (append-nil l.items))
