-- ===== src/Clist.antt =====
-- The growable C array of src/clist.c. `items` holds the `len` entries in use; the allocated block
-- has room for `space` of them. An entry is a pointer or a number (`clist_item_t`), both written ℕ,
-- so the `_num` variants of the functions are the same functions.
pub mod Bounds
pub mod Count
pub mod PopTo
use prothon.Base.{
  ℕ, zero, suc, ◌+◌, ◌-◌, ◌*◌, Bool, true, false, ◌||◌, Option, none, some, List, [], ◌∷◌, ◌++◌,
  ltb, ◌==◌, if◌then◌else◌, length, get_elem?, take, drop, ℤ, pos, negsuc,
}

pub record Clist : Type 0 where
  pub space : ℕ
  pub items : List ℕ

-- DEFAULT_INITIAL_CLIST_SIZE
abbrev pub default_initial_clist_size : ℕ
default_initial_clist_size = 16

-- CLIST_GROWTH_FACTOR
abbrev pub clist_growth_factor : ℕ
clist_growth_factor = 2

-- CLIST_APPEND
abbrev pub clist_append_index : ℤ
clist_append_index = pos 0x7fff_ffff

abbrev pub clist_len : Clist → ℕ
clist_len l = length l.items

pub new_clist : ℕ → Clist
new_clist initial_size = record {
  space = if initial_size == 0 then default_initial_clist_size else initial_size;
  items = [];
}

-- The two clamps of `index`.
unfoldable pub clamp : ℤ → ℕ → ℕ
clamp (negsuc i) len = 0
clamp (pos i) len = if ltb len i then len else i

unfoldable pub ins_clist : Clist → ℕ → ℤ → Clist
unfolding clamp
ins_clist l item index =
    let i = clamp index (clist_len l) in
    record {
      space = if clist_len l == l.space then l.space * clist_growth_factor else l.space;
      items = take i l.items ++ item ∷ drop i l.items;
    }

-- `clist_append`, `clist_push`
unfoldable pub clist_push : Clist → ℕ → Clist
unfolding ins_clist
clist_push l item = ins_clist l item clist_append_index

unfoldable pub in_items : List ℕ → ℕ → Bool
in_items [] item = false
in_items (x ∷ xs) item = (x == item) || in_items xs item

unfoldable pub clist_in : Clist → ℕ → Bool
unfolding in_items
clist_in l item = in_items l.items item

-- The loop of `clist_in_cnt`.
unfoldable pub count : ℕ → List ℕ → ℕ
count item [] = 0
count item (x ∷ xs) = (if x == item then 1 else 0) + count item xs

unfoldable pub clist_in_cnt : Clist → ℕ → ℕ
unfolding count
clist_in_cnt l item = count item l.items

-- `memmove` of the entries above `i` down by one.
abbrev pub remove_at : ℕ → List ℕ → List ℕ
remove_at i xs = take i xs ++ drop (suc i) xs

abbrev pub holds_at : List ℕ → ℕ → ℕ → Bool
holds_at xs i item = elim (get_elem? xs i) [ none ↦ false | some x ↦ x == item ]

-- for(i=list->len-1; i >= 0; i--): `rounds` is i + 1.
pop_item_loop : (rounds : ℕ) → List ℕ → ℕ → Option (List ℕ)
pop_item_loop zero xs item = none
pop_item_loop (suc i) xs item =
    let rest = pop_item_loop i xs item in if holds_at xs i item then some (remove_at i xs) else rest

-- The result is TRUE where the item was not found.
unfoldable pub clist_pop_item : Clist → ℕ → Bool × Clist
unfolding pop_item_loop
clist_pop_item l item = elim (pop_item_loop (clist_len l) l.items item) [
  | none ↦ (true, l)
  | some xs ↦ (false, record l { items = xs })
]

-- The loop of `clist_pop_to`, which keeps what stands before the first `item`.
pub before : List ℕ → ℕ → List ℕ
before [] item = []
before (x ∷ xs) item = if x == item then [] else x ∷ before xs item

unfoldable pub clist_pop_to : Clist → ℕ → Clist
unfolding before
clist_pop_to l item = record l { items = before l.items item }

-- The macro `clist_pop`; `none` reads before the block.
pub clist_pop : Clist → Option (ℕ × Clist)
clist_pop l = elim (get_elem? l.items (clist_len l - 1)) [
  | none ↦ none
  | some x ↦ some (x, record l { items = take (clist_len l - 1) l.items })
]

-- for (i=list->len-1; i >= 0; i--), dropping each entry that equals `item`.
dups_loop : (rounds : ℕ) → List ℕ → ℕ → List ℕ
dups_loop zero xs item = xs
dups_loop (suc i) xs item = dups_loop i (if holds_at xs i item then remove_at i xs else xs) item

pub clist_pop_dups : Clist → Option (ℕ × Clist)
unfolding dups_loop
clist_pop_dups l = elim (clist_pop l) [
  | none ↦ none
  | some (item, rest) ↦
      some (item, record rest { items = dups_loop (clist_len rest) rest.items item })
]
