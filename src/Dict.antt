-- ===== src/Dict.antt =====
-- Dictionaries (src/builtins-dict.c, src/dict.h): an open-addressed hash table with linear probing. The
-- hash of a key and the answer of `eq?` of two keys, which are scripts or built-in functions, are
-- parameters.
pub mod Walk
pub mod Holes
pub mod Loops
pub mod Placed
pub mod Vacant
pub mod Grow
pub mod Lookup
pub mod Adding
pub mod Answers
pub mod Delete
use prothon.Base.{
  ℕ, zero, suc, ◌+◌, ◌-◌, ◌*◌, ◌/◌, ◌%◌, ◌^◌, max, Bool, true, false, not, Option, none, some,
  ◌>>=◌, List, [], ◌∷◌, ltb, ◌==◌, if◌then◌else◌, ℤ, pos, negsuc,
}
use prothon.World.{Exc, index_exc}
use prothon.Tuples.{Result, returns, fails, minus_one}
use prothon.AttrTable.{write, percent_of}
use prothon.LongConvert.{same_int}

-- `dict_entry_t`. The key is NULL in an entry that was never used; the hash is ENTRY_DELETED in one that
-- was deleted, and positive in any other.
pub data Entry : Type 0 where
  empty : Entry
  deleted : (key value : ℕ) → Entry
  live : (hash key value : ℕ) → Entry

abbrev pub Entries : Type 0
Entries = ℕ → Entry

-- `dict_hdr_t` and the entries
pub record Dict : Type 0 where
  pub size : ℕ
  pub len : ℕ
  pub entries : Entries

-- DEFAULT_INITIAL_DICT_SIZE, DICT_MAX_PERCENT_FULL, DICT_PAD_PERCENT_FACTOR
abbrev pub default_initial_dict_size : ℕ
default_initial_dict_size = 8

abbrev pub dict_max_percent_full : ℕ
dict_max_percent_full = 66

abbrev pub dict_pad_percent_factor : ℕ
dict_pad_percent_factor = 300

-- hash & HASH_MASK, and 1 in place of 0
abbrev pub masked : ℤ → ℕ
masked (pos n) = n % 2 ^ 31
masked (negsuc n) = 2 ^ 31 - 1 - n % 2 ^ 31

abbrev pub stored_hash : ℤ → ℕ
stored_hash h = if masked h == 0 then 1 else masked h

-- for (j=hash_in; (dp=dictptr(dict,j))->entry.hash; j++);
unfoldable pub vacant : ℕ → Entries → (size j : ℕ) → Option ℕ
vacant zero s n j = none
vacant (suc fuel) s n j =
    let rest = vacant fuel s n (j + 1) in
    elim (s (j % n)) [ empty ↦ some (j % n) | deleted k v ↦ rest | live h k v ↦ rest ]

-- One round of the loop of `dict_realloc`.
unfoldable pub move_entry : Entries → ℕ → Entry → Option Entries
unfolding vacant
move_entry s n empty = some s
move_entry s n (deleted k v) = some s
move_entry s n (live h k v) = vacant n s n h >>= λ q. some (write s q (live h k v))

unfoldable pub rehash : (rounds i : ℕ) → Entries → Entries → ℕ → Option Entries
unfolding move_entry
rehash zero i old s n = some s
rehash (suc r) i old s n = move_entry s n (old i) >>= λ s'. rehash r (i + 1) old s' n

-- max(((int)dictsize(dict) * DICT_PAD_PERCENT_FACTOR) / 100, DEFAULT_INITIAL_DICT_SIZE), where the product
-- is one of 32 bits
abbrev pub grown_size : ℕ → ℕ
grown_size size = max (percent_of size dict_pad_percent_factor) default_initial_dict_size

abbrev pub cleared : Entries
cleared p = empty

unfoldable pub dict_realloc : Dict → Option Dict
unfolding rehash
dict_realloc d = rehash d.size 0 d.entries cleared (grown_size d.size) >>= λ s.
    some (record { size = grown_size d.size; len = d.len; entries = s })

-- dictlen(dict) = 0, and memset of all entries
unfoldable pub dict_clear : Dict → Dict
dict_clear d = record d { len = 0; entries = cleared }

-- Where the loop of `dict_add` ends: the entry, whether it holds the key, and the last deleted entry
-- that was passed; or the exception of `eq?`.
pub record Landing : Type 0 where
  pub at : ℕ
  pub matched : Bool
  pub hole : Option ℕ

-- if(hole) dp = hole;
abbrev pub target : Landing → ℕ
target l = if l.matched then l.at else elim l.hole [ none ↦ l.at | some q ↦ q ]

-- The key of the entry that is written: that of the entry where it matches.
abbrev pub kept_key : Entry → (key_in : ℕ) → (matched : Bool) → ℕ
kept_key (live h k v) key_in true = k
kept_key (live h k v) key_in false = key_in
kept_key empty key_in b = key_in
kept_key (deleted k v) key_in b = key_in

-- The writes of `dict_add` behind its loop.
abbrev pub store_at : Dict → (hash_in key_in value_in : ℕ) → Landing → Dict
store_at d h key_in value_in l = record d {
  len = if l.matched then d.len else d.len + 1;
  entries =
      write d.entries (target l) (live h (kept_key (d.entries l.at) key_in l.matched) value_in);
}

-- if (((dictlen(dict) * 100) / dictsize(dict)) > DICT_MAX_PERCENT_FULL)
abbrev pub is_crowded : Dict → Bool
is_crowded d = ltb dict_max_percent_full (d.len * 100 / d.size)

-- The index `i` of a loop as `dictptr` uses it: a negative one is converted to 64 bits.
abbrev pub slot_of : ℤ → (size : ℕ) → ℕ
slot_of (pos i) n = i % n
slot_of (negsuc i) n = (2 ^ 64 - 1 - i) % n

abbrev pub next_index : ℤ → ℤ
next_index (pos i) = pos (i + 1)
next_index (negsuc zero) = pos 0
next_index (negsuc (suc i)) = negsuc i

-- if (!hash_in) hash_in++;
abbrev pub item_hash : ℤ → ℤ
item_hash h = if same_int h (pos 0) then pos 1 else h

-- dp->entry.value
abbrev pub value_at : Entry → ℕ
value_at empty = 0
value_at (deleted k v) = v
value_at (live h k v) = v

-- dp->entry.hash = ENTRY_DELETED; the key stays.
abbrev pub as_deleted : Entry → Entry
as_deleted empty = empty
as_deleted (deleted k v) = deleted k v
as_deleted (live h k v) = deleted k v

abbrev pub remove_at : Dict → ℕ → Dict
remove_at d p = record d { len = d.len - 1; entries = write d.entries p (as_deleted (d.entries p)) }

-- Where the hashes are equal the keys are compared: the loop ends here, goes on, or `eq?` has raised
-- an exception.
abbrev pub compared :
    {A : Type 0} → Bool → Result Bool → (here rest : Option (Result A)) → Option (Result A)
compared false r here rest = rest
compared true (returns true) here rest = here
compared true (returns false) here rest = rest
compared true (fails e) here rest = some (fails e)

-- The entry that a loop looks at: never used, deleted, or with its hash and key.
abbrev pub visit :
    {A : Type 0}
    → Entry
    → (at_empty : A) → (at_deleted : (key : ℕ) → A) → (at_live : (hash key : ℕ) → A) → A
visit empty a d l = a
visit (deleted k v) a d l = d k
visit (live h k v) a d l = l h k

module _ (eq : (key key_in : ℕ) → Result Bool) where
  -- key == key_in || call_func(ist, key, SYM(EQ__QUES), ...) == OBJ(PR_TRUE)
  abbrev pub same_key : (key key_in : ℕ) → Result Bool
  same_key k key_in = if k == key_in then returns true else eq k key_in

  -- The loop of `dict_add`.
  unfoldable pub seek :
      ℕ → Entries → (size hash_in key_in : ℕ) → Option ℕ → ℕ → Option (Result Landing)
  seek zero s n h key_in hole i = none
  seek (suc fuel) s n h key_in hole i =
      let past = seek fuel s n h key_in (some (i % n)) (i + 1) in
      let rest = seek fuel s n h key_in hole (i + 1) in
      visit (s (i % n)) (some (returns (record { at = i % n; matched = false; hole = hole })))
        (λ k. past)
        (λ g k.
          compared (g == h) (same_key k key_in)
            (some (returns (record { at = i % n; matched = true; hole = hole }))) rest)

  -- What `dict_add` does once the table has room: whether the key is new, and the table.
  unfoldable pub put_entry : Dict → (hash_in key_in value_in : ℕ) → Option (Result Bool × Dict)
  unfolding seek
  put_entry d h key_in value_in = seek d.size d.entries d.size h key_in none h >>= λ r. elim r [
    | fails e ↦ some (fails e, d)
    | returns l ↦ some (returns (not l.matched), store_at d h key_in value_in l)
  ]

  -- `dict_add`, where the hash of the key has raised no exception.
  unfoldable pub dict_add :
      Dict → (hash_in : ℤ) → (key_in value_in : ℕ) → Option (Result Bool × Dict)
  unfolding dict_realloc put_entry
  dict_add d hash_in key_in value_in = (if is_crowded d then dict_realloc d else some d) >>= λ b.
      put_entry b (stored_hash hash_in) key_in value_in

  -- The loop of `dict_item` and of `delItem_`: the entry that holds the key, or none.
  unfoldable pub search :
      ℕ → Entries → (size : ℕ) → (hash_in : ℤ) → (key_in : ℕ) → ℤ → Option (Result (Option ℕ))
  search zero s n h key_in i = none
  search (suc fuel) s n h key_in i =
      let rest = search fuel s n h key_in (next_index i) in
      let found : Option (Result (Option ℕ)) = some (returns (some (slot_of i n))) in
      visit (s (slot_of i n)) (some (returns none))
        (λ k. compared (same_int minus_one h) (same_key k key_in) found rest)
        (λ g k. compared (same_int (pos g) h) (same_key k key_in) found rest)

  -- The search of `dict_item` for one key, under the read lock.
  unfoldable pub dict_search : Dict → (hash_in : ℤ) → (key_in : ℕ) → Option (Result (Option ℕ))
  unfolding search
  dict_search d hash_in key_in =
      search d.size d.entries d.size (item_hash hash_in) key_in (item_hash hash_in) >>= λ r.
      elim r [
        | fails e ↦ some (fails e)
        | returns o ↦ elim o [
          | none ↦ some (returns none)
          | some p ↦ some (returns (some (value_at (d.entries p))))
        ]
      ]

  -- `dict_item`. A key that is a string and is not found is searched again as the symbol of its text:
  -- `retry` has the hash and the symbol that `hash_value` and `sym` give for such a key, and is none for
  -- any other key and for a string that is no name of a symbol.
  unfoldable pub dict_item :
      Dict → (hash_in : ℤ) → (key_in : ℕ) → (retry : Option (ℤ × ℕ)) → Option (Result (Option ℕ))
  unfolding dict_search
  dict_item d hash_in key_in retry = dict_search d hash_in key_in >>= λ r. elim r [
    | fails e ↦ some (fails e)
    | returns o ↦ elim o [
      | some v ↦ some (returns (some v))
      | none ↦ elim retry [
        | none ↦ some (returns none)
        | some symbol ↦ dict_search d (symbol.0) (symbol.1)
      ]
    ]
  ]

  -- The search of `delItem_` under the write lock, and the deletion.
  unfoldable pub del_item : Dict → (hash_in : ℤ) → (key_in : ℕ) → Option (Result Dict)
  unfolding search
  del_item d hash_in key_in = search d.size d.entries d.size hash_in key_in hash_in >>= λ r.
      elim r [
        | fails e ↦ some (fails e)
        | returns o ↦ elim o [
          | none ↦ some (fails index_exc)
          | some p ↦ some (returns (remove_at d p))
        ]
      ]

-- The loop of `dict_keys_values`: the entries in use, in the order of the table.
unfoldable pub dict_entries : (rounds i : ℕ) → Entries → List (ℕ × ℕ)
dict_entries zero i s = []
dict_entries (suc r) i s = elim (s i) [
  | empty ↦ dict_entries r (i + 1) s
  | deleted k v ↦ dict_entries r (i + 1) s
  | live h k v ↦ (k, v) ∷ dict_entries r (i + 1) s
]
