-- ===== src/Symbol.antt =====
-- The table of symbols (src/symbol.c): a ternary search tree from names to symbols. A symbol is
-- given by its key, `sym->data.key`, and 0 is the null pointer. A name is its list of characters,
-- without the zero at its end.
pub mod Search
pub mod Intern
use prothon.Base.{
  ℕ, zero, suc, ◌+◌, ◌-◌, ◌*◌, ◌/◌, ◌%◌, ◌^◌, Bool, true, false, not, ◌&&◌, ◌||◌, Option, none,
  some, List, [], ◌∷◌, ◌++◌, ltb, leb, ◌==◌, if◌then◌else◌, length, take, drop,
}

-- `trie_node_t`, or the null pointer. The fields `eqptr` and `eqkey` are the union `eqkid`: a node
-- whose `splitchar` is 0 uses the key, any other one the pointer.
pub data Trie : Type 0 where
  nil : Trie
  node : (splitchar : ℕ) (lokid eqptr : Trie) (eqkey : ℕ) (hikid : Trie) → Trie

unfoldable pub ins_trie : Trie → List ℕ → (key : ℕ) → Trie
ins_trie nil [] key = node 0 nil nil key nil
ins_trie nil (c ∷ s) key = node c nil (ins_trie nil s key) 0 nil
ins_trie (node split lo eq k hi) [] key =
    let lo' = ins_trie lo [] key in
    let hi' = ins_trie hi [] key in
    if ltb 0 split
    then node split lo' eq k hi
    else if 0 == split
    then node split lo eq key hi
    else node split lo eq k hi'
ins_trie (node split lo eq k hi) (c ∷ s) key =
    let lo' = ins_trie lo (c ∷ s) key in
    let eq' = ins_trie eq s key in
    let hi' = ins_trie hi (c ∷ s) key in
    if ltb c split
    then node split lo' eq k hi
    else if c == split
    then node split lo eq' k hi
    else node split lo eq k hi'

unfoldable pub search_trie : Trie → List ℕ → ℕ
search_trie nil s = 0
search_trie (node split lo eq k hi) [] =
    let low = search_trie lo [] in
    let high = search_trie hi [] in if ltb 0 split then low else if 0 == split then k else high
search_trie (node split lo eq k hi) (c ∷ s) =
    let low = search_trie lo (c ∷ s) in
    let mid = search_trie eq s in
    let high = search_trie hi (c ∷ s) in
    if ltb c split then low else if c == split then mid else high

abbrev pub is_between : (lo hi c : ℕ) → Bool
is_between lo hi c = leb lo c && leb c hi

-- (*s >= 'a' && *s <= 'z') || (*s >= 'A' && *s <= 'Z') || *s == '_'
abbrev pub is_letter : ℕ → Bool
is_letter c = is_between 97 122 c || is_between 65 90 c || (c == 95)

abbrev pub is_mark : ℕ → Bool
is_mark c = (c == 33) || (c == 63)

-- The test of one character after the first, of which `more` says whether another one follows.
abbrev pub is_bad_char : (c : ℕ) (more : Bool) → Bool
is_bad_char c more = not (is_letter c || is_between 48 57 c || is_mark c) || (is_mark c && more)

abbrev pub has_more : List ℕ → Bool
has_more [] = false
has_more (c ∷ s) = true

-- for (p=s+1; *p; p++)
unfoldable pub good_chars : List ℕ → Bool
good_chars [] = true
good_chars (c ∷ s) = let rest = good_chars s in if is_bad_char c (has_more s) then false else rest

unfoldable pub is_good : List ℕ → Bool
unfolding good_chars
is_good [] = false
is_good (c ∷ s) = if not (is_letter c) then false else good_chars s

-- !strcmp(s, t)
abbrev pub same_text : List ℕ → List ℕ → Bool
same_text [] [] = true
same_text [] (d ∷ t) = false
same_text (c ∷ s) [] = false
same_text (c ∷ s) (d ∷ t) = let rest = same_text s t in if c == d then rest else false

-- if (!strcmp(s+len-5, "_BANG")) strcpy(s+len-5, "!"), and the same with "_QUES" and "?". With
-- fewer than five characters the source compares from before the name; here such a name stays.
abbrev pub replace_end : (suffix : List ℕ) (mark : ℕ) → List ℕ → List ℕ
replace_end suffix mark s =
    let n = length s - 5 in
    if leb 5 (length s) && same_text (drop n s) suffix then take n s ++ mark ∷ [] else s

unfoldable pub spelling : List ℕ → List ℕ
spelling s =
    replace_end (95 ∷ 81 ∷ 85 ∷ 69 ∷ 83 ∷ []) 63 (replace_end (95 ∷ 66 ∷ 65 ∷ 78 ∷ 71 ∷ []) 33 s)

-- `symbol_tree` and the global `next_key`.
pub record Symbols : Type 0 where
  pub symbol_tree : Trie
  pub next_key : ℕ

-- next_key = (next_key+3) & 0x7fffffff
abbrev pub bump : ℕ → ℕ
bump key = (key + 3) % 2 ^ 31

-- What `sym` does: it raises INTERPRETER_EXC, returns the key of a symbol, or ends the program
-- (`pr_exit`).
pub data Interned : Type 0 where
  bad_sym out_of_keys : Interned
  good_sym : (key : ℕ) → Symbols → Interned

-- The part of `sym` that holds `symbol_tree_lock`, for a thread that has no exception raised: one that has
-- returns from SET_TYPE_IF_EXC, for a new symbol, and keeps the lock.
unfoldable pub intern : Symbols → List ℕ → Interned
unfolding search_trie ins_trie
intern t s =
    let found = search_trie t.symbol_tree s in
    let key = bump t.next_key in
    if not (found == 0)
    then good_sym found t
    else if key == 0
    then out_of_keys
    else good_sym key (record { symbol_tree = ins_trie t.symbol_tree s key; next_key = key })

-- `sym` up to the unlocking of the table: what follows it fills in the attributes of the new symbol
-- object.
unfoldable pub sym : Symbols → List ℕ → Interned
unfolding intern spelling is_good
sym t s_in = let s = spelling s_in in if is_good s then intern t s else bad_sym
