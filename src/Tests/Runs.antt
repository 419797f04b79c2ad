-- ===== src/Tests/Runs.antt =====
-- Runs of the operations on concrete data.
use prothon.Base.{◌≡◌, refl, true, Option, none, some, [], ◌∷◌}
use prothon.AttrTable.{attr_value, find}
use prothon.Attr.{attr_first_key, attr_next_key, attr_value_by_key, next_key, first_key, first_from}
use prothon.Clist.{clist_pop_item, clist_pop_to, clist_push}
use prothon.ListObj.{copy_block, list_append_no_lock, list_clear, list_item_set}
use prothon.Lock.{read_lock, read_lock_try, read_unlock, write_lock, write_lock_try, write_unlock}
use prothon.Proto.{del_proto, proto_item, proto_len}
use prothon.Symbol.{Symbols, Interned, bad_sym, good_sym, ins_trie, intern, is_good, nil, spelling}
use prothon.Symbol
use prothon.World.{World, Res, ok, with_attrs, no_data, list_data, final}
use prothon.Tests.Data.{two_protos, quiet, free_obj, world, attr_world, list_world}

program : Unit {0}
unfolding find attr_value first_from first_key next_key attr_first_key attr_next_key
    attr_value_by_key clist_pop_item clist_push clist_pop_to copy_block list_append_no_lock
    list_clear list_item_set read_lock read_lock_try read_unlock write_lock write_lock_try
    write_unlock del_proto proto_item proto_len Symbol.sym is_good
program = tt

-- What a command returns.
abbrev result : {A : Type 0} → Res A → Option A
result (ok a w) = some a
result r = none

clist_pop_to_keeps :
    (clist_pop_to (record { space = 4; items = 1 ∷ 2 ∷ 3 ∷ 2 ∷ [] }) 2).items ≡ 1 ∷ []
unfolding program
clist_pop_to_keeps = refl

first_key_found : result (attr_first_key 1 attr_world) ≡ some 3
unfolding program
first_key_found = refl

next_key_none : result (attr_next_key 1 3 attr_world) ≡ some 0
unfolding program
next_key_none = refl

value_by_key_found : result (attr_value_by_key 1 3 attr_world) ≡ some (some 30)
unfolding program
value_by_key_found = refl

read_lock_try_taken : result (read_lock_try quiet 1 attr_world) ≡ some true
unfolding program
read_lock_try_taken = refl

write_lock_try_taken : result (write_lock_try 1 attr_world) ≡ some true
unfolding program
write_lock_try_taken = refl

abbrev proto_world : World
proto_world = world (free_obj (with_attrs two_protos) (list_data 2 [])) []

del_proto_removes : result (del_proto quiet 1 8 proto_world) ≡ some true
unfolding program
del_proto_removes = refl

-- The data go with the prototype that owns them.
del_proto_frees : ((final (del_proto quiet 1 8 proto_world) proto_world).heap 1).binary ≡ no_data
unfolding program
del_proto_frees = refl

proto_len_two : result (proto_len quiet 1 proto_world) ≡ some 2
unfolding program
proto_len_two = refl

proto_item_second : result (proto_item quiet 1 1 proto_world) ≡ some (some 8)
unfolding program
proto_item_second = refl

list_cleared : ((final (list_clear quiet 1 list_world) list_world).heap 1).binary ≡ list_data 2 []
unfolding program
list_cleared = refl

list_item_changed :
    ((final (list_item_set quiet 1 0 9 list_world) list_world).heap 1).binary
    ≡ list_data 2 (9 ∷ 5 ∷ [])
unfolding program
list_item_changed = refl

appended :
    ((final (list_append_no_lock 1 6 list_world) list_world).heap 1).binary
    ≡ list_data 4 (4 ∷ 5 ∷ 6 ∷ [])
unfolding program
appended = refl

copied : copy_block (list_data 8 (4 ∷ [])) ≡ list_data 1 (4 ∷ [])
unfolding program
copied = refl

-- sym("a_QUES") is the symbol "a?", and sym("a?b") is no symbol.
sym_renamed :
    Symbol.sym (record { symbol_tree = nil; next_key = 0 }) (97 ∷ 95 ∷ 81 ∷ 85 ∷ 69 ∷ 83 ∷ [])
    ≡ good_sym 3 (record { symbol_tree = ins_trie nil (97 ∷ 63 ∷ []) 3; next_key = 3 })
unfolding program
sym_renamed = refl

sym_refused : Symbol.sym (record { symbol_tree = nil; next_key = 0 }) (97 ∷ 63 ∷ 98 ∷ []) ≡ bad_sym
unfolding program
sym_refused = refl

-- After 715,827,882 symbols the key is no multiple of three any more.
key_wraps : Symbol.bump 2147483646 ≡ 1
key_wraps = refl
