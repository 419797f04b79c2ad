-- ===== src/Lib.antt =====
-- Prothon: a prototype-based, concurrent scripting language with an interpreter in C. Every value is
-- an object with a list of prototypes, a hash table of attributes keyed by symbols, a reader/writer
-- lock and a word or block of data. This library models the object kernel: the tables, locks, symbols
-- and list blocks that the interpreter and every built-in type rest on.
--
-- Parts and files:
-- * AttrTable models the attribute table of src/object.c and src/object.h: `find` is the probe of
--   `get_attr`, `del_attr` and `attr_value_by_key`, `seek` that of `set_attr`, `attrs_realloc` the
--   rebuilding. AttrTable/Probe and Walk follow the probes, Placed, Count and Insert hold the
--   invariants, Rehash, Table and Lookup the operations, Termination the ends of the loops.
-- * Clist models the growable array of src/clist.c; the lock stack of a thread is one.
-- * World models the store: objects at addresses (`obj_s` of include/prothon/prothon.h), the thread's
--   interpreter state, and commands over both.
-- * Lock models src/lock.c: `read_lock`, `write_lock`, their `_try` variants and their releases.
-- * Attr models `get_attr`, `set_attr` and `del_attr` of src/object.c, which take a lock, use the
--   table and release the lock, and `attr_first_key`, `attr_next_key` and `attr_value_by_key`, which
--   take none.
-- * Proto models `add_proto`, `del_proto`, `proto_len` and `proto_item` of src/object.c.
-- * ObjFlags models the flags and access levels of an object, `set_immutable` to `get_obj_wracc`.
-- * Inherit models `proto_list`, `has_proto`, `get_proto_attr` and `get_scope_attr` of src/object.c on a
--   view of the store: Walk has the relation that the walk decides, Search, Last and Listed the lemmas of
--   the search, of the last places and of the list that is walked, Order what the lists hold, Attribute
--   the search of an attribute, and Climb its way through single prototypes.
-- * Owner models `obj_set_data_owner`, `proto_owns_binary` and `switch_proto` of src/object.c.
-- * Slices models `get_sequence_item` of src/builtins-core.c, with the ranges and positions of slices.
-- * ListMethods and ListSlices model the methods of lists in src/builtins-list.c as edits of a block:
--   `append_BANG` is `append_bang` and so on, `setItem_` is `set_item`, `delItem_` is `del_item`.
--   ListCalls models the locks around an edit.
-- * Tuples models the methods of tuples in src/builtins-tuple.c that compare items, which lists inherit.
-- * ListObj models the list blocks of src/builtins-list.c and the functions that lock and use them.
-- * Symbol models the ternary search tree and the interning of src/symbol.c.
-- * Long models the integers of any size of src/builtins-int.c: `x_add`, `x_sub`, `long_add`, `long_sub`.
--   Value says which integer the digits stand for, Add, Subtract and Sum hold the sums.
-- * LongDigit models `muladd1`, `inplace_divrem1`, `divrem1` and the grade school product `x_mul`.
-- * LongConvert models `new_longp`, `longp2int64`, `longp2int32`, `long_compare` and `long_invert`.
-- * IntMethods models the methods of integers: `add_` is `int_add` with `add_ints` for two integers, and
--   so on. Sums and Signs compare them with the arithmetic of integers.
-- * Dict models the hash table of src/builtins-dict.c and src/dict.h: `delItem_` is `del_item`,
--   `dict_keys_values` is `dict_entries`. Walk, Holes and Loops follow the probes, Placed has the invariant,
--   Vacant and Grow the rebuilding, Lookup and Adding `dict_add`, Answers the searches, Delete the
--   deletion.
-- * IntHash models `long_hash`, `hash_` of integers and `hash_value` of a key that is an integer; Keys puts
--   it together with `eq?` and with the dictionaries.
-- * Tests holds the concrete tables, worlds and runs.
-- * Base holds the shared names, numbers and lists.
--
-- Conventions. Objects, values and symbols are numbers: an object is its address, a symbol its
-- key. A thread runs alone: where the C code waits for another thread the command is `blocked`.
-- The broadcasts only wake waiting threads and are left out. The callbacks that `notify` of
-- src/lock.c runs are scripts that the interpreter calls: `notify` is a parameter. The 7-bit
-- counters of an object wrap modulo 128; the key counter of symbols wraps modulo 2 ^ 31. The
-- indices of the probes of tables are `int`s that start at a key or a hash and are taken not to
-- pass 2 ^ 31; the sizes of tables that grow are computed in 32 bits, as in the code. A slice
-- whose indexes and step add up to more than 31 bits is `overflowing`, and what the code does then
-- is not followed. The hash of a dictionary key and the answer of `eq?`, which can be scripts, are
-- parameters. A digit has 16 bits, a `twodigits` 64; memory is taken not to run out.
--
-- Fuel. The probing loops run on fuel `asize`: a probe that has seen every slot once sees nothing
-- new, so `none` is a loop that never ends; the command for it is `looping`. The loops of
-- dictionaries run on fuel `dictsize` in the same way. `new_longp` runs five rounds, as five
-- digits hold 64 bits. The walks over prototypes have the bound of the code, 101 or 100 objects.
-- `climb` is an endless loop in the code: where a rank falls along the single prototypes, more
-- fuel than the rank is enough. The loop over a slice runs on `index2`, or `index1` for a step
-- down, which is enough since a step is at least 1.
--
-- Not modelled: the parser and the byte-code interpreter, the memory manager, the other built-in
-- types, the console and the extension modules; the sorting of lists; the formatting of messages.
-- Of integers: the product by Karatsuba's method and `mul_`, the division of long integers,
-- shifts, bitwise operations and text. Of dictionaries: the locks and `popItem_BANG`. Of strings
-- as keys: the text of their symbols. src/pr_snprintf.c, src/prmalloc.c and src/getline.c are
-- copies of other projects' code.
pub mod Attr
pub mod AttrTable
pub mod Base
pub mod Clist
pub mod Dict
pub mod Inherit
pub mod IntHash
pub mod IntMethods
pub mod ListCalls
pub mod ListMethods
pub mod ListObj
pub mod ListSlices
pub mod Lock
pub mod Long
pub mod LongConvert
pub mod LongDigit
pub mod ObjFlags
pub mod Owner
pub mod Proto
pub mod Slices
pub mod Symbol
pub mod Tests
pub mod Tuples
pub mod World
