-- ===== src/Tests/Tables.antt =====
-- The theorems on attribute tables, symbols and prototypes at concrete tables.
use prothon.Base.{ℕ, ◌+◌, ◌<◌, ◌≡◌, ◌↔◌, none, some, List, [], ◌∷◌, arith}
use prothon.AttrTable.{Attrs, attrs_realloc, set_in_attrs, attr_value, find, seek, no_proto}
use prothon.AttrTable.Count.{total, weight_used}
use prothon.AttrTable.Insert.{Holds, holds}
use prothon.AttrTable.Table.{IsTable, Binds, Open, Sets, SameBindings, attrs_realloc-lem}
use prothon.AttrTable.Lookup.{attr_value_iff}
use prothon.AttrTable.Termination.{IsFresh, IsFull, full, set_in_attrs-IsFresh, search-loops}
use prothon.Symbol.{nil, Symbols, good_sym, intern}
use prothon.Symbol.Intern.{Interns, IsSymbols-of_empty, intern-lem}
use prothon.Tests.Data.{one, one-IsTable, one-IsFresh, one-Open, used_up}

set_in_attrs-IsFresh_example :
    (b : Attrs) × (set_in_attrs (one 3 30) 11 40 ≡ some b)
    × IsFresh b
    × Sets (one 3 30) 11 40 b
    × Open b
set_in_attrs-IsFresh_example =
    set_in_attrs-IsFresh (one 3 30) 11 40 (omega arith) (one-IsFresh 3 30) (omega arith)

attr_value_iff_example :
    ((attr_value (one 3 30) 3 ≡ some (some 30)) ↔ Binds (one 3 30) 3 30)
    × ((attr_value (one 3 30) 3 ≡ some none) ↔ ((w : ℕ) → ¬ Binds (one 3 30) 3 w))
attr_value_iff_example = attr_value_iff (one 3 30) 3 30 (one-IsTable 3 30) (one-Open 3 30)

attrs_realloc-lem_example :
    (b : Attrs) × (attrs_realloc (one 3 30) ≡ some b)
    × IsTable b
    × SameBindings (one 3 30) b
    × (total weight_used b.slots b.asize ≡ b.alen)
    × (b.alen + 1 < b.asize)
    × (b.protos ≡ (one 3 30).protos)
    × (b.spare ≡ no_proto ∷ [])
    × (b.psize ≡ 2)
attrs_realloc-lem_example = attrs_realloc-lem (one 3 30) (one-IsTable 3 30) (omega arith)

used_up-IsFull : IsFull used_up 8
used_up-IsFull = full (λ p lt e. cc)

used_up-free : (w : ℕ) → ¬ Holds used_up 8 3 w
used_up-free w (holds p lt e) = cc

search-loops_example : (find 100 used_up 8 3 3 ≡ none) × (seek 100 used_up 8 3 none 3 ≡ none)
search-loops_example =
    search-loops used_up 8 3 (omega arith) used_up-IsFull used_up-free 100 3 none (omega arith)

abbrev no_symbols : Symbols
no_symbols = record { symbol_tree = nil; next_key = 0 }

-- "ab"
abbrev ab : List ℕ
ab = 97 ∷ 98 ∷ []

intern-lem_example :
    (key : ℕ) × (u : Symbols) × (intern no_symbols ab ≡ good_sym key u)
    × Interns no_symbols ab key u
intern-lem_example = intern-lem no_symbols ab IsSymbols-of_empty (omega arith)
