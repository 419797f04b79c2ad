-- ===== src/Tests/Objects.antt =====
-- The theorems on objects in the store at concrete worlds.
use prothon.Base.{arith, ℕ, ◌≡◌, refl, ◌≢◌, ◌↔◌, inr, true, some, []}
use prothon.AttrTable.{Attrs}
use prothon.AttrTable.Table.{IsTable, Binds, Sets}
use prothon.World.{World, with_attrs, ok}
use prothon.Lock.Laws.{OnlyAt}
use prothon.Attr.{attrs_of, get_attr, set_attr, del_attr}
use prothon.Attr.Access.{set_attr-lem}
use prothon.Attr.Idle.{IsIdle}
use prothon.Attr.Roundtrip.{set_attr-get_attr, del_attr-lem}
use prothon.World.{list_data}
use prothon.Tests.Data.{
  free_obj, world, two_protos, one, one-IsTable, one-Binds, one-Open, quiet, attr_world,
  attr_world-IsIdle,
}

set_attr-get_attr_example :
    (w₁ : World) × (set_attr quiet 1 12 40 attr_world ≡ ok tt w₁)
    × ((w₂ : World) × (get_attr quiet 1 12 w₁ ≡ ok (some 40) w₂) × IsIdle 1 w₂)
    × ((j x : ℕ)
        → 12 ≢ j
        → Binds (one 3 30) j x
        → (w₂ : World) × (get_attr quiet 1 j w₁ ≡ ok (some x) w₂))
unfolding attrs_of
set_attr-get_attr_example =
    set_attr-get_attr quiet 1 12 40 attr_world attr_world-IsIdle (omega arith) refl
      (one-IsTable 3 30) (omega arith) (inr (one-Open 3 30))

set_attr-lem_example :
    (w' : World) × (b : Attrs) × (set_attr quiet 1 12 40 attr_world ≡ ok tt w')
    × ((w'.heap 1).attr_proto ≡ with_attrs b)
    × IsTable b
    × Sets (one 3 30) 12 40 b
    × IsIdle 1 w'
    × OnlyAt 1 attr_world w'
unfolding attrs_of
set_attr-lem_example =
    set_attr-lem quiet 1 12 40 attr_world attr_world-IsIdle (omega arith) refl (one-IsTable 3 30)
      (omega arith) (inr (one-Open 3 30))

del_attr-lem_example :
    (w' : World) × (b : Attrs) × (del_attr quiet 1 3 attr_world ≡ ok true w')
    × ((w'.heap 1).attr_proto ≡ with_attrs b)
    × IsTable b
    × ((x : ℕ) → ¬ Binds b 3 x)
    × ((j x : ℕ) → 3 ≢ j → Binds (one 3 30) j x ↔ Binds b j x)
    × IsIdle 1 w'
    × OnlyAt 1 attr_world w'
del_attr-lem_example =
    del_attr-lem quiet 1 3 30 attr_world (one 3 30) attr_world-IsIdle refl (one-IsTable 3 30)
      (one-Binds 3 30)

-- A world whose object has two prototypes, of which the second one owns the data.
abbrev owner_world : World
owner_world = world (free_obj (with_attrs two_protos) (list_data 2 [])) []

owner_world-IsIdle : IsIdle 1 owner_world
owner_world-IsIdle = record {
  free = refl;
  may_read = refl;
  may_write = refl;
  rd_quiet = refl;
  wr_quiet = refl;
  mutable = refl;
  unread = refl;
  unasked = refl;
  stack = omega arith;
}
