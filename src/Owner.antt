-- ===== src/Owner.antt =====
-- Which prototype owns the data of an object (src/object.c): `obj_set_data_owner`, `proto_owns_binary`
-- and `switch_proto`. The exception of a `has_proto` that walks in a circle or is refused a lock is left
-- out; its answer is FALSE.
pub mod Laws
use prothon.Base.{
  ℕ, Bool, true, false, not, ◌&&◌, ◌||◌, Option, none, some, List, [], ◌∷◌, ◌++◌, ◌==◌,
  if◌then◌else◌,
}
use prothon.AttrTable.{Attrs, ProtoEntry}
use prothon.World.{
  AttrProto, proto_only, with_attrs, Binary, no_data, Obj, World, Cmd, ◌>>=◌, ◌>>◌, when◌then◌else◌,
  pure, skip, get_obj, put_obj,
}
use prothon.Attr.{has_binary}
use prothon.Lock.{write_lock, write_unlock}
use prothon.Inherit.{View, Answer, inherits, inherits_not, circular, denied, has_proto}

-- What `has_proto` reads: the prototypes of every object, and whether it has no attribute table.
pub record Store : Type 0 where
  pub view : View
  pub is_single : ℕ → Bool

abbrev pub yes : Answer → Bool
yes inherits = true
yes inherits_not = false
yes circular = false
yes denied = false

abbrev pub asks : Store → (x t : ℕ) → Bool
asks s x t = yes (has_proto (s.is_single x) s.view x t)

-- (proto == owner) || has_proto(ist, proto, owner)
unfoldable pub owns_for : Store → (owner proto : ℕ) → Bool
unfolding has_proto
owns_for s owner proto = (proto == owner) || asks s proto owner

-- The loop of `obj_set_data_owner`: the entries, and `owner_set`.
unfoldable pub mark_owners : Store → (owner : ℕ) → List ProtoEntry → List ProtoEntry × Bool
unfolding owns_for
mark_owners s owner [] = ([], false)
mark_owners s owner (e ∷ es) =
    let rest = mark_owners s owner es in
    (
      record e { owns_binary = owns_for s owner e.proto } ∷ rest.0,
      owns_for s owner e.proto || rest.1,
    )

-- The new prototypes, and whether INTERNAL_EXC is raised.
unfoldable pub obj_set_data_owner : Store → (o owner : ℕ) → AttrProto → AttrProto × Bool
unfolding mark_owners
obj_set_data_owner s o owner (proto_only p) = (proto_only p, false)
obj_set_data_owner s o owner (with_attrs a) =
    let marked = mark_owners s owner a.protos in
    if o == owner
    then (with_attrs a, false)
    else (with_attrs (record a { protos = marked.0 }), not marked.1)

-- The first prototype that is marked as the owner.
unfoldable pub marked_owner : List ProtoEntry → Option ℕ
marked_owner [] = none
marked_owner (e ∷ es) = let rest = marked_owner es in if e.owns_binary then some e.proto else rest

unfoldable pub owner_of : AttrProto → Option ℕ
unfolding marked_owner
owner_of (proto_only p) = some p
owner_of (with_attrs a) = marked_owner a.protos

-- owner && ((proto == owner) || has_proto(ist, proto, owner) || has_proto(ist, owner, proto))
unfoldable pub related : Store → (proto : ℕ) → (owner : Option ℕ) → Bool
unfolding owns_for
related s proto none = false
related s proto (some owner) = owns_for s owner proto || asks s owner proto

unfoldable pub proto_owns_binary : Store → (proto o : ℕ) → Obj → Bool
unfolding related owner_of
proto_owns_binary s proto o obj =
    let owns = related s proto (owner_of obj.attr_proto) in
    if not (has_binary obj.binary) then false else if proto == o then true else owns

-- attr_plen(attrs) = 1; attr_proto_item(attrs, 0) = new_proto;
unfoldable pub only_proto : (new_proto : ℕ) → AttrProto → AttrProto
only_proto q (proto_only p) = proto_only q
only_proto q (with_attrs a) = elim (a.protos ++ a.spare) [
  | [] ↦ with_attrs a
  | e ∷ es ↦ with_attrs (record a { protos = record e { proto = q } ∷ []; spare = es })
]

unfoldable pub switched : Store → (o new_proto : ℕ) → Obj → Obj
unfolding proto_owns_binary only_proto
switched s o q obj = record obj {
  binary = if proto_owns_binary s q o obj then obj.binary else no_data;
  attr_proto = only_proto q obj.attr_proto;
}

unfoldable pub switch_proto :
    (notify : ℕ → ℕ → Cmd (Unit {0})) → Store → (o new_proto : ℕ) → Cmd (Unit {0})
unfolding switched
switch_proto notify s o new_proto = do
  refused ← write_lock o
  when refused
      then skip
      else do obj ← get_obj o; put_obj o (switched s o new_proto obj); write_unlock notify o
