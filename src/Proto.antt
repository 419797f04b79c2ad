-- ===== src/Proto.antt =====
-- The list of prototypes of an object: `add_proto`, `del_proto`, `proto_len` and `proto_item` of
-- src/object.c.
pub mod Laws
pub mod Search
pub mod Locked
use prothon.Base.{
  ℕ, zero, suc, ◌+◌, ◌-◌, Bool, true, false, Option, none, some, List, [], ◌∷◌, ◌++◌, ◌==◌,
  if◌then◌else◌, length, get_elem?, take, drop, ltb,
}
use prothon.AttrTable.{Attrs, ProtoEntry, attrs_realloc, no_proto}
use prothon.World.{
  AttrProto, proto_only, ◌>>=◌, ◌>>◌, with_attrs, Binary, no_data, Obj, World, Cmd, ok, aborted,
  when◌then◌else◌, pure, skip, get_obj, put_obj, within_fuel,
}
use prothon.Lock.{read_lock, read_unlock, write_lock, write_unlock}
use prothon.Attr.{attrs_of}

-- for (i=0; i < len; i++) if (attr_proto_item(attrs, i) == proto)
unfoldable pub proto_index : List ProtoEntry → (proto : ℕ) → Option ℕ
proto_index [] proto = none
proto_index (e ∷ es) proto =
    if e.proto == proto
    then some 0
    else elim (proto_index es proto) [ none ↦ none | some i ↦ some (suc i) ]

-- The entry behind the list, of which the flag stays as it is, becomes the last one.
unfoldable pub push_entry : Attrs → (proto : ℕ) → List ProtoEntry → Attrs
push_entry a proto [] = record a { protos = a.protos ++ record no_proto { proto = proto } ∷ [] }
push_entry a proto (e ∷ es) = record a {
  protos = a.protos ++ record e { proto = proto } ∷ [];
  spare = es;
}

-- attr_proto_item(attrs, attr_plen(attrs)++) = proto
abbrev pub push_proto : Attrs → (proto : ℕ) → Attrs
push_proto a proto = push_entry a proto a.spare

-- The part of `add_proto` inside the lock: the flag that it returns, and the block.
unfoldable pub add_to_protos : Attrs → (proto : ℕ) → Option (Bool × Attrs)
unfolding proto_index
add_to_protos a proto = elim (proto_index a.protos proto) [
  | some i ↦ some (false, a)
  | none ↦ elim (if length a.protos == a.psize then attrs_realloc a else some a) [
    | none ↦ none
    | some b ↦ some (true, push_proto b proto)
  ]
]

-- The block after the `memmove` of `del_proto`: the entry that was the last one stays behind the
-- list.
unfoldable pub drop_proto : Attrs → ℕ → Attrs
drop_proto a i = record a {
  protos = take i a.protos ++ drop (suc i) a.protos;
  spare = drop (length a.protos - 1) a.protos ++ a.spare;
}

-- attr_owns_bin(attrs, i)
abbrev pub owns_binary_at : List ProtoEntry → ℕ → Bool
owns_binary_at es i = elim (get_elem? es i) [ none ↦ false | some e ↦ e.owns_binary ]

-- The part of `del_proto` inside the lock: the flag that it returns, whether the data of the object
-- go with the prototype, and the block.
unfoldable pub del_from_protos : Attrs → (proto : ℕ) → Bool × Bool × Attrs
unfolding proto_index drop_proto
del_from_protos a proto =
    if ltb (length a.protos) 2 then (false, false, a) else elim (proto_index a.protos proto) [
      | none ↦ (false, false, a)
      | some i ↦ (true, owns_binary_at a.protos i, drop_proto a i)
    ]

-- The deletion of `del_proto`, between the locks.
unfoldable pub del_in_protos : ℕ → Obj → AttrProto → (proto : ℕ) → Cmd Bool
unfolding del_from_protos
del_in_protos o obj (proto_only p) proto = pure false
del_in_protos o obj (with_attrs a) proto = do
  (deleted, owned, b) ← pure (del_from_protos a proto)
  put_obj o
      (record obj { attr_proto = with_attrs b; binary = if owned then no_data else obj.binary })
  pure deleted

module _ (notify : ℕ → ℕ → Cmd (Unit {0})) where
  unfoldable pub add_proto : (o proto : ℕ) → Cmd Bool
  unfolding add_to_protos attrs_of
  add_proto o proto = do
    refused ← write_lock o
    when refused then pure false else do
      obj ← get_obj o
      (added, b) ← within_fuel (add_to_protos (attrs_of obj) proto)
      put_obj o (record obj { attr_proto = with_attrs b })
      write_unlock notify o
      pure added

  unfoldable pub del_proto : (o proto : ℕ) → Cmd Bool
  unfolding del_in_protos
  del_proto o proto = do
    refused ← write_lock o
    when refused then pure false else do
      obj ← get_obj o
      deleted ← del_in_protos o obj obj.attr_proto proto
      write_unlock notify o
      pure deleted

  unfoldable pub proto_len : (o : ℕ) → Cmd ℕ
  proto_len o = do
    refused ← read_lock notify o
    when refused then pure 0 else do
      obj ← get_obj o
      read_unlock o
      pure (elim (obj.attr_proto) [ proto_only p ↦ 1 | with_attrs a ↦ length a.protos ])

  -- `none` is the null pointer, and also an index behind the list, where the source reads the
  -- entries that follow.
  unfoldable pub proto_item : (o i : ℕ) → Cmd (Option ℕ)
  proto_item o i = do
    refused ← read_lock notify o
    when refused then pure none else do
      obj ← get_obj o
      read_unlock o
      pure (elim (obj.attr_proto) [
        | proto_only p ↦ some p
        | with_attrs a ↦ elim (get_elem? a.protos i) [ none ↦ none | some e ↦ some e.proto ]
      ])
