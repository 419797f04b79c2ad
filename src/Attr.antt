-- ===== src/Attr.antt =====
-- The attributes of an object: the functions of src/object.c from `get_attr` to
-- `attr_value_by_key`. A symbol is given by its key, `key->data.key`.
pub mod Access
pub mod Idle
pub mod Iterate
pub mod Roundtrip
use prothon.Base.{
  ℕ, zero, suc, ◌+◌, ◌-◌, ◌%◌, Bool, true, false, not, Option, none, some, List, [], ◌∷◌, ◌++◌, ltb,
  ◌==◌, if◌then◌else◌, length, get_elem?, take, drop, ◌||◌,
}
use prothon.AttrTable.{
  no_proto, Slot, empty, deleted, live, Slots, cleared, Attrs, ProtoEntry, attrs_pinit, attrs_ainit,
  find, set_in_attrs, attr_value, del_in_attrs, attrs_realloc,
}
use prothon.World.{
  AttrProto, proto_only, with_attrs, Binary, no_data, imm_data, list_data, Obj, World, Cmd, looping,
  aborted, ◌>>=◌, ◌>>◌, when◌then◌else◌, pure, skip, get_obj, put_obj, within_fuel,
}
use prothon.Lock.{read_lock, read_unlock, write_lock, write_unlock}

-- obj->data_type != DATA_TYPE_NONE
abbrev pub has_binary : Binary → Bool
has_binary no_data = false
has_binary (imm_data n) = true
has_binary (list_data size items) = true

unfoldable pub add_attrs : ℕ → Binary → Attrs
add_attrs proto binary = record {
  psize = attrs_pinit;
  protos = record { owns_binary = has_binary binary; proto = proto } ∷ [];
  spare = no_proto ∷ [];
  asize = attrs_ainit;
  alen = 0;
  slots = cleared;
}

-- if (obj->has_attrs) attrs = obj->attr_proto.attrs; else attrs = add_attrs(obj);
unfoldable pub attrs_of : Obj → Attrs
unfolding add_attrs
attrs_of obj = elim (obj.attr_proto) [ proto_only p ↦ add_attrs p obj.binary | with_attrs a ↦ a ]

-- The lookup of `get_attr`, between the locks.
unfoldable pub lookup_in : AttrProto → (tgt : ℕ) → Cmd (Option ℕ)
lookup_in (proto_only p) tgt = pure none
lookup_in (with_attrs a) tgt = within_fuel (attr_value a tgt)

-- The deletion of `del_attr`, between the locks.
unfoldable pub delete_in : ℕ → Obj → AttrProto → (tgt : ℕ) → Cmd Bool
delete_in o obj (proto_only p) tgt = pure false
delete_in o obj (with_attrs a) tgt = do
  (done, b) ← within_fuel (del_in_attrs a tgt)
  put_obj o (record obj { attr_proto = with_attrs b })
  pure done

module _ (notify : ℕ → ℕ → Cmd (Unit {0})) where
  unfoldable pub get_attr : (o tgt : ℕ) → Cmd (Option ℕ)
  unfolding lookup_in
  get_attr o tgt = do
    refused ← read_lock notify o
    when refused
        then pure none
        else do obj ← get_obj o; found ← lookup_in obj.attr_proto tgt; read_unlock o; pure found

  unfoldable pub del_attr : (o tgt : ℕ) → Cmd Bool
  unfolding delete_in
  del_attr o tgt = do
    refused ← write_lock o
    when refused then pure false else do
      obj ← get_obj o
      done ← delete_in o obj obj.attr_proto tgt
      write_unlock notify o
      pure done

  -- The assertion says that the key of a symbol is a multiple of three.
  unfoldable pub set_attr : (o tgt value : ℕ) → Cmd (Unit {0})
  unfolding attrs_of
  set_attr o tgt value = when not (tgt % 3 == 0) then (λ _. aborted) else do
    refused ← write_lock o
    when refused then skip else do
      obj ← get_obj o
      b ← within_fuel (set_in_attrs (attrs_of obj) tgt value)
      put_obj o (record obj { attr_proto = with_attrs b })
      write_unlock notify o

-- The first live key among the `rounds` slots from `i` on, or 0.
unfoldable pub first_from : (rounds i : ℕ) → Slots → (asize : ℕ) → ℕ
first_from zero i s n = 0
first_from (suc r) i s n =
    let rest = first_from r (i + 1) s n in
    elim (s (i % n)) [ empty ↦ rest | deleted v ↦ rest | live k v ↦ k ]

-- The loop of `attr_first_key`.
unfoldable pub first_key : Attrs → ℕ
first_key a = first_from a.asize 0 a.slots a.asize

-- The loops of `attr_next_key`.
unfoldable pub next_key : Attrs → (key : ℕ) → Option ℕ
next_key a key = elim (find a.asize a.slots a.asize key key) [
  | none ↦ none
  | some o ↦ elim o [
    | none ↦ some 0
    | some p ↦ let i = (p + 1) % a.asize in some (first_from (a.asize - i) i a.slots a.asize)
  ]
]

unfoldable pub attr_first_key : (o : ℕ) → Cmd ℕ
attr_first_key o = do
  obj ← get_obj o
  elim (obj.attr_proto) [ proto_only p ↦ pure 0 | with_attrs a ↦ pure (first_key a) ]

unfoldable pub attr_next_key : (o key : ℕ) → Cmd ℕ
attr_next_key o key = do
  obj ← get_obj o
  elim (obj.attr_proto) [ proto_only p ↦ pure 0 | with_attrs a ↦ within_fuel (next_key a key) ]

unfoldable pub attr_value_by_key : (o key : ℕ) → Cmd (Option ℕ)
unfolding lookup_in
attr_value_by_key o key = do obj ← get_obj o; lookup_in obj.attr_proto key
