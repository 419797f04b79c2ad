-- ===== src/Owner/Laws.antt =====
-- Marking the owner of an object's data, and what becomes of the mark.
use prothon.Base.{
  ℕ, ◌≡◌, refl, sym, ◌≢◌, inl, inr, Bool, true, false, not, ◌||◌, none, some, List, [], ◌∷◌, ◌==◌,
  arith, Bool-cases,
}
use prothon.AttrTable.{Attrs, ProtoEntry}
use prothon.World.{AttrProto, with_attrs, Obj}
use prothon.Attr.{has_binary}
use prothon.Owner.{
  Store, asks, owns_for, mark_owners, obj_set_data_owner, marked_owner, owner_of, related,
  proto_owns_binary, only_proto, switched,
}
use prothon.Inherit.Walk.{||-cases}

-- The first entry that is marked is one that the owner stands for.
mark_owners-marked :
    (s : Store) (owner : ℕ) (es : List ProtoEntry)
    → (mark_owners s owner es).1 ≡ true
    → (p : ℕ) × (marked_owner ((mark_owners s owner es).0) ≡ some p) × (owns_for s owner p ≡ true)
unfolding mark_owners marked_owner
mark_owners-marked s owner [] h = ground (arith, h)
mark_owners-marked s owner (e ∷ es) h = elim (Bool-cases (owns_for s owner e.proto)) [
  | inl o ↦ (e.proto, rw o refl, o)
  | inr o ↦
      let (p, found, owns) = mark_owners-marked s owner es (rw o at h) in (p, rw o found, owns)
]

==_sym : (a b : ℕ) → (a == b) ≡ true → (b == a) ≡ true
==_sym a b h = ground arith

==-false_of_ne : (a b : ℕ) → a ≢ b → (a == b) ≡ false
==-false_of_ne a b ne = ground arith

||-true : (b : Bool) → (b || true) ≡ true
||-true true = refl
||-true false = refl

related-owner :
    (s : Store) (owner p : ℕ) → owns_for s owner p ≡ true → related s owner (some p) ≡ true
unfolding related owns_for
related-owner s owner p h = elim (||-cases (p == owner) (asks s p owner) h) [
  | inl e ↦ let back : (owner == p) ≡ true = ==_sym p owner e in rw (related, owns_for, back) refl
  | inr asked ↦ rw (related, asked) (||-true (owns_for s p owner))
]

module _ (s : Store) (o : ℕ) where
  proto_owns_binary-related :
      (proto : ℕ) (obj : Obj)
      → has_binary obj.binary ≡ true
      → related s proto (owner_of obj.attr_proto) ≡ true
      → proto_owns_binary s proto o obj ≡ true
  unfolding proto_owns_binary
  proto_owns_binary-related proto obj bin rel = elim (Bool-cases (proto == o)) [
    | inl e ↦ rw (bin, e) refl
    | inr e ↦ rw (bin, e, rel) refl
  ]

  proto_owns_binary_self :
      (proto : ℕ) (obj : Obj)
      → has_binary obj.binary ≡ true
      → (proto == o) ≡ true
      → proto_owns_binary s proto o obj ≡ true
  unfolding proto_owns_binary
  proto_owns_binary_self proto obj bin e = rw (bin, e) refl

  proto_owns_binary-none :
      (proto : ℕ) (obj : Obj)
      → owner_of obj.attr_proto ≡ none
      → (proto == o) ≡ false
      → proto_owns_binary s proto o obj ≡ false
  unfolding proto_owns_binary related
  proto_owns_binary-none proto obj none_marked e = elim (Bool-cases (has_binary obj.binary)) [
    | inl bin ↦ rw (bin, e, none_marked) refl
    | inr bin ↦ rw bin refl
  ]

  obj_set_data_owner-run :
      (owner : ℕ) (a : Attrs)
      → (o == owner) ≡ false
      → obj_set_data_owner s o owner (with_attrs a) ≡ (
        with_attrs (record a { protos = (mark_owners s owner a.protos).0 }),
        not (mark_owners s owner a.protos).1,
      )
  unfolding obj_set_data_owner
  obj_set_data_owner-run owner a e = rw e refl

not-false : (b : Bool) → not b ≡ false → b ≡ true
not-false true h = refl
not-false false h = sym h

-- Where `obj_set_data_owner` of an object with an attribute table and data raises no exception, the
-- owner owns the data afterwards.
proto_owns_binary-obj_set_data_owner :
    (s : Store) (o owner : ℕ) (obj : Obj) (a : Attrs)
    → has_binary obj.binary ≡ true
    → (obj_set_data_owner s o owner (with_attrs a)).1 ≡ false
    → proto_owns_binary s owner o
        (record obj { attr_proto = (obj_set_data_owner s o owner (with_attrs a)).0 })
      ≡ true
unfolding obj_set_data_owner proto_owns_binary owner_of
proto_owns_binary-obj_set_data_owner s o owner obj a bin fine =
    let after : AttrProto → Obj = λ ap. record obj { attr_proto = ap } in
    elim (Bool-cases (o == owner)) [
      | inl e ↦
          let back : (owner == o) ≡ true = ==_sym o owner e in
          proto_owns_binary_self s o owner (after (obj_set_data_owner s o owner (with_attrs a)).0)
            bin back
      | inr e ↦
          let run = obj_set_data_owner-run s o owner a e in
          let set : (mark_owners s owner a.protos).1 ≡ true =
            not-false (mark_owners s owner a.protos).1 (rw run at fine) in
          let (p, found, owns) = mark_owners-marked s owner a.protos set in
          rw run (
            proto_owns_binary-related s o owner
              (after (with_attrs (record a { protos = (mark_owners s owner a.protos).0 }))) bin
              (rw found (related-owner s owner p owns)))
    ]

owner_of-only_proto :
    (q : ℕ) (a : Attrs) (e : ProtoEntry) (es : List ProtoEntry)
    → a.protos ≡ e ∷ es
    → e.owns_binary ≡ false
    → owner_of (only_proto q (with_attrs a)) ≡ none
unfolding owner_of only_proto marked_owner
owner_of-only_proto q a e es first unmarked = rw (first, unmarked) refl

-- An object whose first prototype is not marked as the owner of its data: `switch_proto` to a prototype
-- that owns the data keeps the data, and afterwards no other object counts as their owner, not even that
-- prototype.
proto_owns_binary-switched :
    (s : Store) (o q p : ℕ) (obj : Obj) (a : Attrs) (e : ProtoEntry) (es : List ProtoEntry)
    → obj.attr_proto ≡ with_attrs a
    → a.protos ≡ e ∷ es
    → e.owns_binary ≡ false
    → proto_owns_binary s q o obj ≡ true
    → p ≢ o
    → ((switched s o q obj).binary ≡ obj.binary)
      × (proto_owns_binary s p o (switched s o q obj) ≡ false)
unfolding switched only_proto owner_of
proto_owns_binary-switched s o q p obj a e es has first unmarked owns ne = (
  rw owns refl,
  proto_owns_binary-none s o p (switched s o q obj)
      (rw has (owner_of-only_proto q a e es first unmarked)) (==-false_of_ne p o ne),
)
