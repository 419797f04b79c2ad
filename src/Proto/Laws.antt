-- ===== src/Proto/Laws.antt =====
-- What `add_proto` and `del_proto` do to the list of prototypes.
use prothon.Base.{
  ℕ, suc, ◌+◌, ◌-◌, ◌≤◌, ◌<◌, ◌≡◌, refl, ap, ◌∙◌, ◌⊎◌, inl, inr, Bool, true, false, some, List, [],
  ◌∷◌, ◌++◌, arith, ltb, ◌==◌, length, take, drop, length-append, take-append, drop-append,
  drop-length-append, length-drop, length-take, Bool-cases, Option-cases,
}
use mathlib.Core.List.{append-nil}
use prothon.AttrTable.{Attrs, ProtoEntry, attrs_realloc}
use prothon.AttrTable.Table.{IsTable, SameBindings, CanGrow, attrs_realloc-lem}
use prothon.Clist.{count}
use prothon.Proto.{
  proto_index, push_proto, push_entry, add_to_protos, drop_proto, del_from_protos, owns_binary_at,
}
use prothon.Proto.Search.{protos_of, erase, Found, Finds, proto_index-lem}

-- The block has an entry for each of its `psize` prototypes, and there is one at least.
pub record IsProtos (a : Attrs) : Type 0 where
  pub sized : length a.protos + length a.spare ≡ a.psize
  pub some_proto : 1 ≤ length a.protos

protos_of-append : (xs ys : List ProtoEntry) → protos_of (xs ++ ys) ≡ protos_of xs ++ protos_of ys
protos_of-append [] ys = refl
protos_of-append (x ∷ xs) ys = rw (protos_of-append xs ys) refl

-- The block with one more prototype: the attributes are the same.
pub record Pushed (a : Attrs) (proto : ℕ) (b : Attrs) : Type 0 where
  pub names : protos_of b.protos ≡ protos_of a.protos ++ proto ∷ []
  pub protos : IsProtos b
  pub table : IsTable b
  pub same : SameBindings a b

push_entry-lem :
    (a : Attrs) (proto : ℕ) (es : List ProtoEntry)
    → IsTable a
    → a.spare ≡ es
    → length a.protos + length es ≡ a.psize
    → length a.protos < a.psize
    → Pushed a proto (push_entry a proto es)
unfolding push_entry
push_entry-lem a proto [] t e sized room = absurd (omega (arith, sized, room))
push_entry-lem a proto (x ∷ es) t e sized room = record {
  names = protos_of-append a.protos (record x { proto = proto } ∷ []);
  protos = record {
    sized = omega (arith, sized, length-append a.protos (record x { proto = proto } ∷ []));
    some_proto = omega (arith, length-append a.protos (record x { proto = proto } ∷ []));
  };
  table = record { placed = t.placed; sized = t.sized; counted = t.counted };
  same = λ k v. (λ h. h, λ h. h);
}

push_proto-lem :
    (a : Attrs) (proto : ℕ)
    → IsTable a
    → length a.protos + length a.spare ≡ a.psize
    → length a.protos < a.psize
    → Pushed a proto (push_proto a proto)
push_proto-lem a proto t sized room = push_entry-lem a proto a.spare t refl sized room

-- The block is built anew where there is no room.
realloc-Pushed :
    (a : Attrs) (proto : ℕ)
    → IsTable a
    → CanGrow a
    → (b : Attrs) × (attrs_realloc a ≡ some b) × Pushed a proto (push_proto b proto)
realloc-Pushed a proto t more =
    let (b, run, u, same, _, _, protos, spare, psize) = attrs_realloc-lem a t more in
    let long : length b.protos ≡ length a.protos =
      ap (λ (es : List ProtoEntry). length es) protos in
    let one : length b.spare ≡ 1 = ap (λ (es : List ProtoEntry). length es) spare in
    let put =
      push_proto-lem b proto u (omega (arith, long, one, psize)) (omega (arith, long, psize)) in
    (
      b,
      run,
      record {
        names = put.names ∙ rw protos;
        protos = put.protos;
        table = put.table;
        same =
            λ k v. (λ h. (put.same k v).0 ((same k v).0 h), λ h. (same k v).1 ((put.same k v).1 h));
      },
    )

-- Adding a prototype to a well-formed block that can grow and has it changes nothing; any other one becomes the
-- last prototype of a well-formed block with the same attributes.
pub add_to_protos-lem :
    (a : Attrs) (proto : ℕ)
    → IsTable a
    → IsProtos a
    → CanGrow a
    → ((1 ≤ count proto (protos_of a.protos)) × (add_to_protos a proto ≡ some (false, a)))
      ⊎ ((b : Attrs) × (count proto (protos_of a.protos) ≡ 0)
          × (add_to_protos a proto ≡ some (true, b))
          × Pushed a proto b)
unfolding add_to_protos Finds
add_to_protos-lem a proto t p more =
    let found = proto_index-lem a.protos proto in
    elim (Option-cases (proto_index a.protos proto)) [
      | inl h ↦ elim (Bool-cases (length a.protos == a.psize)) [
        | inl full ↦
            let (b, run, put) = realloc-Pushed a proto t more in
            inr (push_proto b proto, rw h at found, rw (add_to_protos, h, full, run) refl, put)
        | inr room ↦
            let put = push_proto-lem a proto t p.sized (ground (arith, p.sized)) in
            inr (push_proto a proto, rw h at found, rw (add_to_protos, h, room) refl, put)
      ]
      | inr (i, h) ↦ inl ((rw h at found).counted, rw (add_to_protos, h) refl)
    ]

drop_proto-IsProtos :
    (a : Attrs) (i : ℕ)
    → IsProtos a
    → 2 ≤ length a.protos
    → i < length a.protos
    → IsProtos (drop_proto a i)
unfolding drop_proto
drop_proto-IsProtos a i p many lt =
    let kept = length-append (take i a.protos) (drop (suc i) a.protos) in
    let front = length-take i a.protos in
    let back = length-drop (suc i) a.protos in
    let last = length-drop (length a.protos - 1) a.protos in
    let behind = length-append (drop (length a.protos - 1) a.protos) a.spare in
    record {
      sized = omega (arith, kept, front, back, last, behind, p.sized, lt);
      some_proto = omega (arith, kept, front, back, lt, many);
    }

-- Deleting a prototype from a well-formed block takes its first entry off the list, unless it is
-- not there or there is one prototype only, where nothing changes. The attributes stay the same,
-- in a well-formed block.
pub del_from_protos-lem :
    (a : Attrs) (proto : ℕ)
    → IsTable a
    → IsProtos a
    → (((length a.protos ≡ 1) ⊎ (count proto (protos_of a.protos) ≡ 0))
        × (del_from_protos a proto ≡ (false, false, a)))
      ⊎ ((b : Attrs) × (owned : Bool) × (del_from_protos a proto ≡ (true, owned, b))
          × (protos_of b.protos ≡ erase proto (protos_of a.protos))
          × IsProtos b
          × IsTable b
          × SameBindings a b)
unfolding del_from_protos Finds drop_proto
del_from_protos-lem a proto t p =
    let found = proto_index-lem a.protos proto in
    elim (Bool-cases (ltb (length a.protos) 2)) [
      | inl few ↦ inl (inl (ground (arith, p.some_proto)), rw (del_from_protos, few) refl)
      | inr many ↦ elim (Option-cases (proto_index a.protos proto)) [
        | inl h ↦ inl (inr (rw h at found), rw (del_from_protos, many, h) refl)
        | inr (i, h) ↦
            let f : Found a.protos proto i = rw h at found in
            inr (
              drop_proto a i,
              owns_binary_at a.protos i,
              rw (del_from_protos, many, h) refl,
              f.erased,
              drop_proto-IsProtos a i p (ground arith) f.inside,
              record { placed = t.placed; sized = t.sized; counted = t.counted },
              λ k v. (λ x. x, λ x. x),
            )
      ]
    ]

-- A prototype added after the last one of the list was deleted takes over the flag `owns_binary`
-- of the deleted one.
push_proto-drop_proto :
    (a : Attrs) (es : List ProtoEntry) (e : ProtoEntry) (proto : ℕ)
    → a.protos ≡ es ++ e ∷ []
    → (push_proto (drop_proto a (length es)) proto).protos ≡ es ++ record e { proto = proto } ∷ []
unfolding drop_proto push_entry
push_proto-drop_proto a es e proto at =
    let one : length (es ++ e ∷ []) - 1 ≡ length es = omega (arith, length-append es (e ∷ [])) in
    rw
      (
        drop_proto,
        at,
        one,
        take-append es (e ∷ []),
        drop-append es e,
        drop-length-append es (e ∷ []),
        append-nil es,
      )
      refl
