-- ===== src/Proto/Locked.antt =====
-- `add_proto` and `del_proto` with their locks, for a thread that need not wait.
use prothon.Base.{
  if◌then◌else◌, ap, ℕ, ◌≤◌, ◌≡◌, refl, ◌∙◌, ◌⊎◌, inl, inr, true, false, Bool, some, ==_refl, arith,
}
use prothon.AttrTable.{Attrs}
use prothon.AttrTable.Table.{IsTable, CanGrow}
use prothon.Clist.{count}
use prothon.World.{with_attrs, World, ok, Cmd}
use prothon.Lock.{write_lock, write_unlock}
use prothon.Lock.Laws.{OnlyAt}
use prothon.Attr.{attrs_of}
use prothon.Attr.Idle.{IsIdle, stored, update_ne, write_lock-idle, unlock-IsIdle}
use prothon.World.{Binary, no_data, Obj}
use prothon.Proto.{del_proto, del_in_protos, del_from_protos, add_proto, add_to_protos}
use prothon.Proto.Laws.{IsProtos, Pushed, add_to_protos-lem}
use prothon.Proto.Search.{protos_of}

module _ (notify : ℕ → ℕ → Cmd (Unit {0})) where
  add_proto-run :
      (o proto : ℕ) (w w₁ w' : World) (r : Bool) (b : Attrs)
      → write_lock o w ≡ ok false w₁
      → add_to_protos (attrs_of (w₁.heap o)) proto ≡ some (r, b)
      → write_unlock notify o (stored o (record (w₁.heap o) { attr_proto = with_attrs b }) w₁)
        ≡ ok tt w'
      → add_proto notify o proto w ≡ ok r w'
  unfolding add_proto
  add_proto-run o proto w w₁ w' r b locked found run = ground arith

  attrs-locked :
      (o : ℕ) (w w₁ : World)
      → w₁.heap o ≡ record (w.heap o) { wrlock = true }
      → attrs_of (w₁.heap o) ≡ attrs_of (w.heap o)
  unfolding attrs_of
  attrs-locked o w w₁ h = rw h refl

  -- Once the new block is known, `add_proto` stores it and leaves the object idle.
  add_proto-stores :
      (o proto : ℕ) (w : World) (r : Bool) (b : Attrs)
      → IsIdle o w
      → add_to_protos (attrs_of (w.heap o)) proto ≡ some (r, b)
      → (w' : World) × (add_proto notify o proto w ≡ ok r w')
        × ((w'.heap o).attr_proto ≡ with_attrs b)
        × IsIdle o w'
        × OnlyAt o w w'
  add_proto-stores o proto w r b idle found =
      let (w₁, locked, h, only, same) = write_lock-idle o w idle in
      let w₂ : World = stored o (record (w₁.heap o) { attr_proto = with_attrs b }) w₁ in
      let at : w₂.heap o ≡ record (w.heap o) { wrlock = true; attr_proto = with_attrs b } =
        rw (==_refl o, h) refl in
      let (w', run, attrs, _, idle', only') =
        unlock-IsIdle notify o w w₂ (with_attrs b) (w.heap o).binary idle at same in
      (
        w',
        add_proto-run o proto w w₁ w' r b locked (rw (attrs-locked o w w₁ h) found) run,
        attrs,
        idle',
        λ q ne. only' q ne ∙ update_ne w₁.heap o q _ ne ∙ only q ne,
      )

  -- On an idle object with a well-formed block that can grow `add_proto` returns false and keeps the block where
  -- the prototype is in the list; otherwise it returns true, and the prototype is behind the
  -- others, with the same attributes. The object is idle again, and no other object changes.
  add_proto-lem :
      (o proto : ℕ) (w : World)
      → IsIdle o w
      → IsTable (attrs_of (w.heap o))
      → IsProtos (attrs_of (w.heap o))
      → CanGrow (attrs_of (w.heap o))
      → (w' : World) × (r : Bool) × (b : Attrs) × (add_proto notify o proto w ≡ ok r w')
        × ((w'.heap o).attr_proto ≡ with_attrs b)
        × (((r ≡ false)
              × (1 ≤ count proto (protos_of (attrs_of (w.heap o)).protos))
              × (b ≡ attrs_of (w.heap o)))
            ⊎ ((r ≡ true)
                × (count proto (protos_of (attrs_of (w.heap o)).protos) ≡ 0)
                × Pushed (attrs_of (w.heap o)) proto b))
        × IsIdle o w'
        × OnlyAt o w w'
  add_proto-lem o proto w idle t p more =
      elim (add_to_protos-lem (attrs_of (w.heap o)) proto t p more) [
        | inl (has, found) ↦
            let (w', run, at, idle', only) =
              add_proto-stores o proto w false (attrs_of (w.heap o)) idle found in
            (w', false, attrs_of (w.heap o), run, at, inl (refl, has, refl), idle', only)
        | inr (b, lacks, found, put) ↦
            let (w', run, at, idle', only) = add_proto-stores o proto w true b idle found in
            (w', true, b, run, at, inr (refl, lacks, put), idle', only)
      ]

  del_proto-run :
      (o proto : ℕ) (w w₁ w' : World) (r owned : Bool) (a b : Attrs)
      → write_lock o w ≡ ok false w₁
      → (w₁.heap o).attr_proto ≡ with_attrs a
      → del_from_protos a proto ≡ (r, owned, b)
      → write_unlock notify o (
          stored o
            (record (w₁.heap o) {
              attr_proto = with_attrs b;
              binary = if owned then no_data else (w₁.heap o).binary;
            })
            w₁)
        ≡ ok tt w'
      → del_proto notify o proto w ≡ ok r w'
  unfolding del_proto del_in_protos
  del_proto-run o proto w w₁ w' r owned a b locked at found run = ground arith

  -- On an idle object with a block of attributes `del_proto` returns and stores what the deletion in
  -- the block gives, drops the data with the prototype that owned them, and leaves the object idle.
  del_proto-lem :
      (o proto : ℕ) (w : World) (a : Attrs)
      → IsIdle o w
      → (w.heap o).attr_proto ≡ with_attrs a
      → let (r, owned, b) = del_from_protos a proto in
        (w' : World) × (del_proto notify o proto w ≡ ok r w')
        × ((w'.heap o).attr_proto ≡ with_attrs b)
        × ((w'.heap o).binary ≡ (if owned then no_data else (w.heap o).binary))
        × IsIdle o w'
        × OnlyAt o w w'
  del_proto-lem o proto w a idle attrs =
      let (r, owned, b) = del_from_protos a proto in
      let d : Binary = if owned then no_data else (w.heap o).binary in
      let (w₁, locked, h, only, same) = write_lock-idle o w idle in
      let w₂ : World =
        stored o
          (record (w₁.heap o) {
            attr_proto = with_attrs b;
            binary = if owned then no_data else (w₁.heap o).binary;
          })
          w₁ in
      let at : w₂.heap o
          ≡ record (w.heap o) { wrlock = true; attr_proto = with_attrs b; binary = d } =
        rw (==_refl o, h) refl in
      let (w', run, attrs', block, idle', only') =
        unlock-IsIdle notify o w w₂ (with_attrs b) d idle at same in
      let here : (w₁.heap o).attr_proto ≡ with_attrs a = ap (λ (x : Obj). x.attr_proto) h ∙ attrs in
      (
        w',
        del_proto-run o proto w w₁ w' r owned a b locked here refl run,
        attrs',
        block,
        idle',
        λ q ne. only' q ne ∙ update_ne w₁.heap o q _ ne ∙ only q ne,
      )
