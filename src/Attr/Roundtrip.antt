-- ===== src/Attr/Roundtrip.antt =====
-- Sequences of `set_attr`, `get_attr` and `del_attr` on one object.
use prothon.Base.{ℕ, ◌%◌, ◌<◌, ◌≡◌, refl, ap, ◌∙◌, ◌≢◌, ◌↔◌, ◌⊎◌, true, false, some, ==_refl, arith}
use prothon.AttrTable.{Attrs, is_crowded, del_in_attrs}
use prothon.AttrTable.Table.{IsTable, Binds, Open, CanGrow, del_in_attrs-lem}
use prothon.AttrTable.Lookup.{attr_value-Binds}
use prothon.World.{with_attrs, Obj, World, ok, Cmd}
use prothon.Lock.{write_lock, write_unlock}
use prothon.Lock.Laws.{OnlyAt}
use prothon.Attr.{attrs_of, get_attr, set_attr, del_attr, delete_in}
use prothon.Attr.Access.{set_attr-lem, get_attr-lem}
use prothon.Attr.Idle.{IsIdle, stored, update_ne, write_lock-idle, unlock-IsIdle}

module _ (notify : ℕ → ℕ → Cmd (Unit {0})) where
  -- After `set_attr` of a positive key that is a multiple of three, on an idle object with a well-formed
  -- table that has a slot that was never used or is crowded enough to be built anew, and whose length
  -- the product by 300 keeps below 2 ^ 31, `get_attr` of
  -- the same symbol returns the value, and what any other symbol was bound to, `get_attr` still
  -- returns.
  pub set_attr-get_attr :
      (o tgt v : ℕ) (w : World)
      → IsIdle o w
      → 0 < tgt
      → tgt % 3 ≡ 0
      → IsTable (attrs_of (w.heap o))
      → CanGrow (attrs_of (w.heap o))
      → (is_crowded (attrs_of (w.heap o)) ≡ true) ⊎ Open (attrs_of (w.heap o))
      → (w₁ : World) × (set_attr notify o tgt v w ≡ ok tt w₁)
        × ((w₂ : World) × (get_attr notify o tgt w₁ ≡ ok (some v) w₂) × IsIdle o w₂)
        × ((j x : ℕ)
            → tgt ≢ j
            → Binds (attrs_of (w.heap o)) j x
            → (w₂ : World) × (get_attr notify o j w₁ ≡ ok (some x) w₂))
  set_attr-get_attr o tgt v w idle z third t more way =
      let (w₁, b, run, attrs, t', s, idle', _) =
        set_attr-lem notify o tgt v w idle z third t more way in
      let (w₂, run', _, idle'', _) =
        get_attr-lem notify o tgt w₁ b (some v) idle' attrs (attr_value-Binds b tgt v t' s.bound) in
      (
        w₁,
        run,
        (w₂, run', idle''),
        λ j x ne h.
            let found = attr_value-Binds b j x t' ((s.kept j x ne).0 h) in
            let (w₃, run'', _, _, _) = get_attr-lem notify o j w₁ b (some x) idle' attrs found in
            (w₃, run''),
      )

  del_attr-run :
      (o tgt : ℕ) (w w₁ w' : World) (a b : Attrs)
      → write_lock o w ≡ ok false w₁
      → (w₁.heap o).attr_proto ≡ with_attrs a
      → del_in_attrs a tgt ≡ some (true, b)
      → write_unlock notify o (stored o (record (w₁.heap o) { attr_proto = with_attrs b }) w₁)
        ≡ ok tt w'
      → del_attr notify o tgt w ≡ ok true w'
  unfolding del_attr delete_in
  del_attr-run o tgt w w₁ w' a b locked at found run = ground arith

  -- `del_attr` of a symbol that is bound in the well-formed table of an idle object returns true,
  -- unbinds the symbol, changes no other attribute and no other object, and leaves the object idle
  -- with a well-formed table.
  pub del_attr-lem :
      (o tgt v : ℕ) (w : World) (a : Attrs)
      → IsIdle o w
      → (w.heap o).attr_proto ≡ with_attrs a
      → IsTable a
      → Binds a tgt v
      → (w' : World) × (b : Attrs) × (del_attr notify o tgt w ≡ ok true w')
        × ((w'.heap o).attr_proto ≡ with_attrs b)
        × IsTable b
        × ((x : ℕ) → ¬ Binds b tgt x)
        × ((j x : ℕ) → tgt ≢ j → Binds a j x ↔ Binds b j x)
        × IsIdle o w'
        × OnlyAt o w w'
  del_attr-lem o tgt v w a idle attrs t bound =
      let (b, found, t', gone, kept) = del_in_attrs-lem a tgt v t bound in
      let (w₁, locked, h, only, same) = write_lock-idle o w idle in
      let w₂ : World = stored o (record (w₁.heap o) { attr_proto = with_attrs b }) w₁ in
      let at : w₂.heap o ≡ record (w.heap o) { wrlock = true; attr_proto = with_attrs b } =
        rw (==_refl o, h) refl in
      let (w', run, attrs', _, idle', only') =
        unlock-IsIdle notify o w w₂ (with_attrs b) (w.heap o).binary idle at same in
      let here : (w₁.heap o).attr_proto ≡ with_attrs a = ap (λ (x : Obj). x.attr_proto) h ∙ attrs in
      (
        w',
        b,
        del_attr-run o tgt w w₁ w' a b locked here found run,
        attrs',
        t',
        gone,
        kept,
        idle',
        λ q ne. only' q ne ∙ update_ne w₁.heap o q _ ne ∙ only q ne,
      )
