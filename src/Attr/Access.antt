-- ===== src/Attr/Access.antt =====
-- `get_attr`, `set_attr` and `del_attr` with their locks, for a thread that need not wait.
use prothon.Base.{
  ℕ, ◌%◌, ◌<◌, ◌≡◌, refl, ◌∙◌, ◌⊎◌, true, false, not, ==_refl, Option, some, arith, ◌==◌,
}
use prothon.AttrTable.{Attrs, is_crowded, set_in_attrs, attr_value}
use prothon.AttrTable.Table.{IsTable, Open, Sets, CanGrow, set_in_attrs-lem}
use prothon.World.{with_attrs, World, ok, Cmd}
use prothon.Lock.{read_lock, read_unlock, write_lock, write_unlock}
use prothon.Lock.Laws.{OnlyAt}
use prothon.Attr.{attrs_of, get_attr, set_attr}
use prothon.Attr.Idle.{IsIdle, write_lock-idle, update_ne, stored, unlock-IsIdle, Read-of_idle}

module _ (notify : ℕ → ℕ → Cmd (Unit {0})) where
  get_attr-run :
      (o tgt : ℕ) (w w₁ w' : World) (a : Attrs) (r : Option ℕ)
      → read_lock notify o w ≡ ok false w₁
      → (w₁.heap o).attr_proto ≡ with_attrs a
      → attr_value a tgt ≡ some r
      → read_unlock o w₁ ≡ ok tt w'
      → get_attr notify o tgt w ≡ ok r w'
  unfolding get_attr
  get_attr-run o tgt w w₁ w' a r locked attrs found run = ground arith

  attrs-locked :
      (o tgt v : ℕ) (w w₁ : World) {b : Attrs}
      → w₁.heap o ≡ record (w.heap o) { wrlock = true }
      → set_in_attrs (attrs_of (w.heap o)) tgt v ≡ some b
      → set_in_attrs (attrs_of (w₁.heap o)) tgt v ≡ some b
  unfolding attrs_of
  attrs-locked o tgt v w w₁ h found = rw h found

  set_attr-run :
      (o tgt v : ℕ) (w w₁ w' : World) (b : Attrs)
      → not (tgt % 3 == 0) ≡ false
      → write_lock o w ≡ ok false w₁
      → set_in_attrs (attrs_of (w₁.heap o)) tgt v ≡ some b
      → write_unlock notify o (stored o (record (w₁.heap o) { attr_proto = with_attrs b }) w₁)
        ≡ ok tt w'
      → set_attr notify o tgt v w ≡ ok tt w'
  unfolding set_attr
  set_attr-run o tgt v w w₁ w' b third locked found run = ground arith

  -- On an idle object with a well-formed table that has a slot that was never used or is crowded
  -- enough to be built anew, and whose length the product by 300 keeps below 2 ^ 31, `set_attr` of a
  -- positive key that is a multiple of three returns, leaves the
  -- object idle with a well-formed table, binds the key to the value, and changes no other
  -- attribute and no other object.
  pub set_attr-lem :
      (o tgt v : ℕ) (w : World)
      → IsIdle o w
      → 0 < tgt
      → tgt % 3 ≡ 0
      → IsTable (attrs_of (w.heap o))
      → CanGrow (attrs_of (w.heap o))
      → (is_crowded (attrs_of (w.heap o)) ≡ true) ⊎ Open (attrs_of (w.heap o))
      → (w' : World) × (b : Attrs) × (set_attr notify o tgt v w ≡ ok tt w')
        × ((w'.heap o).attr_proto ≡ with_attrs b)
        × IsTable b
        × Sets (attrs_of (w.heap o)) tgt v b
        × IsIdle o w'
        × OnlyAt o w w'
  set_attr-lem o tgt v w idle z third t more way =
      let (b, found, t', s) = set_in_attrs-lem (attrs_of (w.heap o)) tgt v z t more way in
      let (w₁, locked, h, only, same) = write_lock-idle o w idle in
      let w₂ : World = stored o (record (w₁.heap o) { attr_proto = with_attrs b }) w₁ in
      let at : w₂.heap o ≡ record (w.heap o) { wrlock = true; attr_proto = with_attrs b } =
        rw (==_refl o, h) refl in
      let (w', run, attrs, _, idle', only') =
        unlock-IsIdle notify o w w₂ (with_attrs b) (w.heap o).binary idle at same in
      let ends =
        set_attr-run o tgt v w w₁ w' b (ground arith) locked (attrs-locked o tgt v w w₁ h found)
          run in
      (
        w',
        b,
        ends,
        attrs,
        t',
        s,
        idle',
        λ q ne. only' q ne ∙ update_ne w₁.heap o q _ ne ∙ only q ne,
      )

  -- On an idle object with a block of attributes in which the lookup ends, `get_attr` returns what
  -- the lookup gives, changes no attribute and no other object, and leaves the object idle.
  pub get_attr-lem :
      (o tgt : ℕ) (w : World) (a : Attrs) (r : Option ℕ)
      → IsIdle o w
      → (w.heap o).attr_proto ≡ with_attrs a
      → attr_value a tgt ≡ some r
      → (w' : World) × (get_attr notify o tgt w ≡ ok r w')
        × ((w'.heap o).attr_proto ≡ with_attrs a)
        × IsIdle o w'
        × OnlyAt o w w'
  get_attr-lem o tgt w a r idle attrs found =
      let (w₁, w', read) = Read-of_idle notify o w idle in
      (
        w',
        get_attr-run o tgt w w₁ w' a r read.locked (read.same_attrs ∙ attrs) found read.released,
        read.kept_attrs ∙ attrs,
        read.idle,
        read.only,
      )
