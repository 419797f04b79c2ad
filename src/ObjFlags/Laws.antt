-- ===== src/ObjFlags/Laws.antt =====
-- What the flags and access levels mean to the locks.
use prothon.Base.{ℕ, ◌%◌, ◌<◌, ◌≡◌, ap, true, false, some, arith, ltb}
use prothon.World.{Obj, World, Cmd, ok, ◌>>◌, permission_exc, lock_exc, final}
use prothon.Lock.{write_lock}
use prothon.ObjFlags.{change, set_immutable, set_obj_wracc}

-- The object after a change of its fields.
abbrev changed : (Obj → Obj) → Obj → Obj
changed f x = record (f (record x { wrlock = true })) { wrlock = false }

change-run :
    (o : ℕ) (f : Obj → Obj) (w : World)
    → (w.heap o).wrlock ≡ false
    → (w₁ : World) × (change o f w ≡ ok tt w₁)
      × (w₁.heap o ≡ changed f (w.heap o))
      × (w₁.ist ≡ w.ist)
unfolding change
change-run o f w free = (final (change o f w) w, ground arith, ground arith, ground arith)

write_lock-immutable :
    (o : ℕ) (w : World)
    → (w.heap o).wrlock ≡ false
    → ltb (w.ist).access (w.heap o).wr_access ≡ false
    → (w.heap o).immutable ≡ true
    → (w₁ : World) × (write_lock o w ≡ ok true w₁) × ((w₁.ist).exception_obj ≡ some lock_exc)
unfolding write_lock
write_lock-immutable o w free may imm = (final (write_lock o w) w, ground arith, ground arith)

write_lock-denied :
    (o : ℕ) (w : World)
    → (w.heap o).wrlock ≡ false
    → ltb (w.ist).access (w.heap o).wr_access ≡ true
    → (w₁ : World) × (write_lock o w ≡ ok true w₁) × ((w₁.ist).exception_obj ≡ some permission_exc)
unfolding write_lock
write_lock-denied o w free low = (final (write_lock o w) w, ground arith, ground arith)

then-run :
    {B : Type 0} (m : Cmd (Unit {0})) (k : Cmd B) (b : B) (w w₁ w₂ : World)
    → m w ≡ ok tt w₁
    → k w₁ ≡ ok b w₂
    → (m >> k) w ≡ ok b w₂
then-run m k b w w₁ w₂ h g = ground arith

-- After `set_immutable` on an object that nobody locks, `write_lock` by a thread that may write the
-- object is refused with LOCK_EXC.
write_lock-set_immutable :
    (o : ℕ) (w : World)
    → (w.heap o).wrlock ≡ false
    → ltb (w.ist).access (w.heap o).wr_access ≡ false
    → (w' : World) × ((set_immutable o >> write_lock o) w ≡ ok true w')
      × ((w'.ist).exception_obj ≡ some lock_exc)
unfolding set_immutable
write_lock-set_immutable o w free may =
    let f : Obj → Obj = λ x. record x { immutable = true } in
    let (w₁, run, at, same) = change-run o f w free in
    let (w₂, refused, exc) =
      write_lock-immutable o w₁ (ap (λ (x : Obj). x.wrlock) at) (rw (same, at) may)
        (ap (λ (x : Obj). x.immutable) at) in
    (w₂, then-run (set_immutable o) (write_lock o) true w w₁ w₂ run refused, exc)

-- After `set_obj_wracc` with a level from 0 to 3 above the thread's, `write_lock` is refused with
-- PERMISSION_EXC.
pub write_lock-set_obj_wracc :
    (o access : ℕ) (w : World)
    → (w.heap o).wrlock ≡ false
    → access < 4
    → (w.ist).access < access
    → (w' : World) × ((set_obj_wracc o access >> write_lock o) w ≡ ok true w')
      × ((w'.ist).exception_obj ≡ some permission_exc)
unfolding set_obj_wracc
write_lock-set_obj_wracc o access w free small low =
    let f : Obj → Obj = λ x. record x { wr_access = access % 4 } in
    let (w₁, run, at, same) = change-run o f w free in
    let e : access % 4 ≡ access = omega arith in
    let denied : ltb (w.ist).access access ≡ true = ground arith in
    let (w₂, refused, exc) =
      write_lock-denied o w₁ (ap (λ (x : Obj). x.wrlock) at) (rw (same, at, e) denied) in
    (w₂, then-run (set_obj_wracc o access) (write_lock o) true w w₁ w₂ run refused, exc)
