-- ===== src/Lock/Laws.antt =====
-- What each lock operation does to the object, branch by branch, for a thread that need not wait.
use prothon.Base.{
  ℕ, ◌+◌, ◌-◌, ◌%◌, ◌<◌, ◌≡◌, refl, ap, ◌∙◌, ◌≢◌, ◌⊎◌, inl, inr, Bool, true, false, not, ◌&&◌, some,
  arith, ◌==◌, ltb, Bool-cases,
}
use prothon.Clist.{clist_push, clist_in, clist_in_cnt, clist_pop_item}
use native.Mathlib.Nat.{mod-eq_of_lt}
use prothon.Clist.Count.{clist_in-cnt, clist_pop_item-count}
use prothon.World.{
  looping, aborted, permission_exc, lock_exc, new_or_marked, Obj, World, Res, ok, blocked, Cmd,
  final,
}
use prothon.Lock.{read_lock, read_unlock, write_lock, write_unlock, bits7, must_wait}

-- Nothing but the object `o` changes.
abbrev pub OnlyAt : ℕ → World → World → Type 0
OnlyAt o w w' = (p : ℕ) → o ≢ p → w'.heap p ≡ w.heap p

-- The thread may take a read lock on `o` at once.
pub record CanRead (o : ℕ) (w : World) : Type 0 where
  pub free : (w.heap o).wrlock ≡ false
  pub allowed : ltb (w.ist).access (w.heap o).rd_access ≡ false
  pub quiet : (w.heap o).rd_notify ≡ false
  pub mutable : (w.heap o).immutable ≡ false
  pub first : must_wait (w.heap o) w.ist o ≡ false

module _ (notify : ℕ → ℕ → Cmd (Unit {0})) where
  -- `read_lock` by a thread that may read the object at once counts one more reader, modulo 128,
  -- puts the object on the thread's lock stack, frees `wrlock` again and changes nothing else.
  pub read_lock-granted :
      (o : ℕ) (w : World)
      → CanRead o w
      → let w' = final (read_lock notify o w) w in
        (read_lock notify o w ≡ ok false w')
        × (w'.heap o ≡ record (w.heap o) {
          rdlock_cnt = ((w.heap o).rdlock_cnt + 1) % bits7;
          state = new_or_marked;
          wrlock = false;
        })
        × OnlyAt o w w'
        × (w'.ist ≡ record (w.ist) { lock_stack = clist_push (w.ist).lock_stack o })
  unfolding read_lock
  read_lock-granted o w c = (ground arith, ground arith, λ p ne. ground arith, ground arith)

-- `read_unlock` of a mutable object, that is free and on the thread's lock stack, gives the count back and takes the object off
-- the thread's lock stack.
pub read_unlock-released :
    (o : ℕ) (w : World)
    → (w.heap o).wrlock ≡ false
    → (w.heap o).immutable ≡ false
    → (clist_pop_item (w.ist).lock_stack o).0 ≡ false
    → let w' = final (read_unlock o w) w in
      (read_unlock o w ≡ ok tt w')
      × (w'.heap o ≡ record (w.heap o) {
        rdlock_cnt = ((w.heap o).rdlock_cnt + (bits7 - 1)) % bits7;
        wrlock = false;
      })
      × OnlyAt o w w'
      × (w'.ist ≡ record (w.ist) { lock_stack = (clist_pop_item (w.ist).lock_stack o).1 })
unfolding read_unlock
read_unlock-released o w free mutable held =
    (ground arith, ground arith, λ p ne. ground arith, ground arith)

-- What a granted write lock says: the access level suffices, the object is mutable and nobody
-- reads it; `wrlock` stays set, and nothing else changes.
pub record WriteGranted (o : ℕ) (w w' : World) : Type 0 where
  pub allowed : ltb (w.ist).access (w.heap o).wr_access ≡ false
  pub mutable : (w.heap o).immutable ≡ false
  pub unread : (w.heap o).rdlock_cnt ≡ 0
  pub was_free : (w.heap o).wrlock ≡ false
  pub held : w'.heap o ≡ record (w.heap o) { wrlock = true }
  pub others : OnlyAt o w w'
  pub same_ist : w'.ist ≡ w.ist

-- What a refused write lock says: an exception is raised and `wrlock` is free again.
pub record WriteRefused (o : ℕ) (w w' : World) : Type 0 where
  pub raised :
      ((w'.ist).exception_obj ≡ some permission_exc) ⊎ ((w'.ist).exception_obj ≡ some lock_exc)
  pub released : (w'.heap o).wrlock ≡ false
  pub others : OnlyAt o w w'
  pub same_stack : (w'.ist).lock_stack ≡ (w.ist).lock_stack

abbrev pub WriteOutcome : ℕ → World → Res Bool → Type 0
WriteOutcome o w (ok false w') = WriteGranted o w w'
WriteOutcome o w (ok true w') = WriteRefused o w w'
WriteOutcome o w blocked =
    ((w.heap o).wrlock ≡ true)
    ⊎ (((w.heap o).rdlock_cnt ≢ 0) × (clist_in (w.ist).lock_stack o ≡ false))
WriteOutcome o w looping = ⊥
WriteOutcome o w aborted = ⊥

-- `write_lock` from any world grants the lock, where `wrlock` is free, the thread may write, the
-- object is mutable and nobody reads it; or raises an exception and frees `wrlock`; or waits,
-- where `wrlock` is taken, or the object is read and not on the thread's lock stack. It never
-- loops or aborts.
pub write_lock-outcome : (o : ℕ) (w : World) → WriteOutcome o w (write_lock o w)
unfolding write_lock
write_lock-outcome o w = elim (Bool-cases (w.heap o).wrlock) [
  | inl h ↦ let run : write_lock o w ≡ blocked = ground arith in rw run (inl h)
  | inr free ↦ elim (Bool-cases (ltb (w.ist).access (w.heap o).wr_access)) [
    | inl h ↦
        refused (ground arith) (inl (ground arith)) (ground arith) (λ p ne. ground arith)
          (ground arith)
    | inr allowed ↦ elim (Bool-cases (w.heap o).immutable) [
      | inl h ↦
          refused (ground arith) (inr (ground arith)) (ground arith) (λ p ne. ground arith)
            (ground arith)
      | inr mutable ↦ elim (Bool-cases ((w.heap o).rdlock_cnt == 0)) [
        | inl h ↦
            let run : write_lock o w ≡ ok false (final (write_lock o w) w) = ground arith in
            rw run (record {
              allowed = allowed;
              mutable = mutable;
              unread = ground arith;
              was_free = free;
              held = ground arith;
              others = λ p ne. ground arith;
              same_ist = ground arith;
            })
        | inr read ↦ elim (Bool-cases (clist_in (w.ist).lock_stack o)) [
          | inl h ↦
              refused (ground arith) (inr (ground arith)) (ground arith) (λ p ne. ground arith)
                (ground arith)
          | inr h ↦
              let run : write_lock o w ≡ blocked = ground arith in
              rw run (inr (λ e. ground arith, h))
        ]
      ]
    ]
  ]
]
  where
    w' : World
    w' = final (write_lock o w) w

    refused :
        write_lock o w ≡ ok true w'
        → ((w'.ist).exception_obj ≡ some permission_exc) ⊎ ((w'.ist).exception_obj ≡ some lock_exc)
        → (w'.heap o).wrlock ≡ false
        → OnlyAt o w w'
        → (w'.ist).lock_stack ≡ (w.ist).lock_stack
        → WriteOutcome o w (write_lock o w)
    refused run raised released others same =
        rw run (record { raised = raised; released = released; others = others; same_stack = same })

-- Where `wrlock` is free, the thread may write the mutable object, and the object's read locks, at
-- least one and fewer than 128, are all on the thread's lock stack, `write_lock` is refused and
-- keeps the lock stack, and the next `read_unlock` leaves a count of 127 read locks.
pub write_lock-read_unlock :
    (o : ℕ) (w : World)
    → (w.heap o).wrlock ≡ false
    → ltb (w.ist).access (w.heap o).wr_access ≡ false
    → (w.heap o).immutable ≡ false
    → (w.heap o).rdlock_cnt ≡ clist_in_cnt (w.ist).lock_stack o
    → 0 < clist_in_cnt (w.ist).lock_stack o
    → clist_in_cnt (w.ist).lock_stack o < bits7
    → let w₁ = final (write_lock o w) w in
      let w₂ = final (read_unlock o w₁) w₁ in
      (write_lock o w ≡ ok true w₁)
      × ((w₁.ist).lock_stack ≡ (w.ist).lock_stack)
      × (read_unlock o w₁ ≡ ok tt w₂)
      × ((w₂.heap o).rdlock_cnt ≡ 127)
unfolding write_lock read_unlock
write_lock-read_unlock o w free allowed mutable alone pos small =
    let l = (w.ist).lock_stack in
    let c = clist_in_cnt l o in
    let held : clist_in l o ≡ true = ground (arith, clist_in-cnt l o) in
    let pops : (clist_pop_item l o).0 ≡ false = ground (arith, (clist_pop_item-count l o).0) in
    let w₁ = final (write_lock o w) w in
    let run : write_lock o w ≡ ok true w₁ = ground (arith, held) in
    let stack : (w₁.ist).lock_stack ≡ l = ground (arith, held) in
    let count : (w₁.heap o).rdlock_cnt ≡ (c + (bits7 - c % bits7)) % bits7 = ground (arith, held) in
    let zero_count : (w₁.heap o).rdlock_cnt ≡ 0 = omega (arith, count, mod-eq_of_lt small) in
    let freed : (w₁.heap o).wrlock ≡ false = ground (arith, held) in
    let mutable' : (w₁.heap o).immutable ≡ false = ground (arith, held) in
    let (run', after, _, _) = read_unlock-released o w₁ freed mutable' (rw stack pops) in
    (run, stack, run', ap (λ (x : Obj). x.rdlock_cnt) after ∙ rw zero_count refl)

module _ (notify : ℕ → ℕ → Cmd (Unit {0})) where
  -- `write_unlock` by the holder of the write lock of a mutable object without a write callback frees
  -- it, marks the object as changed and hands it to the collector again where that is marking.
  pub write_unlock-released :
      (o : ℕ) (w : World)
      → (w.heap o).wrlock ≡ true
      → (w.heap o).immutable ≡ false
      → (w.heap o).wr_notify ≡ false
      → let w' = final (write_unlock notify o w) w in
        (write_unlock notify o w ≡ ok tt w')
        × (w'.heap o ≡ record (w.heap o) {
          archived = false;
          state = new_or_marked;
          wrlock = false;
          scanned = (w.heap o).scanned && not w.marking;
        })
        × OnlyAt o w w'
        × (w'.ist ≡ w.ist)
  unfolding write_unlock
  write_unlock-released o w held mutable quiet =
      (ground arith, ground arith, λ p ne. ground arith, ground arith)
