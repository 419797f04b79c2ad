-- ===== src/Lock/Try.antt =====
-- The locks that do not wait: `write_lock_try` of src/lock.c.
use prothon.Base.{
  ℕ, ◌≡◌, refl, ◌⊎◌, inl, inr, Bool, true, false, ◌&&◌, arith, ◌==◌, ltb, Bool-cases,
}
use prothon.World.{World, Res, ok, blocked, looping, aborted, final}
use prothon.Lock.{write_lock_try}
use prothon.Lock.Laws.{OnlyAt, WriteGranted}

-- What an attempt that failed leaves: nothing has changed, where the lock was taken already; else
-- `wrlock` is free again, and there was a reason to refuse.
pub record TryRefused (o : ℕ) (w w' : World) : Type 0 where
  pub reason :
      (ltb (w.ist).access (w.heap o).wr_access ≡ true)
      ⊎ ((w.heap o).immutable ≡ true)
      ⊎ (((w.heap o).rdlock_cnt == 0) && ((w.heap o).wrlock_req_cnt == 0) ≡ false)
  pub released : (w'.heap o).wrlock ≡ false
  pub others : OnlyAt o w w'
  pub same_stack : (w'.ist).lock_stack ≡ (w.ist).lock_stack

abbrev pub TryOutcome : ℕ → World → Res Bool → Type 0
TryOutcome o w (ok true w') = WriteGranted o w w' × ((w.heap o).wrlock_req_cnt ≡ 0)
TryOutcome o w (ok false w') = (((w.heap o).wrlock ≡ true) × (w' ≡ w)) ⊎ TryRefused o w w'
TryOutcome o w blocked = ⊥
TryOutcome o w looping = ⊥
TryOutcome o w aborted = ⊥

-- `write_lock_try` from any world returns without waiting: it takes the lock where nobody holds,
-- reads or asks for the object and the thread may write it, and otherwise leaves `wrlock` and the
-- lock stack as they were.
pub write_lock_try-outcome : (o : ℕ) (w : World) → TryOutcome o w (write_lock_try o w)
unfolding write_lock_try
write_lock_try-outcome o w = elim (Bool-cases (w.heap o).wrlock) [
  | inl h ↦ let run : write_lock_try o w ≡ ok false w = ground arith in rw run (inl (h, refl))
  | inr free ↦ elim (Bool-cases (ltb (w.ist).access (w.heap o).wr_access)) [
    | inl h ↦ refused (inl h) (ground arith) (ground arith) (λ p ne. ground arith) (ground arith)
    | inr allowed ↦ elim (Bool-cases (w.heap o).immutable) [
      | inl h ↦
          refused (inr (inl h)) (ground arith) (ground arith) (λ p ne. ground arith) (ground arith)
      | inr mutable ↦
          elim (Bool-cases (((w.heap o).rdlock_cnt == 0) && ((w.heap o).wrlock_req_cnt == 0))) [
            | inl h ↦
                let run : write_lock_try o w ≡ ok true w' = ground arith in
                rw run (
                  record {
                    allowed = allowed;
                    mutable = mutable;
                    unread = ground arith;
                    was_free = free;
                    held = ground arith;
                    others = λ p ne. ground arith;
                    same_ist = ground arith;
                  },
                  ground arith,
                )
            | inr h ↦
                refused (inr (inr h)) (ground arith) (ground arith) (λ p ne. ground arith)
                  (ground arith)
          ]
    ]
  ]
]
  where
    w' : World
    w' = final (write_lock_try o w) w

    Reason : Type 0
    Reason =
        (ltb (w.ist).access (w.heap o).wr_access ≡ true)
        ⊎ ((w.heap o).immutable ≡ true)
        ⊎ (((w.heap o).rdlock_cnt == 0) && ((w.heap o).wrlock_req_cnt == 0) ≡ false)

    refused :
        Reason
        → write_lock_try o w ≡ ok false w'
        → (w'.heap o).wrlock ≡ false
        → OnlyAt o w w'
        → (w'.ist).lock_stack ≡ (w.ist).lock_stack
        → TryOutcome o w (write_lock_try o w)
    refused reason run released others same =
        rw run (
          inr (record { reason = reason; released = released; others = others; same_stack = same }))
