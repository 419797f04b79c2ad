-- ===== src/Tests/Locks.antt =====
-- The theorems on locks at concrete worlds.
use prothon.Base.{◌≡◌, refl, true, false, [], ◌∷◌, arith}
use prothon.Clist.{clist_pop_item, clist_in_cnt}
use prothon.World.{World, ok, final, no_data, with_attrs}
use prothon.Lock.{read_unlock, write_lock}
use prothon.Lock.Laws.{WriteOutcome, write_lock-outcome, write_lock-read_unlock}
use prothon.Tests.Data.{one, free_obj, world}

-- The thread holds two read locks on the object.
abbrev read_twice : World
read_twice =
    world (record (free_obj (with_attrs (one 3 30)) no_data) { rdlock_cnt = 2 }) (1 ∷ 1 ∷ [])

abbrev written : World
written = world (record (free_obj (with_attrs (one 3 30)) no_data) { wrlock = true }) []

pops : (clist_pop_item (read_twice.ist).lock_stack 1).0 ≡ false
unfolding clist_pop_item
pops = refl

write_lock-outcome_example : WriteOutcome 1 read_twice (write_lock 1 read_twice)
write_lock-outcome_example = write_lock-outcome 1 read_twice

two_held : clist_in_cnt (read_twice.ist).lock_stack 1 ≡ 2
unfolding clist_in_cnt
two_held = refl

write_lock-read_unlock_example :
    let w₁ = final (write_lock 1 read_twice) read_twice in
    let w₂ = final (read_unlock 1 w₁) w₁ in
    (write_lock 1 read_twice ≡ ok true w₁)
    × ((w₁.ist).lock_stack ≡ (read_twice.ist).lock_stack)
    × (read_unlock 1 w₁ ≡ ok tt w₂)
    × ((w₂.heap 1).rdlock_cnt ≡ 127)
unfolding clist_in_cnt
write_lock-read_unlock_example =
    write_lock-read_unlock 1 read_twice refl refl refl refl (omega arith) (omega arith)
