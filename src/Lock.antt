-- ===== src/Lock.antt =====
-- The reader/writer locks of src/lock.c, as one thread runs them. Where the C code waits for
-- another thread (a spin on `wrlock`, a wait for a request count to fall or for readers to leave)
-- the command is `blocked`. The callbacks that `notify` runs are the user's code: `notify` is a
-- parameter, given the object and the flag. The broadcasts only wake waiting threads.
pub mod Laws
pub mod Try
use prothon.Base.{
  ℕ, zero, suc, ◌+◌, ◌-◌, ◌%◌, Bool, true, false, not, ◌&&◌, ltb, ◌==◌, if◌then◌else◌,
}
use prothon.Clist.{clist_push, clist_in, clist_in_cnt, clist_pop_item}
use prothon.World.{
  Exc, permission_exc, lock_exc, ObjState, new_or_marked, Obj, Ist, World, Res, ok, blocked, Cmd,
  aborted, ◌>>=◌, ◌>>◌, when◌then◌else◌, pure, skip, get_obj, get_ist, put_obj, put_ist,
  raise_exception, update,
}

-- READ_NOTIFY, WRITE_NOTIFY
abbrev pub read_notify : ℕ
read_notify = 1

abbrev pub write_notify : ℕ
write_notify = 2

-- `rdlock_cnt` and `wrlock_req_cnt` are unsigned fields of seven bits.
abbrev pub bits7 : ℕ
bits7 = 128

unfoldable pub get_wrlock : ℕ → Cmd (Unit {0})
get_wrlock o = do
  obj ← get_obj o
  when obj.wrlock then (λ _. blocked) else put_obj o (record obj { wrlock = true })

unfoldable pub free_wrlock : ℕ → Cmd (Unit {0})
free_wrlock o = do obj ← get_obj o; put_obj o (record obj { wrlock = false })

-- clist_push(lockstack, obj)
unfoldable pub push_lockstack : ℕ → Cmd (Unit {0})
push_lockstack o = do
  ist ← get_ist
  put_ist (record ist { lock_stack = clist_push ist.lock_stack o })

-- clist_pop_item(lockstack, obj)
unfoldable pub pop_lockstack : ℕ → Cmd Bool
pop_lockstack o = do
  ist ← get_ist
  put_ist (record ist { lock_stack = (clist_pop_item ist.lock_stack o).1 })
  pure (clist_pop_item ist.lock_stack o).0

-- The last lines of `read_lock` and `read_lock_try`.
unfoldable pub take_read : ℕ → Cmd (Unit {0})
unfolding push_lockstack free_wrlock
take_read o = do
  push_lockstack o
  obj ← get_obj o
  put_obj o (record obj { rdlock_cnt = (obj.rdlock_cnt + 1) % bits7; state = new_or_marked })
  free_wrlock o

-- The test that makes `read_lock` wait for a writer that has asked first.
abbrev pub must_wait : Obj → Ist → ℕ → Bool
must_wait obj ist o = not (obj.wrlock_req_cnt == 0) && not (clist_in ist.lock_stack o)

module _ (notify : ℕ → ℕ → Cmd (Unit {0})) where
  -- if (obj->rd_notify) { free_wrlock(obj); notify(ist, obj, READ_NOTIFY); get_wrlock(obj, NO_WAIT); }
  unfoldable pub run_rd_notify : ℕ → Cmd (Unit {0})
  unfolding get_wrlock free_wrlock
  run_rd_notify o = do
    obj ← get_obj o
    when obj.rd_notify then (do free_wrlock o; notify o read_notify; get_wrlock o) else skip

  -- TRUE means that the lock was refused.
  unfoldable pub read_lock : ℕ → Cmd Bool
  unfolding get_wrlock free_wrlock run_rd_notify take_read
  read_lock o = do
    get_wrlock o
    obj ← get_obj o
    ist ← get_ist
    when ltb ist.access obj.rd_access
        then (do raise_exception permission_exc; free_wrlock o; pure true)
        else do
          run_rd_notify o
          obj' ← get_obj o
          ist' ← get_ist
          when obj'.immutable
              then (do free_wrlock o; pure false)
              else when must_wait obj' ist' o
              then (λ _. blocked)
              else (do take_read o; pure false)

  -- TRUE means that the lock was taken; it never waits.
  unfoldable pub read_lock_try : ℕ → Cmd Bool
  unfolding get_wrlock free_wrlock run_rd_notify take_read
  read_lock_try o = do
    obj ← get_obj o
    when obj.wrlock then pure false else do
      get_wrlock o
      ist ← get_ist
      when ltb ist.access obj.rd_access
          then (do raise_exception permission_exc; free_wrlock o; pure false)
          else do
            run_rd_notify o
            obj' ← get_obj o
            when obj'.immutable
                then (do free_wrlock o; pure true)
                else when obj'.wrlock_req_cnt == 0
                then (do take_read o; pure true)
                else (do free_wrlock o; pure false)

unfoldable pub read_unlock : ℕ → Cmd (Unit {0})
unfolding get_wrlock free_wrlock pop_lockstack
read_unlock o = do
  get_wrlock o
  obj ← get_obj o
  when obj.immutable then free_wrlock o else do
    put_obj o (record obj { rdlock_cnt = (obj.rdlock_cnt + (bits7 - 1)) % bits7 })
    free_wrlock o
    missing ← pop_lockstack o
    when missing
        then (do
          get_wrlock o
          obj' ← get_obj o
          put_obj o (record obj' { rdlock_cnt = (obj'.rdlock_cnt + 1) % bits7 })
          free_wrlock o
          raise_exception lock_exc)
        else skip

-- TRUE means that the lock was taken; it never waits.
unfoldable pub write_lock_try : ℕ → Cmd Bool
unfolding get_wrlock free_wrlock
write_lock_try o = do
  obj ← get_obj o
  when obj.wrlock then pure false else do
    get_wrlock o
    ist ← get_ist
    when ltb ist.access obj.wr_access
        then (do raise_exception permission_exc; free_wrlock o; pure false)
        else when obj.immutable
        then (do raise_exception lock_exc; free_wrlock o; pure false)
        else when (obj.rdlock_cnt == 0) && (obj.wrlock_req_cnt == 0)
        then pure true
        else (do free_wrlock o; pure false)

-- TRUE means that the lock was refused. The lock that is granted is `wrlock` itself, which stays set.
unfoldable pub write_lock : ℕ → Cmd Bool
unfolding get_wrlock free_wrlock
write_lock o = do
  get_wrlock o
  obj ← get_obj o
  ist ← get_ist
  when ltb ist.access obj.wr_access
      then (do raise_exception permission_exc; free_wrlock o; pure true)
      else when obj.immutable
      then (do raise_exception lock_exc; free_wrlock o; pure true)
      else when obj.rdlock_cnt == 0
      then pure false
      else when clist_in ist.lock_stack o
      then (do
        raise_exception lock_exc
        obj' ← get_obj o
        put_obj o (record obj' {
          rdlock_cnt = (obj'.rdlock_cnt + (bits7 - clist_in_cnt ist.lock_stack o % bits7)) % bits7;
        })
        free_wrlock o
        pure true)
      else (λ _. blocked)

-- obj->scanned = FALSE; clist_append(to_be_scanned_list, obj);
unfoldable pub requeue : ℕ → Cmd (Unit {0})
requeue o w = ok tt (record w {
  heap = update w.heap o (record (w.heap o) { scanned = false });
  to_be_scanned_list = clist_push w.to_be_scanned_list o;
})

-- The collector's part of `write_unlock`: while it marks, an object that it has scanned already and
-- that was written goes on its list again.
unfoldable pub rescan : ℕ → Cmd (Unit {0})
unfolding requeue
rescan o w = (when w.marking && (w.heap o).scanned then requeue o else skip) w

module _ (notify : ℕ → ℕ → Cmd (Unit {0})) where
  unfoldable pub write_unlock : ℕ → Cmd (Unit {0})
  unfolding free_wrlock rescan
  write_unlock o = do
    obj ← get_obj o
    when obj.immutable then skip else when not obj.wrlock then (λ _. aborted) else do
      put_obj o (record obj { archived = false; state = new_or_marked })
      rescan o
      free_wrlock o
      when obj.wr_notify then notify o write_notify else skip
