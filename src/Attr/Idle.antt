-- ===== src/Attr/Idle.antt =====
-- Locking and unlocking an object that nobody holds, for a thread that need not wait.
use prothon.Base.{ℕ, ◌+◌, ◌%◌, ◌≤◌, ◌≡◌, refl, ap, ◌∙◌, ◌≢◌, true, false, arith, ltb, ==_refl}
use prothon.Clist.{clist_push, clist_len, clist_in_cnt}
use prothon.Clist.Count.{clist_pop_item-push, cnt-push}
use prothon.World.{AttrProto, update, Ist, Binary, new_or_marked, Obj, World, ok, Cmd, final}
use prothon.Lock.{read_lock, read_unlock, write_lock, write_unlock, bits7}
use prothon.Lock.Laws.{
  write_unlock-released, OnlyAt, CanRead, read_lock-granted, read_unlock-released,
}

-- Nobody holds or asks for a lock on the object, the thread may read and write it, it is mutable
-- and has no callbacks.
pub record Idle (x : Obj) (i : Ist) : Type 0 where
  pub free : x.wrlock ≡ false
  pub may_read : ltb i.access x.rd_access ≡ false
  pub may_write : ltb i.access x.wr_access ≡ false
  pub rd_quiet : x.rd_notify ≡ false
  pub wr_quiet : x.wr_notify ≡ false
  pub mutable : x.immutable ≡ false
  pub unread : x.rdlock_cnt ≡ 0
  pub unasked : x.wrlock_req_cnt ≡ 0
  pub stack : clist_len i.lock_stack ≤ 0x7fff_ffff

abbrev pub IsIdle : ℕ → World → Type 0
IsIdle o w = Idle (w.heap o) w.ist

pub write_lock-idle :
    (o : ℕ) (w : World)
    → IsIdle o w
    → (w₁ : World) × (write_lock o w ≡ ok false w₁)
      × (w₁.heap o ≡ record (w.heap o) { wrlock = true })
      × OnlyAt o w w₁
      × (w₁.ist ≡ w.ist)
unfolding write_lock
write_lock-idle o w idle =
    (final (write_lock o w) w, ground arith, ground arith, λ p ne. ground arith, ground arith)

pub update_ne : (h : ℕ → Obj) (o q : ℕ) (x : Obj) → o ≢ q → update h o x q ≡ h q
update_ne h o q x ne = ground arith

-- The world with a new object at `o`.
abbrev pub stored : ℕ → Obj → World → World
stored o x w = record w { heap = update w.heap o x }

module _ (notify : ℕ → ℕ → Cmd (Unit {0})) where
  -- Unlocking an object whose attributes or data were written under the lock.
  pub unlock-IsIdle :
      (o : ℕ) (w w₂ : World) (p : AttrProto) (d : Binary)
      → IsIdle o w
      → w₂.heap o ≡ record (w.heap o) { wrlock = true; attr_proto = p; binary = d }
      → w₂.ist ≡ w.ist
      → (w' : World) × (write_unlock notify o w₂ ≡ ok tt w')
        × ((w'.heap o).attr_proto ≡ p)
        × ((w'.heap o).binary ≡ d)
        × IsIdle o w'
        × OnlyAt o w₂ w'
  unlock-IsIdle o w w₂ p d idle at same =
      let (run, after, others, ist) =
        write_unlock-released notify o w₂ (ap (λ (x : Obj). x.wrlock) at)
          (ap (λ (x : Obj). x.immutable) at ∙ idle.mutable)
          (ap (λ (x : Obj). x.wr_notify) at ∙ idle.wr_quiet) in
      (
        final (write_unlock notify o w₂) w₂,
        run,
        ap (λ (x : Obj). x.attr_proto) after ∙ ap (λ (x : Obj). x.attr_proto) at,
        ap (λ (x : Obj). x.binary) after ∙ ap (λ (x : Obj). x.binary) at,
        rw (after, ist, at, same)
            (record {
              free = refl;
              may_read = idle.may_read;
              may_write = idle.may_write;
              rd_quiet = idle.rd_quiet;
              wr_quiet = idle.wr_quiet;
              mutable = idle.mutable;
              unread = idle.unread;
              unasked = idle.unasked;
              stack = idle.stack;
            }),
        others,
      )

  CanRead-of_idle : (o : ℕ) (w : World) → IsIdle o w → CanRead o w
  CanRead-of_idle o w idle = record {
    free = idle.free;
    allowed = idle.may_read;
    quiet = idle.rd_quiet;
    mutable = idle.mutable;
    first = rw idle.unasked refl;
  }

  read_unlock-IsIdle :
      (o : ℕ) (w w₁ : World)
      → IsIdle o w
      → w₁.heap o ≡ record (w.heap o) {
        rdlock_cnt = ((w.heap o).rdlock_cnt + 1) % bits7;
        state = new_or_marked;
        wrlock = false;
      }
      → w₁.ist ≡ record (w.ist) { lock_stack = clist_push (w.ist).lock_stack o }
      → (w' : World) × (read_unlock o w₁ ≡ ok tt w')
        × ((w'.heap o).attr_proto ≡ (w.heap o).attr_proto)
        × ((w'.heap o).binary ≡ (w.heap o).binary)
        × IsIdle o w'
        × OnlyAt o w₁ w'
  read_unlock-IsIdle o w w₁ idle h ist₁ =
      let (held, popped) = clist_pop_item-push (w.ist).lock_stack o idle.stack in
      let stack₁ = ap (λ (i : Ist). i.lock_stack) ist₁ in
      let (run, after, others, ist) =
        read_unlock-released o w₁ (ap (λ (x : Obj). x.wrlock) h)
          (ap (λ (x : Obj). x.immutable) h ∙ idle.mutable) (rw stack₁ held) in
      (
        final (read_unlock o w₁) w₁,
        run,
        ap (λ (x : Obj). x.attr_proto) after ∙ ap (λ (x : Obj). x.attr_proto) h,
        ap (λ (x : Obj). x.binary) after ∙ ap (λ (x : Obj). x.binary) h,
        rw (after, ist, h, ist₁)
            (record {
              free = refl;
              may_read = idle.may_read;
              may_write = idle.may_write;
              rd_quiet = idle.rd_quiet;
              wr_quiet = idle.wr_quiet;
              mutable = idle.mutable;
              unread = rw idle.unread refl;
              unasked = idle.unasked;
              stack = rw popped idle.stack;
            }),
        others,
      )

  -- A read lock and its release: what is read in between is what the object holds, and the object
  -- is idle again in the end.
  pub record Read (o : ℕ) (w w₁ w' : World) : Type 0 where
    pub locked : read_lock notify o w ≡ ok false w₁
    pub counted : (w₁.heap o).rdlock_cnt ≡ 1
    pub on_stack : 1 ≤ clist_in_cnt (w₁.ist).lock_stack o
    pub same_attrs : (w₁.heap o).attr_proto ≡ (w.heap o).attr_proto
    pub same_binary : (w₁.heap o).binary ≡ (w.heap o).binary
    pub released : read_unlock o w₁ ≡ ok tt w'
    pub kept_attrs : (w'.heap o).attr_proto ≡ (w.heap o).attr_proto
    pub kept_binary : (w'.heap o).binary ≡ (w.heap o).binary
    pub idle : IsIdle o w'
    pub only : OnlyAt o w w'

  pub Read-of_idle : (o : ℕ) (w : World) → IsIdle o w → (w₁ : World) × (w' : World) × Read o w w₁ w'
  Read-of_idle o w idle =
      let (locked, h, only, stack) = read_lock-granted notify o w (CanRead-of_idle o w idle) in
      let w₁ = final (read_lock notify o w) w in
      let (w', released, attrs, binary, idle', only') = read_unlock-IsIdle o w w₁ idle h stack in
      (
        w₁,
        w',
        record {
          locked = locked;
          counted = rw (h, idle.unread) refl;
          on_stack =
              rw (stack, cnt-push (w.ist).lock_stack o o idle.stack, ==_refl o) (omega arith);
          same_attrs = ap (λ (x : Obj). x.attr_proto) h;
          same_binary = ap (λ (x : Obj). x.binary) h;
          released = released;
          kept_attrs = attrs;
          kept_binary = binary;
          idle = idle';
          only = λ q ne. only' q ne ∙ only q ne;
        },
      )
