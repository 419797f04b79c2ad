-- ===== src/ListCalls/Frame.antt =====
-- The frame of the methods of lists: from the read lock that the caller holds to the write lock and
-- back, on a list that nobody else holds.
use prothon.Base.{
  ℕ, ◌≤◌, ◌≡◌, refl, ap, sym, ◌∙◌, Bool, true, false, Option, none, some, List, arith, ==_refl,
}
use prothon.Clist.{clist_in_cnt}
use prothon.World.{World, Ist, Exc, ok, Cmd, Binary, list_data}
use prothon.Lock.{read_lock, read_unlock, write_lock, write_unlock}
use prothon.Lock.Laws.{OnlyAt}
use prothon.Attr.Idle.{
  IsIdle, write_lock-idle, update_ne, stored, unlock-IsIdle, Read, Read-of_idle,
}
use prothon.ListMethods.{Edit, edited, failed}
use prothon.ListCalls.{def_write_unlock, put_edit, edit_block, edit_locked, list_method}

-- The thread's state with an exception.
abbrev pub raising : Exc → World → World
raising e w = record w { ist = record (w.ist) { exception_obj = some e } }

raising-IsIdle : (o : ℕ) (e : Exc) (w : World) → IsIdle o w → IsIdle o (raising e w)
raising-IsIdle o e w idle = record {
  free = idle.free;
  may_read = idle.may_read;
  may_write = idle.may_write;
  rd_quiet = idle.rd_quiet;
  wr_quiet = idle.wr_quiet;
  mutable = idle.mutable;
  unread = idle.unread;
  unasked = idle.unasked;
  stack = idle.stack;
}

module _ (notify : ℕ → ℕ → Cmd (Unit {0})) where
  -- The caller's read lock after a call, in `w₂`: one read lock is counted on the object, which is on the
  -- thread's lock stack; the object holds the data `d`, and the caller's release, to `w₃`, leaves it idle.
  pub record Returned (o : ℕ) (w : World) (d : Binary) (w₂ w₃ : World) : Type 0 where
    pub counted : (w₂.heap o).rdlock_cnt ≡ 1
    pub on_stack : 1 ≤ clist_in_cnt (w₂.ist).lock_stack o
    pub held : (w₂.heap o).binary ≡ d
    pub released : read_unlock o w₂ ≡ ok tt w₃
    pub data_kept : (w₃.heap o).binary ≡ d
    pub attrs_kept : (w₃.heap o).attr_proto ≡ (w.heap o).attr_proto
    pub idle : IsIdle o w₃
    pub only : OnlyAt o w w₃

  def_write_unlock-run :
      (o : ℕ) (b : Bool) (w w' w₂ : World)
      → write_unlock notify o w ≡ ok tt w'
      → read_lock notify o w' ≡ ok b w₂
      → def_write_unlock notify o w ≡ ok b w₂
  unfolding def_write_unlock
  def_write_unlock-run o b w w' w₂ h k = ground arith

  release :
      (o : ℕ) (w w₁ : World) (d : Binary)
      → IsIdle o w
      → w₁.heap o ≡ record (w.heap o) { wrlock = true; binary = d }
      → w₁.ist ≡ w.ist
      → OnlyAt o w w₁
      → (w₂ : World) × (w₃ : World) × (def_write_unlock notify o w₁ ≡ ok false w₂)
        × Returned o w d w₂ w₃
  release o w w₁ d idle at same before =
      let (w', run, attrs, block, idle', only) =
        unlock-IsIdle notify o w w₁ ((w.heap o).attr_proto) d idle at same in
      let (w₂, w₃, read) = Read-of_idle notify o w' idle' in
      (
        w₂,
        w₃,
        def_write_unlock-run o false w₁ w' w₂ run read.locked,
        record {
          counted = read.counted;
          on_stack = read.on_stack;
          held = read.same_binary ∙ block;
          released = read.released;
          data_kept = read.kept_binary ∙ block;
          attrs_kept = read.kept_attrs ∙ attrs;
          idle = read.idle;
          only = λ q ne. read.only q ne ∙ only q ne ∙ before q ne;
        },
      )

  put_edited :
      (o size : ℕ) (items : List ℕ) (r : Option ℕ) (w w' : World)
      → def_write_unlock notify o (stored o (record (w.heap o) { binary = list_data size items }) w)
        ≡ ok false w'
      → put_edit notify o (edited size items r) w ≡ ok r w'
  unfolding put_edit
  put_edited o size items r w w' h = ground arith

  put_failed :
      (o : ℕ) (e : Exc) (w w' : World)
      → def_write_unlock notify o (raising e w) ≡ ok false w'
      → put_edit notify o (failed e) w ≡ ok none w'
  unfolding put_edit
  put_failed o e w w' h = ground arith

  edit_block-run :
      (o size : ℕ) (items : List ℕ) (edit : ℕ → List ℕ → Edit) (x : Edit) (b : Binary)
      → b ≡ list_data size items
      → edit size items ≡ x
      → edit_block notify o edit b ≡ put_edit notify o x
  unfolding edit_block
  edit_block-run o size items edit x b had e = rw (had, e) refl

  edit_locked-run :
      (o : ℕ) (edit : ℕ → List ℕ → Edit) (x : Edit) (r : Option ℕ) (w₁ w' v₁ w₂ : World)
      → read_unlock o w₁ ≡ ok tt w'
      → write_lock o w' ≡ ok false v₁
      → edit_block notify o edit ((v₁.heap o).binary) ≡ put_edit notify o x
      → put_edit notify o x v₁ ≡ ok r w₂
      → edit_locked notify o edit w₁ ≡ ok r w₂
  unfolding edit_locked
  edit_locked-run o edit x r w₁ w' v₁ w₂ u l e run = ground arith

  list_method-run :
      (o size : ℕ) (items : List ℕ) (edit : ℕ → List ℕ → Edit) (w₁ : World)
      → (w₁.heap o).binary ≡ list_data size items
      → list_method notify true o edit w₁ ≡ edit_locked notify o edit w₁
  unfolding list_method
  list_method-run o size items edit w₁ had = rw had refl

  -- Every method as one edit of the block between the two locks.
  method-run :
      (o size : ℕ) (items : List ℕ) (edit : ℕ → List ℕ → Edit) (x : Edit) (r : Option ℕ)
      → (w w₁ w' v₁ w₂ : World) → (w.heap o).binary ≡ list_data size items
      → Read notify o w w₁ w'
      → edit size items ≡ x
      → write_lock o w' ≡ ok false v₁
      → (v₁.heap o).binary ≡ list_data size items
      → put_edit notify o x v₁ ≡ ok r w₂
      → list_method notify true o edit w₁ ≡ ok r w₂
  method-run o size items edit x r w w₁ w' v₁ w₂ had read e locked had' run =
      list_method-run o size items edit w₁ (read.same_binary ∙ had)
      ∙ edit_locked-run o edit x r w₁ w' v₁ w₂ read.released locked
          (edit_block-run o size items edit x ((v₁.heap o).binary) had' e) run

  -- A method of a list of the type List, called by a thread that holds one read lock on the list, which
  -- nobody else holds: where the method's edit stores items, the list holds these in the end, the result
  -- is the edit's, and the thread holds its one read lock again.
  pub list_method-edited :
      (o size : ℕ) (items : List ℕ) (edit : ℕ → List ℕ → Edit)
      → (size' : ℕ) (items' : List ℕ) (r : Option ℕ) → (w w₁ w' : World) → IsIdle o w
      → (w.heap o).binary ≡ list_data size items
      → Read notify o w w₁ w'
      → edit size items ≡ edited size' items' r
      → (w₂ : World) × (w₃ : World) × (list_method notify true o edit w₁ ≡ ok r w₂)
        × Returned o w' (list_data size' items') w₂ w₃
  list_method-edited o size items edit size' items' r w w₁ w' idle had read e =
      let (v₁, locked, h, only, same) = write_lock-idle o w' read.idle in
      let d = list_data size' items' in
      let v₂ : World = stored o (record (v₁.heap o) { binary = d }) v₁ in
      let at : v₂.heap o ≡ record (w'.heap o) { wrlock = true; binary = d } =
        rw (==_refl o, h) refl in
      let (w₂, w₃, run, back) =
        release o w' v₂ d read.idle at same (λ q ne. update_ne v₁.heap o q _ ne ∙ only q ne) in
      (
        w₂,
        w₃,
        method-run o size items edit (edited size' items' r) r w w₁ w' v₁ w₂ had read e locked
            (rw h (read.kept_binary ∙ had)) (put_edited o size' items' r v₁ w₂ run),
        back,
      )

  -- Where the method's edit fails, the exception is raised, the list keeps its items, and the thread
  -- holds its one read lock again.
  list_method-failed :
      (o size : ℕ) (items : List ℕ) (edit : ℕ → List ℕ → Edit) (e : Exc)
      → (w w₁ w' : World) → IsIdle o w
      → (w.heap o).binary ≡ list_data size items
      → Read notify o w w₁ w'
      → edit size items ≡ failed e
      → (w₂ : World) × (w₃ : World) × (list_method notify true o edit w₁ ≡ ok none w₂)
        × Returned o (raising e w') (list_data size items) w₂ w₃
  list_method-failed o size items edit e w w₁ w' idle had read eq =
      let (v₁, locked, h, only, same) = write_lock-idle o w' read.idle in
      let block = read.kept_binary ∙ had in
      let at : v₁.heap o ≡ record (w'.heap o) { wrlock = true; binary = list_data size items } =
        h ∙ rw (sym block) refl in
      let (w₂, w₃, run, back) =
        release o (raising e w') (raising e v₁) (list_data size items)
          (raising-IsIdle o e w' read.idle) at
          (ap (λ (i : Ist). record i { exception_obj = some e }) same) only in
      (
        w₂,
        w₃,
        method-run o size items edit (failed e) none w w₁ w' v₁ w₂ had read eq locked (rw h block)
            (put_failed o e v₁ w₂ run),
        back,
      )
