-- ===== src/Tests/Data.antt =====
-- Concrete tables, objects and threads.
use prothon.Base.{
  ℕ, ◌%◌, ◌<◌, ◌≡◌, refl, ap, ◌∙◌, inl, inr, true, false, none, List, [], ◌∷◌, arith, ◌==◌, ==_refl,
  Bool-cases,
}
use native.Mathlib.Nat.{mod-lt}
use prothon.AttrTable.{deleted, live, Slots, write, cleared, Attrs, no_proto}
use prothon.AttrTable.Probe.{dist, dist-add, Passes}
use prothon.AttrTable.Placed.{IsPlaced}
use prothon.AttrTable.Count.{weight_used, weight_live, total-write, total-cleared}
use prothon.AttrTable.Insert.{holds}
use prothon.AttrTable.Table.{IsTable, Binds, Open}
use prothon.AttrTable.Termination.{IsFresh, Open-of_fresh}
use prothon.Proto.Laws.{IsProtos}
use prothon.World.{
  AttrProto, with_attrs, proto_only, Binary, no_data, list_data, Obj, Ist, World, Cmd, skip,
  unmarked,
}
use prothon.Attr.Idle.{IsIdle}
use prothon.ListObj.Laws.{HasList}

-- One prototype, 7, and the one attribute `k`, at its home.
abbrev pub one : (k v : ℕ) → Attrs
one k v = record {
  psize = 2;
  protos = record { owns_binary = false; proto = 7 } ∷ [];
  spare = no_proto ∷ [];
  asize = 8;
  alen = 1;
  slots = write cleared (k % 8) (live k v);
}

-- Two prototypes, of which the second one owns the data.
abbrev pub two_protos : Attrs
two_protos = record (one 3 30) {
  protos =
      record { owns_binary = false; proto = 7 } ∷ record { owns_binary = true; proto = 8 } ∷ [];
  spare = [];
}

-- Every slot was used and deleted.
abbrev pub used_up : Slots
used_up p = deleted 0

at_home : (k : ℕ) → dist 8 k (k % 8) ≡ 0
at_home k = ap (λ x. dist 8 k (x % 8)) (omega arith) ∙ dist-add 8 k 0 (omega arith)

no_steps : (s : Slots) (n k d i : ℕ) → d ≡ 0 → Passes s n k d i
no_steps s n k d i e = record { past = λ j lt. absurd (omega (arith, e, lt)) }

one-IsPlaced : (k v : ℕ) → IsPlaced (write cleared (k % 8) (live k v)) 8
one-IsPlaced k v = record { placed = placed }
  where
    placed :
        (p j x : ℕ)
        → p < 8
        → write cleared (k % 8) (live k v) p ≡ live j x
        → Passes (write cleared (k % 8) (live k v)) 8 j (dist 8 j p) j
    placed p j x lt e = elim (Bool-cases (k % 8 == p)) [
      | inl h ↦
          let same : live k v ≡ live j x = rw h at e in
          let key : k ≡ j = cc in
          let here : k % 8 ≡ p = ground arith in
          no_steps _ 8 j (dist 8 j p) j (rw (← key, ← here) (at_home k))
      | inr h ↦ cc (rw h at e)
    ]

pub one-IsTable : (k v : ℕ) → IsTable (one k v)
one-IsTable k v = record {
  placed = one-IsPlaced k v;
  sized = omega arith;
  counted = omega (
    arith,
    total-write weight_live cleared 8 (k % 8) (live k v) (mod-lt k (omega arith)),
    total-cleared weight_live 8 refl,
  );
}

at_home-live : (k v : ℕ) → (one k v).slots (k % 8) ≡ live k v
at_home-live k v = rw (==_refl (k % 8)) refl

pub one-Binds : (k v : ℕ) → Binds (one k v) k v
one-Binds k v = holds (k % 8) (mod-lt k (omega arith)) (at_home-live k v)

pub one-IsFresh : (k v : ℕ) → IsFresh (one k v)
one-IsFresh k v = record {
  table = one-IsTable k v;
  used = omega (
    arith,
    total-write weight_used cleared 8 (k % 8) (live k v) (mod-lt k (omega arith)),
    total-cleared weight_used 8 refl,
  );
  room = omega arith;
}

pub one-Open : (k v : ℕ) → Open (one k v)
one-Open k v = Open-of_fresh (one k v) (one-IsFresh k v)

pub one-IsProtos : (k v : ℕ) → IsProtos (one k v)
one-IsProtos k v = record { sized = refl; some_proto = omega arith }

pub two_protos-IsTable : IsTable two_protos
two_protos-IsTable =
    let t = one-IsTable 3 30 in record { placed = t.placed; sized = t.sized; counted = t.counted }

pub two_protos-IsProtos : IsProtos two_protos
two_protos-IsProtos = record { sized = refl; some_proto = omega arith }

-- No callbacks.
abbrev pub quiet : ℕ → ℕ → Cmd (Unit {0})
quiet o flag = skip

-- An object that nobody holds.
abbrev pub free_obj : AttrProto → Binary → Obj
free_obj p d = record {
  state = unmarked;
  scanned = false;
  rd_access = 0;
  wr_access = 0;
  archived = true;
  rd_notify = false;
  wr_notify = false;
  immutable = false;
  unclonable = false;
  rdlock_cnt = 0;
  wrlock_req_cnt = 0;
  wrlock = false;
  attr_proto = p;
  binary = d;
}

abbrev pub thread : List ℕ → Ist
thread locks = record {
  access = 3;
  exception_obj = none;
  lock_stack = record { space = 10; items = locks };
}

-- Every address holds the object, and the thread holds the read locks of `locks`.
abbrev pub world : Obj → List ℕ → World
world x locks = record {
  ist = thread locks;
  heap = λ _. x;
  marking = false;
  to_be_scanned_list = record { space = 10; items = [] };
}

abbrev pub attr_world : World
attr_world = world (free_obj (with_attrs (one 3 30)) no_data) []

abbrev pub list_world : World
list_world = world (free_obj (proto_only 7) (list_data 2 (4 ∷ 5 ∷ []))) []

pub attr_world-IsIdle : IsIdle 1 attr_world
attr_world-IsIdle = record {
  free = refl;
  may_read = refl;
  may_write = refl;
  rd_quiet = refl;
  wr_quiet = refl;
  mutable = refl;
  unread = refl;
  unasked = refl;
  stack = omega arith;
}

pub list_world-IsIdle : IsIdle 1 list_world
list_world-IsIdle = record {
  free = refl;
  may_read = refl;
  may_write = refl;
  rd_quiet = refl;
  wr_quiet = refl;
  mutable = refl;
  unread = refl;
  unasked = refl;
  stack = omega arith;
}

pub list_world-HasList : HasList 1 list_world 2 (4 ∷ 5 ∷ [])
list_world-HasList = record { block = refl; fits = omega arith; room = omega arith }
