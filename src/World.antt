-- ===== src/World.antt =====
-- The object store as one thread sees it: the objects (`obj_t` of include/prothon/prothon.h) at their
-- addresses, and the thread's interpreter state (`isp`). Operations are commands over it.
use prothon.Base.{ℕ, Bool, true, false, Option, none, some, some, List, ◌==◌, if◌then◌else◌}
use prothon.AttrTable.{Attrs}
use prothon.Clist.{Clist}

-- The prototypes of the exceptions that the modelled code raises.
pub data Exc : Type 0 where
  permission_exc lock_exc internal_exc index_exc type_exc overflow_exc value_exc dividezero_exc :
      Exc

-- `obj_state_t`
pub data ObjState : Type 0 where
  invalid new_or_marked unmarked is_deleted : ObjState

-- `attr_proto_t` with the flag `has_attrs`
pub data AttrProto : Type 0 where
  proto_only : ℕ → AttrProto
  with_attrs : Attrs → AttrProto

-- `data_type` and `data`: nothing, an immediate value, or the block of a list: its size in items,
-- as `lstpsize` computes it, and the items in use.
pub data Binary : Type 0 where
  no_data : Binary
  imm_data : ℕ → Binary
  list_data : (size : ℕ) → (items : List ℕ) → Binary

pub record Obj : Type 0 where
  pub state : ObjState
  pub scanned : Bool
  pub rd_access : ℕ
  pub wr_access : ℕ
  pub archived : Bool
  pub rd_notify : Bool
  pub wr_notify : Bool
  pub immutable : Bool
  pub unclonable : Bool
  pub rdlock_cnt : ℕ
  pub wrlock_req_cnt : ℕ
  pub wrlock : Bool
  pub attr_proto : AttrProto
  pub binary : Binary

-- The fields of `interp_state_t` that the object operations use.
pub record Ist : Type 0 where
  pub access : ℕ
  pub exception_obj : Option Exc
  pub lock_stack : Clist

-- `marking` is mem_mgr_phase == MM_PHASE_MARKING.
pub record World : Type 0 where
  pub ist : Ist
  pub heap : ℕ → Obj
  pub marking : Bool
  pub to_be_scanned_list : Clist

-- `blocked`: the thread waits for another thread. `looping`: a loop has used up its fuel.
-- `aborted`: an assertion failed, or the code uses memory that is not its own.
pub data Res {ℓ} (A : Type ℓ) : Type ℓ where
  ok : A → World → Res A
  blocked : Res A
  looping : Res A
  aborted : Res A

abbrev pub Cmd : Type 0 → Type 0
Cmd A = World → Res A

infixl 5 ◌>>=◌ ◌>>◌
abbrev pub ◌>>=◌ : {A B : Type 0} → Cmd A → (A → Cmd B) → Cmd B
◌>>=◌ m f w = elim (m w) [
  | ok a w' ↦ f a w'
  | blocked ↦ blocked
  | looping ↦ looping
  | aborted ↦ aborted
]

abbrev pub ◌>>◌ : {B : Type 0} → Cmd (Unit {0}) → Cmd B → Cmd B
m >> k = m >>= λ _. k

abbrev pub pure : {A : Type 0} → A → Cmd A
pure a w = ok a w

abbrev pub skip : Cmd (Unit {0})
skip w = ok tt w

-- The conditional on commands.
infix 1 when◌then◌else◌
abbrev pub when◌then◌else◌ : {A : Type 0} → Bool → Cmd A → Cmd A → Cmd A
when◌then◌else◌ true x y w = x w
when◌then◌else◌ false x y w = y w

abbrev pub get_obj : ℕ → Cmd Obj
get_obj o w = ok (w.heap o) w

abbrev pub get_ist : Cmd Ist
get_ist w = ok w.ist w

abbrev pub update : (ℕ → Obj) → ℕ → Obj → ℕ → Obj
update h o x p = if o == p then x else h p

abbrev pub put_obj : ℕ → Obj → Cmd (Unit {0})
put_obj o x w = ok tt (record w { heap = update w.heap o x })

abbrev pub put_ist : Ist → Cmd (Unit {0})
put_ist i w = ok tt (record w { ist = i })

-- `raise_exception`, without the text of the message.
abbrev pub raise_exception : Exc → Cmd (Unit {0})
raise_exception e w = ok tt (record w { ist = record (w.ist) { exception_obj = some e } })

-- The world that a command leaves, or `w` where it does not return.
abbrev pub final : {A : Type 0} → Res A → World → World
final (ok a w') w = w'
final blocked w = w
final looping w = w
final aborted w = w

-- A search that used up its fuel goes on for ever.
abbrev pub within_fuel : {A : Type 0} → Option A → Cmd A
within_fuel none w = looping
within_fuel (some a) w = ok a w
