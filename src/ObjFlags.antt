-- ===== src/ObjFlags.antt =====
-- The flags and access levels of an object (src/object.c, `set_immutable` to `get_obj_wracc`). Each
-- function takes `wrlock` for the time of one read or write of a field.
pub mod Laws
use prothon.Base.{ℕ, Bool, true, false, ◌%◌}
use prothon.World.{Obj, Cmd, ◌>>=◌, ◌>>◌, pure, get_obj, put_obj}
use prothon.Lock.{get_wrlock, free_wrlock}

-- get_wrlock(obj, NO_WAIT); obj->... = ...; free_wrlock(obj);
unfoldable pub change : ℕ → (Obj → Obj) → Cmd (Unit {0})
unfolding get_wrlock free_wrlock
change o f = do get_wrlock o; obj ← get_obj o; put_obj o (f obj); free_wrlock o

-- get_wrlock(obj, NO_WAIT); res = obj->...; free_wrlock(obj);
unfoldable pub inspect : {A : Type 0} → ℕ → (Obj → A) → Cmd A
unfolding get_wrlock free_wrlock
inspect o f = do get_wrlock o; obj ← get_obj o; free_wrlock o; pure (f obj)

unfoldable pub set_immutable : ℕ → Cmd (Unit {0})
unfolding change
set_immutable o = change o (λ x. record x { immutable = true })

unfoldable pub clr_immutable : ℕ → Cmd (Unit {0})
unfolding change
clr_immutable o = change o (λ x. record x { immutable = false })

unfoldable pub is_immutable : ℕ → Cmd Bool
unfolding inspect
is_immutable o = inspect o (λ x. x.immutable)

unfoldable pub set_unclonable : ℕ → Cmd (Unit {0})
unfolding change
set_unclonable o = change o (λ x. record x { unclonable = true })

unfoldable pub clr_unclonable : ℕ → Cmd (Unit {0})
unfolding change
clr_unclonable o = change o (λ x. record x { unclonable = false })

unfoldable pub is_unclonable : ℕ → Cmd Bool
unfolding inspect
is_unclonable o = inspect o (λ x. x.unclonable)

unfoldable pub set_archived : ℕ → Cmd (Unit {0})
unfolding change
set_archived o = change o (λ x. record x { archived = true })

unfoldable pub clr_archived : ℕ → Cmd (Unit {0})
unfolding change
clr_archived o = change o (λ x. record x { archived = false })

unfoldable pub is_archived : ℕ → Cmd Bool
unfolding inspect
is_archived o = inspect o (λ x. x.archived)

-- `rd_access` and `wr_access` are fields of two bits.
unfoldable pub set_obj_rdacc : (o access : ℕ) → Cmd (Unit {0})
unfolding change
set_obj_rdacc o access = change o (λ x. record x { rd_access = access % 4 })

unfoldable pub set_obj_wracc : (o access : ℕ) → Cmd (Unit {0})
unfolding change
set_obj_wracc o access = change o (λ x. record x { wr_access = access % 4 })

unfoldable pub get_obj_rdacc : ℕ → Cmd ℕ
unfolding inspect
get_obj_rdacc o = inspect o (λ x. x.rd_access)

unfoldable pub get_obj_wracc : ℕ → Cmd ℕ
unfolding inspect
get_obj_wracc o = inspect o (λ x. x.wr_access)
