-- ===== src/Attr/Iterate.antt =====
-- Going through the attributes with `attr_first_key` and `attr_next_key`.
use prothon.Base.{ℕ, ◌+◌, ◌-◌, ◌%◌, ◌<◌, ◌≡◌, refl, ◌∙◌, some, arith}
use native.Mathlib.Nat.{mod_self}
use prothon.AttrTable.{live, Attrs}
use prothon.AttrTable.Placed.{find-live}
use prothon.AttrTable.Table.{IsTable}
use prothon.Attr.{first_from, first_key, next_key}

-- `attr_next_key` of a live key searches on from the slot behind it, up to the end of the table,
-- and starts again at the first slot where the key is in the last one.
pub next_key-lem :
    (a : Attrs) (p k v : ℕ)
    → IsTable a
    → p < a.asize
    → a.slots p ≡ live k v
    → let i = (p + 1) % a.asize in next_key a k ≡ some (first_from (a.asize - i) i a.slots a.asize)
unfolding next_key
next_key-lem a p k v t lt e = rw (next_key, find-live t.placed p k v lt e) refl

-- Where the last slot of a well-formed table is live, the key after it is the first one again: the
-- iteration with `attr_first_key` and `attr_next_key` does not end there.
next_key-wraps :
    (a : Attrs) (p k v : ℕ)
    → IsTable a
    → p + 1 ≡ a.asize
    → a.slots p ≡ live k v
    → next_key a k ≡ some (first_key a)
unfolding first_key next_key
next_key-wraps a p k v t last e =
    let all : a.asize - 0 ≡ a.asize = omega arith in
    next_key-lem a p k v t (omega arith) e ∙ rw (first_key, last, mod_self a.asize, all) refl
