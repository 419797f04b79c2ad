-- ===== src/AttrTable/Lookup.antt =====
-- Looking an attribute up, against the set of bindings of the table.
use prothon.Base.{ℕ, ◌+◌, ◌%◌, ◌<◌, ◌≡◌, refl, sym, ap, ◌∙◌, ◌↔◌, none, some, arith}
use native.Mathlib.Nat.{mod-lt}
use prothon.AttrTable.{Slot, empty, deleted, live, Attrs, attr_value}
use prothon.AttrTable.Probe.{Stop, Passes, Ends, ends, Ends-of_empty}
use prothon.AttrTable.Walk.{find-Passes}
use prothon.AttrTable.Placed.{find-live, not-live-of_empty}
use prothon.AttrTable.Count.{has_empty}
use prothon.AttrTable.Insert.{holds}
use prothon.AttrTable.Rehash.{Holds-unique}
use prothon.AttrTable.Table.{IsTable, Binds, Open}

-- An attribute that the table binds is found, whether or not the table has a slot that was never
-- used.
pub attr_value-Binds :
    (a : Attrs) (k v : ℕ) → IsTable a → Binds a k v → attr_value a k ≡ some (some v)
unfolding attr_value
attr_value-Binds a k v t (holds p lt e) = rw (attr_value, find-live t.placed p k v lt e, e)

-- The two outcomes of a lookup that ends.
data LookedUp (a : Attrs) (k : ℕ) : Type 0 where
  found : (v : ℕ) → Binds a k v → LookedUp a k
  missing : attr_value a k ≡ some none → ((w : ℕ) → ¬ Binds a k w) → LookedUp a k

look_up : (a : Attrs) (k : ℕ) → IsTable a → Open a → LookedUp a k
unfolding attr_value
look_up a k t (has_empty q lq eq) = go (Ends-of_empty a.slots a.asize k q lq eq)
  where
    at_slot :
        (c : ℕ) (x : Slot)
        → c < a.asize
        → Passes a.slots a.asize k c k
        → a.slots ((k + c) % a.asize) ≡ x
        → Stop k x
        → LookedUp a k
    at_slot c empty lt ps e st =
        missing (rw (attr_value, find-Passes a.slots a.asize k c a.asize k lt ps (rw e tt), e))
          (λ w h. free w h)
      where
        free : (w : ℕ) → ¬ Binds a k w
        free w (holds p lp ep) = not-live-of_empty t.placed c k lt ps e p w lp ep
    at_slot c (deleted v) lt ps e st = absurd st
    at_slot c (live j w) lt ps e st =
        found w (
          holds ((k + c) % a.asize) (mod-lt (k + c) (omega arith))
            (e ∙ ap (λ x. live x w) (sym st)))

    go : Ends a.slots a.asize k → LookedUp a k
    go (ends c lt ps st) = at_slot c (a.slots ((k + c) % a.asize)) lt ps refl st

-- In a well-formed table with a slot that was never used, looking up an attribute answers exactly
-- what the table binds: a value where that value is bound, and nothing where none is.
pub attr_value_iff :
    (a : Attrs) (k v : ℕ)
    → IsTable a
    → Open a
    → ((attr_value a k ≡ some (some v)) ↔ Binds a k v)
      × ((attr_value a k ≡ some none) ↔ ((w : ℕ) → ¬ Binds a k w))
attr_value_iff a k v t o = go (look_up a k t o)
  where
    Goal : Type 0
    Goal =
        ((attr_value a k ≡ some (some v)) ↔ Binds a k v)
        × ((attr_value a k ≡ some none) ↔ ((w : ℕ) → ¬ Binds a k w))

    go : LookedUp a k → Goal
    go (missing e free) = ((λ h. cc, λ h. absurd (free v h)), (λ _. free, λ _. e))
    go (found w h) =
        let e : attr_value a k ≡ some (some w) = attr_value-Binds a k w t h in
        (
          (λ h'. let same : w ≡ v = cc in rw (← same) h, λ h'. rw (Holds-unique t.placed h' h) e),
          (λ h'. cc, λ free. absurd (free w h)),
        )
