-- ===== src/Dict/Adding.antt =====
-- `dict_add` of dictionaries: the key that it binds, and those that it leaves as they were.
use prothon.Base.{
  ℕ, ◌+◌, ◌%◌, ◌≡◌, refl, ◌↔◌, ◌⊎◌, inl, inr, Bool, true, false, not, none, some, arith, Bool-cases,
  if◌then◌else◌, ℤ,
}
use prothon.Tuples.{Result, returns}
use prothon.Dict.{Dict, Landing, store_at, put_entry, dict_add, stored_hash, is_crowded}
use prothon.Dict.Walk.{Agrees, is_live}
use prothon.Dict.Holes.{last_hole, last_hole-IsHole}
use prothon.Dict.Loops.{seek-Passes}
use prothon.Dict.Placed.{Binds, IsPlaced, HasEmpty, Ends, ends, Ends-of_empty}
use prothon.Dict.Grow.{CanGrow, dict_realloc-lem}
use prothon.Dict.Lookup.{land}

-- `b` is the dictionary `d` with the key `c` bound to `v`; `fresh` says whether it was bound to nothing.
pub record Adds (id : ℕ → ℕ) (d : Dict) (h c v : ℕ) (fresh : Bool) (b : Dict) : Type 0 where
  pub placed : IsPlaced id b.entries b.size
  pub bound : Binds id b.entries b.size h c v
  pub kept :
      (g e w : ℕ)
      → (h ≡ g → c ≡ e → ⊥)
      → Binds id d.entries d.size g e w ↔ Binds id b.entries b.size g e w
  pub absent : fresh ≡ true → (w : ℕ) → ¬ Binds id d.entries d.size h c w
  pub present : fresh ≡ false → (w : ℕ) × Binds id d.entries d.size h c w
  pub len : b.len ≡ d.len + (if fresh then 1 else 0)

-- The same after the table was built anew.
Adds-grown :
    (id : ℕ → ℕ) (d a : Dict) (h c v : ℕ) (fresh : Bool) (b : Dict)
    → ((g e w : ℕ) → Binds id a.entries a.size g e w ↔ Binds id d.entries d.size g e w)
    → a.len ≡ d.len
    → Adds id a h c v fresh b
    → Adds id d h c v fresh b
Adds-grown id d a h c v fresh b same len p = record {
  placed = p.placed;
  bound = p.bound;
  kept = λ g e w ne.
      let s = same g e w in let k = p.kept g e w ne in (λ x. k.0 (s.1 x), λ x. s.0 (k.1 x));
  absent = λ f w x. p.absent f w ((same h c w).1 x);
  present = λ f. let (w, x) = p.present f in (w, (same h c w).0 x);
  len = omega (arith, p.len, len);
}

-- The table is crowded, so that it is built anew, or has an entry that was never used.
abbrev pub HasRoom : (ℕ → ℕ) → Dict → Type 0
HasRoom id d = (is_crowded d ≡ true) ⊎ HasEmpty id d.entries d.size

module _ (eq : (key key_in : ℕ) → Result Bool) (id : ℕ → ℕ) (agrees : Agrees eq id) where
  -- The part of `dict_add` behind the test of the load, in a table with an entry that was never used.
  pub put_entry-lem :
      (d : Dict) (h key v : ℕ)
      → IsPlaced id d.entries d.size
      → HasEmpty id d.entries d.size
      → (fresh : Bool) × (b : Dict) × (put_entry eq d h key v ≡ some (returns fresh, b))
        × Adds id d h (id key) v fresh b
  unfolding put_entry
  put_entry-lem d h key v t room = by_end (Ends-of_empty id d.entries d.size h (id key) room)
    where
      count : (x : Bool) → (if x then d.len else d.len + 1) ≡ d.len + (if not x then 1 else 0)
      count true = omega arith
      count false = refl

      by_end :
          Ends id d.entries d.size h (id key)
          → (fresh : Bool) × (b : Dict) × (put_entry eq d h key v ≡ some (returns fresh, b))
            × Adds id d h (id key) v fresh b
      by_end (ends c lt ps st) =
          let s = d.entries in
          let n = d.size in
          let l : Landing = record {
            at = (h + c) % n;
            matched = is_live (s ((h + c) % n));
            hole = last_hole s n none c h;
          } in
          let run = seek-Passes id h (id key) eq key agrees refl s n c n h none lt ps st in
          let start : h + 0 ≡ h = omega arith in
          let none_first : 0 + c ≡ c = omega arith in
          let hole = last_hole-IsHole s n h c 0 none tt in
          let p =
            land id h key v t c (s ((h + c) % n)) (last_hole s n none c h) lt ps refl st
              (rw (start, none_first) at hole) in
          (
            not (is_live (s ((h + c) % n))),
            store_at d h key v l,
            rw run refl,
            record {
              placed = p.placed;
              bound = p.bound;
              kept = p.kept;
              absent = p.absent;
              present = p.present;
              len = count (is_live (s ((h + c) % n)));
            },
          )

  -- Where every entry is found and `eq?` answers by `id`, `dict_add` in a table whose size the product by
  -- 300 keeps below 2 ^ 31, and that is crowded or has an entry that was never used, ends and raises nothing: it binds the key, changes no other key, says
  -- whether the key was new, and `len` grows by one exactly then.
  pub dict_add-lem :
      (d : Dict) (hash : ℤ) (key v : ℕ)
      → IsPlaced id d.entries d.size
      → CanGrow d
      → HasRoom id d
      → (fresh : Bool) × (b : Dict) × (dict_add eq d hash key v ≡ some (returns fresh, b))
        × Adds id d (stored_hash hash) (id key) v fresh b
  unfolding dict_add
  dict_add-lem d hash key v t more room = elim (Bool-cases (is_crowded d)) [
    | inl e ↦
        let (a, run, placed, unused, same, len, _) = dict_realloc-lem id d t more in
        let (fresh, b, put, p) = put_entry-lem a (stored_hash hash) key v placed unused in
        (
          fresh,
          b,
          rw (e, run) put,
          Adds-grown id d a (stored_hash hash) (id key) v fresh b same len p,
        )
    | inr e ↦
        let (fresh, b, put, p) = put_entry-lem d (stored_hash hash) key v t (fits room e) in
        (fresh, b, rw e put, p)
  ]
    where
      fits : HasRoom id d → is_crowded d ≡ false → HasEmpty id d.entries d.size
      fits (inl crowded) e = cc
      fits (inr unused) e = unused
