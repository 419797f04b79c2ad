-- ===== src/Dict/Answers.antt =====
-- What a dictionary answers: `dict_item` against what the table binds, and after `dict_add`.
use native.Mathlib.Nat.{mod-lt}
use prothon.Base.{
  Option, negsuc, ℤ, ℕ, suc, ◌+◌, ◌%◌, ◌^◌, ◌<◌, ◌≡◌, refl, sym, ap, ◌∙◌, inl, inr, Bool, none,
  some, ◌>>=◌, arith, ◌==◌, Bool-cases, pos,
}
use prothon.Tuples.{Result, returns, fails}
use prothon.AttrTable.Probe.{dist, dist-lt, add-dist}
use prothon.Dict.{
  Entry, empty, deleted, live, Entries, Dict, search, dict_add, dict_search, dict_item, item_hash,
  value_at, stored_hash,
}
use prothon.Dict.Walk.{Agrees, outcome, Stop, Reaches, stops, passes, reaches}
use prothon.Dict.Loops.{search-Passes}
use prothon.Dict.Placed.{Binds, binds, IsPlaced, HasEmpty, Ends, ends, Ends-of_empty, stop_here}
use prothon.Dict.Grow.{CanGrow}
use prothon.Dict.Adding.{HasRoom, dict_add-lem}

module _ (eq : (key key_in : ℕ) → Result Bool) (id : ℕ → ℕ) (agrees : Agrees eq id) where
  -- A bound key is found, whether or not the table has an entry that was never used.
  pub search-Binds :
      (s : Entries) (n h key v : ℕ)
      → IsPlaced id s n
      → Binds id s n h (id key) v
      → (p : ℕ) × (search eq n s n (pos h) key (pos h) ≡ some (returns (some p)))
        × (p < n)
        × ((k : ℕ) × (s p ≡ live h k v) × (id k ≡ id key))
  search-Binds s n h key v t (binds p k lp ep ek) =
      by_end (reaches id h (id key) s n h (suc (dist n h p)))
    where
      at : (h + dist n h p) % n ≡ p
      at = add-dist n h p lp

      inside : dist n h p < n
      inside = dist-lt n h p lp

      landed :
          (e : ℕ) (x : Entry)
          → e < suc (dist n h p)
          → s ((h + e) % n) ≡ x
          → Stop id h (id key) x
          → (outcome x ((h + e) % n) ≡ some ((h + e) % n))
            × ((j : ℕ) × (s ((h + e) % n) ≡ live h j v) × (id j ≡ id key))
      landed e empty le ex st = elim (Bool-cases (e == dist n h p)) [
        | inl same ↦
            let d : e ≡ dist n h p = ground arith in
            let here : (h + e) % n ≡ p = rw d at in cc (ap s here, ex, ep)
        | inr ne ↦
            let used = t.placed p h k v lp ep e (ground (arith, le, ne)) in absurd (rw ex at used)
      ]
      landed e (deleted j w) le ex st = absurd st
      landed e (live g j w) le ex st =
          let eg : g ≡ h = ground (arith, st) in
          let ej : id j ≡ id key = ground (arith, st) in
          let lq : (h + e) % n < n = mod-lt (h + e) (omega arith) in
          let found : s ((h + e) % n) ≡ live h j w = ex ∙ ap (λ x. live x j w) eg in
          let same = t.unique ((h + e) % n) p h j w k v lq lp found ep (ej ∙ sym ek) in
          (refl, (k, ap s same ∙ ep, ek))

      by_end :
          Reaches id h (id key) s n h (suc (dist n h p))
          → (q : ℕ) × (search eq n s n (pos h) key (pos h) ≡ some (returns (some q)))
            × (q < n)
            × ((j : ℕ) × (s q ≡ live h j v) × (id j ≡ id key))
      by_end (stops e le ps st) =
          let (found, value) = landed e (s ((h + e) % n)) le refl st in
          (
            (h + e) % n,
            search-Passes id h (id key) eq key agrees refl s n e n h (omega (arith, le, inside)) ps
                  st
                ∙ ap (λ o. some (returns o)) found,
            mod-lt (h + e) (omega arith),
            value,
          )
      by_end (passes ps) =
          let passed = ps.past (dist n h p) (omega arith) in
          cc (rw (ep) at (rw at at passed), stop_here id h h k (id key) refl ek)

  item_hash-stored : (h : ℕ) → h < 2 ^ 31 → item_hash (pos h) ≡ pos (stored_hash (pos h))
  item_hash-stored h l = ground (arith, l)

  dict_search-Binds :
      (d : Dict) (h key v : ℕ)
      → h < 2 ^ 31
      → IsPlaced id d.entries d.size
      → Binds id d.entries d.size (stored_hash (pos h)) (id key) v
      → dict_search eq d (pos h) key ≡ some (returns (some v))
  unfolding dict_search
  dict_search-Binds d h key v l t b =
      let (p, run, _, (_, value, _)) =
        search-Binds d.entries d.size (stored_hash (pos h)) key v t b in
      rw (item_hash-stored h l, run, ap value_at value) refl

  -- `dict_item` of a key whose hash is not negative returns the value that the key is bound to.
  pub dict_item-Binds :
      (d : Dict) (h key v : ℕ) (retry : Option (ℤ × ℕ))
      → h < 2 ^ 31
      → IsPlaced id d.entries d.size
      → Binds id d.entries d.size (stored_hash (pos h)) (id key) v
      → dict_item eq d (pos h) key retry ≡ some (returns (some v))
  unfolding dict_item
  dict_item-Binds d h key v retry l t b = rw (dict_search-Binds d h key v l t b) refl

  -- Where every entry is found, `eq?` answers by `id`, the size of the table times 300 is below 2 ^ 31, and
  -- the table is crowded or has an entry that was never used: after `dict_add` of a key whose hash is not negative `dict_item` of the key returns the
  -- value, and what any other key of such a hash was bound to is still returned.
  pub dict_add-dict_item :
      (d : Dict) (h key v g other w : ℕ) (retry retry' : Option (ℤ × ℕ))
      → h < 2 ^ 31
      → g < 2 ^ 31
      → IsPlaced id d.entries d.size
      → CanGrow d
      → HasRoom id d
      → (stored_hash (pos h) ≡ stored_hash (pos g) → id key ≡ id other → ⊥)
      → Binds id d.entries d.size (stored_hash (pos g)) (id other) w
      → (fresh : Bool) × (b : Dict) × (dict_add eq d (pos h) key v ≡ some (returns fresh, b))
        × (dict_item eq b (pos h) key retry ≡ some (returns (some v)))
        × (dict_item eq b (pos g) other retry' ≡ some (returns (some w)))
  dict_add-dict_item d h key v g other w retry retry' l m t more room ne bound =
      let (fresh, b, run, p) = dict_add-lem eq id agrees d (pos h) key v t more room in
      (
        fresh,
        b,
        run,
        dict_item-Binds b h key v retry l p.placed p.bound,
        dict_item-Binds b g other w retry' m p.placed
            ((p.kept (stored_hash (pos g)) (id other) w ne).0 bound),
      )

  -- The first search of `dict_item`, for a key that is not bound.
  dict_search-not_Binds :
      (d : Dict) (h key : ℕ)
      → h < 2 ^ 31
      → IsPlaced id d.entries d.size
      → HasEmpty id d.entries d.size
      → ((v : ℕ) → ¬ Binds id d.entries d.size (stored_hash (pos h)) (id key) v)
      → dict_search eq d (pos h) key ≡ some (returns none)
  unfolding dict_search
  dict_search-not_Binds d h key l t unused absent =
      rw (item_hash-stored h l)
        (by_end (Ends-of_empty id d.entries d.size (stored_hash (pos h)) (id key) unused))
    where
      g : ℕ
      g = stored_hash (pos h)

      missed :
          (q : ℕ) (x : Entry)
          → q < d.size
          → d.entries q ≡ x
          → Stop id g (id key) x
          → outcome x q ≡ none
      missed q empty lq e st = refl
      missed q (deleted k v) lq e st = absurd st
      missed q (live f k v) lq e st =
          let ef : f ≡ g = ground (arith, st) in
          let ek : id k ≡ id key = ground (arith, st) in
          absurd (absent v (binds q k lq (e ∙ ap (λ x. live x k v) ef) ek))

      by_end :
          Ends id d.entries d.size g (id key)
          → (search eq d.size d.entries d.size (pos g) key (pos g) >>= λ r. elim r [
            | fails e ↦ some (fails e)
            | returns o ↦ elim o [
              | none ↦ some (returns none)
              | some p ↦ some (returns (some (value_at (d.entries p))))
            ]
          ])
            ≡ some (returns none)
      by_end (ends c lt ps st) =
          let q = (g + c) % d.size in
          let gone = missed q (d.entries q) (mod-lt (g + c) (omega arith)) refl st in
          rw
            (
              search-Passes id g (id key) eq key agrees refl d.entries d.size c d.size g lt ps st,
              gone,
            )
            refl

  -- The symbol of a key, where there is one, has a hash that is not negative and is not bound either.
  abbrev pub RetryFails : Dict → Option (ℤ × ℕ) → Type 0
  RetryFails d none = Unit
  RetryFails d (some (negsuc g, symbol)) = ⊥
  RetryFails d (some (pos g, symbol)) =
      (g < 2 ^ 31) × ((v : ℕ) → ¬ Binds id d.entries d.size (stored_hash (pos g)) (id symbol) v)

  -- Where every entry is found and `eq?` answers by `id`, `dict_item` of a key that is not bound and whose
  -- hash is not negative, in a table with an entry that was never used, finds none, if its symbol, which
  -- a string may have, is not bound either and has a hash that is not negative.
  pub dict_item-not_Binds :
      (d : Dict) (h key : ℕ) (retry : Option (ℤ × ℕ))
      → h < 2 ^ 31
      → IsPlaced id d.entries d.size
      → HasEmpty id d.entries d.size
      → ((v : ℕ) → ¬ Binds id d.entries d.size (stored_hash (pos h)) (id key) v)
      → RetryFails d retry
      → dict_item eq d (pos h) key retry ≡ some (returns none)
  unfolding dict_item
  dict_item-not_Binds d h key none l t unused absent no_symbol =
      rw (dict_search-not_Binds d h key l t unused absent) refl
  dict_item-not_Binds d h key (some (pos g, symbol)) l t unused absent (m, gone) =
      rw (dict_search-not_Binds d h key l t unused absent)
        (dict_search-not_Binds d g symbol m t unused gone)
  dict_item-not_Binds d h key (some (negsuc g, symbol)) l t unused absent no_symbol =
      absurd no_symbol

  -- A string that is not bound is found under its symbol.
  pub dict_item-symbol :
      (d : Dict) (h key g symbol v : ℕ)
      → h < 2 ^ 31
      → g < 2 ^ 31
      → IsPlaced id d.entries d.size
      → HasEmpty id d.entries d.size
      → ((w : ℕ) → ¬ Binds id d.entries d.size (stored_hash (pos h)) (id key) w)
      → Binds id d.entries d.size (stored_hash (pos g)) (id symbol) v
      → dict_item eq d (pos h) key (some (pos g, symbol)) ≡ some (returns (some v))
  unfolding dict_item
  dict_item-symbol d h key g symbol v l m t unused absent bound =
      rw (dict_search-not_Binds d h key l t unused absent)
        (dict_search-Binds d g symbol v m t bound)
