-- ===== src/Dict/Delete.antt =====
-- Deletion from a dictionary, and the hashes that `dict_item` and `delItem_` never find.
use prothon.Base.{
  ℕ, zero, suc, ◌+◌, ◌-◌, ◌%◌, ◌<◌, ◌≡◌, refl, sym, ap, ◌∙◌, ◌≢◌, ◌↔◌, inl, inr, Bool, false,
  Option, none, some, ◌>>=◌, arith, ◌==◌, Bool-cases, ℤ, pos, negsuc,
}
use prothon.World.{index_exc}
use prothon.Tuples.{Result, returns, fails, minus_one}
use prothon.AttrTable.{write}
use prothon.LongConvert.{same_int}
use prothon.Dict.{
  Entry, empty, deleted, live, Entries, Dict, search, dict_search, dict_item, del_item, item_hash,
  value_at, as_deleted, remove_at, compared, same_key, slot_of, next_index, visit,
}
use prothon.Dict.Walk.{Agrees, IsUsed}
use prothon.Dict.Placed.{Binds, binds, IsPlaced}
use prothon.Dict.Answers.{search-Binds}

module _ (id : ℕ → ℕ) {s : Entries} {n : ℕ} (t : IsPlaced id s n) (p h k v : ℕ) (lp : p < n)
    (at : s p ≡ live h k v) where
  abbrev removed : Entries
  removed = write s p (as_deleted (s p))

  removed-live : (q g j w : ℕ) → removed q ≡ live g j w → (s q ≡ live g j w) × (p ≡ q → ⊥)
  removed-live q g j w e = elim (Bool-cases (p == q)) [
    | inl x ↦ cc (rw at at (rw x at e))
    | inr x ↦ (rw x at e, λ same. ground (arith, x, same))
  ]

  removed-IsUsed : (q : ℕ) → IsUsed (s q) → IsUsed (removed q)
  removed-IsUsed q u = elim (Bool-cases (p == q)) [ inl x ↦ rw (x, at) tt | inr x ↦ rw x u ]

  removed-IsPlaced : IsPlaced id removed n
  removed-IsPlaced = record {
    placed = λ q g j w lq e i li.
        removed-IsUsed ((g + i) % n) (t.placed q g j w lq ((removed-live q g j w e).0) i li);
    unique = λ q r g j w l u lq lr e f same.
        t.unique q r g j w l u lq lr ((removed-live q g j w e).0) ((removed-live r g l u f).0) same;
  }

  removed-absent : (w : ℕ) → ¬ Binds id removed n h (id k) w
  removed-absent w (binds q j lq e ej) =
      let (old, ne) = removed-live q h j w e in ne (t.unique p q h k v j w lp lq at old (sym ej))

  removed-kept :
      (g c w : ℕ) → (h ≡ g → id k ≡ c → ⊥) → Binds id s n g c w ↔ Binds id removed n g c w
  removed-kept g c w ne = (to, from)
    where
      to : Binds id s n g c w → Binds id removed n g c w
      to (binds q j lq e ej) = elim (Bool-cases (p == q)) [
        | inl x ↦
            let same : p ≡ q = ground arith in
            let eq : live h k v ≡ live g j w = sym at ∙ (rw (← same) at e) in
            let eg : h ≡ g = cc eq in let ek : k ≡ j = cc eq in absurd (ne eg (ap id ek ∙ ej))
        | inr x ↦ binds q j lq (rw x e) ej
      ]

      from : Binds id removed n g c w → Binds id s n g c w
      from (binds q j lq e ej) = binds q j lq ((removed-live q g j w e).0) ej

module _ (eq : (key key_in : ℕ) → Result Bool) where
  -- A search for a hash that no entry has finds nothing.
  abbrev NoHash : ℤ → Entry → Type 0
  NoHash hash empty = Unit
  NoHash hash (deleted k v) = same_int minus_one hash ≡ false
  NoHash hash (live g k v) = same_int (pos g) hash ≡ false

  search-NoHash :
      (f : ℕ) (s : Entries) (n : ℕ) (hash : ℤ) (key : ℕ) (i : ℤ)
      → ((p : ℕ) → NoHash hash (s p))
      → (p : ℕ) → search eq f s n hash key i ≢ some (returns (some p))
  unfolding search
  search-NoHash zero s n hash key i h p e = cc e
  search-NoHash (suc f) s n hash key i h p e =
      by_entry (s (slot_of i n)) (h (slot_of i n)) (search-NoHash f s n hash key (next_index i) h p)
        e
    where
      by_entry :
          (x : Entry)
          → NoHash hash x
          → (search eq f s n hash key (next_index i) ≢ some (returns (some p)))
          → visit x
              (some (returns none))
              (λ k.
                compared
                  (same_int minus_one hash)
                  (same_key eq k key)
                  (some (returns (some (slot_of i n))))
                  (search eq f s n hash key (next_index i)))
              (λ g k.
                compared
                  (same_int (pos g) hash)
                  (same_key eq k key)
                  (some (returns (some (slot_of i n))))
                  (search eq f s n hash key (next_index i)))
            ≢ some (returns (some p))
      by_entry empty h rest e = cc e
      by_entry (deleted k v) h rest e = rest (rw h at e)
      by_entry (live g k v) h rest e = rest (rw h at e)

  negative-NoHash : (m : ℕ) (x : Entry) → NoHash (negsuc (suc m)) x
  negative-NoHash m empty = tt
  negative-NoHash m (deleted k v) = ground arith
  negative-NoHash m (live g k v) = ground arith

  item-none :
      (d : Dict) (r : Option (Result (Option ℕ))) (v : ℕ)
      → ((p : ℕ) → r ≢ some (returns (some p)))
      → (r >>= λ x. elim x [
        | fails e ↦ some (fails e)
        | returns o ↦ elim o [
          | none ↦ some (returns none)
          | some p ↦ some (returns (some (value_at (d.entries p))))
        ]
      ])
        ≢ some (returns (some v))
  item-none d none v h e = cc e
  item-none d (some (fails x)) v h e = cc e
  item-none d (some (returns none)) v h e = cc e
  item-none d (some (returns (some p))) v h e = h p refl

  dict_search-negative :
      (d : Dict) (m key v : ℕ) → dict_search eq d (negsuc (suc m)) key ≢ some (returns (some v))
  unfolding dict_search
  dict_search-negative d m key v =
      let same : item_hash (negsuc (suc m)) ≡ negsuc (suc m) = ground arith in
      rw same (
        item-none d (search eq d.size d.entries d.size (negsuc (suc m)) key (negsuc (suc m))) v (
          search-NoHash d.size d.entries d.size (negsuc (suc m)) key (negsuc (suc m))
            (λ p. negative-NoHash m (d.entries p))))

  -- `dict_item` of a key that has no symbol returns no value if its hash is less than -1, whatever the
  -- table holds.
  pub dict_item-negative :
      (d : Dict) (m key v : ℕ) → dict_item eq d (negsuc (suc m)) key none ≢ some (returns (some v))
  unfolding dict_item
  dict_item-negative d m key v e =
      by_search (dict_search eq d (negsuc (suc m)) key) (dict_search-negative d m key v) e
    where
      by_search :
          (r : Option (Result (Option ℕ)))
          → (r ≢ some (returns (some v)))
          → (r >>= λ x. elim x [
            | fails e ↦ some (fails e)
            | returns o ↦ elim o [ some v ↦ some (returns (some v)) | none ↦ some (returns none) ]
          ])
            ≢ some (returns (some v))
      by_search none h e = cc e
      by_search (some (fails x)) h e = cc e
      by_search (some (returns none)) h e = cc e
      by_search (some (returns (some w))) h e = h e

module _ (id : ℕ → ℕ) where
  -- `b` is the dictionary `d` without the key `c`.
  pub record Removes (d : Dict) (h c : ℕ) (b : Dict) : Type 0 where
    pub placed : IsPlaced id b.entries b.size
    pub absent : (w : ℕ) → ¬ Binds id b.entries b.size h c w
    pub kept :
        (g e w : ℕ)
        → (h ≡ g → c ≡ e → ⊥)
        → Binds id d.entries d.size g e w ↔ Binds id b.entries b.size g e w
    pub len : b.len ≡ d.len - 1

-- Every hash that is stored is positive.
abbrev pub IsPositive : Entry → Type 0
IsPositive empty = Unit
IsPositive (deleted k v) = Unit
IsPositive (live h k v) = 0 < h

module _ (eq : (key key_in : ℕ) → Result Bool) (id : ℕ → ℕ) (agrees : Agrees eq id) where
  -- Where every entry is found and `eq?` answers by `id`, `delItem_` of a key that is bound under its own
  -- hash, which is not negative, unbinds it, changes no other key, and takes one off `len`.
  pub del_item-lem :
      (d : Dict) (h key v : ℕ)
      → IsPlaced id d.entries d.size
      → Binds id d.entries d.size h (id key) v
      → (b : Dict) × (del_item eq d (pos h) key ≡ some (returns b)) × Removes id d h (id key) b
  unfolding del_item
  del_item-lem d h key v t bound =
      let (p, run, lp, (k, at, ek)) = search-Binds eq id agrees d.entries d.size h key v t bound in
      (
        remove_at d p,
        rw run refl,
        record {
          placed = removed-IsPlaced id t p h k v lp at;
          absent = λ w x. removed-absent id t p h k v lp at w (rw (← ek) at x);
          kept = λ g c w ne. removed-kept id t p h k v lp at g c w (λ a e. ne a (sym ek ∙ e));
          len = refl;
        },
      )

  delete-none :
      (d : Dict) (r : Option (Result (Option ℕ))) (b : Dict)
      → ((p : ℕ) → r ≢ some (returns (some p)))
      → (r >>= λ x. elim x [
        | fails e ↦ some (fails e)
        | returns o ↦ elim o [
          | none ↦ some (fails index_exc)
          | some p ↦ some (returns (remove_at d p))
        ]
      ])
        ≢ some (returns b)
  delete-none d none b h e = cc e
  delete-none d (some (fails x)) b h e = cc e
  delete-none d (some (returns none)) b h e = cc e
  delete-none d (some (returns (some p))) b h e = h p refl

  zero-NoHash : (x : Entry) → IsPositive x → NoHash eq (pos 0) x
  zero-NoHash empty h = tt
  zero-NoHash (deleted k v) h = refl
  zero-NoHash (live g k v) h = ground (arith, h)

  -- Where every hash in the table is positive, `delItem_` of a key whose hash is 0 deletes nothing.
  pub del_item-zero :
      (d : Dict) (key : ℕ) (b : Dict)
      → ((p : ℕ) → IsPositive (d.entries p))
      → del_item eq d (pos 0) key ≢ some (returns b)
  unfolding del_item
  del_item-zero d key b h =
      delete-none d (search eq d.size d.entries d.size (pos 0) key (pos 0)) b (
        search-NoHash eq d.size d.entries d.size (pos 0) key (pos 0)
          (λ p. zero-NoHash (d.entries p) (h p)))
