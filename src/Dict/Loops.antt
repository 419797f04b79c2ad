-- ===== src/Dict/Loops.antt =====
-- The loops of dictionaries, met with a probe that ends after some entries.
use prothon.Base.{
  ℕ, zero, suc, ◌+◌, ◌%◌, ◌<◌, ◌≡◌, refl, ap, ◌∙◌, Bool, true, false, ◌&&◌, Option, none, some,
  arith, ◌==◌, pos, if◌then◌else◌,
}
use prothon.Tuples.{Result, returns, minus_one}
use prothon.LongConvert.{same_int}
use prothon.Dict.{
  Entry, empty, deleted, live, Entries, Landing, same_key, compared, seek, search, visit,
}
use prothon.Dict.Walk.{
  Agrees, same_key-id, is_live, outcome, Pass, Stop, Passes, Passes-head, Passes-tail,
}
use prothon.Dict.Holes.{last_hole}

same_pos : (g h : ℕ) → same_int (pos g) (pos h) ≡ (g == h)
same_pos g h = ground arith

not_deleted : (h : ℕ) → same_int minus_one (pos h) ≡ false
not_deleted h = ground arith

module _ (id : ℕ → ℕ) (h c : ℕ) (eq : (key key_in : ℕ) → Result Bool) (key_in : ℕ)
    (agrees : Agrees eq id) (same : id key_in ≡ c) (s : Entries) (n : ℕ) where
  compared-keys :
      {A : Type 0} (g k : ℕ) (here rest : Option (Result A))
      → compared (g == h) (same_key eq k key_in) here rest
        ≡ (if (g == h) && (id k == c) then here else rest)
  compared-keys g k here rest = rw (same_key-id eq id agrees k key_in, same) (ground arith)

  visit-Stop :
      {A : Type 0} (x : Entry) (a here : A) (past : ℕ → Option (Result A))
      (rest : Option (Result A))
      → Stop id h c x
      → visit x
          (some (returns a))
          past
          (λ g k. compared (g == h) (same_key eq k key_in) (some (returns here)) rest)
        ≡ some (returns (if is_live x then here else a))
  visit-Stop empty a here past rest st = refl
  visit-Stop (deleted k v) a here past rest st = absurd st
  visit-Stop (live g k v) a here past rest st =
      rw (compared-keys g k (some (returns here)) rest, st) refl

  visit-Pass :
      {A : Type 0} (x : Entry) (a here past rest : Option (Result A))
      → Pass id h c x
      → visit x a (λ k. past) (λ g k. compared (g == h) (same_key eq k key_in) here rest)
        ≡ (if is_live x then rest else past)
  visit-Pass empty a here past rest p = absurd p
  visit-Pass (deleted k v) a here past rest p = refl
  visit-Pass (live g k v) a here past rest p = rw (compared-keys g k here rest, p) refl

  seek-Stop :
      (f i : ℕ) (o : Option ℕ)
      → Stop id h c (s (i % n))
      → seek eq (suc f) s n h key_in o i
        ≡ some (returns (record { at = i % n; matched = is_live (s (i % n)); hole = o }))
  unfolding seek
  seek-Stop f i o st =
      visit-Stop (s (i % n)) (record { at = i % n; matched = false; hole = o })
        (record { at = i % n; matched = true; hole = o })
        (λ k. seek eq f s n h key_in (some (i % n)) (i + 1)) (seek eq f s n h key_in o (i + 1)) st
      ∙ by_use (s (i % n))
    where
      by_use :
          (x : Entry)
          → ◌≡◌ {A = Option (Result Landing)}
              (some (
                returns (
                  if is_live x
                  then (record { at = i % n; matched = true; hole = o })
                  else (record { at = i % n; matched = false; hole = o }))))
              (some (returns (record { at = i % n; matched = is_live x; hole = o })))
      by_use empty = refl
      by_use (deleted k v) = refl
      by_use (live g k v) = refl

  seek-Pass :
      (f i : ℕ) (o : Option ℕ)
      → Pass id h c (s (i % n))
      → seek eq (suc f) s n h key_in o i ≡ seek eq f s n h key_in (last_hole s n o 1 i) (i + 1)
  unfolding seek last_hole
  seek-Pass f i o p =
      visit-Pass (s (i % n)) (some (returns (record { at = i % n; matched = false; hole = o })))
        (some (returns (record { at = i % n; matched = true; hole = o })))
        (seek eq f s n h key_in (some (i % n)) (i + 1)) (seek eq f s n h key_in o (i + 1)) p
      ∙ by_use (s (i % n)) p
    where
      by_use :
          (x : Entry)
          → Pass id h c x
          → (if is_live x
              then seek eq f s n h key_in o (i + 1)
              else seek eq f s n h key_in (some (i % n)) (i + 1))
            ≡ seek eq f s n h key_in
                (elim x [ empty ↦ o | deleted k v ↦ some (i % n) | live g k v ↦ o ])
                (i + 1)
      by_use empty p = absurd p
      by_use (deleted k v) p = refl
      by_use (live g k v) p = refl

  last_hole-suc :
      (d i : ℕ) (o : Option ℕ)
      → last_hole s n o (suc d) i ≡ last_hole s n (last_hole s n o 1 i) d (i + 1)
  unfolding last_hole
  last_hole-suc d i o = by_use (s (i % n))
    where
      by_use :
          (x : Entry)
          → elim x [
            | empty ↦ last_hole s n o d (i + 1)
            | deleted k v ↦ last_hole s n (some (i % n)) d (i + 1)
            | live g k v ↦ last_hole s n o d (i + 1)
          ]
            ≡ last_hole s n
                (elim x [ empty ↦ o | deleted k v ↦ some (i % n) | live g k v ↦ o ])
                d
                (i + 1)
      by_use empty = refl
      by_use (deleted k v) = refl
      by_use (live g k v) = refl

  pub seek-Passes :
      (d f i : ℕ) (o : Option ℕ)
      → d < f
      → Passes id h c s n d i
      → Stop id h c (s ((i + d) % n))
      → seek eq f s n h key_in o i
        ≡ some (
            returns (record {
              at = (i + d) % n;
              matched = is_live (s ((i + d) % n));
              hole = last_hole s n o d i;
            }))
  unfolding last_hole
  seek-Passes d zero i o lt ps st = elim lt [ ]
  seek-Passes zero (suc f) i o lt ps st =
      let e : i + 0 ≡ i = omega arith in rw e (seek-Stop f i o (rw (ap (λ x. s (x % n)) e) at st))
  seek-Passes (suc d) (suc f) i o lt ps st =
      let e : i + suc d ≡ i + 1 + d = omega arith in
      seek-Pass f i o (Passes-head id h c ps)
      ∙ rw (e, last_hole-suc d i o)
          (seek-Passes d f (i + 1) (last_hole s n o 1 i) (omega arith) (Passes-tail id h c ps)
            (rw (ap (λ x. s (x % n)) e) at st))

  search-Stop :
      (f i : ℕ)
      → Stop id h c (s (i % n))
      → search eq (suc f) s n (pos h) key_in (pos i) ≡ some (returns (outcome (s (i % n)) (i % n)))
  unfolding search
  search-Stop f i st = by_entry (s (i % n)) st
    where
      by_entry :
          (x : Entry)
          → Stop id h c x
          → visit x
              (some (returns none))
              (λ k.
                compared
                  (same_int minus_one (pos h))
                  (same_key eq k key_in)
                  (some (returns (some (i % n))))
                  (search eq f s n (pos h) key_in (pos (i + 1))))
              (λ g k.
                compared
                  (same_int (pos g) (pos h))
                  (same_key eq k key_in)
                  (some (returns (some (i % n))))
                  (search eq f s n (pos h) key_in (pos (i + 1))))
            ≡ some (returns (outcome x (i % n)))
      by_entry empty st = refl
      by_entry (deleted k v) st = absurd st
      by_entry (live g k v) st =
          rw
            (
              same_pos g h,
              compared-keys g k (some (returns (some (i % n))))
                  (search eq f s n (pos h) key_in (pos (i + 1))),
              st,
            )
            refl

  search-Pass :
      (f i : ℕ)
      → Pass id h c (s (i % n))
      → search eq (suc f) s n (pos h) key_in (pos i) ≡ search eq f s n (pos h) key_in (pos (i + 1))
  unfolding search
  search-Pass f i p = by_entry (s (i % n)) p
    where
      by_entry :
          (x : Entry)
          → Pass id h c x
          → visit x
              (some (returns none))
              (λ k.
                compared
                  (same_int minus_one (pos h))
                  (same_key eq k key_in)
                  (some (returns (some (i % n))))
                  (search eq f s n (pos h) key_in (pos (i + 1))))
              (λ g k.
                compared
                  (same_int (pos g) (pos h))
                  (same_key eq k key_in)
                  (some (returns (some (i % n))))
                  (search eq f s n (pos h) key_in (pos (i + 1))))
            ≡ search eq f s n (pos h) key_in (pos (i + 1))
      by_entry empty p = absurd p
      by_entry (deleted k v) p = rw (not_deleted h) refl
      by_entry (live g k v) p =
          rw
            (
              same_pos g h,
              compared-keys g k (some (returns (some (i % n))))
                  (search eq f s n (pos h) key_in (pos (i + 1))),
              p,
            )
            refl

  pub search-Passes :
      (d f i : ℕ)
      → d < f
      → Passes id h c s n d i
      → Stop id h c (s ((i + d) % n))
      → search eq f s n (pos h) key_in (pos i)
        ≡ some (returns (outcome (s ((i + d) % n)) ((i + d) % n)))
  search-Passes d zero i lt ps st = elim lt [ ]
  search-Passes zero (suc f) i lt ps st =
      let e : i + 0 ≡ i = omega arith in rw e (search-Stop f i (rw (ap (λ x. s (x % n)) e) at st))
  search-Passes (suc d) (suc f) i lt ps st =
      let e : i + suc d ≡ i + 1 + d = omega arith in
      search-Pass f i (Passes-head id h c ps)
      ∙ rw e (
          search-Passes d f (i + 1) (omega arith) (Passes-tail id h c ps)
            (rw (ap (λ x. s (x % n)) e) at st))
