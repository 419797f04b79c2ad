-- ===== src/Dict/Walk.antt =====
-- Probe sequences of dictionaries: the entries that a search for a key goes past.
use prothon.Base.{
  ℕ, zero, suc, ◌+◌, ◌%◌, ◌<◌, ◌≡◌, ap, ◌⊎◌, inl, inr, Bool, true, false, ◌&&◌, Option, none, some,
  arith, ◌==◌, Bool-cases, ==-eq_of_true,
}
use prothon.Tuples.{Result, returns}
use prothon.Dict.{Entry, empty, deleted, live, Entries, same_key}

-- `eq?` of two keys raises nothing and says whether they stand for the same: `id` of both is one number.
abbrev pub Agrees : (eq : (key key_in : ℕ) → Result Bool) → (id : ℕ → ℕ) → Type 0
Agrees eq id = (a b : ℕ) → eq a b ≡ returns (id a == id b)

pub same_key-id :
    (eq : (key key_in : ℕ) → Result Bool) (id : ℕ → ℕ)
    → Agrees eq id
    → (a b : ℕ) → same_key eq a b ≡ returns (id a == id b)
same_key-id eq id agrees a b = elim (Bool-cases (a == b)) [
  | inl e ↦ rw (==-eq_of_true a b e) (ground (arith, e))
  | inr e ↦ rw e (agrees a b)
]

abbrev pub IsUsed : Entry → Type 0
IsUsed empty = ⊥
IsUsed (deleted k v) = Unit
IsUsed (live h k v) = Unit

abbrev pub is_live : Entry → Bool
is_live empty = false
is_live (deleted k v) = false
is_live (live h k v) = true

-- The place of an entry in use.
abbrev pub outcome : Entry → ℕ → Option ℕ
outcome empty q = none
outcome (deleted k v) q = none
outcome (live h k v) q = some q

module _ (id : ℕ → ℕ) (h c : ℕ) where
  -- A probe for the hash `h` and the key `c` goes past an entry, or ends there.
  abbrev pub Pass : Entry → Type 0
  Pass empty = ⊥
  Pass (deleted k v) = Unit
  Pass (live g k v) = ((g == h) && (id k == c)) ≡ false

  abbrev pub Stop : Entry → Type 0
  Stop empty = Unit
  Stop (deleted k v) = ⊥
  Stop (live g k v) = ((g == h) && (id k == c)) ≡ true

  pub Pass-or-Stop : (x : Entry) → Pass x ⊎ Stop x
  Pass-or-Stop empty = inr tt
  Pass-or-Stop (deleted k v) = inl tt
  Pass-or-Stop (live g k v) = elim (Bool-cases ((g == h) && (id k == c))) [
    | inl e ↦ inr e
    | inr e ↦ inl e
  ]

  pub Pass-IsUsed : (x : Entry) → Pass x → IsUsed x
  Pass-IsUsed empty p = p
  Pass-IsUsed (deleted k v) p = tt
  Pass-IsUsed (live g k v) p = tt

  -- The probe goes past the `d` entries from index `i` on.
  pub record Passes (s : Entries) (n d i : ℕ) : Type 0 where
    pub past : (e : ℕ) → e < d → Pass (s ((i + e) % n))

  module _ {s : Entries} {n d i : ℕ} where
    pub Passes-tail : Passes s n (suc d) i → Passes s n d (i + 1)
    Passes-tail ps = record {
      past = λ e lt.
          let same : i + suc e ≡ i + 1 + e = omega arith in
          rw (ap (λ x. s (x % n)) same) at (ps.past (suc e) (omega arith));
    }

    pub Passes-head : Passes s n (suc d) i → Pass (s (i % n))
    Passes-head ps =
        let same : i + 0 ≡ i = omega arith in
        rw (ap (λ x. s (x % n)) same) at (ps.past 0 (omega arith))

    pub Passes-snoc : Passes s n d i → Pass (s ((i + d) % n)) → Passes s n (suc d) i
    Passes-snoc ps last = record {
      past = λ e lt. elim (Bool-cases (e == d)) [
        | inl eq ↦ let same : e ≡ d = ground arith in rw same last
        | inr ne ↦ ps.past e (ground arith)
      ];
    }

  -- Among the first `d` entries the probe ends, or it goes past them all.
  pub data Reaches (s : Entries) (n i d : ℕ) : Type 0 where
    stops : (e : ℕ) → e < d → Passes s n e i → Stop (s ((i + e) % n)) → Reaches s n i d
    passes : Passes s n d i → Reaches s n i d

  pub reaches : (s : Entries) (n i d : ℕ) → Reaches s n i d
  reaches s n i zero = passes (record { past = λ e lt. elim lt [ ] })
  reaches s n i (suc d) = extend (reaches s n i d)
    where
      extend : Reaches s n i d → Reaches s n i (suc d)
      extend (stops e lt ps st) = stops e (omega arith) ps st
      extend (passes ps) = elim (Pass-or-Stop (s ((i + d) % n))) [
        | inl p ↦ passes (Passes-snoc ps p)
        | inr st ↦ stops d (omega arith) ps st
      ]
