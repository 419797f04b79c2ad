-- ===== src/Symbol/Intern.antt =====
-- The keys that `sym` of src/symbol.c gives to symbols.
use prothon.Base.{
  ℕ, ◌+◌, ◌%◌, ◌^◌, ◌≤◌, ◌<◌, ◌≡◌, refl, sym, ap, ◌∙◌, ◌≢◌, ◌⊎◌, inl, inr, List, arith, ◌==◌,
  Bool-cases,
}
use mathlib.Core.List.{List-discrete}
use native.Mathlib.Decide.{ℕ_discrete}
use prothon.Symbol.{nil, ins_trie, search_trie, Symbols, good_sym, intern}
use prothon.Symbol.Search.{search-ins, search-ins_ne, search-nil}

-- Every key in the tree is a multiple of three and not above `next_key`, and no two names have the
-- same one.
pub record IsSymbols (t : Symbols) : Type 0 where
  pub third : t.next_key % 3 ≡ 0
  pub below : (s : List ℕ) → search_trie t.symbol_tree s ≤ t.next_key
  pub thirds : (s : List ℕ) → search_trie t.symbol_tree s % 3 ≡ 0
  pub once :
      (s u : List ℕ)
      → search_trie t.symbol_tree s ≢ 0
      → search_trie t.symbol_tree s ≡ search_trie t.symbol_tree u
      → s ≡ u

-- The empty table, with which the program starts, is one.
pub IsSymbols-of_empty : IsSymbols (record { symbol_tree = nil; next_key = 0 })
IsSymbols-of_empty = record {
  third = refl;
  below = λ s. omega (arith, search-nil s);
  thirds = λ s. rw (search-nil s) refl;
  once = λ s u ne e. absurd (ne (search-nil s));
}

same_name : (s u : List ℕ) → (s ≡ u) ⊎ (s ≢ u)
same_name s u = elim (List-discrete ℕ_discrete s u) [ Dec.yes e ↦ inl e | Dec.no ne ↦ inr ne ]

-- No two names have the same value, other than 0, under `f`.
abbrev IsOnce : (List ℕ → ℕ) → Type 0
IsOnce f = (s u : List ℕ) → f s ≢ 0 → f s ≡ f u → s ≡ u

IsOnce-of_new :
    (f g : List ℕ → ℕ) (s : List ℕ)
    → ((u : List ℕ) → f u < g s)
    → ((u : List ℕ) → s ≢ u → g u ≡ f u)
    → IsOnce f
    → IsOnce g
IsOnce-of_new f g s above same o u v nz e = elim (same_name s u) [
  | inl eu ↦ elim (same_name s v) [
    | inl ev ↦ sym eu ∙ ev
    | inr nv ↦ absurd (omega (arith, above v, same v nv, e, ap g eu))
  ]
  | inr nu ↦ elim (same_name s v) [
    | inl ev ↦ absurd (omega (arith, above u, same u nu, e, ap g ev))
    | inr nv ↦ o u v (rw (sym (same u nu)) nz) (sym (same u nu) ∙ e ∙ same v nv)
  ]
]

-- A name that is not in the table yet, under the key three above the last one.
added-IsSymbols :
    (t : Symbols) (s : List ℕ)
    → IsSymbols t
    → IsSymbols (record {
      symbol_tree = ins_trie t.symbol_tree s (t.next_key + 3);
      next_key = t.next_key + 3;
    })
added-IsSymbols t s w =
    let at = search-ins t.symbol_tree s (t.next_key + 3) in
    let same : (u : List ℕ)
        → s ≢ u
        → search_trie (ins_trie t.symbol_tree s (t.next_key + 3)) u ≡ search_trie t.symbol_tree u =
      λ u ne. search-ins_ne t.symbol_tree s u (t.next_key + 3) ne in
    record {
      third = omega (arith, w.third);
      below = λ u. elim (same_name s u) [
        | inl e ↦ rw (sym e, at) (omega arith)
        | inr ne ↦ omega (arith, same u ne, w.below u)
      ];
      thirds = λ u. elim (same_name s u) [
        | inl e ↦ rw (sym e, at) (omega (arith, w.third))
        | inr ne ↦ rw (same u ne) (w.thirds u)
      ];
      once =
          IsOnce-of_new (search_trie t.symbol_tree)
            (search_trie (ins_trie t.symbol_tree s (t.next_key + 3))) s
            (λ u. omega (arith, at, w.below u)) same w.once;
    }

intern-known :
    (u : Symbols) (s : List ℕ) (key : ℕ)
    → key ≢ 0
    → search_trie u.symbol_tree s ≡ key
    → intern u s ≡ good_sym key u
unfolding intern
intern-known u s key nz e = ground arith

-- What `intern` gives: the key of the name `s` and the table `u`, which are as `intern` promises.
pub record Interns (t : Symbols) (s : List ℕ) (key : ℕ) (u : Symbols) : Type 0 where
  pub table : IsSymbols u
  pub nonzero : key ≢ 0
  pub third : key % 3 ≡ 0
  pub found : search_trie u.symbol_tree s ≡ key
  pub kept : (r : List ℕ) → s ≢ r → search_trie u.symbol_tree r ≡ search_trie t.symbol_tree r
  pub next : u.next_key ≤ t.next_key + 3

-- In a well-formed table of symbols whose counter of keys has not wrapped around, `intern` gives a
-- name a nonzero key that is a multiple of three, as `set_attr` asserts, leaves the keys of the
-- other names as they were, and keeps the table well formed: no two names have the same key.
pub intern-lem :
    (t : Symbols) (s : List ℕ)
    → IsSymbols t
    → t.next_key + 3 < 2 ^ 31
    → (key : ℕ) × (u : Symbols) × (intern t s ≡ good_sym key u) × Interns t s key u
unfolding intern
intern-lem t s w room = elim (Bool-cases (search_trie t.symbol_tree s == 0)) [
  | inl h ↦ (
    t.next_key + 3,
    record { symbol_tree = ins_trie t.symbol_tree s (t.next_key + 3); next_key = t.next_key + 3 },
    ground arith,
    record {
      table = added-IsSymbols t s w;
      nonzero = omega arith;
      third = omega (arith, w.third);
      found = search-ins t.symbol_tree s (t.next_key + 3);
      kept = λ r ne. search-ins_ne t.symbol_tree s r (t.next_key + 3) ne;
      next = omega arith;
    },
  )
  | inr h ↦ (
    search_trie t.symbol_tree s,
    t,
    ground arith,
    record {
      table = w;
      nonzero = ground arith;
      third = w.thirds s;
      found = refl;
      kept = λ r ne. refl;
      next = omega arith;
    },
  )
]

-- In a well-formed table of symbols whose counter of keys has not wrapped around, a name that is
-- interned again keeps its key, and the table does not change.
intern_twice :
    (t : Symbols) (s : List ℕ)
    → IsSymbols t
    → t.next_key + 3 < 2 ^ 31
    → (key : ℕ) × (u : Symbols) × (intern t s ≡ good_sym key u) × (intern u s ≡ good_sym key u)
intern_twice t s w room =
    let (key, u, run, i) = intern-lem t s w room in
    (key, u, run, intern-known u s key i.nonzero i.found)
