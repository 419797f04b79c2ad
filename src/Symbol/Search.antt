-- ===== src/Symbol/Search.antt =====
-- The search tree of src/symbol.c as a map from names to keys.
use prothon.Base.{ℕ, ◌≡◌, refl, sym, ◌∙◌, ◌≢◌, inl, inr, List, [], ◌∷◌, arith, ◌==◌, Bool-cases}
use prothon.Symbol.{Trie, nil, node, ins_trie, search_trie}

pub search-nil : (t : List ℕ) → search_trie nil t ≡ 0
unfolding search_trie
search-nil [] = refl
search-nil (d ∷ t) = refl

-- After a name is inserted with a key, the search of that name finds the key.
pub search-ins : (p : Trie) (s : List ℕ) (key : ℕ) → search_trie (ins_trie p s key) s ≡ key
unfolding ins_trie search_trie
search-ins nil [] key = refl
search-ins nil (c ∷ s) key = ground (arith, search-ins nil s key)
search-ins (node split lo eq k hi) [] key =
    ground (arith, search-ins lo [] key, search-ins hi [] key)
search-ins (node split lo eq k hi) (c ∷ s) key =
    ground (arith, search-ins lo (c ∷ s) key, search-ins eq s key, search-ins hi (c ∷ s) key)

tail_ne : {c d : ℕ} {s t : List ℕ} → (c ∷ s) ≢ (d ∷ t) → c ≡ d → s ≢ t
tail_ne {c} ne e h = ne (rw (e, h) refl)

search-ins_nil : (s t : List ℕ) (key : ℕ) → s ≢ t → search_trie (ins_trie nil s key) t ≡ 0
unfolding ins_trie search_trie
search-ins_nil [] [] key ne = absurd (ne refl)
search-ins_nil [] (d ∷ t) key ne = ground arith
search-ins_nil (c ∷ s) [] key ne = ground arith
search-ins_nil (c ∷ s) (d ∷ t) key ne = elim (Bool-cases (d == c)) [
  | inl h ↦ let rest = search-ins_nil s t key (tail_ne ne (ground arith)) in ground (arith, rest)
  | inr h ↦ ground arith
]

-- Inserting a name changes the search of no other name.
pub search-ins_ne :
    (p : Trie) (s t : List ℕ) (key : ℕ) → s ≢ t → search_trie (ins_trie p s key) t ≡ search_trie p t
unfolding ins_trie search_trie
search-ins_ne nil s t key ne = search-ins_nil s t key ne ∙ sym (search-nil t)
search-ins_ne (node split lo eq k hi) [] [] key ne = absurd (ne refl)
search-ins_ne (node split lo eq k hi) [] (d ∷ t) key ne =
    ground (arith, search-ins_ne lo [] (d ∷ t) key ne, search-ins_ne hi [] (d ∷ t) key ne)
search-ins_ne (node split lo eq k hi) (c ∷ s) [] key ne =
    ground (arith, search-ins_ne lo (c ∷ s) [] key ne, search-ins_ne hi (c ∷ s) [] key ne)
search-ins_ne (node split lo eq k hi) (c ∷ s) (d ∷ t) key ne =
    let low = search-ins_ne lo (c ∷ s) (d ∷ t) key ne in
    let high = search-ins_ne hi (c ∷ s) (d ∷ t) key ne in
    let mid : c ≡ d → search_trie (ins_trie eq s key) t ≡ search_trie eq t =
      λ e. search-ins_ne eq s t key (tail_ne ne e) in
    elim (Bool-cases (c == d)) [
      | inl h ↦ let same = mid (ground arith) in ground (arith, low, same, high)
      | inr h ↦ ground (arith, low, high)
    ]
