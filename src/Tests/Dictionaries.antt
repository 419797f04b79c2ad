-- ===== src/Tests/Dictionaries.antt =====
-- The theorems on dictionaries at concrete ones.
use prothon.Base.{
  ℕ, ◌+◌, ◌%◌, ◌<◌, ◌∙◌, sym, ◌≡◌, ◌≢◌, ◌↔◌, refl, inl, inr, false, true, Bool, none, some, [], ◌∷◌,
  arith, ◌==◌, if◌then◌else◌, pos, negsuc, Bool-cases,
}
use prothon.Tuples.{Result, returns}
use prothon.Dict.{
  empty, deleted, live, Entries, Dict, dict_realloc, dict_add, dict_item, del_item, stored_hash,
  dict_entries,
}
use prothon.AttrTable.Probe.{dist, dist-add}
use prothon.IntMethods.{imm, big, eq_ints}
use prothon.IntHash.{int_hash_value, int_hash}
use prothon.IntHash.Keys.{int_hash_value-eq, dict_item-int_hash_value}
use prothon.Dict.Walk.{Agrees, IsUsed}
use prothon.Dict.Placed.{Binds, binds, IsPlaced, HasEmpty, has_empty}
use prothon.Dict.Grow.{dict_realloc-lem}
use prothon.Dict.Adding.{Adds, dict_add-lem}
use prothon.Dict.Answers.{dict_add-dict_item, dict_item-not_Binds, dict_item-symbol}
use prothon.Dict.Delete.{Removes, del_item-lem, del_item-zero, IsPositive}

-- Keys that are equal only to themselves.
abbrev id : ℕ → ℕ
id k = k

abbrev same_number : ℕ → ℕ → Result Bool
same_number a b = returns (a == b)

same_number-Agrees : Agrees same_number id
same_number-Agrees a b = refl

-- Two keys whose hashes have one home, and a deleted entry behind them.
abbrev three_entries : Entries
three_entries p =
    if p == 3
    then live 3 11 100
    else if p == 4
    then live 11 12 200
    else if p == 5
    then deleted 13 300
    else empty

abbrev small_dict : Dict
small_dict = record { size = 8; len = 2; entries = three_entries }

-- The live entries of the table.
data Held (p h k : ℕ) : Type 0 where
  at_three : p ≡ 3 → h ≡ 3 → k ≡ 11 → Held p h k
  at_four : p ≡ 4 → h ≡ 11 → k ≡ 12 → Held p h k

held : (p h k v : ℕ) → three_entries p ≡ live h k v → Held p h k
held p h k v e = elim (Bool-cases (p == 3)) [
  | inl x ↦
      let f : live 3 11 100 ≡ live h k v = rw x at e in
      at_three (ground arith) (sym (cc f)) (sym (cc f))
  | inr x ↦ elim (Bool-cases (p == 4)) [
    | inl y ↦
        let f : live 11 12 200 ≡ live h k v = rw (x, y) at e in
        at_four (ground arith) (sym (cc f)) (sym (cc f))
    | inr y ↦ elim (Bool-cases (p == 5)) [
      | inl z ↦ let f : deleted 13 300 ≡ live h k v = rw (x, y, z) at e in cc f
      | inr z ↦ let f : empty ≡ live h k v = rw (x, y, z) at e in cc f
    ]
  ]
]

small_dict-IsPlaced : IsPlaced id three_entries 8
small_dict-IsPlaced = record {
  placed = λ p h k v lt at. near p h k (held p h k v at);
  unique = λ p q h k v j w lp lq at other same.
      once p q h k j (held p h k v at) (held q h j w other) same;
}
  where
    near :
        (p h k : ℕ) → Held p h k → (e : ℕ) → e < dist 8 h p → IsUsed (three_entries ((h + e) % 8))
    near p h k (at_three x y z) e lt =
        let d : dist 8 3 3 ≡ 0 = dist-add 8 3 0 (omega arith) in
        let l : e < 0 = rw (x, y, d) at lt in absurd (omega (arith, l))
    near p h k (at_four x y z) e lt =
        let d : dist 8 11 4 ≡ 1 = dist-add 8 11 1 (omega arith) in
        let l : e < 1 = rw (x, y, d) at lt in
        let none_past : e ≡ 0 = omega (arith, l) in rw (y, none_past) tt

    once : (p q h k j : ℕ) → Held p h k → Held q h j → k ≡ j → p ≡ q
    once p q h k j (at_three x y z) (at_three x' y' z') same = x ∙ sym x'
    once p q h k j (at_three x y z) (at_four x' y' z') same = omega (arith, y, y')
    once p q h k j (at_four x y z) (at_three x' y' z') same = omega (arith, y, y')
    once p q h k j (at_four x y z) (at_four x' y' z') same = x ∙ sym x'

small_dict-HasEmpty : HasEmpty id three_entries 8
small_dict-HasEmpty = has_empty 0 (omega arith) refl

dict_realloc-lem_example :
    (b : Dict) × (dict_realloc small_dict ≡ some b)
    × IsPlaced id b.entries b.size
    × HasEmpty id b.entries b.size
    × ((g c w : ℕ) → Binds id b.entries b.size g c w ↔ Binds id three_entries 8 g c w)
    × (b.len ≡ 2)
    × (8 < b.size)
dict_realloc-lem_example = dict_realloc-lem id small_dict small_dict-IsPlaced (omega arith)

dict_add-lem_example :
    (fresh : Bool) × (b : Dict) × (dict_add same_number small_dict (negsuc 4) 14 400
      ≡ some (returns fresh, b))
    × Adds id small_dict (stored_hash (negsuc 4)) 14 400 fresh b
dict_add-lem_example =
    dict_add-lem same_number id same_number-Agrees small_dict (negsuc 4) 14 400 small_dict-IsPlaced
      (omega arith) (inr small_dict-HasEmpty)

dict_add-dict_item_example :
    (fresh : Bool) × (b : Dict) × (dict_add same_number small_dict (pos 3) 14 400
      ≡ some (returns fresh, b))
    × (dict_item same_number b (pos 3) 14 none ≡ some (returns (some 400)))
    × (dict_item same_number b (pos 11) 12 none ≡ some (returns (some 200)))
dict_add-dict_item_example =
    dict_add-dict_item same_number id same_number-Agrees small_dict 3 14 400 11 12 200 none none
      (omega arith) (omega arith) small_dict-IsPlaced (omega arith) (inr small_dict-HasEmpty)
      (λ e f. let g : 14 ≡ 12 = f in omega (arith, g)) (binds 4 12 (omega arith) refl refl)

no_fourteen : (v : ℕ) → ¬ Binds id three_entries 8 3 14 v
no_fourteen v (binds p k lt e ek) = elim (held p 3 k v e) [
  | at_three x y z ↦ omega (arith, z, ek)
  | at_four x y z ↦ omega (arith, y)
]

dict_item-not_Binds_example : dict_item same_number small_dict (pos 3) 14 none ≡ some (returns none)
dict_item-not_Binds_example =
    dict_item-not_Binds same_number id same_number-Agrees small_dict 3 14 none (omega arith)
      small_dict-IsPlaced small_dict-HasEmpty no_fourteen tt

-- The string 14 is not there, and its symbol, 12, is.
found_by_symbol :
    dict_item same_number small_dict (pos 3) 14 (some (pos 11, 12)) ≡ some (returns (some 200))
found_by_symbol =
    dict_item-symbol same_number id same_number-Agrees small_dict 3 14 11 12 200 (omega arith)
      (omega arith) small_dict-IsPlaced small_dict-HasEmpty no_fourteen
      (binds 4 12 (omega arith) refl refl)

del_item-lem_example :
    (b : Dict) × (del_item same_number small_dict (pos 11) 12 ≡ some (returns b))
    × Removes id small_dict 11 12 b
del_item-lem_example =
    del_item-lem same_number id same_number-Agrees small_dict 11 12 200 small_dict-IsPlaced
      (binds 4 12 (omega arith) refl refl)

-- The integer -5 has the hash -5, and its entry the hash that is left without the sign bit.
abbrev minus_five : Entries
minus_five p = if p == 3 then live (stored_hash (negsuc 4)) 11 100 else empty

-- The integer 0 has the hash 0, and its entry the hash 1.
abbrev only_zero : Entries
only_zero p = if p == 1 then live 1 11 100 else empty

abbrev zero_dict : Dict
zero_dict = record { size = 8; len = 1; entries = only_zero }

only_one : (p : ℕ) → IsPositive (only_zero p)
only_one p = elim (Bool-cases (p == 1)) [ inl x ↦ rw x (omega arith) | inr x ↦ rw x tt ]

del_item-zero_example : del_item same_number zero_dict (pos 0) 11 ≢ some (returns zero_dict)
del_item-zero_example =
    del_item-zero same_number id same_number-Agrees zero_dict 11 zero_dict only_one

zero_found : dict_item same_number zero_dict (pos 0) 11 none ≡ some (returns (some 100))
unfolding dict_item
zero_found = refl

listed : dict_entries 8 0 three_entries ≡ (11, 100) ∷ (12, 200) ∷ []
unfolding dict_entries
listed = refl

-- The integer 40000 in 64 bits and as digits.
eq_large :
    eq_ints (imm (pos 40000)) (big (record { negative = false; digit = 7232 ∷ 1 ∷ [] })) ≡ true
unfolding eq_ints
eq_large = refl

int_hash_value-eq_example :
    int_hash_value (imm (pos 40000))
    ≡ int_hash_value (big (record { negative = false; digit = 7232 ∷ 1 ∷ [] }))
int_hash_value-eq_example =
    int_hash_value-eq (imm (pos 40000)) (big (record { negative = false; digit = 7232 ∷ 1 ∷ [] }))
      refl (record { digits = omega arith; normal = omega arith; zero_sign = λ e. refl }) eq_large

dict_item-int_hash_value_example :
    dict_item same_number
      (record { size = 8; len = 1; entries = minus_five })
      (int_hash_value (imm (negsuc 4)))
      11
      none
    ≢ some (returns (some 100))
dict_item-int_hash_value_example =
    dict_item-int_hash_value same_number (record { size = 8; len = 1; entries = minus_five }) 4 11
      100 (omega arith)

-- What `dict_add` makes of the hash of -5 is what `hash_` gives, and the place of the entry.
hash_of_minus_five : int_hash (imm (negsuc 4)) % 8 ≡ 3
unfolding int_hash
hash_of_minus_five = refl
