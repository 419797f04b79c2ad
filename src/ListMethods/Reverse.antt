-- ===== src/ListMethods/Reverse.antt =====
-- `List.reverse!` is list reversal.
use prothon.Base.{
  leb, ◌&&◌, ◌==◌, ==-eq_of_true, ==-ne_of_false, ℕ, zero, suc, ◌+◌, ◌-◌, ◌≤◌, ◌<◌, ◌≡◌, refl, ap,
  sym, ◌∙◌, inl, inr, some, List, [], ◌∷◌, arith, ltb, if◌then◌else◌, length, get_elem?, get_or,
  set, Bool-cases, length-set, get_elem?-set, get_elem?-set_ne,
}
use prothon.ListMethods.{edited, swap_ends, reverse_bang}

-- The index in the list before of what is at `k` after the ends `i` and `j` are swapped.
abbrev swap_index : (i j k : ℕ) → ℕ
swap_index i j k = if k == i then j else if k == j then i else k

-- The same for the whole loop from `i` and `j` on.
abbrev flip : (i j k : ℕ) → ℕ
flip i j k = if leb i k && leb k j then i + j - k else k

get_or-get_elem? : (xs : List ℕ) (i : ℕ) → i < length xs → some (get_or xs i 0) ≡ get_elem? xs i
get_or-get_elem? [] i h = elim h [ ]
get_or-get_elem? (x ∷ xs) zero h = refl
get_or-get_elem? (x ∷ xs) (suc i) h = get_or-get_elem? xs i (omega arith)

get-swapped :
    (xs : List ℕ) (i j k : ℕ)
    → i < j
    → j < length xs
    → get_elem? (set (set xs j (get_or xs i 0)) i (get_or xs j 0)) k
      ≡ get_elem? xs (swap_index i j k)
get-swapped xs i j k lt in_list =
    let once = set xs j (get_or xs i 0) in
    let n = length-set xs j (get_or xs i 0) in
    elim (Bool-cases (k == i)) [
      | inl e ↦
          let same = ==-eq_of_true k i e in
          rw (e, same)
            (get_elem?-set once i (get_or xs j 0) (omega arith) ∙ get_or-get_elem? xs j in_list)
      | inr e ↦
          let ne = ==-ne_of_false k i e in
          elim (Bool-cases (k == j)) [
            | inl d ↦
                let same = ==-eq_of_true k j d in
                rw (e, d)
                  (get_elem?-set_ne once i k (get_or xs j 0) (λ q. ne (sym q))
                    ∙ rw same (
                        get_elem?-set xs j (get_or xs i 0) in_list
                        ∙ get_or-get_elem? xs i (omega arith)))
            | inr d ↦
                rw (e, d)
                  (get_elem?-set_ne once i k (get_or xs j 0) (λ q. ne (sym q))
                    ∙ get_elem?-set_ne xs j k (get_or xs i 0) (λ q. ==-ne_of_false k j d (sym q)))
          ]
    ]

pub length-swap_ends : (f i j : ℕ) (items : List ℕ) → length (swap_ends f i j items) ≡ length items
unfolding swap_ends
length-swap_ends zero i j items = refl
length-swap_ends (suc f) i j items =
    let once = set items j (get_or items i 0) in
    let swapped = set once i (get_or items j 0) in
    let rest = length-swap_ends f (i + 1) (j - 1) swapped in
    elim (Bool-cases (ltb i j)) [
      | inl h ↦
          rw (swap_ends, h)
            (rest ∙ length-set once i (get_or items j 0) ∙ length-set items j (get_or items i 0))
      | inr h ↦ rw (swap_ends, h) refl
    ]

-- After a swap, the rest of the loop flips what is inside.
swap_index-flip : (i j k : ℕ) → i < j → swap_index i j (flip (i + 1) (j - 1) k) ≡ flip i j k
swap_index-flip i j k lt = ground arith

flip-small : (i j k : ℕ) → j ≤ i → flip i j k ≡ k
flip-small i j k le = ground arith

swap_ends-get :
    (f i j k : ℕ) (xs : List ℕ)
    → j < length xs
    → j ≤ i + f
    → get_elem? (swap_ends f i j xs) k ≡ get_elem? xs (flip i j k)
unfolding swap_ends
swap_ends-get zero i j k xs in_list le = ap (get_elem? xs) (sym (flip-small i j k (omega arith)))
swap_ends-get (suc f) i j k xs in_list le =
    let swapped = set (set xs j (get_or xs i 0)) i (get_or xs j 0) in
    let n : length swapped ≡ length xs =
      length-set (set xs j (get_or xs i 0)) i (get_or xs j 0) ∙ length-set xs j (get_or xs i 0) in
    let rest = swap_ends-get f (i + 1) (j - 1) k swapped (omega (arith, n)) (omega arith) in
    elim (Bool-cases (ltb i j)) [
      | inl h ↦
          let lt : i < j = ground (arith, h) in
          rw (swap_ends, h)
            (rest
              ∙ get-swapped xs i j (flip (i + 1) (j - 1) k) lt in_list
              ∙ ap (get_elem? xs) (swap_index-flip i j k lt))
      | inr h ↦
          let ge : j ≤ i = ground (arith, h) in
          rw (swap_ends, h) (ap (get_elem? xs) (sym (flip-small i j k ge)))
    ]

-- After `reverse!` the item at every index is the one that stood as far from the other end; the length
-- and the size of the block are the same.
pub reverse_bang-lem :
    (self size k : ℕ) (items : List ℕ)
    → k < length items
    → (items' : List ℕ) × (reverse_bang self size items ≡ edited size items' (some self))
      × (length items' ≡ length items)
      × (get_elem? items' k ≡ get_elem? items (length items - 1 - k))
unfolding reverse_bang
reverse_bang-lem self size k items lt =
    let n = length items in
    let f : flip 0 (n - 1) k ≡ n - 1 - k = ground arith in
    (
      swap_ends n 0 (n - 1) items,
      refl,
      length-swap_ends n 0 (n - 1) items,
      swap_ends-get n 0 (n - 1) k items (omega arith) (omega arith) ∙ ap (get_elem? items) f,
    )
