-- ===== src/Inherit/Search.antt =====
-- The loops of `has_proto` and of `proto_list` walk the same objects.
use prothon.Base.{
  ℕ, zero, suc, ◌≡◌, refl, ◌⊎◌, inl, inr, Bool, true, false, ◌||◌, List, [], ◌∷◌, ◌++◌, arith, ◌==◌,
  Bool-cases, ==_refl,
}
use prothon.Inherit.{
  any_refused, Walked, walked, lock_refused, circular_list, walked_after, denied, View, elem,
  parents, walk, Answer, inherits, inherits_not, circular, search_protos,
}
use prothon.Inherit.Walk.{
  visit-cases, search_protos-some, search_protos-none, ||-right, ||-cases, IsAncestor, onward,
  direct, elem-append,
}

abbrev pub is_hit : Answer → Bool
is_hit inherits = true
is_hit inherits_not = false
is_hit circular = false
is_hit denied = false

-- An answer without an exception.
abbrev pub is_plain : Answer → Bool
is_plain inherits = true
is_plain inherits_not = true
is_plain circular = false
is_plain denied = false

-- What the search answers where the walk ends with `xs`.
abbrev Agrees : View → (t r : ℕ) → (q xs : List ℕ) → Type 0
Agrees v t r q xs =
    (elem t xs ≡ (elem t q || is_hit (search_protos r v t q)))
    × (is_plain (search_protos r v t q) ≡ true)

walk-zero : (v : View) (x : ℕ) (q xs : List ℕ) → walk zero v (x ∷ q) ≡ walked xs → ⊥
unfolding walk
walk-zero v x q xs e = elim (Bool-cases (any_refused v (parents v x))) [
  | inl h ↦ ground (arith, rw (walk, h) at e)
  | inr h ↦ ground (arith, rw (walk, h) at e)
]

walked_after-inv :
    (x : ℕ) (w : Walked) (xs : List ℕ)
    → walked_after x w ≡ walked xs
    → (ys : List ℕ) × (w ≡ walked ys) × (xs ≡ x ∷ ys)
walked_after-inv x (walked ys) xs e = (ys, refl, ground (arith, e))
walked_after-inv x lock_refused xs e = ground (arith, e)
walked_after-inv x circular_list xs e = ground (arith, e)

pub walk-suc :
    (r : ℕ) (v : View) (x : ℕ) (q xs : List ℕ)
    → walk (suc r) v (x ∷ q) ≡ walked xs
    → (any_refused v (parents v x) ≡ false)
      × ((ys : List ℕ) × (walk r v (q ++ parents v x) ≡ walked ys) × (xs ≡ x ∷ ys))
unfolding walk
walk-suc r v x q xs e = elim (Bool-cases (any_refused v (parents v x))) [
  | inl h ↦ ground (arith, rw (walk, h) at e)
  | inr h ↦ (h, walked_after-inv x (walk r v (q ++ parents v x)) xs (rw (walk, h) at e))
]

module _ (v : View) (t : ℕ) where
  walk-starts :
      (r : ℕ) (q xs : List ℕ) → walk r v q ≡ walked xs → elem t q ≡ true → elem t xs ≡ true
  unfolding walk
  walk-starts r [] xs e m = ground (arith, m)
  walk-starts zero (x ∷ q) xs e m = absurd (walk-zero v x q xs e)
  walk-starts (suc r) (x ∷ q) xs e m =
      let (free, (ys, n, same)) = walk-suc r v x q xs e in
      let next = walk-starts r (q ++ parents v x) ys n in
      let split = elem-append t q (parents v x) in rw same (ground (arith, next, split, m))

  pub search_protos-walk : (r : ℕ) (q xs : List ℕ) → walk r v q ≡ walked xs → Agrees v t r q xs
  unfolding walk search_protos
  search_protos-walk r [] xs e = (ground (arith, e), refl)
  search_protos-walk zero (x ∷ q) xs e = absurd (walk-zero v x q xs e)
  search_protos-walk (suc r) (x ∷ q) xs e =
      let (free, (ys, n, same)) = walk-suc r v x q xs e in
      let next = search_protos-walk r (q ++ parents v x) ys n in
      let split = elem-append t q (parents v x) in
      elim (visit-cases v t (parents v x)) [
        | inl (h, m) ↦
            let found = search_protos-some v t (suc r) x q inherits h in
            let begun = walk-starts r (q ++ parents v x) ys n (rw split (||-right (elem t q) m)) in
            (rw (same, found, begun) (or_true (x == t) (elem t q)), rw found refl)
        | inr (inl (h, m)) ↦ ground (arith, free, m)
        | inr (inr (h, m, k)) ↦
            let rest = search_protos-none v t r x q h in
            (rw (same, rest, next.0, split, m) (or_assoc (x == t) (elem t q) _), rw rest next.1)
      ]
    where
      or_true : (a b : Bool) → (a || true) ≡ ((a || b) || true)
      or_true true b = refl
      or_true false true = refl
      or_true false false = refl

      or_assoc : (a b c : Bool) → (a || ((b || false) || c)) ≡ ((a || b) || c)
      or_assoc true b c = refl
      or_assoc false true c = refl
      or_assoc false false c = refl

pub any_refused-elem :
    (v : View) (ps : List ℕ)
    → any_refused v ps ≡ true
    → (z : ℕ) × (elem z ps ≡ true) × (v.refuses z ≡ true)
unfolding any_refused
any_refused-elem v [] h = ground (arith, h)
any_refused-elem v (p ∷ ps) h = elim (||-cases (v.refuses p) (any_refused v ps) h) [
  | inl d ↦ (p, rw (==_refl p) refl, d)
  | inr d ↦ let (z, m, e) = any_refused-elem v ps d in (z, ||-right (p == z) m, e)
]

lock_refused-zero :
    (v : View) (x : ℕ) (q : List ℕ)
    → walk zero v (x ∷ q) ≡ lock_refused
    → any_refused v (parents v x) ≡ true
unfolding walk
lock_refused-zero v x q e = elim (Bool-cases (any_refused v (parents v x))) [
  | inl h ↦ h
  | inr h ↦ ground (arith, rw (walk, h) at e)
]

lock_refused-suc :
    (r : ℕ) (v : View) (x : ℕ) (q : List ℕ)
    → walk (suc r) v (x ∷ q) ≡ lock_refused
    → (any_refused v (parents v x) ≡ true) ⊎ (walk r v (q ++ parents v x) ≡ lock_refused)
unfolding walk
lock_refused-suc r v x q e = elim (Bool-cases (any_refused v (parents v x))) [
  | inl h ↦ inl h
  | inr h ↦ inr (later (walk r v (q ++ parents v x)) (rw (walk, h) at e))
]
  where
    later : (w : Walked) → walked_after x w ≡ lock_refused → w ≡ lock_refused
    later (walked ys) e = ground (arith, e)
    later lock_refused e = refl
    later circular_list e = ground (arith, e)

-- A walk that a lock ends has met an ancestor that refuses it.
pub walk-refused :
    (v : View) (r : ℕ) (q : List ℕ)
    → walk r v q ≡ lock_refused
    → (x : ℕ) × (z : ℕ) × (elem x q ≡ true) × IsAncestor v z x × (v.refuses z ≡ true)
unfolding walk
walk-refused v r [] e = ground (arith, e)
walk-refused v zero (x ∷ q) e =
    let (z, m, d) = any_refused-elem v (parents v x) (lock_refused-zero v x q e) in
    (x, z, rw (==_refl x) refl, direct m, d)
walk-refused v (suc r) (x ∷ q) e = elim (lock_refused-suc r v x q e) [
  | inl h ↦
      let (z, m, d) = any_refused-elem v (parents v x) h in (x, z, rw (==_refl x) refl, direct m, d)
  | inr h ↦
      let (y, z, m, a, d) = walk-refused v r (q ++ parents v x) h in
      elim (||-cases (elem y q) (elem y (parents v x)) (rw (elem-append y q (parents v x)) at m)) [
        | inl i ↦ (y, z, ||-right (x == y) i, a, d)
        | inr i ↦ (x, z, rw (==_refl x) refl, onward y i a, d)
      ]
]
