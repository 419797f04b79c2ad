-- ===== src/Inherit/Walk.antt =====
-- The walk over the prototypes, as the relation that it decides.
use prothon.Base.{
  ℕ, zero, suc, ◌≡◌, refl, sym, ◌∙◌, ◌⊎◌, inl, inr, Bool, true, false, ◌||◌, none, some, List, [],
  ◌∷◌, ◌++◌, arith, ◌==◌, Bool-cases, ==_refl, ==-eq_of_true,
}
use prothon.Inherit.{
  View, elem, parents, any_refused, visit, Answer, inherits, inherits_not, circular, denied,
  search_protos,
}

-- `t` is a prototype of `x`, of one of its prototypes, and so on. OBJ(OBJECT) is not counted.
pub data IsAncestor (v : View) (t : ℕ) : ℕ → Type 0 where
  direct : {x : ℕ} → elem t (parents v x) ≡ true → IsAncestor v t x
  onward : {x : ℕ} (p : ℕ) → elem p (parents v x) ≡ true → IsAncestor v t p → IsAncestor v t x

-- What `has_proto(x, t)` asks.
unfoldable pub Inherits : View → (x t : ℕ) → Type 0
Inherits v x t = (x ≡ t) ⊎ ((t ≡ v.object) ⊎ IsAncestor v t x)

pub elem-append : (t : ℕ) (xs ys : List ℕ) → elem t (xs ++ ys) ≡ (elem t xs || elem t ys)
elem-append t [] ys = refl
elem-append t (x ∷ xs) ys = elim (Bool-cases (x == t)) [
  | inl h ↦ rw h refl
  | inr h ↦ rw h (elem-append t xs ys)
]

pub ||-left : {a : Bool} (b : Bool) → a ≡ true → (a || b) ≡ true
||-left b h = rw h refl

pub ||-right : (a : Bool) {b : Bool} → b ≡ true → (a || b) ≡ true
||-right true h = refl
||-right false h = h

pub ||-cases : (a b : Bool) → (a || b) ≡ true → (a ≡ true) ⊎ (b ≡ true)
||-cases true b h = inl refl
||-cases false b h = inr h

-- What the inner loop of `has_proto` does: it finds `t`, a lock is refused, or neither.
abbrev pub Visits : (v : View) (t : ℕ) (ps : List ℕ) → Type 0
Visits v t ps =
    ((visit v t ps ≡ some inherits) × (elem t ps ≡ true))
    ⊎ (((visit v t ps ≡ some denied) × (any_refused v ps ≡ true))
        ⊎ ((visit v t ps ≡ none) × (elem t ps ≡ false) × (any_refused v ps ≡ false)))

pub visit-cases : (v : View) (t : ℕ) (ps : List ℕ) → Visits v t ps
unfolding visit any_refused
visit-cases v t [] = inr (inr (refl, refl, refl))
visit-cases v t (p ∷ ps) = elim (Bool-cases (p == t)) [
  | inl e ↦ inl (rw (visit, e) refl, rw e refl)
  | inr e ↦ elim (Bool-cases (v.refuses p)) [
    | inl d ↦ inr (inl (rw (visit, e, d) refl, rw (any_refused, d) refl))
    | inr d ↦ elim (visit-cases v t ps) [
      | inl (h, m) ↦ inl (rw (visit, e, d, h) refl, rw (e, m) refl)
      | inr (inl (h, m)) ↦ inr (inl (rw (visit, e, d, h) refl, rw (any_refused, d, m) refl))
      | inr (inr (h, m, n)) ↦
          inr (inr (rw (visit, e, d, h) refl, rw (e, m) refl, rw (any_refused, d, n) refl))
    ]
  ]
]

module _ (v : View) (t : ℕ) where
  pub search_protos-some :
      (r x : ℕ) (q : List ℕ) (a : Answer)
      → visit v t (parents v x) ≡ some a
      → search_protos r v t (x ∷ q) ≡ a
  unfolding search_protos
  search_protos-some zero x q a h = rw (search_protos, h) refl
  search_protos-some (suc r) x q a h = rw (search_protos, h) refl

  pub search_protos-none :
      (r x : ℕ) (q : List ℕ)
      → visit v t (parents v x) ≡ none
      → search_protos (suc r) v t (x ∷ q) ≡ search_protos r v t (q ++ parents v x)
  unfolding search_protos
  search_protos-none r x q h = rw (search_protos, h) refl

  pub search_protos-end :
      (x : ℕ) (q : List ℕ)
      → visit v t (parents v x) ≡ none
      → search_protos zero v t (x ∷ q) ≡ circular
  unfolding search_protos
  search_protos-end x q h = rw (search_protos, h) refl

  -- A `true` answer is an ancestor of some object of the queue.
  pub search_protos-inherits :
      (r : ℕ) (q : List ℕ)
      → search_protos r v t q ≡ inherits
      → (x : ℕ) × (elem x q ≡ true) × IsAncestor v t x
  unfolding search_protos
  search_protos-inherits r [] h = ground (arith, h)
  search_protos-inherits zero (x ∷ q) h = elim (visit-cases v t (parents v x)) [
    | inl (e, m) ↦ (x, ||-left (elem x q) (==_refl x), direct m)
    | inr (inl (e, m)) ↦ ground (arith, h, search_protos-some zero x q denied e)
    | inr (inr (e, m, n)) ↦ ground (arith, h, search_protos-end x q e)
  ]
  search_protos-inherits (suc r) (x ∷ q) h = elim (visit-cases v t (parents v x)) [
    | inl (e, m) ↦ (x, ||-left (elem x q) (==_refl x), direct m)
    | inr (inl (e, m)) ↦ ground (arith, h, search_protos-some (suc r) x q denied e)
    | inr (inr (e, m, n)) ↦
        let (y, k, a) =
          search_protos-inherits r (q ++ parents v x) (sym (search_protos-none r x q e) ∙ h) in
        elim (||-cases (elem y q) (elem y (parents v x))
          (rw (elem-append y q (parents v x)) at k)) [
            | inl i ↦ (y, ||-right (x == y) i, a)
            | inr i ↦ (x, ||-left (elem x q) (==_refl x), onward y i a)
          ]
  ]

  -- A `false` answer leaves no object of the queue with that ancestor.
  pub search_protos-inherits_not :
      (r : ℕ) (q : List ℕ) (x : ℕ)
      → search_protos r v t q ≡ inherits_not
      → elem x q ≡ true
      → IsAncestor v t x
      → ⊥
  unfolding search_protos
  search_protos-inherits_not r [] x h m a = ground (arith, m)
  search_protos-inherits_not zero (y ∷ q) x h m a = elim (visit-cases v t (parents v y)) [
    | inl (e, k) ↦ ground (arith, h, search_protos-some zero y q inherits e)
    | inr (inl (e, k)) ↦ ground (arith, h, search_protos-some zero y q denied e)
    | inr (inr (e, k, n)) ↦ ground (arith, h, search_protos-end y q e)
  ]
  search_protos-inherits_not (suc r) (y ∷ q) x h m a = elim (visit-cases v t (parents v y)) [
    | inl (e, k) ↦ ground (arith, h, search_protos-some (suc r) y q inherits e)
    | inr (inl (e, k)) ↦ ground (arith, h, search_protos-some (suc r) y q denied e)
    | inr (inr (e, k, n)) ↦
        let rest : (z : ℕ) → (elem z q || elem z (parents v y)) ≡ true → IsAncestor v t z → ⊥ =
          λ z i b.
            search_protos-inherits_not r (q ++ parents v y) z (sym (search_protos-none r y q e) ∙ h)
              (rw (elem-append z q (parents v y)) i) b in
        elim (||-cases (y == x) (elem x q) m) [
          | inl i ↦ head_not y k rest (rw (==-eq_of_true y x i) a)
          | inr i ↦ rest x (||-left (elem x (parents v y)) i) a
        ]
  ]
    where
      head_not :
          (y : ℕ)
          → elem t (parents v y) ≡ false
          → ((z : ℕ) → (elem z q || elem z (parents v y)) ≡ true → IsAncestor v t z → ⊥)
          → IsAncestor v t y
          → ⊥
      head_not y e rest (direct d) = ground (arith, e, d)
      head_not y e rest (onward p i b) = rest p (||-right (elem p q) i) b
