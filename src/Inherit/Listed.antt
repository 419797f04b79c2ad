-- ===== src/Inherit/Listed.antt =====
-- The list of `proto_list` is that of its walk, and the prototypes that `has_proto` tests first.
use prothon.Base.{
  ℕ, suc, ◌≡◌, refl, ap, ◌∙◌, ◌⊎◌, inl, inr, Bool, true, false, List, [], ◌∷◌, ◌++◌, arith, ◌==◌,
  Bool-cases, ==_refl, ==-eq_of_true,
}
use prothon.Inherit.{
  any_refused, Walked, walked, lock_refused, circular_list, to_list, View, elem, parents, walk,
  keep_last, proto_list, inherits, search_protos, is_single, others, max_objects,
}
use prothon.Inherit.Walk.{visit-cases, search_protos-some}

pub elem-others :
    (object t : ℕ) (ps : List ℕ)
    → (t == object) ≡ false
    → elem t ps ≡ true
    → elem t (others object ps) ≡ true
unfolding others
elem-others object t [] ne h = h
elem-others object t (p ∷ ps) ne h = elim (Bool-cases (p == t)) [
  | inl e ↦ rw (==-eq_of_true p t e, ne, ==_refl t) refl
  | inr e ↦ let rest = elem-others object t ps ne (rw e at h) in ground (arith, rest, e)
]

pub is_single-elem :
    (single : Bool) (v : View) (o t : ℕ)
    → (t == v.object) ≡ false
    → is_single single v o t ≡ true
    → elem t (parents v o) ≡ true
is_single-elem false v o t ne h = ground (arith, h)
is_single-elem true v o t ne h = elem-others v.object t (v.protos o) ne h

-- A prototype of the first object is found at once.
pub search_protos-direct :
    (v : View) (o t : ℕ) (q : List ℕ) (r : ℕ)
    → any_refused v (parents v o) ≡ false
    → elem t (parents v o) ≡ true
    → search_protos (suc r) v t (o ∷ q) ≡ inherits
search_protos-direct v o t q r free h = elim (visit-cases v t (parents v o)) [
  | inl (e, m) ↦ search_protos-some v t (suc r) o q inherits e
  | inr (inl (e, m)) ↦ ground (arith, free, m)
  | inr (inr (e, m, n)) ↦ ground (arith, h, m)
]

abbrev pub is_walked : Walked → Bool
is_walked (walked xs) = true
is_walked lock_refused = false
is_walked circular_list = false

module _ (v : View) (o : ℕ) where
  proto_list-walk : v.refuses o ≡ false → proto_list v o ≡ to_list v (walk max_objects v (o ∷ []))
  unfolding proto_list
  proto_list-walk d = rw (proto_list, d) refl

  pub refused_list : v.refuses o ≡ true → is_walked (proto_list v o) ≡ false
  unfolding proto_list
  refused_list d = rw (proto_list, d) refl

  to_list-walked :
      (xs : List ℕ)
      → v.refuses v.object ≡ false
      → to_list v (walked xs) ≡ walked (keep_last (xs ++ v.object ∷ []))
  unfolding to_list
  to_list-walked xs c = rw (to_list, c) refl

  -- The list of `proto_list` is that of the walk, where no lock is refused.
  pub proto_list-cases :
      (is_walked (proto_list v o) ≡ false)
      ⊎ ((xs : List ℕ) × (walk max_objects v (o ∷ []) ≡ walked xs)
          × (v.refuses o ≡ false)
          × (proto_list v o ≡ walked (keep_last (xs ++ v.object ∷ []))))
  unfolding to_list
  proto_list-cases = elim (Bool-cases (v.refuses o)) [
    | inl d ↦ inl (refused_list d)
    | inr d ↦ elim (Bool-cases (v.refuses v.object)) [
      | inl c ↦ inl (ap is_walked (proto_list-walk d) ∙ not_walked c (walk max_objects v (o ∷ [])))
      | inr c ↦ by_walk d c (walk max_objects v (o ∷ [])) refl
    ]
  ]
    where
      not_walked : v.refuses v.object ≡ true → (w : Walked) → is_walked (to_list v w) ≡ false
      not_walked c (walked xs) = rw (to_list, c) refl
      not_walked c lock_refused = refl
      not_walked c circular_list = refl

      by_walk :
          v.refuses o ≡ false
          → v.refuses v.object ≡ false
          → (w : Walked) → walk max_objects v (o ∷ []) ≡ w
          → (is_walked (proto_list v o) ≡ false)
            ⊎ ((xs : List ℕ) × (walk max_objects v (o ∷ []) ≡ walked xs)
                × (v.refuses o ≡ false)
                × (proto_list v o ≡ walked (keep_last (xs ++ v.object ∷ []))))
      by_walk d c (walked xs) e =
          inr (xs, e, d, proto_list-walk d ∙ ap (to_list v) e ∙ to_list-walked xs c)
      by_walk d c lock_refused e = inl (ap is_walked (proto_list-walk d ∙ ap (to_list v) e))
      by_walk d c circular_list e = inl (ap is_walked (proto_list-walk d ∙ ap (to_list v) e))
