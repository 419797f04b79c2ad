-- ===== src/Inherit/Order.antt =====
-- `proto_list` and `has_proto` agree, and what the list holds.
use prothon.Base.{
  ==-ne_of_false, ℕ, ◌≡◌, refl, sym, ◌≢◌, ◌⊎◌, inl, inr, Bool, true, false, ◌||◌, List, [], ◌∷◌,
  ◌++◌, arith, ◌==◌, if◌then◌else◌, Bool-cases, ==_refl, ==-eq_of_true,
}
use prothon.Clist.{count}
use prothon.Inherit.{
  any_refused, walked, denied, View, elem, parents, keep_last, proto_list, Answer, inherits,
  inherits_not, circular, search_protos, is_single, has_proto, max_objects,
}
use prothon.Inherit.Walk.{
  direct, Inherits, elem-append, search_protos-inherits, search_protos-inherits_not,
}
use prothon.Inherit.Search.{is_hit, is_plain, walk-suc, search_protos-walk}
use prothon.Inherit.Last.{elem-keep_last, count-keep_last}
use prothon.Inherit.Listed.{
  is_single-elem, search_protos-direct, is_walked, refused_list, proto_list-cases,
}

pub Answers : (v : View) (o t : ℕ) → Answer → Type 0
Answers v o t inherits = Inherits v o t
Answers v o t inherits_not = ¬ Inherits v o t
Answers v o t circular = is_walked (proto_list v o) ≡ false
Answers v o t denied = is_walked (proto_list v o) ≡ false

hit-cases :
    (a : Answer) → is_plain a ≡ true → a ≡ (if is_hit a || false then inherits else inherits_not)
hit-cases inherits h = refl
hit-cases inherits_not h = refl
hit-cases circular h = ground (arith, h)
hit-cases denied h = ground (arith, h)

found-cases : (b : Bool) → inherits ≡ (if b || (true || false) then inherits else inherits_not)
found-cases true = refl
found-cases false = refl

==_sym : (a b : ℕ) → (a == b) ≡ true → (b == a) ≡ true
==_sym a b h = ground arith

==_sym_false : (a b : ℕ) → (a == b) ≡ false → (b == a) ≡ false
==_sym_false a b h = ground arith

module _ (v : View) (o t : ℕ) where
  search-Answers :
      (a : Answer)
      → search_protos max_objects v t (o ∷ []) ≡ a
      → o ≢ t
      → t ≢ v.object
      → Answers v o t a
  unfolding Answers Inherits
  search-Answers inherits e ne ne' =
      let (x, m, a) = search_protos-inherits v t max_objects (o ∷ []) e in
      inr (inr (rw (==-eq_of_true o x (ground (arith, m))) a))
  search-Answers inherits_not e ne ne' = λ h. elim h [
    | inl i ↦ ne i
    | inr (inl i) ↦ ne' i
    | inr (inr a) ↦ search_protos-inherits_not v t max_objects (o ∷ []) o e (rw (==_refl o) refl) a
  ]
  search-Answers circular e ne ne' = elim (proto_list-cases v o) [
    | inl n ↦ n
    | inr (xs, w, d, n) ↦
        let plain = (search_protos-walk v t max_objects (o ∷ []) xs w).1 in
        ground (arith, rw e at plain)
  ]
  search-Answers denied e ne ne' = elim (proto_list-cases v o) [
    | inl n ↦ n
    | inr (xs, w, d, n) ↦
        let plain = (search_protos-walk v t max_objects (o ∷ []) xs w).1 in
        ground (arith, rw e at plain)
  ]

  -- `has_proto` answers TRUE where the second object is the first one, is OBJ(OBJECT) or is reached
  -- from the first one by prototypes, and FALSE where it is none of these. It raises an exception
  -- only where `proto_list` of the first object does so.
  pub has_proto-lem : (single : Bool) → Answers v o t (has_proto single v o t)
  unfolding has_proto Answers Inherits
  has_proto-lem single = elim (Bool-cases (o == t)) [
    | inl e ↦ rw e (inl (==-eq_of_true o t e))
    | inr e ↦ elim (Bool-cases (v.refuses o)) [
      | inl d ↦ rw (e, d) (refused_list v o d)
      | inr d ↦ elim (Bool-cases (t == v.object)) [
        | inl i ↦ elim (Bool-cases (is_single single v o t)) [
          | inl s ↦ rw (e, d, s) (inr (inl (==-eq_of_true t v.object i)))
          | inr s ↦ rw (e, d, s, i) (inr (inl (==-eq_of_true t v.object i)))
        ]
        | inr i ↦ elim (Bool-cases (is_single single v o t)) [
          | inl s ↦ rw (e, d, s) (inr (inr (direct (is_single-elem single v o t i s))))
          | inr s ↦
              rw (e, d, s, i)
                (search-Answers (search_protos max_objects v t (o ∷ [])) refl (==-ne_of_false o t e)
                  (==-ne_of_false t v.object i))
        ]
      ]
    ]
  ]

  has_proto-object :
      (single : Bool)
      → v.refuses o ≡ false
      → (t == v.object) ≡ true
      → has_proto single v o t ≡ inherits
  unfolding has_proto
  has_proto-object single d j = elim (Bool-cases (o == t)) [
    | inl e ↦ rw e refl
    | inr e ↦ elim (Bool-cases (is_single single v o t)) [
      | inl s ↦ rw (e, d, s) refl
      | inr s ↦ rw (e, d, s, j) refl
    ]
  ]

  has_proto-search :
      (single : Bool)
      → v.refuses o ≡ false
      → any_refused v (parents v o) ≡ false
      → (o == t) ≡ false
      → (t == v.object) ≡ false
      → has_proto single v o t ≡ search_protos max_objects v t (o ∷ [])
  unfolding has_proto
  has_proto-search single d free e i = elim (Bool-cases (is_single single v o t)) [
    | inl s ↦
        rw (e, d, s, search_protos-direct v o t [] 100 free (is_single-elem single v o t i s)) refl
    | inr s ↦ rw (e, d, s, i) refl
  ]

  -- Where `proto_list` gives a list for an object, `has_proto` answers TRUE for exactly the objects of
  -- that list, and FALSE, without an exception, for all others.
  pub has_proto-proto_list :
      (single : Bool) (xs : List ℕ)
      → proto_list v o ≡ walked xs
      → has_proto single v o t ≡ (if elem t xs then inherits else inherits_not)
  unfolding has_proto
  has_proto-proto_list single xs h = elim (proto_list-cases v o) [
    | inl n ↦ ground (arith, rw h at n)
    | inr (ys, w, d, n) ↦
        let free = (walk-suc 100 v o [] ys w).0 in
        let e : keep_last (ys ++ v.object ∷ []) ≡ xs = ground (arith, n, h) in
        let kept = elem-keep_last t (ys ++ v.object ∷ []) in
        let split = elem-append t ys (v.object ∷ []) in
        let agree = search_protos-walk v t max_objects (o ∷ []) ys w in
        rw (sym e, kept, split, agree.0)
          (elim (Bool-cases (o == t)) [
            | inl i ↦ rw i refl
            | inr i ↦ elim (Bool-cases (t == v.object)) [
              | inl j ↦
                  let k : (v.object == t) ≡ true = ==_sym t v.object j in
                  rw (has_proto-object single d j, i, k)
                    (found-cases (is_hit (search_protos max_objects v t (o ∷ []))))
              | inr j ↦
                  let k : (v.object == t) ≡ false = ==_sym_false t v.object j in
                  rw (has_proto-search single d free i j, i, k)
                    (hit-cases (search_protos max_objects v t (o ∷ [])) agree.1)
            ]
          ])
  ]

  -- The list of `proto_list` holds the object, OBJ(OBJECT) and every object that is reached by
  -- prototypes once, and no other object.
  pub proto_list-once :
      (xs : List ℕ)
      → proto_list v o ≡ walked xs
      → ((count t xs ≡ 1) × Inherits v o t) ⊎ ((count t xs ≡ 0) × (¬ Inherits v o t))
  unfolding Answers
  proto_list-once xs h =
      let agree = has_proto-proto_list false xs h in
      let answer = has_proto-lem false in
      elim (proto_list-cases v o) [
        | inl n ↦ ground (arith, rw h at n)
        | inr (ys, w, d, n) ↦
            let e : keep_last (ys ++ v.object ∷ []) ≡ xs = ground (arith, n, h) in
            let once = count-keep_last t (ys ++ v.object ∷ []) in
            let kept = elem-keep_last t (ys ++ v.object ∷ []) in
            elim (Bool-cases (elem t (ys ++ v.object ∷ []))) [
              | inl m ↦ inl (rw (sym e, once, m) refl, rw (agree, sym e, kept, m) at answer)
              | inr m ↦ inr (rw (sym e, once, m) refl, rw (agree, sym e, kept, m) at answer)
            ]
      ]
