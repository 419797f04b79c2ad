-- ===== src/Inherit/Climb.antt =====
-- The loop of `get_proto_attr` along the objects with one prototype.
use mathlib.Core.Path.{subst}
use prothon.Base.{
  ℕ, zero, suc, ◌<◌, ◌≡◌, refl, sym, ◌∙◌, ◌≢◌, inl, inr, true, false, none, some, List, [], ◌∷◌,
  arith, ◌==◌, Bool-cases, Option-cases, ==_refl, ==-eq_of_true, ==-ne_of_false,
}
use prothon.Inherit.{
  no_access, View, elem, others, parents, Lookup, found, absent, circular_protos, self_proto,
  search_all, climb,
}
use prothon.Inherit.Walk.{IsAncestor, direct, onward, Inherits}
use prothon.Inherit.Listed.{elem-others}
use prothon.Inherit.Attribute.{IsAnswer, past_super_zero, search_all-lem}

module _ (v : View) (key : ℕ) where
  elem-parents_single : (x p y : ℕ) → v.protos x ≡ p ∷ [] → elem y (parents v x) ≡ true → p ≡ y
  unfolding others
  elem-parents_single x p y e m = elim (Bool-cases (p == v.object)) [
    | inl i ↦ ground (arith, rw (e, i) at m)
    | inr i ↦ ground (arith, rw (e, i) at m)
  ]

  elem-single_parents :
      (x p : ℕ) → v.protos x ≡ p ∷ [] → (p == v.object) ≡ false → elem p (parents v x) ≡ true
  elem-single_parents x p e i = rw e (elem-others v.object p (p ∷ []) i (rw (==_refl p) refl))

  not-IsAncestor_root : (y : ℕ) → parents v v.object ≡ [] → ¬ IsAncestor v y v.object
  not-IsAncestor_root y root (direct d) = ground (arith, rw root at d)
  not-IsAncestor_root y root (onward z d c) = ground (arith, rw root at d)

  Inherits-up :
      (x p y : ℕ) → parents v v.object ≡ [] → v.protos x ≡ p ∷ [] → Inherits v p y → Inherits v x y
  unfolding Inherits
  Inherits-up x p y root e i = elim (Bool-cases (p == v.object)) [
    | inl j ↦ inr (inl (top j i))
    | inr j ↦ elim i [
      | inl k ↦ inr (inr (rw (sym k) (direct (elem-single_parents x p e j))))
      | inr (inl k) ↦ inr (inl k)
      | inr (inr c) ↦ inr (inr (onward p (elem-single_parents x p e j) c))
    ]
  ]
    where
      top : (p == v.object) ≡ true → Inherits v p y → y ≡ v.object
      top j (inl k) = sym k ∙ ==-eq_of_true p v.object j
      top j (inr (inl k)) = k
      top j (inr (inr c)) = absurd (
          not-IsAncestor_root y root (subst (λ z. IsAncestor v y z) (==-eq_of_true p v.object j) c))

  climb-single :
      (x p : ℕ) (a : Lookup)
      → parents v v.object ≡ []
      → v.protos x ≡ p ∷ []
      → v.attr x key ≡ none
      → IsAnswer v p key a
      → IsAnswer v x key a
  unfolding IsAnswer Inherits
  climb-single x p (found r y) root e n (h, i) = (h, Inherits-up x p y root e i)
  climb-single x p absent root e n h = λ y i. elim i [
    | inl j ↦ rw (sym j) n
    | inr (inl j) ↦ h y (inr (inl j))
    | inr (inr (direct d)) ↦ h y (inl (elem-parents_single x p y e d))
    | inr (inr (onward z d c)) ↦ h y (inr (inr (rw (elem-parents_single x p z e d) c)))
  ]
  climb-single x p circular_protos root e n (z, i, w) = (z, Inherits-up x p z root e i, w)
  climb-single x p self_proto root e n (z, i, w) = (z, Inherits-up x p z root e i, w)
  climb-single x p no_access root e n (z, i, w) = (z, Inherits-up x p z root e i, w)

  -- `rank` falls along the objects with one prototype.
  unfoldable pub IsRanked : (ℕ → ℕ) → Type 0
  IsRanked rank = (x p : ℕ) → v.protos x ≡ p ∷ [] → x ≢ v.object → rank p < rank x

  rank-ne : (rank : ℕ → ℕ) (x p : ℕ) → rank p < rank x → (x == p) ≡ false
  rank-ne rank x p h = elim (Bool-cases (x == p)) [
    | inl e ↦ absurd (lt_irrefl (subst (λ z. rank p < rank z) (==-eq_of_true x p e) h))
    | inr e ↦ e
  ]
    where
      lt_irrefl : {a : ℕ} → a < a → ⊥
      lt_irrefl h = omega arith

  -- Where the chains of single prototypes end, which a rank of the objects shows, and OBJ(OBJECT) has
  -- no other prototype, `get_proto_attr` without a `super_obj` returns. A value that it finds is an own attribute of the
  -- object, of one that is reached from it by prototypes or of OBJ(OBJECT); it finds none only if none
  -- of these has the attribute; and it raises INTERNAL_EXC only where the walk from one of these meets
  -- more than 100 objects, or where one of these is its own only prototype; the exception of a lock only
  -- where one of these refuses it.
  pub climb-lem :
      (rank : ℕ → ℕ)
      → IsRanked rank
      → parents v v.object ≡ []
      → (f x : ℕ) → rank x < f
      → (a : Lookup) × (climb f v x key 0 ≡ some a) × IsAnswer v x key a
  unfolding climb IsAnswer Inherits IsRanked
  climb-lem rank ranked root zero x lt = elim lt [ ]
  climb-lem rank ranked root (suc f) x lt = elim (Bool-cases (v.refuses x)) [
    | inl d ↦ (no_access, rw (climb, d) refl, (x, inl refl, d))
    | inr d ↦ elim (Option-cases (v.attr x key)) [
      | inr (r, e) ↦ (found r x, rw (climb, d, e) refl, (e, inl refl))
      | inl n ↦ elim (Bool-cases (x == v.object)) [
        | inl i ↦
            let e = ==-eq_of_true x v.object i in
            (
              absent,
              rw (climb, d, n, i) refl,
              λ y h. root_absent y (rw (sym e) n) (subst (λ z. Inherits v z y) e h),
            )
        | inr i ↦ by_protos (v.protos x) refl n d i (climb-lem rank ranked root f)
      ]
    ]
  ]
    where
      root_absent :
          (y : ℕ) → v.attr v.object key ≡ none → Inherits v v.object y → v.attr y key ≡ none
      root_absent y n (inl e) = rw (sym e) n
      root_absent y n (inr (inl e)) = rw e n
      root_absent y n (inr (inr c)) = absurd (not-IsAncestor_root y root c)

      by_protos :
          (ps : List ℕ)
          → v.protos x ≡ ps
          → v.attr x key ≡ none
          → v.refuses x ≡ false
          → (x == v.object) ≡ false
          → ((p : ℕ)
              → rank p < f
              → (a : Lookup) × (climb f v p key 0 ≡ some a) × IsAnswer v p key a)
          → (a : Lookup) × (climb (suc f) v x key 0 ≡ some a) × IsAnswer v x key a
      by_protos [] e n d i next = (
        search_all v key 0 [],
        rw (climb, d, n, i, e, past_super_zero v key x) refl,
        search_all-lem v key x [] e n,
      )
      by_protos (p ∷ q ∷ qs) e n d i next = (
        search_all v key 0 (p ∷ q ∷ qs),
        rw (climb, d, n, i, e, past_super_zero v key x) refl,
        search_all-lem v key x (p ∷ q ∷ qs) e n,
      )
      by_protos (p ∷ []) e n d i next =
          let less = ranked x p e (==-ne_of_false x v.object i) in
          let (a, run, ans) = next p (omega arith) in
          (
            a,
            rw (climb, d, n, i, e, rank-ne rank x p less, past_super_zero v key x, run) refl,
            climb-single x p a root e n ans,
          )

  climb-step :
      (f x p : ℕ)
      → v.protos x ≡ p ∷ []
      → x ≢ v.object
      → x ≢ p
      → v.attr x key ≡ none
      → v.refuses x ≡ false
      → climb (suc f) v x key 0 ≡ climb f v p key 0
  unfolding climb
  climb-step f x p e ne ne' n d =
      let i : (x == v.object) ≡ false = ==-false_of_ne x v.object ne in
      let j : (x == p) ≡ false = ==-false_of_ne x p ne' in
      rw (climb, d, n, i, e, j, past_super_zero v key x) refl
    where
      ==-false_of_ne : (a b : ℕ) → a ≢ b → (a == b) ≡ false
      ==-false_of_ne a b ne = ground (arith, ne)

  -- Two objects that are each other's only prototype, neither of which is OBJ(OBJECT), refuses a lock or
  -- has the attribute: `get_proto_attr` without a `super_obj` does not return from either of them, however long it runs.
  pub climb-endless :
      (f x y : ℕ)
      → v.protos x ≡ y ∷ []
      → v.protos y ≡ x ∷ []
      → x ≢ v.object
      → y ≢ v.object
      → x ≢ y
      → v.attr x key ≡ none
      → v.attr y key ≡ none
      → v.refuses x ≡ false
      → v.refuses y ≡ false
      → climb f v x key 0 ≡ none
  unfolding climb
  climb-endless zero x y ex ey nx ny ne ax ay dx dy = refl
  climb-endless (suc f) x y ex ey nx ny ne ax ay dx dy =
      climb-step f x y ex nx ne ax dx
      ∙ climb-endless f y x ey ex ny nx (λ e. ne (sym e)) ay ax dy dx
