-- ===== src/Inherit/Attribute.antt =====
-- The search of an attribute through the prototypes.
use prothon.Base.{
  ℕ, ◌≡◌, refl, sym, ◌∙◌, ◌⊎◌, inl, inr, true, false, ◌||◌, none, some, List, [], ◌∷◌, ◌++◌, arith,
  ◌==◌, Bool-cases, Option-cases, ==_refl, ==-eq_of_true,
}
use prothon.Inherit.{
  any_refused, Walked, walked, lock_refused, circular_list, denied, no_access, scan_walked, View,
  elem, parents, walk, keep_last, Answer, inherits, inherits_not, circular, search_protos, Lookup,
  found, absent, circular_protos, self_proto, past_super, scan, search_all,
}
use prothon.Inherit.Walk.{
  IsAncestor, direct, onward, Inherits, elem-append, search_protos-inherits,
  search_protos-inherits_not, ||-right, ||-cases,
}
use prothon.Inherit.Search.{is_hit, is_plain, search_protos-walk, any_refused-elem, walk-refused}
use prothon.Inherit.Last.{elem-keep_last}

-- The answer to the search of `key` from `x` on.
unfoldable pub IsAnswer : (v : View) (x key : ℕ) → Lookup → Type 0
IsAnswer v x key (found r y) = (v.attr y key ≡ some r) × Inherits v x y
IsAnswer v x key absent = (y : ℕ) → Inherits v x y → v.attr y key ≡ none
IsAnswer v x key circular_protos =
    (z : ℕ) × Inherits v x z × (walk 100 v (parents v z) ≡ circular_list)
IsAnswer v x key self_proto = (z : ℕ) × Inherits v x z × (v.protos z ≡ z ∷ [])
IsAnswer v x key no_access = (z : ℕ) × Inherits v x z × (v.refuses z ≡ true)

-- The same for a list of objects.
IsAnswerIn : (v : View) (xs : List ℕ) (key : ℕ) → Lookup → Type 0
IsAnswerIn v xs key (found r y) = (v.attr y key ≡ some r) × (elem y xs ≡ true)
IsAnswerIn v xs key absent = (y : ℕ) → elem y xs ≡ true → v.attr y key ≡ none
IsAnswerIn v xs key circular_protos = ⊥
IsAnswerIn v xs key self_proto = ⊥
IsAnswerIn v xs key no_access = ⊥

module _ (v : View) (key : ℕ) where
  IsAnswerIn-later :
      (x : ℕ) (xs : List ℕ) (a : Lookup)
      → v.attr x key ≡ none
      → IsAnswerIn v xs key a
      → IsAnswerIn v (x ∷ xs) key a
  unfolding IsAnswerIn
  IsAnswerIn-later x xs (found r y) e (h, m) = (h, ||-right (x == y) m)
  IsAnswerIn-later x xs absent e h = λ y m. elim (||-cases (x == y) (elem y xs) m) [
    | inl i ↦ rw (sym (==-eq_of_true x y i)) e
    | inr i ↦ h y i
  ]
  IsAnswerIn-later x xs circular_protos e h = h
  IsAnswerIn-later x xs self_proto e h = h
  IsAnswerIn-later x xs no_access e h = h

  pub past_super_zero : (x : ℕ) → past_super x 0 ≡ 0
  past_super_zero x = ground arith

  scan-lem : (xs : List ℕ) → IsAnswerIn v xs key (scan v key 0 xs)
  unfolding scan IsAnswerIn
  scan-lem [] = λ y m. ground (arith, m)
  scan-lem (x ∷ xs) = elim (Option-cases (v.attr x key)) [
    | inl e ↦
        let rest = scan-lem xs in
        rw (e, past_super_zero x) (IsAnswerIn-later x xs (scan v key 0 xs) e rest)
    | inr (r, e) ↦ rw e (e, rw (==_refl x) refl)
  ]

  -- The objects of the walk from the prototypes of `x` are its ancestors.
  walk-IsAncestor :
      (r x y : ℕ) (xs : List ℕ)
      → walk r v (parents v x) ≡ walked xs
      → elem y xs ≡ true
      → IsAncestor v y x
  walk-IsAncestor r x y xs w m =
      let agree = search_protos-walk v y r (parents v x) xs w in
      elim (||-cases (elem y (parents v x)) (is_hit (search_protos r v y (parents v x)))
        (rw agree.0 at m)) [
          | inl i ↦ direct i
          | inr i ↦
              let (z, n, a) = search_protos-inherits v y r (parents v x) (ground (arith, i)) in
              onward z n a
        ]

  IsAncestor-walk :
      (r x y : ℕ) (xs : List ℕ)
      → walk r v (parents v x) ≡ walked xs
      → IsAncestor v y x
      → elem y xs ≡ true
  IsAncestor-walk r x y xs w a =
      let agree = search_protos-walk v y r (parents v x) xs w in
      rw agree.0 (hit a (search_protos r v y (parents v x)) refl agree.1)
    where
      hit :
          IsAncestor v y x
          → (b : Answer) → search_protos r v y (parents v x) ≡ b
          → is_plain b ≡ true
          → (elem y (parents v x) || is_hit b) ≡ true
      hit (direct d) b e ne = rw d refl
      hit (onward z n c) inherits e ne = ||-right (elem y (parents v x)) refl
      hit (onward z n c) inherits_not e ne =
          absurd (search_protos-inherits_not v y r (parents v x) z e n c)
      hit (onward z n c) circular e ne = ground (arith, ne)
      hit (onward z n c) denied e ne = ground (arith, ne)

  -- What `search_all` scans after the walk has found `xs`.
  elem-scanned :
      (y : ℕ) (xs : List ℕ)
      → elem y (keep_last (xs ++ v.object ∷ [])) ≡ (elem y xs || ((v.object == y) || false))
  elem-scanned y xs = elem-keep_last y (xs ++ v.object ∷ []) ∙ elem-append y xs (v.object ∷ [])

  Inherits-of_scanned :
      (x y : ℕ) (xs : List ℕ)
      → walk 100 v (parents v x) ≡ walked xs
      → elem y (keep_last (xs ++ v.object ∷ [])) ≡ true
      → Inherits v x y
  unfolding Inherits
  Inherits-of_scanned x y xs w m =
      elim (||-cases (elem y xs) ((v.object == y) || false) (rw (elem-scanned y xs) at m)) [
        | inl i ↦ inr (inr (walk-IsAncestor 100 x y xs w i))
        | inr i ↦ inr (inl (sym (==-eq_of_true v.object y (ground (arith, i)))))
      ]

  scanned-of_Inherits :
      (x y : ℕ) (xs : List ℕ)
      → walk 100 v (parents v x) ≡ walked xs
      → Inherits v x y
      → (x ≡ y) ⊎ (elem y (keep_last (xs ++ v.object ∷ [])) ≡ true)
  unfolding Inherits
  scanned-of_Inherits x y xs w h = rw (elem-scanned y xs) (elim h [
    | inl e ↦ inl e
    | inr (inl e) ↦ inr (||-right (elem y xs) (rw (e, ==_refl v.object) refl))
    | inr (inr c) ↦ inr (rw (IsAncestor-walk 100 x y xs w c) refl)
  ])

  scanned-IsAnswer :
      (x : ℕ) (xs : List ℕ) (a : Lookup)
      → walk 100 v (parents v x) ≡ walked xs
      → v.attr x key ≡ none
      → IsAnswerIn v (keep_last (xs ++ v.object ∷ [])) key a
      → IsAnswer v x key a
  unfolding IsAnswer IsAnswerIn
  scanned-IsAnswer x xs (found r y) w n (h, m) = (h, Inherits-of_scanned x y xs w m)
  scanned-IsAnswer x xs absent w n h =
      λ y i. elim (scanned-of_Inherits x y xs w i) [ inl e ↦ rw (sym e) n | inr m ↦ h y m ]
  scanned-IsAnswer x xs circular_protos w n h = absurd h
  scanned-IsAnswer x xs self_proto w n h = absurd h
  scanned-IsAnswer x xs no_access w n h = absurd h

  scan_walked-lem :
      (x : ℕ) (w : Walked)
      → walk 100 v (parents v x) ≡ w
      → v.attr x key ≡ none
      → IsAnswer v x key (scan_walked v key 0 w)
  unfolding scan_walked IsAnswer Inherits
  scan_walked-lem x (walked xs) w n = elim (Bool-cases (v.refuses v.object)) [
    | inl d ↦ rw (scan_walked, d) (v.object, inr (inl refl), d)
    | inr d ↦
        rw (scan_walked, d)
          (scanned-IsAnswer x xs (scan v key 0 (keep_last (xs ++ v.object ∷ []))) w n
            (scan-lem (keep_last (xs ++ v.object ∷ []))))
  ]
  scan_walked-lem x lock_refused w n =
      let (y, z, m, a, d) = walk-refused v 100 (parents v x) w in (z, inr (inr (onward y m a)), d)
  scan_walked-lem x circular_list w n = (x, inl refl, w)

  pub search_all-lem :
      (x : ℕ) (ps : List ℕ)
      → v.protos x ≡ ps
      → v.attr x key ≡ none
      → IsAnswer v x key (search_all v key 0 ps)
  unfolding search_all IsAnswer Inherits
  search_all-lem x ps e n = rw (sym e) (elim (Bool-cases (any_refused v (parents v x))) [
    | inl h ↦
        let (z, m, d) = any_refused-elem v (parents v x) h in
        rw (search_all, h) (z, inr (inr (direct m)), d)
    | inr h ↦ rw (search_all, h) (scan_walked-lem x (walk 100 v (parents v x)) refl n)
  ])
