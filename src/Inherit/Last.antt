-- ===== src/Inherit/Last.antt =====
-- The last of equal objects stays in the list of `proto_list`.
use prothon.Base.{
  ℕ, ◌≡◌, refl, inl, inr, List, [], ◌∷◌, arith, ◌==◌, if◌then◌else◌, Bool-cases, ==-eq_of_true,
}
use prothon.Clist.{count}
use prothon.Inherit.{elem, keep_last}

pub elem-keep_last : (t : ℕ) (xs : List ℕ) → elem t (keep_last xs) ≡ elem t xs
unfolding keep_last
elem-keep_last t [] = refl
elem-keep_last t (x ∷ xs) =
    let rest = elem-keep_last t xs in
    elim (Bool-cases (elem x xs)) [
      | inl h ↦ elim (Bool-cases (x == t)) [
        | inl e ↦ ground (arith, h, e, rest, rw (==-eq_of_true x t e) at h)
        | inr e ↦ ground (arith, h, e, rest)
      ]
      | inr h ↦ ground (arith, h, rest)
    ]

pub count-keep_last : (t : ℕ) (xs : List ℕ) → count t (keep_last xs) ≡ (if elem t xs then 1 else 0)
unfolding keep_last count
count-keep_last t [] = refl
count-keep_last t (x ∷ xs) =
    let rest = count-keep_last t xs in
    elim (Bool-cases (elem x xs)) [
      | inl h ↦ elim (Bool-cases (x == t)) [
        | inl e ↦ ground (arith, h, e, rest, rw (==-eq_of_true x t e) at h)
        | inr e ↦ ground (arith, h, e, rest)
      ]
      | inr h ↦ elim (Bool-cases (x == t)) [
        | inl e ↦ ground (arith, h, e, rest, rw (==-eq_of_true x t e) at h)
        | inr e ↦ ground (arith, h, e, rest)
      ]
    ]
