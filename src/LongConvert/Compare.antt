-- ===== src/LongConvert/Compare.antt =====
-- The comparison of integers of any size, and `long_invert`.
use prothon.Base.{
  ℕ, zero, suc, ◌+◌, ◌<◌, ◌≡◌, refl, sym, ap, ◌∙◌, inl, inr, Bool, true, false, [], ◌∷◌, ltb, ◌==◌,
  length, arith, Bool-cases, ℤ, pos, negsuc, sub_ℕ, ==-eq_of_true,
}
use prothon.Base.Int.{◌+ℤ◌, ◌-ℤ◌}
use prothon.Tuples.{minus_one}
use prothon.Long.{Digits, Long, negated, top, differing}
use prothon.Long.Value.{val, IsDigits, IsNormal, IsValid, value, signed, val-pos}
use prothon.Long.Subtract.{Splits, differing-Splits, val-lt_of_top, val-lt_of_length}
use prothon.Long.Sum.{Gives, long_add-lem, negated-value, negated-IsValid}
use prothon.LongConvert.{
  sign_of, compare_top, same_int, compare_signed, long_compare, new_longp, long_invert,
}
use prothon.LongConvert.Machine.{new_longp-lem}

-- Which of two numbers is greater.
sign_below : (m n : ℕ) → m < n → (sign_of (sub_ℕ m n) ≡ minus_one) × (sign_of (sub_ℕ n m) ≡ pos 1)
sign_below m n h = (below (sub_ℕ m n) refl, above (sub_ℕ n m) refl)
  where
    below : (i : ℤ) → sub_ℕ m n ≡ i → sign_of i ≡ minus_one
    below (pos zero) e = ground (arith, e, h)
    below (pos (suc k)) e = ground (arith, e, h)
    below (negsuc k) e = refl

    above : (i : ℤ) → sub_ℕ n m ≡ i → sign_of i ≡ pos 1
    above (pos zero) e = ground (arith, e, h)
    above (pos (suc k)) e = refl
    above (negsuc k) e = ground (arith, e, h)

sign_same : (m n : ℕ) → m ≡ n → sign_of (sub_ℕ m n) ≡ pos 0
sign_same m n e = rw e (ap sign_of (zero_of n))
  where
    zero_of : (n : ℕ) → sub_ℕ n n ≡ pos 0
    zero_of n = ground arith

compare_top-lem :
    (xs ys : Digits)
    → length xs ≡ length ys
    → IsDigits xs
    → IsDigits ys
    → (compare_top false (differing xs ys) ≡ sign_of (sub_ℕ (val xs) (val ys)))
      × (compare_top true (differing xs ys) ≡ sign_of (sub_ℕ (val ys) (val xs)))
compare_top-lem xs ys l h k = step (differing xs ys) (differing-Splits xs ys l h k)
  where
    step :
        (r : Digits × Digits)
        → Splits xs ys (r.0) (r.1)
        → (compare_top false r ≡ sign_of (sub_ℕ (val xs) (val ys)))
          × (compare_top true r ≡ sign_of (sub_ℕ (val ys) (val xs)))
    step ([], []) s =
        let e : val xs ≡ val ys = omega (arith, s.same) in
        (sym (sign_same (val xs) (val ys) e), sym (sign_same (val ys) (val xs) (sym e)))
    step ([], y ∷ q) s = absurd (omega (arith, s.len))
    step (x ∷ p, q) s = elim (Bool-cases (ltb (top (x ∷ p)) (top q))) [
      | inl e ↦
          let lt : top (x ∷ p) < top q = ground (arith, e) in
          let less = val-lt_of_top (x ∷ p) q s.len s.digits_left s.digits_right lt in
          let tops = sign_below (top (x ∷ p)) (top q) lt in
          let vals = sign_below (val xs) (val ys) (omega (arith, less, s.same)) in
          (tops.0 ∙ sym vals.0, tops.1 ∙ sym vals.1)
      | inr e ↦
          let lt : top q < top (x ∷ p) = ground (arith, e, s.apart) in
          let less = val-lt_of_top q (x ∷ p) (sym s.len) s.digits_right s.digits_left lt in
          let tops = sign_below (top q) (top (x ∷ p)) lt in
          let vals = sign_below (val ys) (val xs) (omega (arith, less, s.same)) in
          (tops.1 ∙ sym vals.1, tops.0 ∙ sym vals.0)
    ]

-- Of two normalized numbers of different sizes the longer one is greater.
sizes :
    (xs ys : Digits)
    → (length xs == length ys) ≡ false
    → IsDigits xs
    → IsDigits ys
    → IsNormal xs
    → IsNormal ys
    → (sign_of (sub_ℕ (length xs) (length ys)) ≡ sign_of (sub_ℕ (val xs) (val ys)))
      × (sign_of (sub_ℕ (length ys) (length xs)) ≡ sign_of (sub_ℕ (val ys) (val xs)))
sizes xs ys ne h k n m = elim (Bool-cases (ltb (length xs) (length ys))) [
  | inl e ↦
      let lt : length xs < length ys = ground (arith, e) in
      let lens = sign_below (length xs) (length ys) lt in
      let vals = sign_below (val xs) (val ys) (val-lt_of_length xs ys lt h m) in
      (lens.0 ∙ sym vals.0, lens.1 ∙ sym vals.1)
  | inr e ↦
      let lt : length ys < length xs = ground (arith, e, ne) in
      let lens = sign_below (length ys) (length xs) lt in
      let vals = sign_below (val ys) (val xs) (val-lt_of_length ys xs lt k n) in
      (lens.1 ∙ sym vals.1, lens.0 ∙ sym vals.0)
]

negative-val :
    (ds : Digits) → IsNormal ds → (val ds ≡ 0 → true ≡ false) → (0 < val ds) × (0 < length ds)
negative-val [] n z = cc (z refl)
negative-val (d ∷ ds) n z = (val-pos d ds n, omega arith)

same_int-pos : (m n : ℕ) → same_int (pos m) (pos n) ≡ (m == n)
same_int-pos m n = ground arith

same_int-neg : (m n : ℕ) → same_int (sub_ℕ 0 m) (sub_ℕ 0 n) ≡ (m == n)
same_int-neg m n = ground arith

pos-pos : (m n : ℕ) → pos m -ℤ pos n ≡ sub_ℕ m n
unfolding ◌-ℤ◌
pos-pos m n = ground arith

neg-neg : (m n : ℕ) → sub_ℕ 0 m -ℤ sub_ℕ 0 n ≡ sub_ℕ n m
unfolding ◌-ℤ◌
neg-neg m n = ground arith

pos-neg :
    (m n : ℕ)
    → 0 < n
    → (sign_of (pos m -ℤ sub_ℕ 0 n) ≡ pos 1) × (same_int (pos m) (sub_ℕ 0 n) ≡ false)
unfolding ◌-ℤ◌
pos-neg m n h =
    let sum : pos m -ℤ sub_ℕ 0 n ≡ sub_ℕ (m + n) 0 = ground arith in
    (ap sign_of sum ∙ (sign_below 0 (m + n) (omega (arith, h))).1, ground (arith, h))

neg-pos :
    (m n : ℕ)
    → 0 < m
    → (sign_of (sub_ℕ 0 m -ℤ pos n) ≡ minus_one) × (same_int (sub_ℕ 0 m) (pos n) ≡ false)
unfolding ◌-ℤ◌
neg-pos m n h =
    let sum : sub_ℕ 0 m -ℤ pos n ≡ sub_ℕ 0 (m + n) = ground arith in
    (ap sign_of sum ∙ (sign_below 0 (m + n) (omega (arith, h))).0, ground (arith, h))

compare_signed-lem :
    (s t : Bool) (xs ys : Digits)
    → IsValid (record { negative = s; digit = xs })
    → IsValid (record { negative = t; digit = ys })
    → compare_signed s t xs ys ≡ sign_of (signed s (val xs) -ℤ signed t (val ys))
unfolding compare_signed
compare_signed-lem false false xs ys v w =
    rw
      (
        same_int-pos (length xs) (length ys),
        pos-pos (length xs) (length ys),
        pos-pos (val xs) (val ys),
      )
      (elim (Bool-cases (length xs == length ys)) [
        | inl e ↦
            rw e
              (compare_top-lem xs ys (==-eq_of_true (length xs) (length ys) e) v.digits w.digits).0
        | inr e ↦ rw e (sizes xs ys e v.digits w.digits v.normal w.normal).0
      ])
compare_signed-lem true true xs ys v w =
    rw
      (
        same_int-neg (length xs) (length ys),
        neg-neg (length xs) (length ys),
        neg-neg (val xs) (val ys),
      )
      (elim (Bool-cases (length xs == length ys)) [
        | inl e ↦
            rw e
              (compare_top-lem xs ys (==-eq_of_true (length xs) (length ys) e) v.digits w.digits).1
        | inr e ↦ rw e (sizes xs ys e v.digits w.digits v.normal w.normal).1
      ])
compare_signed-lem false true xs ys v w =
    let (more, long) = negative-val ys w.normal w.zero_sign in
    rw ((pos-neg (length xs) (length ys) long).1, (pos-neg (val xs) (val ys) more).0)
      (pos-neg (length xs) (length ys) long).0
compare_signed-lem true false xs ys v w =
    let (more, long) = negative-val xs v.normal v.zero_sign in
    rw ((neg-pos (length xs) (length ys) long).1, (neg-pos (val xs) (val ys) more).0)
      (neg-pos (length xs) (length ys) long).0

-- `long_compare` of two normalized integers gives the sign of their difference.
pub long_compare-lem :
    (a b : Long) → IsValid a → IsValid b → long_compare a b ≡ sign_of (value a -ℤ value b)
unfolding long_compare
long_compare-lem a b v w = compare_signed-lem a.negative b.negative a.digit b.digit v w

-- `long_invert` gives -x - 1.
pub long_invert-lem :
    (v : Long) → IsDigits v.digit → Gives (long_invert v) (pos 0 -ℤ (value v +ℤ pos 1))
unfolding long_invert
long_invert-lem v h =
    let (one, valid) = new_longp-lem (pos 1) refl in
    let (z, run, eq, k) = long_add-lem v (new_longp (pos 1)) h valid.digits in
    (
      negated z,
      rw run refl,
      negated-value z ∙ ap (λ t. pos 0 -ℤ t) (eq ∙ ap (λ t. value v +ℤ t) one),
      negated-IsValid k,
    )
