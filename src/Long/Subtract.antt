-- ===== src/Long/Subtract.antt =====
-- The subtraction of absolute values.
use prothon.Base.{
  ℕ, zero, suc, ◌+◌, ◌-◌, ◌/◌, ◌%◌, ◌≤◌, ◌<◌, ◌≡◌, refl, ap, ◌∙◌, inl, inr, Bool, true, false,
  Option, some, [], ◌∷◌, ltb, ◌==◌, length, arith, Bool-cases, sub_ℕ, ==-eq_of_true,
}
use prothon.Long.{
  base, sub_word, Digits, Long, with_sign, long_normalize, top, sub_rest, sub_both, differing,
  keep_differing, signed_result, sub_differing, x_sub,
}
use prothon.Long.Value.{
  val, IsDigits, IsNormal, IsValid, value, signed, with_sign-value, with_sign-IsValid,
  long_normalize-IsValid, long_normalize-value, val-pos,
}

sub_rest-lem :
    (w : ℕ) (xs : Digits)
    → w ≤ 1
    → w ≤ val xs
    → IsDigits xs
    → (zs : Digits) × (sub_rest w xs ≡ some zs) × (val zs ≡ val xs - w) × IsDigits zs
unfolding sub_rest
sub_rest-lem zero [] h l k = ([], refl, omega arith, tt)
sub_rest-lem (suc w) [] h l k = absurd (omega arith)
sub_rest-lem w (x ∷ xs) h l (k, ks) =
    let (zs, run, eq, ds) =
      sub_rest-lem (sub_word x 0 w / base % 2) xs (omega arith) (omega arith) ks in
    ((sub_word x 0 w % base) ∷ zs, rw run refl, omega (arith, eq), (omega arith, ds))

sub_both-lem :
    (w : ℕ) (xs ys : Digits)
    → w ≤ 1
    → val ys + w ≤ val xs
    → length ys ≤ length xs
    → IsDigits xs
    → IsDigits ys
    → (zs : Digits) × (sub_both w xs ys ≡ some zs) × (val zs ≡ val xs - (val ys + w)) × IsDigits zs
unfolding sub_both
sub_both-lem w [] [] h l n k m =
    let (zs, run, eq, ds) = sub_rest-lem w [] h (omega arith) k in (zs, run, omega (arith, eq), ds)
sub_both-lem w (x ∷ xs) [] h l n k m =
    let (zs, run, eq, ds) = sub_rest-lem w (x ∷ xs) h (omega arith) k in
    (zs, run, omega (arith, eq), ds)
sub_both-lem w [] (y ∷ ys) h l n k m = absurd (omega arith)
sub_both-lem w (x ∷ xs) (y ∷ ys) h l n (k, ks) (m, ms) =
    let (zs, run, eq, ds) =
      sub_both-lem (sub_word x y w / base % 2) xs ys (omega arith) (omega arith) (omega arith) ks
        ms in
    ((sub_word x y w % base) ∷ zs, rw run refl, omega (arith, eq), (omega arith, ds))

abbrev pub Apart : (p q : Digits) → Type 0
Apart [] q = Unit
Apart (d ∷ ds) q = top (d ∷ ds) ≡ top q → ⊥

-- What is left of two numbers of one size without the leading digits that they share.
pub record Splits (xs ys p q : Digits) : Type 0 where
  pub same : val xs + val q ≡ val ys + val p
  pub digits_left : IsDigits p
  pub digits_right : IsDigits q
  pub len : length p ≡ length q
  pub apart : Apart p q

pub differing-Splits :
    (xs ys : Digits)
    → length xs ≡ length ys
    → IsDigits xs
    → IsDigits ys
    → Splits xs ys ((differing xs ys).0) ((differing xs ys).1)
unfolding differing
differing-Splits [] [] l h k = record {
  same = refl;
  digits_left = tt;
  digits_right = tt;
  len = refl;
  apart = tt;
}
differing-Splits [] (y ∷ ys) l h k = absurd (omega arith)
differing-Splits (x ∷ xs) [] l h k = absurd (omega arith)
differing-Splits (x ∷ xs) (y ∷ ys) l (h, hs) (k, ks) =
    step (differing xs ys) (differing-Splits xs ys (omega arith) hs ks)
  where
    step :
        (r : Digits × Digits)
        → Splits xs ys (r.0) (r.1)
        → Splits (x ∷ xs) (y ∷ ys) ((keep_differing x y r).0) ((keep_differing x y r).1)
    step ([], []) s = elim (Bool-cases (x == y)) [
      | inl e ↦ rw e (record {
        same = ground (arith, e, s.same);
        digits_left = tt;
        digits_right = tt;
        len = refl;
        apart = tt;
      })
      | inr e ↦ rw e (record {
        same = omega (arith, s.same);
        digits_left = (h, tt);
        digits_right = (k, tt);
        len = refl;
        apart = λ t. ground (arith, e, t);
      })
    ]
    step ([], f ∷ fs) s = absurd (omega (arith, s.len))
    step (d ∷ ds, []) s = absurd (omega (arith, s.len))
    step (d ∷ ds, f ∷ fs) s = record {
      same = omega (arith, s.same);
      digits_left = (h, s.digits_left);
      digits_right = (k, s.digits_right);
      len = ap suc s.len;
      apart = s.apart;
    }

-- Of two numbers of one size the one with the greater leading digit is greater.
pub val-lt_of_top :
    (p q : Digits) → length p ≡ length q → IsDigits p → IsDigits q → top p < top q → val p < val q
val-lt_of_top [] q l h k t = absurd (step q l t)
  where
    step : (q : Digits) → 0 ≡ length q → 0 < top q → ⊥
    step [] l t = omega arith
    step (y ∷ ys) l t = omega arith
val-lt_of_top (x ∷ xs) [] l h k t = absurd (omega arith)
val-lt_of_top (x ∷ []) (y ∷ []) l h k t = omega arith
val-lt_of_top (x ∷ []) (y ∷ f ∷ fs) l h k t = absurd (omega arith)
val-lt_of_top (x ∷ e ∷ es) (y ∷ []) l h k t = absurd (omega arith)
val-lt_of_top (x ∷ e ∷ es) (y ∷ f ∷ fs) l (h, hs) (k, ks) t =
    let rest = val-lt_of_top (e ∷ es) (f ∷ fs) (omega arith) hs ks t in omega (arith, rest)

-- A shorter number without leading zeros is smaller.
pub val-lt_of_length :
    (p q : Digits) → length p < length q → IsDigits p → IsNormal q → val p < val q
val-lt_of_length p [] l h n = absurd (omega arith)
val-lt_of_length [] (y ∷ ys) l h n = val-pos y ys n
val-lt_of_length (x ∷ xs) (y ∷ []) l h n = absurd (omega arith)
val-lt_of_length (x ∷ xs) (y ∷ f ∷ fs) l (h, hs) n =
    let rest = val-lt_of_length xs (f ∷ fs) (omega arith) hs n in omega (arith, rest)

-- What a subtraction of absolute values returns.
abbrev pub Difference : Option Long → (m n : ℕ) → Type 0
Difference r m n = (z : Long) × (r ≡ some z) × (value z ≡ sub_ℕ m n) × IsValid z

signed_result-lem :
    (s : Bool) (xs ys : Digits)
    → val ys ≤ val xs
    → length ys ≤ length xs
    → IsDigits xs
    → IsDigits ys
    → (z : Long) × (signed_result s (sub_both 0 xs ys) ≡ some z)
      × (value z ≡ signed s (val xs - val ys))
      × IsValid z
unfolding long_normalize
signed_result-lem s xs ys l n h k =
    let (zs, run, eq, ds) = sub_both-lem 0 xs ys (omega arith) (omega arith) n h k in
    let at : val zs ≡ val xs - val ys = omega (arith, eq) in
    (
      long_normalize (with_sign s zs),
      rw run refl,
      long_normalize-value (with_sign s zs) ∙ with_sign-value s zs ∙ ap (signed s) at,
      long_normalize-IsValid (with_sign s zs) (with_digits s zs ds),
    )
  where
    with_digits : (s : Bool) (zs : Digits) → IsDigits zs → IsDigits ((with_sign s zs).digit)
    with_digits s [] d = tt
    with_digits s (z ∷ zs) d = d

sub_below :
    (xs ys : Digits)
    → val ys ≤ val xs
    → length ys ≤ length xs
    → IsDigits xs
    → IsDigits ys
    → Difference (signed_result true (sub_both 0 xs ys)) (val ys) (val xs)
sub_below xs ys l n h k =
    let (z, run, eq, v) = signed_result-lem true xs ys l n h k in
    (z, run, eq ∙ ground (arith, l), v)

sub_above :
    (xs ys : Digits)
    → val ys ≤ val xs
    → length ys ≤ length xs
    → IsDigits xs
    → IsDigits ys
    → Difference (signed_result false (sub_both 0 xs ys)) (val xs) (val ys)
sub_above xs ys l n h k =
    let (z, run, eq, v) = signed_result-lem false xs ys l n h k in
    (z, run, eq ∙ ground (arith, l), v)

sub_differing-lem :
    (xs ys p q : Digits) → Splits xs ys p q → Difference (sub_differing (p, q)) (val xs) (val ys)
unfolding sub_differing
sub_differing-lem xs ys [] q s = step q s
  where
    step : (q : Digits) → Splits xs ys [] q → Difference (sub_differing ([], q)) (val xs) (val ys)
    step [] s = (with_sign false [], refl, ground (arith, s.same), with_sign-IsValid false [] tt tt)
    step (y ∷ q) s = absurd (omega (arith, s.len))
sub_differing-lem xs ys (x ∷ p) q s = elim (Bool-cases (ltb (top (x ∷ p)) (top q))) [
  | inl e ↦
      let less = val-lt_of_top (x ∷ p) q s.len s.digits_left s.digits_right (ground (arith, e)) in
      let (z, run, eq, v) =
        sub_below q (x ∷ p) (omega (arith, less)) (omega (arith, s.len)) s.digits_right
          s.digits_left in
      (z, rw e run, eq ∙ shift (val (x ∷ p)) (val q) s.same, v)
  | inr e ↦
      let more =
        val-lt_of_top q (x ∷ p) (omega (arith, s.len)) s.digits_right s.digits_left
          (ground (arith, e, s.apart)) in
      let (z, run, eq, v) =
        sub_above (x ∷ p) q (omega (arith, more)) (omega (arith, s.len)) s.digits_left
          s.digits_right in
      (z, rw e run, eq ∙ shift (val (x ∷ p)) (val q) s.same, v)
]
  where
    shift : (m n : ℕ) → val xs + n ≡ val ys + m → sub_ℕ m n ≡ sub_ℕ (val xs) (val ys)
    shift m n e = ground (arith, e)

-- `x_sub` of two normalized vectors of digits gives their difference with its sign: the assertion that
-- no borrow is left does not fail.
pub x_sub-lem :
    (a b : Digits)
    → IsDigits a
    → IsDigits b
    → IsNormal a
    → IsNormal b
    → Difference (x_sub a b) (val a) (val b)
unfolding x_sub
x_sub-lem a b h k n m = elim (Bool-cases (ltb (length a) (length b))) [
  | inl e ↦
      let less = val-lt_of_length a b (ground (arith, e)) h m in
      rw e (sub_below b a (omega (arith, less)) (ground (arith, e)) k h)
  | inr e ↦ elim (Bool-cases (length a == length b)) [
    | inl f ↦
        rw (e, f)
          (sub_differing-lem a b ((differing a b).0) ((differing a b).1)
            (differing-Splits a b (==-eq_of_true (length a) (length b) f) h k))
    | inr f ↦
        let less = val-lt_of_length b a (ground (arith, e, f)) k n in
        rw (e, f) (sub_above a b (omega (arith, less)) (ground (arith, e)) h k)
  ]
]
