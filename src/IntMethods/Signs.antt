-- ===== src/IntMethods/Signs.antt =====
-- The comparison of integer objects, and the methods of one integer.
use prothon.Base.{
  ℕ, zero, suc, ◌+◌, ◌^◌, ◌<◌, ◌≡◌, refl, sym, ap, ◌∙◌, ◌↔◌, Bool, true, false, if◌then◌else◌,
  arith, ℤ, pos, negsuc, pos_part, neg_part, ltb_ℤ,
}
use prothon.Base.Int.{◌+ℤ◌, ◌-ℤ◌}
use prothon.Long.{Long}
use prothon.Long.Value.{val, IsValid, value, signed, with_sign-value}
use prothon.Long.Sum.{negated-value, negated-IsValid}
use prothon.LongConvert.{as_i32, long_compare, long_invert, sign_of, same_int}
use prothon.LongConvert.Machine.{in_i64}
use prothon.LongConvert.Compare.{long_compare-lem, long_invert-lem}
use prothon.IntMethods.{
  IntObj, imm, big, as_long, cmp_ints, eq_ints, int_neg, int_abs, abs32, abs_macro, low64,
  int_invert,
}
use prothon.IntMethods.Sums.{
  int_value, IsInt, Returns, as_long-lem, wrap64-in_i64, new_int_long_obj-lem,
}

sign_zero_iff : (a b : ℤ) → (sign_of (a -ℤ b) ≡ pos 0) ↔ (a ≡ b)
unfolding ◌-ℤ◌
sign_zero_iff a b = (to (a -ℤ b) refl, from)
  where
    to : (d : ℤ) → a -ℤ b ≡ d → sign_of d ≡ pos 0 → a ≡ b
    to (pos zero) e h = ground (arith, e)
    to (pos (suc n)) e h = ground (arith, h)
    to (negsuc n) e h = ground (arith, h)

    from : a ≡ b → sign_of (a -ℤ b) ≡ pos 0
    from e = rw e (ap sign_of (let z : b -ℤ b ≡ pos 0 = ground arith in z))

imm-cmp :
    (s o : ℤ)
    → (if same_int s o then pos 0 else if ltb_ℤ o s then pos 1 else negsuc 0) ≡ sign_of (s -ℤ o)
unfolding ◌-ℤ◌
imm-cmp s o = by_difference (s -ℤ o) refl
  where
    by_difference :
        (d : ℤ)
        → s -ℤ o ≡ d
        → (if same_int s o then pos 0 else if ltb_ℤ o s then pos 1 else negsuc 0) ≡ sign_of d
    by_difference (pos zero) e = ground (arith, e)
    by_difference (pos (suc n)) e = ground (arith, e)
    by_difference (negsuc n) e = ground (arith, e)

-- `cmp_` of two integers, which each object holds in 64 bits or as normalized digits, gives the sign of
-- their difference.
pub cmp_ints-lem :
    (a b : IntObj) → IsInt a → IsInt b → cmp_ints a b ≡ sign_of (int_value a -ℤ int_value b)
unfolding cmp_ints
cmp_ints-lem (imm s) (imm o) h k = imm-cmp s o
cmp_ints-lem (imm s) (big w) h k =
    let (e, v) = as_long-lem (imm s) h in
    long_compare-lem (as_long (imm s)) w v k ∙ ap (λ i. sign_of (i -ℤ value w)) e
cmp_ints-lem (big v) b h k =
    let (e, w) = as_long-lem b k in
    long_compare-lem v (as_long b) h w ∙ ap (λ i. sign_of (value v -ℤ i)) e

same_int_iff : (a b : ℤ) → (same_int a b ≡ true) ↔ (a ≡ b)
same_int_iff a b = (to a b, from)
  where
    to : (a b : ℤ) → same_int a b ≡ true → a ≡ b
    to (pos m) (pos n) h = ground (arith, h)
    to (pos m) (negsuc n) h = ground (arith, h)
    to (negsuc m) (pos n) h = ground (arith, h)
    to (negsuc m) (negsuc n) h = ground (arith, h)

    from : a ≡ b → same_int a b ≡ true
    from e = rw e (ground arith)

long-eq :
    (v w : Long)
    → IsValid v
    → IsValid w
    → (same_int (long_compare v w) (pos 0) ≡ true) ↔ (value v ≡ value w)
long-eq v w h k =
    let sign = long_compare-lem v w h k in
    let zero = same_int_iff (long_compare v w) (pos 0) in
    let equal = sign_zero_iff (value v) (value w) in
    (λ e. equal.0 (sym sign ∙ zero.0 e), λ e. zero.1 (sign ∙ equal.1 e))

-- `eq?` of two integers, which each object holds in 64 bits or as normalized digits, is true exactly
-- where they are the same integer.
pub eq_ints_iff :
    (a b : IntObj) → IsInt a → IsInt b → (eq_ints a b ≡ true) ↔ (int_value a ≡ int_value b)
unfolding eq_ints
eq_ints_iff (imm s) (imm o) h k = same_int_iff s o
eq_ints_iff (imm s) (big w) h k =
    let (e, v) = as_long-lem (imm s) h in
    let equal = long-eq (as_long (imm s)) w v k in (λ t. sym e ∙ equal.0 t, λ t. equal.1 (e ∙ t))
eq_ints_iff (big v) b h k =
    let (e, w) = as_long-lem b k in
    let equal = long-eq v (as_long b) h w in (λ t. equal.0 t ∙ e, λ t. equal.1 (t ∙ sym e))

-- Every integer but the least of 64 bits has a negative that fits its object.
abbrev pub Negatable : IntObj → Type 0
Negatable (imm i) = in_i64 (pos 0 -ℤ i) ≡ true
Negatable (big v) = Unit

-- `neg_` gives the negative of every integer but the least of 64 bits.
pub int_neg-lem :
    (a : IntObj)
    → IsInt a
    → Negatable a
    → (int_value (int_neg a) ≡ pos 0 -ℤ int_value a) × IsInt (int_neg a)
unfolding int_neg
int_neg-lem (imm i) h k = let e = wrap64-in_i64 (pos 0 -ℤ i) k in rw e (refl, k)
int_neg-lem (big v) h k = (negated-value v, negated-IsValid h)

-- `invert_` gives -x - 1, of every integer.
pub int_invert-lem :
    (a : IntObj) → IsInt a → Returns (int_invert a) (pos 0 -ℤ (int_value a +ℤ pos 1))
unfolding int_invert
int_invert-lem (imm i) h = (imm (pos 0 -ℤ (i +ℤ pos 1)), refl, refl, fits i h)
  where
    fits : (i : ℤ) → in_i64 i ≡ true → in_i64 (pos 0 -ℤ (i +ℤ pos 1)) ≡ true
    fits (pos n) h = ground (arith, h)
    fits (negsuc n) h = ground (arith, h)
int_invert-lem (big v) h = new_int_long_obj-lem (long_invert v) _ (long_invert-lem v h.digits)

abbrev pub absolute : ℤ → ℤ
absolute i = pos (pos_part i + neg_part i)

-- An immediate integer that `int` holds, but for the least one.
abbrev pub HasAbs : IntObj → Type 0
HasAbs (imm i) = pos_part i + neg_part i < 2 ^ 31
HasAbs (big v) = Unit

-- `abs_` gives the absolute value of an integer that is held as digits, or is immediate and less than
-- 2 ^ 31 in absolute value.
pub int_abs-lem :
    (a : IntObj) → IsInt a → HasAbs a → int_value (int_abs false a) ≡ absolute (int_value a)
unfolding int_abs
int_abs-lem (imm (pos n)) h k = ground (arith, k)
int_abs-lem (imm (negsuc n)) h k = ground (arith, k)
int_abs-lem (big v) h k = with_sign-value false v.digit ∙ whole v.negative (val v.digit)
  where
    whole : (s : Bool) (n : ℕ) → pos n ≡ absolute (signed s n)
    whole false n = ground arith
    whole true n = ground arith

-- `abs_` of an immediate integer gives its absolute value, where `abs` is that of the C library, exactly if
-- this is below 2 ^ 31; where `abs` is the macro for Windows, exactly if the integer is not -(2 ^ 63).
pub int_abs_iff :
    (i : ℤ)
    → in_i64 i ≡ true
    → ((int_abs false (imm i) ≡ imm (absolute i)) ↔ (pos_part i + neg_part i < 2 ^ 31))
      × ((int_abs true (imm i) ≡ imm (absolute i)) ↔ (pos_part i + neg_part i < 2 ^ 63))
unfolding int_abs
int_abs_iff (pos n) h = (
  (
    λ e.
        let f : abs32 (as_i32 (low64 (pos n))) ≡ pos (n + 0) = ap int_value e in
        ground (arith, h, f),
    λ l. ap imm (ground (arith, l)),
  ),
  (λ e. ground (arith, h), λ l. ap imm (ground arith)),
)
int_abs_iff (negsuc n) h = (
  (
    λ e.
        let f : abs32 (as_i32 (low64 (negsuc n))) ≡ pos (0 + suc n) = ap int_value e in
        ground (arith, h, f),
    λ l. ap imm (ground (arith, l)),
  ),
  (
    λ e. let f : abs_macro (negsuc n) ≡ pos (0 + suc n) = ap int_value e in ground (arith, h, f),
    λ l. ap imm (ground (arith, l)),
  ),
)
