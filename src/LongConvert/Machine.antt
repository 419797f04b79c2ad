-- ===== src/LongConvert/Machine.antt =====
-- Conversions between integers of any size and those of the machine.
use prothon.Base.{
  ℕ, zero, suc, ◌+◌, ◌*◌, ◌/◌, ◌%◌, ◌^◌, ◌<◌, ◌≡◌, refl, ap, ◌∙◌, inl, inr, Bool, true, false, ◌&&◌,
  none, some, [], ◌∷◌, ltb, leb, ◌==◌, if◌then◌else◌, arith, Bool-cases, ℤ, pos, negsuc, pos_part,
  neg_part, is_neg,
}
use prothon.World.{overflow_exc}
use prothon.Tuples.{returns, fails}
use prothon.Long.{base, Digits, Long}
use prothon.Long.Value.{
  val, IsDigits, IsNormal, IsValid, value, signed, with_sign-value, with_sign-IsValid,
}
use prothon.LongConvert.{
  digits_of, new_longp, gather, fit_i64, or_overflow, longp2int64, fit_i32, longp2int32,
}

-- INT64_MIN <= i && i <= INT64_MAX
abbrev pub in_i64 : ℤ → Bool
in_i64 i = ltb (pos_part i) (2 ^ 63) && leb (neg_part i) (2 ^ 63)

-- Enough rounds write all digits.
abbrev pow_base : ℕ → ℕ
pow_base zero = 1
pow_base (suc n) = base * pow_base n

digits_of-lem :
    (r t : ℕ)
    → t < pow_base r
    → (val (digits_of r t) ≡ t) × IsDigits (digits_of r t) × IsNormal (digits_of r t)
unfolding digits_of
digits_of-lem zero t h = (omega arith, tt, tt)
digits_of-lem (suc r) t h = elim (Bool-cases (t == 0)) [
  | inl e ↦ rw e (ground (arith, e), tt, tt)
  | inr e ↦
      let (eq, ds, n) = digits_of-lem r (t / base) (omega (arith, h)) in
      rw e (omega (arith, eq), (omega arith, ds), lead (digits_of r (t / base)) eq n e)
]
  where
    lead :
        (ds : Digits)
        → val ds ≡ t / base
        → IsNormal ds
        → (t == 0) ≡ false
        → IsNormal ((t % base) ∷ ds)
    lead [] eq n e = ground (arith, eq, e)
    lead (d ∷ ds) eq n e = n

-- `new_longp` of any 64-bit integer is that integer, normalized.
pub new_longp-lem : (i : ℤ) → in_i64 i ≡ true → (value (new_longp i) ≡ i) × IsValid (new_longp i)
unfolding new_longp
new_longp-lem i h =
    let small : pos_part i + neg_part i < pow_base 5 = bound i h in
    let (eq, ds, n) = digits_of-lem 5 (pos_part i + neg_part i) small in
    (
      with_sign-value (is_neg i) (digits_of 5 (pos_part i + neg_part i))
          ∙ ap (signed (is_neg i)) eq
          ∙ whole i,
      with_sign-IsValid (is_neg i) (digits_of 5 (pos_part i + neg_part i)) ds n,
    )
  where
    bound : (i : ℤ) → in_i64 i ≡ true → pos_part i + neg_part i < pow_base 5
    bound (pos n) h = ground (arith, h)
    bound (negsuc n) h = ground (arith, h)

    whole : (i : ℤ) → signed (is_neg i) (pos_part i + neg_part i) ≡ i
    whole (pos n) = ground arith
    whole (negsuc n) = ground arith

-- The loop over the digits notices every overflow of 64 bits.
gather-lem :
    (ds : Digits)
    → IsDigits ds
    → gather ds ≡ (if ltb (val ds) (2 ^ 64) then some (val ds) else none)
unfolding gather
gather-lem [] h = refl
gather-lem (d ∷ ds) (h, hs) = rw (gather-lem ds hs) (elim (Bool-cases (ltb (val ds) (2 ^ 64))) [
  | inl e ↦ rw e (ground (arith, e, h))
  | inr e ↦ rw e (ground (arith, e))
])

-- `longp2int64` of an integer whose digits are in range returns it where it fits in 64 bits, the least
-- one included, and raises OVERFLOW_EXC where it does not.
pub longp2int64-lem :
    (v : Long)
    → IsDigits v.digit
    → longp2int64 v ≡ (if in_i64 (value v) then returns (value v) else fails overflow_exc)
unfolding longp2int64
longp2int64-lem v h = rw (gather-lem v.digit h) (by_sign v.negative (val v.digit))
  where
    by_sign :
        (s : Bool) (n : ℕ)
        → or_overflow (if ltb n (2 ^ 64) then some n else none) (fit_i64 s)
          ≡ (if in_i64 (signed s n) then returns (signed s n) else fails overflow_exc)
    by_sign false n = ground arith
    by_sign true n = ground arith

-- `longp2int64` of what `new_longp` makes of a 64-bit integer returns the integer.
longp2int64-new_longp : (i : ℤ) → in_i64 i ≡ true → longp2int64 (new_longp i) ≡ returns i
longp2int64-new_longp i h =
    let (eq, v) = new_longp-lem i h in rw (longp2int64-lem (new_longp i) v.digits, eq, h) refl

-- `longp2int32` of an integer whose absolute value has at most 64 bits, bit 31 not set, returns the low
-- 32 bits of that value with the sign, without an exception.
pub longp2int32-cut :
    (v : Long)
    → IsDigits v.digit
    → val v.digit < 2 ^ 64
    → val v.digit % 2 ^ 32 < 2 ^ 31
    → longp2int32 v ≡ returns (signed v.negative (val v.digit % 2 ^ 32))
unfolding longp2int32
longp2int32-cut v h l m = rw (gather-lem v.digit h) (by_sign v.negative (val v.digit) l m)
  where
    by_sign :
        (s : Bool) (n : ℕ)
        → n < 2 ^ 64
        → n % 2 ^ 32 < 2 ^ 31
        → or_overflow (if ltb n (2 ^ 64) then some n else none) (fit_i32 s)
          ≡ returns (signed s (n % 2 ^ 32))
    by_sign false n l m = ground (arith, l, m)
    by_sign true n l m = ground (arith, l, m)
