-- ===== src/Long/Sum.antt =====
-- The addition and subtraction of integers of any size.
use prothon.Base.{
  ℕ, ◌+◌, ◌≡◌, refl, ap, ◌∙◌, Bool, true, false, not, Option, some, arith, ℤ, pos, sub_ℕ,
}
use prothon.Long.{
  Digits, Long, with_sign, negated, long_normalize, x_add, add_signed, long_add, sub_signed,
  long_sub,
}
use prothon.Long.Value.{
  val, IsDigits, IsNormal, IsValid, value, signed, with_sign-value, with_sign-IsValid,
  long_normalize-IsValid, long_normalize-value,
}
use prothon.Base.Int.{◌+ℤ◌, ◌-ℤ◌}
use prothon.Long.Add.{x_add-lem}
use prothon.Long.Subtract.{x_sub-lem}

-- The code returns a valid integer, the number `n`.
abbrev pub Gives : Option Long → ℤ → Type 0
Gives r n = (z : Long) × (r ≡ some z) × (value z ≡ n) × IsValid z

add_like :
    (s : Bool) (xs ys : Digits)
    → IsDigits xs
    → IsDigits ys
    → Gives (some (with_sign s (x_add xs ys))) (signed s (val xs + val ys))
add_like s xs ys h k =
    let sum = x_add-lem xs ys h k in
    (
      with_sign s (x_add xs ys),
      refl,
      with_sign-value s (x_add xs ys) ∙ ap (signed s) sum.0,
      with_sign-IsValid s (x_add xs ys) sum.1 sum.2,
    )

Gives-of : {r : Option Long} {m n : ℤ} → m ≡ n → Gives r m → Gives r n
Gives-of e (z, run, eq, v) = (z, run, eq ∙ e, v)

pub negated-value : (v : Long) → value (negated v) ≡ pos 0 -ℤ value v
unfolding ◌-ℤ◌
negated-value v = with_sign-value (not v.negative) v.digit ∙ flip v.negative (val v.digit)
  where
    flip : (s : Bool) (n : ℕ) → signed (not s) n ≡ pos 0 -ℤ signed s n
    flip false n = ground arith
    flip true n = ground arith

pub negated-IsValid : {v : Long} → IsValid v → IsValid (negated v)
negated-IsValid {v} h = with_sign-IsValid (not v.negative) v.digit h.digits h.normal

add_signed-lem :
    (s t : Bool) (xs ys : Digits)
    → IsDigits xs
    → IsDigits ys
    → IsNormal xs
    → IsNormal ys
    → Gives (add_signed s t xs ys) (signed s (val xs) +ℤ signed t (val ys))
unfolding add_signed ◌+ℤ◌
add_signed-lem true true xs ys h k n m = Gives-of (ground arith) (add_like true xs ys h k)
add_signed-lem true false xs ys h k n m = Gives-of (ground arith) (x_sub-lem ys xs k h m n)
add_signed-lem false true xs ys h k n m = Gives-of (ground arith) (x_sub-lem xs ys h k n m)
add_signed-lem false false xs ys h k n m = Gives-of (ground arith) (add_like false xs ys h k)

negate_result :
    (xs ys : Digits)
    → IsDigits xs
    → IsDigits ys
    → IsNormal xs
    → IsNormal ys
    → Gives (sub_signed true true xs ys) (pos 0 -ℤ sub_ℕ (val xs) (val ys))
unfolding sub_signed
negate_result xs ys h k n m =
    let (z, run, eq, v) = x_sub-lem xs ys h k n m in
    (negated z, rw run refl, negated-value z ∙ ap (λ t. pos 0 -ℤ t) eq, negated-IsValid v)

sub_signed-lem :
    (s t : Bool) (xs ys : Digits)
    → IsDigits xs
    → IsDigits ys
    → IsNormal xs
    → IsNormal ys
    → Gives (sub_signed s t xs ys) (signed s (val xs) -ℤ signed t (val ys))
unfolding sub_signed ◌-ℤ◌
sub_signed-lem true true xs ys h k n m = Gives-of (ground arith) (negate_result xs ys h k n m)
sub_signed-lem true false xs ys h k n m = Gives-of (ground arith) (add_like true xs ys h k)
sub_signed-lem false true xs ys h k n m = Gives-of (ground arith) (add_like false xs ys h k)
sub_signed-lem false false xs ys h k n m = Gives-of (ground arith) (x_sub-lem xs ys h k n m)

-- `long_add` of two integers whose digits are in range, normalized or not, returns their sum as a
-- normalized integer: no assertion fails and no digit overflows.
pub long_add-lem :
    (v w : Long) → IsDigits v.digit → IsDigits w.digit → Gives (long_add v w) (value v +ℤ value w)
unfolding long_add
long_add-lem v w h k =
    let a = long_normalize-IsValid v h in
    let b = long_normalize-IsValid w k in
    rw (← long_normalize-value v, ← long_normalize-value w)
      (add_signed-lem (long_normalize v).negative (long_normalize w).negative
        (long_normalize v).digit (long_normalize w).digit a.digits b.digits a.normal b.normal)

-- `long_sub` of two integers whose digits are in range returns their difference as a normalized integer.
pub long_sub-lem :
    (v w : Long) → IsDigits v.digit → IsDigits w.digit → Gives (long_sub v w) (value v -ℤ value w)
unfolding long_sub
long_sub-lem v w h k =
    let a = long_normalize-IsValid v h in
    let b = long_normalize-IsValid w k in
    rw (← long_normalize-value v, ← long_normalize-value w)
      (sub_signed-lem (long_normalize v).negative (long_normalize w).negative
        (long_normalize v).digit (long_normalize w).digit a.digits b.digits a.normal b.normal)
