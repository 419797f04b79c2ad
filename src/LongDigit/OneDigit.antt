-- ===== src/LongDigit/OneDigit.antt =====
-- Multiplication and division by one digit.
use prothon.Base.{ℕ, ◌+◌, ◌*◌, ◌/◌, ◌≤◌, ◌<◌, ◌≡◌, ap, [], ◌∷◌, arith}
use native.Mathlib.Nat.{mul-le-mul, div-lt_iff_lt-mul, mod-eq-sub-div-mul, mod-lt, div-mul-le_self}
use prothon.Long.{base, u16, u64, Digits, normalize}
use prothon.Long.Value.{
  val, IsDigits, IsNormal, val-normalize, normalize-digits, normalize-IsNormal,
}
use prothon.LongDigit.{muladd_from, muladd1, divrem_step, inplace_divrem1, divrem1}

-- A digit times a digit leaves room for another two in a `twodigits`.
pub digit_product-le : (x n : ℕ) → x < base → n ≤ base → x * n ≤ 32767 * 32768
digit_product-le x n h k = mul-le-mul {n₁ = x} {m₁ = n} {n₂ = 32767} {m₂ = 32768} (omega arith) k

muladd_from-lem :
    (n c : ℕ) (xs : Digits)
    → n ≤ base
    → c < base
    → IsDigits xs
    → (val (muladd_from n c xs) ≡ val xs * n + c) × IsDigits (muladd_from n c xs)
unfolding muladd_from
muladd_from-lem n c [] h l k = (omega arith, (omega arith, tt))
muladd_from-lem n c (x ∷ xs) h l (k, ks) =
    let small = digit_product-le x n k h in
    let rest = muladd_from-lem n (u64 (c + x * n) / base) xs h (omega (arith, small)) ks in
    (omega (arith, rest.0, small), (omega arith, rest.1))

divrem_step-lem :
    (n x r m : ℕ) (q : Digits)
    → 0 < n
    → n < base
    → x < base
    → r < n
    → IsDigits q
    → val q * n + r ≡ m
    → (val ((divrem_step n x (q, r)).0) * n + (divrem_step n x (q, r)).1 ≡ x + base * m)
      × ((divrem_step n x (q, r)).1 < n)
      × IsDigits ((divrem_step n x (q, r)).0)
unfolding divrem_step
divrem_step-lem n x r m q pos below h k ds e =
    let small : u64 (r * base + x) ≡ r * base + x = omega arith in
    let lt : (r * base + x) / n < base = (div-lt_iff_lt-mul pos).1 (omega arith) in
    let hi : u16 ((r * base + x) / n) ≡ (r * base + x) / n = omega (arith, lt) in
    let left = mod-eq-sub-div-mul (r * base + x) n in
    let low = mod-lt (r * base + x) pos in
    let le = div-mul-le_self (r * base + x) n in
    rw (small, hi) (omega (arith, e, left, le), omega (arith, left, low, le), (lt, ds))

-- `inplace_divrem1` by a digit other than 0 divides with remainder: the digits of the quotient and the
-- remainder below the divisor.
pub inplace_divrem1-lem :
    (xs : Digits) (n : ℕ)
    → 0 < n
    → n < base
    → IsDigits xs
    → (val ((inplace_divrem1 xs n).0) * n + (inplace_divrem1 xs n).1 ≡ val xs)
      × ((inplace_divrem1 xs n).1 < n)
      × IsDigits ((inplace_divrem1 xs n).0)
unfolding inplace_divrem1
inplace_divrem1-lem [] n pos below h = (omega arith, pos, tt)
inplace_divrem1-lem (x ∷ xs) n pos below (h, hs) =
    let (eq, lt, ds) = inplace_divrem1-lem xs n pos below hs in
    divrem_step-lem n x ((inplace_divrem1 xs n).1) (val xs) ((inplace_divrem1 xs n).0) pos below h
      lt ds eq

-- `divrem1` of digits in range by a digit `n` other than 0 gives a normalized quotient and a remainder
-- below `n`, and `muladd1` of the quotient by `n` with the remainder gives the number back.
pub muladd1-divrem1 :
    (a : Digits) (n : ℕ)
    → 0 < n
    → n < base
    → IsDigits a
    → ((divrem1 a n).1 < n)
      × IsDigits ((divrem1 a n).0)
      × IsNormal ((divrem1 a n).0)
      × (val (muladd1 ((divrem1 a n).0) n ((divrem1 a n).1)) ≡ val a)
unfolding divrem1 muladd1
muladd1-divrem1 a n pos below h =
    let (eq, lt, ds) = inplace_divrem1-lem a n pos below h in
    let q = (inplace_divrem1 a n).0 in
    let r = (inplace_divrem1 a n).1 in
    let small : u16 r ≡ r = omega (arith, lt) in
    let kept = normalize-digits q ds in
    let product = muladd_from-lem n r (normalize q) (omega arith) (omega (arith, lt)) kept in
    rw small (
      lt,
      kept,
      normalize-IsNormal q,
      omega (
        arith,
        val-normalize (muladd_from n r (normalize q)),
        product.0,
        ap (λ (t : ℕ). t * n) (val-normalize q),
        eq,
      ),
    )
