-- ===== src/LongDigit/Product.antt =====
-- The grade school product.
use prothon.Base.{
  ℕ, ◌+◌, ◌*◌, ◌/◌, ◌%◌, ◌≤◌, ◌<◌, ◌≡◌, refl, inl, inr, Option, some, [], ◌∷◌, ◌==◌, length, arith,
  Bool-cases,
}
use native.Mathlib.Nat.{mul_comm, mul-le-mul}
use prothon.Long.{base, u64, Digits, normalize}
use prothon.Long.Value.{
  val, weight, IsDigits, IsNormal, val-lt-weight, val-normalize, normalize-digits,
  normalize-IsNormal,
}
use prothon.LongDigit.{spill, mul_row, onto_first, mul_rows, zeros, x_mul}

-- The code gives digits that stand for `m`, as many as `zs` has.
abbrev Fills : Option Digits → (m : ℕ) → (zs : Digits) → Type 0
Fills r m zs = (ds : Digits) × (r ≡ some ds) × (val ds ≡ m) × IsDigits ds × (length ds ≡ length zs)

digits_product-le : (x n : ℕ) → x < base → n < base → x * n ≤ 32767 * 32767
digits_product-le x n h k =
    mul-le-mul {n₁ = x} {m₁ = n} {n₂ = 32767} {m₂ = 32767} (omega arith) (omega arith)

weight-eq : (xs ys : Digits) → length xs ≡ length ys → weight xs ≡ weight ys
weight-eq [] [] h = refl
weight-eq [] (y ∷ ys) h = absurd (omega arith)
weight-eq (x ∷ xs) [] h = absurd (omega arith)
weight-eq (x ∷ xs) (y ∷ ys) h = omega (arith, weight-eq xs ys (omega arith))

spill-lem :
    (c : ℕ) (zs : Digits)
    → c < base
    → val zs + c < weight zs
    → IsDigits zs
    → Fills (spill c zs) (val zs + c) zs
unfolding spill
spill-lem c [] h l k = let z : c ≡ 0 = omega arith in rw z ([], refl, refl, tt, refl)
spill-lem c (z ∷ zs) h l (k, ks) = elim (Bool-cases (c == 0)) [
  | inl e ↦ rw e (z ∷ zs, refl, ground (arith, e), (k, ks), refl)
  | inr e ↦
      let (ds, run, eq, d, w) = spill-lem (u64 (c + z) / base) zs (omega arith) (omega arith) ks in
      rw e (
        (u64 (c + z) % base) ∷ ds,
        rw run refl,
        omega (arith, eq),
        (omega arith, d),
        omega (arith, w),
      )
]

mul_row-lem :
    (c f : ℕ) (zs ys : Digits)
    → c < base
    → f < base
    → length ys ≤ length zs
    → val zs + (c + val ys * f) < weight zs
    → IsDigits zs
    → IsDigits ys
    → Fills (mul_row c f zs ys) (val zs + (c + val ys * f)) zs
unfolding mul_row
mul_row-lem c f [] [] h g n l k m =
    let (ds, run, eq, d, w) = spill-lem c [] h (omega arith) k in (ds, run, omega (arith, eq), d, w)
mul_row-lem c f (z ∷ zs) [] h g n l k m =
    let (ds, run, eq, d, w) = spill-lem c (z ∷ zs) h (omega arith) k in
    (ds, run, omega (arith, eq), d, w)
mul_row-lem c f [] (y ∷ ys) h g n l k m = absurd (omega arith)
mul_row-lem c f (z ∷ zs) (y ∷ ys) h g n l (k, ks) (m, ms) =
    let small = digits_product-le y f m g in
    let (ds, run, eq, d, w) =
      mul_row-lem (u64 (c + u64 (z + y * f)) / base) f zs ys (omega (arith, small)) g (omega arith)
        (omega (arith, l, small)) ks ms in
    (
      (u64 (c + u64 (z + y * f)) % base) ∷ ds,
      rw run refl,
      omega (arith, eq, small),
      (omega arith, d),
      omega (arith, w),
    )

-- The numbers behind the first digit of what a row gives.
below_first :
    (x z m v p w : ℕ) (ds : Digits)
    → z + base * val ds ≡ m + x * v
    → m + (x + base * p) * v < base * w
    → val ds + p * v < w
below_first x z m v p w ds e l = omega (arith, e, l)

mul_rows-lem :
    (xs ys zs : Digits)
    → length xs + length ys ≤ length zs
    → val zs + val xs * val ys < weight zs
    → IsDigits xs
    → IsDigits ys
    → IsDigits zs
    → Fills (mul_rows xs ys zs) (val zs + val xs * val ys) zs
unfolding mul_rows
mul_rows-lem [] ys zs n l h k m = (zs, refl, omega arith, m, refl)
mul_rows-lem (x ∷ xs) ys zs n l (h, hs) k m =
    let (ds, run, eq, d, w) =
      mul_row-lem 0 x zs ys (omega arith) h (omega arith) (omega (arith, l, mul_comm (val ys) x)) m
        k in
    rw run (
      step ds (omega (arith, eq, mul_comm (val ys) x)) d w
        (λ rest n l m. mul_rows-lem xs ys rest n l hs k m))
  where
    step :
        (ds : Digits)
        → val ds ≡ val zs + x * val ys
        → IsDigits ds
        → length ds ≡ length zs
        → ((rest : Digits)
            → length xs + length ys ≤ length rest
            → val rest + val xs * val ys < weight rest
            → IsDigits rest
            → Fills (mul_rows xs ys rest) (val rest + val xs * val ys) rest)
        → Fills (onto_first ds (λ rest. mul_rows xs ys rest)) (val zs + val (x ∷ xs) * val ys) zs
    step [] eq d w next = absurd (omega (arith, w, n))
    step (z ∷ rest) eq d w next =
        let same = weight-eq (z ∷ rest) zs w in
        let room : val zs + (x + base * val xs) * val ys < base * weight rest =
          omega (arith, same, l) in
        let (es, run, e, f, v) =
          next rest (omega (arith, w, n))
            (below_first x z (val zs) (val ys) (val xs) (weight rest) rest eq room) d.1 in
        (z ∷ es, rw run refl, omega (arith, e, eq), (d.0, f), omega (arith, v, w))

zeros-lem :
    (xs ys : Digits)
    → IsDigits xs
    → IsDigits ys
    → (length (zeros xs ys) ≡ length xs + length ys)
      × (val (zeros xs ys) ≡ 0)
      × (weight (zeros xs ys) ≡ weight xs * weight ys)
      × IsDigits (zeros xs ys)
zeros-lem [] [] h k = (refl, refl, refl, tt)
zeros-lem [] (y ∷ ys) h k =
    let (a, b, c, d) = zeros-lem [] ys tt k.1 in
    (omega (arith, a), omega (arith, b), omega (arith, c), (omega arith, d))
zeros-lem (x ∷ xs) ys h k =
    let (a, b, c, d) = zeros-lem xs ys h.1 k in
    (omega (arith, a), omega (arith, b), omega (arith, c), (omega arith, d))

mul-lt-mul : (a b v w : ℕ) → a < v → b < w → a * b < v * w
mul-lt-mul a b v w h k =
    let first =
      mul-le-mul {n₁ = a + 1} {m₁ = b + 1} {n₂ = v} {m₂ = w} (omega arith) (omega arith) in
    omega (arith, first)

-- `x_mul` of two numbers whose digits are in range gives the product of their absolute values, in digits
-- in range and without leading zeros; the carry of no row runs past the digits of the result.
pub x_mul-lem :
    (a b : Digits)
    → IsDigits a
    → IsDigits b
    → (z : Digits) × (x_mul a b ≡ some z) × (val z ≡ val a * val b) × IsDigits z × IsNormal z
unfolding x_mul
x_mul-lem a b h k =
    let (len, none_yet, w, d) = zeros-lem a b h k in
    let room : val (zeros a b) + val a * val b < weight (zeros a b) = omega (
      arith,
      none_yet,
      w,
      mul-lt-mul (val a) (val b) (weight a) (weight b) (val-lt-weight a h) (val-lt-weight b k),
    ) in
    let (ds, run, eq, e, v) = mul_rows-lem a b (zeros a b) (omega (arith, len)) room h k d in
    (
      normalize ds,
      rw run refl,
      omega (arith, val-normalize ds, eq, none_yet),
      normalize-digits ds e,
      normalize-IsNormal ds,
    )
