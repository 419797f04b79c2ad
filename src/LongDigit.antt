-- ===== src/LongDigit.antt =====
-- Multiplication and division on the digits of integers (src/builtins-int.c): by one digit, and the
-- grade school product.
pub mod OneDigit
pub mod Product
use prothon.Base.{
  ℕ, zero, suc, ◌+◌, ◌-◌, ◌*◌, ◌/◌, ◌%◌, ◌^◌, Bool, true, false, Option, none, some, ◌>>=◌, List,
  [], ◌∷◌, ltb, ◌==◌, if◌then◌else◌, length, ◌++◌,
}
use prothon.Long.{base, u16, u64, Digits, normalize}

-- The loop of `muladd1` and the last digit; `extra` is the carry at the start.
unfoldable pub muladd_from : (n carry : ℕ) → Digits → Digits
muladd_from n c [] = u16 c ∷ []
muladd_from n c (x ∷ xs) = (u64 (c + x * n) % base) ∷ muladd_from n (u64 (c + x * n) / base) xs

unfoldable pub muladd1 : Digits → (n extra : ℕ) → Digits
unfolding muladd_from normalize
muladd1 a n extra = normalize (muladd_from n extra a)

unfoldable pub mul1 : Digits → (n : ℕ) → Digits
unfolding muladd1
mul1 a n = muladd1 a n 0

-- One round of the loop of `inplace_divrem1`, below the digits `q` of the quotient that are done.
unfoldable pub divrem_step : (n x : ℕ) → Digits × ℕ → Digits × ℕ
divrem_step n x (q, rem) =
    let t = u64 (rem * base + x) in let hi = u16 (t / n) in (hi ∷ q, u64 (t + 2 ^ 64 - hi * n))

-- The loop goes from the leading digit down.
unfoldable pub inplace_divrem1 : Digits → (n : ℕ) → Digits × ℕ
unfolding divrem_step
inplace_divrem1 [] n = ([], 0)
inplace_divrem1 (x ∷ xs) n = divrem_step n x (inplace_divrem1 xs n)

-- The quotient, and `*prem`.
unfoldable pub divrem1 : Digits → (n : ℕ) → Digits × ℕ
unfolding inplace_divrem1 normalize
divrem1 a n = let r = inplace_divrem1 a n in (normalize (r.0), u16 (r.1))

-- for (; carry != 0; ++j): the carry goes up through the digits `zs` of the result. `none` where
-- pr_assert(i+j < z->dsize) fails.
unfoldable pub spill : (carry : ℕ) → (zs : Digits) → Option Digits
spill c [] = if c == 0 then some [] else none
spill c (z ∷ zs) =
    let rest = spill (u64 (c + z) / base) zs in
    if c == 0 then some (z ∷ zs) else rest >>= λ ds. some ((u64 (c + z) % base) ∷ ds)

-- The loops over `j`: the digits `ys` of `b`, times the digit `f` of `a`, are added to the digits `zs`.
unfoldable pub mul_row : (carry f : ℕ) → (zs ys : Digits) → Option Digits
unfolding spill
mul_row c f zs [] = spill c zs
mul_row c f [] (y ∷ ys) = none
mul_row c f (z ∷ zs) (y ∷ ys) = mul_row (u64 (c + u64 (z + y * f)) / base) f zs ys >>= λ ds.
    some ((u64 (c + u64 (z + y * f)) % base) ∷ ds)

-- The lowest digit of a row is final.
abbrev pub onto_first : Digits → (Digits → Option Digits) → Option Digits
onto_first [] k = none
onto_first (z ∷ zs) k = k zs >>= λ ds. some (z ∷ ds)

-- The loop over `i`, on the digits of the result from `i` on.
unfoldable pub mul_rows : (xs ys zs : Digits) → Option Digits
unfolding mul_row
mul_rows [] ys zs = some zs
mul_rows (x ∷ xs) ys zs = mul_row 0 x zs ys >>= λ ds. onto_first ds (λ rest. mul_rows xs ys rest)

-- memset(z->digit, 0, ...)
abbrev pub zeros : (xs ys : Digits) → Digits
zeros [] [] = []
zeros [] (y ∷ ys) = 0 ∷ zeros [] ys
zeros (x ∷ xs) ys = 0 ∷ zeros xs ys

unfoldable pub x_mul : (a b : Digits) → Option Digits
unfolding mul_rows normalize
x_mul a b = mul_rows a b (zeros a b) >>= λ zs. some (normalize zs)
