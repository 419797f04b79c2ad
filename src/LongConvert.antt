-- ===== src/LongConvert.antt =====
-- Integers of any size and those of the machine (src/builtins-int.c): conversion, comparison, `long_invert`.
pub mod Machine
pub mod Compare
use prothon.Base.{
  ℕ, zero, suc, ◌+◌, ◌-◌, ◌*◌, ◌/◌, ◌%◌, ◌^◌, Bool, true, false, not, ◌&&◌, ◌||◌, Option, none,
  some, ◌>>=◌, [], ◌∷◌, ltb, ◌==◌, if◌then◌else◌, length, ℤ, pos, negsuc, sub_ℕ, pos_part, neg_part,
  is_neg,
}
use prothon.Base.Int.{◌-ℤ◌}
use prothon.World.{overflow_exc}
use prothon.Tuples.{Result, returns, fails, minus_one}
use prothon.Long.{base, u64, Digits, Long, with_sign, negated, top, differing, long_add}

-- while (t) { *p++ = (digit)(t & MASK); t >>= SHIFT; } in at most `rounds` rounds.
unfoldable pub digits_of : (rounds t : ℕ) → Digits
digits_of zero t = []
digits_of (suc r) t = let rest = digits_of r (t / base) in if t == 0 then [] else (t % base) ∷ rest

-- `new_longp`: five digits hold 64 bits.
unfoldable pub new_longp : ℤ → Long
unfolding digits_of
new_longp i = with_sign (is_neg i) (digits_of 5 (pos_part i + neg_part i))

-- The loop of `longp2int64` and of `longp2int32`, from the leading digit down; `none` is the overflow.
unfoldable pub gather : Digits → Option ℕ
gather [] = some 0
gather (d ∷ ds) =
    gather ds >>= λ prev. let x = u64 (prev * base + d) in if x / base == prev then some x else none

-- (i64_t) x and (i32_t) x
abbrev pub as_i64 : ℕ → ℤ
as_i64 x = if ltb x (2 ^ 63) then pos x else negsuc (2 ^ 64 - 1 - x)

abbrev pub as_i32 : ℕ → ℤ
as_i32 x = if ltb (x % 2 ^ 32) (2 ^ 31) then pos (x % 2 ^ 32) else negsuc (2 ^ 32 - 1 - x % 2 ^ 32)

-- `x * sign`, where only -(2 ^ 63) is left as it is.
abbrev pub times_sign : Bool → ℕ → ℕ
times_sign s x = if s then u64 (2 ^ 64 - x) else x

-- The test of the sign bit, and the result.
abbrev pub fit_i64 : Bool → ℕ → Result ℤ
fit_i64 s x =
    if is_neg (as_i64 x) && (not s || not (u64 (x * 2) == 0))
    then fails overflow_exc
    else returns (as_i64 (times_sign s x))

abbrev pub or_overflow : Option ℕ → (ℕ → Result ℤ) → Result ℤ
or_overflow none k = fails overflow_exc
or_overflow (some x) k = k x

unfoldable pub longp2int64 : Long → Result ℤ
unfolding gather
longp2int64 v = or_overflow (gather v.digit) (fit_i64 v.negative)

-- (i32_t) x * sign, with the test as `longp2int32` makes it on the 64 bits of `x`.
abbrev pub fit_i32 : Bool → ℕ → Result ℤ
fit_i32 s x =
    if is_neg (as_i32 x) && (not s || not (u64 (x * 2) == 0))
    then fails overflow_exc
    else returns (as_i32 (times_sign s x))

unfoldable pub longp2int32 : Long → Result ℤ
unfolding gather
longp2int32 v = or_overflow (gather v.digit) (fit_i32 v.negative)

-- sign < 0 ? -1 : sign > 0 ? 1 : 0
abbrev pub sign_of : ℤ → ℤ
sign_of (pos zero) = pos 0
sign_of (pos (suc n)) = pos 1
sign_of (negsuc n) = minus_one

-- `dsize`
abbrev pub dsize_of : Bool → Digits → ℤ
dsize_of s ds = if s then sub_ℕ 0 (length ds) else pos (length ds)

-- The comparison of the first digits that differ, for numbers of one sign.
abbrev pub compare_top : Bool → Digits × Digits → ℤ
compare_top s ([], q) = pos 0
compare_top s (x ∷ p, q) =
    if s then sign_of (sub_ℕ (top q) (top (x ∷ p))) else sign_of (sub_ℕ (top (x ∷ p)) (top q))

abbrev pub same_int : ℤ → ℤ → Bool
same_int a b = (pos_part a == pos_part b) && (neg_part a == neg_part b)

unfoldable pub compare_signed : (s t : Bool) → (xs ys : Digits) → ℤ
unfolding differing ◌-ℤ◌
compare_signed s t xs ys =
    if same_int (dsize_of s xs) (dsize_of t ys)
    then compare_top s (differing xs ys)
    else sign_of (dsize_of s xs -ℤ dsize_of t ys)

unfoldable pub long_compare : (a b : Long) → ℤ
unfolding compare_signed
long_compare a b = compare_signed a.negative b.negative a.digit b.digit

-- ~x as -(x+1)
unfoldable pub long_invert : Long → Option Long
unfolding long_add new_longp
long_invert v = long_add v (new_longp (pos 1)) >>= λ x. some (negated x)
