-- ===== src/Long.antt =====
-- Integers of any size (src/builtins-int.c, `long_p`): a sign and digits in base 2 ^ 15, the least one
-- first. `dsize` is the number of digits, negative for a negative integer; memory is taken not to run
-- out. A digit has 16 bits (`u16_t`), a `twodigits` 64 (`unsigned long`).
pub mod Value
pub mod Add
pub mod Subtract
pub mod Sum
use prothon.Base.{
  ℕ, zero, suc, ◌+◌, ◌-◌, ◌*◌, ◌/◌, ◌%◌, ◌^◌, Bool, true, false, not, ◌&&◌, Option, none, some,
  ◌>>=◌, List, [], ◌∷◌, ltb, ◌==◌, if◌then◌else◌, length, ℤ, pos, negsuc, sub_ℕ, take, drop,
}
use prothon.World.{Exc, overflow_exc}
use prothon.Tuples.{Result, returns, fails}

-- BASE; `x & MASK` is `x % base`, and `x >> SHIFT` is `x / base`.
abbrev pub base : ℕ
base = 32768

-- The truncation to `digit` and to `twodigits`.
abbrev pub u16 : ℕ → ℕ
u16 x = x % 65536

abbrev pub u64 : ℕ → ℕ
u64 x = x % 2 ^ 64

abbrev pub Digits : Type 0
Digits = List ℕ

-- `long_t`
pub record Long : Type 0 where
  pub negative : Bool
  pub digit : Digits

-- dsize = negative ? -n : n for the `n` digits; 0 has no sign.
abbrev pub with_sign : Bool → Digits → Long
with_sign s [] = record { negative = false; digit = [] }
with_sign s (d ∷ ds) = record { negative = s; digit = d ∷ ds }

-- dsize = -(dsize)
abbrev pub negated : Long → Long
negated v = with_sign (not v.negative) v.digit

-- `long_normalize`: the leading zeros are cut off.
unfoldable pub normalize : Digits → Digits
normalize [] = []
normalize (d ∷ ds) = elim (normalize ds) [
  | [] ↦ if d == 0 then [] else d ∷ []
  | e ∷ es ↦ d ∷ e ∷ es
]

unfoldable pub long_normalize : Long → Long
unfolding normalize
long_normalize v = with_sign v.negative (normalize v.digit)

-- The second loop of `x_add`, and the last digit.
unfoldable pub add_rest : (carry : ℕ) → Digits → Digits
add_rest c [] = c ∷ []
add_rest c (x ∷ xs) = (u16 (c + x) % base) ∷ add_rest (u16 (c + x) / base) xs

-- The first loop of `x_add`, on `a` and the shorter `b`.
unfoldable pub add_both : (carry : ℕ) → (a b : Digits) → Digits
unfolding add_rest
add_both c xs [] = add_rest c xs
add_both c [] (y ∷ ys) = c ∷ []
add_both c (x ∷ xs) (y ∷ ys) = (u16 (c + x + y) % base) ∷ add_both (u16 (c + x + y) / base) xs ys

unfoldable pub x_add : (a b : Digits) → Digits
unfolding add_both normalize
x_add a b = normalize (if ltb (length a) (length b) then add_both 0 b a else add_both 0 a b)

-- borrow = x - y - borrow, in 16 bits
abbrev pub sub_word : (x y borrow : ℕ) → ℕ
sub_word x y w = u16 (x + 2 * 65536 - y - w)

-- The second loop of `x_sub`; `none` where pr_assert(borrow == 0) fails.
unfoldable pub sub_rest : (borrow : ℕ) → Digits → Option Digits
sub_rest w [] = if w == 0 then some [] else none
sub_rest w (x ∷ xs) =
    sub_rest (sub_word x 0 w / base % 2) xs >>= λ zs. some ((sub_word x 0 w % base) ∷ zs)

-- The first loop of `x_sub`, on `a` and the shorter `b`.
unfoldable pub sub_both : (borrow : ℕ) → (a b : Digits) → Option Digits
unfolding sub_rest
sub_both w xs [] = sub_rest w xs
sub_both w [] (y ∷ ys) = none
sub_both w (x ∷ xs) (y ∷ ys) =
    sub_both (sub_word x y w / base % 2) xs ys >>= λ zs. some ((sub_word x y w % base) ∷ zs)

-- One step of the search for the leading digits that differ, from the least digits on.
abbrev pub keep_differing : (x y : ℕ) → Digits × Digits → Digits × Digits
keep_differing x y ([], q) = if x == y then ([], []) else (x ∷ [], y ∷ [])
keep_differing x y (d ∷ ds, q) = (x ∷ d ∷ ds, y ∷ q)

-- while (--i >= 0 && a->digit[i] == b->digit[i]): the numbers of one size without the leading digits
-- that they share.
unfoldable pub differing : (a b : Digits) → Digits × Digits
differing [] ys = ([], [])
differing (x ∷ xs) [] = ([], [])
differing (x ∷ xs) (y ∷ ys) = keep_differing x y (differing xs ys)

-- The leading digit.
abbrev pub top : Digits → ℕ
top [] = 0
top (d ∷ []) = d
top (d ∷ e ∷ es) = top (e ∷ es)

abbrev pub signed_result : Bool → Option Digits → Option Long
signed_result s r = r >>= λ zs. some (long_normalize (with_sign s zs))

-- The two numbers of one size, less the leading digits that they share.
unfoldable pub sub_differing : Digits × Digits → Option Long
unfolding sub_both long_normalize
sub_differing ([], ys) = some (with_sign false [])
sub_differing (x ∷ xs, ys) =
    if ltb (top (x ∷ xs)) (top ys)
    then signed_result true (sub_both 0 ys (x ∷ xs))
    else signed_result false (sub_both 0 (x ∷ xs) ys)

unfoldable pub x_sub : (a b : Digits) → Option Long
unfolding sub_both long_normalize differing sub_differing
x_sub a b =
    if ltb (length a) (length b)
    then signed_result true (sub_both 0 b a)
    else if length a == length b
    then sub_differing (differing a b)
    else signed_result false (sub_both 0 a b)

-- The cases of `long_add` on the normalized numbers, by their signs.
unfoldable pub add_signed : (a b : Bool) → (xs ys : Digits) → Option Long
unfolding x_add x_sub
add_signed true true xs ys = some (with_sign true (x_add xs ys))
add_signed true false xs ys = x_sub ys xs
add_signed false true xs ys = x_sub xs ys
add_signed false false xs ys = some (with_sign false (x_add xs ys))

unfoldable pub long_add : (v w : Long) → Option Long
unfolding add_signed
long_add v w =
    let a = long_normalize v in
    let b = long_normalize w in add_signed a.negative b.negative a.digit b.digit

-- The cases of `long_sub`.
unfoldable pub sub_signed : (a b : Bool) → (xs ys : Digits) → Option Long
unfolding x_add x_sub
sub_signed true true xs ys = x_sub xs ys >>= λ z. some (negated z)
sub_signed true false xs ys = some (with_sign true (x_add xs ys))
sub_signed false true xs ys = some (with_sign false (x_add xs ys))
sub_signed false false xs ys = x_sub xs ys

unfoldable pub long_sub : (v w : Long) → Option Long
unfolding sub_signed
long_sub v w =
    let a = long_normalize v in
    let b = long_normalize w in sub_signed a.negative b.negative a.digit b.digit
