-- ===== src/IntMethods.antt =====
-- The methods of integers (src/builtins-int.c, DEF(Int, ...)). An integer object holds 64 bits, or the
-- digits of an integer of any size. The test that the object holds an integer (BIN_CONTENT_CHK) has
-- passed.
pub mod Sums
pub mod Signs
use prothon.Base.{
  ℕ, zero, suc, ◌+◌, ◌-◌, ◌*◌, ◌%◌, ◌^◌, Bool, true, false, not, ◌&&◌, ◌||◌, Option, none, some, [],
  ◌∷◌, ltb, ◌==◌, if◌then◌else◌, length, ℤ, pos, negsuc, sub_ℕ, pos_part, neg_part, ltb_ℤ,
}
use prothon.Base.Int.{◌+ℤ◌, ◌-ℤ◌}
use prothon.World.{Exc, type_exc}
use prothon.Long.{Long, with_sign, negated, long_normalize, long_add, long_sub}
use prothon.LongConvert.{as_i64, as_i32, new_longp, long_compare, long_invert, sign_of, same_int}

-- DATA_TYPE_IMMDATA with `data.i64`, or DATA_TYPE_DATAPTR with the block.
pub data IntObj : Type 0 where
  imm : ℤ → IntObj
  big : Long → IntObj

-- What a method returns, or the exception that it raises; `aborted` where an assertion fails.
pub data Outcome {ℓ} (A : Type ℓ) : Type ℓ where
  gives : A → Outcome A
  error : Exc → Outcome A
  aborted : Outcome A

-- The other operand: an integer, an object that covers integers, with what its own method returns, or
-- any other object.
pub data Operand {ℓ} (A : Type ℓ) : Type ℓ where
  integer : IntObj → Operand A
  covering : Outcome A → Operand A
  foreign : Operand A

-- if (!is_Int(other)) { ... }
abbrev pub with_integer {ℓ} : {A : Type ℓ} → Operand A → (IntObj → Outcome A) → Outcome A
with_integer (integer n) k = k n
with_integer (covering r) k = r
with_integer foreign k = error type_exc

-- The low 64 bits of an integer.
abbrev pub low64 : ℤ → ℕ
low64 (pos n) = n % 2 ^ 64
low64 (negsuc n) = 2 ^ 64 - 1 - n % 2 ^ 64

-- Arithmetic on `i64_t`, which wraps.
abbrev pub wrap64 : ℤ → ℤ
wrap64 i = as_i64 (low64 i)

-- MAX64; MIN64 is -MAX64.
abbrev pub max64 : ℕ
max64 = 0x3fff_ffff_ffff_ffff

abbrev pub is_below_max : ℤ → Bool
is_below_max i = ltb_ℤ i (pos max64)

abbrev pub is_above_min : ℤ → Bool
is_above_min i = ltb_ℤ (sub_ℕ 0 max64) i

unfoldable pub as_long : IntObj → Long
unfolding new_longp
as_long (imm i) = new_longp i
as_long (big v) = v

-- `new_int_long_obj`
abbrev pub new_int_long_obj : Option Long → Outcome IntObj
unfolding long_normalize
new_int_long_obj none = aborted
new_int_long_obj (some z) = gives (big (long_normalize z))

unfoldable pub add_longs : IntObj → IntObj → Outcome IntObj
unfolding as_long long_add long_normalize
add_longs a b = new_int_long_obj (long_add (as_long a) (as_long b))

unfoldable pub add_ints : IntObj → IntObj → Outcome IntObj
unfolding add_longs ◌+ℤ◌
add_ints (imm s) (imm o) =
    if (is_below_max s || is_below_max o) && (is_above_min s || is_above_min o)
    then gives (imm (wrap64 (s +ℤ o)))
    else add_longs (imm s) (imm o)
add_ints (imm s) (big w) = add_longs (imm s) (big w)
add_ints (big v) b = add_longs (big v) b

unfoldable pub int_add : IntObj → Operand IntObj → Outcome IntObj
unfolding add_ints
int_add self other = with_integer other (add_ints self)

unfoldable pub sub_longs : IntObj → IntObj → Outcome IntObj
unfolding as_long long_sub long_normalize
sub_longs a b = new_int_long_obj (long_sub (as_long a) (as_long b))

unfoldable pub sub_ints : IntObj → IntObj → Outcome IntObj
unfolding sub_longs ◌-ℤ◌
sub_ints (imm s) (imm o) =
    if is_below_max s && is_below_max o && (is_above_min s && is_above_min o)
    then gives (imm (wrap64 (s -ℤ o)))
    else sub_longs (imm s) (imm o)
sub_ints (imm s) (big w) = sub_longs (imm s) (big w)
sub_ints (big v) b = sub_longs (big v) b

unfoldable pub int_sub : IntObj → Operand IntObj → Outcome IntObj
unfolding sub_ints
int_sub self other = with_integer other (sub_ints self)

unfoldable pub cmp_ints : IntObj → IntObj → ℤ
unfolding as_long long_compare ◌-ℤ◌
cmp_ints (imm s) (imm o) = if same_int s o then pos 0 else if ltb_ℤ o s then pos 1 else negsuc 0
cmp_ints (imm s) (big w) = long_compare (as_long (imm s)) w
cmp_ints (big v) b = long_compare v (as_long b)

-- The part of `cmp_` behind the conversion of a character.
unfoldable pub int_cmp : IntObj → Operand ℤ → Outcome ℤ
unfolding cmp_ints
int_cmp self other = with_integer other (λ b. gives (cmp_ints self b))

unfoldable pub eq_ints : IntObj → IntObj → Bool
unfolding as_long long_compare
eq_ints (imm s) (imm o) = same_int s o
eq_ints (imm s) (big w) = same_int (long_compare (as_long (imm s)) w) (pos 0)
eq_ints (big v) b = same_int (long_compare v (as_long b)) (pos 0)

-- The part of `eq?` behind the conversion of a character; an object that does not cover integers is
-- not equal to one.
unfoldable pub int_eq : IntObj → Operand Bool → Outcome Bool
unfolding eq_ints
int_eq self (integer n) = gives (eq_ints self n)
int_eq self (covering r) = r
int_eq self foreign = gives false

unfoldable pub int_bool : IntObj → Bool
int_bool (imm i) = not (same_int i (pos 0))
int_bool (big v) = not (length v.digit == 0)

-- The sign of the copy is changed, without a test of its size.
unfoldable pub int_neg : IntObj → IntObj
unfolding ◌-ℤ◌
int_neg (imm i) = imm (wrap64 (pos 0 -ℤ i))
int_neg (big v) = big (negated v)

-- `abs` of the C library is that of `int`: it takes the low 32 bits. On Windows `abs` is a macro of
-- include/prothon/prothon.h, that takes all 64.
abbrev pub abs32 : ℤ → ℤ
abs32 (pos n) = pos n
abs32 (negsuc n) = if n == 2 ^ 31 - 1 then negsuc n else pos (suc n)

abbrev pub abs_macro : ℤ → ℤ
abs_macro (pos n) = pos n
abs_macro (negsuc n) = wrap64 (pos (suc n))

unfoldable pub int_abs : (win32 : Bool) → IntObj → IntObj
int_abs true (imm i) = imm (abs_macro i)
int_abs false (imm i) = imm (abs32 (as_i32 (low64 i)))
int_abs win32 (big v) = big (with_sign false v.digit)

unfoldable pub int_invert : IntObj → Outcome IntObj
unfolding long_invert long_normalize ◌-ℤ◌ ◌+ℤ◌
int_invert (imm i) = gives (imm (pos 0 -ℤ (i +ℤ pos 1)))
int_invert (big v) = new_int_long_obj (long_invert v)
