-- ===== src/Tests/Integers.antt =====
-- The theorems on integers at concrete ones.
use prothon.Base.{
  ◌+◌, ◌-◌, ◌*◌, ◌%◌, ◌^◌, ◌<◌, ◌≡◌, ◌↔◌, refl, inr, true, false, some, [], ◌∷◌, arith, pos, negsuc,
  sub_ℕ, if◌then◌else◌,
}
use prothon.Base.Int.{◌+ℤ◌, ◌-ℤ◌}
use prothon.World.{overflow_exc}
use prothon.Tuples.{returns, fails}
use prothon.Long.{Digits, Long, long_add}
use prothon.Long.Value.{val, value, signed, IsDigits, IsNormal, IsValid}
use prothon.Long.Sum.{Gives, long_add-lem}
use prothon.LongDigit.{muladd1, divrem1, x_mul}
use prothon.LongDigit.OneDigit.{muladd1-divrem1}
use prothon.LongDigit.Product.{x_mul-lem}
use prothon.LongConvert.{longp2int64, longp2int32, sign_of}
use prothon.LongConvert.Machine.{in_i64, longp2int64-lem, longp2int32-cut}
use prothon.IntMethods.{imm, big, gives, add_ints, sub_ints, cmp_ints, eq_ints, int_abs}
use prothon.IntMethods.Sums.{Returns, add_ints-lem, add_ints-wraps, sub_ints-lem}
use prothon.IntMethods.Signs.{cmp_ints-lem, eq_ints_iff, int_abs_iff}

-- -(2 ^ 30 + 5)
abbrev minus_big : Long
minus_big = record { negative = true; digit = 5 ∷ 0 ∷ 1 ∷ [] }

minus_big-IsValid : IsValid minus_big
minus_big-IsValid = record {
  digits = omega arith;
  normal = omega arith;
  zero_sign = λ e. absurd (omega (arith, e));
}

abbrev all_ones : Long
all_ones = record { negative = false; digit = 32767 ∷ 32767 ∷ 0 ∷ [] }

long_add-lem_example : Gives (long_add minus_big all_ones) (value minus_big +ℤ value all_ones)
long_add-lem_example = long_add-lem minus_big all_ones (omega arith) (omega arith)

-- The sum is -6.
borrowed : long_add minus_big all_ones ≡ some (record { negative = true; digit = 6 ∷ [] })
unfolding long_add
borrowed = refl

muladd1-divrem1_example :
    ((divrem1 (5 ∷ 0 ∷ 1 ∷ []) 10).1 < 10)
    × IsDigits ((divrem1 (5 ∷ 0 ∷ 1 ∷ []) 10).0)
    × IsNormal ((divrem1 (5 ∷ 0 ∷ 1 ∷ []) 10).0)
    × (val (muladd1 ((divrem1 (5 ∷ 0 ∷ 1 ∷ []) 10).0) 10 ((divrem1 (5 ∷ 0 ∷ 1 ∷ []) 10).1))
        ≡ val (5 ∷ 0 ∷ 1 ∷ []))
muladd1-divrem1_example =
    muladd1-divrem1 (5 ∷ 0 ∷ 1 ∷ []) 10 (omega arith) (omega arith) (omega arith)

x_mul-lem_example :
    (z : Digits) × (x_mul (32767 ∷ 32767 ∷ []) (32767 ∷ []) ≡ some z)
    × (val z ≡ val (32767 ∷ 32767 ∷ []) * val (32767 ∷ []))
    × IsDigits z
    × IsNormal z
x_mul-lem_example = x_mul-lem (32767 ∷ 32767 ∷ []) (32767 ∷ []) (omega arith) (omega arith)

-- -(2 ^ 63)
abbrev least : Long
least = record { negative = true; digit = 0 ∷ 0 ∷ 0 ∷ 0 ∷ 8 ∷ [] }

longp2int64-lem_example :
    longp2int64 least ≡ (if in_i64 (value least) then returns (value least) else fails overflow_exc)
longp2int64-lem_example = longp2int64-lem least (omega arith)

least_fits : longp2int64 least ≡ returns (negsuc (2 ^ 63 - 1))
unfolding longp2int64
least_fits = refl

-- 2 ^ 32 + 7
abbrev too_large : Long
too_large = record { negative = false; digit = 7 ∷ 0 ∷ 4 ∷ [] }

longp2int32-cut_example :
    longp2int32 too_large ≡ returns (signed false (val (7 ∷ 0 ∷ 4 ∷ []) % 2 ^ 32))
longp2int32-cut_example = longp2int32-cut too_large (omega arith) (omega arith) (omega arith)

seven : longp2int32 too_large ≡ returns (pos 7)
unfolding longp2int32
seven = refl

add_ints-lem_example :
    Returns (add_ints (imm (pos (2 ^ 62))) (imm (pos (2 ^ 62)))) (pos (2 ^ 62) +ℤ pos (2 ^ 62))
add_ints-lem_example = add_ints-lem (imm (pos (2 ^ 62))) (imm (pos (2 ^ 62))) refl refl (inr refl)

add_ints-wraps_example :
    add_ints (imm (pos (2 ^ 63 - 1))) (imm (pos 1)) ≡ gives (imm (sub_ℕ (2 ^ 63 - 1 + 1) (2 ^ 64)))
add_ints-wraps_example = add_ints-wraps (2 ^ 63 - 1) 1 (omega arith) (omega arith) (omega arith)

sub_ints-lem_example :
    Returns
      (sub_ints (imm (pos (2 ^ 62))) (imm (negsuc (2 ^ 62))))
      (pos (2 ^ 62) -ℤ negsuc (2 ^ 62))
sub_ints-lem_example = sub_ints-lem (imm (pos (2 ^ 62))) (imm (negsuc (2 ^ 62))) refl refl

cmp_ints-lem_example : cmp_ints (imm (pos 3)) (big minus_big) ≡ sign_of (pos 3 -ℤ value minus_big)
cmp_ints-lem_example = cmp_ints-lem (imm (pos 3)) (big minus_big) refl minus_big-IsValid

eq_ints_iff_example : (eq_ints (imm (pos 3)) (big minus_big) ≡ true) ↔ (pos 3 ≡ value minus_big)
eq_ints_iff_example = eq_ints_iff (imm (pos 3)) (big minus_big) refl minus_big-IsValid

int_abs_iff_example :
    ((int_abs false (imm (negsuc (2 ^ 31 - 1))) ≡ imm (pos (2 ^ 31))) ↔ (2 ^ 31 < 2 ^ 31))
    × ((int_abs true (imm (negsuc (2 ^ 31 - 1))) ≡ imm (pos (2 ^ 31))) ↔ (2 ^ 31 < 2 ^ 63))
int_abs_iff_example = int_abs_iff (negsuc (2 ^ 31 - 1)) refl
