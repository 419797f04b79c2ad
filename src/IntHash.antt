-- ===== src/IntHash.antt =====
-- The hashes of integers (src/builtins-int.c, `long_hash` and `hash_`), and what `hash_value` of
-- src/builtins-dict.c makes of them for a key that is an integer.
pub mod Keys
use prothon.Base.{ℕ, ◌+◌, ◌*◌, ◌/◌, ◌^◌, [], ◌∷◌, if◌then◌else◌, ℤ, pos, negsuc}
use prothon.Tuples.{minus_one}
use prothon.Long.{base, u64, Digits, Long}
use prothon.LongConvert.{as_i64, as_i32, times_sign, same_int}
use prothon.IntMethods.{IntObj, low64, as_long}
use prothon.Dict.{stored_hash}

-- The loop of `long_hash`, from the leading digit down: a circular shift of 64 bits by SHIFT, and a sum.
unfoldable pub hash_digits : Digits → ℕ
hash_digits [] = 0
hash_digits (d ∷ ds) = let x = hash_digits ds in u64 (u64 (x * base) + x / 2 ^ 49 + d)

-- -1 stands for an exception.
abbrev pub not_minus_one : ℤ → ℤ
not_minus_one x = if same_int x minus_one then negsuc 1 else x

unfoldable pub long_hash : Long → ℤ
unfolding hash_digits
long_hash v = not_minus_one (as_i64 (times_sign v.negative (hash_digits v.digit)))

-- `hash_value` of a key that is an integer: the hash as an `i32_t`.
unfoldable pub int_hash_value : IntObj → ℤ
unfolding long_hash as_long
int_hash_value key_in = as_i32 (low64 (long_hash (as_long key_in)))

-- `hash_` of integers: `new_hash_obj` of src/object.c takes the sign bit off and puts 1 in place of 0.
unfoldable pub int_hash : IntObj → ℕ
unfolding int_hash_value
int_hash self = stored_hash (int_hash_value self)
