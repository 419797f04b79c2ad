-- ===== src/IntMethods/Sums.antt =====
-- The sums, differences and comparisons of integer objects, against the integers that they hold.
use prothon.Base.{
  ℕ, ◌+◌, ◌^◌, ◌≤◌, ◌<◌, ◌≡◌, refl, ◌∙◌, ◌⊎◌, inl, inr, Bool, true, false, ◌&&◌, ◌||◌, Option,
  arith, Bool-cases, ℤ, pos, negsuc, sub_ℕ,
}
use prothon.Base.Int.{◌+ℤ◌, ◌-ℤ◌}
use prothon.Long.{Long, long_normalize, long_add, long_sub}
use prothon.Long.Value.{IsValid, value, long_normalize-IsValid, long_normalize-value}
use prothon.Long.Sum.{Gives, long_add-lem, long_sub-lem}
use prothon.LongConvert.Machine.{in_i64, new_longp-lem}
use prothon.IntMethods.{
  IntObj, imm, big, Outcome, gives, wrap64, is_below_max, is_above_min, as_long, new_int_long_obj,
  add_longs, add_ints, sub_longs, sub_ints, max64,
}

-- The integer that an object holds.
abbrev pub int_value : IntObj → ℤ
int_value (imm i) = i
int_value (big v) = value v

-- 64 bits, or normalized digits.
abbrev pub IsInt : IntObj → Type 0
IsInt (imm i) = in_i64 i ≡ true
IsInt (big v) = IsValid v

-- A method returns the integer `n` in a well-formed object.
abbrev pub Returns : Outcome IntObj → ℤ → Type 0
Returns r n = (x : IntObj) × (r ≡ gives x) × (int_value x ≡ n) × IsInt x

pub as_long-lem : (x : IntObj) → IsInt x → (value (as_long x) ≡ int_value x) × IsValid (as_long x)
unfolding as_long
as_long-lem (imm i) h = new_longp-lem i h
as_long-lem (big v) h = (refl, h)

pub wrap64-in_i64 : (i : ℤ) → in_i64 i ≡ true → wrap64 i ≡ i
wrap64-in_i64 (pos n) h = ground (arith, h)
wrap64-in_i64 (negsuc n) h = ground (arith, h)

pub new_int_long_obj-lem : (r : Option Long) (n : ℤ) → Gives r n → Returns (new_int_long_obj r) n
unfolding long_normalize
new_int_long_obj-lem r n (z, run, eq, v) = (
  big (long_normalize z),
  rw run refl,
  long_normalize-value z ∙ eq,
  long_normalize-IsValid z v.digits,
)

add_longs-lem :
    (a b : IntObj) → IsInt a → IsInt b → Returns (add_longs a b) (int_value a +ℤ int_value b)
unfolding add_longs
add_longs-lem a b h k =
    let (ea, va) = as_long-lem a h in
    let (eb, vb) = as_long-lem b k in
    rw (← ea, ← eb)
      (new_int_long_obj-lem (long_add (as_long a) (as_long b))
        (value (as_long a) +ℤ value (as_long b))
        (long_add-lem (as_long a) (as_long b) va.digits vb.digits))

sub_longs-lem :
    (a b : IntObj) → IsInt a → IsInt b → Returns (sub_longs a b) (int_value a -ℤ int_value b)
unfolding sub_longs
sub_longs-lem a b h k =
    let (ea, va) = as_long-lem a h in
    let (eb, vb) = as_long-lem b k in
    rw (← ea, ← eb)
      (new_int_long_obj-lem (long_sub (as_long a) (as_long b))
        (value (as_long a) -ℤ value (as_long b))
        (long_sub-lem (as_long a) (as_long b) va.digits vb.digits))

-- The test of `add_` that lets two immediate integers be added as 64 bits.
abbrev pub adds_imm : ℤ → ℤ → Bool
adds_imm s o = (is_below_max s || is_below_max o) && (is_above_min s || is_above_min o)

-- Two immediate integers have a sum of 64 bits, or the test of `add_` sends them to `long_add`.
abbrev pub IsSafe : IntObj → IntObj → Type 0
IsSafe (imm s) (imm o) = (in_i64 (s +ℤ o) ≡ true) ⊎ (adds_imm s o ≡ false)
IsSafe (imm s) (big w) = Unit
IsSafe (big v) b = Unit

-- `add_` of two integers that the objects hold in range gives their sum, unless both are immediate, the
-- test of `add_` is passed and their sum does not fit in 64 bits.
pub add_ints-lem :
    (a b : IntObj)
    → IsInt a
    → IsInt b
    → IsSafe a b
    → Returns (add_ints a b) (int_value a +ℤ int_value b)
unfolding add_ints
add_ints-lem (imm s) (imm o) h k safe = elim (Bool-cases (adds_imm s o)) [
  | inl e ↦ rw e (exact safe e)
  | inr e ↦ rw e (add_longs-lem (imm s) (imm o) h k)
]
  where
    exact :
        (in_i64 (s +ℤ o) ≡ true) ⊎ (adds_imm s o ≡ false)
        → adds_imm s o ≡ true
        → Returns (gives (imm (wrap64 (s +ℤ o)))) (s +ℤ o)
    exact (inl fits) e = rw (wrap64-in_i64 (s +ℤ o) fits) (imm (s +ℤ o), refl, refl, fits)
    exact (inr no_test) e = cc
add_ints-lem (imm s) (big w) h k safe = add_longs-lem (imm s) (big w) h k
add_ints-lem (big v) b h k safe = add_longs-lem (big v) b h k

-- `add_` of two immediate integers that are not negative, one of them below MAX64, whose sum is at
-- least 2 ^ 63, gives the sum less 2 ^ 64.
pub add_ints-wraps :
    (s o : ℕ)
    → s < 2 ^ 63
    → o < max64
    → 2 ^ 63 ≤ s + o
    → add_ints (imm (pos s)) (imm (pos o)) ≡ gives (imm (sub_ℕ (s + o) (2 ^ 64)))
unfolding add_ints
add_ints-wraps s o h k l =
    let test : adds_imm (pos s) (pos o) ≡ true = ground (arith, k) in
    let wrapped : wrap64 (pos s +ℤ pos o) ≡ sub_ℕ (s + o) (2 ^ 64) = ground (arith, h, k, l) in
    rw (test, wrapped) refl

-- `sub_` of two integers that the objects hold in range gives their difference.
pub sub_ints-lem :
    (a b : IntObj) → IsInt a → IsInt b → Returns (sub_ints a b) (int_value a -ℤ int_value b)
unfolding sub_ints
sub_ints-lem (imm s) (imm o) h k =
    elim (Bool-cases (is_below_max s && is_below_max o && (is_above_min s && is_above_min o))) [
      | inl e ↦
          let fits = small s o e in
          rw (e, wrap64-in_i64 (s -ℤ o) fits) (imm (s -ℤ o), refl, refl, fits)
      | inr e ↦ rw e (sub_longs-lem (imm s) (imm o) h k)
    ]
  where
    small :
        (s o : ℤ)
        → (is_below_max s && is_below_max o && (is_above_min s && is_above_min o)) ≡ true
        → in_i64 (s -ℤ o) ≡ true
    small s o e = ground (arith, e)
sub_ints-lem (imm s) (big w) h k = sub_longs-lem (imm s) (big w) h k
sub_ints-lem (big v) b h k = sub_longs-lem (big v) b h k
