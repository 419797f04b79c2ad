-- ===== src/IntHash/Keys.antt =====
-- Integers as the keys of dictionaries.
use prothon.Base.{
  none, sub_ℕ, ℕ, zero, suc, ◌^◌, ◌<◌, ◌≡◌, refl, sym, ap, ◌∙◌, ◌≢◌, Bool, true, false, some, [],
  ◌∷◌, arith, ℤ, pos, negsuc,
}
use prothon.Tuples.{Result, returns}
use prothon.Long.{Digits, Long}
use prothon.Long.Value.{val, IsDigits, IsNormal, IsValid, value, signed, val-pos}
use prothon.LongConvert.{new_longp, as_i64, as_i32, times_sign}
use prothon.LongConvert.Machine.{in_i64, new_longp-lem}
use prothon.IntMethods.{IntObj, imm, eq_ints, as_long, low64}
use prothon.IntMethods.Sums.{IsInt, as_long-lem}
use prothon.IntMethods.Signs.{eq_ints_iff}
use prothon.Dict.{Dict, dict_item}
use prothon.Dict.Delete.{dict_item-negative}
use prothon.IntHash.{hash_digits, not_minus_one, long_hash, int_hash_value}

-- Two normalized numbers of one value have the same digits.
val-injective :
    (xs ys : Digits)
    → IsDigits xs
    → IsDigits ys
    → IsNormal xs
    → IsNormal ys
    → val xs ≡ val ys
    → xs ≡ ys
val-injective [] [] h k n m e = refl
val-injective [] (y ∷ ys) h k n m e = absurd (omega (arith, val-pos y ys m, e))
val-injective (x ∷ xs) [] h k n m e = absurd (omega (arith, val-pos x xs n, e))
val-injective (x ∷ xs) (y ∷ ys) (h, hs) (k, ks) n m e =
    let first : x ≡ y = omega (arith, h, k, e) in
    let more : val xs ≡ val ys = omega (arith, h, k, e) in
    let rest : xs ≡ ys =
      val-injective xs ys hs ks (tail-IsNormal x xs n) (tail-IsNormal y ys m) more in
    cc (first, rest)
  where
    tail-IsNormal : (d : ℕ) (ds : Digits) → IsNormal (d ∷ ds) → IsNormal ds
    tail-IsNormal d [] n = tt
    tail-IsNormal d (e ∷ es) n = n

sub-suc : (n : ℕ) → sub_ℕ 0 (suc n) ≡ negsuc n
sub-suc n = ground arith

signed-injective :
    (s t : Bool) (m n : ℕ)
    → (m ≡ 0 → s ≡ false)
    → (n ≡ 0 → t ≡ false)
    → signed s m ≡ signed t n
    → (s ≡ t) × (m ≡ n)
signed-injective false false m n h k e = (refl, cc e)
signed-injective true true zero n h k e = cc (h refl)
signed-injective true true (suc m) zero h k e = cc (k refl)
signed-injective true true (suc m) (suc n) h k e =
    let f : negsuc m ≡ negsuc n = sym (sub-suc m) ∙ e ∙ sub-suc n in (refl, cc f)
signed-injective false true m zero h k e = cc (k refl)
signed-injective false true m (suc n) h k e =
    let f : pos m ≡ negsuc n = e ∙ sub-suc n in absurd (cc f)
signed-injective true false zero n h k e = cc (h refl)
signed-injective true false (suc m) n h k e =
    let f : negsuc m ≡ pos n = sym (sub-suc m) ∙ e in absurd (cc f)

value-injective : (v w : Long) → IsValid v → IsValid w → value v ≡ value w → v ≡ w
value-injective v w h k e =
    let (s, m) =
      signed-injective v.negative w.negative (val v.digit) (val w.digit) h.zero_sign k.zero_sign
        e in
    let ds : v.digit ≡ w.digit =
      val-injective v.digit w.digit h.digits k.digits h.normal k.normal m in
    ap (λ (p : Bool × Digits). record { negative = p.0; digit = p.1 }) (cc (s, ds))

-- Two integers that `eq?` calls equal have one hash, in whatever way the objects hold them, in 64 bits or
-- as normalized digits.
pub int_hash_value-eq :
    (a b : IntObj) → IsInt a → IsInt b → eq_ints a b ≡ true → int_hash_value a ≡ int_hash_value b
unfolding int_hash_value
int_hash_value-eq a b h k e =
    let (ea, va) = as_long-lem a h in
    let (eb, vb) = as_long-lem b k in
    let same =
      value-injective (as_long a) (as_long b) va vb (ea ∙ (eq_ints_iff a b h k).0 e ∙ sym eb) in
    ap (λ v. as_i32 (low64 (long_hash v))) same

-- Below 64 bits the shift loses nothing.
hash_digits-val : (ds : Digits) → val ds < 2 ^ 64 → hash_digits ds ≡ val ds
unfolding hash_digits
hash_digits-val [] h = refl
hash_digits-val (d ∷ ds) h =
    let rest = hash_digits-val ds (omega (arith, h)) in rw rest (omega (arith, h))

machine-signed :
    (s : Bool) (n : ℕ)
    → in_i64 (signed s n) ≡ true
    → (n < 2 ^ 64) × (as_i64 (times_sign s n) ≡ signed s n)
machine-signed false n h = (ground (arith, h), ground (arith, h))
machine-signed true zero h = (omega arith, refl)
machine-signed true (suc n) h = (ground (arith, h), ground (arith, h))

-- `long_hash` of what `new_longp` makes of a 64-bit integer is that integer, but -2 for -1.
long_hash-new_longp : (i : ℤ) → in_i64 i ≡ true → long_hash (new_longp i) ≡ not_minus_one i
unfolding long_hash
long_hash-new_longp i h =
    let (eq, _) = new_longp-lem i h in
    let (small, same) = machine-signed (new_longp i).negative (val (new_longp i).digit) (rw eq h) in
    rw (hash_digits-val (new_longp i).digit small, same, eq) refl

-- No negative integer of 32 bits, which has no symbol, is found as a key, whatever the table holds.
pub dict_item-int_hash_value :
    (eq : (key key_in : ℕ) → Result Bool) (d : Dict) (n key v : ℕ)
    → n < 2 ^ 31
    → dict_item eq d (int_hash_value (imm (negsuc n))) key none ≢ some (returns (some v))
unfolding int_hash_value as_long
dict_item-int_hash_value eq d n key v h =
    rw (long_hash-new_longp (negsuc n) (ground (arith, h))) (by_number n h)
  where
    by_number :
        (n : ℕ)
        → n < 2 ^ 31
        → dict_item eq d (as_i32 (low64 (not_minus_one (negsuc n)))) key none
          ≢ some (returns (some v))
    by_number zero h = dict_item-negative eq d 0 key v
    by_number (suc n) h =
        let same : as_i32 (low64 (not_minus_one (negsuc (suc n)))) ≡ negsuc (suc n) =
          ground (arith, h) in
        rw same (dict_item-negative eq d n key v)
