-- ===== src/Long/Add.antt =====
-- The addition of absolute values.
use prothon.Base.{ℕ, ◌+◌, ◌/◌, ◌≤◌, ◌≡◌, inl, inr, [], ◌∷◌, ltb, length, arith, Bool-cases}
use prothon.Long.{base, u16, Digits, add_rest, add_both, x_add}
use prothon.Long.Value.{
  val, IsDigits, IsNormal, val-normalize, normalize-digits, normalize-IsNormal,
}

add_rest-lem :
    (c : ℕ) (xs : Digits)
    → c ≤ 1
    → IsDigits xs
    → (val (add_rest c xs) ≡ c + val xs) × IsDigits (add_rest c xs)
unfolding add_rest
add_rest-lem c [] h k = (omega arith, (omega arith, tt))
add_rest-lem c (x ∷ xs) h (k, ks) =
    let rest = add_rest-lem (u16 (c + x) / base) xs (omega arith) ks in
    (omega (arith, rest.0), (omega arith, rest.1))

add_both-lem :
    (c : ℕ) (xs ys : Digits)
    → c ≤ 1
    → length ys ≤ length xs
    → IsDigits xs
    → IsDigits ys
    → (val (add_both c xs ys) ≡ c + val xs + val ys) × IsDigits (add_both c xs ys)
unfolding add_both
add_both-lem c [] [] h l k m = let rest = add_rest-lem c [] h k in (omega (arith, rest.0), rest.1)
add_both-lem c (x ∷ xs) [] h l k m =
    let rest = add_rest-lem c (x ∷ xs) h k in (omega (arith, rest.0), rest.1)
add_both-lem c [] (y ∷ ys) h l k m = absurd (omega arith)
add_both-lem c (x ∷ xs) (y ∷ ys) h l (k, ks) (m, ms) =
    let rest = add_both-lem (u16 (c + x + y) / base) xs ys (omega arith) (omega arith) ks ms in
    (omega (arith, rest.0), (omega arith, rest.1))

-- `x_add` of two vectors of digits gives the sum, in digits that need no more than 15 bits and without
-- leading zeros.
pub x_add-lem :
    (a b : Digits)
    → IsDigits a
    → IsDigits b
    → (val (x_add a b) ≡ val a + val b) × IsDigits (x_add a b) × IsNormal (x_add a b)
unfolding x_add
x_add-lem a b h k = elim (Bool-cases (ltb (length a) (length b))) [
  | inl e ↦
      let sum = add_both-lem 0 b a (omega arith) (ground (arith, e)) k h in
      rw e (
        omega (arith, val-normalize (add_both 0 b a), sum.0),
        normalize-digits (add_both 0 b a) sum.1,
        normalize-IsNormal (add_both 0 b a),
      )
  | inr e ↦
      let sum = add_both-lem 0 a b (omega arith) (ground (arith, e)) h k in
      rw e (
        omega (arith, val-normalize (add_both 0 a b), sum.0),
        normalize-digits (add_both 0 a b) sum.1,
        normalize-IsNormal (add_both 0 a b),
      )
]
