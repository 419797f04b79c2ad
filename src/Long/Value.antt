-- ===== src/Long/Value.antt =====
-- The number that digits stand for, and what leading zeros change.
use prothon.Base.{
  ℕ, ◌+◌, ◌*◌, ◌<◌, ◌≡◌, refl, ap, ◌∙◌, inl, inr, Bool, true, false, [], ◌∷◌, ◌==◌, if◌then◌else◌,
  arith, Bool-cases, ℤ, pos, sub_ℕ,
}
use prothon.Long.{base, Digits, Long, with_sign, normalize, long_normalize, top}

-- SUM(for i) digit[i] * 2**(SHIFT*i)
abbrev pub val : Digits → ℕ
val [] = 0
val (d ∷ ds) = d + base * val ds

-- base ^ n for `n` digits
abbrev pub weight : Digits → ℕ
weight [] = 1
weight (d ∷ ds) = base * weight ds

-- Each digit is at most MASK.
abbrev pub IsDigits : Digits → Type 0
IsDigits [] = Unit
IsDigits (d ∷ ds) = (d < base) × IsDigits ds

-- The leading digit is not zero.
abbrev pub IsNormal : Digits → Type 0
IsNormal [] = Unit
IsNormal (d ∷ ds) = 0 < top (d ∷ ds)

abbrev pub signed : Bool → ℕ → ℤ
signed false n = pos n
signed true n = sub_ℕ 0 n

-- The integer that a `long_t` stands for.
abbrev pub value : Long → ℤ
value v = signed v.negative (val v.digit)

-- What the code keeps of a `long_t` that it returns: digits in range, no leading zero, and no sign of 0.
pub record IsValid (v : Long) : Type 0 where
  pub digits : IsDigits v.digit
  pub normal : IsNormal v.digit
  pub zero_sign : val v.digit ≡ 0 → v.negative ≡ false

pub val-lt-weight : (ds : Digits) → IsDigits ds → val ds < weight ds
val-lt-weight [] h = omega arith
val-lt-weight (d ∷ ds) (h, hs) = omega (arith, val-lt-weight ds hs)

pub normalize-digits : (ds : Digits) → IsDigits ds → IsDigits (normalize ds)
unfolding normalize
normalize-digits [] h = tt
normalize-digits (d ∷ ds) (h, hs) = step (normalize ds) (normalize-digits ds hs)
  where
    step :
        (es : Digits)
        → IsDigits es
        → IsDigits (elim es [ [] ↦ if d == 0 then [] else d ∷ [] | e ∷ r ↦ d ∷ e ∷ r ])
    step [] k = elim (Bool-cases (d == 0)) [ inl e ↦ rw e tt | inr e ↦ rw e (h, tt) ]
    step (e ∷ r) k = (h, k)

pub val-normalize : (ds : Digits) → val (normalize ds) ≡ val ds
unfolding normalize
val-normalize [] = refl
val-normalize (d ∷ ds) = step (normalize ds) (val-normalize ds)
  where
    step :
        (es : Digits)
        → val es ≡ val ds
        → val (elim es [ [] ↦ if d == 0 then [] else d ∷ [] | e ∷ r ↦ d ∷ e ∷ r ])
          ≡ d + base * val ds
    step [] k = elim (Bool-cases (d == 0)) [
      | inl e ↦ rw e (ground (arith, e))
      | inr e ↦ rw e (omega (arith, k))
    ]
    step (e ∷ r) k = omega (arith, k)

pub normalize-IsNormal : (ds : Digits) → IsNormal (normalize ds)
unfolding normalize
normalize-IsNormal [] = tt
normalize-IsNormal (d ∷ ds) = step (normalize ds) (normalize-IsNormal ds)
  where
    step :
        (es : Digits)
        → IsNormal es
        → IsNormal (elim es [ [] ↦ if d == 0 then [] else d ∷ [] | e ∷ r ↦ d ∷ e ∷ r ])
    step [] k = elim (Bool-cases (d == 0)) [ inl e ↦ rw e tt | inr e ↦ rw e (ground (arith, e)) ]
    step (e ∷ r) k = k

-- A normalized number other than 0 is not below the weight of its leading digit.
pub val-pos : (d : ℕ) (ds : Digits) → IsNormal (d ∷ ds) → 0 < val (d ∷ ds)
val-pos d [] h = omega (arith, h)
val-pos d (e ∷ es) h = omega (arith, val-pos e es h)

pub with_sign-value : (s : Bool) (ds : Digits) → value (with_sign s ds) ≡ signed s (val ds)
with_sign-value false [] = refl
with_sign-value true [] = refl
with_sign-value s (d ∷ ds) = refl

pub with_sign-IsValid :
    (s : Bool) (ds : Digits) → IsDigits ds → IsNormal ds → IsValid (with_sign s ds)
with_sign-IsValid s [] h n = record { digits = tt; normal = tt; zero_sign = λ _. refl }
with_sign-IsValid s (d ∷ ds) h n = record {
  digits = h;
  normal = n;
  zero_sign = λ e. absurd (omega (arith, val-pos d ds n));
}

pub long_normalize-IsValid : (v : Long) → IsDigits v.digit → IsValid (long_normalize v)
unfolding long_normalize
long_normalize-IsValid v h =
    with_sign-IsValid v.negative (normalize v.digit) (normalize-digits v.digit h)
      (normalize-IsNormal v.digit)

pub long_normalize-value : (v : Long) → value (long_normalize v) ≡ value v
unfolding long_normalize
long_normalize-value v =
    with_sign-value v.negative (normalize v.digit) ∙ ap (signed v.negative) (val-normalize v.digit)
