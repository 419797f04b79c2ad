-- ===== src/Slices/Positions.antt =====
-- The positions that the loops over a slice visit, and how many they are.
use prothon.Base.{
  ℕ, zero, suc, ◌+◌, ◌-◌, ◌*◌, ◌/◌, ◌≤◌, ◌<◌, ◌≡◌, refl, ◌∙◌, inl, inr, true, false, List, [], ◌∷◌,
  arith, Option, none, some, ltb, length, get_elem?, if◌then◌else◌, Bool-cases,
}
use native.Mathlib.Nat.{le-div_iff_mul-le, div-lt_iff_lt-mul}
use prothon.Slices.{up_from, down_from, up_positions, down_positions, up_len, down_len}

abbrev pub IsBelow : ℕ → List ℕ → Type 0
IsBelow n [] = Unit
IsBelow n (p ∷ ps) = (p < n) × IsBelow n ps

-- The k-th position up, or none.
abbrev pub nth_up : (i e d k : ℕ) → Option ℕ
nth_up i e d k = if ltb (i + k * d) e then some (i + k * d) else none

-- The k-th position down, or none.
abbrev pub nth_down : (i e d k : ℕ) → Option ℕ
nth_down i e d k = if ltb (e + k * d) i then some (i - k * d - 1) else none

ltb-true : (a b : ℕ) → a < b → ltb a b ≡ true
ltb-true a b h = ground arith

ltb-false : (a b : ℕ) → b ≤ a → ltb a b ≡ false
ltb-false a b h = ground arith

up_from-past : (f i e d : ℕ) → e ≤ i → up_from f i e d ≡ []
unfolding up_from
up_from-past zero i e d h = refl
up_from-past (suc f) i e d h = rw (up_from, ltb-false i e h) refl

up_from-next : (f i e d : ℕ) → i < e → up_from (suc f) i e d ≡ i ∷ up_from f (i + d) e d
unfolding up_from
up_from-next f i e d h = rw (up_from, ltb-true i e h) refl

up_from-IsBelow : (f i e d n : ℕ) → e ≤ n → IsBelow n (up_from f i e d)
unfolding up_from
up_from-IsBelow zero i e d n le = tt
up_from-IsBelow (suc f) i e d n le = elim (Bool-cases (ltb i e)) [
  | inl h ↦ rw (up_from, h) (ground (arith, h), up_from-IsBelow f (i + d) e d n le)
  | inr h ↦ rw (up_from, h) tt
]

length-up_from : (f i e d : ℕ) → 1 ≤ d → length (up_from f i e d) * d ≤ e - i + (d - 1)
unfolding up_from
length-up_from zero i e d pd = omega arith
length-up_from (suc f) i e d pd = elim (Bool-cases (ltb i e)) [
  | inr h ↦ rw (up_from, h) (omega arith)
  | inl h ↦
      let lt : i < e = ground (arith, h) in
      let rest = length-up_from f (i + d) e d pd in
      elim (Bool-cases (ltb (i + d) e)) [
        | inl g ↦
            let lt' : i + d < e = ground (arith, g) in
            rw (up_from-next f i e d lt) (omega (arith, rest))
        | inr g ↦
            let ge : e ≤ i + d = ground (arith, g) in
            rw (up_from-next f i e d lt, up_from-past f (i + d) e d ge) (omega arith)
      ]
]

up_from-get : (f i e d k : ℕ) → 1 ≤ d → e ≤ i + f → get_elem? (up_from f i e d) k ≡ nth_up i e d k
unfolding up_from
up_from-get zero i e d k pd le = rw (ltb-false (i + k * d) e (omega arith)) refl
up_from-get (suc f) i e d k pd le = elim (Bool-cases (ltb i e)) [
  | inr h ↦
      let ge : e ≤ i = ground (arith, h) in
      rw (up_from, h, ltb-false (i + k * d) e (omega arith)) refl
  | inl h ↦
      let lt : i < e = ground (arith, h) in
      rw (up_from-next f i e d lt) (nth k lt (λ j. up_from-get f (i + d) e d j pd (omega arith)))
]
  where
    nth :
        (k : ℕ)
        → i < e
        → ((j : ℕ) → get_elem? (up_from f (i + d) e d) j ≡ nth_up (i + d) e d j)
        → get_elem? (i ∷ up_from f (i + d) e d) k ≡ nth_up i e d k
    nth zero lt next = let z : i + 0 * d ≡ i = omega arith in rw (z, ltb-true i e lt) refl
    nth (suc j) lt next = let z : i + suc j * d ≡ i + d + j * d = omega arith in rw z (next j)

down_from-past : (f i e d : ℕ) → i ≤ e → down_from f i e d ≡ []
unfolding down_from
down_from-past zero i e d h = refl
down_from-past (suc f) i e d h = rw (down_from, ltb-false e i h) refl

down_from-next : (f i e d : ℕ) → e < i → down_from (suc f) i e d ≡ (i - 1) ∷ down_from f (i - d) e d
unfolding down_from
down_from-next f i e d h = rw (down_from, ltb-true e i h) refl

down_from-IsBelow : (f i e d n : ℕ) → i ≤ n → IsBelow n (down_from f i e d)
unfolding down_from
down_from-IsBelow zero i e d n le = tt
down_from-IsBelow (suc f) i e d n le = elim (Bool-cases (ltb e i)) [
  | inl h ↦ rw (down_from, h) (ground (arith, h), down_from-IsBelow f (i - d) e d n (omega arith))
  | inr h ↦ rw (down_from, h) tt
]

length-down_from : (f i e d : ℕ) → 1 ≤ d → length (down_from f i e d) * d ≤ i + d - 1 - e
unfolding down_from
length-down_from zero i e d pd = omega arith
length-down_from (suc f) i e d pd = elim (Bool-cases (ltb e i)) [
  | inr h ↦ rw (down_from, h) (omega arith)
  | inl h ↦
      let lt : e < i = ground (arith, h) in
      let rest = length-down_from f (i - d) e d pd in
      elim (Bool-cases (ltb e (i - d))) [
        | inl g ↦
            let lt' : e < i - d = ground (arith, g) in
            rw (down_from-next f i e d lt) (omega (arith, rest))
        | inr g ↦
            let ge : i - d ≤ e = ground (arith, g) in
            rw (down_from-next f i e d lt, down_from-past f (i - d) e d ge) (omega arith)
      ]
]

down_from-get :
    (f i e d k : ℕ) → 1 ≤ d → i ≤ e + f → get_elem? (down_from f i e d) k ≡ nth_down i e d k
unfolding down_from
down_from-get zero i e d k pd le = rw (ltb-false (e + k * d) i (omega arith)) refl
down_from-get (suc f) i e d k pd le = elim (Bool-cases (ltb e i)) [
  | inr h ↦
      let ge : i ≤ e = ground (arith, h) in
      rw (down_from, h, ltb-false (e + k * d) i (omega arith)) refl
  | inl h ↦
      let lt : e < i = ground (arith, h) in
      rw (down_from-next f i e d lt)
        (nth k lt (λ j. down_from-get f (i - d) e d j pd (omega arith)))
]
  where
    nth :
        (k : ℕ)
        → e < i
        → ((j : ℕ) → get_elem? (down_from f (i - d) e d) j ≡ nth_down (i - d) e d j)
        → get_elem? ((i - 1) ∷ down_from f (i - d) e d) k ≡ nth_down i e d k
    nth zero lt next =
        let z : e + 0 * d ≡ e = omega arith in
        let y : i - 0 * d - 1 ≡ i - 1 = omega arith in rw (z, y, ltb-true e i lt) refl
    nth (suc j) lt next = elim (Bool-cases (ltb (e + j * d) (i - d))) [
      | inl g ↦
          let a : e + j * d < i - d = ground (arith, g) in
          let y : i - suc j * d - 1 ≡ i - d - j * d - 1 = omega arith in
          rw (ltb-true (e + suc j * d) i (omega arith), y) (next j ∙ rw g refl)
      | inr g ↦
          let a : i - d ≤ e + j * d = ground (arith, g) in
          rw (ltb-false (e + suc j * d) i (omega arith)) (next j ∙ rw g refl)
    ]

-- With a step `d` up the loop over a slice visits `index1`, `index1 + d`, and so on, as long as that is
-- before `index2`; with a step down it visits `index1`, `index1 - d`, and so on, as long as that is
-- behind `index2`, where both are counted from 1.
positions-lem :
    (i e d k : ℕ)
    → 1 ≤ d
    → (get_elem? (up_positions i e d) k ≡ nth_up i e d k)
      × (get_elem? (down_positions i e d) k ≡ nth_down i e d k)
unfolding up_positions down_positions
positions-lem i e d k pd =
    (up_from-get e i e d k pd (omega arith), down_from-get i i e d k pd (omega arith))

-- The lengths that are computed are not much more than the length of the sequence.
pub up_len-le : (i e d : ℕ) → 1 ≤ d → up_len i e d ≤ e
unfolding up_len
up_len-le i e zero pd = elim pd [ ]
up_len-le i e (suc k) pd =
    let lt : (e - i + k) / suc k < e + 1 = (div-lt_iff_lt-mul pd).1 (omega arith) in
    let same : suc k - 1 ≡ k = omega arith in rw same (omega (arith, lt))

pub down_len-le : (i e d : ℕ) → 1 ≤ d → down_len i e d ≤ i + 2
unfolding down_len
down_len-le i e zero pd = elim pd [ ]
down_len-le i e (suc k) pd =
    let lt : (i + suc k + 1 - e) / suc k < i + 3 = (div-lt_iff_lt-mul pd).1 (omega arith) in
    omega (arith, lt)

pub length-up_positions : (i e d : ℕ) → 1 ≤ d → length (up_positions i e d) ≤ up_len i e d
unfolding up_positions up_len
length-up_positions i e d pd = (le-div_iff_mul-le pd).1 (length-up_from e i e d pd)

pub length-down_positions : (i e d : ℕ) → 1 ≤ d → length (down_positions i e d) ≤ down_len i e d
unfolding down_positions down_len
length-down_positions i e d pd =
    (le-div_iff_mul-le pd).1 (omega (arith, length-down_from i i e d pd))

pub up_positions-IsBelow : (i e d n : ℕ) → e ≤ n → IsBelow n (up_positions i e d)
unfolding up_positions
up_positions-IsBelow i e d n le = up_from-IsBelow e i e d n le

pub down_positions-IsBelow : (i e d n : ℕ) → i ≤ n → IsBelow n (down_positions i e d)
unfolding down_positions
down_positions-IsBelow i e d n le = down_from-IsBelow i i e d n le
