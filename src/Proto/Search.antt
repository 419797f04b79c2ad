-- ===== src/Proto/Search.antt =====
-- The search of `add_proto` and `del_proto` for a prototype.
use prothon.Base.{
  ℕ, suc, ◌≤◌, ◌<◌, ◌≡◌, refl, inl, inr, false, Option, none, some, List, [], ◌∷◌, ◌++◌, arith,
  ◌==◌, if◌then◌else◌, length, take, drop, Bool-cases,
}
use prothon.AttrTable.{ProtoEntry}
use prothon.Clist.{count}
use prothon.Proto.{proto_index}

-- The prototypes, first to last.
abbrev pub protos_of : List ProtoEntry → List ℕ
protos_of [] = []
protos_of (e ∷ es) = e.proto ∷ protos_of es

-- `xs` without the first `x`.
abbrev pub erase : ℕ → List ℕ → List ℕ
erase x [] = []
erase x (y ∷ ys) = if y == x then ys else y ∷ erase x ys

-- What the search for `proto` finds.
pub record Found (es : List ProtoEntry) (proto i : ℕ) : Type 0 where
  pub inside : i < length es
  pub counted : 1 ≤ count proto (protos_of es)
  pub erased : protos_of (take i es ++ drop (suc i) es) ≡ erase proto (protos_of es)

unfoldable pub Finds : List ProtoEntry → ℕ → Option ℕ → Type 0
Finds es proto none = count proto (protos_of es) ≡ 0
Finds es proto (some i) = Found es proto i

-- The answer for `x ∷ es` where `x` is not the one.
abbrev later : Option ℕ → Option ℕ
later none = none
later (some i) = some (suc i)

Found-later :
    (x : ProtoEntry) (es : List ProtoEntry) (proto : ℕ) (o : Option ℕ)
    → (x.proto == proto) ≡ false
    → Finds es proto o
    → Finds (x ∷ es) proto (later o)
unfolding Finds count
Found-later x es proto none h f = ground (arith, f)
Found-later x es proto (some i) h f = record {
  inside = omega (arith, f.inside);
  counted = omega (arith, f.counted);
  erased = rw (h, f.erased) refl;
}

pub proto_index-lem : (es : List ProtoEntry) (proto : ℕ) → Finds es proto (proto_index es proto)
unfolding proto_index Finds count
proto_index-lem [] proto = refl
proto_index-lem (x ∷ es) proto = elim (Bool-cases (x.proto == proto)) [
  | inl h ↦ rw h (record { inside = omega arith; counted = rw h (omega arith); erased = rw h refl })
  | inr h ↦ rw h (Found-later x es proto (proto_index es proto) h (proto_index-lem es proto))
]
