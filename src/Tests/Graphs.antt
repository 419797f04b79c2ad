-- ===== src/Tests/Graphs.antt =====
-- The theorems on inheritance at concrete graphs of prototypes.
use prothon.Base.{
  ℕ, ◌-◌, ◌≡◌, ◌⊎◌, refl, false, none, some, List, [], ◌∷◌, arith, ◌==◌, if◌then◌else◌,
}
use prothon.Clist.{count}
use prothon.Inherit.{
  View, others, parents, proto_list, inherits, has_proto, climb, scope_climb, Lookup, found, walked,
}
use prothon.Inherit.Walk.{Inherits}
use prothon.Inherit.Order.{Answers, has_proto-lem, has_proto-proto_list, proto_list-once}
use prothon.Inherit.Attribute.{IsAnswer}
use prothon.Inherit.Climb.{IsRanked, climb-lem, climb-endless}

-- 1 has the prototypes 2 and 3, which have 4; OBJ(OBJECT) is 100.
abbrev family_protos : ℕ → List ℕ
family_protos x =
    if x == 1 then 2 ∷ 3 ∷ [] else if x == 2 then 4 ∷ [] else if x == 3 then 4 ∷ [] else 100 ∷ []

abbrev family : View
family = record {
  object = 100;
  protos = family_protos;
  attr = λ x key. if x == 4 then some 40 else none;
  refuses = λ x. false;
}

abbrev relatives : List ℕ
relatives = 1 ∷ 2 ∷ 3 ∷ 4 ∷ 100 ∷ []

family_list : proto_list family 1 ≡ walked relatives
unfolding proto_list others
family_list = refl

has_proto-lem_example : Answers family 1 4 (has_proto false family 1 4)
has_proto-lem_example = has_proto-lem family 1 4 false

has_proto-proto_list_example : has_proto false family 1 4 ≡ inherits
has_proto-proto_list_example = has_proto-proto_list family 1 4 false relatives family_list

proto_list-once_example :
    ((count 4 relatives ≡ 1) × Inherits family 1 4)
    ⊎ ((count 4 relatives ≡ 0) × (¬ Inherits family 1 4))
proto_list-once_example = proto_list-once family 1 4 relatives family_list

-- Every object but 0, which is OBJ(OBJECT), has the one before it as its prototype.
abbrev chain : View
chain = record {
  object = 0;
  protos = λ x. (x - 1) ∷ [];
  attr = λ x key. if x == 1 then some 40 else none;
  refuses = λ x. false;
}

chain-IsRanked : IsRanked chain 9 (λ x. x)
unfolding IsRanked
chain-IsRanked x p e ne = ground arith

chain_root : parents chain 0 ≡ []
unfolding others
chain_root = refl

climb-lem_example : (a : Lookup) × (climb 5 chain 3 9 0 ≡ some a) × IsAnswer chain 3 9 a
climb-lem_example = climb-lem chain 9 (λ x. x) chain-IsRanked chain_root 5 3 (omega arith)

-- 1 and 2 are each other's prototype.
abbrev circle : View
circle = record {
  object = 0;
  protos = λ x. if x == 1 then 2 ∷ [] else 1 ∷ [];
  attr = λ x key. none;
  refuses = λ x. false;
}

climb-endless_example : climb 1000 circle 1 9 0 ≡ none
climb-endless_example =
    climb-endless circle 9 1000 1 2 refl refl (omega arith) (omega arith) (omega arith) refl refl
      refl refl

-- The inherited attribute is found at 4, from 1 as from the scope 1.
inherited : climb 3 family 1 9 0 ≡ some (found 40 4)
unfolding climb others
inherited = refl

scoped : scope_climb 3 family 8 1 9 0 ≡ some (found 40 4)
unfolding scope_climb others
scoped = refl
