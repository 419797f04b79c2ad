-- ===== src/Inherit.antt =====
-- Inheritance (src/object.c): `proto_list`, `has_proto`, `get_proto_attr` and `get_scope_attr`, which
-- walk the graph of prototypes. Each visit to an object is a read lock, the calls of `proto_len`,
-- `proto_item` and `get_attr`, and the release; the walks stand on what these calls return. A lock that
-- is refused ends a walk.
pub mod Walk
pub mod Search
pub mod Last
pub mod Listed
pub mod Order
pub mod Attribute
pub mod Climb
use prothon.Base.{
  ℕ, zero, suc, ◌+◌, Bool, true, false, not, ◌&&◌, ◌||◌, Option, none, some, List, [], ◌∷◌, ◌++◌,
  ◌==◌, if◌then◌else◌,
}

-- What the calls return: the prototypes of an object, its own attributes, and whether a read lock is
-- refused. `object` is
-- OBJ(OBJECT); an object is its address, and 0 is the null pointer.
pub record View : Type 0 where
  pub object : ℕ
  pub protos : ℕ → List ℕ
  pub attr : (o key : ℕ) → Option ℕ
  pub refuses : ℕ → Bool

abbrev pub elem : ℕ → List ℕ → Bool
elem a [] = false
elem a (x ∷ xs) = (x == a) || elem a xs

-- The prototypes that a walk appends: if (proto != OBJ(OBJECT)) ... clist_append(pao_list, proto);
unfoldable pub others : (object : ℕ) → List ℕ → List ℕ
others object [] = []
others object (p ∷ ps) = if p == object then others object ps else p ∷ others object ps

abbrev pub parents : View → ℕ → List ℕ
parents v x = others v.object (v.protos x)

-- if_rdlock(proto), for each of the prototypes.
unfoldable pub any_refused : View → List ℕ → Bool
any_refused v [] = false
any_refused v (p ∷ ps) = v.refuses p || any_refused v ps

-- The objects of a list, or an exception: that of a lock, or INTERNAL_EXC for a circular reference.
pub data Walked : Type 0 where
  walked : List ℕ → Walked
  lock_refused : Walked
  circular_list : Walked

abbrev pub walked_after : ℕ → Walked → Walked
walked_after x (walked xs) = walked (x ∷ xs)
walked_after x lock_refused = lock_refused
walked_after x circular_list = circular_list

-- The walk from the objects of a queue, in the order in which they are appended, for at most `rounds`
-- objects.
unfoldable pub walk : (rounds : ℕ) → View → List ℕ → Walked
unfolding any_refused
walk rounds v [] = walked []
walk zero v (x ∷ queue) = if any_refused v (parents v x) then lock_refused else circular_list
walk (suc r) v (x ∷ queue) =
    let rest = walk r v (queue ++ parents v x) in
    if any_refused v (parents v x) then lock_refused else walked_after x rest

-- The two loops that set to 0 every entry with an equal one behind it, which the last loop skips.
unfoldable pub keep_last : List ℕ → List ℕ
keep_last [] = []
keep_last (x ∷ xs) = if elem x xs then keep_last xs else x ∷ keep_last xs

-- if (i > 100), counted from 0.
abbrev pub max_objects : ℕ
max_objects = 101

-- The loops and what follows them.
unfoldable pub to_list : View → Walked → Walked
unfolding keep_last
to_list v (walked xs) =
    if v.refuses v.object then lock_refused else walked (keep_last (xs ++ v.object ∷ []))
to_list v lock_refused = lock_refused
to_list v circular_list = circular_list

unfoldable pub proto_list : View → ℕ → Walked
unfolding walk to_list
proto_list v o =
    let list = to_list v (walk max_objects v (o ∷ [])) in if v.refuses o then lock_refused else list

-- `circular` is the answer FALSE with INTERNAL_EXC, `denied` FALSE with the exception of a lock.
pub data Answer : Type 0 where
  inherits inherits_not circular denied : Answer

-- The inner loop of `has_proto`: `goto end_true`, a lock that is refused, or neither.
unfoldable pub visit : View → (target : ℕ) → List ℕ → Option Answer
visit v target [] = none
visit v target (p ∷ ps) =
    let rest = visit v target ps in
    if p == target then some inherits else if v.refuses p then some denied else rest

-- The nested loops of `has_proto`.
unfoldable pub search_protos : (rounds : ℕ) → View → (target : ℕ) → List ℕ → Answer
unfolding visit
search_protos rounds v target [] = inherits_not
search_protos zero v target (x ∷ queue) = elim (visit v target (parents v x)) [
  | some a ↦ a
  | none ↦ circular
]
search_protos (suc r) v target (x ∷ queue) = elim (visit v target (parents v x)) [
  | some a ↦ a
  | none ↦ search_protos r v target (queue ++ parents v x)
]

-- !obj->has_attrs && obj->attr_proto.proto == obj_proto: `single` is !obj->has_attrs.
abbrev pub is_single : (single : Bool) → View → (o target : ℕ) → Bool
is_single false v o target = false
is_single true v o target = elem target (v.protos o)

unfoldable pub has_proto : (single : Bool) → View → (o target : ℕ) → Answer
unfolding search_protos
has_proto single v o target =
    if o == target
    then inherits
    else if v.refuses o
    then denied
    else if is_single single v o target || (target == v.object)
    then inherits
    else search_protos max_objects v target (o ∷ [])

-- What `get_proto_attr` returns: the value and the object that holds it, or NULL; `circular_protos`
-- and `self_proto` raise INTERNAL_EXC, `no_access` the exception of a lock.
pub data Lookup : Type 0 where
  found : (value owner : ℕ) → Lookup
  absent circular_protos self_proto no_access : Lookup

-- !super_obj && (res = get_attr(ist, obj, key))
abbrev pub own_attr : View → (x key super : ℕ) → Option ℕ
own_attr v x key super = if super == 0 then v.attr x key else none

-- if (obj == super_obj) super_obj = NULL;
abbrev pub past_super : (x super : ℕ) → ℕ
past_super x super = if x == super then 0 else super

-- The last loop of `get_proto_attr`.
unfoldable pub scan : View → (key super : ℕ) → List ℕ → Lookup
scan v key super [] = absent
scan v key super (x ∷ xs) = elim (own_attr v x key super) [
  | some r ↦ found r x
  | none ↦ scan v key (past_super x super) xs
]

-- The scan of the objects walked and OBJ(OBJECT).
unfoldable pub scan_walked : View → (key super : ℕ) → Walked → Lookup
unfolding scan keep_last
scan_walked v key super (walked xs) =
    if v.refuses v.object then no_access else scan v key super (keep_last (xs ++ v.object ∷ []))
scan_walked v key super lock_refused = no_access
scan_walked v key super circular_list = circular_protos

-- The part of `get_proto_attr` for an object with several prototypes.
unfoldable pub search_all : View → (key super : ℕ) → List ℕ → Lookup
unfolding scan_walked walk any_refused
search_all v key super protos =
    let res = scan_walked v key super (walk 100 v (others v.object protos)) in
    if any_refused v (others v.object protos) then no_access else res

-- while (TRUE): `none` is a loop that has not ended within its fuel.
unfoldable pub climb : (fuel : ℕ) → View → (x key super : ℕ) → Option Lookup
unfolding search_all
climb zero v x key super = none
climb (suc f) v x key super = elim (v.refuses x) [
  | true ↦ some no_access
  | false ↦ elim (own_attr v x key super) [
    | some r ↦ some (found r x)
    | none ↦ elim (x == v.object) [
      | true ↦ some absent
      | false ↦ elim (v.protos x) [
        | [] ↦ some (search_all v key (past_super x super) [])
        | p ∷ ps ↦ elim ps [
          | [] ↦ elim (x == p) [
            | true ↦ some self_proto
            | false ↦ climb f v p key (past_super x super)
          ]
          | q ∷ qs ↦ some (search_all v key (past_super x super) (p ∷ q ∷ qs))
        ]
      ]
    ]
  ]
]

-- `get_scope_attr`: the surrounding scopes first, by the attribute `prev_scope`, then the prototypes
-- of the last one. `none` is also the failed assertion, that a scope is its own surrounding scope.
unfoldable pub scope_climb : (fuel : ℕ) → View → (prev_scope scope key super : ℕ) → Option Lookup
unfolding climb
scope_climb zero v prev scope key super = none
scope_climb (suc f) v prev scope key super = elim (own_attr v scope key super) [
  | some r ↦ some (found r scope)
  | none ↦ elim (v.attr scope prev) [
    | none ↦ climb (suc f) v scope key (past_super scope super)
    | some next ↦ elim (scope == next) [
      | true ↦ none
      | false ↦ scope_climb f v prev next key (past_super scope super)
    ]
  ]
]
