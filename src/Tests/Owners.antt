-- ===== src/Tests/Owners.antt =====
-- The theorems on owners and flags at concrete objects.
use prothon.Base.{◌≡◌, refl, true, false, none, [], ◌∷◌}
use prothon.World.{Obj, with_attrs, list_data}
use prothon.Inherit.{has_proto, others}
use prothon.Owner.{Store, proto_owns_binary, obj_set_data_owner}
use prothon.Tests.Data.{two_protos, free_obj}

-- Every object has only OBJ(OBJECT), which is 100, as its prototype.
abbrev flat : Store
flat = record {
  view = record {
    object = 100;
    protos = λ x. 100 ∷ [];
    attr = λ x key. none;
    refuses = λ x. false;
  };
  is_single = λ x. true;
}

abbrev owned : Obj
owned = free_obj (with_attrs two_protos) (list_data 2 [])

eight_is_marked : (obj_set_data_owner flat 1 8 (with_attrs two_protos)).1 ≡ false
unfolding obj_set_data_owner has_proto others
eight_is_marked = refl

eight_owns : proto_owns_binary flat 8 1 owned ≡ true
unfolding proto_owns_binary
eight_owns = refl
