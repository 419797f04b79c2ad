-- ===== src/Tests/Containers.antt =====
-- The theorems on growable arrays and lists at concrete ones.
use prothon.Base.{[], ◌∷◌}
use prothon.Clist.{Clist}

abbrev three : Clist
three = record { space = 3; items = 5 ∷ 6 ∷ 5 ∷ [] }
