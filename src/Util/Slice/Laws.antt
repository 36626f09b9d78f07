-- ===== src/Util/Slice/Laws.antt =====
-- What Merge and Contains of util/slice.go compute.
use orchy.Base.{ℤ, int_eq, List, [], ◌∷◌, ◌≡◌, refl}
use orchy.Util.Slice.{contains_each, contains_all}

pub contains_all-eq-each : (src dst : List ℤ) → contains_all src dst ≡ contains_each src dst
unfolding contains_all contains_each
contains_all-eq-each [] [] = refl
contains_all-eq-each [] (v ∷ dst) = refl
contains_all-eq-each (s ∷ src) dst = refl
