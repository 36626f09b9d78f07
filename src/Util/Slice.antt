-- ===== src/Util/Slice.antt =====
-- util/slice.go: the sets of terminal actions are lists of lists of ids.
pub mod Laws
pub mod Members
use orchy.Base.{ℤ, int_eq, Bool, true, false, ◌&&◌, List, [], ◌∷◌, ◌++◌, map, contains}

-- The inner loop of Merge: every group of arr2 behind one group of arr1.
abbrev pub extend : List ℤ → List (List ℤ) → List (List ℤ)
extend outer [] = []
extend outer (inner ∷ rest) = (outer ++ inner) ∷ extend outer rest

-- The outer loop of Merge.
abbrev pub product : List (List ℤ) → List (List ℤ) → List (List ℤ)
product [] arr2 = []
product (outer ∷ rest) arr2 = extend outer arr2 ++ product rest arr2

-- Merge: one group of each side, joined, in every way; an empty side is ignored.
unfoldable pub merge : List (List ℤ) → List (List ℤ) → List (List ℤ)
merge [] arr2 = arr2
merge (outer ∷ rest) [] = outer ∷ rest
merge (outer ∷ rest) (inner ∷ others) = product (outer ∷ rest) (inner ∷ others)

-- The loop of Contains.
unfoldable pub contains_each : List ℤ → List ℤ → Bool
unfolding contains
contains_each src [] = true
contains_each src (v ∷ dst) = contains src v && contains_each src dst

-- Contains: does src hold every element of dst?
unfoldable pub contains_all : List ℤ → List ℤ → Bool
unfolding contains_each
contains_all [] [] = true
contains_all [] (v ∷ dst) = contains_each [] (v ∷ dst)
contains_all (s ∷ src) dst = contains_each (s ∷ src) dst
