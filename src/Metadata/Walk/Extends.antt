-- ===== src/Metadata/Walk/Extends.antt =====
-- More fuel for `walk` of metadata/service.go extends what it comes to.
use orchy.Base.{
  ℕ, suc, ◌≤◌, ℤ, int_eq, int_beq_iff, Text, Bool, true, false, if◌then◌else◌, Option, none, some,
  List, [], ◌∷◌, ◌++◌, length, ◌≡◌, ◌≢◌, refl, sym, arith,
}
use orchy.Base.Map.{Map, lookup}
use orchy.Util.Slice.{merge}
use orchy.Model.{NextMap}
use orchy.Action.{Action, base}
use orchy.Metadata.Walk.{
  WalkResult, done, crashed, out_of_fuel, ◌>>=◌, walk_group, walk_branch, walk_branches,
  visit_action, visit,
}

-- `r` is out of fuel, or `r'` is the same result.
abbrev pub Extends : WalkResult → WalkResult → Type 0
Extends out_of_fuel r' = Unit
Extends (done sets) r' = r' ≡ done sets
Extends crashed r' = r' ≡ crashed

pub Extends-refl : (r : WalkResult) → Extends r r
Extends-refl (done sets) = refl
Extends-refl crashed = refl
Extends-refl out_of_fuel = tt

pub Extends-trans : (r r' r'' : WalkResult) → Extends r r' → Extends r' r'' → Extends r r''
Extends-trans (done sets) r' r'' h k = rw h at k
Extends-trans crashed r' r'' h k = rw h at k
Extends-trans out_of_fuel r' r'' h k = tt

pub Extends-ne : (r r' : WalkResult) → r ≢ out_of_fuel → Extends r r' → r' ≡ r
Extends-ne (done sets) r' ne h = h
Extends-ne crashed r' ne h = h
Extends-ne out_of_fuel r' ne h = absurd (ne refl)

Extends-bind :
    (r r' : WalkResult) (f f' : List (List ℤ) → WalkResult)
    → Extends r r'
    → ((sets : List (List ℤ)) → Extends (f sets) (f' sets))
    → Extends (r >>= f) (r' >>= f')
Extends-bind (done sets) r' f f' h k = rw h (k sets)
Extends-bind crashed r' f f' h k = rw h
Extends-bind out_of_fuel r' f f' h k = tt

module _ (f f' : ℤ → WalkResult) (ih : (b : ℤ) → Extends (f b) (f' b)) where
  group-Extends :
      (ids : List ℤ) (out : List (List ℤ)) → Extends (walk_group f ids out) (walk_group f' ids out)
  unfolding walk_group
  group-Extends [] out = refl
  group-Extends (b ∷ ids) out =
      Extends-bind (f b) (f' b) _ _ (ih b) (λ sets. group-Extends ids (merge sets out))

  branch-Extends : (g : Option (List ℤ)) → Extends (walk_branch f g) (walk_branch f' g)
  unfolding walk_branch
  branch-Extends none = refl
  branch-Extends (some []) = refl
  branch-Extends (some (b ∷ rest)) = group-Extends (b ∷ rest) []

  branches-Extends :
      (groups : Map Text (Option (List ℤ))) (result : List (List ℤ))
      → Extends (walk_branches f groups result) (walk_branches f' groups result)
  unfolding walk_branches
  branches-Extends [] result = refl
  branches-Extends ((event, g) ∷ groups) result =
      Extends-bind (walk_branch f g) (walk_branch f' g) _ _ (branch-Extends g)
        (λ out. branches-Extends groups (result ++ out))

  visit_action-Extends :
      (id : ℤ) (next : NextMap) → Extends (visit_action f id next) (visit_action f' id next)
  visit_action-Extends id none = refl
  visit_action-Extends id (some groups) = branches-Extends groups []

  pub visit-Extends : (o : Option Action) → Extends (visit f o) (visit f' o)
  visit-Extends none = refl
  visit-Extends (some act) = visit_action-Extends (base act).id (base act).next_map

-- Is it a result?
abbrev is_result : WalkResult → Bool
is_result out_of_fuel = false
is_result _ = true

-- The number of actions at which `f` has a result.
pub results : (ℤ → WalkResult) → Map ℤ Action → ℕ
results f [] = 0
results f ((k, act) ∷ m) = let rest = results f m in if is_result (f k) then suc rest else rest

pub results-le : (f : ℤ → WalkResult) (m : Map ℤ Action) → results f m ≤ length m
unfolding results
results-le f [] = omega arith
results-le f ((k, act) ∷ m) = ground (arith, results-le f m)

Extends-is_result : (r r' : WalkResult) → Extends r r' → is_result r ≡ true → is_result r' ≡ true
Extends-is_result (done sets) r' h e = rw h
Extends-is_result crashed r' h e = rw h
Extends-is_result out_of_fuel r' h e = cc

pub Extends-eq : (r r' : WalkResult) → Extends r r' → is_result r ≡ is_result r' → r ≡ r'
Extends-eq (done sets) r' h e = sym h
Extends-eq crashed r' h e = sym h
Extends-eq out_of_fuel out_of_fuel h e = refl
Extends-eq out_of_fuel (done sets) h e = cc
Extends-eq out_of_fuel crashed h e = cc

module _ (f f' : ℤ → WalkResult) (above : (b : ℤ) → Extends (f b) (f' b)) where
  pub results_mono : (m : Map ℤ Action) → results f m ≤ results f' m
  unfolding results
  results_mono [] = omega arith
  results_mono ((k, act) ∷ m) =
      ground (arith, results_mono m, Extends-is_result (f k) (f' k) (above k))

  pub same_is_result :
      (m : Map ℤ Action) (k : ℤ) (act : Action)
      → results f m ≡ results f' m
      → lookup k m ≡ some act
      → is_result (f k) ≡ is_result (f' k)
  unfolding results lookup
  same_is_result [] k act e h = cc
  same_is_result ((j, act') ∷ m) k act e h = ground (
    arith,
    int_beq_iff j k,
    results_mono m,
    Extends-is_result (f j) (f' j) (above j),
    same_is_result m k act,
  )
