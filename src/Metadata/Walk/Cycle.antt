-- ===== src/Metadata/Walk/Cycle.antt =====
-- On a graph with a cycle the recursion `walk` of metadata/service.go does not come to a result.
use mathlib.Core.List.{Memᴰ}
use orchy.Base.{
  ℕ, zero, suc, ◌<◌, ℤ, int_eq, Text, Option, some, List, [], ◌∷◌, ◌++◌, ◌≡◌, ◌≢◌, refl, ap, arith,
  ◌⊎◌, inl, inr,
}
use orchy.Base.Map.{Map, lookup}
use orchy.Util.Slice.{merge}
use orchy.Action.{Action, base}
use orchy.Metadata.Walk.{
  WalkResult, done, crashed, out_of_fuel, ◌>>=◌, walk_group, walk_branch, walk_branches, walk,
}

-- `r` is a result.
abbrev pub IsDone : WalkResult → Type 0
IsDone r = (sets : List (List ℤ)) × (r ≡ done sets)

IsDone-bind :
    (r : WalkResult) (f : List (List ℤ) → WalkResult)
    → IsDone (r >>= f)
    → (sets : List (List ℤ)) × (r ≡ done sets) × IsDone (f sets)
IsDone-bind (done sets) f h = (sets, refl, h)
IsDone-bind crashed f (sets, h) = cc
IsDone-bind out_of_fuel f (sets, h) = cc

module _ (f : ℤ → WalkResult) where
  group-IsDone :
      (ids : List ℤ) (out : List (List ℤ)) (b : ℤ)
      → IsDone (walk_group f ids out)
      → Memᴰ b ids
      → IsDone (f b)
  unfolding walk_group
  group-IsDone [] out b h inside = elim inside [ ]
  group-IsDone (k ∷ ids) out b h (Memᴰ.head e) =
      let (sets, ran, rest) = IsDone-bind (f k) (λ s. walk_group f ids (merge s out)) h in
      (sets, rw e ran)
  group-IsDone (k ∷ ids) out b h (Memᴰ.tail inside) =
      let (sets, ran, rest) = IsDone-bind (f k) (λ s. walk_group f ids (merge s out)) h in
      group-IsDone ids (merge sets out) b rest inside

  branch-IsDone :
      (ids : List ℤ) (b : ℤ) → IsDone (walk_branch f (some ids)) → Memᴰ b ids → IsDone (f b)
  unfolding walk_branch
  branch-IsDone [] b h inside = elim inside [ ]
  branch-IsDone (k ∷ ids) b h inside = group-IsDone (k ∷ ids) [] b h inside

  branches-IsDone :
      (groups : Map Text (Option (List ℤ))) (result : List (List ℤ)) (e : Text)
      (g : Option (List ℤ))
      → IsDone (walk_branches f groups result)
      → Memᴰ (e, g) groups
      → IsDone (walk_branch f g)
  unfolding walk_branches
  branches-IsDone [] result e g h inside = elim inside [ ]
  branches-IsDone ((e', g') ∷ groups) result e g h (Memᴰ.head same) =
      let (sets, ran, rest) =
        IsDone-bind (walk_branch f g') (λ s. walk_branches f groups (result ++ s)) h in
      let eq : g ≡ g' = ap (λ (p : Text × Option (List ℤ)). p.1) same in (sets, rw eq ran)
  branches-IsDone ((e', g') ∷ groups) result e g h (Memᴰ.tail inside) =
      let (sets, ran, rest) =
        IsDone-bind (walk_branch f g') (λ s. walk_branches f groups (result ++ s)) h in
      branches-IsDone groups (result ++ sets) e g rest inside

module _ (actions : Map ℤ Action) where
  -- The next map of `a` lists `b` under the key `event`.
  pub record Edge (a b : ℤ) : Type 0 where
    pub act : Action
    pub there : lookup a actions ≡ some act
    pub groups : Map Text (Option (List ℤ))
    pub next : (base act).next_map ≡ some groups
    pub event : Text
    pub ids : List ℤ
    pub group : Memᴰ (event, some ids) groups
    pub listed : Memᴰ b ids

  -- One edge or more.
  pub data Leads (a : ℤ) : ℤ → Type 0 where
    one : {b : ℤ} → Edge a b → Leads a b
    more : {b c : ℤ} → Leads a b → Edge b c → Leads a c

  Edge-IsDone :
      (n : ℕ) (a b : ℤ)
      → Edge a b
      → IsDone (walk actions n a)
      → (m : ℕ) × (m < n) × IsDone (walk actions m b)
  unfolding walk
  Edge-IsDone zero a b e (sets, h) = cc
  Edge-IsDone (suc n) a b e h =
      let f = λ (k : ℤ). walk actions n k in
      (
        n,
        omega arith,
        branch-IsDone f e.ids b
            (branches-IsDone f e.groups [] e.event (some e.ids) (rw (e.there, e.next) at h) e.group)
            e.listed,
      )

  Leads-IsDone :
      (n : ℕ) (a : ℤ) {b : ℤ}
      → Leads a b
      → IsDone (walk actions n a)
      → (m : ℕ) × (m < n) × IsDone (walk actions m b)
  Leads-IsDone n a (one {b} e) h = Edge-IsDone n a b e h
  Leads-IsDone n a (more {b} {c} p e) h =
      let (m, below, mid) = Leads-IsDone n a p h in
      let (k, below', last) = Edge-IsDone m b c e mid in (k, omega arith, last)

  no_descent : (k n : ℕ) (a : ℤ) → n < k → Leads a a → IsDone (walk actions n a) → ⊥
  no_descent zero n a low cycle h = absurd (omega arith)
  no_descent (suc k) n a low cycle h =
      let (m, below, again) = Leads-IsDone n a cycle h in no_descent k m a (omega arith) cycle again

  -- An action on a cycle, or from which a cycle is reached, is walked with no result, whatever the
  -- fuel.
  pub walk-cycle :
      (root a : ℤ) (fuel : ℕ) (sets : List (List ℤ))
      → (root ≡ a) ⊎ Leads root a
      → Leads a a
      → walk actions fuel root ≢ done sets
  walk-cycle root a fuel sets (inl e) cycle h =
      no_descent (suc fuel) fuel a (omega arith) cycle (sets, rw (← e) h)
  walk-cycle root a fuel sets (inr p) cycle h =
      let (m, below, there) = Leads-IsDone fuel root p (sets, h) in
      no_descent (suc m) m a (omega arith) cycle there
