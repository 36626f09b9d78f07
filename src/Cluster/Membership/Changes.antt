-- ===== src/Cluster/Membership/Changes.antt =====
-- The events of cluster/membership.go as one list of members that come and go.
use orchy.Base.{
  ℤ, Text, text_eq, if◌then◌else◌, ◌==◌, List, [], ◌∷◌, Outcome, returned, panicked, ◌≡◌, refl, sym,
  ◌∙◌, Bool-cases, inl, inr,
}
use orchy.Cluster.Ring.{Consistent}
use orchy.Cluster.Shards.{Cluster, on_join, on_leave}
use orchy.Cluster.Membership.{
  Member, Event, member_join, member_leave, member_failed, other_event, rpc_addr, is_local,
  and_then, handle_join, handle_leave, join_each, leave_each, on_event, event_handler,
}

pub returned_injective : {A : Type 0} {a b : A} → returned a ≡ returned b → a ≡ b
returned_injective h = cc

pub and_then-eq :
    {A B : Type 0} {b : B} (o : Outcome A) (f : A → Outcome B)
    → and_then o f ≡ returned b
    → (a : A) × (o ≡ returned a) × (f a ≡ returned b)
and_then-eq panicked f h = cc
and_then-eq (returned a) f h = (a, refl, h)

-- A member comes with its name and address, or goes.
pub data Change : Type 0 where
  arrives : Text → Text → Change
  departs : Text → Change

module _ (local_name : Text) where
  abbrev pub arrivals : List Member → List Change → List Change
  arrivals [] rest = rest
  arrivals (m ∷ ms) rest = arrives m.name (rpc_addr m) ∷ arrivals ms rest

  -- Nothing that follows the local member's departure counts, nor that departure itself.
  abbrev pub departures : List Member → List Change → List Change
  departures [] rest = rest
  departures (m ∷ ms) rest =
      let others = departures ms rest in
      if local_name == m.name then [] else departs m.name ∷ others

  -- The members that come and go up to the first event in which the local member goes.
  unfoldable pub changes : List Event → List Change
  changes [] = []
  changes (member_join ms ∷ es) = arrivals ms (changes es)
  changes (member_leave ms ∷ es) = departures ms (changes es)
  changes (member_failed ms ∷ es) = departures ms (changes es)
  changes (other_event ∷ es) = changes es

module _ {H S Q : Type 0} (lib : Consistent H) (shuffle : List ℤ → List ℤ) (local_name : Text) where
  unfoldable pub apply_change : Change → Cluster H S Q → Outcome (Cluster H S Q)
  apply_change (arrives name addr) c = on_join lib shuffle name addr (local_name == name) c
  apply_change (departs name) c = on_leave lib shuffle name c

  unfoldable pub apply_all : List Change → Cluster H S Q → Outcome (Cluster H S Q)
  apply_all [] c = returned c
  apply_all (ch ∷ chs) c = and_then (apply_change ch c) (apply_all chs)

  and_then-cong :
      (o : Outcome (Cluster H S Q)) (f g : Cluster H S Q → Outcome (Cluster H S Q))
      → ((c : Cluster H S Q) → f c ≡ g c)
      → and_then o f ≡ and_then o g
  and_then-cong panicked f g h = refl
  and_then-cong (returned c) f g h = h c

  assoc :
      {A B : Type 0} (o : Outcome (Cluster H S Q)) (f : Cluster H S Q → Outcome A)
      (g : A → Outcome B)
      → and_then (and_then o f) g ≡ and_then o (λ c. and_then (f c) g)
  assoc panicked f g = refl
  assoc (returned c) f g = refl

  joined :
      (ms : List Member) (es : List Change) (c : Cluster H S Q)
      → and_then (join_each lib shuffle local_name ms c) (apply_all es)
        ≡ apply_all (arrivals local_name ms es) c
  unfolding join_each apply_all apply_change handle_join is_local
  joined [] es c = refl
  joined (m ∷ ms) es c =
      assoc (handle_join lib shuffle local_name m c) (join_each lib shuffle local_name ms)
        (apply_all es)
      ∙ and_then-cong (handle_join lib shuffle local_name m c) _ _ (joined ms es)

  left :
      (ms : List Member) (es : List Change) (c : Cluster H S Q)
      (next : Cluster H S Q → Outcome (Cluster H S Q))
      → ((c' : Cluster H S Q) → next c' ≡ apply_all es c')
      → and_then
          (leave_each lib shuffle local_name ms c)
          (λ (goes_on, c'). if goes_on then next c' else returned c')
        ≡ apply_all (departures local_name ms es) c
  unfolding leave_each apply_all apply_change handle_leave is_local
  left [] es c next h = h c
  left (m ∷ ms) es c next h = elim (Bool-cases (local_name == m.name)) [
    | inl e ↦ rw e refl
    | inr e ↦ rw e (
        assoc (handle_leave lib shuffle local_name m c) (leave_each lib shuffle local_name ms) _
        ∙ and_then-cong (handle_leave lib shuffle local_name m c) _ _ (λ c'. left ms es c' next h))
  ]

  -- The handler does what the changes say, one after the other.
  pub event_handler-apply_all :
      (es : List Event) (c : Cluster H S Q)
      → event_handler lib shuffle local_name es c ≡ apply_all (changes local_name es) c
  unfolding event_handler on_event changes apply_all
  event_handler-apply_all [] c = refl
  event_handler-apply_all (member_join ms ∷ es) c =
      assoc (join_each lib shuffle local_name ms c) _ _
      ∙ and_then-cong (join_each lib shuffle local_name ms c) _ _ (event_handler-apply_all es)
      ∙ joined ms (changes local_name es) c
  event_handler-apply_all (member_leave ms ∷ es) c =
      left ms (changes local_name es) c (event_handler lib shuffle local_name es)
        (event_handler-apply_all es)
  event_handler-apply_all (member_failed ms ∷ es) c =
      left ms (changes local_name es) c (event_handler lib shuffle local_name es)
        (event_handler-apply_all es)
  event_handler-apply_all (other_event ∷ es) c = event_handler-apply_all es c

  -- A predicate that every change keeps holds after the events.
  pub apply_all-keeps :
      (P : Cluster H S Q → Type 0)
      → ((ch : Change) (c c' : Cluster H S Q) → apply_change ch c ≡ returned c' → P c → P c')
      → (chs : List Change) (c c' : Cluster H S Q) → apply_all chs c ≡ returned c'
      → P c
      → P c'
  unfolding apply_all
  apply_all-keeps P step [] c c' h p = rw (← returned_injective h) p
  apply_all-keeps P step (ch ∷ chs) c c' h p =
      let (mid, e, rest) = and_then-eq (apply_change ch c) (apply_all chs) h in
      apply_all-keeps P step chs mid c' rest (step ch c mid e p)

  pub event_handler-returned :
      (es : List Event) (c c' : Cluster H S Q)
      → event_handler lib shuffle local_name es c ≡ returned c'
      → apply_all (changes local_name es) c ≡ returned c'
  event_handler-returned es c c' h = sym (event_handler-apply_all es c) ∙ h
