-- ===== src/Cluster/Membership.antt =====
-- cluster/membership.go: the events of the serf cluster, and what they do to the ring and the shards.
-- Serf is outside the repository: its events are the input, and the local member's name a parameter.
pub mod Changes
pub mod Table
pub mod Balance
pub mod Progress
pub mod Runs
use orchy.Base.{
  ℤ, Text, text_eq, lit, Bool, true, false, if◌then◌else◌, ◌==◌, Option, none, some, List, [], ◌∷◌,
  Outcome, returned, panicked,
}
use orchy.Base.Map.{Map, lookup}
use orchy.Cluster.Ring.{Consistent}
use orchy.Cluster.Shards.{Cluster, on_join, on_leave}

-- serf.Member, as far as it is read.
pub record Member : Type 0 where
  pub name : Text
  pub tags : Map Text Text

-- serf.Event: the loop looks at three of its types.
pub data Event : Type 0 where
  member_join member_leave member_failed : List Member → Event
  other_event : Event

-- member.Tags["rpc_addr"]
unfoldable pub rpc_addr : Member → Text
unfolding lookup
rpc_addr m = elim (lookup (lit "rpc_addr") m.tags) [ none ↦ [] | some addr ↦ addr ]

-- isLocal, with the name of serf's local member.
unfoldable pub is_local : Text → Member → Bool
is_local local_name m = local_name == m.name

abbrev pub and_then : {A B : Type 0} → Outcome A → (A → Outcome B) → Outcome B
and_then panicked f = panicked
and_then (returned a) f = f a

module _ {H S Q : Type 0} (lib : Consistent H) (shuffle : List ℤ → List ℤ) (local_name : Text) where
  -- handleJoin and handleLeave. The handler is the ring, whose methods return no error.
  unfoldable pub handle_join : Member → Cluster H S Q → Outcome (Cluster H S Q)
  handle_join m c = on_join lib shuffle m.name (rpc_addr m) (is_local local_name m) c

  unfoldable pub handle_leave : Member → Cluster H S Q → Outcome (Cluster H S Q)
  handle_leave m c = on_leave lib shuffle m.name c

  -- The loop over the members that joined.
  unfoldable pub join_each : List Member → Cluster H S Q → Outcome (Cluster H S Q)
  join_each [] c = returned c
  join_each (m ∷ ms) c = and_then (handle_join m c) (join_each ms)

  -- The loop over the members that left or failed: whether the handler goes on, which it does not
  -- after the local member.
  unfoldable pub leave_each : List Member → Cluster H S Q → Outcome (Bool × Cluster H S Q)
  leave_each [] c = returned (true, c)
  leave_each (m ∷ ms) c =
      let rest = and_then (handle_leave m c) (leave_each ms) in
      if is_local local_name m then returned (false, c) else rest

  -- One round of eventHandler.
  unfoldable pub on_event : Event → Cluster H S Q → Outcome (Bool × Cluster H S Q)
  on_event (member_join ms) c = and_then (join_each ms c) (λ c'. returned (true, c'))
  on_event (member_leave ms) c = leave_each ms c
  on_event (member_failed ms) c = leave_each ms c
  on_event other_event c = returned (true, c)

  -- eventHandler, on the events that are sent: the cluster after the last one that it received.
  unfoldable pub event_handler : List Event → Cluster H S Q → Outcome (Cluster H S Q)
  event_handler [] c = returned c
  event_handler (e ∷ es) c =
      and_then (on_event e c)
        (λ (goes_on, c'). if goes_on then event_handler es c' else returned c')
