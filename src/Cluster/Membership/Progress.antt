-- ===== src/Cluster/Membership/Progress.antt =====
-- That the events of cluster/membership.go are handled to the end while the local member is there.
use orchy.Base.{
  ℕ, zero, suc, ◌+◌, ◌≤◌, ℤ, pos, pos_part, Text, text_eq, text_beq_iff, Bool, true, false,
  if◌then◌else◌, ◌==◌, Option, none, some, List, [], ◌∷◌, All, contains, int_eq, Outcome, returned,
  ◌≡◌, ◌≢◌, refl, ◌∙◌, arith, ==_refl, Bool-cases, Option-cases, inl, inr,
}
use orchy.Base.Map.{lookup}
use orchy.Cluster.Ring.{
  Consistent, Ring, new_ring, partitions_from, get_partitions, owned, join, leave,
}
use orchy.Cluster.Shards.{Cluster, new_cluster, rebalance}
use orchy.Cluster.Membership.{
  Member, Event, member_join, member_leave, member_failed, other_event, event_handler, rpc_addr,
}
use orchy.Cluster.Membership.Changes.{
  Change, arrives, departs, changes, arrivals, departures, apply_change, apply_all,
  event_handler-apply_all,
}
use orchy.Cluster.Membership.Table.{
  IsConsistent, ring_change, done_with, apply_change-done_with, apply_change-ring,
}
use orchy.Cluster.Membership.Balance.{IsBalanced, new_cluster-IsBalanced, event_handler-IsBalanced}

-- The change is not the departure of the name.
abbrev Stays : Text → Change → Type 0
Stays name (arrives m addr) = Unit
Stays name (departs m) = name ≢ m

arrivals_stay :
    (name : Text) (ms : List Member) (rest : List Change)
    → All (Stays name) rest
    → All (Stays name) (arrivals name ms rest)
arrivals_stay name [] rest h = h
arrivals_stay name (m ∷ ms) rest h = (tt, arrivals_stay name ms rest h)

departures_stay :
    (name : Text) (ms : List Member) (rest : List Change)
    → All (Stays name) rest
    → All (Stays name) (departures name ms rest)
departures_stay name [] rest h = h
departures_stay name (m ∷ ms) rest h = elim (Bool-cases (name == m.name)) [
  | inl e ↦ rw e tt
  | inr e ↦ rw e (ground (arith, e, text_beq_iff name m.name), departures_stay name ms rest h)
]

-- The local member never departs by the changes.
changes_stay : (name : Text) (es : List Event) → All (Stays name) (changes name es)
unfolding changes
changes_stay name [] = tt
changes_stay name (member_join ms ∷ es) = arrivals_stay name ms _ (changes_stay name es)
changes_stay name (member_leave ms ∷ es) = departures_stay name ms _ (changes_stay name es)
changes_stay name (member_failed ms ∷ es) = departures_stay name ms _ (changes_stay name es)
changes_stay name (other_event ∷ es) = changes_stay name es

module _ {H : Type 0} (lib : Consistent H) (shuffle : List ℤ → List ℤ) (partitions : ℕ)
    (member : Text → H → Bool) (consistent : IsConsistent lib partitions member) where
  owned_returns :
      (owner : Option Text) (name : Text) (i : ℤ) (rest : Outcome (List ℤ))
      → owner ≢ none
      → ((ids : List ℤ) × (rest ≡ returned ids))
      → (ids : List ℤ) × (owned lib shuffle owner name i rest ≡ returned ids)
  owned_returns none name i rest h k = absurd (h refl)
  owned_returns (some owner) name i rest h (ids, e) =
      (if owner == name then i ∷ ids else ids, rw e refl)

  from_returns :
      (r : Ring H) (n : Text) (left i : ℕ)
      → member n r.hring ≡ true
      → left + i ≤ partitions
      → (ids : List ℤ) × (partitions_from lib shuffle r left i ≡ returned ids)
  unfolding partitions_from
  from_returns r n zero i h low = ([], refl)
  from_returns r n (suc left) i h low =
      owned_returns (lib.get_partition_owner (pos i) r.hring) r.local_node.name (pos i)
        (partitions_from lib shuffle r left (suc i))
        (consistent.has_owner i n r.hring (omega arith) h)
        (from_returns r n left (suc i) h (omega arith))

  get_partitions_returns :
      (r : Ring H) (n : Text)
      → member n r.hring ≡ true
      → r.partition_count ≡ pos partitions
      → (ids : List ℤ) × (get_partitions lib shuffle r ≡ returned ids)
  unfolding get_partitions
  get_partitions_returns r n h count =
      let (ids, e) = from_returns r n (pos_part r.partition_count) 0 h (rw count (omega arith)) in
      (shuffle ids, rw e refl)

  -- What a ring keeps on which every call of GetPartitions returns.
  abbrev IsReady : Text → Ring H → Type 0
  IsReady name r = (member name r.hring ≡ true) × (r.partition_count ≡ pos partitions)

  change-IsReady :
      (name : Text) (ch : Change) (r : Ring H)
      → Stays name ch
      → IsReady name r
      → IsReady name (ring_change lib shuffle name ch r).1
  unfolding join leave
  change-IsReady name (arrives m addr) r stays (h, count) =
      let there = Option-cases (lookup m r.nodes) in
      (ground (arith, there, consistent.member_add m name r.hring), ground (arith, there))
  change-IsReady name (departs m) r stays (h, count) =
      (ground (arith, consistent.member_remove m name r.hring, text_beq_iff m name), count)

module _ {H S Q : Type 0} (lib : Consistent H) (shuffle : List ℤ → List ℤ) (partitions : ℕ)
    (member : Text → H → Bool) (consistent : IsConsistent lib partitions member) where
  done_with-returns :
      (name : Text) (c : Cluster H S Q) (changed : Bool) (r : Ring H)
      → ((ids : List ℤ) × (get_partitions lib shuffle r ≡ returned ids))
      → (c' : Cluster H S Q) × (done_with lib shuffle name c (changed, r) ≡ returned c')
  done_with-returns name c false r h = (c, refl)
  done_with-returns name c true r (ids, e) =
      (record c { ring = r; shards = rebalance ids c.shards }, rw e refl)

  change_returns :
      (name : Text) (ch : Change) (c : Cluster H S Q)
      → IsReady lib shuffle partitions member consistent name
          (ring_change lib shuffle name ch c.ring).1
      → (c' : Cluster H S Q) × (apply_change lib shuffle name ch c ≡ returned c')
  change_returns name ch c (h, count) =
      let made = ring_change lib shuffle name ch c.ring in
      let (c', e) =
        done_with-returns name c made.0 made.1
          (get_partitions_returns lib shuffle partitions member consistent made.1 name h count) in
      (c', apply_change-done_with lib shuffle name ch c ∙ e)

  all_return :
      (name : Text) (chs : List Change) (c : Cluster H S Q)
      → All (Stays name) chs
      → IsReady lib shuffle partitions member consistent name c.ring
      → (c' : Cluster H S Q) × (apply_all lib shuffle name chs c ≡ returned c')
  unfolding apply_all
  all_return name [] c h ready = (c, refl)
  all_return name (ch ∷ chs) c (stays, h) ready =
      let next =
        change-IsReady lib shuffle partitions member consistent name ch c.ring stays ready in
      let (mid, e) = change_returns name ch c next in
      let (c', e') =
        all_return name chs mid h (rw (apply_change-ring lib shuffle name ch c mid e) next) in
      (c', rw e e')

  -- A change after which the local member is there, and others among which it stays.
  first_returns :
      (name : Text) (ch : Change) (chs : List Change) (c : Cluster H S Q)
      → All (Stays name) chs
      → IsReady lib shuffle partitions member consistent name
          (ring_change lib shuffle name ch c.ring).1
      → (c' : Cluster H S Q) × (apply_all lib shuffle name (ch ∷ chs) c ≡ returned c')
  unfolding apply_all
  first_returns name ch chs c stays ready =
      let (mid, e) = change_returns name ch c ready in
      let (c', e') =
        all_return name chs mid stays (rw (apply_change-ring lib shuffle name ch c mid e) ready) in
      (c', rw e e')

  new_cluster-IsReady :
      (name addr : Text) (storage : S) (queue : Q)
      → IsReady lib shuffle partitions member consistent name
          (ring_change lib shuffle name
            (arrives name addr)
            (new_cluster lib shuffle storage queue (pos partitions)).ring).1
  unfolding new_cluster new_ring join lookup
  new_cluster-IsReady name addr storage queue =
      (ground (arith, consistent.member_add name name lib.empty, ==_refl name), refl)

  -- A new node that is told first that it has itself joined handles whatever events follow without
  -- a panic, as far as its calls to executors return; and the last call that it makes to each
  -- executor of a shard is Start if the hash ring gives the shard's partition to the node, and else
  -- Stop, if it makes one at all.
  pub event_handler_balances :
      (kept : (xs : List ℤ) (x : ℤ) → contains (shuffle xs) x ≡ contains xs x) (m : Member)
      (ms : List Member) (es : List Event) (storage : S) (queue : Q)
      → (c : Cluster H S Q) × (event_handler lib shuffle m.name
            (member_join (m ∷ ms) ∷ es)
            (new_cluster lib shuffle storage queue (pos partitions))
          ≡ returned c)
        × IsBalanced lib shuffle c
  unfolding changes
  event_handler_balances kept m ms es storage queue =
      let new = new_cluster lib shuffle storage queue (pos partitions) in
      let all = member_join (m ∷ ms) ∷ es in
      let (c, e) =
        first_returns m.name (arrives m.name (rpc_addr m)) (arrivals m.name ms (changes m.name es))
          new (arrivals_stay m.name ms (changes m.name es) (changes_stay m.name es))
          (new_cluster-IsReady m.name (rpc_addr m) storage queue) in
      let handled = event_handler-apply_all lib shuffle m.name all new ∙ e in
      (
        c,
        handled,
        event_handler-IsBalanced lib shuffle kept m.name all new c handled (
            new_cluster-IsBalanced lib shuffle partitions member consistent storage queue
              (pos partitions)),
      )
