-- ===== src/Cluster/Membership/Table.antt =====
-- The node table and the hash ring of cluster/ring.go after the events of cluster/membership.go,
-- against a table that is described by the members that came and went.
use orchy.Base.{
  ℕ, ◌<◌, ℤ, pos, Text, text_eq, text_beq_iff, Bool, true, false, not, ◌&&◌, ◌||◌, if◌then◌else◌,
  ◌==◌, Option, none, some, List, [], ◌∷◌, Outcome, returned, panicked, ◌≡◌, ◌≢◌, refl, sym, ap,
  ◌∙◌, arith, Option-cases, ◌⊎◌, inl, inr,
}
use orchy.Base.Map.{lookup, lookup-insert, lookup-delete}
use orchy.Cluster.Ring.{Consistent, Ring, Node, get_partitions, join, leave}
use orchy.Cluster.Shards.{Cluster, on_join, on_leave, rebalance, rebalanced}
use orchy.Cluster.Membership.{Event, event_handler}
use orchy.Cluster.Membership.Changes.{
  Change, arrives, departs, changes, apply_change, apply_all, returned_injective,
  event_handler-returned, and_then-eq, apply_all-keeps,
}

-- What the documentation of buraksezer/consistent says of the members of a ring.
pub record IsConsistent {H : Type 0} (lib : Consistent H) (partitions : ℕ)
    (member : Text → H → Bool) : Type 0 where
  pub no_member : (n : Text) → member n lib.empty ≡ false
  pub member_add : (m n : Text) (h : H) → member n (lib.add m h) ≡ (m == n || member n h)
  pub member_remove :
      (m n : Text) (h : H) → member n (lib.remove m h) ≡ (not (m == n) && member n h)
  -- Every partition has an owner once there is a member, and the owner is a member.
  pub has_owner :
      (p : ℕ) (n : Text) (h : H)
      → p < partitions
      → member n h ≡ true
      → lib.get_partition_owner (pos p) h ≢ none
  pub owner_member :
      (p : ℕ) (n : Text) (h : H) → lib.get_partition_owner (pos p) h ≡ some n → member n h ≡ true

abbrev pub is_some : {A : Type 0} → Option A → Bool
is_some none = false
is_some (some a) = true

-- A member keeps the address with which it came first.
abbrev pub after_change : Text → Change → Option Node → Option Node
after_change n (arrives m addr) none =
    if m == n then some (record { name = m; addr = addr }) else none
after_change n (arrives m addr) (some old) = some old
after_change n (departs m) o = if m == n then none else o

-- The entry of a name after the changes.
unfoldable pub entry : Text → List Change → Option Node → Option Node
entry n [] o = o
entry n (ch ∷ chs) o = entry n chs (after_change n ch o)

module _ {H : Type 0} (lib : Consistent H) (shuffle : List ℤ → List ℤ) (local_name : Text) where
  -- The ring after a change, and whether the shards are rebalanced.
  abbrev pub ring_change : Change → Ring H → Bool × Ring H
  ring_change (arrives name addr) r = join lib shuffle name addr (local_name == name) r
  ring_change (departs name) r = (true, leave lib shuffle name r)

  ring_change-unchanged :
      (ch : Change) (r : Ring H) → (ring_change ch r).0 ≡ false → (ring_change ch r).1 ≡ r
  unfolding join
  ring_change-unchanged (arrives name addr) r h = ground arith
  ring_change-unchanged (departs name) r h = ground arith

  -- The entries after one change.
  change_entry :
      (ch : Change) (r : Ring H) (n : Text)
      → lookup n (ring_change ch r).1.nodes ≡ after_change n ch (lookup n r.nodes)
  unfolding join leave
  change_entry (arrives name addr) r n = elim (Option-cases (lookup name r.nodes)) [
    | inl e ↦ ground (
      arith,
      e,
      text_beq_iff name n,
      lookup-insert name n (record { name = name; addr = addr }) r.nodes,
      Option-cases (lookup n r.nodes),
    )
    | inr (old, e) ↦ ground (arith, e, text_beq_iff name n, Option-cases (lookup n r.nodes))
  ]
  change_entry (departs name) r n = lookup-delete name n r.nodes

  module _ (partitions : ℕ) (member : Text → H → Bool)
      (ok : IsConsistent lib partitions member) where
    -- The names of the node table are the members of the hash ring.
    abbrev pub Agree : Ring H → Type 0
    Agree r = (n : Text) → member n r.hring ≡ is_some (lookup n r.nodes)

    change-Agree : (ch : Change) (r : Ring H) → Agree r → Agree (ring_change ch r).1
    unfolding join leave
    change-Agree (arrives name addr) r h n = elim (Option-cases (lookup name r.nodes)) [
      | inl e ↦ ground (
        arith,
        e,
        ok.member_add name n r.hring,
        h n,
        lookup-insert name n (record { name = name; addr = addr }) r.nodes,
      )
      | inr (old, e) ↦ ground (arith, e, h n)
    ]
    change-Agree (departs name) r h n =
        ground (arith, ok.member_remove name n r.hring, h n, lookup-delete name n r.nodes)

module _ {H S Q : Type 0} (lib : Consistent H) (shuffle : List ℤ → List ℤ) (local_name : Text) where
  -- What a rebalancing leaves, when it ends.
  pub rebalanced_lem :
      (c c' : Cluster H S Q) (r : Ring H) (o : Outcome (List ℤ))
      → rebalanced lib shuffle c r o ≡ returned c'
      → (ids : List ℤ) × (o ≡ returned ids)
        × (c' ≡ record c { ring = r; shards = rebalance ids c.shards })
  rebalanced_lem c c' r panicked h = cc
  rebalanced_lem c c' r (returned ids) h = (ids, refl, cc)

  abbrev pub done_with : Cluster H S Q → Bool × Ring H → Outcome (Cluster H S Q)
  done_with c (changed, r) =
      if changed then rebalanced lib shuffle c r (get_partitions lib shuffle r) else returned c

  done_with-cases :
      (c c' : Cluster H S Q) (changed : Bool) (r : Ring H)
      → done_with c (changed, r) ≡ returned c'
      → ((changed ≡ false) × (c' ≡ c))
        ⊎ ((changed ≡ true)
            × ((ids : List ℤ) × (get_partitions lib shuffle r ≡ returned ids)
                × (c' ≡ record c { ring = r; shards = rebalance ids c.shards })))
  done_with-cases c c' false r h = inl (refl, cc)
  done_with-cases c c' true r h = inr (refl, rebalanced_lem c c' r _ h)

  pub apply_change-done_with :
      (ch : Change) (c : Cluster H S Q)
      → apply_change lib shuffle local_name ch c
        ≡ done_with c (ring_change lib shuffle local_name ch c.ring)
  unfolding apply_change on_join on_leave
  apply_change-done_with (arrives name addr) c = refl
  apply_change-done_with (departs name) c = refl

  -- A change that ends leaves everything, or rebalances the shards over the ring that it makes.
  pub apply_change-cases :
      (ch : Change) (c c' : Cluster H S Q)
      → apply_change lib shuffle local_name ch c ≡ returned c'
      → (((ring_change lib shuffle local_name ch c.ring).0 ≡ false) × (c' ≡ c))
        ⊎ (((ring_change lib shuffle local_name ch c.ring).0 ≡ true)
            × ((ids : List ℤ) × (get_partitions lib shuffle
                    (ring_change lib shuffle local_name ch c.ring).1
                  ≡ returned ids)
                × (c' ≡ record c {
                  ring = (ring_change lib shuffle local_name ch c.ring).1;
                  shards = rebalance ids c.shards;
                })))
  apply_change-cases ch c c' h =
      done_with-cases c c' (ring_change lib shuffle local_name ch c.ring).0
        (ring_change lib shuffle local_name ch c.ring).1 (rw (← apply_change-done_with ch c) h)

  pub apply_change-ring :
      (ch : Change) (c c' : Cluster H S Q)
      → apply_change lib shuffle local_name ch c ≡ returned c'
      → c'.ring ≡ (ring_change lib shuffle local_name ch c.ring).1
  apply_change-ring ch c c' h = elim (apply_change-cases ch c c' h) [
    | inl (same, e) ↦ rw e (sym (ring_change-unchanged lib shuffle local_name ch c.ring same))
    | inr (_, (ids, listed, e)) ↦ rw e refl
  ]

  all_entries :
      (chs : List Change) (c c' : Cluster H S Q) (n : Text)
      → apply_all lib shuffle local_name chs c ≡ returned c'
      → lookup n c'.ring.nodes ≡ entry n chs (lookup n c.ring.nodes)
  unfolding apply_all entry
  all_entries [] c c' n h =
      ap (λ (k : Cluster H S Q). lookup n k.ring.nodes) (sym (returned_injective h))
  all_entries (ch ∷ chs) c c' n h =
      let (mid, e, rest) =
        and_then-eq (apply_change lib shuffle local_name ch c)
          (apply_all lib shuffle local_name chs) h in
      all_entries chs mid c' n rest
      ∙ ap (entry n chs)
          (rw (apply_change-ring ch c mid e) (change_entry lib shuffle local_name ch c.ring n))

  module _ (partitions : ℕ) (member : Text → H → Bool)
      (consistent : IsConsistent lib partitions member) where
    all-Agree :
        (chs : List Change) (c c' : Cluster H S Q)
        → apply_all lib shuffle local_name chs c ≡ returned c'
        → Agree lib shuffle local_name partitions member consistent c.ring
        → Agree lib shuffle local_name partitions member consistent c'.ring
    all-Agree =
        apply_all-keeps lib shuffle local_name
          (λ c. Agree lib shuffle local_name partitions member consistent c.ring)
          (λ ch c c' e h.
            rw (apply_change-ring ch c c' e)
              (change-Agree lib shuffle local_name partitions member consistent ch c.ring h))

    -- After any events that are handled to the end, a name has an entry in the node table, and its
    -- node is a member of the hash ring, exactly if it came and did not go after that, or was there
    -- and did not go; its entry then has the address with which it came. What follows the departure
    -- of the local member does not count.
    pub event_handler-entry :
        (es : List Event) (c c' : Cluster H S Q) (n : Text)
        → Agree lib shuffle local_name partitions member consistent c.ring
        → event_handler lib shuffle local_name es c ≡ returned c'
        → (lookup n c'.ring.nodes ≡ entry n (changes local_name es) (lookup n c.ring.nodes))
          × (member n c'.ring.hring
              ≡ is_some (entry n (changes local_name es) (lookup n c.ring.nodes)))
    event_handler-entry es c c' n agree h =
        let applied = event_handler-returned lib shuffle local_name es c c' h in
        let e = all_entries (changes local_name es) c c' n applied in
        (e, all-Agree (changes local_name es) c c' applied agree n ∙ ap is_some e)
