-- ===== src/Cluster/Ring/Ownership.antt =====
-- Which partitions GetPartitions of cluster/ring.go lists.
use orchy.Base.{
  ℕ, zero, suc, ◌+◌, ℤ, pos, pos_part, int_eq, int_beq, Text, text_eq, text_beq_iff, Bool, true,
  false, ◌&&◌, ◌==◌, Option, none, some, List, contains, Outcome, returned, panicked, ◌≡◌, ◌≢◌,
  refl, ap, arith, ltb, leb,
}
use orchy.Cluster.Ring.{Consistent, Ring, partitions_from, get_partitions, owned, shuffled}

module _ {H : Type 0} (lib : Consistent H) (shuffle : List ℤ → List ℤ) where
  -- Does the ring's member own the partition?
  abbrev pub owns : Option Text → Text → Bool
  owns none name = false
  owns (some owner) name = owner == name

  one_owner :
      (low low' mine yours : Bool) (owner : Option Text) (name name' : Text)
      → name ≢ name'
      → mine ≡ (low && owns owner name)
      → yours ≡ (low' && owns owner name')
      → mine ≡ true
      → yours ≡ false
  one_owner low low' mine yours none name name' differ e e' h = ground arith
  one_owner low low' mine yours (some o) name name' differ e e' h =
      ground (arith, text_beq_iff o name, text_beq_iff o name')

  -- One round, on the owner of its partition and on what the later rounds list.
  round_lists :
      (name : Text) (i left k : ℕ) (owner_i owner_k : Option Text) (rest : Outcome (List ℤ))
      (ids : List ℤ)
      → owned lib shuffle owner_i name (pos i) rest ≡ returned ids
      → (i ≡ k → owner_i ≡ owner_k)
      → ((later : List ℤ)
          → rest ≡ returned later
          → contains later (pos k) ≡ (leb (suc i) k && ltb k (suc i + left) && owns owner_k name))
      → contains ids (pos k) ≡ (leb i k && ltb k (i + suc left) && owns owner_k name)
  unfolding contains int_beq
  round_lists name i left k none owner_k rest ids h same later = ground arith
  round_lists name i left k (some o) owner_k panicked ids h same later = ground arith
  round_lists name i left k (some o) owner_k (returned ids') ids h same later =
      ground (arith, same, later ids' refl)

  from_lists :
      (r : Ring H) (left i : ℕ) (ids : List ℤ) (k : ℕ)
      → partitions_from lib shuffle r left i ≡ returned ids
      → contains ids (pos k) ≡ (
          leb i k
          && ltb k (i + left)
          && owns (lib.get_partition_owner (pos k) r.hring) r.local_node.name)
  unfolding partitions_from contains
  from_lists r zero i ids k h = ground arith
  from_lists r (suc left) i ids k h =
      round_lists r.local_node.name i left k (lib.get_partition_owner (pos i) r.hring)
        (lib.get_partition_owner (pos k) r.hring) (partitions_from lib shuffle r left (suc i)) ids h
        (λ e. ap (λ (n : ℕ). lib.get_partition_owner (pos n) r.hring) e)
        (λ later e. from_lists r left (suc i) later k e)

  module _ (kept : (xs : List ℤ) (x : ℤ) → contains (shuffle xs) x ≡ contains xs x) where
    shuffled_lists :
        (r : Ring H) (ids : List ℤ) (k : ℕ) (listed : Outcome (List ℤ))
        → partitions_from lib shuffle r (pos_part r.partition_count) 0 ≡ listed
        → shuffled lib shuffle listed ≡ returned ids
        → contains ids (pos k) ≡ (
            ltb k (pos_part r.partition_count)
            && owns (lib.get_partition_owner (pos k) r.hring) r.local_node.name)
    shuffled_lists r ids k panicked e h = ground arith
    shuffled_lists r ids k (returned ids') e h =
        ground (arith, kept ids' (pos k), from_lists r (pos_part r.partition_count) 0 ids' k e)

    -- GetPartitions lists exactly those partitions below the partition count that the hash ring
    -- gives to the local node.
    pub contains-get_partitions :
        (r : Ring H) (ids : List ℤ) (k : ℕ)
        → get_partitions lib shuffle r ≡ returned ids
        → contains ids (pos k) ≡ (
            ltb k (pos_part r.partition_count)
            && owns (lib.get_partition_owner (pos k) r.hring) r.local_node.name)
    unfolding get_partitions
    contains-get_partitions r ids k h = shuffled_lists r ids k _ refl h

    -- Two nodes with different names that see the same hash ring list no partition twice.
    pub get_partitions-disjoint :
        (r r' : Ring H) (ids ids' : List ℤ) (k : ℕ)
        → r.hring ≡ r'.hring
        → r.local_node.name ≢ r'.local_node.name
        → get_partitions lib shuffle r ≡ returned ids
        → get_partitions lib shuffle r' ≡ returned ids'
        → contains ids (pos k) ≡ true
        → contains ids' (pos k) ≡ false
    get_partitions-disjoint r r' ids ids' k same_ring differ h h' mine =
        one_owner (ltb k (pos_part r.partition_count)) (ltb k (pos_part r'.partition_count))
          (contains ids (pos k)) (contains ids' (pos k)) (lib.get_partition_owner (pos k) r.hring)
          r.local_node.name r'.local_node.name differ (contains-get_partitions r ids k h)
          (rw same_ring (contains-get_partitions r' ids' k h')) mine
