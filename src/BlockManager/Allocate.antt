-- ===== src/BlockManager/Allocate.antt =====
-- `allocate`: from the free list, else by evicting the oldest idle block, else an exception.
use kvflux.Base.{
  ℕ, ◌+◌, ◌<◌, ◌≡◌, ◌≢◌, inl, inr, refl, subst, true, false, Option, none, some, List, [], ◌∷◌,
  arith, ltb, ◌==◌, remove, Bool-cases, size_max, contains-remove, remove-Distinct, ok, err,
  capacity_error, overflow_error,
}
use kvflux.IndexLru.Order.{Holds, erase-Holds}
use kvflux.IndexLru
use kvflux.BlockManager.{BlockManager, allocate, vacate, revive, erase_bucket}
use kvflux.BlockManager.Prefixes.{bucket}
use kvflux.BlockManager.Invariant.{Inv, Queues, Indexed, Chain, Chain-update}

-- The bucket that an eviction leaves.
bucket-erase : (id : ℕ) (b : Option (List ℕ)) → bucket (erase_bucket id b) ≡ remove id (bucket b)
bucket-erase id none = refl
bucket-erase id (some []) = refl
bucket-erase id (some (x ∷ xs)) = ground arith

erase_bucket-filled : (id : ℕ) (b : Option (List ℕ)) → erase_bucket id b ≢ some []
erase_bucket-filled id none = λ e. cc
erase_bucket-filled id (some xs) = go (remove id xs) refl
  where
    go : (ys : List ℕ) → remove id xs ≡ ys → erase_bucket id (some xs) ≢ some []
    go [] e = rw (e, erase_bucket) (λ h. cc)
    go (y ∷ ys) e = rw (e, erase_bucket) (λ h. cc)

module _ (m : BlockManager) (id : ℕ) (rest idle : List ℕ) (v : Queues m (id ∷ rest) idle) where
  head_free : (ltb id m.capacity ≡ true) × ((m.slots id).free ≡ true)
  head_free = ground (arith, v.free_mem id)

  abbrev taken : BlockManager
  unfolding vacate
  taken = revive id (vacate id m)

  taken-Chain : Chain taken.slots taken.free_head rest
  unfolding vacate
  taken-Chain = rw (head_free.1) (
      Chain-update _ _ rest id _ v.free_distinct.0
        (Chain-update _ _ rest id _ v.free_distinct.0 v.chain.1))

  take_free-Queues : Queues taken rest idle
  unfolding vacate
  take_free-Queues = record {
    chain = taken-Chain;
    free_distinct = v.free_distinct.1;
    idle_order = ground (arith, head_free, v.idle_order);
    free_mem = λ i. ground (arith, head_free, v.free_mem i, v.free_distinct);
    idle_mem = λ i. ground (arith, head_free, v.idle_mem i);
    free_blank = λ i. ground (arith, head_free, v.free_blank i);
    idle_cached = λ i. ground (arith, head_free, v.idle_cached i);
  }

  take_free-Indexed : Indexed m → Indexed taken
  unfolding vacate
  take_free-Indexed x = record {
    positive = ground (arith, head_free, x.positive);
    inside = λ i. ground (arith, head_free, x.inside i);
    bucket_mem = λ h i. ground (arith, head_free, x.bucket_mem h i, v.free_blank id);
    bucket_distinct = λ h. ground (arith, head_free, x.bucket_distinct h);
    bucket_filled = λ h. ground (arith, head_free, x.bucket_filled h);
    hashed = λ i. ground (arith, head_free, x.hashed i);
    whole = λ i. ground (arith, head_free, x.whole i);
    unique = λ i j. ground (arith, head_free, x.unique i j, v.free_blank id);
  }

module _ (m : BlockManager) (id : ℕ) (rest : List ℕ) (v : Queues m [] (id ∷ rest)) where
  oldest_idle :
      (ltb id m.capacity ≡ true)
      × ((m.slots id).free ≡ false)
      × ((m.slots id).refs ≡ 0)
      × ((m.slots id).cached ≡ true)
  oldest_idle = ground (arith, v.idle_mem id, v.idle_cached id)

  abbrev evicted : BlockManager
  unfolding vacate
  evicted = revive id (vacate id m)

  evicted-idle : Holds evicted.idle_lru rest
  unfolding vacate
  evicted-idle = rw (oldest_idle.1) (
      subst (Holds (IndexLru.erase id m.idle_lru)) (ground arith)
        (erase-Holds id m.idle_lru (id ∷ rest) v.idle_order))

  evict-Queues : Queues evicted [] rest
  unfolding vacate
  evict-Queues = record {
    chain = ground (arith, oldest_idle, v.chain);
    free_distinct = tt;
    idle_order = evicted-idle;
    free_mem = λ i. ground (arith, oldest_idle, v.free_mem i);
    idle_mem = λ i. ground (arith, oldest_idle, v.idle_mem i, v.idle_order.distinct);
    free_blank = λ i. ground (arith, oldest_idle, v.free_blank i);
    idle_cached = λ i. ground (arith, oldest_idle, v.idle_cached i);
  }

  evict-Indexed : Indexed m → Indexed evicted
  unfolding vacate
  evict-Indexed x = record {
    positive = ground (arith, oldest_idle, x.positive);
    inside = λ i. ground (arith, oldest_idle, x.inside i);
    bucket_mem = λ h i. ground (
      arith,
      oldest_idle,
      x.bucket_mem h i,
      x.bucket_distinct h,
      bucket-erase id (m.index (m.slots id).hash),
      contains-remove i id (bucket (m.index h)),
    );
    bucket_distinct = λ h. ground (
      arith,
      oldest_idle,
      x.bucket_distinct h,
      bucket-erase id (m.index (m.slots id).hash),
      remove-Distinct id (bucket (m.index h)),
    );
    bucket_filled = λ h.
        ground (
          arith,
          oldest_idle,
          x.bucket_filled h,
          erase_bucket-filled id (m.index (m.slots id).hash),
        );
    hashed = λ i. ground (arith, oldest_idle, x.hashed i);
    whole = λ i. ground (arith, oldest_idle, x.whole i);
    unique = λ i j. ground (arith, oldest_idle, x.unique i j);
  }

-- With a free slot: the head of the free list is taken, under the next generation and with one
-- reference; the idle blocks stay.
pub allocate_free :
    (m : BlockManager) (id : ℕ) (rest idle : List ℕ)
    → Queues m (id ∷ rest) idle
    → (m.slots id).generation < size_max
    → let r = allocate m in
      (r.0 ≡ ok (record { id = id; generation = (m.slots id).generation + 1 }))
      × Queues r.1 rest idle
      × ((r.1.slots id).refs ≡ 1)
      × ((r.1.slots id).cached ≡ false)
unfolding allocate
allocate_free m id rest idle v g =
    rw (v.chain.0, allocate)
      (ground
        (arith, take_free-Queues m id rest idle v, head_free m id rest idle v, v.free_blank id))

-- With no free slot: the oldest idle block is evicted, and only that one.
pub allocate_evict :
    (m : BlockManager) (id : ℕ) (rest : List ℕ)
    → Queues m [] (id ∷ rest)
    → (m.slots id).generation < size_max
    → let r = allocate m in
      (r.0 ≡ ok (record { id = id; generation = (m.slots id).generation + 1 }))
      × Queues r.1 [] rest
      × ((r.1.slots id).refs ≡ 1)
      × ((r.1.slots id).cached ≡ false)
unfolding allocate
allocate_evict m id rest v g =
    rw (v.chain, v.idle_order.first, allocate)
      (ground (arith, evict-Queues m id rest v, oldest_idle m id rest v))

-- With no slot to take, `allocate` throws, and changes nothing.
pub allocate_full : (m : BlockManager) → Queues m [] [] → allocate m ≡ (err capacity_error, m)
unfolding allocate
allocate_full m v = ground (arith, v.chain, v.idle_order.first)

pub allocate-Inv : (m : BlockManager) → Inv m → Inv (allocate m).1
unfolding allocate
allocate-Inv m (id ∷ rest, idle, v, x) = elim (Bool-cases ((m.slots id).generation == size_max)) [
  | inl full ↦ rw (v.chain.0, full, allocate) (id ∷ rest, idle, v, x)
  | inr room ↦
      rw (v.chain.0, room, allocate)
        (rest, idle, take_free-Queues m id rest idle v, take_free-Indexed m id rest idle v x)
]
allocate-Inv m ([], id ∷ rest, v, x) = elim (Bool-cases ((m.slots id).generation == size_max)) [
  | inl full ↦ rw (v.chain, v.idle_order.first, full, allocate) ([], id ∷ rest, v, x)
  | inr room ↦
      rw (v.chain, v.idle_order.first, room, allocate)
        ([], rest, evict-Queues m id rest v, evict-Indexed m id rest v x)
]
allocate-Inv m ([], [], v, x) = rw (v.chain, v.idle_order.first, allocate) ([], [], v, x)

-- The abstract allocator: the head of the free list, else the oldest idle block, else none; with
-- the lists that are left.
abbrev pub next_block : List ℕ → List ℕ → Option (ℕ × List ℕ × List ℕ)
next_block (id ∷ free) idle = some (id, free, idle)
next_block [] (id ∷ idle) = some (id, [], idle)
next_block [] [] = none

-- What `allocate` does with the abstract allocator's choice.
abbrev pub Serves : BlockManager → Option (ℕ × List ℕ × List ℕ) → Type 0
Serves m none = allocate m ≡ (err capacity_error, m)
Serves m (some (id, free, idle)) =
    ((m.slots id).generation ≡ size_max → allocate m ≡ (err overflow_error, m))
    × ((m.slots id).generation < size_max
        → ((allocate m).0 ≡ ok (record { id = id; generation = (m.slots id).generation + 1 }))
          × Queues (allocate m).1 free idle
          × (((allocate m).1.slots id).refs ≡ 1)
          × (((allocate m).1.slots id).cached ≡ false))

-- `allocate` refines the abstract allocator on every branch: it throws and changes nothing if no
-- slot can be had or its generation is exhausted, and otherwise hands out the slot chosen, under
-- the next generation, unpublished and with one reference, and leaves exactly the lists that are
-- left.
pub allocate-Serves :
    (m : BlockManager) (free idle : List ℕ) → Queues m free idle → Serves m (next_block free idle)
unfolding allocate
allocate-Serves m (id ∷ free) idle v =
    (λ e. ground (arith, v.chain.0), allocate_free m id free idle v)
allocate-Serves m [] (id ∷ idle) v =
    (λ e. ground (arith, v.chain, v.idle_order.first), allocate_evict m id idle v)
allocate-Serves m [] [] v = allocate_full m v
