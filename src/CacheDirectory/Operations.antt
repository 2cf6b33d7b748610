-- ===== src/CacheDirectory/Operations.antt =====
-- The operations of the cache directory, over any three tiers.
use kvflux.Base.{
  ℕ, ◌+◌, ◌-◌, Bool, true, false, not, ◌&&◌, ◌||◌, none, some, [], ◌∷◌, ◌==◌, if◌then◌else◌, wrap,
  Result, ok, err, invalid_argument, out_of_range, logic_error,
}
use kvflux.Tier.{StorageTier, gpu, cpu, nvme, TierLocation}
use kvflux.Tier.Interface.{TierOps}
use kvflux.CacheDirectory.{
  ChunkState, CacheKey, Replica, ChunkRecord, Entries, Counts, replica_of, with_replica, find,
  set_record, erase_record, is_some, count_some, is_settled, new_record, count_replicas,
}

module _ (T : TierOps) where
  open T use {Object}

  pub record Directory : Type 0 where
    pub gpu_tier : Object
    pub cpu_tier : Object
    pub nvme_tier : Object
    pub records : Entries

  abbrev pub DirectoryM : Type 0 → Type 0
  DirectoryM A = Directory → Result A × Directory

  abbrev pub tier_for : StorageTier → Directory → Object
  tier_for gpu d = d.gpu_tier
  tier_for cpu d = d.cpu_tier
  tier_for nvme d = d.nvme_tier

  abbrev pub set_tier : StorageTier → Object → Directory → Directory
  set_tier gpu o d = record d { gpu_tier = o }
  set_tier cpu o d = record d { cpu_tier = o }
  set_tier nvme o d = record d { nvme_tier = o }

  abbrev pub is_kind : StorageTier → StorageTier → Bool
  is_kind gpu gpu = true
  is_kind cpu cpu = true
  is_kind nvme nvme = true
  is_kind _ _ = false

  -- The constructor.
  unfoldable pub open_directory : Object → Object → Object → Result Directory
  open_directory g c n =
      if is_kind gpu (T.kind g) && (is_kind cpu (T.kind c) && is_kind nvme (T.kind n))
      then ok (record { gpu_tier = g; cpu_tier = c; nvme_tier = n; records = [] })
      else err invalid_argument

  unfoldable pub create : ℕ → CacheKey → DirectoryM (Unit {0})
  create now key d =
      if is_some (find key d.records)
      then (err invalid_argument, d)
      else (ok tt, record d { records = (key, new_record key now) ∷ d.records })

  unfoldable pub contains : CacheKey → Directory → Bool
  contains key d = is_some (find key d.records)

  unfoldable pub at : CacheKey → Directory → Result ChunkRecord
  at key d = elim (find key d.records) [ none ↦ err out_of_range | some r ↦ ok r ]

  -- What follows `lookup(key)`: the record that the rest leaves is written back.
  abbrev pub store : CacheKey → ChunkRecord → Directory → Directory
  store key r d = record d { records = set_record key r d.records }

  -- What follows `lookup(key)`, whose record it is given.
  abbrev pub on_record :
      {A : Type 0}
      → CacheKey
      → Directory
      → (ChunkRecord → Result A × Directory)
      → Result A × Directory
  on_record key d f = elim (find key d.records) [ none ↦ (err out_of_range, d) | some r ↦ f r ]

  abbrev pub place_in :
      ℕ → CacheKey → StorageTier → ChunkState → ChunkRecord → DirectoryM TierLocation
  place_in now key tier state r d =
      let taken = T.allocate (tier_for tier d) in
      let d' = set_tier tier taken.1 d in
      elim taken.0 [
        | err e ↦ (err e, d')
        | ok l ↦ (
          ok l,
          store key
              (record (with_replica tier (some (record { location = l; state = state })) r) {
                last_access = now;
              })
              d',
        )
      ]

  unfoldable pub place : ℕ → CacheKey → StorageTier → ChunkState → DirectoryM TierLocation
  place now key tier state d = on_record key d λ r.
      if is_some (replica_of tier r) then (err logic_error, d) else place_in now key tier state r d

  abbrev pub remove_from :
      ℕ → CacheKey → StorageTier → ChunkRecord → Replica → DirectoryM (Unit {0})
  remove_from now key tier r p d =
      let given = T.release p.location (tier_for tier d) in
      let d' = set_tier tier given.1 d in
      elim given.0 [
        | err e ↦ (err e, d')
        | ok _ ↦ (ok tt, store key (record (with_replica tier none r) { last_access = now }) d')
      ]

  -- What follows the lookup of a replica.
  abbrev pub on_replica :
      {A : Type 0}
      → CacheKey
      → StorageTier
      → Directory
      → (ChunkRecord → Replica → Result A × Directory)
      → Result A × Directory
  on_replica key tier d f =
      on_record key d λ r. elim (replica_of tier r) [ none ↦ (err logic_error, d) | some p ↦ f r p ]

  unfoldable pub remove : ℕ → CacheKey → StorageTier → DirectoryM (Unit {0})
  remove now key tier d = on_replica key tier d λ r p.
      if not (is_settled p.state) then (err logic_error, d) else remove_from now key tier r p d

  unfoldable pub set_state : CacheKey → StorageTier → ChunkState → DirectoryM (Unit {0})
  set_state key tier state d =
      on_replica key tier d
        λ r p. (ok tt, store key (with_replica tier (some (record p { state = state })) r) d)

  unfoldable pub add_ref : CacheKey → DirectoryM (Unit {0})
  add_ref key d =
      on_record key d λ r. (ok tt, store key (record r { ref_count = wrap (r.ref_count + 1) }) d)

  unfoldable pub release_ref : CacheKey → DirectoryM (Unit {0})
  release_ref key d = on_record key d λ r.
      if r.ref_count == 0
      then (err logic_error, d)
      else (ok tt, store key (record r { ref_count = r.ref_count - 1 }) d)

  unfoldable pub pin : CacheKey → DirectoryM (Unit {0})
  pin key d =
      on_record key d λ r. (ok tt, store key (record r { pin_count = wrap (r.pin_count + 1) }) d)

  unfoldable pub unpin : CacheKey → DirectoryM (Unit {0})
  unpin key d = on_record key d λ r.
      if r.pin_count == 0
      then (err logic_error, d)
      else (ok tt, store key (record r { pin_count = r.pin_count - 1 }) d)

  unfoldable pub touch : ℕ → CacheKey → DirectoryM (Unit {0})
  touch now key d = on_record key d λ r. (ok tt, store key (record r { last_access = now }) d)

  unfoldable pub bump_version : CacheKey → DirectoryM (Unit {0})
  bump_version key d =
      on_record key d λ r. (ok tt, store key (record r { version = wrap (r.version + 1) }) d)

  unfoldable pub replica_count : CacheKey → Directory → Result ℕ
  unfolding at
  replica_count key d = elim (at key d) [
    | err e ↦ err e
    | ok r ↦ ok (count_some r.gpu_replica + count_some r.cpu_replica + count_some r.nvme_replica)
  ]

  unfoldable pub stats : StorageTier → Directory → Counts
  stats tier d =
      let t = tier_for tier d in
      record {
        capacity = T.capacity t;
        available = T.available t;
        allocated_chunks = T.allocated_chunks t;
        used_bytes = T.used_bytes t;
        available_bytes = T.available_bytes t;
        replicas = count_replicas tier d.records;
      }

  unfoldable pub destroy : CacheKey → DirectoryM (Unit {0})
  destroy key d = on_record key d λ r.
      if is_some r.gpu_replica || (is_some r.cpu_replica || is_some r.nvme_replica)
      then (err logic_error, d)
      else if not (r.ref_count == 0) || not (r.pin_count == 0)
      then (err logic_error, d)
      else (ok tt, record d { records = erase_record key d.records })
