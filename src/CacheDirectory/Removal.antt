-- ===== src/CacheDirectory/Removal.antt =====
-- `remove` on each state of the replica.
use kvflux.Base.{ℕ, ◌≡◌, refl, ◌∙◌, Option, none, some, Result, ok, err, logic_error}
use kvflux.Tier.{StorageTier}
use kvflux.Tier.Interface.{TierOps}
use kvflux.CacheDirectory.{
  ChunkState, ready, copying, loading, evicting, error, CacheKey, Replica, replica_of,
}
use kvflux.CacheDirectory.Operations.{Directory, remove, on_replica, on_record}
use kvflux.CacheDirectory.Effects.{Replicas, put, Sees, remove-Sees}

module _ (T : TierOps) where
  -- The chunk has lost this replica and no other.
  abbrev pub Gone : CacheKey → StorageTier → Replicas → Result (Unit {0}) → Directory T → Type 0
  Gone key tier f r d' = (r ≡ ok tt) × Sees T key (put tier none f) d'

  -- The call threw and changed nothing.
  abbrev pub Kept : Directory T → Result (Unit {0}) → Directory T → Type 0
  Kept d r d' = (r ≡ err logic_error) × (d' ≡ d)

  -- What is due to a replica in a state.
  abbrev pub Due :
      CacheKey
      → StorageTier
      → Replicas
      → Directory T
      → ChunkState
      → Result (Unit {0})
      → Directory T
      → Type 0
  Due key tier f d ready r d' = Gone key tier f r d'
  Due key tier f d error r d' = Gone key tier f r d'
  Due key tier f d copying r d' = Kept d r d'
  Due key tier f d loading r d' = Kept d r d'
  Due key tier f d evicting r d' = Kept d r d'

  abbrev pub Removes :
      CacheKey
      → StorageTier
      → Replicas
      → Directory T
      → Option Replica
      → Result (Unit {0})
      → Directory T
      → Type 0
  Removes key tier f d none r d' = Kept d r d'
  Removes key tier f d (some p) r d' = Due key tier f d p.state r d'

  module _ (now : ℕ) (key : CacheKey) (tier : StorageTier) (f : Replicas) (d : Directory T)
      (s : Sees T key f d) where
    unplaced-Kept : f tier ≡ none → Kept d (remove T now key tier d).0 (remove T now key tier d).1
    unfolding remove
    unplaced-Kept e =
        let there : replica_of tier s.chunk ≡ none = s.same tier ∙ e in
        rw (s.found, there, remove, on_replica, on_record) (refl, refl)

    placed-Due :
        (p : Replica) (state : ChunkState)
        → f tier ≡ some p
        → p.state ≡ state
        → Due key tier f d state (remove T now key tier d).0 (remove T now key tier d).1
    unfolding remove
    placed-Due p ready e q = remove-Sees T now key tier f p d s e (rw q refl)
    placed-Due p error e q = remove-Sees T now key tier f p d s e (rw q refl)
    placed-Due p copying e q =
        let there : replica_of tier s.chunk ≡ some p = s.same tier ∙ e in
        rw (s.found, there, q, remove, on_replica, on_record) (refl, refl)
    placed-Due p loading e q =
        let there : replica_of tier s.chunk ≡ some p = s.same tier ∙ e in
        rw (s.found, there, q, remove, on_replica, on_record) (refl, refl)
    placed-Due p evicting e q =
        let there : replica_of tier s.chunk ≡ some p = s.same tier ∙ e in
        rw (s.found, there, q, remove, on_replica, on_record) (refl, refl)

    known-Removes :
        (o : Option Replica)
        → f tier ≡ o
        → Removes key tier f d o (remove T now key tier d).0 (remove T now key tier d).1
    known-Removes none e = unplaced-Kept e
    known-Removes (some p) e = placed-Due p p.state e refl

-- `remove` on a registered chunk, in a directory that agrees with its tiers. A replica that is ready
-- or in error is removed: the call returns, the chunk is registered without this replica and with its
-- other ones, and the tiers agree with the directory again. A replica in copying, loading or evicting
-- stays, as where there is none: the call throws logic_error and nothing changes.
pub remove-Removes :
    (T : TierOps) (now : ℕ) (key : CacheKey) (tier : StorageTier) (f : Replicas) (d : Directory T)
    → Sees T key f d
    → Removes T key tier f d (f tier) (remove T now key tier d).0 (remove T now key tier d).1
remove-Removes T now key tier f d s = known-Removes T now key tier f d s (f tier) refl
