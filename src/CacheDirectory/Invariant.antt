-- ===== src/CacheDirectory/Invariant.antt =====
-- The directory and its tiers agree: each tier holds just the locations that the directory has for it.
use kvflux.Base.{ℕ, ◌≡◌, refl, sym, subst, ◌∙◌, Option, List, Distinct}
use kvflux.Tier.{StorageTier, gpu, cpu, nvme, TierLocation}
use kvflux.Tier.Interface.{TierOps, slots_of}
use kvflux.CacheDirectory.{
  CacheKey, Replica, ChunkRecord, Entries, replica_of, with_replica, set_record,
}
use kvflux.CacheDirectory.Operations.{Directory, tier_for, set_tier, store, stats}
use kvflux.CacheDirectory.Entries.{
  locate, locations, Apart, Split, others, hold_out, hold_in, set-Apart, length-locations,
}

module _ (T : TierOps) where
  pub record Agrees (d : Directory T) : Type 0 where
    pub held : (t : StorageTier) → T.Holds (tier_for T t d) (locations t d.records)
    pub keys : Apart d.records

  -- A record is changed, and the tiers with it.
  pub change-Agrees :
      (key : CacheKey) (r r' : ChunkRecord) (d d' : Directory T)
      → Agrees d
      → (s : Split key r d.records) → d'.records ≡ set_record key r' d.records
      → ((t : StorageTier) → T.Holds (tier_for T t d') (locate (replica_of t r') (others t s)))
      → Agrees d'
  change-Agrees key r r' d d' a s e h = record {
    held = λ t.
        subst (λ es. T.Holds (tier_for T t d') (locations t es)) (sym e)
          (hold_in T t (tier_for T t d') key r d.records s r' (h t));
    keys = subst Apart (sym e) (set-Apart key r' d.records a.keys);
  }

  -- The entries have no part in the tiers.
  pub tier_for-records :
      (t : StorageTier) (es : Entries) (d : Directory T)
      → tier_for T t (record d { records = es }) ≡ tier_for T t d
  tier_for-records gpu es d = refl
  tier_for-records cpu es d = refl
  tier_for-records nvme es d = refl

  -- A record is changed in other fields than its replicas.
  pub store-Agrees :
      (key : CacheKey) (r r' : ChunkRecord) (d : Directory T)
      → Agrees d
      → Split key r d.records
      → ((t : StorageTier) → locate (replica_of t r') ≡ locate (replica_of t r))
      → Agrees (store T key r' d)
  store-Agrees key r r' d a s same = change-Agrees key r r' d (store T key r' d) a s refl λ t.
      subst (λ o. T.Holds o (locate (replica_of t r') (others t s)))
        (sym (tier_for-records t (set_record key r' d.records) d))
        (subst (λ f. T.Holds (tier_for T t d) (f (others t s))) (sym (same t))
          (hold_out T t (tier_for T t d) key r d.records s (a.held t)))

  -- The counts of a tier and of the directory are the same, and no two chunks share a slot.
  pub stats-Agrees :
      (t : StorageTier) (d : Directory T)
      → Agrees d
      → ((stats T t d).allocated_chunks ≡ (stats T t d).replicas)
        × Distinct (slots_of (locations t d.records))
  unfolding stats
  stats-Agrees t d a = (
    T.counted (tier_for T t d) (locations t d.records) (a.held t) ∙ length-locations t d.records,
    T.apart (tier_for T t d) (locations t d.records) (a.held t),
  )

  -- The object of one tier is another, and the rest is as before.
  pub exchange :
      (tier t : StorageTier) (o : T.Object) (d : Directory T) (ls : StorageTier → List TierLocation)
      (r : ChunkRecord) (x : Option Replica) (now : ℕ)
      → T.Holds o (locate x (ls tier))
      → ((t : StorageTier) → T.Holds (tier_for T t d) (locate (replica_of t r) (ls t)))
      → T.Holds
          (tier_for T t (set_tier T tier o d))
          (locate (replica_of t (record (with_replica tier x r) { last_access = now })) (ls t))
  exchange gpu gpu o d ls r x now own rest = own
  exchange gpu cpu o d ls r x now own rest = rest cpu
  exchange gpu nvme o d ls r x now own rest = rest nvme
  exchange cpu gpu o d ls r x now own rest = rest gpu
  exchange cpu cpu o d ls r x now own rest = own
  exchange cpu nvme o d ls r x now own rest = rest nvme
  exchange nvme gpu o d ls r x now own rest = rest gpu
  exchange nvme cpu o d ls r x now own rest = rest cpu
  exchange nvme nvme o d ls r x now own rest = own

  pub exchange_tier :
      (tier t : StorageTier) (o : T.Object) (d : Directory T) (ls : StorageTier → List TierLocation)
      → T.Holds o (ls tier)
      → ((t : StorageTier) → T.Holds (tier_for T t d) (ls t))
      → T.Holds (tier_for T t (set_tier T tier o d)) (ls t)
  exchange_tier gpu gpu o d ls own rest = own
  exchange_tier gpu cpu o d ls own rest = rest cpu
  exchange_tier gpu nvme o d ls own rest = rest nvme
  exchange_tier cpu gpu o d ls own rest = rest gpu
  exchange_tier cpu cpu o d ls own rest = own
  exchange_tier cpu nvme o d ls own rest = rest nvme
  exchange_tier nvme gpu o d ls own rest = rest gpu
  exchange_tier nvme cpu o d ls own rest = rest cpu
  exchange_tier nvme nvme o d ls own rest = own
