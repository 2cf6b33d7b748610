-- ===== src/CacheDirectory/Counters.antt =====
-- `create`, and the counters of a record.
use kvflux.Base.{
  ℕ, ◌+◌, ◌-◌, ◌≡◌, refl, sym, ap, subst, inl, inr, none, some, ◌∷◌, ◌==◌, wrap, Bool-cases,
  Option-cases,
}
use kvflux.Tier.{StorageTier, gpu, cpu, nvme}
use kvflux.Tier.Interface.{TierOps}
use kvflux.CacheDirectory.{CacheKey, ChunkRecord, Entries, replica_of, find, new_record}
use kvflux.CacheDirectory.Operations.{
  Directory, store, on_record, create, add_ref, release_ref, pin, unpin, touch, bump_version,
}
use kvflux.CacheDirectory.Entries.{locate, locations, find-Split}
use kvflux.CacheDirectory.Invariant.{Agrees, store-Agrees, tier_for-records}

new_record-locate :
    (t : StorageTier) (key : CacheKey) (now : ℕ) → replica_of t (new_record key now) ≡ none
new_record-locate gpu key now = refl
new_record-locate cpu key now = refl
new_record-locate nvme key now = refl

module _ (T : TierOps) where
  same_replicas-Agrees :
      (key : CacheKey) (r r' : ChunkRecord) (d : Directory T)
      → Agrees T d
      → find key d.records ≡ some r
      → r'.gpu_replica ≡ r.gpu_replica
      → r'.cpu_replica ≡ r.cpu_replica
      → r'.nvme_replica ≡ r.nvme_replica
      → Agrees T (store T key r' d)
  same_replicas-Agrees key r r' d a found g c n =
      store-Agrees T key r r' d a (find-Split key r d.records found) same
    where
      same : (t : StorageTier) → locate (replica_of t r') ≡ locate (replica_of t r)
      same gpu = ap locate g
      same cpu = ap locate c
      same nvme = ap locate n

  pub create-Agrees :
      (now : ℕ) (key : CacheKey) (d : Directory T) → Agrees T d → Agrees T (create T now key d).1
  unfolding create
  create-Agrees now key d a = elim (Option-cases (find key d.records)) [
    | inr (r, found) ↦ rw (found, create) a
    | inl absent ↦
        let es : Entries = (key, new_record key now) ∷ d.records in
        rw (absent, create)
          (record {
            held = λ t.
                subst (λ o. T.Holds o (locations t es)) (sym (tier_for-records T t es d))
                  (rw (new_record-locate t key now) (a.held t));
            keys = (absent, a.keys);
          })
  ]

  pub add_ref-Agrees :
      (key : CacheKey) (d : Directory T) → Agrees T d → Agrees T (add_ref T key d).1
  unfolding add_ref
  add_ref-Agrees key d a = elim (Option-cases (find key d.records)) [
    | inl missing ↦ rw (missing, add_ref, on_record) a
    | inr (r, found) ↦
        rw (found, add_ref, on_record)
          (same_replicas-Agrees key r (record r { ref_count = wrap (r.ref_count + 1) }) d a found
            refl refl refl)
  ]

  pub release_ref-Agrees :
      (key : CacheKey) (d : Directory T) → Agrees T d → Agrees T (release_ref T key d).1
  unfolding release_ref
  release_ref-Agrees key d a = elim (Option-cases (find key d.records)) [
    | inl missing ↦ rw (missing, release_ref, on_record) a
    | inr (r, found) ↦ elim (Bool-cases (r.ref_count == 0)) [
      | inl nothing ↦ rw (found, nothing, release_ref, on_record) a
      | inr more ↦
          rw (found, more, release_ref, on_record)
            (same_replicas-Agrees key r (record r { ref_count = r.ref_count - 1 }) d a found refl
              refl refl)
    ]
  ]

  pub pin-Agrees : (key : CacheKey) (d : Directory T) → Agrees T d → Agrees T (pin T key d).1
  unfolding pin
  pin-Agrees key d a = elim (Option-cases (find key d.records)) [
    | inl missing ↦ rw (missing, pin, on_record) a
    | inr (r, found) ↦
        rw (found, pin, on_record)
          (same_replicas-Agrees key r (record r { pin_count = wrap (r.pin_count + 1) }) d a found
            refl refl refl)
  ]

  pub unpin-Agrees : (key : CacheKey) (d : Directory T) → Agrees T d → Agrees T (unpin T key d).1
  unfolding unpin
  unpin-Agrees key d a = elim (Option-cases (find key d.records)) [
    | inl missing ↦ rw (missing, unpin, on_record) a
    | inr (r, found) ↦ elim (Bool-cases (r.pin_count == 0)) [
      | inl nothing ↦ rw (found, nothing, unpin, on_record) a
      | inr more ↦
          rw (found, more, unpin, on_record)
            (same_replicas-Agrees key r (record r { pin_count = r.pin_count - 1 }) d a found refl
              refl refl)
    ]
  ]

  pub touch-Agrees :
      (now : ℕ) (key : CacheKey) (d : Directory T) → Agrees T d → Agrees T (touch T now key d).1
  unfolding touch
  touch-Agrees now key d a = elim (Option-cases (find key d.records)) [
    | inl missing ↦ rw (missing, touch, on_record) a
    | inr (r, found) ↦
        rw (found, touch, on_record)
          (same_replicas-Agrees key r (record r { last_access = now }) d a found refl refl refl)
  ]

  pub bump_version-Agrees :
      (key : CacheKey) (d : Directory T) → Agrees T d → Agrees T (bump_version T key d).1
  unfolding bump_version
  bump_version-Agrees key d a = elim (Option-cases (find key d.records)) [
    | inl missing ↦ rw (missing, bump_version, on_record) a
    | inr (r, found) ↦
        rw (found, bump_version, on_record)
          (same_replicas-Agrees key r (record r { version = wrap (r.version + 1) }) d a found refl
            refl refl)
  ]
