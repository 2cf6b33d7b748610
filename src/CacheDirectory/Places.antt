-- ===== src/CacheDirectory/Places.antt =====
-- `place` and `remove`: the slot of a tier and the replica of a record come and go together.
use kvflux.Base.{
  ℕ, ◌≡◌, refl, sym, ap, subst, inl, inr, true, Option, none, some, ◌∷◌, ok, Bool-cases,
  Option-cases, Result-cases,
}
use kvflux.Tier.{StorageTier, gpu, cpu, nvme}
use kvflux.Tier.Interface.{TierOps}
use kvflux.CacheDirectory.{
  ChunkState, CacheKey, Replica, ChunkRecord, replica_of, with_replica, find, set_record,
  is_settled,
}
use kvflux.CacheDirectory.Operations.{
  Directory, tier_for, set_tier, store, place_in, place, remove_from, remove, set_state, on_record,
  on_replica,
}
use kvflux.CacheDirectory.Entries.{locate, locations, Apart, Split, find-Split, others, hold_out}
use kvflux.CacheDirectory.Invariant.{
  Agrees, change-Agrees, store-Agrees, exchange, exchange_tier, tier_for-records,
}

module _ (T : TierOps) where
  pub set_tier-records :
      (tier : StorageTier) (o : T.Object) (d : Directory T)
      → (set_tier T tier o d).records ≡ d.records
  set_tier-records gpu o d = refl
  set_tier-records cpu o d = refl
  set_tier-records nvme o d = refl

  -- Only the object of a tier changes, and it holds the same locations.
  same_locations-Agrees :
      (tier : StorageTier) (o : T.Object) (d : Directory T)
      → Agrees T d
      → T.Holds o (locations tier d.records)
      → Agrees T (set_tier T tier o d)
  same_locations-Agrees tier o d a h = record {
    held = λ t.
        subst (λ es. T.Holds (tier_for T t (set_tier T tier o d)) (locations t es))
          (sym (set_tier-records tier o d))
          (exchange_tier T tier t o d (λ t. locations t d.records) h a.held);
    keys = subst Apart (sym (set_tier-records tier o d)) a.keys;
  }

  -- The object of a tier and the replica of a record change together.
  both-Agrees :
      (now : ℕ) (key : CacheKey) (tier : StorageTier) (r : ChunkRecord) (x : Option Replica)
      (o : T.Object) (d : Directory T)
      → Agrees T d
      → (s : Split key r d.records) → T.Holds o (locate x (others tier s))
      → Agrees T
          (store T key (record (with_replica tier x r) { last_access = now }) (set_tier T tier o d))
  both-Agrees now key tier r x o d a s h =
      let r' : ChunkRecord = record (with_replica tier x r) { last_access = now } in
      let d' : Directory T = set_tier T tier o d in
      change-Agrees T key r r' d (store T key r' d') a s
        (ap (set_record key r') (set_tier-records tier o d))
        λ t.
          subst (λ u. T.Holds u (locate (replica_of t r') (others t s)))
            (sym (tier_for-records T t (set_record key r' d'.records) d'))
            (exchange T tier t o d (λ t. others t s) r x now h
              (λ t. hold_out T t (tier_for T t d) key r d.records s (a.held t)))

  place_in-Agrees :
      (now : ℕ) (key : CacheKey) (tier : StorageTier) (state : ChunkState) (r : ChunkRecord)
      (d : Directory T)
      → Agrees T d
      → Split key r d.records
      → replica_of tier r ≡ none
      → Agrees T (place_in T now key tier state r d).1
  place_in-Agrees now key tier state r d a s absent =
      let o : T.Object = (T.allocate (tier_for T tier d)).1 in
      let held = hold_out T tier (tier_for T tier d) key r d.records s (a.held tier) in
      let free : T.Holds (tier_for T tier d) (others tier s) = rw absent at held in
      elim (Result-cases (T.allocate (tier_for T tier d)).0) [
        | inr (e, q) ↦
            let kept =
              T.allocate_err (tier_for T tier d) (locations tier d.records) e (a.held tier) q in
            rw (q, place_in) (same_locations-Agrees tier o d a kept)
        | inl (l, q) ↦
            let more = T.allocate_ok (tier_for T tier d) (others tier s) l free q in
            rw (q, place_in)
              (both-Agrees now key tier r (some (record { location = l; state = state })) o d a s
                more)
      ]

  pub place-Agrees :
      (now : ℕ) (key : CacheKey) (tier : StorageTier) (state : ChunkState) (d : Directory T)
      → Agrees T d
      → Agrees T (place T now key tier state d).1
  unfolding place
  place-Agrees now key tier state d a = elim (Option-cases (find key d.records)) [
    | inl missing ↦ rw (missing, place, on_record) a
    | inr (r, found) ↦ elim (Option-cases (replica_of tier r)) [
      | inr (p, taken) ↦ rw (found, taken, place, on_record) a
      | inl absent ↦
          rw (found, place, on_record)
            (rw absent
              (place_in-Agrees now key tier state r d a (find-Split key r d.records found) absent))
    ]
  ]

  remove_from-Agrees :
      (now : ℕ) (key : CacheKey) (tier : StorageTier) (r : ChunkRecord) (p : Replica)
      (d : Directory T)
      → Agrees T d
      → Split key r d.records
      → replica_of tier r ≡ some p
      → ((remove_from T now key tier r p d).0 ≡ ok tt)
        × Agrees T (remove_from T now key tier r p d).1
  remove_from-Agrees now key tier r p d a s there =
      let held = hold_out T tier (tier_for T tier d) key r d.records s (a.held tier) in
      let front : T.Holds (tier_for T tier d) (p.location ∷ others tier s) = rw there at held in
      let (done, rest) = T.release_ok (tier_for T tier d) p.location (others tier s) front in
      rw (done, remove_from)
        (
          refl,
          both-Agrees now key tier r none (T.release p.location (tier_for T tier d)).1 d a s rest,
        )

  pub remove-Agrees :
      (now : ℕ) (key : CacheKey) (tier : StorageTier) (d : Directory T)
      → Agrees T d
      → Agrees T (remove T now key tier d).1
  unfolding remove
  remove-Agrees now key tier d a = elim (Option-cases (find key d.records)) [
    | inl missing ↦ rw (missing, remove, on_replica, on_record) a
    | inr (r, found) ↦ elim (Option-cases (replica_of tier r)) [
      | inl absent ↦ rw (found, absent, remove, on_replica, on_record) a
      | inr (p, there) ↦ elim (Bool-cases (is_settled p.state)) [
        | inr moving ↦ rw (found, there, moving, remove, on_replica, on_record) a
        | inl settled ↦
            rw (found, there, settled, remove, on_replica, on_record)
              (remove_from-Agrees now key tier r p d a (find-Split key r d.records found) there).1
      ]
    ]
  ]

  -- A replica that is not in transfer can always be removed: the tier accepts its location.
  pub remove-ok :
      (now : ℕ) (key : CacheKey) (tier : StorageTier) (d : Directory T) (r : ChunkRecord)
      (p : Replica)
      → Agrees T d
      → find key d.records ≡ some r
      → replica_of tier r ≡ some p
      → is_settled p.state ≡ true
      → (remove T now key tier d).0 ≡ ok tt
  unfolding remove
  remove-ok now key tier d r p a found there settled =
      rw (found, there, settled, remove, on_replica, on_record)
        (remove_from-Agrees now key tier r p d a (find-Split key r d.records found) there).0

  locate-state :
      (tier t : StorageTier) (r : ChunkRecord) (p q : Replica)
      → replica_of tier r ≡ some p
      → q.location ≡ p.location
      → locate (replica_of t (with_replica tier (some q) r)) ≡ locate (replica_of t r)
  locate-state gpu gpu r p q e l = rw (e, l) refl
  locate-state gpu cpu r p q e l = refl
  locate-state gpu nvme r p q e l = refl
  locate-state cpu gpu r p q e l = refl
  locate-state cpu cpu r p q e l = rw (e, l) refl
  locate-state cpu nvme r p q e l = refl
  locate-state nvme gpu r p q e l = refl
  locate-state nvme cpu r p q e l = refl
  locate-state nvme nvme r p q e l = rw (e, l) refl

  pub set_state-Agrees :
      (key : CacheKey) (tier : StorageTier) (state : ChunkState) (d : Directory T)
      → Agrees T d
      → Agrees T (set_state T key tier state d).1
  unfolding set_state
  set_state-Agrees key tier state d a = elim (Option-cases (find key d.records)) [
    | inl missing ↦ rw (missing, set_state, on_replica, on_record) a
    | inr (r, found) ↦ elim (Option-cases (replica_of tier r)) [
      | inl absent ↦ rw (found, absent, set_state, on_replica, on_record) a
      | inr (p, there) ↦
          let q : Replica = record p { state = state } in
          rw (found, there, set_state, on_replica, on_record)
            (store-Agrees T key r (with_replica tier (some q) r) d a
              (find-Split key r d.records found) (λ t. locate-state tier t r p q there refl))
    ]
  ]
