-- ===== src/CacheDirectory/Effects.antt =====
-- What `set_state`, `place` and `remove` do to the replicas of a chunk, for the callers that move
-- data between the tiers.
use kvflux.Base.{
  ℕ, ◌≡◌, refl, sym, ap, subst, ◌∙◌, inl, inr, true, Bool-cases, Option, none, some, [], ◌∷◌,
  Result, ok, err, Result-cases,
}
use kvflux.Tier.{StorageTier, gpu, cpu, nvme, TierLocation}
use kvflux.Tier.Interface.{TierOps}
use kvflux.CacheDirectory.{
  ChunkState, CacheKey, Replica, ChunkRecord, Entries, replica_of, with_replica, find, set_record,
  key_eq, is_settled,
}
use kvflux.CacheDirectory.Operations.{
  Directory, tier_for, set_tier, store, place_in, place, remove_from, remove, set_state, on_record,
  on_replica,
}
use kvflux.CacheDirectory.Invariant.{Agrees}
use kvflux.CacheDirectory.Places.{
  place-Agrees, remove-Agrees, set_state-Agrees, remove-ok, set_tier-records,
}

find-set_record :
    (key : CacheKey) (r r' : ChunkRecord) (es : Entries)
    → find key es ≡ some r
    → find key (set_record key r' es) ≡ some r'
find-set_record key r r' [] e = absurd (let w = e in cc)
find-set_record key r r' ((k, x) ∷ es) e = elim (Bool-cases (key_eq k key)) [
  | inl here ↦ rw (here, here) refl
  | inr there ↦ rw (there, there) (find-set_record key r r' es (rw there at e))
]

-- The replicas of a chunk in the three tiers.
abbrev pub Replicas : Type 0
Replicas = StorageTier → Option Replica

abbrev pub put : StorageTier → Option Replica → Replicas → Replicas
put gpu x f gpu = x
put gpu x f cpu = f cpu
put gpu x f nvme = f nvme
put cpu x f gpu = f gpu
put cpu x f cpu = x
put cpu x f nvme = f nvme
put nvme x f gpu = f gpu
put nvme x f cpu = f cpu
put nvme x f nvme = x

pub put_same : (t : StorageTier) (x : Option Replica) (f : Replicas) → put t x f t ≡ x
put_same gpu x f = refl
put_same cpu x f = refl
put_same nvme x f = refl

pub put_twice :
    (s t : StorageTier) (x y : Option Replica) (f : Replicas) → put s x (put s y f) t ≡ put s x f t
put_twice gpu gpu x y f = refl
put_twice gpu cpu x y f = refl
put_twice gpu nvme x y f = refl
put_twice cpu gpu x y f = refl
put_twice cpu cpu x y f = refl
put_twice cpu nvme x y f = refl
put_twice nvme gpu x y f = refl
put_twice nvme cpu x y f = refl
put_twice nvme nvme x y f = refl

pub put_known :
    (s t : StorageTier) (x : Option Replica) (f : Replicas) → f s ≡ x → f t ≡ put s x f t
put_known gpu gpu x f e = e
put_known gpu cpu x f e = refl
put_known gpu nvme x f e = refl
put_known cpu gpu x f e = refl
put_known cpu cpu x f e = e
put_known cpu nvme x f e = refl
put_known nvme gpu x f e = refl
put_known nvme cpu x f e = refl
put_known nvme nvme x f e = e

with_replica-put :
    (tier t : StorageTier) (x : Option Replica) (r : ChunkRecord) (f : Replicas)
    → ((t : StorageTier) → replica_of t r ≡ f t)
    → replica_of t (with_replica tier x r) ≡ put tier x f t
with_replica-put gpu gpu x r f e = refl
with_replica-put gpu cpu x r f e = e cpu
with_replica-put gpu nvme x r f e = e nvme
with_replica-put cpu gpu x r f e = e gpu
with_replica-put cpu cpu x r f e = refl
with_replica-put cpu nvme x r f e = e nvme
with_replica-put nvme gpu x r f e = e gpu
with_replica-put nvme cpu x r f e = e cpu
with_replica-put nvme nvme x r f e = refl

replica_of-access :
    (t : StorageTier) (now : ℕ) (r : ChunkRecord)
    → replica_of t (record r { last_access = now }) ≡ replica_of t r
replica_of-access gpu now r = refl
replica_of-access cpu now r = refl
replica_of-access nvme now r = refl

module _ (T : TierOps) where
  -- The chunk is registered with these replicas, in a directory that agrees with its tiers.
  pub record Sees (key : CacheKey) (f : Replicas) (d : Directory T) : Type 0 where
    pub chunk : ChunkRecord
    pub found : find key d.records ≡ some chunk
    pub same : (t : StorageTier) → replica_of t chunk ≡ f t
    pub valid : Agrees T d

  pub Sees-same :
      (key : CacheKey) (f g : Replicas) (d : Directory T)
      → ((t : StorageTier) → f t ≡ g t)
      → Sees key f d
      → Sees key g d
  Sees-same key f g d e s = record {
    chunk = s.chunk;
    found = s.found;
    same = λ t. s.same t ∙ e t;
    valid = s.valid;
  }

  pub set_state-Sees :
      (key : CacheKey) (tier : StorageTier) (state : ChunkState) (f : Replicas) (p : Replica)
      (d : Directory T)
      → Sees key f d
      → f tier ≡ some p
      → ((set_state T key tier state d).0 ≡ ok tt)
        × Sees key (put tier (some (record p { state = state })) f) (set_state T key tier state d).1
  unfolding set_state
  set_state-Sees key tier state f p d s e =
      let q : Option Replica = some (record p { state = state }) in
      let there : replica_of tier s.chunk ≡ some p = s.same tier ∙ e in
      let valid = set_state-Agrees T key tier state d s.valid in
      let valid' = rw (s.found, there, set_state, on_replica, on_record) at valid in
      rw (s.found, there, set_state, on_replica, on_record)
        (
          refl,
          record {
            chunk = with_replica tier q s.chunk;
            found = find-set_record key s.chunk (with_replica tier q s.chunk) d.records s.found;
            same = λ t. with_replica-put tier t q s.chunk f s.same;
            valid = valid';
          },
        )

  -- The record of the chunk is written back, beside another object of a tier.
  store-Sees :
      (now : ℕ) (key : CacheKey) (tier : StorageTier) (x : Option Replica) (f : Replicas)
      (o : T.Object) (d : Directory T) (s : Sees key f d)
      → let d' =
          store T key
            (record (with_replica tier x s.chunk) { last_access = now })
            (set_tier T tier o d) in
        Agrees T d' → Sees key (put tier x f) d'
  store-Sees now key tier x f o d s valid =
      let r' : ChunkRecord = record (with_replica tier x s.chunk) { last_access = now } in
      record {
        chunk = r';
        found =
            subst (λ es. find key (set_record key r' es) ≡ some r')
              (sym (set_tier-records T tier o d))
              (find-set_record key s.chunk r' d.records s.found);
        same = λ t.
            replica_of-access t now (with_replica tier x s.chunk)
            ∙ with_replica-put tier t x s.chunk f s.same;
        valid = valid;
      }

  pub remove-Sees :
      (now : ℕ) (key : CacheKey) (tier : StorageTier) (f : Replicas) (p : Replica) (d : Directory T)
      → Sees key f d
      → f tier ≡ some p
      → is_settled p.state ≡ true
      → ((remove T now key tier d).0 ≡ ok tt)
        × Sees key (put tier none f) (remove T now key tier d).1
  unfolding remove
  remove-Sees now key tier f p d s e settled =
      let there : replica_of tier s.chunk ≡ some p = s.same tier ∙ e in
      let o : T.Object = (T.release p.location (tier_for T tier d)).1 in
      let done = remove-ok T now key tier d s.chunk p s.valid s.found there settled in
      let done' = rw (s.found, there, settled, remove, on_replica, on_record) at done in
      let valid = remove-Agrees T now key tier d s.valid in
      let valid' = rw (s.found, there, settled, remove, on_replica, on_record) at valid in
      rw (s.found, there, settled, remove, on_replica, on_record)
        (elim (Result-cases (T.release p.location (tier_for T tier d)).0) [
          | inr (x, q) ↦ absurd (let u = rw (q, remove_from) at done' in cc)
          | inl (u, q) ↦
              let valid'' = rw (q, remove_from) at valid' in
              rw (q, remove_from) (refl, store-Sees now key tier none f o d s valid'')
        ])

  -- What `place` does in a tier where the chunk has no replica.
  abbrev pub Placed :
      CacheKey → StorageTier → ChunkState → Replicas → Result TierLocation → Directory T → Type 0
  Placed key tier state f (ok l) d =
      Sees key (put tier (some (record { location = l; state = state })) f) d
  Placed key tier state f (err e) d = Sees key f d

  pub place-Placed :
      (now : ℕ) (key : CacheKey) (tier : StorageTier) (state : ChunkState) (f : Replicas)
      (d : Directory T)
      → Sees key f d
      → f tier ≡ none
      → Placed key tier state f (place T now key tier state d).0 (place T now key tier state d).1
  unfolding place
  place-Placed now key tier state f d s e =
      let absent : replica_of tier s.chunk ≡ none = s.same tier ∙ e in
      let o : T.Object = (T.allocate (tier_for T tier d)).1 in
      let valid = place-Agrees T now key tier state d s.valid in
      let valid' = rw (s.found, absent, place, on_record) at valid in
      rw (s.found, absent, place, on_record)
        (elim (Result-cases (T.allocate (tier_for T tier d)).0) [
          | inr (x, q) ↦
              let valid'' = rw (q, place_in) at valid' in
              rw (q, place_in)
                (record {
                  chunk = s.chunk;
                  found = ap (find key) (set_tier-records T tier o d) ∙ s.found;
                  same = s.same;
                  valid = valid'';
                })
          | inl (l, q) ↦
              let valid'' = rw (q, place_in) at valid' in
              rw (q, place_in)
                (store-Sees now key tier (some (record { location = l; state = state })) f o d s
                  valid'')
        ])
