-- ===== src/CacheDirectory/Destruction.antt =====
-- `destroy`: which chunks it deletes, and why it refuses the others.
use kvflux.Base.{
  ◌≡◌, refl, sym, ap, subst, ◌∙◌, inl, inr, true, false, ◌⊎◌, ◌<◌, not, Error, logic_error, ◌||◌,
  Option, none, some, [], ◌∷◌, arith, ◌==◌, Result, ok, err, out_of_range, Bool-cases, Option-cases,
}
use kvflux.Tier.{StorageTier, gpu, cpu, nvme}
use kvflux.Tier.Interface.{TierOps}
use kvflux.CacheDirectory.{
  CacheKey, Replica, ChunkRecord, Entries, replica_of, find, erase_record, is_some, key_eq,
}
use kvflux.CacheDirectory.Operations.{Directory, tier_for, on_record, at, destroy}
use kvflux.CacheDirectory.Entries.{
  locations, locations-append, Apart, find-Split, others, hold_out, erase-Apart, key_eq_sound,
}
use kvflux.CacheDirectory.Invariant.{Agrees, tier_for-records}

-- An erased key is gone.
find-erase : (key : CacheKey) (es : Entries) → Apart es → find key (erase_record key es) ≡ none
find-erase key [] a = refl
find-erase key ((k, r) ∷ es) a = elim (Bool-cases (key_eq k key)) [
  | inl here ↦ rw here (rw (key_eq_sound k key here) at a.0)
  | inr there ↦ rw there (rw there (find-erase key es a.1))
]

find-erase_other :
    (key k : CacheKey) (es : Entries)
    → key_eq key k ≡ false
    → find k (erase_record key es) ≡ find k es
find-erase_other key k [] o = refl
find-erase_other key k ((k', r) ∷ es) o = elim (Bool-cases (key_eq k' key)) [
  | inl here ↦
      let q : key_eq k' k ≡ false =
        subst (λ x. key_eq x k ≡ false) (sym (key_eq_sound k' key here)) o in
      rw (here, q) refl
  | inr there ↦ rw (there, find-erase_other key k es o) refl
]

module _ (T : TierOps) where
  -- The record of a chunk that nobody uses.
  pub record Unused (r : ChunkRecord) : Type 0 where
    pub replicas : (t : StorageTier) → replica_of t r ≡ none
    pub ref_count : r.ref_count ≡ 0
    pub pin_count : r.pin_count ≡ 0

  -- A record that somebody uses.
  abbrev pub Used : ChunkRecord → Type 0
  Used r =
      ((t : StorageTier) × (p : Replica) × (replica_of t r ≡ some p))
      ⊎ ((0 < r.ref_count) ⊎ (0 < r.pin_count))

  -- Why `destroy` throws.
  abbrev pub Refused : CacheKey → Directory T → Error → Type 0
  Refused key d e =
      ((find key d.records ≡ none) × (e ≡ out_of_range))
      ⊎ ((r : ChunkRecord) × (find key d.records ≡ some r) × Used r × (e ≡ logic_error))

  -- What `destroy` leaves when it returns, and otherwise.
  pub record Destroyed (key : CacheKey) (d d' : Directory T) : Type 0 where
    pub was : ChunkRecord
    pub found : find key d.records ≡ some was
    pub unused : Unused was
    pub gone : at T key d' ≡ err out_of_range
    pub kept : (k : CacheKey) → key_eq key k ≡ false → at T k d' ≡ at T k d
    pub valid : Agrees T d'

  abbrev pub DestroySettles : CacheKey → Directory T → Result (Unit {0}) → Directory T → Type 0
  DestroySettles key d (ok u) d' = Destroyed key d d'
  DestroySettles key d (err e) d' = (d' ≡ d) × Refused key d e

  erase-Agrees :
      (key : CacheKey) (r : ChunkRecord) (d : Directory T)
      → Agrees T d
      → find key d.records ≡ some r
      → Unused r
      → Agrees T (record d { records = erase_record key d.records })
  erase-Agrees key r d a found u =
      let s = find-Split key r d.records found in
      record {
        held = λ t.
            let out = hold_out T t (tier_for T t d) key r d.records s (a.held t) in
            let rest : T.Holds (tier_for T t d) (others t s) = rw (u.replicas t) at out in
            subst (λ o. T.Holds o (locations t (erase_record key d.records)))
              (sym (tier_for-records T t (erase_record key d.records) d))
              (subst (T.Holds (tier_for T t d))
                (sym (ap (locations t) s.erase ∙ locations-append t s.before s.behind)) rest);
        keys = erase-Apart key d.records a.keys;
      }

  is_some-none : {A : Type 0} (o : Option A) → is_some o ≡ false → o ≡ none
  is_some-none none e = refl
  is_some-none (some a) e = cc

  some-is_some : {A : Type 0} (o : Option A) → is_some o ≡ true → (a : A) × (o ≡ some a)
  some-is_some none e = absurd (let w = e in cc)
  some-is_some (some a) e = (a, refl)

  placed-Used :
      (r : ChunkRecord)
      → (is_some r.gpu_replica || (is_some r.cpu_replica || is_some r.nvme_replica)) ≡ true
      → Used r
  placed-Used r e = elim (Bool-cases (is_some r.gpu_replica)) [
    | inl g ↦ let (p, q) = some-is_some r.gpu_replica g in inl (gpu, p, q)
    | inr g ↦ elim (Bool-cases (is_some r.cpu_replica)) [
      | inl c ↦ let (p, q) = some-is_some r.cpu_replica c in inl (cpu, p, q)
      | inr c ↦ let (p, q) = some-is_some r.nvme_replica (ground arith) in inl (nvme, p, q)
    ]
  ]

  counted-Used :
      (r : ChunkRecord) → (not (r.ref_count == 0) || not (r.pin_count == 0)) ≡ true → Used r
  counted-Used r e = elim (Bool-cases (r.ref_count == 0)) [
    | inl z ↦ inr (inr (ground arith))
    | inr z ↦ inr (inl (ground arith))
  ]

  -- In a directory that agrees with its tiers, `destroy` returns only for a registered chunk without
  -- replicas, references and pins: then the key is unknown, every other key has the record of before,
  -- and the tiers agree with the directory again. It throws only out_of_range for an unknown key, or logic_error for a chunk that has a replica, a
  -- reference or a pin: then nothing has changed.
  pub destroy-Settles :
      (key : CacheKey) (d : Directory T)
      → Agrees T d
      → DestroySettles key d (destroy T key d).0 (destroy T key d).1
  unfolding destroy at
  destroy-Settles key d a = elim (Option-cases (find key d.records)) [
    | inl missing ↦ rw (missing, destroy, on_record) (refl, inl (missing, refl))
    | inr (r, found) ↦
        elim (Bool-cases
          (is_some r.gpu_replica || (is_some r.cpu_replica || is_some r.nvme_replica))) [
            | inl placed ↦
                rw (found, placed, destroy, on_record)
                  (refl, inr (r, found, placed-Used r placed, refl))
            | inr nowhere ↦ elim (Bool-cases (not (r.ref_count == 0) || not (r.pin_count == 0))) [
              | inl used ↦
                  rw (found, nowhere, used, destroy, on_record)
                    (refl, inr (r, found, counted-Used r used, refl))
              | inr idle ↦
                  let u : Unused r = record {
                    replicas = absent r nowhere;
                    ref_count = ground arith;
                    pin_count = ground arith;
                  } in
                  let gone = find-erase key d.records a.keys in
                  rw (found, nowhere, idle, destroy, on_record)
                    (record {
                      was = r;
                      found = found;
                      unused = u;
                      gone = rw (gone, at) refl;
                      kept = λ k o. rw (find-erase_other key k d.records o, at) refl;
                      valid = erase-Agrees key r d a found u;
                    })
            ]
          ]
  ]
    where
      absent :
          (r : ChunkRecord)
          → (is_some r.gpu_replica || (is_some r.cpu_replica || is_some r.nvme_replica)) ≡ false
          → (t : StorageTier) → replica_of t r ≡ none
      absent r n gpu = is_some-none r.gpu_replica (ground arith)
      absent r n cpu = is_some-none r.cpu_replica (ground arith)
      absent r n nvme = is_some-none r.nvme_replica (ground arith)
