-- ===== src/NvmeTransfer/Onload.antt =====
-- `onload`: the chunk gets a replica in host memory with the bytes of its file, or the directory and
-- the files are as before.
pub mod CopyIn
use kvflux.Base.{
  ℕ, ◌≡◌, refl, sym, ap, ◌∙◌, ◌⊎◌, inl, inr, Bool, true, false, Option, none, some, List, Result,
  ok, err, Result-cases, Option-cases, ◌>>◌, return, if◌then◌else◌,
}
use kvflux.Tier.{StorageTier, gpu, cpu, nvme, TierLocation}
use kvflux.Tier.Interface.{TierOps}
use kvflux.CacheDirectory.{CacheKey, Replica, ready, copying, loading}
use kvflux.CacheDirectory.Operations.{Directory, at, set_state, remove, place}
use kvflux.CacheDirectory.Effects.{
  Replicas, put, put_known, put_twice, Sees, Sees-same, set_state-Sees, remove-Sees, place-Placed,
}
use kvflux.ChunkFileStore.{ChunkFileMeta, make_file_meta}
use kvflux.ChunkFileStore.Files.{read, erase}
use kvflux.ChunkFileStore.Failures.{erase_err}
use kvflux.HostBuffers.{HostBuffers, data_at, fill}
use kvflux.NvmeTransfer.{
  Transfer, TransferM, on_directory, on_store, or_undo, undo, read_chunk, copy_in, onload_from,
  onload,
}
use kvflux.NvmeTransfer.Steps.{replica, bind_rule, bind_step, or_undo-cases, undo-Sees}
use kvflux.NvmeTransfer.Onload.CopyIn.{Loaded, CopiedIn, copy_in-CopiedIn}

module _ (T : TierOps) (key : CacheKey) (source : TierLocation) (s : Transfer T) where
  -- After the `try` block with its handler.
  abbrev Tried : Replicas → Result (Unit {0}) → Transfer T → Type 0
  Tried f (ok u) after =
      (l : TierLocation) × Sees T key
        (put cpu (replica l loading) (put nvme (replica source copying) f)) after.directory
      × Loaded T key source s l.slot after.buffers
      × (after.store ≡ s.store)
  Tried f (err e) after = Sees T key f after.directory × (after.store ≡ s.store)

  -- A ready replica in host memory with the payload.
  abbrev pub Arrived : Replicas → Option Replica → Transfer T → Type 0
  Arrived f in_file after =
      (l : TierLocation) × Sees T key (put nvme in_file (put cpu (replica l ready) f))
        after.directory
      × Loaded T key source s l.slot after.buffers

  -- What `onload` leaves; the last case of an exception is that of `erase`.
  abbrev pub OnloadSettles : Replicas → Bool → Bool → Result (Unit {0}) → Transfer T → Type 0
  OnloadSettles f refused release_nvme (ok u) after =
      Arrived f (if release_nvme then none else replica source ready) after
      × (after.store ≡ (if release_nvme then (erase refused source.slot s.store).1 else s.store))
  OnloadSettles f refused release_nvme (err e) after =
      (Sees T key f after.directory ⊎ Arrived f (replica source ready) after)
      × (after.store ≡ s.store)

  module _ (f : Replicas) (in_file : f nvme ≡ replica source ready) (not_there : f cpu ≡ none)
      (now : ℕ) (refused : Bool) where
    restored :
        (x : Option Replica) (t : StorageTier)
        → put nvme
            (replica source ready)
            (put cpu none (put cpu x (put nvme (replica source copying) f)))
            t
          ≡ f t
    restored x gpu = refl
    restored x cpu = sym not_there
    restored x nvme = sym in_file

    released :
        (x : Option Replica) (l : TierLocation) (t : StorageTier)
        → put nvme x
            (put cpu
              (replica l ready)
              (put cpu (replica l loading) (put nvme (replica source copying) f)))
            t
          ≡ put nvme x (put cpu (replica l ready) f) t
    released x l gpu = refl
    released x l cpu = refl
    released x l nvme = refl

    try-Tried :
        (d : Directory T)
        → Sees T key (put nvme (replica source copying) f) d
        → let s' = record s { directory = d } in
          let m = or_undo T (copy_in T now key source) (undo T now key cpu nvme) in
          Tried f (m s').0 (m s').1
    try-Tried d v =
        let g : Replicas = put nvme (replica source copying) f in
        let s' : Transfer T = record s { directory = d } in
        let body : TransferM T (Unit {0}) = copy_in T now key source in
        let copied = copy_in-CopiedIn T key source s now g d v not_there in
        or_undo-cases T (Tried f) body (undo T now key cpu nvme) s' (λ q. rw q at copied)
          λ e q.
            let ((x, seen), same) : CopiedIn T key source s g (err e) (body s').1 =
              rw q at copied in
            let (done, seen', store) =
              undo-Sees T now key cpu nvme (put cpu x g)
                (record { location = source; state = copying }) (body s').1 seen refl in
            let after : Transfer T = (undo T now key cpu nvme (body s').1).1 in
            (
              done,
              (
                Sees-same T key (put nvme (replica source ready) (put cpu none (put cpu x g))) f
                    after.directory (restored x) seen',
                store ∙ same,
              ),
            )

    drop_file :
        (release_nvme : Bool) (l : TierLocation) (s4 : Transfer T)
        → Sees T key
            (put nvme (replica source ready) (
              put cpu
                (replica l ready)
                (put cpu (replica l loading) (put nvme (replica source copying) f))))
            s4.directory
        → Loaded T key source s l.slot s4.buffers
        → s4.store ≡ s.store
        → let m : TransferM T (Unit {0}) =
            if release_nvme
            then (on_store T (erase refused source.slot) >> on_directory T (remove T now key nvme))
            else return tt in
          OnloadSettles f refused release_nvme (m s4).0 (m s4).1
    drop_file false l s4 v w same =
        let h : Replicas = put nvme (replica source ready) (put cpu (replica l ready) f) in
        ((l, Sees-same T key _ h s4.directory (released (replica source ready) l) v, w), same)
    drop_file true l s4 v w same =
        let g1 : Replicas =
          put cpu (replica l ready)
            (put cpu (replica l loading) (put nvme (replica source copying) f)) in
        let p : Replica = record { location = source; state = ready } in
        let (done, v') =
          remove-Sees T now key nvme (put nvme (some p) g1) p s4.directory v refl refl in
        let v'' =
          Sees-same T key (put nvme none (put nvme (some p) g1))
            (put nvme none (put cpu (replica l ready) f)) (remove T now key nvme s4.directory).1
            (λ t. put_twice nvme t none (some p) g1 ∙ released none l t) v' in
        elim (Result-cases (erase refused source.slot s4.store).0) [
          | inr (e, q) ↦
              let kept = erase_err refused source.slot s4.store e q in
              let h : Replicas = put nvme (some p) (put cpu (replica l ready) f) in
              rw q (
                inr (
                  l,
                  Sees-same T key (put nvme (some p) g1) h s4.directory (released (some p) l) v,
                  w,
                ),
                kept ∙ same,
              )
          | inl (u, q) ↦
              rw (q, done) ((l, v'', w), ap (λ st. (erase refused source.slot st).1) same)
        ]

    -- The copy is made: both replicas become ready, and that in the file goes if it is to.
    settle :
        (release_nvme : Bool) (l : TierLocation) (s2 : Transfer T)
        → Sees T key
            (put cpu (replica l loading) (put nvme (replica source copying) f))
            s2.directory
        → Loaded T key source s l.slot s2.buffers
        → s2.store ≡ s.store
        → let rest =
            on_directory T (set_state T key cpu ready)
            >> (on_directory T (set_state T key nvme ready)
                >> (if release_nvme
                    then (on_store T (erase refused source.slot)
                        >> on_directory T (remove T now key nvme))
                    else return tt)) in
          OnloadSettles f refused release_nvme (rest s2).0 (rest s2).1
    settle release_nvme l s2 v w same =
        let g : Replicas = put cpu (replica l loading) (put nvme (replica source copying) f) in
        let (done1, v1) =
          set_state-Sees T key cpu ready g (record { location = l; state = loading }) s2.directory v
            refl in
        let d1 : Directory T = (set_state T key cpu ready s2.directory).1 in
        let g1 : Replicas = put cpu (replica l ready) g in
        let (done2, v2) =
          set_state-Sees T key nvme ready g1 (record { location = source; state = copying }) d1 v1
            refl in
        let d2 : Directory T = (set_state T key nvme ready d1).1 in
        let s4 : Transfer T = record s2 { directory = d2 } in
        let Q : Result (Unit {0}) → Transfer T → Type 0 = OnloadSettles f refused release_nvme in
        bind_step T Q (on_directory T (set_state T key cpu ready)) _ s2 tt done1 (
          bind_step T Q (on_directory T (set_state T key nvme ready)) _
            (record s2 { directory = d1 }) tt done2 (drop_file release_nvme l s4 v2 w same))

    pub onload_from-Settles :
        (release_nvme : Bool)
        → Sees T key f s.directory
        → let r = onload_from T now refused key release_nvme source s in
          OnloadSettles f refused release_nvme r.0 r.1
    unfolding onload_from
    onload_from-Settles release_nvme v =
        let Q : Result (Unit {0}) → Transfer T → Type 0 = OnloadSettles f refused release_nvme in
        let (done, v1) =
          set_state-Sees T key nvme copying f (record { location = source; state = ready })
            s.directory v in_file in
        let d1 : Directory T = (set_state T key nvme copying s.directory).1 in
        bind_step T Q (on_directory T (set_state T key nvme copying)) _ s tt done (
          bind_rule T (Tried f) Q (or_undo T (copy_in T now key source) (undo T now key cpu nvme)) _
            (record s { directory = d1 }) (try-Tried d1 v1)
            (λ u s2 (l, v2, w, same). settle release_nvme l s2 v2 w same)
            (λ e s2 t. (inl t.0, t.1)))

-- `onload` of a chunk that is ready in a file and not in host memory: if it returns, a slot of the
-- buffers has the payload of the file, its replica is ready, and the file is erased with its replica
-- if it is to be released; if it throws, the files are as before, and either so are the replicas, or
-- the chunk is loaded and ready in both places. In all cases the directory agrees with its tiers.
pub onload-Settles :
    (T : TierOps) (key : CacheKey) (source : TierLocation) (s : Transfer T) (f : Replicas) (now : ℕ)
    (refused : Bool) (release_nvme : Bool)
    → Sees T key f s.directory
    → f nvme ≡ replica source ready
    → f cpu ≡ none
    → let r = onload T now refused key release_nvme s in
      OnloadSettles T key source s f refused release_nvme r.0 r.1
unfolding onload at
onload-Settles T key source s f now refused release_nvme v in_file not_there =
    let there : v.chunk.nvme_replica ≡ replica source ready = v.same nvme ∙ in_file in
    let absent : v.chunk.cpu_replica ≡ none = v.same cpu ∙ not_there in
    let settled =
      onload_from-Settles T key source s f in_file not_there now refused release_nvme v in
    rw (v.found, at, onload, there, absent) settled
