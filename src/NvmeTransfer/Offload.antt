-- ===== src/NvmeTransfer/Offload.antt =====
-- `offload`: the chunk gets a replica in a file, or the directory and the files are as before.
pub mod CopyOut
use kvflux.Base.{
  ℕ, ◌≡◌, refl, sym, ap, ◌∙◌, inl, inr, Bool, true, false, Option, none, some, List, take, Result,
  ok, err, Result-cases, ◌>>◌, return, if◌then◌else◌,
}
use kvflux.Tier.{StorageTier, gpu, cpu, nvme, TierLocation}
use kvflux.Tier.Interface.{TierOps}
use kvflux.CacheDirectory.{ChunkState, CacheKey, Replica, ready, copying}
use kvflux.CacheDirectory.Operations.{Directory, at, set_state, remove, place}
use kvflux.CacheDirectory.Effects.{
  Replicas, put, put_known, put_twice, Sees, Sees-same, set_state-Sees, remove-Sees, place-Placed,
}
use kvflux.ChunkFileStore.{ChunkFileMeta, make_file_meta}
use kvflux.ChunkFileStore.Header.{encode}
use kvflux.ChunkFileStore.Files.{Store, Fault, file_at, write}
use kvflux.ChunkFileStore.Failures.{write-Kept, write-encode}
use kvflux.HostBuffers.{data_at}
use kvflux.NvmeTransfer.{
  Transfer, TransferM, on_directory, or_undo, undo, write_chunk, copy_out, offload_from, offload,
}
use kvflux.NvmeTransfer.Steps.{replica, bind_rule, bind_step, or_undo-cases, undo-Sees}
use kvflux.NvmeTransfer.Offload.CopyOut.{Written, SameFiles, CopiedOut, copy_out-CopiedOut}

module _ (T : TierOps) (key : CacheKey) (valid_tokens : ℕ) (source : TierLocation)
    (s : Transfer T) where
  -- After the `try` block with its handler.
  abbrev Tried : Replicas → Result (Unit {0}) → Transfer T → Type 0
  Tried f (ok u) after =
      (l : TierLocation) × Sees T key
        (put nvme (replica l copying) (put cpu (replica source copying) f)) after.directory
      × Written T key valid_tokens source s l.slot after
  Tried f (err e) after =
      Sees T key f after.directory × SameFiles T key valid_tokens source s after.store

  -- What `offload` leaves: a ready replica in a file and, unless it is released, in host memory; or
  -- the replicas and the files as they were.
  abbrev pub OffloadSettles : Replicas → Bool → Result (Unit {0}) → Transfer T → Type 0
  OffloadSettles f release_cpu (ok u) after =
      (l : TierLocation) × Sees T key
        (put cpu (if release_cpu then none else replica source ready)
          (put nvme (replica l ready) f))
        after.directory
      × Written T key valid_tokens source s l.slot after
  OffloadSettles f release_cpu (err e) after =
      Sees T key f after.directory × SameFiles T key valid_tokens source s after.store

  module _ (f : Replicas) (to_cpu : f cpu ≡ replica source ready) (not_there : f nvme ≡ none)
      (now : ℕ) (fault : Option Fault) where
    restored :
        (x : Option Replica) (t : StorageTier)
        → put cpu
            (replica source ready)
            (put nvme none (put nvme x (put cpu (replica source copying) f)))
            t
          ≡ f t
    restored x gpu = refl
    restored x cpu = sym to_cpu
    restored x nvme = sym not_there

    released :
        (x : Option Replica) (l : TierLocation) (t : StorageTier)
        → put cpu x
            (put nvme
              (replica l ready)
              (put nvme (replica l copying) (put cpu (replica source copying) f)))
            t
          ≡ put cpu x (put nvme (replica l ready) f) t
    released x l gpu = refl
    released x l cpu = refl
    released x l nvme = refl

    try-Tried :
        (d : Directory T)
        → Sees T key (put cpu (replica source copying) f) d
        → let s' = record s { directory = d } in
          let m =
            or_undo T (copy_out T now fault key valid_tokens source) (undo T now key nvme cpu) in
          Tried f (m s').0 (m s').1
    try-Tried d v =
        let g : Replicas = put cpu (replica source copying) f in
        let s' : Transfer T = record s { directory = d } in
        let body : TransferM T (Unit {0}) = copy_out T now fault key valid_tokens source in
        let copied = copy_out-CopiedOut T key valid_tokens source s now fault g d v not_there in
        or_undo-cases T (Tried f) body (undo T now key nvme cpu) s' (λ q. rw q at copied)
          λ e q.
            let ((x, seen), (files, count)) : CopiedOut T key valid_tokens source s g (err e)
                (body s').1 =
              rw q at copied in
            let (done, seen', store) =
              undo-Sees T now key nvme cpu (put nvme x g)
                (record { location = source; state = copying }) (body s').1 seen refl in
            let after : Transfer T = (undo T now key nvme cpu (body s').1).1 in
            (
              done,
              (
                Sees-same T key (put cpu (replica source ready) (put nvme none (put nvme x g))) f
                    after.directory (restored x) seen',
                (
                  ap (λ (st : Store). st.files) store ∙ files,
                  ap (λ (st : Store). st.stored_bytes) store ∙ count,
                ),
              ),
            )

    drop_source :
        (release_cpu : Bool) (l : TierLocation) (s4 : Transfer T)
        → Sees T key
            (put cpu (replica source ready) (
              put nvme
                (replica l ready)
                (put nvme (replica l copying) (put cpu (replica source copying) f))))
            s4.directory
        → Written T key valid_tokens source s l.slot s4
        → let m : TransferM T (Unit {0}) =
            if release_cpu then on_directory T (remove T now key cpu) else return tt in
          OffloadSettles f release_cpu (m s4).0 (m s4).1
    drop_source false l s4 v w =
        let h : Replicas = put cpu (replica source ready) (put nvme (replica l ready) f) in
        (l, Sees-same T key _ h s4.directory (released (replica source ready) l) v, w)
    drop_source true l s4 v w =
        let g1 : Replicas =
          put nvme (replica l ready)
            (put nvme (replica l copying) (put cpu (replica source copying) f)) in
        let p : Replica = record { location = source; state = ready } in
        let (done, v') =
          remove-Sees T now key cpu (put cpu (some p) g1) p s4.directory v refl refl in
        let v'' =
          Sees-same T key (put cpu none (put cpu (some p) g1))
            (put cpu none (put nvme (replica l ready) f)) (remove T now key cpu s4.directory).1
            (λ t. put_twice cpu t none (some p) g1 ∙ released none l t) v' in
        rw done (l, v'', w)

    -- The copy is made: both replicas become ready, and that in host memory goes if it is to.
    settle :
        (release_cpu : Bool) (l : TierLocation) (s2 : Transfer T)
        → Sees T key
            (put nvme (replica l copying) (put cpu (replica source copying) f))
            s2.directory
        → Written T key valid_tokens source s l.slot s2
        → let rest =
            on_directory T (set_state T key nvme ready)
            >> (on_directory T (set_state T key cpu ready)
                >> (if release_cpu then on_directory T (remove T now key cpu) else return tt)) in
          OffloadSettles f release_cpu (rest s2).0 (rest s2).1
    settle release_cpu l s2 v w =
        let g : Replicas = put nvme (replica l copying) (put cpu (replica source copying) f) in
        let (done1, v1) =
          set_state-Sees T key nvme ready g (record { location = l; state = copying }) s2.directory
            v refl in
        let d1 : Directory T = (set_state T key nvme ready s2.directory).1 in
        let g1 : Replicas = put nvme (replica l ready) g in
        let (done2, v2) =
          set_state-Sees T key cpu ready g1 (record { location = source; state = copying }) d1 v1
            refl in
        let d2 : Directory T = (set_state T key cpu ready d1).1 in
        let s4 : Transfer T = record s2 { directory = d2 } in
        let Q : Result (Unit {0}) → Transfer T → Type 0 = OffloadSettles f release_cpu in
        bind_step T Q (on_directory T (set_state T key nvme ready)) _ s2 tt done1 (
          bind_step T Q (on_directory T (set_state T key cpu ready)) _
            (record s2 { directory = d1 }) tt done2 (drop_source release_cpu l s4 v2 w))

    pub offload_from-Settles :
        (release_cpu : Bool)
        → Sees T key f s.directory
        → let r = offload_from T now fault key valid_tokens release_cpu source s in
          OffloadSettles f release_cpu r.0 r.1
    unfolding offload_from
    offload_from-Settles release_cpu v =
        let Q : Result (Unit {0}) → Transfer T → Type 0 = OffloadSettles f release_cpu in
        let (done, v1) =
          set_state-Sees T key cpu copying f (record { location = source; state = ready })
            s.directory v to_cpu in
        let d1 : Directory T = (set_state T key cpu copying s.directory).1 in
        bind_step T Q (on_directory T (set_state T key cpu copying)) _ s tt done (
          bind_rule T (Tried f) Q
            (or_undo T (copy_out T now fault key valid_tokens source) (undo T now key nvme cpu)) _
            (record s { directory = d1 }) (try-Tried d1 v1)
            (λ u s2 (l, v2, w). settle release_cpu l s2 v2 w) (λ e s2 t. t))

-- `offload` of a chunk that is ready in host memory and not in a file: if it returns, the file of its
-- new slot is that of `encode` for the bytes of the source, its replica is ready, and so is that in
-- host memory unless it is released; if it throws, whatever the cause, the replicas, the published
-- files and their count are as before. In both cases the directory agrees with its tiers.
pub offload-Settles :
    (T : TierOps) (key : CacheKey) (valid_tokens : ℕ) (source : TierLocation) (s : Transfer T)
    (f : Replicas) (now : ℕ) (fault : Option Fault) (release_cpu : Bool)
    → Sees T key f s.directory
    → f cpu ≡ replica source ready
    → f nvme ≡ none
    → let r = offload T now fault key valid_tokens release_cpu s in
      OffloadSettles T key valid_tokens source s f release_cpu r.0 r.1
unfolding offload at
offload-Settles T key valid_tokens source s f now fault release_cpu v to_cpu not_there =
    let there : v.chunk.cpu_replica ≡ replica source ready = v.same cpu ∙ to_cpu in
    let absent : v.chunk.nvme_replica ≡ none = v.same nvme ∙ not_there in
    let settled =
      offload_from-Settles T key valid_tokens source s f to_cpu not_there now fault release_cpu v in
    rw (v.found, at, offload, there, absent) settled
