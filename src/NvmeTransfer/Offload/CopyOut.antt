-- ===== src/NvmeTransfer/Offload/CopyOut.antt =====
-- The body of the `try` block of `offload`.
use kvflux.Base.{
  ℕ, ◌≡◌, refl, inl, inr, Option, none, some, List, take, Result, ok, err, Result-cases,
}
use kvflux.Tier.{nvme, TierLocation}
use kvflux.Tier.Interface.{TierOps}
use kvflux.CacheDirectory.{CacheKey, Replica, copying}
use kvflux.CacheDirectory.Operations.{Directory, place}
use kvflux.CacheDirectory.Effects.{Replicas, put, put_known, Sees, Sees-same, place-Placed}
use kvflux.ChunkFileStore.{ChunkFileMeta, make_file_meta}
use kvflux.ChunkFileStore.Header.{encode}
use kvflux.ChunkFileStore.Files.{Store, Fault, file_at, write}
use kvflux.ChunkFileStore.Failures.{write-Kept, write-encode}
use kvflux.HostBuffers.{data_at}
use kvflux.NvmeTransfer.{Transfer, write_chunk, copy_out}
use kvflux.NvmeTransfer.Steps.{replica}

module _ (T : TierOps) (key : CacheKey) (valid_tokens : ℕ) (source : TierLocation)
    (s : Transfer T) where
  -- The file of a slot holds the bytes of the source; the buffers are as before.
  abbrev pub Written : ℕ → Transfer T → Type 0
  Written slot after =
      (bytes : List ℕ) × (data_at source.slot s.buffers ≡ ok bytes)
      × (file_at after.store.files slot
          ≡ some (
              encode (make_file_meta key valid_tokens s.buffers.chunk_bytes)
                (take s.buffers.chunk_bytes bytes)))
      × (after.buffers ≡ s.buffers)

  -- The published files and their count are as before.
  abbrev pub SameFiles : Store → Type 0
  SameFiles st = (st.files ≡ s.store.files) × (st.stored_bytes ≡ s.store.stored_bytes)

  -- After the body of the `try` block.
  abbrev pub CopiedOut : Replicas → Result (Unit {0}) → Transfer T → Type 0
  CopiedOut g (ok u) after =
      (l : TierLocation) × Sees T key (put nvme (replica l copying) g) after.directory
      × Written l.slot after
  CopiedOut g (err e) after =
      ((x : Option Replica) × Sees T key (put nvme x g) after.directory) × SameFiles after.store

  write_chunk-CopiedOut :
      (fault : Option Fault) (g : Replicas) (l : TierLocation) (d : Directory T)
      → Sees T key (put nvme (replica l copying) g) d
      → let s' = record s { directory = d } in
        CopiedOut g
          (write_chunk T fault key valid_tokens source l s').0
          (write_chunk T fault key valid_tokens source l s').1
  unfolding write_chunk make_file_meta
  write_chunk-CopiedOut fault g l d v =
      let meta : ChunkFileMeta = make_file_meta key valid_tokens s.buffers.chunk_bytes in
      elim (Result-cases (data_at source.slot s.buffers)) [
        | inr (e, q) ↦ rw (q, write_chunk) ((replica l copying, v), (refl, refl))
        | inl (bytes, q) ↦ elim (Result-cases (write fault l.slot meta bytes s.store).0) [
          | inl (u, done) ↦
              rw (q, write_chunk, done)
                (l, v, (bytes, q, write-encode fault l.slot meta bytes s.store done, refl))
          | inr (e, failed) ↦
              let (files, count, _) = write-Kept fault l.slot meta bytes s.store e failed in
              rw (q, write_chunk, failed) ((replica l copying, v), (files, count))
        ]
      ]

  pub copy_out-CopiedOut :
      (now : ℕ) (fault : Option Fault) (g : Replicas) (d : Directory T)
      → Sees T key g d
      → g nvme ≡ none
      → let s' = record s { directory = d } in
        CopiedOut g
          (copy_out T now fault key valid_tokens source s').0
          (copy_out T now fault key valid_tokens source s').1
  unfolding copy_out
  copy_out-CopiedOut now fault g d v e =
      let placed = place-Placed T now key nvme copying g d v e in
      elim (Result-cases (place T now key nvme copying d).0) [
        | inl (l, q) ↦
            rw q
              (write_chunk-CopiedOut fault g l (place T now key nvme copying d).1 (rw q at placed))
        | inr (x, q) ↦
            let seen =
              Sees-same T key g (put nvme none g) (place T now key nvme copying d).1
                (λ t. put_known nvme t none g e) (rw q at placed) in
            rw q ((none, seen), (refl, refl))
      ]
