-- ===== src/NvmeTransfer/Onload/CopyIn.antt =====
-- The body of the `try` block of `onload`.
use kvflux.Base.{
  ℕ, ◌≡◌, refl, ap, ◌∙◌, inl, inr, Option, none, some, List, Result, ok, err, Result-cases,
  Option-cases,
}
use kvflux.Tier.{cpu, TierLocation}
use kvflux.Tier.Interface.{TierOps}
use kvflux.CacheDirectory.{CacheKey, Replica, loading}
use kvflux.CacheDirectory.Operations.{Directory, place}
use kvflux.CacheDirectory.Effects.{Replicas, put, put_known, Sees, Sees-same, place-Placed}
use kvflux.ChunkFileStore.{ChunkFileMeta, make_file_meta}
use kvflux.ChunkFileStore.Files.{read}
use kvflux.HostBuffers.{HostBuffers, data_at, fill}
use kvflux.NvmeTransfer.{Transfer, read_chunk, copy_in}
use kvflux.NvmeTransfer.Steps.{replica}

module _ (T : TierOps) (key : CacheKey) (source : TierLocation) (s : Transfer T) where
  -- The payload of the file stands at the front of a slot of the buffers, the rest is as it was.
  abbrev pub Loaded : ℕ → HostBuffers → Type 0
  Loaded slot b =
      (meta : ChunkFileMeta) × (payload : List ℕ) × (read s.store source.slot
          (make_file_meta key 0 s.buffers.chunk_bytes) s.buffers.chunk_bytes
        ≡ ok (some (meta, payload)))
      × (b ≡ fill slot payload s.buffers)

  abbrev pub CopiedIn : Replicas → Result (Unit {0}) → Transfer T → Type 0
  CopiedIn g (ok u) after =
      (l : TierLocation) × Sees T key (put cpu (replica l loading) g) after.directory
      × Loaded l.slot after.buffers
      × (after.store ≡ s.store)
  CopiedIn g (err e) after =
      ((x : Option Replica) × Sees T key (put cpu x g) after.directory) × (after.store ≡ s.store)

  read_chunk-CopiedIn :
      (g : Replicas) (l : TierLocation) (d : Directory T)
      → Sees T key (put cpu (replica l loading) g) d
      → let s' = record s { directory = d } in
        CopiedIn g (read_chunk T key source l s').0 (read_chunk T key source l s').1
  unfolding read_chunk
  read_chunk-CopiedIn g l d v =
      let meta : ChunkFileMeta = make_file_meta key 0 s.buffers.chunk_bytes in
      elim (Result-cases (data_at l.slot s.buffers)) [
        | inr (e, q) ↦ rw (q, read_chunk) ((replica l loading, v), refl)
        | inl (old, q) ↦ elim (Result-cases (read s.store source.slot meta s.buffers.chunk_bytes)) [
          | inr (e, failed) ↦ rw (q, read_chunk, failed) ((replica l loading, v), refl)
          | inl (o, done) ↦ elim (Option-cases o) [
            | inl missing ↦
                let done' = done ∙ ap ok missing in
                rw (q, read_chunk, done') ((replica l loading, v), refl)
            | inr ((m, payload), present) ↦
                let done' = done ∙ ap ok present in
                rw (q, read_chunk, done') (l, v, (m, payload, done', refl), refl)
          ]
        ]
      ]

  pub copy_in-CopiedIn :
      (now : ℕ) (g : Replicas) (d : Directory T)
      → Sees T key g d
      → g cpu ≡ none
      → let s' = record s { directory = d } in
        CopiedIn g (copy_in T now key source s').0 (copy_in T now key source s').1
  unfolding copy_in
  copy_in-CopiedIn now g d v e =
      let placed = place-Placed T now key cpu loading g d v e in
      elim (Result-cases (place T now key cpu loading d).0) [
        | inl (l, q) ↦
            rw q (read_chunk-CopiedIn g l (place T now key cpu loading d).1 (rw q at placed))
        | inr (x, q) ↦
            let seen =
              Sees-same T key g (put cpu none g) (place T now key cpu loading d).1
                (λ t. put_known cpu t none g e) (rw q at placed) in
            rw q ((none, seen), refl)
      ]
