-- ===== src/NvmeTransfer/RoundTrip.antt =====
-- A chunk that goes to a file and comes back.
use mathlib.Core.List.{append-nil}
use kvflux.Base.{
  ℕ, ◌≡◌, refl, sym, ap, subst, ◌∙◌, Bool, true, Option, none, some, List, [], take, drop, length,
  ==_refl, list_eq_refl, arith, Result, ok, err, if◌then◌else◌, ok-injective,
}
use kvflux.Tier.{StorageTier, gpu, cpu, nvme, TierLocation}
use kvflux.Tier.Interface.{TierOps}
use kvflux.CacheDirectory.{CacheKey, Replica, ready, dtype_code}
use kvflux.CacheDirectory.Effects.{Replicas, put, Sees, Sees-same}
use kvflux.ChunkFileStore.{ChunkFileMeta, make_file_meta, same_identity}
use kvflux.ChunkFileStore.Bytes.{take-append}
use kvflux.ChunkFileStore.Header.{encode}
use kvflux.ChunkFileStore.Parsing.{InRange}
use kvflux.ChunkFileStore.Payloads.{read-encode}
use kvflux.ChunkFileStore.Files.{Store, Fault, read}
use kvflux.HostBuffers.{HostBuffers, data_at, fill}
use kvflux.NvmeTransfer.{Transfer, offload, onload}
use kvflux.NvmeTransfer.Steps.{replica}
use kvflux.NvmeTransfer.Offload.CopyOut.{Written}
use kvflux.NvmeTransfer.Offload.{OffloadSettles, offload-Settles}
use kvflux.NvmeTransfer.Onload.{OnloadSettles, onload-Settles}

key-same_identity :
    (key : CacheKey) (a b size size' : ℕ)
    → same_identity (make_file_meta key a size) (make_file_meta key b size') ≡ true
unfolding make_file_meta
key-same_identity key a b size size' =
    rw
      (
        list_eq_refl key.model_id,
        ==_refl key.layout_version,
        ==_refl (dtype_code key.dtype),
        ==_refl key.first_layer,
        ==_refl key.last_layer,
        ==_refl key.prefix_hash,
        list_eq_refl key.prefix,
      )
      refl

module _ (T : TierOps) (key : CacheKey) where
  -- The chunk came back: the bytes stand in a slot of the buffers that is ready; or it is still in
  -- its file.
  abbrev pub CameBack :
      TierLocation → List ℕ → Replicas → Bool → Result (Unit {0}) → Transfer T → Type 0
  CameBack there bytes f release_nvme (ok u) after =
      (l : TierLocation) × Sees T key
        (put nvme (if release_nvme then none else replica there ready)
          (put cpu (replica l ready) f))
        after.directory
      × (take (length bytes) (after.buffers.bytes l.slot) ≡ bytes)
  CameBack there bytes f release_nvme (err e) after =
      (m : ChunkFileMeta) × (read after.store there.slot (make_file_meta key 0 (length bytes))
          (length bytes)
        ≡ ok (some (m, bytes)))

  -- The payload of the file of a slot that was written.
  Written-read :
      (valid_tokens : ℕ) (source l : TierLocation) (s after : Transfer T) (bytes : List ℕ)
      → Written T key valid_tokens source s l.slot after
      → data_at source.slot s.buffers ≡ ok bytes
      → length bytes ≡ s.buffers.chunk_bytes
      → InRange (make_file_meta key valid_tokens s.buffers.chunk_bytes)
      → read after.store l.slot (make_file_meta key 0 s.buffers.chunk_bytes) s.buffers.chunk_bytes
        ≡ ok (some (make_file_meta key valid_tokens s.buffers.chunk_bytes, bytes))
  unfolding make_file_meta
  Written-read valid_tokens source l s after bytes (bytes', q', file, same) q e r =
      let n : ℕ = s.buffers.chunk_bytes in
      let is_bytes : bytes' ≡ bytes = ok-injective (sym q' ∙ q) in
      let whole : take n bytes' ≡ bytes =
        ap (take n) is_bytes
        ∙ subst (λ l. take n l ≡ bytes) (append-nil bytes) (take-append bytes [] n e) in
      let m : ChunkFileMeta = make_file_meta key valid_tokens n in
      read-encode l.slot m (make_file_meta key 0 n) bytes n after.store r e
        (key-same_identity key valid_tokens 0 n n) (omega arith)
        (file ∙ ap (λ b. some (encode m b)) whole)

  filled :
      (slot : ℕ) (bytes : List ℕ) (b : HostBuffers)
      → take (length bytes) ((fill slot bytes b).bytes slot) ≡ bytes
  filled slot bytes b =
      rw (==_refl slot) (take-append bytes (drop (length bytes) (b.bytes slot)) (length bytes) refl)

  module _ (there : TierLocation) (bytes : List ℕ) (m : ChunkFileMeta) (f : Replicas)
      (s1 : Transfer T) (refused release_nvme : Bool) (size : length bytes ≡ s1.buffers.chunk_bytes)
      (back : read s1.store there.slot
          (make_file_meta key 0 s1.buffers.chunk_bytes)
          s1.buffers.chunk_bytes
        ≡ ok (some (m, bytes))) where
    final :
        (x : Option Replica) (l : TierLocation) (t : StorageTier)
        → put nvme x (put cpu (replica l ready) (put cpu none (put nvme (replica there ready) f))) t
          ≡ put nvme x (put cpu (replica l ready) f) t
    final x l gpu = refl
    final x l cpu = refl
    final x l nvme = refl

    onload-CameBack :
        (r : Result (Unit {0})) (after : Transfer T)
        → OnloadSettles T key there s1
            (put cpu none (put nvme (replica there ready) f))
            refused
            release_nvme
            r
            after
        → CameBack there bytes f release_nvme r after
    onload-CameBack (ok u) after ((l, v, (m', payload, found, b)), _) =
        let x : Option Replica = if release_nvme then none else replica there ready in
        let same = ok-injective (sym found ∙ back) in
        let is_bytes : payload ≡ bytes = cc in
        let stands : take (length bytes) (after.buffers.bytes l.slot) ≡ bytes =
          subst (λ (h : HostBuffers). take (length bytes) (h.bytes l.slot) ≡ bytes)
            (sym (b ∙ ap (λ p. fill l.slot p s1.buffers) is_bytes))
            (filled l.slot bytes s1.buffers) in
        let h : Replicas = put nvme x (put cpu (replica l ready) f) in
        (l, Sees-same T key _ h after.directory (final x l) v, stands)
    onload-CameBack (err e) after (_, same) = (
      m,
      subst (λ n. read after.store there.slot (make_file_meta key 0 n) n ≡ ok (some (m, bytes)))
          (sym size)
          (subst
            (λ (st : Store).
              read st there.slot (make_file_meta key 0 s1.buffers.chunk_bytes)
                s1.buffers.chunk_bytes
              ≡ ok (some (m, bytes)))
            (sym same) back),
    )

-- A chunk is moved from host memory to a file and back. If the bytes of its slot are a whole chunk,
-- its key is within the limits of the file header, and `offload` returns, then an `onload` that
-- returns puts just these bytes at the front of a slot of the buffers, whose replica is ready; and
-- after an `onload` that throws, the file can still be read and gives these bytes.
pub onload-offload :
    (T : TierOps) (key : CacheKey) (valid_tokens : ℕ) (source : TierLocation) (s : Transfer T)
    (f : Replicas) (now now' : ℕ) (fault : Option Fault) (refused release_nvme : Bool)
    (bytes : List ℕ)
    → Sees T key f s.directory
    → f cpu ≡ replica source ready
    → f nvme ≡ none
    → data_at source.slot s.buffers ≡ ok bytes
    → length bytes ≡ s.buffers.chunk_bytes
    → InRange (make_file_meta key valid_tokens s.buffers.chunk_bytes)
    → (offload T now fault key valid_tokens true s).0 ≡ ok tt
    → let r =
        onload T now' refused key release_nvme (offload T now fault key valid_tokens true s).1 in
      (there : TierLocation) × CameBack T key there bytes f release_nvme r.0 r.1
onload-offload T key valid_tokens source s f now now' fault refused release_nvme bytes v to_cpu
      not_there q size range e =
    let s1 : Transfer T = (offload T now fault key valid_tokens true s).1 in
    let settled = offload-Settles T key valid_tokens source s f now fault true v to_cpu not_there in
    let (there, v1, w) : OffloadSettles T key valid_tokens source s f true (ok tt) s1 =
      rw e at settled in
    let (_, _, _, same) = w in
    let back = Written-read T key valid_tokens source there s s1 bytes w q size range in
    let g : Replicas = put cpu none (put nvme (replica there ready) f) in
    let loaded = onload-Settles T key there s1 g now' refused release_nvme v1 refl refl in
    let r = onload T now' refused key release_nvme s1 in
    let n_same : s.buffers.chunk_bytes ≡ s1.buffers.chunk_bytes =
      ap (λ (b : HostBuffers). b.chunk_bytes) (sym same) in
    let m : ChunkFileMeta = make_file_meta key valid_tokens s.buffers.chunk_bytes in
    (
      there,
      onload-CameBack T key there bytes m f s1 refused release_nvme (size ∙ n_same)
          (subst (λ n. read s1.store there.slot (make_file_meta key 0 n) n ≡ ok (some (m, bytes)))
            n_same back)
          r.0 r.1 loaded,
    )
