-- ===== src/NvmeTransfer.antt =====
-- include/kvflux/v3/nvme_transfer.h and src/v3/nvme_transfer.cpp: chunks between host memory and
-- files. The directory, the store and the buffers that it refers to are its state.
pub mod Steps
pub mod Offload
pub mod Onload
pub mod RoundTrip
mod Tests
use kvflux.Base.{
  ℕ, Bool, true, false, not, Option, none, some, if◌then◌else◌, Result, ok, err, Error, logic_error,
  miss_error, on_result, ◌>>=◌, ◌>>◌, return,
}
use kvflux.Tier.{StorageTier, gpu, cpu, nvme, TierLocation}
use kvflux.Tier.Interface.{TierOps}
use kvflux.CacheDirectory.{CacheKey, ready, copying, loading, error, is_ready, is_some, replica_of}
use kvflux.CacheDirectory.Operations.{Directory, DirectoryM, at, place, remove, set_state}
use kvflux.ChunkFileStore.{make_file_meta}
use kvflux.ChunkFileStore.Files.{Store, Fault, write, read, erase}
use kvflux.HostBuffers.{HostBuffers, data_at, fill}

module _ (T : TierOps) where
  pub record Transfer : Type 0 where
    pub directory : Directory T
    pub store : Store
    pub buffers : HostBuffers

  abbrev pub TransferM : Type 0 → Type 0
  TransferM A = Transfer → Result A × Transfer

  abbrev pub on_directory : {A : Type 0} → DirectoryM T A → TransferM A
  on_directory m s = ((m s.directory).0, record s { directory = (m s.directory).1 })

  abbrev pub on_store : {A : Type 0} → (Store → Result A × Store) → TransferM A
  on_store m s = ((m s.store).0, record s { store = (m s.store).1 })

  -- `try { body } catch (...) { handler; throw; }`; an exception of the handler goes on in place of
  -- the first.
  abbrev pub or_undo : {A : Type 0} → TransferM A → TransferM (Unit {0}) → TransferM A
  or_undo body handler s = elim (body s).0 [
    | ok a ↦ (ok a, (body s).1)
    | err e ↦
        (elim (handler (body s).1).0 [ ok u ↦ err e | err e' ↦ err e' ], (handler (body s).1).1)
  ]

  -- Both handlers: the replica in `made` is removed if there is one, and that in `source` is ready.
  unfoldable pub undo : ℕ → CacheKey → StorageTier → StorageTier → TransferM (Unit {0})
  undo now key made source s = elim (at T key s.directory) [
    | err e ↦ (err e, s)
    | ok r ↦
        ((if is_some (replica_of made r)
              then (on_directory (set_state T key made error)
                  >> on_directory (remove T now key made))
              else return tt)
            >> on_directory (set_state T key source ready))
          s
  ]

  unfoldable pub write_chunk :
      Option Fault → CacheKey → ℕ → TierLocation → TierLocation → TransferM (Unit {0})
  write_chunk fault key valid_tokens source destination s = elim (data_at source.slot s.buffers) [
    | err e ↦ (err e, s)
    | ok bytes ↦
        on_store
          (write fault destination.slot (make_file_meta key valid_tokens s.buffers.chunk_bytes)
            bytes)
          s
  ]

  unfoldable pub copy_out : ℕ → Option Fault → CacheKey → ℕ → TierLocation → TransferM (Unit {0})
  copy_out now fault key valid_tokens source =
      on_directory (place T now key nvme copying) >>= λ destination.
      write_chunk fault key valid_tokens source destination

  unfoldable pub offload_from :
      ℕ → Option Fault → CacheKey → ℕ → Bool → TierLocation → TransferM (Unit {0})
  offload_from now fault key valid_tokens release_cpu source =
      on_directory (set_state T key cpu copying)
      >> (or_undo (copy_out now fault key valid_tokens source) (undo now key nvme cpu)
          >> (on_directory (set_state T key nvme ready)
              >> (on_directory (set_state T key cpu ready)
                  >> (if release_cpu then on_directory (remove T now key cpu) else return tt))))

  unfoldable pub offload : ℕ → Option Fault → CacheKey → ℕ → Bool → TransferM (Unit {0})
  offload now fault key valid_tokens release_cpu s = elim (at T key s.directory) [
    | err e ↦ (err e, s)
    | ok r ↦ elim r.cpu_replica [
      | none ↦ (err logic_error, s)
      | some p ↦
          if not (is_ready p.state)
          then (err logic_error, s)
          else if is_some r.nvme_replica
          then (err logic_error, s)
          else offload_from now fault key valid_tokens release_cpu p.location s
    ]
  ]

  -- What the destination holds after a read that throws is not said: its slot is given back.
  unfoldable pub read_chunk : CacheKey → TierLocation → TierLocation → TransferM (Unit {0})
  read_chunk key source destination s = elim (data_at destination.slot s.buffers) [
    | err e ↦ (err e, s)
    | ok old ↦
        elim (read s.store source.slot (make_file_meta key 0 s.buffers.chunk_bytes)
          s.buffers.chunk_bytes) [
            | err e ↦ (err e, s)
            | ok none ↦ (err miss_error, s)
            | ok (some found) ↦
                (ok tt, record s { buffers = fill destination.slot found.1 s.buffers })
          ]
  ]

  unfoldable pub copy_in : ℕ → CacheKey → TierLocation → TransferM (Unit {0})
  copy_in now key source = on_directory (place T now key cpu loading) >>= λ destination.
      read_chunk key source destination

  unfoldable pub onload_from : ℕ → Bool → CacheKey → Bool → TierLocation → TransferM (Unit {0})
  onload_from now refused key release_nvme source =
      on_directory (set_state T key nvme copying)
      >> (or_undo (copy_in now key source) (undo now key cpu nvme)
          >> (on_directory (set_state T key cpu ready)
              >> (on_directory (set_state T key nvme ready)
                  >> (if release_nvme
                      then (on_store (erase refused source.slot)
                          >> on_directory (remove T now key nvme))
                      else return tt))))

  unfoldable pub onload : ℕ → Bool → CacheKey → Bool → TransferM (Unit {0})
  onload now refused key release_nvme s = elim (at T key s.directory) [
    | err e ↦ (err e, s)
    | ok r ↦ elim r.nvme_replica [
      | none ↦ (err logic_error, s)
      | some p ↦
          if not (is_ready p.state)
          then (err logic_error, s)
          else if is_some r.cpu_replica
          then (err logic_error, s)
          else onload_from now refused key release_nvme p.location s
    ]
  ]
