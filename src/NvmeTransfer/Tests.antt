-- ===== src/NvmeTransfer/Tests.antt =====
-- A chunk of two bytes that goes to a file and comes back.
use kvflux.Base.{
  ℕ, ◌+◌, ◌≡◌, refl, true, false, none, List, [], ◌∷◌, ok, err, arith, wrap, quota_error,
}
use kvflux.IndexLru
use kvflux.BlockManager.{fresh, allocate, release, ref_count, is_current}
use kvflux.BlockManager.Prefixes.{prefix_hash}
use kvflux.PhysicalBlockPool.{id}
use kvflux.Tier.{
  StorageTier, gpu, cpu, nvme, TierLocation, allocate_slot, release_slot, allocate_page,
  release_page,
}
use kvflux.Tier.Objects.{kind_of, allocate_in, release_in}
use kvflux.CacheDirectory.{ChunkRecord, ready, replica_of}
use kvflux.CacheDirectory.Sample.{T, key, empty, empty-Agrees}
use kvflux.CacheDirectory.Operations.{create, place, remove, set_state, at}
use kvflux.CacheDirectory.Histories.{Call, create_call, place_call, step, run, run-Agrees}
use kvflux.CacheDirectory.Effects.{Replicas, Sees}
use kvflux.ChunkFileStore.{make_file_meta}
use kvflux.ChunkFileStore.Bytes.{put_le, read_all, read_le, take_le}
use kvflux.ChunkFileStore.Header.{
  put_fields, serialize_header, finish, encode, fill_in, chunk_checksum, read_header, read_fields,
  read_tokens, read_name, read_fixed, read_prefix, read_tail,
}
use kvflux.ChunkFileStore.Parsing.{InRange}
use kvflux.ChunkFileStore.Files.{open_store, write, save, read, read_payload, erase}
use kvflux.HostBuffers.{HostBuffers, data_at}
use kvflux.NvmeTransfer.{
  Transfer, undo, write_chunk, copy_out, offload_from, offload, read_chunk, copy_in, onload_from,
  onload,
}
use kvflux.NvmeTransfer.Steps.{replica}
use kvflux.NvmeTransfer.Offload.{OffloadSettles, offload-Settles}
use kvflux.NvmeTransfer.Onload.{OnloadSettles, onload-Settles}
use kvflux.NvmeTransfer.RoundTrip.{CameBack, onload-offload}

code : Unit {0}
unfolding IndexLru.init IndexLru.touch IndexLru.erase fresh allocate release ref_count is_current
    prefix_hash id allocate_slot release_slot allocate_page release_page kind_of allocate_in
    release_in create place remove set_state at step run make_file_meta open_store encode finish
    fill_in serialize_header put_fields put_le read read_payload read_header read_fields read_name
    read_fixed read_prefix read_tail read_tokens read_all read_le take_le chunk_checksum write save
    erase data_at wrap undo write_chunk copy_out offload_from offload read_chunk copy_in onload_from
    onload
code = tt

abbrev buffers : HostBuffers
buffers = record { slots = 2; chunk_bytes = 2; bytes = λ i. (200 + i) ∷ 17 ∷ [] }

abbrev first : TierLocation
first = record { slot = 0; generation = 1 }

-- The chunk in one tier only.
abbrev calls : StorageTier → List Call
calls tier = create_call 10 key ∷ place_call 11 key tier ready ∷ []

abbrev started : StorageTier → ℕ → Transfer T
started tier quota = record {
  directory = run T (calls tier) empty;
  store = record { quota_bytes = quota; stored_bytes = 0; files = []; temporaries = [] };
  buffers = buffers;
}

abbrev only_in : StorageTier → Replicas
only_in gpu gpu = replica first ready
only_in cpu cpu = replica first ready
only_in nvme nvme = replica first ready
only_in _ _ = none

abbrev on_host : ChunkRecord
on_host = record {
  key = key;
  version = 1;
  ref_count = 0;
  pin_count = 0;
  last_access = 11;
  gpu_replica = none;
  cpu_replica = replica first ready;
  nvme_replica = none;
}

abbrev on_disk : ChunkRecord
on_disk = record on_host { cpu_replica = none; nvme_replica = replica first ready }

host-Sees : (quota : ℕ) → Sees T key (only_in cpu) (started cpu quota).directory
unfolding code
host-Sees quota = record {
  chunk = on_host;
  found = refl;
  same = same;
  valid = run-Agrees T (calls cpu) empty empty-Agrees;
}
  where
    same : (t : StorageTier) → replica_of t on_host ≡ only_in cpu t
    same gpu = refl
    same cpu = refl
    same nvme = refl

disk-Sees : (quota : ℕ) → Sees T key (only_in nvme) (started nvme quota).directory
unfolding code
disk-Sees quota = record {
  chunk = on_disk;
  found = refl;
  same = same;
  valid = run-Agrees T (calls nvme) empty empty-Agrees;
}
  where
    same : (t : StorageTier) → replica_of t on_disk ≡ only_in nvme t
    same gpu = refl
    same cpu = refl
    same nvme = refl

offload-Settles_example :
    let r = offload T 20 none key 2 true (started cpu 1000) in
    OffloadSettles T key 2 first (started cpu 1000) (only_in cpu) true r.0 r.1
offload-Settles_example =
    offload-Settles T key 2 first (started cpu 1000) (only_in cpu) 20 none true (host-Sees 1000)
      refl refl

-- A file without the chunk: `onload` fails.
onload-Settles_example :
    let r = onload T 20 false key true (started nvme 1000) in
    OnloadSettles T key first (started nvme 1000) (only_in nvme) false true r.0 r.1
onload-Settles_example =
    onload-Settles T key first (started nvme 1000) (only_in nvme) 20 false true (disk-Sees 1000)
      refl refl

key-InRange : InRange (make_file_meta key 2 2)
unfolding code
key-InRange = record {
  model_id = omega arith;
  layout_version = omega arith;
  first_layer = omega arith;
  last_layer = omega arith;
  prefix_hash = omega arith;
  prefix = (omega arith, (omega arith, tt));
  prefix_length = omega arith;
  valid_token_count = omega arith;
  payload_size = omega arith;
}

onload-offload_example :
    let r = onload T 21 false key true (offload T 20 none key 2 true (started cpu 1000)).1 in
    (there : TierLocation) × CameBack T key there (200 ∷ 17 ∷ []) (only_in cpu) true r.0 r.1
unfolding code
onload-offload_example =
    onload-offload T key 2 first (started cpu 1000) (only_in cpu) 20 21 none false true
      (200 ∷ 17 ∷ []) (host-Sees 1000) refl refl refl refl key-InRange refl

came_back :
    (onload T 21 false key true (offload T 20 none key 2 true (started cpu 1000)).1).0 ≡ ok tt
unfolding code
came_back = refl

over_quota : (offload T 20 none key 2 true (started cpu 50)).0 ≡ err quota_error
unfolding code
over_quota = refl
