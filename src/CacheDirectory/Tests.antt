-- ===== src/CacheDirectory/Tests.antt =====
-- A directory over three small tiers, and the theorems at it.
use kvflux.Base.{
  ◌≡◌, refl, some, none, List, [], ◌∷◌, ok, err, logic_error, invalid_argument, Distinct,
}
use kvflux.IndexLru
use kvflux.BlockManager.{fresh, allocate, release, ref_count, is_current}
use kvflux.BlockManager.Prefixes.{prefix_hash}
use kvflux.PhysicalBlockPool.{id}
use kvflux.Tier.{gpu, cpu, nvme, allocate_slot, release_slot, allocate_page, release_page}
use kvflux.Tier.Objects.{kind_of, allocate_in, release_in}
use kvflux.Tier.Interface.{slots_of}
use kvflux.CacheDirectory.{ChunkRecord, replica_of, ready, copying, make_cache_key}
use kvflux.CacheDirectory.Sample.{
  T, device, host, disk, unused-SlotHolds, unused-PageHolds, key, empty, empty-Agrees,
}
use kvflux.CacheDirectory.Operations.{
  open_directory, create, place, remove, set_state, stats, destroy, at,
}
use kvflux.CacheDirectory.Entries.{locations}
use kvflux.CacheDirectory.Effects.{put, Sees}
use kvflux.CacheDirectory.Removal.{remove-Removes}
use kvflux.CacheDirectory.Destruction.{DestroySettles, destroy-Settles}
use kvflux.CacheDirectory.Histories.{
  Call, create_call, place_call, run, step, run-stats, run-Agrees,
}

code : Unit {0}
unfolding IndexLru.init IndexLru.touch IndexLru.erase fresh allocate release ref_count is_current
    prefix_hash id allocate_slot release_slot allocate_page release_page kind_of allocate_in
    release_in make_cache_key open_directory create place remove set_state stats destroy at run step
code = tt

abbrev calls : List Call
calls = create_call 10 key ∷ place_call 11 key gpu ready ∷ place_call 12 key cpu copying ∷ []

-- A replica in transfer cannot be removed, and its chunk cannot be destroyed.
in_transfer : (remove T 13 key cpu (run T calls empty)).0 ≡ err logic_error
unfolding code
in_transfer = refl

still_placed : (destroy T key (run T calls empty)).0 ≡ err logic_error
unfolding code
still_placed = refl

registered_twice : (create T 13 key (run T calls empty)).0 ≡ err invalid_argument
unfolding code
registered_twice = refl

run-stats_example :
    ((stats T cpu (run T calls empty)).allocated_chunks
      ≡ (stats T cpu (run T calls empty)).replicas)
    × Distinct (slots_of (locations cpu (run T calls empty).records))
unfolding code
run-stats_example =
    run-stats T device host disk empty calls cpu unused-PageHolds (unused-SlotHolds cpu)
      (unused-SlotHolds nvme) refl

abbrev unplaced : List Call
unplaced = create_call 10 key ∷ []

destroy-Settles_example :
    DestroySettles T key
      (run T unplaced empty)
      (destroy T key (run T unplaced empty)).0
      (destroy T key (run T unplaced empty)).1
destroy-Settles_example =
    destroy-Settles T key (run T unplaced empty) (run-Agrees T unplaced empty empty-Agrees)

abbrev on_device : ChunkRecord
on_device = record {
  key = key;
  version = 1;
  ref_count = 0;
  pin_count = 0;
  last_access = 12;
  gpu_replica = some (record { location = record { slot = 0; generation = 1 }; state = ready });
  cpu_replica = some (record { location = record { slot = 0; generation = 1 }; state = copying });
  nvme_replica = none;
}

calls-Sees : Sees T key (λ t. replica_of t on_device) (run T calls empty)
unfolding code
calls-Sees = record {
  chunk = on_device;
  found = refl;
  same = λ t. refl;
  valid = run-Agrees T calls empty empty-Agrees;
}

remove-Removes_example :
    ((remove T 13 key gpu (run T calls empty)).0 ≡ ok tt)
    × Sees T key
        (put gpu none (λ t. replica_of t on_device))
        (remove T 13 key gpu (run T calls empty)).1
remove-Removes_example =
    remove-Removes T 13 key gpu (λ t. replica_of t on_device) (run T calls empty) calls-Sees
