-- ===== src/BlockManager/Tests.antt =====
-- Runs of the manager, and the theorems at concrete inputs.
use kvflux.Base.{
  range, ℕ, ◌+◌, ◌≡◌, refl, some, [], ◌∷◌, true, ok, err, arith, invalid_argument, capacity_error,
}
use kvflux.IndexLru
use kvflux.BlockManager.{
  BlockManager, BlockHandle, BlockTable, Tokens, fresh, create, allocate, retain, release,
  ref_count, is_current, add_ref,
}
use kvflux.BlockManager.Prefixes.{prefix_hash, publish, lookup}
use kvflux.BlockManager.Tables.{acquire, share, release_table, stats}
use kvflux.BlockManager.Invariant.{Inv, Queues}
use kvflux.BlockManager.Init.{fresh-Queues, fresh-Indexed}
use kvflux.BlockManager.Allocate.{Serves, allocate-Serves}
use kvflux.BlockManager.Publication.{lookup_hit}
use kvflux.BlockManager.Counts.{stats_lem}
use kvflux.BlockManager.Ownership.{SettlesTable, acquire-Settles}
use kvflux.BlockManager.Sharing.{Shares, share-Settles}
use kvflux.BlockManager.Reach.{here, allocates, Reach-Inv, acquire-Reach}
use kvflux.BlockManager.Stale.{release-stale}
use kvflux.BlockManager.Calls.{allocate_call, acquire_call, release_call, run, run-create-Inv}

-- Three slots of two tokens.
abbrev small : BlockManager
small = fresh 3 2 prefix_hash

small-Inv : Inv small
small-Inv = (
  range 0 3,
  [],
  fresh-Queues 3 2 prefix_hash (omega arith),
  fresh-Indexed 3 2 prefix_hash (omega arith),
)

abbrev first : BlockHandle
first = record { id = 0; generation = 1 }

abbrev second : BlockHandle
second = record { id = 1; generation = 1 }

-- The definitions that the runs compute with.
code : Unit {0}
unfolding fresh create allocate retain release ref_count is_current prefix_hash publish lookup
    acquire share release_table stats IndexLru.init IndexLru.touch IndexLru.erase run
code = tt

acquire_three :
    (acquire (7 ∷ 8 ∷ 9 ∷ []) small).0
    ≡ ok (record { blocks = first ∷ second ∷ []; token_count = 3 })
unfolding code
acquire_three = refl

acquire_too_much : (acquire (1 ∷ 2 ∷ 3 ∷ 4 ∷ 5 ∷ 6 ∷ 7 ∷ []) small).0 ≡ err capacity_error
unfolding code
acquire_too_much = refl

run-create-Inv_example :
    let n = run (allocate_call ∷ acquire_call (4 ∷ 5 ∷ []) ∷ release_call first ∷ []) small in
    Inv n × ((stats n).free + (stats n).active + (stats n).cached_idle ≡ 3)
unfolding create
run-create-Inv_example =
    run-create-Inv 3 2 (some prefix_hash) small
      (allocate_call ∷ acquire_call (4 ∷ 5 ∷ []) ∷ release_call first ∷ []) refl

acquire-Settles_example :
    SettlesTable small (acquire (7 ∷ 8 ∷ 9 ∷ []) small).0 (acquire (7 ∷ 8 ∷ 9 ∷ []) small).1
acquire-Settles_example = acquire-Settles (7 ∷ 8 ∷ 9 ∷ []) small small-Inv

abbrev three_tokens : BlockTable
three_tokens = record { blocks = first ∷ second ∷ []; token_count = 3 }

abbrev three_held : BlockManager
three_held = (acquire (7 ∷ 8 ∷ 9 ∷ []) small).1

share_twice : (share three_tokens three_held).0 ≡ ok three_tokens
unfolding code
share_twice = refl

share-Settles_example :
    Shares three_held three_tokens
      (share three_tokens three_held).0
      (share three_tokens three_held).1
share-Settles_example = share-Settles three_tokens three_held

allocate-Serves_example : Serves small (some (0, 1 ∷ 2 ∷ [], []))
allocate-Serves_example =
    allocate-Serves small (0 ∷ 1 ∷ 2 ∷ []) [] (fresh-Queues 3 2 prefix_hash (omega arith))

-- One block in use, and no other call yet.
abbrev used : BlockManager
used = (allocate small).1

used-Queues : Queues used (1 ∷ 2 ∷ []) []
unfolding code
used-Queues =
    ((allocate-Serves small (0 ∷ 1 ∷ 2 ∷ []) [] (fresh-Queues 3 2 prefix_hash (omega arith))).1
      (omega arith)).1

release-stale_example :
    let n = (allocate (release first used).1).1 in
    (retain first n ≡ (err invalid_argument, n))
    × (release first n ≡ (err invalid_argument, n))
    × (ref_count first n ≡ (err invalid_argument, n))
    × ((p : Tokens) → publish first p n ≡ (err invalid_argument, n))
unfolding code
release-stale_example =
    release-stale first used (allocate (release first used).1).1 refl refl refl (allocates here)

-- Two tokens are one full block, which is published.
abbrev filled : BlockManager
filled = (acquire (7 ∷ 8 ∷ []) small).1

filled-Inv : Inv filled
filled-Inv = Reach-Inv small-Inv (acquire-Reach (7 ∷ 8 ∷ []) small here)

lookup_hit_example :
    ((filled.slots 0).prefix ≡ 7 ∷ 8 ∷ [])
    × ((filled.slots 0).cached ≡ true)
    × (◌≡◌ {A = ℕ} 1 (filled.slots 0).generation)
    × ((lookup (7 ∷ 8 ∷ []) filled).1 ≡ add_ref 0 filled)
unfolding code
lookup_hit_example = lookup_hit (7 ∷ 8 ∷ []) filled first filled-Inv refl

stats_lem_example :
    ((stats used).free ≡ 2)
    × ((stats used).cached_idle ≡ 0)
    × ((stats used).free + (stats used).active + (stats used).cached_idle ≡ 3)
unfolding code
stats_lem_example = stats_lem used (1 ∷ 2 ∷ []) [] used-Queues
