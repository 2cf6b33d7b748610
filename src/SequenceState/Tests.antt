-- ===== src/SequenceState/Tests.antt =====
-- Requests in a pool of four pages of two tokens, and the theorems at them.
use kvflux.Base.{
  range, ℕ, ◌/◌, ◌%◌, ◌≡◌, ◌<◌, refl, some, [], ok, err, arith, get_elem?, logic_error,
  capacity_error,
}
use kvflux.IndexLru
use kvflux.BlockManager.{
  BlockManager, BlockHandle, fresh, allocate, retain, release, ref_count, is_published, is_current,
}
use kvflux.BlockManager.Prefixes.{prefix_hash}
use kvflux.BlockManager.Invariant.{Inv}
use kvflux.BlockManager.Init.{fresh-Queues, fresh-Indexed}
use kvflux.PhysicalBlockPool.{id}
use kvflux.BlockTable.{
  append_new, append_existing, physical_id, handle, block_refs, pop_back, replace_last_owned, clear,
}
use kvflux.SequenceState.{
  SequenceState, Copier, create, shrink, grow, append_tokens, token_location, append_token,
  share_entries, fork_shared, append_token_with_copy, append_cached_full_block,
  last_block_num_tokens,
}
use kvflux.SequenceState.Growth.{IsSequence, AppendSettles, append_tokens-Settles}
use kvflux.SequenceState.Locations.{token_location_lem, token_location-injective}
use kvflux.SequenceState.Forks.{ForkSettles, fork_shared-Settles}
use kvflux.SequenceState.Copies.{
  PlaceSettles, CopySettles, append_token_with_copy-Settles, append_token_with_copy-Copied,
}

-- The definitions that the runs compute with.
code : Unit {0}
unfolding IndexLru.init fresh allocate retain release ref_count is_published is_current id
    append_new append_existing physical_id handle block_refs pop_back replace_last_owned clear
    create shrink grow append_tokens token_location append_token share_entries fork_shared
    append_token_with_copy append_cached_full_block last_block_num_tokens
code = tt

abbrev pages : BlockManager
pages = fresh 4 2 prefix_hash

pages-Inv : Inv pages
pages-Inv = (
  range 0 4,
  [],
  fresh-Queues 4 2 prefix_hash (omega arith),
  fresh-Indexed 4 2 prefix_hash (omega arith),
)

-- Nothing yet, three tokens, and a fork of them.
abbrev none_yet : SequenceState
none_yet = create 1 pages

none_yet-IsSequence : IsSequence pages none_yet
unfolding code
none_yet-IsSequence = record {
  pool = pages-Inv;
  owned = record { counts = λ i. refl; good = tt };
  positive = omega arith;
  sized = refl;
}

abbrev three : SequenceState
three = (append_tokens 3 none_yet).1

three-IsSequence : IsSequence pages three
unfolding code
three-IsSequence = (append_tokens-Settles pages 3 none_yet none_yet-IsSequence).valid

abbrev forked : SequenceState
unfolding code
forked = elim (fork_shared 2 three).0 [ ok f ↦ f | err e ↦ three ]

forked-IsSequence : IsSequence three.table.pool forked
unfolding code
forked-IsSequence = (fork_shared-Settles pages 2 three three-IsSequence).valid

abbrev copies : Copier
copies source destination = ok tt

shared_tail_needs_copy : (append_tokens 1 forked).0 ≡ err logic_error
unfolding code
shared_tail_needs_copy = refl

copied_tail :
    (append_token_with_copy (some copies) forked).0
    ≡ ok (record { physical_block = 2; offset_in_block = 1 })
unfolding code
copied_tail = refl

too_many_tokens : (append_tokens 9 none_yet).0 ≡ err capacity_error
unfolding code
too_many_tokens = refl

append_tokens-Settles_example :
    AppendSettles pages 3 none_yet (append_tokens 3 none_yet).0 (append_tokens 3 none_yet).1
append_tokens-Settles_example = append_tokens-Settles pages 3 none_yet none_yet-IsSequence

token_location_example :
    (h : BlockHandle) × (get_elem? three.table.blocks (2 / three.block_size) ≡ some h)
    × (token_location 2 three
        ≡ ok (record { physical_block = h.id; offset_in_block = 2 % three.block_size }))
    × (2 % three.block_size < three.block_size)
unfolding code
token_location_example = token_location_lem pages three 2 three-IsSequence (omega arith)

token_location-injective_example : ◌≡◌ {A = ℕ} 2 2
unfolding code
token_location-injective_example =
    token_location-injective pages three 2 2 three-IsSequence (refl, (refl, tt)) (omega arith)
      (omega arith) refl

fork_shared-Settles_example : ForkSettles three (fork_shared 2 three).0 (fork_shared 2 three).1
fork_shared-Settles_example = fork_shared-Settles pages 2 three three-IsSequence

append_token_with_copy-Settles_example :
    PlaceSettles three.table.pool forked
      (append_token_with_copy (some copies) forked).0
      (append_token_with_copy (some copies) forked).1
append_token_with_copy-Settles_example =
    append_token_with_copy-Settles three.table.pool (some copies) forked forked-IsSequence

append_token_with_copy-Copied_example :
    CopySettles three.table.pool forked
      (append_token_with_copy (some copies) forked).0
      (append_token_with_copy (some copies) forked).1
unfolding code
append_token_with_copy-Copied_example =
    append_token_with_copy-Copied three.table.pool copies forked 2 forked-IsSequence (omega arith)
      refl refl (omega arith)
