-- ===== src/BatchBlockTable/Tests.antt =====
-- A batch of two requests, of three tokens and of none, over one pool.
use kvflux.Base.{
  wrap, range, ◌≡◌, refl, Option, some, List, [], ◌∷◌, get_elem?, ok, err, invalid_argument, arith,
}
use kvflux.IndexLru
use kvflux.BlockManager.{BlockManager, fresh, allocate, retain, release, ref_count, is_current}
use kvflux.BlockManager.Prefixes.{prefix_hash}
use kvflux.BlockManager.Init.{fresh-Queues, fresh-Indexed}
use kvflux.PhysicalBlockPool.{id}
use kvflux.BlockTable.{append_new, physical_id, block_refs, pop_back}
use kvflux.SequenceState.{SequenceState, create, shrink, grow, append_tokens, token_location}
use kvflux.SequenceState.Growth.{IsSequence, append_tokens-Settles}
use kvflux.SlotMapping.{Request}
use kvflux.BatchBlockTable.{
  BatchBlockTable, measure, fill_row, fill_rows, assemble, build_batch_block_table, lookup_block,
  num_sequences, read_from, build_read_block_table,
}
use kvflux.BatchBlockTable.Rows.{build_read_block_table_lem}
use kvflux.BatchBlockTable.Batch.{Member, own_block, lookup_block-build_batch_block_table}

code : Unit {0}
unfolding wrap IndexLru.init fresh allocate retain release ref_count is_current id append_new
    physical_id block_refs pop_back create shrink grow append_tokens token_location measure fill_row
    fill_rows assemble build_batch_block_table lookup_block num_sequences read_from
    build_read_block_table
code = tt

abbrev pages : BlockManager
pages = fresh 4 2 prefix_hash

abbrev none_yet : SequenceState
none_yet = create 1 pages

none_yet-IsSequence : IsSequence pages none_yet
unfolding code
none_yet-IsSequence = record {
  pool = (
    range 0 4,
    [],
    fresh-Queues 4 2 prefix_hash (omega arith),
    fresh-Indexed 4 2 prefix_hash (omega arith),
  );
  owned = record { counts = λ i. refl; good = tt };
  positive = omega arith;
  sized = refl;
}

abbrev three : SequenceState
three = (append_tokens 3 none_yet).1

three-IsSequence : IsSequence pages three
unfolding code
three-IsSequence = (append_tokens-Settles pages 3 none_yet none_yet-IsSequence).valid

abbrev request : SequenceState → Request
request s = record { pool_address = 64; state = s }

abbrev batch : List (Option Request)
batch = some (request three) ∷ some (request none_yet) ∷ []

three-Member : Member (request three) (some (request three))
unfolding code
three-Member = record {
  request = request three;
  given = refl;
  one_pool = refl;
  others = pages;
  valid = three-IsSequence;
  sized = omega arith;
}

none_yet-Member : Member (request three) (some (request none_yet))
unfolding code
none_yet-Member = record {
  request = request none_yet;
  given = refl;
  one_pool = refl;
  others = pages;
  valid = none_yet-IsSequence;
  sized = omega arith;
}

two_rows :
    build_batch_block_table batch
    ≡ ok (record {
      max_blocks_per_sequence = 2;
      block_table = 0 ∷ 1 ∷ 18446744073709551615 ∷ 18446744073709551615 ∷ [];
      sequence_lengths = 3 ∷ 0 ∷ [];
    })
unfolding code
two_rows = refl

other_pool :
    build_batch_block_table
      (some (request three) ∷ some (record { pool_address = 65; state = three }) ∷ [])
    ≡ err invalid_argument
unfolding code
other_pool = refl

lookup_block-build_batch_block_table_example :
    (t : BatchBlockTable) × (build_batch_block_table batch ≡ ok t)
    × (get_elem? t.sequence_lengths 1 ≡ some 0)
    × (lookup_block 1 0 t ≡ own_block 0 none_yet)
unfolding code
lookup_block-build_batch_block_table_example =
    lookup_block-build_batch_block_table (request three) (some (request none_yet) ∷ []) 1 0
      (request none_yet) (three-Member, (none_yet-Member, tt)) (omega arith) refl

build_read_block_table_lem_example : build_read_block_table three ≡ ok (0 ∷ 1 ∷ [])
unfolding code
build_read_block_table_lem_example = build_read_block_table_lem pages three three-IsSequence
