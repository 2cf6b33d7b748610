-- ===== src/SlotMapping/Tests.antt =====
-- A batch of two tokens of one request and a batch of two requests, and the theorems at them.
use kvflux.Base.{
  if◌then◌else◌, ◌==◌, ◌||◌, zero, suc, ◌+◌, wrap, range, ℕ, ◌≡◌, refl, some, List, [], ◌∷◌, ok,
  arith,
}
use kvflux.IndexLru
use kvflux.BlockManager.Effects.{one_if}
use kvflux.BlockManager.{
  Slot, BlockManager, fresh, allocate, retain, release, ref_count, is_current,
}
use kvflux.BlockManager.Prefixes.{prefix_hash}
use kvflux.BlockManager.Init.{fresh-Queues, fresh-Indexed}
use kvflux.PhysicalBlockPool.{id}
use kvflux.BlockTable.{append_new, physical_id, block_refs, pop_back, with_pool}
use kvflux.SequenceState.{SequenceState, create, shrink, grow, append_tokens, token_location}
use kvflux.SequenceState.Growth.{IsSequence, append_tokens-Settles}
use kvflux.SlotMapping.{Request, TokenWrite, slot_of, map_write, map_writes, build_slot_mapping}
use kvflux.SlotMapping.Exact.{Mapped, build_slot_mapping-Mapped}
use kvflux.SlotMapping.Complete.{AllReady, build_slot_mapping-ok}

code : Unit {0}
unfolding wrap IndexLru.init fresh allocate retain release ref_count is_current id append_new
    physical_id block_refs pop_back create shrink grow append_tokens token_location slot_of
    map_write map_writes build_slot_mapping
code = tt

abbrev pages : BlockManager
pages = fresh 4 2 prefix_hash

abbrev none_yet : SequenceState
none_yet = create 1 pages

none_yet-IsSequence : IsSequence pages none_yet
unfolding code
none_yet-IsSequence = record {
  pool = (
    range 0 4,
    [],
    fresh-Queues 4 2 prefix_hash (omega arith),
    fresh-Indexed 4 2 prefix_hash (omega arith),
  );
  owned = record { counts = λ i. refl; good = tt };
  positive = omega arith;
  sized = refl;
}

abbrev three : SequenceState
three = (append_tokens 3 none_yet).1

three-IsSequence : IsSequence pages three
unfolding code
three-IsSequence = (append_tokens-Settles pages 3 none_yet none_yet-IsSequence).valid

abbrev request : Request
request = record { pool_address = 64; state = three }

abbrev write : ℕ → TokenWrite
write position = record { sequence = some request; token_position = position }

two_slots : build_slot_mapping (write 2 ∷ write 1 ∷ []) ≡ ok (2 ∷ 1 ∷ [])
unfolding code
two_slots = refl

build_slot_mapping-Mapped_example :
    (first : Request) × (some request ≡ some first)
    × Mapped first (write 2 ∷ write 1 ∷ []) (2 ∷ 1 ∷ [])
unfolding code
build_slot_mapping-Mapped_example =
    build_slot_mapping-Mapped (write 2) (write 1 ∷ []) (2 ∷ 1 ∷ [])
      (λ r e. ground arith, (λ r e. ground arith, tt)) two_slots

-- A second request takes its pages from the pool that the first one left.
abbrev second : SequenceState
second = (append_tokens 3 (create 2 three.table.pool)).1

second-IsSequence : IsSequence three.table.pool second
unfolding code
second-IsSequence =
    let start : IsSequence three.table.pool (create 2 three.table.pool) = record {
      pool = three-IsSequence.pool;
      owned = record { counts = λ i. omega arith; good = tt };
      positive = omega arith;
      sized = refl;
    } in
    (append_tokens-Settles three.table.pool 3 (create 2 three.table.pool) start).valid

-- The first request over the pool of now, and this pool without the references of the first request.
abbrev both : BlockManager
both = second.table.pool

abbrev first : SequenceState
first = record three { table = with_pool both three.table }

abbrev without_first : BlockManager
without_first = record both {
  slots = λ i. if i == 0 || i == 1 then record (both.slots i) { refs = 0 } else both.slots i;
}

without_two :
    (slots : ℕ → Slot) (i : ℕ)
    → (slots 0).refs ≡ 1
    → (slots 1).refs ≡ 1
    → (slots i).refs
      ≡ (if i == 0 || i == 1 then record (slots i) { refs = 0 } else slots i).refs
        + (one_if (i == 0) + (one_if (i == 1) + 0))
without_two slots zero p q = p
without_two slots (suc zero) p q = q
without_two slots (suc (suc i)) p q = ground arith

first-IsSequence : IsSequence without_first first
unfolding code
first-IsSequence = record {
  pool = second-IsSequence.pool;
  owned = record { counts = λ i. without_two both.slots i refl refl; good = (refl, (refl, tt)) };
  positive = omega arith;
  sized = refl;
}

abbrev first_request : Request
first_request = record { pool_address = 64; state = first }

abbrev second_request : Request
second_request = record { pool_address = 64; state = second }

abbrev mixed : List TokenWrite
mixed =
    record { sequence = some first_request; token_position = 2 }
    ∷ record { sequence = some second_request; token_position = 0 }
    ∷ []

mixed-AllReady : AllReady first_request mixed
unfolding code
mixed-AllReady = (
  record {
    request = first_request;
    given = refl;
    one_pool = refl;
    others = without_first;
    valid = first-IsSequence;
    reserved = omega arith;
    fits = omega arith;
  },
  (
    record {
      request = second_request;
      given = refl;
      one_pool = refl;
      others = three.table.pool;
      valid = second-IsSequence;
      reserved = omega arith;
      fits = omega arith;
    },
    tt,
  ),
)

mixed_slots : build_slot_mapping mixed ≡ ok (2 ∷ 4 ∷ [])
unfolding code
mixed_slots = refl

build_slot_mapping-ok_example : (slots : List ℕ) × (build_slot_mapping mixed ≡ ok slots)
build_slot_mapping-ok_example =
    build_slot_mapping-ok first_request
      (record { sequence = some first_request; token_position = 2 })
      (record { sequence = some second_request; token_position = 0 } ∷ []) refl mixed-AllReady
