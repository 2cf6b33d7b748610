-- ===== src/GpuMemoryPool/Tests.antt =====
-- A pool of two blocks of four bytes.
use kvflux.Base.{
  ◌≡◌, refl, ℕ, List, arith, some, none, [], ◌∷◌, true, false, ok, err, wrap, invalid_argument,
  overflow_error,
}
use kvflux.IndexLru
use kvflux.BlockManager.{BlockHandle, fresh, create, allocate, ref_count, is_published, is_current}
use kvflux.BlockManager.Prefixes.{publish, prefix_hash}
use kvflux.GpuMemoryPool.{
  GpuMemoryPool, create_pool, checked_pool_bytes, allocate_block, address_of, address_of_id, copied,
  write_block, read_block, publish_block,
}
use kvflux.GpuMemoryPool.Contents.{Writable, Writes, read_block-write_block}

code : Unit {0}
unfolding IndexLru.init IndexLru.touch IndexLru.erase fresh create allocate ref_count is_published
    is_current publish prefix_hash wrap create_pool checked_pool_bytes allocate_block address_of
    address_of_id write_block read_block publish_block
code = tt

abbrev pool : GpuMemoryPool
pool = record {
  manager = fresh 2 1 prefix_hash;
  block_bytes = 4;
  allocated_bytes = 8;
  initialized = λ i. false;
  in_flight = λ i. false;
  base = 4096;
  memory = λ i. 0;
}

constructed :
    create_pool 2 4 1
      (some prefix_hash)
      (some 0)
      (record { count = some 1; allocation = some (4096, λ i. 0) })
    ≡ ok pool
unfolding code
constructed = refl

too_large :
    create_pool 9223372036854775808 4 1
      (some prefix_hash)
      (some 0)
      (record { count = some 1; allocation = none })
    ≡ err overflow_error
unfolding code
too_large = refl

abbrev one_held : GpuMemoryPool
one_held = (allocate_block pool).1

abbrev block : BlockHandle
block = record { id = 0; generation = 1 }

unwritten : read_block false true block 4 one_held ≡ err invalid_argument
unfolding code
unwritten = refl

block-Writable : Writable block one_held
unfolding code
block-Writable = record {
  held = refl;
  unpublished = refl;
  inside = refl;
  at_rest = refl;
  fits = omega arith;
}

abbrev host : List ℕ
host = 1 ∷ 2 ∷ 3 ∷ 4 ∷ []

read_block-write_block_example :
    let r = write_block copied block (some host) 4 one_held in
    Writes copied block host one_held r.0 r.1
unfolding code
read_block-write_block_example =
    read_block-write_block copied block host one_held block-Writable (omega arith)
