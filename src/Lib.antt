-- ===== src/Lib.antt =====
-- KVFlux: the bookkeeping of a KV cache for LLM inference. The library says which blocks of memory
-- are free, held, shared or cached, which tokens of which request stand where, and at which byte.
--
-- Parts, with the files here that model them.
-- * IndexLru (include/kvflux/detail/index_lru.h): IndexLru.antt. The doubly linked order of slot
--   indices, its nodes and operations `touch`, `erase`, `oldest`, `next`; IndexLru/Links and
--   IndexLru/Order relate it to a plain list.
-- * BlockManager (include/kvflux/block_manager.h, src/block_manager.cpp): BlockManager.antt has the
--   slots and `allocate`, `retain`, `release`, `ref_count`; BlockManager/Prefixes has `publish`,
--   `lookup`, `prefix_hash`; BlockManager/Tables has `acquire`, `share`, `release` of a table,
--   `block_at`, `stats`. The other children prove: Invariant, Init, Allocate, References,
--   Publication, Counts (the well-formed manager), Reach and Calls (histories of calls), Effects,
--   Ownership and Sharing (reference counts), Stale (old handles), Sizes (numbers of blocks).
-- * Layouts (include/kvflux/kv_layout.h, src/kv_layout.cpp, src/v2/paged_kv_layout.cpp): Layout.antt
--   and Layout/KvBlock, Layout/PagedKv.
-- * PhysicalBlockPool (src/physical_block_pool.cpp): PhysicalBlockPool.antt. It passes calls on to a
--   block manager.
-- * BlockTable (src/v2/block_table.cpp): BlockTable.antt and BlockTable/Ownership. The pool that a
--   table points to is part of its state here.
-- * SequenceState (src/v2/sequence_state.cpp): SequenceState.antt; Growth has `append_tokens`,
--   Locations `token_location`, Forks `fork_shared`, Copies `append_token` and
--   `append_token_with_copy`. A request uses its table, the table its pool, the pool the manager.
-- * SlotMapping (src/v2/slot_mapping.cpp): SlotMapping.antt, SlotMapping/Exact and
--   SlotMapping/Complete. It asks requests for the places of tokens.
-- * BatchBlockTable and the table for reading (src/v2/batch_block_table.cpp,
--   src/v2/paged_kv_read_table.cpp): BatchBlockTable.antt; Rows and Lookup are about the loops, Batch
--   about the whole table.
-- * PrefixCache (src/v2/prefix_cache.cpp): PrefixCache.antt; PrefixCache/Attach is about the loop and
--   PrefixCache/Settles about the whole call. It looks pages up in the pool and appends them to a
--   request.
-- * Tier (include/kvflux/v3/tier.h, src/v3/tier.cpp): Tier.antt; Tier/FreeList and Tier/Histories are
--   about `SlotTier`. Tier/Objects has the virtual calls of the class `Tier`, Tier/Interface the
--   operations and laws that the users of a tier rely on, Tier/Slots and Tier/Pages are about the two
--   classes under that interface, and Tier/Implements fills it.
-- * CacheDirectory (include/kvflux/v3/cache_directory.h, src/v3/cache_directory.cpp):
--   CacheDirectory.antt has the records and CacheDirectory/Operations the operations, over any three
--   tiers of the interface; Entries, Invariant, Places, Removal, Counters, Destruction and
--   Histories
--   are about them.
-- * ChunkFileStore (include/kvflux/v3/chunk_file_store.h, src/v3/chunk_file_store.cpp):
--   ChunkFileStore.antt, with Bytes (little-endian numbers and `read_all`), Header (the header of a
--   file, put and read) and Files (`write`, `read`, `exists`, `erase`); Parsing, Reading and Accepting
--   are about the header, Quota about the count of bytes, Payloads and Failures about the operations.
-- * Host buffers (include/kvflux/v3/host_buffers.h, src/v3/host_buffers.cpp,
--   src/v3/pinned_chunk_pool.cpp): HostBuffers.antt.
-- * NvmeTransfer (include/kvflux/v3/nvme_transfer.h, src/v3/nvme_transfer.cpp): NvmeTransfer.antt;
--   NvmeTransfer/Steps, Offload, Onload and RoundTrip are about it. It uses the directory, whose
--   effects on the replicas of one chunk are in CacheDirectory/Effects, the file store and the buffers.
-- * GpuMemoryPool (include/kvflux/gpu_memory_pool.h, src/gpu_memory_pool.cpp): GpuMemoryPool.antt;
--   GpuMemoryPool/Memory is about the bytes at addresses, GpuMemoryPool/Contents about what the blocks
--   hold. It keeps its blocks with a block manager.
--
-- How code and model correspond. A method that changes state and may throw is a function from the
-- state to a result, or one of the exception classes, and the state that is left, which is kept
-- also when it throws. A vector of slots is its size and a function of the index; the hash map of
-- the index is a function of the hash; `SIZE_MAX` used as an index that is absent is `none`. Tokens
-- stand for their 32-bit patterns. Sums and products of `size_t` that the code checks are checked
-- here; `wrap` writes out the arithmetic modulo 2^64. A map with keys that are compared, and the
-- files of a directory, are association lists; a time that the code reads from the clock is an
-- argument, and so are the system call that is refused and the answers of CUDA; device memory is a
-- function from addresses to bytes, and a copy that CUDA reports as done has copied the bytes in
-- order. Hash functions and the callback that copies a page are parameters, and no property of them
-- is assumed.
--
-- Loops. Loops over lists and slots are structural. `acquire` takes at least one token in each round,
-- and its fuel is the number of tokens, which is shown to be enough; `grow` and `shrink` take the
-- number of rounds that their loop has. `attach_from` has the number of tokens as its fuel and
-- `unwind` the number of tokens in the request, which are enough since each round takes a block.
--
-- Not modelled: reads and opens of files that the system refuses; failures of memory allocation,
-- and so the roll-back after a `push_back` that throws; moves of tables and requests; threads,
-- since these classes are for one thread at a time; CUDA kernels, streams and asynchronous copies,
-- and floating-point arithmetic.
pub mod Base
pub mod IndexLru
pub mod BlockManager
pub mod Layout
pub mod PhysicalBlockPool
pub mod BlockTable
pub mod SequenceState
pub mod SlotMapping
pub mod BatchBlockTable
pub mod PrefixCache
pub mod Tier
pub mod CacheDirectory
pub mod ChunkFileStore
pub mod HostBuffers
pub mod NvmeTransfer
pub mod GpuMemoryPool
