-- ===== src/GpuMemoryPool.antt =====
-- include/kvflux/gpu_memory_pool.h and src/gpu_memory_pool.cpp: blocks of device memory under a block
-- manager. What the CUDA calls answer is an argument; the memory of the device is a function from
-- addresses to bytes, and a copy that CUDA reports as done has copied the bytes in order.
pub mod Memory
pub mod Contents
mod Tests
use kvflux.Base.{
  ℕ, zero, suc, ◌+◌, ◌*◌, ◌/◌, length, Bool, true, false, not, ◌||◌, Option, none, some, List, [],
  ◌∷◌, ltb, leb, ◌==◌, if◌then◌else◌, size_max, update, wrap, take, Result, ok, err,
  invalid_argument, out_of_range, overflow_error, logic_error, cuda_error,
}
use kvflux.BlockManager.{
  BlockManager, BlockHandle, Tokens, create, allocate, ref_count, is_published,
}
use kvflux.BlockManager.Prefixes.{publish}
use kvflux.BlockManager.Tables.{Stats, stats}

pub record GpuMemoryPool : Type 0 where
  pub manager : BlockManager
  pub block_bytes : ℕ
  pub allocated_bytes : ℕ
  pub initialized : ℕ → Bool
  pub in_flight : ℕ → Bool
  pub base : ℕ
  pub memory : ℕ → ℕ

abbrev pub PoolM : Type 0 → Type 0
PoolM A = GpuMemoryPool → Result A × GpuMemoryPool

unfoldable pub checked_pool_bytes : ℕ → ℕ → Result ℕ
checked_pool_bytes blocks bytes =
    if blocks == 0 || bytes == 0
    then err invalid_argument
    else if ltb (size_max / bytes) blocks
    then err overflow_error
    else ok (wrap (blocks * bytes))

-- What the device answers: how many devices there are, and the address that `cudaMalloc` gives with
-- what stands in the memory; `none` is an error. The second one also covers the guard before it.
pub record Device : Type 0 where
  pub count : Option ℕ
  pub allocation : Option (ℕ × (ℕ → ℕ))

-- The constructor; `none` is a negative device index.
unfoldable pub create_pool :
    ℕ → ℕ → ℕ → Option (Tokens → ℕ) → Option ℕ → Device → Result GpuMemoryPool
unfolding checked_pool_bytes
create_pool blocks bytes tokens hasher device d = elim (checked_pool_bytes blocks bytes) [
  | err e ↦ err e
  | ok size ↦ elim (create (size / bytes) tokens hasher) [
    | err e ↦ err e
    | ok m ↦ elim device [
      | none ↦ err invalid_argument
      | some i ↦ elim d.count [
        | none ↦ err cuda_error
        | some count ↦ if leb count i then err invalid_argument else elim d.allocation [
          | none ↦ err cuda_error
          | some a ↦ ok (record {
            manager = m;
            block_bytes = bytes;
            allocated_bytes = size;
            initialized = λ i. false;
            in_flight = λ i. false;
            base = a.0;
            memory = a.1;
          })
        ]
      ]
    ]
  ]
]

unfoldable pub remaining_blocks : GpuMemoryPool → ℕ
remaining_blocks p = (stats p.manager).free + (stats p.manager).cached_idle

unfoldable pub allocate_block : PoolM BlockHandle
allocate_block p = elim (allocate p.manager).0 [
  | err e ↦ (err e, record p { manager = (allocate p.manager).1 })
  | ok h ↦ (
    ok h,
    record p { manager = (allocate p.manager).1; initialized = update p.initialized h.id false },
  )
]

unfoldable pub address_of_id : ℕ → GpuMemoryPool → Result ℕ
address_of_id i p =
    if leb p.manager.capacity i then err out_of_range else ok (wrap (p.base + i * p.block_bytes))

unfoldable pub address_of : BlockHandle → GpuMemoryPool → Result ℕ
unfolding address_of_id
address_of h p = elim (ref_count h p.manager).0 [
  | err e ↦ err e
  | ok n ↦ if n == 0 then err invalid_argument else address_of_id h.id p
]

-- The bytes from an address on, put there and read back.
abbrev pub store_bytes : ℕ → List ℕ → (ℕ → ℕ) → ℕ → ℕ
store_bytes address [] memory = memory
store_bytes address (b ∷ bs) memory = update (store_bytes (suc address) bs memory) address b

abbrev pub load_bytes : ℕ → ℕ → (ℕ → ℕ) → List ℕ
load_bytes address zero memory = []
load_bytes address (suc n) memory = memory address ∷ load_bytes (suc address) n memory

-- The copy to the device: it is done, it failed and left these bytes, or the guard could not select
-- the device before.
pub data Copy : Type 0 where
  copied no_device : Copy
  failed : List ℕ → Copy

-- What follows the checks of `write_block`.
abbrev pub transfer : Copy → BlockHandle → ℕ → List ℕ → PoolM (Unit {0})
transfer no_device h destination bytes p = (err cuda_error, p)
transfer (failed left) h destination bytes p = (
  err cuda_error,
  record p {
    memory = store_bytes destination (take (length bytes) left) p.memory;
    initialized = update p.initialized h.id false;
  },
)
transfer copied h destination bytes p = (
  ok tt,
  record p {
    memory = store_bytes destination bytes p.memory;
    initialized = update (update p.initialized h.id false) h.id true;
  },
)

-- The block may be written: one reference and not published.
abbrev pub may_write : BlockHandle → GpuMemoryPool → Result Bool
may_write h p = elim (ref_count h p.manager).0 [
  | err e ↦ err e
  | ok n ↦
      if not (n == 1)
      then ok false
      else elim (is_published h p.manager).0 [ err e ↦ err e | ok b ↦ ok (not b) ]
]

-- `host` is the memory at the pointer, `none` a null pointer.
unfoldable pub write_block : Copy → BlockHandle → Option (List ℕ) → ℕ → PoolM (Unit {0})
unfolding address_of
write_block copy h host bytes p = elim (address_of h p) [
  | err e ↦ (err e, p)
  | ok destination ↦ if p.in_flight h.id then (err logic_error, p) else elim host [
    | none ↦ (err invalid_argument, p)
    | some source ↦
        if not (bytes == p.block_bytes) then (err invalid_argument, p) else elim (may_write h p) [
          | err e ↦ (err e, p)
          | ok false ↦ (err invalid_argument, p)
          | ok true ↦ transfer copy h destination (take bytes source) p
        ]
  ]
]

-- `null` says that the host pointer is null, `done` that the device can be selected and the copy
-- succeeds.
unfoldable pub read_block : Bool → Bool → BlockHandle → ℕ → GpuMemoryPool → Result (List ℕ)
unfolding address_of
read_block null done h bytes p = elim (address_of h p) [
  | err e ↦ err e
  | ok source ↦
      if p.in_flight h.id
      then err logic_error
      else if null || not (bytes == p.block_bytes)
      then err invalid_argument
      else if not (p.initialized h.id)
      then err invalid_argument
      else if not done
      then err cuda_error
      else ok (load_bytes source bytes p.memory)
]

unfoldable pub publish_block : BlockHandle → Tokens → PoolM (Unit {0})
unfolding address_of
publish_block h prefix p = elim (address_of h p) [
  | err e ↦ (err e, p)
  | ok source ↦
      if p.in_flight h.id
      then (err logic_error, p)
      else if not (p.initialized h.id)
      then (err invalid_argument, p)
      else ((publish h prefix p.manager).0, record p { manager = (publish h prefix p.manager).1 })
]
