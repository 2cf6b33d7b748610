-- ===== src/Tier.antt =====
-- include/kvflux/v3/tier.h and src/v3/tier.cpp: the slots of one storage tier. `SlotTier` is a free
-- list with generations; `CpuTier` and `NvmeTier` are that with a fixed kind, and `GpuTier` hands
-- on to a pool of pages.
pub mod FreeList
pub mod Histories
pub mod Objects
pub mod Interface
pub mod Slots
pub mod Pages
pub mod Implements
mod Tests
use kvflux.Base.{
  ℕ, ◌+◌, ◌-◌, ◌*◌, ◌≡◌, Bool, true, false, not, ◌&&◌, ◌||◌, Option, none, some, arith, ltb, leb,
  ◌==◌, if◌then◌else◌, size_max, update, wrap, Result, ok, err, Error, invalid_argument,
  overflow_error, capacity_error,
}
use kvflux.BlockManager.{BlockManager, BlockHandle, allocate, release}
use kvflux.PhysicalBlockPool.{id, free, available}

pub data StorageTier : Type 0 where
  gpu cpu nvme : StorageTier

pub record TierLocation : Type 0 where
  pub slot : ℕ
  pub generation : ℕ

pub record Slot : Type 0 where
  pub generation : ℕ
  pub free : Bool
  pub next_free : Option ℕ

pub record SlotTier : Type 0 where
  pub kind : StorageTier
  pub chunk_bytes : ℕ
  pub capacity : ℕ
  pub slots : ℕ → Slot
  pub free_head : Option ℕ
  pub allocated : ℕ

abbrev pub TierM : Type 0 → Type 0
TierM A = SlotTier → Result A × SlotTier

abbrev pub set_slot : ℕ → Slot → SlotTier → SlotTier
set_slot i s t = record t { slots = update t.slots i s }

-- The constructor, without its checks and with them.
abbrev pub fresh_tier : StorageTier → ℕ → ℕ → SlotTier
fresh_tier kind chunk_slots chunk_bytes = record {
  kind = kind;
  chunk_bytes = chunk_bytes;
  capacity = chunk_slots;
  slots = λ i. record {
    generation = 0;
    free = true;
    next_free = if ltb (i + 1) chunk_slots then some (i + 1) else none;
  };
  free_head = some 0;
  allocated = 0;
}

unfoldable pub create_tier : StorageTier → ℕ → ℕ → Result SlotTier
create_tier kind chunk_slots chunk_bytes =
    if chunk_slots == 0 || chunk_bytes == 0
    then err invalid_argument
    else ok (fresh_tier kind chunk_slots chunk_bytes)

unfoldable pub available_slots : SlotTier → ℕ
available_slots t = wrap (t.capacity + (size_max - t.allocated) + 1)

unfoldable pub used_bytes : SlotTier → ℕ
used_bytes t = wrap (t.allocated * t.chunk_bytes)

unfoldable pub available_bytes : SlotTier → ℕ
unfolding available_slots
available_bytes t = wrap (available_slots t * t.chunk_bytes)

-- The head leaves the free list; that is done before the generation is looked at.
abbrev pub unlink_head : ℕ → SlotTier → SlotTier
unlink_head i t =
    let s = t.slots i in
    record t {
      free_head = s.next_free;
      slots = update t.slots i (record s { next_free = none; free = false });
    }

abbrev pub allocate_at : ℕ → TierM TierLocation
allocate_at i t =
    let s = t.slots i in
    let u = unlink_head i t in
    if s.generation == size_max then (err overflow_error, u) else (
      ok (record { slot = i; generation = s.generation + 1 }),
      record u {
        slots =
            update u.slots i
              (record { generation = s.generation + 1; free = false; next_free = none });
        allocated = wrap (t.allocated + 1);
      },
    )

unfoldable pub allocate_slot : TierM TierLocation
allocate_slot t = elim t.free_head [ none ↦ (err capacity_error, t) | some i ↦ allocate_at i t ]

-- `--allocated_` is `allocated_ + (2^64 - 1)` modulo 2^64.
unfoldable pub release_slot : TierLocation → TierM (Unit {0})
release_slot l t =
    if leb t.capacity l.slot || not ((t.slots l.slot).generation == l.generation)
    then (err invalid_argument, t)
    else if (t.slots l.slot).free
    then (err invalid_argument, t)
    else (
      ok tt,
      record t {
        slots =
            update t.slots l.slot
              (record (t.slots l.slot) { free = true; next_free = t.free_head });
        free_head = some l.slot;
        allocated = wrap (t.allocated + size_max);
      },
    )

-- The pool that the tier has a reference to is part of its state.
pub record GpuTier : Type 0 where
  pub pool : BlockManager
  pub chunk_bytes : ℕ
  pub allocated : ℕ

unfoldable pub create_gpu : BlockManager → ℕ → Result GpuTier
create_gpu pool chunk_bytes =
    if chunk_bytes == 0
    then err invalid_argument
    else ok (record { pool = pool; chunk_bytes = chunk_bytes; allocated = 0 })

unfoldable pub allocate_page : GpuTier → Result TierLocation × GpuTier
allocate_page t = elim (allocate t.pool).0 [
  | err e ↦ (err e, record t { pool = (allocate t.pool).1 })
  | ok h ↦
      let counted = record t { pool = (allocate t.pool).1; allocated = wrap (t.allocated + 1) } in
      elim (id h (allocate t.pool).1).0 [
        | err e ↦ (err e, counted)
        | ok page ↦ (ok (record { slot = page; generation = h.generation }), counted)
      ]
]

unfoldable pub release_page : TierLocation → GpuTier → Result (Unit {0}) × GpuTier
release_page l t =
    let h : BlockHandle = record { id = l.slot; generation = l.generation } in
    elim (free h t.pool).0 [
      | err e ↦ (err e, record t { pool = (free h t.pool).1 })
      | ok _ ↦
          (ok tt, record t { pool = (free h t.pool).1; allocated = wrap (t.allocated + size_max) })
    ]
