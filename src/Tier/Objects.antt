-- ===== src/Tier/Objects.antt =====
-- The class `Tier` of include/kvflux/v3/tier.h: an object of one of its subclasses, and the calls
-- that go to the subclass. `CpuTier` and `NvmeTier` are a `SlotTier` of a fixed kind.
use kvflux.Base.{ℕ, ◌*◌, wrap, Result}
use kvflux.PhysicalBlockPool.{available}
use kvflux.Tier.{
  StorageTier, gpu, TierLocation, SlotTier, GpuTier, available_slots, used_bytes, available_bytes,
  allocate_slot, release_slot, allocate_page, release_page,
}

pub data TierObject : Type 0 where
  slot_tier : SlotTier → TierObject
  gpu_tier : GpuTier → TierObject

unfoldable pub kind_of : TierObject → StorageTier
kind_of (slot_tier t) = t.kind
kind_of (gpu_tier t) = gpu

unfoldable pub capacity_of : TierObject → ℕ
capacity_of (slot_tier t) = t.capacity
capacity_of (gpu_tier t) = t.pool.capacity

unfoldable pub allocated_of : TierObject → ℕ
allocated_of (slot_tier t) = t.allocated
allocated_of (gpu_tier t) = t.allocated

unfoldable pub available_of : TierObject → ℕ
unfolding available_slots available
available_of (slot_tier t) = available_slots t
available_of (gpu_tier t) = available t.pool

unfoldable pub used_bytes_of : TierObject → ℕ
unfolding used_bytes
used_bytes_of (slot_tier t) = used_bytes t
used_bytes_of (gpu_tier t) = wrap (t.allocated * t.chunk_bytes)

unfoldable pub available_bytes_of : TierObject → ℕ
unfolding available_bytes available
available_bytes_of (slot_tier t) = available_bytes t
available_bytes_of (gpu_tier t) = wrap (available t.pool * t.chunk_bytes)

unfoldable pub allocate_in : TierObject → Result TierLocation × TierObject
unfolding allocate_slot allocate_page
allocate_in (slot_tier t) = ((allocate_slot t).0, slot_tier (allocate_slot t).1)
allocate_in (gpu_tier t) = ((allocate_page t).0, gpu_tier (allocate_page t).1)

unfoldable pub release_in : TierLocation → TierObject → Result (Unit {0}) × TierObject
unfolding release_slot release_page
release_in l (slot_tier t) = ((release_slot l t).0, slot_tier (release_slot l t).1)
release_in l (gpu_tier t) = ((release_page l t).0, gpu_tier (release_page l t).1)
