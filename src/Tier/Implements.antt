-- ===== src/Tier/Implements.antt =====
-- The tiers of the program keep the laws of the interface. `m` has the references of the other
-- holders of pages.
use kvflux.Base.{◌≡◌, List, ◌∷◌, ◌++◌, ok, err, Error, length, Distinct}
use kvflux.BlockManager.{BlockManager}
use kvflux.Tier.{TierLocation}
use kvflux.Tier.Objects.{
  TierObject, slot_tier, gpu_tier, kind_of, capacity_of, allocated_of, available_of, used_bytes_of,
  available_bytes_of, allocate_in, release_in,
}
use kvflux.Tier.Interface.{TierOps, slots_of}
use kvflux.Tier.Slots.{
  SlotHolds, slot-to_front, slot-to_middle, slot-allocate_ok, slot-allocate_err, slot-release_ok,
}
use kvflux.Tier.Pages.{
  PageHolds, page-to_front, page-to_middle, page-allocate_ok, page-allocate_err, page-release_ok,
}

module _ (m : BlockManager) where
  -- The locations in use at a tier.
  abbrev pub InUse : TierObject → List TierLocation → Type 0
  InUse (slot_tier t) ls = SlotHolds t ls
  InUse (gpu_tier t) ls = PageHolds m t ls

  pub InUse-to_front :
      (t : TierObject) (xs : List TierLocation) (l : TierLocation) (ys : List TierLocation)
      → InUse t (xs ++ l ∷ ys)
      → InUse t (l ∷ xs ++ ys)
  InUse-to_front (slot_tier t) = slot-to_front t
  InUse-to_front (gpu_tier t) = page-to_front m t

  pub InUse-to_middle :
      (t : TierObject) (xs : List TierLocation) (l : TierLocation) (ys : List TierLocation)
      → InUse t (l ∷ xs ++ ys)
      → InUse t (xs ++ l ∷ ys)
  InUse-to_middle (slot_tier t) = slot-to_middle t
  InUse-to_middle (gpu_tier t) = page-to_middle m t

  pub InUse-counted :
      (t : TierObject) (ls : List TierLocation) → InUse t ls → allocated_of t ≡ length ls
  unfolding allocated_of
  InUse-counted (slot_tier t) ls h = h.counted
  InUse-counted (gpu_tier t) ls h = h.counted

  pub InUse-apart : (t : TierObject) (ls : List TierLocation) → InUse t ls → Distinct (slots_of ls)
  InUse-apart (slot_tier t) ls h = h.apart
  InUse-apart (gpu_tier t) ls h = h.apart

  -- A location that a tier hands out is in use beside those that were.
  pub allocate_in-ok :
      (t : TierObject) (ls : List TierLocation) (l : TierLocation)
      → InUse t ls
      → (allocate_in t).0 ≡ ok l
      → InUse (allocate_in t).1 (l ∷ ls)
  unfolding allocate_in
  allocate_in-ok (slot_tier t) = slot-allocate_ok t
  allocate_in-ok (gpu_tier t) = page-allocate_ok m t

  pub allocate_in-err :
      (t : TierObject) (ls : List TierLocation) (e : Error)
      → InUse t ls
      → (allocate_in t).0 ≡ err e
      → InUse (allocate_in t).1 ls
  unfolding allocate_in
  allocate_in-err (slot_tier t) = slot-allocate_err t
  allocate_in-err (gpu_tier t) = page-allocate_err m t

  -- A location in use can be given back, to a tier of either kind; the others stay in use.
  pub release_in-ok :
      (t : TierObject) (l : TierLocation) (ls : List TierLocation)
      → InUse t (l ∷ ls)
      → ((release_in l t).0 ≡ ok tt) × InUse (release_in l t).1 ls
  unfolding release_in
  release_in-ok (slot_tier t) = slot-release_ok t
  release_in-ok (gpu_tier t) = page-release_ok m t

  abbrev pub tier_ops : TierOps
  tier_ops = record {
    Object = TierObject;
    kind = kind_of;
    capacity = capacity_of;
    available = available_of;
    allocated_chunks = allocated_of;
    used_bytes = used_bytes_of;
    available_bytes = available_bytes_of;
    allocate = allocate_in;
    release = release_in;
    Holds = InUse;
    to_front = InUse-to_front;
    to_middle = InUse-to_middle;
    counted = InUse-counted;
    apart = InUse-apart;
    allocate_ok = allocate_in-ok;
    allocate_err = allocate_in-err;
    release_ok = release_in-ok;
  }
