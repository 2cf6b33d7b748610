-- ===== src/Tier/Tests.antt =====
-- A tier of three slots, and the theorems at it.
use kvflux.Base.{
  ℕ, ◌≡◌, refl, List, [], ◌∷◌, length, ok, err, arith, invalid_argument, none, true, size_max,
}
use kvflux.BlockManager.{BlockManager, fresh}
use kvflux.BlockManager.Prefixes.{prefix_hash}
use kvflux.Tier.Objects.{slot_tier, allocate_in, release_in}
use kvflux.Tier.Slots.{SlotHolds}
use kvflux.Tier.Implements.{InUse, allocate_in-ok, release_in-ok}
use kvflux.Tier.{
  cpu, TierLocation, SlotTier, fresh_tier, create_tier, allocate_slot, release_slot,
  available_slots,
}
use kvflux.Tier.FreeList.{
  IsTier, allocate_slot-Served, Lost, allocate_slot-Lost, Releases, is_live, release_slot-Releases,
}
use kvflux.Tier.Histories.{run, step, Call, allocate_call, release_call, run-create-IsTier}

code : Unit {0}
unfolding create_tier allocate_slot release_slot available_slots run step
code = tt

abbrev three : SlotTier
three = fresh_tier cpu 3 64

abbrev location : ℕ → ℕ → TierLocation
location slot generation = record { slot = slot; generation = generation }

abbrev calls : List Call
calls =
    allocate_call
    ∷ allocate_call
    ∷ release_call (location 0 1)
    ∷ release_call (location 0 1)
    ∷ allocate_call
    ∷ []

reused_slot : ((run calls three).slots 0).generation ≡ 2
unfolding code
reused_slot = refl

stale_location : (release_slot (location 0 1) (run calls three)).0 ≡ err invalid_argument
unfolding code
stale_location = refl

run-create-IsTier_example :
    (free : List ℕ) × IsTier (run calls three) free
    × (available_slots (run calls three) ≡ length free)
    × ((run calls three).capacity ≡ 3)
unfolding create_tier
run-create-IsTier_example = run-create-IsTier cpu 3 64 three calls refl (omega arith) (omega arith)

-- One slot, unused, and the same slot in its last life.
abbrev one : SlotTier
one = fresh_tier cpu 1 64

one-IsTier : IsTier one (0 ∷ [])
one-IsTier = record {
  chain = (refl, refl);
  distinct = (refl, tt);
  mem = λ i. ground arith;
  counted = refl;
  fits = omega arith;
}

abbrev old : SlotTier
old = record one { slots = λ i. record { generation = size_max; free = true; next_free = none } }

old-IsTier : IsTier old (0 ∷ [])
old-IsTier = record {
  chain = (refl, refl);
  distinct = (refl, tt);
  mem = λ i. ground arith;
  counted = refl;
  fits = omega arith;
}

allocate_slot-Lost_example : Lost old 0 [] (allocate_slot old)
allocate_slot-Lost_example = allocate_slot-Lost old 0 [] old-IsTier refl

abbrev busy : SlotTier
busy = (allocate_slot one).1

busy-IsTier : IsTier busy []
unfolding code
busy-IsTier = ((allocate_slot-Served one (0 ∷ []) one-IsTier).1 0 [] refl (omega arith)).valid

release_slot-Releases_example : Releases busy (location 0 1) [] (is_live busy (location 0 1))
release_slot-Releases_example = release_slot-Releases busy (location 0 1) [] busy-IsTier

-- The manager of no other pages.
abbrev other_pages : BlockManager
other_pages = fresh 2 1 prefix_hash

unused : SlotHolds three []
unused = record {
  free = 0 ∷ 1 ∷ 2 ∷ [];
  chain = (refl, (refl, (refl, refl)));
  distinct = (refl, (refl, (refl, tt)));
  mem = λ i h. ground arith;
  live = tt;
  apart = tt;
  counted = refl;
  fits = omega arith;
}

release_in-ok_example :
    ((release_in (location 0 1) (allocate_in (slot_tier three)).1).0 ≡ ok tt)
    × InUse other_pages (release_in (location 0 1) (allocate_in (slot_tier three)).1).1 []
unfolding allocate_in allocate_slot
release_in-ok_example =
    release_in-ok other_pages (allocate_in (slot_tier three)).1 (location 0 1) []
      (allocate_in-ok other_pages (slot_tier three) [] (location 0 1) unused refl)
