-- ===== src/CacheDirectory/Sample.antt =====
-- A directory over three small tiers, for the tests.
use kvflux.Base.{refl, [], ◌∷◌, arith, range}
use kvflux.BlockManager.{BlockManager, fresh}
use kvflux.BlockManager.Prefixes.{prefix_hash}
use kvflux.BlockManager.Init.{fresh-Queues, fresh-Indexed}
use kvflux.Layout.{float16}
use kvflux.Tier.{StorageTier, cpu, nvme, fresh_tier}
use kvflux.Tier.Objects.{TierObject, slot_tier, gpu_tier, kind_of}
use kvflux.Tier.Interface.{TierOps}
use kvflux.Tier.Slots.{SlotHolds}
use kvflux.Tier.Pages.{PageHolds}
use kvflux.Tier.Implements.{tier_ops}
use kvflux.CacheDirectory.{CacheKey}
use kvflux.CacheDirectory.Operations.{Directory, open_directory}
use kvflux.CacheDirectory.Invariant.{Agrees}
use kvflux.CacheDirectory.Histories.{open-Agrees}

abbrev pub pool : BlockManager
pool = fresh 2 1 prefix_hash

abbrev pub T : TierOps
T = tier_ops pool

abbrev pub device : TierObject
device = gpu_tier (record { pool = pool; chunk_bytes = 64; allocated = 0 })

abbrev pub host : TierObject
host = slot_tier (fresh_tier cpu 2 64)

abbrev pub disk : TierObject
disk = slot_tier (fresh_tier nvme 2 64)

pub unused-SlotHolds : (kind : StorageTier) → SlotHolds (fresh_tier kind 2 64) []
unused-SlotHolds kind = record {
  free = 0 ∷ 1 ∷ [];
  chain = (refl, (refl, refl));
  distinct = (refl, (refl, tt));
  mem = λ i h. ground arith;
  live = tt;
  apart = tt;
  counted = refl;
  fits = omega arith;
}

pub unused-PageHolds : PageHolds pool (record { pool = pool; chunk_bytes = 64; allocated = 0 }) []
unfolding fresh
unused-PageHolds = record {
  owned = record { counts = λ i. refl; good = tt };
  pool = (
    range 0 2,
    [],
    fresh-Queues 2 1 prefix_hash (omega arith),
    fresh-Indexed 2 1 prefix_hash (omega arith),
  );
  apart = tt;
  counted = refl;
  fits = omega arith;
}

abbrev pub key : CacheKey
key = record {
  model_id = 109 ∷ [];
  layout_version = 1;
  dtype = float16;
  first_layer = 0;
  last_layer = 1;
  prefix_hash = 7;
  prefix = 5 ∷ 6 ∷ [];
}

abbrev pub empty : Directory T
empty = record { gpu_tier = device; cpu_tier = host; nvme_tier = disk; records = [] }

pub empty-Agrees : Agrees T empty
unfolding open_directory kind_of
empty-Agrees =
    open-Agrees T device host disk empty unused-PageHolds (unused-SlotHolds cpu)
      (unused-SlotHolds nvme) refl
