-- ===== src/PhysicalBlockPool.antt =====
-- src/physical_block_pool.cpp: the pool of physical pages is a block manager, whose operations it
-- passes on; `id` and `available` are its own.
use kvflux.Base.{ℕ, ◌+◌, ◌≡◌, ◌==◌, if◌then◌else◌, ok, err, invalid_argument, arith, length, List}
use kvflux.BlockManager.{BlockManager, BlockHandle, M, ref_count, release}
use kvflux.BlockManager.Tables.{stats}
use kvflux.BlockManager.Invariant.{Queues}
use kvflux.BlockManager.Counts.{stats_lem}

-- `free`.
abbrev pub free : BlockHandle → M (Unit {0})
free h = release h

-- `id`: the index of a page that somebody holds.
unfoldable pub id : BlockHandle → M ℕ
id h m = elim (ref_count h m).0 [
  | err e ↦ (err e, m)
  | ok n ↦ if n == 0 then (err invalid_argument, m) else (ok h.id, m)
]

unfoldable pub available : BlockManager → ℕ
available m = (stats m).free + (stats m).cached_idle

-- The pages that can be had at once are those of the free list and of the idle order.
pub available-length :
    (m : BlockManager) (free idle : List ℕ)
    → Queues m free idle
    → available m ≡ length free + length idle
unfolding available
available-length m free idle v = let (a, b, _) = stats_lem m free idle v in omega (arith, a, b)
