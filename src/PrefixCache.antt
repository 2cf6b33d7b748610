-- ===== src/PrefixCache.antt =====
-- src/v2/prefix_cache.cpp: a new request takes over the published pages of its tokens.
pub mod Attach
pub mod Settles
mod Tests
use kvflux.Base.{
  ℕ, zero, suc, ◌+◌, ◌-◌, ◌/◌, ◌%◌, Bool, true, false, not, ◌||◌, Option, none, some, List, [], ◌∷◌,
  ◌++◌, arith, ltb, leb, ◌==◌, if◌then◌else◌, length, take, drop, Result, ok, err, Error,
  invalid_argument,
}
use kvflux.BlockManager.{BlockHandle, Tokens}
use kvflux.BlockManager.Prefixes.{lookup, publish}
use kvflux.PhysicalBlockPool.{free}
use kvflux.BlockTable.{pop_back, with_pool, handle}
use kvflux.SequenceState.{SequenceState, SequenceM, append_cached_full_block}

-- The request takes a reference of its own, and the one that came with the hit is given back.
abbrev pub adopt : BlockHandle → SequenceM Bool
adopt h s =
    let added = append_cached_full_block h s in
    let given = free h added.1.table.pool in
    let after = record added.1 { table = with_pool given.1 added.1.table } in
    elim given.0 [
      | err e ↦ (err e, after)
      | ok _ ↦ elim added.0 [ err e ↦ (err e, after) | ok _ ↦ (ok true, after) ]
    ]

-- One round of the loop; `false` is the `break` of a miss.
unfoldable pub attach_block : Tokens → SequenceM Bool
attach_block prefix s =
    let looked = lookup prefix s.table.pool in
    let s' = record s { table = with_pool looked.1 s.table } in
    elim looked.0 [
      | err e ↦ (err e, s')
      | ok hit ↦ elim hit [ none ↦ (ok false, s') | some h ↦ adopt h s' ]
    ]

-- The loop, with the prefix so far and the tokens that are left. Each round takes a block of them.
unfoldable pub attach_from : ℕ → ℕ → Tokens → Tokens → SequenceM (Unit {0})
attach_from zero block_size prefix rest s = (ok tt, s)
attach_from (suc fuel) block_size prefix rest s =
    if ltb (length rest) block_size
    then (ok tt, s)
    else let longer = prefix ++ take block_size rest in
      let round = attach_block longer s in
      elim round.0 [
        | err e ↦ (err e, round.1)
        | ok false ↦ (ok tt, round.1)
        | ok true ↦ attach_from fuel block_size longer (drop block_size rest) round.1
      ]

-- `while (num_tokens_ != 0) { pop_back(); num_tokens_ -= block_size; } throw;`
unfoldable pub unwind : ℕ → ℕ → Error → SequenceM ℕ
unwind zero block_size e s = (err e, s)
unwind (suc fuel) block_size e s =
    if s.num_tokens == 0 then (err e, s) else elim (pop_back s.table).0 [
      | err x ↦ (err x, record s { table = (pop_back s.table).1 })
      | ok _ ↦
          unwind fuel block_size e
            (record s { num_tokens = s.num_tokens - block_size; table = (pop_back s.table).1 })
    ]

-- `one_pool`: whether the request stands over the pool of the cache.
unfoldable pub attach_cached_prefix : Bool → Tokens → SequenceM ℕ
attach_cached_prefix one_pool tokens s =
    if not one_pool
    then (err invalid_argument, s)
    else if not (s.num_tokens == 0)
    then (err invalid_argument, s)
    else let block_size = s.table.pool.block_size in
      let attached = attach_from (length tokens) block_size [] tokens s in
      elim attached.0 [
        | err e ↦ unwind attached.1.num_tokens block_size e attached.1
        | ok _ ↦ (ok attached.1.num_tokens, attached.1)
      ]

unfoldable pub publish_computed_block : Bool → ℕ → Tokens → SequenceM (Unit {0})
publish_computed_block one_pool logical prefix s =
    if not one_pool
    then (err invalid_argument, s)
    else let block_size = s.table.pool.block_size in
      if leb (length s.table.blocks) logical
        || (not (length prefix % block_size == 0)
            || (not (length prefix / block_size == logical + 1)
                || ltb s.num_tokens (length prefix)))
      then (err invalid_argument, s)
      else elim (handle logical s.table) [
        | err e ↦ (err e, s)
        | ok h ↦ (
          (publish h prefix s.table.pool).0,
          record s { table = with_pool (publish h prefix s.table.pool).1 s.table },
        )
      ]
