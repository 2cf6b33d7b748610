-- ===== src/PrefixCache/Tests.antt =====
-- A pool with one published page, a new request, and the theorem at it.
use kvflux.Base.{◌≡◌, refl, true, [], ◌∷◌, ok}
use kvflux.IndexLru
use kvflux.BlockManager.{BlockManager, fresh, allocate, retain, release, ref_count, is_current}
use kvflux.BlockManager.Prefixes.{prefix_hash, publish, lookup}
use kvflux.BlockManager.Tables.{acquire}
use kvflux.BlockTable.{append_existing, pop_back}
use kvflux.SequenceState.{SequenceState, create, append_cached_full_block}
use kvflux.PrefixCache.{attach_block, attach_from, unwind, attach_cached_prefix}

code : Unit {0}
unfolding IndexLru.init IndexLru.touch IndexLru.erase fresh allocate retain release ref_count
    is_current prefix_hash publish lookup acquire append_existing pop_back create
    append_cached_full_block attach_block attach_from unwind attach_cached_prefix
code = tt

abbrev small : BlockManager
small = fresh 3 2 prefix_hash

-- Two tokens are one full block, which is published.
abbrev filled : BlockManager
filled = (acquire (7 ∷ 8 ∷ []) small).1

abbrev request : SequenceState
request = create 1 filled

one_page_cached : (attach_cached_prefix true (7 ∷ 8 ∷ 9 ∷ 10 ∷ []) request).0 ≡ ok 2
unfolding code
one_page_cached = refl
