-- ===== src/BlockManager.antt =====
-- include/kvflux/block_manager.h and src/block_manager.cpp: the slot pool with generations,
-- reference counts, an intrusive free list, the idle order and the prefix index.
--
-- The slot vector is its size and a function of the index; the index map is a function of the
-- hash, `none` where it has no entry. The largest `size_t` as an index is `none`. A token stands
-- for its 32-bit pattern. A failing memory allocation is not modelled.
pub mod Prefixes
pub mod Tables
pub mod Invariant
pub mod Allocate
pub mod References
pub mod Publication
pub mod Reach
pub mod Effects
pub mod Ownership
pub mod Sharing
pub mod Sizes
pub mod Calls
pub mod Stale
pub mod Init
pub mod Counts
mod Tests
use kvflux.Base.{
  ℕ, suc, ◌+◌, ◌-◌, ◌*◌, ◌/◌, ◌%◌, ◌^◌, ◌≡◌, refl, Bool, true, false, not, ◌&&◌, ◌||◌, Option, none,
  some, List, [], ◌∷◌, ◌++◌, arith, ltb, leb, ◌==◌, if◌then◌else◌, size_max, length, get_elem?,
  update, contains, remove, Error, invalid_argument, out_of_range, overflow_error, capacity_error,
  Result, ok, err, on_result, ◌>>=◌, ◌>>◌, return, throw, rethrow_after,
}
use kvflux.IndexLru.{IndexLru}
use kvflux.IndexLru

abbrev pub Tokens : Type 0
Tokens = List ℕ

pub record BlockHandle : Type 0 where
  pub id : ℕ
  pub generation : ℕ

pub record BlockTable : Type 0 where
  pub blocks : List BlockHandle
  pub token_count : ℕ

pub record Slot : Type 0 where
  pub generation : ℕ
  pub refs : ℕ
  pub free : Bool
  pub cached : Bool
  pub prefix : Tokens
  pub hash : ℕ
  pub next_free : Option ℕ

pub record BlockManager : Type 0 where
  pub capacity : ℕ
  pub slots : ℕ → Slot
  pub block_size : ℕ
  pub hasher : Tokens → ℕ
  pub free_head : Option ℕ
  pub idle_lru : IndexLru
  pub index : ℕ → Option (List ℕ)

abbrev pub M : Type 0 → Type 0
M A = BlockManager → Result A × BlockManager

-- `slots_[id] = s`.
abbrev pub set_slot : ℕ → Slot → BlockManager → BlockManager
set_slot id s m = record m { slots = update m.slots id s }

-- The constructor, without its checks.
unfoldable pub fresh : ℕ → ℕ → (Tokens → ℕ) → BlockManager
fresh capacity block_size hasher = record {
  capacity = capacity;
  slots = λ i. record {
    generation = 0;
    refs = 0;
    free = true;
    cached = false;
    prefix = [];
    hash = 0;
    next_free = if ltb (i + 1) capacity then some (i + 1) else none;
  };
  block_size = block_size;
  hasher = hasher;
  free_head = some 0;
  idle_lru = IndexLru.init;
  index = λ h. none;
}

-- The constructor. `none` is an empty `std::function`.
unfoldable pub create : ℕ → ℕ → Option (Tokens → ℕ) → Result BlockManager
unfolding fresh
create capacity block_size none = err invalid_argument
create capacity block_size (some hasher) =
    if capacity == 0 || block_size == 0
    then err invalid_argument
    else ok (fresh capacity block_size hasher)

-- `checked` returns if this holds, and throws `invalid_argument` otherwise: the index is in range,
-- the slot is not free, and the generation is the handle's.
unfoldable pub is_current : BlockManager → BlockHandle → Bool
is_current m h = not (
    leb m.capacity h.id || ((m.slots h.id).free || not ((m.slots h.id).generation == h.generation)))

-- The bucket after `bucket.erase(find(…, id))`; an empty bucket leaves the map.
abbrev pub erase_bucket : ℕ → Option (List ℕ) → Option (List ℕ)
erase_bucket id none = none
erase_bucket id (some bucket) = elim (remove id bucket) [ [] ↦ none | x ∷ xs ↦ some (x ∷ xs) ]

pub erase_cache : ℕ → BlockManager → BlockManager
erase_cache id m =
    let s = m.slots id in
    record m {
      index = update m.index s.hash (erase_bucket id (m.index s.hash));
      slots = update m.slots id (record s { cached = false; prefix = [] });
    }

-- The head of the free list, and otherwise the oldest idle block.
abbrev pub candidate : BlockManager → Option ℕ
candidate m = elim m.free_head [ none ↦ m.idle_lru.oldest | some id ↦ some id ]

-- Takes the slot out of the free list, or evicts its cached block.
vacate : ℕ → BlockManager → BlockManager
unfolding erase_cache
vacate id m =
    if (m.slots id).free
    then set_slot id (record (m.slots id) { next_free = none })
        (record m { free_head = (m.slots id).next_free })
    else erase_cache id (record m { idle_lru = IndexLru.erase id m.idle_lru })

-- The new life of a slot: one reference, the next generation.
abbrev revive : ℕ → BlockManager → BlockManager
revive id m =
    let s = m.slots id in
    set_slot id (record s { free = false; refs = 1; generation = s.generation + 1 }) m

abbrev allocate_at : ℕ → M BlockHandle
allocate_at id m = if (m.slots id).generation == size_max then (err overflow_error, m) else (
  ok (record { id = id; generation = (m.slots id).generation + 1 }),
  revive id (vacate id m),
)

unfoldable pub allocate : M BlockHandle
unfolding vacate
allocate m = elim (candidate m) [ none ↦ (err capacity_error, m) | some id ↦ allocate_at id m ]

-- The body of `retain` behind its checks.
abbrev add_ref : ℕ → BlockManager → BlockManager
add_ref id m =
    let s = m.slots id in
    set_slot id (record s { refs = s.refs + 1 })
      (record m { idle_lru = if s.refs == 0 then IndexLru.erase id m.idle_lru else m.idle_lru })

unfoldable pub retain : BlockHandle → M (Unit {0})
unfolding is_current
retain h m =
    if is_current m h
    then if (m.slots h.id).refs == size_max
      then (err overflow_error, m)
      else (ok tt, add_ref h.id m)
    else (err invalid_argument, m)

-- The last reference is gone: a cached block turns idle, another goes to the free list.
abbrev retire : ℕ → BlockManager → BlockManager
retire id m =
    let s = m.slots id in
    if s.cached
    then set_slot id (record s { refs = 0 }) (record m { idle_lru = IndexLru.touch id m.idle_lru })
    else set_slot id (record s { refs = 0; free = true; next_free = m.free_head })
        (record m { free_head = some id })

abbrev drop_ref : ℕ → BlockManager → BlockManager
drop_ref id m =
    let s = m.slots id in
    if s.refs - 1 == 0 then retire id m else set_slot id (record s { refs = s.refs - 1 }) m

unfoldable pub release : BlockHandle → M (Unit {0})
unfolding is_current
release h m =
    if is_current m h
    then if (m.slots h.id).refs == 0 then (err invalid_argument, m) else (ok tt, drop_ref h.id m)
    else (err invalid_argument, m)

unfoldable pub ref_count : BlockHandle → M ℕ
unfolding is_current
ref_count h m = if is_current m h then (ok (m.slots h.id).refs, m) else (err invalid_argument, m)

unfoldable pub is_published : BlockHandle → M Bool
unfolding is_current
is_published h m =
    if is_current m h then (ok (m.slots h.id).cached, m) else (err invalid_argument, m)
