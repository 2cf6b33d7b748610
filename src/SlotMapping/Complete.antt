-- ===== src/SlotMapping/Complete.antt =====
-- A batch of tokens of well-formed requests over one pool is always mapped.
use native.Mathlib.Nat.{le-div_iff_mul-le}
use kvflux.Base.{
  ℕ, ◌+◌, ◌-◌, ◌*◌, ◌/◌, ◌%◌, ◌≤◌, ◌<◌, ◌≡◌, refl, true, false, some, List, [], ◌∷◌, arith, ltb,
  cell_end, size_max, wrap, ok,
}
use kvflux.BlockManager.{BlockManager}
use kvflux.BlockManager.Effects.{current-below}
use kvflux.SequenceState.{SequenceState, TokenLocation}
use kvflux.SequenceState.Growth.{IsSequence}
use kvflux.SequenceState.Locations.{token_location_lem, entry-current}
use kvflux.SlotMapping.{
  Request, TokenWrite, shares_pool_with, slot_of, slot_at, map_write, map_writes,
  build_slot_mapping,
}

slot_of-ok :
    (b capacity : ℕ) (l : TokenLocation)
    → 0 < b
    → l.offset_in_block < b
    → l.physical_block < capacity
    → capacity * b ≤ size_max
    → (slot : ℕ) × (slot_of b l ≡ ok slot)
unfolding slot_of
slot_of-ok b capacity l p q inside fits =
    let room : l.physical_block * b ≤ size_max - l.offset_in_block =
      omega (arith, cell_end l.physical_block capacity b inside) in
    let reach : l.physical_block ≤ (size_max - l.offset_in_block) / b =
      (le-div_iff_mul-le p).1 room in
    let fine : ltb ((size_max - l.offset_in_block) / b) l.physical_block ≡ false = ground arith in
    (wrap (l.physical_block * b + l.offset_in_block), rw (fine, slot_of) refl)

-- A write that can be mapped: a token that its request has, over the pool of the first request, with
-- all slots of the pool in range. `others` is the pool with the references that the request does not
-- own.
pub record Ready (first : Request) (w : TokenWrite) : Type 0 where
  pub request : Request
  pub given : w.sequence ≡ some request
  pub one_pool : shares_pool_with first request ≡ true
  pub others : BlockManager
  pub valid : IsSequence others request.state
  pub reserved : w.token_position < request.state.num_tokens
  pub fits : request.state.table.pool.capacity * request.state.block_size ≤ size_max

map_write-ok :
    (first : Request) (w : TokenWrite) → Ready first w → (slot : ℕ) × (map_write first w ≡ ok slot)
unfolding map_write
map_write-ok first w y =
    let s : SequenceState = y.request.state in
    let t : ℕ = w.token_position in
    let (h, entry, found, inside) = token_location_lem y.others s t y.valid y.reserved in
    let (current, _) =
      entry-current s.table.pool s.table.blocks (t / s.block_size) h y.valid.owned.good entry in
    let l : TokenLocation = record { physical_block = h.id; offset_in_block = t % s.block_size } in
    let (slot, e) =
      slot_of-ok s.block_size s.table.pool.capacity l y.valid.positive inside
        (current-below s.table.pool h current) y.fits in
    (slot, rw (y.given, y.one_pool, map_write) (rw (found, slot_at) e))

abbrev pub AllReady : Request → List TokenWrite → Type 0
AllReady first [] = Unit {0}
AllReady first (w ∷ ws) = Ready first w × AllReady first ws

map_writes-ok :
    (first : Request) (ws : List TokenWrite)
    → AllReady first ws
    → (slots : List ℕ) × (map_writes first ws ≡ ok slots)
unfolding map_writes
map_writes-ok first [] y = ([], refl)
map_writes-ok first (w ∷ ws) y =
    let (slot, e) = map_write-ok first w y.0 in
    let (slots, es) = map_writes-ok first ws y.1 in (slot ∷ slots, rw (e, es, map_writes) refl)

-- A batch of reserved tokens is mapped, and no exception is thrown, if the requests share the pool of
-- the first one, each is well formed in it, whatever the pages that it holds, and all slots of the
-- pool are numbers of the machine.
pub build_slot_mapping-ok :
    (first : Request) (w : TokenWrite) (ws : List TokenWrite)
    → w.sequence ≡ some first
    → AllReady first (w ∷ ws)
    → (slots : List ℕ) × (build_slot_mapping (w ∷ ws) ≡ ok slots)
unfolding build_slot_mapping
build_slot_mapping-ok first w ws e y =
    let (slots, done) = map_writes-ok first (w ∷ ws) y in (slots, rw (e, build_slot_mapping) done)
