-- ===== src/SlotMapping.antt =====
-- src/v2/slot_mapping.cpp: the physical slots of a batch of token writes. A request is met by its
-- address, so a batch entry has the address of the request's pool beside its state.
pub mod Exact
pub mod Complete
mod Tests
use kvflux.Base.{
  ℕ, ◌+◌, ◌-◌, ◌*◌, ◌/◌, Bool, true, false, not, ◌&&◌, Option, none, some, List, [], ◌∷◌, arith,
  ltb, ◌==◌, if◌then◌else◌, size_max, wrap, Result, ok, err, Error, invalid_argument,
  overflow_error,
}
use kvflux.SequenceState.{SequenceState, TokenLocation, token_location}

pub record Request : Type 0 where
  pub pool_address : ℕ
  pub state : SequenceState

-- `none` is a null pointer.
pub record TokenWrite : Type 0 where
  pub sequence : Option Request
  pub token_position : ℕ

-- `shares_pool_with`: the pools are one, and not null.
abbrev pub shares_pool_with : Request → Request → Bool
shares_pool_with a b =
    a.state.table.bound && (b.state.table.bound && a.pool_address == b.pool_address)

-- `block * block_size + offset`, checked.
unfoldable pub slot_of : ℕ → TokenLocation → Result ℕ
slot_of block_size l =
    if ltb ((size_max - l.offset_in_block) / block_size) l.physical_block
    then err overflow_error
    else ok (wrap (l.physical_block * block_size + l.offset_in_block))

abbrev pub slot_at : SequenceState → ℕ → Result ℕ
slot_at s position = elim (token_location position s) [
  | err e ↦ err e
  | ok l ↦ slot_of s.block_size l
]

-- The body of the loop; the request of the first write is given.
unfoldable pub map_write : Request → TokenWrite → Result ℕ
map_write first write = elim write.sequence [
  | none ↦ err invalid_argument
  | some r ↦
      if not (shares_pool_with first r)
      then err invalid_argument
      else slot_at r.state write.token_position
]

-- The loop.
unfoldable pub map_writes : Request → List TokenWrite → Result (List ℕ)
map_writes first [] = ok []
map_writes first (w ∷ ws) = elim (map_write first w) [
  | err e ↦ err e
  | ok slot ↦ elim (map_writes first ws) [ err e ↦ err e | ok slots ↦ ok (slot ∷ slots) ]
]

unfoldable pub build_slot_mapping : List TokenWrite → Result (List ℕ)
build_slot_mapping [] = ok []
build_slot_mapping (w ∷ ws) = elim w.sequence [
  | none ↦ err invalid_argument
  | some first ↦ map_writes first (w ∷ ws)
]
