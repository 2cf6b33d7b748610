-- ===== src/SequenceState.antt =====
-- src/v2/sequence_state.cpp: the tokens of one request and the table of its blocks.
pub mod Growth
pub mod Locations
pub mod Forks
pub mod Copies
mod Tests
use kvflux.Base.{
  ℕ, zero, suc, ◌+◌, ◌-◌, ◌/◌, ◌%◌, ◌≡◌, refl, Bool, true, false, not, ◌&&◌, ◌||◌, Option, none,
  some, List, [], ◌∷◌, ◌++◌, arith, ltb, leb, ◌==◌, if◌then◌else◌, length, last?, get_elem?,
  size_max, Result, ok, err, Error, invalid_argument, out_of_range, logic_error, overflow_error,
}
use kvflux.BlockManager.{BlockManager, BlockHandle, allocate, retain, release, ref_count}
use kvflux.BlockManager.Tables.{blocks_for}
use kvflux.BlockTable.{
  BlockTable, append_new, append_existing, append_shared, physical_id, handle, block_refs, pop_back,
  replace_last_owned, clear, with_pool, free_each,
}
use kvflux.PhysicalBlockPool.{free}

pub record TokenLocation : Type 0 where
  pub physical_block : ℕ
  pub offset_in_block : ℕ

pub record SequenceState : Type 0 where
  pub request_id : ℕ
  pub num_tokens : ℕ
  pub block_size : ℕ
  pub table : BlockTable

abbrev pub SequenceM : Type 0 → Type 0
SequenceM A = SequenceState → Result A × SequenceState

-- The constructor, on a pool.
unfoldable pub create : ℕ → BlockManager → SequenceState
create request_id pool = record {
  request_id = request_id;
  num_tokens = 0;
  block_size = pool.block_size;
  table = record { pool = pool; bound = true; blocks = [] };
}

unfoldable pub last_block_num_tokens : SequenceState → ℕ
last_block_num_tokens s = if s.num_tokens == 0 then 0 else (s.num_tokens - 1) % s.block_size + 1

-- `while (size > original) pop_back();`, by the rounds to go. An exception there would go on in
-- place of the first.
unfoldable pub shrink : ℕ → Error → BlockTable → Result (Unit {0}) × BlockTable
shrink zero e t = (err e, t)
shrink (suc n) e t = elim (pop_back t).0 [
  | err e' ↦ (err e', (pop_back t).1)
  | ok _ ↦ shrink n e (pop_back t).1
]

-- `while (size < needed) append_new();`, by the rounds to go; `added` blocks are new already.
unfoldable pub grow : ℕ → ℕ → BlockTable → Result (Unit {0}) × BlockTable
grow zero added t = (ok tt, t)
grow (suc n) added t = elim (append_new t).0 [
  | err e ↦ shrink added e (append_new t).1
  | ok _ ↦ grow n (added + 1) (append_new t).1
]

-- The references to the last block, and whether new tokens may go to it: it is full, or only this
-- request has it.
abbrev pub tail_refs : SequenceState → Result ℕ
tail_refs s = block_refs (length s.table.blocks - 1) s.table

abbrev pub may_write_tail : SequenceState → Result Bool
may_write_tail s =
    if s.num_tokens % s.block_size == 0
    then ok true
    else elim (tail_refs s) [ err e ↦ err e | ok n ↦ ok (leb n 1) ]

abbrev pub reserve : ℕ → SequenceM (Unit {0})
reserve count s =
    let needed = blocks_for (s.num_tokens + count) s.block_size in
    let grown = grow (needed - length s.table.blocks) 0 s.table in
    elim grown.0 [
      | err e ↦ (err e, record s { table = grown.1 })
      | ok _ ↦ (ok tt, record s { num_tokens = s.num_tokens + count; table = grown.1 })
    ]

unfoldable pub append_tokens : ℕ → SequenceM (Unit {0})
append_tokens count s =
    if count == 0
    then (ok tt, s)
    else if ltb (size_max - s.num_tokens) count
    then (err overflow_error, s)
    else elim (may_write_tail s) [
      | err e ↦ (err e, s)
      | ok false ↦ (err logic_error, s)
      | ok true ↦ reserve count s
    ]

unfoldable pub token_location : ℕ → SequenceState → Result TokenLocation
token_location token s =
    if leb s.num_tokens token
    then err out_of_range
    else elim (physical_id (token / s.block_size) s.table) [
      | err e ↦ err e
      | ok block ↦ ok (record { physical_block = block; offset_in_block = token % s.block_size })
    ]

unfoldable pub append_token : SequenceM TokenLocation
append_token s = elim (append_tokens 1 s).0 [
  | err e ↦ (err e, (append_tokens 1 s).1)
  | ok _ ↦ (token_location s.num_tokens (append_tokens 1 s).1, (append_tokens 1 s).1)
]

-- The loop of `fork_shared`, over the entries of the source that are left; `fork` shares them.
unfoldable pub share_entries : List BlockHandle → BlockTable → Result (Unit {0}) × BlockTable
share_entries [] fork = (ok tt, fork)
share_entries (h ∷ hs) fork = elim (append_existing h fork).0 [
  | err e ↦ (err e, clear (append_existing h fork).1)
  | ok _ ↦ share_entries hs (append_existing h fork).1
]

-- The fork, and the source over the pool as it is then. When an entry cannot be shared, the
-- destructor of the unfinished fork gives back what it has.
unfoldable pub fork_shared : ℕ → SequenceM SequenceState
fork_shared new_id s =
    if not s.table.bound
    then (err logic_error, s)
    else let shared = share_entries s.table.blocks (record s.table { blocks = [] }) in
      let s' = record s { table = with_pool shared.1.pool s.table } in
      elim shared.0 [
        | err e ↦ (err e, s')
        | ok _ ↦ (ok (record s { request_id = new_id; table = shared.1 }), s')
      ]

-- The table and the pool during a copy: the new page is the caller's, and it is given back if the
-- table does not take it over.
abbrev pub take_over : BlockHandle → ℕ → SequenceM TokenLocation
take_over new offset s = elim (replace_last_owned new s.table).0 [
  | err e ↦ (
    err e,
    record s {
      table =
          with_pool (free new (replace_last_owned new s.table).1.pool).1
            (replace_last_owned new s.table).1;
    },
  )
  | ok _ ↦ (
    ok (record { physical_block = new.id; offset_in_block = offset }),
    record s { num_tokens = s.num_tokens + 1; table = (replace_last_owned new s.table).1 },
  )
]

-- The copier: whether it returns, for the pages given. It is the caller's, and changes no
-- bookkeeping.
abbrev pub Copier : Type 0
Copier = BlockHandle → BlockHandle → Result (Unit {0})

abbrev pub copy_tail : Copier → SequenceM TokenLocation
copy_tail copy s = elim (handle (length s.table.blocks - 1) s.table) [
  | err e ↦ (err e, s)
  | ok old ↦
      let taken = (allocate s.table.pool).1 in
      let s' = record s { table = with_pool taken s.table } in
      elim (allocate s.table.pool).0 [
        | err e ↦ (err e, s')
        | ok new ↦ elim (copy old new) [
          | err e ↦ (err e, record s { table = with_pool (free new taken).1 s.table })
          | ok _ ↦ take_over new (s.num_tokens % s.block_size) s'
        ]
      ]
]

-- `none` is an empty callback.
unfoldable pub append_token_with_copy : Option Copier → SequenceM TokenLocation
unfolding append_token
append_token_with_copy copier s =
    if s.num_tokens == size_max
    then (err overflow_error, s)
    else if s.num_tokens % s.block_size == 0
    then append_token s
    else elim (tail_refs s) [
      | err e ↦ (err e, s)
      | ok n ↦
          if n == 1
          then append_token s
          else elim copier [ none ↦ (err invalid_argument, s) | some copy ↦ copy_tail copy s ]
    ]

unfoldable pub append_cached_full_block : BlockHandle → SequenceM (Unit {0})
append_cached_full_block h s =
    if not (s.num_tokens % s.block_size == 0) || ltb (size_max - s.num_tokens) s.block_size
    then (err invalid_argument, s)
    else elim (append_existing h s.table).0 [
      | err e ↦ (err e, record s { table = (append_existing h s.table).1 })
      | ok _ ↦ (
        ok tt,
        record s {
          num_tokens = s.num_tokens + s.block_size;
          table = (append_existing h s.table).1;
        },
      )
    ]
