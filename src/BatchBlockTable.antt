-- ===== src/BatchBlockTable.antt =====
-- src/v2/batch_block_table.cpp and src/v2/paged_kv_read_table.cpp: the pages of the requests of a
-- batch, in one table with rows of one length, and those of one request.
pub mod Rows
pub mod Lookup
pub mod Batch
mod Tests
use kvflux.Base.{
  ℕ, zero, suc, ◌+◌, ◌*◌, ◌/◌, Bool, true, false, not, ◌||◌, Option, none, some, List, [], ◌∷◌,
  ◌++◌, ltb, leb, ◌==◌, if◌then◌else◌, length, get_elem?, size_max, wrap, Result, ok, err,
  invalid_argument, out_of_range, overflow_error,
}
use kvflux.BlockTable.{physical_id}
use kvflux.SequenceState.{SequenceState}
use kvflux.SlotMapping.{Request, shares_pool_with}

pub record BatchBlockTable : Type 0 where
  pub max_blocks_per_sequence : ℕ
  pub block_table : List ℕ
  pub sequence_lengths : List ℕ

abbrev pub invalid_block : ℕ
invalid_block = size_max

unfoldable pub num_sequences : BatchBlockTable → ℕ
num_sequences t = length t.sequence_lengths

abbrev pub num_allocated_blocks : SequenceState → ℕ
num_allocated_blocks s = length s.table.blocks

-- `block_table_[i]`. Behind its end the language defines nothing; a table that was built has no such index.
abbrev pub cell : List ℕ → ℕ → Result ℕ
cell cells i = elim (get_elem? cells i) [ none ↦ err out_of_range | some block ↦ ok block ]

unfoldable pub lookup_block : ℕ → ℕ → BatchBlockTable → Result ℕ
unfolding num_sequences
lookup_block request logical_block t =
    if leb (num_sequences t) request || leb t.max_blocks_per_sequence logical_block
    then err out_of_range
    else elim (cell t.block_table (wrap (request * t.max_blocks_per_sequence + logical_block))) [
      | err e ↦ err e
      | ok block ↦ if block == invalid_block then err out_of_range else ok block
    ]

abbrev pub max : ℕ → ℕ → ℕ
max a b = if ltb a b then b else a

-- The first loop, on the lengths and the width so far.
unfoldable pub measure : Request → List (Option Request) → List ℕ → ℕ → Result (List ℕ × ℕ)
measure first [] lengths width = ok (lengths, width)
measure first (none ∷ rs) lengths width = err invalid_argument
measure first (some r ∷ rs) lengths width =
    let rest =
      measure first rs (lengths ++ r.state.num_tokens ∷ [])
        (max width (num_allocated_blocks r.state)) in
    if not (shares_pool_with r first) then err invalid_argument else rest

abbrev pub repeat : ℕ → ℕ → List ℕ
repeat zero v = []
repeat (suc n) v = v ∷ repeat n v

abbrev pub set_at : ℕ → ℕ → List ℕ → List ℕ
set_at i v [] = []
set_at zero v (x ∷ xs) = v ∷ xs
set_at (suc i) v (x ∷ xs) = x ∷ set_at i v xs

-- The inner loop of the second, by the blocks to go.
unfoldable pub fill_row : SequenceState → ℕ → ℕ → ℕ → List ℕ → Result (List ℕ)
fill_row s base zero logical cells = ok cells
fill_row s base (suc n) logical cells = elim (physical_id logical s.table) [
  | err e ↦ err e
  | ok block ↦ fill_row s base n (suc logical) (set_at (wrap (base + logical)) block cells)
]

-- The second loop. A null pointer was refused by the first.
unfoldable pub fill_rows : ℕ → List (Option Request) → ℕ → List ℕ → Result (List ℕ)
fill_rows width [] request cells = ok cells
fill_rows width (none ∷ rs) request cells = err invalid_argument
fill_rows width (some r ∷ rs) request cells =
    elim (fill_row r.state (wrap (request * width)) (num_allocated_blocks r.state) 0 cells) [
      | err e ↦ err e
      | ok cells' ↦ fill_rows width rs (suc request) cells'
    ]

-- The body behind the checks of the first request.
unfoldable pub assemble : Request → List (Option Request) → Result BatchBlockTable
assemble first rs = elim (measure first rs [] 0) [
  | err e ↦ err e
  | ok m ↦
      if ltb (size_max / length rs) m.1
      then err overflow_error
      else elim (fill_rows m.1 rs 0 (repeat (wrap (length rs * m.1)) invalid_block)) [
        | err e ↦ err e
        | ok cells ↦
            ok (record {
              max_blocks_per_sequence = m.1;
              block_table = cells;
              sequence_lengths = m.0;
            })
      ]
]

unfoldable pub build_batch_block_table : List (Option Request) → Result BatchBlockTable
build_batch_block_table [] =
    ok (record { max_blocks_per_sequence = 0; block_table = []; sequence_lengths = [] })
build_batch_block_table (none ∷ rs) = err invalid_argument
build_batch_block_table (some first ∷ rs) = assemble first (some first ∷ rs)

-- `build_read_block_table`: the loop, by the blocks to go.
unfoldable pub read_from : SequenceState → ℕ → ℕ → Result (List ℕ)
read_from s zero logical = ok []
read_from s (suc n) logical = elim (physical_id logical s.table) [
  | err e ↦ err e
  | ok block ↦ elim (read_from s n (suc logical)) [
    | err e ↦ err e
    | ok blocks ↦ ok (block ∷ blocks)
  ]
]

unfoldable pub build_read_block_table : SequenceState → Result (List ℕ)
unfolding read_from
build_read_block_table s = read_from s (num_allocated_blocks s) 0
