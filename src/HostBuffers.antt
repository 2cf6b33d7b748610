-- ===== src/HostBuffers.antt =====
-- include/kvflux/v3/host_buffers.h, src/v3/host_buffers.cpp and src/v3/pinned_chunk_pool.cpp: the
-- bytes of the chunks in host memory. A slot is met by its bytes, not by its address.
use kvflux.Base.{
  ℕ, ◌/◌, ◌||◌, List, ◌++◌, ltb, leb, ◌==◌, if◌then◌else◌, size_max, update, length, drop, Result,
  ok, err, invalid_argument, overflow_error,
}

pub record HostBuffers : Type 0 where
  pub slots : ℕ
  pub chunk_bytes : ℕ
  pub bytes : ℕ → List ℕ

-- `HeapChunkPool`, on bytes that are all zero.
unfoldable pub create_heap : ℕ → ℕ → (ℕ → List ℕ) → Result HostBuffers
create_heap slots chunk_bytes zeros =
    if slots == 0 || chunk_bytes == 0
    then err invalid_argument
    else if ltb (size_max / chunk_bytes) slots
    then err overflow_error
    else ok (record { slots = slots; chunk_bytes = chunk_bytes; bytes = zeros })

-- `PinnedChunkPool`, on what the memory of the system holds.
unfoldable pub create_pinned : ℕ → ℕ → (ℕ → List ℕ) → Result HostBuffers
create_pinned slots chunk_bytes memory =
    if slots == 0 || chunk_bytes == 0
    then err invalid_argument
    else ok (record { slots = slots; chunk_bytes = chunk_bytes; bytes = memory })

-- `data`, and a write of `xs` to its front.
unfoldable pub data_at : ℕ → HostBuffers → Result (List ℕ)
data_at slot b = if leb b.slots slot then err invalid_argument else ok (b.bytes slot)

abbrev pub fill : ℕ → List ℕ → HostBuffers → HostBuffers
fill slot xs b = record b { bytes = update b.bytes slot (xs ++ drop (length xs) (b.bytes slot)) }
