-- ===== src/Layout.antt =====
-- include/kvflux/kv_layout.h: the element types, the two halves of a cache, and their sizes, which
-- the layouts of src/kv_layout.cpp and src/v2/paged_kv_layout.cpp share.
pub mod KvBlock
pub mod PagedKv
mod Tests
use kvflux.Base.{ℕ, ◌<◌, ◌≡◌, arith}

pub data DType : Type 0 where
  float16 bfloat16 float32 : DType

pub data KvKind : Type 0 where
  key value : KvKind

-- `dtype_bytes` and `bytes_for_dtype`.
abbrev pub dtype_bytes : DType → ℕ
dtype_bytes float16 = 2
dtype_bytes bfloat16 = 2
dtype_bytes float32 = 4

pub dtype_bytes_pos : (d : DType) → 0 < dtype_bytes d
dtype_bytes_pos float16 = omega arith
dtype_bytes_pos bfloat16 = omega arith
dtype_bytes_pos float32 = omega arith

-- The half of the cache, as the leading index of an address.
abbrev pub half : KvKind → ℕ
half key = 0
half value = 1

pub half_lt : (k : KvKind) → half k < 2
half_lt key = omega arith
half_lt value = omega arith
