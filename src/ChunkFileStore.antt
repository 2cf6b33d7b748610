-- ===== src/ChunkFileStore.antt =====
-- include/kvflux/v3/chunk_file_store.h and src/v3/chunk_file_store.cpp: chunks as files.
--
-- Bytes are numbers below 256, and a file is the list of its bytes. The published files are an
-- association list from slots, since the name of a file is its slot. A write that the system
-- refuses is an argument of `write`; a read that it refuses is not modelled, nor are temporary files
-- that a crash leaves, which no operation reads.
pub mod Bytes
pub mod Header
pub mod Parsing
pub mod Files
pub mod Reading
pub mod Accepting
pub mod Quota
pub mod Payloads
pub mod Failures
mod Tests
use kvflux.Base.{ℕ, List, Bool, ◌&&◌, ◌==◌, list_eq}
use kvflux.BlockManager.{Tokens}
use kvflux.Layout.{DType}
use kvflux.CacheDirectory.{CacheKey, dtype_code}

pub record ChunkFileMeta : Type 0 where
  pub model_id : List ℕ
  pub layout_version : ℕ
  pub dtype : DType
  pub first_layer : ℕ
  pub last_layer : ℕ
  pub prefix_hash : ℕ
  pub prefix : Tokens
  pub valid_token_count : ℕ
  pub payload_size : ℕ

unfoldable pub make_file_meta : CacheKey → ℕ → ℕ → ChunkFileMeta
make_file_meta key valid_tokens payload_size = record {
  model_id = key.model_id;
  layout_version = key.layout_version;
  dtype = key.dtype;
  first_layer = key.first_layer;
  last_layer = key.last_layer;
  prefix_hash = key.prefix_hash;
  prefix = key.prefix;
  valid_token_count = valid_tokens;
  payload_size = payload_size;
}

-- The identity of a chunk: all fields but the last two.
abbrev pub same_identity : ChunkFileMeta → ChunkFileMeta → Bool
same_identity a b =
    list_eq a.model_id b.model_id
    && (a.layout_version == b.layout_version
        && (dtype_code a.dtype == dtype_code b.dtype
            && (a.first_layer == b.first_layer
                && (a.last_layer == b.last_layer
                    && (a.prefix_hash == b.prefix_hash && list_eq a.prefix b.prefix)))))
