-- ===== src/CacheDirectory.antt =====
-- include/kvflux/v3/cache_directory.h and src/v3/cache_directory.cpp: which chunk has a replica in
-- which tier, and in which state.
--
-- The map from keys to records is the list of its entries; the hash of a key, which only chooses a
-- bucket, plays no part. A text is the list of its bytes. The clock is read by the caller: the time
-- that an operation notes is its argument `now`.
pub mod Operations
pub mod Entries
pub mod Invariant
pub mod Places
pub mod Counters
pub mod Destruction
pub mod Effects
pub mod Removal
pub mod Histories
pub mod Sample
mod Tests
use kvflux.Base.{
  ℕ, ◌+◌, ◌≡◌, Bool, true, false, not, ◌&&◌, ◌||◌, Option, none, some, List, [], ◌∷◌, arith, ltb,
  leb, ◌==◌, if◌then◌else◌, length, list_eq, wrap, Result, ok, err, Error, invalid_argument,
  out_of_range, logic_error,
}
use kvflux.BlockManager.{Tokens}
use kvflux.BlockManager.Prefixes.{prefix_hash}
use kvflux.Layout.{DType, float16, bfloat16, float32}
use kvflux.Tier.{StorageTier, gpu, cpu, nvme, TierLocation}
use kvflux.Tier.Interface.{TierOps}

pub data ChunkState : Type 0 where
  ready copying loading evicting error : ChunkState

pub record CacheKey : Type 0 where
  pub model_id : List ℕ
  pub layout_version : ℕ
  pub dtype : DType
  pub first_layer : ℕ
  pub last_layer : ℕ
  pub prefix_hash : ℕ
  pub prefix : Tokens

abbrev pub dtype_code : DType → ℕ
dtype_code float16 = 0
dtype_code bfloat16 = 1
dtype_code float32 = 2

-- `operator==`.
abbrev pub key_eq : CacheKey → CacheKey → Bool
key_eq a b =
    list_eq a.model_id b.model_id
    && (a.layout_version == b.layout_version
        && (dtype_code a.dtype == dtype_code b.dtype
            && (a.first_layer == b.first_layer
                && (a.last_layer == b.last_layer
                    && (a.prefix_hash == b.prefix_hash && list_eq a.prefix b.prefix)))))

unfoldable pub make_cache_key : List ℕ → ℕ → DType → ℕ → ℕ → Tokens → Result CacheKey
make_cache_key model_id layout_version dtype first_layer last_layer prefix =
    if leb last_layer first_layer
    then err invalid_argument
    else ok (record {
      model_id = model_id;
      layout_version = layout_version;
      dtype = dtype;
      first_layer = first_layer;
      last_layer = last_layer;
      prefix_hash = prefix_hash prefix;
      prefix = prefix;
    })

pub record Replica : Type 0 where
  pub location : TierLocation
  pub state : ChunkState

pub record ChunkRecord : Type 0 where
  pub key : CacheKey
  pub version : ℕ
  pub ref_count : ℕ
  pub pin_count : ℕ
  pub last_access : ℕ
  pub gpu_replica : Option Replica
  pub cpu_replica : Option Replica
  pub nvme_replica : Option Replica

abbrev pub Entries : Type 0
Entries = List (CacheKey × ChunkRecord)

-- `replica_slot`: the field of a tier, and the record with it changed.
abbrev pub replica_of : StorageTier → ChunkRecord → Option Replica
replica_of gpu r = r.gpu_replica
replica_of cpu r = r.cpu_replica
replica_of nvme r = r.nvme_replica

abbrev pub with_replica : StorageTier → Option Replica → ChunkRecord → ChunkRecord
with_replica gpu o r = record r { gpu_replica = o }
with_replica cpu o r = record r { cpu_replica = o }
with_replica nvme o r = record r { nvme_replica = o }

abbrev pub find : CacheKey → Entries → Option ChunkRecord
find k [] = none
find k ((k', r) ∷ es) = if key_eq k' k then some r else find k es

-- The record of a key is changed in its place.
abbrev pub set_record : CacheKey → ChunkRecord → Entries → Entries
set_record k r [] = []
set_record k r ((k', r') ∷ es) = if key_eq k' k then (k', r) ∷ es else (k', r') ∷ set_record k r es

abbrev pub erase_record : CacheKey → Entries → Entries
erase_record k [] = []
erase_record k ((k', r) ∷ es) = if key_eq k' k then es else (k', r) ∷ erase_record k es

abbrev pub is_some {ℓ} : {A : Type ℓ} → Option A → Bool
is_some none = false
is_some (some a) = true

abbrev pub count_some {ℓ} : {A : Type ℓ} → Option A → ℕ
count_some none = 0
count_some (some a) = 1

abbrev pub is_ready : ChunkState → Bool
is_ready ready = true
is_ready _ = false

-- The states in which a replica may be removed.
abbrev pub is_settled : ChunkState → Bool
is_settled ready = true
is_settled error = true
is_settled copying = false
is_settled loading = false
is_settled evicting = false

abbrev pub new_record : CacheKey → ℕ → ChunkRecord
new_record key now = record {
  key = key;
  version = 1;
  ref_count = 0;
  pin_count = 0;
  last_access = now;
  gpu_replica = none;
  cpu_replica = none;
  nvme_replica = none;
}

pub record Counts : Type 0 where
  pub capacity : ℕ
  pub available : ℕ
  pub allocated_chunks : ℕ
  pub used_bytes : ℕ
  pub available_bytes : ℕ
  pub replicas : ℕ

-- The loop of `stats`.
abbrev pub count_replicas : StorageTier → Entries → ℕ
count_replicas t [] = 0
count_replicas t ((k, r) ∷ es) = count_some (replica_of t r) + count_replicas t es
