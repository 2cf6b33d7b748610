-- ===== src/ChunkFileStore/Parsing.antt =====
-- Reading a header back: what `write` puts is read, and what is read is what `write` would put.
use mathlib.Core.List.{append_assoc}
use native.Mathlib.Nat.{mod-eq_of_lt}
use kvflux.Base.{
  ℕ, ◌%◌, ◌≤◌, ◌<◌, ◌≡◌, refl, true, not, List, [], ◌∷◌, ◌++◌, arith, ltb, length, ok,
}
use kvflux.BlockManager.{Tokens}
use kvflux.Layout.{DType, float16, bfloat16, float32}
use kvflux.CacheDirectory.{dtype_code}
use kvflux.ChunkFileStore.{ChunkFileMeta}
use kvflux.ChunkFileStore.Bytes.{put_u32, put_u64, read_le, read_le-put_le, read_all-append, Fits}
use kvflux.ChunkFileStore.Header.{
  magic, put_tokens, put_fields, read_tokens, read_dtype, read_name, read_fixed, read_prefix,
  read_tail, read_fields,
}

pub read_u32-put_u32 :
    (v : ℕ) (rest : List ℕ) → v < 4294967296 → read_le 4 (put_u32 v ++ rest) ≡ (ok v, rest)
read_u32-put_u32 v rest p =
    let same : v % 4294967296 ≡ v = mod-eq_of_lt p in
    let f : Fits 4 v = omega arith in rw same (read_le-put_le 4 v rest f)

pub read_u64-put_u64 :
    (v : ℕ) (rest : List ℕ)
    → v < 18446744073709551616
    → read_le 8 (put_u64 v ++ rest) ≡ (ok v, rest)
read_u64-put_u64 v rest p = let f : Fits 8 v = omega arith in read_le-put_le 8 v rest f

-- Tokens are 32-bit patterns.
abbrev pub Words : Tokens → Type 0
Words [] = Unit {0}
Words (t ∷ ts) = (t < 4294967296) × Words ts

pub read_tokens-put_tokens :
    (ts : Tokens) (rest : List ℕ)
    → Words ts
    → read_tokens (length ts) (put_tokens ts ++ rest) ≡ (ok ts, rest)
unfolding read_tokens
read_tokens-put_tokens [] rest w = refl
read_tokens-put_tokens (t ∷ ts) rest w =
    rw
      (
        append_assoc (put_u32 t) (put_tokens ts) rest,
        read_u32-put_u32 t (put_tokens ts ++ rest) w.0,
        read_tokens-put_tokens ts rest w.1,
      )
      refl

pub read_dtype-put :
    (d : DType) (rest : List ℕ) → read_dtype (put_u32 (dtype_code d) ++ rest) ≡ (ok d, rest)
read_dtype-put float16 rest = rw (read_u32-put_u32 0 rest (omega arith)) refl
read_dtype-put bfloat16 rest = rw (read_u32-put_u32 1 rest (omega arith)) refl
read_dtype-put float32 rest = rw (read_u32-put_u32 2 rest (omega arith)) refl

-- The fields lie in the ranges of their types, and the lengths below the limits of `read`.
pub record InRange (meta : ChunkFileMeta) : Type 0 where
  pub model_id : length meta.model_id ≤ 4096
  pub layout_version : meta.layout_version < 4294967296
  pub first_layer : meta.first_layer < 4294967296
  pub last_layer : meta.last_layer < 4294967296
  pub prefix_hash : meta.prefix_hash < 18446744073709551616
  pub prefix : Words meta.prefix
  pub prefix_length : length meta.prefix ≤ 4194304
  pub valid_token_count : meta.valid_token_count < 18446744073709551616
  pub payload_size : meta.payload_size < 18446744073709551616

-- The header up to the checksum of the payload, read back.
pub read_fields-put_fields :
    (meta : ChunkFileMeta) (sum : ℕ) (rest : List ℕ)
    → InRange meta
    → sum < 18446744073709551616
    → read_fields (put_fields meta ++ (put_u64 sum ++ rest))
      ≡ (ok (record { meta = meta; payload_sum = sum }), rest)
unfolding read_fields put_fields read_name read_fixed read_prefix read_tail
read_fields-put_fields meta sum rest r p =
    let n : ℕ = length meta.model_id in
    let k : ℕ = length meta.prefix in
    let s12 : List ℕ = put_u64 sum ++ rest in
    let s11 : List ℕ = put_u64 meta.payload_size ++ s12 in
    let s10 : List ℕ = put_u64 meta.valid_token_count ++ s11 in
    let s9 : List ℕ = put_tokens meta.prefix ++ s10 in
    let s8 : List ℕ = put_u64 k ++ s9 in
    let s7 : List ℕ = put_u64 meta.prefix_hash ++ s8 in
    let s6 : List ℕ = put_u32 meta.last_layer ++ s7 in
    let s5 : List ℕ = put_u32 meta.first_layer ++ s6 in
    let s4 : List ℕ = put_u32 (dtype_code meta.dtype) ++ s5 in
    let s3 : List ℕ = put_u32 meta.layout_version ++ s4 in
    let s2 : List ℕ = meta.model_id ++ s3 in
    let s1 : List ℕ = put_u32 n ++ s2 in
    let s0 : List ℕ = put_u32 1 ++ s1 in
    let whole : put_fields meta ++ s12 ≡ magic ++ s0 = simp (put_fields, append_assoc) in
    let short_name : not (ltb 4096 n) ≡ true = ground (arith, r.model_id) in
    let short_prefix : not (ltb 4194304 k) ≡ true = ground (arith, r.prefix_length) in
    rw
      (
        whole,
        read_all-append magic s0 4 refl,
        read_u32-put_u32 1 s1 (omega arith),
        read_u32-put_u32 n s2 (omega (arith, r.model_id)),
        short_name,
        read_all-append meta.model_id s3 n refl,
        read_u32-put_u32 meta.layout_version s4 r.layout_version,
        read_dtype-put meta.dtype s5,
        read_u32-put_u32 meta.first_layer s6 r.first_layer,
        read_u32-put_u32 meta.last_layer s7 r.last_layer,
        read_u64-put_u64 meta.prefix_hash s8 r.prefix_hash,
        read_u64-put_u64 k s9 (omega (arith, r.prefix_length)),
        short_prefix,
        read_tokens-put_tokens meta.prefix s10 r.prefix,
        read_u64-put_u64 meta.valid_token_count s11 r.valid_token_count,
        read_u64-put_u64 meta.payload_size s12 r.payload_size,
        read_u64-put_u64 sum rest p,
      )
      refl
