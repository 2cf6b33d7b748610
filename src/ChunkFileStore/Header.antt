-- ===== src/ChunkFileStore/Header.antt =====
-- The bytes in front of the payload, and reading them back. `read` takes several numbers from one
-- block of bytes; here each is read by itself, which makes no difference, since a short block and a
-- short number throw the same exception.
use Prim.Native.Nat.{bit_xor}
use kvflux.Base.{
  ℕ, zero, suc, ◌-◌, ◌*◌, ◌%◌, ◌^◌, Bool, true, false, not, List, [], ◌∷◌, ◌++◌, ltb, ◌==◌,
  if◌then◌else◌, length, take, list_eq, corrupt_error, ◌>>=◌, return, throw,
}
use kvflux.BlockManager.{Tokens}
use kvflux.Layout.{DType, float16, bfloat16, float32}
use kvflux.CacheDirectory.{dtype_code}
use kvflux.ChunkFileStore.{ChunkFileMeta}
use kvflux.ChunkFileStore.Bytes.{put_u32, put_u64, Reader, read_all, read_le}

-- `chunk_checksum`, from a hash on.
abbrev pub checksum_from : ℕ → List ℕ → ℕ
checksum_from h [] = h
checksum_from h (b ∷ bs) = checksum_from (bit_xor h b * 1099511628211 % 2 ^ 64) bs

unfoldable pub chunk_checksum : List ℕ → ℕ
chunk_checksum bs = checksum_from 1469598103934665603 bs

abbrev pub magic : List ℕ
magic = 75 ∷ 86 ∷ 70 ∷ 88 ∷ []

abbrev pub put_tokens : Tokens → List ℕ
put_tokens [] = []
put_tokens (t ∷ ts) = put_u32 t ++ put_tokens ts

-- The fields of the header up to the checksum of the payload.
unfoldable pub put_fields : ChunkFileMeta → List ℕ
put_fields meta =
    magic
    ++ (put_u32 1
        ++ (put_u32 (length meta.model_id)
            ++ (meta.model_id
                ++ (put_u32 meta.layout_version
                    ++ (put_u32 (dtype_code meta.dtype)
                        ++ (put_u32 meta.first_layer
                            ++ (put_u32 meta.last_layer
                                ++ (put_u64 meta.prefix_hash
                                    ++ (put_u64 (length meta.prefix)
                                        ++ (put_tokens meta.prefix
                                            ++ (put_u64 meta.valid_token_count
                                                ++ put_u64 meta.payload_size)))))))))))

unfoldable pub serialize_header : ChunkFileMeta → List ℕ
unfolding put_fields
serialize_header meta = put_fields meta ++ put_u64 0

-- The checksum of the payload is written over the last eight bytes.
unfoldable pub fill_in : List ℕ → ℕ → List ℕ
fill_in header sum = take (length header - 8) header ++ put_u64 sum

-- The finished header of `write`, with its own checksum at the end.
unfoldable pub finish : ChunkFileMeta → List ℕ → List ℕ
unfolding serialize_header fill_in chunk_checksum
finish meta payload =
    let header = fill_in (serialize_header meta) (chunk_checksum payload) in
    header ++ put_u64 (chunk_checksum header)

-- What `write` writes.
unfoldable pub encode : ChunkFileMeta → List ℕ → List ℕ
unfolding finish
encode meta payload = finish meta payload ++ payload

-- An exception if the test fails.
abbrev pub check : Bool → Reader (Unit {0})
check true = return tt
check false = throw corrupt_error

unfoldable pub read_tokens : ℕ → Reader Tokens
read_tokens zero = return []
read_tokens (suc n) = read_le 4 >>= λ t. read_tokens n >>= λ ts. return (t ∷ ts)

abbrev pub read_dtype : Reader DType
read_dtype = read_le 4 >>= λ code.
    if code == 0
    then return float16
    else if code == 1
    then return bfloat16
    else if code == 2
    then return float32
    else throw corrupt_error

-- The lead and the model id.
unfoldable pub read_name : Reader (List ℕ)
read_name = read_all 4 >>= λ lead. check (list_eq lead magic) >>= λ _. read_le 4 >>= λ version.
    check (version == 1) >>= λ _.
    read_le 4 >>= λ model_len. check (not (ltb 4096 model_len)) >>= λ _. read_all model_len

pub record Fixed : Type 0 where
  pub layout_version : ℕ
  pub dtype : DType
  pub first_layer : ℕ
  pub last_layer : ℕ
  pub prefix_hash : ℕ

unfoldable pub read_fixed : Reader Fixed
read_fixed = read_le 4 >>= λ layout_version. read_dtype >>= λ dtype. read_le 4 >>= λ first_layer.
    read_le 4 >>= λ last_layer. read_le 8 >>= λ prefix_hash. return (record {
      layout_version = layout_version;
      dtype = dtype;
      first_layer = first_layer;
      last_layer = last_layer;
      prefix_hash = prefix_hash;
    })

unfoldable pub read_prefix : Reader Tokens
read_prefix =
    read_le 8 >>= λ prefix_len. check (not (ltb 4194304 prefix_len)) >>= λ _. read_tokens prefix_len

pub record Parsed : Type 0 where
  pub meta : ChunkFileMeta
  pub payload_sum : ℕ

unfoldable pub read_tail : List ℕ → Fixed → Tokens → Reader Parsed
read_tail model_id fixed prefix = read_le 8 >>= λ valid_tokens. read_le 8 >>= λ payload_size.
    read_le 8 >>= λ payload_sum. return (record {
      meta = record {
        model_id = model_id;
        layout_version = fixed.layout_version;
        dtype = fixed.dtype;
        first_layer = fixed.first_layer;
        last_layer = fixed.last_layer;
        prefix_hash = fixed.prefix_hash;
        prefix = prefix;
        valid_token_count = valid_tokens;
        payload_size = payload_size;
      };
      payload_sum = payload_sum;
    })

-- `read` up to the checksum of the payload.
unfoldable pub read_fields : Reader Parsed
read_fields = read_name >>= λ model_id.
    read_fixed >>= λ fixed. read_prefix >>= λ prefix. read_tail model_id fixed prefix

-- The header is built again from its fields, and its checksum compared.
unfoldable pub read_header : Reader Parsed
unfolding read_fields serialize_header fill_in chunk_checksum
read_header = read_fields >>= λ parsed. read_le 8 >>= λ header_sum.
    check (chunk_checksum (fill_in (serialize_header parsed.meta) parsed.payload_sum) == header_sum)
    >>= λ _. return parsed
