-- ===== src/ChunkFileStore/Tests.antt =====
-- The theorems on concrete stores.
use mathlib.Core.Option.{none, some}
use kvflux.Base.{
  ℕ, ◌+◌, ◌≤◌, ◌≡◌, ◌≢◌, refl, ltb, ◌&&◌, Bool, true, false, List, [], ◌∷◌, ◌++◌, arith, length, ok,
  err, store_error, corrupt_error,
}
use kvflux.Layout.{bfloat16}
use kvflux.ChunkFileStore.{ChunkFileMeta, same_identity}
use kvflux.ChunkFileStore.Bytes.{Bytes, put_le}
use kvflux.ChunkFileStore.Header.{
  put_fields, serialize_header, finish, encode, fill_in, chunk_checksum, read_header, read_fields,
  read_tokens, read_name, read_fixed, read_prefix, read_tail,
}
use kvflux.ChunkFileStore.Bytes.{read_all, read_le, take_le}
use kvflux.ChunkFileStore.Parsing.{InRange}
use kvflux.ChunkFileStore.Files.{
  Store, file_at, open_store, rename_refused, write, save, read, read_payload, exists, erase,
}
use kvflux.ChunkFileStore.Quota.{Within, Given, file_size, write_call, erase_call, run, run-Within}
use kvflux.ChunkFileStore.Payloads.{read-write, read-encode_only}
use kvflux.ChunkFileStore.Failures.{Kept, write-Kept, erase-read}

-- A chunk of three tokens and of two bytes.
abbrev meta : ChunkFileMeta
meta = record {
  model_id = 113 ∷ 55 ∷ [];
  layout_version = 1;
  dtype = bfloat16;
  first_layer = 0;
  last_layer = 3;
  prefix_hash = 81985529216486895;
  prefix = 5 ∷ 900 ∷ 4294967290 ∷ [];
  valid_token_count = 3;
  payload_size = 2;
}

abbrev payload : List ℕ
payload = 200 ∷ 17 ∷ []

-- A store of 1000 bytes with an older file for slot 3 and another file.
abbrev two_files : Store
two_files = record {
  quota_bytes = 1000;
  stored_bytes = 5;
  files = (3, 1 ∷ 2 ∷ []) ∷ (7, 9 ∷ 9 ∷ 9 ∷ []) ∷ [];
  temporaries = [];
}

two_files-Within : Within two_files
two_files-Within = record {
  quota = omega arith;
  counted = refl;
  fits = omega arith;
  apart = (refl, (refl, tt));
}

meta-InRange : InRange meta
meta-InRange = record {
  model_id = omega arith;
  layout_version = omega arith;
  first_layer = omega arith;
  last_layer = omega arith;
  prefix_hash = omega arith;
  prefix = (omega arith, (omega arith, (omega arith, tt)));
  prefix_length = omega arith;
  valid_token_count = omega arith;
  payload_size = omega arith;
}

header_size : file_size meta ≡ 92
unfolding put_fields put_le
header_size = refl

meta-Given : Given meta payload
meta-Given = record { enough = omega arith; small = omega (arith, header_size) }

read-write_example :
    let after = (write none 3 meta payload two_files).1 in
    ((write none 3 meta payload two_files).0 ≡ ok tt)
    × (read after 3 meta 4096 ≡ ok (some (meta, payload)))
    × ((other : ℕ) → other ≢ 3 → file_at after.files other ≡ file_at two_files.files other)
read-write_example =
    read-write 3 meta meta payload 4096 two_files two_files-Within meta-InRange meta-Given refl refl
      (omega arith) (omega (arith, header_size))

-- Slot 3 holds a chunk, with one more byte at the end of its file.
abbrev one_chunk : Store
unfolding open_store encode
one_chunk = open_store 1000 ((3, encode meta payload ++ 0 ∷ []) ∷ []) []

abbrev are_bytes : List ℕ → Bool
are_bytes [] = true
are_bytes (b ∷ bs) = ltb b 256 && are_bytes bs

are_bytes_sound : (bs : List ℕ) → are_bytes bs ≡ true → Bytes bs
are_bytes_sound [] e = tt
are_bytes_sound (b ∷ bs) e = (ground arith, are_bytes_sound bs (ground arith))

read-encode_only_example :
    ((rest : List ℕ) × (encode meta payload ++ 0 ∷ [] ≡ encode meta payload ++ rest))
    × (same_identity meta meta ≡ true)
    × (length payload ≡ meta.payload_size)
    × (meta.payload_size ≤ 4096)
unfolding open_store encode finish fill_in serialize_header put_fields put_le read read_payload
    read_header read_fields read_name read_fixed read_prefix read_tail read_tokens read_all read_le
    take_le chunk_checksum
read-encode_only_example =
    read-encode_only one_chunk 3 meta meta payload (encode meta payload ++ 0 ∷ []) 4096 refl
      (are_bytes_sound (encode meta payload ++ 0 ∷ []) refl) refl

run-Within_example : Within (
    run
      (write_call none 3 meta payload
        ∷ erase_call false 7
        ∷ write_call (some rename_refused) 3 meta payload
        ∷ [])
      two_files)
run-Within_example =
    run-Within
      (write_call none 3 meta payload
        ∷ erase_call false 7
        ∷ write_call (some rename_refused) 3 meta payload
        ∷ [])
      two_files two_files-Within (meta-Given, (meta-Given, tt))

write-Kept_example :
    Kept
      (some rename_refused)
      store_error
      two_files
      (write (some rename_refused) 3 meta payload two_files).1
unfolding write save finish fill_in serialize_header put_fields put_le
write-Kept_example = write-Kept (some rename_refused) 3 meta payload two_files store_error refl

erase-read_example :
    let after = (erase false 3 two_files).1 in
    ((erase false 3 two_files).0 ≡ ok tt)
    × (read after 3 meta 4096 ≡ ok none)
    × (exists after 3 ≡ false)
    × (after.stored_bytes + 2 ≡ 5)
erase-read_example = erase-read 3 two_files (1 ∷ 2 ∷ []) meta 4096 two_files-Within refl

-- A file with another byte in the payload is refused.
abbrev damaged : Store
unfolding open_store finish
damaged = open_store 1000 ((3, finish meta payload ++ 200 ∷ 18 ∷ []) ∷ []) []

damaged_file : read damaged 3 meta 4096 ≡ err corrupt_error
unfolding open_store encode finish fill_in serialize_header put_fields put_le read read_payload
    read_header read_fields read_name read_fixed read_prefix read_tail read_tokens read_all read_le
    take_le chunk_checksum
damaged_file = refl
