-- ===== src/ChunkFileStore/Payloads.antt =====
-- What `read` returns after `write`, and of any file.
use mathlib.Core.List.{append_assoc, append-nil}
use mathlib.Core.Option.{Option, none, some}
use mathlib.Core.Logic.{◌≢◌}
use kvflux.Base.{
  ℕ, ◌+◌, ◌≤◌, ◌≡◌, refl, sym, ap, subst, ◌∙◌, true, false, not, List, [], ◌++◌, arith, ltb, ◌==◌,
  ==_eq, ==_refl, ==_ne, length, take, ok, ◌>>=◌, return,
}
use kvflux.ChunkFileStore.{ChunkFileMeta, same_identity}
use kvflux.ChunkFileStore.Bytes.{
  Reader, read_all, read_all-append, read_all-Read, take-append, put_u64, Bytes,
}
use kvflux.ChunkFileStore.Header.{
  chunk_checksum, put_fields, finish, encode, check, Parsed, read_header,
}
use kvflux.ChunkFileStore.Parsing.{InRange}
use kvflux.ChunkFileStore.Reading.{
  fill_in-serialize_header, read_header-encode, bind_ok, check_ok, return_ok,
}
use kvflux.ChunkFileStore.Accepting.{read_header-put}
use kvflux.ChunkFileStore.Files.{
  file_at, unlink, publish, total, Store, save, write, read, read_payload,
}
use kvflux.ChunkFileStore.Quota.{Within, Given, file_size, write_eq, file_at-unlink}

read_payload-fresh :
    (meta expected : ChunkFileMeta) (payload : List ℕ) (out_capacity : ℕ)
    → length payload ≡ meta.payload_size
    → same_identity meta expected ≡ true
    → meta.payload_size ≤ out_capacity
    → read_payload expected out_capacity
        (record { meta = meta; payload_sum = chunk_checksum payload })
        payload
      ≡ (ok (meta, payload), [])
unfolding read_payload
read_payload-fresh meta expected payload out_capacity e same fits =
    let room : not (ltb out_capacity meta.payload_size) ≡ true = ground arith in
    let all : read_all meta.payload_size payload ≡ (ok payload, []) =
      let w = read_all-append payload [] meta.payload_size e in
      subst (λ l. read_all meta.payload_size l ≡ (ok payload, [])) (append-nil payload) w in
    rw (same, room, all, ==_refl (chunk_checksum payload)) refl

-- The file that `write` makes, read.
pub read-encode :
    (slot : ℕ) (meta expected : ChunkFileMeta) (payload : List ℕ) (out_capacity : ℕ) (st : Store)
    → InRange meta
    → length payload ≡ meta.payload_size
    → same_identity meta expected ≡ true
    → meta.payload_size ≤ out_capacity
    → file_at st.files slot ≡ some (encode meta payload)
    → read st slot expected out_capacity ≡ ok (some (meta, payload))
unfolding read
read-encode slot meta expected payload out_capacity st r e same fits there =
    let back = read_header-encode meta payload r in
    let out = read_payload-fresh meta expected payload out_capacity e same fits in
    rw (there, read, back, out) refl

-- What `write` does if the quota allows it and no system call is refused.
write-saves :
    (slot : ℕ) (meta : ChunkFileMeta) (payload : List ℕ) (st : Store)
    → Within st
    → Given meta payload
    → length payload ≡ meta.payload_size
    → total (unlink st.files slot) + file_size meta ≤ st.quota_bytes
    → write none slot meta payload st
      ≡ save none slot (encode meta payload) (total (unlink st.files slot) + file_size meta) st
unfolding encode
write-saves slot meta payload st w g e quota =
    let whole : take meta.payload_size payload ≡ payload =
      let t = take-append payload [] meta.payload_size e in
      subst (λ l. take meta.payload_size l ≡ payload) (append-nil payload) t in
    let within : ltb st.quota_bytes (total (unlink st.files slot) + file_size meta) ≡ false =
      ground arith in
    rw (write_eq none slot meta payload st w g, within, whole) refl

-- A chunk that is written is read back, under these conditions. The store counts its files right and
-- is within its quota, which is below 2 ^ 63. The model id has at most 4096 bytes, the prefix at most
-- 2 ^ 22 tokens, the other fields lie in the ranges of their types, and the payload has the length
-- that the fields state. The other files and the new one are within the quota, and no system call is
-- refused. Then `write` returns, `read` of its slot with the same identity and enough room gives the
-- fields and the payload, and every other slot has the file that it had.
pub read-write :
    (slot : ℕ) (meta expected : ChunkFileMeta) (payload : List ℕ) (out_capacity : ℕ) (st : Store)
    → Within st
    → InRange meta
    → Given meta payload
    → length payload ≡ meta.payload_size
    → same_identity meta expected ≡ true
    → meta.payload_size ≤ out_capacity
    → total (unlink st.files slot) + file_size meta ≤ st.quota_bytes
    → let after = (write none slot meta payload st).1 in
      ((write none slot meta payload st).0 ≡ ok tt)
      × (read after slot expected out_capacity ≡ ok (some (meta, payload)))
      × ((other : ℕ) → other ≢ slot → file_at after.files other ≡ file_at st.files other)
unfolding save
read-write slot meta expected payload out_capacity st w r g e same fits quota =
    let stored : ℕ = total (unlink st.files slot) + file_size meta in
    let here : file_at (publish st.files slot (encode meta payload)) slot
        ≡ some (encode meta payload) =
      rw (==_refl slot) refl in
    rw (write-saves slot meta payload st w g e quota) (
      refl,
      read-encode slot meta expected payload out_capacity
          (save none slot (encode meta payload) stored st).1 r e same fits here,
      λ other n. rw (==_ne slot other (λ q. n (sym q))) (file_at-unlink st.files slot other n),
    )

read_payload-Read :
    (expected : ChunkFileMeta) (out_capacity : ℕ) (p : Parsed) (meta : ChunkFileMeta)
    (payload s rest : List ℕ)
    → Bytes s
    → read_payload expected out_capacity p s ≡ (ok (meta, payload), rest)
    → (p.meta ≡ meta)
      × (same_identity meta expected ≡ true)
      × (meta.payload_size ≤ out_capacity)
      × (length payload ≡ meta.payload_size)
      × (chunk_checksum payload ≡ p.payload_sum)
      × (s ≡ payload ++ rest)
unfolding read_payload
read_payload-Read expected out_capacity p meta payload s rest b e =
    let (u, s0, c0, e0) =
      bind_ok (check (same_identity p.meta expected)) _ s (meta, payload) rest e in
    let (same, k0) = check_ok (same_identity p.meta expected) s s0 u c0 in
    let (u1, s1, c1, e1) =
      bind_ok (check (not (ltb out_capacity p.meta.payload_size))) _ s0 (meta, payload) rest e0 in
    let (room, k1) = check_ok (not (ltb out_capacity p.meta.payload_size)) s0 s1 u1 c1 in
    let (out, s2, a2, e2) = bind_ok (read_all p.meta.payload_size) _ s1 (meta, payload) rest e1 in
    let r2 = read_all-Read p.meta.payload_size s1 out s2 (subst Bytes (k0 ∙ k1) b) a2 in
    let (u3, s3, c3, e3) =
      bind_ok (check (chunk_checksum out == p.payload_sum)) _ s2 (meta, payload) rest e2 in
    let (sum, k3) = check_ok (chunk_checksum out == p.payload_sum) s2 s3 u3 c3 in
    let (found, left) = return_ok (p.meta, out) (meta, payload) s3 rest e3 in
    let is_meta : p.meta ≡ meta = ap (λ f. f.0) found in
    let is_out : out ≡ payload = ap (λ f. f.1) found in
    let small : p.meta.payload_size ≤ out_capacity = ground arith in
    (
      is_meta,
      subst (λ m. same_identity m expected ≡ true) is_meta same,
      subst (λ (m : ChunkFileMeta). m.payload_size ≤ out_capacity) is_meta small,
      rw⁻¹ (is_meta, is_out) r2.length,
      rw⁻¹ is_out (==_eq (chunk_checksum out) p.payload_sum sum),
      k0 ∙ (k1 ∙ (r2.whole ∙ rw⁻¹ is_out (ap (λ l. out ++ l) (k3 ∙ left)))),
    )

encode_append :
    (meta : ChunkFileMeta) (payload rest : List ℕ)
    → let header = put_fields meta ++ put_u64 (chunk_checksum payload) in
      encode meta payload ++ rest ≡ header ++ (put_u64 (chunk_checksum header) ++ (payload ++ rest))
unfolding encode finish
encode_append meta payload rest =
    rw (fill_in-serialize_header meta (chunk_checksum payload)) (simp append_assoc)

-- What `read` returns for a slot stands in its file exactly as `write` would have put it, up to bytes
-- at the end of the file that `read` does not look at; its identity is the expected one, the payload
-- has the length that the fields say, and that length is within the capacity of the destination.
pub read-encode_only :
    (st : Store) (slot : ℕ) (expected meta : ChunkFileMeta) (payload bytes : List ℕ)
    (out_capacity : ℕ)
    → file_at st.files slot ≡ some bytes
    → Bytes bytes
    → read st slot expected out_capacity ≡ ok (some (meta, payload))
    → ((rest : List ℕ) × (bytes ≡ encode meta payload ++ rest))
      × (same_identity meta expected ≡ true)
      × (length payload ≡ meta.payload_size)
      × (meta.payload_size ≤ out_capacity)
unfolding read
read-encode_only st slot expected meta payload bytes out_capacity there b e =
    let reader : Reader (Option (ChunkFileMeta × List ℕ)) = read_header >>= λ parsed.
    read_payload expected out_capacity parsed >>= λ found. return (some found) in
    let rest : List ℕ = (reader bytes).1 in
    let q : (reader bytes).0 ≡ ok (some (meta, payload)) = let u = rw (there, read) at e in u in
    let (p, s1, first, e1) =
      bind_ok read_header _ bytes (some (meta, payload)) rest (λ i. (q i, rest)) in
    let (header, b1) = read_header-put p bytes s1 b first in
    let (found, s2, second, e2) =
      bind_ok (read_payload expected out_capacity p) _ s1 (some (meta, payload)) rest e1 in
    let (same, _) = return_ok (some found) (some (meta, payload)) s2 rest e2 in
    let is_found : found ≡ (meta, payload) = cc in
    let second' : read_payload expected out_capacity p s1 ≡ (ok (meta, payload), s2) =
      subst (λ f. read_payload expected out_capacity p s1 ≡ (ok f, s2)) is_found second in
    let (is_meta, identity, room, size, sum, left) =
      read_payload-Read expected out_capacity p meta payload s1 s2 b1 second' in
    (
      (s2, header ∙ rw (is_meta, sym sum, left) (sym (encode_append meta payload s2))),
      identity,
      size,
      room,
    )
