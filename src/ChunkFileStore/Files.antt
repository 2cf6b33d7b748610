-- ===== src/ChunkFileStore/Files.antt =====
-- The files and the operations of the store.
use mathlib.Core.Option.{Option, none, some}
use kvflux.Base.{
  ℕ, ◌+◌, ◌-◌, ◌%◌, Bool, true, false, not, List, [], ◌∷◌, ◌++◌, ltb, ◌==◌, ◌||◌, if◌then◌else◌,
  length, take, Result, ok, err, store_error, miss_error, quota_error, ◌>>=◌, return,
}
use kvflux.ChunkFileStore.{ChunkFileMeta, same_identity}
use kvflux.ChunkFileStore.Bytes.{Reader, read_all}
use kvflux.ChunkFileStore.Header.{chunk_checksum, finish, check, Parsed, read_header}

abbrev pub Files : Type 0
Files = List (ℕ × List ℕ)

-- `stat` and `open` of the file of a slot.
abbrev pub file_at : Files → ℕ → Option (List ℕ)
file_at [] slot = none
file_at (f ∷ fs) slot = if f.0 == slot then some f.1 else file_at fs slot

-- `unlink`
abbrev pub unlink : Files → ℕ → Files
unlink [] slot = []
unlink (f ∷ fs) slot = if f.0 == slot then fs else f ∷ unlink fs slot

-- A file with this content, in the place of the one that had its name: `rename`, or `open` with
-- `O_TRUNC` and the writes.
abbrev pub publish : Files → ℕ → List ℕ → Files
publish fs slot bytes = (slot, bytes) ∷ unlink fs slot

abbrev pub size_at : Files → ℕ → ℕ
size_at fs slot = elim (file_at fs slot) [ none ↦ 0 | some bytes ↦ length bytes ]

abbrev pub total : Files → ℕ
total [] = 0
total (f ∷ fs) = length f.1 + total fs

-- `temporaries` are the files that end in `.tmp`.
pub record Store : Type 0 where
  pub quota_bytes : ℕ
  pub stored_bytes : ℕ
  pub files : Files
  pub temporaries : Files

-- The constructor, on what the directory holds.
unfoldable pub open_store : ℕ → Files → Files → Store
open_store quota files temporaries = record {
  quota_bytes = quota;
  stored_bytes = total files % 18446744073709551616;
  files = files;
  temporaries = temporaries;
}

-- The system calls of `write` that may be refused.
pub data Fault : Type 0 where
  open_refused write_refused close_refused rename_refused : Fault

-- `stored_bytes_ - replaced_bytes + file_bytes`
abbrev pub recount : ℕ → ℕ → ℕ → ℕ
recount stored replaced size =
    (stored + (18446744073709551616 - replaced) + size) % 18446744073709551616

-- `write` behind the test of the quota.
unfoldable pub save : Option Fault → ℕ → List ℕ → ℕ → Store → Result (Unit {0}) × Store
save (some open_refused) slot bytes stored st = (err store_error, st)
save (some write_refused) slot bytes stored st =
    (err store_error, record st { temporaries = unlink st.temporaries slot })
save (some close_refused) slot bytes stored st =
    (err store_error, record st { temporaries = publish st.temporaries slot bytes })
save (some rename_refused) slot bytes stored st =
    (err store_error, record st { temporaries = publish st.temporaries slot bytes })
save none slot bytes stored st = (
  ok tt,
  record st {
    files = publish st.files slot bytes;
    temporaries = unlink st.temporaries slot;
    stored_bytes = stored;
  },
)

-- The first `meta.payload_size` bytes at `payload` are written.
unfoldable pub write : Option Fault → ℕ → ChunkFileMeta → List ℕ → Store → Result (Unit {0}) × Store
unfolding save finish
write fault slot meta payload st =
    let body = take meta.payload_size payload in
    let header = finish meta body in
    let file_bytes = (length header + meta.payload_size) % 18446744073709551616 in
    let stored = recount st.stored_bytes (size_at st.files slot) file_bytes in
    if ltb st.quota_bytes file_bytes || ltb st.quota_bytes stored
    then (err quota_error, st)
    else save fault slot (header ++ body) stored st

-- The rest of `read` behind the header. What `out` holds after an exception is not said.
unfoldable pub read_payload : ChunkFileMeta → ℕ → Parsed → Reader (ChunkFileMeta × List ℕ)
unfolding read_all chunk_checksum
read_payload expected out_capacity parsed = check (same_identity parsed.meta expected) >>= λ _.
    check (not (ltb out_capacity parsed.meta.payload_size)) >>= λ _.
    read_all parsed.meta.payload_size >>= λ out.
    check (chunk_checksum out == parsed.payload_sum) >>= λ _. return (parsed.meta, out)

-- `none` where the source returns false.
unfoldable pub read : Store → ℕ → ChunkFileMeta → ℕ → Result (Option (ChunkFileMeta × List ℕ))
unfolding read_header read_payload
read st slot expected out_capacity = elim (file_at st.files slot) [
  | none ↦ ok none
  | some bytes ↦
      ((read_header >>= λ parsed.
      read_payload expected out_capacity parsed >>= λ found. return (some found))
        bytes).0
]

unfoldable pub exists : Store → ℕ → Bool
exists st slot = elim (file_at st.files slot) [ none ↦ false | some bytes ↦ true ]

unfoldable pub erase : Bool → ℕ → Store → Result (Unit {0}) × Store
erase refused slot st = elim (file_at st.files slot) [
  | none ↦ (err miss_error, st)
  | some bytes ↦ if refused then (err store_error, st) else (
    ok tt,
    record st {
      files = unlink st.files slot;
      stored_bytes = recount st.stored_bytes (length bytes) 0;
    },
  )
]
