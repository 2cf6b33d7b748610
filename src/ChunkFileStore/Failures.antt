-- ===== src/ChunkFileStore/Failures.antt =====
-- Writes that fail, and the end of a file.
use mathlib.Core.Option.{Option, none, some}
use mathlib.Core.Logic.{◌≢◌}
use kvflux.Base.{
  ==_refl, ℕ, ◌+◌, ◌%◌, ◌≡◌, refl, inl, inr, ◌⊎◌, false, List, ◌++◌, arith, ltb, ◌||◌, Bool, true,
  Bool-cases, Option-cases, length, take, ok, err, Error, store_error, quota_error,
}
use kvflux.ChunkFileStore.{ChunkFileMeta}
use kvflux.ChunkFileStore.Header.{finish, encode}
use kvflux.ChunkFileStore.Files.{
  file_at, size_at, Store, Fault, open_refused, write_refused, close_refused, rename_refused,
  recount, save, write, read, exists, erase,
}
use kvflux.ChunkFileStore.Quota.{Within, file_at-unlink_self, recount_eq, total-unlink}

-- What a failed call leaves: the error, and the published files and their count as they were.
abbrev pub Kept : Option Fault → Error → Store → Store → Type 0
Kept fault e st after =
    (after.files ≡ st.files)
    × (after.stored_bytes ≡ st.stored_bytes)
    × ((e ≡ quota_error) ⊎ ((e ≡ store_error) × (fault ≢ none)))

save-Kept :
    (fault : Option Fault) (slot : ℕ) (bytes : List ℕ) (stored : ℕ) (st : Store) (e : Error)
    → (save fault slot bytes stored st).0 ≡ err e
    → Kept fault e st (save fault slot bytes stored st).1
unfolding save
save-Kept none slot bytes stored st e h = absurd (let w = h in cc)
save-Kept (some open_refused) slot bytes stored st e h = (refl, refl, inr (cc, λ q. cc))
save-Kept (some write_refused) slot bytes stored st e h = (refl, refl, inr (cc, λ q. cc))
save-Kept (some close_refused) slot bytes stored st e h = (refl, refl, inr (cc, λ q. cc))
save-Kept (some rename_refused) slot bytes stored st e h = (refl, refl, inr (cc, λ q. cc))

-- A `write` that throws, for the quota or because a system call is refused, leaves the published
-- files and their count as they were: the old chunk of the slot can still be read. It throws for no
-- other reason.
pub write-Kept :
    (fault : Option Fault) (slot : ℕ) (meta : ChunkFileMeta) (payload : List ℕ) (st : Store)
    (e : Error)
    → (write fault slot meta payload st).0 ≡ err e
    → Kept fault e st (write fault slot meta payload st).1
unfolding write
write-Kept fault slot meta payload st e h =
    let body : List ℕ = take meta.payload_size payload in
    let file_bytes : ℕ = (length (finish meta body) + meta.payload_size) % 18446744073709551616 in
    let stored : ℕ = recount st.stored_bytes (size_at st.files slot) file_bytes in
    elim (Bool-cases (ltb st.quota_bytes file_bytes || ltb st.quota_bytes stored)) [
      | inl over ↦ let h' = rw over at h in rw over (refl, refl, inl cc)
      | inr fits ↦
          let h' = rw fits at h in
          rw fits (save-Kept fault slot (finish meta body ++ body) stored st e h')
    ]

-- `erase` of a slot that has a file, if `unlink` is not refused: it returns, `read` then finds no
-- chunk, `exists` is false, and the count has dropped by the size of the file.
pub erase-read :
    (slot : ℕ) (st : Store) (bytes : List ℕ) (expected : ChunkFileMeta) (out_capacity : ℕ)
    → Within st
    → file_at st.files slot ≡ some bytes
    → let after = (erase false slot st).1 in
      ((erase false slot st).0 ≡ ok tt)
      × (read after slot expected out_capacity ≡ ok none)
      × (exists after slot ≡ false)
      × (after.stored_bytes + length bytes ≡ st.stored_bytes)
unfolding erase read exists
erase-read slot st bytes expected out_capacity w e =
    let gone = file_at-unlink_self st.files slot w.apart in
    let size : size_at st.files slot ≡ length bytes = rw (e, size_at) refl in
    let sum =
      recount_eq st slot 0 w (omega arith)
        (omega (arith, total-unlink st.files slot, w.fits, w.quota)) in
    let count : recount st.stored_bytes (length bytes) 0 + length bytes ≡ st.stored_bytes =
      let s = rw size at sum in omega (arith, s, size, w.counted, total-unlink st.files slot) in
    rw (e, erase) (refl, rw (gone, read) refl, rw (gone, exists) refl, count)

save-published :
    (fault : Option Fault) (slot : ℕ) (bytes : List ℕ) (stored : ℕ) (st : Store)
    → (save fault slot bytes stored st).0 ≡ ok tt
    → file_at (save fault slot bytes stored st).1.files slot ≡ some bytes
unfolding save
save-published none slot bytes stored st h = rw (==_refl slot) refl
save-published (some open_refused) slot bytes stored st h = absurd (let w = h in cc)
save-published (some write_refused) slot bytes stored st h = absurd (let w = h in cc)
save-published (some close_refused) slot bytes stored st h = absurd (let w = h in cc)
save-published (some rename_refused) slot bytes stored st h = absurd (let w = h in cc)

-- The file after a `write` that returns.
pub write-encode :
    (fault : Option Fault) (slot : ℕ) (meta : ChunkFileMeta) (payload : List ℕ) (st : Store)
    → (write fault slot meta payload st).0 ≡ ok tt
    → file_at (write fault slot meta payload st).1.files slot
      ≡ some (encode meta (take meta.payload_size payload))
unfolding write encode
write-encode fault slot meta payload st h =
    let body : List ℕ = take meta.payload_size payload in
    let file_bytes : ℕ = (length (finish meta body) + meta.payload_size) % 18446744073709551616 in
    let stored : ℕ = recount st.stored_bytes (size_at st.files slot) file_bytes in
    elim (Bool-cases (ltb st.quota_bytes file_bytes || ltb st.quota_bytes stored)) [
      | inl over ↦ absurd (let h' = rw over at h in cc)
      | inr fits ↦
          let h' = rw fits at h in
          rw fits (save-published fault slot (finish meta body ++ body) stored st h')
    ]

-- An `erase` that throws does nothing.
pub erase_err :
    (refused : Bool) (slot : ℕ) (st : Store) (e : Error)
    → (erase refused slot st).0 ≡ err e
    → (erase refused slot st).1 ≡ st
unfolding erase
erase_err true slot st e h = elim (Option-cases (file_at st.files slot)) [
  | inl q ↦ rw (q, erase) refl
  | inr (bytes, q) ↦ rw (q, erase) refl
]
erase_err false slot st e h = elim (Option-cases (file_at st.files slot)) [
  | inl q ↦ rw (q, erase) refl
  | inr (bytes, q) ↦ absurd (let w = rw (q, erase) at h in cc)
]
