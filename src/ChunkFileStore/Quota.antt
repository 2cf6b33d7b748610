-- ===== src/ChunkFileStore/Quota.antt =====
-- The count of bytes and the quota.
use mathlib.Core.Option.{Option, none, some}
use mathlib.Core.Logic.{◌≢◌}
use kvflux.Base.{
  length-take, ℕ, ◌+◌, ◌%◌, ◌≤◌, ◌<◌, ◌≡◌, refl, subst, ◌∙◌, inl, inr, Bool, true, false, List, [],
  ◌∷◌, ◌++◌, arith, ltb, ◌==◌, ==_eq, if◌then◌else◌, Bool-cases, Option-cases, length,
  length-append, take, err, quota_error,
}
use kvflux.ChunkFileStore.{ChunkFileMeta}
use kvflux.ChunkFileStore.Bytes.{put_u64, length-put_le}
use kvflux.ChunkFileStore.Header.{chunk_checksum, put_fields, finish}
use kvflux.ChunkFileStore.Reading.{fill_in-serialize_header}
use kvflux.ChunkFileStore.Files.{
  Files, file_at, unlink, size_at, total, Store, Fault, open_refused, write_refused, close_refused,
  rename_refused, recount, save, write, erase,
}

pub total-unlink : (fs : Files) (slot : ℕ) → total (unlink fs slot) + size_at fs slot ≡ total fs
total-unlink [] slot = refl
total-unlink (f ∷ fs) slot = let rest = total-unlink fs slot in ground arith

pub file_at-unlink :
    (fs : Files) (slot other : ℕ) → other ≢ slot → file_at (unlink fs slot) other ≡ file_at fs other
file_at-unlink [] slot other n = refl
file_at-unlink (f ∷ fs) slot other n = let rest = file_at-unlink fs slot other n in ground arith

-- No two files of one slot.
abbrev pub Apart : Files → Type 0
Apart [] = Unit {0}
Apart (f ∷ fs) = (file_at fs f.0 ≡ none) × Apart fs

pub file_at-unlink_self : (fs : Files) (slot : ℕ) → Apart fs → file_at (unlink fs slot) slot ≡ none
file_at-unlink_self [] slot a = refl
file_at-unlink_self (f ∷ fs) slot a =
    let rest = file_at-unlink_self fs slot a.1 in
    elim (Bool-cases (f.0 == slot)) [
      | inl same ↦ rw same (subst (λ k. file_at fs k ≡ none) (==_eq f.0 slot same) a.0)
      | inr other ↦ rw (other, other) rest
    ]

unlink-Apart : (fs : Files) (slot : ℕ) → Apart fs → Apart (unlink fs slot)
unlink-Apart [] slot a = tt
unlink-Apart (f ∷ fs) slot a = elim (Bool-cases (f.0 == slot)) [
  | inl same ↦ rw same a.1
  | inr other ↦
      let n : f.0 ≢ slot = λ e. absurd (ground arith) in
      rw other (file_at-unlink fs slot f.0 n ∙ a.0, unlink-Apart fs slot a.1)
]

-- What holds of a store between the calls: the count is that of the files, and within the quota. A
-- quota of 2 ^ 63 or more would let the sums pass 2 ^ 64.
pub record Within (st : Store) : Type 0 where
  pub quota : st.quota_bytes < 9223372036854775808
  pub counted : st.stored_bytes ≡ total st.files
  pub fits : total st.files ≤ st.quota_bytes
  pub apart : Apart st.files

pub length-finish :
    (meta : ChunkFileMeta) (payload : List ℕ)
    → length (finish meta payload) ≡ length (put_fields meta) + 16
unfolding finish
length-finish meta payload =
    let sum : ℕ = chunk_checksum payload in
    let header : List ℕ = put_fields meta ++ put_u64 sum in
    rw (fill_in-serialize_header meta sum) (
      omega (
        arith,
        length-append header (put_u64 (chunk_checksum header)),
        length-append (put_fields meta) (put_u64 sum),
        length-put_le 8 sum,
        length-put_le 8 (chunk_checksum header),
      ))

-- What the caller of `write` gives: as many bytes as it says, and a file whose size a number of 64
-- bits holds.
pub record Given (meta : ChunkFileMeta) (payload : List ℕ) : Type 0 where
  pub enough : meta.payload_size ≤ length payload
  pub small : length (put_fields meta) + 16 + meta.payload_size < 18446744073709551616

abbrev pub file_size : ChunkFileMeta → ℕ
file_size meta = length (put_fields meta) + 16 + meta.payload_size

pub recount_eq :
    (st : Store) (slot size : ℕ)
    → Within st
    → size < 18446744073709551616
    → total (unlink st.files slot) + size < 18446744073709551616
    → recount st.stored_bytes (size_at st.files slot) size ≡ total (unlink st.files slot) + size
recount_eq st slot size w p q =
    omega (arith, total-unlink st.files slot, w.counted, w.fits, w.quota)

-- `write`, with the sums of the code read as sums: beyond the quota nothing happens.
pub write_eq :
    (fault : Option Fault) (slot : ℕ) (meta : ChunkFileMeta) (payload : List ℕ) (st : Store)
    → Within st
    → Given meta payload
    → let body = take meta.payload_size payload in
      let after = total (unlink st.files slot) + file_size meta in
      write fault slot meta payload st ≡ (
        if ltb st.quota_bytes after
        then (err quota_error, st)
        else save fault slot (finish meta body ++ body) after st)
unfolding write
write_eq fault slot meta payload st w g =
    let body : List ℕ = take meta.payload_size payload in
    let rest : ℕ = total (unlink st.files slot) in
    let size : (length (finish meta body) + meta.payload_size) % 18446744073709551616
        ≡ file_size meta =
      omega (arith, length-finish meta body, g.small) in
    elim (Bool-cases (ltb st.quota_bytes (file_size meta))) [
      | inl large ↦
          let over : ltb st.quota_bytes (rest + file_size meta) ≡ true = ground arith in
          rw (size, large, over) refl
      | inr fits ↦
          let p : file_size meta ≤ st.quota_bytes = ground arith in
          let q : rest + file_size meta < 18446744073709551616 =
            omega (arith, total-unlink st.files slot, w.fits, w.quota) in
          let sum = recount_eq st slot (file_size meta) w g.small q in rw (size, fits, sum) refl
    ]

module _ (slot : ℕ) (bytes : List ℕ) (after : ℕ) (st : Store) (w : Within st) where
  save-Within :
      (fault : Option Fault)
      → after ≡ total (unlink st.files slot) + length bytes
      → after ≤ st.quota_bytes
      → Within (save fault slot bytes after st).1
  unfolding save
  save-Within none e p = record {
    quota = w.quota;
    counted = omega (arith, e);
    fits = omega (arith, e, p);
    apart = (file_at-unlink_self st.files slot w.apart, unlink-Apart st.files slot w.apart);
  }
  save-Within (some open_refused) e p = w
  save-Within (some write_refused) e p = record {
    quota = w.quota;
    counted = w.counted;
    fits = w.fits;
    apart = w.apart;
  }
  save-Within (some close_refused) e p = record {
    quota = w.quota;
    counted = w.counted;
    fits = w.fits;
    apart = w.apart;
  }
  save-Within (some rename_refused) e p = record {
    quota = w.quota;
    counted = w.counted;
    fits = w.fits;
    apart = w.apart;
  }

pub length-encoded :
    (meta : ChunkFileMeta) (payload : List ℕ)
    → Given meta payload
    → let body = take meta.payload_size payload in
      length (finish meta body ++ body) ≡ file_size meta
length-encoded meta payload g =
    let body : List ℕ = take meta.payload_size payload in
    omega (
      arith,
      length-append (finish meta body) body,
      length-finish meta body,
      length-take meta.payload_size payload g.enough,
    )

pub write-Within :
    (fault : Option Fault) (slot : ℕ) (meta : ChunkFileMeta) (payload : List ℕ) (st : Store)
    → Within st
    → Given meta payload
    → Within (write fault slot meta payload st).1
write-Within fault slot meta payload st w g =
    let rest : ℕ = total (unlink st.files slot) in
    let body : List ℕ = take meta.payload_size payload in
    rw (write_eq fault slot meta payload st w g)
      (elim (Bool-cases (ltb st.quota_bytes (rest + file_size meta))) [
        | inl over ↦ rw over w
        | inr fits ↦ rw fits (
            save-Within slot (finish meta body ++ body) (rest + file_size meta) st w fault
              (omega (arith, length-encoded meta payload g)) (ground arith))
      ])

pub erase-Within :
    (refused : Bool) (slot : ℕ) (st : Store) → Within st → Within (erase refused slot st).1
unfolding erase
erase-Within true slot st w = elim (Option-cases (file_at st.files slot)) [
  | inl e ↦ rw (e, erase) w
  | inr (bytes, e) ↦ rw (e, erase) w
]
erase-Within false slot st w = elim (Option-cases (file_at st.files slot)) [
  | inl e ↦ rw (e, erase) w
  | inr (bytes, e) ↦
      let size : size_at st.files slot ≡ length bytes = rw (e, size_at) refl in
      let sum =
        recount_eq st slot 0 w (omega arith)
          (omega (arith, total-unlink st.files slot, w.fits, w.quota)) in
      rw (e, erase)
        (record {
          quota = w.quota;
          counted = let s = rw size at sum in omega (arith, s);
          fits = omega (arith, total-unlink st.files slot, w.fits);
          apart = unlink-Apart st.files slot w.apart;
        })
]

pub data Call : Type 0 where
  write_call : Option Fault → ℕ → ChunkFileMeta → List ℕ → Call
  erase_call : Bool → ℕ → Call

abbrev pub step : Call → Store → Store
step (write_call fault slot meta payload) st = (write fault slot meta payload st).1
step (erase_call refused slot) st = (erase refused slot st).1

abbrev pub run : List Call → Store → Store
run [] st = st
run (c ∷ cs) st = run cs (step c st)

abbrev pub AllGiven : List Call → Type 0
AllGiven [] = Unit {0}
AllGiven (write_call fault slot meta payload ∷ cs) = Given meta payload × AllGiven cs
AllGiven (erase_call refused slot ∷ cs) = AllGiven cs

-- After any calls of `write` and `erase`, whichever system calls are refused, `stored_bytes` is the
-- sum of the sizes of the published files and not beyond the quota, if it was so before, if the
-- quota is below 2 ^ 63, and if each `write` is given the bytes that it is told and a file size
-- below 2 ^ 64.
pub run-Within : (cs : List Call) (st : Store) → Within st → AllGiven cs → Within (run cs st)
run-Within [] st w g = w
run-Within (write_call fault slot meta payload ∷ cs) st w g =
    run-Within cs (write fault slot meta payload st).1
      (write-Within fault slot meta payload st w g.0) g.1
run-Within (erase_call refused slot ∷ cs) st w g =
    run-Within cs (erase refused slot st).1 (erase-Within refused slot st w) g
