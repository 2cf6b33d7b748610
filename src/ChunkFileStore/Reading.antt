-- ===== src/ChunkFileStore/Reading.antt =====
-- The header that `write` puts is read back, and what each step of a reader that succeeds has found.
use Prim.Native.Nat.{bit_xor}
use mathlib.Core.List.{append_assoc}
use native.Mathlib.Nat.{mod-eq_of_lt}
use kvflux.Base.{
  ℕ, zero, suc, ◌-◌, ◌*◌, ◌%◌, ◌^◌, ◌<◌, ◌≡◌, refl, sym, ap, subst, ◌∙◌, inl, inr, Bool, true,
  false, List, [], ◌∷◌, ◌++◌, arith, ◌==◌, ==_refl, if◌then◌else◌, length, length-append, ok,
  corrupt_error, ◌>>=◌, return, throw, Result-cases, ok-injective,
}
use kvflux.BlockManager.{Tokens}
use kvflux.Layout.{DType, float16, bfloat16, float32}
use kvflux.CacheDirectory.{dtype_code}
use kvflux.ChunkFileStore.{ChunkFileMeta}
use kvflux.ChunkFileStore.Bytes.{
  put_u32, put_u64, put_le, Reader, read_le, Bytes, read_le-put, take-append, length-put_le,
}
use kvflux.ChunkFileStore.Header.{
  put_tokens, put_fields, serialize_header, fill_in, chunk_checksum, checksum_from, finish, encode,
  check, read_tokens, read_dtype, read_header,
}
use kvflux.ChunkFileStore.Parsing.{InRange, read_fields-put_fields, read_u64-put_u64}

checksum_from-lt : (h : ℕ) (bs : List ℕ) → h < 2 ^ 64 → checksum_from h bs < 2 ^ 64
checksum_from-lt h [] p = p
checksum_from-lt h (b ∷ bs) p =
    checksum_from-lt (bit_xor h b * 1099511628211 % 2 ^ 64) bs (omega arith)

pub chunk_checksum-lt : (bs : List ℕ) → chunk_checksum bs < 18446744073709551616
unfolding chunk_checksum
chunk_checksum-lt bs = checksum_from-lt 1469598103934665603 bs (omega arith)

pub fill_in-serialize_header :
    (meta : ChunkFileMeta) (sum : ℕ)
    → fill_in (serialize_header meta) sum ≡ put_fields meta ++ put_u64 sum
unfolding fill_in serialize_header
fill_in-serialize_header meta sum =
    let size : length (put_fields meta ++ put_u64 0) - 8 ≡ length (put_fields meta) =
      omega (arith, length-append (put_fields meta) (put_u64 0), length-put_le 8 0) in
    rw size (
      ap (λ (l : List ℕ). l ++ put_u64 sum)
        (take-append (put_fields meta) (put_u64 0) (length (put_fields meta)) refl))

-- The header that `write` puts is read back, and the payload follows it.
pub read_header-encode :
    (meta : ChunkFileMeta) (payload : List ℕ)
    → InRange meta
    → read_header (encode meta payload)
      ≡ (ok (record { meta = meta; payload_sum = chunk_checksum payload }), payload)
unfolding read_header encode finish
read_header-encode meta payload r =
    let sum : ℕ = chunk_checksum payload in
    let header : List ℕ = put_fields meta ++ put_u64 sum in
    let whole : header ++ (put_u64 (chunk_checksum header) ++ payload)
        ≡ put_fields meta ++ (put_u64 sum ++ (put_u64 (chunk_checksum header) ++ payload)) =
      append_assoc (put_fields meta) (put_u64 sum) (put_u64 (chunk_checksum header) ++ payload) in
    let outer = append_assoc header (put_u64 (chunk_checksum header)) payload in
    rw
      (
        fill_in-serialize_header meta sum,
        outer,
        whole,
        read_fields-put_fields meta sum (put_u64 (chunk_checksum header) ++ payload) r
            (chunk_checksum-lt payload),
        read_u64-put_u64 (chunk_checksum header) payload (chunk_checksum-lt header),
        fill_in-serialize_header meta sum,
        ==_refl (chunk_checksum header),
      )
      refl

-- The parts of a reader that succeeded.
pub bind_ok :
    {A B : Type 0} (m : Reader A) (f : A → Reader B) (s : List ℕ) (b : B) (s' : List ℕ)
    → (m >>= f) s ≡ (ok b, s')
    → (a : A) × (t : List ℕ) × (m s ≡ (ok a, t)) × (f a t ≡ (ok b, s'))
bind_ok m f s b s' e = elim (Result-cases (m s).0) [
  | inr (x, q) ↦ absurd (let u = ap (λ r. r.0) (let w = rw q at e in w) in cc)
  | inl (a, q) ↦ (a, (m s).1, λ i. (q i, (m s).1), let w = rw q at e in w)
]

pub check_ok :
    (b : Bool) (s s' : List ℕ) (u : Unit {0}) → check b s ≡ (ok u, s') → (b ≡ true) × (s ≡ s')
check_ok true s s' u e = (refl, ap (λ r. r.1) e)
check_ok false s s' u e = absurd (let w = ap (λ r. r.0) e in cc)

pub return_ok :
    {A : Type 0} (a b : A) (s s' : List ℕ) → return a s ≡ (ok b, s') → (a ≡ b) × (s ≡ s')
return_ok a b s s' e = (ok-injective (ap (λ r. r.0) e), ap (λ r. r.1) e)

pub read_u32-put :
    (v : ℕ) (s rest : List ℕ)
    → Bytes s
    → read_le 4 s ≡ (ok v, rest)
    → (s ≡ put_u32 v ++ rest) × (v < 4294967296) × Bytes rest
read_u32-put v s rest b e =
    let (whole, fits, left) = read_le-put 4 v s rest b e in
    let small : v < 4294967296 = omega (arith, fits) in
    (whole ∙ ap (λ k. put_le 4 k ++ rest) (sym (mod-eq_of_lt small)), small, left)

pub read_tokens-put :
    (n : ℕ) (ts : Tokens) (s rest : List ℕ)
    → Bytes s
    → read_tokens n s ≡ (ok ts, rest)
    → (length ts ≡ n) × (s ≡ put_tokens ts ++ rest) × Bytes rest
unfolding read_tokens
read_tokens-put zero ts s rest b e =
    let (none_read, same) = return_ok [] ts s rest e in
    rw⁻¹ none_read (refl, same, subst Bytes same b)
read_tokens-put (suc n) ts s rest b e =
    let (t, s1, first, e1) = bind_ok (read_le 4) _ s ts rest e in
    let (whole, _, b1) = read_u32-put t s s1 b first in
    let (more, s2, then_, e2) = bind_ok (read_tokens n) _ s1 ts rest e1 in
    let (size, whole', b2) = read_tokens-put n more s1 s2 b1 then_ in
    let (all, same) = return_ok (t ∷ more) ts s2 rest e2 in
    rw⁻¹ all (
      ap suc size,
      whole
          ∙ (ap (λ l. put_u32 t ++ l) (whole' ∙ ap (λ l. put_tokens more ++ l) same)
              ∙ sym (append_assoc (put_u32 t) (put_tokens more) rest)),
      subst Bytes same b2,
    )

pub read_dtype-put :
    (d : DType) (s rest : List ℕ)
    → Bytes s
    → read_dtype s ≡ (ok d, rest)
    → (s ≡ put_u32 (dtype_code d) ++ rest) × Bytes rest
read_dtype-put d s rest b e =
    let (code, s1, first, e1) = bind_ok (read_le 4) _ s d rest e in
    let (whole, _, b1) = read_u32-put code s s1 b first in
    let known : (dtype_code d ≡ code) × (s1 ≡ rest) = code_known code d s1 rest e1 in
    (
      whole
          ∙ (ap (λ k. put_u32 k ++ s1) (sym known.0)
              ∙ ap (λ l. put_u32 (dtype_code d) ++ l) known.1),
      subst Bytes known.1 b1,
    )
  where
    code_known :
        (code : ℕ) (d : DType) (s rest : List ℕ)
        → (if code == 0
              then return float16
              else if code == 1
              then return bfloat16
              else if code == 2
              then return float32
              else throw corrupt_error)
            s
          ≡ (ok d, rest)
        → (dtype_code d ≡ code) × (s ≡ rest)
    code_known code d s rest e = ground arith
