-- ===== src/ChunkFileStore/Bytes.antt =====
-- Little-endian numbers, and reading from the bytes of a file that are left.
use kvflux.Base.{
  length-take, ℕ, zero, suc, ◌+◌, ◌*◌, ◌/◌, ◌%◌, ◌<◌, ◌≡◌, refl, sym, ap, subst, ◌∙◌, inl, inr,
  false, List, [], ◌∷◌, ◌++◌, arith, ltb, if◌then◌else◌, Bool-cases, length, length-append, take,
  drop, Result, ok, err, corrupt_error, ◌>>=◌, return, Result-cases,
}

-- `v >> (8 * i)` for each of the `n` bytes, lowest first.
unfoldable pub put_le : ℕ → ℕ → List ℕ
put_le zero v = []
put_le (suc n) v = v % 256 ∷ put_le n (v / 256)

-- The bytes are put side by side by `|=`, which adds where no bit meets another.
unfoldable pub take_le : List ℕ → ℕ
take_le [] = 0
take_le (b ∷ bs) = b + 256 * take_le bs

abbrev pub put_u32 : ℕ → List ℕ
put_u32 v = put_le 4 (v % 4294967296)

abbrev pub put_u64 : ℕ → List ℕ
put_u64 v = put_le 8 v

-- Reading from a file: the rest of the bytes is the state.
abbrev pub Reader : Type 0 → Type 0
Reader A = List ℕ → Result A × List ℕ

-- `read_all`: a short file is corrupt.
unfoldable pub read_all : ℕ → Reader (List ℕ)
read_all n s = if ltb (length s) n then (err corrupt_error, s) else (ok (take n s), drop n s)

unfoldable pub read_le : ℕ → Reader ℕ
unfolding read_all take_le
read_le n = read_all n >>= λ bs. return (take_le bs)

-- A number that `n` bytes hold.
abbrev pub Fits : ℕ → ℕ → Type 0
Fits zero v = v ≡ 0
Fits (suc n) v = Fits n (v / 256)

pub take_le-put_le : (n v : ℕ) → Fits n v → take_le (put_le n v) ≡ v
unfolding take_le put_le
take_le-put_le zero v f = sym f
take_le-put_le (suc n) v f = omega (arith, take_le-put_le n (v / 256) f)

pub length-put_le : (n v : ℕ) → length (put_le n v) ≡ n
unfolding put_le
length-put_le zero v = refl
length-put_le (suc n) v = ap suc (length-put_le n (v / 256))

pub take-append : (xs ys : List ℕ) (n : ℕ) → length xs ≡ n → take n (xs ++ ys) ≡ xs
take-append [] ys zero e = refl
take-append [] ys (suc n) e = absurd (omega arith)
take-append (x ∷ xs) ys zero e = absurd (omega arith)
take-append (x ∷ xs) ys (suc n) e = ap (λ (l : List ℕ). x ∷ l) (take-append xs ys n (omega arith))

pub drop-append : (xs ys : List ℕ) (n : ℕ) → length xs ≡ n → drop n (xs ++ ys) ≡ ys
drop-append [] ys zero e = refl
drop-append [] ys (suc n) e = absurd (omega arith)
drop-append (x ∷ xs) ys zero e = absurd (omega arith)
drop-append (x ∷ xs) ys (suc n) e = drop-append xs ys n (omega arith)

pub take-drop : (n : ℕ) (xs : List ℕ) → take n xs ++ drop n xs ≡ xs
take-drop zero xs = refl
take-drop (suc n) [] = refl
take-drop (suc n) (x ∷ xs) = ap (λ (l : List ℕ). x ∷ l) (take-drop n xs)

pub read_all-append :
    (xs rest : List ℕ) (n : ℕ) → length xs ≡ n → read_all n (xs ++ rest) ≡ (ok xs, rest)
unfolding read_all
read_all-append xs rest n e =
    let enough : ltb (length (xs ++ rest)) n ≡ false = ground (arith, length-append xs rest) in
    rw (enough, take-append xs rest n e, drop-append xs rest n e) refl

-- What is read back is what was put.
pub read_le-put_le :
    (n v : ℕ) (rest : List ℕ) → Fits n v → read_le n (put_le n v ++ rest) ≡ (ok v, rest)
unfolding read_le
read_le-put_le n v rest f =
    rw (read_all-append (put_le n v) rest n (length-put_le n v), take_le-put_le n v f) refl

-- Each number in the list is a byte.
abbrev pub Bytes : List ℕ → Type 0
Bytes [] = Unit {0}
Bytes (b ∷ bs) = (b < 256) × Bytes bs

pub append-Bytes : (xs ys : List ℕ) → Bytes xs → Bytes ys → Bytes (xs ++ ys)
append-Bytes [] ys a b = b
append-Bytes (x ∷ xs) ys a b = (a.0, append-Bytes xs ys a.1 b)

pub take-Bytes : (n : ℕ) (xs : List ℕ) → Bytes xs → Bytes (take n xs)
take-Bytes zero xs b = tt
take-Bytes (suc n) [] b = tt
take-Bytes (suc n) (x ∷ xs) b = (b.0, take-Bytes n xs b.1)

pub drop-Bytes : (n : ℕ) (xs : List ℕ) → Bytes xs → Bytes (drop n xs)
drop-Bytes zero xs b = b
drop-Bytes (suc n) [] b = tt
drop-Bytes (suc n) (x ∷ xs) b = drop-Bytes n xs b.1

pub put_le-take_le : (bs : List ℕ) → Bytes bs → put_le (length bs) (take_le bs) ≡ bs
unfolding put_le take_le
put_le-take_le [] b = refl
put_le-take_le (x ∷ bs) b =
    let low : (x + 256 * take_le bs) % 256 ≡ x = omega arith in
    let high : (x + 256 * take_le bs) / 256 ≡ take_le bs = omega arith in
    rw (low, high) (ap (λ (l : List ℕ). x ∷ l) (put_le-take_le bs b.1))

pub take_le-Fits : (bs : List ℕ) → Bytes bs → Fits (length bs) (take_le bs)
unfolding take_le
take_le-Fits [] b = refl
take_le-Fits (x ∷ bs) b =
    let high : (x + 256 * take_le bs) / 256 ≡ take_le bs = omega arith in
    subst (Fits (length bs)) (sym high) (take_le-Fits bs b.1)

-- The file up to a point is what was read, and what is left follows.
pub record Read (n : ℕ) (xs s rest : List ℕ) : Type 0 where
  pub whole : s ≡ xs ++ rest
  pub length : length xs ≡ n
  pub bytes : Bytes xs
  pub left : Bytes rest

pub read_all-Read :
    (n : ℕ) (s xs rest : List ℕ) → Bytes s → read_all n s ≡ (ok xs, rest) → Read n xs s rest
unfolding read_all
read_all-Read n s xs rest b e = elim (Bool-cases (ltb (length s) n)) [
  | inl short ↦ absurd (let u = ap (λ r. r.0) (let v = rw short at e in v) in cc)
  | inr enough ↦
      let u = let v = rw enough at e in v in
      let same : take n s ≡ xs = let a = ap (λ r. r.0) u in cc in
      let left : drop n s ≡ rest = ap (λ r. r.1) u in
      record {
        whole = sym (take-drop n s) ∙ rw (same, left) refl;
        length = sym (ap length same) ∙ length-take n s (ground arith);
        bytes = subst Bytes same (take-Bytes n s b);
        left = subst Bytes left (drop-Bytes n s b);
      }
]

-- A number that was read stands in the file as it would be put.
pub read_le-put :
    (n v : ℕ) (s rest : List ℕ)
    → Bytes s
    → read_le n s ≡ (ok v, rest)
    → (s ≡ put_le n v ++ rest) × Fits n v × Bytes rest
unfolding read_le
read_le-put n v s rest b e = elim (Result-cases (read_all n s).0) [
  | inr (x, q) ↦ absurd (let u = ap (λ r. r.0) (let w = rw q at e in w) in cc)
  | inl (xs, q) ↦
      let u = let w = rw q at e in w in
      let value : take_le xs ≡ v = let a = ap (λ r. r.0) u in cc in
      let left : (read_all n s).1 ≡ rest = ap (λ r. r.1) u in
      let all : read_all n s ≡ (ok xs, rest) = λ i. (q i, left i) in
      let r = read_all-Read n s xs rest b all in
      let put : put_le n v ≡ xs =
        subst (λ k. put_le k v ≡ xs) r.length
          (subst (λ k. put_le (length xs) k ≡ xs) value (put_le-take_le xs r.bytes)) in
      (
        r.whole ∙ ap (λ (l : List ℕ). l ++ rest) (sym put),
        subst (λ k. Fits k v) r.length (subst (Fits (length xs)) value (take_le-Fits xs r.bytes)),
        r.left,
      )
]
