-- ===== src/BlockManager/Sizes.antt =====
-- The table that `acquire` returns has an entry for each started block of tokens: the loop's fuel
-- is enough.
use native.Mathlib.Decide.{dec_lt}
use native.Mathlib.Nat.{
  div-eq-sub-div, mod-eq-sub-mod, div-eq_of_lt, mod-eq_of_lt, mod-add-div', mod-lt, mul-le-mul,
  le_refl,
}
use kvflux.Base.{
  ◌/◌, ◌*◌, ◌%◌, ==_eq, Bool-cases, ℕ, zero, suc, ◌+◌, ◌-◌, ◌≤◌, ◌<◌, ◌≡◌, ◌≢◌, inl, inr, refl, sym,
  ap, ap₂, ◌∙◌, Bool, true, false, List, [], ◌∷◌, ◌++◌, arith, ◌==◌, length, length-append, take,
  drop, Option-cases, Result-cases, ok, Error,
}
use kvflux.BlockManager.{BlockManager, BlockHandle, BlockTable, Tokens, allocate, retain, release}
use kvflux.BlockManager.Prefixes.{publish, lookup}
use kvflux.BlockManager.Tables.{
  release_each, roll_back, publish_full, acquire_new, acquire_block, acquire_from, acquire,
  blocks_for,
}
use kvflux.BlockManager.Reach.{
  Reach, here, allocates, retains, releases, publishes, looks_up, acquire_block-Reach,
}

blocks_for-step : (n b : ℕ) → 0 < b → b ≤ n → blocks_for n b ≡ suc (blocks_for (n - b) b)
blocks_for-step n b p h = ground (arith, div-eq-sub-div p h, mod-eq-sub-mod h)

blocks_for-last : (n b : ℕ) → 0 < n → n < b → blocks_for n b ≡ 1
blocks_for-last n b p h = ground (arith, div-eq_of_lt h, mod-eq_of_lt h)

-- The blocks have room for the tokens, and no smaller number of blocks has.
pub blocks_for-covers : (n b : ℕ) → 0 < b → n ≤ blocks_for n b * b
blocks_for-covers n b p = elim (Bool-cases (n % b == 0)) [
  | inl e ↦ rw e (let d = mod-add-div' n b in let z = (==_eq (n % b) 0 e) in omega (arith, d, z))
  | inr e ↦ rw e (let d = mod-add-div' n b in let l = mod-lt n p in omega (arith, d, l))
]

pub blocks_for-least : (n b k : ℕ) → 0 < b → n ≤ k * b → blocks_for n b ≤ k
blocks_for-least n b k p h = elim (dec_lt k (blocks_for n b)) [
  | no small ↦ omega arith
  | yes large ↦ elim (Bool-cases (n % b == 0)) [
    | inl e ↦
        let q : suc k ≤ n / b = ground arith in
        let room : suc k * b ≤ n / b * b = mul-le-mul q (le_refl b) in
        let d = mod-add-div' n b in absurd (omega arith)
    | inr e ↦
        let q : k ≤ n / b = ground arith in
        let room : k * b ≤ n / b * b = mul-le-mul q (le_refl b) in
        let d = mod-add-div' n b in absurd (ground arith)
  ]
]

pub blocks_for_mono : (n c b : ℕ) → 0 < b → blocks_for n b ≤ blocks_for (n + c) b
blocks_for_mono n c b p =
    let d = blocks_for-covers (n + c) b p in
    blocks_for-least n b (blocks_for (n + c) b) p (omega arith)

pub blocks_for-zero : (b : ℕ) → 0 < b → blocks_for 0 b ≡ 0
blocks_for-zero b p = ground (arith, div-eq_of_lt p, mod-eq_of_lt p)

-- One block less for the tokens that a full block leaves, and none for fewer.
blocks_for-suc : (n b : ℕ) → 0 < b → 0 < n → blocks_for n b ≡ suc (blocks_for (n - b) b)
blocks_for-suc n b p h = elim (dec_lt n b) [
  | yes l ↦
      let e : n - b ≡ 0 = omega arith in
      blocks_for-last n b h l ∙ ap suc (sym (ap (λ k. blocks_for k b) e ∙ blocks_for-zero b p))
  | no g ↦ blocks_for-step n b p (omega arith)
]

length-drop {ℓ} : {A : Type ℓ} (k : ℕ) (xs : List A) → length (drop k xs) ≡ length xs - k
length-drop zero xs = omega arith
length-drop (suc k) [] = omega arith
length-drop (suc k) (x ∷ xs) = omega (arith, length-drop k xs)

-- The size of a block and the number of slots are fixed.
pub Reach-block_size :
    {m n : BlockManager} → Reach m n → (n.block_size ≡ m.block_size) × (n.capacity ≡ m.capacity)
unfolding allocate retain release publish lookup
Reach-block_size here = (refl, refl)
Reach-block_size (allocates {n = n} r) = ground (arith, Reach-block_size r)
Reach-block_size (retains h {n = n} r) = ground (arith, Reach-block_size r)
Reach-block_size (releases h {n = n} r) = ground (arith, Reach-block_size r)
Reach-block_size (publishes h p {n = n} r) = ground (arith, Reach-block_size r)
Reach-block_size (looks_up p {n = n} r) = ground (arith, Reach-block_size r)

-- The catch block ends in an exception.
roll_back-ne-ok :
    (e : Error) (hs out : List BlockHandle) (n : BlockManager)
    → (roll_back {A = List BlockHandle} e hs n).0 ≢ ok out
roll_back-ne-ok e hs out n q = elim (Result-cases (release_each hs n).0) [
  | inl (a, r) ↦ ground arith
  | inr (x, r) ↦ ground arith
]

publish_full-length :
    (h : BlockHandle) (p : Tokens) (hs out : List BlockHandle) (n : BlockManager)
    → (publish_full h p hs n).0 ≡ ok out
    → length out ≡ length hs + 1
publish_full-length h p hs out n e = elim (Result-cases (publish h p n).0) [
  | inr (x, q) ↦ absurd (roll_back-ne-ok x (hs ++ h ∷ []) out (publish h p n).1 (ground arith))
  | inl (u, q) ↦ ground (arith, length-append hs (h ∷ []))
]

acquire_new-length :
    (full : Bool) (p : Tokens) (hs out : List BlockHandle) (n : BlockManager)
    → (acquire_new full p hs n).0 ≡ ok out
    → length out ≡ length hs + 1
acquire_new-length full p hs out n e = elim (Result-cases (allocate n).0) [
  | inr (x, q) ↦ absurd (roll_back-ne-ok x hs out (allocate n).1 (ground arith))
  | inl (h, q) ↦
      ground (arith, length-append hs (h ∷ []), publish_full-length h p hs out (allocate n).1)
]

acquire_block-length :
    (full : Bool) (p : Tokens) (hs out : List BlockHandle) (n : BlockManager)
    → (acquire_block full p hs n).0 ≡ ok out
    → length out ≡ length hs + 1
unfolding acquire_block
acquire_block-length false p hs out n e = acquire_new-length false p hs out n e
acquire_block-length true p hs out n e = elim (Result-cases (lookup p n).0) [
  | inr (x, q) ↦ absurd (roll_back-ne-ok x hs out (lookup p n).1 (ground arith))
  | inl (hit, q) ↦ elim (Option-cases hit) [
    | inr (h, o) ↦ ground (arith, length-append hs (h ∷ []))
    | inl o ↦ acquire_new-length true p hs out (lookup p n).1 (ground arith)
  ]
]

acquire_from-length :
    (fuel : ℕ) (p rest : Tokens) (hs out : List BlockHandle) (n : BlockManager)
    → length rest ≤ fuel
    → 0 < n.block_size
    → (acquire_from fuel p rest hs n).0 ≡ ok out
    → length out ≡ length hs + blocks_for (length rest) n.block_size
unfolding acquire_from
acquire_from-length zero p [] hs out n l b e = ground (arith, blocks_for-zero n.block_size b)
acquire_from-length zero p (t ∷ rest) hs out n l b e = absurd (omega arith)
acquire_from-length (suc fuel) p [] hs out n l b e = ground (arith, blocks_for-zero n.block_size b)
acquire_from-length (suc fuel) p (t ∷ rest) hs out n l b e =
    let chunk : Tokens = take n.block_size (t ∷ rest) in
    let full : Bool = length chunk == n.block_size in
    let left : Tokens = drop n.block_size (t ∷ rest) in
    let step = acquire_block full (p ++ chunk) hs n in
    elim (Result-cases step.0) [
      | inr (x, q) ↦ absurd (ground arith)
      | inl (hs', q) ↦
          let same = (Reach-block_size (acquire_block-Reach full (p ++ chunk) hs n here)).0 in
          let one = acquire_block-length full (p ++ chunk) hs hs' n q in
          let more =
            acquire_from-length fuel (p ++ chunk) left hs' out step.1
              (omega (arith, length-drop n.block_size (t ∷ rest))) (rw same b)
              (rw (q, acquire_from) at e) in
          let size = blocks_for-suc (length (t ∷ rest)) n.block_size b (omega arith) in
          more
          ∙ ap₂ ◌+◌ one (ap₂ blocks_for (length-drop n.block_size (t ∷ rest)) same)
          ∙ omega (arith, size)
    ]

-- A table that `acquire` returns counts the tokens, and has as many blocks as they take, the last
-- one perhaps not full.
pub acquire-length :
    (tokens : Tokens) (m : BlockManager) (table : BlockTable)
    → 0 < m.block_size
    → (acquire tokens m).0 ≡ ok table
    → (table.token_count ≡ length tokens)
      × (length table.blocks ≡ blocks_for (length tokens) m.block_size)
unfolding acquire
acquire-length tokens m table b e =
    elim (Result-cases (acquire_from (length tokens) [] tokens [] m).0) [
      | inr (x, q) ↦ absurd (ground arith)
      | inl (hs, q) ↦ ground (arith, acquire_from-length (length tokens) [] tokens [] hs m)
    ]
