-- ===== src/SequenceState/Locations.antt =====
-- `token_location`: each token of a request has a place of its own in the pages it holds.
use native.Mathlib.Nat.{mod-lt, mod-add-div', le-div_iff_mul-le}
use kvflux.Base.{
  ok-injective, ℕ, zero, suc, ◌*◌, ◌/◌, ◌%◌, ◌≤◌, ◌<◌, ◌≡◌, refl, sym, ap, ◌∙◌, inl, inr, true,
  false, some, List, [], ◌∷◌, contains, Distinct, arith, ltb, leb, ◌==◌, Bool-cases, length,
  get_elem?, ok, ==_refl,
}
use kvflux.BlockManager.{BlockManager, BlockHandle, is_current, ref_count}
use kvflux.BlockManager.Tables.{blocks_for}
use kvflux.BlockManager.Sizes.{blocks_for-covers}
use kvflux.BlockManager.Effects.{refs}
use kvflux.BlockManager.Ownership.{count_id, AllCurrent}
use kvflux.PhysicalBlockPool.{id}
use kvflux.BlockTable.{BlockTable, physical_id}
use kvflux.BlockTable.Ownership.{Holds}
use kvflux.SequenceState.{SequenceState, TokenLocation, token_location}
use kvflux.SequenceState.Growth.{IsSequence}

pub get_elem?-some :
    (hs : List BlockHandle) (i : ℕ) → i < length hs → (h : BlockHandle) × (get_elem? hs i ≡ some h)
get_elem?-some [] i p = absurd (omega arith)
get_elem?-some (h ∷ hs) zero p = (h, refl)
get_elem?-some (h ∷ hs) (suc i) p = get_elem?-some hs i (omega arith)

pub entry-current :
    (n : BlockManager) (hs : List BlockHandle) (i : ℕ) (h : BlockHandle)
    → AllCurrent n hs
    → get_elem? hs i ≡ some h
    → (is_current n h ≡ true) × (0 < count_id h.id hs)
entry-current n [] i h c e = cc
entry-current n (k ∷ hs) zero h c e = ground (arith, ==_refl h.id)
entry-current n (k ∷ hs) (suc i) h c e =
    let (current, held) = entry-current n hs i h c.1 e in (current, omega (arith, held))

-- An entry that the table owns is a page in use.
pub physical_id-owned :
    (m : BlockManager) (t : BlockTable) (i : ℕ) (h : BlockHandle)
    → Holds m t
    → get_elem? t.blocks i ≡ some h
    → physical_id i t ≡ ok h.id
unfolding physical_id id ref_count
physical_id-owned m t i h o e =
    let (current, held) = entry-current t.pool t.blocks i h o.good e in
    let used : (refs t.pool h.id == 0) ≡ false = ground (arith, o.counts h.id) in
    rw (e, current, used, physical_id, id, ref_count) refl

block_of-lt : (t n b : ℕ) → 0 < b → t < n → t / b < blocks_for n b
block_of-lt t n b p q = elim (Bool-cases (ltb (t / b) (blocks_for n b))) [
  | inl below ↦ ground arith
  | inr above ↦
      let reached : blocks_for n b * b ≤ t = (le-div_iff_mul-le p).0 (ground arith) in
      absurd (omega (arith, reached, blocks_for-covers n b p))
]

-- Every token of a request is found: at its block's entry in the table, and inside the page.
pub token_location_lem :
    (m : BlockManager) (s : SequenceState) (t : ℕ)
    → IsSequence m s
    → t < s.num_tokens
    → (h : BlockHandle) × (get_elem? s.table.blocks (t / s.block_size) ≡ some h)
      × (token_location t s
          ≡ ok (record { physical_block = h.id; offset_in_block = t % s.block_size }))
      × (t % s.block_size < s.block_size)
unfolding token_location
token_location_lem m s t v p =
    let inside = block_of-lt t s.num_tokens s.block_size v.positive p in
    let (h, e) =
      get_elem?-some s.table.blocks (t / s.block_size) (omega (arith, inside, v.sized)) in
    let known : leb s.num_tokens t ≡ false = ground arith in
    (
      h,
      e,
      rw (known, physical_id-owned m s.table (t / s.block_size) h v.owned e, token_location) refl,
      mod-lt t v.positive,
    )

abbrev pub page_ids : List BlockHandle → List ℕ
page_ids [] = []
page_ids (h ∷ hs) = h.id ∷ page_ids hs

entry-contains :
    (hs : List BlockHandle) (i : ℕ) (h : BlockHandle)
    → get_elem? hs i ≡ some h
    → contains h.id (page_ids hs) ≡ true
entry-contains [] i h e = cc
entry-contains (k ∷ hs) zero h e = ground (arith, ==_refl h.id)
entry-contains (k ∷ hs) (suc i) h e = ground (arith, entry-contains hs i h e)

entry-injective :
    (hs : List BlockHandle) (i j : ℕ) (h k : BlockHandle)
    → Distinct (page_ids hs)
    → get_elem? hs i ≡ some h
    → get_elem? hs j ≡ some k
    → h.id ≡ k.id
    → i ≡ j
entry-injective [] i j h k d a b e = cc
entry-injective (x ∷ hs) zero zero h k d a b e = refl
entry-injective (x ∷ hs) zero (suc j) h k d a b e = absurd (ground (arith, entry-contains hs j k b))
entry-injective (x ∷ hs) (suc i) zero h k d a b e = absurd (ground (arith, entry-contains hs i h a))
entry-injective (x ∷ hs) (suc i) (suc j) h k d a b e = ap suc (entry-injective hs i j h k d.1 a b e)

-- In a table without repeated pages two tokens never share a place: their locations agree only if
-- they are one token.
pub token_location-injective :
    (m : BlockManager) (s : SequenceState) (t u : ℕ)
    → IsSequence m s
    → Distinct (page_ids s.table.blocks)
    → t < s.num_tokens
    → u < s.num_tokens
    → token_location t s ≡ token_location u s
    → t ≡ u
token_location-injective m s t u v d p q e =
    let (h, at_t, here, _) = token_location_lem m s t v p in
    let (k, at_u, there, _) = token_location_lem m s u v q in
    let same = ok-injective (sym here ∙ (e ∙ there)) in
    let block =
      entry-injective s.table.blocks (t / s.block_size) (u / s.block_size) h k d at_t at_u
        (ap (λ (l : TokenLocation). l.physical_block) same) in
    let offset = ap (λ (l : TokenLocation). l.offset_in_block) same in
    sym (mod-add-div' t s.block_size) ∙ (rw (block, offset) (mod-add-div' u s.block_size))
