-- ===== src/SlotMapping/Exact.antt =====
-- The slots name exactly the places of the tokens.
use native.Mathlib.Nat.{mod-lt, le-div_iff_mul-le, mul-add-mod_self_right, mod-eq_of_lt}
use kvflux.Base.{
  ℕ, ◌+◌, ◌-◌, ◌*◌, ◌/◌, ◌%◌, ◌≤◌, ◌<◌, ◌≡◌, sym, ap, ap₂, subst, ◌∙◌, inl, inr, true, some, List,
  [], ◌∷◌, arith, ltb, size_max, wrap, wrap_id, div_row, row_injective, ok, Distinct, Bool-cases,
  Option-cases, Result-cases, ok-injective,
}
use kvflux.BlockManager.{BlockManager}
use kvflux.SequenceState.{SequenceState, TokenLocation, token_location}
use kvflux.SequenceState.Growth.{IsSequence}
use kvflux.SequenceState.Locations.{token_location-injective, page_ids}
use kvflux.SlotMapping.{
  Request, TokenWrite, shares_pool_with, slot_of, slot_at, map_write, map_writes,
  build_slot_mapping,
}

-- A slot that is computed is the exact number.
pub slot_of-exact :
    (b : ℕ) (l : TokenLocation) (slot : ℕ)
    → 0 < b
    → l.offset_in_block < b
    → b ≤ size_max
    → slot_of b l ≡ ok slot
    → slot ≡ l.physical_block * b + l.offset_in_block
unfolding slot_of
slot_of-exact b l slot p q fits e =
    elim (Bool-cases (ltb ((size_max - l.offset_in_block) / b) l.physical_block)) [
      | inl over ↦ absurd (let w = rw over at e in cc)
      | inr room ↦
          let bound : l.physical_block * b ≤ size_max - l.offset_in_block =
            (le-div_iff_mul-le p).0 (ground arith) in
          let w : wrap (l.physical_block * b + l.offset_in_block) ≡ slot =
            let u = rw room at e in ok-injective u in
          sym w ∙ wrap_id (l.physical_block * b + l.offset_in_block) (omega (arith, bound))
    ]

-- What a slot says of the token at `position`: divided by the block size it is the page, and the
-- remainder is the place in the page.
pub record Names (s : SequenceState) (position slot : ℕ) : Type 0 where
  pub location : TokenLocation
  pub found : token_location position s ≡ ok location
  pub page : slot / s.block_size ≡ location.physical_block
  pub offset : slot % s.block_size ≡ location.offset_in_block
  pub exact : slot ≡ location.physical_block * s.block_size + location.offset_in_block
  pub inside : location.offset_in_block < s.block_size

token_location-offset :
    (s : SequenceState) (position : ℕ) (l : TokenLocation)
    → token_location position s ≡ ok l
    → l.offset_in_block ≡ position % s.block_size
unfolding token_location
token_location-offset s position l e = ground arith

pub slot_at-Names :
    (s : SequenceState) (position slot : ℕ)
    → 0 < s.block_size
    → s.block_size ≤ size_max
    → slot_at s position ≡ ok slot
    → Names s position slot
slot_at-Names s position slot p fits e = elim (Result-cases (token_location position s)) [
  | inr (x, q) ↦ absurd (let w = rw (q, slot_at) at e in cc)
  | inl (l, q) ↦
      let computed : slot_of s.block_size l ≡ ok slot = rw (q, slot_at) at e in
      let inside : l.offset_in_block < s.block_size =
        rw (token_location-offset s position l q) (mod-lt position p) in
      let exact = slot_of-exact s.block_size l slot p inside fits computed in
      record {
        location = l;
        found = q;
        page = rw exact (div_row l.physical_block l.offset_in_block inside);
        offset = rw exact (
            mul-add-mod_self_right l.physical_block s.block_size l.offset_in_block
            ∙ mod-eq_of_lt inside);
        exact = exact;
        inside = inside;
      }
]

token_location-below :
    (s : SequenceState) (position : ℕ) (l : TokenLocation)
    → token_location position s ≡ ok l
    → position < s.num_tokens
unfolding token_location
token_location-below s position l e = ground arith

-- Two tokens of one request, in a table without repeated pages, never get one slot.
pub slot_at_injective :
    (m : BlockManager) (s : SequenceState) (t u slot : ℕ)
    → IsSequence m s
    → s.block_size ≤ size_max
    → Distinct (page_ids s.table.blocks)
    → slot_at s t ≡ ok slot
    → slot_at s u ≡ ok slot
    → t ≡ u
slot_at_injective m s t u slot v fits d a b =
    let x = slot_at-Names s t slot v.positive fits a in
    let y = slot_at-Names s u slot v.positive fits b in
    let (page, offset) =
      row_injective x.location.physical_block x.location.offset_in_block y.location.physical_block
        y.location.offset_in_block s.block_size x.inside y.inside (sym x.exact ∙ y.exact) in
    let one : x.location ≡ y.location =
      ap₂
        (λ (p q : ℕ).
          let l : TokenLocation = record { physical_block = p; offset_in_block = q } in l)
        page offset in
    token_location-injective m s t u v d (token_location-below s t x.location x.found)
      (token_location-below s u y.location y.found) (x.found ∙ (ap ok one ∙ sym y.found))

-- The block sizes of the requests of a batch are positive, and numbers of the machine.
abbrev pub Sized : List TokenWrite → Type 0
Sized [] = Unit {0}
Sized (w ∷ ws) =
    ((r : Request)
      → w.sequence ≡ some r
      → (0 < r.state.block_size) × (r.state.block_size ≤ size_max))
    × Sized ws

-- One slot for each write, in order: the write has a request over the pool of the first one, and the slot names
-- the place of its token.
abbrev pub Mapped : Request → List TokenWrite → List ℕ → Type 0
Mapped first [] [] = Unit {0}
Mapped first [] (slot ∷ slots) = ⊥
Mapped first (w ∷ ws) [] = ⊥
Mapped first (w ∷ ws) (slot ∷ slots) =
    ((r : Request) × (w.sequence ≡ some r)
      × (shares_pool_with first r ≡ true)
      × Names r.state w.token_position slot)
    × Mapped first ws slots

map_write-Names :
    (first : Request) (w : TokenWrite) (slot : ℕ)
    → Sized (w ∷ [])
    → map_write first w ≡ ok slot
    → (r : Request) × (w.sequence ≡ some r)
      × (shares_pool_with first r ≡ true)
      × Names r.state w.token_position slot
unfolding map_write
map_write-Names first w slot z e = elim (Option-cases w.sequence) [
  | inl null ↦ absurd (let u = rw (null, map_write) at e in cc)
  | inr (r, q) ↦ elim (Bool-cases (shares_pool_with first r)) [
    | inr other ↦ absurd (let u = rw (q, other, map_write) at e in cc)
    | inl same ↦
        let (p, fits) = z.0 r q in
        let u : slot_at r.state w.token_position ≡ ok slot = rw (q, same, map_write) at e in
        (r, q, same, slot_at-Names r.state w.token_position slot p fits u)
  ]
]

map_writes-Mapped :
    (first : Request) (ws : List TokenWrite) (slots : List ℕ)
    → Sized ws
    → map_writes first ws ≡ ok slots
    → Mapped first ws slots
unfolding map_writes
map_writes-Mapped first [] [] z e = tt
map_writes-Mapped first [] (slot ∷ slots) z e = cc
map_writes-Mapped first (w ∷ ws) slots z e = elim (Result-cases (map_write first w)) [
  | inr (x, q) ↦ absurd (let u = rw (q, map_writes) at e in cc)
  | inl (slot, q) ↦ elim (Result-cases (map_writes first ws)) [
    | inr (x, p) ↦ absurd (let u = rw (q, p, map_writes) at e in cc)
    | inl (rest, p) ↦
        let all : slot ∷ rest ≡ slots = let u = rw (q, p, map_writes) at e in ok-injective u in
        subst (Mapped first (w ∷ ws)) all
          (map_write-Names first w slot (z.0, tt) q, map_writes-Mapped first ws rest z.1 p)
  ]
]

-- When a batch is mapped, there is one slot for each write, in the order of the writes: all requests
-- stand over one pool, and each slot names exactly the page and the offset of its token.
pub build_slot_mapping-Mapped :
    (w : TokenWrite) (ws : List TokenWrite) (slots : List ℕ)
    → Sized (w ∷ ws)
    → build_slot_mapping (w ∷ ws) ≡ ok slots
    → (first : Request) × (w.sequence ≡ some first) × Mapped first (w ∷ ws) slots
unfolding build_slot_mapping
build_slot_mapping-Mapped w ws slots z e = elim (Option-cases w.sequence) [
  | inl null ↦ absurd (let u = rw (null, build_slot_mapping) at e in cc)
  | inr (first, q) ↦
      let u : map_writes first (w ∷ ws) ≡ ok slots = rw (q, build_slot_mapping) at e in
      (first, q, map_writes-Mapped first (w ∷ ws) slots z u)
]
