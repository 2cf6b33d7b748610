-- ===== src/BlockManager/Tables.antt =====
-- src/block_manager.cpp: the sequence interface over block tables, and `stats`.
use kvflux.Base.{
  ℕ, zero, suc, ◌+◌, ◌/◌, ◌%◌, Bool, true, false, not, ◌&&◌, ◌||◌, none, some, List, [], ◌∷◌, ◌++◌,
  leb, ◌==◌, if◌then◌else◌, length, take, drop, get_elem?, Error, invalid_argument, out_of_range,
  Result, ok, err, on_result,
}
use kvflux.BlockManager.{
  BlockManager, BlockHandle, BlockTable, Slot, Tokens, M, allocate, retain, release, ref_count,
}
use kvflux.BlockManager.Prefixes.{publish, lookup}

-- `for (auto h : blocks) release(h);`
unfoldable pub release_each : List BlockHandle → M (Unit {0})
release_each [] m = (ok tt, m)
release_each (h ∷ hs) m = on_result (release h m).0 (release h m).1 (λ _ m'. release_each hs m')

-- The catch block: the references taken so far are given back, and the exception goes on.
abbrev pub roll_back {ℓ} :
    {A : Type ℓ} → Error → List BlockHandle → BlockManager → Result A × BlockManager
roll_back e hs m = on_result (release_each hs m).0 (release_each hs m).1 (λ _ m'. (err e, m'))

-- `a / b + (a % b != 0)`.
abbrev pub blocks_for : ℕ → ℕ → ℕ
blocks_for tokens block_size = tokens / block_size + (if tokens % block_size == 0 then 0 else 1)

-- `publish(h, prefix)` inside the loop of `acquire`, with `h` in the table already.
abbrev pub publish_full : BlockHandle → Tokens → List BlockHandle → M (List BlockHandle)
publish_full h prefix blocks m = elim (publish h prefix m).0 [
  | err e ↦ roll_back e (blocks ++ h ∷ []) (publish h prefix m).1
  | ok _ ↦ (ok (blocks ++ h ∷ []), (publish h prefix m).1)
]

abbrev pub acquire_new : Bool → Tokens → List BlockHandle → M (List BlockHandle)
acquire_new full prefix blocks m = elim (allocate m).0 [
  | err e ↦ roll_back e blocks (allocate m).1
  | ok h ↦
      if full
      then publish_full h prefix blocks (allocate m).1
      else (ok (blocks ++ h ∷ []), (allocate m).1)
]

-- One round of the loop of `acquire`: a published full block is shared, another block is new,
-- and a new full block is published. The blocks returned are the table's, one longer.
unfoldable pub acquire_block : Bool → Tokens → List BlockHandle → M (List BlockHandle)
acquire_block false prefix blocks m = acquire_new false prefix blocks m
acquire_block true prefix blocks m = elim (lookup prefix m).0 [
  | err e ↦ roll_back e blocks (lookup prefix m).1
  | ok (some h) ↦ (ok (blocks ++ h ∷ []), (lookup prefix m).1)
  | ok none ↦ acquire_new true prefix blocks (lookup prefix m).1
]

-- The loop of `acquire` over the tokens that are left. A round takes at least one token, so the
-- number of tokens is fuel enough.
unfoldable pub acquire_from : ℕ → Tokens → Tokens → List BlockHandle → M (List BlockHandle)
acquire_from zero prefix rest blocks m = (ok blocks, m)
acquire_from (suc fuel) prefix [] blocks m = (ok blocks, m)
acquire_from (suc fuel) prefix (t ∷ rest) blocks m =
    let chunk = take m.block_size (t ∷ rest) in
    let step = acquire_block (length chunk == m.block_size) (prefix ++ chunk) blocks m in
    elim step.0 [
      | err e ↦ (err e, step.1)
      | ok blocks' ↦
          acquire_from fuel (prefix ++ chunk) (drop m.block_size (t ∷ rest)) blocks' step.1
    ]

unfoldable pub acquire : Tokens → M BlockTable
unfolding acquire_from acquire_block
acquire tokens m =
    let loop = acquire_from (length tokens) [] tokens [] m in
    on_result loop.0 loop.1
      (λ blocks m'. (ok (record { blocks = blocks; token_count = length tokens }), m'))

abbrev pub handle_eq : BlockHandle → BlockHandle → Bool
handle_eq a b = a.id == b.id && a.generation == b.generation

abbrev pub has_handle : BlockHandle → List BlockHandle → Bool
has_handle h [] = false
has_handle h (k ∷ ks) = handle_eq h k || has_handle h ks

-- The loop of `validate`; `seen` holds the entries before.
unfoldable pub validate_from :
    List BlockHandle → List BlockHandle → BlockManager → Result (Unit {0})
validate_from seen [] m = ok tt
validate_from seen (h ∷ hs) m = elim (ref_count h m).0 [
  | err e ↦ err e
  | ok n ↦
      if n == 0 || has_handle h seen then err invalid_argument else validate_from (h ∷ seen) hs m
]

unfoldable pub validate : BlockTable → BlockManager → Result (Unit {0})
unfolding validate_from
validate table m =
    if blocks_for table.token_count m.block_size == length table.blocks
    then validate_from [] table.blocks m
    else err invalid_argument

-- The loop of `share`; a failing `retain` gives back those before it.
unfoldable pub retain_each : List BlockHandle → List BlockHandle → M (Unit {0})
retain_each done [] m = (ok tt, m)
retain_each done (h ∷ hs) m = elim (retain h m).0 [
  | err e ↦ roll_back e done (retain h m).1
  | ok _ ↦ retain_each (done ++ h ∷ []) hs (retain h m).1
]

unfoldable pub share : BlockTable → M BlockTable
unfolding validate retain_each
share table m = elim (validate table m) [
  | err e ↦ (err e, m)
  | ok _ ↦
      let loop = retain_each [] table.blocks m in on_result loop.0 loop.1 (λ _ m'. (ok table, m'))
]

-- `release(BlockTable&)`: the result is the table that the caller is left with.
unfoldable pub release_table : BlockTable → M BlockTable
unfolding validate release_each
release_table table m = elim (validate table m) [
  | err e ↦ (err e, m)
  | ok _ ↦
      let loop = release_each table.blocks m in
      on_result loop.0 loop.1 (λ _ m'. (ok (record { blocks = []; token_count = 0 }), m'))
]

unfoldable pub block_at : BlockTable → ℕ → M BlockHandle
block_at table token_index m =
    if leb table.token_count token_index
    then (err out_of_range, m)
    else elim (get_elem? table.blocks (token_index / m.block_size)) [
      | none ↦ (err out_of_range, m)
      | some h ↦ elim (ref_count h m).0 [
        | err e ↦ (err e, m)
        | ok n ↦ if n == 0 then (err invalid_argument, m) else (ok h, m)
      ]
    ]

pub record Stats : Type 0 where
  pub capacity : ℕ
  pub free : ℕ
  pub active : ℕ
  pub cached_idle : ℕ

abbrev pub is_active : Slot → Bool
is_active s = not s.free && not (s.refs == 0)

abbrev pub is_idle : Slot → Bool
is_idle s = not s.free && s.refs == 0

-- How many of the slots below `n` pass a test.
abbrev pub count_slots : (Slot → Bool) → (ℕ → Slot) → ℕ → ℕ
count_slots p slots zero = 0
count_slots p slots (suc n) = (if p (slots n) then 1 else 0) + count_slots p slots n

unfoldable pub stats : BlockManager → Stats
stats m = record {
  capacity = m.capacity;
  free = count_slots (λ s. s.free) m.slots m.capacity;
  active = count_slots is_active m.slots m.capacity;
  cached_idle = count_slots is_idle m.slots m.capacity;
}
