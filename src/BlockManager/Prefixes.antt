-- ===== src/BlockManager/Prefixes.antt =====
-- src/block_manager.cpp: `publish`, `lookup` and `prefix_hash`.
use Prim.Native.Nat.{bit_xor}
use kvflux.Base.{
  ℕ, ◌*◌, ◌/◌, ◌%◌, ◌^◌, Bool, true, not, ◌&&◌, ◌||◌, Option, none, some, List, [], ◌∷◌, ◌++◌, ◌==◌,
  if◌then◌else◌, length, empty, update, list_eq, invalid_argument, ok, err, on_result,
}
use kvflux.BlockManager.{BlockManager, BlockHandle, Slot, Tokens, M, is_current, retain}

-- FNV-1a over the four bytes of a token, the low byte first.
abbrev mix : ℕ → ℕ → ℕ
mix hash byte = bit_xor hash byte * 1099511628211 % 2 ^ 64

abbrev mix_token : ℕ → ℕ → ℕ
mix_token hash value =
    mix (mix (mix (mix hash (value % 256)) (value / 2 ^ 8 % 256)) (value / 2 ^ 16 % 256))
      (value / 2 ^ 24 % 256)

abbrev hash_from : ℕ → Tokens → ℕ
hash_from hash [] = hash
hash_from hash (token ∷ rest) = hash_from (mix_token hash (token % 2 ^ 32)) rest

unfoldable pub prefix_hash : Tokens → ℕ
prefix_hash prefix = hash_from 14695981039346656037 prefix

-- The first block of a bucket whose whole prefix is the one asked for.
abbrev pub find_prefix : (ℕ → Slot) → Tokens → List ℕ → Option ℕ
find_prefix slots prefix [] = none
find_prefix slots prefix (id ∷ ids) =
    if list_eq (slots id).prefix prefix then some id else find_prefix slots prefix ids

-- The bucket of a hash; a hash with no entry has none.
abbrev pub bucket : Option (List ℕ) → List ℕ
bucket none = []
bucket (some ids) = ids

abbrev pub find_published : Tokens → BlockManager → Option ℕ
find_published prefix m = find_prefix m.slots prefix (bucket (m.index (m.hasher prefix)))

-- Neither `publish` nor `lookup` takes an empty prefix or one that ends inside a block.
abbrev pub is_whole : Tokens → BlockManager → Bool
is_whole prefix m = not (empty prefix) && length prefix % m.block_size == 0

abbrev pub insert_published : ℕ → Tokens → BlockManager → BlockManager
insert_published id prefix m =
    let hash = m.hasher prefix in
    record m {
      index = update m.index hash (some (bucket (m.index hash) ++ id ∷ []));
      slots =
          update m.slots id (record (m.slots id) { prefix = prefix; hash = hash; cached = true });
    }

abbrev pub publish_current : ℕ → Tokens → M (Unit {0})
publish_current id prefix m =
    if not ((m.slots id).refs == 1) || (m.slots id).cached || not (is_whole prefix m)
    then (err invalid_argument, m)
    else elim (find_published prefix m) [
      | some other ↦ (err invalid_argument, m)
      | none ↦ (ok tt, insert_published id prefix m)
    ]

unfoldable pub publish : BlockHandle → Tokens → M (Unit {0})
unfolding is_current
publish h prefix m =
    if is_current m h then publish_current h.id prefix m else (err invalid_argument, m)

-- `none` is the result `false`; a hit carries one new reference.
unfoldable pub lookup : Tokens → M (Option BlockHandle)
lookup prefix m = if not (is_whole prefix m) then (ok none, m) else elim (find_published prefix m) [
  | none ↦ (ok none, m)
  | some id ↦
      let h : BlockHandle = record { id = id; generation = (m.slots id).generation } in
      on_result (retain h m).0 (retain h m).1 (λ _ m'. (ok (some h), m'))
]
