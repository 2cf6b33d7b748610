-- ===== src/BlockManager/Invariant.antt =====
-- What the slot states, the free list, the idle order and the index say of one another.
use kvflux.Base.{
  ℕ, ◌%◌, ◌<◌, ◌≡◌, ◌≢◌, true, false, not, ◌&&◌, Option, none, some, List, [], ◌∷◌, arith, ltb,
  ◌==◌, length, empty, update, contains, Distinct, head?,
}
use kvflux.IndexLru.Order.{Holds}
use kvflux.BlockManager.{BlockManager, Slot}
use kvflux.BlockManager.Prefixes.{bucket}

-- The free list from `head` on goes through the slots `xs` and ends.
abbrev pub Chain : (ℕ → Slot) → Option ℕ → List ℕ → Type 0
Chain slots head [] = head ≡ none
Chain slots head (x ∷ xs) = (head ≡ some x) × Chain slots (slots x).next_free xs

-- `free` is the free list from its head and `idle` the idle blocks, oldest first.
pub record Queues (m : BlockManager) (free idle : List ℕ) : Type 0 where
  pub chain : Chain m.slots m.free_head free
  pub free_distinct : Distinct free
  pub idle_order : Holds m.idle_lru idle
  pub free_mem : (i : ℕ) → contains i free ≡ (ltb i m.capacity && (m.slots i).free)
  pub idle_mem :
      (i : ℕ)
      → contains i idle ≡ (ltb i m.capacity && (not (m.slots i).free && (m.slots i).refs == 0))
  pub free_blank :
      (i : ℕ) → (m.slots i).free ≡ true → ((m.slots i).refs ≡ 0) × ((m.slots i).cached ≡ false)
  pub idle_cached :
      (i : ℕ) → (m.slots i).free ≡ false → (m.slots i).refs ≡ 0 → (m.slots i).cached ≡ true

-- The index holds exactly the published blocks, each under the hash of its prefix.
pub record Indexed (m : BlockManager) : Type 0 where
  pub positive : 0 < m.block_size
  pub inside : (i : ℕ) → (m.slots i).cached ≡ true → ltb i m.capacity ≡ true
  pub bucket_mem :
      (h i : ℕ)
      → contains i (bucket (m.index h))
        ≡ (ltb i m.capacity && ((m.slots i).cached && h == (m.slots i).hash))
  pub bucket_distinct : (h : ℕ) → Distinct (bucket (m.index h))
  pub bucket_filled : (h : ℕ) → m.index h ≢ some []
  pub hashed : (i : ℕ) → (m.slots i).cached ≡ true → (m.slots i).hash ≡ m.hasher (m.slots i).prefix
  pub whole :
      (i : ℕ)
      → (m.slots i).cached ≡ true
      → (empty (m.slots i).prefix ≡ false) × (length (m.slots i).prefix % m.block_size ≡ 0)
  pub unique :
      (i j : ℕ)
      → (m.slots i).cached ≡ true
      → (m.slots j).cached ≡ true
      → (m.slots i).prefix ≡ (m.slots j).prefix
      → i ≡ j

-- The free list runs only over slots whose `next_free` stays.
pub Chain-update :
    (slots : ℕ → Slot) (head : Option ℕ) (xs : List ℕ) (id : ℕ) (s : Slot)
    → contains id xs ≡ false
    → Chain slots head xs
    → Chain (update slots id s) head xs
Chain-update slots head [] id s a c = c
Chain-update slots head (x ∷ xs) id s a c =
    ground (arith, Chain-update slots (slots x).next_free xs id s)

pub Chain-head :
    (slots : ℕ → Slot) (head : Option ℕ) (xs : List ℕ) → Chain slots head xs → head ≡ head? xs
Chain-head slots head [] c = c
Chain-head slots head (x ∷ xs) c = c.0

-- The manager is well formed.
abbrev pub Inv : BlockManager → Type 0
Inv m = (free : List ℕ) × (idle : List ℕ) × Queues m free idle × Indexed m
