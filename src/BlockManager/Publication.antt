-- ===== src/BlockManager/Publication.antt =====
-- `publish` and `lookup`: a prefix leads to the one block that was published under it, whatever
-- the hash function does.
use kvflux.Base.{
  ℕ, ◌<◌, ◌≡◌, ◌≢◌, inl, inr, refl, ap, ◌∙◌, true, false, not, ◌||◌, none, some, List, [], ◌∷◌,
  ◌++◌, arith, ltb, ◌==◌, contains, Bool-cases, Option-cases, size_max, contains-append,
  snoc-Distinct, list_eq, list_eq_sound, list_eq_refl, ok,
}
use kvflux.BlockManager.{BlockManager, BlockHandle, Slot, Tokens, retain, is_current, add_ref}
use kvflux.BlockManager.Prefixes.{
  bucket, find_prefix, find_published, is_whole, insert_published, publish, lookup,
}
use kvflux.BlockManager.Invariant.{Inv, Queues, Indexed, Chain-update}
use kvflux.BlockManager.References.{is_current-parts, retain-Inv}

module _ (slots : ℕ → Slot) (prefix : Tokens) where
  -- A miss: no block of the bucket has the prefix.
  pub find_prefix-none :
      (ids : List ℕ) (i : ℕ)
      → find_prefix slots prefix ids ≡ none
      → contains i ids ≡ true
      → (slots i).prefix ≢ prefix
  find_prefix-none [] i e m = cc
  find_prefix-none (x ∷ ids) i e m = elim (Bool-cases (list_eq (slots x).prefix prefix)) [
    | inl same ↦ absurd (ground arith)
    | inr other ↦ λ p. ground (arith, find_prefix-none ids i, list_eq_refl prefix)
  ]

  -- A hit is a block of the bucket that has the prefix.
  pub find_prefix-some :
      (ids : List ℕ) (i : ℕ)
      → find_prefix slots prefix ids ≡ some i
      → (contains i ids ≡ true) × ((slots i).prefix ≡ prefix)
  find_prefix-some [] i e = cc
  find_prefix-some (x ∷ ids) i e = elim (Bool-cases (list_eq (slots x).prefix prefix)) [
    | inl same ↦ ground (arith, list_eq_sound (slots x).prefix prefix)
    | inr other ↦ ground (arith, find_prefix-some ids i)
  ]

-- A prefix is found exactly if a block is published under it.
pub find_published-some :
    (m : BlockManager) (prefix : Tokens) (i : ℕ)
    → Indexed m
    → find_published prefix m ≡ some i
    → ((m.slots i).cached ≡ true) × ((m.slots i).prefix ≡ prefix)
find_published-some m prefix i x e = ground (
  arith,
  find_prefix-some m.slots prefix (bucket (m.index (m.hasher prefix))) i,
  x.bucket_mem (m.hasher prefix) i,
)

pub find_published-cached :
    (m : BlockManager) (i : ℕ)
    → Indexed m
    → (m.slots i).cached ≡ true
    → find_published (m.slots i).prefix m ≡ some i
find_published-cached m i x c = elim (Option-cases (find_published (m.slots i).prefix m)) [
  | inl e ↦ absurd (
      find_prefix-none m.slots (m.slots i).prefix _ i e
        (ground (arith, x.bucket_mem (m.hasher (m.slots i).prefix) i, x.hashed i, x.inside i)) refl)
  | inr (j, e) ↦
      e
      ∙ ap some (x.unique j i (find_published-some m _ j x e).0 c (find_published-some m _ j x e).1)
]

find_published-none :
    (m : BlockManager) (prefix : Tokens) (i : ℕ)
    → Indexed m
    → find_published prefix m ≡ none
    → (m.slots i).cached ≡ true
    → (m.slots i).prefix ≢ prefix
find_published-none m prefix i x e c p =
    ground (arith, find_published-cached m i x c, ap (λ (q : Tokens). find_published q m) p)

append-ne-nil : (id : ℕ) (xs : List ℕ) → (xs ++ id ∷ []) ≢ []
append-ne-nil id [] = λ e. cc
append-ne-nil id (x ∷ xs) = λ e. cc

module _ (m : BlockManager) (id : ℕ) (prefix : Tokens) (x : Indexed m)
    (used : ltb id m.capacity ≡ true) (held : (m.slots id).free ≡ false)
    (one : (m.slots id).refs ≡ 1) (private_ : (m.slots id).cached ≡ false)
    (full : is_whole prefix m ≡ true) (new : find_published prefix m ≡ none) where
  insert-Queues :
      (free idle : List ℕ) → Queues m free idle → Queues (insert_published id prefix m) free idle
  insert-Queues free idle v = record {
    chain = Chain-update _ _ free id _ (ground (arith, v.free_mem id, held)) v.chain;
    free_distinct = v.free_distinct;
    idle_order = v.idle_order;
    free_mem = λ i. ground (arith, v.free_mem i);
    idle_mem = λ i. ground (arith, v.idle_mem i);
    free_blank = λ i. ground (arith, held, v.free_blank i);
    idle_cached = λ i. ground (arith, held, v.idle_cached i);
  }

  unlisted : (h : ℕ) → contains id (bucket (m.index h)) ≡ false
  unlisted h = ground (arith, x.bucket_mem h id, private_)

  insert-Indexed : Indexed (insert_published id prefix m)
  insert-Indexed = record {
    positive = x.positive;
    inside = λ i. ground (arith, x.inside i, used);
    bucket_mem = λ h i. ground (
      arith,
      used,
      private_,
      x.bucket_mem h i,
      contains-append i (bucket (m.index (m.hasher prefix))) (id ∷ []),
    );
    bucket_distinct = λ h. elim (Bool-cases (h == m.hasher prefix)) [
      | inl e ↦
          rw e
            (snoc-Distinct id _ (x.bucket_distinct (m.hasher prefix)) (unlisted (m.hasher prefix)))
      | inr e ↦ rw e (x.bucket_distinct h)
    ];
    bucket_filled = λ h.
        ground (arith, x.bucket_filled h, append-ne-nil id (bucket (m.index (m.hasher prefix))));
    hashed = λ i. ground (arith, x.hashed i);
    whole = λ i. ground (arith, x.whole i, full);
    unique = λ i j. ground (
      arith,
      x.unique i j,
      find_published-none m prefix i x new,
      find_published-none m prefix j x new,
    );
  }

pub publish-Inv :
    (h : BlockHandle) (prefix : Tokens) (m : BlockManager) → Inv m → Inv (publish h prefix m).1
unfolding publish
publish-Inv h prefix m (free, idle, v, x) = elim (Bool-cases (is_current m h)) [
  | inr stale ↦ rw (stale, publish) (free, idle, v, x)
  | inl current ↦
      elim (Bool-cases
        (not ((m.slots h.id).refs == 1) || (m.slots h.id).cached || not (is_whole prefix m))) [
          | inl bad ↦ rw (current, bad, publish) (free, idle, v, x)
          | inr good ↦ elim (Option-cases (find_published prefix m)) [
            | inr (j, old) ↦ rw (current, good, old, publish) (free, idle, v, x)
            | inl new ↦
                let (used, held, _) = is_current-parts m h current in
                rw (current, good, new, publish)
                  (
                    free,
                    idle,
                    insert-Queues m h.id prefix x used held (ground arith) (ground arith)
                        (ground arith) new free idle v,
                    insert-Indexed m h.id prefix x used held (ground arith) (ground arith)
                        (ground arith) new,
                  )
          ]
        ]
]

pub lookup-Inv : (prefix : Tokens) (m : BlockManager) → Inv m → Inv (lookup prefix m).1
unfolding lookup
lookup-Inv prefix m inv = elim (Bool-cases (not (is_whole prefix m))) [
  | inl part ↦ rw (part, lookup) inv
  | inr full ↦ elim (Option-cases (find_published prefix m)) [
    | inl miss ↦ rw (full, miss, lookup) inv
    | inr (i, hit) ↦
        rw (full, hit, lookup)
          (ground
            (arith, retain-Inv (record { id = i; generation = (m.slots i).generation }) m inv))
  ]
]

-- A hit shares a block that was published under exactly this prefix, also when two prefixes have
-- one hash, and takes one reference to it. Nothing else changes but the idle order.
pub lookup_hit :
    (prefix : Tokens) (m : BlockManager) (h : BlockHandle)
    → Inv m
    → (lookup prefix m).0 ≡ ok (some h)
    → ((m.slots h.id).prefix ≡ prefix)
      × ((m.slots h.id).cached ≡ true)
      × (h.generation ≡ (m.slots h.id).generation)
      × ((lookup prefix m).1 ≡ add_ref h.id m)
unfolding lookup retain
lookup_hit prefix m h (free, idle, v, x) e = elim (Option-cases (find_published prefix m)) [
  | inl miss ↦ absurd (ground arith)
  | inr (i, hit) ↦ ground (arith, find_published-some m prefix i x hit)
]

-- The code finds every published block: with room for one more reference, looking up the prefix
-- of a published block returns that block.
pub lookup_published :
    (m : BlockManager) (i : ℕ)
    → Inv m
    → (m.slots i).cached ≡ true
    → (m.slots i).refs < size_max
    → (lookup (m.slots i).prefix m).0
      ≡ ok (some (record { id = i; generation = (m.slots i).generation }))
unfolding lookup retain is_current
lookup_published m i (free, idle, v, x) c room =
    ground (arith, find_published-cached m i x c, x.whole i, x.inside i, v.free_blank i)
