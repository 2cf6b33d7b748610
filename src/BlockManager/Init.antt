-- ===== src/BlockManager/Init.antt =====
-- The constructor: every slot is on the free list, in order of the indices.
use kvflux.Base.{
  range, contains-range, range-Distinct, ℕ, zero, suc, ◌+◌, ◌≡◌, refl, sym, subst, ◌||◌, Option,
  none, some, [], arith, ◌==◌, ok, Bool-cases, ◌-◌, ◌<◌, inl, inr,
}
use kvflux.IndexLru.Order.{init-Holds}
use kvflux.BlockManager.{BlockManager, Tokens, fresh, create}
use kvflux.BlockManager.Invariant.{Inv, Queues, Indexed, Chain}

module _ (capacity block_size : ℕ) (hasher : Tokens → ℕ) where
  abbrev start : BlockManager
  start = fresh capacity block_size hasher

  fresh-Chain : (k n : ℕ) → k + suc n ≡ capacity → Chain start.slots (some k) (range k (suc n))
  unfolding fresh
  fresh-Chain k zero e = (refl, ground arith)
  fresh-Chain k (suc n) e = (
    refl,
    subst (λ o. Chain start.slots o (range (k + 1) (suc n))) (ground arith)
        (fresh-Chain (k + 1) n (omega arith)),
  )

  pub fresh-Queues : 0 < capacity → Queues start (range 0 capacity) []
  unfolding fresh
  fresh-Queues h = record {
    chain =
        let e : capacity ≡ suc (capacity - 1) = omega arith in
        subst (λ n. Chain start.slots (some 0) (range 0 n)) (sym e)
          (fresh-Chain 0 (capacity - 1) (omega arith));
    free_distinct = range-Distinct 0 capacity;
    idle_order = init-Holds;
    free_mem = λ i. ground (arith, contains-range i 0 capacity);
    idle_mem = λ i. ground arith;
    free_blank = λ i _. (refl, refl);
    idle_cached = λ i e _. cc;
  }

  pub fresh-Indexed : 0 < block_size → Indexed start
  unfolding fresh
  fresh-Indexed h = record {
    positive = h;
    inside = λ i e. cc;
    bucket_mem = λ h i. ground arith;
    bucket_distinct = λ h. tt;
    bucket_filled = λ h e. cc;
    hashed = λ i e. cc;
    whole = λ i e. cc;
    unique = λ i j e. cc;
  }

-- The constructor refuses what it must, and otherwise builds a well-formed manager.
pub create-Inv :
    (capacity block_size : ℕ) (hasher : Option (Tokens → ℕ)) (m : BlockManager)
    → create capacity block_size hasher ≡ ok m
    → Inv m × (m.capacity ≡ capacity) × (m.block_size ≡ block_size)
unfolding create
create-Inv capacity block_size none m e = cc
create-Inv capacity block_size (some f) m e = elim (Bool-cases (capacity == 0 || block_size == 0)) [
  | inl bad ↦ absurd (ground arith)
  | inr good ↦
      let same : fresh capacity block_size f ≡ m = ground arith in
      subst (λ k. Inv k × (k.capacity ≡ capacity) × (k.block_size ≡ block_size)) same
        (unfold fresh in
          (
            (
              range 0 capacity,
              [],
              fresh-Queues capacity block_size f (ground arith),
              fresh-Indexed capacity block_size f (ground arith),
            ),
            refl,
            refl,
          ))
]
