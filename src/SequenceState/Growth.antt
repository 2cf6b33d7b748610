-- ===== src/SequenceState/Growth.antt =====
-- `append_tokens`: the blocks for the new tokens are had all together, or nothing changes.
use native.Mathlib.Nat.{zero-add}
use kvflux.Base.{
  ℕ, zero, suc, ◌+◌, ◌-◌, ◌<◌, ◌≡◌, refl, sym, ap, subst, ◌∙◌, inl, inr, some, List, [], ◌∷◌, ◌++◌,
  arith, ltb, ◌==◌, Bool-cases, Result-cases, length, length-append, last?, size_max, Result, ok,
  err, Error,
}
use kvflux.BlockManager.{BlockManager, BlockHandle}
use kvflux.BlockManager.Invariant.{Inv}
use kvflux.BlockManager.Tables.{blocks_for}
use kvflux.BlockManager.Sizes.{blocks_for_mono}
use kvflux.BlockManager.Effects.{refs}
use kvflux.BlockManager.Ownership.{count_id}
use kvflux.BlockTable.{BlockTable, append_new, pop_back, drop_last}
use kvflux.BlockTable.Ownership.{
  Holds, Appended, Grows, append_new-Grows, pop_back-Holds, last?-append, drop_last-append,
}
use kvflux.SequenceState.{SequenceState, grow, shrink, reserve, append_tokens, may_write_tail}

-- `xs` is `hs` with `k` more entries behind it.
abbrev pub Extends : ℕ → List BlockHandle → List BlockHandle → Type 0
Extends zero hs xs = xs ≡ hs
Extends (suc k) hs xs =
    (ys : List BlockHandle) × (h : BlockHandle) × (xs ≡ ys ++ h ∷ []) × Extends k hs ys

Extends-length : (k : ℕ) (hs xs : List BlockHandle) → Extends k hs xs → length xs ≡ length hs + k
Extends-length zero hs xs e = omega (arith, ap length e)
Extends-length (suc k) hs xs (ys, h, e, rest) =
    omega (arith, ap length e, length-append ys (h ∷ []), Extends-length k hs ys rest)

module _ (m : BlockManager) (hs : List BlockHandle) where
  -- The table after a call that failed, and after one that took `k` blocks.
  pub record Restored (t : BlockTable) : Type 0 where
    pub blocks : t.blocks ≡ hs
    pub owned : Holds m t
    pub pool : Inv t.pool

  pub record Extended (k : ℕ) (t : BlockTable) : Type 0 where
    pub blocks : Extends k hs t.blocks
    pub owned : Holds m t
    pub pool : Inv t.pool

  shrink-Restored :
      (k : ℕ) (e : Error) (t : BlockTable)
      → Extended k t
      → ((shrink k e t).0 ≡ err e) × Restored (shrink k e t).1
  unfolding shrink
  shrink-Restored zero e t x = (refl, record { blocks = x.blocks; owned = x.owned; pool = x.pool })
  shrink-Restored (suc k) e t x =
      let (ys, h, snoc, rest) = x.blocks in
      let last : last? t.blocks ≡ some h = rw snoc (last?-append ys h) in
      let (done, shorter, _, owned, valid) = pop_back-Holds m t h x.pool x.owned last in
      let is_ys : (pop_back t).1.blocks ≡ ys =
        shorter ∙ (ap drop_last snoc ∙ drop_last-append ys h) in
      rw (done, shrink)
        (shrink-Restored k e (pop_back t).1
          (record { blocks = subst (Extends k hs) (sym is_ys) rest; owned = owned; pool = valid }))

  abbrev pub Settled : ℕ → Result (Unit {0}) → BlockTable → Type 0
  Settled n (ok u) t = Extended n t
  Settled n (err e) t = Restored t

  grow-Settled :
      (n added : ℕ) (t : BlockTable)
      → Extended added t
      → Settled (n + added) (grow n added t).0 (grow n added t).1
  unfolding grow
  grow-Settled zero added t x = rw (zero-add added) x
  grow-Settled (suc n) added t x =
      let g : Grows m t (append_new t).0 (append_new t).1 = append_new-Grows m t x.pool x.owned in
      elim (Result-cases (append_new t).0) [
        | inr (e, q) ↦
            let same : (append_new t).1 ≡ t = rw q at g in
            let (failed, back) = shrink-Restored added e t x in rw (q, same, grow) (rw failed back)
        | inl (a, q) ↦
            let (h, longer, _, owned, valid) =
              let w : Appended m t (append_new t).1 = rw q at g in w in
            let next : Extended (suc added) (append_new t).1 = record {
              blocks = (t.blocks, h, longer, x.blocks);
              owned = owned;
              pool = valid;
            } in
            let step : Extended (added + 1) (append_new t).1 =
              subst (λ k. Extended k (append_new t).1) (omega arith) next in
            rw (q, grow)
              (subst
                (λ k.
                  Settled k (grow n (added + 1) (append_new t).1).0
                    (grow n (added + 1) (append_new t).1).1)
                (omega arith) (grow-Settled n (added + 1) (append_new t).1 step))
      ]

-- A request in a pool: the pool is well formed, the table owns its entries, and there is a block
-- for each started block of tokens.
pub record IsSequence (m : BlockManager) (s : SequenceState) : Type 0 where
  pub pool : Inv s.table.pool
  pub owned : Holds m s.table
  pub positive : 0 < s.block_size
  pub sized : length s.table.blocks ≡ blocks_for s.num_tokens s.block_size

-- The outcome of reserving `count` tokens.
pub record Reserved (m : BlockManager) (count : ℕ) (s s' : SequenceState) : Type 0 where
  pub tokens : s'.num_tokens ≡ s.num_tokens + count
  pub valid : IsSequence m s'
  pub kept : Extends (length s'.table.blocks - length s.table.blocks) s.table.blocks s'.table.blocks

pub record Unchanged (m : BlockManager) (s s' : SequenceState) : Type 0 where
  pub tokens : s'.num_tokens ≡ s.num_tokens
  pub blocks : s'.table.blocks ≡ s.table.blocks
  pub counts : (i : ℕ) → refs s'.table.pool i ≡ refs s.table.pool i
  pub valid : IsSequence m s'

abbrev pub AppendSettles :
    BlockManager → ℕ → SequenceState → Result (Unit {0}) → SequenceState → Type 0
AppendSettles m count s (ok u) s' = Reserved m count s s'
AppendSettles m count s (err e) s' = Unchanged m s s'

pub Unchanged-refl : (m : BlockManager) (s : SequenceState) → IsSequence m s → Unchanged m s s
Unchanged-refl m s v = record { tokens = refl; blocks = refl; counts = λ i. refl; valid = v }

reserve-Settles :
    (m : BlockManager) (count : ℕ) (s : SequenceState)
    → IsSequence m s
    → AppendSettles m count s (reserve count s).0 (reserve count s).1
reserve-Settles m count s v =
    let needed : ℕ = blocks_for (s.num_tokens + count) s.block_size in
    let rounds : ℕ = needed - length s.table.blocks in
    let start : Extended m s.table.blocks 0 s.table = record {
      blocks = refl;
      owned = v.owned;
      pool = v.pool;
    } in
    let grown = grow rounds 0 s.table in
    let after : Settled m s.table.blocks (rounds + 0) grown.0 grown.1 =
      grow-Settled m s.table.blocks rounds 0 s.table start in
    elim (Result-cases grown.0) [
      | inr (e, q) ↦
          let back : Restored m s.table.blocks grown.1 = rw q at after in
          rw (q, reserve)
            (record {
              tokens = refl;
              blocks = back.blocks;
              counts = λ i.
                  back.owned.counts i
                  ∙ (ap (λ (hs : List BlockHandle). refs m i + count_id i hs) back.blocks
                      ∙ sym (v.owned.counts i));
              valid = record {
                pool = back.pool;
                owned = back.owned;
                positive = v.positive;
                sized = ap length back.blocks ∙ v.sized;
              };
            })
      | inl (u, q) ↦
          let x : Extended m s.table.blocks (rounds + 0) grown.1 = rw q at after in
          let longer = Extends-length (rounds + 0) s.table.blocks grown.1.blocks x.blocks in
          rw (q, reserve)
            (record {
              tokens = refl;
              valid = record {
                pool = x.pool;
                owned = x.owned;
                positive = v.positive;
                sized = omega (
                  arith,
                  longer,
                  v.sized,
                  blocks_for_mono s.num_tokens count s.block_size v.positive,
                );
              };
              kept =
                  subst (λ k. Extends k s.table.blocks grown.1.blocks) (omega (arith, longer))
                    x.blocks;
            })
    ]

-- `append_tokens` is all or nothing: on success the tokens are counted, each old block keeps its
-- place, and the table has just the blocks that the tokens need; after an exception the request is
-- as it was, and every reference count in the pool too.
pub append_tokens-Settles :
    (m : BlockManager) (count : ℕ) (s : SequenceState)
    → IsSequence m s
    → AppendSettles m count s (append_tokens count s).0 (append_tokens count s).1
unfolding append_tokens
append_tokens-Settles m count s v = elim (Bool-cases (count == 0)) [
  | inl none_new ↦
      rw (none_new, append_tokens)
        (record {
          tokens = ground arith;
          valid = v;
          kept =
              subst (λ k. Extends k s.table.blocks s.table.blocks) {x = 0} (omega arith)
                (let e : Extends 0 s.table.blocks s.table.blocks = refl in e);
        })
  | inr some_new ↦ elim (Bool-cases (ltb (size_max - s.num_tokens) count)) [
    | inl over ↦ rw (some_new, over, append_tokens) (Unchanged-refl m s v)
    | inr fits ↦ elim (Result-cases (may_write_tail s)) [
      | inr (e, q) ↦ rw (some_new, fits, q, append_tokens) (Unchanged-refl m s v)
      | inl (b, q) ↦ elim (Bool-cases b) [
        | inl yes_ ↦ rw (some_new, fits, q, yes_, append_tokens) (reserve-Settles m count s v)
        | inr no_ ↦ rw (some_new, fits, q, no_, append_tokens) (Unchanged-refl m s v)
      ]
    ]
  ]
]
