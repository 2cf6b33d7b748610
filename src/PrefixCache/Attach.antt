-- ===== src/PrefixCache/Attach.antt =====
-- The loop of `attach_cached_prefix`: each round that hits adds a block to the table.
use mathlib.Core.List.{append_assoc}
use kvflux.Base.{
  ◌⊎◌, ℕ, zero, suc, ◌+◌, ◌-◌, ◌*◌, ◌%◌, ◌≤◌, ◌<◌, ◌≡◌, refl, sym, ap, subst, ◌∙◌, inl, inr, Bool,
  true, false, not, ◌||◌, none, some, [], ◌∷◌, ◌++◌, arith, ltb, ◌==◌, length, length-append, take,
  drop, size_max, Result, ok, err, logic_error, Bool-cases, Option-cases, Result-cases,
}
use kvflux.BlockManager.{BlockManager, BlockHandle, Tokens, retain}
use kvflux.BlockManager.Invariant.{Inv}
use kvflux.BlockManager.Publication.{lookup-Inv}
use kvflux.BlockManager.References.{retain-Inv, release-Inv}
use kvflux.BlockManager.Prefixes.{lookup}
use kvflux.BlockManager.Effects.{retain-Gains, retain-err, lookup-Gains, lookup-err, lookup-Same}
use kvflux.BlockManager.Ownership.{Owns, Gains-Owns, Same-Owns}
use kvflux.BlockTable.{append_existing, with_pool, push}
use kvflux.BlockTable.Ownership.{Holds, release_last-Owns}
use kvflux.SequenceState.{SequenceState, append_cached_full_block}
use kvflux.PrefixCache.{adopt, attach_block, attach_from}

-- A request of `k` whole blocks, which owns its entries.
pub record Whole (m : BlockManager) (k : ℕ) (s : SequenceState) : Type 0 where
  pub pool : Inv s.table.pool
  pub owned : Holds m s.table
  pub entries : length s.table.blocks ≡ k
  pub tokens : s.num_tokens ≡ k * s.block_size

-- What `append_cached_full_block` leaves, when the caller has a reference of its own.
abbrev Joined :
    BlockManager → BlockHandle → SequenceState → Result (Unit {0}) → SequenceState → Type 0
Joined m h s (ok u) s' =
    (s'.num_tokens ≡ s.num_tokens + s.block_size)
    × (s'.block_size ≡ s.block_size)
    × (s'.table.blocks ≡ s.table.blocks ++ h ∷ [])
    × Owns m ((s.table.blocks ++ h ∷ []) ++ h ∷ []) s'.table.pool
    × Inv s'.table.pool
Joined m h s (err e) s' = s' ≡ s

append_cached_full_block-Joined :
    (m : BlockManager) (h : BlockHandle) (s : SequenceState)
    → Inv s.table.pool
    → Owns m (s.table.blocks ++ h ∷ []) s.table.pool
    → Joined m h s (append_cached_full_block h s).0 (append_cached_full_block h s).1
unfolding append_cached_full_block append_existing
append_cached_full_block-Joined m h s v o =
    elim (Bool-cases
      (not (s.num_tokens % s.block_size == 0) || ltb (size_max - s.num_tokens) s.block_size)) [
        | inl bad ↦ rw (bad, append_cached_full_block) refl
        | inr good ↦ elim (Bool-cases (not s.table.bound)) [
          | inl moved ↦
              let e : append_existing h s.table ≡ (err logic_error, s.table) =
                rw (moved, append_existing) refl in
              rw (good, ap (λ r. r.0) e, ap (λ r. r.1) e, append_cached_full_block) refl
          | inr here ↦ elim (Result-cases (retain h s.table.pool).0) [
            | inr (x, q) ↦
                let same : (retain h s.table.pool).1 ≡ s.table.pool =
                  retain-err h s.table.pool x q in
                let e : append_existing h s.table
                    ≡ (err x, with_pool (retain h s.table.pool).1 s.table) =
                  rw (here, q, append_existing) refl in
                rw (good, ap (λ r. r.0) e, ap (λ r. r.1) e, same, append_cached_full_block) refl
            | inl (u, q) ↦
                let e : append_existing h s.table
                    ≡ (ok tt, push h (retain h s.table.pool).1 s.table) =
                  rw (here, q, append_existing) refl in
                rw (good, ap (λ r. r.0) e, ap (λ r. r.1) e, append_cached_full_block)
                  (
                    refl,
                    refl,
                    refl,
                    Gains-Owns m (s.table.blocks ++ h ∷ []) h s.table.pool (retain h s.table.pool).1
                        o (retain-Gains h s.table.pool u q),
                    retain-Inv h s.table.pool v,
                  )
          ]
        ]
      ]

-- A round adds a block, or leaves the blocks as they are.
abbrev Rounds : BlockManager → ℕ → SequenceState → Result Bool → SequenceState → Type 0
Rounds m k s (ok true) s' = Whole m (suc k) s' × (s'.block_size ≡ s.block_size)
Rounds m k s (ok false) s' = Whole m k s' × (s'.block_size ≡ s.block_size)
Rounds m k s (err e) s' = Whole m k s' × (s'.block_size ≡ s.block_size)

adopt-Rounds :
    (m : BlockManager) (k : ℕ) (h : BlockHandle) (s : SequenceState)
    → Inv s.table.pool
    → Owns m (s.table.blocks ++ h ∷ []) s.table.pool
    → length s.table.blocks ≡ k
    → s.num_tokens ≡ k * s.block_size
    → Rounds m k s (adopt h s).0 (adopt h s).1
adopt-Rounds m k h s v o n t =
    let s' : SequenceState = (append_cached_full_block h s).1 in
    let after = append_cached_full_block-Joined m h s v o in
    elim (Result-cases (append_cached_full_block h s).0) [
      | inr (e, q) ↦
          let same : s' ≡ s = rw q at after in
          let (done, rest) = release_last-Owns m s.table.blocks h s.table.pool o in
          rw (same, done, q, same, adopt)
            (
              record { pool = release-Inv h s.table.pool v; owned = rest; entries = n; tokens = t },
              refl,
            )
      | inl (u, q) ↦
          let (tokens, size, blocks, owned, inv) =
            let w : Joined m h s (ok u) s' = rw q at after in w in
          let (done, rest) = release_last-Owns m (s.table.blocks ++ h ∷ []) h s'.table.pool owned in
          rw (done, q, adopt)
            (
              record {
                pool = release-Inv h s'.table.pool inv;
                owned = rw blocks rest;
                entries = omega (arith, ap length blocks, length-append s.table.blocks (h ∷ []), n);
                tokens = rw size (omega (arith, tokens, t));
              },
              size,
            )
    ]

attach_block-Rounds :
    (m : BlockManager) (k : ℕ) (prefix : Tokens) (s : SequenceState)
    → Whole m k s
    → Rounds m k s (attach_block prefix s).0 (attach_block prefix s).1
unfolding attach_block
attach_block-Rounds m k prefix s w =
    let pool : BlockManager = s.table.pool in
    let n : BlockManager = (lookup prefix pool).1 in
    let inv : Inv n = lookup-Inv prefix pool w.pool in
    elim (Result-cases (lookup prefix pool).0) [
      | inr (e, q) ↦
          let same : n ≡ pool = lookup-err prefix pool e q in rw (q, same, attach_block) (w, refl)
      | inl (o, q) ↦ elim (Option-cases o) [
        | inl miss ↦
            let none_found : (lookup prefix pool).0 ≡ ok none = rw miss at q in
            rw (none_found, attach_block)
              (
                record {
                  pool = inv;
                  owned =
                      Same-Owns m s.table.blocks pool n w.owned
                        (lookup-Same prefix pool none_found);
                  entries = w.entries;
                  tokens = w.tokens;
                },
                refl,
              )
        | inr (h, hit) ↦
            let found : (lookup prefix pool).0 ≡ ok (some h) = rw hit at q in
            let gained =
              Gains-Owns m s.table.blocks h pool n w.owned (lookup-Gains prefix pool h found) in
            rw (found, attach_block)
              (adopt-Rounds m k h (record s { table = with_pool n s.table }) inv gained w.entries
                w.tokens)
      ]
    ]

take-nil : (n : ℕ) → take n (let e : Tokens = [] in e) ≡ []
take-nil zero = refl
take-nil (suc n) = refl

take-add : (b c : ℕ) (xs : Tokens) → take b xs ++ take c (drop b xs) ≡ take (b + c) xs
take-add zero c xs = ap (λ n. take n xs) (omega arith)
take-add (suc b) c [] = take-nil c ∙ sym (take-nil (suc b + c))
take-add (suc b) c (x ∷ xs) =
    ap (◌∷◌ x) (take-add b c xs)
    ∙ ap (λ n. take n (x ∷ xs)) (let e : suc (b + c) ≡ suc b + c = omega arith in e)

length-drop : (b : ℕ) (xs : Tokens) → length (drop b xs) ≡ length xs - b
length-drop zero xs = omega arith
length-drop (suc b) [] = omega arith
length-drop (suc b) (x ∷ xs) = omega (arith, length-drop b xs)

-- The loop ends after `j` rounds that added a block: too few tokens are left for another block, or
-- the prefix with one more block is a miss.
abbrev pub Stops : Tokens → Tokens → ℕ → ℕ → SequenceState → Type 0
Stops prefix rest b j s' =
    (length rest < suc j * b)
    ⊎ ((t : SequenceState) × (attach_block (prefix ++ take (suc j * b) rest) t ≡ (ok false, s')))

abbrev pub Ends :
    BlockManager → ℕ → ℕ → Tokens → Tokens → Result (Unit {0}) → SequenceState → Type 0
Ends m k b prefix rest (ok u) s' =
    (j : ℕ) × Whole m (k + j) s' × (s'.block_size ≡ b) × Stops prefix rest b j s'
Ends m k b prefix rest (err e) s' = (j : ℕ) × Whole m j s' × (s'.block_size ≡ b)

Ends-suc :
    (m : BlockManager) (k b : ℕ) (prefix rest : Tokens) (r : Result (Unit {0})) (s' : SequenceState)
    → Ends m (suc k) b (prefix ++ take b rest) (drop b rest) r s'
    → Ends m k b prefix rest r s'
Ends-suc m k b prefix rest (err e) s' w = w
Ends-suc m k b prefix rest (ok u) s' (j, w, size, stop) = (
  suc j,
  subst (λ n. Whole m n s') (omega arith) w,
  size,
  elim stop [
    | inl few ↦ inl (omega (arith, few, length-drop b rest))
    | inr (t, miss) ↦
        let p : (prefix ++ take b rest) ++ take (suc j * b) (drop b rest)
            ≡ prefix ++ take (suc (suc j) * b) rest =
          append_assoc prefix (take b rest) (take (suc j * b) (drop b rest))
          ∙ ap (λ q. prefix ++ q)
              (take-add b (suc j * b) rest ∙ ap (λ n. take n rest) (omega arith)) in
        inr (t, subst (λ q. attach_block q t ≡ (ok false, s')) p miss)
  ],
)

pub attach_from-Ends :
    (m : BlockManager) (fuel k b : ℕ) (prefix rest : Tokens) (s : SequenceState)
    → 0 < b
    → length rest ≤ fuel
    → s.block_size ≡ b
    → Whole m k s
    → Ends m k b prefix rest
        (attach_from fuel b prefix rest s).0
        (attach_from fuel b prefix rest s).1
unfolding attach_from
attach_from-Ends m zero k b prefix rest s p q size w =
    (0, subst (λ n. Whole m n s) (omega arith) w, size, inl (omega arith))
attach_from-Ends m (suc fuel) k b prefix rest s p q size w =
    elim (Bool-cases (ltb (length rest) b)) [
      | inl few ↦
          rw (few, attach_from)
            (0, subst (λ n. Whole m n s) (omega arith) w, size, inl (ground arith))
      | inr more ↦
          let longer : Tokens = prefix ++ take b rest in
          let s' : SequenceState = (attach_block longer s).1 in
          let after = attach_block-Rounds m k longer s w in
          elim (Result-cases (attach_block longer s).0) [
            | inr (e, x) ↦
                let (w', size') = let y : Rounds m k s (err e) s' = rw x at after in y in
                rw (more, x, attach_from) (k, w', size' ∙ size)
            | inl (c, x) ↦ elim (Bool-cases c) [
              | inr missed ↦
                  let x' : (attach_block longer s).0 ≡ ok false = x ∙ ap ok missed in
                  let (w', size') = let y : Rounds m k s (ok false) s' = rw x' at after in y in
                  let one : longer ≡ prefix ++ take (1 * b) rest =
                    ap (λ n. prefix ++ take n rest) (omega arith) in
                  let pair : attach_block longer s ≡ (ok false, s') =
                    ap (λ r. let z : Result Bool × SequenceState = (r, s') in z) x' in
                  rw (more, x', attach_from)
                    (
                      0,
                      subst (λ n. Whole m n s') (omega arith) w',
                      size' ∙ size,
                      inr (s, subst (λ t. attach_block t s ≡ (ok false, s')) one pair),
                    )
              | inl found ↦
                  let x' : (attach_block longer s).0 ≡ ok true = x ∙ ap ok found in
                  let (w', size') = let y : Rounds m k s (ok true) s' = rw x' at after in y in
                  let shorter : length (drop b rest) ≤ fuel = omega (arith, length-drop b rest) in
                  let next = attach_from fuel b longer (drop b rest) s' in
                  rw (more, x', attach_from)
                    (Ends-suc m k b prefix rest next.0 next.1 (
                      attach_from-Ends m fuel (suc k) b longer (drop b rest) s' p shorter
                        (size' ∙ size) w'))
            ]
          ]
    ]
