-- ===== src/BlockManager/Reach.antt =====
-- The states that the manager's own operations lead to, and that the sequence interface is a
-- composition of those.
use kvflux.Base.{
  ℕ, zero, suc, inl, inr, Bool, true, false, List, [], ◌∷◌, ◌++◌, ◌==◌, length, take, drop,
  Option-cases, Result-cases, Error,
}
use kvflux.BlockManager.{BlockManager, BlockHandle, BlockTable, Tokens, allocate, retain, release}
use kvflux.BlockManager.Prefixes.{publish, lookup}
use kvflux.BlockManager.Tables.{
  release_each, roll_back, acquire_new, publish_full, acquire_block, acquire_from, acquire,
  validate, retain_each, share, release_table,
}
use kvflux.BlockManager.Invariant.{Inv}
use kvflux.BlockManager.Allocate.{allocate-Inv}
use kvflux.BlockManager.References.{retain-Inv, release-Inv}
use kvflux.BlockManager.Publication.{publish-Inv, lookup-Inv}

pub data Reach (m : BlockManager) : BlockManager → Type 0 where
  here : Reach m m
  allocates : {n : BlockManager} → Reach m n → Reach m (allocate n).1
  retains : (h : BlockHandle) {n : BlockManager} → Reach m n → Reach m (retain h n).1
  releases : (h : BlockHandle) {n : BlockManager} → Reach m n → Reach m (release h n).1
  publishes :
      (h : BlockHandle) (p : Tokens) {n : BlockManager} → Reach m n → Reach m (publish h p n).1
  looks_up : (p : Tokens) {n : BlockManager} → Reach m n → Reach m (lookup p n).1

-- Every operation, on its error paths too, keeps the invariant.
pub Reach-Inv : {m n : BlockManager} → Inv m → Reach m n → Inv n
Reach-Inv v here = v
Reach-Inv v (allocates {n = n} r) = allocate-Inv n (Reach-Inv v r)
Reach-Inv v (retains h {n = n} r) = retain-Inv h n (Reach-Inv v r)
Reach-Inv v (releases h {n = n} r) = release-Inv h n (Reach-Inv v r)
Reach-Inv v (publishes h p {n = n} r) = publish-Inv h p n (Reach-Inv v r)
Reach-Inv v (looks_up p {n = n} r) = lookup-Inv p n (Reach-Inv v r)

module _ {m : BlockManager} where
  pub release_each-Reach :
      (hs : List BlockHandle) (n : BlockManager) → Reach m n → Reach m (release_each hs n).1
  unfolding release_each
  release_each-Reach [] n r = r
  release_each-Reach (h ∷ hs) n r = elim (Result-cases (release h n).0) [
    | inl (a, e) ↦ rw e (release_each-Reach hs (release h n).1 (releases h r))
    | inr (x, e) ↦ rw e (releases h r)
  ]

  roll_back-Reach :
      (A : Type 0) (e : Error) (hs : List BlockHandle) (n : BlockManager)
      → Reach m n
      → Reach m (roll_back {A = A} e hs n).1
  roll_back-Reach A e hs n r = elim (Result-cases (release_each hs n).0) [
    | inl (a, q) ↦ rw q (release_each-Reach hs n r)
    | inr (x, q) ↦ rw q (release_each-Reach hs n r)
  ]

  publish_full-Reach :
      (h : BlockHandle) (prefix : Tokens) (blocks : List BlockHandle) (n : BlockManager)
      → Reach m n
      → Reach m (publish_full h prefix blocks n).1
  publish_full-Reach h prefix blocks n r = elim (Result-cases (publish h prefix n).0) [
    | inr (x, q) ↦
        rw (q, publish_full)
          (roll_back-Reach (List BlockHandle) x (blocks ++ h ∷ []) _ (publishes h prefix r))
    | inl (_, q) ↦ rw (q, publish_full) (publishes h prefix r)
  ]

  acquire_new-Reach :
      (full : Bool) (prefix : Tokens) (blocks : List BlockHandle) (n : BlockManager)
      → Reach m n
      → Reach m (acquire_new full prefix blocks n).1
  acquire_new-Reach true prefix blocks n r = elim (Result-cases (allocate n).0) [
    | inr (x, q) ↦ rw (q, acquire_new) (roll_back-Reach (List BlockHandle) x blocks _ (allocates r))
    | inl (h, q) ↦ rw (q, acquire_new) (publish_full-Reach h prefix blocks _ (allocates r))
  ]
  acquire_new-Reach false prefix blocks n r = elim (Result-cases (allocate n).0) [
    | inr (x, q) ↦ rw (q, acquire_new) (roll_back-Reach (List BlockHandle) x blocks _ (allocates r))
    | inl (h, q) ↦ rw (q, acquire_new) (allocates r)
  ]

  pub acquire_block-Reach :
      (full : Bool) (prefix : Tokens) (blocks : List BlockHandle) (n : BlockManager)
      → Reach m n
      → Reach m (acquire_block full prefix blocks n).1
  unfolding acquire_block
  acquire_block-Reach false prefix blocks n r = acquire_new-Reach false prefix blocks n r
  acquire_block-Reach true prefix blocks n r = elim (Result-cases (lookup prefix n).0) [
    | inr (x, q) ↦
        rw (q, acquire_block) (roll_back-Reach (List BlockHandle) x blocks _ (looks_up prefix r))
    | inl (hit, q) ↦ elim (Option-cases hit) [
      | inr (h, o) ↦ rw (q, o, acquire_block) (looks_up prefix r)
      | inl o ↦
          rw (q, o, acquire_block) (acquire_new-Reach true prefix blocks _ (looks_up prefix r))
    ]
  ]

  acquire_from-Reach :
      (fuel : ℕ) (prefix rest : Tokens) (blocks : List BlockHandle) (n : BlockManager)
      → Reach m n
      → Reach m (acquire_from fuel prefix rest blocks n).1
  unfolding acquire_from
  acquire_from-Reach zero prefix rest blocks n r = r
  acquire_from-Reach (suc fuel) prefix [] blocks n r = r
  acquire_from-Reach (suc fuel) prefix (t ∷ rest) blocks n r =
      let chunk : Tokens = take n.block_size (t ∷ rest) in
      let full : Bool = length chunk == n.block_size in
      let step = acquire_block full (prefix ++ chunk) blocks n in
      let after = acquire_block-Reach full (prefix ++ chunk) blocks n r in
      elim (Result-cases step.0) [
        | inr (x, q) ↦ rw (q, acquire_from) after
        | inl (blocks', q) ↦
            rw (q, acquire_from)
              (acquire_from-Reach fuel (prefix ++ chunk) (drop n.block_size (t ∷ rest)) blocks'
                step.1 after)
      ]

  pub acquire-Reach :
      (tokens : Tokens) (n : BlockManager) → Reach m n → Reach m (acquire tokens n).1
  unfolding acquire
  acquire-Reach tokens n r = elim (Result-cases (acquire_from (length tokens) [] tokens [] n).0) [
    | inr (x, q) ↦ rw (q, acquire) (acquire_from-Reach (length tokens) [] tokens [] n r)
    | inl (b, q) ↦ rw (q, acquire) (acquire_from-Reach (length tokens) [] tokens [] n r)
  ]

  retain_each-Reach :
      (done hs : List BlockHandle) (n : BlockManager)
      → Reach m n
      → Reach m (retain_each done hs n).1
  unfolding retain_each
  retain_each-Reach done [] n r = r
  retain_each-Reach done (h ∷ hs) n r = elim (Result-cases (retain h n).0) [
    | inr (x, q) ↦ rw (q, retain_each) (roll_back-Reach (Unit {0}) x done _ (retains h r))
    | inl (a, q) ↦ rw (q, retain_each) (retain_each-Reach (done ++ h ∷ []) hs _ (retains h r))
  ]

  pub share-Reach : (table : BlockTable) (n : BlockManager) → Reach m n → Reach m (share table n).1
  unfolding share
  share-Reach table n r = elim (Result-cases (validate table n)) [
    | inr (x, q) ↦ rw (q, share) r
    | inl (a, q) ↦ elim (Result-cases (retain_each [] table.blocks n).0) [
      | inr (x, p) ↦ rw (q, p, share) (retain_each-Reach [] table.blocks n r)
      | inl (b, p) ↦ rw (q, p, share) (retain_each-Reach [] table.blocks n r)
    ]
  ]

  pub release_table-Reach :
      (table : BlockTable) (n : BlockManager) → Reach m n → Reach m (release_table table n).1
  unfolding release_table
  release_table-Reach table n r = elim (Result-cases (validate table n)) [
    | inr (x, q) ↦ rw (q, release_table) r
    | inl (a, q) ↦ elim (Result-cases (release_each table.blocks n).0) [
      | inr (x, p) ↦ rw (q, p, release_table) (release_each-Reach table.blocks n r)
      | inl (b, p) ↦ rw (q, p, release_table) (release_each-Reach table.blocks n r)
    ]
  ]
