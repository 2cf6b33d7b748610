-- ===== src/SequenceState/Forks.antt =====
-- `fork_shared`: the fork has a reference of its own for each page of the source.
use mathlib.Core.List.{append-nil, append_assoc}
use kvflux.Base.{
  ℕ, ◌≡◌, refl, sym, ap, subst, ◌∙◌, inl, inr, not, List, [], ◌∷◌, ◌++◌, arith, length, Bool-cases,
  Result-cases, Result, ok, err,
}
use kvflux.BlockManager.{BlockManager, BlockHandle}
use kvflux.BlockManager.Invariant.{Inv}
use kvflux.BlockManager.Effects.{refs}
use kvflux.BlockTable.{BlockTable, append_existing}
use kvflux.BlockTable.Ownership.{
  Holds, Appended, Grows, append_existing-Grows, append_existing-blocks, clear-Holds,
}
use kvflux.SequenceState.{SequenceState, share_entries, fork_shared}
use kvflux.SequenceState.Growth.{IsSequence}

-- All the entries are shared, or the references are those of before.
abbrev Shared : BlockManager → List BlockHandle → Result (Unit {0}) → BlockTable → Type 0
Shared m all (ok u) t = (t.blocks ≡ all) × Holds m t × Inv t.pool
Shared m all (err e) t = (i : ℕ) → refs t.pool i ≡ refs m i

share_entries-Shared :
    (m : BlockManager) (hs : List BlockHandle) (t : BlockTable)
    → Inv t.pool
    → Holds m t
    → Shared m (t.blocks ++ hs) (share_entries hs t).0 (share_entries hs t).1
unfolding share_entries
share_entries-Shared m [] t v o = (sym (append-nil t.blocks), o, v)
share_entries-Shared m (h ∷ hs) t v o =
    let next = (append_existing h t).1 in
    let g : Grows m t (append_existing h t).0 next = append_existing-Grows m h t v o in
    elim (Result-cases (append_existing h t).0) [
      | inr (e, q) ↦
          let same : next ≡ t = rw q at g in
          let back = (clear-Holds m next (rw same o)).1 in rw (q, share_entries) back
      | inl (u, q) ↦
          let (_, _, _, owned, valid) = let w : Appended m t next = rw q at g in w in
          let longer = append_existing-blocks h t u q in
          let all : next.blocks ++ hs ≡ t.blocks ++ h ∷ hs =
            rw longer (append_assoc t.blocks (h ∷ []) hs) in
          let rest = share_entries-Shared m hs next valid owned in
          rw (q, share_entries)
            (subst
              (λ (l : List BlockHandle).
                Shared m l (share_entries hs next).0 (share_entries hs next).1)
              all rest)
    ]

-- What `fork_shared` leaves: the source as it was, over the pool of now, and a fork with the
-- same pages and tokens that owns its references on top of those of before.
pub record Forked (s f s' : SequenceState) : Type 0 where
  pub tokens : f.num_tokens ≡ s.num_tokens
  pub pages : f.table.blocks ≡ s.table.blocks
  pub one_pool : f.table.pool ≡ s'.table.pool
  pub valid : IsSequence s.table.pool f
  pub source : s'.table.blocks ≡ s.table.blocks
  pub source_tokens : s'.num_tokens ≡ s.num_tokens

pub record NotForked (s s' : SequenceState) : Type 0 where
  pub pages : s'.table.blocks ≡ s.table.blocks
  pub tokens : s'.num_tokens ≡ s.num_tokens
  pub counts : (i : ℕ) → refs s'.table.pool i ≡ refs s.table.pool i

abbrev pub ForkSettles : SequenceState → Result SequenceState → SequenceState → Type 0
ForkSettles s (ok f) s' = Forked s f s'
ForkSettles s (err e) s' = NotForked s s'

-- `fork_shared` is all or nothing: on success source and fork have the same tokens and pages, and
-- the fork is a request of its own that owns one reference for each page on top of all references
-- of before; after an exception every reference count is as before.
pub fork_shared-Settles :
    (m : BlockManager) (new_id : ℕ) (s : SequenceState)
    → IsSequence m s
    → ForkSettles s (fork_shared new_id s).0 (fork_shared new_id s).1
unfolding fork_shared
fork_shared-Settles m new_id s v = elim (Bool-cases (not s.table.bound)) [
  | inl moved ↦ rw (moved, fork_shared) (record { pages = refl; tokens = refl; counts = λ i. refl })
  | inr here ↦
      let start : BlockTable = record s.table { blocks = [] } in
      let none_owned : Holds s.table.pool start = record { counts = λ i. omega arith; good = tt } in
      let hs : List BlockHandle = s.table.blocks in
      let after = share_entries-Shared s.table.pool hs start v.pool none_owned in
      elim (Result-cases (share_entries hs start).0) [
        | inr (e, q) ↦
            let back : Shared s.table.pool hs (err e) (share_entries hs start).1 = rw q at after in
            rw (here, q, fork_shared) (record { pages = refl; tokens = refl; counts = back })
        | inl (u, q) ↦
            let (pages, owned, valid) =
              let w : Shared s.table.pool hs (ok u) (share_entries hs start).1 = rw q at after in
              w in
            rw (here, q, fork_shared)
              (record {
                tokens = refl;
                pages = pages;
                one_pool = refl;
                valid = record {
                  pool = valid;
                  owned = owned;
                  positive = v.positive;
                  sized = ap length pages ∙ v.sized;
                };
                source = refl;
                source_tokens = refl;
              })
      ]
]
