-- ===== src/BlockTable/Ownership.antt =====
-- A table owns one reference for each entry: each operation keeps the account.
use kvflux.Base.{
  ℕ, ◌<◌, ◌≡◌, refl, ap, subst, inl, inr, true, not, some, List, [], ◌∷◌, ◌++◌, arith, Bool-cases,
  Result-cases, last?, Result, ok, err,
}
use kvflux.BlockManager.{BlockManager, BlockHandle, allocate, retain, release, is_current}
use kvflux.BlockManager.Invariant.{Inv}
use kvflux.BlockManager.Allocate.{allocate-Inv}
use kvflux.BlockManager.References.{retain-Inv, release-Inv}
use kvflux.BlockManager.Effects.{
  refs, retain-Gains, retain-err, release-Loses, allocate-Gains, allocate-err,
}
use kvflux.BlockManager.Ownership.{
  AllCurrent, Owns, release_first-Owns, count_id-snoc, AllCurrent-keep, Gains-Owns,
}
use kvflux.BlockTable.{
  BlockTable, drop_last, append_new, append_existing, pop_back, clear, free_each,
}

-- What a table's pool looks like from outside: the references of `m`, and the table's own.
abbrev pub Holds : BlockManager → BlockTable → Type 0
Holds m t = Owns m t.blocks t.pool

pub snoc-eq :
    (hs : List BlockHandle) (h : BlockHandle) → last? hs ≡ some h → hs ≡ drop_last hs ++ h ∷ []
snoc-eq [] h e = cc
snoc-eq (x ∷ []) h e = ground arith
snoc-eq (x ∷ y ∷ ys) h e = ap (◌∷◌ x) (snoc-eq (y ∷ ys) h e)

pub last?-append : (hs : List BlockHandle) (h : BlockHandle) → last? (hs ++ h ∷ []) ≡ some h
last?-append [] h = refl
last?-append (x ∷ []) h = refl
last?-append (x ∷ y ∷ ys) h = last?-append (y ∷ ys) h

pub drop_last-append : (hs : List BlockHandle) (h : BlockHandle) → drop_last (hs ++ h ∷ []) ≡ hs
drop_last-append [] h = refl
drop_last-append (x ∷ []) h = refl
drop_last-append (x ∷ y ∷ ys) h = ap (◌∷◌ x) (drop_last-append (y ∷ ys) h)

pub AllCurrent-parts :
    (n : BlockManager) (hs : List BlockHandle) (h : BlockHandle)
    → AllCurrent n (hs ++ h ∷ [])
    → AllCurrent n hs × (is_current n h ≡ true)
AllCurrent-parts n [] h c = (tt, c.0)
AllCurrent-parts n (k ∷ hs) h c =
    let (rest, last) = AllCurrent-parts n hs h c.1 in ((c.0, rest), last)

module _ (m : BlockManager) where
  -- The last of the owned references can be given back.
  pub release_last-Owns :
      (hs : List BlockHandle) (h : BlockHandle) (n : BlockManager)
      → Owns m (hs ++ h ∷ []) n
      → ((release h n).0 ≡ ok tt) × Owns m hs (release h n).1
  release_last-Owns hs h n o =
      let (good, current) = AllCurrent-parts n hs h o.good in
      let held : 0 < refs n h.id = ground (arith, o.counts h.id, count_id-snoc h.id hs h) in
      let (done, l) = release-Loses h n current held in
      (
        done,
        record {
          counts = λ i. omega (arith, o.counts i, l.counts i, count_id-snoc i hs h);
          good =
              AllCurrent-keep n (release h n).1 hs
                (λ k c p.
                  l.keeps k c
                    (omega (arith, o.counts k.id, l.counts k.id, count_id-snoc k.id hs h)))
                good;
        },
      )

  free_each-Owns :
      (hs : List BlockHandle) (n : BlockManager) → Owns m hs n → Owns m [] (free_each hs n)
  free_each-Owns [] n o = o
  free_each-Owns (h ∷ hs) n o = free_each-Owns hs (release h n).1 (release_first-Owns m h hs n o).1

-- A table has one entry more, with a reference for it, or it and its pool are as they were.
abbrev pub Appended : BlockManager → BlockTable → BlockTable → Type 0
Appended m t t' =
    (h : BlockHandle) × (t'.blocks ≡ t.blocks ++ h ∷ [])
    × (t'.bound ≡ t.bound)
    × Holds m t'
    × Inv t'.pool

abbrev pub Grows : {A : Type 0} → BlockManager → BlockTable → Result A → BlockTable → Type 0
Grows m t (ok a) t' = Appended m t t'
Grows m t (err e) t' = t' ≡ t

-- `append_new` gives the table one entry more, at the end, with a reference of its own, or an
-- exception leaves the table and the pool as they were.
pub append_new-Grows :
    (m : BlockManager) (t : BlockTable)
    → Inv t.pool
    → Holds m t
    → Grows m t (append_new t).0 (append_new t).1
unfolding append_new
append_new-Grows m t v o = elim (Bool-cases (not t.bound)) [
  | inl moved ↦ rw (moved, append_new) refl
  | inr here ↦ elim (Result-cases (allocate t.pool).0) [
    | inr (x, q) ↦ rw (here, q, append_new) (ground (arith, allocate-err t.pool x q))
    | inl (h, q) ↦
        rw (here, q, append_new)
          (
            h,
            refl,
            refl,
            Gains-Owns m t.blocks h t.pool (allocate t.pool).1 o (allocate-Gains t.pool h v q).1,
            allocate-Inv t.pool v,
          )
  ]
]

-- `append_existing` likewise; the new entry is the handle given.
pub append_existing-Grows :
    (m : BlockManager) (h : BlockHandle) (t : BlockTable)
    → Inv t.pool
    → Holds m t
    → Grows m t (append_existing h t).0 (append_existing h t).1
unfolding append_existing
append_existing-Grows m h t v o = elim (Bool-cases (not t.bound)) [
  | inl moved ↦ rw (moved, append_existing) refl
  | inr here ↦ elim (Result-cases (retain h t.pool).0) [
    | inr (x, q) ↦ rw (here, q, append_existing) (ground (arith, retain-err h t.pool x q))
    | inl (u, q) ↦
        rw (here, q, append_existing)
          (
            h,
            refl,
            refl,
            Gains-Owns m t.blocks h t.pool (retain h t.pool).1 o (retain-Gains h t.pool u q),
            retain-Inv h t.pool v,
          )
  ]
]

pub append_existing-blocks :
    (h : BlockHandle) (t : BlockTable) (u : Unit {0})
    → (append_existing h t).0 ≡ ok u
    → (append_existing h t).1.blocks ≡ t.blocks ++ h ∷ []
unfolding append_existing
append_existing-blocks h t u e = elim (Bool-cases (not t.bound)) [
  | inl moved ↦ absurd (let bad = rw (moved, append_existing) at e in cc)
  | inr here ↦ elim (Result-cases (retain h t.pool).0) [
    | inr (x, q) ↦ absurd (let bad = rw (here, q, append_existing) at e in cc)
    | inl (_, q) ↦ rw (here, q, append_existing) refl
  ]
]

-- The last entry and its reference can always be given up.
pub pop_back-Holds :
    (m : BlockManager) (t : BlockTable) (h : BlockHandle)
    → Inv t.pool
    → Holds m t
    → last? t.blocks ≡ some h
    → let r = pop_back t in
      (r.0 ≡ ok tt)
      × (r.1.blocks ≡ drop_last t.blocks)
      × (r.1.bound ≡ t.bound)
      × Holds m r.1
      × Inv r.1.pool
unfolding pop_back
pop_back-Holds m t h v o e =
    let snoc = subst (λ (hs : List BlockHandle). Owns m hs t.pool) (snoc-eq t.blocks h e) o in
    let (done, rest) = release_last-Owns m (drop_last t.blocks) h t.pool snoc in
    rw (e, done, pop_back) (refl, refl, refl, rest, release-Inv h t.pool v)

-- A table that goes away gives back exactly its own references.
pub clear-Holds :
    (m : BlockManager) (t : BlockTable)
    → Holds m t
    → ((clear t).blocks ≡ []) × ((i : ℕ) → refs (clear t).pool i ≡ refs m i)
unfolding clear
clear-Holds m t o =
    let after = free_each-Owns m t.blocks t.pool o in (refl, λ i. omega (arith, after.counts i))
