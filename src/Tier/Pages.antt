-- ===== src/Tier/Pages.antt =====
-- A `GpuTier` seen by its user: each location that it has handed out is a reference to a page of the
-- pool. Other holders of pages are the references of `m`.
use kvflux.Base.{
  ℕ, ◌+◌, ◌-◌, ◌≤◌, ◌<◌, ◌≡◌, inl, inr, refl, sym, ◌∙◌, true, false, List, [], ◌∷◌, ◌++◌, arith,
  ◌==◌, size_max, wrap, wrap_id, wrap_pred, Distinct-length, Result, ok, err, Error, length,
  contains, Distinct, Bool-cases, Result-cases,
}
use kvflux.BlockManager.{BlockManager, BlockHandle, allocate, release, ref_count}
use kvflux.BlockManager.Invariant.{Inv}
use kvflux.BlockManager.Allocate.{allocate-Inv}
use kvflux.BlockManager.References.{release-Inv}
use kvflux.BlockManager.Reach.{here, allocates, releases}
use kvflux.BlockManager.Sizes.{Reach-block_size}
use kvflux.BlockManager.Effects.{refs, allocate-Gains, allocate-err, current-below}
use kvflux.BlockManager.Ownership.{Owns, count_id, AllCurrent, AllCurrent-keep, release_first-Owns}
use kvflux.PhysicalBlockPool.{id}
use kvflux.Tier.{TierLocation, GpuTier, allocate_page, release_page}
use kvflux.Tier.Interface.{slots_of}
use kvflux.Tier.Slots.{slots_of-length, Distinct-middle, middle-Distinct, length-middle}

abbrev pub page : TierLocation → BlockHandle
page l = record { id = l.slot; generation = l.generation }

abbrev pub pages : List TierLocation → List BlockHandle
pages [] = []
pages (l ∷ ls) = page l ∷ pages ls

pub record PageHolds (m : BlockManager) (t : GpuTier) (ls : List TierLocation) : Type 0 where
  pub owned : Owns m (pages ls) t.pool
  pub pool : Inv t.pool
  pub apart : Distinct (slots_of ls)
  pub counted : t.allocated ≡ length ls
  pub fits : t.pool.capacity ≤ size_max

count_id-middle :
    (i : ℕ) (xs : List TierLocation) (l : TierLocation) (ys : List TierLocation)
    → count_id i (pages (xs ++ l ∷ ys)) ≡ count_id i (pages (l ∷ xs ++ ys))
count_id-middle i [] l ys = refl
count_id-middle i (x ∷ xs) l ys = omega (arith, count_id-middle i xs l ys)

AllCurrent-front :
    (n : BlockManager) (xs : List TierLocation) (l : TierLocation) (ys : List TierLocation)
    → AllCurrent n (pages (xs ++ l ∷ ys))
    → AllCurrent n (pages (l ∷ xs ++ ys))
AllCurrent-front n [] l ys a = a
AllCurrent-front n (x ∷ xs) l ys a =
    let (h, rest) = AllCurrent-front n xs l ys a.1 in (h, (a.0, rest))

AllCurrent-middle :
    (n : BlockManager) (xs : List TierLocation) (l : TierLocation) (ys : List TierLocation)
    → AllCurrent n (pages (l ∷ xs ++ ys))
    → AllCurrent n (pages (xs ++ l ∷ ys))
AllCurrent-middle n [] l ys a = a
AllCurrent-middle n (x ∷ xs) l ys a = (a.1.0, AllCurrent-middle n xs l ys (a.0, a.1.1))

-- Locations in use have different slots, so there are at most as many as pages.
few-locations :
    (n : BlockManager) (ls : List TierLocation)
    → AllCurrent n (pages ls)
    → Distinct (slots_of ls)
    → length ls ≤ n.capacity
few-locations n ls c d =
    omega (arith, Distinct-length n.capacity (slots_of ls) d (below n ls c), slots_of-length ls)
  where
    below :
        (n : BlockManager) (ls : List TierLocation)
        → AllCurrent n (pages ls)
        → (i : ℕ) → contains i (slots_of ls) ≡ true
        → i < n.capacity
    below n [] c i h = cc
    below n (l ∷ ls) c i h = elim (Bool-cases (i == l.slot)) [
      | inl e ↦ ground (arith, current-below n (page l) c.0)
      | inr e ↦ below n ls c.1 i (ground arith)
    ]

counted-contains :
    (i : ℕ) (ls : List TierLocation) → count_id i (pages ls) ≡ 0 → contains i (slots_of ls) ≡ false
counted-contains i [] h = refl
counted-contains i (l ∷ ls) h = ground (arith, counted-contains i ls)

module _ (m : BlockManager) where
  pub page-to_front :
      (t : GpuTier) (xs : List TierLocation) (l : TierLocation) (ys : List TierLocation)
      → PageHolds m t (xs ++ l ∷ ys)
      → PageHolds m t (l ∷ xs ++ ys)
  page-to_front t xs l ys h = record {
    owned = record {
      counts = λ i. omega (arith, h.owned.counts i, count_id-middle i xs l ys);
      good = AllCurrent-front t.pool xs l ys h.owned.good;
    };
    pool = h.pool;
    apart = Distinct-middle xs l ys h.apart;
    counted = h.counted ∙ length-middle xs l ys;
    fits = h.fits;
  }

  pub page-to_middle :
      (t : GpuTier) (xs : List TierLocation) (l : TierLocation) (ys : List TierLocation)
      → PageHolds m t (l ∷ xs ++ ys)
      → PageHolds m t (xs ++ l ∷ ys)
  page-to_middle t xs l ys h = record {
    owned = record {
      counts = λ i. omega (arith, h.owned.counts i, count_id-middle i xs l ys);
      good = AllCurrent-middle t.pool xs l ys h.owned.good;
    };
    pool = h.pool;
    apart = middle-Distinct xs l ys h.apart;
    counted = h.counted ∙ sym (length-middle xs l ys);
    fits = h.fits;
  }

  Allocated : List TierLocation → Result TierLocation → GpuTier → Type 0
  Allocated ls (ok l) t = PageHolds m t (l ∷ ls)
  Allocated ls (err e) t = PageHolds m t ls

  allocate_page-Allocated :
      (t : GpuTier) (ls : List TierLocation)
      → PageHolds m t ls
      → Allocated ls (allocate_page t).0 (allocate_page t).1
  unfolding Allocated allocate_page id ref_count
  allocate_page-Allocated t ls h =
      let n : BlockManager = (allocate t.pool).1 in
      elim (Result-cases (allocate t.pool).0) [
        | inr (e, q) ↦
            let same : n ≡ t.pool = allocate-err t.pool e q in rw (q, same, allocate_page) h
        | inl (k, q) ↦
            let (unused, g) = allocate-Gains t.pool k h.pool q in
            let used : (refs n k.id == 0) ≡ false = ground (arith, g.counts k.id) in
            let l : TierLocation = record { slot = k.id; generation = k.generation } in
            let owned : Owns m (pages (l ∷ ls)) n = record {
              counts = λ i. omega (arith, g.counts i, h.owned.counts i);
              good = (
                g.good,
                AllCurrent-keep t.pool n (pages ls)
                    (λ k' c p. g.keeps k' c (omega (arith, h.owned.counts k'.id))) h.owned.good,
              );
            } in
            let out = counted-contains k.id ls (omega (arith, unused, h.owned.counts k.id)) in
            let size : n.capacity ≡ t.pool.capacity = (Reach-block_size (allocates here)).1 in
            let few = few-locations n (l ∷ ls) owned.good (out, h.apart) in
            let more : wrap (t.allocated + 1) ≡ t.allocated + 1 =
              wrap_id (t.allocated + 1) (omega (arith, few, size, h.fits, h.counted)) in
            rw (q, g.good, used, allocate_page, id, ref_count)
              (record {
                owned = owned;
                pool = allocate-Inv t.pool h.pool;
                apart = (out, h.apart);
                counted = omega (arith, more, h.counted);
                fits = omega (arith, size, h.fits);
              })
      ]

  pub page-allocate_ok :
      (t : GpuTier) (ls : List TierLocation) (l : TierLocation)
      → PageHolds m t ls
      → (allocate_page t).0 ≡ ok l
      → PageHolds m (allocate_page t).1 (l ∷ ls)
  unfolding Allocated
  page-allocate_ok t ls l h e =
      let w = allocate_page-Allocated t ls h in
      let w' : Allocated ls (ok l) (allocate_page t).1 = rw e at w in w'

  pub page-allocate_err :
      (t : GpuTier) (ls : List TierLocation) (e : Error)
      → PageHolds m t ls
      → (allocate_page t).0 ≡ err e
      → PageHolds m (allocate_page t).1 ls
  unfolding Allocated
  page-allocate_err t ls e h q =
      let w = allocate_page-Allocated t ls h in
      let w' : Allocated ls (err e) (allocate_page t).1 = rw q at w in w'

  pub page-release_ok :
      (t : GpuTier) (l : TierLocation) (ls : List TierLocation)
      → PageHolds m t (l ∷ ls)
      → ((release_page l t).0 ≡ ok tt) × PageHolds m (release_page l t).1 ls
  unfolding release_page
  page-release_ok t l ls h =
      let (done, rest) = release_first-Owns m (page l) (pages ls) t.pool h.owned in
      let size : (release (page l) t.pool).1.capacity ≡ t.pool.capacity =
        (Reach-block_size (releases (page l) here)).1 in
      let few = few-locations t.pool (l ∷ ls) h.owned.good h.apart in
      let fewer : wrap (t.allocated + size_max) ≡ t.allocated - 1 =
        wrap_pred t.allocated (omega (arith, h.counted)) (omega (arith, h.counted, few, h.fits)) in
      rw (done, release_page)
        (
          refl,
          record {
            owned = rest;
            pool = release-Inv (page l) t.pool h.pool;
            apart = h.apart.1;
            counted = omega (arith, fewer, h.counted);
            fits = omega (arith, size, h.fits);
          },
        )
