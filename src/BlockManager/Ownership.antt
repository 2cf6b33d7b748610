-- ===== src/BlockManager/Ownership.antt =====
-- `acquire` is all or nothing: a table owns one reference for
-- each entry, and a call that throws leaves every reference count as it was.
use kvflux.Base.{
  ℕ, zero, suc, ◌+◌, ◌<◌, ◌≡◌, inl, inr, refl, ap, ◌∙◌, Bool, true, false, List, [], ◌∷◌, ◌++◌,
  arith, ◌==◌, length, take, drop, Bool-cases, Option-cases, Result-cases, ok, err, Result, Error,
}
use kvflux.BlockManager.{
  BlockManager, BlockHandle, BlockTable, Tokens, allocate, release, is_current,
}
use kvflux.BlockManager.Prefixes.{publish, lookup}
use kvflux.BlockManager.Tables.{
  release_each, roll_back, publish_full, acquire_new, acquire_block, acquire_from, acquire,
}
use kvflux.BlockManager.Invariant.{Inv}
use kvflux.BlockManager.Publication.{lookup-Inv}
use kvflux.BlockManager.Reach.{here, Reach-Inv, acquire_block-Reach}
use kvflux.BlockManager.Effects.{
  refs, one_if, Gains, Same, release-Loses, publish-Same, allocate-Gains, allocate-err, lookup-Same,
  lookup-err, lookup-Gains,
}

-- The references of a table to one block.
abbrev pub count_id : ℕ → List BlockHandle → ℕ
count_id i [] = 0
count_id i (h ∷ hs) = one_if (i == h.id) + count_id i hs

abbrev pub AllCurrent : BlockManager → List BlockHandle → Type 0
AllCurrent m [] = Unit {0}
AllCurrent m (h ∷ hs) = (is_current m h ≡ true) × AllCurrent m hs

-- In `n` the handles `hs` hold one reference each, on top of the references of `m`.
pub record Owns (m : BlockManager) (hs : List BlockHandle) (n : BlockManager) : Type 0 where
  pub counts : (i : ℕ) → refs n i ≡ refs m i + count_id i hs
  pub good : AllCurrent n hs

pub count_id-snoc :
    (i : ℕ) (hs : List BlockHandle) (h : BlockHandle)
    → count_id i (hs ++ h ∷ []) ≡ count_id i hs + one_if (i == h.id)
count_id-snoc i [] h = omega arith
count_id-snoc i (k ∷ hs) h = omega (arith, count_id-snoc i hs h)

-- Good handles stay good while the tail of the list counts towards their blocks.
pub AllCurrent-keep :
    (m n : BlockManager) (hs : List BlockHandle)
    → ((k : BlockHandle) → is_current m k ≡ true → 0 < count_id k.id hs → is_current n k ≡ true)
    → AllCurrent m hs
    → AllCurrent n hs
AllCurrent-keep m n [] keep c = tt
AllCurrent-keep m n (h ∷ hs) keep c =
    (keep h c.0 (ground arith), AllCurrent-keep m n hs (λ k d l. keep k d (omega arith)) c.1)

pub AllCurrent-snoc :
    (n : BlockManager) (hs : List BlockHandle) (h : BlockHandle)
    → AllCurrent n hs
    → is_current n h ≡ true
    → AllCurrent n (hs ++ h ∷ [])
AllCurrent-snoc n [] h c g = (g, tt)
AllCurrent-snoc n (k ∷ hs) h c g = (c.0, AllCurrent-snoc n hs h c.1 g)

module _ (m : BlockManager) where
  pub release_first-Owns :
      (h : BlockHandle) (hs : List BlockHandle) (n : BlockManager)
      → Owns m (h ∷ hs) n
      → ((release h n).0 ≡ ok tt) × Owns m hs (release h n).1
  release_first-Owns h hs n o =
      let (done, l) = release-Loses h n o.good.0 (ground (arith, o.counts h.id)) in
      (
        done,
        record {
          counts = λ i. omega (arith, l.counts i, o.counts i);
          good =
              AllCurrent-keep n (release h n).1 hs
                (λ k c p. l.keeps k c (omega (arith, l.counts k.id, o.counts k.id))) o.good.1;
        },
      )

  -- The owned references can be given back, and then all counts are the old ones.
  pub release_each-Owns :
      (hs : List BlockHandle) (n : BlockManager)
      → Owns m hs n
      → ((release_each hs n).0 ≡ ok tt) × Owns m [] (release_each hs n).1
  unfolding release_each
  release_each-Owns [] n o = (refl, o)
  release_each-Owns (h ∷ hs) n o =
      let (done, rest) = release_first-Owns h hs n o in
      rw (done, release_each) (release_each-Owns hs (release h n).1 rest)

  pub Gains-Owns :
      (hs : List BlockHandle) (h : BlockHandle) (n n' : BlockManager)
      → Owns m hs n
      → Gains h n n'
      → Owns m (hs ++ h ∷ []) n'
  Gains-Owns hs h n n' o g = record {
    counts = λ i. omega (arith, o.counts i, g.counts i, count_id-snoc i hs h);
    good =
        AllCurrent-snoc n' hs h
          (AllCurrent-keep n n' hs (λ k c p. g.keeps k c (omega (arith, o.counts k.id))) o.good)
          g.good;
  }

  pub Same-Owns :
      (hs : List BlockHandle) (n n' : BlockManager) → Owns m hs n → Same n n' → Owns m hs n'
  Same-Owns hs n n' o s = record {
    counts = λ i. omega (arith, o.counts i, s.counts i);
    good = AllCurrent-keep n n' hs (λ k c p. s.keeps k ∙ c) o.good;
  }

  -- What a call leaves: the references of its result, or none after an exception.
  abbrev pub Settles : Result (List BlockHandle) → BlockManager → Type 0
  Settles (ok hs) n = Owns m hs n
  Settles (err e) n = Owns m [] n

  roll_back-Settles :
      (e : Error) (hs : List BlockHandle) (n : BlockManager)
      → Owns m hs n
      → let r = roll_back {A = List BlockHandle} e hs n in Settles r.0 r.1
  roll_back-Settles e hs n o = let (done, rest) = release_each-Owns hs n o in rw done rest

  publish_full-Settles :
      (h : BlockHandle) (p : Tokens) (hs : List BlockHandle) (n : BlockManager)
      → Owns m (hs ++ h ∷ []) n
      → let r = publish_full h p hs n in Settles r.0 r.1
  publish_full-Settles h p hs n o =
      let o' = Same-Owns (hs ++ h ∷ []) n (publish h p n).1 o (publish-Same h p n) in
      elim (Result-cases (publish h p n).0) [
        | inr (x, q) ↦
            rw (q, publish_full) (roll_back-Settles x (hs ++ h ∷ []) (publish h p n).1 o')
        | inl (u, q) ↦ rw (q, publish_full) o'
      ]

  acquire_new-Settles :
      (full : Bool) (p : Tokens) (hs : List BlockHandle) (n : BlockManager)
      → Inv n
      → Owns m hs n
      → let r = acquire_new full p hs n in Settles r.0 r.1
  acquire_new-Settles full p hs n v o = elim (Result-cases (allocate n).0) [
    | inr (x, q) ↦
        rw (q, acquire_new) (roll_back-Settles x hs (allocate n).1 (rw (allocate-err n x q) o))
    | inl (h, q) ↦
        let o' = Gains-Owns hs h n (allocate n).1 o (allocate-Gains n h v q).1 in
        elim (Bool-cases full) [
          | inl f ↦ rw (q, f, acquire_new) (publish_full-Settles h p hs (allocate n).1 o')
          | inr f ↦ rw (q, f, acquire_new) o'
        ]
  ]

  acquire_block-Settles :
      (full : Bool) (p : Tokens) (hs : List BlockHandle) (n : BlockManager)
      → Inv n
      → Owns m hs n
      → let r = acquire_block full p hs n in Settles r.0 r.1
  unfolding acquire_block
  acquire_block-Settles false p hs n v o = acquire_new-Settles false p hs n v o
  acquire_block-Settles true p hs n v o = elim (Result-cases (lookup p n).0) [
    | inr (x, q) ↦
        rw (q, acquire_block) (roll_back-Settles x hs (lookup p n).1 (rw (lookup-err p n x q) o))
    | inl (hit, q) ↦ elim (Option-cases hit) [
      | inr (h, e) ↦
          rw (q, e, acquire_block)
            (Gains-Owns hs h n (lookup p n).1 o (lookup-Gains p n h (q ∙ ap ok e)))
      | inl e ↦
          rw (q, e, acquire_block)
            (acquire_new-Settles true p hs (lookup p n).1 (lookup-Inv p n v)
              (Same-Owns hs n (lookup p n).1 o (lookup-Same p n (q ∙ ap ok e))))
    ]
  ]

  acquire_from-Settles :
      (fuel : ℕ) (p rest : Tokens) (hs : List BlockHandle) (n : BlockManager)
      → Inv n
      → Owns m hs n
      → let r = acquire_from fuel p rest hs n in Settles r.0 r.1
  unfolding acquire_from
  acquire_from-Settles zero p rest hs n v o = o
  acquire_from-Settles (suc fuel) p [] hs n v o = o
  acquire_from-Settles (suc fuel) p (t ∷ rest) hs n v o =
      let chunk : Tokens = take n.block_size (t ∷ rest) in
      let full : Bool = length chunk == n.block_size in
      let step = acquire_block full (p ++ chunk) hs n in
      let after : Settles step.0 step.1 = acquire_block-Settles full (p ++ chunk) hs n v o in
      let v' : Inv step.1 = Reach-Inv v (acquire_block-Reach full (p ++ chunk) hs n here) in
      elim (Result-cases step.0) [
        | inr (x, q) ↦ rw (q, acquire_from) (rw q at after)
        | inl (hs', q) ↦
            rw (q, acquire_from)
              (acquire_from-Settles fuel (p ++ chunk) (drop n.block_size (t ∷ rest)) hs' step.1 v'
                (rw q at after))
      ]

  -- The table that a call returns owns its entries; an exception leaves the counts alone.
  abbrev pub SettlesTable : Result BlockTable → BlockManager → Type 0
  SettlesTable (ok table) n = Owns m table.blocks n
  SettlesTable (err e) n = Owns m [] n

-- `acquire` is all or nothing: the table that it returns owns one reference for each entry on top of
-- all references of before, and its handles are good; after an exception every reference count is as
-- before.
pub acquire-Settles :
    (tokens : Tokens) (m : BlockManager)
    → Inv m
    → SettlesTable m (acquire tokens m).0 (acquire tokens m).1
unfolding acquire
acquire-Settles tokens m v =
    let o : Owns m [] m = record { counts = λ i. omega arith; good = tt } in
    let loop = acquire_from (length tokens) [] tokens [] m in
    let after : Settles m loop.0 loop.1 =
      acquire_from-Settles m (length tokens) [] tokens [] m v o in
    elim (Result-cases loop.0) [
      | inr (x, q) ↦ rw (q, acquire) (rw q at after)
      | inl (hs, q) ↦ rw (q, acquire) (rw q at after)
    ]
