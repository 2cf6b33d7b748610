-- ===== src/BlockManager/Stale.antt =====
-- A handle whose block is gone is refused from then on: generations only grow.
use kvflux.Base.{
  ℕ, ◌<◌, ◌≡◌, ◌⊎◌, inl, inr, refl, true, false, arith, ◌==◌, Bool-cases, Option-cases, size_max,
  err, invalid_argument,
}
use kvflux.BlockManager.{
  BlockManager, BlockHandle, Slot, Tokens, allocate, candidate, retain, release, ref_count,
  is_current,
}
use kvflux.BlockManager.Reach.{Reach, here, allocates, retains, releases, publishes, looks_up}
use kvflux.BlockManager.Prefixes.{publish, lookup}

-- The slot has gone on to a later generation, or this generation has ended.
abbrev pub Dead : BlockHandle → BlockManager → Type 0
Dead h m =
    (h.generation < (m.slots h.id).generation)
    ⊎ ((h.generation ≡ (m.slots h.id).generation) × ((m.slots h.id).free ≡ true))

pub Dead-refused : (h : BlockHandle) (m : BlockManager) → Dead h m → is_current m h ≡ false
unfolding is_current
Dead-refused h m (inl old) = ground arith
Dead-refused h m (inr ended) = ground arith

-- What an operation may do to a slot: keep it in its life, end its life, or start a later one.
abbrev pub Ages : Slot → Slot → Type 0
Ages s t =
    (s.generation < t.generation)
    ⊎ ((s.generation ≡ t.generation) × ((s.free ≡ true) → t.free ≡ true))

allocate-Ages : (m : BlockManager) (i : ℕ) → Ages (m.slots i) ((allocate m).1.slots i)
unfolding allocate
allocate-Ages m i = elim (Option-cases (candidate m)) [
  | inl e ↦ rw (e, allocate) (inr (refl, λ f. f))
  | inr (id, e) ↦ elim (Bool-cases ((m.slots id).generation == size_max)) [
    | inl full ↦ rw (e, full, allocate) (inr (refl, λ f. f))
    | inr room ↦ elim (Bool-cases (i == id)) [
      | inl same ↦ rw (e, room, allocate) (inl (ground arith))
      | inr other ↦ rw (e, room, allocate) (inr (ground arith, ground arith))
    ]
  ]
]

retain-Ages :
    (h : BlockHandle) (m : BlockManager) (i : ℕ) → Ages (m.slots i) ((retain h m).1.slots i)
unfolding retain
retain-Ages h m i = inr (ground arith, ground arith)

release-Ages :
    (h : BlockHandle) (m : BlockManager) (i : ℕ) → Ages (m.slots i) ((release h m).1.slots i)
unfolding release
release-Ages h m i = inr (ground arith, ground arith)

publish-Ages :
    (h : BlockHandle) (p : Tokens) (m : BlockManager) (i : ℕ)
    → Ages (m.slots i) ((publish h p m).1.slots i)
unfolding publish
publish-Ages h p m i = inr (ground arith, ground arith)

lookup-Ages : (p : Tokens) (m : BlockManager) (i : ℕ) → Ages (m.slots i) ((lookup p m).1.slots i)
unfolding lookup retain
lookup-Ages p m i = inr (ground arith, ground arith)

Ages-Dead :
    (h : BlockHandle) (m n : BlockManager)
    → Ages (m.slots h.id) (n.slots h.id)
    → Dead h m
    → Dead h n
Ages-Dead h m n a d = ground arith

-- A dead handle stays dead, whatever is done with the pool.
pub Reach-Dead : (h : BlockHandle) {m n : BlockManager} → Dead h m → Reach m n → Dead h n
Reach-Dead h d here = d
Reach-Dead h d (allocates {n = n} r) =
    Ages-Dead h n (allocate n).1 (allocate-Ages n h.id) (Reach-Dead h d r)
Reach-Dead h d (retains k {n = n} r) =
    Ages-Dead h n (retain k n).1 (retain-Ages k n h.id) (Reach-Dead h d r)
Reach-Dead h d (releases k {n = n} r) =
    Ages-Dead h n (release k n).1 (release-Ages k n h.id) (Reach-Dead h d r)
Reach-Dead h d (publishes k p {n = n} r) =
    Ages-Dead h n (publish k p n).1 (publish-Ages k p n h.id) (Reach-Dead h d r)
Reach-Dead h d (looks_up p {n = n} r) =
    Ages-Dead h n (lookup p n).1 (lookup-Ages p n h.id) (Reach-Dead h d r)

release-Dead :
    (h : BlockHandle) (m : BlockManager)
    → is_current m h ≡ true
    → (m.slots h.id).refs ≡ 1
    → (m.slots h.id).cached ≡ false
    → Dead h (release h m).1
unfolding release is_current
release-Dead h m current one private_ = inr (ground arith, ground arith)

-- Use after free: once the last reference to an unpublished block is released, each later use of
-- its handle throws, although the slot may serve another block by then.
pub release-stale :
    (h : BlockHandle) (m n : BlockManager)
    → is_current m h ≡ true
    → (m.slots h.id).refs ≡ 1
    → (m.slots h.id).cached ≡ false
    → Reach (release h m).1 n
    → (retain h n ≡ (err invalid_argument, n))
      × (release h n ≡ (err invalid_argument, n))
      × (ref_count h n ≡ (err invalid_argument, n))
      × ((p : Tokens) → publish h p n ≡ (err invalid_argument, n))
unfolding retain release ref_count publish
release-stale h m n current one private_ r =
    let e = Dead-refused h n (Reach-Dead h (release-Dead h m current one private_) r) in
    (ground (arith, e), ground (arith, e), ground (arith, e), λ p. ground (arith, e))
