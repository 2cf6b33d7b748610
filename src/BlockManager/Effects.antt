-- ===== src/BlockManager/Effects.antt =====
-- What each operation does to the reference counts and to the handles in use.
use kvflux.Base.{
  ℕ, ◌+◌, ◌<◌, ◌≡◌, inl, inr, refl, subst, Bool, true, false, none, some, [], ◌∷◌, arith, ltb, ◌==◌,
  Bool-cases, Option-cases, Result-cases, size_max, ok, err, Error,
}
use kvflux.BlockManager.{
  BlockManager, BlockHandle, Tokens, allocate, candidate, retain, release, is_current,
}
use kvflux.BlockManager.Prefixes.{publish, lookup, find_published, is_whole}
use kvflux.BlockManager.Invariant.{Inv}

abbrev pub refs : BlockManager → ℕ → ℕ
refs m i = (m.slots i).refs

abbrev pub one_if : Bool → ℕ
one_if true = 1
one_if false = 0

-- One more reference to the block of `h`, whose handle is good; every handle to a block in use
-- stays good.
pub record Gains (h : BlockHandle) (m n : BlockManager) : Type 0 where
  pub counts : (i : ℕ) → refs n i ≡ refs m i + one_if (i == h.id)
  pub good : is_current n h ≡ true
  pub keeps : (k : BlockHandle) → is_current m k ≡ true → 0 < refs m k.id → is_current n k ≡ true

-- One reference less; a handle to a block that is still in use stays good.
pub record Loses (h : BlockHandle) (m n : BlockManager) : Type 0 where
  pub counts : (i : ℕ) → refs n i + one_if (i == h.id) ≡ refs m i
  pub keeps : (k : BlockHandle) → is_current m k ≡ true → 0 < refs n k.id → is_current n k ≡ true

pub record Same (m n : BlockManager) : Type 0 where
  pub counts : (i : ℕ) → refs n i ≡ refs m i
  pub keeps : (k : BlockHandle) → is_current n k ≡ is_current m k

pub Same-refl : (m : BlockManager) → Same m m
Same-refl m = record { counts = λ i. refl; keeps = λ k. refl }

pub current-below : (n : BlockManager) (h : BlockHandle) → is_current n h ≡ true → h.id < n.capacity
unfolding is_current
current-below n h c = ground arith

pub retain-Gains :
    (h : BlockHandle) (m : BlockManager) (u : Unit {0})
    → (retain h m).0 ≡ ok u
    → Gains h m (retain h m).1
unfolding retain is_current
retain-Gains h m u e = record {
  counts = λ i. ground arith;
  good = ground arith;
  keeps = λ k c l. ground arith;
}

pub retain-err :
    (h : BlockHandle) (m : BlockManager) (x : Error) → (retain h m).0 ≡ err x → (retain h m).1 ≡ m
unfolding retain
retain-err h m x e = ground arith

pub release-Loses :
    (h : BlockHandle) (m : BlockManager)
    → is_current m h ≡ true
    → 0 < refs m h.id
    → ((release h m).0 ≡ ok tt) × Loses h m (release h m).1
unfolding release is_current
release-Loses h m c l =
    (ground arith, record { counts = λ i. ground arith; keeps = λ k c l. ground arith })

pub publish-Same : (h : BlockHandle) (p : Tokens) (m : BlockManager) → Same m (publish h p m).1
unfolding publish is_current
publish-Same h p m = record { counts = λ i. ground arith; keeps = λ k. ground arith }

candidate-unused : (m : BlockManager) (id : ℕ) → Inv m → candidate m ≡ some id → refs m id ≡ 0
candidate-unused m id (x ∷ free, idle, v, _) e = ground (arith, v.free_mem x, v.free_blank x)
candidate-unused m id ([], x ∷ idle, v, _) e = ground (arith, v.idle_order.first, v.idle_mem x)
candidate-unused m id ([], [], v, _) e = ground (arith, v.idle_order.first)

candidate-used :
    (m : BlockManager) (id : ℕ) → Inv m → candidate m ≡ some id → ltb id m.capacity ≡ true
candidate-used m id (x ∷ free, idle, v, _) e = ground (arith, v.free_mem x)
candidate-used m id ([], x ∷ idle, v, _) e = ground (arith, v.idle_order.first, v.idle_mem x)
candidate-used m id ([], [], v, _) e = ground (arith, v.idle_order.first)

pub allocate-Gains :
    (m : BlockManager) (h : BlockHandle)
    → Inv m
    → (allocate m).0 ≡ ok h
    → (refs m h.id ≡ 0) × Gains h m (allocate m).1
unfolding allocate is_current
allocate-Gains m h v e = elim (Option-cases (candidate m)) [
  | inl c ↦ absurd (ground arith)
  | inr (id, c) ↦ elim (Bool-cases ((m.slots id).generation == size_max)) [
    | inl full ↦ absurd (ground arith)
    | inr room ↦
        let unused = candidate-unused m id v c in
        let used = candidate-used m id v c in
        (
          ground arith,
          rw (c, room, allocate)
              (record {
                counts = λ i. ground arith;
                good = ground arith;
                keeps = λ k c l. ground arith;
              }),
        )
  ]
]

pub allocate-err : (m : BlockManager) (x : Error) → (allocate m).0 ≡ err x → (allocate m).1 ≡ m
unfolding allocate
allocate-err m x e = elim (Option-cases (candidate m)) [
  | inl c ↦ rw (c, allocate)
  | inr (id, c) ↦ elim (Bool-cases ((m.slots id).generation == size_max)) [
    | inl full ↦ rw (c, full, allocate)
    | inr room ↦ absurd (ground arith)
  ]
]

pub lookup-Same : (p : Tokens) (m : BlockManager) → (lookup p m).0 ≡ ok none → Same m (lookup p m).1
unfolding lookup
lookup-Same p m e = elim (Bool-cases (is_whole p m)) [
  | inr part ↦ rw (part, lookup) (Same-refl m)
  | inl full ↦ elim (Option-cases (find_published p m)) [
    | inl miss ↦ rw (full, miss, lookup) (Same-refl m)
    | inr (i, hit) ↦ absurd (ground arith)
  ]
]

pub lookup-err :
    (p : Tokens) (m : BlockManager) (x : Error) → (lookup p m).0 ≡ err x → (lookup p m).1 ≡ m
unfolding lookup retain
lookup-err p m x e = ground arith

pub lookup-Gains :
    (p : Tokens) (m : BlockManager) (h : BlockHandle)
    → (lookup p m).0 ≡ ok (some h)
    → Gains h m (lookup p m).1
unfolding lookup
lookup-Gains p m h e = elim (Option-cases (find_published p m)) [
  | inl miss ↦ absurd (ground arith)
  | inr (i, hit) ↦ elim (Bool-cases (is_whole p m)) [
    | inr part ↦ absurd (ground arith)
    | inl full ↦
        elim (Result-cases (retain (record { id = i; generation = (m.slots i).generation }) m).0) [
          | inr (x, bad) ↦ absurd (ground arith)
          | inl (u, q) ↦
              let k : BlockHandle = record { id = i; generation = (m.slots i).generation } in
              let same : k ≡ h = ground arith in
              rw (full, hit, q, lookup)
                (subst (λ g. Gains g m (retain k m).1) same (retain-Gains k m u q))
        ]
  ]
]
