-- ===== src/Tier/FreeList.antt =====
-- The free list of a `SlotTier`, and what `allocate` and `release` do to it on every branch.
use kvflux.Base.{
  ℕ, ◌+◌, ◌-◌, ◌≤◌, ◌<◌, ◌≡◌, ◌≢◌, inl, inr, refl, sym, subst, Bool, true, false, not, ◌&&◌, ◌||◌,
  Option, none, some, List, [], ◌∷◌, arith, ltb, leb, ◌==◌, size_max, update, wrap, wrap_id,
  wrap_pred, Distinct-length, Result, ok, err, invalid_argument, overflow_error, capacity_error,
  length, contains, Distinct, Bool-cases,
}
use kvflux.Tier.{TierLocation, Slot, SlotTier, allocate_slot, allocate_at, release_slot}

-- The free list from `head` on goes through the slots `xs` and ends.
abbrev pub Chain : (ℕ → Slot) → Option ℕ → List ℕ → Type 0
Chain slots head [] = head ≡ none
Chain slots head (x ∷ xs) = (head ≡ some x) × Chain slots (slots x).next_free xs

-- The free list is `free`: the slots that are marked free, each once; the others are counted.
pub record IsTier (t : SlotTier) (free : List ℕ) : Type 0 where
  pub chain : Chain t.slots t.free_head free
  pub distinct : Distinct free
  pub mem : (i : ℕ) → contains i free ≡ (ltb i t.capacity && (t.slots i).free)
  pub counted : t.allocated + length free ≡ t.capacity
  pub fits : t.capacity ≤ size_max

pub Chain-update :
    (slots : ℕ → Slot) (head : Option ℕ) (xs : List ℕ) (i : ℕ) (s : Slot)
    → contains i xs ≡ false
    → Chain slots head xs
    → Chain (update slots i s) head xs
Chain-update slots head [] i s a c = c
Chain-update slots head (x ∷ xs) i s a c =
    ground (arith, Chain-update slots (slots x).next_free xs i s)

pub allocate_slot-head :
    (t : SlotTier) (x : ℕ) → t.free_head ≡ some x → allocate_slot t ≡ allocate_at x t
unfolding allocate_slot
allocate_slot-head t x e = simp (e, allocate_slot)

pub allocate_slot-empty :
    (t : SlotTier) → t.free_head ≡ none → allocate_slot t ≡ (err capacity_error, t)
unfolding allocate_slot
allocate_slot-empty t e = simp (e, allocate_slot)

-- What `allocate` leaves of the free list: the head is served.
pub record Served (t : SlotTier) (x : ℕ) (xs : List ℕ) (r : Result TierLocation × SlotTier)
    : Type 0 where
  pub result : r.0 ≡ ok (record { slot = x; generation = (t.slots x).generation + 1 })
  pub valid : IsTier r.1 xs
  pub counted : r.1.allocated ≡ t.allocated + 1
  pub generation : (r.1.slots x).generation ≡ (t.slots x).generation + 1
  pub others : (i : ℕ) → i ≢ x → r.1.slots i ≡ t.slots i
  pub size : r.1.capacity ≡ t.capacity

allocate_at-Served :
    (t : SlotTier) (x : ℕ) (xs : List ℕ)
    → IsTier t (x ∷ xs)
    → (t.slots x).generation < size_max
    → Served t x xs (allocate_at x t)
allocate_at-Served t x xs v room =
    let below : ((t.slots x).generation == size_max) ≡ false = ground arith in
    let few : wrap (t.allocated + 1) ≡ t.allocated + 1 =
      wrap_id (t.allocated + 1) (omega (arith, v.counted, v.fits)) in
    let taken : Slot = record (t.slots x) { next_free = none; free = false } in
    let alive : Slot = record {
      generation = (t.slots x).generation + 1;
      free = false;
      next_free = none;
    } in
    rw (below, few)
      (record {
        result = refl;
        valid = record {
          chain =
              Chain-update (update t.slots x taken) (t.slots x).next_free xs x alive v.distinct.0
                (Chain-update t.slots (t.slots x).next_free xs x taken v.distinct.0 v.chain.1);
          distinct = v.distinct.1;
          mem = λ i. ground (arith, v.mem i, v.distinct.0);
          counted = omega (arith, v.counted);
          fits = v.fits;
        };
        counted = refl;
        generation = ground arith;
        others = λ i n. ground arith;
        size = refl;
      })

-- With no free slot `allocate` throws and changes nothing; otherwise, while the head of the free
-- list has a generation left, `allocate` takes it, gives it the next generation and counts it.
pub allocate_slot-Served :
    (t : SlotTier) (free : List ℕ)
    → IsTier t free
    → (free ≡ [] → allocate_slot t ≡ (err capacity_error, t))
      × ((x : ℕ) (xs : List ℕ)
          → free ≡ x ∷ xs
          → (t.slots x).generation < size_max
          → Served t x xs (allocate_slot t))
unfolding allocate_slot
allocate_slot-Served t [] v = (λ _. allocate_slot-empty t v.chain, λ x xs e. cc)
allocate_slot-Served t (y ∷ ys) v = (
  λ e. cc,
  λ x xs e room.
      let w : IsTier t (x ∷ xs) = subst (IsTier t) e v in
      subst (Served t x xs) (sym (allocate_slot-head t x w.chain.0))
        (allocate_at-Served t x xs w room),
)

-- The head is off the free list and marked as taken, but not counted as allocated.
pub record Lost (t : SlotTier) (x : ℕ) (xs : List ℕ) (r : Result TierLocation × SlotTier)
    : Type 0 where
  pub result : r.0 ≡ err overflow_error
  pub chain : Chain r.1.slots r.1.free_head xs
  pub taken : (r.1.slots x).free ≡ false
  pub uncounted : r.1.allocated + length xs + 1 ≡ r.1.capacity

-- When the head of the free list has used up its generations, `allocate` throws and the slot is
-- lost: it is off the free list and marked as taken, but it is not counted as allocated.
pub allocate_slot-Lost :
    (t : SlotTier) (x : ℕ) (xs : List ℕ)
    → IsTier t (x ∷ xs)
    → (t.slots x).generation ≡ size_max
    → Lost t x xs (allocate_slot t)
allocate_slot-Lost t x xs v full =
    let over : ((t.slots x).generation == size_max) ≡ true = ground arith in
    let taken : Slot = record (t.slots x) { next_free = none; free = false } in
    subst (Lost t x xs) (sym (allocate_slot-head t x v.chain.0)) (
      rw over (record {
        result = refl;
        chain = Chain-update t.slots (t.slots x).next_free xs x taken v.distinct.0 v.chain.1;
        taken = ground arith;
        uncounted = omega (arith, v.counted);
      }))

-- What `release` leaves: the slot is the head of the free list, for a location that is current; another
-- location is refused and nothing changes.
abbrev pub is_live : SlotTier → TierLocation → Bool
is_live t l =
    ltb l.slot t.capacity
    && ((t.slots l.slot).generation == l.generation && not (t.slots l.slot).free)

pub record Freed (t : SlotTier) (l : TierLocation) (free : List ℕ)
    (r : Result (Unit {0}) × SlotTier) : Type 0 where
  pub result : r.0 ≡ ok tt
  pub valid : IsTier r.1 (l.slot ∷ free)
  pub counted : r.1.allocated + 1 ≡ t.allocated
  pub generations : (i : ℕ) → (r.1.slots i).generation ≡ (t.slots i).generation
  pub size : r.1.capacity ≡ t.capacity

abbrev pub Releases : SlotTier → TierLocation → List ℕ → Bool → Type 0
Releases t l free true = Freed t l free (release_slot l t)
Releases t l free false = release_slot l t ≡ (err invalid_argument, t)

-- A slot in use is counted.
live-counted :
    (t : SlotTier) (free : List ℕ) (i : ℕ)
    → IsTier t free
    → i < t.capacity
    → (t.slots i).free ≡ false
    → 0 < t.allocated
live-counted t free i v p used =
    let out : contains i free ≡ false = ground (arith, v.mem i) in
    let short =
      Distinct-length t.capacity (i ∷ free) (out, v.distinct) (λ j h. ground (arith, v.mem j)) in
    omega (arith, short, v.counted)

release_slot-Freed :
    (t : SlotTier) (l : TierLocation) (free : List ℕ)
    → IsTier t free
    → is_live t l ≡ true
    → Freed t l free (release_slot l t)
unfolding release_slot
release_slot-Freed t l free v live =
    let good : (leb t.capacity l.slot || not ((t.slots l.slot).generation == l.generation))
        ≡ false =
      ground arith in
    let used : (t.slots l.slot).free ≡ false = ground arith in
    let out : contains l.slot free ≡ false = ground (arith, v.mem l.slot) in
    let counted = live-counted t free l.slot v (ground arith) used in
    let fewer : wrap (t.allocated + size_max) ≡ t.allocated - 1 =
      wrap_pred t.allocated counted (omega (arith, v.counted, v.fits)) in
    let s : Slot = record (t.slots l.slot) { free = true; next_free = t.free_head } in
    rw (good, used, fewer, release_slot)
      (record {
        result = refl;
        valid = record {
          chain = (
            refl,
            subst (λ o. Chain (update t.slots l.slot s) o free) (ground arith)
                (Chain-update t.slots t.free_head free l.slot s out v.chain),
          );
          distinct = (out, v.distinct);
          mem = λ i. ground (arith, v.mem i);
          counted = omega (arith, v.counted, counted);
          fits = v.fits;
        };
        counted = omega (arith, counted);
        generations = λ i. ground arith;
        size = refl;
      })

-- `release` accepts exactly the locations in use: the slot goes to the head of the free list and
-- is counted as available; any other location is refused and nothing changes.
pub release_slot-Releases :
    (t : SlotTier) (l : TierLocation) (free : List ℕ)
    → IsTier t free
    → Releases t l free (is_live t l)
unfolding release_slot
release_slot-Releases t l free v = elim (Bool-cases (is_live t l)) [
  | inl live ↦ rw live (release_slot-Freed t l free v live)
  | inr dead ↦
      elim (Bool-cases
        (leb t.capacity l.slot || not ((t.slots l.slot).generation == l.generation))) [
          | inl bad ↦ rw dead (rw (bad, release_slot) refl)
          | inr good ↦
              let back : (t.slots l.slot).free ≡ true = ground arith in
              rw dead (rw (good, back, release_slot) refl)
        ]
]
