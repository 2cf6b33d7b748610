-- ===== src/Tier/Histories.antt =====
-- Histories of calls on a `SlotTier`, from its constructor on.
use kvflux.Base.{
  ℕ, zero, suc, ◌+◌, ◌-◌, ◌≤◌, ◌<◌, ◌≡◌, inl, inr, refl, sym, ap, subst, ◌∙◌, ◌||◌, some, List, [],
  ◌∷◌, arith, ◌==◌, size_max, wrap_sub, ok-injective, ok, err, invalid_argument, length, range,
  contains-range, range-Distinct, Bool-cases,
}
use kvflux.Tier.{
  StorageTier, TierLocation, Slot, SlotTier, fresh_tier, create_tier, allocate_slot, release_slot,
  available_slots,
}
use kvflux.Tier.FreeList.{
  Chain, IsTier, allocate_slot-Served, Freed, is_live, release_slot-Releases,
}

pub data Call : Type 0 where
  allocate_call : Call
  release_call : TierLocation → Call

unfoldable pub step : Call → SlotTier → SlotTier
step allocate_call t = (allocate_slot t).1
step (release_call l) t = (release_slot l t).1

unfoldable pub run : List Call → SlotTier → SlotTier
run [] t = t
run (c ∷ cs) t = run cs (step c t)

-- After at most `n` calls no slot has had more than `n` lives.
pub record Young (n : ℕ) (t : SlotTier) : Type 0 where
  pub free : List ℕ
  pub valid : IsTier t free
  pub lives : (i : ℕ) → (t.slots i).generation ≤ n

allocate-Young :
    (n : ℕ) (t : SlotTier) (free : List ℕ)
    → n < size_max
    → IsTier t free
    → ((i : ℕ) → (t.slots i).generation ≤ n)
    → Young (suc n) (allocate_slot t).1 × ((allocate_slot t).1.capacity ≡ t.capacity)
allocate-Young n t [] p v g =
    let same = ap (λ r. r.1) ((allocate_slot-Served t [] v).0 refl) in
    subst (λ u. Young (suc n) u × (u.capacity ≡ t.capacity)) (sym same)
      (record { free = []; valid = v; lives = λ i. omega (arith, g i) }, refl)
allocate-Young n t (x ∷ xs) p v g =
    let s = (allocate_slot-Served t (x ∷ xs) v).1 x xs refl (omega (arith, g x)) in
    let lives : (i : ℕ) → ((allocate_slot t).1.slots i).generation ≤ suc n = λ i.
      elim (Bool-cases (i == x)) [
        | inl here ↦ ground (arith, g x, s.generation)
        | inr there ↦
            let e = s.others i (ground arith) in
            ground (arith, g i, ap (λ (k : Slot). k.generation) e)
      ] in
    (record { free = xs; valid = s.valid; lives = lives }, s.size)

release-Young :
    (n : ℕ) (t : SlotTier) (free : List ℕ) (l : TierLocation)
    → IsTier t free
    → ((i : ℕ) → (t.slots i).generation ≤ n)
    → Young (suc n) (release_slot l t).1 × ((release_slot l t).1.capacity ≡ t.capacity)
release-Young n t free l v g =
    let after = release_slot-Releases t l free v in
    elim (Bool-cases (is_live t l)) [
      | inl live ↦
          let f : Freed t l free (release_slot l t) = rw live at after in
          (
            record {
              free = l.slot ∷ free;
              valid = f.valid;
              lives = λ i. omega (arith, g i, f.generations i);
            },
            f.size,
          )
      | inr dead ↦
          let same : release_slot l t ≡ (err invalid_argument, t) = rw dead at after in
          subst (λ u. Young (suc n) u × (u.capacity ≡ t.capacity)) (sym (ap (λ r. r.1) same))
            (record { free = free; valid = v; lives = λ i. omega (arith, g i) }, refl)
    ]

step-Young :
    (n : ℕ) (t : SlotTier) (c : Call)
    → n < size_max
    → Young n t
    → Young (suc n) (step c t) × ((step c t).capacity ≡ t.capacity)
unfolding step
step-Young n t allocate_call p y = allocate-Young n t y.free p y.valid y.lives
step-Young n t (release_call l) p y = release-Young n t y.free l y.valid y.lives

run-Young :
    (n : ℕ) (t : SlotTier) (cs : List Call)
    → n + length cs < size_max
    → Young n t
    → Young (n + length cs) (run cs t) × ((run cs t).capacity ≡ t.capacity)
unfolding run
run-Young n t [] p y = (subst (λ k. Young k t) (omega arith) y, refl)
run-Young n t (c ∷ cs) p y =
    let (next, same) = step-Young n t c (omega arith) y in
    let (last, same') = run-Young (suc n) (step c t) cs (omega arith) next in
    (subst (λ k. Young k (run cs (step c t))) (omega arith) last, same' ∙ same)

module _ (kind : StorageTier) (capacity chunk_bytes : ℕ) where
  abbrev start : SlotTier
  start = fresh_tier kind capacity chunk_bytes

  fresh-Chain : (k n : ℕ) → k + suc n ≡ capacity → Chain start.slots (some k) (range k (suc n))
  fresh-Chain k zero e = (refl, ground arith)
  fresh-Chain k (suc n) e = (
    refl,
    subst (λ o. Chain start.slots o (range (k + 1) (suc n))) (ground arith)
        (fresh-Chain (k + 1) n (omega arith)),
  )

  length-range : (k n : ℕ) → length (range k n) ≡ n
  length-range k zero = refl
  length-range k (suc n) = ap suc (length-range (k + 1) n)

  fresh-Young : 0 < capacity → capacity ≤ size_max → Young 0 start
  fresh-Young p q = record {
    free = range 0 capacity;
    valid = record {
      chain =
          let e : capacity ≡ suc (capacity - 1) = omega arith in
          subst (λ n. Chain start.slots (some 0) (range 0 n)) (sym e)
            (fresh-Chain 0 (capacity - 1) (omega arith));
      distinct = range-Distinct 0 capacity;
      mem = λ i. ground (arith, contains-range i 0 capacity);
      counted = omega (arith, length-range 0 capacity);
      fits = q;
    };
    lives = λ i. omega arith;
  }

-- After any history of fewer than 2^64 - 1 calls on a tier that the constructor built, the free
-- list is well formed, and the slots that `available` counts are exactly those on it.
pub run-create-IsTier :
    (kind : StorageTier) (capacity chunk_bytes : ℕ) (t : SlotTier) (cs : List Call)
    → create_tier kind capacity chunk_bytes ≡ ok t
    → capacity ≤ size_max
    → length cs < size_max
    → (free : List ℕ) × IsTier (run cs t) free
      × (available_slots (run cs t) ≡ length free)
      × ((run cs t).capacity ≡ capacity)
unfolding create_tier available_slots
run-create-IsTier kind capacity chunk_bytes t cs e fits few =
    elim (Bool-cases (capacity == 0 || chunk_bytes == 0)) [
      | inl bad ↦ absurd (let w = rw bad at e in cc)
      | inr good ↦
          let built : fresh_tier kind capacity chunk_bytes ≡ t =
            let w = rw good at e in ok-injective w in
          let first =
            subst (Young 0) built (fresh-Young kind capacity chunk_bytes (ground arith) fits) in
          let (y, same) = run-Young 0 t cs (omega arith) first in
          let size : (run cs t).capacity ≡ capacity =
            same ∙ sym (ap (λ (u : SlotTier). u.capacity) built) in
          let v = y.valid in
          (
            y.free,
            v,
            wrap_sub (run cs t).capacity (run cs t).allocated (length y.free) v.counted v.fits,
            size,
          )
    ]
