-- ===== src/Tier/Slots.antt =====
-- A `SlotTier` seen by its user: the locations it has handed out. This survives also the loss of a
-- slot whose generations are used up.
use kvflux.Base.{
  ℕ, ◌+◌, ◌-◌, ◌≤◌, ◌<◌, ◌≡◌, inl, inr, refl, sym, ap, subst, ◌∙◌, true, false, not, ◌||◌, none,
  some, List, [], ◌∷◌, ◌++◌, arith, leb, ◌==◌, size_max, update, wrap, wrap_id, wrap_pred,
  Distinct-length, suc, Result, ok, err, Error, length, length-append, contains, contains-append,
  Distinct, Bool-cases,
}
use kvflux.Tier.{TierLocation, Slot, SlotTier, allocate_slot, allocate_at, release_slot}
use kvflux.Tier.FreeList.{Chain, Chain-update, is_live, allocate_slot-head, allocate_slot-empty}
use kvflux.Tier.Interface.{slots_of}

abbrev pub AllLive : SlotTier → List TierLocation → Type 0
AllLive t [] = Unit {0}
AllLive t (l ∷ ls) = (is_live t l ≡ true) × AllLive t ls

pub record SlotHolds (t : SlotTier) (ls : List TierLocation) : Type 0 where
  pub free : List ℕ
  pub chain : Chain t.slots t.free_head free
  pub distinct : Distinct free
  pub mem : (i : ℕ) → contains i free ≡ true → (i < t.capacity) × ((t.slots i).free ≡ true)
  pub live : AllLive t ls
  pub apart : Distinct (slots_of ls)
  pub counted : t.allocated ≡ length ls
  pub fits : t.capacity ≤ size_max

-- Moving a location within the list.
slots_of-append : (xs ys : List TierLocation) → slots_of (xs ++ ys) ≡ slots_of xs ++ slots_of ys
slots_of-append [] ys = refl
slots_of-append (x ∷ xs) ys = ap (λ (l : List ℕ). x.slot ∷ l) (slots_of-append xs ys)

pub Distinct-middle :
    (xs : List TierLocation) (l : TierLocation) (ys : List TierLocation)
    → Distinct (slots_of (xs ++ l ∷ ys))
    → Distinct (slots_of (l ∷ xs ++ ys))
Distinct-middle [] l ys d = d
Distinct-middle (x ∷ xs) l ys d =
    let (out, rest) = Distinct-middle xs l ys d.1 in
    let a = ap (contains x.slot) (slots_of-append xs (l ∷ ys)) in
    let b = contains-append x.slot (slots_of xs) (slots_of (l ∷ ys)) in
    let c = ap (contains x.slot) (slots_of-append xs ys) in
    let e = contains-append x.slot (slots_of xs) (slots_of ys) in ground arith

pub middle-Distinct :
    (xs : List TierLocation) (l : TierLocation) (ys : List TierLocation)
    → Distinct (slots_of (l ∷ xs ++ ys))
    → Distinct (slots_of (xs ++ l ∷ ys))
middle-Distinct [] l ys d = d
middle-Distinct (x ∷ xs) l ys d =
    let a = ap (contains x.slot) (slots_of-append xs (l ∷ ys)) in
    let b = contains-append x.slot (slots_of xs) (slots_of (l ∷ ys)) in
    let c = ap (contains x.slot) (slots_of-append xs ys) in
    let e = contains-append x.slot (slots_of xs) (slots_of ys) in
    let rest = middle-Distinct xs l ys in (ground arith, rest (ground arith))

pub length-middle :
    (xs : List TierLocation) (l : TierLocation) (ys : List TierLocation)
    → length (xs ++ l ∷ ys) ≡ length (l ∷ xs ++ ys)
length-middle xs l ys = omega (arith, length-append xs (l ∷ ys), length-append xs ys)

AllLive-front :
    (t : SlotTier) (xs : List TierLocation) (l : TierLocation) (ys : List TierLocation)
    → AllLive t (xs ++ l ∷ ys)
    → AllLive t (l ∷ xs ++ ys)
AllLive-front t [] l ys a = a
AllLive-front t (x ∷ xs) l ys a =
    let (here, rest) = AllLive-front t xs l ys a.1 in (here, (a.0, rest))

AllLive-middle :
    (t : SlotTier) (xs : List TierLocation) (l : TierLocation) (ys : List TierLocation)
    → AllLive t (l ∷ xs ++ ys)
    → AllLive t (xs ++ l ∷ ys)
AllLive-middle t [] l ys a = a
AllLive-middle t (x ∷ xs) l ys a = (a.1.0, AllLive-middle t xs l ys (a.0, a.1.1))

pub slot-to_front :
    (t : SlotTier) (xs : List TierLocation) (l : TierLocation) (ys : List TierLocation)
    → SlotHolds t (xs ++ l ∷ ys)
    → SlotHolds t (l ∷ xs ++ ys)
slot-to_front t xs l ys h = record {
  free = h.free;
  chain = h.chain;
  distinct = h.distinct;
  mem = h.mem;
  live = AllLive-front t xs l ys h.live;
  apart = Distinct-middle xs l ys h.apart;
  counted = h.counted ∙ length-middle xs l ys;
  fits = h.fits;
}

pub slot-to_middle :
    (t : SlotTier) (xs : List TierLocation) (l : TierLocation) (ys : List TierLocation)
    → SlotHolds t (l ∷ xs ++ ys)
    → SlotHolds t (xs ++ l ∷ ys)
slot-to_middle t xs l ys h = record {
  free = h.free;
  chain = h.chain;
  distinct = h.distinct;
  mem = h.mem;
  live = AllLive-middle t xs l ys h.live;
  apart = middle-Distinct xs l ys h.apart;
  counted = h.counted ∙ sym (length-middle xs l ys);
  fits = h.fits;
}

-- A free slot is not among the locations that are in use, and those that are stay so when another
-- slot changes.
live-apart :
    (t : SlotTier) (ls : List TierLocation) (i : ℕ)
    → AllLive t ls
    → (t.slots i).free ≡ true
    → contains i (slots_of ls) ≡ false
live-apart t [] i a f = refl
live-apart t (l ∷ ls) i a f =
    let rest = live-apart t ls i a.1 f in
    elim (Bool-cases (i == l.slot)) [ inl e ↦ absurd (ground (arith, a.0)) | inr e ↦ ground arith ]

live-keep :
    (t u : SlotTier) (ls : List TierLocation) (i : ℕ)
    → u.capacity ≡ t.capacity
    → ((j : ℕ) → (j == i) ≡ false → u.slots j ≡ t.slots j)
    → contains i (slots_of ls) ≡ false
    → AllLive t ls
    → AllLive u ls
live-keep t u [] i c s out a = tt
live-keep t u (l ∷ ls) i c s out a =
    let same = s l.slot (ground arith) in
    (rw (c, same) a.0, live-keep t u ls i c s (ground arith) a.1)

live-below :
    (t : SlotTier) (ls : List TierLocation)
    → AllLive t ls
    → (i : ℕ) → contains i (slots_of ls) ≡ true
    → i < t.capacity
live-below t [] a i h = cc
live-below t (l ∷ ls) a i h = elim (Bool-cases (i == l.slot)) [
  | inl e ↦ ground (arith, a.0)
  | inr e ↦ live-below t ls a.1 i (ground arith)
]

pub slots_of-length : (ls : List TierLocation) → length (slots_of ls) ≡ length ls
slots_of-length [] = refl
slots_of-length (l ∷ ls) = ap suc (slots_of-length ls)

-- The free list has the slot `x` in front.
module _ (t : SlotTier) (ls : List TierLocation) (x : ℕ) (xs : List ℕ) where
  abbrev Front : Type 0
  Front =
      (Chain t.slots t.free_head (x ∷ xs))
      × Distinct (x ∷ xs)
      × ((i : ℕ) → contains i (x ∷ xs) ≡ true → (i < t.capacity) × ((t.slots i).free ≡ true))

  -- One location more than the free slot allows cannot be.
  room : Front → AllLive t ls → Distinct (slots_of ls) → length ls < t.capacity
  room f a d =
      let head = f.2 x (ground arith) in
      let out = live-apart t ls x a head.1 in
      let few =
        Distinct-length t.capacity (x ∷ slots_of ls) (out, d)
          (λ i h. elim (Bool-cases (i == x)) [
            | inl e ↦ ground (arith, head.0)
            | inr e ↦ live-below t ls a i (ground arith)
          ]) in
      omega (arith, few, slots_of-length ls)

AllocateHolds : List TierLocation → Result TierLocation → SlotTier → Type 0
AllocateHolds ls (ok l) t = SlotHolds t (l ∷ ls)
AllocateHolds ls (err e) t = SlotHolds t ls

allocate_at-Holds :
    (t : SlotTier) (ls : List TierLocation) (x : ℕ) (xs : List ℕ)
    → (h : SlotHolds t ls) → Front t ls x xs
    → AllocateHolds ls (allocate_at x t).0 (allocate_at x t).1
unfolding AllocateHolds
allocate_at-Holds t ls x xs h f =
    let (below, is_free) = f.2 x (ground arith) in
    let out = live-apart t ls x h.live is_free in
    let taken : Slot = record (t.slots x) { next_free = none; free = false } in
    let alive : Slot = record {
      generation = (t.slots x).generation + 1;
      free = false;
      next_free = none;
    } in
    let chain1 = Chain-update t.slots (t.slots x).next_free xs x taken f.1.0 f.0.1 in
    elim (Bool-cases ((t.slots x).generation == size_max)) [
      | inl full ↦
          let u : SlotTier = record t {
            free_head = (t.slots x).next_free;
            slots = update t.slots x taken;
          } in
          rw full (record {
            free = xs;
            chain = chain1;
            distinct = f.1.1;
            mem = λ i m. let old = f.2 i (ground arith) in (old.0, ground (arith, f.1.0, old.1));
            live = live-keep t u ls x refl (λ j n. rw n refl) out h.live;
            apart = h.apart;
            counted = h.counted;
            fits = h.fits;
          })
      | inr more ↦
          let few : wrap (t.allocated + 1) ≡ t.allocated + 1 =
            wrap_id (t.allocated + 1)
              (omega (arith, room t ls x xs f h.live h.apart, h.counted, h.fits)) in
          let u : SlotTier = record t {
            free_head = (t.slots x).next_free;
            slots = update (update t.slots x taken) x alive;
            allocated = wrap (t.allocated + 1);
          } in
          rw more (record {
            free = xs;
            chain =
                Chain-update (update t.slots x taken) (t.slots x).next_free xs x alive f.1.0 chain1;
            distinct = f.1.1;
            mem = λ i m. let old = f.2 i (ground arith) in (old.0, ground (arith, f.1.0, old.1));
            live = (ground arith, live-keep t u ls x refl (λ j n. rw n refl) out h.live);
            apart = (out, h.apart);
            counted = omega (arith, few, h.counted);
            fits = h.fits;
          })
    ]

allocate_slot-Holds :
    (t : SlotTier) (ls : List TierLocation)
    → SlotHolds t ls
    → AllocateHolds ls (allocate_slot t).0 (allocate_slot t).1
unfolding AllocateHolds
allocate_slot-Holds t ls h = served h.free h.chain h.distinct h.mem
  where
    served :
        (free : List ℕ)
        → Chain t.slots t.free_head free
        → Distinct free
        → ((i : ℕ) → contains i free ≡ true → (i < t.capacity) × ((t.slots i).free ≡ true))
        → AllocateHolds ls (allocate_slot t).0 (allocate_slot t).1
    served [] c d m = subst (λ r. AllocateHolds ls r.0 r.1) (sym (allocate_slot-empty t c)) h
    served (x ∷ xs) c d m =
        subst (λ r. AllocateHolds ls r.0 r.1) (sym (allocate_slot-head t x c.0))
          (allocate_at-Holds t ls x xs h (c, d, m))

pub slot-allocate_ok :
    (t : SlotTier) (ls : List TierLocation) (l : TierLocation)
    → SlotHolds t ls
    → (allocate_slot t).0 ≡ ok l
    → SlotHolds (allocate_slot t).1 (l ∷ ls)
unfolding AllocateHolds
slot-allocate_ok t ls l h e =
    let w = allocate_slot-Holds t ls h in
    let w' : AllocateHolds ls (ok l) (allocate_slot t).1 = rw e at w in w'

pub slot-allocate_err :
    (t : SlotTier) (ls : List TierLocation) (e : Error)
    → SlotHolds t ls
    → (allocate_slot t).0 ≡ err e
    → SlotHolds (allocate_slot t).1 ls
unfolding AllocateHolds
slot-allocate_err t ls e h q =
    let w = allocate_slot-Holds t ls h in
    let w' : AllocateHolds ls (err e) (allocate_slot t).1 = rw q at w in w'

pub slot-release_ok :
    (t : SlotTier) (l : TierLocation) (ls : List TierLocation)
    → SlotHolds t (l ∷ ls)
    → ((release_slot l t).0 ≡ ok tt) × SlotHolds (release_slot l t).1 ls
unfolding release_slot
slot-release_ok t l ls h =
    let live = h.live.0 in
    let good : (leb t.capacity l.slot || not ((t.slots l.slot).generation == l.generation))
        ≡ false =
      ground arith in
    let used : (t.slots l.slot).free ≡ false = ground arith in
    let out : contains l.slot h.free ≡ false = elim (Bool-cases (contains l.slot h.free)) [
      | inl inside ↦ absurd (ground (arith, h.mem l.slot inside))
      | inr outside ↦ outside
    ] in
    let s : Slot = record (t.slots l.slot) { free = true; next_free = t.free_head } in
    let fewer : wrap (t.allocated + size_max) ≡ t.allocated - 1 =
      wrap_pred t.allocated (omega (arith, h.counted)) (
        omega (
          arith,
          h.counted,
          h.fits,
          Distinct-length t.capacity (slots_of (l ∷ ls)) h.apart (live-below t (l ∷ ls) h.live),
          slots_of-length ls,
        )) in
    let u : SlotTier = record t {
      slots = update t.slots l.slot s;
      free_head = some l.slot;
      allocated = wrap (t.allocated + size_max);
    } in
    rw (good, used, release_slot)
      (
        refl,
        record {
          free = l.slot ∷ h.free;
          chain = (
            refl,
            subst (λ o. Chain (update t.slots l.slot s) o h.free) (ground arith)
                (Chain-update t.slots t.free_head h.free l.slot s out h.chain),
          );
          distinct = (out, h.distinct);
          mem = λ i m. elim (Bool-cases (i == l.slot)) [
            | inl e ↦ (ground arith, ground arith)
            | inr e ↦ let old = h.mem i (ground arith) in (old.0, ground (arith, old.1))
          ];
          live = live-keep t u ls l.slot refl (λ j n. rw n refl) h.apart.0 h.live.1;
          apart = h.apart.1;
          counted = omega (arith, fewer, h.counted);
          fits = h.fits;
        },
      )
