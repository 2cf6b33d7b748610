-- ===== src/BlockManager/References.antt =====
-- `retain` and `release`: the counts, and the way of a block between use, idleness and freedom.
use kvflux.Base.{
  ℕ, ◌-◌, ◌<◌, ◌≡◌, inl, inr, subst, Bool, true, false, List, [], ◌∷◌, ◌++◌, arith, ltb, ◌==◌,
  if◌then◌else◌, contains, remove, Bool-cases, size_max, contains-remove, contains-append,
  remove_absent, ok,
}
use kvflux.IndexLru.Order.{Holds, erase-Holds, touch-Holds}
use kvflux.IndexLru
use kvflux.BlockManager.{
  BlockManager, BlockHandle, add_ref, drop_ref, retire, retain, release, is_current,
}
use kvflux.BlockManager.Invariant.{Inv, Queues, Indexed, Chain-update}

module _ (m : BlockManager) (id : ℕ) (free idle : List ℕ) (v : Queues m free idle)
    (used : ltb id m.capacity ≡ true) (held : (m.slots id).free ≡ false) where
  not_free : contains id free ≡ false
  not_free = ground (arith, v.free_mem id)

  add_ref-idle : Holds (add_ref id m).idle_lru (remove id idle)
  add_ref-idle = elim (Bool-cases ((m.slots id).refs == 0)) [
    | inl e ↦ rw e (erase-Holds id m.idle_lru idle v.idle_order)
    | inr e ↦
        rw (e, remove_absent id idle (ground (arith, v.idle_mem id, used, held, e))) v.idle_order
  ]

  add_ref-Queues : Queues (add_ref id m) free (remove id idle)
  add_ref-Queues = record {
    chain = Chain-update _ _ free id _ not_free v.chain;
    free_distinct = v.free_distinct;
    idle_order = add_ref-idle;
    free_mem = λ i. ground (arith, v.free_mem i, used, held);
    idle_mem = λ i.
        ground (arith, v.idle_mem i, used, held, v.idle_order.distinct, contains-remove i id idle);
    free_blank = λ i. ground (arith, used, held, v.free_blank i);
    idle_cached = λ i. ground (arith, used, held, v.idle_cached i);
  }

  add_ref-Indexed : Indexed m → Indexed (add_ref id m)
  add_ref-Indexed x = record {
    positive = x.positive;
    inside = λ i. ground (arith, held, x.inside i);
    bucket_mem = λ h i. ground (arith, held, x.bucket_mem h i);
    bucket_distinct = x.bucket_distinct;
    bucket_filled = x.bucket_filled;
    hashed = λ i. ground (arith, held, x.hashed i);
    whole = λ i. ground (arith, held, x.whole i);
    unique = λ i j. ground (arith, held, x.unique i j);
  }

-- A block whose last reference goes is in use until then.
module _ (m : BlockManager) (id : ℕ) (free idle : List ℕ) (v : Queues m free idle)
    (used : ltb id m.capacity ≡ true) (held : (m.slots id).free ≡ false)
    (some_refs : 0 < (m.slots id).refs) where
  not_idle : contains id idle ≡ false
  not_idle = ground (arith, v.idle_mem id)

  not_chained : contains id free ≡ false
  not_chained = ground (arith, v.free_mem id)

  -- One of several references goes: the order of the other blocks stays.
  keep-Queues : 1 < (m.slots id).refs → Queues (drop_ref id m) free idle
  keep-Queues many =
      let e : ((m.slots id).refs - 1 == 0) ≡ false = ground arith in
      rw e (record {
        chain = Chain-update _ _ free id _ not_chained v.chain;
        free_distinct = v.free_distinct;
        idle_order = v.idle_order;
        free_mem = λ i. ground (arith, v.free_mem i, used, held);
        idle_mem = λ i. ground (arith, v.idle_mem i, used, held, some_refs, many);
        free_blank = λ i. ground (arith, used, held, v.free_blank i);
        idle_cached = λ i. ground (arith, used, held, many, v.idle_cached i);
      })

  -- The last reference to a published block goes: it becomes the newest idle block.
  idle-Queues : (m.slots id).cached ≡ true → Queues (retire id m) free (idle ++ id ∷ [])
  idle-Queues published = rw published (record {
    chain = Chain-update _ _ free id _ not_chained v.chain;
    free_distinct = v.free_distinct;
    idle_order =
        subst (λ xs. Holds (IndexLru.touch id m.idle_lru) (xs ++ id ∷ []))
          (remove_absent id idle not_idle) (touch-Holds id m.idle_lru idle v.idle_order);
    free_mem = λ i. ground (arith, v.free_mem i, used, held);
    idle_mem = λ i. ground (arith, v.idle_mem i, used, held, contains-append i idle (id ∷ []));
    free_blank = λ i. ground (arith, used, held, v.free_blank i);
    idle_cached = λ i. ground (arith, used, held, published, v.idle_cached i);
  })

  -- The last reference to an unpublished block goes: it becomes the head of the free list.
  free-Queues : (m.slots id).cached ≡ false → Queues (retire id m) (id ∷ free) idle
  free-Queues private_ = rw private_ (record {
    chain = ground (
      arith,
      Chain-update m.slots m.free_head free id
          (record (m.slots id) { refs = 0; free = true; next_free = m.free_head }) not_chained
          v.chain,
    );
    free_distinct = (not_chained, v.free_distinct);
    idle_order = v.idle_order;
    free_mem = λ i. ground (arith, v.free_mem i, used, held);
    idle_mem = λ i. ground (arith, v.idle_mem i, used, held, some_refs);
    free_blank = λ i. ground (arith, used, held, private_, v.free_blank i);
    idle_cached = λ i. ground (arith, used, held, v.idle_cached i);
  })

  drop_ref-Indexed : Indexed m → Indexed (drop_ref id m)
  drop_ref-Indexed x = record {
    positive = ground (arith, x.positive);
    inside = λ i. ground (arith, held, x.inside i);
    bucket_mem = λ h i. ground (arith, held, x.bucket_mem h i);
    bucket_distinct = λ h. ground (arith, x.bucket_distinct h);
    bucket_filled = λ h. ground (arith, x.bucket_filled h);
    hashed = λ i. ground (arith, held, x.hashed i);
    whole = λ i. ground (arith, held, x.whole i);
    unique = λ i j. ground (arith, held, x.unique i j);
  }

-- The test of `checked`, taken apart.
pub is_current-parts :
    (m : BlockManager) (h : BlockHandle)
    → is_current m h ≡ true
    → (ltb h.id m.capacity ≡ true)
      × ((m.slots h.id).free ≡ false)
      × ((m.slots h.id).generation ≡ h.generation)
unfolding is_current
is_current-parts m h c = ground arith

pub retain-Inv : (h : BlockHandle) (m : BlockManager) → Inv m → Inv (retain h m).1
unfolding retain
retain-Inv h m (free, idle, v, x) = elim (Bool-cases (is_current m h)) [
  | inr stale ↦ rw (stale, retain) (free, idle, v, x)
  | inl current ↦ elim (Bool-cases ((m.slots h.id).refs == size_max)) [
    | inl full ↦ rw (current, full, retain) (free, idle, v, x)
    | inr room ↦
        let (used, held, _) = is_current-parts m h current in
        rw (current, room, retain)
          (
            free,
            remove h.id idle,
            add_ref-Queues m h.id free idle v used held,
            add_ref-Indexed m h.id free idle v used held x,
          )
  ]
]

-- The lists after the last reference to a block is gone.
abbrev pub freed_after : Bool → ℕ → List ℕ → List ℕ
freed_after published id free = if published then free else id ∷ free

abbrev pub idle_after : Bool → ℕ → List ℕ → List ℕ
idle_after published id idle = if published then idle ++ id ∷ [] else idle

-- Who releases the last reference to a block is served: a published block becomes the newest idle
-- block, an unpublished one the head of the free list, and no other block moves.
pub release_last :
    (h : BlockHandle) (m : BlockManager) (free idle : List ℕ)
    → Queues m free idle
    → is_current m h ≡ true
    → (m.slots h.id).refs ≡ 1
    → let r = release h m in
      let published = (m.slots h.id).cached in
      (r.0 ≡ ok tt) × Queues r.1 (freed_after published h.id free) (idle_after published h.id idle)
unfolding release
release_last h m free idle v current one = elim (Bool-cases (m.slots h.id).cached) [
  | inl published ↦
      let (used, held, _) = is_current-parts m h current in
      ground (arith, idle-Queues m h.id free idle v used held (omega arith) published)
  | inr private_ ↦
      let (used, held, _) = is_current-parts m h current in
      ground (arith, free-Queues m h.id free idle v used held (omega arith) private_)
]

pub release-Inv : (h : BlockHandle) (m : BlockManager) → Inv m → Inv (release h m).1
unfolding release
release-Inv h m (free, idle, v, x) = elim (Bool-cases (is_current m h)) [
  | inr stale ↦ rw (stale, release) (free, idle, v, x)
  | inl current ↦ elim (Bool-cases ((m.slots h.id).refs == 0)) [
    | inl gone ↦ rw (current, gone, release) (free, idle, v, x)
    | inr some_refs ↦ elim (Bool-cases ((m.slots h.id).refs - 1 == 0)) [
      | inr more ↦
          let (used, held, _) = is_current-parts m h current in
          rw (current, some_refs, release)
            (
              free,
              idle,
              keep-Queues m h.id free idle v used held (ground arith) (ground arith),
              drop_ref-Indexed m h.id free idle v used held (ground arith) x,
            )
      | inl last ↦
          let (used, held, _) = is_current-parts m h current in
          let published = (m.slots h.id).cached in
          (
            freed_after published h.id free,
            idle_after published h.id idle,
            (release_last h m free idle v current (ground arith)).1,
            rw (current, some_refs, release)
                (drop_ref-Indexed m h.id free idle v used held (ground arith) x),
          )
    ]
  ]
]
