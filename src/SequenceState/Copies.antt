-- ===== src/SequenceState/Copies.antt =====
-- `append_token` and `append_token_with_copy`: a shared tail page is copied before it is written.
use native.Mathlib.Nat.{mod-lt, mod-add-div'}
use kvflux.Base.{
  ℕ, zero, suc, ◌+◌, ◌-◌, ◌/◌, ◌%◌, ◌≤◌, ◌<◌, ◌≡◌, refl, sym, ap, subst, ◌∙◌, inl, inr, false,
  Option, some, List, [], ◌∷◌, ◌++◌, arith, ◌==◌, size_max, length, length-append, last?, get_elem?,
  Bool-cases, Option-cases, Result-cases, Result, ok, err,
}
use kvflux.BlockManager.{BlockManager, BlockHandle, allocate, release}
use kvflux.BlockManager.Invariant.{Inv}
use kvflux.BlockManager.Tables.{blocks_for}
use kvflux.BlockManager.Sizes.{blocks_for_mono, blocks_for-least}
use kvflux.BlockManager.Allocate.{allocate-Inv}
use kvflux.BlockManager.References.{release-Inv}
use kvflux.BlockManager.Effects.{refs, one_if, allocate-Gains, allocate-err}
use kvflux.BlockManager.Ownership.{
  Owns, count_id, count_id-snoc, AllCurrent-snoc, Gains-Owns, release_first-Owns,
}
use kvflux.PhysicalBlockPool.{id}
use kvflux.BlockTable.{BlockTable, drop_last, handle, replace_last_owned, is_private, with_pool}
use kvflux.BlockTable.Ownership.{Holds, snoc-eq, AllCurrent-parts, release_last-Owns}
use kvflux.SequenceState.{
  SequenceState, TokenLocation, Copier, append_tokens, append_token, token_location,
  append_token_with_copy, take_over, copy_tail, tail_refs,
}
use kvflux.SequenceState.Growth.{
  IsSequence, Unchanged, Unchanged-refl, Reserved, append_tokens-Settles,
}
use kvflux.SequenceState.Locations.{token_location_lem}

-- One token more, and where it goes.
pub record Placed (m : BlockManager) (s : SequenceState) (l : TokenLocation) (s' : SequenceState)
    : Type 0 where
  pub tokens : s'.num_tokens ≡ s.num_tokens + 1
  pub valid : IsSequence m s'
  pub place : token_location s.num_tokens s' ≡ ok l

abbrev pub PlaceSettles :
    BlockManager → SequenceState → Result TokenLocation → SequenceState → Type 0
PlaceSettles m s (ok l) s' = Placed m s l s'
PlaceSettles m s (err e) s' = Unchanged m s s'

pub append_token-Settles :
    (m : BlockManager) (s : SequenceState)
    → IsSequence m s
    → PlaceSettles m s (append_token s).0 (append_token s).1
unfolding append_token
append_token-Settles m s v =
    let s' : SequenceState = (append_tokens 1 s).1 in
    let after = append_tokens-Settles m 1 s v in
    elim (Result-cases (append_tokens 1 s).0) [
      | inr (e, q) ↦ let w : Unchanged m s s' = rw q at after in rw (q, append_token) w
      | inl (u, q) ↦
          let w : Reserved m 1 s s' = rw q at after in
          let (h, _, found, _) =
            token_location_lem m s' s.num_tokens w.valid (omega (arith, w.tokens)) in
          rw (q, found, append_token) (record { tokens = w.tokens; valid = w.valid; place = found })
    ]

-- A page of the caller's own and the table's pages; what taking it over leaves.
abbrev Took : BlockManager → BlockHandle → BlockTable → Result (Unit {0}) → BlockTable → Type 0
Took m new t (ok u) t' =
    (old : BlockHandle) × (last? t.blocks ≡ some old)
    × (t'.blocks ≡ drop_last t.blocks ++ new ∷ [])
    × Holds m t'
    × Inv t'.pool
Took m new t (err e) t' = t' ≡ t

replace_last_owned-Took :
    (m : BlockManager) (new : BlockHandle) (t : BlockTable)
    → Inv t.pool
    → Owns m (t.blocks ++ new ∷ []) t.pool
    → Took m new t (replace_last_owned new t).0 (replace_last_owned new t).1
unfolding replace_last_owned
replace_last_owned-Took m new t v o = elim (Option-cases (last? t.blocks)) [
  | inl nothing ↦ rw (nothing, replace_last_owned) refl
  | inr (old, e) ↦ elim (Result-cases (id new t.pool).0) [
    | inr (x, q) ↦ rw (e, q, replace_last_owned) refl
    | inl (i, q) ↦ elim (Result-cases (is_private new old t.pool)) [
      | inr (x, p) ↦ rw (e, q, p, replace_last_owned) refl
      | inl (b, p) ↦ elim (Bool-cases b) [
        | inr no_ ↦ rw (e, q, p, no_, replace_last_owned) refl
        | inl yes_ ↦
            let hs : List BlockHandle = drop_last t.blocks in
            let split : t.blocks ≡ hs ++ old ∷ [] = snoc-eq t.blocks old e in
            let all : Owns m ((hs ++ old ∷ []) ++ new ∷ []) t.pool =
              subst (λ (l : List BlockHandle). Owns m (l ++ new ∷ []) t.pool) split o in
            let (firsts, new_good) = AllCurrent-parts t.pool (hs ++ old ∷ []) new all.good in
            let (rest_good, old_good) = AllCurrent-parts t.pool hs old firsts in
            let swapped : Owns m (old ∷ (hs ++ new ∷ [])) t.pool = record {
              counts = λ i. omega (
                arith,
                all.counts i,
                count_id-snoc i (hs ++ old ∷ []) new,
                count_id-snoc i hs old,
                count_id-snoc i hs new,
              );
              good = (old_good, AllCurrent-snoc t.pool hs new rest_good new_good);
            } in
            let (done, rest) = release_first-Owns m old (hs ++ new ∷ []) t.pool swapped in
            rw (e, q, p, yes_, done, replace_last_owned)
              (old, e, refl, rest, release-Inv old t.pool v)
      ]
    ]
  ]
]

-- The page that was not taken over is given back, and all is as before the copy.
give_back-Unchanged :
    (m : BlockManager) (new : BlockHandle) (s : SequenceState) (taken : BlockManager)
    → IsSequence m s
    → Inv taken
    → Owns m (s.table.blocks ++ new ∷ []) taken
    → Unchanged m s (record s { table = with_pool (release new taken).1 s.table })
give_back-Unchanged m new s taken v inv o =
    let rest = (release_last-Owns m s.table.blocks new taken o).1 in
    record {
      tokens = refl;
      blocks = refl;
      counts = λ i. rest.counts i ∙ sym (v.owned.counts i);
      valid = record {
        pool = release-Inv new taken inv;
        owned = rest;
        positive = v.positive;
        sized = v.sized;
      };
    }

-- A token more in a partly filled page takes no page more.
blocks_for-partial :
    (n b : ℕ) → 0 < b → (n % b == 0) ≡ false → blocks_for (n + 1) b ≡ blocks_for n b
blocks_for-partial n b p e =
    let least : blocks_for (n + 1) b ≤ blocks_for n b =
      blocks_for-least (n + 1) b (blocks_for n b) p
        (rw e (let d = mod-add-div' n b in let l = mod-lt n p in omega (arith, d, l))) in
    omega (arith, least, blocks_for_mono n 1 b p)

get_elem?-snoc :
    (hs : List BlockHandle) (h : BlockHandle) (i : ℕ)
    → i ≡ length hs
    → get_elem? (hs ++ h ∷ []) i ≡ some h
get_elem?-snoc [] h zero e = refl
get_elem?-snoc [] h (suc i) e = absurd (omega arith)
get_elem?-snoc (k ∷ hs) h zero e = absurd (omega arith)
get_elem?-snoc (k ∷ hs) h (suc i) e = get_elem?-snoc hs h i (omega arith)

-- The token goes to a new page that nobody else holds, in place of the table's last entry.
pub record Copied (m : BlockManager) (s : SequenceState) (l : TokenLocation) (s' : SequenceState)
    : Type 0 where
  pub placed : Placed m s l s'
  pub private : refs s'.table.pool l.physical_block ≡ 1
  pub pages :
      (new : BlockHandle) × (new.id ≡ l.physical_block)
      × (s'.table.blocks ≡ drop_last s.table.blocks ++ new ∷ [])

abbrev pub CopySettles :
    BlockManager → SequenceState → Result TokenLocation → SequenceState → Type 0
CopySettles m s (ok l) s' = Copied m s l s'
CopySettles m s (err e) s' = Unchanged m s s'

page-Copied :
    (m : BlockManager) (new old : BlockHandle) (s s' : SequenceState)
    → IsSequence m s
    → (s.num_tokens % s.block_size == 0) ≡ false
    → refs s.table.pool new.id ≡ 0
    → last? s.table.blocks ≡ some old
    → s'.table.blocks ≡ drop_last s.table.blocks ++ new ∷ []
    → Holds m s'.table
    → Inv s'.table.pool
    → s'.num_tokens ≡ s.num_tokens + 1
    → s'.block_size ≡ s.block_size
    → Copied m s
        (record { physical_block = new.id; offset_in_block = s.num_tokens % s.block_size })
        s'
page-Copied m new old s s' v partial fresh_page e pages owned inv tokens same_size =
    let hs : List BlockHandle = drop_last s.table.blocks in
    let split : s.table.blocks ≡ hs ++ old ∷ [] = snoc-eq s.table.blocks old e in
    let n_split : length s.table.blocks ≡ length hs + 1 =
      ap length split ∙ length-append hs (old ∷ []) in
    let n_new : length s'.table.blocks ≡ length hs + 1 =
      ap length pages ∙ length-append hs (new ∷ []) in
    let more : blocks_for s'.num_tokens s'.block_size ≡ blocks_for s.num_tokens s.block_size =
      rw (tokens, same_size) (blocks_for-partial s.num_tokens s.block_size v.positive partial) in
    let positive : 0 < s'.block_size = rw same_size v.positive in
    let valid : IsSequence m s' = record {
      pool = inv;
      owned = owned;
      positive = positive;
      sized = n_new ∙ (sym n_split ∙ (v.sized ∙ sym more));
    } in
    let last_block : blocks_for s.num_tokens s.block_size ≡ s.num_tokens / s.block_size + 1 =
      rw partial refl in
    let at_end : s.num_tokens / s.block_size ≡ length hs =
      omega (arith, last_block, v.sized, n_split) in
    let (h, entry, found, _) = token_location_lem m s' s.num_tokens valid (omega (arith, tokens)) in
    let is_new : h ≡ new =
      let a : get_elem? (hs ++ new ∷ []) (s.num_tokens / s.block_size) ≡ some h =
        rw (pages, same_size) at entry in
      let b = get_elem?-snoc hs new (s.num_tokens / s.block_size) at_end in cc in
    let before = v.owned.counts new.id in
    let counted : count_id new.id s.table.blocks ≡ count_id new.id hs + one_if (new.id == old.id) =
      ap (count_id new.id) split ∙ count_id-snoc new.id hs old in
    let after = owned.counts new.id in
    let recounted : count_id new.id s'.table.blocks ≡ count_id new.id hs + 1 =
      ap (count_id new.id) pages ∙ ground (arith, count_id-snoc new.id hs new) in
    record {
      placed = record {
        tokens = tokens;
        valid = valid;
        place =
            subst
              (λ (k : BlockHandle).
                token_location s.num_tokens s'
                ≡ ok (record {
                  physical_block = k.id;
                  offset_in_block = s.num_tokens % s.block_size;
                }))
              is_new
              (subst
                (λ (b : ℕ).
                  token_location s.num_tokens s'
                  ≡ ok (record { physical_block = h.id; offset_in_block = s.num_tokens % b }))
                same_size found);
      };
      private = omega (arith, after, recounted, before, counted, fresh_page);
      pages = (new, refl, pages);
    }

take_over-Settles :
    (m : BlockManager) (new : BlockHandle) (s : SequenceState) (taken : BlockManager)
    → IsSequence m s
    → (s.num_tokens % s.block_size == 0) ≡ false
    → refs s.table.pool new.id ≡ 0
    → Inv taken
    → Owns m (s.table.blocks ++ new ∷ []) taken
    → let s0 = record s { table = with_pool taken s.table } in
      let r = take_over new (s.num_tokens % s.block_size) s0 in CopySettles m s r.0 r.1
take_over-Settles m new s taken v partial fresh_page inv o =
    let t : BlockTable = with_pool taken s.table in
    let t' : BlockTable = (replace_last_owned new t).1 in
    let after = replace_last_owned-Took m new t inv o in
    elim (Result-cases (replace_last_owned new t).0) [
      | inr (e, q) ↦
          let same : t' ≡ t = rw q at after in
          rw (q, same, take_over) (give_back-Unchanged m new s taken v inv o)
      | inl (u, q) ↦
          let (old, e, pages, owned, valid) = let w : Took m new t (ok u) t' = rw q at after in w in
          rw (q, take_over)
            (page-Copied m new old s (record s { num_tokens = s.num_tokens + 1; table = t' }) v
              partial fresh_page e pages owned valid refl refl)
    ]

copy_tail-Settles :
    (m : BlockManager) (copy : Copier) (s : SequenceState)
    → IsSequence m s
    → (s.num_tokens % s.block_size == 0) ≡ false
    → CopySettles m s (copy_tail copy s).0 (copy_tail copy s).1
copy_tail-Settles m copy s v partial =
    elim (Result-cases (handle (length s.table.blocks - 1) s.table)) [
      | inr (e, q) ↦ rw (q, copy_tail) (Unchanged-refl m s v)
      | inl (old, q) ↦
          let taken : BlockManager = (allocate s.table.pool).1 in
          elim (Result-cases (allocate s.table.pool).0) [
            | inr (e, p) ↦
                let same : taken ≡ s.table.pool = allocate-err s.table.pool e p in
                rw (q, p, same, copy_tail) (Unchanged-refl m s v)
            | inl (new, p) ↦
                let (unused, gains) = allocate-Gains s.table.pool new v.pool p in
                let inv : Inv taken = allocate-Inv s.table.pool v.pool in
                let o : Owns m (s.table.blocks ++ new ∷ []) taken =
                  Gains-Owns m s.table.blocks new s.table.pool taken v.owned gains in
                elim (Result-cases (copy old new)) [
                  | inr (e, c) ↦ rw (q, p, c, copy_tail) (give_back-Unchanged m new s taken v inv o)
                  | inl (u, c) ↦
                      rw (q, p, c, copy_tail)
                        (take_over-Settles m new s taken v partial unused inv o)
                ]
          ]
    ]

CopySettles-PlaceSettles :
    (m : BlockManager) (s : SequenceState) (r : Result TokenLocation) (s' : SequenceState)
    → CopySettles m s r s'
    → PlaceSettles m s r s'
CopySettles-PlaceSettles m s (ok l) s' c = c.placed
CopySettles-PlaceSettles m s (err e) s' c = c

-- `append_token_with_copy` is all or nothing, whatever the copier does: it returns the place of
-- exactly one new token in a request that stays well formed, or the tokens, the table and every
-- reference count are as before.
pub append_token_with_copy-Settles :
    (m : BlockManager) (copier : Option Copier) (s : SequenceState)
    → IsSequence m s
    → PlaceSettles m s (append_token_with_copy copier s).0 (append_token_with_copy copier s).1
unfolding append_token_with_copy
append_token_with_copy-Settles m copier s v = elim (Bool-cases (s.num_tokens == size_max)) [
  | inl full ↦ rw (full, append_token_with_copy) (Unchanged-refl m s v)
  | inr room ↦ elim (Bool-cases (s.num_tokens % s.block_size == 0)) [
    | inl whole ↦ rw (room, whole, append_token_with_copy) (append_token-Settles m s v)
    | inr partial ↦ elim (Result-cases (tail_refs s)) [
      | inr (e, q) ↦ rw (room, partial, q, append_token_with_copy) (Unchanged-refl m s v)
      | inl (n, q) ↦ elim (Bool-cases (n == 1)) [
        | inl alone ↦
            rw (room, partial, q, alone, append_token_with_copy) (append_token-Settles m s v)
        | inr shared ↦ elim (Option-cases copier) [
          | inl nothing ↦
              rw (room, partial, q, shared, nothing, append_token_with_copy) (Unchanged-refl m s v)
          | inr (copy, c) ↦
              rw (room, partial, q, shared, c, append_token_with_copy)
                (CopySettles-PlaceSettles m s (copy_tail copy s).0 (copy_tail copy s).1
                  (copy_tail-Settles m copy s v partial))
        ]
      ]
    ]
  ]
]

-- When the tail page is partly filled and held by others too, the new token goes to a page of which
-- this request has the only reference, in place of the table's last entry, the other entries
-- staying; or all is as before.
pub append_token_with_copy-Copied :
    (m : BlockManager) (copy : Copier) (s : SequenceState) (n : ℕ)
    → IsSequence m s
    → s.num_tokens < size_max
    → (s.num_tokens % s.block_size == 0) ≡ false
    → tail_refs s ≡ ok n
    → 1 < n
    → CopySettles m s
        (append_token_with_copy (some copy) s).0
        (append_token_with_copy (some copy) s).1
unfolding append_token_with_copy
append_token_with_copy-Copied m copy s n v below partial q many =
    let room : (s.num_tokens == size_max) ≡ false = ground arith in
    let shared : (n == 1) ≡ false = ground arith in
    rw (room, partial, q, shared, append_token_with_copy) (copy_tail-Settles m copy s v partial)
