-- ===== src/BatchBlockTable/Batch.antt =====
-- A table that was built gives what the tables of the requests give.
use mathlib.Core.List.{append_assoc, append-nil}
use kvflux.Base.{
  ℕ, zero, suc, ◌+◌, ◌*◌, ◌/◌, ◌≤◌, ◌<◌, ◌≡◌, ◌≢◌, refl, sym, ap, subst, ◌∙◌, inl, inr, true, false,
  Option, none, some, List, [], ◌∷◌, ◌++◌, arith, ltb, leb, length, get_elem?, size_max, wrap,
  wrap_id, Result, ok, err, out_of_range, Bool-cases, ◌==◌, ==_ne, row_lt,
}
use native.Mathlib.Nat.{le-div_iff_mul-le}
use kvflux.BlockManager.{BlockManager, BlockHandle}
use kvflux.BlockManager.Effects.{current-below}
use kvflux.SequenceState.{SequenceState}
use kvflux.SequenceState.Growth.{IsSequence}
use kvflux.SequenceState.Locations.{entry-current, get_elem?-some}
use kvflux.SlotMapping.{Request, shares_pool_with}
use kvflux.BatchBlockTable.{
  BatchBlockTable, num_allocated_blocks, num_sequences, invalid_block, max, measure, repeat,
  fill_rows, assemble, build_batch_block_table, lookup_block, cell,
}
use kvflux.BatchBlockTable.Lookup.{AllInRow, RowsFilled, fill_rows-RowsFilled, get_elem?-lt}

-- A request of the batch: well formed, in the pool of the first request, whose page numbers are
-- below the largest number.
pub record Member (first : Request) (q : Option Request) : Type 0 where
  pub request : Request
  pub given : q ≡ some request
  pub one_pool : shares_pool_with request first ≡ true
  pub others : BlockManager
  pub valid : IsSequence others request.state
  pub sized : request.state.table.pool.capacity ≤ size_max

abbrev pub AllMembers : Request → List (Option Request) → Type 0
AllMembers first [] = Unit {0}
AllMembers first (q ∷ qs) = Member first q × AllMembers first qs

abbrev pub blocks_of : Option Request → ℕ
blocks_of none = 0
blocks_of (some q) = num_allocated_blocks q.state

abbrev pub tokens_of : Option Request → ℕ
tokens_of none = 0
tokens_of (some q) = q.state.num_tokens

-- The largest number of blocks, from `w` on.
abbrev pub widest : ℕ → List (Option Request) → ℕ
widest w [] = w
widest w (q ∷ qs) = widest (max w (blocks_of q)) qs

abbrev all_tokens : List (Option Request) → List ℕ
all_tokens [] = []
all_tokens (q ∷ qs) = tokens_of q ∷ all_tokens qs

widest_ge : (w : ℕ) (qs : List (Option Request)) → w ≤ widest w qs
widest_ge w [] = omega arith
widest_ge w (q ∷ qs) =
    let rest = widest_ge (max w (blocks_of q)) qs in
    let first : w ≤ max w (blocks_of q) = ground arith in omega (arith, rest, first)

AllInRow-widest :
    (first : Request) (w width : ℕ) (qs : List (Option Request))
    → AllMembers first qs
    → widest w qs ≤ width
    → AllInRow width qs
AllInRow-widest first w width [] a p = tt
AllInRow-widest first w width (q ∷ qs) a p =
    let y : Member first q = a.0 in
    let above = widest_ge (max w (blocks_of q)) qs in
    let own : blocks_of q ≤ max w (blocks_of q) = ground arith in
    let same : blocks_of q ≡ num_allocated_blocks y.request.state = ap blocks_of y.given in
    (
      record {
        request = y.request;
        given = y.given;
        others = y.others;
        valid = y.valid;
        narrow = omega (arith, above, own, same, p);
      },
      AllInRow-widest first (max w (blocks_of q)) width qs a.1 p,
    )

measure_ok :
    (first : Request) (qs : List (Option Request)) (lengths : List ℕ) (w : ℕ)
    → AllMembers first qs
    → measure first qs lengths w ≡ ok (lengths ++ all_tokens qs, widest w qs)
unfolding measure
measure_ok first [] lengths w a = ap (λ l. ok (l, w)) (sym (append-nil lengths))
measure_ok first (none ∷ qs) lengths w a = absurd (let u = a.0.given in cc)
measure_ok first (some q ∷ qs) lengths w a =
    let y : Member first (some q) = a.0 in
    let is_q : y.request ≡ q = let u = y.given in cc in
    let shared : shares_pool_with q first ≡ true =
      subst (λ x. shares_pool_with x first ≡ true) is_q y.one_pool in
    let rest =
      measure_ok first qs (lengths ++ q.state.num_tokens ∷ [])
        (max w (num_allocated_blocks q.state)) a.1 in
    rw shared (
      rest
      ∙ ap (λ l. ok (l, widest (max w (num_allocated_blocks q.state)) qs))
          (append_assoc lengths (q.state.num_tokens ∷ []) (all_tokens qs)))

length-repeat : (n v : ℕ) → length (repeat n v) ≡ n
length-repeat zero v = refl
length-repeat (suc n) v = ap suc (length-repeat n v)

repeat_at : (n v k : ℕ) → k < n → get_elem? (repeat n v) k ≡ some v
repeat_at zero v k p = absurd (omega arith)
repeat_at (suc n) v zero p = refl
repeat_at (suc n) v (suc k) p = repeat_at n v k (omega arith)

get_elem?-none : {A : Type 0} (xs : List A) (j : ℕ) → length xs ≤ j → get_elem? xs j ≡ none
get_elem?-none [] j p = refl
get_elem?-none (x ∷ xs) zero p = absurd (omega arith)
get_elem?-none (x ∷ xs) (suc j) p = get_elem?-none xs j (omega arith)

find-Member :
    (first : Request) (qs : List (Option Request)) (i : ℕ) (q : Request)
    → AllMembers first qs
    → get_elem? qs i ≡ some (some q)
    → Member first (some q) × (get_elem? (all_tokens qs) i ≡ some q.state.num_tokens)
find-Member first [] i q a e = absurd (let w = e in cc)
find-Member first (x ∷ qs) zero q a e =
    let same : x ≡ some q = cc in (subst (Member first) same a.0, ap (λ x. some (tokens_of x)) same)
find-Member first (x ∷ qs) (suc i) q a e = find-Member first qs i q a.1 e

widest_at :
    (w i : ℕ) (qs : List (Option Request)) (q : Request)
    → get_elem? qs i ≡ some (some q)
    → num_allocated_blocks q.state ≤ widest w qs
widest_at w i [] q e = absurd (let u = e in cc)
widest_at w zero (x ∷ qs) q e =
    let same : blocks_of x ≡ num_allocated_blocks q.state =
      let u : x ≡ some q = cc in ap blocks_of u in
    let own : blocks_of x ≤ max w (blocks_of x) = ground arith in
    omega (arith, same, own, widest_ge (max w (blocks_of x)) qs)
widest_at w (suc i) (x ∷ qs) q e = widest_at (max w (blocks_of x)) i qs q e

length-all_tokens : (qs : List (Option Request)) → length (all_tokens qs) ≡ length qs
length-all_tokens [] = refl
length-all_tokens (q ∷ qs) = ap suc (length-all_tokens qs)

-- What the table of the request itself gives.
abbrev pub own_block : ℕ → SequenceState → Result ℕ
own_block j s = elim (get_elem? s.table.blocks j) [ none ↦ err out_of_range | some h ↦ ok h.id ]

page_number :
    {first : Request} (q : Request) (y : Member first (some q)) (h : BlockHandle) (j : ℕ)
    → get_elem? q.state.table.blocks j ≡ some h
    → h.id ≢ invalid_block
page_number q y h j entry e =
    let is_q : y.request ≡ q = let w = y.given in cc in
    let entry' : get_elem? y.request.state.table.blocks j ≡ some h =
      subst (λ (x : Request). get_elem? x.state.table.blocks j ≡ some h) (sym is_q) entry in
    let pool = y.request.state.table.pool in
    let (current, _) =
      entry-current pool y.request.state.table.blocks j h y.valid.owned.good entry' in
    omega (arith, current-below pool h current, y.sized)

module _ (first : Request) (qs : List (Option Request)) (a : AllMembers first qs)
    (room : length qs * widest 0 qs ≤ size_max) where
  -- The table that is built.
  assemble_ok :
      (p : 0 < length qs)
      → (cells : List ℕ) × (assemble first qs
          ≡ ok (record {
            max_blocks_per_sequence = widest 0 qs;
            block_table = cells;
            sequence_lengths = all_tokens qs;
          }))
        × RowsFilled (widest 0 qs) qs 0 (repeat (length qs * widest 0 qs) invalid_block) cells
  unfolding assemble
  assemble_ok p =
      let n : ℕ = length qs in
      let width : ℕ = widest 0 qs in
      let fine : ltb (size_max / n) width ≡ false =
        let commuted : width * n ≤ size_max = omega (arith, room) in
        let q : width ≤ size_max / n = (le-div_iff_mul-le p).1 commuted in ground (arith, q) in
      let size : wrap (n * width) ≡ n * width = wrap_id (n * width) room in
      let start : List ℕ = repeat (n * width) invalid_block in
      let length_start = length-repeat (n * width) invalid_block in
      let (cells, done, filled) =
        fill_rows-RowsFilled width qs 0 start (AllInRow-widest first 0 width qs a (omega arith))
          (omega (arith, length_start)) (omega (arith, length_start, room)) in
      let done' : fill_rows width qs 0 (repeat (wrap (n * width)) invalid_block) ≡ ok cells =
        ap (λ k. fill_rows width qs 0 (repeat k invalid_block)) size ∙ done in
      (cells, rw (measure_ok first qs [] 0 a, fine, done', assemble) refl, filled)

  lookup_own :
      (cells : List ℕ) (i j : ℕ) (q : Request)
      → RowsFilled (widest 0 qs) qs 0 (repeat (length qs * widest 0 qs) invalid_block) cells
      → get_elem? qs i ≡ some (some q)
      → lookup_block i j (record {
        max_blocks_per_sequence = widest 0 qs;
        block_table = cells;
        sequence_lengths = all_tokens qs;
      })
        ≡ own_block j q.state
  unfolding lookup_block num_sequences
  lookup_own cells i j q filled e =
      let width : ℕ = widest 0 qs in
      let n : ℕ = num_allocated_blocks q.state in
      let y : Member first (some q) = (find-Member first qs i q a e).0 in
      let below : i < length qs = get_elem?-lt qs i (some q) e in
      let known : leb (length (all_tokens qs)) i ≡ false =
        ground (arith, length-all_tokens qs, below) in
      let narrow : n ≤ width = widest_at 0 i qs q e in
      elim (Bool-cases (leb width j)) [
        | inl beyond ↦
            let absent = get_elem?-none q.state.table.blocks j (ground (arith, narrow)) in
            rw (known, beyond, absent, lookup_block, own_block) refl
        | inr within ↦
            let inside : j < width = ground arith in
            let cell_lt = row_lt i j (length qs) width below inside in
            let place : wrap (i * width + j) ≡ i * width + j =
              wrap_id (i * width + j) (omega (arith, cell_lt, room)) in
            elim (Bool-cases (leb n j)) [
              | inl far ↦
                  let absent = get_elem?-none q.state.table.blocks j (ground arith) in
                  let blank =
                    filled.padding i (i * width) j q e (omega arith) (ground arith) inside
                    ∙ repeat_at (length qs * width) invalid_block (i * width + j) cell_lt in
                  let blank' : cell cells (wrap (i * width + j)) ≡ ok invalid_block =
                    rw (place, blank, cell) refl in
                  rw (known, within, absent, blank', lookup_block, own_block) refl
              | inr near ↦
                  let (h, entry) = get_elem?-some q.state.table.blocks j (ground arith) in
                  let page = filled.row i (i * width) j q h e (omega arith) entry in
                  let page' : cell cells (wrap (i * width + j)) ≡ ok h.id =
                    rw (place, page, cell) refl in
                  let valid_block : (h.id == invalid_block) ≡ false =
                    ==_ne h.id invalid_block (page_number q y h j entry) in
                  rw (known, within, entry, page', valid_block, lookup_block, own_block) refl
            ]
      ]

-- The table of a batch of well-formed requests over one pool is built if its size is in range, and
-- it has the number of tokens of each request, and gives for each block of a request its page, and
-- for any other index in the row of the request an exception.
pub lookup_block-build_batch_block_table :
    (first : Request) (qs : List (Option Request)) (i j : ℕ) (q : Request)
    → AllMembers first (some first ∷ qs)
    → suc (length qs) * widest 0 (some first ∷ qs) ≤ size_max
    → get_elem? (some first ∷ qs) i ≡ some (some q)
    → (t : BatchBlockTable) × (build_batch_block_table (some first ∷ qs) ≡ ok t)
      × (get_elem? t.sequence_lengths i ≡ some q.state.num_tokens)
      × (lookup_block i j t ≡ own_block j q.state)
unfolding build_batch_block_table
lookup_block-build_batch_block_table first qs i j q a room e =
    let rs : List (Option Request) = some first ∷ qs in
    let (cells, done, filled) = assemble_ok first rs a room (omega arith) in
    (
      record {
        max_blocks_per_sequence = widest 0 rs;
        block_table = cells;
        sequence_lengths = all_tokens rs;
      },
      done,
      (find-Member first rs i q a e).1,
      lookup_own first rs a room cells i j q filled e,
    )
