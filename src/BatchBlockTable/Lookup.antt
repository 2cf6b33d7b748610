-- ===== src/BatchBlockTable/Lookup.antt =====
-- The whole table, and looking a block up in it.
use kvflux.Base.{
  ℕ, zero, suc, ◌+◌, ◌*◌, ◌≤◌, ◌<◌, ◌≡◌, refl, sym, ap, subst, ◌∙◌, inl, inr, Option, none, some,
  List, [], ◌∷◌, arith, length, get_elem?, size_max, wrap, wrap_id, ok, cell_end,
}
use kvflux.BlockManager.{BlockManager, BlockHandle}
use kvflux.SequenceState.Growth.{IsSequence}
use kvflux.SlotMapping.{Request}
use kvflux.BatchBlockTable.{num_allocated_blocks, fill_row, fill_rows}
use kvflux.BatchBlockTable.Rows.{Filled, fill_row-Filled}

-- A request that fits in a row of the table.
pub record InRow (width : ℕ) (q : Option Request) : Type 0 where
  pub request : Request
  pub given : q ≡ some request
  pub others : BlockManager
  pub valid : IsSequence others request.state
  pub narrow : num_allocated_blocks request.state ≤ width

abbrev pub AllInRow : ℕ → List (Option Request) → Type 0
AllInRow width [] = Unit {0}
AllInRow width (q ∷ qs) = InRow width q × AllInRow width qs

-- The rows from `r` on have the pages of the requests.
pub record RowsFilled (width : ℕ) (qs : List (Option Request)) (r : ℕ) (cells out : List ℕ)
    : Type 0 where
  pub size : length out ≡ length cells
  pub row :
      (i base j : ℕ) (q : Request) (h : BlockHandle)
      → get_elem? qs i ≡ some (some q)
      → base ≡ (r + i) * width
      → get_elem? q.state.table.blocks j ≡ some h
      → get_elem? out (base + j) ≡ some h.id
  pub padding :
      (i base j : ℕ) (q : Request)
      → get_elem? qs i ≡ some (some q)
      → base ≡ (r + i) * width
      → num_allocated_blocks q.state ≤ j
      → j < width
      → get_elem? out (base + j) ≡ get_elem? cells (base + j)
  pub before : (k : ℕ) → k < r * width → get_elem? out k ≡ get_elem? cells k

next_row : (r w : ℕ) → suc r * w ≡ r * w + w
next_row r w = omega arith

pub get_elem?-lt :
    {A : Type 0} (xs : List A) (j : ℕ) (x : A) → get_elem? xs j ≡ some x → j < length xs
get_elem?-lt [] j x e = absurd (let w = e in cc)
get_elem?-lt (y ∷ xs) zero x e = omega arith
get_elem?-lt (y ∷ xs) (suc j) x e = omega (arith, get_elem?-lt xs j x e)

-- The first row is filled, and then the others.
module _ (width : ℕ) (q : Request) (qs : List (Option Request)) (r : ℕ) (cells out1 out : List ℕ)
    (narrow : num_allocated_blocks q.state ≤ width)
    (one : Filled q.state (r * width) 0 (num_allocated_blocks q.state) cells out1)
    (rest : RowsFilled width qs (suc r) out1 out) where
  row :
      (i base j : ℕ) (q' : Request) (h : BlockHandle)
      → get_elem? (some q ∷ qs) i ≡ some (some q')
      → base ≡ (r + i) * width
      → get_elem? q'.state.table.blocks j ≡ some h
      → get_elem? out (base + j) ≡ some h.id
  row zero base j q' h e b entry =
      let is_q : q ≡ q' = let w = e in cc in
      let entry' : get_elem? q.state.table.blocks j ≡ some h =
        subst (λ (x : Request). get_elem? x.state.table.blocks j ≡ some h) (sym is_q) entry in
      let inside : j < num_allocated_blocks q.state =
        get_elem?-lt q.state.table.blocks j h entry' in
      let b' : base ≡ r * width = omega (arith, b) in
      let first = one.inside j h (omega arith) (omega (arith, inside)) entry' in
      let kept = rest.before (r * width + j) (omega (arith, next_row r width, inside, narrow)) in
      subst (λ c. get_elem? out (c + j) ≡ some h.id) (sym b') (kept ∙ first)
  row (suc i) base j q' h e b entry = rest.row i base j q' h e (omega (arith, b)) entry

  padding :
      (i base j : ℕ) (q' : Request)
      → get_elem? (some q ∷ qs) i ≡ some (some q')
      → base ≡ (r + i) * width
      → num_allocated_blocks q'.state ≤ j
      → j < width
      → get_elem? out (base + j) ≡ get_elem? cells (base + j)
  padding zero base j q' e b far inside =
      let is_q : q ≡ q' = let w = e in cc in
      let far' : num_allocated_blocks q.state ≤ j =
        subst (λ (x : Request). num_allocated_blocks x.state ≤ j) (sym is_q) far in
      rest.before (base + j) (omega (arith, b, next_row r width))
      ∙ one.outside (base + j) (inr (omega (arith, b, far')))
  padding (suc i) base j q' e b far inside =
      rest.padding i base j q' e (omega (arith, b)) far inside
      ∙ one.outside (base + j) (inr (omega (arith, b, narrow, mul_reach)))
    where
      mul_reach : r * width + width ≤ (r + suc i) * width
      mul_reach = cell_end r (r + suc i) width (omega arith)

pub fill_rows-RowsFilled :
    (width : ℕ) (qs : List (Option Request)) (r : ℕ) (cells : List ℕ)
    → AllInRow width qs
    → (r + length qs) * width ≤ length cells
    → length cells ≤ size_max
    → (out : List ℕ) × (fill_rows width qs r cells ≡ ok out) × RowsFilled width qs r cells out
unfolding fill_rows
fill_rows-RowsFilled width [] r cells a p z = (
  cells,
  refl,
  record {
    size = refl;
    row = λ i base j q h e _ _. absurd (let w = e in cc);
    padding = λ i base j q e _ _ _. absurd (let w = e in cc);
    before = λ k b. refl;
  },
)
fill_rows-RowsFilled width (none ∷ qs) r cells a p z = absurd (let w = a.0.given in cc)
fill_rows-RowsFilled width (some q ∷ qs) r cells a p z =
    let g : InRow width (some q) = a.0 in
    let base : ℕ = r * width in
    let n : ℕ = num_allocated_blocks q.state in
    let is_q : g.request ≡ q = let w = g.given in cc in
    let valid : IsSequence g.others q.state =
      subst (λ (x : Request). IsSequence g.others x.state) is_q g.valid in
    let narrow : n ≤ width =
      subst (λ (x : Request). num_allocated_blocks x.state ≤ width) is_q g.narrow in
    let reach : base + width ≤ length cells =
      omega (arith, cell_end r (r + suc (length qs)) width (omega arith), p) in
    let (out1, done1, one) =
      fill_row-Filled g.others q.state base n 0 cells valid (omega arith)
        (omega (arith, reach, narrow)) z in
    let more : (suc r + length qs) * width ≤ length out1 = omega (arith, p, one.size) in
    let (out, done, rest) =
      fill_rows-RowsFilled width qs (suc r) out1 a.1 more (omega (arith, one.size)) in
    let place : wrap base ≡ base = wrap_id base (omega (arith, reach)) in
    let done1' : fill_row q.state (wrap base) n 0 cells ≡ ok out1 =
      ap (λ b. fill_row q.state b n 0 cells) place ∙ done1 in
    (
      out,
      rw (done1', fill_rows) done,
      record {
        size = rest.size ∙ one.size;
        row = row width q qs r cells out1 out narrow one rest;
        padding = padding width q qs r cells out1 out narrow one rest;
        before = λ k b.
            rest.before k (omega (arith, next_row r width, b))
            ∙ one.outside k (inl (omega (arith, b)));
      },
    )
