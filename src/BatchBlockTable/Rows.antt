-- ===== src/BatchBlockTable/Rows.antt =====
-- The loops that fill the table: each row gets the pages of its request, and no other cell changes.
use kvflux.Base.{
  ℕ, zero, suc, ◌+◌, ◌≤◌, ◌<◌, ◌≡◌, ◌≢◌, refl, sym, ap, subst, ◌∙◌, ◌⊎◌, inl, inr, some, List, [],
  ◌∷◌, arith, length, get_elem?, drop, size_max, wrap, wrap_id, ok, Bool-cases, ◌==◌,
}
use kvflux.BlockManager.{BlockManager, BlockHandle}
use kvflux.BlockTable.{physical_id}
use kvflux.SequenceState.{SequenceState}
use kvflux.SequenceState.Growth.{IsSequence}
use kvflux.SequenceState.Locations.{physical_id-owned, get_elem?-some, page_ids}
use kvflux.BatchBlockTable.{
  num_allocated_blocks, set_at, fill_row, read_from, build_read_block_table,
}

drop_all : (n : ℕ) (hs : List BlockHandle) → length hs ≤ n → drop n hs ≡ []
drop_all zero [] p = refl
drop_all zero (h ∷ hs) p = absurd (omega arith)
drop_all (suc n) [] p = refl
drop_all (suc n) (h ∷ hs) p = drop_all n hs (omega arith)

drop_cons :
    (n : ℕ) (h : BlockHandle) (hs : List BlockHandle)
    → get_elem? hs n ≡ some h
    → drop n hs ≡ h ∷ drop (suc n) hs
drop_cons n h [] e = absurd (let w = e in cc)
drop_cons zero h (x ∷ hs) e = let same : x ≡ h = cc in ap (λ y. y ∷ hs) same
drop_cons (suc n) h (x ∷ hs) e = drop_cons n h hs e

set_at_same : (i v : ℕ) (cs : List ℕ) → i < length cs → get_elem? (set_at i v cs) i ≡ some v
set_at_same i v [] p = absurd (omega arith)
set_at_same zero v (c ∷ cs) p = refl
set_at_same (suc i) v (c ∷ cs) p = set_at_same i v cs (omega arith)

set_at_other : (i v k : ℕ) (cs : List ℕ) → k ≢ i → get_elem? (set_at i v cs) k ≡ get_elem? cs k
set_at_other i v k [] n = refl
set_at_other zero v zero (c ∷ cs) n = absurd (n refl)
set_at_other zero v (suc k) (c ∷ cs) n = refl
set_at_other (suc i) v zero (c ∷ cs) n = refl
set_at_other (suc i) v (suc k) (c ∷ cs) n = set_at_other i v k cs (λ e. n (ap suc e))

length-set_at : (i v : ℕ) (cs : List ℕ) → length (set_at i v cs) ≡ length cs
length-set_at i v [] = refl
length-set_at zero v (c ∷ cs) = refl
length-set_at (suc i) v (c ∷ cs) = ap suc (length-set_at i v cs)

-- The entries from `lo` on, `n` of them, stand in the row at `base`.
pub record Filled (s : SequenceState) (base lo n : ℕ) (cells out : List ℕ) : Type 0 where
  pub size : length out ≡ length cells
  pub inside :
      (j : ℕ) (h : BlockHandle)
      → lo ≤ j
      → j < lo + n
      → get_elem? s.table.blocks j ≡ some h
      → get_elem? out (base + j) ≡ some h.id
  pub outside :
      (k : ℕ) → (k < base + lo) ⊎ (base + lo + n ≤ k) → get_elem? out k ≡ get_elem? cells k

fill_row_step :
    (s : SequenceState) (base n lo b : ℕ) (cells : List ℕ)
    → physical_id lo s.table ≡ ok b
    → wrap (base + lo) ≡ base + lo
    → fill_row s base (suc n) lo cells ≡ fill_row s base n (suc lo) (set_at (base + lo) b cells)
unfolding fill_row
fill_row_step s base n lo b cells found place =
    rw (found, fill_row) (ap (λ i. fill_row s base n (suc lo) (set_at i b cells)) place)

pub fill_row-Filled :
    (m : BlockManager) (s : SequenceState) (base n lo : ℕ) (cells : List ℕ)
    → IsSequence m s
    → lo + n ≤ num_allocated_blocks s
    → base + lo + n ≤ length cells
    → length cells ≤ size_max
    → (out : List ℕ) × (fill_row s base n lo cells ≡ ok out) × Filled s base lo n cells out
unfolding fill_row
fill_row-Filled m s base zero lo cells v p q z = (
  cells,
  refl,
  record { size = refl; inside = λ j h a b e. absurd (omega arith); outside = λ k o. refl },
)
fill_row-Filled m s base (suc n) lo cells v p q z =
    let (h, entry) = get_elem?-some s.table.blocks lo (omega arith) in
    let found = physical_id-owned m s.table lo h v.owned entry in
    let place : wrap (base + lo) ≡ base + lo = wrap_id (base + lo) (omega arith) in
    let cells1 : List ℕ = set_at (base + lo) h.id cells in
    let size1 : length cells1 ≡ length cells = length-set_at (base + lo) h.id cells in
    let (out, done, rest) =
      fill_row-Filled m s base n (suc lo) cells1 v (omega arith) (omega (arith, size1))
        (omega (arith, size1)) in
    (
      out,
      fill_row_step s base n lo h.id cells found place ∙ done,
      record {
        size = rest.size ∙ size1;
        inside = λ j h' a b e. elim (Bool-cases (j == lo)) [
          | inl here ↦
              let is_lo : j ≡ lo = ground arith in
              let same : h' ≡ h =
                let w = sym e ∙ (ap (get_elem? s.table.blocks) is_lo ∙ entry) in cc in
              let at_lo =
                rest.outside (base + lo) (inl (omega arith))
                ∙ set_at_same (base + lo) h.id cells (omega arith) in
              subst (λ j. get_elem? out (base + j) ≡ some h'.id) (sym is_lo)
                (at_lo ∙ ap (λ (h : BlockHandle). some h.id) (sym same))
          | inr there ↦ rest.inside j h' (ground arith) (omega arith) e
        ];
        outside =
            λ k o. rest.outside k (further k o) ∙ set_at_other (base + lo) h.id k cells (apart k o);
      },
    )
  where
    further :
        (k : ℕ)
        → (k < base + lo) ⊎ (base + lo + suc n ≤ k)
        → (k < base + suc lo) ⊎ (base + suc lo + n ≤ k)
    further k (inl a) = inl (omega arith)
    further k (inr a) = inr (omega arith)

    apart : (k : ℕ) → (k < base + lo) ⊎ (base + lo + suc n ≤ k) → k ≢ base + lo
    apart k (inl a) e = absurd (omega arith)
    apart k (inr a) e = absurd (omega arith)

read_from_lem :
    (m : BlockManager) (s : SequenceState) (n lo : ℕ)
    → IsSequence m s
    → lo + n ≡ num_allocated_blocks s
    → read_from s n lo ≡ ok (page_ids (drop lo s.table.blocks))
unfolding read_from
read_from_lem m s zero lo v p = rw (drop_all lo s.table.blocks (omega arith)) refl
read_from_lem m s (suc n) lo v p =
    let (h, entry) = get_elem?-some s.table.blocks lo (omega arith) in
    let found = physical_id-owned m s.table lo h v.owned entry in
    rw
      (
        found,
        read_from_lem m s n (suc lo) v (omega arith),
        drop_cons lo h s.table.blocks entry,
        read_from,
      )
      refl

-- The table for reading a well-formed request is the list of the pages of its blocks, in order.
pub build_read_block_table_lem :
    (m : BlockManager) (s : SequenceState)
    → IsSequence m s
    → build_read_block_table s ≡ ok (page_ids s.table.blocks)
unfolding build_read_block_table
build_read_block_table_lem m s v = read_from_lem m s (num_allocated_blocks s) 0 v (omega arith)
