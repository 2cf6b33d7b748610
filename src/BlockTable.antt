-- ===== src/BlockTable.antt =====
-- src/v2/block_table.cpp: the blocks of one sequence, each entry with a reference of its own. The
-- pool that the table points to is part of its state; `bound` is false once the table is moved
-- from. Handles of other holders are values: they see the pool through their own calls.
pub mod Ownership
use kvflux.Base.{
  ℕ, zero, suc, ◌+◌, ◌-◌, ◌≡◌, refl, Bool, true, false, not, ◌&&◌, ◌||◌, Option, none, some, List,
  [], ◌∷◌, ◌++◌, arith, ltb, leb, ◌==◌, if◌then◌else◌, length, last?, get_elem?, Result, ok, err,
  Error, invalid_argument, out_of_range, logic_error,
}
use kvflux.BlockManager.{
  BlockManager, BlockHandle, M, allocate, retain, release, ref_count, is_published,
}
use kvflux.BlockManager.Tables.{handle_eq}
use kvflux.PhysicalBlockPool.{id}

pub record BlockTable : Type 0 where
  pub pool : BlockManager
  pub bound : Bool
  pub blocks : List BlockHandle

abbrev pub TableM : Type 0 → Type 0
TableM A = BlockTable → Result A × BlockTable

abbrev pub drop_last {ℓ} : {A : Type ℓ} → List A → List A
drop_last [] = []
drop_last (x ∷ []) = []
drop_last (x ∷ y ∷ ys) = x ∷ drop_last (y ∷ ys)

abbrev pub with_pool : BlockManager → BlockTable → BlockTable
with_pool m t = record t { pool = m }

-- A handle that came with a reference is put at the end.
abbrev pub push : BlockHandle → BlockManager → BlockTable → BlockTable
push h m t = record t { pool = m; blocks = t.blocks ++ h ∷ [] }

unfoldable pub append_new : TableM ℕ
append_new t = if not t.bound then (err logic_error, t) else elim (allocate t.pool).0 [
  | err e ↦ (err e, with_pool (allocate t.pool).1 t)
  | ok h ↦ (ok h.id, push h (allocate t.pool).1 t)
]

unfoldable pub append_existing : BlockHandle → TableM (Unit {0})
append_existing h t = if not t.bound then (err logic_error, t) else elim (retain h t.pool).0 [
  | err e ↦ (err e, with_pool (retain h t.pool).1 t)
  | ok _ ↦ (ok tt, push h (retain h t.pool).1 t)
]

-- `append_shared`; the source's entries are given, and whether it has the same pool.
unfoldable pub append_shared : Bool → List BlockHandle → ℕ → TableM (Unit {0})
unfolding append_existing
append_shared same_pool source logical t =
    if not t.bound || not same_pool
    then (err invalid_argument, t)
    else elim (get_elem? source logical) [
      | none ↦ (err out_of_range, t)
      | some h ↦ append_existing h t
    ]

unfoldable pub physical_id : ℕ → BlockTable → Result ℕ
physical_id logical t = elim (get_elem? t.blocks logical) [
  | none ↦ err out_of_range
  | some h ↦ (id h t.pool).0
]

-- `handle`: the entry, once `id` accepts it.
unfoldable pub handle : ℕ → BlockTable → Result BlockHandle
handle logical t = elim (get_elem? t.blocks logical) [
  | none ↦ err out_of_range
  | some h ↦ elim (id h t.pool).0 [ err e ↦ err e | ok _ ↦ ok h ]
]

-- `ref_count(logical)`.
unfoldable pub block_refs : ℕ → BlockTable → Result ℕ
block_refs logical t = elim (get_elem? t.blocks logical) [
  | none ↦ err out_of_range
  | some h ↦ (ref_count h t.pool).0
]

unfoldable pub pop_back : TableM (Unit {0})
pop_back t = elim (last? t.blocks) [
  | none ↦ (err out_of_range, t)
  | some h ↦ elim (release h t.pool).0 [
    | err e ↦ (err e, with_pool (release h t.pool).1 t)
    | ok _ ↦ (ok tt, record t { pool = (release h t.pool).1; blocks = drop_last t.blocks })
  ]
]

-- The test of `replace_last_owned` on the new page: another entry, one reference, unpublished.
abbrev pub is_private : BlockHandle → BlockHandle → BlockManager → Result Bool
is_private new old m = elim (ref_count new m).0 [
  | err e ↦ err e
  | ok n ↦ elim (is_published new m).0 [
    | err e ↦ err e
    | ok published ↦ ok (not (handle_eq new old || not (n == 1) || published))
  ]
]

unfoldable pub replace_last_owned : BlockHandle → TableM (Unit {0})
replace_last_owned new t = elim (last? t.blocks) [
  | none ↦ (err out_of_range, t)
  | some old ↦ elim (id new t.pool).0 [
    | err e ↦ (err e, t)
    | ok _ ↦ elim (is_private new old t.pool) [
      | err e ↦ (err e, t)
      | ok false ↦ (err invalid_argument, t)
      | ok true ↦ elim (release old t.pool).0 [
        | err e ↦ (err e, with_pool (release old t.pool).1 t)
        | ok _ ↦ (
          ok tt,
          record t { pool = (release old t.pool).1; blocks = drop_last t.blocks ++ new ∷ [] },
        )
      ]
    ]
  ]
]

-- `clear`; the calls of `free` cannot throw for a table that owns its entries.
abbrev pub free_each : List BlockHandle → BlockManager → BlockManager
free_each [] m = m
free_each (h ∷ hs) m = free_each hs (release h m).1

unfoldable pub clear : BlockTable → BlockTable
clear t = record t { pool = free_each t.blocks t.pool; blocks = [] }
