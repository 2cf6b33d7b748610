-- ===== src/GpuMemoryPool/Contents.antt =====
-- What the blocks hold after a write.
use kvflux.Base.{
  ℕ, ◌+◌, ◌*◌, ◌≤◌, ◌<◌, ◌≡◌, ◌≢◌, ◌⊎◌, inl, inr, ltb, Bool-cases, refl, subst, false, true, some,
  List, leb, ==_refl, ==_ne, arith, cell_end, length, length-take, length-take_le, take, size_max,
  wrap, wrap_id, Result, ok, err, invalid_argument, cuda_error,
}
use kvflux.BlockManager.{BlockHandle, Tokens, ref_count, is_published}
use kvflux.GpuMemoryPool.{
  GpuMemoryPool, address_of, address_of_id, store_bytes, load_bytes, Copy, copied, failed,
  no_device, transfer, may_write, write_block, read_block, publish_block,
}
use kvflux.GpuMemoryPool.Memory.{load_bytes-store_bytes, load_bytes_apart}

-- A block that its caller may write: held once, unpublished, in the pool and not in flight. The
-- allocation of the pool does not run over the end of the address space.
pub record Writable (h : BlockHandle) (p : GpuMemoryPool) : Type 0 where
  pub held : (ref_count h p.manager).0 ≡ ok 1
  pub unpublished : (is_published h p.manager).0 ≡ ok false
  pub inside : leb p.manager.capacity h.id ≡ false
  pub at_rest : p.in_flight h.id ≡ false
  pub fits : p.base + p.manager.capacity * p.block_bytes ≤ size_max

-- The blocks stand in the allocation one behind the other, by their ids: the bytes of one of them.
abbrev pub contents : ℕ → GpuMemoryPool → List ℕ
contents i p = load_bytes (p.base + i * p.block_bytes) p.block_bytes p.memory

-- Every other block of the pool holds what it held, and may be read as before.
abbrev pub Spares : ℕ → GpuMemoryPool → GpuMemoryPool → Type 0
Spares i p p' =
    (j : ℕ)
    → j < p.manager.capacity
    → j ≢ i
    → (contents j p' ≡ contents j p) × (p'.initialized j ≡ p.initialized j)

-- What a write with these bytes returns and leaves.
abbrev pub Writes :
    Copy → BlockHandle → List ℕ → GpuMemoryPool → Result (Unit {0}) → GpuMemoryPool → Type 0
Writes copied h bytes p r p' =
    (r ≡ ok tt)
    × (contents h.id p' ≡ bytes)
    × (read_block false true h p'.block_bytes p' ≡ ok bytes)
    × Spares h.id p p'
Writes (failed left) h bytes p r p' =
    (r ≡ err cuda_error)
    × (read_block false true h p'.block_bytes p' ≡ err invalid_argument)
    × ((prefix : Tokens) → publish_block h prefix p' ≡ (err invalid_argument, p'))
    × Spares h.id p p'
Writes no_device h bytes p r p' = (r ≡ err cuda_error) × (p' ≡ p)

-- Two blocks share no byte.
blocks_apart : (i j n : ℕ) → j ≢ i → (j * n + n ≤ i * n) ⊎ (i * n + n ≤ j * n)
blocks_apart i j n d = elim (Bool-cases (ltb j i)) [
  | inl below ↦ inl (cell_end j i n (ground arith))
  | inr above ↦ inr (cell_end i j n (ground (arith, d)))
]

module _ (h : BlockHandle) (p : GpuMemoryPool) (w : Writable h p) where
  abbrev place : ℕ
  place = p.base + h.id * p.block_bytes

  address_of_ok : address_of h p ≡ ok place
  unfolding address_of address_of_id
  address_of_ok =
      let e = cell_end h.id p.manager.capacity p.block_bytes (ground (arith, w.inside)) in
      let exact : wrap place ≡ place = wrap_id place (omega (arith, e, w.fits)) in
      rw (w.held, w.inside, address_of, address_of_id, exact) refl

  may_write_ok : may_write h p ≡ ok true
  may_write_ok = rw (w.held, w.unpublished, may_write) refl

  write_block_eq :
      (copy : Copy) (source : List ℕ)
      → write_block copy h (some source) p.block_bytes p
        ≡ transfer copy h place (take p.block_bytes source) p
  unfolding write_block
  write_block_eq copy source =
      rw (address_of_ok, w.at_rest, ==_refl p.block_bytes, may_write_ok, write_block) refl

  -- Bytes that fit into the block leave the other blocks alone.
  store_bytes-contents :
      (bytes : List ℕ) (j : ℕ)
      → length bytes ≤ p.block_bytes
      → j ≢ h.id
      → contents j (record p { memory = store_bytes place bytes p.memory }) ≡ contents j p
  store_bytes-contents bytes j l d =
      load_bytes_apart (p.base + j * p.block_bytes) p.block_bytes place bytes p.memory
        (elim (blocks_apart h.id j p.block_bytes d) [
          | inl o ↦ inl (omega arith)
          | inr o ↦ inr (omega arith)
        ])

  transfer-Writes :
      (copy : Copy) (bytes : List ℕ)
      → length bytes ≡ p.block_bytes
      → Writes copy h bytes p (transfer copy h place bytes p).0 (transfer copy h place bytes p).1
  unfolding read_block publish_block address_of address_of_id
  transfer-Writes no_device bytes l = (refl, refl)
  transfer-Writes copied bytes l =
      let back : load_bytes place p.block_bytes (store_bytes place bytes p.memory) ≡ bytes =
        subst (λ n. load_bytes place n (store_bytes place bytes p.memory) ≡ bytes) l
          (load_bytes-store_bytes place bytes p.memory) in
      (
        refl,
        back,
        rw (address_of_ok, w.at_rest, ==_refl p.block_bytes, ==_refl h.id, back, read_block) refl,
        λ j b d. (store_bytes-contents bytes j (omega (arith, l)) d, rw (==_ne j h.id d) refl),
      )
  transfer-Writes (failed left) bytes l = (
    refl,
    rw (address_of_ok, w.at_rest, ==_refl p.block_bytes, ==_refl h.id, read_block) refl,
    λ prefix. rw (address_of_ok, w.at_rest, ==_refl h.id, publish_block) refl,
    λ j b d. (
      store_bytes-contents (take (length bytes) left) j
          (omega (arith, l, length-take_le (length bytes) left)) d,
      rw (==_ne j h.id d) refl,
    ),
  )

-- A full write from host memory of at least a block to a block that may be written: it is held once,
-- not published, in the pool and not in flight, and the allocation does not run over the end of the
-- address space. If the copy
-- succeeds, `write_block` returns, the bytes stand in the place of the block in the allocation, and
-- `read_block` gives them. If it fails, `write_block` throws and the block can be neither read nor
-- published. In both cases every other block holds what it held. If the device cannot be selected,
-- `write_block` throws and nothing changes: a block that was written before can still be read.
pub read_block-write_block :
    (copy : Copy) (h : BlockHandle) (source : List ℕ) (p : GpuMemoryPool)
    → Writable h p
    → p.block_bytes ≤ length source
    → let r = write_block copy h (some source) p.block_bytes p in
      Writes copy h (take p.block_bytes source) p r.0 r.1
read_block-write_block copy h source p w l =
    rw (write_block_eq h p w copy source)
      (transfer-Writes h p w copy (take p.block_bytes source) (length-take p.block_bytes source l))
