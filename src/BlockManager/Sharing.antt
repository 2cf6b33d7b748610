-- ===== src/BlockManager/Sharing.antt =====
-- `share` checks the whole table first, and is all or nothing.
use kvflux.Base.{
  ℕ, ◌+◌, ◌<◌, ◌≡◌, ◌⊎◌, inl, inr, refl, subst, true, false, List, [], ◌∷◌, ◌++◌, arith, ◌==◌,
  size_max, length, Bool-cases, Result-cases, ok, err, Result, Error, invalid_argument,
  overflow_error,
}
use mathlib.Core.List.{append-nil, append_assoc}
use kvflux.BlockManager.{BlockManager, BlockHandle, BlockTable, retain, ref_count, is_current}
use kvflux.BlockManager.Tables.{
  roll_back, blocks_for, has_handle, validate_from, validate, retain_each, share,
}
use kvflux.BlockManager.Effects.{refs, Gains, retain-Gains, retain-err}
use kvflux.BlockManager.Ownership.{Owns, count_id, release_each-Owns, Gains-Owns}

-- The entries are held, and none of them stands among those before it.
abbrev pub AllValid : BlockManager → List BlockHandle → List BlockHandle → Type 0
AllValid m seen [] = Unit {0}
AllValid m seen (h ∷ hs) =
    (is_current m h ≡ true)
    × (0 < refs m h.id)
    × (has_handle h seen ≡ false)
    × AllValid m (h ∷ seen) hs

-- A table of this manager: as many blocks as its tokens need, all of them held, none twice.
pub record IsTable (m : BlockManager) (table : BlockTable) : Type 0 where
  pub sized : blocks_for table.token_count m.block_size ≡ length table.blocks
  pub entries : AllValid m [] table.blocks

count_id-append :
    (i : ℕ) (hs ks : List BlockHandle) → count_id i (hs ++ ks) ≡ count_id i hs + count_id i ks
count_id-append i [] ks = omega arith
count_id-append i (h ∷ hs) ks = omega (arith, count_id-append i hs ks)

validate_from-cases :
    (m : BlockManager) (seen hs : List BlockHandle)
    → ((validate_from seen hs m ≡ ok tt) × AllValid m seen hs)
      ⊎ ((validate_from seen hs m ≡ err invalid_argument) × ¬ AllValid m seen hs)
unfolding validate_from ref_count
validate_from-cases m seen [] = inl (refl, tt)
validate_from-cases m seen (h ∷ hs) = elim (Bool-cases (is_current m h)) [
  | inr stale ↦ inr (rw (stale, validate_from, ref_count) refl, λ v. let w = v.0 in cc)
  | inl current ↦ elim (Bool-cases (refs m h.id == 0)) [
    | inl unheld ↦
        inr (rw (current, unheld, validate_from, ref_count) refl, λ v. let w = v.1 in ground arith)
    | inr held ↦ elim (Bool-cases (has_handle h seen)) [
      | inl twice ↦
          inr (rw (current, held, twice, validate_from, ref_count) refl, λ v. let w = v.2 in cc)
      | inr once ↦ elim (validate_from-cases m (h ∷ seen) hs) [
        | inl (e, v) ↦
            inl (
              rw (current, held, once, validate_from, ref_count) e,
              (current, ground arith, once, v),
            )
        | inr (e, v) ↦ inr (rw (current, held, once, validate_from, ref_count) e, λ w. v w.3)
      ]
    ]
  ]
]

-- `validate` accepts the tables of the manager and no others.
validate-cases :
    (table : BlockTable) (m : BlockManager)
    → ((validate table m ≡ ok tt) × IsTable m table)
      ⊎ ((validate table m ≡ err invalid_argument) × ¬ IsTable m table)
unfolding validate
validate-cases table m =
    elim (Bool-cases (blocks_for table.token_count m.block_size == length table.blocks)) [
      | inr other ↦ inr (rw (other, validate) refl, λ v. let w = v.sized in ground arith)
      | inl fits ↦ elim (validate_from-cases m [] table.blocks) [
        | inl (e, v) ↦ inl (rw (fits, validate) e, record { sized = ground arith; entries = v })
        | inr (e, v) ↦ inr (rw (fits, validate) e, λ w. v w.entries)
      ]
    ]

module _ (m : BlockManager) where
  -- The references of the entries do not fit into the count of one of the blocks.
  abbrev pub Full : List BlockHandle → Error → Type 0
  Full hs e =
      (e ≡ overflow_error) × (i : ℕ) × (0 < count_id i hs) × (size_max < refs m i + count_id i hs)

  -- What `share` returns and leaves: the table itself, a table of the manager, which owns one more
  -- reference for each entry; or the counts of before and the reason.
  abbrev pub Shares : BlockTable → Result BlockTable → BlockManager → Type 0
  Shares table (ok t) n = (t ≡ table) × IsTable m table × Owns m table.blocks n
  Shares table (err e) n =
      Owns m [] n
      × (((e ≡ invalid_argument) × ¬ IsTable m table) ⊎ (IsTable m table × Full table.blocks e))

  abbrev SettlesRetained : List BlockHandle → Result (Unit {0}) → BlockManager → Type 0
  SettlesRetained hs (ok u) n = Owns m hs n
  SettlesRetained hs (err e) n = Owns m [] n × Full hs e

  -- The entries that are left are held.
  abbrev AllHeld : BlockManager → List BlockHandle → Type 0
  AllHeld n [] = Unit {0}
  AllHeld n (h ∷ hs) = (is_current n h ≡ true) × (0 < refs n h.id) × AllHeld n hs

  AllValid-AllHeld : (seen hs : List BlockHandle) → AllValid m seen hs → AllHeld m hs
  AllValid-AllHeld seen [] v = tt
  AllValid-AllHeld seen (h ∷ hs) v = (v.0, v.1, AllValid-AllHeld (h ∷ seen) hs v.3)

  Gains-AllHeld :
      (h : BlockHandle) (n n' : BlockManager) (hs : List BlockHandle)
      → Gains h n n'
      → AllHeld n hs
      → AllHeld n' hs
  Gains-AllHeld h n n' [] g a = tt
  Gains-AllHeld h n n' (k ∷ hs) g a =
      (g.keeps k a.0 a.1, omega (arith, a.1, g.counts k.id), Gains-AllHeld h n n' hs g a.2)

  retain-full :
      (h : BlockHandle) (n : BlockManager) (x : Error)
      → is_current n h ≡ true
      → (retain h n).0 ≡ err x
      → (x ≡ overflow_error) × (refs n h.id ≡ size_max)
  unfolding retain
  retain-full h n x c e = elim (Bool-cases (refs n h.id == size_max)) [
    | inl full ↦ (let w = rw (c, full, retain) at e in cc, ground arith)
    | inr room ↦ absurd (let w = rw (c, room, retain) at e in cc)
  ]

  roll_back-Retained :
      (e : Error) (hs all : List BlockHandle) (n : BlockManager)
      → Owns m hs n
      → Full all e
      → let r = roll_back {A = Unit {0}} e hs n in SettlesRetained all r.0 r.1
  roll_back-Retained e hs all n o f =
      let (done, rest) = release_each-Owns m hs n o in rw done (rest, f)

  retain_each-Settles :
      (done hs : List BlockHandle) (n : BlockManager)
      → Owns m done n
      → AllHeld n hs
      → let r = retain_each done hs n in SettlesRetained (done ++ hs) r.0 r.1
  unfolding retain_each
  retain_each-Settles done [] n o a = rw (append-nil done) o
  retain_each-Settles done (h ∷ hs) n o a = elim (Result-cases (retain h n).0) [
    | inr (x, q) ↦
        let (why, full) = retain-full h n x a.0 q in
        let split = count_id-append h.id done (h ∷ hs) in
        let f : Full (done ++ h ∷ hs) x =
          (why, h.id, ground (arith, split), ground (arith, split, full, o.counts h.id)) in
        rw (q, retain_each)
          (roll_back-Retained x done (done ++ h ∷ hs) (retain h n).1 (rw (retain-err h n x q) o) f)
    | inl (u, q) ↦
        let g = retain-Gains h n u q in
        rw (q, retain_each)
          (subst
            (λ all.
              SettlesRetained all (retain_each (done ++ h ∷ []) hs (retain h n).1).0
                (retain_each (done ++ h ∷ []) hs (retain h n).1).1)
            (append_assoc done (h ∷ []) hs)
            (retain_each-Settles (done ++ h ∷ []) hs (retain h n).1
              (Gains-Owns m done h n (retain h n).1 o g)
              (Gains-AllHeld h n (retain h n).1 hs g a.2)))
  ]

-- `share` returns the table that it is given, and only if it is a table of the manager: as many
-- blocks as its tokens need, each held, none twice. The table then owns one reference for each entry
-- on top of all references of before. `share` throws only invalid_argument for anything that is not a
-- table of the manager, or overflow_error when the count of a block is full: then every reference
-- count is as before.
pub share-Settles :
    (table : BlockTable) (m : BlockManager) → Shares m table (share table m).0 (share table m).1
unfolding share
share-Settles table m =
    let o : Owns m [] m = record { counts = λ i. omega arith; good = tt } in
    elim (validate-cases table m) [
      | inr (q, bad) ↦ rw (q, share) (o, inl (refl, bad))
      | inl (q, v) ↦
          let loop = retain_each [] table.blocks m in
          let after : SettlesRetained m table.blocks loop.0 loop.1 =
            retain_each-Settles m [] table.blocks m o
              (AllValid-AllHeld m [] table.blocks v.entries) in
          elim (Result-cases loop.0) [
            | inr (x, p) ↦ let w = rw p at after in rw (q, p, share) (w.0, inr (v, w.1))
            | inl (b, p) ↦ rw (q, p, share) (refl, v, rw p at after)
          ]
    ]
