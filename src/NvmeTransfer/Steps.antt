-- ===== src/NvmeTransfer/Steps.antt =====
-- Rules for the steps of a transfer: what holds after each part holds after the whole.
use kvflux.Base.{
  ℕ, ◌≡◌, refl, ◌∙◌, inl, inr, Option, none, some, Result, ok, err, Error, Result-cases,
  Option-cases, on_result, ◌>>=◌,
}
use kvflux.Tier.{StorageTier, TierLocation}
use kvflux.Tier.Interface.{TierOps}
use kvflux.CacheDirectory.{ChunkState, CacheKey, Replica, ready, error, replica_of}
use kvflux.CacheDirectory.Operations.{Directory, at, set_state, remove}
use kvflux.CacheDirectory.Effects.{
  Replicas, put, Sees, Sees-same, put_same, put_twice, put_known, set_state-Sees, remove-Sees,
}
use kvflux.NvmeTransfer.{Transfer, TransferM, or_undo, undo}

abbrev pub replica : TierLocation → ChunkState → Option Replica
replica l state = some (record { location = l; state = state })

module _ (T : TierOps) {A B : Type 0} (P : Result A → Transfer T → Type 0)
    (Q : Result B → Transfer T → Type 0) where
  on_result-rule :
      (r : Result A) (s : Transfer T) (k : A → TransferM T B)
      → P r s
      → ((a : A) (s : Transfer T) → P (ok a) s → Q (k a s).0 (k a s).1)
      → ((e : Error) (s : Transfer T) → P (err e) s → Q (err e) s)
      → Q (on_result r s k).0 (on_result r s k).1
  on_result-rule (ok a) s k p good bad = good a s p
  on_result-rule (err e) s k p good bad = bad e s p

  -- A step, and what follows it if it returns.
  pub bind_rule :
      (m : TransferM T A) (k : A → TransferM T B) (s : Transfer T)
      → P (m s).0 (m s).1
      → ((a : A) (s : Transfer T) → P (ok a) s → Q (k a s).0 (k a s).1)
      → ((e : Error) (s : Transfer T) → P (err e) s → Q (err e) s)
      → Q ((m >>= k) s).0 ((m >>= k) s).1
  bind_rule m k s = on_result-rule (m s).0 (m s).1 k

module _ (T : TierOps) {A B : Type 0} (Q : Result B → Transfer T → Type 0) where
  -- A step that returns.
  pub bind_step :
      (m : TransferM T A) (k : A → TransferM T B) (s : Transfer T) (a : A)
      → (m s).0 ≡ ok a
      → Q (k a (m s).1).0 (k a (m s).1).1
      → Q ((m >>= k) s).0 ((m >>= k) s).1
  bind_step m k s a e q = rw e q

module _ (T : TierOps) (Q : Result (Unit {0}) → Transfer T → Type 0) where
  pub or_undo-cases :
      (body handler : TransferM T (Unit {0})) (s : Transfer T)
      → ((body s).0 ≡ ok tt → Q (ok tt) (body s).1)
      → ((e : Error)
          → (body s).0 ≡ err e
          → ((handler (body s).1).0 ≡ ok tt) × Q (err e) (handler (body s).1).1)
      → Q (or_undo T body handler s).0 (or_undo T body handler s).1
  or_undo-cases body handler s good bad = elim (Result-cases (body s).0) [
    | inl (a, q) ↦ rw (q, or_undo) (good q)
    | inr (e, q) ↦ let (done, left) = bad e q in rw (q, done, or_undo) left
  ]

module _ (T : TierOps) where
  -- The handlers restore the replica of the source.
  pub undo-Sees :
      (now : ℕ) (key : CacheKey) (made source : StorageTier) (f : Replicas) (p : Replica)
      (s : Transfer T)
      → Sees T key f s.directory
      → put made none f source ≡ some p
      → ((undo T now key made source s).0 ≡ ok tt)
        × Sees T key
            (put source (some (record p { state = ready })) (put made none f))
            (undo T now key made source s).1.directory
        × ((undo T now key made source s).1.store ≡ s.store)
  unfolding undo at
  undo-Sees now key made source f p s v e =
      let there = v.same made in
      elim (Option-cases (f made)) [
        | inl absent ↦
            let none_made : replica_of made v.chunk ≡ none = there ∙ absent in
            let w =
              Sees-same T key f (put made none f) s.directory (λ t. put_known made t none f absent)
                v in
            let (done, seen) =
              set_state-Sees T key source ready (put made none f) p s.directory w e in
            rw (v.found, at, undo, none_made, done) (refl, seen, refl)
        | inr (q, present) ↦
            let some_made : replica_of made v.chunk ≡ some q = there ∙ present in
            let failed : Option Replica = some (record q { state = error }) in
            let (done1, seen1) = set_state-Sees T key made error f q s.directory v present in
            let d1 : Directory T = (set_state T key made error s.directory).1 in
            let (done2, seen2) =
              remove-Sees T now key made (put made failed f) (record q { state = error }) d1 seen1
                (put_same made failed f) refl in
            let d2 : Directory T = (remove T now key made d1).1 in
            let w =
              Sees-same T key (put made none (put made failed f)) (put made none f) d2
                (λ t. put_twice made t none failed f) seen2 in
            let (done3, seen3) = set_state-Sees T key source ready (put made none f) p d2 w e in
            rw (v.found, at, undo, some_made, done1, done2, done3) (refl, seen3, refl)
      ]
