-- ===== src/Tier/Interface.antt =====
-- What the users of a tier rely on: the operations of `Tier`, and laws about the locations that
-- are handed out and not given back.
use kvflux.Base.{ℕ, ◌≡◌, List, [], ◌∷◌, ◌++◌, Result, ok, err, Error, length, Distinct}
use kvflux.Tier.{StorageTier, TierLocation}

abbrev pub slots_of : List TierLocation → List ℕ
slots_of [] = []
slots_of (l ∷ ls) = l.slot ∷ slots_of ls

pub record TierOps : Type 1 where
  pub Object : Type 0
  pub kind : Object → StorageTier
  pub capacity : Object → ℕ
  pub available : Object → ℕ
  pub allocated_chunks : Object → ℕ
  pub used_bytes : Object → ℕ
  pub available_bytes : Object → ℕ
  pub allocate : Object → Result TierLocation × Object
  pub release : TierLocation → Object → Result (Unit {0}) × Object
  -- The object, with the locations that its user holds.
  pub Holds : Object → List TierLocation → Type 0
  pub to_front :
      (t : Object) (xs : List TierLocation) (l : TierLocation) (ys : List TierLocation)
      → Holds t (xs ++ l ∷ ys)
      → Holds t (l ∷ xs ++ ys)
  pub to_middle :
      (t : Object) (xs : List TierLocation) (l : TierLocation) (ys : List TierLocation)
      → Holds t (l ∷ xs ++ ys)
      → Holds t (xs ++ l ∷ ys)
  pub counted : (t : Object) (ls : List TierLocation) → Holds t ls → allocated_chunks t ≡ length ls
  pub apart : (t : Object) (ls : List TierLocation) → Holds t ls → Distinct (slots_of ls)
  pub allocate_ok :
      (t : Object) (ls : List TierLocation) (l : TierLocation)
      → Holds t ls
      → (allocate t).0 ≡ ok l
      → Holds (allocate t).1 (l ∷ ls)
  pub allocate_err :
      (t : Object) (ls : List TierLocation) (e : Error)
      → Holds t ls
      → (allocate t).0 ≡ err e
      → Holds (allocate t).1 ls
  pub release_ok :
      (t : Object) (l : TierLocation) (ls : List TierLocation)
      → Holds t (l ∷ ls)
      → ((release l t).0 ≡ ok tt) × Holds (release l t).1 ls
