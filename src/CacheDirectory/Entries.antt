-- ===== src/CacheDirectory/Entries.antt =====
-- The entries of the directory: one record for each key, and the locations in a tier.
use kvflux.Base.{
  ◌≡◌, refl, sym, ap, subst, ◌∙◌, inl, inr, true, Option, none, some, List, [], ◌∷◌, ◌++◌, arith,
  length, Bool-cases, Option-cases, list_eq_sound, list_eq_refl,
}
use kvflux.Layout.{DType, float16, bfloat16, float32}
use kvflux.Tier.{StorageTier, TierLocation}
use kvflux.Tier.Interface.{TierOps}
use kvflux.CacheDirectory.{
  CacheKey, Replica, ChunkRecord, Entries, replica_of, find, set_record, erase_record, key_eq,
  dtype_code, count_replicas,
}

abbrev pub locate : Option Replica → List TierLocation → List TierLocation
locate none ls = ls
locate (some p) ls = p.location ∷ ls

abbrev pub locations : StorageTier → Entries → List TierLocation
locations t [] = []
locations t ((k, r) ∷ es) = locate (replica_of t r) (locations t es)

-- Each key stands once.
abbrev pub Apart : Entries → Type 0
Apart [] = Unit {0}
Apart ((k, r) ∷ es) = (find k es ≡ none) × Apart es

pub length-locations :
    (t : StorageTier) (es : Entries) → length (locations t es) ≡ count_replicas t es
length-locations t [] = refl
length-locations t ((k, r) ∷ es) = elim (Option-cases (replica_of t r)) [
  | inl e ↦ rw e (omega (arith, length-locations t es))
  | inr (p, e) ↦ rw e (omega (arith, length-locations t es))
]

dtype_code_injective : (a b : DType) → dtype_code a ≡ dtype_code b → a ≡ b
dtype_code_injective float16 float16 e = refl
dtype_code_injective float16 bfloat16 e = absurd (omega arith)
dtype_code_injective float16 float32 e = absurd (omega arith)
dtype_code_injective bfloat16 float16 e = absurd (omega arith)
dtype_code_injective bfloat16 bfloat16 e = refl
dtype_code_injective bfloat16 float32 e = absurd (omega arith)
dtype_code_injective float32 float16 e = absurd (omega arith)
dtype_code_injective float32 bfloat16 e = absurd (omega arith)
dtype_code_injective float32 float32 e = refl

pub key_eq_sound : (a b : CacheKey) → key_eq a b ≡ true → a ≡ b
key_eq_sound a b h = ground (
  arith,
  list_eq_sound a.model_id b.model_id,
  list_eq_sound a.prefix b.prefix,
  dtype_code_injective a.dtype b.dtype,
)

pub key_eq_refl : (a : CacheKey) → key_eq a a ≡ true
key_eq_refl a = ground (arith, list_eq_refl a.model_id, list_eq_refl a.prefix)

-- The entry of a key, with those before and behind it.
pub record Split (key : CacheKey) (r : ChunkRecord) (es : Entries) : Type 0 where
  pub before : Entries
  pub behind : Entries
  pub name : CacheKey
  pub whole : es ≡ before ++ (name, r) ∷ behind
  pub set : (r' : ChunkRecord) → set_record key r' es ≡ before ++ (name, r') ∷ behind
  pub erase : erase_record key es ≡ before ++ behind

pub find-Split :
    (key : CacheKey) (r : ChunkRecord) (es : Entries) → find key es ≡ some r → Split key r es
find-Split key r [] e = cc
find-Split key r ((k, r') ∷ es) e = elim (Bool-cases (key_eq k key)) [
  | inl here ↦ record {
    before = [];
    behind = es;
    name = k;
    whole = let same : r' ≡ r = ground arith in rw same refl;
    set = λ x. rw here refl;
    erase = rw here refl;
  }
  | inr there ↦
      let s = find-Split key r es (ground arith) in
      record {
        before = (k, r') ∷ s.before;
        behind = s.behind;
        name = s.name;
        whole = ap (λ (l : Entries). (k, r') ∷ l) s.whole;
        set = λ x. rw there (ap (λ (l : Entries). (k, r') ∷ l) (s.set x));
        erase = rw there (ap (λ (l : Entries). (k, r') ∷ l) s.erase);
      }
]

pub locations-append :
    (t : StorageTier) (xs ys : Entries) → locations t (xs ++ ys) ≡ locations t xs ++ locations t ys
locations-append t [] ys = refl
locations-append t ((k, r) ∷ xs) ys = elim (Option-cases (replica_of t r)) [
  | inl e ↦ rw e (locations-append t xs ys)
  | inr (p, e) ↦ rw e (ap (λ (l : List TierLocation). p.location ∷ l) (locations-append t xs ys))
]

-- The map laws that the invariant needs.
find-set_none :
    (k key : CacheKey) (r : ChunkRecord) (es : Entries)
    → find k es ≡ none
    → find k (set_record key r es) ≡ none
find-set_none k key r [] e = refl
find-set_none k key r ((k', r') ∷ es) e = ground (arith, find-set_none k key r es)

pub set-Apart :
    (key : CacheKey) (r : ChunkRecord) (es : Entries) → Apart es → Apart (set_record key r es)
set-Apart key r [] a = a
set-Apart key r ((k, r') ∷ es) a = elim (Bool-cases (key_eq k key)) [
  | inl here ↦ rw here a
  | inr there ↦ rw there (find-set_none k key r es a.0, set-Apart key r es a.1)
]

find-erase_none :
    (k key : CacheKey) (es : Entries) → find k es ≡ none → find k (erase_record key es) ≡ none
find-erase_none k key [] e = refl
find-erase_none k key ((k', r') ∷ es) e = ground (arith, find-erase_none k key es)

pub erase-Apart : (key : CacheKey) (es : Entries) → Apart es → Apart (erase_record key es)
erase-Apart key [] a = a
erase-Apart key ((k, r') ∷ es) a = elim (Bool-cases (key_eq k key)) [
  | inl here ↦ rw here a.1
  | inr there ↦ rw there (find-erase_none k key es a.0, erase-Apart key es a.1)
]

-- The locations of the other entries.
abbrev pub others :
    {key : CacheKey} {r : ChunkRecord} {es : Entries}
    → StorageTier
    → Split key r es
    → List TierLocation
others t s = locations t s.before ++ locations t s.behind

module _ (T : TierOps) (t : StorageTier) (o : T.Object) (key : CacheKey) (r : ChunkRecord)
    (es : Entries) (s : Split key r es) where
  around :
      (r' : ChunkRecord)
      → locations t (s.before ++ (s.name, r') ∷ s.behind)
        ≡ locations t s.before ++ locate (replica_of t r') (locations t s.behind)
  around r' = locations-append t s.before ((s.name, r') ∷ s.behind)

  -- The replica of the entry is taken out to the front, and put back.
  pub hold_out : T.Holds o (locations t es) → T.Holds o (locate (replica_of t r) (others t s))
  hold_out h =
      let h' : T.Holds o (locations t s.before ++ locate (replica_of t r) (locations t s.behind)) =
        subst (T.Holds o) (ap (locations t) s.whole ∙ around r) h in
      elim (Option-cases (replica_of t r)) [
        | inl e ↦ rw e (rw e at h')
        | inr (p, e) ↦
            rw e
              (T.to_front o (locations t s.before) p.location (locations t s.behind) (rw e at h'))
      ]

  pub hold_in :
      (r' : ChunkRecord)
      → T.Holds o (locate (replica_of t r') (others t s))
      → T.Holds o (locations t (set_record key r' es))
  hold_in r' h =
      let back = sym (ap (locations t) (s.set r') ∙ around r') in
      subst (T.Holds o) back (elim (Option-cases (replica_of t r')) [
        | inl e ↦ rw e (rw e at h)
        | inr (p, e) ↦
            rw e
              (T.to_middle o (locations t s.before) p.location (locations t s.behind) (rw e at h))
      ])
