-- ===== src/Base/Lists.antt =====
-- Boolean tests on numbers, and lists and arrays over the native numbers.
use Prim.Native.Nat.{ℕ, zero, suc, ◌+◌, ◌≤◌, ◌<◌, compare, Ordering}
use mathlib.Core.Bool.{Bool, true, false, ◌&&◌, ◌||◌}
use mathlib.Core.List.{List, [], ◌∷◌, ◌++◌}
use mathlib.Core.Logic.{◌⊎◌, inl, inr, ◌≢◌}
use mathlib.Core.Option.{Option, none, some}
use mathlib.Core.Path.{◌≡◌, refl}
use native.Mathlib.Omega.{arith}

abbrev pub ltb : ℕ → ℕ → Bool
ltb a b = elim (compare a b) [ Ordering.lt ↦ true | _ ↦ false ]

abbrev pub leb : ℕ → ℕ → Bool
leb a b = elim (compare a b) [ Ordering.gt ↦ false | _ ↦ true ]

infix 50 ◌==◌
abbrev pub ◌==◌ : ℕ → ℕ → Bool
a == b = elim (compare a b) [ Ordering.eq ↦ true | _ ↦ false ]

infix 1 if◌then◌else◌
abbrev pub if◌then◌else◌ {ℓ} : {A : Type ℓ} → Bool → A → A → A
if true then x else y = x
if false then x else y = y

pub Bool-cases : (b : Bool) → (b ≡ true) ⊎ (b ≡ false)
Bool-cases true = inl refl
Bool-cases false = inr refl

pub ==_eq : (a b : ℕ) → (a == b) ≡ true → a ≡ b
==_eq a b h = ground arith

pub ==_refl : (a : ℕ) → (a == a) ≡ true
==_refl a = ground arith

pub ==_ne : (a b : ℕ) → a ≢ b → (a == b) ≡ false
==_ne a b h = ground arith

-- The largest value of `std::size_t` and `std::uint64_t`.
abbrev pub size_max : ℕ
size_max = 18446744073709551615

module _ {ℓ} {A : Type ℓ} where
  abbrev pub length : List A → ℕ
  length [] = 0
  length (x ∷ xs) = suc (length xs)

  pub length-append : (xs ys : List A) → length (xs ++ ys) ≡ length xs + length ys
  length-append [] ys = omega arith
  length-append (x ∷ xs) ys = omega (arith, length-append xs ys)

  abbrev pub get_elem? : List A → ℕ → Option A
  get_elem? [] i = none
  get_elem? (x ∷ xs) zero = some x
  get_elem? (x ∷ xs) (suc i) = get_elem? xs i

  abbrev pub take : ℕ → List A → List A
  take zero xs = []
  take (suc n) [] = []
  take (suc n) (x ∷ xs) = x ∷ take n xs

  pub length-take : (n : ℕ) (xs : List A) → n ≤ length xs → length (take n xs) ≡ n
  length-take zero xs h = refl
  length-take (suc n) [] h = absurd (omega arith)
  length-take (suc n) (x ∷ xs) h = omega (arith, length-take n xs (omega arith))

  pub length-take_le : (n : ℕ) (xs : List A) → length (take n xs) ≤ n
  length-take_le zero xs = omega arith
  length-take_le (suc n) [] = omega arith
  length-take_le (suc n) (x ∷ xs) = omega (arith, length-take_le n xs)

  abbrev pub drop : ℕ → List A → List A
  drop zero xs = xs
  drop (suc n) [] = []
  drop (suc n) (x ∷ xs) = drop n xs

  abbrev pub empty : List A → Bool
  empty [] = true
  empty (x ∷ xs) = false

  abbrev pub head? : List A → Option A
  head? [] = none
  head? (x ∷ xs) = some x

  abbrev pub last? : List A → Option A
  last? [] = none
  last? (x ∷ []) = some x
  last? (x ∷ y ∷ ys) = last? (y ∷ ys)

  pub Option-cases : (o : Option A) → (o ≡ none) ⊎ ((a : A) × (o ≡ some a))
  Option-cases none = inl refl
  Option-cases (some a) = inr (a, refl)

  -- An array whose size is kept beside it: `a[i] = v`.
  abbrev pub update : (ℕ → A) → ℕ → A → ℕ → A
  update f i v j = if j == i then v else f j

-- `a == b` on vectors of numbers.
abbrev pub list_eq : List ℕ → List ℕ → Bool
list_eq [] [] = true
list_eq (x ∷ xs) (y ∷ ys) = x == y && list_eq xs ys
list_eq _ _ = false

pub list_eq_sound : (xs ys : List ℕ) → list_eq xs ys ≡ true → xs ≡ ys
list_eq_sound [] [] h = refl
list_eq_sound [] (y ∷ ys) h = cc
list_eq_sound (x ∷ xs) [] h = cc
list_eq_sound (x ∷ xs) (y ∷ ys) h = ground (arith, list_eq_sound xs ys)

pub list_eq_refl : (xs : List ℕ) → list_eq xs xs ≡ true
list_eq_refl [] = refl
list_eq_refl (x ∷ xs) = ground (arith, list_eq_refl xs)

abbrev pub contains : ℕ → List ℕ → Bool
contains i [] = false
contains i (x ∷ xs) = i == x || contains i xs

-- The first occurrence of `x` is taken out.
abbrev pub remove : ℕ → List ℕ → List ℕ
remove x [] = []
remove x (y ∷ ys) = if x == y then ys else y ∷ remove x ys

-- No entry stands twice.
abbrev pub Distinct : List ℕ → Type 0
Distinct [] = Unit {0}
Distinct (x ∷ xs) = (contains x xs ≡ false) × Distinct xs

pub contains-append :
    (i : ℕ) (xs ys : List ℕ) → contains i (xs ++ ys) ≡ (contains i xs || contains i ys)
contains-append i [] ys = refl
contains-append i (x ∷ xs) ys = ground (arith, contains-append i xs ys)

pub contains-remove :
    (i x : ℕ) (xs : List ℕ)
    → Distinct xs
    → contains i (remove x xs) ≡ (if i == x then false else contains i xs)
contains-remove i x [] d = ground arith
contains-remove i x (y ∷ ys) d = ground (arith, contains-remove i x ys)

pub remove-Distinct : (x : ℕ) (xs : List ℕ) → Distinct xs → Distinct (remove x xs)
remove-Distinct x [] d = d
remove-Distinct x (y ∷ ys) d = ground (arith, remove-Distinct x ys, contains-remove y x ys)

pub snoc-Distinct :
    (x : ℕ) (xs : List ℕ) → Distinct xs → contains x xs ≡ false → Distinct (xs ++ x ∷ [])
snoc-Distinct x [] d h = (refl, tt)
snoc-Distinct x (y ∷ ys) d h = ground (arith, snoc-Distinct x ys, contains-append y ys (x ∷ []))

pub length-remove :
    (x : ℕ) (xs : List ℕ) → contains x xs ≡ true → length (remove x xs) + 1 ≡ length xs
length-remove x [] h = cc
length-remove x (y ∷ ys) h = ground (arith, length-remove x ys)

pub remove_absent : (x : ℕ) (xs : List ℕ) → contains x xs ≡ false → remove x xs ≡ xs
remove_absent x [] h = refl
remove_absent x (y ∷ ys) h = ground (arith, remove_absent x ys)

-- `n` indices from `k` on.
abbrev pub range : ℕ → ℕ → List ℕ
range k zero = []
range k (suc n) = k ∷ range (k + 1) n

pub contains-range : (i k n : ℕ) → contains i (range k n) ≡ (leb k i && ltb i (k + n))
contains-range i k zero = ground arith
contains-range i k (suc n) = ground (arith, contains-range i (k + 1) n)

pub range-Distinct : (k n : ℕ) → Distinct (range k n)
range-Distinct k zero = tt
range-Distinct k (suc n) = (ground (arith, contains-range k (k + 1) n), range-Distinct (k + 1) n)

-- Distinct indices below `n` are at most `n` many.
pub Distinct-length :
    (n : ℕ) (xs : List ℕ) → Distinct xs → ((i : ℕ) → contains i xs ≡ true → i < n) → length xs ≤ n
Distinct-length zero [] d below = omega arith
Distinct-length zero (x ∷ xs) d below = absurd (ground (arith, below x, ==_refl x))
Distinct-length (suc n) xs d below = elim (Bool-cases (contains n xs)) [
  | inl at_top ↦
      let rest =
        Distinct-length n (remove n xs) (remove-Distinct n xs d)
          (λ i h. ground (arith, below i, contains-remove i n xs d)) in
      omega (arith, rest, length-remove n xs at_top)
  | inr lower ↦
      let rest = Distinct-length n xs d (λ i h. elim (Bool-cases (i == n)) [
        | inl e ↦ absurd (ground (arith, ==_eq i n e))
        | inr e ↦ ground (arith, below i h)
      ]) in
      omega (arith, rest)
]
