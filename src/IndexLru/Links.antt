-- ===== src/IndexLru/Links.antt =====
-- The links of a doubly linked list as functions of the list of its indices.
use kvflux.Base.{
  ℕ, ◌≡◌, refl, Bool, true, false, Option, none, some, List, [], ◌∷◌, ◌++◌, arith, ◌==◌,
  if◌then◌else◌, head?, contains, remove, Distinct,
}

-- The entry behind `i`.
abbrev pub next_of : ℕ → List ℕ → Option ℕ
next_of i [] = none
next_of i (x ∷ xs) = if i == x then head? xs else next_of i xs

-- The entry before `i`, in a list that stands behind `p`.
abbrev pub prev_from : Option ℕ → ℕ → List ℕ → Option ℕ
prev_from p i [] = none
prev_from p i (x ∷ xs) = if i == x then p else prev_from (some x) i xs

-- Whether a link leads to `i`.
abbrev pub leads_to : Option ℕ → ℕ → Bool
leads_to none i = false
leads_to (some j) i = i == j

abbrev pub is_none : Option ℕ → Bool
is_none none = true
is_none (some j) = false

-- A link to the front neighbour leads to an entry, or is the one given.
pub prev_from-mem :
    (p : Option ℕ) (x j : ℕ) (xs : List ℕ)
    → leads_to p j ≡ false
    → contains j xs ≡ false
    → leads_to (prev_from p x xs) j ≡ false
prev_from-mem p x j [] h a = refl
prev_from-mem p x j (y ∷ ys) h a = ground (arith, prev_from-mem (some y) x j ys)

pub next_of-remove :
    (p : Option ℕ) (i x : ℕ) (xs : List ℕ)
    → Distinct xs
    → contains i xs ≡ true
    → (i == x) ≡ false
    → leads_to p i ≡ false
    → next_of i (remove x xs)
      ≡ (if leads_to (prev_from p x xs) i then next_of x xs else next_of i xs)
next_of-remove p i x [] d m ne h = ground arith
next_of-remove p i x (y ∷ []) d m ne h = ground arith
next_of-remove p i x (y ∷ z ∷ zs) d m ne h =
    ground (arith, next_of-remove (some y) i x (z ∷ zs), prev_from-mem (some z) x y zs)

-- A link to the back neighbour leads to an entry.
pub next_of-mem :
    (x j : ℕ) (xs : List ℕ) → contains j xs ≡ false → leads_to (next_of x xs) j ≡ false
next_of-mem x j [] a = refl
next_of-mem x j (y ∷ []) a = ground arith
next_of-mem x j (y ∷ z ∷ zs) a = ground (arith, next_of-mem x j (z ∷ zs))

pub prev_from-remove :
    (p : Option ℕ) (i x : ℕ) (xs : List ℕ)
    → Distinct xs
    → contains i xs ≡ true
    → (i == x) ≡ false
    → prev_from p i (remove x xs)
      ≡ (if leads_to (next_of x xs) i then prev_from p x xs else prev_from p i xs)
prev_from-remove p i x [] d m ne = refl
prev_from-remove p i x (y ∷ []) d m ne = ground arith
prev_from-remove p i x (y ∷ z ∷ zs) d m ne =
    ground (arith, prev_from-remove (some y) i x (z ∷ zs), next_of-mem x y (z ∷ zs))

prev_from-is_none :
    (p : Option ℕ) (x : ℕ) (xs : List ℕ)
    → is_none p ≡ false
    → contains x xs ≡ true
    → is_none (prev_from p x xs) ≡ false
prev_from-is_none p x [] h m = cc
prev_from-is_none p x (y ∷ ys) h m = ground (arith, prev_from-is_none (some y) x ys)

pub head?-remove :
    (x : ℕ) (xs : List ℕ)
    → contains x xs ≡ true
    → head? (remove x xs) ≡ (if is_none (prev_from none x xs) then next_of x xs else head? xs)
head?-remove x [] m = refl
head?-remove x (y ∷ ys) m = ground (arith, prev_from-is_none (some y) x ys)

-- The last entry of a list that stands behind `p`.
abbrev pub last_from : Option ℕ → List ℕ → Option ℕ
last_from p [] = p
last_from p (x ∷ xs) = last_from (some x) xs

pub last_from-remove :
    (p : Option ℕ) (x : ℕ) (xs : List ℕ)
    → contains x xs ≡ true
    → last_from p (remove x xs)
      ≡ (if is_none (next_of x xs) then prev_from p x xs else last_from p xs)
last_from-remove p x [] m = cc
last_from-remove p x (y ∷ []) m = ground arith
last_from-remove p x (y ∷ z ∷ zs) m = ground (arith, last_from-remove (some y) x (z ∷ zs))

pub last_from-mem :
    (p : Option ℕ) (j : ℕ) (xs : List ℕ)
    → leads_to p j ≡ false
    → contains j xs ≡ false
    → leads_to (last_from p xs) j ≡ false
last_from-mem p j [] h a = h
last_from-mem p j (y ∷ ys) h a = ground (arith, last_from-mem (some y) j ys)

last_from-is_none : (y : ℕ) (xs : List ℕ) → is_none (last_from (some y) xs) ≡ false
last_from-is_none y [] = refl
last_from-is_none y (x ∷ xs) = last_from-is_none x xs

-- The new entry becomes the neighbour of the entry that was last.
pub next_of-append :
    (i x : ℕ) (xs : List ℕ)
    → Distinct xs
    → contains x xs ≡ false
    → next_of i (xs ++ x ∷ []) ≡ (if leads_to (last_from none xs) i then some x else next_of i xs)
next_of-append i x [] d h = ground arith
next_of-append i x (y ∷ []) d h = ground arith
next_of-append i x (y ∷ z ∷ zs) d h =
    ground (arith, next_of-append i x (z ∷ zs), last_from-mem (some z) y zs)

pub prev_from-append :
    (p : Option ℕ) (i x : ℕ) (xs : List ℕ)
    → contains x xs ≡ false
    → prev_from p i (xs ++ x ∷ []) ≡ (if i == x then last_from p xs else prev_from p i xs)
prev_from-append p i x [] h = ground arith
prev_from-append p i x (y ∷ ys) h = ground (arith, prev_from-append (some y) i x ys)

pub last_from-append : (p : Option ℕ) (x : ℕ) (xs : List ℕ) → last_from p (xs ++ x ∷ []) ≡ some x
last_from-append p x [] = refl
last_from-append p x (y ∷ ys) = last_from-append (some y) x ys

pub head?-append :
    (x : ℕ) (xs : List ℕ)
    → head? (xs ++ x ∷ []) ≡ (if is_none (last_from none xs) then some x else head? xs)
head?-append x [] = refl
head?-append x (y ∷ ys) = rw (last_from-is_none y ys)

-- No entry is its own neighbour.
pub prev_from_self :
    (p : Option ℕ) (x : ℕ) (xs : List ℕ)
    → Distinct xs
    → leads_to p x ≡ false
    → leads_to (prev_from p x xs) x ≡ false
prev_from_self p x [] d h = refl
prev_from_self p x (y ∷ ys) d h = ground (arith, prev_from_self (some y) x ys)

pub next_of_self : (x : ℕ) (xs : List ℕ) → Distinct xs → leads_to (next_of x xs) x ≡ false
next_of_self x [] d = refl
next_of_self x (y ∷ []) d = ground arith
next_of_self x (y ∷ z ∷ zs) d = ground (arith, next_of_self x (z ∷ zs))

pub next_of-absent : (x : ℕ) (xs : List ℕ) → contains x xs ≡ false → next_of x xs ≡ none
next_of-absent x [] a = refl
next_of-absent x (y ∷ ys) a = ground (arith, next_of-absent x ys)
