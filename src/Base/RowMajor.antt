-- ===== src/Base/RowMajor.antt =====
-- `size_t` products, and row-major addressing: a pair of a row and a column as one number.
use Prim.Native.Nat.{ℕ, suc, ◌+◌, ◌-◌, ◌*◌, ◌/◌, ◌%◌, ◌≤◌, ◌<◌}
use native.Mathlib.Nat.{
  mod-eq_of_lt, mul-add-div_right, mul-add-mod_self_right, div-eq_of_lt, add-zero,
  le-div_iff_mul-le, mul-le-mul, le_refl,
}
use mathlib.Core.Path.{◌≡◌, ap, ◌∙◌}
use mathlib.Core.Logic.{inl, inr}
use mathlib.Core.Bool.{false, not, ◌&&◌}
use native.Mathlib.Omega.{arith}
use kvflux.Base.Lists.{Bool-cases, ltb, ◌==◌, if◌then◌else◌, size_max}
use kvflux.Base.Results.{Result, ok, err, overflow_error}

-- Arithmetic on `size_t`.
unfoldable pub wrap : ℕ → ℕ
wrap n = n % 18446744073709551616

pub wrap_id : (n : ℕ) → n ≤ size_max → wrap n ≡ n
unfolding wrap
wrap_id n h = mod-eq_of_lt (omega arith)

-- `n - 1` on `size_t`, for a positive `n`.
pub wrap_pred : (n : ℕ) → 0 < n → n ≤ size_max → wrap (n + size_max) ≡ n - 1
unfolding wrap
wrap_pred n p h = omega arith

-- `a - b` on `size_t`, for `b ≤ a`.
pub wrap_sub : (a b c : ℕ) → b + c ≡ a → a ≤ size_max → wrap (a + (size_max - b) + 1) ≡ c
unfolding wrap
wrap_sub a b c e h = omega arith

-- `if (b && a > max / b) throw overflow_error; return a * b;`
unfoldable pub multiply : ℕ → ℕ → Result ℕ
multiply a b =
    if not (b == 0) && ltb (size_max / b) a then err overflow_error else ok (wrap (a * b))

product_fits : (a b : ℕ) → (not (b == 0) && ltb (size_max / b) a) ≡ false → a * b ≤ size_max
product_fits a b h = elim (Bool-cases (b == 0)) [
  | inl zero_b ↦ let e : b ≡ 0 = ground arith in rw e (omega arith)
  | inr pos_b ↦ (le-div_iff_mul-le (ground arith)).0 (ground arith)
]

-- A checked product is the exact product, and fits.
pub multiply-ok : (a b n : ℕ) → multiply a b ≡ ok n → (n ≡ a * b) × (n ≤ size_max)
unfolding multiply
multiply-ok a b n h = elim (Bool-cases (not (b == 0) && ltb (size_max / b) a)) [
  | inl over ↦ absurd (ground arith)
  | inr fits ↦
      let bound : a * b ≤ size_max = product_fits a b fits in
      let e : n ≡ wrap (a * b) = ground arith in
      let e' : n ≡ a * b = e ∙ wrap_id (a * b) bound in (e', omega arith)
]

-- A cell is taken apart by `/` and `%`.
pub div_row : {n : ℕ} (a b : ℕ) → b < n → (a * n + b) / n ≡ a
div_row {n} a b p =
    mul-add-div_right (omega arith) a b ∙ (ap (λ (t : ℕ). a + t) (div-eq_of_lt p) ∙ add-zero a)

pub row_lt : (a b m n : ℕ) → a < m → b < n → a * n + b < m * n
row_lt a b m n p q = grind arith

module _ (a b c d n : ℕ) where
  -- Two cells at one place are one cell.
  pub row_injective : b < n → d < n → a * n + b ≡ c * n + d → (a ≡ c) × (b ≡ d)
  row_injective p q e = (
    ground (arith, div_row a b p, div_row c d q, ap (λ (t : ℕ). t / n) e),
    ground (
      arith,
      mul-add-mod_self_right a n b,
      mul-add-mod_self_right c n d,
      mod-eq_of_lt p,
      mod-eq_of_lt q,
      ap (λ (t : ℕ). t % n) e,
    ),
  )

-- The last byte of an element lies below the end of the array.
pub cell_end : (a m n : ℕ) → a < m → a * n + n ≤ m * n
cell_end a m n p = let e : suc a * n ≤ m * n = mul-le-mul p (le_refl n) in omega (arith, e)

-- Elements of a positive size at one place are one element.
pub cell_injective : (a b n : ℕ) → 0 < n → a * n ≡ b * n → a ≡ b
cell_injective a b n p e = (row_injective a 0 b 0 n p p (ap (λ (t : ℕ). t + 0) e)).0
