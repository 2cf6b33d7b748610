-- ===== src/GpuMemoryPool/Memory.antt =====
-- Bytes that are stored at one place: what stands there after that, and what stands elsewhere.
use kvflux.Base.{
  ℕ, zero, suc, ◌+◌, ◌≤◌, ◌<◌, ◌≡◌, refl, ap₂, ◌⊎◌, inl, inr, List, [], ◌∷◌, arith, length, update,
  ==_refl,
}
use kvflux.GpuMemoryPool.{store_bytes, load_bytes}

-- Memories that agree on a range give the same bytes.
load_bytes-same :
    (a n : ℕ) (m m' : ℕ → ℕ)
    → ((j : ℕ) → a ≤ j → j < a + n → m j ≡ m' j)
    → load_bytes a n m ≡ load_bytes a n m'
load_bytes-same a zero m m' e = refl
load_bytes-same a (suc n) m m' e =
    ap₂ (λ b bs. b ∷ bs) (e a (omega arith) (omega arith))
      (load_bytes-same (suc a) n m m' (λ j p q. e j (omega arith) (omega arith)))

store_bytes-outside :
    (a j : ℕ) (bs : List ℕ) (m : ℕ → ℕ) → (j < a) ⊎ (a + length bs ≤ j) → store_bytes a bs m j ≡ m j
store_bytes-outside a j [] m o = refl
store_bytes-outside a j (b ∷ bs) m (inl o) =
    ground (arith, store_bytes-outside (suc a) j bs m (inl (omega arith)))
store_bytes-outside a j (b ∷ bs) m (inr o) =
    ground (arith, store_bytes-outside (suc a) j bs m (inr (omega arith)))

pub load_bytes-store_bytes :
    (a : ℕ) (bs : List ℕ) (m : ℕ → ℕ) → load_bytes a (length bs) (store_bytes a bs m) ≡ bs
load_bytes-store_bytes a [] m = refl
load_bytes-store_bytes a (b ∷ bs) m =
    let rest : ℕ → ℕ = store_bytes (suc a) bs m in
    let same = load_bytes-same (suc a) (length bs) (update rest a b) rest (λ j p q. ground arith) in
    rw (==_refl a, same, load_bytes-store_bytes (suc a) bs m) refl

-- Ranges that do not meet do not disturb each other.
pub load_bytes_apart :
    (a n c : ℕ) (bs : List ℕ) (m : ℕ → ℕ)
    → (a + n ≤ c) ⊎ (c + length bs ≤ a)
    → load_bytes a n (store_bytes c bs m) ≡ load_bytes a n m
load_bytes_apart a n c bs m (inl o) =
    load_bytes-same a n (store_bytes c bs m) m
      (λ j p q. store_bytes-outside c j bs m (inl (omega arith)))
load_bytes_apart a n c bs m (inr o) =
    load_bytes-same a n (store_bytes c bs m) m
      (λ j p q. store_bytes-outside c j bs m (inr (omega arith)))
