-- ===== src/BlockManager/Counts.antt =====
-- `stats`: the three counts are the lengths of the lists, and no block is lost or counted twice.
use kvflux.Base.{
  ℕ, zero, suc, ◌+◌, ◌≡◌, refl, ◌∙◌, Bool, true, false, List, [], ◌∷◌, arith, ltb, if◌then◌else◌,
  length, contains, Distinct, ◌<◌,
}
use kvflux.BlockManager.{BlockManager, Slot}
use kvflux.BlockManager.Tables.{stats, count_slots, is_active, is_idle}
use kvflux.BlockManager.Invariant.{Queues}

-- How many numbers below `n` stand in a list.
abbrev count_in : List ℕ → ℕ → ℕ
count_in xs zero = 0
count_in xs (suc n) = (if contains n xs then 1 else 0) + count_in xs n

count_in-nil : (n : ℕ) → count_in [] n ≡ 0
count_in-nil zero = refl
count_in-nil (suc n) = omega (arith, count_in-nil n)

count_in-cons :
    (x : ℕ) (xs : List ℕ) (n : ℕ)
    → contains x xs ≡ false
    → count_in (x ∷ xs) n ≡ count_in xs n + (if ltb x n then 1 else 0)
count_in-cons x xs zero a = ground arith
count_in-cons x xs (suc n) a = ground (arith, count_in-cons x xs n)

count_in-length :
    (xs : List ℕ) (n : ℕ)
    → Distinct xs
    → ((i : ℕ) → contains i xs ≡ true → i < n)
    → count_in xs n ≡ length xs
count_in-length [] n d h = count_in-nil n
count_in-length (x ∷ xs) n d h =
    ground (arith, count_in-cons x xs n, count_in-length xs n d.1 (λ i m. h i (ground arith)), h x)

count_slots-in :
    (p : Slot → Bool) (slots : ℕ → Slot) (xs : List ℕ) (n : ℕ)
    → ((i : ℕ) → i < n → p (slots i) ≡ contains i xs)
    → count_slots p slots n ≡ count_in xs n
count_slots-in p slots xs zero h = refl
count_slots-in p slots xs (suc n) h =
    ground (arith, h n (omega arith), count_slots-in p slots xs n (λ i l. h i (omega arith)))

count_slots_partition :
    (slots : ℕ → Slot) (n : ℕ)
    → ((i : ℕ) → (slots i).free ≡ true → (slots i).refs ≡ 0)
    → count_slots (λ s. s.free) slots n
        + count_slots is_active slots n
        + count_slots is_idle slots n
      ≡ n
count_slots_partition slots zero h = refl
count_slots_partition slots (suc n) h = ground (arith, count_slots_partition slots n h)

-- The free count is the length of the free list, the idle count that of the idle order, and each
-- block is free, active or idle.
pub stats_lem :
    (m : BlockManager) (free idle : List ℕ)
    → Queues m free idle
    → ((stats m).free ≡ length free)
      × ((stats m).cached_idle ≡ length idle)
      × ((stats m).free + (stats m).active + (stats m).cached_idle ≡ m.capacity)
unfolding stats
stats_lem m free idle v = (
  count_slots-in (λ s. s.free) m.slots free m.capacity (λ i l. ground (arith, v.free_mem i))
      ∙ count_in-length free m.capacity v.free_distinct (λ i c. ground (arith, v.free_mem i)),
  count_slots-in is_idle m.slots idle m.capacity (λ i l. ground (arith, v.idle_mem i))
      ∙ count_in-length idle m.capacity v.idle_order.distinct (λ i c. ground (arith, v.idle_mem i)),
  count_slots_partition m.slots m.capacity (λ i f. (v.free_blank i f).0),
)
