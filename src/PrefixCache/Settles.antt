-- ===== src/PrefixCache/Settles.antt =====
-- `attach_cached_prefix` is all or nothing.
use kvflux.Base.{ℕ, ◌*◌, ◌≡◌, [], Result, ok, err}
use kvflux.BlockManager.{BlockManager, Tokens}
use kvflux.BlockManager.Invariant.{Inv}
use kvflux.BlockManager.Effects.{refs}
use kvflux.SequenceState.{SequenceState}
use kvflux.PrefixCache.Attach.{Whole, Stops}

-- The empty request that a failed call leaves: it holds nothing, and the references in the pool
-- are those of others.
pub record Unwound (m : BlockManager) (s : SequenceState) : Type 0 where
  pub tokens : s.num_tokens ≡ 0
  pub blocks : s.table.blocks ≡ []
  pub counts : (i : ℕ) → refs s.table.pool i ≡ refs m i
  pub valid : Inv s.table.pool

-- What `attach_cached_prefix` leaves: on success the request has `j` whole blocks, counted and owned, and
-- ends where the tokens run out or the next prefix is a miss.
pub record Attached (m : BlockManager) (b : ℕ) (tokens : Tokens) (n : ℕ) (s' : SequenceState)
    : Type 0 where
  pub blocks : ℕ
  pub whole : Whole m blocks s'
  pub counted : (n ≡ s'.num_tokens) × (n ≡ blocks * b)
  pub stops : Stops [] tokens b blocks s'

abbrev pub AttachSettles : BlockManager → ℕ → Tokens → Result ℕ → SequenceState → Type 0
AttachSettles m b tokens (ok n) s' = Attached m b tokens n s'
AttachSettles m b tokens (err e) s' = Unwound m s'
