-- ===== src/CacheDirectory/Histories.antt =====
-- Histories of calls on a directory, from its constructor on.
use kvflux.Base.{
  ℕ, ◌≡◌, sym, subst, inl, inr, ◌&&◌, List, [], ◌∷◌, Result, ok, err, Bool-cases, Distinct,
  ok-injective,
}
use kvflux.Tier.{StorageTier, gpu, cpu, nvme}
use kvflux.Tier.Interface.{TierOps, slots_of}
use kvflux.CacheDirectory.{ChunkState, CacheKey}
use kvflux.CacheDirectory.Operations.{
  Directory, tier_for, open_directory, is_kind, create, place, remove, set_state, add_ref,
  release_ref, pin, unpin, touch, bump_version, stats, destroy,
}
use kvflux.CacheDirectory.Entries.{locations}
use kvflux.CacheDirectory.Invariant.{Agrees, stats-Agrees}
use kvflux.CacheDirectory.Places.{place-Agrees, remove-Agrees, set_state-Agrees}
use kvflux.CacheDirectory.Destruction.{destroy-Settles, DestroySettles}
use kvflux.CacheDirectory.Counters.{
  create-Agrees, add_ref-Agrees, release_ref-Agrees, pin-Agrees, unpin-Agrees, touch-Agrees,
  bump_version-Agrees,
}

pub data Call : Type 0 where
  create_call touch_call : ℕ → CacheKey → Call
  place_call : ℕ → CacheKey → StorageTier → ChunkState → Call
  remove_call : ℕ → CacheKey → StorageTier → Call
  set_state_call : CacheKey → StorageTier → ChunkState → Call
  add_ref_call release_ref_call pin_call unpin_call bump_version_call destroy_call : CacheKey → Call

module _ (T : TierOps) where
  unfoldable pub step : Call → Directory T → Directory T
  step (create_call now key) d = (create T now key d).1
  step (touch_call now key) d = (touch T now key d).1
  step (place_call now key tier state) d = (place T now key tier state d).1
  step (remove_call now key tier) d = (remove T now key tier d).1
  step (set_state_call key tier state) d = (set_state T key tier state d).1
  step (add_ref_call key) d = (add_ref T key d).1
  step (release_ref_call key) d = (release_ref T key d).1
  step (pin_call key) d = (pin T key d).1
  step (unpin_call key) d = (unpin T key d).1
  step (bump_version_call key) d = (bump_version T key d).1
  step (destroy_call key) d = (destroy T key d).1

  unfoldable pub run : List Call → Directory T → Directory T
  run [] d = d
  run (c ∷ cs) d = run cs (step c d)

  destroy-Agrees : (key : CacheKey) (d : Directory T) → Agrees T d → Agrees T (destroy T key d).1
  destroy-Agrees key d a =
      settled (destroy T key d).0 (destroy T key d).1 (destroy-Settles T key d a)
    where
      settled :
          (r : Result (Unit {0})) (d' : Directory T) → DestroySettles T key d r d' → Agrees T d'
      settled (ok u) d' s = s.valid
      settled (err e) d' s = subst (Agrees T) (sym s.0) a

  step-Agrees : (c : Call) (d : Directory T) → Agrees T d → Agrees T (step c d)
  unfolding step
  step-Agrees (create_call now key) = create-Agrees T now key
  step-Agrees (touch_call now key) = touch-Agrees T now key
  step-Agrees (place_call now key tier state) = place-Agrees T now key tier state
  step-Agrees (remove_call now key tier) = remove-Agrees T now key tier
  step-Agrees (set_state_call key tier state) = set_state-Agrees T key tier state
  step-Agrees (add_ref_call key) = add_ref-Agrees T key
  step-Agrees (release_ref_call key) = release_ref-Agrees T key
  step-Agrees (pin_call key) = pin-Agrees T key
  step-Agrees (unpin_call key) = unpin-Agrees T key
  step-Agrees (bump_version_call key) = bump_version-Agrees T key
  step-Agrees (destroy_call key) = destroy-Agrees key

  pub run-Agrees : (cs : List Call) (d : Directory T) → Agrees T d → Agrees T (run cs d)
  unfolding run
  run-Agrees [] d a = a
  run-Agrees (c ∷ cs) d a = run-Agrees cs (step c d) (step-Agrees c d a)

  pub open-Agrees :
      (g c n : T.Object) (d : Directory T)
      → T.Holds g []
      → T.Holds c []
      → T.Holds n []
      → open_directory T g c n ≡ ok d
      → Agrees T d
  unfolding open_directory
  open-Agrees g c n d hg hc hn e =
      elim (Bool-cases
        (is_kind T gpu (T.kind g) && (is_kind T cpu (T.kind c) && is_kind T nvme (T.kind n)))) [
          | inr wrong ↦ absurd (let u = rw wrong at e in cc)
          | inl right ↦
              subst (Agrees T) (let u = rw right at e in ok-injective u)
                (record { held = held; keys = tt })
        ]
    where
      d0 : Directory T
      d0 = record { gpu_tier = g; cpu_tier = c; nvme_tier = n; records = [] }

      held : (t : StorageTier) → T.Holds (tier_for T t d0) (locations t d0.records)
      held gpu = hg
      held cpu = hc
      held nvme = hn

  -- After any history of calls on a directory that was opened over three unused tiers, each tier
  -- counts as allocated exactly the replicas that the directory has there, and no two replicas in a
  -- tier have one slot.
  pub run-stats :
      (g c n : T.Object) (d : Directory T) (cs : List Call) (t : StorageTier)
      → T.Holds g []
      → T.Holds c []
      → T.Holds n []
      → open_directory T g c n ≡ ok d
      → ((stats T t (run cs d)).allocated_chunks ≡ (stats T t (run cs d)).replicas)
        × Distinct (slots_of (locations t (run cs d).records))
  run-stats g c n d cs t hg hc hn e =
      stats-Agrees T t (run cs d) (run-Agrees cs d (open-Agrees g c n d hg hc hn e))
