-- ===== src/BlockManager/Calls.antt =====
-- A client's history: any sequence of calls of the manager's interface, in any order and with any
-- arguments, the failing ones included.
use kvflux.Base.{ℕ, ◌+◌, ◌≡◌, List, [], ◌∷◌, ok, Option, arith}
use kvflux.BlockManager.{
  BlockManager, BlockHandle, BlockTable, Tokens, allocate, retain, release, create,
}
use kvflux.BlockManager.Prefixes.{publish, lookup}
use kvflux.BlockManager.Tables.{acquire, share, release_table, stats}
use kvflux.BlockManager.Invariant.{Inv}
use kvflux.BlockManager.Reach.{
  Reach, here, allocates, retains, releases, publishes, looks_up, Reach-Inv, acquire-Reach,
  share-Reach, release_table-Reach,
}
use kvflux.BlockManager.Init.{create-Inv}
use kvflux.BlockManager.Counts.{stats_lem}
use kvflux.BlockManager.Sizes.{Reach-block_size}

pub data Call : Type 0 where
  allocate_call : Call
  retain_call release_call : BlockHandle → Call
  publish_call : BlockHandle → Tokens → Call
  lookup_call acquire_call : Tokens → Call
  share_call release_table_call : BlockTable → Call

unfoldable pub step : Call → BlockManager → BlockManager
step allocate_call m = (allocate m).1
step (retain_call h) m = (retain h m).1
step (release_call h) m = (release h m).1
step (publish_call h p) m = (publish h p m).1
step (lookup_call p) m = (lookup p m).1
step (acquire_call tokens) m = (acquire tokens m).1
step (share_call table) m = (share table m).1
step (release_table_call table) m = (release_table table m).1

unfoldable pub run : List Call → BlockManager → BlockManager
run [] m = m
run (c ∷ cs) m = run cs (step c m)

step-Reach : {m : BlockManager} (c : Call) (n : BlockManager) → Reach m n → Reach m (step c n)
unfolding step
step-Reach allocate_call n r = allocates r
step-Reach (retain_call h) n r = retains h r
step-Reach (release_call h) n r = releases h r
step-Reach (publish_call h p) n r = publishes h p r
step-Reach (lookup_call p) n r = looks_up p r
step-Reach (acquire_call tokens) n r = acquire-Reach tokens n r
step-Reach (share_call table) n r = share-Reach table n r
step-Reach (release_table_call table) n r = release_table-Reach table n r

pub run-Reach :
    {m : BlockManager} (cs : List Call) (n : BlockManager) → Reach m n → Reach m (run cs n)
unfolding run
run-Reach [] n r = r
run-Reach (c ∷ cs) n r = run-Reach cs (step c n) (step-Reach c n r)

-- After any history of a manager that the constructor built, the free list, the idle order and the
-- index agree with the slots, and the counts of `stats` add up to the capacity asked for.
pub run-create-Inv :
    (capacity block_size : ℕ) (hasher : Option (Tokens → ℕ)) (m : BlockManager) (cs : List Call)
    → create capacity block_size hasher ≡ ok m
    → let n = run cs m in
      Inv n × ((stats n).free + (stats n).active + (stats n).cached_idle ≡ capacity)
run-create-Inv capacity block_size hasher m cs e =
    let (v, sized, _) = create-Inv capacity block_size hasher m e in
    let r = run-Reach cs m here in
    let v' : Inv (run cs m) = Reach-Inv v r in
    (v', omega (arith, (stats_lem (run cs m) v'.0 v'.1 v'.2).2, (Reach-block_size r).1, sized))
