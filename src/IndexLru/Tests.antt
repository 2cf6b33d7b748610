-- ===== src/IndexLru/Tests.antt =====
-- Runs of the linked order, and the theorems at concrete inputs.
use kvflux.Base.{ℕ, ◌≡◌, refl, some, List, [], ◌∷◌, contains, true}
use kvflux.IndexLru.{init, touch, erase, next}
use kvflux.IndexLru.Links.{next_of}
use kvflux.IndexLru.Order.{Call, touches, erases, run, run-order}

abbrev calls : List Call
calls = touches 3 ∷ touches 1 ∷ touches 2 ∷ touches 3 ∷ erases 1 ∷ touches 5 ∷ []

oldest_is_two : (run calls init).oldest ≡ some 2
unfolding run init touch erase
oldest_is_two = refl

run-order_example :
    let l = run calls init in
    (l.oldest ≡ some 2)
    × ((i : ℕ) → contains i (2 ∷ 3 ∷ 5 ∷ []) ≡ true → next i l ≡ next_of i (2 ∷ 3 ∷ 5 ∷ []))
    × ((i : ℕ) → (l.nodes i).present ≡ contains i (2 ∷ 3 ∷ 5 ∷ []))
run-order_example = run-order calls
