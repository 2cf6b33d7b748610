-- ===== src/IndexLru/Order.antt =====
-- The linked nodes stand for the list of their indices, oldest first.
use kvflux.Base.{
  ℕ, ◌≡◌, refl, sym, ◌∙◌, inl, inr, true, false, none, List, [], ◌∷◌, ◌++◌, arith, head?, contains,
  remove, Distinct, contains-append, contains-remove, remove-Distinct, snoc-Distinct, remove_absent,
  Bool-cases,
}
use kvflux.IndexLru.{IndexLru, init, unlink, erase, link_newest, touch, next}
use kvflux.IndexLru.Links.{
  next_of, prev_from, leads_to, last_from, next_of-remove, prev_from-remove, head?-remove,
  last_from-remove, next_of-append, prev_from-append, next_of-absent, prev_from_self, next_of_self,
  last_from-append, head?-append, prev_from-mem, last_from-mem,
}

-- `l` holds the indices `xs`: the links of each node are those of its place in `xs`.
pub record Holds (l : IndexLru) (xs : List ℕ) : Type 0 where
  pub distinct : Distinct xs
  pub first : l.oldest ≡ head? xs
  pub last : l.newest ≡ last_from none xs
  pub present : (i : ℕ) → (l.nodes i).present ≡ contains i xs
  pub next_link : (i : ℕ) → contains i xs ≡ true → (l.nodes i).next ≡ next_of i xs
  pub absent : (i : ℕ) → contains i xs ≡ false → (l.nodes i).next ≡ none
  pub prev_link : (i : ℕ) → contains i xs ≡ true → (l.nodes i).prev ≡ prev_from none i xs

pub init-Holds : Holds init []
unfolding init
init-Holds = record {
  distinct = tt;
  first = refl;
  last = refl;
  present = λ i. refl;
  next_link = λ i h. refl;
  absent = λ i h. refl;
  prev_link = λ i h. refl;
}

module _ (id : ℕ) (l : IndexLru) (xs : List ℕ) (v : Holds l xs) (m : contains id xs ≡ true) where
  self_prev : leads_to (prev_from none id xs) id ≡ false
  self_prev = prev_from_self none id xs v.distinct refl

  self_next : leads_to (next_of id xs) id ≡ false
  self_next = next_of_self id xs v.distinct

  unlink_first : (unlink id l).oldest ≡ head? (remove id xs)
  unfolding unlink
  unlink_first =
      ground
        (arith, v.first, v.prev_link id, v.next_link id, head?-remove id xs, self_prev, self_next)

  unlink_last : (unlink id l).newest ≡ last_from none (remove id xs)
  unfolding unlink
  unlink_last = ground (
    arith,
    v.last,
    v.prev_link id,
    v.next_link id,
    last_from-remove none id xs,
    self_prev,
    self_next,
  )

  unlink_present : (i : ℕ) → ((unlink id l).nodes i).present ≡ contains i (remove id xs)
  unfolding unlink
  unlink_present i = ground (
    arith,
    v.distinct,
    v.present i,
    v.prev_link id,
    v.next_link id,
    contains-remove i id xs,
    self_prev,
    self_next,
  )

  unlink_next :
      (i : ℕ)
      → contains i (remove id xs) ≡ true
      → ((unlink id l).nodes i).next ≡ next_of i (remove id xs)
  unfolding unlink
  unlink_next i k = ground (
    arith,
    v.distinct,
    v.next_link i,
    v.prev_link id,
    v.next_link id,
    contains-remove i id xs,
    next_of-remove none i id xs,
    self_prev,
    self_next,
  )

  unlink_prev :
      (i : ℕ)
      → contains i (remove id xs) ≡ true
      → ((unlink id l).nodes i).prev ≡ prev_from none i (remove id xs)
  unfolding unlink
  unlink_prev i k = ground (
    arith,
    v.distinct,
    v.prev_link i,
    v.prev_link id,
    v.next_link id,
    contains-remove i id xs,
    prev_from-remove none i id xs,
    self_prev,
    self_next,
  )

  unlink_absent : (i : ℕ) → contains i (remove id xs) ≡ false → ((unlink id l).nodes i).next ≡ none
  unfolding unlink
  unlink_absent i k = ground (
    arith,
    v.distinct,
    v.absent i,
    v.prev_link id,
    v.next_link id,
    contains-remove i id xs,
    prev_from-mem none id i xs,
    self_prev,
    self_next,
  )

  unlink-Holds : Holds (unlink id l) (remove id xs)
  unlink-Holds = record {
    distinct = remove-Distinct id xs v.distinct;
    first = unlink_first;
    last = unlink_last;
    present = unlink_present;
    next_link = unlink_next;
    absent = unlink_absent;
    prev_link = unlink_prev;
  }

-- `erase` takes an index out of the order, wherever it stands, and does nothing if it is absent.
pub erase-Holds :
    (id : ℕ) (l : IndexLru) (xs : List ℕ) → Holds l xs → Holds (erase id l) (remove id xs)
unfolding erase
erase-Holds id l xs v = elim (Bool-cases (contains id xs)) [
  | inl m ↦ rw (v.present id ∙ m) (unlink-Holds id l xs v m)
  | inr a ↦ rw (v.present id ∙ a, remove_absent id xs a) v
]

module _ (id : ℕ) (l : IndexLru) (xs : List ℕ) (v : Holds l xs) (a : contains id xs ≡ false) where
  absent_last : leads_to (last_from none xs) id ≡ false
  absent_last = last_from-mem none id xs refl a

  link_first : (link_newest id l).oldest ≡ head? (xs ++ id ∷ [])
  unfolding link_newest
  link_first = ground (arith, v.first, v.last, head?-append id xs, absent_last)

  link_present : (i : ℕ) → ((link_newest id l).nodes i).present ≡ contains i (xs ++ id ∷ [])
  unfolding link_newest
  link_present i = ground (arith, v.last, v.present i, contains-append i xs (id ∷ []), absent_last)

  link_next :
      (i : ℕ)
      → contains i (xs ++ id ∷ []) ≡ true
      → ((link_newest id l).nodes i).next ≡ next_of i (xs ++ id ∷ [])
  unfolding link_newest
  link_next i k = ground (
    arith,
    v.distinct,
    v.last,
    v.next_link i,
    v.absent i,
    contains-append i xs (id ∷ []),
    next_of-append i id xs,
    next_of-absent i xs,
    absent_last,
  )

  link_absent :
      (i : ℕ) → contains i (xs ++ id ∷ []) ≡ false → ((link_newest id l).nodes i).next ≡ none
  unfolding link_newest
  link_absent i k = ground (
    arith,
    v.last,
    v.absent i,
    contains-append i xs (id ∷ []),
    last_from-mem none i xs,
    absent_last,
  )

  link_prev :
      (i : ℕ)
      → contains i (xs ++ id ∷ []) ≡ true
      → ((link_newest id l).nodes i).prev ≡ prev_from none i (xs ++ id ∷ [])
  unfolding link_newest
  link_prev i k = ground (
    arith,
    v.last,
    v.prev_link i,
    contains-append i xs (id ∷ []),
    prev_from-append none i id xs,
    absent_last,
  )

  link_newest-Holds : Holds (link_newest id l) (xs ++ id ∷ [])
  unfolding link_newest
  link_newest-Holds = record {
    distinct = snoc-Distinct id xs v.distinct a;
    first = link_first;
    last = sym (last_from-append none id xs);
    present = link_present;
    next_link = link_next;
    absent = link_absent;
    prev_link = link_prev;
  }

-- `touch` moves an index to the newest end, whether or not it was in the order.
pub touch-Holds :
    (id : ℕ) (l : IndexLru) (xs : List ℕ)
    → Holds l xs
    → Holds (touch id l) (remove id xs ++ id ∷ [])
unfolding touch
touch-Holds id l xs v =
    link_newest-Holds id (erase id l) (remove id xs) (erase-Holds id l xs v)
      (ground (arith, contains-remove id id xs, v.distinct))

-- The walk of the victim search: `next` leads from each entry to the one behind it.
pub next-Holds :
    (l : IndexLru) (xs : List ℕ) (i : ℕ)
    → Holds l xs
    → contains i xs ≡ true
    → next i l ≡ next_of i xs
unfolding next
next-Holds l xs i v m = v.next_link i m

pub data Call : Type 0 where
  touches erases : ℕ → Call

-- The linked nodes after a history of calls.
unfoldable pub run : List Call → IndexLru → IndexLru
run [] l = l
run (touches i ∷ cs) l = run cs (touch i l)
run (erases i ∷ cs) l = run cs (erase i l)

-- The same history on a plain list: a touched index goes to the back, an erased one goes.
abbrev pub history : List Call → List ℕ → List ℕ
history [] xs = xs
history (touches i ∷ cs) xs = history cs (remove i xs ++ i ∷ [])
history (erases i ∷ cs) xs = history cs (remove i xs)

run-Holds :
    (cs : List Call) (l : IndexLru) (xs : List ℕ) → Holds l xs → Holds (run cs l) (history cs xs)
unfolding run
run-Holds [] l xs v = v
run-Holds (touches i ∷ cs) l xs v = run-Holds cs (touch i l) _ (touch-Holds i l xs v)
run-Holds (erases i ∷ cs) l xs v = run-Holds cs (erase i l) _ (erase-Holds i l xs v)

-- After any history of `touch` and `erase` on a new order, `oldest` is the least recently touched
-- index that is left, and following `next` from an index that is left gives the one touched next.
pub run-order :
    (cs : List Call)
    → let l = run cs init in
      let xs = history cs [] in
      (l.oldest ≡ head? xs)
      × ((i : ℕ) → contains i xs ≡ true → next i l ≡ next_of i xs)
      × ((i : ℕ) → (l.nodes i).present ≡ contains i xs)
run-order cs =
    let v = run-Holds cs init [] init-Holds in
    (v.first, λ i m. next-Holds (run cs init) (history cs []) i v m, v.present)
