-- ===== src/IndexLru.antt =====
-- include/kvflux/detail/index_lru.h: an intrusive doubly linked list over node indices, oldest
-- first. `none`, the largest `size_t`, is `none` of `Option`. The node vector is a function of the
-- index: the callers guarantee that an index is below the capacity.
pub mod Links
pub mod Order
mod Tests
use kvflux.Base.{ℕ, Bool, true, false, Option, none, some, update, if◌then◌else◌}

pub record Node : Type 0 where
  pub prev : Option ℕ
  pub next : Option ℕ
  pub present : Bool

abbrev pub blank : Node
blank = record { prev = none; next = none; present = false }

pub record IndexLru : Type 0 where
  pub nodes : ℕ → Node
  pub oldest : Option ℕ
  pub newest : Option ℕ

unfoldable pub init : IndexLru
init = record { nodes = λ _. blank; oldest = none; newest = none }

-- `if (p == none) oldest_ = v; else nodes_[p].next = v;`
abbrev pub set_next : Option ℕ → Option ℕ → IndexLru → IndexLru
set_next none v l = record l { oldest = v }
set_next (some p) v l = record l { nodes = update l.nodes p (record (l.nodes p) { next = v }) }

-- `if (n == none) newest_ = v; else nodes_[n].prev = v;`
abbrev pub set_prev : Option ℕ → Option ℕ → IndexLru → IndexLru
set_prev none v l = record l { newest = v }
set_prev (some p) v l = record l { nodes = update l.nodes p (record (l.nodes p) { prev = v }) }

-- `n` is a reference in the source: its `next` and `prev` are read again after the first write.
unlink : ℕ → IndexLru → IndexLru
unlink id l =
    let l1 = set_next (l.nodes id).prev (l.nodes id).next l in
    let l2 = set_prev (l1.nodes id).next (l1.nodes id).prev l1 in
    record l2 { nodes = update l2.nodes id blank }

unfoldable pub erase : ℕ → IndexLru → IndexLru
unfolding unlink
erase id l = if (l.nodes id).present then unlink id l else l

link_newest : ℕ → IndexLru → IndexLru
link_newest id l =
    let l1 = record l {
      nodes = update l.nodes id (record (l.nodes id) { present = true; prev = l.newest });
    } in
    let l2 = set_next l1.newest (some id) l1 in record l2 { newest = some id }

unfoldable pub touch : ℕ → IndexLru → IndexLru
unfolding link_newest
touch id l = link_newest id (erase id l)

-- `next(id)`.
unfoldable pub next : ℕ → IndexLru → Option ℕ
next id l = (l.nodes id).next
