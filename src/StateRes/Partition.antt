-- ===== src/StateRes/Partition.antt =====
-- `partitionState` (internal/usecase/state_res_sort.go): the tuples on which all state sets agree,
-- and the others. The order in which Go visits the maps is the argument `order`.
pub mod Votes
pub mod Agreement
pub mod Decision
use dragonite.Base.{
  ℕ, suc, ◌+◌, ◌≡◌, String, List, [], ◌∷◌, ◌++◌, ◌==◌, nat_eq, string_eq, length, count,
  if◌then◌else◌,
}
use dragonite.Base.Map.{Map, keys, lookup, insert, get_or, entries}
use dragonite.Domain.{StateTuple, tuple_eq, StateMap}

-- Go's choice of an order at each range statement, which keeps every key.
pub record MapOrder : Type 0 where
  pub ids : ℕ → List String → List String
  pub tuples : ℕ → List StateTuple → List StateTuple
  pub ids_keep : (n : ℕ) (a : String) (l : List String) → count a (ids n l) ≡ count a l
  pub tuples_keep :
      (n : ℕ) (t : StateTuple) (l : List StateTuple) → count t (tuples n l) ≡ count t l

abbrev pub Counts : Type 0
Counts = Map StateTuple (Map String ℕ)

-- tupleCounts[tuple][eventID]++
unfoldable pub count_entry : StateTuple → String → Counts → Counts
unfolding insert get_or
count_entry t id counts =
    let inner = get_or t [] counts in insert t (insert id (get_or id 0 inner + 1) inner) counts

unfoldable pub count_entries : List (StateTuple × String) → Counts → Counts
unfolding count_entry
count_entries [] counts = counts
count_entries ((t, id) ∷ es) counts = count_entries es (count_entry t id counts)

-- The sets are visited one after another, each in an order of its own.
unfoldable pub count_sets : MapOrder → List StateMap → Counts → Counts
unfolding count_entries entries keys
count_sets order [] counts = counts
count_sets order (set ∷ sets) counts =
    count_sets order sets
      (count_entries (entries (order.tuples (suc (length sets)) (keys set)) set) counts)

pub record Partition : Type 0 where
  pub unconflicted : StateMap
  pub conflicted : List StateTuple

-- The inner loop, over the ids of one tuple.
unfoldable pub judge_ids : ℕ → StateTuple → Map String ℕ → Partition → Partition
unfolding insert
judge_ids n t [] p = p
judge_ids n t ((id, votes) ∷ ids) p = judge_ids n t ids (
    if votes == n
    then record p { unconflicted = insert t id p.unconflicted }
    else record p { conflicted = p.conflicted ++ t ∷ [] })

unfoldable pub judge : ℕ → StateTuple → Map String ℕ → Partition → Partition
unfolding judge_ids
judge n t ids p =
    if length ids == 1
    then judge_ids n t ids p
    else record p { conflicted = p.conflicted ++ t ∷ [] }

unfoldable pub judge_all : ℕ → List (StateTuple × Map String ℕ) → Partition → Partition
unfolding judge
judge_all n [] p = p
judge_all n ((t, ids) ∷ es) p = judge_all n es (judge n t ids p)

unfoldable pub partition_state : MapOrder → List StateMap → Partition
unfolding judge_all count_sets entries keys
partition_state order sets =
    let counts = count_sets order sets [] in
    judge_all (length sets) (entries (order.tuples 0 (keys counts)) counts)
      (record { unconflicted = []; conflicted = [] })
