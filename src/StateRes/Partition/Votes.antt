-- ===== src/StateRes/Partition/Votes.antt =====
-- What `partitionState` counts: for each tuple and event id, the state sets that have the one
-- under the other.
use dragonite.Base.{
  ℕ, suc, ◌+◌, ◌*◌, String, ◌≡◌, ◌≢◌, refl, Bool, false, Option, none, some, List, [], ◌∷◌, arith,
  ◌==◌, nat_eq, string_eq, ltb, length, count, elem-count, count-elem, one_if, if◌then◌else◌,
  Option-cases, inl, inr,
}
use dragonite.Base.Map.{
  Map, keys, lookup, insert, get_or, entries, lookup-insert, HasOneEach, insert-HasOneEach,
  elem-keys-lookup, count-keys-insert,
}
use dragonite.Domain.{StateTuple, tuple_eq, tuple_beq, tuple_beq_iff, StateMap}
use dragonite.StateRes.Partition.{MapOrder, Counts, count_entry, count_entries, count_sets}
use text.Mathlib.TextEquality.{eq_iff}

-- Whether a lookup found this id.
abbrev pub is_id : String → Option String → Bool
is_id id none = false
is_id id (some x) = x == id

-- The sets in which the tuple has this id.
unfoldable pub votes : StateTuple → String → List StateMap → ℕ
unfolding lookup
votes t id [] = 0
votes t id (set ∷ sets) = one_if (is_id id (lookup t set)) + votes t id sets

abbrev pub tally : Counts → StateTuple → String → ℕ
tally counts t id = get_or id 0 (get_or t [] counts)

tally-count_entry :
    (t u : StateTuple) (id j : String) (counts : Counts)
    → tally (count_entry t id counts) u j
      ≡ tally counts u j + (if tuple_beq t u then one_if (id == j) else 0)
unfolding count_entry get_or
tally-count_entry t u id j counts = ground (
  arith,
  tuple_beq_iff t u,
  eq_iff id j,
  lookup-insert t u (insert id (get_or id 0 (get_or t [] counts) + 1) (get_or t [] counts)) counts,
  lookup-insert id j (get_or id 0 (get_or t [] counts) + 1) (get_or t [] counts),
)

-- A range counts an entry as often as its key is visited.
tally-count_entries :
    (u : StateTuple) (j : String) (set : StateMap) (ks : List StateTuple) (counts : Counts)
    → tally (count_entries (entries ks set) counts) u j
      ≡ tally counts u j + count u ks * one_if (is_id j (lookup u set))
unfolding count_entries entries count
tally-count_entries u j set [] counts = ground arith
tally-count_entries u j set (k ∷ ks) counts = elim (Option-cases (lookup k set)) [
  | inl missing ↦ grind (arith, missing, tuple_beq_iff k u, tally-count_entries u j set ks counts)
  | inr (id, found) ↦ grind (
    arith,
    found,
    tuple_beq_iff k u,
    tally-count_entry k u id j counts,
    tally-count_entries u j set ks (count_entry k id counts),
  )
]

-- A set that is a map counts once for each of its entries.
tally-set :
    (u : StateTuple) (j : String) (set : StateMap) (ks : List StateTuple) (counts : Counts)
    → HasOneEach set
    → count u ks ≡ count u (keys set)
    → tally (count_entries (entries ks set) counts) u j
      ≡ tally counts u j + one_if (is_id j (lookup u set))
tally-set u j set ks counts once same = grind (
  arith,
  tally-count_entries u j set ks counts,
  once u,
  elem-keys-lookup u set,
  elem-count u (keys set),
  count-elem u (keys set),
)

abbrev pub AreMaps : List StateMap → Type 0
AreMaps [] = Unit
AreMaps (set ∷ sets) = HasOneEach set × AreMaps sets

tally-count_sets :
    (order : MapOrder) (u : StateTuple) (j : String) (sets : List StateMap) (counts : Counts)
    → AreMaps sets
    → tally (count_sets order sets counts) u j ≡ tally counts u j + votes u j sets
unfolding count_sets votes
tally-count_sets order u j [] counts m = omega arith
tally-count_sets order u j (set ∷ sets) counts m = omega (
  arith,
  tally-set u j set (order.tuples (suc (length sets)) (keys set)) counts m.0
      (order.tuples_keep (suc (length sets)) u (keys set)),
  tally-count_sets order u j sets
      (count_entries (entries (order.tuples (suc (length sets)) (keys set)) set) counts) m.1,
)

-- The counters hold each tuple once, under it each id once that was seen, and nothing unseen.
pub record IsTally (counts : Counts) : Type 0 where
  pub once : HasOneEach counts
  pub seen :
      (t : StateTuple) (id : String)
      → count id (keys (get_or t [] counts)) ≡ one_if (ltb 0 (tally counts t id))
  pub some_id : (t : StateTuple) → lookup t counts ≢ some []

count_entry-seen :
    (t u : StateTuple) (id j : String) (counts : Counts)
    → IsTally counts
    → count j (keys (get_or u [] (count_entry t id counts)))
      ≡ one_if (ltb 0 (tally (count_entry t id counts) u j))
unfolding count_entry get_or
count_entry-seen t u id j counts h = ground (
  arith,
  tuple_beq_iff t u,
  eq_iff id j,
  h.seen u j,
  h.seen t j,
  lookup-insert t u (insert id (get_or id 0 (get_or t [] counts) + 1) (get_or t [] counts)) counts,
  lookup-insert id j (get_or id 0 (get_or t [] counts) + 1) (get_or t [] counts),
  count-keys-insert id j (get_or id 0 (get_or t [] counts) + 1) (get_or t [] counts),
  elem-count j (keys (get_or t [] counts)),
  count-elem j (keys (get_or t [] counts)),
)

insert-ne-nil : (id : String) (n : ℕ) (m : Map String ℕ) → insert id n m ≢ []
unfolding insert
insert-ne-nil id n [] e = cc
insert-ne-nil id n ((j, k) ∷ m) e = ground arith

count_entry-some_id :
    (t u : StateTuple) (id : String) (counts : Counts)
    → IsTally counts
    → lookup u (count_entry t id counts) ≢ some []
unfolding count_entry
count_entry-some_id t u id counts h e = ground (
  arith,
  h.some_id u,
  insert-ne-nil id (get_or id 0 (get_or t [] counts) + 1) (get_or t [] counts),
  lookup-insert t u (insert id (get_or id 0 (get_or t [] counts) + 1) (get_or t [] counts)) counts,
)

count_entry-IsTally :
    (t : StateTuple) (id : String) (counts : Counts)
    → IsTally counts
    → IsTally (count_entry t id counts)
count_entry-IsTally t id counts h = record {
  once =
      unfold count_entry in
      insert-HasOneEach t (insert id (tally counts t id + 1) (get_or t [] counts)) counts h.once;
  seen = λ u j. count_entry-seen t u id j counts h;
  some_id = λ u. count_entry-some_id t u id counts h;
}

count_entries-IsTally :
    (es : List (StateTuple × String)) (counts : Counts)
    → IsTally counts
    → IsTally (count_entries es counts)
unfolding count_entries
count_entries-IsTally [] counts h = h
count_entries-IsTally ((t, id) ∷ es) counts h =
    count_entries-IsTally es (count_entry t id counts) (count_entry-IsTally t id counts h)

count_sets-IsTally :
    (order : MapOrder) (sets : List StateMap) (counts : Counts)
    → IsTally counts
    → IsTally (count_sets order sets counts)
unfolding count_sets
count_sets-IsTally order [] counts h = h
count_sets-IsTally order (set ∷ sets) counts h =
    count_sets-IsTally order sets
      (count_entries (entries (order.tuples (suc (length sets)) (keys set)) set) counts)
      (count_entries-IsTally (entries (order.tuples (suc (length sets)) (keys set)) set) counts h)

pub counted-IsTally : (order : MapOrder) (sets : List StateMap) → IsTally (count_sets order sets [])
counted-IsTally order sets = count_sets-IsTally order sets [] (record {
  once = λ t. unfold keys count in omega arith;
  seen = λ t id. unfold get_or lookup keys count in refl;
  some_id = λ t e. unfold lookup in cc e;
})

pub tally-votes :
    (order : MapOrder) (sets : List StateMap) (t : StateTuple) (id : String)
    → AreMaps sets
    → tally (count_sets order sets []) t id ≡ votes t id sets
unfolding get_or lookup
tally-votes order sets t id m = omega (arith, tally-count_sets order t id sets [] m)
