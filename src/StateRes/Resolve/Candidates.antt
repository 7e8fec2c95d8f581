-- ===== src/StateRes/Resolve/Candidates.antt =====
-- The candidates of `Resolve`: the ids that some state set has under a conflicted tuple, each once.
use dragonite.Base.{
  ◌<◌, String, ◌≡◌, ◌∙◌, refl, sym, Bool, true, false, ◌||◌, none, some, List, [], ◌∷◌, arith,
  string_eq, elem, count, elem-count, count-elem, one_if, if◌then◌else◌, Bool-cases, Option-cases,
  inl, inr,
}
use dragonite.Base.Map.{Map, keys, lookup, insert, HasOneEach, insert-HasOneEach, elem-keys-insert}
use dragonite.Domain.{Evento, StateTuple, tuple_eq, tuple_beq_iff, StateMap}
use dragonite.StateRes.Partition.{MapOrder}
use dragonite.StateRes.Partition.Votes.{is_id, votes}
use dragonite.StateRes.Resolve.{
  collect_set, collect_ids, conflicted_ids, Phase, phase_beq, phase_of, ids_of_phase,
}
use text.Mathlib.TextEquality.{eq_iff}

-- The set has the id under one of these tuples.
unfoldable pub under : List StateTuple → StateMap → String → Bool
unfolding lookup
under [] set id = false
under (t ∷ ts) set id = is_id id (lookup t set) || under ts set id

unfoldable pub is_candidate : List StateTuple → List StateMap → String → Bool
unfolding under
is_candidate ts [] id = false
is_candidate ts (set ∷ sets) id = under ts set id || is_candidate ts sets id

elem-collect_set :
    (j : String) (ts : List StateTuple) (set : StateMap) (ids : Map String Bool)
    → elem j (keys (collect_set ts set ids)) ≡ (under ts set j || elem j (keys ids))
unfolding collect_set under
elem-collect_set j [] set ids = refl
elem-collect_set j (t ∷ ts) set ids = elim (Option-cases (lookup t set)) [
  | inl missing ↦ ground (arith, missing, elem-collect_set j ts set ids)
  | inr (id, found) ↦
      ground (
        arith,
        found,
        elem-collect_set j ts set (insert id true ids),
        elem-keys-insert id j true ids,
      )
]

elem-collect_ids :
    (j : String) (ts : List StateTuple) (sets : List StateMap) (ids : Map String Bool)
    → elem j (keys (collect_ids ts sets ids)) ≡ (is_candidate ts sets j || elem j (keys ids))
unfolding collect_ids is_candidate
elem-collect_ids j ts [] ids = refl
elem-collect_ids j ts (set ∷ sets) ids =
    ground
      (arith, elem-collect_ids j ts sets (collect_set ts set ids), elem-collect_set j ts set ids)

collect_set-HasOneEach :
    (ts : List StateTuple) (set : StateMap) (ids : Map String Bool)
    → HasOneEach ids
    → HasOneEach (collect_set ts set ids)
unfolding collect_set
collect_set-HasOneEach [] set ids h = h
collect_set-HasOneEach (t ∷ ts) set ids h =
    collect_set-HasOneEach ts set
      (elim (lookup t set) [ none ↦ ids | some id ↦ insert id true ids ])
      (elim (lookup t set)
        as (λ o.
          HasOneEach
            (elim o as (λ _. Map String Bool) [ none ↦ ids | some id ↦ insert id true ids ])) [
              | none ↦ h
              | some id ↦ insert-HasOneEach id true ids h
            ])

collect_ids-HasOneEach :
    (ts : List StateTuple) (sets : List StateMap) (ids : Map String Bool)
    → HasOneEach ids
    → HasOneEach (collect_ids ts sets ids)
unfolding collect_ids
collect_ids-HasOneEach ts [] ids h = h
collect_ids-HasOneEach ts (set ∷ sets) ids h =
    collect_ids-HasOneEach ts sets (collect_set ts set ids) (collect_set-HasOneEach ts set ids h)

-- Each candidate is listed once, and nothing else.
pub count-conflicted_ids :
    (order : MapOrder) (ts : List StateTuple) (sets : List StateMap) (j : String)
    → count j (conflicted_ids order ts sets) ≡ one_if (is_candidate ts sets j)
unfolding conflicted_ids
count-conflicted_ids order ts sets j =
    unfold keys count elem in
    ground (
      arith,
      order.ids_keep 0 j (keys (collect_ids ts sets [])),
      collect_ids-HasOneEach ts sets [] (λ k. omega arith) j,
      elem-collect_ids j ts sets [],
      elem-count j (keys (collect_ids ts sets [])),
      count-elem j (keys (collect_ids ts sets [])),
    )

-- A candidate's tuple, and its vote.
under-some :
    (ts : List StateTuple) (set : StateMap) (id : String)
    → under ts set id ≡ true
    → (t : StateTuple) × (elem t ts ≡ true) × (is_id id (lookup t set) ≡ true)
unfolding under elem
under-some [] set id u = absurd (ground arith)
under-some (t ∷ ts) set id u = elim (Bool-cases (is_id id (lookup t set))) [
  | inl here ↦ (t, ground (arith, tuple_beq_iff t t), here)
  | inr later ↦
      let (s, m, found) = under-some ts set id (ground (arith, later)) in
      (s, ground (arith, m), found)
]

pub candidate_vote :
    (ts : List StateTuple) (sets : List StateMap) (id : String)
    → is_candidate ts sets id ≡ true
    → (t : StateTuple) × (elem t ts ≡ true) × (0 < votes t id sets)
unfolding is_candidate votes
candidate_vote ts [] id c = absurd (ground arith)
candidate_vote ts (set ∷ sets) id c = elim (Bool-cases (under ts set id)) [
  | inl here ↦ let (t, m, found) = under-some ts set id here in (t, m, ground (arith, found))
  | inr later ↦
      let (t, m, v) = candidate_vote ts sets id (ground (arith, later)) in (t, m, omega (arith, v))
]

-- Tuples in another order have the same candidates.
under_of :
    (t : StateTuple) (ts : List StateTuple) (set : StateMap) (id : String)
    → elem t ts ≡ true
    → is_id id (lookup t set) ≡ true
    → under ts set id ≡ true
unfolding under elem
under_of t [] set id m found = absurd (ground arith)
under_of t (s ∷ ts) set id m found = ground (arith, tuple_beq_iff s t, under_of t ts set id)

under-same :
    (ts ts' : List StateTuple) (set : StateMap) (id : String)
    → ((t : StateTuple) → elem t ts ≡ elem t ts')
    → under ts set id ≡ under ts' set id
under-same ts ts' set id same = elim (Bool-cases (under ts set id)) [
  | inl u ↦
      let (t, m, found) = under-some ts set id u in
      u ∙ sym (under_of t ts' set id (sym (same t) ∙ m) found)
  | inr n ↦ elim (Bool-cases (under ts' set id)) [
    | inl u ↦
        let (t, m, found) = under-some ts' set id u in
        under_of t ts set id (same t ∙ m) found ∙ sym u
    | inr n' ↦ n ∙ sym n'
  ]
]

pub is_candidate-same :
    (ts ts' : List StateTuple) (sets : List StateMap) (id : String)
    → ((t : StateTuple) → elem t ts ≡ elem t ts')
    → is_candidate ts sets id ≡ is_candidate ts' sets id
unfolding is_candidate
is_candidate-same ts ts' [] id same = refl
is_candidate-same ts ts' (set ∷ sets) id same =
    ground (arith, under-same ts ts' set id same, is_candidate-same ts ts' sets id same)

-- The ids of a phase are those whose known event belongs to it.
abbrev pub in_phase : Phase → Map String Evento → String → Bool
in_phase p events id = elim (lookup id events) [
  | none ↦ false
  | some ev ↦ phase_beq (phase_of ev.tipo) p
]

pub count-ids_of_phase :
    (p : Phase) (events : Map String Evento) (id : String) (ids : List String)
    → count id (ids_of_phase p events ids) ≡ (if in_phase p events id then count id ids else 0)
unfolding ids_of_phase count
count-ids_of_phase p events id [] = ground arith
count-ids_of_phase p events id (j ∷ ids) = elim (Option-cases (lookup j events)) [
  | inl missing ↦ ground (arith, missing, eq_iff j id, count-ids_of_phase p events id ids)
  | inr (ev, found) ↦ ground (arith, found, eq_iff j id, count-ids_of_phase p events id ids)
]
