-- ===== src/StateRes/Resolve/Deterministic.antt =====
-- `Resolve` gives the same state however Go visits its maps.
use dragonite.Base.{
  ℕ, ◌≤◌, String, ◌≡◌, ◌∙◌, refl, sym, true, Option, none, some, List, [], ◌∷◌, arith, string_eq,
  elem, count, elem-count, Bool-cases, Option-cases, List-cases, inl, inr, ap,
}
use dragonite.Base.Map.{Map, lookup, copy, lookup-insert, lookup-copy}
use dragonite.Domain.{
  Evento, StateTuple, tuple_eq, tuple_beq_iff, new_state_tuple, StateMap, StateResolutionInput,
  Decoder,
}
use dragonite.StateRes.Partition.{MapOrder, Partition, partition_state}
use dragonite.StateRes.Partition.Votes.{AreMaps}
use dragonite.StateRes.Partition.Agreement.{
  partition-unconflicted, partition-conflicted, partition-HasOneEach,
}
use dragonite.StateRes.Sort.{sort_events_topologically}
use dragonite.StateRes.Sort.Deterministic.{IsFiled, sort_deterministic}
use dragonite.StateRes.Resolve.{
  Check, conflicted_ids, Phase, phase1, phase2, phase3, ids_of_phase, Accum, apply_known,
  apply_found, apply_event, apply_events, apply_phase, unconflicted_levels, all_events, run_phases,
  resolve_parts, resolve_sets, resolve,
}
use dragonite.StateRes.Resolve.Candidates.{
  is_candidate-same, count-conflicted_ids, count-ids_of_phase,
}

-- States with the same entries, and the same reference power levels.
record SameAccum (a b : Accum) : Type 0 where
  entries : (t : StateTuple) → lookup t a.resolved ≡ lookup t b.resolved
  levels : a.pl_event ≡ b.pl_event

module _ (check : Check) (events : Map String Evento)
    (reads : (ev : Evento) (s s' : StateMap)
      → ((t : StateTuple) → lookup t s ≡ lookup t s')
      → check ev s events ≡ check ev s' events) where
  apply_known-same :
      (id : String) (ev : Evento) (a b : Accum)
      → SameAccum a b
      → SameAccum (apply_known check events id ev a) (apply_known check events id ev b)
  unfolding apply_known
  apply_known-same id ev a b h = elim (Bool-cases (check ev a.resolved events)) [
    | inl pass ↦ record {
      entries = λ t. ground (
        arith,
        pass,
        reads ev a.resolved b.resolved h.entries,
        h.entries t,
        lookup-insert (new_state_tuple ev.tipo ev.state_key) t id a.resolved,
        lookup-insert (new_state_tuple ev.tipo ev.state_key) t id b.resolved,
      );
      levels = ground (arith, pass, reads ev a.resolved b.resolved h.entries, h.levels);
    }
    | inr fail ↦ record {
      entries = λ t. ground (arith, fail, reads ev a.resolved b.resolved h.entries, h.entries t);
      levels = ground (arith, fail, reads ev a.resolved b.resolved h.entries, h.levels);
    }
  ]

  apply_found-same :
      (id : String) (found : Option Evento) (a b : Accum)
      → SameAccum a b
      → SameAccum (apply_found check events id found a) (apply_found check events id found b)
  unfolding apply_found
  apply_found-same id none a b h = h
  apply_found-same id (some ev) a b h = apply_known-same id ev a b h

  apply_events-same :
      (ids : List String) (a b : Accum)
      → SameAccum a b
      → SameAccum (apply_events check events ids a) (apply_events check events ids b)
  unfolding apply_events apply_event
  apply_events-same [] a b h = h
  apply_events-same (id ∷ ids) a b h =
      apply_events-same ids (apply_event check events id a) (apply_event check events id b)
        (apply_found-same id (lookup id events) a b h)

  module _ (d : Decoder)
      (named : (id : String) (ev : Evento) → lookup id events ≡ some ev → ev.id ≡ id)
      (ids ids' : List String) (once : (v : String) → count v ids ≤ 1)
      (same : (v : String) → count v ids ≡ count v ids') where
    phase-IsFiled :
        (p : Phase) (v : String) → elem v (ids_of_phase p events ids) ≡ true → IsFiled events v
    phase-IsFiled p v m = elim (Option-cases (lookup v events)) [
      | inl missing ↦ absurd (
          ground (
            arith,
            missing,
            m,
            count-ids_of_phase p events v ids,
            elem-count v (ids_of_phase p events ids),
          ))
      | inr (ev, found) ↦ (ev, found, named v ev found)
    ]

    apply_phase-same :
        (order order' : MapOrder) (n : ℕ) (p : Phase) (a b : Accum)
        → SameAccum a b
        → SameAccum
            (apply_phase d (order.ids n) check events (ids_of_phase p events ids) a)
            (apply_phase d (order'.ids n) check events (ids_of_phase p events ids') b)
    unfolding apply_phase
    apply_phase-same order order' n p a b h = rw (← sorted) (
        apply_events-same
          (sort_events_topologically d (order.ids n) (ids_of_phase p events ids) events a.pl_event)
          a b h)
      where
        sorted :
            sort_events_topologically d (order.ids n) (ids_of_phase p events ids) events a.pl_event
            ≡ sort_events_topologically d
                (order'.ids n)
                (ids_of_phase p events ids')
                events
                b.pl_event
        sorted =
            sort_deterministic d events a.pl_event (ids_of_phase p events ids)
              (ids_of_phase p events ids')
              (λ v. ground (arith, once v, count-ids_of_phase p events v ids)) (phase-IsFiled p)
              (λ v. ground (
                arith,
                same v,
                count-ids_of_phase p events v ids,
                count-ids_of_phase p events v ids',
              ))
              (order.ids n) (order'.ids n) (order.ids_keep n) (order'.ids_keep n)
            ∙ ap (sort_events_topologically d (order'.ids n) (ids_of_phase p events ids') events)
                h.levels

    run_phases-same :
        (order order' : MapOrder) (s s' : StateMap)
        → ((t : StateTuple) → lookup t (copy [] s) ≡ lookup t (copy [] s'))
        → unconflicted_levels s events ≡ unconflicted_levels s' events
        → (t : StateTuple)
        → lookup t (run_phases d order check events ids s).resolved
          ≡ lookup t (run_phases d order' check events ids' s').resolved
    unfolding run_phases
    run_phases-same order order' s s' h k =
        (apply_phase-same order order' 3 phase3 _ _ (
          apply_phase-same order order' 2 phase2 _ _ (
            apply_phase-same order order' 1 phase1 _ _
              (record { entries = h; levels = k })))).entries

  module _ (d : Decoder)
      (named : (id : String) (ev : Evento) → lookup id events ≡ some ev → ev.id ≡ id)
      (order order' : MapOrder) (sets : List StateMap) (maps : AreMaps sets) where
    abbrev parts : Partition
    parts = partition_state order sets

    abbrev parts' : Partition
    parts' = partition_state order' sets

    same_unconflicted :
        (t : StateTuple) → lookup t parts.unconflicted ≡ lookup t parts'.unconflicted
    same_unconflicted t =
        partition-unconflicted order sets maps t ∙ sym (partition-unconflicted order' sets maps t)

    same_conflicted : (t : StateTuple) → elem t parts.conflicted ≡ elem t parts'.conflicted
    same_conflicted t =
        partition-conflicted order sets maps t ∙ sym (partition-conflicted order' sets maps t)

    same_candidates :
        (v : String)
        → count v (conflicted_ids order parts.conflicted sets)
          ≡ count v (conflicted_ids order' parts'.conflicted sets)
    same_candidates v = ground (
      arith,
      count-conflicted_ids order parts.conflicted sets v,
      count-conflicted_ids order' parts'.conflicted sets v,
      is_candidate-same parts.conflicted parts'.conflicted sets v same_conflicted,
    )

    same_phases :
        (t : StateTuple)
        → lookup t
            (run_phases d order check events
              (conflicted_ids order parts.conflicted sets)
              parts.unconflicted).resolved
          ≡ lookup t
              (run_phases d order' check events
                (conflicted_ids order' parts'.conflicted sets)
                parts'.unconflicted).resolved
    same_phases =
        run_phases-same d named (conflicted_ids order parts.conflicted sets)
          (conflicted_ids order' parts'.conflicted sets)
          (λ v. ground (arith, count-conflicted_ids order parts.conflicted sets v)) same_candidates
          order order' parts.unconflicted parts'.unconflicted
          (λ t.
            lookup-copy t parts.unconflicted (partition-HasOneEach order sets)
            ∙ same_unconflicted t
            ∙ sym (lookup-copy t parts'.unconflicted (partition-HasOneEach order' sets)))
          (unfold unconflicted_levels in
            ground (
              arith,
              same_unconflicted (record { event_type = "m.room.power_levels"; state_key = "" }),
            ))

    resolve_parts-same :
        (t : StateTuple)
        → lookup t (resolve_parts d order check events sets parts)
          ≡ lookup t (resolve_parts d order' check events sets parts')
    unfolding resolve_parts elem
    resolve_parts-same t = elim (List-cases parts.conflicted) [
      | inl e ↦ elim (List-cases parts'.conflicted) [
        | inl e' ↦ ground (arith, e, e', same_unconflicted t)
        | inr (c, cs, e') ↦ absurd (ground (arith, e, e', same_conflicted c, tuple_beq_iff c c))
      ]
      | inr (c, cs, e) ↦ elim (List-cases parts'.conflicted) [
        | inl e' ↦ absurd (ground (arith, e, e', same_conflicted c, tuple_beq_iff c c))
        | inr (c', cs', e') ↦ ground (arith, e, e', same_phases t)
      ]
    ]

-- The entries of two results, or of none.
abbrev pub SameResult : Option StateMap → Option StateMap → Type 0
SameResult none none = Unit
SameResult none (some _) = ⊥
SameResult (some _) none = ⊥
SameResult (some s) (some s') = (t : StateTuple) → lookup t s ≡ lookup t s'

-- Two runs of `Resolve` on one input in which Go visits the maps in different orders have the
-- same outcome, with the same entries, provided that the known events are filed under their ids
-- and that the check reads a state only through its entries.
pub resolve_deterministic :
    (d : Decoder) (order order' : MapOrder) (check : Check) (input : StateResolutionInput)
    → AreMaps input.state_sets
    → ((id : String) (ev : Evento) → lookup id (all_events input) ≡ some ev → ev.id ≡ id)
    → ((ev : Evento) (s s' : StateMap)
        → ((t : StateTuple) → lookup t s ≡ lookup t s')
        → check ev s (all_events input) ≡ check ev s' (all_events input))
    → SameResult (resolve d order check input) (resolve d order' check input)
unfolding resolve
resolve_deterministic d order order' check input maps named reads = go input.state_sets maps
  where
    go :
        (sets : List StateMap)
        → AreMaps sets
        → SameResult
            (resolve_sets d order check (all_events input) sets)
            (resolve_sets d order' check (all_events input) sets)
    go [] m = tt
    go (set ∷ []) m = λ t. refl
    go (set ∷ other ∷ sets) m =
        resolve_parts-same check (all_events input) reads d named order order' (set ∷ other ∷ sets)
          m
