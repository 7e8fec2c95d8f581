-- ===== src/StateRes/Resolve/Steps.antt =====
-- What `Resolve` does to the state: it starts from what the sets agree on and writes only
-- candidates that the check lets pass.
use dragonite.Base.{
  ℕ, ◌≤◌, ◌<◌, String, ◌≡◌, ◌≢◌, ◌∙◌, refl, sym, true, Option, none, some, List, [], ◌∷◌, arith,
  ◌==◌, string_eq, elem, count, elem-count, count-elem, Bool-cases, inl, inr, ◌⊎◌, ap, List-cases,
}
use mathlib.Core.Option.{some-injective}
use mathlib.Core.Path.{subst}
use dragonite.Base.Map.{Map, lookup, insert, copy, lookup-insert, lookup-copy}
use dragonite.Domain.{
  Evento, StateTuple, tuple_eq, tuple_beq_iff, new_state_tuple, StateMap, StateResolutionInput,
  Decoder,
}
use dragonite.StateRes.Partition.{MapOrder, Partition, partition_state}
use dragonite.StateRes.Partition.Votes.{votes, AreMaps}
use dragonite.StateRes.Partition.Decision.{agreed}
use dragonite.StateRes.Partition.Agreement.{
  partition-unconflicted, partition-conflicted, partition-HasOneEach,
}
use dragonite.StateRes.Sort.{sort_events_topologically}
use dragonite.StateRes.Sort.Order.{sort_members}
use dragonite.StateRes.Resolve.{
  Check, conflicted_ids, Phase, phase1, phase2, phase3, ids_of_phase, Accum, apply_known,
  apply_found, apply_event, apply_events, apply_phase, all_events, run_phases, resolve_parts,
  resolve_sets, resolve,
}
use text.Mathlib.TextEquality.{eq_iff}
use dragonite.StateRes.Resolve.Candidates.{
  is_candidate, count-conflicted_ids, candidate_vote, count-ids_of_phase,
}

module _ (check : Check) (events : Map String Evento) (P : StateMap → Type 0) (ids : List String)
    (step : (id : String) (ev : Evento) (state : StateMap)
      → elem id ids ≡ true
      → lookup id events ≡ some ev
      → check ev state events ≡ true
      → P state
      → P (insert (new_state_tuple ev.tipo ev.state_key) id state)) where
  apply_known-keeps :
      (id : String) (ev : Evento) (acc : Accum)
      → elem id ids ≡ true
      → lookup id events ≡ some ev
      → P acc.resolved
      → P (apply_known check events id ev acc).resolved
  unfolding apply_known
  apply_known-keeps id ev acc m found h = elim (Bool-cases (check ev acc.resolved events)) [
    | inl pass ↦ rw pass (step id ev acc.resolved m found pass h)
    | inr fail ↦ rw fail h
  ]

  -- What every authorized write of a candidate keeps, one candidate keeps, and a list of them.
  apply_found-keeps :
      (id : String) (found : Option Evento) (acc : Accum)
      → elem id ids ≡ true
      → lookup id events ≡ found
      → P acc.resolved
      → P (apply_found check events id found acc).resolved
  unfolding apply_found
  apply_found-keeps id none acc m e h = h
  apply_found-keeps id (some ev) acc m e h = apply_known-keeps id ev acc m e h

  apply_events-keeps :
      (todo : List String) (acc : Accum)
      → ((id : String) → elem id todo ≡ true → elem id ids ≡ true)
      → P acc.resolved
      → P (apply_events check events todo acc).resolved
  unfolding apply_events apply_event elem
  apply_events-keeps [] acc within h = h
  apply_events-keeps (id ∷ todo) acc within h =
      apply_events-keeps todo (apply_event check events id acc)
        (λ j m. within j (ground (arith, m)))
        (apply_found-keeps id (lookup id events) acc (within id (ground (arith, eq_iff id id))) refl
          h)

  module _ (d : Decoder) (order : MapOrder) (once : (id : String) → count id ids ≤ 1) where
    sorted_within :
        (visit : List String → List String) (p : Phase) (pl : Option Evento)
        → ((v : String) (ks : List String) → count v (visit ks) ≡ count v ks)
        → (id : String)
        → elem id (sort_events_topologically d visit (ids_of_phase p events ids) events pl) ≡ true
        → elem id ids ≡ true
    sorted_within visit p pl keeps id m = elim (Bool-cases (elem id ids)) [
      | inl y ↦ y
      | inr n ↦ absurd (
          ground (
            arith,
            m,
            count-elem id ids n,
            count-ids_of_phase p events id ids,
            elem-count id (sort_events_topologically d visit (ids_of_phase p events ids) events pl),
            sort_members d visit (ids_of_phase p events ids) events pl
                (λ v. ground (arith, once v, count-ids_of_phase p events v ids)) keeps id,
          ))
    ]

    apply_phase-keeps :
        (n : ℕ) (p : Phase) (acc : Accum)
        → P acc.resolved
        → P (apply_phase d (order.ids n) check events (ids_of_phase p events ids) acc).resolved
    unfolding apply_phase
    apply_phase-keeps n p acc h =
        apply_events-keeps
          (sort_events_topologically d (order.ids n) (ids_of_phase p events ids) events
            acc.pl_event)
          acc (sorted_within (order.ids n) p acc.pl_event (order.ids_keep n)) h

    run_phases-keeps :
        (unconflicted : StateMap)
        → P (copy [] unconflicted)
        → P (run_phases d order check events ids unconflicted).resolved
    unfolding run_phases
    run_phases-keeps unconflicted h =
        apply_phase-keeps 3 phase3 _ (apply_phase-keeps 2 phase2 _ (apply_phase-keeps 1 phase1 _ h))

-- Under a tuple the sets have only events of that tuple.
abbrev pub AreFiled : List StateMap → Map String Evento → Type 0
AreFiled sets events =
    (t : StateTuple) (id : String) (ev : Evento)
    → 0 < votes t id sets
    → lookup id events ≡ some ev
    → new_state_tuple ev.tipo ev.state_key ≡ t

-- The entry is what the sets agree on, or the id of a known event of that tuple that some set has
-- and that the check let pass in some state on the way.
abbrev pub IsJustified : Check → List StateMap → Map String Evento → StateTuple → String → Type 0
IsJustified check sets events t id =
    (agreed t sets ≡ some id)
    ⊎ ((ev : Evento) × (u : StateTuple) × (state : StateMap) × (lookup id events ≡ some ev)
        × (new_state_tuple ev.tipo ev.state_key ≡ t)
        × (0 < votes u id sets)
        × (check ev state events ≡ true))

module _ (d : Decoder) (order : MapOrder) (check : Check) (events : Map String Evento)
    (sets : List StateMap) (maps : AreMaps sets) where
  abbrev parts : Partition
  parts = partition_state order sets

  abbrev candidates : List String
  candidates = conflicted_ids order parts.conflicted sets

  candidates_once : (id : String) → count id candidates ≤ 1
  candidates_once id = ground (arith, count-conflicted_ids order parts.conflicted sets id)

  candidate :
      (id : String) → elem id candidates ≡ true → is_candidate parts.conflicted sets id ≡ true
  candidate id m =
      ground
        (arith, count-conflicted_ids order parts.conflicted sets id, elem-count id candidates, m)

  start : (t : StateTuple) → lookup t (copy [] parts.unconflicted) ≡ agreed t sets
  start t =
      lookup-copy t parts.unconflicted (partition-HasOneEach order sets)
      ∙ partition-unconflicted order sets maps t

  -- No candidate is an event of a tuple on which the sets agree.
  phases_agreed :
      AreFiled sets events
      → (t : StateTuple) (id : String) → agreed t sets ≡ some id
      → lookup t (run_phases d order check events candidates parts.unconflicted).resolved ≡ some id
  phases_agreed filed t id a =
      run_phases-keeps check events (λ state. lookup t state ≡ some id) candidates
        (λ j ev state m found pass h.
          let (u, in_conflict, v) = candidate_vote parts.conflicted sets j (candidate j m) in
          ground (
            arith,
            filed u j ev v found,
            in_conflict,
            h,
            a,
            partition-conflicted order sets maps u,
            tuple_beq_iff u t,
            lookup-insert (new_state_tuple ev.tipo ev.state_key) t j state,
          ))
        d order candidates_once parts.unconflicted (start t ∙ a)

  phases-IsJustified :
      (t : StateTuple) (id : String)
      → lookup t (run_phases d order check events candidates parts.unconflicted).resolved ≡ some id
      → IsJustified check sets events t id
  phases-IsJustified =
      run_phases-keeps check events
        (λ state.
          (t : StateTuple) (id : String)
          → lookup t state ≡ some id
          → IsJustified check sets events t id)
        candidates (λ j ev state m found pass h t id e. written j ev state m found pass h t id e) d
        order candidates_once parts.unconflicted (λ t id e. inl (sym (start t) ∙ e))
    where
      written :
          (j : String) (ev : Evento) (state : StateMap)
          → elem j candidates ≡ true
          → lookup j events ≡ some ev
          → check ev state events ≡ true
          → ((t : StateTuple) (id : String)
              → lookup t state ≡ some id
              → IsJustified check sets events t id)
          → (t : StateTuple) (id : String)
          → lookup t (insert (new_state_tuple ev.tipo ev.state_key) j state) ≡ some id
          → IsJustified check sets events t id
      written j ev state m found pass h t id e =
          elim (Bool-cases (new_state_tuple ev.tipo ev.state_key == t)) [
            | inl here ↦
                let (u, _, v) = candidate_vote parts.conflicted sets j (candidate j m) in
                let same_id : j ≡ id = ground (
                  arith,
                  here,
                  e,
                  lookup-insert (new_state_tuple ev.tipo ev.state_key) t j state,
                ) in
                subst (IsJustified check sets events t) same_id (
                  inr (
                    ev,
                    u,
                    state,
                    found,
                    (tuple_beq_iff (new_state_tuple ev.tipo ev.state_key) t).0 here,
                    v,
                    pass,
                  ))
            | inr other ↦ h t id (
                ground
                  (arith, other, e, lookup-insert (new_state_tuple ev.tipo ev.state_key) t j state))
          ]

  parts-agreed :
      AreFiled sets events
      → (t : StateTuple) (id : String) → agreed t sets ≡ some id
      → lookup t (resolve_parts d order check events sets parts) ≡ some id
  unfolding resolve_parts
  parts-agreed filed t id a = elim (List-cases parts.conflicted) [
    | inl e ↦ ground (arith, e, a, partition-unconflicted order sets maps t)
    | inr (c, cs, e) ↦ ground (arith, e, phases_agreed filed t id a)
  ]

  parts-IsJustified :
      (t : StateTuple) (id : String)
      → lookup t (resolve_parts d order check events sets parts) ≡ some id
      → IsJustified check sets events t id
  unfolding resolve_parts
  parts-IsJustified t id h = elim (List-cases parts.conflicted) [
    | inl e ↦ inl (ground (arith, e, h, partition-unconflicted order sets maps t))
    | inr (c, cs, e) ↦ phases-IsJustified t id (ground (arith, e, h))
  ]

-- What one set has is what all of one set agree on.
agreed_single : (t : StateTuple) (set : StateMap) → agreed t (set ∷ []) ≡ lookup t set
unfolding agreed
agreed_single t set = ground arith

-- `Resolve` fails only without state sets, and else keeps every entry on which all sets agree,
-- provided that the known events stand under their own tuples.
pub resolve_keeps_agreed :
    (d : Decoder) (order : MapOrder) (check : Check) (input : StateResolutionInput)
    → AreMaps input.state_sets
    → AreFiled input.state_sets (all_events input)
    → input.state_sets ≢ []
    → (st : StateMap) × (resolve d order check input ≡ some st)
      × ((t : StateTuple) (id : String)
          → agreed t input.state_sets ≡ some id
          → lookup t st ≡ some id)
unfolding resolve
resolve_keeps_agreed d order check input maps filed = go input.state_sets maps filed
  where
    go :
        (sets : List StateMap)
        → AreMaps sets
        → AreFiled sets (all_events input)
        → sets ≢ []
        → (st : StateMap) × (resolve_sets d order check (all_events input) sets ≡ some st)
          × ((t : StateTuple) (id : String) → agreed t sets ≡ some id → lookup t st ≡ some id)
    go [] m f n = absurd (n refl)
    go (set ∷ []) m f n = (set, refl, λ t id a. sym (agreed_single t set) ∙ a)
    go (set ∷ other ∷ sets) m f n = (
      resolve_parts d order check (all_events input) (set ∷ other ∷ sets)
          (partition_state order (set ∷ other ∷ sets)),
      refl,
      λ t id a. parts-agreed d order check (all_events input) (set ∷ other ∷ sets) m f t id a,
    )

-- Every entry of a resolved state is one on which all sets agree, or a known event of its tuple
-- that some set has and that the check let pass.
pub resolve-IsJustified :
    (d : Decoder) (order : MapOrder) (check : Check) (input : StateResolutionInput) (st : StateMap)
    → AreMaps input.state_sets
    → resolve d order check input ≡ some st
    → (t : StateTuple) (id : String) → lookup t st ≡ some id
    → IsJustified check input.state_sets (all_events input) t id
unfolding resolve
resolve-IsJustified d order check input st maps = go input.state_sets maps
  where
    go :
        (sets : List StateMap)
        → AreMaps sets
        → resolve_sets d order check (all_events input) sets ≡ some st
        → (t : StateTuple) (id : String) → lookup t st ≡ some id
        → IsJustified check sets (all_events input) t id
    go [] m e t id h = absurd (cc)
    go (set ∷ []) m e t id h = inl (agreed_single t set ∙ ground (arith, e, h))
    go (set ∷ other ∷ sets) m e t id h =
        parts-IsJustified d order check (all_events input) (set ∷ other ∷ sets) m t id
          (ap (lookup t) (some-injective _ _ e) ∙ h)
