-- ===== src/Tests/Resolve.antt =====
-- `partitionState` and `Resolve` on two sets that disagree on the topic.
use dragonite.Base.{
  ◌≤◌, ◌<◌, String, ◌≡◌, ◌⊎◌, inl, inr, refl, sym, ap, ◌∙◌, ◌&&◌, some, [], ◌∷◌, arith, string_eq,
  elem, count,
}
use dragonite.Base.Map.{lookup, copy, keys}
use dragonite.Domain.{
  Evento, StateTuple, tuple_eq, tuple_beq_iff, new_state_tuple, StateMap, StateResolutionInput,
}
use dragonite.Auth.{
  check_auth, authorize, is_joined, get_state_event, state_requirement, get_user_power_level,
}
use dragonite.Auth.Rules.{check_auth-same}
use dragonite.StateRes.Partition.{partition_state}
use dragonite.StateRes.Partition.Votes.{AreMaps, votes}
use dragonite.StateRes.Partition.Decision.{agreed, mentioned, is_none}
use dragonite.StateRes.Partition.Agreement.{partition-unconflicted, partition-conflicted}
use dragonite.StateRes.Resolve.{Check, all_events, resolve}
use dragonite.StateRes.Resolve.Steps.{
  AreFiled, IsJustified, resolve_keeps_agreed, resolve-IsJustified,
}
use dragonite.StateRes.Resolve.Deterministic.{SameResult, resolve_deterministic}
use dragonite.Tests.Samples.{
  join_event, levels_event, topic_a, topic_b, events, decoder, forwards, backwards, topic, joined,
  levels, sets,
}
use text.Mathlib.TextEquality.{eq_iff}

abbrev check : Check
check ev state known = check_auth decoder ev state known

abbrev input : StateResolutionInput
input = record { room_id = "!r:x"; state_sets = sets; auth_events_map = []; events_map = events }

once : (k : StateTuple) → count k (joined ∷ levels ∷ topic ∷ []) ≤ 1
unfolding count
once k = ground (
  arith,
  tuple_beq_iff joined k,
  tuple_beq_iff levels k,
  tuple_beq_iff topic k,
  tuple_beq_iff joined levels,
  tuple_beq_iff joined topic,
  tuple_beq_iff levels topic,
)

sets-AreMaps : AreMaps sets
unfolding keys count
sets-AreMaps = (once, (once, tt))

partition-unconflicted_example :
    lookup joined (partition_state forwards sets).unconflicted ≡ agreed joined sets
partition-unconflicted_example = partition-unconflicted forwards sets sets-AreMaps joined

partition-conflicted_example :
    elem topic (partition_state backwards sets).conflicted
    ≡ (mentioned topic sets && is_none (agreed topic sets))
partition-conflicted_example = partition-conflicted backwards sets sets-AreMaps topic

known : all_events input ≡ events
unfolding all_events copy
known = refl

named : (id : String) (ev : Evento) → lookup id (all_events input) ≡ some ev → ev.id ≡ id
unfolding lookup
named id ev h = go id ev (ap (lookup id) (sym known) ∙ h)
  where
    go : (id : String) (ev : Evento) → lookup id events ≡ some ev → ev.id ≡ id
    go id ev h =
        ground
          (arith, eq_iff "$c" id, eq_iff "$p" id, eq_iff "$j" id, eq_iff "$a" id, eq_iff "$b" id)

-- Who is where in the two sets.
vote_of :
    (t : StateTuple) (id : String)
    → 0 < votes t id sets
    → ((t ≡ joined) × (id ≡ "$j"))
      ⊎ ((t ≡ levels) × (id ≡ "$p"))
      ⊎ ((t ≡ topic) × (id ≡ "$a"))
      ⊎ ((t ≡ topic) × (id ≡ "$b"))
unfolding lookup votes
vote_of t id v = ground (
  arith,
  eq_iff "$p" id,
  eq_iff "$j" id,
  eq_iff "$a" id,
  eq_iff "$b" id,
  tuple_beq_iff joined t,
  tuple_beq_iff levels t,
  tuple_beq_iff topic t,
)

filed_at :
    (t u : StateTuple) (id j : String) (w ev : Evento)
    → t ≡ u
    → id ≡ j
    → lookup j events ≡ some w
    → new_state_tuple w.tipo w.state_key ≡ u
    → lookup id events ≡ some ev
    → new_state_tuple ev.tipo ev.state_key ≡ t
filed_at t u id j w ev e f g h k = ground (arith, e, f, g, h, k)

filed : AreFiled sets (all_events input)
unfolding lookup new_state_tuple
filed t id ev v h = elim (vote_of t id v) [
  | inl (e, f) ↦
      filed_at t joined id "$j" join_event ev e f refl refl (ap (lookup id) (sym known) ∙ h)
  | inr (inl (e, f)) ↦
      filed_at t levels id "$p" levels_event ev e f refl refl (ap (lookup id) (sym known) ∙ h)
  | inr (inr (inl (e, f))) ↦
      filed_at t topic id "$a" topic_a ev e f refl refl (ap (lookup id) (sym known) ∙ h)
  | inr (inr (inr (e, f))) ↦
      filed_at t topic id "$b" topic_b ev e f refl refl (ap (lookup id) (sym known) ∙ h)
]

resolve_keeps_agreed_example :
    (st : StateMap) × (resolve decoder forwards check input ≡ some st)
    × ((t : StateTuple) (id : String) → agreed t sets ≡ some id → lookup t st ≡ some id)
resolve_keeps_agreed_example =
    resolve_keeps_agreed decoder forwards check input sets-AreMaps filed (λ e. absurd cc)

abbrev resolved : StateMap
resolved = (joined, "$j") ∷ (levels, "$p") ∷ (topic, "$b") ∷ []

resolve-IsJustified_example : IsJustified check sets (all_events input) topic "$b"
unfolding resolve lookup check_auth authorize is_joined get_state_event state_requirement
    get_user_power_level
resolve-IsJustified_example =
    resolve-IsJustified decoder forwards check input resolved sets-AreMaps refl topic "$b" refl

resolve_deterministic_example :
    SameResult (resolve decoder forwards check input) (resolve decoder backwards check input)
resolve_deterministic_example =
    resolve_deterministic decoder forwards backwards check input sets-AreMaps named
      (λ ev s s' same. check_auth-same decoder ev s s' (all_events input) same)
