-- ===== src/StateRes/Partition/Agreement.antt =====
-- `partitionState` against its description: a tuple is unconflicted exactly when every state set
-- has it with one and the same event, and conflicted when some set has it and that does not hold.
use dragonite.Base.{
  ℕ, ◌<◌, String, ◌≡◌, ◌≢◌, ◌∙◌, refl, sym, ap, Bool, true, false, ◌&&◌, ◌||◌, Option, none, some,
  List, [], ◌∷◌, arith, nat_eq, string_eq, ltb, length, elem, count, elem-count, count-elem, one_if,
  if◌then◌else◌, Bool-cases, Option-cases, inl, inr,
}
use mathlib.Core.Path.{subst}
use dragonite.Base.Map.{
  Map, keys, lookup, get_or, entries, get_or-some, elem-keys-lookup, HasOneEach, insert-HasOneEach,
}
use dragonite.Domain.{StateTuple, tuple_eq, tuple_beq_iff, StateMap}
use dragonite.StateRes.Partition.{
  MapOrder, Counts, Partition, count_sets, judge, judge_all, partition_state,
}
use dragonite.StateRes.Partition.Votes.{votes, tally, AreMaps, counted-IsTally, tally-votes}
use text.Mathlib.TextEquality.{eq_iff}
use dragonite.StateRes.Partition.Decision.{
  agreed, agreed-none, agreed-nonempty, agreed-some, all_have, all_have-votes, is_none,
  judge-conflicted, judge-unconflicted, mentioned, only_vote, or_else, verdict, votes-le,
}

-- What the counters say of a tuple.
ruling : ℕ → Counts → StateTuple → Option String
unfolding verdict lookup
ruling n counts u = elim (lookup u counts) [ none ↦ none | some ids ↦ verdict n ids ]

abbrev is_present : StateTuple → Counts → Bool
is_present u counts = elim (lookup u counts) [ none ↦ false | some _ ↦ true ]

judge_all-unconflicted :
    (n : ℕ) (counts : Counts) (u : StateTuple) (ks : List StateTuple) (p : Partition)
    → lookup u (judge_all n (entries ks counts) p).unconflicted ≡ (
        if elem u ks
        then or_else (ruling n counts u) (lookup u p.unconflicted)
        else lookup u p.unconflicted)
unfolding judge_all entries elem ruling
judge_all-unconflicted n counts u [] p = refl
judge_all-unconflicted n counts u (k ∷ ks) p = elim (Option-cases (lookup k counts)) [
  | inl missing ↦ ground (arith, missing, tuple_beq_iff k u, judge_all-unconflicted n counts u ks p)
  | inr (ids, found) ↦ ground (
    arith,
    found,
    tuple_beq_iff k u,
    judge-unconflicted n k u ids p,
    judge_all-unconflicted n counts u ks (judge n k ids p),
  )
]

judge_all-conflicted :
    (n : ℕ) (counts : Counts) (u : StateTuple) (ks : List StateTuple) (p : Partition)
    → elem u (judge_all n (entries ks counts) p).conflicted
      ≡ (elem u p.conflicted || (elem u ks && (is_present u counts && is_none (ruling n counts u))))
unfolding judge_all entries elem ruling
judge_all-conflicted n counts u [] p = ground arith
judge_all-conflicted n counts u (k ∷ ks) p = elim (Option-cases (lookup k counts)) [
  | inl missing ↦ ground (arith, missing, tuple_beq_iff k u, judge_all-conflicted n counts u ks p)
  | inr (ids, found) ↦ ground (
    arith,
    found,
    tuple_beq_iff k u,
    judge-conflicted n k u ids p,
    judge_all-conflicted n counts u ks (judge n k ids p),
  )
]

-- The counters of one tuple, as the votes for each id.
module _ (u : StateTuple) (sets : List StateMap) where
  abbrev AreVotes : Map String ℕ → Type 0
  AreVotes inner =
      (id : String)
      → (get_or id 0 inner ≡ votes u id sets)
        × (count id (keys inner) ≡ one_if (ltb 0 (votes u id sets)))

  verdict-some :
      (inner : Map String ℕ) (x : String)
      → AreVotes inner
      → 0 < length sets
      → all_have u x sets ≡ true
      → verdict (length sets) inner ≡ some x
  unfolding verdict keys count get_or lookup
  verdict-some [] x h p a = absurd (ground (arith, (h x).1, all_have-votes u x sets))
  verdict-some ((id, c) ∷ []) x h p a =
      ground (arith, (h x).0, (h x).1, all_have-votes u x sets, eq_iff id x)
  verdict-some ((i, c) ∷ (j, e) ∷ inner) x h p a = absurd (
      ground (
        arith,
        (h x).1,
        (h i).1,
        (h j).1,
        only_vote u x i sets a,
        only_vote u x j sets a,
        eq_iff i i,
        eq_iff j j,
        eq_iff i x,
        eq_iff j x,
        eq_iff i j,
        eq_iff j i,
      ))

  verdict-none :
      (inner : Map String ℕ)
      → AreVotes inner
      → ((id : String) → all_have u id sets ≡ false)
      → verdict (length sets) inner ≡ none
  unfolding verdict keys count get_or lookup
  verdict-none [] h a = refl
  verdict-none ((id, c) ∷ []) h a =
      ground (arith, a id, (h id).0, all_have-votes u id sets, eq_iff id id)
  verdict-none (i ∷ j ∷ inner) h a = refl

mentioned-votes :
    (u : StateTuple) (sets : List StateMap)
    → mentioned u sets ≡ true
    → (id : String) × (0 < votes u id sets)
unfolding mentioned votes
mentioned-votes u [] m = absurd (ground arith)
mentioned-votes u (set ∷ sets) m = elim (Option-cases (lookup u set)) [
  | inl missing ↦
      let (id, v) = mentioned-votes u sets (ground (arith, missing)) in
      (id, ground (arith, missing, v))
  | inr (id, found) ↦ (id, ground (arith, found, eq_iff id id))
]

votes-mentioned :
    (u : StateTuple) (id : String) (sets : List StateMap)
    → 0 < votes u id sets
    → mentioned u sets ≡ true
unfolding mentioned votes
votes-mentioned u id [] v = absurd (omega arith)
votes-mentioned u id (set ∷ sets) v = ground (arith, votes-mentioned u id sets)

-- `sets` are the contents of Go maps: none has a tuple twice.
module _ (order : MapOrder) (sets : List StateMap) (maps : AreMaps sets) (u : StateTuple) where
  abbrev counts : Counts
  counts = count_sets order sets []

  counts-AreVotes : AreVotes u sets (get_or u [] counts)
  counts-AreVotes id =
      let same : tally counts u id ≡ votes u id sets = tally-votes order sets u id maps in
      (same, rw (← same) ((counted-IsTally order sets).seen u id))

  first_seen :
      (inner : Map String ℕ)
      → AreVotes u sets inner
      → inner ≢ []
      → (id : String) × (0 < votes u id sets)
  unfolding keys count
  first_seen [] h n = absurd (n refl)
  first_seen ((id, c) ∷ inner) h n = (id, ground (arith, (h id).1, eq_iff id id))

  inner-AreVotes : (inner : Map String ℕ) → lookup u counts ≡ some inner → AreVotes u sets inner
  inner-AreVotes inner found =
      subst (AreVotes u sets) (get_or-some u [] counts found) counts-AreVotes

  -- A tuple with counters has a vote.
  inner_vote :
      (inner : Map String ℕ) → lookup u counts ≡ some inner → (id : String) × (0 < votes u id sets)
  inner_vote inner found =
      first_seen inner (inner-AreVotes inner found)
        (λ e. (counted-IsTally order sets).some_id u (found ∙ ap some e))

  present_mentioned : is_present u counts ≡ mentioned u sets
  unfolding get_or
  present_mentioned = elim (Option-cases (lookup u counts)) [
    | inl missing ↦ elim (Bool-cases (mentioned u sets)) [
      | inl m ↦
          let (id, v) = mentioned-votes u sets m in
          absurd (unfold lookup in ground (arith, missing, v, (counts-AreVotes id).0))
      | inr n ↦ ground (arith, missing, n)
    ]
    | inr (inner, found) ↦
        let (id, v) = inner_vote inner found in ground (arith, found, votes-mentioned u id sets v)
  ]

  -- With no counters there is no vote, and with counters the verdict is the agreement.
  ruling-some : (x : String) → agreed u sets ≡ some x → ruling (length sets) counts u ≡ some x
  unfolding ruling get_or
  ruling-some x a = elim (Option-cases (lookup u counts)) [
    | inl missing ↦ absurd (
        unfold lookup in
        ground (
          arith,
          missing,
          (counts-AreVotes x).0,
          all_have-votes u x sets,
          agreed-some u x sets a,
          agreed-nonempty u x sets a,
        ))
    | inr (inner, found) ↦
        let votes_here : AreVotes u sets inner = inner-AreVotes inner found in
        ground (
          arith,
          found,
          verdict-some u sets inner x votes_here (agreed-nonempty u x sets a)
              (agreed-some u x sets a),
        )
  ]

  ruling-none : agreed u sets ≡ none → ruling (length sets) counts u ≡ none
  unfolding ruling get_or
  ruling-none a = elim (Option-cases (lookup u counts)) [
    | inl missing ↦ ground (arith, missing)
    | inr (inner, found) ↦
        let (id, v) = inner_vote inner found in
        let some_sets : 0 < length sets = omega (arith, votes-le u id sets) in
        ground (
          arith,
          found,
          verdict-none u sets inner (inner-AreVotes inner found)
              (λ j. agreed-none u j sets some_sets a),
        )
  ]

  ruling-agreed : ruling (length sets) counts u ≡ agreed u sets
  ruling-agreed = elim (Option-cases (agreed u sets)) [
    | inl a ↦ ruling-none a ∙ sym a
    | inr (x, a) ↦ ruling-some x a ∙ sym a
  ]

  -- The counters' keys are all ranged over.
  abbrev range_keys : List StateTuple
  range_keys = order.tuples 0 (keys counts)

  in_range : elem u range_keys ≡ is_present u counts
  in_range = ground (
    arith,
    order.tuples_keep 0 u (keys counts),
    elem-keys-lookup u counts,
    elem-count u (keys counts),
    count-elem u (keys counts),
    elem-count u (order.tuples 0 (keys counts)),
    count-elem u (order.tuples 0 (keys counts)),
  )

  -- A tuple is unconflicted exactly when all sets have it with one and the same event, and that
  -- is its event.
  pub partition-unconflicted : lookup u (partition_state order sets).unconflicted ≡ agreed u sets
  unfolding partition_state lookup ruling
  partition-unconflicted = ground (
    arith,
    in_range,
    ruling-agreed,
    judge_all-unconflicted (length sets) counts u range_keys
        (record { unconflicted = []; conflicted = [] }),
  )

  -- A tuple is conflicted exactly when some set has it and the sets do not agree on it.
  pub partition-conflicted :
      elem u (partition_state order sets).conflicted ≡ (mentioned u sets && is_none (agreed u sets))
  unfolding partition_state elem ruling
  partition-conflicted = ground (
    arith,
    in_range,
    ruling-agreed,
    present_mentioned,
    judge_all-conflicted (length sets) counts u range_keys
        (record { unconflicted = []; conflicted = [] }),
  )

judge-HasOneEach :
    (n : ℕ) (t : StateTuple) (ids : Map String ℕ) (p : Partition)
    → HasOneEach p.unconflicted
    → HasOneEach (judge n t ids p).unconflicted
unfolding judge
judge-HasOneEach n t [] p h k = ground (arith, h k)
judge-HasOneEach n t ((id, c) ∷ []) p h k =
    ground (arith, h k, insert-HasOneEach t id p.unconflicted h k)
judge-HasOneEach n t (a ∷ b ∷ ids) p h k = ground (arith, h k)

judge_all-HasOneEach :
    (n : ℕ) (es : List (StateTuple × Map String ℕ)) (p : Partition)
    → HasOneEach p.unconflicted
    → HasOneEach (judge_all n es p).unconflicted
unfolding judge_all
judge_all-HasOneEach n [] p h = h
judge_all-HasOneEach n ((t, ids) ∷ es) p h =
    judge_all-HasOneEach n es (judge n t ids p) (judge-HasOneEach n t ids p h)

pub partition-HasOneEach :
    (order : MapOrder) (sets : List StateMap) → HasOneEach (partition_state order sets).unconflicted
unfolding partition_state
partition-HasOneEach order sets =
    judge_all-HasOneEach (length sets)
      (entries (order.tuples 0 (keys (count_sets order sets []))) (count_sets order sets []))
      (record { unconflicted = []; conflicted = [] }) (λ k. unfold keys count in omega arith)
