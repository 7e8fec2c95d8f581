-- ===== src/StateRes/Partition/Decision.antt =====
-- What the loop of `partitionState` decides of a tuple from its counters.
use dragonite.Base.{
  ℕ, ◌≤◌, ◌<◌, String, ◌≡◌, refl, Bool, true, false, ◌&&◌, ◌||◌, Option, none, some, List, [], ◌∷◌,
  arith, ◌==◌, nat_eq, nat_beq, string_eq, length, elem, elem-append, if◌then◌else◌, Option-cases,
  inl, inr,
}
use dragonite.Base.Map.{Map, lookup, lookup-insert}
use dragonite.Domain.{StateTuple, tuple_eq, StateMap}
use dragonite.StateRes.Partition.{Partition, judge}
use dragonite.StateRes.Partition.Votes.{is_id, votes}
use text.Mathlib.TextEquality.{eq_iff}

-- Every set has the tuple with this id.
unfoldable pub all_have : StateTuple → String → List StateMap → Bool
unfolding lookup
all_have t id [] = true
all_have t id (set ∷ sets) = is_id id (lookup t set) && all_have t id sets

-- The one id that all sets have under the tuple.
unfoldable pub agreed : StateTuple → List StateMap → Option String
unfolding all_have
agreed t [] = none
agreed t (set ∷ sets) = elim (lookup t set) [
  | none ↦ none
  | some id ↦ if all_have t id sets then some id else none
]

-- Some set has the tuple.
unfoldable pub mentioned : StateTuple → List StateMap → Bool
unfolding lookup
mentioned t [] = false
mentioned t (set ∷ sets) = elim (lookup t set) [ none ↦ mentioned t sets | some _ ↦ true ]

pub votes-le : (t : StateTuple) (id : String) (sets : List StateMap) → votes t id sets ≤ length sets
unfolding votes
votes-le t id [] = omega arith
votes-le t id (set ∷ sets) = ground (arith, votes-le t id sets)

pub all_have-votes :
    (t : StateTuple) (id : String) (sets : List StateMap)
    → all_have t id sets ≡ nat_beq (votes t id sets) (length sets)
unfolding votes all_have
all_have-votes t id [] = refl
all_have-votes t id (set ∷ sets) = ground (arith, all_have-votes t id sets, votes-le t id sets)

-- Where all sets have one id, no other has a vote.
pub only_vote :
    (t : StateTuple) (id j : String) (sets : List StateMap)
    → all_have t id sets ≡ true
    → 0 < votes t j sets
    → j ≡ id
unfolding votes all_have
only_vote t id j [] h v = absurd (omega arith)
only_vote t id j (set ∷ sets) h v = elim (Option-cases (lookup t set)) [
  | inl missing ↦ ground (arith, missing)
  | inr (x, found) ↦ ground (arith, found, only_vote t id j sets, eq_iff x id, eq_iff x j)
]

pub agreed-some :
    (t : StateTuple) (id : String) (sets : List StateMap)
    → agreed t sets ≡ some id
    → all_have t id sets ≡ true
unfolding agreed
agreed-some t id [] h = cc
agreed-some t id (set ∷ sets) h = ground (arith, eq_iff id id)

pub agreed-nonempty :
    (t : StateTuple) (id : String) (sets : List StateMap)
    → agreed t sets ≡ some id
    → 0 < length sets
unfolding agreed
agreed-nonempty t id [] h = cc
agreed-nonempty t id (set ∷ sets) h = omega arith

pub agreed-none :
    (t : StateTuple) (id : String) (sets : List StateMap)
    → 0 < length sets
    → agreed t sets ≡ none
    → all_have t id sets ≡ false
unfolding agreed
agreed-none t id [] p h = absurd (omega arith)
agreed-none t id (set ∷ sets) p h = elim (Option-cases (lookup t set)) [
  | inl missing ↦ ground (arith, missing)
  | inr (x, found) ↦ ground (arith, found, eq_iff x id)
]

-- What the loop decides of one tuple from its counters.
unfoldable pub verdict : ℕ → Map String ℕ → Option String
verdict n [] = none
verdict n ((id, c) ∷ []) = if c == n then some id else none
verdict n (_ ∷ _ ∷ _) = none

abbrev pub or_else : Option String → Option String → Option String
or_else none o = o
or_else (some x) o = some x

abbrev pub is_none : Option String → Bool
is_none none = true
is_none (some _) = false

pub judge-unconflicted :
    (n : ℕ) (t u : StateTuple) (ids : Map String ℕ) (p : Partition)
    → lookup u (judge n t ids p).unconflicted ≡ (
        if t == u
        then or_else (verdict n ids) (lookup u p.unconflicted)
        else lookup u p.unconflicted)
unfolding judge verdict
judge-unconflicted n t u [] p = ground arith
judge-unconflicted n t u ((id, c) ∷ []) p = ground (arith, lookup-insert t u id p.unconflicted)
judge-unconflicted n t u (a ∷ b ∷ ids) p = ground arith

pub judge-conflicted :
    (n : ℕ) (t u : StateTuple) (ids : Map String ℕ) (p : Partition)
    → elem u (judge n t ids p).conflicted
      ≡ (elem u p.conflicted || (t == u && is_none (verdict n ids)))
unfolding judge verdict elem
judge-conflicted n t u [] p = ground (arith, elem-append u p.conflicted (t ∷ []))
judge-conflicted n t u ((id, c) ∷ []) p = ground (arith, elem-append u p.conflicted (t ∷ []))
judge-conflicted n t u (a ∷ b ∷ ids) p = ground (arith, elem-append u p.conflicted (t ∷ []))
