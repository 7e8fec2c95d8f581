-- ===== src/Tests/Sort.antt =====
-- `sortEventsTopologically` on two topics, the second of which names the first.
use dragonite.Base.{
  ℕ, ◌≤◌, ◌<◌, String, ◌≡◌, refl, sym, true, false, none, some, List, [], ◌∷◌, arith, ◌==◌,
  string_eq, elem, count, if◌then◌else◌, Bool-cases, inl, inr,
}
use dragonite.Domain.{Evento}
use dragonite.Base.Map.{Map, lookup}
use dragonite.StateRes.Sort.{auths_of, sort_run, sort_events_topologically}
use dragonite.StateRes.Sort.Order.{sort_run-ready, sort_topological, sort_dropped, sort_complete}
use dragonite.StateRes.Sort.Deterministic.{IsFiled, sort_deterministic}
use dragonite.Tests.Samples.{
  blank, topic_a, topic_b, events, decoder, levels_event, reversed, count-reversed,
}
use mathlib.Core.Path.{subst}
use text.Mathlib.TextEquality.{eq_iff}

abbrev topics : List String
topics = "$b" ∷ "$a" ∷ []

topics_once : (v : String) → count v topics ≤ 1
unfolding count
topics_once v = ground (arith, eq_iff "$b" v, eq_iff "$a" v, eq_iff "$a" "$b")

topics_sorted :
    sort_events_topologically decoder (λ l. l) topics events (some levels_event) ≡ "$a" ∷ "$b" ∷ []
unfolding sort_events_topologically
topics_sorted = refl

sort_run-ready_example : (sort_run decoder (λ l. l) topics events (some levels_event)).ready ≡ []
sort_run-ready_example =
    sort_run-ready decoder (λ l. l) topics events (some levels_event) topics_once (λ v ks. refl)

sort_topological_example : elem {A = String} "$a" ("$a" ∷ []) ≡ true
unfolding elem auths_of
sort_topological_example =
    sort_topological decoder (λ l. l) topics events (some levels_event) topics_once (λ v ks. refl)
      ("$a" ∷ []) "$b" [] "$a" topics_sorted refl refl

abbrev rank : String → ℕ
rank v = if v == "$b" then 1 else 0

rank_of_topic : (a : String) → elem a ("$c" ∷ "$a" ∷ []) ≡ true → rank a ≡ 0
unfolding elem
rank_of_topic a m =
    ground (arith, eq_iff "$c" a, eq_iff "$a" a, eq_iff a "$b", eq_iff "$c" "$b", eq_iff "$a" "$b")

auths_of_b : auths_of events "$b" ≡ "$c" ∷ "$a" ∷ []
unfolding auths_of
auths_of_b = refl

auths_of_a : auths_of events "$a" ≡ "$c" ∷ "$j" ∷ []
unfolding auths_of
auths_of_a = refl

topic_is : (v : String) → elem v topics ≡ true → (v == "$b") ≡ false → v ≡ "$a"
unfolding elem
topic_is v n c = ground (arith, c, n, eq_iff "$b" v, eq_iff v "$b", eq_iff "$a" v)

neither : (a : String) → elem a ("$c" ∷ "$j" ∷ []) ≡ true → elem a topics ≡ false
unfolding elem
neither a m = ground (
  arith,
  m,
  eq_iff "$c" a,
  eq_iff "$j" a,
  eq_iff "$b" a,
  eq_iff "$a" a,
  eq_iff "$b" "$c",
  eq_iff "$a" "$c",
  eq_iff "$b" "$j",
  eq_iff "$a" "$j",
)

-- Only one of the two topics names a topic.
rank_falls :
    (v a : String)
    → elem v topics ≡ true
    → elem a (auths_of events v) ≡ true
    → elem a topics ≡ true
    → rank a < rank v
rank_falls v a n m k = elim (Bool-cases (v == "$b")) [
  | inl b ↦ ground (arith, b, rank_of_topic a, auths_of_b, m, eq_iff v "$b")
  | inr c ↦ absurd (ground (arith, c, auths_of_a, m, topic_is v n, neither a, eq_iff v "$b", k))
]

sort_complete_example :
    count "$a" (sort_events_topologically decoder (λ l. l) topics events (some levels_event))
    ≡ count "$a" topics
sort_complete_example =
    sort_complete decoder (λ l. l) topics events (some levels_event) topics_once (λ v ks. refl) rank
      rank_falls "$a"

-- An event that names itself.
abbrev circle : Map String Evento
circle = ("$x", record blank { id = "$x"; auth_eventos = "$x" ∷ [] }) ∷ []

x_once : (v : String) → count v ("$x" ∷ []) ≤ 1
unfolding count
x_once v = ground (arith)

filed : (v : String) → elem v topics ≡ true → IsFiled events v
filed v m = elim (Bool-cases (v == "$b")) [
  | inl b ↦
      subst (IsFiled events) (sym ((eq_iff v "$b").0 b)) (unfold lookup in (topic_b, refl, refl))
  | inr c ↦ subst (IsFiled events) (sym (topic_is v m c)) (unfold lookup in (topic_a, refl, refl))
]

same : (v : String) → count v topics ≡ count v ("$a" ∷ "$b" ∷ [])
unfolding count
same v = ground arith

sort_dropped_example :
    (a : String) × (elem a (auths_of circle "$x") ≡ true)
    × (elem {A = String} a ("$x" ∷ []) ≡ true)
    × (elem a (sort_events_topologically decoder (λ l. l) ("$x" ∷ []) circle none) ≡ false)
unfolding elem sort_events_topologically
sort_dropped_example =
    sort_dropped decoder (λ l. l) ("$x" ∷ []) circle none x_once (λ v ks. refl) "$x" refl refl

sort_deterministic_example :
    sort_events_topologically decoder (λ l. l) topics events (some levels_event)
    ≡ sort_events_topologically decoder
        (λ l. reversed l)
        ("$a" ∷ "$b" ∷ [])
        events
        (some levels_event)
sort_deterministic_example =
    sort_deterministic decoder events (some levels_event) topics ("$a" ∷ "$b" ∷ []) topics_once
      filed same (λ l. l) (λ l. reversed l) (λ v ks. refl) (λ v ks. count-reversed v ks)
