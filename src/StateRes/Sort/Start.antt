-- ===== src/StateRes/Sort/Start.antt =====
-- What the loop of `sortEventsTopologically` starts from.
use dragonite.Base.{
  ◌≤◌, String, ◌≡◌, ◌∙◌, Bool, true, false, none, some, List, [], arith, string_eq, elem, count,
  elem-count, count-elem, one_if,
}
use dragonite.Base.Int.{pos}
use dragonite.Base.Map.{Map, keys, lookup, get_or, elem-keys-lookup}
use dragonite.Domain.{Evento}
use dragonite.StateRes.Sort.{Links, auths_of, build_graph, links_of}
use dragonite.StateRes.Sort.Graph.{
  Within-self, build_graph-HasDegrees, build_graph-HasOneEach, build_graph-edges,
  build_graph-in_degree, edges, init_degrees-HasDegrees, init_degrees-HasOneEach,
  lookup-init_degrees, pending, start_links,
}

-- What the loop starts from: each event's degree counts its auth events among the events.
pub links_of-in_degree :
    (events : Map String Evento) (ids : List String) (v : String)
    → elem v ids ≡ true
    → count v ids ≤ 1
    → lookup v (links_of events ids).in_degree ≡ some (pos (pending ids [] (auths_of events v)))
unfolding links_of
links_of-in_degree events ids v m one = grind (
  arith,
  elem-count v ids,
  build_graph-in_degree events ids ids v (start_links ids) 0 (Within-self ids)
      (init_degrees-HasDegrees ids) (lookup-init_degrees ids [] v ∙ rw m),
)

-- An event stands behind another's edges as often as it names that one as an auth event.
pub links_of-edges :
    (events : Map String Evento) (ids : List String) (u v : String)
    → elem v ids ≡ true
    → count v ids ≤ 1
    → elem u ids ≡ true
    → count v (edges (links_of events ids) u) ≡ count u (auths_of events v)
unfolding links_of get_or lookup count
links_of-edges events ids u v m one k = grind (
  arith,
  elem-count v ids,
  build_graph-edges events ids ids u v (start_links ids) (Within-self ids)
      (init_degrees-HasDegrees ids),
)

-- Nothing that is not to be sorted stands behind an edge.
pub links_of-edges_foreign :
    (events : Map String Evento) (ids : List String) (u v : String)
    → elem v ids ≡ false
    → count v (edges (links_of events ids) u) ≡ 0
unfolding links_of get_or lookup count
links_of-edges_foreign events ids u v m = grind (
  arith,
  count-elem v ids,
  build_graph-edges events ids ids u v (start_links ids) (Within-self ids)
      (init_degrees-HasDegrees ids),
)

-- The keys of the degrees are the events, each once.
pub count-keys-links_of :
    (events : Map String Evento) (ids : List String) (k : String)
    → count k (keys (links_of events ids).in_degree) ≡ one_if (elem k ids)
unfolding links_of
count-keys-links_of events ids k = ground (
  arith,
  keys_once,
  has_degrees,
  elem-keys-lookup k links.in_degree,
  elem-count k (keys links.in_degree),
  count-elem k (keys links.in_degree),
)
  where
    links : Links
    links = build_graph events ids (start_links ids)

    keys_once : count k (keys links.in_degree) ≤ 1
    keys_once =
        build_graph-HasOneEach events ids (start_links ids)
          (init_degrees-HasOneEach ids [] (λ j. unfold keys count in omega arith)) k

    has_degrees :
        elim (lookup k links.in_degree) as (λ _. Bool) [ none ↦ false | some _ ↦ true ] ≡ elem k ids
    has_degrees =
        build_graph-HasDegrees events ids ids (start_links ids) (Within-self ids)
          (init_degrees-HasDegrees ids) k
