-- ===== src/StateRes/Sort/Graph.antt =====
-- What the dependency graph of `sortEventsTopologically` holds: the degree of an event is the
-- number of its auth events among the events to sort, and the edges are those auth events.
use dragonite.Base.{
  ℕ, ◌+◌, ◌*◌, String, ◌≡◌, refl, Bool, true, false, not, ◌&&◌, none, some, List, [], ◌∷◌, ◌++◌,
  arith, ◌==◌, string_eq, elem, count, count-append, one_if, if◌then◌else◌,
}
use dragonite.Base.Int.{ℤ, pos, incr}
use dragonite.Base.Map.{Map, lookup, insert, get_or, lookup-insert, HasOneEach, insert-HasOneEach}
use dragonite.Domain.{Evento}
use dragonite.StateRes.Sort.{Links, link, link_all, auths_of, build_graph, init_degrees}
use text.Mathlib.TextEquality.{eq_iff}

-- The auth events that are to be sorted too and are not in `done`.
unfoldable pub pending : List String → List String → List String → ℕ
pending ids done [] = 0
pending ids done (a ∷ auths) = one_if (elem a ids && not (elem a done)) + pending ids done auths

-- Every event to sort has a degree, and nothing else has.
abbrev pub HasDegrees : List String → Map String ℤ → Type 0
HasDegrees ids degrees =
    (k : String)
    → elim (lookup k degrees) as (λ _. Bool) [ none ↦ false | some _ ↦ true ] ≡ elem k ids

abbrev pub edges : Links → String → List String
edges l u = get_or u [] l.graph

module _ (ids : List String) (id : String) (known : elem id ids ≡ true) where
  link-HasDegrees :
      (a : String) (l : Links) → HasDegrees ids l.in_degree → HasDegrees ids (link id a l).in_degree
  unfolding link
  link-HasDegrees a l h k = ground (
    arith,
    h k,
    h a,
    lookup-insert id k (incr (get_or id (pos 0) l.in_degree)) l.in_degree,
    eq_iff id k,
  )

  link-in_degree :
      (a v : String) (l : Links) (n : ℕ)
      → HasDegrees ids l.in_degree
      → lookup v l.in_degree ≡ some (pos n)
      → lookup v (link id a l).in_degree
        ≡ some (pos (n + (if id == v then one_if (elem a ids && true) else 0)))
  unfolding link get_or
  link-in_degree a v l n h d = ground (
    arith,
    h a,
    lookup-insert id v (incr (get_or id (pos 0) l.in_degree)) l.in_degree,
    eq_iff id v,
  )

  link-edges :
      (a u w : String) (l : Links)
      → HasDegrees ids l.in_degree
      → count w (edges (link id a l) u)
        ≡ count w (edges l u) + (if id == w then (if a == u then one_if (elem u ids) else 0) else 0)
  unfolding link get_or count
  link-edges a u w l h = ground (
    arith,
    h a,
    lookup-insert a u (get_or a [] l.graph ++ id ∷ []) l.graph,
    eq_iff a u,
    eq_iff id w,
    count-append w (get_or a [] l.graph) (id ∷ []),
  )

  link_all-HasDegrees :
      (auths : List String) (l : Links)
      → HasDegrees ids l.in_degree
      → HasDegrees ids (link_all id auths l).in_degree
  unfolding link_all
  link_all-HasDegrees [] l h = h
  link_all-HasDegrees (a ∷ auths) l h =
      link_all-HasDegrees auths (link id a l) (link-HasDegrees a l h)

  link_all-in_degree :
      (auths : List String) (v : String) (l : Links) (n : ℕ)
      → HasDegrees ids l.in_degree
      → lookup v l.in_degree ≡ some (pos n)
      → lookup v (link_all id auths l).in_degree
        ≡ some (pos (n + (if id == v then pending ids [] auths else 0)))
  unfolding link_all pending elem
  link_all-in_degree [] v l n h d = ground arith
  link_all-in_degree (a ∷ auths) v l n h d = ground (
    arith,
    link_all-in_degree auths v (link id a l)
        (n + (if id == v then one_if (elem a ids && true) else 0)) (link-HasDegrees a l h)
        (link-in_degree a v l n h d),
  )

  link_all-edges :
      (auths : List String) (u w : String) (l : Links)
      → HasDegrees ids l.in_degree
      → count w (edges (link_all id auths l) u)
        ≡ count w (edges l u) + (if id == w then (if elem u ids then count u auths else 0) else 0)
  unfolding link_all count
  link_all-edges [] u w l h = ground arith
  link_all-edges (a ∷ auths) u w l h =
      ground (
        arith,
        link_all-edges auths u w (link id a l) (link-HasDegrees a l h),
        link-edges a u w l h,
      )

-- Every one of these is an event to sort.
abbrev pub Within : List String → List String → Type 0
Within ids [] = Unit
Within ids (x ∷ xs) = (elem x ids ≡ true) × Within ids xs

Within-mono : (x : String) (ids xs : List String) → Within ids xs → Within (x ∷ ids) xs
unfolding elem
Within-mono x ids [] h = tt
Within-mono x ids (y ∷ xs) h = (ground arith, Within-mono x ids xs h.1)

pub Within-self : (ids : List String) → Within ids ids
unfolding elem
Within-self [] = tt
Within-self (x ∷ ids) = (ground (arith, eq_iff x x), Within-mono x ids ids (Within-self ids))

module _ (events : Map String Evento) (ids : List String) where
  pub build_graph-HasDegrees :
      (todo : List String) (l : Links)
      → Within ids todo
      → HasDegrees ids l.in_degree
      → HasDegrees ids (build_graph events todo l).in_degree
  unfolding build_graph
  build_graph-HasDegrees [] l w h = h
  build_graph-HasDegrees (id ∷ todo) l w h =
      build_graph-HasDegrees todo (link_all id (auths_of events id) l) w.1
        (link_all-HasDegrees ids id w.0 (auths_of events id) l h)

  pub build_graph-in_degree :
      (todo : List String) (v : String) (l : Links) (n : ℕ)
      → Within ids todo
      → HasDegrees ids l.in_degree
      → lookup v l.in_degree ≡ some (pos n)
      → lookup v (build_graph events todo l).in_degree
        ≡ some (pos (n + count v todo * pending ids [] (auths_of events v)))
  unfolding build_graph count
  build_graph-in_degree [] v l n w h d = rw d (ground arith)
  build_graph-in_degree (id ∷ todo) v l n w h d = grind (
    arith,
    eq_iff id v,
    build_graph-in_degree todo v (link_all id (auths_of events id) l)
        (n + (if id == v then pending ids [] (auths_of events id) else 0)) w.1
        (link_all-HasDegrees ids id w.0 (auths_of events id) l h)
        (link_all-in_degree ids id w.0 (auths_of events id) v l n h d),
  )

  pub build_graph-edges :
      (todo : List String) (u v : String) (l : Links)
      → Within ids todo
      → HasDegrees ids l.in_degree
      → count v (edges (build_graph events todo l) u)
        ≡ count v (edges l u)
          + count v todo * (if elem u ids then count u (auths_of events v) else 0)
  unfolding build_graph count
  build_graph-edges [] u v l w h = ground arith
  build_graph-edges (id ∷ todo) u v l w h = grind (
    arith,
    eq_iff id v,
    build_graph-edges todo u v (link_all id (auths_of events id) l) w.1
        (link_all-HasDegrees ids id w.0 (auths_of events id) l h),
    link_all-edges ids id w.0 (auths_of events id) u v l h,
  )

link-HasOneEach :
    (id a : String) (l : Links) → HasOneEach l.in_degree → HasOneEach (link id a l).in_degree
unfolding link
link-HasOneEach id a l h k =
    ground (arith, h k, insert-HasOneEach id (incr (get_or id (pos 0) l.in_degree)) l.in_degree h k)

link_all-HasOneEach :
    (id : String) (auths : List String) (l : Links)
    → HasOneEach l.in_degree
    → HasOneEach (link_all id auths l).in_degree
unfolding link_all
link_all-HasOneEach id [] l h = h
link_all-HasOneEach id (a ∷ auths) l h =
    link_all-HasOneEach id auths (link id a l) (link-HasOneEach id a l h)

pub build_graph-HasOneEach :
    (events : Map String Evento) (todo : List String) (l : Links)
    → HasOneEach l.in_degree
    → HasOneEach (build_graph events todo l).in_degree
unfolding build_graph
build_graph-HasOneEach events [] l h = h
build_graph-HasOneEach events (id ∷ todo) l h =
    build_graph-HasOneEach events todo (link_all id (auths_of events id) l)
      (link_all-HasOneEach id (auths_of events id) l h)

pub init_degrees-HasOneEach :
    (ids : List String) (m : Map String ℤ) → HasOneEach m → HasOneEach (init_degrees ids m)
unfolding init_degrees
init_degrees-HasOneEach [] m h = h
init_degrees-HasOneEach (id ∷ ids) m h =
    init_degrees-HasOneEach ids (insert id (pos 0) m) (insert-HasOneEach id (pos 0) m h)

pub lookup-init_degrees :
    (ids : List String) (m : Map String ℤ) (v : String)
    → lookup v (init_degrees ids m) ≡ (if elem v ids then some (pos 0) else lookup v m)
unfolding init_degrees elem
lookup-init_degrees [] m v = refl
lookup-init_degrees (id ∷ ids) m v =
    ground (arith, lookup-init_degrees ids (insert id (pos 0) m) v, lookup-insert id v (pos 0) m)

pub init_degrees-HasDegrees : (ids : List String) → HasDegrees ids (init_degrees ids [])
unfolding lookup
init_degrees-HasDegrees ids k = ground (arith, lookup-init_degrees ids [] k)

abbrev pub start_links : List String → Links
start_links ids = record { in_degree = init_degrees ids []; graph = [] }
