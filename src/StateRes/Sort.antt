-- ===== src/StateRes/Sort.antt =====
-- `sortEventsTopologically` (internal/usecase/state_res_sort.go): Kahn's algorithm over the
-- auth events, with the candidates sorted before each pop. Where the program ranges over a map
-- the order is Go's choice: it is the argument `visit`.
pub mod Graph
pub mod Loop
pub mod Invariant
pub mod Rounds
pub mod Start
pub mod Order
pub mod Unique
pub mod Deterministic
use dragonite.Base.{
  ℕ, zero, suc, String, Bool, true, false, Option, none, some, List, [], ◌∷◌, ◌++◌, ◌==◌, string_eq,
  length, if◌then◌else◌,
}
use dragonite.Base.Int.{ℤ, pos, incr, decr, int_eq}
use dragonite.Base.Map.{Map, keys, lookup, insert, get_or}
use dragonite.Domain.{Evento, Decoder}
use dragonite.StateRes.Levels.{candidate_less}

-- `sort.SliceStable`, as insertion sort.
module _ {ℓ} {A : Type ℓ} (less : A → A → Bool) where
  unfoldable pub insert_sorted : A → List A → List A
  insert_sorted x [] = x ∷ []
  insert_sorted x (y ∷ ys) = if less y x then y ∷ insert_sorted x ys else x ∷ y ∷ ys

  unfoldable pub slice_stable : List A → List A
  unfolding insert_sorted
  slice_stable [] = []
  slice_stable (x ∷ xs) = insert_sorted x (slice_stable xs)

-- `inDegree` and `graph` while the dependency graph is built.
pub record Links : Type 0 where
  pub in_degree : Map String ℤ
  pub graph : Map String (List String)

unfoldable pub init_degrees : List String → Map String ℤ → Map String ℤ
unfolding insert
init_degrees [] degrees = degrees
init_degrees (id ∷ ids) degrees = init_degrees ids (insert id (pos 0) degrees)

-- One auth event of `id`: an edge, if it is one of the events to sort.
unfoldable pub link : String → String → Links → Links
unfolding lookup insert get_or
link id auth l = elim (lookup auth l.in_degree) [
  | none ↦ l
  | some _ ↦ record {
    in_degree = insert id (incr (get_or id (pos 0) l.in_degree)) l.in_degree;
    graph = insert auth (get_or auth [] l.graph ++ id ∷ []) l.graph;
  }
]

unfoldable pub link_all : String → List String → Links → Links
unfolding link
link_all id [] l = l
link_all id (auth ∷ auths) l = link_all id auths (link id auth l)

-- ev.AuthEventos, and no edge for an event that is not in the map
unfoldable pub auths_of : Map String Evento → String → List String
unfolding lookup
auths_of events id = elim (lookup id events) [ none ↦ [] | some ev ↦ ev.auth_eventos ]

unfoldable pub build_graph : Map String Evento → List String → Links → Links
unfolding link_all auths_of
build_graph events [] l = l
build_graph events (id ∷ ids) l = build_graph events ids (link_all id (auths_of events id) l)

-- The keys of degree 0, in the order in which the map is visited.
unfoldable pub zero_degrees : Map String ℤ → List String → List String
unfolding get_or
zero_degrees degrees [] = []
zero_degrees degrees (id ∷ ids) =
    let rest = zero_degrees degrees ids in
    if get_or id (pos 0) degrees == pos 0 then id ∷ rest else rest

-- `inDegree`, `zeroDegree` and `sorted` while the loop runs.
pub record Kahn : Type 0 where
  pub in_degree : Map String ℤ
  pub ready : List String
  pub sorted : List String

-- `inDegree[neighbor]--`, and a neighbor that reaches 0 becomes ready.
unfoldable pub release_one : String → Kahn → Kahn
unfolding insert get_or
release_one n s =
    let left = decr (get_or n (pos 0) s.in_degree) in
    record s {
      in_degree = insert n left s.in_degree;
      ready = if left == pos 0 then s.ready ++ n ∷ [] else s.ready;
    }

unfoldable pub release : List String → Kahn → Kahn
unfolding release_one
release [] s = s
release (n ∷ ns) s = release ns (release_one n s)

-- The body of the loop, once the candidates are sorted; nothing is left to do on none.
unfoldable pub pop : Map String (List String) → List String → Kahn → Kahn
unfolding release get_or
pop graph [] s = s
pop graph (curr ∷ rest) s =
    release (get_or curr [] graph) (record s { ready = rest; sorted = s.sorted ++ curr ∷ [] })

-- The loop, on fuel: each round pops one event, so as many rounds as events are enough.
unfoldable pub kahn : (List String → List String) → Map String (List String) → ℕ → Kahn → Kahn
unfolding pop
kahn arrange graph zero s = s
kahn arrange graph (suc fuel) s = kahn arrange graph fuel (pop graph (arrange s.ready) s)

unfoldable pub kahn_start : (List String → List String) → Links → Kahn
unfolding zero_degrees keys
kahn_start visit l = record {
  in_degree = l.in_degree;
  ready = zero_degrees l.in_degree (visit (keys l.in_degree));
  sorted = [];
}

unfoldable pub links_of : Map String Evento → List String → Links
unfolding build_graph init_degrees
links_of events ids =
    build_graph events ids (record { in_degree = init_degrees ids []; graph = [] })

-- The state in which the loop ends.
unfoldable pub sort_run :
    Decoder → (List String → List String) → List String → Map String Evento → Option Evento → Kahn
unfolding kahn kahn_start links_of slice_stable candidate_less
sort_run d visit ids events pl_event =
    let l = links_of events ids in
    kahn (slice_stable (candidate_less d events pl_event)) l.graph (length ids) (kahn_start visit l)

unfoldable pub sort_events_topologically :
    Decoder
    → (List String → List String)
    → List String
    → Map String Evento
    → Option Evento
    → List String
unfolding sort_run
sort_events_topologically d visit ids events pl_event =
    (sort_run d visit ids events pl_event).sorted
