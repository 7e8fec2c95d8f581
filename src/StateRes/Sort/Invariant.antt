-- ===== src/StateRes/Sort/Invariant.antt =====
-- The invariant of the loop of `sortEventsTopologically`.
use dragonite.Base.{
  ◌+◌, ◌≤◌, String, ◌≡◌, refl, true, false, ◌&&◌, some, List, [], ◌∷◌, ◌++◌, arith, nat_beq,
  string_eq, elem, count, count-append, elem-count, elem-append, one_if, Bool-cases, inl, inr,
}
use dragonite.Base.Int.{pos}
use dragonite.Base.Map.{Map, lookup}
use dragonite.Domain.{Evento}
use dragonite.StateRes.Sort.{Kahn, release, pop, auths_of, links_of}
use dragonite.StateRes.Sort.Graph.{pending, edges}
use dragonite.StateRes.Sort.Start.{links_of-edges, links_of-edges_foreign}
use dragonite.StateRes.Sort.Loop.{
  release-in_degree, release-ready, release-ready_foreign, release-sorted,
}
use text.Mathlib.TextEquality.{eq_iff}

-- Sorting one event takes it off what the others wait for.
pub pending-append :
    (ids done : List String) (c : String) (auths : List String)
    → elem c ids ≡ true
    → elem c done ≡ false
    → pending ids (done ++ c ∷ []) auths + count c auths ≡ pending ids done auths
unfolding pending count elem
pending-append ids done c [] k n = refl
pending-append ids done c (a ∷ auths) k n = ground (
  arith,
  pending-append ids done c auths k n,
  elem-append a done (c ∷ []),
  eq_iff a c,
  eq_iff c a,
)

-- Ready or sorted is exactly what waits for nothing; a degree counts what is waited for.
pub record IsKahn (events : Map String Evento) (ids : List String) (s : Kahn) : Type 0 where
  pub counted :
      (v : String)
      → count v s.ready + count v s.sorted
        ≡ one_if (elem v ids && nat_beq (pending ids s.sorted (auths_of events v)) 0)
  pub degrees :
      (v : String)
      → elem v ids ≡ true
      → lookup v s.in_degree ≡ some (pos (pending ids s.sorted (auths_of events v)))

module _ (events : Map String Evento) (ids : List String)
    (once : (v : String) → count v ids ≤ 1) where
  -- The state in which the inner loop starts.
  abbrev taken : String → List String → Kahn → Kahn
  taken curr rest s = record s { ready = rest; sorted = s.sorted ++ curr ∷ [] }

  module _ (s : Kahn) (h : IsKahn events ids s) (curr : String) (rest : List String)
      (same : (v : String) → count v (curr ∷ rest) ≡ count v s.ready) where
    curr_fresh : (elem curr ids ≡ true) × (elem curr s.sorted ≡ false)
    unfolding count
    curr_fresh =
        ground (arith, h.counted curr, same curr, elem-count curr s.sorted, eq_iff curr curr)

    -- What an event still waits for, before and after.
    waits :
        (v : String)
        → elem v ids ≡ true
        → pending ids (s.sorted ++ curr ∷ []) (auths_of events v)
            + count v (edges (links_of events ids) curr)
          ≡ pending ids s.sorted (auths_of events v)
    waits v m =
        let (known, new) = curr_fresh in
        omega (
          arith,
          links_of-edges events ids curr v m (once v) known,
          pending-append ids s.sorted curr (auths_of events v) known new,
        )

    pop-degrees :
        (v : String)
        → elem v ids ≡ true
        → lookup v (release (edges (links_of events ids) curr) (taken curr rest s)).in_degree
          ≡ some (pos (pending ids (s.sorted ++ curr ∷ []) (auths_of events v)))
    pop-degrees v m = ground (
      arith,
      waits v m,
      release-in_degree v (edges (links_of events ids) curr) (taken curr rest s)
          (pending ids s.sorted (auths_of events v)) (h.degrees v m),
    )

    pop-counted :
        (v : String)
        → count v (release (edges (links_of events ids) curr) (taken curr rest s)).ready
            + count v (s.sorted ++ curr ∷ [])
          ≡ one_if
              (elem v ids && nat_beq (pending ids (s.sorted ++ curr ∷ []) (auths_of events v)) 0)
    unfolding count
    pop-counted v = elim (Bool-cases (elem v ids)) [
      | inl m ↦ ground (
        arith,
        m,
        waits v m,
        h.counted v,
        same v,
        count-append v s.sorted (curr ∷ []),
        release-ready v (edges (links_of events ids) curr) (taken curr rest s)
            (pending ids s.sorted (auths_of events v)) (h.degrees v m),
      )
      | inr m ↦ ground (
        arith,
        m,
        h.counted v,
        same v,
        count-append v s.sorted (curr ∷ []),
        links_of-edges_foreign events ids curr v m,
        release-ready_foreign v (edges (links_of events ids) curr) (taken curr rest s),
      )
    ]

  -- One round keeps the invariant, however the candidates were arranged.
  pub pop-IsKahn :
      (s : Kahn) (l : List String)
      → IsKahn events ids s
      → ((v : String) → count v l ≡ count v s.ready)
      → IsKahn events ids (pop (links_of events ids).graph l s)
  unfolding pop
  pop-IsKahn s [] h same = h
  pop-IsKahn s (curr ∷ rest) h same = record {
    counted = λ v.
        rw (release-sorted (edges (links_of events ids) curr) (taken curr rest s))
          (pop-counted s h curr rest same v);
    degrees = λ v m.
        rw (release-sorted (edges (links_of events ids) curr) (taken curr rest s))
          (pop-degrees s h curr rest same v m);
  }
