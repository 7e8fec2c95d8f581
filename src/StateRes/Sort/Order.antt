-- ===== src/StateRes/Sort/Order.antt =====
-- What `sortEventsTopologically` promises: every event at most once, each behind its auth events,
-- and all of them unless they wait for one another in a circle.
use dragonite.Base.{
  ℕ, zero, suc, ◌≤◌, ◌<◌, String, ◌≡◌, true, false, not, ◌&&◌, Option, List, [], ◌∷◌, ◌++◌, arith,
  string_eq, length, elem, count, elem-count, count-elem, Bool-cases, inl, inr,
}
use mathlib.Core.List.{append_assoc, append-nil}
use dragonite.Base.Map.{Map}
use dragonite.Domain.{Evento, Decoder}
use dragonite.StateRes.Levels.{candidate_less}
use dragonite.StateRes.Sort.{
  Kahn, slice_stable, pop, kahn, kahn_start, auths_of, links_of, sort_run,
  sort_events_topologically,
}
use dragonite.StateRes.Sort.Graph.{pending}
use dragonite.StateRes.Sort.Loop.{count-slice_stable, release-sorted}
use dragonite.StateRes.Sort.Invariant.{IsKahn, pop-IsKahn}
use dragonite.StateRes.Sort.Rounds.{kahn_start-IsKahn, kahn-IsKahn, kahn-ready}
use text.Mathlib.TextEquality.{eq_iff}

-- Nothing to wait for means that every auth event among the events is done, and conversely.
done_of_pending :
    (ids done : List String) (a : String) (auths : List String)
    → pending ids done auths ≡ 0
    → elem a auths ≡ true
    → elem a ids ≡ true
    → elem a done ≡ true
unfolding pending elem
done_of_pending ids done a [] p m k = absurd (ground arith)
done_of_pending ids done a (b ∷ auths) p m k =
    ground (arith, done_of_pending ids done a auths, eq_iff b a)

waiting_of_pending :
    (ids done auths : List String)
    → 0 < pending ids done auths
    → (a : String) × (elem a auths ≡ true) × (elem a ids ≡ true) × (elem a done ≡ false)
unfolding pending elem
waiting_of_pending ids done [] p = absurd (omega arith)
waiting_of_pending ids done (b ∷ auths) p = elim (Bool-cases (elem b ids && not (elem b done))) [
  | inl here ↦ (b, ground (arith, eq_iff b b), ground (arith, here), ground (arith, here))
  | inr later ↦
      let (a, m, k, n) = waiting_of_pending ids done auths (ground (arith, later)) in
      (a, ground (arith, m), k, n)
]

-- Each event of the second list stands behind its auth events.
abbrev Ordered : Map String Evento → List String → List String → List String → Type 0
Ordered events ids pre [] = Unit {0}
Ordered events ids pre (v ∷ rest) =
    (pending ids pre (auths_of events v) ≡ 0) × Ordered events ids (pre ++ v ∷ []) rest

module _ (events : Map String Evento) (ids : List String) where
  Ordered-append :
      (pre xs : List String) (v : String)
      → Ordered events ids pre xs
      → pending ids (pre ++ xs) (auths_of events v) ≡ 0
      → Ordered events ids pre (xs ++ v ∷ [])
  Ordered-append pre [] v h p = (rw append-nil at p, tt)
  Ordered-append pre (x ∷ xs) v h p =
      (h.0, Ordered-append (pre ++ x ∷ []) xs v h.1 (rw append_assoc p))

  Ordered-split :
      (pre xs : List String) (v : String) (ys : List String)
      → Ordered events ids pre (xs ++ v ∷ ys)
      → pending ids (pre ++ xs) (auths_of events v) ≡ 0
  Ordered-split pre [] v ys h = rw append-nil h.0
  Ordered-split pre (x ∷ xs) v ys h = rw append_assoc at (Ordered-split (pre ++ x ∷ []) xs v ys h.1)

  module _ (once : (v : String) → count v ids ≤ 1) where
    pop-Ordered :
        (s : Kahn) (l : List String)
        → IsKahn events ids s
        → ((v : String) → count v l ≡ count v s.ready)
        → Ordered events ids [] s.sorted
        → Ordered events ids [] (pop (links_of events ids).graph l s).sorted
    unfolding pop count
    pop-Ordered s [] h same o = o
    pop-Ordered s (curr ∷ rest) h same o = rw release-sorted (
        Ordered-append [] s.sorted curr o
          (ground (arith, h.counted curr, same curr, eq_iff curr curr)))

    kahn-Ordered :
        (arrange : List String → List String)
        → ((v : String) (l : List String) → count v (arrange l) ≡ count v l)
        → (fuel : ℕ) (s : Kahn) → IsKahn events ids s
        → Ordered events ids [] s.sorted
        → Ordered events ids [] (kahn arrange (links_of events ids).graph fuel s).sorted
    unfolding kahn
    kahn-Ordered arrange same zero s h o = o
    kahn-Ordered arrange same (suc fuel) s h o =
        kahn-Ordered arrange same fuel (pop (links_of events ids).graph (arrange s.ready) s)
          (pop-IsKahn events ids once s (arrange s.ready) h (λ v. same v s.ready))
          (pop-Ordered s (arrange s.ready) h (λ v. same v s.ready) o)

-- The events to sort are keys of a map, so each is given once; `visit` is the order in which Go
-- visits the keys of `inDegree`, any order that keeps each key.
module _ (d : Decoder) (visit : List String → List String) (ids : List String)
    (events : Map String Evento) (pl_event : Option Evento) (once : (v : String) → count v ids ≤ 1)
    (same : (v : String) (ks : List String) → count v (visit ks) ≡ count v ks) where
  arranged :
      (v : String) (l : List String)
      → count v (slice_stable (candidate_less d events pl_event) l) ≡ count v l
  arranged = count-slice_stable (candidate_less d events pl_event)

  pub sort_run-IsKahn : IsKahn events ids (sort_run d visit ids events pl_event)
  unfolding sort_run
  sort_run-IsKahn =
      kahn-IsKahn events ids once (slice_stable (candidate_less d events pl_event)) arranged
        (length ids) (kahn_start visit (links_of events ids))
        (kahn_start-IsKahn events ids once visit same)

  -- The loop ends: after as many rounds as there are events no candidate is left.
  pub sort_run-ready : (sort_run d visit ids events pl_event).ready ≡ []
  unfolding sort_run
  sort_run-ready =
      kahn-ready events ids once (slice_stable (candidate_less d events pl_event)) arranged
        (length ids) (kahn_start visit (links_of events ids))
        (kahn_start-IsKahn events ids once visit same) (omega arith)

  -- In the result every auth event that is itself to be sorted stands before the event that names
  -- it, wherever that event stands.
  pub sort_topological :
      (pre : List String) (v : String) (post : List String) (a : String)
      → sort_events_topologically d visit ids events pl_event ≡ pre ++ v ∷ post
      → elem a (auths_of events v) ≡ true
      → elem a ids ≡ true
      → elem a pre ≡ true
  unfolding sort_events_topologically sort_run kahn_start
  sort_topological pre v post a e = done_of_pending ids pre a (auths_of events v) (
      Ordered-split events ids [] pre v post (
        rw e at (
          kahn-Ordered events ids once (slice_stable (candidate_less d events pl_event)) arranged
            (length ids) (kahn_start visit (links_of events ids))
            (kahn_start-IsKahn events ids once visit same) tt)))

  -- Nothing is sorted twice or made up.
  pub sort_members :
      (v : String) → count v (sort_events_topologically d visit ids events pl_event) ≤ count v ids
  unfolding sort_events_topologically
  sort_members v = ground (arith, sort_run-IsKahn.counted v, elem-count v ids)

  -- An event is left out only if it waits for one that is left out.
  pub sort_dropped :
      (v : String)
      → elem v ids ≡ true
      → elem v (sort_events_topologically d visit ids events pl_event) ≡ false
      → (a : String) × (elem a (auths_of events v) ≡ true)
        × (elem a ids ≡ true)
        × (elem a (sort_events_topologically d visit ids events pl_event) ≡ false)
  unfolding sort_events_topologically count
  sort_dropped v m n =
      waiting_of_pending ids (sort_run d visit ids events pl_event).sorted (auths_of events v) (
        ground (
          arith,
          sort_run-IsKahn.counted v,
          sort_run-ready,
          count-elem v (sort_run d visit ids events pl_event).sorted n,
          m,
        ))

  -- Where no auth events go round in a circle (each has a smaller rank than the event that names
  -- it), the result is the events themselves, each as often as given.
  pub sort_complete :
      (rank : String → ℕ)
      → ((v a : String)
          → elem v ids ≡ true
          → elem a (auths_of events v) ≡ true
          → elem a ids ≡ true
          → rank a < rank v)
      → (v : String) → count v (sort_events_topologically d visit ids events pl_event) ≡ count v ids
  sort_complete rank falls v = elim (Bool-cases (elem v ids)) [
    | inl m ↦ ground (
      arith,
      once v,
      elem-count v ids,
      m,
      all_sorted (suc (rank v)) v (omega arith) m,
      elem-count v (sort_events_topologically d visit ids events pl_event),
      sort_members v,
    )
    | inr n ↦ omega (arith, count-elem v ids n, sort_members v)
  ]
    where
      all_sorted :
          (k : ℕ) (w : String)
          → rank w < k
          → elem w ids ≡ true
          → elem w (sort_events_topologically d visit ids events pl_event) ≡ true
      all_sorted zero w h m = absurd (omega arith)
      all_sorted (suc k) w h m =
          elim (Bool-cases (elem w (sort_events_topologically d visit ids events pl_event))) [
            | inl y ↦ y
            | inr n ↦
                let (a, in_auths, in_ids, out) = sort_dropped w m n in
                absurd
                  (cc (out, all_sorted k a (omega (arith, falls w a m in_auths in_ids)) in_ids))
          ]
