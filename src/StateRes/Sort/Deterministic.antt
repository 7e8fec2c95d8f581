-- ===== src/StateRes/Sort/Deterministic.antt =====
-- The result of `sortEventsTopologically` does not depend on the order in which Go visits maps:
-- neither that of the degrees nor that in which the caller listed the events.
use dragonite.Base.{
  ℕ, zero, suc, ◌≤◌, String, ◌≡◌, ◌∙◌, refl, sym, ap, true, false, Option, some, List, [], ◌∷◌,
  arith, string_eq, length, elem, elem-same, count, elem-count, count-elem, length-le_of_count,
}
use dragonite.Base.Map.{Map, lookup}
use dragonite.Domain.{Evento, Decoder}
use dragonite.StateRes.Levels.{candidate_less, precedes_irrefl, precedes_trans, precedes_connex}
use dragonite.StateRes.Sort.{
  Kahn, slice_stable, pop, kahn, kahn_start, auths_of, links_of, sort_run,
  sort_events_topologically,
}
use dragonite.StateRes.Sort.Graph.{pending}
use dragonite.StateRes.Sort.Loop.{count-slice_stable, release-sorted}
use dragonite.StateRes.Sort.Invariant.{IsKahn, pop-IsKahn}
use dragonite.StateRes.Sort.Rounds.{kahn_start-IsKahn}
use dragonite.StateRes.Sort.Unique.{slice_stable_unique}

-- The event is in the map, under its own id.
abbrev pub IsFiled : Map String Evento → String → Type 0
IsFiled events v = (ev : Evento) × (lookup v events ≡ some ev) × (ev.id ≡ v)

module _ (d : Decoder) (events : Map String Evento) (pl : Option Evento) where
  less_irrefl : (a : String) → IsFiled events a → candidate_less d events pl a a ≡ false
  unfolding candidate_less
  less_irrefl a f = ground (arith, f.1, precedes_irrefl d pl f.0)

  less_trans :
      (a b c : String)
      → IsFiled events a
      → IsFiled events b
      → IsFiled events c
      → candidate_less d events pl a b ≡ true
      → candidate_less d events pl b c ≡ true
      → candidate_less d events pl a c ≡ true
  unfolding candidate_less
  less_trans a b c f g h m n = ground (arith, f.1, g.1, h.1, precedes_trans d pl f.0 g.0 h.0)

  less_connex :
      (a b : String)
      → IsFiled events a
      → IsFiled events b
      → candidate_less d events pl a b ≡ false
      → candidate_less d events pl b a ≡ false
      → a ≡ b
  unfolding candidate_less
  less_connex a b f g m n = ground (arith, f.1, g.1, f.2, g.2, precedes_connex d pl f.0 g.0)

-- Lists of events with the same members wait for the same.
pending-same :
    (ids ids' : List String)
    → ((a : String) → elem a ids ≡ elem a ids')
    → (done auths : List String) → pending ids done auths ≡ pending ids' done auths
unfolding pending
pending-same ids ids' same done [] = refl
pending-same ids ids' same done (a ∷ auths) =
    ground (arith, same a, pending-same ids ids' same done auths)

sorted-pop :
    (g g' : Map String (List String)) (l : List String) (s t : Kahn)
    → s.sorted ≡ t.sorted
    → (pop g l s).sorted ≡ (pop g' l t).sorted
unfolding pop
sorted-pop g g' [] s t h = h
sorted-pop g g' (curr ∷ rest) s t h = simp (release-sorted, h)

module _ (d : Decoder) (events : Map String Evento) (pl : Option Evento) (ids ids' : List String)
    (once : (v : String) → count v ids ≤ 1)
    (filed : (v : String) → elem v ids ≡ true → IsFiled events v)
    (same : (v : String) → count v ids ≡ count v ids') where
  abbrev arrange : List String → List String
  arrange = slice_stable (candidate_less d events pl)

  once' : (v : String) → count v ids' ≤ 1
  once' v = omega (arith, once v, same v)

  elem_same : (a : String) → elem a ids ≡ elem a ids'
  elem_same a =
      ground
        (arith, same a, elem-count a ids, elem-count a ids', count-elem a ids, count-elem a ids')

  -- With the same events sorted, the same are ready.
  ready_same :
      (s t : Kahn)
      → IsKahn events ids s
      → IsKahn events ids' t
      → s.sorted ≡ t.sorted
      → (v : String) → count v s.ready ≡ count v t.ready
  ready_same s t h k e v =
      let waits : pending ids s.sorted (auths_of events v)
          ≡ pending ids' t.sorted (auths_of events v) =
        pending-same ids ids' elem_same s.sorted (auths_of events v)
        ∙ ap (λ l. pending ids' l (auths_of events v)) e in
      ground (arith, h.counted v, k.counted v, elem_same v, waits, e)

  ready-IsFiled :
      (s : Kahn) → IsKahn events ids s → (v : String) → elem v s.ready ≡ true → IsFiled events v
  ready-IsFiled s h v m = filed v (ground (arith, m, h.counted v, elem-count v s.ready))

  arrange_same :
      (s t : Kahn)
      → IsKahn events ids s
      → IsKahn events ids' t
      → s.sorted ≡ t.sorted
      → arrange s.ready ≡ arrange t.ready
  arrange_same s t h k e =
      slice_stable_unique (candidate_less d events pl) (IsFiled events) (less_irrefl d events pl)
        (less_trans d events pl) (less_connex d events pl) s.ready t.ready (ready-IsFiled s h)
        (λ v m.
          ready-IsFiled s h v (elem-same v t.ready s.ready (λ a. sym (ready_same s t h k e a)) m))
        (λ a.
          count-slice_stable (candidate_less d events pl) a s.ready
          ∙ ready_same s t h k e a
          ∙ sym (count-slice_stable (candidate_less d events pl) a t.ready))

  kahn_same :
      (fuel : ℕ) (s t : Kahn)
      → IsKahn events ids s
      → IsKahn events ids' t
      → s.sorted ≡ t.sorted
      → (kahn arrange (links_of events ids).graph fuel s).sorted
        ≡ (kahn arrange (links_of events ids').graph fuel t).sorted
  unfolding kahn
  kahn_same zero s t h k e = e
  kahn_same (suc fuel) s t h k e =
      kahn_same fuel (pop (links_of events ids).graph (arrange s.ready) s)
        (pop (links_of events ids').graph (arrange t.ready) t)
        (pop-IsKahn events ids once s (arrange s.ready) h
          (λ v. count-slice_stable (candidate_less d events pl) v s.ready))
        (pop-IsKahn events ids' once' t (arrange t.ready) k
          (λ v. count-slice_stable (candidate_less d events pl) v t.ready))
        (rw (arrange_same s t h k e) (
          sorted-pop (links_of events ids).graph (links_of events ids').graph (arrange t.ready) s t
            e))

  -- Two lists of the same events, visited in any two orders, are sorted into the same list.
  pub sort_deterministic :
      (visit visit' : List String → List String)
      → ((v : String) (ks : List String) → count v (visit ks) ≡ count v ks)
      → ((v : String) (ks : List String) → count v (visit' ks) ≡ count v ks)
      → sort_events_topologically d visit ids events pl
        ≡ sort_events_topologically d visit' ids' events pl
  unfolding sort_events_topologically sort_run
  sort_deterministic visit visit' keeps keeps' =
      ap
        (λ n.
          (kahn arrange (links_of events ids).graph n
            (kahn_start visit (links_of events ids))).sorted)
        lengths
      ∙ kahn_same (length ids') (kahn_start visit (links_of events ids))
          (kahn_start visit' (links_of events ids')) (kahn_start-IsKahn events ids once visit keeps)
          (kahn_start-IsKahn events ids' once' visit' keeps') (unfold kahn_start in refl)
    where
      lengths : length ids ≡ length ids'
      lengths = omega (
        arith,
        length-le_of_count ids ids' (λ v. omega (arith, same v)),
        length-le_of_count ids' ids (λ v. omega (arith, same v)),
      )
