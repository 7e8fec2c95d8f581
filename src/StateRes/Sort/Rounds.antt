-- ===== src/StateRes/Sort/Rounds.antt =====
-- The rounds of `sortEventsTopologically`: where the loop starts, that it keeps its invariant, and
-- that as many rounds as there are events empty the candidates.
use dragonite.Base.{
  ℕ, zero, suc, ◌+◌, ◌≤◌, String, ◌≡◌, ◌⊎◌, ◌∙◌, refl, sym, ap, List, [], ◌∷◌, ◌++◌, arith, ◌==◌,
  string_eq, length, length-append, elem, count, count-append, elem-count, if◌then◌else◌,
  Bool-cases, length-le_of_count, nil_of_count, nil_of_length, inl, inr,
}
use dragonite.Base.Int.{ℤ, pos, int_eq}
use dragonite.Base.Map.{Map, keys, get_or}
use dragonite.Domain.{Evento}
use dragonite.StateRes.Sort.{Kahn, pop, kahn, kahn_start, links_of, zero_degrees}
use dragonite.StateRes.Sort.Start.{links_of-in_degree, count-keys-links_of}
use dragonite.StateRes.Sort.Loop.{release-sorted}
use dragonite.StateRes.Sort.Invariant.{IsKahn, pop-IsKahn}
use text.Mathlib.TextEquality.{eq_iff}

count-zero_degrees :
    (degrees : Map String ℤ) (v : String) (ks : List String)
    → count v (zero_degrees degrees ks)
      ≡ (if get_or v (pos 0) degrees == pos 0 then count v ks else 0)
unfolding zero_degrees count
count-zero_degrees degrees v [] = ground arith
count-zero_degrees degrees v (k ∷ ks) = ground (arith, eq_iff k v, count-zero_degrees degrees v ks)

module _ (events : Map String Evento) (ids : List String)
    (once : (v : String) → count v ids ≤ 1) where
  -- The candidates at the start are the events with no auth event to wait for.
  pub kahn_start-IsKahn :
      (visit : List String → List String)
      → ((v : String) (ks : List String) → count v (visit ks) ≡ count v ks)
      → IsKahn events ids (kahn_start visit (links_of events ids))
  unfolding kahn_start
  kahn_start-IsKahn visit same = record {
    counted = λ v. elim (Bool-cases (elem v ids)) [
      | inl m ↦
          unfold count get_or in
          ground (
            arith,
            m,
            count-zero_degrees (links_of events ids).in_degree v
                (visit (keys (links_of events ids).in_degree)),
            same v (keys (links_of events ids).in_degree),
            count-keys-links_of events ids v,
            links_of-in_degree events ids v m (once v),
          )
      | inr m ↦
          unfold count get_or in
          ground (
            arith,
            m,
            count-zero_degrees (links_of events ids).in_degree v
                (visit (keys (links_of events ids).in_degree)),
            same v (keys (links_of events ids).in_degree),
            count-keys-links_of events ids v,
          )
    ];
    degrees = λ v m. links_of-in_degree events ids v m (once v);
  }

  -- The candidates and the sorted events are no more than the events.
  pub size_bound : (s : Kahn) → IsKahn events ids s → length s.ready + length s.sorted ≤ length ids
  size_bound s h = omega (
    arith,
    length-append s.ready s.sorted,
    length-le_of_count (s.ready ++ s.sorted) ids
        (λ v. ground (arith, h.counted v, count-append v s.ready s.sorted, elem-count v ids)),
  )

  module _ (arrange : List String → List String)
      (same : (v : String) (l : List String) → count v (arrange l) ≡ count v l) where
    pub kahn-IsKahn :
        (fuel : ℕ) (s : Kahn)
        → IsKahn events ids s
        → IsKahn events ids (kahn arrange (links_of events ids).graph fuel s)
    unfolding kahn
    kahn-IsKahn zero s h = h
    kahn-IsKahn (suc fuel) s h =
        kahn-IsKahn fuel (pop (links_of events ids).graph (arrange s.ready) s)
          (pop-IsKahn events ids once s (arrange s.ready) h (λ v. same v s.ready))

    arrange-nil : arrange [] ≡ []
    unfolding count
    arrange-nil = nil_of_count (arrange []) (λ v. same v [])

    kahn-done :
        (fuel : ℕ) (s : Kahn) → s.ready ≡ [] → kahn arrange (links_of events ids).graph fuel s ≡ s
    unfolding kahn pop
    kahn-done zero s h = refl
    kahn-done (suc fuel) s h =
        let none_left : arrange s.ready ≡ [] = ap arrange h ∙ arrange-nil in
        rw none_left (kahn-done fuel s h)

    -- A round pops one event, if there is one.
    length-pop :
        (graph : Map String (List String)) (s : Kahn) (l : List String)
        → (l ≡ []) ⊎ (length (pop graph l s).sorted ≡ suc (length s.sorted))
    unfolding pop
    length-pop graph s [] = inl refl
    length-pop graph s (curr ∷ rest) = inr (
        rw
          (release-sorted (get_or curr [] graph)
            (record s { ready = rest; sorted = s.sorted ++ curr ∷ [] }))
          (omega (arith, length-append s.sorted (curr ∷ []))))

    nothing_ready : (s : Kahn) → arrange s.ready ≡ [] → s.ready ≡ []
    unfolding count
    nothing_ready s e = nil_of_count s.ready (λ v. sym (same v s.ready) ∙ ap (count v) e)

    -- With as many rounds as events are unsorted, no candidate is left.
    pub kahn-ready :
        (fuel : ℕ) (s : Kahn)
        → IsKahn events ids s
        → length ids ≤ length s.sorted + fuel
        → (kahn arrange (links_of events ids).graph fuel s).ready ≡ []
    unfolding kahn
    kahn-ready zero s h enough = nil_of_length s.ready (omega (arith, size_bound s h))
    kahn-ready (suc fuel) s h enough =
        elim (length-pop (links_of events ids).graph s (arrange s.ready)) [
          | inl e ↦
              ap (λ (t : Kahn). t.ready) (kahn-done (suc fuel) s (nothing_ready s e))
              ∙ nothing_ready s e
          | inr e ↦
              kahn-ready fuel (pop (links_of events ids).graph (arrange s.ready) s)
                (pop-IsKahn events ids once s (arrange s.ready) h (λ v. same v s.ready))
                (omega arith)
        ]
