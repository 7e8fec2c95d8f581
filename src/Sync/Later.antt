-- ===== src/Sync/Later.antt =====
-- The tables some time after a sync: what other calls may have done meanwhile.
use dragonite.Base.{
  suc, String, ◌≡◌, refl, sym, ◌∙◌, ap, true, false, none, List, [], ◌∷◌, ◌++◌, arith, string_eq,
  Option-cases, inl, inr,
}
use dragonite.Base.Int.{pos, ltb_ℤ}
use dragonite.Base.Map.{Map, lookup, insert}
use dragonite.Base.Paging.{append_nil, append_assoc}
use dragonite.Base.Rows.{
  are_above, are_rising-append, are_up_to-append, are_up_to-raise, above-append,
}
use dragonite.Domain.{Evento}
use dragonite.Store.{Tables, save_evento}
use dragonite.Sync.{rows}
use dragonite.Sync.Token.{ordering, IsOrdered}

-- The tables some time later: events have been saved, and the other tables may have changed.
pub data Later (t : Tables) : Tables → Type 0 where
  same : Later t t
  saved : (u : Tables) (ev : Evento) → Later t u → Later t (save_evento ev u)
  otherwise :
      (u v : Tables)
      → Later t u
      → v.eventos ≡ u.eventos
      → v.evento_serial ≡ u.evento_serial
      → Later t v

rows-insert :
    (id : String) (ev : Evento) (eventos : Map String Evento)
    → lookup id eventos ≡ none
    → rows (insert id ev eventos) ≡ rows eventos ++ ev ∷ []
unfolding rows insert lookup
rows-insert id ev [] h = refl
rows-insert id ev ((at, held) ∷ rest) h = ground (arith, h, rows-insert id ev rest)

-- A save adds at most one row, beyond the serial.
abbrev pub Adds : Tables → Tables → List Evento → Type 0
Adds t u new =
    (rows u.eventos ≡ rows t.eventos ++ new)
    × (are_above ordering (pos t.evento_serial) new ≡ true)
    × (ltb_ℤ (pos u.evento_serial) (pos t.evento_serial) ≡ false)

save-IsOrdered : (ev : Evento) (t : Tables) → IsOrdered t → IsOrdered (save_evento ev t)
unfolding save_evento
save-IsOrdered ev t (rising, low) = elim (Option-cases (lookup ev.id t.eventos)) [
  | inl new ↦
      rw (save_evento, new)
        (rw (rows-insert ev.id (numbered ev t) t.eventos new) (
          are_rising-append ordering (pos t.evento_serial) (rows t.eventos) (numbered ev t) rising
              low (ground arith),
          are_up_to-append ordering (pos t.evento_serial) (pos (suc t.evento_serial))
              (rows t.eventos) (numbered ev t) (ground arith) (ground arith) low,
        ))
  | inr (old, found) ↦
      rw (save_evento, found)
        (
          rising,
          are_up_to-raise ordering (pos t.evento_serial) (pos (suc t.evento_serial))
              (rows t.eventos) (ground arith) low,
        )
]
  where
    numbered : Evento → Tables → Evento
    numbered ev t = record ev { redacts = ""; stream_ordering = pos (suc t.evento_serial) }

save-Adds :
    (ev : Evento) (t u : Tables) (new : List Evento)
    → Adds t u new
    → (more : List Evento) × Adds t (save_evento ev u) more
unfolding save_evento
save-Adds ev t u new (whole, above, later) = elim (Option-cases (lookup ev.id u.eventos)) [
  | inl fresh ↦ (
    new ++ numbered ∷ [],
    rw (save_evento, fresh)
        (
          rows-insert ev.id numbered u.eventos fresh
              ∙ ap (λ l. l ++ numbered ∷ []) whole
              ∙ append_assoc (rows t.eventos) new (numbered ∷ []),
          above-append ordering (pos t.evento_serial) new numbered above (ground (arith, later)),
          ground (arith, later),
        ),
  )
  | inr (old, found) ↦ (new, rw (save_evento, found) (whole, above, ground (arith, later)))
]
  where
    numbered : Evento
    numbered = record ev { redacts = ""; stream_ordering = pos (suc u.evento_serial) }

pub later-facts :
    (t : Tables) {u : Tables}
    → IsOrdered t
    → Later t u
    → IsOrdered u × ((new : List Evento) × Adds t u new)
unfolding are_above
later-facts t ordered same =
    (ordered, ([], (sym (append_nil (rows t.eventos)), refl, ground arith)))
later-facts t ordered (saved u ev later) =
    let (ordered', (new, adds)) = later-facts t ordered later in
    (save-IsOrdered ev u ordered', save-Adds ev t u new adds)
later-facts t ordered (otherwise u v later eventos serial) =
    let ((rising, low), (new, (whole, above, late))) = later-facts t ordered later in
    (
      (rw eventos rising, rw (eventos, serial) low),
      (new, (rw eventos whole, above, rw serial late)),
    )
