-- ===== src/Sync/Token.antt =====
-- The next token.
use dragonite.Base.{
  String, ◌≡◌, refl, ◌∙◌, ap, true, false, some, List, [], ◌∷◌, arith, string_eq, Option-cases, inl,
  inr,
}
use mathlib.Core.Path.{subst}
use dragonite.Base.Int.{ℤ, pos, ltb_ℤ, ltb_ℤ_irrefl}
use dragonite.Base.Paging.{keep}
use dragonite.Base.Rows.{
  last_key, are_above, are_rising, are_up_to, are_above-after, are_rising-keep, last_key-low,
  last_key-bound, are_up_to-keep, order_by-rising,
}
use dragonite.Domain.{Evento}
use dragonite.Domain.Delivery.{SyncToken}
use dragonite.Store.{Tables}
use dragonite.Store.Action.{read, Ensures}
use dragonite.Store.Triples.{read-Ensures, return-Ensures, bind-Ensures}
use dragonite.Sync.{
  rows, max_ordering, get_max_stream_ordering, is_visible, get_since, last_ordering, next_token,
  advance, token_after, generate_next_since_token,
}

abbrev pub ordering : Evento → ℤ
ordering ev = ev.stream_ordering

-- The events lie in the order of their stream_ordering, and none is beyond the serial.
abbrev pub IsOrdered : Tables → Type 0
IsOrdered t =
    (are_rising ordering (rows t.eventos) ≡ true)
    × (are_up_to ordering (pos t.evento_serial) (rows t.eventos) ≡ true)

unfoldable pub token_from : SyncToken → List Evento → Tables → SyncToken
unfolding advance get_max_stream_ordering next_token
token_from since [] t = advance since (get_max_stream_ordering t)
token_from since (ev ∷ evs) t = next_token since (ev ∷ evs)

-- The token that generateNextSinceToken returns.
pub generate-Ensures :
    (user : String) (since : SyncToken) (Q : SyncToken → Tables → Type 0) (t : Tables)
    → Q (token_from since (get_since user since.timeline_position t) t) t
    → Ensures ⊥ (generate_next_since_token user since) Q t
unfolding generate_next_since_token token_from
generate-Ensures user since Q t q =
    bind-Ensures ⊥ (read (get_since user since.timeline_position)) _ Q t (
      read-Ensures ⊥ (get_since user since.timeline_position) _ t
        (go (get_since user since.timeline_position t) q))
  where
    go : (evs : List Evento) → Q (token_from since evs t) t → Ensures ⊥ (token_after since evs) Q t
    go [] q =
        bind-Ensures ⊥ (read get_max_stream_ordering) _ Q t
          (read-Ensures ⊥ get_max_stream_ordering _ t (return-Ensures ⊥ _ Q t q))
    go (ev ∷ evs) q = return-Ensures ⊥ _ Q t q

pub last_ordering-last_key :
    (k : ℤ) (evs : List Evento) → last_ordering k evs ≡ last_key ordering k evs
unfolding last_ordering last_key
last_ordering-last_key k [] = refl
last_ordering-last_key k (ev ∷ evs) = last_ordering-last_key ev.stream_ordering evs

pub visible_above :
    (user : String) (k : ℤ) (t : Tables)
    → are_above ordering k (keep (is_visible user k t) (rows t.eventos)) ≡ true
unfolding is_visible
visible_above user k t =
    are_above-after ordering k (is_visible user k t) (rows t.eventos) (λ ev h. ground (arith, h))

get_since-ordered :
    (user : String) (k : ℤ) (t : Tables)
    → IsOrdered t
    → get_since user k t ≡ keep (is_visible user k t) (rows t.eventos)
unfolding get_since
get_since-ordered user k t (rising, low) =
    order_by-rising ordering (keep (is_visible user k t) (rows t.eventos))
      (are_rising-keep ordering (is_visible user k t) (rows t.eventos) rising)

max_ordering-bound :
    (top : ℤ) (evs : List Evento) (m : ℤ)
    → are_up_to ordering top evs ≡ true
    → max_ordering evs ≡ some m
    → ltb_ℤ top m ≡ false
unfolding max_ordering are_up_to
max_ordering-bound top [] m low h = absurd cc
max_ordering-bound top (ev ∷ evs) m low h = elim (Option-cases (max_ordering evs)) [
  | inl nothing ↦ ground (arith, nothing, h, low)
  | inr (n, found) ↦ ground (arith, found, h, low, max_ordering-bound top evs n)
]

get_max-bound :
    (t : Tables) → IsOrdered t → ltb_ℤ (pos t.evento_serial) (get_max_stream_ordering t) ≡ false
unfolding get_max_stream_ordering
get_max-bound t (rising, low) = elim (Option-cases (max_ordering (rows t.eventos))) [
  | inl nothing ↦ ground (arith, nothing)
  | inr (m, found) ↦
      ground (arith, found, max_ordering-bound (pos t.evento_serial) (rows t.eventos) m low found)
]

advanced :
    (since : SyncToken) (t : Tables) (top serial : ℤ)
    → get_max_stream_ordering t ≡ top
    → ltb_ℤ serial since.timeline_position ≡ false
    → ltb_ℤ serial top ≡ false
    → (ltb_ℤ (token_from since [] t).timeline_position since.timeline_position ≡ false)
      × (ltb_ℤ
            (token_from since [] t).timeline_position
            (last_key ordering since.timeline_position [])
          ≡ false)
      × (ltb_ℤ serial (token_from since [] t).timeline_position ≡ false)
unfolding token_from advance last_key
advanced since t top serial made fits bound = ground (arith, made, fits, bound)

reached :
    (since : SyncToken) (ev : Evento) (evs : List Evento) (t : Tables)
    → (token_from since (ev ∷ evs) t).timeline_position
      ≡ last_key ordering since.timeline_position (ev ∷ evs)
unfolding token_from next_token last_key last_ordering
reached since ev evs t = last_ordering-last_key ev.stream_ordering evs

-- The next token lies no earlier than the last one and than the events that the user is sent, and no
-- later than what is stored.
abbrev pub Follows : String → SyncToken → SyncToken → Tables → Type 0
Follows user since next t =
    (ltb_ℤ next.timeline_position since.timeline_position ≡ false)
    × (ltb_ℤ next.timeline_position (
          last_key ordering since.timeline_position
            (keep (is_visible user since.timeline_position t) (rows t.eventos)))
        ≡ false)
    × (ltb_ℤ (pos t.evento_serial) next.timeline_position ≡ false)

pub token_from-Follows :
    (user : String) (since : SyncToken) (t : Tables)
    → IsOrdered t
    → ltb_ℤ (pos t.evento_serial) since.timeline_position ≡ false
    → Follows user since (token_from since (get_since user since.timeline_position t) t) t
token_from-Follows user since t (rising, low) fits =
    go (get_since user since.timeline_position t)
      (get_since-ordered user since.timeline_position t (rising, low))
  where
    seen : List Evento
    seen = keep (is_visible user since.timeline_position t) (rows t.eventos)

    go : (evs : List Evento) → evs ≡ seen → Follows user since (token_from since evs t) t
    go [] e =
        subst
          (λ l.
            (ltb_ℤ (token_from since [] t).timeline_position since.timeline_position ≡ false)
            × (ltb_ℤ (token_from since [] t).timeline_position
                  (last_key ordering since.timeline_position l)
                ≡ false)
            × (ltb_ℤ (pos t.evento_serial) (token_from since [] t).timeline_position ≡ false))
          e
          (advanced since t (get_max_stream_ordering t) (pos t.evento_serial) refl fits
            (get_max-bound t (rising, low)))
    go (ev ∷ evs) e =
        let last : (token_from since (ev ∷ evs) t).timeline_position
            ≡ last_key ordering since.timeline_position seen =
          reached since ev evs t ∙ ap (last_key ordering since.timeline_position) e in
        rw last (
          last_key-low ordering since.timeline_position seen
              (visible_above user since.timeline_position t)
              (are_rising-keep ordering (is_visible user since.timeline_position t) (rows t.eventos)
                rising),
          ltb_ℤ_irrefl (last_key ordering since.timeline_position seen),
          last_key-bound ordering since.timeline_position (pos t.evento_serial) seen fits (
              are_up_to-keep ordering (pos t.evento_serial)
                (is_visible user since.timeline_position t) (rows t.eventos) low),
        )
