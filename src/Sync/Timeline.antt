-- ===== src/Sync/Timeline.antt =====
-- Consecutive syncs of a member: what the first one shows of a room and what the next one shows.
use dragonite.Base.{
  String, ◌≡◌, refl, sym, ◌∙◌, ap, Bool, true, false, ◌&&◌, some, List, [], ◌∷◌, ◌++◌, arith, ◌==◌,
  string_eq,
}
use mathlib.Core.Path.{subst}
use dragonite.Base.Int.{ℤ, pos, ltb_ℤ, ltb_ℤ_trans}
use dragonite.Base.Paging.{keep, keep-append, keep-keep}
use dragonite.Base.Rows.{
  last_key, are_above, are_above-after, are_rising-keep, order_by-rising, keep-beyond_last,
}
use dragonite.Domain.{Evento}
use dragonite.Domain.Delivery.{SyncToken}
use dragonite.Store.{Tables}
use dragonite.Store.Action.{ok, Db}
use dragonite.Store.Outcome.{observed}
use dragonite.Sync.{
  rows, kind_in, takes_part, is_visible, is_in_since, get_events_of_canal_since,
  generate_next_since_token,
}
use dragonite.Sync.Token.{ordering, IsOrdered, Follows, token_from-Follows, generate-Ensures}
use text.Mathlib.TextEquality.{eq_iff}
use dragonite.Sync.Later.{Adds, Later, later-facts}

-- The events of a room after a position.
abbrev after_in : String → ℤ → List Evento → List Evento
after_in canal k evs = keep (is_in_since canal k) evs

-- Beyond all positions the position does not matter.
after_in-above :
    (canal : String) (j k top : ℤ) (evs : List Evento)
    → ltb_ℤ top j ≡ false
    → ltb_ℤ top k ≡ false
    → are_above ordering top evs ≡ true
    → after_in canal j evs ≡ after_in canal k evs
unfolding keep is_in_since are_above
after_in-above canal j k top [] hj hk above = refl
after_in-above canal j k top (ev ∷ evs) hj hk above =
    ground (arith, hj, hk, above, after_in-above canal j k top evs hj hk)

member-visible :
    (user canal : String) (k : ℤ) (t : Tables) (ev : Evento)
    → kind_in canal user t ≡ some "join"
    → (ev.canal_id == canal) ≡ true
    → ltb_ℤ k ev.stream_ordering ≡ true
    → is_visible user k t ev ≡ true
unfolding is_visible takes_part
member-visible user canal k t ev member here after =
    let own : kind_in ev.canal_id user t ≡ some "join" =
      subst (λ c. kind_in c user t ≡ some "join") (sym ((eq_iff ev.canal_id canal).0 here))
        member in
    rw (after, own) refl

visible-after :
    (user : String) (k : ℤ) (t : Tables) (ev : Evento)
    → (is_visible user k t ev && ltb_ℤ k ev.stream_ordering) ≡ is_visible user k t ev
unfolding is_visible
visible-after user k t ev = ground arith

-- A member is sent every event of the room up to the next token.
after_in-next :
    (user canal : String) (since next : SyncToken) (t : Tables)
    → IsOrdered t
    → kind_in canal user t ≡ some "join"
    → Follows user since next t
    → after_in canal next.timeline_position (rows t.eventos) ≡ []
unfolding is_in_since keep
after_in-next user canal since next t (rising, low) member (late, beyond, fits) =
    sym (
      keep-keep (is_in_since canal next.timeline_position) is_new
        (is_in_since canal next.timeline_position)
        (λ ev. ground (arith, late, ltb_ℤ_trans next.timeline_position ev.stream_ordering k))
        (rows t.eventos))
    ∙ sym (
        keep-keep (is_in_since canal next.timeline_position) is_past
          (is_in_since canal next.timeline_position) (λ ev. ground (arith, beyond')) recent)
    ∙ ap (keep (is_in_since canal next.timeline_position)) none_past
  where
    k : ℤ
    k = since.timeline_position

    is_new : Evento → Bool
    is_new ev = ltb_ℤ k ev.stream_ordering

    recent : List Evento
    recent = keep is_new (rows t.eventos)

    last : ℤ
    last = last_key ordering k (keep (is_visible user k t) recent)

    is_past : Evento → Bool
    is_past ev = (ev.canal_id == canal) && ltb_ℤ last ev.stream_ordering

    none_past : keep is_past recent ≡ []
    none_past =
        keep-beyond_last ordering (is_visible user k t) (λ ev. ev.canal_id == canal) k recent
          (λ ev here after. member-visible user canal k t ev member here after)
          (are_above-after ordering k is_new (rows t.eventos) (λ ev h. h))
          (are_rising-keep ordering is_new (rows t.eventos) rising)

    beyond' : ltb_ℤ next.timeline_position last ≡ false
    beyond' =
        rw
          (keep-keep (is_visible user k t) is_new (is_visible user k t) (visible-after user k t)
            (rows t.eventos))
          beyond

room-events :
    (user canal : String) (k : ℤ) (t : Tables) (kind : String)
    → IsOrdered t
    → kind_in canal user t ≡ some kind
    → get_events_of_canal_since user canal k t ≡ after_in canal k (rows t.eventos)
unfolding get_events_of_canal_since
room-events user canal k t kind (rising, low) present =
    rw (get_events_of_canal_since, present)
      (order_by-rising ordering (keep (is_in_since canal k) (rows t.eventos))
        (are_rising-keep ordering (is_in_since canal k) (rows t.eventos) rising))

after_in-later :
    (user canal : String) (since next : SyncToken) (t u : Tables) (new : List Evento)
    → IsOrdered t
    → ltb_ℤ (pos t.evento_serial) since.timeline_position ≡ false
    → kind_in canal user t ≡ some "join"
    → Follows user since next t
    → Adds t u new
    → after_in canal since.timeline_position (rows u.eventos)
      ≡ after_in canal since.timeline_position (rows t.eventos)
        ++ after_in canal next.timeline_position (rows u.eventos)
after_in-later user canal since next t u new ordered fits member follows (whole, above, late) =
    rw whole (
      keep-append (is_in_since canal since.timeline_position) (rows t.eventos) new
      ∙ ap (λ l. after_in canal since.timeline_position (rows t.eventos) ++ l)
          (after_in-above canal since.timeline_position next.timeline_position (pos t.evento_serial)
              new fits (follows.2) above
            ∙ sym (
                keep-append (is_in_since canal next.timeline_position) (rows t.eventos) new
                ∙ ap (λ l. l ++ after_in canal next.timeline_position new)
                    (after_in-next user canal since next t ordered member follows))))

-- What the query finds of a room since a first token is what it found when the next token was
-- given, followed by what it finds since that one.
pub timelines-join :
    (user canal kind : String) (since next : SyncToken) (db db' : Db) (u : Tables)
    → IsOrdered db.tables
    → ltb_ℤ (pos db.tables.evento_serial) since.timeline_position ≡ false
    → kind_in canal user db.tables ≡ some "join"
    → generate_next_since_token user since db ≡ (ok next, db')
    → Later db.tables u
    → kind_in canal user u ≡ some kind
    → get_events_of_canal_since user canal since.timeline_position u
      ≡ get_events_of_canal_since user canal since.timeline_position db.tables
        ++ get_events_of_canal_since user canal next.timeline_position u
timelines-join user canal kind since next db db' u ordered fits member ran later present =
    let (ordered', (new, adds)) = later-facts db.tables ordered later in
    let follows : Follows user since next db.tables =
      observed (generate_next_since_token user since) (λ n t. Follows user since n db.tables) next
        db db'
        (generate-Ensures user since (λ n t. Follows user since n db.tables) db.tables
          (token_from-Follows user since db.tables ordered fits))
        ran in
    rw
      (
        room-events user canal since.timeline_position u kind ordered' present,
        room-events user canal since.timeline_position db.tables "join" ordered member,
        room-events user canal next.timeline_position u kind ordered' present,
      )
      (after_in-later user canal since next db.tables u new ordered fits member follows adds)
