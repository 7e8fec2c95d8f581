-- ===== src/Rooms/Messages/Sent.antt =====
-- What sending an event establishes, and that nothing but the database stops a member.
use dragonite.Base.{
  String, ◌≡◌, refl, Bool, true, not, ◌&&◌, Option, none, some, List, [], ◌∷◌, arith, ◌==◌,
  string_eq, elem, Option-cases, inl, inr, suc,
}
use dragonite.Base.Int.{ℤ, pos, next_int64, ltb_ℤ}
use dragonite.Base.Map.{Map, lookup, lookup-insert}
use dragonite.Domain.{RawMessage, Evento, tuple_eq}
use dragonite.Store.{
  Tables, tips_of, membership_of, save_evento, update_forward_extremities, max_depth_from_eventos,
  state_id_eq, member_id_eq,
}
use dragonite.Store.Action.{
  forbidden, bad_content, hash_failure, of_option, read_or, write, execute, queue_outgoing, Ensures,
}
use dragonite.Store.Triples.{
  read_or-Ensures, of_option-Ensures, return-Ensures, fail_if-Ensures, write-Ensures, bind-Ensures,
  execute-Ensures, queue_outgoing-Ensures,
}
use dragonite.Rooms.{Env}
use dragonite.Rooms.Genesis.{seal}
use dragonite.Rooms.Genesis.Chain.{seal-same}
use dragonite.Rooms.Membership.{place}
use dragonite.Rooms.Membership.Effects.{place_exact-Ensures}
use dragonite.Rooms.Messages.{
  EventParams, require_join, compose, extend_timeline, build_message, send_event_body, send_event,
}
use dragonite.Rooms.Messages.Timeline.{tips_of-update, deeper, are_shallow}
use text.Mathlib.TextEquality.{eq_iff}

-- Each of these events that is stored lies above this depth.
unfoldable pub are_below : List String → ℤ → Map String Evento → Bool
unfolding lookup
are_below [] d eventos = true
are_below (id ∷ ids) d eventos =
    elim (lookup id eventos) [ none ↦ true | some p ↦ ltb_ℤ p.depth d ] && are_below ids d eventos

-- The row of an event that is saved: its own, unless one with its id is there.
unfoldable pub saved : Evento → Tables → Evento
unfolding lookup
saved ev t = elim (lookup ev.id t.eventos) [
  | none ↦ record ev { redacts = ""; stream_ordering = pos (suc t.evento_serial) }
  | some old ↦ old
]

-- The timeline of the room goes on with one event of this id: its previous events are all the tips
-- that the room had, it is deeper than each of them, it is stored, and it is the only tip now.
abbrev pub Extends : String → String → Tables → Tables → Type 0
Extends canal id before after =
    (ev : Evento) × (ev.id ≡ id)
    × (ev.prev_eventos ≡ tips_of canal before.extremidades)
    × (are_below ev.prev_eventos ev.depth before.eventos ≡ true)
    × (lookup id after.eventos ≡ some (saved ev before))
    × (tips_of canal after.extremidades ≡ id ∷ [])

are_below-max_depth :
    (js ids : List String) (t : Tables)
    → are_shallow t.eventos ≡ true
    → ((j : String) → elem j js ≡ true → elem j ids ≡ true)
    → are_below js (next_int64 (max_depth_from_eventos ids t)) t.eventos ≡ true
unfolding are_below elem
are_below-max_depth [] ids t shallow among = refl
are_below-max_depth (j ∷ js) ids t shallow among =
    let rest : are_below js (next_int64 (max_depth_from_eventos ids t)) t.eventos ≡ true =
      are_below-max_depth js ids t shallow (λ i h. among i (ground (arith, h))) in
    elim (Option-cases (lookup j t.eventos)) [
      | inl missing ↦ ground (arith, missing, rest)
      | inr (p, found) ↦ ground (
        arith,
        found,
        rest,
        deeper ids j p t shallow (among j (ground (arith, eq_iff j j))) found,
      )
    ]

lookup-save_evento :
    (ev : Evento) (t : Tables) → lookup ev.id (save_evento ev t).eventos ≡ some (saved ev t)
unfolding save_evento saved
lookup-save_evento ev t = elim (Option-cases (lookup ev.id t.eventos)) [
  | inl new ↦ ground (
    arith,
    new,
    eq_iff ev.id ev.id,
    lookup-insert ev.id ev.id
        (record ev { redacts = ""; stream_ordering = pos (suc t.evento_serial) }) t.eventos,
  )
  | inr (old, found) ↦ rw (save_evento, saved, found) found
]

tips-save_evento : (ev : Evento) (t : Tables) → (save_evento ev t).extremidades ≡ t.extremidades
unfolding save_evento
tips-save_evento ev t = elim (Option-cases (lookup ev.id t.eventos)) [
  | inl new ↦ rw (save_evento, new) refl
  | inr (old, found) ↦ rw (save_evento, found) refl
]

memberships-save_evento :
    (ev : Evento) (t : Tables) → (save_evento ev t).memberships ≡ t.memberships
unfolding save_evento
memberships-save_evento ev t = elim (Option-cases (lookup ev.id t.eventos)) [
  | inl new ↦ rw (save_evento, new) refl
  | inr (old, found) ↦ rw (save_evento, found) refl
]

module _ (F : Type 0) where
  pub require_join-Ensures :
      (canal user : String) (Q : Unit {0} → Tables → Type 0) (t : Tables)
      → (F → membership_of canal user t ≡ "join")
      → (membership_of canal user t ≡ "join" → Q tt t)
      → Ensures F (require_join canal user) Q t
  unfolding require_join
  require_join-Ensures canal user Q t member q =
      bind-Ensures F (read_or "" (membership_of canal user)) _ Q t (
        read_or-Ensures F "" (membership_of canal user) _ t
          (fail_if-Ensures F (not (membership_of canal user t == "join")) forbidden Q t
            (λ out f. ground (arith, member f, out, eq_iff (membership_of canal user t) "join"))
            (λ in_room. q (ground (arith, in_room, eq_iff (membership_of canal user t) "join"))))
          (λ n. fail_if-Ensures F true forbidden Q t (λ e f. n f) (λ e. absurd cc)))

  -- The composed event names every tip and is deeper than each; only an event that cannot be hashed
  -- or signed, or the database, stops it.
  pub compose-Ensures :
      (env : Env) (canal sender : String) (built : Evento) (Q : Evento → Tables → Type 0)
      (t : Tables)
      → are_shallow t.eventos ≡ true
      → (F → (e : Evento) → (out : Evento) × (seal env e ≡ some out))
      → ((ev : Evento)
          → ev.prev_eventos ≡ tips_of canal t.extremidades
          → are_below ev.prev_eventos ev.depth t.eventos ≡ true
          → Q ev t)
      → Ensures F (compose env canal sender built) Q t
  unfolding compose
  compose-Ensures env canal sender built Q t shallow sealable q =
      bind-Ensures F (place canal sender built) _ Q t (
        place_exact-Ensures F canal sender built _ t λ auths.
          of_option-Ensures F hash_failure (seal env (placed auths)) Q t
            (λ failed f.
              let (out, made) = sealable f (placed auths) in ground (arith, failed, made))
            (λ ev made.
              let (prevs, depth, same) = seal-same env (placed auths) ev made in
              q ev prevs (
                ground (
                  arith,
                  prevs,
                  depth,
                  are_below-max_depth (tips_of canal t.extremidades) (tips_of canal t.extremidades)
                      t shallow (λ j h. h),
                ))))
    where
      placed : List String → Evento
      placed auths = record built {
        prev_eventos = tips_of canal t.extremidades;
        auth_eventos = auths;
        depth = next_int64 (max_depth_from_eventos (tips_of canal t.extremidades) t);
      }

  pub extend_timeline-Ensures :
      (canal : String) (ev : Evento) (Q : Unit {0} → Tables → Type 0) (t : Tables)
      → ev.prev_eventos ≡ tips_of canal t.extremidades
      → are_below ev.prev_eventos ev.depth t.eventos ≡ true
      → ((t' : Tables) → Extends canal ev.id t t' → t'.memberships ≡ t.memberships → Q tt t')
      → Ensures F (extend_timeline canal ev) Q t
  unfolding extend_timeline update_forward_extremities
  extend_timeline-Ensures canal ev Q t prevs below q =
      bind-Ensures F (write (save_evento ev)) _ Q t (
        write-Ensures F (save_evento ev) _ t (
          write-Ensures F (update_forward_extremities canal ev.id ev.prev_eventos) Q _ (
            q (update_forward_extremities canal ev.id ev.prev_eventos (save_evento ev t))
              (
                ev,
                refl,
                prevs,
                below,
                lookup-save_evento ev t,
                ground (
                  arith,
                  prevs,
                  tips-save_evento ev t,
                  tips_of-update canal ev.id (save_evento ev t),
                ),
              )
              (memberships-save_evento ev t))))

  -- A member's message extends the timeline of the room.
  pub send_event-Ensures :
      (env : Env) (marshal : RawMessage → Option RawMessage) (p : EventParams) (t : Tables)
      → are_shallow t.eventos ≡ true
      → (F → membership_of p.room_id p.sender_id t ≡ "join")
      → (F → (content : RawMessage) × (marshal p.content ≡ some content))
      → (F → (e : Evento) → (out : Evento) × (seal env e ≡ some out))
      → Ensures F
          (send_event env marshal p)
          (λ id t'. (membership_of p.room_id p.sender_id t ≡ "join") × Extends p.room_id id t t')
          t
  unfolding send_event send_event_body
  send_event-Ensures env marshal p t shallow member encodes sealable =
      bind-Ensures F (require_join p.room_id p.sender_id) _ _ t (
        require_join-Ensures p.room_id p.sender_id _ t member λ joined.
          bind-Ensures F (of_option bad_content (marshal p.content)) _ _ t (
            of_option-Ensures F bad_content (marshal p.content) _ t
              (λ failed f. let (content, made) = encodes f in ground (arith, failed, made))
              λ content made.
                bind-Ensures F (execute (send_event_body env p (build_message env p content))) _ _ t
                  (execute-Ensures F (send_event_body env p (build_message env p content)) _ t (
                    bind-Ensures F (compose env p.room_id p.sender_id (build_message env p content))
                      _ _ t
                      (compose-Ensures env p.room_id p.sender_id (build_message env p content) _ t
                        shallow sealable
                        λ ev prevs below. bind-Ensures F (extend_timeline p.room_id ev) _ _ t (
                          extend_timeline-Ensures p.room_id ev _ t prevs below λ t' extended kept.
                            return-Ensures F ev _ t' (
                              bind-Ensures F (queue_outgoing ev) _ _ t' (
                                queue_outgoing-Ensures F ev _ t'
                                  (return-Ensures F ev.id _ t' (joined, extended))))))))))
