-- ===== src/Rooms/Messages/StateSent.antt =====
-- What sending a state event establishes.
use dragonite.Base.{
  String, ◌≡◌, ◌≢◌, ◌∙◌, ap, refl, Option, none, some, arith, true, ◌==◌, string_eq, Bool-cases,
  Option-cases, inl, inr,
}
use text.Mathlib.TextEquality.{eq_iff}
use dragonite.Rooms.Messages.Timeline.{are_shallow}
use dragonite.Base.Map.{lookup-insert}
use dragonite.Domain.{RawMessage, Evento, Decoder, StateTuple, tuple_eq}
use dragonite.Store.{
  Tables, membership_of, state_event_id, upsert_current_state, upsert_membership, state_id_eq,
  state_id_beq_iff, member_id_eq,
}
use dragonite.Store.Action.{bad_content, of_option, write, execute, queue_outgoing, Ensures}
use dragonite.Store.Triples.{
  of_option-Ensures, return-Ensures, write-Ensures, bind-Ensures, execute-Ensures,
  queue_outgoing-Ensures,
}
use dragonite.Rooms.{Env}
use dragonite.Rooms.Genesis.{seal}
use dragonite.Rooms.Membership.Effects.{membership_of-upsert}
use dragonite.Rooms.Build.{new_base_event}
use dragonite.Rooms.Messages.{
  StateParams, require_join, compose, extend_timeline, build_state, membership_given,
  record_membership, send_state_body, send_state_event,
}
use dragonite.Rooms.Messages.Sent.{
  Extends, compose-Ensures, extend_timeline-Ensures, require_join-Ensures,
}

-- The state of the room holds the event under its type and key.
abbrev pub Holds : StateParams → String → Tables → Type 0
Holds p id t = state_event_id p.room_id p.event_type p.state_key t ≡ some id

abbrev key_of : StateParams → StateTuple
key_of p = record { event_type = p.event_type; state_key = p.state_key }

-- What is recorded of a membership that may be given.
unfoldable membership_then : StateParams → Option String → Tables → String
unfolding membership_of
membership_then p none t = membership_of p.room_id p.state_key t
membership_then p (some kind) t = kind

-- The membership of the user that an event is about, before and after it: a member event whose
-- content names a membership that is not empty sets it, and every other event leaves it.
pub data Turns (d : Decoder) (tipo : String) (content : RawMessage) (before after : String)
    : Type 0 where
  set :
      (kind : String)
      → tipo ≡ "m.room.member"
      → d.membership content ≡ some kind
      → kind ≢ ""
      → after ≡ kind
      → Turns d tipo content before after
  empty :
      tipo ≡ "m.room.member"
      → d.membership content ≡ some ""
      → after ≡ before
      → Turns d tipo content before after
  unread :
      tipo ≡ "m.room.member"
      → d.membership content ≡ none
      → after ≡ before
      → Turns d tipo content before after
  other : tipo ≢ "m.room.member" → after ≡ before → Turns d tipo content before after

abbrev pub IsNoted :
    Decoder → (RawMessage → Option RawMessage) → StateParams → Tables → Tables → Type 0
IsNoted d marshal p before after =
    (content : RawMessage) × (marshal p.content ≡ some content)
    × Turns d p.event_type content (membership_of p.room_id p.state_key before)
        (membership_of p.room_id p.state_key after)

membership_given-Turns :
    (d : Decoder) (p : StateParams) (content : RawMessage) (before : Tables) (after : String)
    → after ≡ membership_then p (membership_given d p.event_type content) before
    → Turns d p.event_type content (membership_of p.room_id p.state_key before) after
unfolding membership_given membership_then
membership_given-Turns d p content before after =
    elim (Bool-cases (p.event_type == "m.room.member")) [
      | inr differs ↦ rw differs (λ same.
          other (λ e. absurd (ground (arith, differs, eq_iff p.event_type "m.room.member", e)))
            same)
      | inl member ↦ elim (Option-cases (d.membership content)) [
        | inl nothing ↦
            rw (member, nothing)
              (λ same. unread ((eq_iff p.event_type "m.room.member").0 member) nothing same)
        | inr (kind, found) ↦ elim (Bool-cases (kind == "")) [
          | inl blank ↦
              rw (member, found, blank)
                (λ same.
                  empty ((eq_iff p.event_type "m.room.member").0 member)
                    (found ∙ ap some ((eq_iff kind "").0 blank)) same)
          | inr full ↦
              rw (member, found, full)
                (λ same.
                  set kind ((eq_iff p.event_type "m.room.member").0 member) found
                    (λ e. absurd (ground (arith, full, eq_iff kind "", e))) same)
        ]
      ]
    ]

state_event_id-upsert :
    (canal tipo key id : String) (t : Tables)
    → state_event_id canal tipo key
        (upsert_current_state canal (record { event_type = tipo; state_key = key }) id t)
      ≡ some id
unfolding state_event_id upsert_current_state
state_event_id-upsert canal tipo key id t = ground (
  arith,
  lookup-insert (record { canal = canal; tuple = record { event_type = tipo; state_key = key } })
      (record { canal = canal; tuple = record { event_type = tipo; state_key = key } }) id
      t.estado_atual,
  state_id_beq_iff (record { canal = canal; tuple = record { event_type = tipo; state_key = key } })
      (record { canal = canal; tuple = record { event_type = tipo; state_key = key } }),
)

module _ (F : Type 0) where
  record_membership-Ensures :
      (p : StateParams) (given : Option String) (id : String) (Q : Unit {0} → Tables → Type 0)
      (before t : Tables)
      → t.memberships ≡ before.memberships
      → ((t' : Tables)
          → t'.eventos ≡ t.eventos
          → t'.extremidades ≡ t.extremidades
          → t'.estado_atual ≡ t.estado_atual
          → membership_of p.room_id p.state_key t' ≡ membership_then p given before
          → Q tt t')
      → Ensures F (record_membership p.room_id p.state_key given id) Q t
  unfolding record_membership membership_then membership_of upsert_membership
  record_membership-Ensures p none id Q before t same q =
      return-Ensures F tt Q t (q t refl refl refl (ground (arith, same)))
  record_membership-Ensures p (some kind) id Q before t same q =
      write-Ensures F (upsert_membership p.room_id p.state_key kind id) Q t (
        q (upsert_membership p.room_id p.state_key kind id t) refl refl refl
          (membership_of-upsert p.room_id p.state_key kind id t))

  -- A member's state event extends the timeline of the room and is its state from then on.
  pub send_state_event-Ensures :
      (env : Env) (d : Decoder) (marshal : RawMessage → Option RawMessage) (p : StateParams)
      (t : Tables)
      → are_shallow t.eventos ≡ true
      → (F → membership_of p.room_id p.user_id t ≡ "join")
      → (F → (content : RawMessage) × (marshal p.content ≡ some content))
      → (F → (e : Evento) → (out : Evento) × (seal env e ≡ some out))
      → Ensures F
          (send_state_event env d marshal p)
          (λ id t'.
            (membership_of p.room_id p.user_id t ≡ "join")
            × Extends p.room_id id t t'
            × Holds p id t'
            × IsNoted d marshal p t t')
          t
  unfolding send_state_event send_state_body build_state new_base_event upsert_current_state
      state_event_id
  send_state_event-Ensures env d marshal p t shallow member encodes sealable =
      bind-Ensures F (require_join p.room_id p.user_id) _ _ t (
        require_join-Ensures F p.room_id p.user_id _ t member λ joined.
          bind-Ensures F (of_option bad_content (marshal p.content)) _ _ t (
            of_option-Ensures F bad_content (marshal p.content) _ t
              (λ failed f. let (content, made) = encodes f in ground (arith, failed, made))
              λ content made.
                bind-Ensures F (execute (send_state_body env d p (build_state env p content))) _ _ t
                  (execute-Ensures F (send_state_body env d p (build_state env p content)) _ t (
                    bind-Ensures F (compose env p.room_id p.user_id (build_state env p content)) _ _
                      t
                      (compose-Ensures F env p.room_id p.user_id (build_state env p content) _ t
                        shallow sealable
                        λ ev prevs below. bind-Ensures F (extend_timeline p.room_id ev) _ _ t (
                          extend_timeline-Ensures F p.room_id ev _ t prevs below
                            λ t₁ (row, named, before, lower, stored, tip) kept.
                              bind-Ensures F
                                (write (upsert_current_state p.room_id (key_of p) ev.id)) _ _ t₁
                                (write-Ensures F (upsert_current_state p.room_id (key_of p) ev.id) _
                                  t₁
                                  (bind-Ensures F
                                    (record_membership p.room_id p.state_key
                                      (membership_given d p.event_type content) ev.id)
                                    _ _ _
                                    (record_membership-Ensures p
                                      (membership_given d p.event_type content) ev.id _ t
                                      (upsert_current_state p.room_id (key_of p) ev.id t₁) kept
                                      λ t₂ eventos tips state noted. return-Ensures F ev _ t₂ (
                                        bind-Ensures F (queue_outgoing ev) _ _ t₂ (
                                          queue_outgoing-Ensures F ev _ t₂ (
                                            return-Ensures F ev.id _ t₂ (
                                              joined,
                                              (
                                                row,
                                                named,
                                                before,
                                                lower,
                                                ground (arith, stored, eventos),
                                                ground (arith, tip, tips),
                                              ),
                                              ground (
                                                arith,
                                                state,
                                                state_event_id-upsert p.room_id p.event_type
                                                    p.state_key ev.id t₁,
                                              ),
                                              (
                                                content,
                                                made,
                                                membership_given-Turns d p content t _ noted,
                                              ),
                                            )))))))))))))
