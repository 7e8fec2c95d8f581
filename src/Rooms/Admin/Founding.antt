-- ===== src/Rooms/Admin/Founding.antt =====
-- The first events of a new room can always be linked.
use dragonite.Base.{
  ℕ, suc, String, ◌≡◌, refl, some, List, [], ◌∷◌, ◌++◌, arith, ◌==◌, string_eq, Bool-cases,
  Option-cases, inl, inr, length,
}
use dragonite.Domain.{Evento}
use dragonite.Rooms.{Env, hash_matrix_event}
use dragonite.Rooms.Build.{
  StateEventParams, new_base_event, build_create_event, build_join_event, build_power_level_event,
  build_join_rules_event, build_name_event, build_topic_event, build_alias_event,
  build_initial_state_events, is_protected_genesis_event,
}
use dragonite.Rooms.Genesis.{
  GenesisState, is_own, resolve_genesis_auth, link_timeline, track, seal, link_event, cons_some,
  link_events, link_and_hash_genesis,
}
use dragonite.Rooms.Genesis.Chain.{IsLine, IsBacked, link_and_hash_genesis-IsLine}
use dragonite.Rooms.Admin.{CreateRoomParams, full_alias, event_for, events_to_save}

abbrev AreKeyed : List Evento → Type 0
AreKeyed [] = Unit
AreKeyed (ev ∷ evs) = ((key : String) × (ev.state_key ≡ some key)) × AreKeyed evs

AreKeyed-append : (xs ys : List Evento) → AreKeyed xs → AreKeyed ys → AreKeyed (xs ++ ys)
AreKeyed-append [] ys h k = k
AreKeyed-append (x ∷ xs) ys (h, hs) k = (h, AreKeyed-append xs ys hs k)

event_for-AreKeyed :
    (value : String) (ev : Evento)
    → (key : String) × (ev.state_key ≡ some key)
    → AreKeyed (event_for value ev)
unfolding event_for
event_for-AreKeyed value ev keyed = elim (Bool-cases (value == "")) [
  | inl blank ↦ rw blank tt
  | inr given ↦ rw given (keyed, tt)
]

initial-AreKeyed :
    (env : Env) (room creator : String) (reqs : List StateEventParams)
    → AreKeyed (build_initial_state_events env room creator reqs)
unfolding build_initial_state_events new_base_event
initial-AreKeyed env room creator [] = tt
initial-AreKeyed env room creator (req ∷ reqs) =
    elim (Bool-cases (is_protected_genesis_event req.tipo)) [
      | inl shut ↦ rw shut (initial-AreKeyed env room creator reqs)
      | inr free ↦ rw free ((_, refl), initial-AreKeyed env room creator reqs)
    ]

events_to_save-AreKeyed :
    (env : Env) (room : String) (p : CreateRoomParams) (names : String × String)
    → AreKeyed (events_to_save env room p names)
unfolding events_to_save build_create_event build_join_event build_power_level_event
    build_join_rules_event build_name_event build_topic_event build_alias_event new_base_event
events_to_save-AreKeyed env room p names = (
  (_, refl),
  (
    (_, refl),
    (
      (_, refl),
      (
        (_, refl),
        AreKeyed-append (event_for p.name name) _ (event_for-AreKeyed p.name name (_, refl)) (
            AreKeyed-append (event_for p.topic topic) _ (event_for-AreKeyed p.topic topic (_, refl))
              (AreKeyed-append (event_for p.alias alias) _
                (event_for-AreKeyed p.alias alias (_, refl))
                (initial-AreKeyed env room p.creator_id p.initial_state))),
      ),
    ),
  ),
)
  where
    name : Evento
    name = build_name_event env room p.creator_id p.name

    topic : Evento
    topic = build_topic_event env room p.creator_id p.topic

    alias : Evento
    alias = build_alias_event env room p.creator_id (full_alias env p.alias)

module _ (env : Env) (digests : (ev : Evento) → (id : String) × (env.digest ev ≡ some id))
    (signs : (ev : Evento) → (sigs : String) × (env.sign_matrix_event ev ≡ some sigs)) where
  seal-total : (ev : Evento) → (sealed : Evento) × (seal env ev ≡ some sealed)
  unfolding seal hash_matrix_event
  seal-total ev =
      let (id, hashed) = digests (record ev { id = ""; signatures = ""; unsigned = "" }) in
      let (sigs, signed) = signs (record ev { id = id }) in
      (record ev { id = id; signatures = sigs }, ground (arith, hashed, signed))

  resolve_genesis_auth-total :
      (ev : Evento) (s : GenesisState) (key : String)
      → ev.state_key ≡ some key
      → (auths : List String) × (resolve_genesis_auth ev s ≡ some auths)
  unfolding resolve_genesis_auth is_own
  resolve_genesis_auth-total ev s key keyed = elim (Option-cases (resolve_genesis_auth ev s)) [
    | inl missing ↦ absurd (ground (arith, missing, keyed))
    | inr found ↦ found
  ]

  link_event-total :
      (i : ℕ) (ev : Evento) (s : GenesisState) (key : String)
      → ev.state_key ≡ some key
      → (linked : Evento) × (link_event env i ev s ≡ some linked)
  unfolding link_event link_timeline
  link_event-total i ev s key keyed =
      let (auths, resolved) =
        resolve_genesis_auth-total (link_timeline i ev s) s key (ground (arith, keyed)) in
      let (sealed, made) = seal-total (record (link_timeline i ev s) { auth_eventos = auths }) in
      (sealed, ground (arith, resolved, made))

  link_events-total :
      (i : ℕ) (evs : List Evento) (s : GenesisState)
      → AreKeyed evs
      → (out : List Evento) × (link_events env i evs s ≡ some out) × (length out ≡ length evs)
  unfolding link_events cons_some
  link_events-total i [] s keyed = ([], refl, refl)
  link_events-total i (ev ∷ evs) s ((key, has), keyed) =
      let (linked, made) = link_event-total i ev s key has in
      let (out, rest, same) = link_events-total (suc i) evs (track linked s) keyed in
      (linked ∷ out, ground (arith, made, rest), ground (arith, same))

  -- Where every event can be hashed and signed, the events of a new room are linked, whatever the
  -- client asks for: as many as were built, in one line from depth 0, and each backed by events
  -- before it.
  pub events_to_save-IsLine :
      (room : String) (p : CreateRoomParams) (names : String × String)
      → (out : List Evento) × (link_and_hash_genesis env (events_to_save env room p names)
          ≡ some out)
        × (length out ≡ length (events_to_save env room p names))
        × IsLine out
        × IsBacked [] out
  unfolding link_and_hash_genesis
  events_to_save-IsLine room p names =
      let (out, made, same) =
        link_events-total 0 (events_to_save env room p names) _
          (events_to_save-AreKeyed env room p names) in
      let (line, backed) =
        link_and_hash_genesis-IsLine env (events_to_save env room p names) out made in
      (out, made, same, line, backed)
