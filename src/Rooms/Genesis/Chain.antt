-- ===== src/Rooms/Genesis/Chain.antt =====
-- The shape of a new room's graph.
use dragonite.Base.{
  ℕ, suc, String, ◌≡◌, inl, inr, refl, Bool, true, false, some, List, [], ◌∷◌, arith, ◌==◌, nat_eq,
  string_eq, elem, elem-append, if◌then◌else◌, Option-cases,
}
use dragonite.Base.Int.{pos, incr}
use dragonite.Base.Map.{lookup, lookup-insert}
use dragonite.Domain.{Evento}
use dragonite.Rooms.{Env, hash_matrix_event}
use dragonite.Rooms.Genesis.{
  GenesisState, cache_key, get_auth, append_auth, is_own, auths_for, resolve_genesis_auth,
  link_timeline, track, seal, link_event, cons_some, link_events, link_and_hash_genesis,
}
use mathlib.Core.Option.{some-injective}
use mathlib.Core.Path.{subst}
use text.Mathlib.TextEquality.{eq_iff}

-- Every event after the first names the one before it and lies one deeper.
abbrev pub Follows : Evento → List Evento → Type 0
Follows before [] = Unit
Follows before (ev ∷ evs) =
    (ev.prev_eventos ≡ before.id ∷ []) × (ev.depth ≡ incr before.depth) × Follows ev evs

abbrev pub IsLine : List Evento → Type 0
IsLine [] = Unit
IsLine (ev ∷ evs) = (ev.prev_eventos ≡ []) × (ev.depth ≡ pos 0) × Follows ev evs

-- Every auth event is an event before.
abbrev pub IsBacked : List String → List Evento → Type 0
IsBacked seen [] = Unit
IsBacked seen (ev ∷ evs) =
    ((a : String) → elem a ev.auth_eventos ≡ true → elem a seen ≡ true)
    × IsBacked (ev.id ∷ seen) evs

-- What the cache holds are ids of events before.
abbrev IsCached : List String → GenesisState → Type 0
IsCached seen s = (k v : String) → lookup k s.auth_cache ≡ some v → elem v seen ≡ true

append_auth-within :
    (seen : List String) (s : GenesisState) (tipo key : String) (auths : List String)
    → IsCached seen s
    → ((a : String) → elem a auths ≡ true → elem a seen ≡ true)
    → (a : String) → elem a (append_auth s tipo key auths) ≡ true
    → elem a seen ≡ true
unfolding append_auth get_auth elem
append_auth-within seen s tipo key auths cached within a m =
    elim (Option-cases (lookup (cache_key tipo key) s.auth_cache)) [
      | inl missing ↦ ground (arith, m, missing, within a)
      | inr (id, found) ↦ ground (
        arith,
        m,
        found,
        within a,
        cached (cache_key tipo key) id found,
        elem-append a auths (id ∷ []),
        eq_iff id a,
      )
    ]

auths_for-within :
    (seen : List String) (s : GenesisState) (ev : Evento) (own : Bool)
    → IsCached seen s
    → (a : String) → elem a (auths_for ev s own) ≡ true
    → elem a seen ≡ true
unfolding auths_for
auths_for-within seen s ev own cached = go own (ev.tipo == "m.room.member")
  where
    within_nil : (a : String) → elem {A = String} a [] ≡ true → elem a seen ≡ true
    within_nil a m = absurd (unfold elem in ground (arith, m))

    base : (a : String) → elem a (append_auth s "m.room.create" "" []) ≡ true → elem a seen ≡ true
    base = append_auth-within seen s "m.room.create" "" [] cached within_nil

    levels :
        (a : String)
        → elem a (append_auth s "m.room.power_levels" "" (append_auth s "m.room.create" "" []))
          ≡ true
        → elem a seen ≡ true
    levels = append_auth-within seen s "m.room.power_levels" "" _ cached base

    known :
        (a : String)
        → elem a (
            append_auth s "m.room.member" ev.sender
              (append_auth s "m.room.power_levels" "" (append_auth s "m.room.create" "" [])))
          ≡ true
        → elem a seen ≡ true
    known = append_auth-within seen s "m.room.member" ev.sender _ cached levels

    go :
        (own member : Bool) (a : String)
        → elem a (
            if own
            then append_auth s "m.room.power_levels" "" (append_auth s "m.room.create" "" [])
            else if member
            then append_auth s "m.room.join_rules" "" (
                append_auth s "m.room.member" ev.sender
                  (append_auth s "m.room.power_levels" "" (append_auth s "m.room.create" "" [])))
            else append_auth s "m.room.member" ev.sender
                (append_auth s "m.room.power_levels" "" (append_auth s "m.room.create" "" [])))
          ≡ true
        → elem a seen ≡ true
    go true member = levels
    go false true = append_auth-within seen s "m.room.join_rules" "" _ cached known
    go false false = known

resolve_genesis_auth-within :
    (seen : List String) (s : GenesisState) (ev : Evento) (auths : List String)
    → IsCached seen s
    → resolve_genesis_auth ev s ≡ some auths
    → (a : String) → elem a auths ≡ true
    → elem a seen ≡ true
unfolding resolve_genesis_auth elem
resolve_genesis_auth-within seen s ev auths cached e a m = elim (Option-cases (is_own ev)) [
  | inl nil ↦ absurd (ground (arith, nil, e, m))
  | inr (own, known) ↦ ground (arith, known, e, m, auths_for-within seen s ev own cached a)
]

pub seal-same :
    (env : Env) (ev sealed : Evento)
    → seal env ev ≡ some sealed
    → (sealed.prev_eventos ≡ ev.prev_eventos)
      × (sealed.depth ≡ ev.depth)
      × (sealed.auth_eventos ≡ ev.auth_eventos)
unfolding seal
seal-same env ev sealed e = elim (Option-cases (hash_matrix_event env ev)) [
  | inl missing ↦ absurd (ground (arith, missing, e))
  | inr (id, hashed) ↦ elim (Option-cases (env.sign_matrix_event (record ev { id = id }))) [
    | inl missing ↦ absurd (ground (arith, missing, hashed, e))
    | inr (sigs, signed) ↦ ground (arith, hashed, signed, e)
  ]
]

abbrev start : GenesisState
start = record { latest_depth = pos 0; latest_event_id = ""; auth_cache = [] }

-- What one round makes of an event.
link_event-facts :
    (env : Env) (i : ℕ) (ev : Evento) (s : GenesisState) (seen : List String) (linked : Evento)
    → IsCached seen s
    → link_event env i ev s ≡ some linked
    → (linked.prev_eventos ≡ (if i == 0 then [] else s.latest_event_id ∷ []))
      × (linked.depth ≡ (if i == 0 then pos 0 else incr s.latest_depth))
      × ((a : String) → elem a linked.auth_eventos ≡ true → elem a seen ≡ true)
unfolding link_event link_timeline
link_event-facts env i ev s seen linked cached e =
    elim (Option-cases (resolve_genesis_auth (link_timeline i ev s) s)) [
      | inl missing ↦ absurd (ground (arith, missing, e))
      | inr (auths, resolved) ↦
          (let (prevs, depth, same) =
              seal-same env (record (link_timeline i ev s) { auth_eventos = auths }) linked
                (ground (arith, resolved, e)) in
            (
              ground (arith, prevs),
              ground (arith, depth),
              λ a m.
                  resolve_genesis_auth-within seen s (link_timeline i ev s) auths cached resolved a
                    (ground (arith, same, m)),
            ))
    ]

track-IsCached :
    (seen : List String) (ev : Evento) (s : GenesisState)
    → IsCached seen s
    → IsCached (ev.id ∷ seen) (track ev s)
unfolding track elem
track-IsCached seen ev s cached k v h = elim (Option-cases ev.state_key) [
  | inl missing ↦ ground (arith, missing, h, cached k v)
  | inr (key, has) ↦ ground (
    arith,
    has,
    h,
    cached k v,
    lookup-insert (cache_key ev.tipo key) k ev.id s.auth_cache,
    eq_iff ev.id v,
  )
]

link_events-shape :
    (env : Env) (i : ℕ) (evs : List Evento) (s : GenesisState) (seen : List String)
    (out : List Evento) (before : Evento)
    → IsCached seen s
    → s.latest_event_id ≡ before.id
    → s.latest_depth ≡ before.depth
    → link_events env (suc i) evs s ≡ some out
    → Follows before out × IsBacked seen out
unfolding link_events cons_some
link_events-shape env i [] s seen out before cached at deep e =
    subst (λ o. Follows before o × IsBacked seen o) (some-injective _ _ e) (tt, tt)
link_events-shape env i (ev ∷ evs) s seen out before cached at deep e =
    elim (Option-cases (link_event env (suc i) ev s)) [
      | inl missing ↦ absurd (ground (arith, missing, e))
      | inr (linked, found) ↦
          elim (Option-cases (link_events env (suc (suc i)) evs (track linked s))) [
            | inl missing ↦ absurd (ground (arith, missing, found, e))
            | inr (rest, made) ↦
                (let (prevs, depth, backed) =
                    link_event-facts env (suc i) ev s seen linked cached found in
                  let (follows, more) =
                    link_events-shape env (suc i) evs (track linked s) (linked.id ∷ seen) rest
                      linked (track-IsCached seen linked s cached) (unfold track in refl)
                      (unfold track in refl) made in
                  let whole : some (linked ∷ rest) ≡ some out = ground (arith, found, made, e) in
                  subst (λ o. Follows before o × IsBacked seen o) (some-injective _ _ whole)
                    (
                      (ground (arith, prevs, at), ground (arith, depth, deep), follows),
                      (backed, more),
                    ))
          ]
    ]

empty-IsCached : (s : GenesisState) → s.auth_cache ≡ [] → IsCached [] s
unfolding lookup
empty-IsCached s e k v h = absurd (ground (arith, e, h))

-- The events of a new room form one line: the first has no previous event and depth 0, each other
-- one names exactly the one before it and lies one deeper; and the auth events of each are among
-- the events before it.
pub link_and_hash_genesis-IsLine :
    (env : Env) (events out : List Evento)
    → link_and_hash_genesis env events ≡ some out
    → IsLine out × IsBacked [] out
unfolding link_and_hash_genesis link_events cons_some
link_and_hash_genesis-IsLine env [] out e =
    subst (λ o. IsLine o × IsBacked [] o) (some-injective _ _ e) (tt, tt)
link_and_hash_genesis-IsLine env (ev ∷ evs) out e =
    elim (Option-cases (link_event env 0 ev start)) [
      | inl missing ↦ absurd (ground (arith, missing, e))
      | inr (linked, found) ↦ elim (Option-cases (link_events env 1 evs (track linked start))) [
        | inl missing ↦ absurd (ground (arith, missing, found, e))
        | inr (rest, made) ↦
            (let (prevs, depth, backed) =
                link_event-facts env 0 ev start [] linked (empty-IsCached start refl) found in
              let (follows, more) =
                link_events-shape env 0 evs (track linked start) (linked.id ∷ []) rest linked
                  (track-IsCached [] linked start (empty-IsCached start refl))
                  (unfold track in refl) (unfold track in refl) made in
              let whole : some (linked ∷ rest) ≡ some out = ground (arith, found, made, e) in
              subst (λ o. IsLine o × IsBacked [] o) (some-injective _ _ whole)
                ((ground (arith, prevs), ground (arith, depth), follows), (backed, more)))
      ]
    ]
