-- ===== src/Rooms/Messages/Timeline.antt =====
-- What saving an event at the end of a timeline does to the tips and the depths of a room.
use dragonite.Base.{
  String, ◌≡◌, refl, Bool, true, false, not, Option, none, some, List, [], ◌∷◌, ◌++◌, ◌&&◌, arith,
  ◌==◌, string_eq, elem, Bool-cases, inl, inr, Option-cases,
}
use dragonite.Base.Int.{ℤ, pos, next_int64, next_int64-grows, max_int64, ltb_ℤ}
use dragonite.Base.Map.{Map, lookup}
use dragonite.Domain.{Evento}
use dragonite.Store.{
  Tables, Tip, tip_eq, tip_beq_iff, tips_of, delete_tips, insert_tip, update_forward_extremities,
  max_depth, max_depth_from_eventos,
}
use text.Mathlib.TextEquality.{eq_iff}

tips_of-append :
    (c : String) (xs ys : List Tip) → tips_of c (xs ++ ys) ≡ tips_of c xs ++ tips_of c ys
unfolding tips_of
tips_of-append c [] ys = refl
tips_of-append c (x ∷ xs) ys = ground (arith, tips_of-append c xs ys)

-- A room whose every tip is deleted has none left.
tips_of-delete_tips :
    (c : String) (prevs : List String) (tips : List Tip)
    → ((e : String) → elem e (tips_of c tips) ≡ true → elem e prevs ≡ true)
    → tips_of c (delete_tips c prevs tips) ≡ []
unfolding tips_of delete_tips elem
tips_of-delete_tips c prevs [] covered = refl
tips_of-delete_tips c prevs (x ∷ xs) covered = elim (Bool-cases (x.canal == c)) [
  | inl own ↦ ground (
    arith,
    own,
    covered x.evento,
    eq_iff x.evento x.evento,
    tips_of-delete_tips c prevs xs (λ e h. ground (arith, h, own, covered e)),
  )
  | inr other ↦
      ground
        (arith, other, tips_of-delete_tips c prevs xs (λ e h. ground (arith, h, other, covered e)))
]

-- The tips of another room stay.
tips_of-delete_other :
    (c other : String) (prevs : List String) (tips : List Tip)
    → (c == other) ≡ false
    → tips_of other (delete_tips c prevs tips) ≡ tips_of other tips
unfolding tips_of delete_tips
tips_of-delete_other c other prevs [] differ = refl
tips_of-delete_other c other prevs (x ∷ xs) differ = ground (
  arith,
  differ,
  eq_iff c other,
  eq_iff x.canal c,
  eq_iff x.canal other,
  tips_of-delete_other c other prevs xs differ,
)

no_tip : (tip : Tip) (tips : List Tip) → tips_of tip.canal tips ≡ [] → elem tip tips ≡ false
unfolding tips_of elem
no_tip tip [] h = refl
no_tip tip (x ∷ xs) h =
    ground (arith, h, no_tip tip xs, tip_beq_iff x tip, eq_iff x.canal tip.canal)

-- After an event that names every tip of its room, it is the only tip.
pub tips_of-update :
    (c id : String) (t : Tables)
    → tips_of c (update_forward_extremities c id (tips_of c t.extremidades) t).extremidades
      ≡ id ∷ []
unfolding update_forward_extremities insert_tip tips_of
tips_of-update c id t =
    let gone : tips_of c (delete_tips c (tips_of c t.extremidades) t.extremidades) ≡ [] =
      tips_of-delete_tips c (tips_of c t.extremidades) t.extremidades (λ e h. h) in
    ground (
      arith,
      gone,
      no_tip (record { canal = c; evento = id })
          (delete_tips c (tips_of c t.extremidades) t.extremidades) gone,
      tips_of-append c (delete_tips c (tips_of c t.extremidades) t.extremidades)
          (record { canal = c; evento = id } ∷ []),
      eq_iff c c,
    )

pub tips_of-update_other :
    (c other id : String) (prevs : List String) (t : Tables)
    → (c == other) ≡ false
    → tips_of other (update_forward_extremities c id prevs t).extremidades
      ≡ tips_of other t.extremidades
unfolding update_forward_extremities insert_tip tips_of
tips_of-update_other c other id prevs t differ = ground (
  arith,
  differ,
  tips_of-delete_other c other prevs t.extremidades differ,
  tips_of-append other (delete_tips c prevs t.extremidades)
      (record { canal = c; evento = id } ∷ []),
  append_nil (tips_of other t.extremidades),
)
  where
    append_nil : (xs : List String) → xs ++ [] ≡ xs
    append_nil [] = refl
    append_nil (x ∷ xs) = cc (append_nil xs)

-- The greatest depth is no less than the depth of any event it ranges over.
not_above : Option ℤ → ℤ → Bool
not_above none d = false
not_above (some m) d = not (ltb_ℤ m d)

lookup-max_depth :
    (ids : List String) (id : String) (p : Evento) (eventos : Map String Evento)
    → elem id ids ≡ true
    → lookup id eventos ≡ some p
    → not_above (max_depth ids eventos) p.depth ≡ true
unfolding lookup max_depth not_above
lookup-max_depth ids id p [] among found = absurd cc
lookup-max_depth ids id p ((k, ev) ∷ rest) among found = elim (Bool-cases (k == id)) [
  | inl here ↦ elim (Option-cases (max_depth ids rest)) [
    | inl nothing ↦ ground (arith, here, nothing, found, among, eq_iff k id)
    | inr (m, deepest) ↦ ground (arith, here, deepest, found, among, eq_iff k id)
  ]
  | inr further ↦ elim (Option-cases (max_depth ids rest)) [
    | inl nothing ↦ ground (arith, further, nothing, found, among, lookup-max_depth ids id p rest)
    | inr (m, deepest) ↦
        ground (arith, further, deepest, found, among, lookup-max_depth ids id p rest)
  ]
]

-- No stored event has the greatest depth that an int64 has.
unfoldable pub are_shallow : Map String Evento → Bool
are_shallow [] = true
are_shallow ((id, ev) ∷ rest) = ltb_ℤ ev.depth (pos max_int64) && are_shallow rest

max_depth-shallow :
    (ids : List String) (eventos : Map String Evento) (m : ℤ)
    → are_shallow eventos ≡ true
    → max_depth ids eventos ≡ some m
    → ltb_ℤ m (pos max_int64) ≡ true
unfolding max_depth are_shallow
max_depth-shallow ids [] m shallow deepest = absurd cc
max_depth-shallow ids ((k, ev) ∷ rest) m shallow deepest =
    elim (Option-cases (max_depth ids rest)) [
      | inl nothing ↦ ground (arith, shallow, nothing, deepest)
      | inr (d, further) ↦ ground (arith, shallow, further, deepest, max_depth-shallow ids rest d)
    ]

-- An event one deeper than the deepest of its previous events is deeper than each.
pub deeper :
    (ids : List String) (id : String) (p : Evento) (t : Tables)
    → are_shallow t.eventos ≡ true
    → elem id ids ≡ true
    → lookup id t.eventos ≡ some p
    → ltb_ℤ p.depth (next_int64 (max_depth_from_eventos ids t)) ≡ true
unfolding max_depth_from_eventos elem not_above
deeper [] id p t shallow among found = absurd cc
deeper (i ∷ is) id p t shallow among found = elim (Option-cases (max_depth (i ∷ is) t.eventos)) [
  | inl nothing ↦ ground (arith, nothing, lookup-max_depth (i ∷ is) id p t.eventos among found)
  | inr (m, deepest) ↦ ground (
    arith,
    deepest,
    lookup-max_depth (i ∷ is) id p t.eventos among found,
    next_int64-grows p.depth m,
    max_depth-shallow (i ∷ is) t.eventos m shallow deepest,
  )
]
