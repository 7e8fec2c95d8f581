-- ===== src/Rooms/Reading/Pages.antt =====
-- Forward pages of a room's messages.
use dragonite.Base.{
  ℕ, zero, suc, ◌+◌, String, ◌≡◌, ◌≢◌, refl, sym, ◌∙◌, ap, ap₂, true, false, not, ◌&&◌, some, List,
  [], ◌∷◌, ◌++◌, arith, ◌==◌, string_eq,
}
use dragonite.Base.Int.{ℤ, pos, ltb_ℤ, ltb_ℤ_trans, ltb_ℤ_irrefl, int_eq, int_beq_iff}
use dragonite.Base.Paging.{keep, take, drop, keep-keep}
use dragonite.Base.Rows.{
  last_key, are_above, are_rising, are_above-after, are_rising-keep, order_by-rising, keep-last_key,
  last_key-take, are_above-take, are_rising-take,
}
use dragonite.Domain.{Evento}
use dragonite.Store.{Tables}
use dragonite.Store.Action.{ok, Db, fail_if, read, bad_content, Ensures}
use dragonite.Store.Triples.{read-Ensures, return-Ensures, fail_if-Ensures, bind-Ensures}
use dragonite.Store.Outcome.{observed}
use dragonite.Rooms.Messages.{require_join}
use dragonite.Rooms.Messages.Sent.{require_join-Ensures}
use dragonite.Rooms.Reading.{Format, zero_token, parse_token}
use dragonite.Rooms.Reading.Messages.{
  is_beyond, get_room_messages_history, GetMessagesResponse, from_token, token_at, start_token,
  end_token, get_messages,
}
use dragonite.Sync.{rows}
use dragonite.Sync.Token.{ordering, IsOrdered}

answer : Format → String → List Evento → GetMessagesResponse
answer c from events = record {
  start = start_token c from events;
  end = end_token c events;
  chunk = events;
}

get_messages-Ensures :
    (c : Format) (canal user from dir : String) (limit : ℕ) (t : Tables)
    → Ensures ⊥
        (get_messages c canal user from dir limit)
        (λ r u.
          r.chunk ≡ get_room_messages_history canal (from_token c from) dir limit t
          × (r.end ≡ end_token c (get_room_messages_history canal (from_token c from) dir limit t)))
        t
unfolding get_messages
get_messages-Ensures c canal user from dir limit t =
    bind-Ensures ⊥ (require_join canal user) _ _ t (
      require_join-Ensures ⊥ canal user _ t (λ n. absurd n)
        λ joined.
          bind-Ensures ⊥ (fail_if (not (dir == "b") && not (dir == "f")) bad_content) _ _ t (
            fail_if-Ensures ⊥ (not (dir == "b") && not (dir == "f")) bad_content _ t (λ e n. n)
              λ known.
                bind-Ensures ⊥
                  (read (get_room_messages_history canal (from_token c from) dir limit)) _ _ t
                  (read-Ensures ⊥ (get_room_messages_history canal (from_token c from) dir limit) _
                    t (return-Ensures ⊥ _ _ t (refl, refl)))))

-- The events of a room after a position, all of them.
abbrev beyond : String → ℤ → Tables → List Evento
beyond canal k t = keep (is_beyond canal k) (rows t.eventos)

forward-page :
    (canal : String) (k : ℤ) (limit : ℕ) (t : Tables)
    → IsOrdered t
    → get_room_messages_history canal k "f" limit t ≡ take limit (beyond canal k t)
unfolding get_room_messages_history
forward-page canal k limit t (rising, low) = ap (take limit) (
    order_by-rising ordering (keep (is_beyond canal k) (rows t.eventos))
      (are_rising-keep ordering (is_beyond canal k) (rows t.eventos) rising))

take-plus : {A : Type 0} (m n : ℕ) (xs : List A) → take (m + n) xs ≡ take m xs ++ take n (drop m xs)
unfolding take drop
take-plus {A = A} zero n xs = ap (λ l. take l xs) start
  where
    start : 0 + n ≡ n
    start = omega arith
take-plus {A = A} (suc m) n [] = ap (λ l. take l []) next ∙ sym (nothing n)
  where
    next : suc m + n ≡ suc (m + n)
    next = omega arith

    nothing : (n : ℕ) → take {A = A} n [] ≡ []
    nothing zero = refl
    nothing (suc n) = refl
take-plus {A = A} (suc m) n (x ∷ xs) =
    ap (λ l. take l (x ∷ xs)) next ∙ ap (λ l. x ∷ l) (take-plus m n xs)
  where
    next : suc m + n ≡ suc (m + n)
    next = omega arith

beyond_above :
    (canal : String) (k : ℤ) (t : Tables) → are_above ordering k (beyond canal k t) ≡ true
unfolding is_beyond
beyond_above canal k t =
    are_above-after ordering k (is_beyond canal k) (rows t.eventos) (λ ev h. ground (arith, h))

beyond_rising :
    (canal : String) (k : ℤ) (t : Tables)
    → IsOrdered t
    → are_rising ordering (beyond canal k t) ≡ true
beyond_rising canal k t (rising, low) =
    are_rising-keep ordering (is_beyond canal k) (rows t.eventos) rising

beyond-rest :
    (canal : String) (k : ℤ) (m : ℕ) (t : Tables)
    → IsOrdered t
    → beyond canal (last_key ordering k (take m (beyond canal k t))) t ≡ drop m (beyond canal k t)
unfolding is_beyond
beyond-rest canal k m t (rising, low) =
    sym (
      keep-keep (λ ev. ltb_ℤ last ev.stream_ordering) (is_beyond canal k) (is_beyond canal last)
        (λ ev. ground (arith, late, ltb_ℤ_trans last ev.stream_ordering k)) (rows t.eventos))
    ∙ keep-last_key ordering k m (beyond canal k t) (beyond_above canal k t)
        (beyond_rising canal k t (rising, low))
  where
    last : ℤ
    last = last_key ordering k (take m (beyond canal k t))

    late : ltb_ℤ last k ≡ false
    late =
        last_key-take ordering k m (beyond canal k t) (beyond_above canal k t)
          (beyond_rising canal k t (rising, low))

-- The tokens of pages are read as they were written, and none is empty.
abbrev pub ReadsTokens : Format → Type 0
ReadsTokens c =
    (k : ℤ)
    → (c.scan (c.encode (record zero_token { timeline_position = k }))
        ≡ some (record zero_token { timeline_position = k }))
      × ((c.encode (record zero_token { timeline_position = k }) == "") ≡ false)

from_token-end :
    (c : Format) (k : ℤ) (events : List Evento)
    → ReadsTokens c
    → ltb_ℤ k (pos 0) ≡ false
    → are_above ordering k events ≡ true
    → are_rising ordering events ≡ true
    → end_token c events ≢ ""
    → from_token c (end_token c events) ≡ last_key ordering k events
unfolding end_token from_token parse_token token_at last_key are_above are_rising
from_token-end c k [] reads low above rising some_event = absurd (some_event refl)
from_token-end c k (ev ∷ []) reads low above rising some_event =
    let (back, filled) = reads ev.stream_ordering in
    ground (
      arith,
      back,
      filled,
      low,
      above,
      int_beq_iff ev.stream_ordering (pos 0),
      ltb_ℤ_irrefl (pos 0),
    )
from_token-end c k (ev ∷ next ∷ evs) reads low above rising some_event =
    from_token-end c ev.stream_ordering (next ∷ evs) reads (ground (arith, low, above))
      (ground (arith, rising)) (ground (arith, rising)) some_event

-- Forward pages of a room, read from one token to the next, join up: if the tokens are read as they
-- were written and the events of the tables are in order, a page of m messages from a token that is
-- not negative, followed by the page of n messages from its end token, is the page of m + n messages
-- from the first token; no message is lost or repeated.
pub get_messages-pages :
    (c : Format) (canal user from : String) (m n : ℕ) (first second both : GetMessagesResponse)
    (db db₁ db₂ db₃ : Db)
    → ReadsTokens c
    → IsOrdered db.tables
    → ltb_ℤ (from_token c from) (pos 0) ≡ false
    → get_messages c canal user from "f" m db ≡ (ok first, db₁)
    → first.end ≢ ""
    → get_messages c canal user first.end "f" n db ≡ (ok second, db₂)
    → get_messages c canal user from "f" (m + n) db ≡ (ok both, db₃)
    → both.chunk ≡ first.chunk ++ second.chunk
get_messages-pages c canal user from m n first second both db db₁ db₂ db₃ reads ordered low ran₁
      more ran₂ ran₃ =
    shown (m + n) from both db₃ ran₃
    ∙ take-plus m n all
    ∙ ap₂ (λ a b. a ++ b) (sym (shown m from first db₁ ran₁))
        (sym (
          shown n first.end second db₂ ran₂
          ∙ ap (λ k. take n (beyond canal k db.tables)) position
          ∙ ap (take n) (beyond-rest canal k m db.tables ordered)))
  where
    k : ℤ
    k = from_token c from

    all : List Evento
    all = beyond canal k db.tables

    page :
        (limit : ℕ) (token : String) (r : GetMessagesResponse) (db' : Db)
        → get_messages c canal user token "f" limit db ≡ (ok r, db')
        → (r.chunk ≡ get_room_messages_history canal (from_token c token) "f" limit db.tables)
          × (r.end
              ≡ end_token c
                  (get_room_messages_history canal (from_token c token) "f" limit db.tables))
    page limit token r db' ran =
        observed (get_messages c canal user token "f" limit)
          (λ r t.
            (r.chunk ≡ get_room_messages_history canal (from_token c token) "f" limit db.tables)
            × (r.end
                ≡ end_token c
                    (get_room_messages_history canal (from_token c token) "f" limit db.tables)))
          r db db' (get_messages-Ensures c canal user token "f" limit db.tables) ran

    shown :
        (limit : ℕ) (token : String) (r : GetMessagesResponse) (db' : Db)
        → get_messages c canal user token "f" limit db ≡ (ok r, db')
        → r.chunk ≡ take limit (beyond canal (from_token c token) db.tables)
    shown limit token r db' ran =
        (page limit token r db' ran).0
        ∙ forward-page canal (from_token c token) limit db.tables ordered

    ended : first.end ≡ end_token c (take m all)
    ended =
        (page m from first db₁ ran₁).1 ∙ ap (end_token c) (forward-page canal k m db.tables ordered)

    position : from_token c first.end ≡ last_key ordering k (take m all)
    position =
        ap (from_token c) ended
        ∙ from_token-end c k (take m all) reads low
            (are_above-take ordering k m all (beyond_above canal k db.tables))
            (are_rising-take ordering m all (beyond_rising canal k db.tables ordered))
            (λ blank. more (ended ∙ blank))
