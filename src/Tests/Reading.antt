-- ===== src/Tests/Reading.antt =====
-- Alice reads an event of her room, and its three messages page by page.
use dragonite.Base.{
  ℕ, ap, sym, ◌∙◌, ◌≢◌, Bool-cases, inl, inr, Bool, zero, suc, ◌+◌, nat_eq, String, ◌≡◌, refl, true,
  false, Option, some, none, [], ◌++◌, ◌==◌, string_eq, if◌then◌else◌,
}
use dragonite.Base.Int.{ℤ, pos, negsuc}
use dragonite.Base.Map.{lookup}
use dragonite.Base.Rows.{are_rising, are_up_to}
use dragonite.Domain.Delivery.{SyncToken}
use Prim.Native.Char.{code}
use text.Mathlib.TextEquality.{eq_iff}
use dragonite.Store.{save_evento}
use dragonite.Store.Action.{Db, ok, err, ◌>>=◌, return, fail_if, of_option}
use dragonite.Rooms.Reading.{Format, zero_token, get_event, parse_token}
use dragonite.Rooms.Reading.Messages.{GetMessagesResponse, get_messages, from_token}
use dragonite.Rooms.Reading.Access.{MaySee, get_event_guarded}
use dragonite.Rooms.Reading.Pages.{ReadsTokens, get_messages-pages}
use dragonite.Sync.{rows}
use dragonite.Tests.Rooms.{tables, calm, rules}

get_event_guarded_example : MaySee "@alice:x" "!r:x" "$r" rules tables
unfolding get_event ◌>>=◌ return fail_if of_option lookup
get_event_guarded_example =
    get_event_guarded "@alice:x" "!r:x" "$r" rules calm (get_event "@alice:x" "!r:x" "$r" calm).1
      refl

-- Tokens in unary notation.
abbrev tally : ℕ → String
tally zero = String.[]
tally (suc n) = String.◌∷◌ "x" (tally n)

abbrev tallied : String → ℕ
tallied String.[] = 0
tallied (String.◌∷◌ c rest) = suc (tallied rest)

abbrev written : ℤ → String
written (pos n) = String.◌∷◌ "s" (tally n)
written (negsuc n) = String.◌∷◌ "n" (tally n)

abbrev scanned : String → Option SyncToken
scanned String.[] = none
scanned (String.◌∷◌ c rest) = some (record zero_token {
  timeline_position = if code c == 115 then pos (tallied rest) else negsuc (tallied rest);
})

abbrev unary : Format
unary = record {
  scan = scanned;
  encode = λ token. written token.timeline_position;
  parse_int = λ s. none;
  membership_text = λ s. some s;
  member_content = λ s. none;
}

tallied-tally : (n : ℕ) → tallied (tally n) ≡ n
tallied-tally zero = refl
tallied-tally (suc n) = cc (tallied-tally n)

abbrev is_blank : String → Bool
is_blank String.[] = true
is_blank (String.◌∷◌ c rest) = false

filled : false ≢ true
filled e = absurd cc

not_blank : (s : String) → is_blank s ≡ false → (s == "") ≡ false
not_blank s h = elim (Bool-cases (s == "")) [
  | inl e ↦ absurd (filled (sym h ∙ ap is_blank ((eq_iff s "").0 e)))
  | inr n ↦ n
]

reads : ReadsTokens unary
reads (pos n) = (rw (tallied-tally n) refl, not_blank (written (pos n)) refl)
reads (negsuc n) = (rw (tallied-tally n) refl, not_blank (written (negsuc n)) refl)

-- Three messages.
abbrev three : Db
three = record calm {
  tables =
      save_evento (record rules { id = "$3" })
        (save_evento (record rules { id = "$2" })
          (save_evento (record rules { id = "$1" }) (record tables { eventos = [] })));
}

abbrev page_of : String → ℕ → GetMessagesResponse
page_of from limit = elim (get_messages unary "!r:x" "@alice:x" from "f" limit three).0 [
  | ok r ↦ r
  | err e ↦ record { start = ""; end = ""; chunk = [] }
]

get_messages-pages_example :
    (page_of "" (1 + 2)).chunk ≡ (page_of "" 1).chunk ++ (page_of (page_of "" 1).end 2).chunk
unfolding get_messages ◌>>=◌ return fail_if save_evento are_rising are_up_to rows from_token
    parse_token
get_messages-pages_example =
    get_messages-pages unary "!r:x" "@alice:x" "" 1 2 (page_of "" 1) (page_of (page_of "" 1).end 2)
      (page_of "" (1 + 2)) three (get_messages unary "!r:x" "@alice:x" "" "f" 1 three).1
      (get_messages unary "!r:x" "@alice:x" (page_of "" 1).end "f" 2 three).1
      (get_messages unary "!r:x" "@alice:x" "" "f" (1 + 2) three).1 reads (refl, refl) refl refl
      (λ blank. absurd (filled (ap is_blank blank))) refl refl
