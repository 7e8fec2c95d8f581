-- ===== src/Directory.antt =====
-- Room aliases (internal/usecase/directory_service.go) with their statements
-- (internal/infrastructure/postgres/directory_storage.go, canal_storage.go). QueryDirectory, the
-- call of another server, is a parameter.
pub mod Roundtrip
use dragonite.Base.{
  String, Bool, true, false, not, ◌||◌, ◌&&◌, Option, none, some, List, [], ◌∷◌, ◌==◌, nat_eq,
  string_eq, if◌then◌else◌, elem,
}
use dragonite.Base.Map.{Map}
use dragonite.Store.{Tables, MemberId, Membership, Tip}
use dragonite.Store.Action.{
  Action, ◌>>=◌, ◌>>◌, return, fail, fail_if, of_option, read, read_or, write, returning, not_found,
  invalid_param, already_in_use,
}
use dragonite.Rooms.{after_colon}
use dragonite.Rooms.Admin.{save_alias}
use Prim.Native.Char.{code}

-- What stands before the first colon is empty.
unfoldable pub begins_with_colon : String → Bool
begins_with_colon String.[] = false
begins_with_colon (String.◌∷◌ c rest) = code c == 58

-- strings.HasPrefix(alias, "#") and alias[1:]
unfoldable pub after_sigil : String → Option String
after_sigil String.[] = none
after_sigil (String.◌∷◌ c rest) = if code c == 35 then some rest else none

-- The part after the first colon, if there is something on both sides of it.
unfoldable pub domain_of : String → Option String
unfolding after_colon begins_with_colon
domain_of name = elim (after_colon name) [
  | none ↦ none
  | some domain ↦ if begins_with_colon name || domain == "" then none else some domain
]

unfoldable pub parse_alias_domain : String → Option String
unfolding after_sigil domain_of
parse_alias_domain alias = elim (after_sigil alias) [ none ↦ none | some name ↦ domain_of name ]

-- The order in which the database visits the rows of a table.
abbrev pub Scan : Type 0
Scan = List Tip → List Tip

-- SELECT id_canal FROM Canal_Alias WHERE alias = $1: the first row that is visited counts.
unfoldable pub room_of : String → List Tip → Option String
room_of alias [] = none
room_of alias (row ∷ rows) =
    let rest = room_of alias rows in if row.evento == alias then some row.canal else rest

unfoldable pub get_room_id_by_alias : Scan → String → Action String
unfolding read room_of
get_room_id_by_alias scan alias = read (λ t. room_of alias (scan t.aliases)) >>= of_option not_found

-- substr(id_usuario, strpos(id_usuario, ':') + 1)
unfoldable pub server_of : String → String
unfolding after_colon
server_of user = elim (after_colon user) [ none ↦ user | some domain ↦ domain ]

-- SELECT DISTINCT, and the empty names left out.
unfoldable pub servers_of : String → Map MemberId Membership → List String
unfolding server_of elem
servers_of canal [] = []
servers_of canal ((m, row) ∷ rows) =
    let rest = servers_of canal rows in
    if m.canal == canal && (row.kind == "join" || row.kind == "invite")
    then (if server_of m.usuario == "" || elem (server_of m.usuario) rest
        then rest
        else server_of m.usuario ∷ rest)
    else rest

unfoldable pub with_server : String → List String → List String
unfolding elem
with_server server servers = if elem server servers then servers else server ∷ servers

unfoldable pub resolve_local : Scan → String → String → Action (String × List String)
unfolding get_room_id_by_alias read_or servers_of with_server
resolve_local scan server alias = do
  room ← get_room_id_by_alias scan alias
  servers ← read_or [] (λ t. servers_of room t.memberships)
  return (room, with_server server servers)

-- domain, ok := parseAliasDomain(alias); !ok || domain != s.serverName
unfoldable pub is_foreign : String → String → Bool
unfolding parse_alias_domain
is_foreign server alias = elim (parse_alias_domain alias) [
  | none ↦ true
  | some domain ↦ not (domain == server)
]

unfoldable pub resolve_local_alias : Scan → String → String → Action (String × List String)
unfolding is_foreign fail_if resolve_local
resolve_local_alias scan server alias =
    fail_if (is_foreign server alias) not_found >> resolve_local scan server alias

unfoldable pub resolve_alias :
    Scan
    → (String → String → Action (String × List String))
    → String
    → String
    → Action (String × List String)
unfolding parse_alias_domain resolve_local fail
resolve_alias scan query_directory server alias = elim (parse_alias_domain alias) [
  | none ↦ fail invalid_param
  | some domain ↦
      if domain == server then resolve_local scan server alias else query_directory domain alias
]

-- What follows the look-up: `none` is types.ErrNotFound.
unfoldable pub claim_alias : String → String → Option String → Action (Unit {0})
unfolding fail_if write save_alias
claim_alias alias room none = write (save_alias room alias)
claim_alias alias room (some existing) = fail_if (not (existing == room)) already_in_use

unfoldable pub create_alias : Scan → String → String → String → Action (Unit {0})
unfolding is_foreign fail_if read room_of claim_alias
create_alias scan server alias room =
    fail_if (is_foreign server alias) invalid_param
    >> (read (λ t. room_of alias (scan t.aliases)) >>= claim_alias alias room)

-- DELETE FROM Canal_Alias WHERE alias = $1, which returns whether it affected a row.
unfoldable pub delete_rows : String → List Tip → List Tip
delete_rows alias [] = []
delete_rows alias (row ∷ rows) =
    let rest = delete_rows alias rows in if row.evento == alias then rest else row ∷ rest

unfoldable pub is_free : String → List Tip → Bool
unfolding room_of
is_free alias rows = elim (room_of alias rows) [ none ↦ true | some _ ↦ false ]

unfoldable pub delete_alias : String → String → Action (Unit {0})
unfolding is_foreign fail_if returning delete_rows is_free
delete_alias server alias =
    fail_if (is_foreign server alias) invalid_param
    >> (returning (λ t. some (is_free alias t.aliases))
          (λ t. record t { aliases = delete_rows alias t.aliases })
        >>= λ free. fail_if free not_found)
