-- ===== src/Rooms.antt =====
-- The room services (internal/usecase/room_membership.go, room_admin.go, event_builder.go,
-- dag_manage.go and ResolveEventDependencies of auth_rule_resolver.go) on the database of Store.
pub mod Admin
pub mod Build
pub mod Genesis
pub mod Membership
pub mod Messages
pub mod Reading
use dragonite.Base.{
  ℕ, String, Bool, true, false, Option, none, some, List, [], ◌∷◌, ◌++◌, ◌==◌, nat_eq, string_eq,
  if◌then◌else◌, not,
}
use dragonite.Base.Int.{ℤ}
use dragonite.Base.Map.{Map, lookup}
use dragonite.Domain.{RawMessage, Evento, StrippedEvento}
use dragonite.Store.{Tables, tips_of, state_event_id}
use dragonite.Store.Action.{Action, ◌>>=◌, return, read, read_or}
use Prim.Native.Char.{code}

-- A JSON object as the services build it.
pub data Value : Type 0 where
  text : String → Value
  number : ℤ → Value
  flag : Bool → Value
  numbers : Map String ℤ → Value

abbrev pub Fields : Type 0
Fields = Map String Value

-- The power levels that an invitation asks for; a missing number is nil.
pub record InviteLevels : Type 0 where
  pub invite : Option ℤ
  pub users_default : Option ℤ
  pub users : Map String ℤ

-- What a service is given: the server's name, the clock, the JSON library, SHA-256 and ed25519
-- over canonical JSON, and the invitation that another server signs.
pub record Env : Type 0 where
  pub server_name : String
  pub now : ℤ
  pub marshal : Fields → RawMessage
  pub join_rule : RawMessage → Option String
  pub invite_levels : RawMessage → Option InviteLevels
  pub digest : Evento → Option String
  pub sign_matrix_event : Evento → Option RawMessage
  pub send_invite_call : String → String → String → Evento → List StrippedEvento → Option Evento

-- `HashMatrixEvent`: the id, the signatures and the unsigned part are not hashed.
unfoldable pub hash_matrix_event : Env → Evento → Option String
hash_matrix_event env ev = env.digest (record ev { id = ""; signatures = ""; unsigned = "" })

-- The part after the first colon, strings.SplitN(s, ":", 2)[1].
unfoldable pub after_colon : String → Option String
after_colon String.[] = none
after_colon (String.◌∷◌ c rest) =
    let further = after_colon rest in if code c == 58 then some rest else further

-- `IsRemoteUser`
unfoldable pub is_remote_user : String → String → Bool
unfolding after_colon
is_remote_user user server = elim (after_colon user) [
  | none ↦ false
  | some domain ↦ not (domain == server)
]

-- `ExtractDomainFromUserID`
unfoldable pub extract_domain_from_user_id : String → String
unfolding after_colon
extract_domain_from_user_id user = elim (after_colon user) [ none ↦ "" | some domain ↦ domain ]

-- `appendState`: a failed query is a missing state.
unfoldable pub append_state : String → String → String → List String → Action (List String)
unfolding read_or state_event_id
append_state canal tipo key auths = do
  found ← read_or none (state_event_id canal tipo key)
  return (append_found auths found)
  where
    append_found : List String → Option String → List String
    append_found auths none = auths
    append_found auths (some id) = auths ++ id ∷ []
