-- ===== src/Tests/Auth.antt =====
-- `CheckAuth` on a new room and on two members of one room.
use dragonite.Base.{◌≡◌, refl, false, some, [], ◌∷◌, string_eq}
use dragonite.Domain.{Evento, StateMap, new_state_tuple}
use dragonite.Auth.{
  get_state_event, check_auth, authorize, power_level_requirement, get_user_power_level,
  check_member,
}
use dragonite.Auth.Rules.{no_levels_creator_only, member_change_asym}
use dragonite.Tests.Samples.{blank, levels_event, events, decoder, levels}

abbrev created : StateMap
created = (new_state_tuple "m.room.create" (some ""), "$c") ∷ []

no_levels_creator_only_example :
    (c : Evento) × (get_state_event created events "m.room.create" "" ≡ some c)
    × (c.sender ≡ "@alice:x")
unfolding get_state_event check_auth authorize power_level_requirement get_user_power_level
no_levels_creator_only_example =
    no_levels_creator_only decoder levels_event created events refl refl (λ e. absurd cc)
      (λ e. absurd cc)

-- Alice, at level 100, removes Bob, at level 50; Bob cannot remove Alice.
abbrev removes_bob : Evento
removes_bob = record blank {
  id = "$k";
  tipo = "m.room.member";
  content = "leave";
  state_key = some "@bob:x";
}

abbrev removes_alice : Evento
removes_alice = record removes_bob { id = "$l"; sender = "@bob:x"; state_key = some "@alice:x" }

member_change_asym_example : check_auth decoder removes_alice ((levels, "$p") ∷ []) events ≡ false
unfolding check_auth authorize check_member get_state_event
member_change_asym_example =
    member_change_asym decoder removes_bob removes_alice ((levels, "$p") ∷ []) events refl refl refl
      refl (λ e. absurd cc) refl
