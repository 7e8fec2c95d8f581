-- ===== src/StateRes/Levels.antt =====
-- `getEffectivePowerLevel`, and the comparator by which candidates are sorted
-- (internal/usecase/state_res_sort.go).
use dragonite.Base.{
  String, ◌≡◌, arith, Bool, true, false, not, Option, none, some, ◌==◌, string_eq, text_lt,
  if◌then◌else◌,
}
use dragonite.Base.Int.{ℤ, pos, ltb_ℤ, int_eq, tie_trans, ltb_ℤ_trans, ltb_ℤ_irrefl}
use dragonite.Base.Map.{Map, lookup}
use dragonite.Base.TextOrder.{text_lt_trans, text_lt_irrefl, text_lt_connex}
use dragonite.Domain.{Evento, UserLevels, Decoder}

-- content.Users[sender], or the default
unfoldable pub level_of : String → UserLevels → ℤ
unfolding lookup
level_of sender levels = elim (lookup sender levels.users) [
  | some pl ↦ pl
  | none ↦ levels.users_default
]

unfoldable pub get_effective_power_level : Decoder → String → Option Evento → ℤ
unfolding level_of
get_effective_power_level d sender none = pos 0
get_effective_power_level d sender (some pl) = elim (d.user_levels pl.content) [
  | none ↦ pos 0
  | some levels ↦ level_of sender levels
]

-- The last three tests of the comparator, where both events are known.
unfoldable pub precedes : Decoder → Option Evento → Evento → Evento → Bool
unfolding get_effective_power_level
precedes d pl_event ev_i ev_j =
    let pl_i = get_effective_power_level d ev_i.sender pl_event in
    let pl_j = get_effective_power_level d ev_j.sender pl_event in
    if not (pl_i == pl_j)
    then ltb_ℤ pl_j pl_i
    else if not (ev_i.origem_servidor_ts == ev_j.origem_servidor_ts)
    then ltb_ℤ ev_i.origem_servidor_ts ev_j.origem_servidor_ts
    else text_lt ev_i.id ev_j.id

both_known : Decoder → Option Evento → String → String → Option Evento → Option Evento → Bool
unfolding precedes
both_known d pl_event i j (some ev_i) (some ev_j) = precedes d pl_event ev_i ev_j
both_known d pl_event i j _ _ = text_lt i j

-- The less function of `sortCandidates`.
unfoldable pub candidate_less : Decoder → Map String Evento → Option Evento → String → String → Bool
unfolding both_known lookup
candidate_less d events pl_event i j = both_known d pl_event i j (lookup i events) (lookup j events)

-- The order of the candidates is strict and total on known events that are filed under their ids.
pub precedes_irrefl : (d : Decoder) (pl : Option Evento) (a : Evento) → precedes d pl a a ≡ false
unfolding precedes
precedes_irrefl d pl a = ground (arith, text_lt_irrefl a.id)

-- Two levels, two timestamps and two ids, as the comparator reads them.
abbrev before : ℤ → ℤ → ℤ → ℤ → String → String → Bool
before p q s t x y =
    if not (p == q) then ltb_ℤ q p else if not (s == t) then ltb_ℤ s t else text_lt x y

before_trans :
    (p q r s t u : ℤ) (x y z : String)
    → before p q s t x y ≡ true
    → before q r t u y z ≡ true
    → before p r s u x z ≡ true
before_trans p q r s t u x y z h k =
    tie_trans (λ a b. ltb_ℤ b a) (λ a b c m n. ltb_ℤ_trans c b a n m) ltb_ℤ_irrefl p q r
      (tie_trans ltb_ℤ ltb_ℤ_trans ltb_ℤ_irrefl s t u (text_lt_trans x y z)) h k

pub precedes_trans :
    (d : Decoder) (pl : Option Evento) (a b c : Evento)
    → precedes d pl a b ≡ true
    → precedes d pl b c ≡ true
    → precedes d pl a c ≡ true
unfolding precedes
precedes_trans d pl a b c h k =
    before_trans (get_effective_power_level d a.sender pl) (get_effective_power_level d b.sender pl)
      (get_effective_power_level d c.sender pl) a.origem_servidor_ts b.origem_servidor_ts
      c.origem_servidor_ts a.id b.id c.id h k

pub precedes_connex :
    (d : Decoder) (pl : Option Evento) (a b : Evento)
    → precedes d pl a b ≡ false
    → precedes d pl b a ≡ false
    → a.id ≡ b.id
unfolding precedes
precedes_connex d pl a b h k = ground (arith, text_lt_connex a.id b.id)
