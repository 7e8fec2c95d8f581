-- ===== src/Rooms/Membership/Outcome.antt =====
-- The outcomes of leaving, joining and inviting, read off a run.
use dragonite.Base.{String, ◌≡◌, Bool, []}
use dragonite.Store.{Tables, membership_of}
use dragonite.Store.Outcome.{undone, attained, observed}
use dragonite.Store.Action.{Error, ok, err, Db, Action, Ensures}
use dragonite.Rooms.{Env}
use dragonite.Rooms.Membership.{leave_room, join_local_room}
use dragonite.Rooms.Membership.Invite.{invite_user}
use dragonite.Rooms.Membership.Atomic.{
  leave_room-IsAtomic, join_local_room-IsAtomic, invite_user-IsAtomic,
}
use dragonite.Rooms.Membership.Joining.{MayJoin, join_local_room-Ensures}

-- What a run without faults comes to.
pub reached :
    (m : Action (Unit {0})) (Q : Tables → Type 0) (db : Db)
    → Ensures (Unit {0}) m (λ u t. Q t) db.tables
    → db.faults ≡ []
    → (db' : Db) × (m db ≡ (ok tt, db')) × Q db'.tables
reached m Q db ensures calm =
    let (u, db', h, q) = attained m (λ u t. Q t) db ensures calm in (db', h, q)

-- What every run that succeeds comes to.
pub established :
    (m : Action (Unit {0})) (Q : Tables → Type 0) (db db' : Db)
    → Ensures ⊥ m (λ u t. Q t) db.tables
    → m db ≡ (ok tt, db')
    → Q db'.tables
established m Q db db' ensures h = observed m (λ u t. Q t) tt db db' ensures h

-- A LeaveRoom that fails, at whatever statement, leaves all tables as they were.
pub leave_room_undone :
    (env : Env) (user canal : String) (db db' : Db) (e : Error)
    → leave_room env user canal db ≡ (err e, db')
    → db'.tables ≡ db.tables
leave_room_undone env user canal db db' e h =
    undone (leave_room env user canal) (leave_room-IsAtomic env user canal) db db' e h

-- A JoinLocalRoom that fails, at whatever statement, leaves all tables as they were.
join_local_room_undone :
    (env : Env) (user canal : String) (db db' : Db) (e : Error)
    → join_local_room env user canal db ≡ (err e, db')
    → db'.tables ≡ db.tables
join_local_room_undone env user canal db db' e h =
    undone (join_local_room env user canal) (join_local_room-IsAtomic env user canal) db db' e h

-- An InviteUser that fails, at whatever statement or in the handshake with the invitee's server,
-- leaves all tables as they were.
pub invite_user_undone :
    (env : Env) (canal inviter invitee reason : String) (is_direct : Bool) (db db' : Db) (e : Error)
    → invite_user env canal inviter invitee reason is_direct db ≡ (err e, db')
    → db'.tables ≡ db.tables
invite_user_undone env canal inviter invitee reason is_direct db db' e h =
    undone (invite_user env canal inviter invitee reason is_direct)
      (invite_user-IsAtomic env canal inviter invitee reason is_direct) db db' e h

-- Where no statement fails, JoinLocalRoom succeeds for a user who may join (the room is public, or
-- asks for an invitation that the user has), and makes the user a member.
pub join_local_room_joins :
    (env : Env) (user canal : String) (db : Db)
    → db.faults ≡ []
    → MayJoin env user canal db.tables
    → (db' : Db) × (join_local_room env user canal db ≡ (ok tt, db'))
      × (membership_of canal user db'.tables ≡ "join")
join_local_room_joins env user canal db calm may =
    let (db', h, (joined, allowed)) =
      reached (join_local_room env user canal)
        (λ t. (membership_of canal user t ≡ "join") × MayJoin env user canal db.tables) db
        (join_local_room-Ensures (Unit {0}) env user canal db.tables (λ u. may)) calm in
    (db', h, joined)

-- Nobody joins a room otherwise: if JoinLocalRoom succeeds, whatever statements may fail, the room
-- was public, or asked for an invitation that the user had, and the user is a member.
pub join_local_room_guarded :
    (env : Env) (user canal : String) (db db' : Db)
    → join_local_room env user canal db ≡ (ok tt, db')
    → (membership_of canal user db'.tables ≡ "join") × MayJoin env user canal db.tables
join_local_room_guarded env user canal db db' h =
    established (join_local_room env user canal)
      (λ t. (membership_of canal user t ≡ "join") × MayJoin env user canal db.tables) db db'
      (join_local_room-Ensures ⊥ env user canal db.tables (λ never. absurd never)) h
