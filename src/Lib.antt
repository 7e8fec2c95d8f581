-- ===== src/Lib.antt =====
-- Dragonite is a Matrix homeserver. Clients and other servers reach it over HTTP
-- (internal/delivery); the services of internal/usecase carry out what they ask for on the
-- storage of internal/infrastructure; rooms are directed graphs of events (internal/domain).
-- Parts and files:
--   Domain: events, state tuples and state maps (internal/domain/evento.go, state_res.go). A
--     JSON text is a string; what json.Unmarshal makes of it is the parameter Decoder.
--   StateRes: internal/usecase/state_res_sort.go. Partition is partitionState, Sort is
--     sortEventsTopologically, Levels is its comparator and getEffectivePowerLevel, Resolve is
--     Resolve with its three phases. The check of a candidate is an argument, as it is a field
--     of the Go service.
--   Auth: CheckAuth of internal/usecase/auth_rule_resolver.go.
--   Store: the tables of a room and the statements on them
--     (internal/infrastructure/postgres/canal_storage.go, evento_storage.go). Action is a
--     service call: it returns a result or an error, leaves a database, and each statement may
--     fail as a schedule of faults says; execute is the transaction of workeunit.go. Rules and
--     Triples say how errors and effects compose. Invariants is what every outcome of an
--     action keeps, Outcome reads a run.
--   Rooms: Build is internal/usecase/event_builder.go, Genesis is dag_manage.go, Membership is
--     LeaveRoom, JoinLocalRoom and InviteUser of room_membership.go and
--     ResolveEventDependencies of auth_rule_resolver.go, Admin is CreateRoom of room_admin.go.
--     The clock, JSON, hashing, signing and the invitation call to another server are fields
--     of Env.
--   FederationCache: the retry queues of
--     internal/infrastructure/redis_infra/federation_cache.go.
--   Rooms/Messages: SendEvent and SendStateEvent of internal/usecase/room_interaction.go.
--   ToDevice: internal/usecase/to_device_service.go, its storage
--     (internal/infrastructure/postgres/to_device_storage.go) and getToDeviceSync of
--     sync_service.go. Mailbox is what waits for a device, Session a device that syncs again
--     and again.
--   Sync: internal/usecase/sync_service.go with the statements it uses, the tokens of
--     internal/domain/sync_token.go and GenerateNextSinceToken of internal/util/matrix.go.
--     View is the rooms of a response, Client is SyncClient. Waiting for news is a parameter.
--   Backup: internal/usecase/backup_service.go and
--     internal/infrastructure/postgres/backup_storage.go. History is any sequence of its
--     calls.
--   DeviceKeys: UploadKeys and ClaimKeys of internal/usecase/keys_service.go with
--     internal/infrastructure/postgres/device_keys_storage.go. Queue is the one-time keys of a
--     device as a queue.
--   Rooms/Reading: the other operations of room_interaction.go: messages page by page, single
--     events, state, members, receipts and typing. The formatting of tokens and the JSON of
--     members are the parameter Format.
--   Directory: the room aliases of internal/usecase/directory_service.go. Its search of public
--     rooms and profiles is not modelled.
--   Presence: internal/usecase/presence_service.go.
--   Tests: concrete rooms on which the theorems are applied.
-- Go maps are association lists, and a range over a map visits its keys in an order that a
-- parameter gives (MapOrder): any rearrangement, another one for each loop. The loop of
-- sortEventsTopologically runs on fuel, as many rounds as there are ids; StateRes/Sort/Order
-- shows that this is enough. The int64 values are integers that are compared and stepped by one.
-- The depth of an event in a stored room wraps (next_int64), since another server may have sent
-- the greatest one; depths of a new room are bounded by its length, and the counters (etags,
-- degrees, key counts) by the number of steps since the program began to count. A context
-- argument is left out. LeaveRoom, JoinLocalRoom and InviteUser read the graph on the connection
-- pool, not in their transaction; as nothing is written before, they see the same tables. A Go
-- map that a service ranges over once is a list in the order of its iteration. The serial of a
-- table is the last value of its BIGSERIAL column; what PostgreSQL gives to a transaction that is
-- rolled back, the model gives again, since only the order of the values is used. The pages of
-- the history give rows whole, with the previous and the auth events and the depth, which that
-- query does not select; JSONB is the text that was stored. A room is taken to have one
-- m.room.join_rules event, or the first in the order of the table.
-- Not modelled: HTTP routing, the other SQL statements, the federation service, JoinRemoteRoom,
-- QueryKeys and cross-signing, the profile, media and account services, the outbound queue in
-- Redis and object storage, requests that are cancelled (but for SyncClient), cryptography, JSON
-- encoding, configuration.
pub mod Auth
pub mod Backup
pub mod Base
pub mod DeviceKeys
pub mod Directory
pub mod Domain
pub mod FederationCache
pub mod Presence
pub mod Rooms
pub mod StateRes
pub mod Store
pub mod Sync
pub mod Tests
pub mod ToDevice
