-- ===== src/FederationCache.antt =====
-- The queues of events for other servers (internal/infrastructure/redis_infra/federation_cache.go):
-- Redis lists of JSON texts, with the time at which Redis drops a list that expires. A command takes
-- the time at which it runs, in seconds, and whether it succeeds.
pub mod Order
use dragonite.Base.{
  ℕ, ◌+◌, String, Bool, true, false, Option, none, some, List, [], ◌∷◌, ◌++◌, string_eq, leb,
  if◌then◌else◌,
}
use dragonite.Base.Int.{ℤ, pos, pos_part, ltb_ℤ}
use dragonite.Base.Map.{Map, get_or, insert}
use dragonite.Domain.{Evento}

pub record Redis : Type 0 where
  pub retries : Map String (List String)
  pub deadlines : Map String (Option ℕ)

-- json.Marshal and json.Unmarshal of an event
pub record Codec : Type 0 where
  pub encode : Evento → Option String
  pub decode : String → Option Evento

unfoldable pub is_past : Option ℕ → ℕ → Bool
is_past none now = false
is_past (some deadline) now = leb deadline now

-- What is waiting at a time: a list that has expired is gone.
unfoldable pub waiting_at : String → ℕ → Redis → List String
unfolding get_or is_past
waiting_at server now r =
    if is_past (get_or server none r.deadlines) now then [] else get_or server [] r.retries

-- RPUSH: a list that was gone starts anew, without a deadline.
unfoldable pub rpush : String → String → ℕ → Redis → Redis
unfolding get_or insert is_past waiting_at
rpush server bytes now r = record r {
  retries = insert server (waiting_at server now r ++ bytes ∷ []) r.retries;
  deadlines =
      if is_past (get_or server none r.deadlines) now
      then insert server none r.deadlines
      else r.deadlines;
}

-- DEL
unfoldable pub del : String → Redis → Redis
unfolding insert
del server r = record r {
  retries = insert server [] r.retries;
  deadlines = insert server none r.deadlines;
}

-- EXPIRE: a time that is not positive deletes the list at once.
unfoldable pub expire : String → ℤ → ℕ → Redis → Redis
unfolding insert del
expire server ttl now r =
    if ltb_ℤ (pos 0) ttl
    then record r { deadlines = insert server (some (now + pos_part ttl)) r.deadlines }
    else del server r

-- The result says whether the call succeeds: it does if both commands of the pipeline do.
unfoldable pub pipeline : Bool → Bool → (Redis → Redis) → (Redis → Redis) → Redis → Bool × Redis
pipeline first second f g r =
    let after = if first then f r else r in
    (if first then second else false, if second then g after else after)

unfoldable pub push_retry : Bool → Bool → String → ℤ → ℕ → Redis → Option String → Bool × Redis
unfolding rpush expire pipeline
push_retry first second server ttl now r none = (false, r)
push_retry first second server ttl now r (some bytes) =
    if ltb_ℤ (pos 0) ttl
    then pipeline first second (rpush server bytes now) (expire server ttl now) r
    else pipeline first true (rpush server bytes now) (λ after. after) r

unfoldable pub save_pending_retry :
    Codec → Bool → Bool → String → Evento → ℤ → ℕ → Redis → Bool × Redis
unfolding push_retry
save_pending_retry c first second server ev ttl now r =
    push_retry first second server ttl now r (c.encode ev)

-- What cannot be decoded is skipped.
unfoldable pub decode_all : Codec → List String → List Evento
decode_all c [] = []
decode_all c (raw ∷ raws) =
    let rest = decode_all c raws in elim (c.decode raw) [ none ↦ rest | some ev ↦ ev ∷ rest ]

-- LRANGE and DEL in one transaction; a list that is gone reads as empty.
unfoldable pub get_and_clear_pending_retries :
    Codec → Bool → String → ℕ → Redis → Option (List Evento) × Redis
unfolding waiting_at del decode_all
get_and_clear_pending_retries c works server now r =
    if works then (some (decode_all c (waiting_at server now r)), del server r) else (none, r)
