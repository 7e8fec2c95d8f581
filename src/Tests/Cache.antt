-- ===== src/Tests/Cache.antt =====
-- A retry for a server that comes back, saved for seven days and fetched after one.
use dragonite.Base.{◌≡◌, refl, true, some, [], ◌∷◌, ◌++◌, string_eq}
use dragonite.Base.Int.{pos}
use dragonite.FederationCache.{
  Redis, Codec, save_pending_retry, decode_all, waiting_at, get_and_clear_pending_retries,
}
use dragonite.FederationCache.Order.{timed, save-get_and_clear}
use dragonite.Tests.Samples.{topic_a}
use native.Mathlib.Omega.{arith}

-- A codec that knows one event.
abbrev codec : Codec
codec = record { encode = λ ev. some "a"; decode = λ bytes. some topic_a }

abbrev idle : Redis
idle = record { retries = []; deadlines = [] }

abbrev saved_once : Redis
saved_once = (save_pending_retry codec true true "y" topic_a (pos 604800) 10 idle).1

save-get_and_clear_example :
    (t u : Redis) × (get_and_clear_pending_retries codec true "y" 86400 saved_once
      ≡ (some (decode_all codec (waiting_at "y" 10 idle) ++ topic_a ∷ []), t))
    × (get_and_clear_pending_retries codec true "y" 86401 t ≡ (some [], u))
unfolding save_pending_retry
save-get_and_clear_example =
    save-get_and_clear codec true true "y" topic_a (pos 604800) 10 86400 86401 idle saved_once "a"
      refl refl (timed 604799 refl (omega arith)) refl
