-- ===== src/FederationCache/Order.antt =====
-- The retries of a server come back once, in the order in which they were saved.
use dragonite.Base.{
  ℕ, suc, ◌+◌, ◌<◌, String, ◌≡◌, refl, Bool, true, false, some, none, List, [], ◌∷◌, ◌++◌, arith,
  string_eq,
}
use mathlib.Core.Path.{subst, ◌∙◌}
use dragonite.Base.Int.{ℤ, pos, ltb_ℤ}
use dragonite.Base.Map.{Map, get_or, insert, lookup-insert}
use dragonite.Domain.{Evento}
use dragonite.FederationCache.{
  Redis, Codec, is_past, waiting_at, rpush, del, expire, pipeline, push_retry, save_pending_retry,
  decode_all, get_and_clear_pending_retries,
}
use text.Mathlib.TextEquality.{eq_iff}

get_or-insert {ℓ} :
    {V : Type ℓ} (d : V) (k : String) (v : V) (m : Map String V) → get_or k d (insert k v m) ≡ v
unfolding get_or
get_or-insert d k v m = ground (arith, lookup-insert k k v m, eq_iff k k)

decode_all-append :
    (c : Codec) (xs ys : List String) → decode_all c (xs ++ ys) ≡ decode_all c xs ++ decode_all c ys
unfolding decode_all
decode_all-append c [] ys = refl
decode_all-append c (x ∷ xs) ys = ground (arith, decode_all-append c xs ys)

-- The list has not expired when it is read: it is read before the time that was given has passed,
-- or no time was given, now or earlier.
pub data Lasts (ttl : ℤ) (now later : ℕ) (server : String) (r : Redis) : Type 0 where
  timed : (n : ℕ) → ttl ≡ pos (suc n) → later < now + suc n → Lasts ttl now later server r
  untimed :
      ltb_ℤ (pos 0) ttl ≡ false
      → get_or server none r.deadlines ≡ none
      → Lasts ttl now later server r

del-waiting_at : (server : String) (at : ℕ) (r : Redis) → waiting_at server at (del server r) ≡ []
unfolding waiting_at del is_past
del-waiting_at server at r =
    rw (get_or-insert none server none r.deadlines, get_or-insert [] server [] r.retries) refl

rpush-retries :
    (server bytes : String) (now : ℕ) (r : Redis)
    → get_or server [] (rpush server bytes now r).retries ≡ waiting_at server now r ++ bytes ∷ []
unfolding rpush
rpush-retries server bytes now r =
    get_or-insert [] server (waiting_at server now r ++ bytes ∷ []) r.retries

rpush-waiting_at :
    (server bytes : String) (now later : ℕ) (r : Redis)
    → get_or server none r.deadlines ≡ none
    → waiting_at server later (rpush server bytes now r) ≡ waiting_at server now r ++ bytes ∷ []
unfolding rpush waiting_at is_past
rpush-waiting_at server bytes now later r free =
    ground
      (arith, free, get_or-insert [] server (get_or server [] r.retries ++ bytes ∷ []) r.retries)

expire-waiting_at :
    (server : String) (n now later : ℕ) (r : Redis)
    → later < now + suc n
    → waiting_at server later (expire server (pos (suc n)) now r) ≡ get_or server [] r.retries
unfolding expire waiting_at is_past
expire-waiting_at server n now later r soon =
    ground (arith, soon, get_or-insert none server (some (now + suc n)) r.deadlines)

pushed-waiting_at :
    (server bytes : String) (ttl : ℤ) (now later : ℕ) (first second : Bool) (r s : Redis)
    → Lasts ttl now later server r
    → push_retry first second server ttl now r (some bytes) ≡ (true, s)
    → waiting_at server later s ≡ waiting_at server now r ++ bytes ∷ []
unfolding push_retry pipeline
pushed-waiting_at server bytes ttl now later true true r s (timed n given soon) h =
    let made : expire server (pos (suc n)) now (rpush server bytes now r) ≡ s =
      ground (arith, given, h) in
    subst (λ x. waiting_at server later x ≡ waiting_at server now r ++ bytes ∷ []) made
      (expire-waiting_at server n now later (rpush server bytes now r) soon
        ∙ rpush-retries server bytes now r)
pushed-waiting_at server bytes ttl now later true false r s (timed n given soon) h =
    absurd (ground (arith, given, h))
pushed-waiting_at server bytes ttl now later false second r s (timed n given soon) h =
    absurd (ground (arith, given, h))
pushed-waiting_at server bytes ttl now later true second r s (untimed never free) h =
    let made : rpush server bytes now r ≡ s = ground (arith, never, h) in
    subst (λ x. waiting_at server later x ≡ waiting_at server now r ++ bytes ∷ []) made
      (rpush-waiting_at server bytes now later r free)
pushed-waiting_at server bytes ttl now later false second r s (untimed never free) h =
    absurd (ground (arith, never, h))

-- A retry that SavePendingRetry saves is given back by GetAndClearPendingRetries after the ones that
-- were waiting, if the codec reads the event that it wrote, the list has not expired and the
-- commands of the second call succeed; a further call, at any time, gives nothing more.
pub save-get_and_clear :
    (c : Codec) (first second : Bool) (server : String) (ev : Evento) (ttl : ℤ)
    (now later further : ℕ) (r s : Redis) (bytes : String)
    → c.encode ev ≡ some bytes
    → c.decode bytes ≡ some ev
    → Lasts ttl now later server r
    → save_pending_retry c first second server ev ttl now r ≡ (true, s)
    → (t u : Redis) × (get_and_clear_pending_retries c true server later s
        ≡ (some (decode_all c (waiting_at server now r) ++ ev ∷ []), t))
      × (get_and_clear_pending_retries c true server further t ≡ (some [], u))
unfolding save_pending_retry get_and_clear_pending_retries decode_all
save-get_and_clear c first second server ev ttl now later further r s bytes e d lasts saved = (
  del server s,
  del server (del server s),
  ground (
    arith,
    d,
    pushed-waiting_at server bytes ttl now later first second r s lasts (ground (arith, e, saved)),
    decode_all-append c (waiting_at server now r) (bytes ∷ []),
  ),
  ground (arith, del-waiting_at server further s),
)
