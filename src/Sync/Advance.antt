-- ===== src/Sync/Advance.antt =====
-- The token of a response never goes back.
use dragonite.Base.{
  String, ◌≡◌, refl, Bool, true, false, not, ◌||◌, List, [], ◌∷◌, arith, string_eq, if◌then◌else◌,
  Bool-cases, inl, inr, ◌⊎◌, Option, none, some,
}
use dragonite.Base.Int.{ℤ, pos, ltb_ℤ, ltb_ℤ_irrefl}
use dragonite.Base.Paging.{keep}
use dragonite.Base.Rows.{are_above, last_key-no_less, are_above-order_by}
use dragonite.Domain.{Evento}
use dragonite.Domain.Delivery.{SyncToken}
use dragonite.Store.{Tables}
use dragonite.Store.Action.{Action, return, Result, ok, err, Db, ◌>>=◌, Ensures, Meets}
use dragonite.Store.Triples.{return-Ensures, bind-Ensures}
use dragonite.Store.Outcome.{observed}
use dragonite.Sync.{
  rows, get_max_stream_ordering, is_visible, get_since, last_ordering, next_token, advance,
  generate_next_since_token,
}
use dragonite.Sync.Unsigned.{Codec}
use dragonite.Sync.Client.{
  SyncClientResponse, Wait, notified, timed_out, get_events_since, is_response_empty, with_token,
  resume, sync_client, empty_response, caught, answer, respond,
}
use dragonite.Sync.Token.{
  generate-Ensures, last_ordering-last_key, ordering, token_from, visible_above,
}

-- Only the result counts, whatever came before, and nothing is caught unless it was cancelled.
caught-Ensures {ℓ κ} :
    {A : Type ℓ} {B : Type κ} (canceled : Db → Bool) (m : Action A) (f : Option A → Action B)
    (P : B → Type 0) (t : Tables)
    → ((end : Db) (u : Tables) → canceled end ≡ true → Ensures ⊥ (f none) (λ b v. P b) u)
    → ((a : A) (u : Tables) → Ensures ⊥ (f (some a)) (λ b v. P b) u)
    → Ensures ⊥ (caught canceled m >>= f) (λ b v. P b) t
unfolding ◌>>=◌ caught
caught-Ensures {A = A} canceled m f P t lost rest = record { run = λ db e h. go db (m db) refl }
  where
    go :
        (db : Db) (o : Result A × Db)
        → m db ≡ o
        → Meets ⊥ (λ b v. P b) ((caught canceled m >>= f) db)
    go db (ok a, db') ran = rw ran ((rest a db'.tables).run db' refl (λ never. absurd never))
    go db (err e, db') ran = elim (Bool-cases (canceled db')) [
      | inl gone ↦ rw (ran, gone) ((lost db' db'.tables gone).run db' refl (λ never. absurd never))
      | inr other ↦ rw (ran, other) (λ never. never)
    ]

-- No part of the token goes back, and only its place in the timeline moves.
abbrev pub Advances : SyncToken → SyncToken → Type 0
Advances since next =
    (ltb_ℤ next.timeline_position since.timeline_position ≡ false)
    × (next.presence_position ≡ since.presence_position)
    × (next.receipt_position ≡ since.receipt_position)

Advances-from :
    (since : SyncToken) (evs : List Evento) (t : Tables)
    → are_above ordering since.timeline_position evs ≡ true
    → Advances since (token_from since evs t)
unfolding token_from advance next_token last_ordering are_above
Advances-from since [] t above =
    let top : ℤ = get_max_stream_ordering t in
    elim (Bool-cases (ltb_ℤ since.timeline_position top)) [
      | inl ahead ↦ rw ahead (ground (arith, ahead), refl, refl)
      | inr behind ↦ rw behind (ltb_ℤ_irrefl since.timeline_position, refl, refl)
    ]
Advances-from since (ev ∷ evs) t above = (
  rw (last_ordering-last_key ev.stream_ordering evs) (
      last_key-no_less ordering ev.stream_ordering since.timeline_position evs
        (ground (arith, above)) (ground (arith, above))),
  refl,
  refl,
)

token_from-Advances :
    (user : String) (since : SyncToken) (t : Tables)
    → Advances since (token_from since (get_since user since.timeline_position t) t)
unfolding get_since
token_from-Advances user since t =
    Advances-from since (get_since user since.timeline_position t) t (
      are_above-order_by ordering since.timeline_position
        (keep (is_visible user since.timeline_position t) (rows t.eventos))
        (visible_above user since.timeline_position t))

-- The token advances; or the request was cancelled, and the response is empty.
abbrev pub Answers : (Db → Bool) → SyncToken → SyncClientResponse → Type 0
Answers canceled since r =
    Advances since r.next_batch ⊎ ((r ≡ empty_response) × ((end : Db) × (canceled end ≡ true)))

module _ (canceled : Db → Bool) (user : String) (since : SyncToken) where
  with_token-Ensures :
      (r : SyncClientResponse) (t : Tables)
      → Ensures ⊥ (with_token user since r) (λ r' u. Answers canceled since r') t
  unfolding with_token
  with_token-Ensures r t = bind-Ensures ⊥ (generate_next_since_token user since) _ _ t (
      generate-Ensures user since _ t
        (return-Ensures ⊥ _ _ t (inl (token_from-Advances user since t))))

  emptied-Ensures :
      (end : Db) (t : Tables)
      → canceled end ≡ true
      → Ensures ⊥ (return empty_response) (λ r' u. Answers canceled since r') t
  emptied-Ensures end t gone = return-Ensures ⊥ _ _ t (inr (refl, (end, gone)))

  resume-Ensures :
      (c : Codec) (device : String) (r : SyncClientResponse) (w : Wait) (t : Tables)
      → Ensures ⊥
          (resume canceled c user device since r (some w))
          (λ r' u. Answers canceled since r')
          t
  unfolding resume answer
  resume-Ensures c device r timed_out t = with_token-Ensures r t
  resume-Ensures c device r notified t =
      caught-Ensures canceled (get_events_since c user device since) (answer user since)
        (Answers canceled since) t emptied-Ensures with_token-Ensures

  respond-Ensures :
      (c : Codec) (wait : Action Wait) (device : String) (timeout : ℤ) (r : SyncClientResponse)
      (t : Tables)
      → Ensures ⊥
          (respond canceled c wait user device since timeout (some r))
          (λ r' u. Answers canceled since r')
          t
  unfolding respond resume
  respond-Ensures c wait device timeout r t =
      go (not (is_response_empty r) || not (ltb_ℤ (pos 0) timeout))
    where
      go :
          (b : Bool)
          → Ensures ⊥
              (if b
                then with_token user since r
                else (caught canceled wait >>= resume canceled c user device since r))
              (λ r' u. Answers canceled since r')
              t
      go true = with_token-Ensures r t
      go false =
          caught-Ensures canceled wait (resume canceled c user device since r)
            (Answers canceled since) t emptied-Ensures (resume-Ensures c device r)

-- Every response of SyncClient either has a token that lies no earlier in the timeline than the
-- token that the client gave and has its places for presence and receipts, or is the empty response
-- to a request that was cancelled; whatever statements fail, and whatever others do while it waits.
pub sync_client-Advances :
    (canceled : Db → Bool) (c : Codec) (wait : Action Wait) (user device : String)
    (since : SyncToken) (timeout : ℤ) (r : SyncClientResponse) (db db' : Db)
    → sync_client canceled c wait user device since timeout db ≡ (ok r, db')
    → Answers canceled since r
unfolding sync_client respond
sync_client-Advances canceled c wait user device since timeout r db db' ran =
    observed (sync_client canceled c wait user device since timeout)
      (λ r t. Answers canceled since r) r db db'
      (caught-Ensures canceled (get_events_since c user device since)
        (respond canceled c wait user device since timeout) (Answers canceled since) db.tables
        (emptied-Ensures canceled user since)
        (respond-Ensures canceled user since c wait device timeout))
      ran
