-- ===== src/Payments/Delivery.antt =====
-- The claim of a webhook event: what is processed once stays so, and what failed is tried again.
use fast_api_e_commerce.Prelude.{
  ℕ, ◌≡◌, refl, true, false, Option, none, some, List, ok, err, arith, Option-cases, Result-cases,
  bind_ok, ◌⊎◌, is_some, inl, inr,
}
use fast_api_e_commerce.Lifecycle.Db.{Error}
use fast_api_e_commerce.Payments.Rows.{
  Event, Env, Store, is_failed, WebhookRow, claim, finish, record_failed_event,
}
use fast_api_e_commerce.Payments.Webhooks.{
  EventKind, kind_of, handle, outcome, process_webhook_event, mark_webhook_verified, deliver,
}
use fast_api_e_commerce.Payments.Recovery.{claim_due_deferred, reprocess_deferred_events}
use fast_api_e_commerce.Payments.History.{
  History, start, then_deliver, then_reprocess, then_lifecycle,
}
use fast_api_e_commerce.Payments.Claims.{
  claim-finish, claim-none-claim, finish-claim-none, record_failed-claim-none, record_failed-claim,
}
use fast_api_e_commerce.Payments.Untouched.{handle-webhook_events, reprocess_rows-webhook_events}

-- an event is a duplicate once its row is there and has not failed
abbrev pub IsDuplicate : ℕ → ℕ → Store → Type 0
IsDuplicate provider event_id s = claim provider event_id s.webhook_events ≡ none

outcome_lem : (k : EventKind) → is_failed (outcome k) ≡ false
outcome_lem k = ground arith

process_ok :
    (env : Env) (e : Event) (s s' : Store)
    → process_webhook_event env e s ≡ ok s'
    → (IsDuplicate e.provider e.event_id s × (s' ≡ s))
      ⊎ ((rows : List WebhookRow) × (claim e.provider e.event_id s.webhook_events ≡ some rows)
          × (s'.webhook_events
              ≡ finish e.provider e.event_id (outcome (kind_of e.event_type)) rows))
unfolding process_webhook_event
process_ok env e s s' r = elim (Option-cases (claim e.provider e.event_id s.webhook_events)) [
  | inl n ↦ inl (n, ground arith)
  | inr (rows, n) ↦
      let k : EventKind = kind_of e.event_type in
      let (m, h, f) =
        bind_ok (handle env k e (record s { webhook_events = rows }))
          (λ m. ok (record m {
            webhook_events = finish e.provider e.event_id (outcome k) m.webhook_events;
          }))
          (rw (n, process_webhook_event) at r) in
      inr (
        rows,
        n,
        ground (arith, handle-webhook_events env k e (record s { webhook_events = rows }) m h),
      )
]

process-IsDuplicate :
    (env : Env) (e : Event) (s s' : Store)
    → process_webhook_event env e s ≡ ok s'
    → IsDuplicate e.provider e.event_id s'
process-IsDuplicate env e s s' r = elim (process_ok env e s s' r) [
  | inl (n, q) ↦ rw q n
  | inr (rows, n, q) ↦
      let k : EventKind = kind_of e.event_type in
      rw q (claim-finish s.webhook_events e.provider e.event_id (outcome k) rows (outcome_lem k) n)
]

process-keeps_IsDuplicate :
    (env : Env) (e : Event) (p j : ℕ) (s s' : Store)
    → process_webhook_event env e s ≡ ok s'
    → IsDuplicate p j s
    → IsDuplicate p j s'
process-keeps_IsDuplicate env e p j s s' r h = elim (process_ok env e s s' r) [
  | inl (n, q) ↦ rw q h
  | inr (rows, n, q) ↦
      let k : EventKind = kind_of e.event_type in
      rw q (
        finish-claim-none rows p j e.provider e.event_id (outcome k) (outcome_lem k)
          (claim-none-claim s.webhook_events p j e.provider e.event_id rows n h))
]

marked-webhook_events :
    (c : Option ℕ) (s : Store) → (mark_webhook_verified c s).webhook_events ≡ s.webhook_events
marked-webhook_events c s = ground arith

-- a delivery that returned has made a duplicate of the event
deliver_ok-IsDuplicate :
    (env : Env) (e : Event) (s s' : Store)
    → deliver env e s ≡ (ok tt, s')
    → IsDuplicate e.provider e.event_id s'
unfolding deliver
deliver_ok-IsDuplicate env e s s' r =
    elim (Result-cases (process_webhook_event env e (mark_webhook_verified e.config_id s))) [
      | inl (x, n) ↦ ground arith
      | inr (m, n) ↦
          let q : m ≡ s' = ground arith in
          rw q at (process-IsDuplicate env e (mark_webhook_verified e.config_id s) m n)
    ]

-- a delivery, of whatever event, leaves the duplicates as they are
deliver-keeps_IsDuplicate :
    (env : Env) (e : Event) (p j : ℕ) (s : Store)
    → IsDuplicate p j s
    → IsDuplicate p j (deliver env e s).1
unfolding deliver
deliver-keeps_IsDuplicate env e p j s h =
    let t : Store = mark_webhook_verified e.config_id s in
    let h' : IsDuplicate p j t = rw (marked-webhook_events e.config_id s) h in
    elim (Result-cases (process_webhook_event env e t)) [
      | inl (x, n) ↦
          rw (n, deliver) (record_failed-claim-none s.webhook_events p j e.provider e.event_id h)
      | inr (m, n) ↦ rw (n, deliver) (process-keeps_IsDuplicate env e p j t m n h')
    ]

process_of_duplicate :
    (env : Env) (e : Event) (s : Store)
    → IsDuplicate e.provider e.event_id s
    → process_webhook_event env e s ≡ ok s
unfolding process_webhook_event
process_of_duplicate env e s h = rw (h, process_webhook_event) refl

-- a duplicate changes nothing, but that its configuration is marked as verified
deliver_of_duplicate :
    (env : Env) (e : Event) (s : Store)
    → IsDuplicate e.provider e.event_id s
    → deliver env e s ≡ (ok tt, mark_webhook_verified e.config_id s)
unfolding deliver
deliver_of_duplicate env e s h =
    let t : Store = mark_webhook_verified e.config_id s in
    let h' : IsDuplicate e.provider e.event_id t = rw (marked-webhook_events e.config_id s) h in
    rw (process_of_duplicate env e t h', deliver) refl

History-keeps_IsDuplicate :
    {limit : ℕ} {a b : Store} (p j : ℕ) → History limit a b → IsDuplicate p j a → IsDuplicate p j b
unfolding reprocess_deferred_events
History-keeps_IsDuplicate p j start h = h
History-keeps_IsDuplicate p j (then_deliver {b = b} env e l r q) h =
    rw q at (deliver-keeps_IsDuplicate env e p j b (History-keeps_IsDuplicate p j r h))
History-keeps_IsDuplicate p j (then_reprocess {b = b} env l r q) h =
    let ih : IsDuplicate p j b = History-keeps_IsDuplicate p j r h in
    rw q at
      (rw (← reprocess_rows-webhook_events env (claim_due_deferred 50 env b.deferred) b) at ih)
History-keeps_IsDuplicate p j (then_lifecycle {b = b} db r run q) h =
    let ih : IsDuplicate p j b = History-keeps_IsDuplicate p j r h in ground arith

-- Once a webhook event has been delivered and handled without an error, a later delivery of that event
-- id from that provider, of whatever content, returns and changes no row, but that the configuration
-- which verified it is marked as verified. This holds after any deliveries, runs of the recovery job
-- and transactions of the lifecycle in between.
pub deliver_once :
    (limit : ℕ) (env env' : Env) (e e' : Event) (a b c : Store)
    → deliver env e a ≡ (ok tt, b)
    → History limit b c
    → e'.provider ≡ e.provider
    → e'.event_id ≡ e.event_id
    → deliver env' e' c ≡ (ok tt, mark_webhook_verified e'.config_id c)
deliver_once limit env env' e e' a b c r run hp hi = deliver_of_duplicate env' e' c (
    rw (hp, hi)
      (History-keeps_IsDuplicate e.provider e.event_id run (deliver_ok-IsDuplicate env e a b r)))

deliver_err :
    (env : Env) (e : Event) (x : Error) (s s' : Store)
    → deliver env e s ≡ (err x, s')
    → s' ≡ record s { webhook_events = record_failed_event e.provider e.event_id s.webhook_events }
unfolding deliver
deliver_err env e x s s' r =
    elim (Result-cases (process_webhook_event env e (mark_webhook_verified e.config_id s))) [
      | inl (y, n) ↦ ground arith
      | inr (m, n) ↦ absurd (ground arith)
    ]

-- A delivery that raises changes nothing but the rows of webhook events: there, what was a duplicate
-- still is one, and the event itself is still to be claimed, so its next delivery is no duplicate.
pub deliver_failed :
    (env : Env) (e : Event) (x : Error) (s s' : Store)
    → deliver env e s ≡ (err x, s')
    → (s' ≡ record s { webhook_events = s'.webhook_events })
      × ((p j : ℕ) → IsDuplicate p j s → IsDuplicate p j s')
      × (is_some (claim e.provider e.event_id s'.webhook_events) ≡ true)
deliver_failed env e x s s' r =
    let q = deliver_err env e x s s' r in
    elim (Option-cases (claim e.provider e.event_id s.webhook_events)) [
      | inl n ↦ let o = deliver_of_duplicate env e s n in absurd (ground arith)
      | inr (rows, n) ↦ (
        ground arith,
        λ p j h. rw q (record_failed-claim-none s.webhook_events p j e.provider e.event_id h),
        rw q (record_failed-claim s.webhook_events e.provider e.event_id rows n),
      )
    ]
