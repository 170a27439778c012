-- ===== src/Payments/Rows.antt =====
-- The rows that webhooks write beside the lifecycle's (app/modules/payments/models/webhook_event.py and
-- deferred_event.py), the event of app/core/payments/interface.py, and the repository's methods on them.
--
-- An id that is empty or None is `none`; in a dedupe key it reads as 0, which no id is.
use fast_api_e_commerce.Prelude.{
  ℕ, ◌+◌, ◌*◌, max, Bool, true, false, not, ◌&&◌, Option, none, some, List, [], ◌∷◌, ◌==◌,
  if◌then◌else◌, any, find, is_some, get_or, same_key,
}
use fast_api_e_commerce.Orders.Types.{Text}
use fast_api_e_commerce.Lifecycle.Db.{Db, KeyKind, Payment, Refund, Reconciliation}
use fast_api_e_commerce.Lifecycle.Documents.{reconcile, same_kind}
use fast_api_e_commerce.Lifecycle.Reports.{Reported}

-- `WebhookEvent`; its dispute reason is left out, as nothing reads it.
pub record Event : Type 0 where
  pub event_id : ℕ
  pub event_type : Text
  pub provider_payment_id : Option ℕ
  pub amount : Option ℕ
  pub amount_received : Option ℕ
  pub currency : Option Text
  pub provider_refund_id : Option ℕ
  pub refund_status : Reported
  pub provider_dispute_id : Option ℕ
  pub dispute_status : Text
  pub provider : ℕ
  pub provider_reference : Option ℕ
  pub config_id : Option ℕ

pub data RowStatus : Type 0 where
  processing processed ignored failed : RowStatus

-- `ProcessedWebhookEvent`, without its last error and its times
pub record WebhookRow : Type 0 where
  pub provider : ℕ
  pub event_id : ℕ
  pub status : RowStatus
  pub attempts : ℕ

pub data DeferredStatus : Type 0 where
  waiting recovered expired : DeferredStatus

-- `DeferredWebhookEvent`: `event` holds its columns of the event; there is none for the reference and
-- the configuration. `waiting` is its status `pending`, and times are seconds.
pub record Deferred : Type 0 where
  pub event : Event
  pub status : DeferredStatus
  pub attempts : ℕ
  pub next_attempt_at : ℕ
  pub expires_at : ℕ

-- the actions of `_flag_for_review`, in the audit log
pub data Flag : Type 0 where
  config_mismatch unverifiable_success amount_differs order_differs unmatched_success : Flag
  order_missing late_unreconciled unknown_refund_flag orphan_intent : Flag
  event_expired event_recovered : Flag

-- `confirmations` are the orders with a queued confirmation email, and `flags` the audit log's entries
-- about payments and events, each with the id of its target, if any.
pub record Store : Type 0 where
  pub db : Db
  pub webhook_events : List WebhookRow
  pub deferred : List Deferred
  pub confirmations : List ℕ
  pub flags : List (Flag × Option ℕ)
  pub verified_configs : List ℕ
  pub cancel_requests : List (ℕ × ℕ)

-- the settings of the recovery of deferred events, and the time
pub record Env : Type 0 where
  pub recovery_interval_seconds : ℕ
  pub recovery_window_minutes : ℕ
  pub recovery_max_attempts : ℕ
  pub now : ℕ

-- `get_by_provider_payment_id`
abbrev pub get_by_provider_payment_id : Option ℕ → ℕ → Db → Option Payment
get_by_provider_payment_id none provider db = none
get_by_provider_payment_id (some id) provider db =
    find (λ p. p.provider_payment_id == id && p.provider == provider) db.payments

-- `get_by_provider_reference`
abbrev pub get_by_provider_reference : ℕ → ℕ → Db → Option Payment
get_by_provider_reference reference provider db =
    find (λ p. same_key p.provider_reference (some reference) && p.provider == provider) db.payments

-- `refunds.get_by_provider_refund_id`
abbrev pub get_by_provider_refund_id : ℕ → Db → Option Refund
get_by_provider_refund_id id db = find (λ r. same_key r.provider_refund_id (some id)) db.refunds

-- whether a row is that of the provider's event
abbrev pub is_row : ℕ → ℕ → WebhookRow → Bool
is_row provider event_id w = w.provider == provider && w.event_id == event_id

abbrev pub is_failed : RowStatus → Bool
is_failed RowStatus.failed = true
is_failed _ = false

-- `claim_webhook_event`: the rows, where the event is claimed
unfoldable pub claim : ℕ → ℕ → List WebhookRow → Option (List WebhookRow)
claim provider event_id [] = some (
    record { provider = provider; event_id = event_id; status = RowStatus.processing; attempts = 1 }
    ∷ [])
claim provider event_id (w ∷ ws) =
    let rest = claim provider event_id ws in
    if is_row provider event_id w
    then (if is_failed w.status
        then some (record w { status = RowStatus.processing; attempts = w.attempts + 1 } ∷ ws)
        else none)
    else elim rest [ none ↦ none | some ws' ↦ some (w ∷ ws') ]

-- `finish_webhook_event`
unfoldable pub finish : ℕ → ℕ → RowStatus → List WebhookRow → List WebhookRow
finish provider event_id status [] = []
finish provider event_id status (w ∷ ws) =
    if is_row provider event_id w
    then record w { status = status } ∷ ws
    else w ∷ finish provider event_id status ws

-- `record_failed_event` of webhook_recovery.py
unfoldable pub record_failed_event : ℕ → ℕ → List WebhookRow → List WebhookRow
record_failed_event provider event_id [] =
    record { provider = provider; event_id = event_id; status = RowStatus.failed; attempts = 1 }
    ∷ []
record_failed_event provider event_id (w ∷ ws) =
    if is_row provider event_id w
    then (if is_failed w.status then record w { attempts = w.attempts + 1 } else w) ∷ ws
    else w ∷ record_failed_event provider event_id ws

abbrev pub same_event : Event → Deferred → Bool
same_event e d = d.event.provider == e.provider && d.event.event_id == e.event_id

-- `defer_event` of the repository: a row is made once for each event of a provider
unfoldable pub defer_row : Env → Event → List Deferred → List Deferred
defer_row env e rows =
    if any (same_event e) rows
    then rows
    else record {
      event = record e { provider_reference = none; config_id = none };
      status = waiting;
      attempts = 0;
      next_attempt_at = env.now + max env.recovery_interval_seconds 1;
      expires_at = env.now + env.recovery_window_minutes * 60;
    }
      ∷ rows

-- `_defer_event`
unfoldable pub defer_event : Env → Event → Store → Store
unfolding defer_row
defer_event env e s =
    if not (is_some e.provider_payment_id)
    then s
    else if env.recovery_interval_seconds == 0
    then s
    else record s { deferred = defer_row env e s.deferred }

-- `_defer_if_payment_unknown`
unfoldable pub defer_if_unknown : Env → Event → Store → Store
unfolding defer_event
defer_if_unknown env e s =
    if is_some (get_by_provider_payment_id e.provider_payment_id e.provider s.db)
    then s
    else defer_event env e s

-- `_flag_for_review` of a payment
unfoldable pub flag_payment : Flag → KeyKind → Payment → Store → Store
unfolding reconcile
flag_payment flag kind p s = record s {
  flags = (flag, some p.id) ∷ s.flags;
  db = reconcile kind p.id (some p.id) (some p.order_id) s.db;
}

-- `_flag_for_review` of what no payment is known for
unfoldable pub flag_unknown : Flag → KeyKind → Option ℕ → Option ℕ → Store → Store
unfolding reconcile
flag_unknown flag kind subject order_id s = record s {
  flags = (flag, none) ∷ s.flags;
  db = reconcile kind (get_or subject 0) none order_id s.db;
}

-- `resolve_by_dedupe_key`
unfoldable pub resolve_key : KeyKind → ℕ → List Reconciliation → List Reconciliation
unfolding same_kind
resolve_key kind subject [] = []
resolve_key kind subject (r ∷ rs) =
    if same_kind r.kind kind && r.subject == subject
    then record r { is_open = false } ∷ rs
    else r ∷ resolve_key kind subject rs
