-- ===== src/Payments/Untouched.antt =====
-- The handlers and the recovery of deferred events leave the rows of webhook events alone.
use fast_api_e_commerce.Prelude.{
  ◌≡◌, refl, Option, none, some, List, [], ◌∷◌, ok, arith, Result-cases, inl, inr, ◌∙◌,
}
use fast_api_e_commerce.Lifecycle.Db.{Refund}
use fast_api_e_commerce.Payments.Rows.{
  Event, Env, Store, Deferred, defer_event, defer_if_unknown, flag_payment, flag_unknown,
}
use fast_api_e_commerce.Payments.Events.{
  apply_to, find_refund, settle, handle_payment_succeeded, handle_payment_failed,
  handle_unknown_refund, flag_refund, handle_refund_event, handle_dispute_event,
}
use fast_api_e_commerce.Payments.Webhooks.{EventKind, kind_of, handle}
use fast_api_e_commerce.Payments.Recovery.{
  apply_deferred_event, not_yet, not_applied, applied, reprocess_row, reprocess_rows,
}

-- the handlers leave the rows of the events alone
module _ (env : Env) where
  pub handle_payment_succeeded-webhook_events :
      (e : Event) (s : Store) → (handle_payment_succeeded env e s).webhook_events ≡ s.webhook_events
  unfolding handle_payment_succeeded settle defer_event flag_payment flag_unknown
  handle_payment_succeeded-webhook_events e s = ground arith

  pub handle_unknown_refund-webhook_events :
      (e : Event) (s : Store) → (handle_unknown_refund env e s).webhook_events ≡ s.webhook_events
  unfolding handle_unknown_refund flag_refund defer_if_unknown defer_event flag_unknown
  handle_unknown_refund-webhook_events e s = ground arith

  pub refund_event-webhook_events :
      (x : Event × Option Refund) (s s' : Store)
      → apply_to env x s ≡ ok s'
      → s'.webhook_events ≡ s.webhook_events
  refund_event-webhook_events (e', none) s s' r =
      ground (arith, handle_unknown_refund-webhook_events e' s)
  refund_event-webhook_events (e', some f) s s' r = ground arith

  pub handle_refund_event-webhook_events :
      (e : Event) (s s' : Store)
      → handle_refund_event env e s ≡ ok s'
      → s'.webhook_events ≡ s.webhook_events
  unfolding handle_refund_event
  handle_refund_event-webhook_events e s s' r =
      refund_event-webhook_events (find_refund e s.db) s s' r

  pub handle-webhook_events :
      (k : EventKind) (e : Event) (s s' : Store)
      → handle env k e s ≡ ok s'
      → s'.webhook_events ≡ s.webhook_events
  unfolding handle handle_payment_failed handle_dispute_event defer_if_unknown defer_event
  handle-webhook_events k e s s' r = ground (
    arith,
    handle_payment_succeeded-webhook_events e s,
    handle_refund_event-webhook_events e s s',
  )

-- the recovery of deferred events leaves the rows of the events alone
pub apply_deferred_event-webhook_events :
    (env : Env) (k : EventKind) (e : Event) (s s' : Store)
    → apply_deferred_event env k e s ≡ ok s'
    → s'.webhook_events ≡ s.webhook_events
unfolding apply_deferred_event
apply_deferred_event-webhook_events env k e s s' r = ground (
  arith,
  handle_payment_succeeded-webhook_events env e s,
  handle_refund_event-webhook_events env e s s',
)

pub reprocess_row-webhook_events :
    (env : Env) (d : Deferred) (s : Store)
    → (reprocess_row env d s).webhook_events ≡ s.webhook_events
unfolding reprocess_row not_yet not_applied applied
reprocess_row-webhook_events env d s =
    elim (Result-cases (apply_deferred_event env (kind_of d.event.event_type) d.event s)) [
      | inl (x, n) ↦ ground arith
      | inr (m, n) ↦ ground (
        arith,
        apply_deferred_event-webhook_events env (kind_of d.event.event_type) d.event s m n,
      )
    ]

pub reprocess_rows-webhook_events :
    (env : Env) (ds : List Deferred) (s : Store)
    → (reprocess_rows env ds s).webhook_events ≡ s.webhook_events
unfolding reprocess_rows
reprocess_rows-webhook_events env [] s = refl
reprocess_rows-webhook_events env (d ∷ ds) s =
    reprocess_rows-webhook_events env ds (reprocess_row env d s)
    ∙ reprocess_row-webhook_events env d s
