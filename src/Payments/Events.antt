-- ===== src/Payments/Events.antt =====
-- The handlers of webhook events in app/modules/payments/services/payment_service.py: a payment that
-- succeeded or failed, a refund and a dispute.
use fast_api_e_commerce.Prelude.{
  ℕ, Bool, true, false, not, ◌&&◌, Option, none, some, List, ◌∷◌, Result, ok, err, ◌>>=◌, ◌==◌,
  if◌then◌else◌, any, is_some, same_key, pos,
}
use fast_api_e_commerce.Orders.Types.{Order, OrderStatus, same_status, Text, same_text}
use fast_api_e_commerce.Money.{to_stripe_amount}
use fast_api_e_commerce.Lifecycle.Db.{
  Db, Error, KeyKind, order_mismatch, unverifiable_payment, amount_mismatch, unmatched_payment,
  late_payment, unknown_refund, Payment, PaymentStatus, Refund, save_payment, active_for_payment,
}
use fast_api_e_commerce.Lifecycle.Status.{mark_paid, is_succeeded}
use fast_api_e_commerce.Lifecycle.Reports.{
  Reported, reported_succeeded, apply_refund_state, record_external_refund,
}
use fast_api_e_commerce.Lifecycle.Disputes.{DisputeEvent, apply_dispute_event}
use fast_api_e_commerce.Payments.Rows.{
  Event, Env, Store, Flag, config_mismatch, unverifiable_success, amount_differs, order_differs,
  unmatched_success, order_missing, late_unreconciled, unknown_refund_flag,
  get_by_provider_payment_id, get_by_provider_reference, get_by_provider_refund_id, defer_event,
  defer_if_unknown, flag_payment, flag_unknown,
}

-- the event was verified by another configuration than the payment was made with
abbrev pub config_differs : Event → Payment → Bool
config_differs e p = elim e.config_id [
  | none ↦ false
  | some c ↦ elim p.provider_config_id [ none ↦ false | some d ↦ not (d == c) ]
]

abbrev pub is_code : Option Text → Text → Bool
is_code none code = false
is_code (some c) code = same_text c code

-- the amount, the amount received if it is given, and the currency are the payment's
abbrev pub amount_agrees : Event → Payment → Bool
amount_agrees e p = elim (to_stripe_amount (pos p.amount_cents) p.currency) [
  | err _ ↦ false
  | ok expected ↦
      same_key e.amount (some expected)
      && elim e.amount_received [ none ↦ true | some a ↦ a == expected ]
      && is_code e.currency p.currency
]

abbrev pub order_agrees : Payment → Option Order → Bool
order_agrees p none = true
order_agrees p (some o) =
    o.total_cents == p.amount_cents
    && elim o.currency [ none ↦ true | some c ↦ same_text c p.currency ]

-- `_event_matches_payment`: what the event is flagged for, unless it matches
unfoldable pub mismatch : Event → Payment → Db → Option (Flag × KeyKind)
unfolding to_stripe_amount
mismatch e p db =
    if config_differs e p
    then some (config_mismatch, order_mismatch)
    else if not (is_some e.amount && is_some e.currency)
    then some (unverifiable_success, unverifiable_payment)
    else if not (amount_agrees e p)
    then some (amount_differs, amount_mismatch)
    else if not (order_agrees p (db.orders p.order_id))
    then some (order_differs, order_mismatch)
    else none

-- the confirmation email is queued once for an order: its dedupe key names the order
abbrev pub enqueue_confirmation : ℕ → List ℕ → List ℕ
enqueue_confirmation order_id jobs = if any (λ i. i == order_id) jobs then jobs else order_id ∷ jobs

-- what follows `mark_paid`
abbrev pub after_mark_paid : ℕ → Bool × Db → Store → Store
after_mark_paid order_id (is_now_paid, db) s =
    if is_now_paid
    then record s { db = db; confirmations = enqueue_confirmation order_id s.confirmations }
    else record s { db = db }

-- the payment p has succeeded, as verified; s already has its row
unfoldable pub settle : Payment → Store → Store
unfolding mark_paid flag_payment
settle p s = elim (s.db.orders p.order_id) [
  | none ↦ flag_payment order_missing order_mismatch p s
  | some o ↦
      if not (same_status o.status OrderStatus.pending)
      then flag_payment late_unreconciled late_payment p s
      else after_mark_paid o.id (mark_paid o p s.db) s
]

-- the payment's row, with the event's reference if it has none, and succeeded
abbrev pub received : Event → Payment → Payment
received e p = record p {
  provider_reference = elim p.provider_reference [ none ↦ e.provider_reference | some r ↦ some r ];
  status = PaymentStatus.succeeded;
}

-- `_handle_payment_succeeded`
unfoldable pub handle_payment_succeeded : Env → Event → Store → Store
unfolding mismatch settle defer_event flag_unknown flag_payment
handle_payment_succeeded env e s =
    elim (get_by_provider_payment_id e.provider_payment_id e.provider s.db) [
      | none ↦
          defer_event env e
            (flag_unknown unmatched_success unmatched_payment e.provider_payment_id none s)
      | some p ↦ elim (mismatch e p s.db) [
        | some (flag, kind) ↦ flag_payment flag kind p s
        | none ↦ settle (received e p) (record s { db = save_payment (received e p) s.db })
      ]
    ]

-- `_handle_payment_failed`
unfoldable pub handle_payment_failed : Event → Store → Store
handle_payment_failed e s =
    elim (get_by_provider_payment_id e.provider_payment_id e.provider s.db) [
      | none ↦ s
      | some p ↦
          if is_succeeded p.status
          then s
          else record s { db = save_payment (record p { status = PaymentStatus.failed }) s.db }
    ]

abbrev pub active_of : Option Payment → Db → Option Refund
active_of none db = none
active_of (some p) db = active_for_payment p.id db

abbrev by_refund_id : Event → Db → Option Refund
by_refund_id e db = elim e.provider_refund_id [
  | none ↦ none
  | some id ↦ get_by_provider_refund_id id db
]

abbrev by_reference : Event → Db → Event × Option Refund
by_reference e db = elim e.provider_reference [
  | none ↦ (e, none)
  | some r ↦ elim (get_by_provider_reference r e.provider db) [
    | none ↦ (e, none)
    | some p ↦
        (record e { provider_payment_id = some p.provider_payment_id }, active_for_payment p.id db)
  ]
]

-- our refund that the event is about, and the event, which learns the payment's id on the way
unfoldable pub find_refund : Event → Db → Event × Option Refund
find_refund e db = elim (by_refund_id e db) [
  | some r ↦ (e, some r)
  | none ↦ elim e.provider_payment_id [
    | some id ↦ (e, active_of (get_by_provider_payment_id (some id) e.provider db) db)
    | none ↦ by_reference e db
  ]
]

abbrev pub is_reported_succeeded : Reported → Bool
is_reported_succeeded reported_succeeded = true
is_reported_succeeded _ = false

-- an event that no refund of ours is known for, and no refund can be recorded for
unfoldable pub flag_refund : Env → Event → Store → Store
unfolding defer_if_unknown flag_unknown
flag_refund env e s =
    flag_unknown unknown_refund_flag unknown_refund e.provider_refund_id none
      (defer_if_unknown env e s)

-- an event that no refund of ours is known for
unfoldable pub handle_unknown_refund : Env → Event → Store → Store
unfolding flag_refund record_external_refund
handle_unknown_refund env e s =
    if not (is_reported_succeeded e.refund_status)
    then flag_refund env e s
    else elim (get_by_provider_payment_id e.provider_payment_id e.provider s.db) [
      | none ↦ flag_refund env e s
      | some p ↦ elim e.provider_refund_id [
        | none ↦ flag_refund env e s
        | some id ↦ record s { db = (record_external_refund p id e.amount e.currency s.db).1 }
      ]
    ]

-- what is done with our refund, where there is one
abbrev pub apply_to : Env → Event × Option Refund → Store → Result Error Store
apply_to env (e, none) s = ok (handle_unknown_refund env e s)
apply_to env (e, some r) s =
    apply_refund_state r e.refund_status e.amount e.currency e.provider_refund_id s.db >>= λ db.
    ok (record s { db = db })

-- `_handle_refund_event`
unfoldable pub handle_refund_event : Env → Event → Store → Result Error Store
unfolding find_refund apply_refund_state handle_unknown_refund
handle_refund_event env e s = apply_to env (find_refund e s.db) s

abbrev pub dispute_event : Event → DisputeEvent
dispute_event e = record {
  provider = e.provider;
  event_id = e.event_id;
  provider_payment_id = e.provider_payment_id;
  provider_dispute_id = e.provider_dispute_id;
  dispute_status = e.dispute_status;
  amount = e.amount;
  currency = e.currency;
}

-- `_handle_dispute_event`
unfoldable pub handle_dispute_event : Env → Event → Store → Store
unfolding apply_dispute_event defer_if_unknown
handle_dispute_event env e s =
    defer_if_unknown env e (record s { db = apply_dispute_event (dispute_event e) s.db })
