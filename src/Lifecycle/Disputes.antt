-- ===== src/Lifecycle/Disputes.antt =====
-- Disputes, and the administrator's answer to a reconciliation record.
use fast_api_e_commerce.Prelude.{
  ℕ, Bool, true, false, not, ◌&&◌, ◌||◌, Option, none, some, List, [], ◌∷◌, Result, ok, err, ◌>>=◌,
  ◌==◌, if◌then◌else◌, find, length, get_or,
}
use fast_api_e_commerce.Orders.Types.{Text, same_text}
use fast_api_e_commerce.Lifecycle.Db.{
  Db, Error, not_refundable, reconciliation_not_open, Payment, Refund, Dispute, DisputeStatus,
  open_dispute, under_review, won, lost, closed, is_open, Reconciliation, audit,
  has_submitted_refund, dispute_opened, dispute_lost, unmatched_dispute,
  dispute_opened_after_refund, dispute_opened_action, dispute_changed, dispute_lost_action,
  dispute_closed_action, reconciliation_resolved,
}
use fast_api_e_commerce.Lifecycle.Documents.{reconcile}
use fast_api_e_commerce.Lifecycle.Refunds.{request_refund}
use fast_api_e_commerce.Lifecycle.Reports.{amount_or}

-- The event of a provider; an empty id is None.
pub record DisputeEvent : Type 0 where
  pub provider : ℕ
  pub event_id : ℕ
  pub provider_payment_id : Option ℕ
  pub provider_dispute_id : Option ℕ
  pub dispute_status : Text
  pub amount : Option ℕ
  pub currency : Option Text

abbrev needs_response : Text
needs_response =
    b'n' ∷ b'e' ∷ b'e' ∷ b'd' ∷ b's' ∷ b'_' ∷ b'r' ∷ b'e' ∷ b's' ∷ b'p' ∷ b'o' ∷ b'n' ∷ b's' ∷ b'e'
    ∷ []

abbrev pub review : Text
review = b'u' ∷ b'n' ∷ b'd' ∷ b'e' ∷ b'r' ∷ b'_' ∷ b'r' ∷ b'e' ∷ b'v' ∷ b'i' ∷ b'e' ∷ b'w' ∷ []

abbrev warning : Text → Text
warning s = b'w' ∷ b'a' ∷ b'r' ∷ b'n' ∷ b'i' ∷ b'n' ∷ b'g' ∷ b'_' ∷ s

abbrev pub won_text : Text
won_text = b'w' ∷ b'o' ∷ b'n' ∷ []

abbrev pub lost_text : Text
lost_text = b'l' ∷ b'o' ∷ b's' ∷ b't' ∷ []

abbrev closed_text : Text
closed_text = b'c' ∷ b'l' ∷ b'o' ∷ b's' ∷ b'e' ∷ b'd' ∷ []

-- `DISPUTE_STATUS_MAP.get(status, "open")`
unfoldable pub mapped_status : Text → DisputeStatus
mapped_status s =
    if same_text s review || same_text s (warning review)
    then under_review
    else if same_text s won_text
    then won
    else if same_text s lost_text
    then lost
    else if same_text s (warning closed_text)
    then closed
    else open_dispute

abbrev pub same_dispute_status : DisputeStatus → DisputeStatus → Bool
same_dispute_status open_dispute open_dispute = true
same_dispute_status under_review under_review = true
same_dispute_status won won = true
same_dispute_status lost lost = true
same_dispute_status closed closed = true
same_dispute_status _ _ = false

-- `payments.get_by_provider_payment_id`
abbrev pub find_payment : DisputeEvent → Db → Option Payment
find_payment e db = elim e.provider_payment_id [
  | none ↦ none
  | some id ↦ find (λ p. p.provider_payment_id == id && p.provider == e.provider) db.payments
]

-- `disputes.get_by_provider_id`
unfoldable pub find_dispute : ℕ → ℕ → List Dispute → Option Dispute
find_dispute provider id [] = none
find_dispute provider id (d ∷ ds) =
    if d.provider_dispute_id == id && d.provider == provider
    then some d
    else find_dispute provider id ds

abbrev pub put_dispute : Dispute → List Dispute → List Dispute
put_dispute d [] = []
put_dispute d (c ∷ cs) = if c.id == d.id then d ∷ cs else c ∷ put_dispute d cs

-- what follows a recorded change: a lost dispute is told to a human, and an end is audited
unfoldable pub note_end : DisputeStatus → ℕ → Payment → Db → Db
unfolding reconcile
note_end mapped id p db = elim mapped [
  | lost ↦ audit dispute_lost_action id (reconcile dispute_lost id (some p.id) (some p.order_id) db)
  | won ↦ audit dispute_closed_action id db
  | closed ↦ audit dispute_closed_action id db
  | _ ↦ db
]

-- a dispute that is new
unfoldable pub open_new : DisputeEvent → ℕ → DisputeStatus → Payment → Db → Db
unfolding reconcile
open_new e provider_dispute_id mapped p db =
    let d : Dispute = record {
      id = length db.disputes;
      provider = e.provider;
      provider_dispute_id = provider_dispute_id;
      payment_id = p.id;
      order_id = p.order_id;
      amount_cents = amount_or e.amount p.amount_cents;
      currency = get_or e.currency p.currency;
      status = mapped;
    } in
    let created : Db =
      audit dispute_opened_action d.id (record db { disputes = d ∷ db.disputes }) in
    let overlapping : Db =
      if is_open mapped && has_submitted_refund p.id db
      then reconcile dispute_opened_after_refund d.id (some p.id) (some p.order_id) created
      else created in
    if is_open mapped
    then reconcile dispute_opened d.id (some p.id) (some p.order_id) overlapping
    else overlapping

-- the dispute of that id is created or changed, unless it is closed or in the mapped status already
unfoldable pub record_dispute : DisputeEvent → ℕ → DisputeStatus → Payment → Db → Db
unfolding open_new note_end find_dispute
record_dispute e id mapped p db = elim (find_dispute e.provider id db.disputes) [
  | none ↦ note_end mapped (length db.disputes) p (open_new e id mapped p db)
  | some d ↦
      if not (is_open d.status) || same_dispute_status mapped d.status
      then db
      else note_end mapped d.id p (
          audit dispute_changed d.id
            (record db { disputes = put_dispute (record d { status = mapped }) db.disputes }))
]

-- `apply_dispute_event`
unfoldable pub apply_dispute_event : DisputeEvent → Db → Db
unfolding mapped_status record_dispute reconcile
apply_dispute_event e db = elim (find_payment e db) [
  | none ↦ reconcile unmatched_dispute (get_or e.provider_dispute_id e.event_id) none none db
  | some p ↦ elim e.provider_dispute_id [
    | none ↦ reconcile unmatched_dispute e.event_id none none db
    | some id ↦ record_dispute e id (mapped_status e.dispute_status) p db
  ]
]

unfoldable pub get_reconciliation : ℕ → List Reconciliation → Option Reconciliation
get_reconciliation id [] = none
get_reconciliation id (r ∷ rs) = if r.id == id then some r else get_reconciliation id rs

-- the record of that id is no longer open
unfoldable pub mark_resolved : ℕ → List Reconciliation → List Reconciliation
mark_resolved id [] = []
mark_resolved id (r ∷ rs) =
    if r.id == id then record r { is_open = false } ∷ rs else r ∷ mark_resolved id rs

abbrev open_reconciliation : ℕ → Db → Result Error Reconciliation
unfolding get_reconciliation
open_reconciliation id db = elim (get_reconciliation id db.reconciliations) [
  | none ↦ err reconciliation_not_open
  | some r ↦ if r.is_open then ok r else err reconciliation_not_open
]

abbrev save_resolved : Reconciliation → Db → Db
unfolding mark_resolved
save_resolved r db =
    audit reconciliation_resolved r.id
      (record db { reconciliations = mark_resolved r.id db.reconciliations })

-- `resolve_reconciliation`
unfoldable pub resolve_reconciliation : ℕ → Db → Result Error Db
unfolding open_reconciliation save_resolved
resolve_reconciliation id db = open_reconciliation id db >>= λ r. ok (save_resolved r db)

-- `refund_from_reconciliation`
unfoldable pub refund_from_reconciliation : ℕ → Db → Result Error (Refund × Db)
unfolding request_refund open_reconciliation save_resolved
refund_from_reconciliation id db = open_reconciliation id db >>= λ r. elim r.order_id [
  | none ↦ err not_refundable
  | some order_id ↦ elim r.payment_id [
    | none ↦ err not_refundable
    | some payment_id ↦
        request_refund order_id (some payment_id) false db >>= λ q. ok (q.0.0, save_resolved r q.1)
  ]
]
