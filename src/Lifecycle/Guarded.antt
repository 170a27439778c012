-- ===== src/Lifecycle/Guarded.antt =====
-- Updates of the lifecycle under the guards of the database.
use fast_api_e_commerce.Prelude.{
  ℕ, Bool, true, false, Option, some, List, [], ◌∷◌, ok, ◌≡◌, ◌⊎◌, inl, inr, Result, find, refl,
  arith, ◌==◌, if◌then◌else◌,
}
use fast_api_e_commerce.Orders.Types.{Order, OrderStatus, Text, same_text}
use fast_api_e_commerce.Lifecycle.Db.{
  Db, Error, save_refund, Payment, Refund, RefundStatus, put_refund, get_refund,
}
use fast_api_e_commerce.Lifecycle.Documents.{reconcile, issue_credit_note}
use fast_api_e_commerce.Lifecycle.Restock.{restock_once}
use fast_api_e_commerce.Lifecycle.Status.{release_stock_and_cancel}
use fast_api_e_commerce.Lifecycle.Reports.{
  Reported, reported_succeeded, reported_failed, reported_canceled, reported_other, refund_order,
  confirm_for, confirm_refund, note_dispute, note_mismatch, first_some, apply_refund_state,
  apply_report, is_final,
}
use fast_api_e_commerce.Lifecycle.Guards.{orders_lifecycle_guard, refunds_guard}

-- The cancellation of a pending order with the release of its stock stores an order that the guard of
-- the orders lets stand: pending to cancelled, with the stock released.
pub release_stock_and_cancel_guarded :
    (o o' : Order) (db db' : Db)
    → o.status ≡ OrderStatus.pending
    → release_stock_and_cancel o db ≡ ok (o', db')
    → (orders_lifecycle_guard o o' db' ≡ true) × (db'.orders o.id ≡ some o')
unfolding release_stock_and_cancel restock_once orders_lifecycle_guard
release_stock_and_cancel_guarded o o' db db' p e = (ground arith, ground arith)

same_text_refl : (t : Text) → same_text t t ≡ true
same_text_refl [] = refl
same_text_refl (c ∷ t) = ground (arith, same_text_refl t)

find-put_refund :
    (rs : List Refund) (r q : Refund)
    → q.id ≡ r.id
    → find (λ x. x.id == r.id) rs ≡ some r
    → find (λ x. x.id == r.id) (put_refund q rs) ≡ some q
find-put_refund [] r q e h = absurd (ground arith)
find-put_refund (x ∷ xs) r q e h = ground (arith, find-put_refund xs r q e)

refund_order-refunds :
    (o : Order) (r : Refund) (db db' : Db) → refund_order o r db ≡ ok db' → db'.refunds ≡ db.refunds
unfolding refund_order restock_once issue_credit_note
refund_order-refunds o r db db' e = ground arith

confirm_for-refunds :
    (r : Refund) (reference amount : Option ℕ) (o : Order) (p : Payment) (db db' : Db)
    → confirm_for r reference amount o p db ≡ ok db'
    → db'.refunds ≡ db.refunds
unfolding confirm_for note_dispute reconcile
confirm_for-refunds r reference amount o p db db' e = grind (arith, refund_order-refunds)

confirm_refund-refunds :
    (r : Refund) (reference amount : Option ℕ) (db db' : Db)
    → confirm_refund r reference amount db ≡ ok db'
    → db'.refunds ≡ db.refunds
unfolding confirm_refund
confirm_refund-refunds r reference amount db db' e = grind (arith, confirm_for-refunds)

note_mismatch-refunds :
    (amount : Option ℕ) (currency : Option Text) (r : Refund) (db : Db)
    → (note_mismatch amount currency r db).refunds ≡ db.refunds
unfolding note_mismatch reconcile
note_mismatch-refunds amount currency r db = ground arith

-- the status that a report gives to a refund
abbrev pub reported_status : Reported → RefundStatus → RefundStatus
reported_status reported_succeeded _ = RefundStatus.succeeded
reported_status reported_other RefundStatus.requested = RefundStatus.pending
reported_status reported_other s = s
reported_status _ _ = RefundStatus.failed

apply_report-refunds :
    (r : Refund) (reported : Reported) (amount reference : Option ℕ) (db db' : Db)
    → apply_report r reported amount reference db ≡ ok db'
    → db'.refunds ≡ put_refund (record r { status = reported_status reported r.status }) db.refunds
unfolding apply_report
apply_report-refunds r reported_succeeded amount reference db db' e =
    grind (arith, confirm_refund-refunds)
apply_report-refunds r reported_failed amount reference db db' e = ground arith
apply_report-refunds r reported_canceled amount reference db db' e = ground arith
apply_report-refunds r reported_other amount reference db db' e = ground arith

refunds_guard_same :
    (r : Refund) (reference : Option ℕ) (s : RefundStatus)
    → (is_final r.status ≡ false) ⊎ (s ≡ r.status)
    → refunds_guard r (record r { provider_refund_id = reference; status = s }) ≡ true
unfolding refunds_guard
refunds_guard_same r reference s h = ground (arith, same_text_refl r.currency)

returned_or :
    (b : Bool) (x y : Db) (m : Result Error Db)
    → (if b then ok x else m) ≡ ok y
    → ((b ≡ true) × (x ≡ y)) ⊎ ((b ≡ false) × (m ≡ ok y))
returned_or true x y m e = inl (refl, ground arith)
returned_or false x y m e = inr (refl, e)

-- Whatever the provider reports of a stored refund, the row that is stored then passes the guard of the
-- refunds: what the refund is for is kept, and a final status too. A refund that was not final takes
-- the status that was reported; any other report leaves it in flight.
pub apply_refund_state_guarded :
    (r : Refund) (reported : Reported) (amount : Option ℕ) (currency : Option Text)
    (reference : Option ℕ) (db db' : Db)
    → get_refund r.id db ≡ some r
    → apply_refund_state r reported amount currency reference db ≡ ok db'
    → (q : Refund) × (get_refund r.id db' ≡ some q)
      × (refunds_guard r q ≡ true)
      × ((is_final r.status ≡ false) → q.status ≡ reported_status reported r.status)
unfolding apply_refund_state
apply_refund_state_guarded r reported amount currency reference db db' stored e =
    let named : Refund = record r {
      provider_refund_id = first_some r.provider_refund_id reference;
    } in
    let noted : Db = note_mismatch amount currency r db in
    let kept : get_refund r.id noted ≡ some r =
      rw (note_mismatch-refunds amount currency r db) stored in
    elim (returned_or (is_final r.status) (save_refund named noted) db'
      (apply_report named reported amount reference noted) e) [
        | inl (final, same) ↦ (
          named,
          rw (← same) (find-put_refund noted.refunds r named refl kept),
          refunds_guard_same r named.provider_refund_id r.status (inr refl),
          λ h. absurd (ground arith),
        )
        | inr (going, report) ↦
            let q : Refund = record named { status = reported_status reported r.status } in
            (
              q,
              rw (apply_report-refunds named reported amount reference noted db' report)
                  (find-put_refund noted.refunds r q refl kept),
              refunds_guard_same r named.provider_refund_id q.status (inl going),
              λ _. refl,
            )
      ]
