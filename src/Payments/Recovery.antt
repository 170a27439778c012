-- ===== src/Payments/Recovery.antt =====
-- `reprocess_deferred_events` of app/modules/payments/jobs.py: the deferred events that are due are
-- applied, or tried again later, or given up. A time is a number of seconds.
use fast_api_e_commerce.Prelude.{
  ℕ, zero, suc, ◌+◌, max, Bool, true, false, not, ◌&&◌, ◌||◌, some, List, [], ◌∷◌, Result, ok, err,
  leb, if◌then◌else◌, is_some, get_or, select,
}
use fast_api_e_commerce.Lifecycle.Db.{
  Error, unmatched_payment, unknown_refund, unmatched_dispute, Reconciliation,
}
use fast_api_e_commerce.Lifecycle.Disputes.{apply_dispute_event}
use fast_api_e_commerce.Payments.Rows.{
  Event, Env, Store, Deferred, DeferredStatus, waiting, recovered, expired, event_expired,
  event_recovered, get_by_provider_payment_id, resolve_key, same_event,
}
use fast_api_e_commerce.Payments.Events.{
  handle_payment_succeeded, handle_refund_event, dispute_event,
}
use fast_api_e_commerce.Payments.Webhooks.{
  EventKind, payment_succeeded, refund_changed, dispute_changed, kind_of,
}

-- `apply_deferred_event`
unfoldable pub apply_deferred_event : Env → EventKind → Event → Store → Result Error Store
unfolding handle_payment_succeeded handle_refund_event apply_dispute_event
apply_deferred_event env payment_succeeded e s = ok (handle_payment_succeeded env e s)
apply_deferred_event env refund_changed e s = handle_refund_event env e s
apply_deferred_event env dispute_changed e s =
    ok (record s { db = apply_dispute_event (dispute_event e) s.db })
apply_deferred_event env _ e s = ok s

abbrev pub is_waiting : DeferredStatus → Bool
is_waiting waiting = true
is_waiting _ = false

-- `claim_due_deferred` takes the rows that are due, the earliest first
unfoldable pub insert_due : Deferred → List Deferred → List Deferred
insert_due d [] = d ∷ []
insert_due d (x ∷ xs) =
    let rest = insert_due d xs in
    if leb d.next_attempt_at x.next_attempt_at then d ∷ x ∷ xs else x ∷ rest

unfoldable pub sort_due : List Deferred → List Deferred
sort_due [] = []
sort_due (x ∷ xs) = insert_due x (sort_due xs)

unfoldable pub first_of : ℕ → List Deferred → List Deferred
first_of zero xs = []
first_of (suc n) [] = []
first_of (suc n) (x ∷ xs) = x ∷ first_of n xs

unfoldable pub claim_due_deferred : ℕ → Env → List Deferred → List Deferred
unfolding insert_due sort_due first_of
claim_due_deferred limit env rows =
    first_of limit
      (sort_due (select (λ d. is_waiting d.status && leb d.next_attempt_at env.now) rows))

abbrev pub put_deferred : Deferred → List Deferred → List Deferred
put_deferred d [] = []
put_deferred d (x ∷ xs) = if same_event d.event x then d ∷ xs else x ∷ put_deferred d xs

abbrev pub save_deferred : Deferred → Store → Store
save_deferred d s = record s { deferred = put_deferred d s.deferred }

-- the row, tried again after the interval
abbrev pub later : Env → Deferred → Deferred
later env d = record d { next_attempt_at = env.now + max env.recovery_interval_seconds 1 }

-- a row whose payment is still unknown, its attempt counted
unfoldable pub not_yet : Env → Deferred → Store → Store
not_yet env d s =
    if leb env.recovery_max_attempts d.attempts || leb d.expires_at env.now
    then save_deferred (record d { status = expired })
        (record s { flags = (event_expired, some d.event.event_id) ∷ s.flags })
    else save_deferred (later env d) s

-- a row whose event raised, its attempt counted; nothing that the event did stands
unfoldable pub not_applied : Env → Deferred → Store → Store
not_applied env d s =
    save_deferred
      (if leb env.recovery_max_attempts d.attempts
        then record d { status = expired }
        else later env d)
      s

abbrev pub resolve_recovered : Event → List Reconciliation → List Reconciliation
unfolding resolve_key
resolve_recovered e rs = resolve_key unmatched_dispute (get_or e.provider_dispute_id 0) (
    resolve_key unknown_refund (get_or e.provider_refund_id 0)
      (resolve_key unmatched_payment (get_or e.provider_payment_id 0) rs))

-- a row whose event was applied, its attempt counted
unfoldable pub applied : Deferred → Store → Store
unfolding resolve_key
applied d s =
    save_deferred (record d { status = recovered })
      (record s {
        db = record s.db { reconciliations = resolve_recovered d.event s.db.reconciliations };
        flags = (event_recovered, some d.event.event_id) ∷ s.flags;
      })

-- the body of the loop over the rows
unfoldable pub reprocess_row : Env → Deferred → Store → Store
unfolding not_yet not_applied applied apply_deferred_event
reprocess_row env d s =
    let counted : Deferred = record d { attempts = d.attempts + 1 } in
    if not (is_some (get_by_provider_payment_id d.event.provider_payment_id d.event.provider s.db))
    then not_yet env counted s
    else elim (apply_deferred_event env (kind_of d.event.event_type) d.event s) [
      | ok s' ↦ applied counted s'
      | err _ ↦ not_applied env counted s
    ]

unfoldable pub reprocess_rows : Env → List Deferred → Store → Store
unfolding reprocess_row
reprocess_rows env [] s = s
reprocess_rows env (d ∷ ds) s = reprocess_rows env ds (reprocess_row env d s)

-- `reprocess_deferred_events`
unfoldable pub reprocess_deferred_events : Env → Store → Store
unfolding reprocess_rows claim_due_deferred
reprocess_deferred_events env s = reprocess_rows env (claim_due_deferred 50 env s.deferred) s
