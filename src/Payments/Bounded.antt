-- ===== src/Payments/Bounded.antt =====
-- The recovery of deferred events is bounded: the attempts that it counts.
use fast_api_e_commerce.Prelude.{
  ℕ, zero, suc, ◌+◌, ◌≤◌, ◌<◌, Bool, true, ◌&&◌, Option, none, some, List, [], ◌∷◌, ok, ◌≡◌, arith,
  select, leb, Bool-cases, inl, inr, Result-cases, Option-cases, bind_ok,
}
use fast_api_e_commerce.Lifecycle.Db.{Refund}
use fast_api_e_commerce.Payments.Rows.{
  Event, Env, Store, Deferred, expired, recovered, claim, defer_row, defer_event, defer_if_unknown,
  flag_payment, flag_unknown, same_event,
}
use fast_api_e_commerce.Payments.Events.{
  apply_to, find_refund, settle, handle_payment_succeeded, handle_payment_failed,
  handle_unknown_refund, flag_refund, handle_refund_event, handle_dispute_event,
}
use fast_api_e_commerce.Payments.Webhooks.{
  EventKind, handle, kind_of, process_webhook_event, deliver, mark_webhook_verified,
}
use fast_api_e_commerce.Payments.Recovery.{
  is_waiting, later, apply_deferred_event, insert_due, sort_due, first_of, claim_due_deferred,
  put_deferred, not_yet, not_applied, applied, reprocess_row, reprocess_rows,
  reprocess_deferred_events,
}
use fast_api_e_commerce.Payments.History.{
  History, start, then_deliver, then_reprocess, then_lifecycle,
}

-- no more attempts than the limit, and fewer while the event still waits
abbrev pub IsWithin : ℕ → Deferred → Type 0
IsWithin limit d = (d.attempts ≤ limit) × (is_waiting d.status ≡ true → d.attempts < limit)

abbrev pub AllWithin : ℕ → List Deferred → Type 0
AllWithin limit [] = Unit
AllWithin limit (d ∷ ds) = IsWithin limit d × AllWithin limit ds

-- rows that wait and may be tried once more
abbrev AllDue : ℕ → List Deferred → Type 0
AllDue limit [] = Unit
AllDue limit (d ∷ ds) = (d.attempts < limit) × AllDue limit ds

module _ (limit : ℕ) where
  put_deferred-AllWithin :
      (ds : List Deferred) (d : Deferred)
      → IsWithin limit d
      → AllWithin limit ds
      → AllWithin limit (put_deferred d ds)
  put_deferred-AllWithin [] d h w = w
  put_deferred-AllWithin (x ∷ xs) d h w = elim (Bool-cases (same_event d.event x)) [
    | inl e ↦ rw e (h, w.1)
    | inr e ↦ rw e (w.0, put_deferred-AllWithin xs d h w.1)
  ]

  insert_due-AllDue :
      (ds : List Deferred) (d : Deferred)
      → d.attempts < limit
      → AllDue limit ds
      → AllDue limit (insert_due d ds)
  unfolding insert_due
  insert_due-AllDue [] d h w = (h, w)
  insert_due-AllDue (x ∷ xs) d h w = elim (Bool-cases (leb d.next_attempt_at x.next_attempt_at)) [
    | inl e ↦ rw e (h, w)
    | inr e ↦ rw e (w.0, insert_due-AllDue xs d h w.1)
  ]

  sort_due-AllDue : (ds : List Deferred) → AllDue limit ds → AllDue limit (sort_due ds)
  unfolding sort_due
  sort_due-AllDue [] w = w
  sort_due-AllDue (d ∷ ds) w = insert_due-AllDue (sort_due ds) d w.0 (sort_due-AllDue ds w.1)

  first_of-AllDue : (n : ℕ) (ds : List Deferred) → AllDue limit ds → AllDue limit (first_of n ds)
  unfolding first_of
  first_of-AllDue zero ds w = tt
  first_of-AllDue (suc n) [] w = w
  first_of-AllDue (suc n) (d ∷ ds) w = (w.0, first_of-AllDue n ds w.1)

  select-AllDue :
      (test : Deferred → Bool) (ds : List Deferred)
      → AllWithin limit ds
      → AllDue limit (select (λ d. is_waiting d.status && test d) ds)
  select-AllDue test [] w = w
  select-AllDue test (d ∷ ds) w = let due = w.0.1 in ground (arith, select-AllDue test ds w.1)

  defer_event-AllWithin :
      (env : Env) (e : Event) (s : Store)
      → 0 < limit
      → AllWithin limit s.deferred
      → AllWithin limit (defer_event env e s).deferred
  unfolding defer_event defer_row
  defer_event-AllWithin env e s h w = ground arith

  handle_payment_succeeded-AllWithin :
      (env : Env) (e : Event) (s : Store)
      → 0 < limit
      → AllWithin limit s.deferred
      → AllWithin limit (handle_payment_succeeded env e s).deferred
  unfolding handle_payment_succeeded settle defer_event defer_row flag_payment flag_unknown
  handle_payment_succeeded-AllWithin env e s h w = ground arith

  refund_event-AllWithin :
      (env : Env) (x : Event × Option Refund) (s s' : Store)
      → 0 < limit
      → apply_to env x s ≡ ok s'
      → AllWithin limit s.deferred
      → AllWithin limit s'.deferred
  unfolding handle_unknown_refund flag_refund defer_if_unknown defer_event defer_row flag_unknown
  refund_event-AllWithin env (e, none) s s' h r w = ground arith
  refund_event-AllWithin env (e, some f) s s' h r w = ground arith

  handle_refund_event-AllWithin :
      (env : Env) (e : Event) (s s' : Store)
      → 0 < limit
      → handle_refund_event env e s ≡ ok s'
      → AllWithin limit s.deferred
      → AllWithin limit s'.deferred
  unfolding handle_refund_event
  handle_refund_event-AllWithin env e s s' h r w =
      refund_event-AllWithin env (find_refund e s.db) s s' h r w

  handle-AllWithin :
      (env : Env) (k : EventKind) (e : Event) (s s' : Store)
      → 0 < limit
      → handle env k e s ≡ ok s'
      → AllWithin limit s.deferred
      → AllWithin limit s'.deferred
  unfolding handle handle_payment_failed handle_dispute_event defer_if_unknown defer_event defer_row
  handle-AllWithin env k e s s' h r w = ground (
    arith,
    handle_payment_succeeded-AllWithin env e s h w,
    handle_refund_event-AllWithin env e s s' h,
  )

  process-AllWithin :
      (env : Env) (e : Event) (s s' : Store)
      → 0 < limit
      → process_webhook_event env e s ≡ ok s'
      → AllWithin limit s.deferred
      → AllWithin limit s'.deferred
  unfolding process_webhook_event
  process-AllWithin env e s s' h r w =
      elim (Option-cases (claim e.provider e.event_id s.webhook_events)) [
        | inl n ↦ ground arith
        | inr (rows, n) ↦
            let t : Store = record s { webhook_events = rows } in
            let k : EventKind = kind_of e.event_type in
            let (m, q, f) = bind_ok (handle env k e t) _ (rw (n, process_webhook_event) at r) in
            ground (arith, handle-AllWithin env k e t m h q w)
      ]

  deliver-AllWithin :
      (env : Env) (e : Event) (s : Store)
      → 0 < limit
      → AllWithin limit s.deferred
      → AllWithin limit (deliver env e s).1.deferred
  unfolding deliver
  deliver-AllWithin env e s h w =
      let t : Store = mark_webhook_verified e.config_id s in
      elim (Result-cases (process_webhook_event env e t)) [
        | inl (x, n) ↦ ground arith
        | inr (m, n) ↦ ground (arith, process-AllWithin env e t m h n)
      ]

  apply_deferred_event-AllWithin :
      (env : Env) (k : EventKind) (e : Event) (s s' : Store)
      → 0 < limit
      → apply_deferred_event env k e s ≡ ok s'
      → AllWithin limit s.deferred
      → AllWithin limit s'.deferred
  unfolding apply_deferred_event
  apply_deferred_event-AllWithin env k e s s' h r w = ground (
    arith,
    handle_payment_succeeded-AllWithin env e s h w,
    handle_refund_event-AllWithin env e s s' h,
  )

  not_yet-AllWithin :
      (env : Env) (d : Deferred) (s : Store)
      → env.recovery_max_attempts ≡ limit
      → d.attempts ≤ limit
      → AllWithin limit s.deferred
      → AllWithin limit (not_yet env d s).deferred
  unfolding not_yet
  not_yet-AllWithin env d s l a w = ground (
    arith,
    put_deferred-AllWithin s.deferred (record d { status = expired }),
    put_deferred-AllWithin s.deferred (later env d),
  )

  not_applied-AllWithin :
      (env : Env) (d : Deferred) (s : Store)
      → env.recovery_max_attempts ≡ limit
      → d.attempts ≤ limit
      → AllWithin limit s.deferred
      → AllWithin limit (not_applied env d s).deferred
  unfolding not_applied
  not_applied-AllWithin env d s l a w = ground (
    arith,
    put_deferred-AllWithin s.deferred (record d { status = expired }),
    put_deferred-AllWithin s.deferred (later env d),
  )

  applied-AllWithin :
      (d : Deferred) (s : Store)
      → d.attempts ≤ limit
      → AllWithin limit s.deferred
      → AllWithin limit (applied d s).deferred
  unfolding applied
  applied-AllWithin d s a w =
      put_deferred-AllWithin s.deferred (record d { status = recovered })
        (a, λ h. absurd (ground arith)) w

  reprocess_row-AllWithin :
      (env : Env) (d : Deferred) (s : Store)
      → env.recovery_max_attempts ≡ limit
      → 0 < limit
      → d.attempts < limit
      → AllWithin limit s.deferred
      → AllWithin limit (reprocess_row env d s).deferred
  unfolding reprocess_row
  reprocess_row-AllWithin env d s l h a w =
      let c : Deferred = record d { attempts = d.attempts + 1 } in
      let k : EventKind = kind_of d.event.event_type in
      let b : c.attempts ≤ limit = omega arith in
      elim (Result-cases (apply_deferred_event env k d.event s)) [
        | inl (x, n) ↦
            ground (arith, not_yet-AllWithin env c s l b w, not_applied-AllWithin env c s l b w)
        | inr (m, n) ↦ ground (
          arith,
          not_yet-AllWithin env c s l b w,
          applied-AllWithin c m b (apply_deferred_event-AllWithin env k d.event s m h n w),
        )
      ]

  reprocess_rows-AllWithin :
      (env : Env) (ds : List Deferred) (s : Store)
      → env.recovery_max_attempts ≡ limit
      → 0 < limit
      → AllDue limit ds
      → AllWithin limit s.deferred
      → AllWithin limit (reprocess_rows env ds s).deferred
  unfolding reprocess_rows
  reprocess_rows-AllWithin env [] s l h a w = w
  reprocess_rows-AllWithin env (d ∷ ds) s l h a w =
      reprocess_rows-AllWithin env ds (reprocess_row env d s) l h a.1
        (reprocess_row-AllWithin env d s l h a.0 w)

-- With a limit of attempts that is positive and stays: no row of a deferred event ever counts more
-- attempts than that, and one that counts so many waits no more, whatever deliveries, runs of the recovery job
-- and transactions of the lifecycle happen, if this holds at the start.
History-AllWithin :
    (limit : ℕ) {a b : Store}
    → 0 < limit
    → AllWithin limit a.deferred
    → History limit a b
    → AllWithin limit b.deferred
unfolding reprocess_deferred_events claim_due_deferred
History-AllWithin limit h w start = w
History-AllWithin limit h w (then_deliver {b = b} env e l r q) =
    rw q at (deliver-AllWithin limit env e b h (History-AllWithin limit h w r))
History-AllWithin limit h w (then_reprocess {b = b} env l r q) =
    let ih : AllWithin limit b.deferred = History-AllWithin limit h w r in
    let due = select-AllDue limit (λ d. leb d.next_attempt_at env.now) b.deferred ih in
    rw q at (
      reprocess_rows-AllWithin limit env (claim_due_deferred 50 env b.deferred) b l h
        (first_of-AllDue limit 50 _ (sort_due-AllDue limit _ due)) ih)
History-AllWithin limit h w (then_lifecycle {b = b} db r run q) =
    let ih : AllWithin limit b.deferred = History-AllWithin limit h w r in ground arith
