-- ===== src/Payments/Counted.antt =====
-- An attempt of the recovery job at one deferred event: its row afterwards.
use fast_api_e_commerce.Prelude.{
  ◌+◌, ◌<◌, true, Option, none, some, List, [], ◌∷◌, ok, ◌≡◌, arith, any, find, Result-cases,
  Bool-cases, inl, inr, refl, is_some, leb, ◌||◌,
}
use fast_api_e_commerce.Lifecycle.Db.{Refund}
use fast_api_e_commerce.Payments.Rows.{
  Event, Env, Store, Deferred, expired, recovered, defer_row, defer_event, defer_if_unknown,
  flag_payment, flag_unknown, same_event, get_by_provider_payment_id,
}
use fast_api_e_commerce.Payments.Events.{
  apply_to, find_refund, settle, handle_payment_succeeded, handle_unknown_refund, flag_refund,
  handle_refund_event,
}
use fast_api_e_commerce.Payments.Webhooks.{EventKind, kind_of}
use fast_api_e_commerce.Payments.Recovery.{
  is_waiting, later, apply_deferred_event, put_deferred, not_yet, not_applied, applied,
  reprocess_row,
}

-- a row of the event is stored
abbrev pub IsDeferred : Event → Store → Type 0
IsDeferred e s = any (same_event e) s.deferred ≡ true

put_deferred-found :
    (d : Deferred) (ds : List Deferred)
    → any (same_event d.event) ds ≡ true
    → find (same_event d.event) (put_deferred d ds) ≡ some d
put_deferred-found d [] h = absurd (ground arith)
put_deferred-found d (x ∷ xs) h = ground (arith, put_deferred-found d xs)

module _ (env : Env) (k : Event) where
  defer_event-IsDeferred :
      (e : Event) (s : Store) → IsDeferred k s → IsDeferred k (defer_event env e s)
  unfolding defer_event defer_row
  defer_event-IsDeferred e s h = ground arith

  handle_payment_succeeded-IsDeferred :
      (e : Event) (s : Store) → IsDeferred k s → IsDeferred k (handle_payment_succeeded env e s)
  unfolding handle_payment_succeeded settle defer_event defer_row flag_payment flag_unknown
  handle_payment_succeeded-IsDeferred e s h = ground arith

  apply_to-IsDeferred :
      (x : Event × Option Refund) (s s' : Store)
      → apply_to env x s ≡ ok s'
      → IsDeferred k s
      → IsDeferred k s'
  unfolding handle_unknown_refund flag_refund defer_if_unknown defer_event defer_row flag_unknown
  apply_to-IsDeferred (e, none) s s' r h = ground arith
  apply_to-IsDeferred (e, some f) s s' r h = ground arith

  apply_deferred_event-IsDeferred :
      (kind : EventKind) (e : Event) (s s' : Store)
      → apply_deferred_event env kind e s ≡ ok s'
      → IsDeferred k s
      → IsDeferred k s'
  unfolding apply_deferred_event handle_refund_event
  apply_deferred_event-IsDeferred kind e s s' r h = ground (
    arith,
    handle_payment_succeeded-IsDeferred e s h,
    apply_to-IsDeferred (find_refund e s.db) s s',
  )

-- the row that is stored of the event of d: one attempt more, and what it takes to wait on
pub Counted : Env → Deferred → Store → Type 0
Counted env d s =
    (x : Deferred) × (find (same_event d.event) s.deferred ≡ some x)
    × (x.attempts ≡ d.attempts + 1)
    × (is_waiting x.status ≡ true
        → (x.attempts < env.recovery_max_attempts) × (env.now < x.next_attempt_at))

not_yet-Counted :
    (env : Env) (d : Deferred) (s : Store)
    → IsDeferred d.event s
    → Counted env d (not_yet env (record d { attempts = d.attempts + 1 }) s)
unfolding not_yet Counted
not_yet-Counted env d s h =
    let c : Deferred = record d { attempts = d.attempts + 1 } in
    let e = put_deferred-found (record c { status = expired }) s.deferred h in
    let l = put_deferred-found (later env c) s.deferred h in
    elim (Bool-cases (leb env.recovery_max_attempts c.attempts || leb d.expires_at env.now)) [
      | inl b ↦ (record c { status = expired }, ground arith, refl, λ w. absurd (ground arith))
      | inr b ↦ (later env c, ground arith, refl, λ w. (ground arith, ground arith))
    ]

not_applied-Counted :
    (env : Env) (d : Deferred) (s : Store)
    → IsDeferred d.event s
    → Counted env d (not_applied env (record d { attempts = d.attempts + 1 }) s)
unfolding not_applied Counted
not_applied-Counted env d s h =
    let c : Deferred = record d { attempts = d.attempts + 1 } in
    let e = put_deferred-found (record c { status = expired }) s.deferred h in
    let l = put_deferred-found (later env c) s.deferred h in
    elim (Bool-cases (leb env.recovery_max_attempts c.attempts)) [
      | inl b ↦ (record c { status = expired }, ground arith, refl, λ w. absurd (ground arith))
      | inr b ↦ (later env c, ground arith, refl, λ w. (ground arith, ground arith))
    ]

applied-Counted :
    (env : Env) (d : Deferred) (s : Store)
    → IsDeferred d.event s
    → Counted env d (applied (record d { attempts = d.attempts + 1 }) s)
unfolding applied Counted
applied-Counted env d s h =
    let x : Deferred = record d { attempts = d.attempts + 1; status = recovered } in
    (x, put_deferred-found x s.deferred h, refl, λ w. absurd (ground arith))

-- An attempt at a deferred event whose row is stored is counted, whether the payment is still unknown,
-- the event is applied, or its handling raises: the row of the event then has one attempt more than
-- the row that was claimed. It waits on only with fewer attempts than the limit, and then for a time
-- that has not come.
pub reprocess_row-Counted :
    (env : Env) (d : Deferred) (s : Store)
    → IsDeferred d.event s
    → Counted env d (reprocess_row env d s)
unfolding reprocess_row
reprocess_row-Counted env d s h =
    let e = d.event in
    let counted : Deferred = record d { attempts = d.attempts + 1 } in
    elim (Bool-cases (is_some (get_by_provider_payment_id e.provider_payment_id e.provider s.db))) [
      | inr b ↦ rw (b, reprocess_row) (not_yet-Counted env d s h)
      | inl b ↦ elim (Result-cases (apply_deferred_event env (kind_of e.event_type) e s)) [
        | inl (x, n) ↦ rw (b, n, reprocess_row) (not_applied-Counted env d s h)
        | inr (m, n) ↦
            rw (b, n, reprocess_row)
              (applied-Counted env d m
                (apply_deferred_event-IsDeferred env e (kind_of e.event_type) e s m n h))
      ]
    ]
