-- ===== src/Lifecycle/Disputed.antt =====
-- Events about disputes, delivered again.
use fast_api_e_commerce.Prelude.{
  ℕ, true, false, not, Option, none, some, List, [], ◌∷◌, ◌≡◌, refl, arith, ◌∙◌, ◌⊎◌, inl, inr,
  Option-cases, Bool-cases, ◌||◌, get_or, length,
}
use fast_api_e_commerce.Lifecycle.Db.{
  Db, Payment, Dispute, DisputeStatus, is_open, KeyKind, unmatched_dispute,
}
use fast_api_e_commerce.Lifecycle.Reports.{amount_or}
use fast_api_e_commerce.Lifecycle.Documents.{reconcile}
use fast_api_e_commerce.Lifecycle.Once.{reconcile_once}
use fast_api_e_commerce.Lifecycle.Disputes.{
  DisputeEvent, find_payment, apply_dispute_event, find_dispute, put_dispute, mapped_status,
  open_new, note_end, record_dispute, same_dispute_status,
}

find_dispute-matches :
    (ds : List Dispute) (d : Dispute) (provider id : ℕ)
    → find_dispute provider id ds ≡ some d
    → (d.provider_dispute_id ≡ id) × (d.provider ≡ provider)
unfolding find_dispute
find_dispute-matches [] d provider id e = absurd (ground arith)
find_dispute-matches (c ∷ cs) d provider id e =
    ground (arith, find_dispute-matches cs d provider id)

find-put_dispute :
    (ds : List Dispute) (d : Dispute) (s : DisputeStatus) (provider id : ℕ)
    → find_dispute provider id ds ≡ some d
    → find_dispute provider id (put_dispute (record d { status = s }) ds)
      ≡ some (record d { status = s })
unfolding find_dispute
find-put_dispute [] d s provider id e = absurd (ground arith)
find-put_dispute (c ∷ cs) d s provider id e =
    ground (arith, find-put_dispute cs d s provider id, find_dispute-matches cs d provider id)

reconcile-disputes :
    (kind : KeyKind) (subject : ℕ) (p o : Option ℕ) (db : Db)
    → (reconcile kind subject p o db).disputes ≡ db.disputes
unfolding reconcile
reconcile-disputes kind subject p o db = ground arith

note_end-disputes :
    (s : DisputeStatus) (id : ℕ) (p : Payment) (db : Db)
    → (note_end s id p db).disputes ≡ db.disputes
unfolding note_end
note_end-disputes s id p db = grind (arith, reconcile-disputes)

-- a dispute that an event of that status leaves as it is
Settled : DisputeStatus → Dispute → Type 0
Settled s d = (is_open d.status ≡ false) ⊎ (d.status ≡ s)

record_dispute-Settled :
    (e : DisputeEvent) (id : ℕ) (s : DisputeStatus) (p : Payment) (db : Db) (d : Dispute)
    → find_dispute e.provider id db.disputes ≡ some d
    → Settled s d
    → record_dispute e id s p db ≡ db
unfolding record_dispute Settled
record_dispute-Settled e id s p db d ed h = ground arith

open_new-disputes :
    (e : DisputeEvent) (id : ℕ) (s : DisputeStatus) (p : Payment) (db : Db)
    → (d : Dispute) × (d.status ≡ s)
      × (find_dispute e.provider id (open_new e id s p db).disputes ≡ some d)
unfolding open_new find_dispute reconcile
open_new-disputes e id s p db = (
  record {
    id = length db.disputes;
    provider = e.provider;
    provider_dispute_id = id;
    payment_id = p.id;
    order_id = p.order_id;
    amount_cents = amount_or e.amount p.amount_cents;
    currency = get_or e.currency p.currency;
    status = s;
  },
  refl,
  ground arith,
)

found_new :
    (e : DisputeEvent) (id : ℕ) (s : DisputeStatus) (p : Payment) (db : Db) (d : Dispute)
    → find_dispute e.provider id db.disputes ≡ none
    → find_dispute e.provider id (open_new e id s p db).disputes ≡ some d
    → find_dispute e.provider id (record_dispute e id s p db).disputes ≡ some d
unfolding record_dispute
found_new e id s p db d h k = grind (arith, note_end-disputes)

found_changed :
    (e : DisputeEvent) (id : ℕ) (s : DisputeStatus) (p : Payment) (db : Db) (d : Dispute)
    → find_dispute e.provider id db.disputes ≡ some d
    → (not (is_open d.status) || same_dispute_status s d.status) ≡ false
    → find_dispute e.provider id (record_dispute e id s p db).disputes
      ≡ some (record d { status = s })
unfolding record_dispute
found_changed e id s p db d h k =
    let put = find-put_dispute db.disputes d s e.provider id h in grind (arith, note_end-disputes)

found_kept :
    (e : DisputeEvent) (id : ℕ) (s : DisputeStatus) (p : Payment) (db : Db) (d : Dispute)
    → find_dispute e.provider id db.disputes ≡ some d
    → (not (is_open d.status) || same_dispute_status s d.status) ≡ true
    → (find_dispute e.provider id (record_dispute e id s p db).disputes ≡ some d) × Settled s d
unfolding record_dispute Settled
found_kept e id s p db d h k = (ground arith, ground arith)

record_dispute_settles :
    (e : DisputeEvent) (id : ℕ) (s : DisputeStatus) (p : Payment) (db : Db)
    → (d : Dispute) × (find_dispute e.provider id (record_dispute e id s p db).disputes ≡ some d)
      × Settled s d
unfolding Settled
record_dispute_settles e id s p db = elim (Option-cases (find_dispute e.provider id db.disputes)) [
  | inl h ↦
      let (d, is, ed) = open_new-disputes e id s p db in (d, found_new e id s p db d h ed, inr is)
  | inr (d, ed) ↦ elim (Bool-cases (not (is_open d.status) || same_dispute_status s d.status)) [
    | inl h ↦ let (k, t) = found_kept e id s p db d ed h in (d, k, t)
    | inr h ↦ (record d { status = s }, found_changed e id s p db d ed h, inr refl)
  ]
]

record_dispute_payments :
    (e : DisputeEvent) (id : ℕ) (s : DisputeStatus) (p : Payment) (db : Db)
    → (record_dispute e id s p db).payments ≡ db.payments
unfolding record_dispute open_new note_end reconcile
record_dispute_payments e id s p db = ground arith

record_dispute_again :
    (e : DisputeEvent) (id : ℕ) (s : DisputeStatus) (p : Payment) (db : Db)
    → record_dispute e id s p (record_dispute e id s p db) ≡ record_dispute e id s p db
record_dispute_again e id s p db =
    let (d, ed, h) = record_dispute_settles e id s p db in
    record_dispute-Settled e id s p (record_dispute e id s p db) d ed h

reconcile-payments :
    (kind : KeyKind) (subject : ℕ) (p o : Option ℕ) (db : Db)
    → (reconcile kind subject p o db).payments ≡ db.payments
unfolding reconcile
reconcile-payments kind subject p o db = ground arith

find_payment_same :
    (e : DisputeEvent) (db db' : Db)
    → db'.payments ≡ db.payments
    → find_payment e db' ≡ find_payment e db
find_payment_same e db db' h = rw h refl

apply_unknown :
    (e : DisputeEvent) (db : Db)
    → find_payment e db ≡ none
    → apply_dispute_event e db
      ≡ reconcile unmatched_dispute (get_or e.provider_dispute_id e.event_id) none none db
unfolding apply_dispute_event
apply_unknown e db h = ground arith

apply_nameless :
    (e : DisputeEvent) (db : Db) (p : Payment)
    → find_payment e db ≡ some p
    → e.provider_dispute_id ≡ none
    → apply_dispute_event e db ≡ reconcile unmatched_dispute e.event_id none none db
unfolding apply_dispute_event
apply_nameless e db p h n = ground arith

apply_known :
    (e : DisputeEvent) (db : Db) (p : Payment) (id : ℕ)
    → find_payment e db ≡ some p
    → e.provider_dispute_id ≡ some id
    → apply_dispute_event e db ≡ record_dispute e id (mapped_status e.dispute_status) p db
unfolding apply_dispute_event
apply_known e db p id h n = ground arith

-- An event about a dispute that is delivered a second time changes no row: neither a dispute, nor a
-- reconciliation record, nor the audit log.
pub apply_dispute_event_again :
    (e : DisputeEvent) (db : Db)
    → apply_dispute_event e (apply_dispute_event e db) ≡ apply_dispute_event e db
apply_dispute_event_again e db = elim (Option-cases (find_payment e db)) [
  | inl h ↦
      let key = get_or e.provider_dispute_id e.event_id in
      let after = reconcile unmatched_dispute key none none db in
      let same =
        find_payment_same e db after (reconcile-payments unmatched_dispute key none none db) in
      rw (apply_unknown e db h) (
        apply_unknown e after (same ∙ h)
        ∙ reconcile_once unmatched_dispute key none none none none db)
  | inr (p, h) ↦ elim (Option-cases e.provider_dispute_id) [
    | inl n ↦
        let after = reconcile unmatched_dispute e.event_id none none db in
        let same =
          find_payment_same e db after
            (reconcile-payments unmatched_dispute e.event_id none none db) in
        rw (apply_nameless e db p h n) (
          apply_nameless e after p (same ∙ h) n
          ∙ reconcile_once unmatched_dispute e.event_id none none none none db)
    | inr (id, n) ↦
        let s = mapped_status e.dispute_status in
        let after = record_dispute e id s p db in
        let same = find_payment_same e db after (record_dispute_payments e id s p db) in
        rw (apply_known e db p id h n)
          (apply_known e after p id (same ∙ h) n ∙ record_dispute_again e id s p db)
  ]
]
