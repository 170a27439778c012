-- ===== src/Payments/Webhooks.antt =====
-- The delivery of a webhook: verification, `process_webhook_event` with its claim, and what is recorded
-- where the handling raised (app/modules/payments/services/payment_service.py and
-- app/modules/payments/webhook_recovery.py).
--
-- What verifies a signature is the code of a payment provider, a parameter: it returns the event, or
-- says that the signature is not that of its secret, or that the payload is malformed.
use fast_api_e_commerce.Prelude.{
  ℕ, Bool, true, false, not, ◌&&◌, Option, none, some, List, [], ◌∷◌, ◌++◌, Result, ok, err, ◌>>=◌,
  ◌==◌, if◌then◌else◌, any, select,
}
use fast_api_e_commerce.Orders.Types.{Text, same_text}
use fast_api_e_commerce.Lifecycle.Db.{Error}
use fast_api_e_commerce.Payments.Rows.{
  Event, Env, Store, RowStatus, processed, ignored, claim, finish, record_failed_event,
}
use fast_api_e_commerce.Payments.Events.{
  handle_payment_succeeded, handle_payment_failed, handle_refund_event, handle_dispute_event,
}

abbrev pub succeeded_event : Text
succeeded_event =
    b'p' ∷ b'a' ∷ b'y' ∷ b'm' ∷ b'e' ∷ b'n' ∷ b't' ∷ b'_' ∷ b'i' ∷ b'n' ∷ b't' ∷ b'e' ∷ b'n' ∷ b't'
    ∷ b'.' ∷ b's' ∷ b'u' ∷ b'c' ∷ b'c' ∷ b'e' ∷ b'e' ∷ b'd' ∷ b'e' ∷ b'd' ∷ []

abbrev pub failed_event : Text
failed_event =
    b'p' ∷ b'a' ∷ b'y' ∷ b'm' ∷ b'e' ∷ b'n' ∷ b't' ∷ b'_' ∷ b'i' ∷ b'n' ∷ b't' ∷ b'e' ∷ b'n' ∷ b't'
    ∷ b'.' ∷ b'p' ∷ b'a' ∷ b'y' ∷ b'm' ∷ b'e' ∷ b'n' ∷ b't' ∷ b'_' ∷ b'f' ∷ b'a' ∷ b'i' ∷ b'l'
    ∷ b'e' ∷ b'd' ∷ []

abbrev pub refund_prefix : Text
refund_prefix = b'r' ∷ b'e' ∷ b'f' ∷ b'u' ∷ b'n' ∷ b'd' ∷ b'.' ∷ []

abbrev pub dispute_prefix : Text
dispute_prefix =
    b'c' ∷ b'h' ∷ b'a' ∷ b'r' ∷ b'g' ∷ b'e' ∷ b'.' ∷ b'd' ∷ b'i' ∷ b's' ∷ b'p' ∷ b'u' ∷ b't' ∷ b'e'
    ∷ b'.' ∷ []

-- `str.startswith`
unfoldable pub starts_with : Text → Text → Bool
starts_with [] s = true
starts_with (_ ∷ _) [] = false
starts_with (a ∷ p) (b ∷ s) = a == b && starts_with p s

pub data EventKind : Type 0 where
  payment_succeeded payment_failed refund_changed dispute_changed not_handled : EventKind

-- the handler that an event's type is given to
unfoldable pub kind_of : Text → EventKind
unfolding starts_with
kind_of t =
    if same_text t succeeded_event
    then payment_succeeded
    else if same_text t failed_event
    then payment_failed
    else if starts_with refund_prefix t
    then refund_changed
    else if starts_with dispute_prefix t
    then dispute_changed
    else not_handled

unfoldable pub handle : Env → EventKind → Event → Store → Result Error Store
unfolding handle_payment_succeeded handle_payment_failed handle_refund_event handle_dispute_event
handle env payment_succeeded e s = ok (handle_payment_succeeded env e s)
handle env payment_failed e s = ok (handle_payment_failed e s)
handle env refund_changed e s = handle_refund_event env e s
handle env dispute_changed e s = ok (handle_dispute_event env e s)
handle env not_handled e s = ok s

abbrev pub outcome : EventKind → RowStatus
outcome not_handled = ignored
outcome _ = processed

-- `process_webhook_event`
unfoldable pub process_webhook_event : Env → Event → Store → Result Error Store
unfolding claim handle finish kind_of
process_webhook_event env e s = elim (claim e.provider e.event_id s.webhook_events) [
  | none ↦ ok s
  | some rows ↦ do
    s' ← handle env (kind_of e.event_type) e (record s { webhook_events = rows })
    ok (record s' {
      webhook_events =
          finish e.provider e.event_id (outcome (kind_of e.event_type)) s'.webhook_events;
    })
]

-- `mark_webhook_verified`
abbrev pub mark_webhook_verified : Option ℕ → Store → Store
mark_webhook_verified none s = s
mark_webhook_verified (some c) s =
    if any (λ i. i == c) s.verified_configs
    then s
    else record s { verified_configs = c ∷ s.verified_configs }

-- a verified event is processed in one transaction; where that raises, it is rolled back, and the
-- failed attempt is recorded in a transaction of its own
unfoldable pub deliver : Env → Event → Store → Result Error (Unit {0}) × Store
unfolding process_webhook_event record_failed_event
deliver env e s = elim (process_webhook_event env e (mark_webhook_verified e.config_id s)) [
  | ok s' ↦ (ok tt, s')
  | err x ↦ (
    err x,
    record s { webhook_events = record_failed_event e.provider e.event_id s.webhook_events },
  )
]

pub data VerifyError : Type 0 where
  invalid_signature invalid_payload provider_not_configured : VerifyError

abbrev pub Verifier : Type 0 → Type 0
Verifier A = A → Result VerifyError Event

-- a stored configuration: the verifiers of its webhook secret and of the one before, where it has them
pub record Config (A : Type 0) : Type 0 where
  pub id : ℕ
  pub provider : ℕ
  pub secret : Option (Verifier A)
  pub previous_secret : Option (Verifier A)

abbrev pub with_id : {A : Type 0} → ℕ → Option (Verifier A) → List (ℕ × Verifier A)
with_id id none = []
with_id id (some v) = (id, v) ∷ []

-- `webhook_verifiers` of provider_resolver.py, of a provider's configurations
unfoldable pub webhook_verifiers : {A : Type 0} → List (Config A) → List (ℕ × Verifier A)
webhook_verifiers [] = []
webhook_verifiers (c ∷ cs) =
    with_id c.id c.secret ++ (with_id c.id c.previous_secret ++ webhook_verifiers cs)

-- the first verifier whose secret signed the payload decides
unfoldable pub try_verifiers :
    {A : Type 0} → ℕ → A → List (ℕ × Verifier A) → Result VerifyError Event
try_verifiers name x [] = err invalid_signature
try_verifiers name x ((c, verify) ∷ rest) =
    let later = try_verifiers name x rest in
    elim (verify x) [
      | ok e ↦ ok (record e { provider = name; config_id = some c })
      | err invalid_signature ↦ later
      | err other ↦ err other
    ]

-- `_verify_webhook`: the provider of that name, or the one of the environment
unfoldable pub verify_webhook :
    {A : Type 0} → List (Config A) → ℕ → Verifier A → ℕ → A → Result VerifyError Event
unfolding webhook_verifiers try_verifiers
verify_webhook configs env_name env_verify name x =
    elim (select (λ c. c.provider == name) configs) [
      | c ∷ cs ↦ try_verifiers name x (webhook_verifiers (c ∷ cs))
      | [] ↦ if not (name == env_name) then err provider_not_configured else env_verify x
    ]

-- `handle_webhook`
unfoldable pub handle_webhook :
    {A : Type 0}
    → Env
    → List (Config A)
    → ℕ
    → Verifier A
    → ℕ
    → A
    → Store
    → Result VerifyError (Result Error (Unit {0})) × Store
unfolding verify_webhook deliver
handle_webhook env configs env_name env_verify name x s =
    elim (verify_webhook configs env_name env_verify name x) [
      | err v ↦ (err v, s)
      | ok e ↦ let r = deliver env e s in (ok r.0, r.1)
    ]
