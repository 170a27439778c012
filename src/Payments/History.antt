-- ===== src/Payments/History.antt =====
-- What happens to the rows of payments over time, in any order: deliveries of webhooks, runs of the
-- recovery job, and the transactions of the lifecycle.
use fast_api_e_commerce.Prelude.{ℕ, ◌≡◌}
use fast_api_e_commerce.Lifecycle.Db.{Db}
use fast_api_e_commerce.Lifecycle.Run.{Run}
use fast_api_e_commerce.Payments.Rows.{Event, Env, Store}
use fast_api_e_commerce.Payments.Webhooks.{deliver}
use fast_api_e_commerce.Payments.Recovery.{reprocess_deferred_events}

-- The limit of attempts is that of every step: a setting that stays.
pub data History (limit : ℕ) : Store → Store → Type 0 where
  start : {a : Store} → History limit a a
  then_deliver :
      {a b c : Store} (env : Env) (e : Event)
      → env.recovery_max_attempts ≡ limit
      → History limit a b
      → (deliver env e b).1 ≡ c
      → History limit a c
  then_reprocess :
      {a b c : Store} (env : Env)
      → env.recovery_max_attempts ≡ limit
      → History limit a b
      → reprocess_deferred_events env b ≡ c
      → History limit a c
  then_lifecycle :
      {a b c : Store} (db : Db)
      → History limit a b
      → Run b.db db
      → record b { db = db } ≡ c
      → History limit a c
