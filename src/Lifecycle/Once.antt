-- ===== src/Lifecycle/Once.antt =====
-- What is done once only: a record for each key and the release of an order's stock.
use fast_api_e_commerce.Prelude.{ℕ, Bool, true, false, Option, ok, ◌≡◌, refl, arith}
use fast_api_e_commerce.Orders.Types.{Order}
use fast_api_e_commerce.Lifecycle.Db.{Db, KeyKind, KeyKind-discrete}
use fast_api_e_commerce.Lifecycle.Documents.{reconcile, is_recorded, same_kind}
use fast_api_e_commerce.Lifecycle.Restock.{restock_once}

same_kind_refl : (k : KeyKind) → same_kind k k ≡ true
unfolding same_kind
same_kind_refl k =
    elim (KeyKind-discrete k k)
      as (λ d. (elim d as (λ _. Bool) [ yes _ ↦ true | no _ ↦ false ]) ≡ true) [
        | yes _ ↦ refl
        | no h ↦ absurd (h refl)
      ]

pub reconcile-is_recorded :
    (kind : KeyKind) (subject : ℕ) (p o : Option ℕ) (db : Db)
    → is_recorded kind subject (reconcile kind subject p o db).reconciliations ≡ true
unfolding reconcile is_recorded
reconcile-is_recorded kind subject p o db = ground (arith, same_kind_refl kind)

-- Recording a problem again, with whatever details, changes no row: a redelivered event never
-- duplicates a record or its audit entry.
pub reconcile_once :
    (kind : KeyKind) (subject : ℕ) (p o p' o' : Option ℕ) (db : Db)
    → reconcile kind subject p' o' (reconcile kind subject p o db) ≡ reconcile kind subject p o db
unfolding reconcile is_recorded
reconcile_once kind subject p o p' o' db = ground (arith, same_kind_refl kind)

-- Where the release of an order's stock succeeded, the order is marked as released, its status and its
-- id are as they were, and a second release returns it and any rows unchanged.
pub restock_once_again :
    (o o' : Order) (db db' later : Db)
    → restock_once o db ≡ ok (o', db')
    → (o'.stock_released ≡ true)
      × (o'.status ≡ o.status)
      × (o'.id ≡ o.id)
      × (restock_once o' later ≡ ok (o', later))
unfolding restock_once
restock_once_again o o' db db' later e = ground arith
