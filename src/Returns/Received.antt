-- ===== src/Returns/Received.antt =====
-- What `receive` and `refund` change of a return, and what they keep of its quantities.
use fast_api_e_commerce.Prelude.{
  ℕ, Bool, false, not, Option, none, some, List, [], ◌∷◌, ok, ◌≡◌, refl, ap, ◌∙◌, arith, any, ltb,
  ◌&&◌, Result-cases, bind_ok, inl, inr, raise_if,
}
use fast_api_e_commerce.Orders.Types.{Order, OrderItem}
use fast_api_e_commerce.Lifecycle.Db.{Db, Refund}
use fast_api_e_commerce.Lifecycle.Refunds.{request_refund, new_refund, create_refund}
use fast_api_e_commerce.Returns.{
  refunded, wrong_state, not_full, receipt_invalid, same_return_status, save_return, approved,
  received, closed, ReturnItem, ReturnRequest, Store, quantity_of, get_return, put_return,
  lock_order,
}
use fast_api_e_commerce.Products.{adjust_stock_many, adjust_variant_stock_many}
use fast_api_e_commerce.Returns.Receipts.{
  Arrival, once_each, all_given, check_arrivals, recorded, or_integrity, stock_back, variant_back,
  came_back, with_arrivals, mark_restocked, restock_lines, restock, receive, refund,
}
use fast_api_e_commerce.Returns.Changes.{bought, purchased, IsKeyed, Changed, get_return_lem}

with_arrivals-quantity_of :
    (arrivals : List Arrival) (line : ℕ) (is : List ReturnItem)
    → quantity_of line (with_arrivals arrivals is) ≡ quantity_of line is
unfolding with_arrivals
with_arrivals-quantity_of arrivals line [] = refl
with_arrivals-quantity_of arrivals line (i ∷ is) =
    ground (arith, with_arrivals-quantity_of arrivals line is)

mark_restocked-quantity_of :
    (fresh : List ReturnItem) (line : ℕ) (is : List ReturnItem)
    → quantity_of line (mark_restocked fresh is) ≡ quantity_of line is
unfolding mark_restocked
mark_restocked-quantity_of fresh line [] = refl
mark_restocked-quantity_of fresh line (i ∷ is) =
    ground (arith, mark_restocked-quantity_of fresh line is)

restock_lines-bought :
    (fresh : List ReturnItem) (line : ℕ) (is is' : List OrderItem)
    → restock_lines fresh is ≡ ok is'
    → bought line is' ≡ bought line is
unfolding restock_lines
restock_lines-bought fresh line [] is' e = ground arith
restock_lines-bought fresh line (i ∷ is) is' e =
    let (rest, h, e1) = bind_ok (restock_lines fresh is) _ e in
    ground (arith, restock_lines-bought fresh line is rest h)

-- what `restock` leaves: the quantities asked for, the returns and what was bought
record IsRestocked (items items' : List ReturnItem) (s s' : Store) : Type 0 where
  quantities : (line : ℕ) → quantity_of line items' ≡ quantity_of line items
  returns : s'.returns ≡ s.returns
  kept : (order_id line : ℕ) → purchased order_id line s'.db ≡ purchased order_id line s.db
  keyed : IsKeyed s.db → IsKeyed s'.db

restock-IsRestocked :
    (order_id : ℕ) (o : Order) (id : ℕ) (items items' : List ReturnItem) (s s' : Store)
    → s.db.orders order_id ≡ some o
    → o.id ≡ order_id
    → restock o id items s ≡ ok (items', s')
    → IsRestocked items items' s s'
unfolding restock
restock-IsRestocked order_id o id items items' s s' h k e =
    let fresh : List ReturnItem = recorded id s.restock_events items in
    let (lines, l, e1) = bind_ok (restock_lines fresh o.items) _ e in
    let (products, p, e2) =
      bind_ok
        (or_integrity (adjust_stock_many s.db.products (stock_back s.db.products o.items fresh [])))
        _ e1 in
    let (variants, v, e3) =
      bind_ok
        (or_integrity
          (adjust_variant_stock_many s.db.variants (variant_back s.db.variants o.items fresh [])))
        _ e2 in
    record {
      quantities = λ line. ground (arith, mark_restocked-quantity_of fresh line items);
      returns = ground arith;
      kept = λ oid line. ground (arith, restock_lines-bought fresh line o.items lines l);
      keyed = λ q i x g. ground (arith, q i x);
    }

pub receive-Changed :
    (id : ℕ) (arrivals : List Arrival) (s s' : Store)
    → IsKeyed s.db
    → receive id arrivals s ≡ ok s'
    → Changed s s'
unfolding receive
receive-Changed id arrivals s s' k e =
    let (r, g, e1) = bind_ok (get_return id s) _ e in
    let (_, a, e2) =
      bind_ok (raise_if (not (same_return_status r.status approved)) wrong_state) _ e1 in
    let (_, _, e3) =
      bind_ok (raise_if (not (once_each arrivals && all_given arrivals r.items)) receipt_invalid) _
        e2 in
    let (_, _, e4) = bind_ok (check_arrivals r.items arrivals) _ e3 in
    let (o, l, e5) = bind_ok (lock_order r.order_id s) _ e4 in
    let h : s.db.orders r.order_id ≡ some o = ground arith in
    let ((items, s1), d, e6) = bind_ok (restock o r.id (with_arrivals arrivals r.items) s) _ e5 in
    let q =
      restock-IsRestocked r.order_id o r.id (with_arrivals arrivals r.items) items s s1 h
        (k r.order_id o h) d in
    let f : s' ≡ save_return (record r { status = received; items = items }) s1 = ground arith in
    record {
      before = r;
      after = record r { status = received; items = items };
      found = get_return_lem id s r g;
      returns =
          ap (λ x. x.returns) f
          ∙ ap (put_return (record r { status = received; items = items })) q.returns;
      id = refl;
      order_id = refl;
      user_id = refl;
      status = ground arith;
      items = λ line. q.quantities line ∙ with_arrivals-quantity_of arrivals line r.items;
      kept = λ i line. rw f (q.kept i line);
      keyed = λ z. rw f (q.keyed z);
    }

request_refund-orders :
    (order_id : ℕ) (p : Option ℕ) (c : Bool) (db db' : Db) (x : Refund) (n : Bool)
    → request_refund order_id p c db ≡ ok ((x, n), db')
    → db'.orders ≡ db.orders
unfolding request_refund new_refund create_refund
request_refund-orders order_id p c db db' x n e = ground arith

pub refund-Changed : (id : ℕ) (s s' : Store) → refund id s ≡ ok s' → Changed s s'
unfolding refund
refund-Changed id s s' e =
    let (r, g, e1) = bind_ok (get_return id s) _ e in
    let (_, a, e2) =
      bind_ok (raise_if (not (same_return_status r.status received)) wrong_state) _ e1 in
    let (o, l, e3) = bind_ok (lock_order r.order_id s) _ e2 in
    let (_, _, e4) =
      bind_ok
        (raise_if (any (λ i. ltb (came_back o.id i.id s.returns) i.quantity) o.items) not_full) _
        e3 in
    elim (Result-cases (request_refund o.id none false s.db)) [
      | inl (x, n) ↦ absurd (ground arith)
      | inr (((x, b), db), n) ↦
          let q = request_refund-orders o.id none false s.db db x b n in
          let r' : ReturnRequest = record r {
            status = closed;
            resolution = some refunded;
            refund_id = some x.id;
          } in
          let f : s' ≡ record s { db = db; returns = put_return r' s.returns } = ground arith in
          record {
            before = r;
            after = r';
            found = get_return_lem id s r g;
            returns = ap (λ y. y.returns) f;
            id = refl;
            order_id = refl;
            user_id = refl;
            status = ground arith;
            items = λ line. refl;
            kept = λ i line. rw f (ground arith);
            keyed = λ z i y h. ground (arith, z i y);
          }
    ]
