-- ===== src/Returns/Arrived.antt =====
-- The units that come back to stock with a return, read off the payload of `receive`.
use fast_api_e_commerce.Prelude.{
  ℕ, ◌+◌, Bool, true, false, ◌&&◌, none, some, List, [], ◌∷◌, ok, ◌≡◌, refl, ap, ◌∙◌, arith, any,
  ◌==◌, if◌then◌else◌, Option-cases, Bool-cases, inl, inr,
}
use fast_api_e_commerce.Orders.Types.{Order, OrderItem}
use fast_api_e_commerce.Returns.{approved, ReturnItem, ReturnRequest, Store, get_return}
use fast_api_e_commerce.Returns.Receipts.{
  Arrival, all_given, arrival_of, with_arrivals, recorded, line_of, receive,
}
use fast_api_e_commerce.Returns.Restocked.{
  units_of, sold_as, sold_as_variant, StockBack, receive-recorded,
}

-- the units of a line that arrived to go back, by the payload
abbrev pub arrived_units : ℕ → List Arrival → ℕ
arrived_units line [] = 0
arrived_units line (a ∷ rest) =
    if a.order_item_id == line
    then if a.restock then a.received_quantity else 0
    else arrived_units line rest

-- the units of a line, where it was sold as the test wants
abbrev pub of_line : (OrderItem → Bool) → List OrderItem → ℕ → ℕ → ℕ
of_line test [] line n = 0
of_line test (l ∷ ls) line n =
    if l.id == line then if test l then n else 0 else of_line test ls line n

-- the units that arrived of the items whose restock the return id has not recorded before
abbrev pub units_back :
    (OrderItem → Bool) → List OrderItem → List (ℕ × ℕ) → ℕ → List Arrival → List ReturnItem → ℕ
units_back test lines events id arrivals [] = 0
units_back test lines events id arrivals (i ∷ is) =
    (if any (λ e. e.0 == i.order_item_id && e.1 == id) events
      then 0
      else of_line test lines i.order_item_id (arrived_units i.order_item_id arrivals))
    + units_back test lines events id arrivals is

-- a return names no line twice
abbrev pub OncePerLine : List ReturnItem → Type 0
OncePerLine [] = Unit
OncePerLine (i ∷ is) = (any (λ j. j.order_item_id == i.order_item_id) is ≡ false) × OncePerLine is

arrived_units-arrival_of :
    (line : ℕ) (arrivals : List Arrival) (a : Arrival)
    → arrival_of line arrivals ≡ some a
    → arrived_units line arrivals ≡ (if a.restock then a.received_quantity else 0)
arrived_units-arrival_of line [] a h = absurd (ground arith)
arrived_units-arrival_of line (b ∷ bs) a h = ground (arith, arrived_units-arrival_of line bs a)

of_line-line_of :
    (test : OrderItem → Bool) (lines : List OrderItem) (line n : ℕ)
    → of_line test lines line n
      ≡ elim (line_of line lines) [ none ↦ 0 | some l ↦ if test l then n else 0 ]
of_line-line_of test [] line n = refl
of_line-line_of test (l ∷ ls) line n = ground (arith, of_line-line_of test ls line n)

of_line_zero :
    (test : OrderItem → Bool) (lines : List OrderItem) (line : ℕ) → of_line test lines line 0 ≡ 0
of_line_zero test [] line = refl
of_line_zero test (l ∷ ls) line = ground (arith, of_line_zero test ls line)

module _ (test : OrderItem → Bool) (lines : List OrderItem) (id : ℕ) (arrivals : List Arrival) where
  -- a record of another line changes nothing
  units_back_other :
      (line : ℕ) (events : List (ℕ × ℕ)) (is : List ReturnItem)
      → any (λ j. j.order_item_id == line) is ≡ false
      → units_back test lines ((line, id) ∷ events) id arrivals is
        ≡ units_back test lines events id arrivals is
  units_back_other line events [] h = refl
  units_back_other line events (i ∷ is) h = ground (arith, units_back_other line events is)

  units_of-recorded :
      (events : List (ℕ × ℕ)) (is : List ReturnItem)
      → all_given arrivals is ≡ true
      → OncePerLine is
      → units_of test lines (recorded id events (with_arrivals arrivals is))
        ≡ units_back test lines events id arrivals is
  unfolding all_given with_arrivals recorded
  units_of-recorded events [] g o = refl
  units_of-recorded events (i ∷ is) g o =
      elim (Option-cases (arrival_of i.order_item_id arrivals)) [
        | inl n ↦ absurd (ground arith)
        | inr (a, n) ↦
            let line = i.order_item_id in
            let q = arrived_units-arrival_of line arrivals a n in
            let u = of_line-line_of test lines line a.received_quantity in
            let z = of_line_zero test lines line in
            let c = units_back_other line events is o.0 in
            let h = units_of-recorded events is (ground arith) o.1 in
            let k = units_of-recorded ((line, id) ∷ events) is (ground arith) o.1 in
            elim (Bool-cases a.restock) [ inl b ↦ ground arith | inr b ↦ ground arith ]
      ]

-- A received return had been approved and its order is there. If it names no line twice, then the stock
-- of every product and variant grows by exactly the units that were sold as it, that the payload says
-- arrived and go back to stock, and that are of lines whose restock this return has not recorded
-- before.
pub receive-StockBack :
    (id : ℕ) (arrivals : List Arrival) (s s' : Store) (r : ReturnRequest)
    → get_return id s ≡ ok r
    → OncePerLine r.items
    → receive id arrivals s ≡ ok s'
    → (r.status ≡ approved)
      × (o : Order) × (s.db.orders r.order_id ≡ some o)
      × StockBack (λ test. units_back test o.items s.restock_events r.id arrivals r.items) s s'
receive-StockBack id arrivals s s' r er once e =
    let (r', er', st, given, o, eo, back) = receive-recorded id arrivals s s' e in
    let same : r' ≡ r = ground arith in
    let given' : all_given arrivals r.items ≡ true = rw same at given in
    let units : (test : OrderItem → Bool)
        → units_of test o.items (recorded r.id s.restock_events (with_arrivals arrivals r.items))
          ≡ units_back test o.items s.restock_events r.id arrivals r.items =
      λ test. units_of-recorded test o.items r.id arrivals s.restock_events r.items given' once in
    let back' : StockBack
        (λ test.
          units_of test o.items (recorded r.id s.restock_events (with_arrivals arrivals r.items)))
        s s' =
      rw same at back in
    (
      rw same at st,
      o,
      rw same at eo,
      record {
        products = λ i p h.
            back'.products i p h
            ∙ ap (λ n. some (record p { stock = p.stock + n })) (units (sold_as i));
        variants = λ i v h.
            back'.variants i v h
            ∙ ap (λ n. some (record v { stock = v.stock + n })) (units (sold_as_variant i));
      },
    )
