-- ===== src/Orders/Quote/Agrees.antt =====
-- The quote against the order that checkout makes.
use fast_api_e_commerce.Prelude.{
  ℕ, ◌+◌, ◌-◌, true, false, not, ◌&&◌, Option, none, some, List, [], ◌∷◌, Result, ok, err, ◌≡◌, ◌⊎◌,
  inl, inr, refl, ◌∙◌, arith, Result-cases, bind_ok, is_some,
}
use fast_api_e_commerce.Orders.Types.{Order, Text}
use fast_api_e_commerce.Money.{Currency}
use fast_api_e_commerce.Cart.{Cart, CartItem, Carts, Owner, user, guest, get_or_create_cart}
use fast_api_e_commerce.Coupons.{Coupon, Discount, evaluate}
use fast_api_e_commerce.Tax.States.{resolve_state}
use fast_api_e_commerce.Tax.Engine.{
  Engine, not_configured, flat_interim, gst, is_configured, TaxRequest, TaxError, calculate_tax,
  calculate_gst,
}
use fast_api_e_commerce.Tax.Engine.Ready.{calculate_gst_state}
use fast_api_e_commerce.Orders.Shop.{Address, Config, Shop, Request, Env}
use fast_api_e_commerce.Orders.Sell.{Sold, sorted_items, subtotal_of, price_changes}
use fast_api_e_commerce.Orders.Price.{
  calculate_shipping, user_of, email_of, given_code, find_coupon, lift_coupon, lift_tax, Reduction,
  reduce_by, reduce_code, reduce, tax_request, calculate_order_tax, resolve_shipping_snapshot,
  state_of,
}
use fast_api_e_commerce.Orders.Checkout.{
  resolve_currency, is_gst, not_empty, new_order, checkout_new,
}
use fast_api_e_commerce.Orders.Placed.{New, Placed, checkout_new-inv}
use fast_api_e_commerce.Orders.Quote.{
  QuoteReduction, CartQuote, quote_reduce_by, quote_reduce_code, quote_reduce, quote_columns,
  no_state, known, quote_tax, quoted, blocking_of, quote_sold, quote, quote_lines, needs_address,
}
use fast_api_e_commerce.Orders.Quote.Lines.{Positive, sorted_items-Positive, sell-quoted}

-- the reduction of checkout, as the quote has it
of_reduction : Reduction → QuoteReduction
of_reduction q = record {
  coupon = q.coupon;
  goods_cents = q.goods_cents;
  shipping_cents = some q.shipping_cents;
  shares = q.shares;
}

quote_reduce_by-agrees :
    (config : Config) (sold : List Sold) (o : Option Coupon) (shipping : ℕ) (d : Discount)
    (q : Reduction)
    → reduce_by config sold o d ≡ ok q
    → quote_reduce_by config sold o (some shipping) d ≡ ok (of_reduction q)
unfolding reduce_by quote_reduce_by of_reduction
quote_reduce_by-agrees config sold o shipping d q h =
    elim (Result-cases (calculate_shipping config (subtotal_of sold - d.goods_cents))) [
      | inl (x, k) ↦ ground arith
      | inr (n, k) ↦ ground arith
    ]

quote_reduce_code-agrees :
    (env : Env) (r : Request) (shop : Shop) (sold : List Sold) (shipping : ℕ) (code : Option Text)
    (q : Reduction)
    → reduce_code env r shop sold shipping code ≡ ok q
    → quote_reduce_code env r shop sold (some shipping) code ≡ ok (of_reduction q)
unfolding reduce_code quote_reduce_code of_reduction
quote_reduce_code-agrees env r shop sold shipping none q h = ground arith
quote_reduce_code-agrees env r shop sold shipping (some code) q h =
    let (d, ed, h1) =
      bind_ok
        (lift_coupon (
          evaluate shop.orders (find_coupon shop code) (subtotal_of sold) shipping (user_of r.owner)
            (email_of r) env.now))
        _ h in
    let e = quote_reduce_by-agrees env.config sold (find_coupon shop code) shipping d q h1 in
    rw (ed, e) refl

quote_columns-agrees :
    (shop : Shop) (owner : Owner) (address_id : Option ℕ) (a : Option Address)
    (columns : Option Address)
    → resolve_shipping_snapshot shop owner address_id a ≡ ok columns
    → quote_columns shop owner address_id a ≡ ok columns
unfolding quote_columns resolve_shipping_snapshot
quote_columns-agrees shop owner address_id (some a) columns h = h
quote_columns-agrees shop (guest t) address_id none columns h = absurd (ground arith)
quote_columns-agrees shop (user u) (some id) none columns h = h
quote_columns-agrees shop (user u) none none columns h = h

-- shipping that is known is configured
shipping-configured :
    (config : Config) (n shipping : ℕ)
    → calculate_shipping config n ≡ ok shipping
    → is_configured config.tax_engine ≡ true
unfolding calculate_shipping
shipping-configured config n shipping h = ground arith

-- an engine that answered had a state if it needs one
tax-state :
    (engine : Engine) (request : TaxRequest) (n : ℕ)
    → calculate_tax engine request ≡ ok n
    → (is_gst engine ≡ false)
      ⊎ ((place : Text) × (resolve_state request.delivery_state ≡ some place))
unfolding calculate_tax
tax-state not_configured request n h = inl refl
tax-state (flat_interim a b) request n h = inl refl
tax-state (gst m) request n h =
    let (result, e, _) = bind_ok (calculate_gst m request) _ h in
    inr (calculate_gst_state m request result e)

state-given :
    (columns : Option Address) (place : Text)
    → resolve_state (state_of columns) ≡ some place
    → no_state columns ≡ false
unfolding resolve_state
state-given none place h = absurd (nowhere place h)
  where
    nowhere : (place : Text) → resolve_state none ≡ some place → ⊥
    nowhere place h = ground arith
state-given (some a) place h = state_text a.state place h
  where
    state_text :
        (s : Text) (place : Text) → resolve_state (some s) ≡ some place → not (not_empty s) ≡ false
    state_text [] place h = absurd (ground arith)
    state_text (c ∷ s) place h = refl

lift_tax-ok : {A : Type 0} (m : Result TaxError A) (a : A) → lift_tax m ≡ ok a → m ≡ ok a
lift_tax-ok (ok b) a h = ground arith
lift_tax-ok (err x) a h = absurd (ground arith)

no_address_needed :
    (env : Env) (shop : Shop) (sold : List Sold) (q : Reduction) (columns : Option Address) (n : ℕ)
    → calculate_order_tax env shop sold q columns ≡ ok n
    → (is_gst env.config.tax_engine && no_state columns) ≡ false
unfolding calculate_order_tax
no_address_needed env shop sold q columns n h =
    elim (tax-state env.config.tax_engine (tax_request env shop sold q columns) n
      (lift_tax-ok _ n h)) [
        | inl e ↦ ground arith
        | inr (place, e) ↦ let s = state-given columns place e in ground arith
      ]

quote_tax-agrees :
    (env : Env) (shop : Shop) (sold : List Sold) (q : Reduction) (columns : Option Address) (n : ℕ)
    → is_configured env.config.tax_engine ≡ true
    → calculate_order_tax env shop sold q columns ≡ ok n
    → quote_tax env shop sold (of_reduction q) columns ≡ ok (known n)
unfolding quote_tax of_reduction
quote_tax-agrees env shop sold q columns n configured h =
    let no_need = no_address_needed env shop sold q columns n h in rw (configured, no_need, h) refl

-- what a quote says of an order
unfoldable pub Agrees : CartQuote → Order → Type 0
Agrees q o =
    (q.subtotal_cents ≡ o.subtotal_cents)
    × (q.discount_cents ≡ o.discount_cents)
    × (q.shipping_cents ≡ some o.shipping_cents)
    × (q.tax.added_cents ≡ some o.tax_cents)
    × (q.total_cents ≡ some o.total_cents)
    × (q.blocking ≡ [])
    × (q.price_changed ≡ false)
    × (q.requires_address ≡ false)

abbrev quote_of : Shop → List Sold → Reduction → ℕ → CartQuote
quote_of shop sold q n = record {
  lines = quote_lines sold q.shares;
  subtotal_cents = subtotal_of sold;
  discount_cents = q.goods_cents;
  coupon = q.coupon;
  shipping_cents = some q.shipping_cents;
  tax = known n;
  total_cents = some (subtotal_of sold - q.goods_cents + q.shipping_cents + n);
  blocking = [];
  price_changed = false;
  requires_address = false;
}

undeliverable-false : (columns : Option Address) → (is_some columns && false) ≡ false
undeliverable-false none = refl
undeliverable-false (some a) = refl

quote_sold-agrees :
    (env : Env) (r : Request) (shop : Shop) (columns : Option Address) (items : List CartItem)
    (sold : List Sold) (shipping : ℕ) (q : Reduction) (n : ℕ)
    → price_changes sold ≡ []
    → blocking_of shop.products shop.variants items ≡ []
    → calculate_shipping env.config (subtotal_of sold) ≡ ok shipping
    → reduce env r shop sold shipping ≡ ok q
    → resolve_shipping_snapshot shop r.owner r.address_id r.shipping_address ≡ ok columns
    → env.deliverable columns ≡ true
    → calculate_order_tax env shop sold q columns ≡ ok n
    → quote_sold env r shop items sold ≡ ok (quote_of shop sold q n)
unfolding quote_sold quote_reduce reduce of_reduction
quote_sold-agrees env r shop columns items sold shipping q n same free e2 e3 ec deliverable e4 =
    let reduced =
      quote_reduce_code-agrees env r shop sold shipping (given_code r.coupon_code) q e3 in
    let address = quote_columns-agrees shop r.owner r.address_id r.shipping_address columns ec in
    let tax =
      quote_tax-agrees env shop sold q columns n (shipping-configured env.config _ shipping e2)
        e4 in
    let need : needs_address env columns ≡ false =
      let no_need = no_address_needed env shop sold q columns n e4 in ground arith in
    rw (e2, reduced, address, deliverable, tax, free, same, need, undeliverable-false columns) refl

quote-cons :
    (env : Env) (r : Request) (shop : Shop) (items : List CartItem) (currency : Currency)
    (sold : List Sold)
    → not_empty items ≡ true
    → resolve_currency env.config shop ≡ ok currency
    → quoted shop.products shop.variants (sorted_items items) ≡ ok sold
    → quote env r shop items ≡ quote_sold env r shop (sorted_items items) sold
unfolding quote
quote-cons env r shop [] currency sold ne ec eq = absurd (ground arith)
quote-cons env r shop (i ∷ is) currency sold ne ec eq = rw (ec, eq, quote) refl

Placed-quoted :
    (env : Env) (r : Request) (shop : Shop) (currency : Currency) (columns : Option Address)
    (cart : Cart) (carts : Carts) (p : Order × Shop)
    → not_empty cart.items ≡ true
    → Positive cart.items
    → resolve_currency env.config shop ≡ ok currency
    → resolve_shipping_snapshot shop r.owner r.address_id r.shipping_address ≡ ok columns
    → env.deliverable columns ≡ true
    → Placed env r shop currency columns cart carts p
    → (q : CartQuote) × (quote env r shop cart.items ≡ ok q) × Agrees q p.0
unfolding Placed Agrees new_order
Placed-quoted env r shop currency columns cart carts p ne positive ec ea deliverable
      (sold, shipping, q, n, products, variants, es, same, e2, e3, e4, e5, e6, e7) =
    let (prices, free) =
      sell-quoted shop.products shop.variants (sorted_items cart.items) sold
        (sorted_items-Positive cart.items positive) es in
    let run =
      quote-cons env r shop cart.items currency sold ne ec prices
      ∙ quote_sold-agrees env r shop columns (sorted_items cart.items) sold shipping q n same free
          e2 e3 ea deliverable e4 in
    (quote_of shop sold q n, run, rw e7 (refl, refl, refl, refl, refl, refl, refl, refl))

-- If checkout makes an order under a new key, from a cart of positive quantities, then the quote of that
-- cart returns, with the subtotal, discount, shipping, tax and total of the order, nothing blocking, no
-- changed price and no address missing.
pub checkout_new-quoted :
    (env : Env) (r : Request) (shop : Shop) (p : Order × Shop)
    → Positive (get_or_create_cart r.owner shop.carts).0.items
    → checkout_new env r shop ≡ ok p
    → (q : CartQuote) × (quote env r shop (get_or_create_cart r.owner shop.carts).0.items ≡ ok q)
      × Agrees q p.0
unfolding New
checkout_new-quoted env r shop p positive h =
    let ((currency, columns, ec, ea, deliverable, placed), ne) = checkout_new-inv env r shop p h in
    Placed-quoted env r shop currency columns _ _ p ne positive ec ea deliverable placed
