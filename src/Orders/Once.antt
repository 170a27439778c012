-- ===== src/Orders/Once.antt =====
-- One order for a key, and what a refused checkout leaves.
use fast_api_e_commerce.Prelude.{
  ℕ, Bool, false, ◌&&◌, ◌||◌, none, List, [], ◌∷◌, ok, ◌≡◌, inl, inr, refl, sym, map, ◌∙◌, arith,
  Option-cases, is_some, any, ◌==◌, same_key,
}
use fast_api_e_commerce.Orders.Types.{Order}
use fast_api_e_commerce.Cart.{
  Cart, CartItem, Carts, Owner, user, guest, get_or_create_cart, save_cart,
}
use fast_api_e_commerce.Orders.Shop.{Shop, Request, Env, CheckoutError, price_changed}
use fast_api_e_commerce.Orders.Price.{user_of}
use fast_api_e_commerce.Orders.Checkout.{
  get_by_idempotency_key, replay_cart, replay, new_order, token_of, after_order,
  initialized_currency, checkout_new, checkout,
}
use fast_api_e_commerce.Orders.Refreshed.{repriced}
use fast_api_e_commerce.Orders.Placed.{New, Placed, checkout_new-inv}
use fast_api_e_commerce.Orders.Replay.{checkout-new, checkout-existing, checkout-known}

-- the two unique constraints of the orders' table
abbrev pub same_request_key : Order → Order → Bool
same_request_key o p =
    p.idempotency_key == o.idempotency_key
    && ((is_some o.user_id && same_key p.user_id o.user_id)
        || (is_some o.guest_token && same_key p.guest_token o.guest_token))

unfoldable pub UniqueKeys : List Order → Type 0
UniqueKeys [] = Unit
UniqueKeys (o ∷ os) = (any (same_request_key o) os ≡ false) × UniqueKeys os

none_before :
    (owner : Owner) (key : ℕ) (o : Order) (os : List Order)
    → o.idempotency_key ≡ key
    → o.user_id ≡ user_of owner
    → o.guest_token ≡ token_of owner
    → get_by_idempotency_key owner key os ≡ none
    → any (same_request_key o) os ≡ false
none_before owner key o [] ek eu et h = refl
none_before (user u) key o (p ∷ os) ek eu et h =
    ground (arith, none_before (user u) key o os ek eu et)
none_before (guest t) key o (p ∷ os) ek eu et h =
    ground (arith, none_before (guest t) key o os ek eu et)

-- the order that a checkout under a new key puts in front
orders-checkout_new :
    (env : Env) (r : Request) (shop : Shop) (p : Order × Shop)
    → checkout_new env r shop ≡ ok p
    → (p.1.orders ≡ p.0 ∷ shop.orders)
      × (p.0.idempotency_key ≡ r.idempotency_key)
      × (p.0.user_id ≡ user_of r.owner)
      × (p.0.guest_token ≡ token_of r.owner)
unfolding New Placed after_order new_order
orders-checkout_new env r shop p h =
    let ((currency, columns, _, _, _, placed), _) = checkout_new-inv env r shop p h in
    let (sold, shipping, q, tax, products, variants, es, ec, e2, e3, e4, e5, e6, e7) = placed in
    rw e7 (refl, refl, refl, refl)

replay_cart-keeps :
    (env : Env) (shop : Shop) (o : Order) (digest : ℕ) (waiting : Cart) (carts : Carts)
    (items : List CartItem) (p : Order × Shop)
    → waiting.items ≡ items
    → replay_cart env shop o digest (waiting, carts) ≡ ok p
    → p ≡ (o, record shop { carts = carts })
unfolding replay_cart
replay_cart-keeps env shop o digest waiting carts [] p e h = ground arith
replay_cart-keeps env shop o digest waiting carts (i ∷ is) p e h = ground arith

-- an order that is returned again changes nothing but that an empty cart may be made
pub replay-keeps :
    (env : Env) (r : Request) (shop : Shop) (o : Order) (p : Order × Shop)
    → replay env r shop o ≡ ok p
    → (carts : Carts) × (p ≡ (o, record shop { carts = carts }))
unfolding replay
replay-keeps env r shop o p h = elim (Option-cases o.cart_digest) [
  | inl e ↦ (shop.carts, ground arith)
  | inr (digest, e) ↦
      let (waiting, carts) = get_or_create_cart r.owner shop.carts in
      (carts, replay_cart-keeps env shop o digest waiting carts waiting.items p refl (ground arith))
]

-- If no two orders of one customer or guest have the same key, then so it is after a checkout that
-- returns.
pub checkout-UniqueKeys :
    (env : Env) (r : Request) (shop : Shop) (p : Order × Shop)
    → UniqueKeys shop.orders
    → checkout env r shop ≡ ok p
    → UniqueKeys p.1.orders
unfolding UniqueKeys
checkout-UniqueKeys env r shop p u h =
    elim (Option-cases (get_by_idempotency_key r.owner r.idempotency_key shop.orders)) [
      | inl e ↦
          let (eo, ek, eu, et) = orders-checkout_new env r shop p (checkout-new env r shop p h e) in
          rw eo (none_before r.owner r.idempotency_key p.0 shop.orders ek eu et e, u)
      | inr (o, e) ↦
          let (carts, eo) =
            replay-keeps env r shop o p
              (sym (checkout-existing env r shop o (checkout-known env r shop p h) e) ∙ h) in
          rw eo u
    ]

-- what a refused checkout keeps
unfoldable pub Kept : Env → Request → Shop → CheckoutError → Shop → Type 0
Kept env r shop (price_changed changes subtotal) after = after ≡ record shop {
  store_currency = initialized_currency env.config shop;
  carts =
      let (cart, carts) = get_or_create_cart r.owner shop.carts in
      record carts {
        carts = save_cart (record cart { items = map (repriced changes) cart.items }) carts.carts;
      };
}
Kept env r shop _ after = after ≡ shop
