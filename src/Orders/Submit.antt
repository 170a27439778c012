-- ===== src/Orders/Submit.antt =====
-- What the route of app/modules/orders/api/router.py commits of a checkout.
use fast_api_e_commerce.Prelude.{List, [], ◌∷◌, Result, ok, err, if◌then◌else◌}
use fast_api_e_commerce.Orders.Types.{Order}
use fast_api_e_commerce.Cart.{CartItem, Owner, get_or_create_cart, save_cart, is_line}
use fast_api_e_commerce.Orders.Shop.{
  Config, Shop, Request, Env, PriceChange, CheckoutError, price_changed,
}
use fast_api_e_commerce.Orders.Checkout.{initialized_currency, checkout}

-- `set_price_snapshot` of the line that a change names
abbrev pub set_price_snapshot : PriceChange → List CartItem → List CartItem
set_price_snapshot c [] = []
set_price_snapshot c (i ∷ is) =
    if is_line c.product_id c.variant_id i
    then record i { price_cents_snapshot = c.new_price_cents } ∷ is
    else i ∷ set_price_snapshot c is

unfoldable pub refresh : List PriceChange → List CartItem → List CartItem
refresh [] items = items
refresh (c ∷ cs) items = refresh cs (set_price_snapshot c items)

-- the shop with the caller's cart brought up to date, and the store's currency recorded
unfoldable pub refreshed : Config → Owner → List PriceChange → Shop → Shop
unfolding initialized_currency
refreshed config owner changes shop =
    let (cart, carts) = get_or_create_cart owner shop.carts in
    record shop {
      store_currency = initialized_currency config shop;
      carts = record carts {
        carts = save_cart (record cart { items = refresh changes cart.items }) carts.carts;
      };
    }

-- What is then in the tables. `get_db` of app/core/database.py commits where the route returns, and
-- rolls everything back where it raises. The route returns an order, and it also returns where prices
-- changed, when the caller's cart was refreshed; it raises any other error.
unfoldable pub settle :
    Config → Owner → Shop → Result CheckoutError (Order × Shop) → Result CheckoutError Order × Shop
settle config owner shop (ok (o, shop')) = (ok o, shop')
settle config owner shop (err (price_changed changes subtotal)) =
    (err (price_changed changes subtotal), refreshed config owner changes shop)
settle config owner shop (err e) = (err e, shop)

-- the route
unfoldable pub submit : Env → Request → Shop → Result CheckoutError Order × Shop
submit env r shop = settle env.config r.owner shop (checkout env r shop)
