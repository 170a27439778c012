-- ===== src/Orders/Replay.antt =====
-- The same request again, after a checkout that returned.
use fast_api_e_commerce.Prelude.{
  ℕ, Bool, true, false, ◌||◌, Option, none, some, List, [], ◌∷◌, ok, ◌≡◌, inl, inr, refl, ◌∙◌,
  arith, Option-cases, is_some, find, same_key,
}
use fast_api_e_commerce.Orders.Types.{Order, Text}
use fast_api_e_commerce.Money.{Currency}
use fast_api_e_commerce.Products.{Product, Variant, Table}
use fast_api_e_commerce.Cart.{
  Cart, CartItem, Carts, Owner, user, guest, get_cart, get_or_create_cart, save_cart, owns,
  new_cart,
}
use fast_api_e_commerce.Cart.View.{cart_digest}
use fast_api_e_commerce.Coupons.{has_email}
use fast_api_e_commerce.Orders.Shop.{Shop, Request, Env}
use fast_api_e_commerce.Orders.Sell.{Sold}
use fast_api_e_commerce.Orders.Price.{user_of, Reduction}
use fast_api_e_commerce.Orders.Checkout.{
  request_fingerprint, same_identity, get_by_idempotency_key, differs, replay_cart, replay,
  not_empty, new_order, token_of, after_order, initialized_currency, checkout_new, checkout,
}
use fast_api_e_commerce.Orders.Placed.{New, Placed, checkout_new-inv}

-- a cart that is written back is the one found again
pub find-save_cart :
    (p : Cart → Bool) (cs : List Cart) (c d : Cart)
    → find p cs ≡ some c
    → p d ≡ true
    → d.id ≡ c.id
    → find p (save_cart d cs) ≡ some d
find-save_cart p [] c d h own same = absurd (ground arith)
find-save_cart p (x ∷ xs) c d h own same = ground (arith, find-save_cart p xs c d)

owns-found :
    (owner : Owner) (cs : List Cart) (c : Cart)
    → find (owns owner) cs ≡ some c
    → owns owner c ≡ true
owns-found owner [] c h = absurd (ground arith)
owns-found owner (x ∷ xs) c h = ground (arith, owns-found owner xs c)

owns-cleared :
    (owner : Owner) (c : Cart) (items : List CartItem)
    → owns owner c ≡ true
    → owns owner (record c { items = items }) ≡ true
owns-cleared (user u) c items h = h
owns-cleared (guest t) c items h = h

-- a cart with lines is one that was there
get_or_create_cart-found :
    (owner : Owner) (db : Carts)
    → not_empty (get_or_create_cart owner db).0.items ≡ true
    → (get_cart owner db ≡ some (get_or_create_cart owner db).0)
      × ((get_or_create_cart owner db).1 ≡ db)
unfolding get_or_create_cart
get_or_create_cart-found owner db h = elim (Option-cases (get_cart owner db)) [
  | inl e ↦ absurd (ground (arith, new_cart-empty owner db.next_cart))
  | inr (c, e) ↦ ground arith
]
  where
    new_cart-empty : (owner : Owner) (id : ℕ) → not_empty (new_cart id owner).items ≡ false
    new_cart-empty (user u) id = refl
    new_cart-empty (guest t) id = refl

-- the owner's cart after it is cleared
get_or_create_cart-cleared :
    (owner : Owner) (db : Carts) (c : Cart)
    → get_cart owner db ≡ some c
    → get_or_create_cart owner (record db { carts = save_cart (record c { items = [] }) db.carts })
      ≡ (
        record c { items = [] },
        record db { carts = save_cart (record c { items = [] }) db.carts },
      )
unfolding get_or_create_cart
get_or_create_cart-cleared owner db c h =
    let c' = record c { items = [] } in
    let found =
      find-save_cart (owns owner) db.carts c c' h
        (owns-cleared owner c [] (owns-found owner db.carts c h)) refl in
    rw (found, get_or_create_cart) refl

same_key_refl : (n : ℕ) → same_key (some n) (some n) ≡ true
same_key_refl n = ground arith

same_identity-new :
    (owner : Owner) (o : Order)
    → o.user_id ≡ user_of owner
    → o.guest_token ≡ token_of owner
    → same_identity owner o ≡ true
same_identity-new (user u) o eu et = rw eu (same_key_refl u)
same_identity-new (guest t) o eu et = rw et (same_key_refl t)

not_differs : (h : Option ℕ) (n : ℕ) → h ≡ some n → differs h n ≡ false
not_differs h n e = ground arith

replay-same :
    (env : Env) (r : Request) (shop : Shop) (o : Order) (digest : ℕ) (p : Cart × Carts)
    → o.request_hash ≡ some (request_fingerprint env r)
    → o.cart_digest ≡ some digest
    → get_or_create_cart r.owner shop.carts ≡ p
    → replay env r shop o ≡ replay_cart env shop o digest p
unfolding replay
replay-same env r shop o digest p hash ed ep =
    ground (arith, not_differs o.request_hash (request_fingerprint env r) hash)

-- the shop after the order, asked again
after_order-replay :
    (env : Env) (r : Request) (shop : Shop) (cart : Cart) (products : Table Product)
    (variants : Table Variant) (code : Option Text) (o : Order)
    → get_cart r.owner shop.carts ≡ some cart
    → o.request_hash ≡ some (request_fingerprint env r)
    → (digest : ℕ) → o.cart_digest ≡ some digest
    → replay env r (after_order code shop cart shop.carts products variants o) o
      ≡ ok (o, after_order code shop cart shop.carts products variants o)
unfolding replay_cart after_order
after_order-replay env r shop cart products variants code o found hash digest ed =
    replay-same env r (after_order code shop cart shop.carts products variants o) o digest _ hash ed
      (get_or_create_cart-cleared r.owner shop.carts cart found)

-- what the lookup and the comparison read of an order
unfoldable pub Answers : Env → Request → Order → Type 0
Answers env r o =
    (o.idempotency_key ≡ r.idempotency_key)
    × (same_identity r.owner o ≡ true)
    × (o.request_hash ≡ some (request_fingerprint env r))
    × (digest : ℕ) × (o.cart_digest ≡ some digest)

new_order-Answers :
    (env : Env) (r : Request) (shop : Shop) (digest : ℕ) (currency : Currency) (sold : List Sold)
    (q : Reduction) (tax : ℕ)
    → Answers env r (new_order env r shop digest currency sold q tax)
unfolding Answers new_order
new_order-Answers env r shop digest currency sold q tax = (
  refl,
  same_identity-new r.owner (new_order env r shop digest currency sold q tax) refl refl,
  refl,
  digest,
  refl,
)

first_found :
    (owner : Owner) (key : ℕ) (o : Order) (os : List Order)
    → o.idempotency_key ≡ key
    → same_identity owner o ≡ true
    → get_by_idempotency_key owner key (o ∷ os) ≡ some o
first_found owner key o os ek own = ground arith

pub checkout-existing :
    (env : Env) (r : Request) (shop : Shop) (o : Order)
    → (is_some (user_of r.owner) || has_email r.guest_email) ≡ true
    → get_by_idempotency_key r.owner r.idempotency_key shop.orders ≡ some o
    → checkout env r shop ≡ replay env r shop o
unfolding checkout
checkout-existing env r shop o known found = ground arith

answered :
    (env : Env) (r : Request) (shop : Shop) (cart : Cart) (products : Table Product)
    (variants : Table Variant) (code : Option Text) (o : Order)
    → (is_some (user_of r.owner) || has_email r.guest_email) ≡ true
    → get_cart r.owner shop.carts ≡ some cart
    → Answers env r o
    → checkout env r (after_order code shop cart shop.carts products variants o)
      ≡ ok (o, after_order code shop cart shop.carts products variants o)
unfolding Answers after_order
answered env r shop cart products variants code o known found (ek, own, hash, digest, ed) =
    let after = after_order code shop cart shop.carts products variants o in
    checkout-existing env r after o known
      (first_found r.owner r.idempotency_key o shop.orders ek own)
    ∙ after_order-replay env r shop cart products variants code o found hash digest ed

same_hash :
    (env later : Env) (r : Request) (o : Order)
    → later.request_sha256 ≡ env.request_sha256
    → Answers env r o
    → Answers later r o
unfolding Answers
same_hash env later r o hash (a, b, c, d, e) = (a, b, rw hash c, d, e)

pub checkout-known :
    (env : Env) (r : Request) (shop : Shop) (p : Order × Shop)
    → checkout env r shop ≡ ok p
    → (is_some (user_of r.owner) || has_email r.guest_email) ≡ true
unfolding checkout
checkout-known env r shop p h = ground arith

pub checkout-new :
    (env : Env) (r : Request) (shop : Shop) (p : Order × Shop)
    → checkout env r shop ≡ ok p
    → get_by_idempotency_key r.owner r.idempotency_key shop.orders ≡ none
    → checkout_new env r shop ≡ ok p
unfolding checkout
checkout-new env r shop p h absent = ground arith

answered_by :
    (env : Env) (r : Request) (shop : Shop) (p : Order × Shop) (cart : Cart) (carts : Carts)
    (products : Table Product) (variants : Table Variant) (code : Option Text) (o : Order)
    → (is_some (user_of r.owner) || has_email r.guest_email) ≡ true
    → get_cart r.owner shop.carts ≡ some cart
    → carts ≡ shop.carts
    → Answers env r o
    → p ≡ (o, after_order code shop cart carts products variants o)
    → checkout env r p.1 ≡ ok p
answered_by env r shop p cart carts products variants code o known found same ans ep =
    let ep' : p ≡ (o, after_order code shop cart shop.carts products variants o) = rw same at ep in
    rw ep' (answered env r shop cart products variants code o known found ans)

-- If a checkout under a new key returns an order, then the same request again returns the same order
-- and changes nothing, whatever the settings and the time then are (the hash of requests being the
-- same).
pub checkout_again :
    (env later : Env) (r : Request) (shop : Shop) (p : Order × Shop)
    → checkout env r shop ≡ ok p
    → get_by_idempotency_key r.owner r.idempotency_key shop.orders ≡ none
    → later.request_sha256 ≡ env.request_sha256
    → checkout later r p.1 ≡ ok p
unfolding New Placed
checkout_again env later r shop p h absent hash =
    let ((currency, columns, _, _, _, placed), ne) =
      checkout_new-inv env r shop p (checkout-new env r shop p h absent) in
    let (sold, shipping, q, tax, products, variants, es, ec, e2, e3, e4, e5, e6, e7) = placed in
    let (found, same) = get_or_create_cart-found r.owner shop.carts ne in
    let (cart, carts) = get_or_create_cart r.owner shop.carts in
    let o = new_order env r shop (cart_digest env.sha256 cart.items) currency sold q tax in
    let code = initialized_currency env.config shop in
    answered_by later r shop p cart carts products variants code o (checkout-known env r shop p h)
      found same (same_hash env later r o hash (new_order-Answers env r shop _ currency sold q tax))
      e7
