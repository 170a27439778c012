-- ===== src/Coupons.antt =====
-- app/modules/coupons/services: what a coupon takes off (discount.py) and whether it applies to an
-- order (the functions of coupon_service.py that checkout calls).
--
-- A percentage is in hundredths (the column is Numeric(5, 2)); times are seconds. Reads of the
-- database are the coupon row, already found by its code, and the list of orders.
pub mod Discounts
pub mod Limits
pub mod Examples
use fast_api_e_commerce.Prelude.{
  ℕ, zero, suc, ◌+◌, ◌*◌, Bool, true, false, not, ◌&&◌, ◌||◌, Option, none, some, List, [], ◌∷◌,
  Result, ok, err, ◌>>=◌, ◌>>◌, raise_if, ltb, leb, ◌==◌, if◌then◌else◌, min, is_some, same_key,
}
use fast_api_e_commerce.Tax.Allocate.{allocate}
use fast_api_e_commerce.Tax.Gst.{half_up}
use fast_api_e_commerce.Orders.Types.{
  Order, OrderStatus, pending, paid, fulfilled, Text, same_text, lower, upper, strip,
}

pub data Kind : Type 0 where
  percentage fixed free_shipping unknown_kind : Kind

-- `type_error` is Python's, on a coupon without the amount that its kind needs.
pub data CouponError : Type 0 where
  invalid minimum_not_met limit_reached not_applicable unknown_kind_error type_error : CouponError

pub record Coupon : Type 0 where
  pub id : ℕ
  pub kind : Kind
  pub percent_off : Option ℕ
  pub amount_off_cents : Option ℕ
  pub max_discount_cents : Option ℕ
  pub min_subtotal_cents : ℕ
  pub starts_at : Option ℕ
  pub ends_at : Option ℕ
  pub max_uses_total : Option ℕ
  pub max_uses_per_customer : Option ℕ
  pub active : Bool

pub record Discount : Type 0 where
  pub goods_cents : ℕ
  pub shipping_cents : ℕ

abbrev off_goods : ℕ → Discount
off_goods cents = record { goods_cents = cents; shipping_cents = 0 }

-- `min(raw, max_discount_cents)` where there is a cap
abbrev capped : ℕ → Option ℕ → ℕ
capped raw none = raw
capped raw (some cap_cents) = min raw cap_cents

unfoldable pub compute_discount :
    Kind → Option ℕ → Option ℕ → Option ℕ → ℕ → ℕ → Result CouponError Discount
compute_discount percentage none amount_off max_discount subtotal shipping = err type_error
compute_discount percentage (some percent) amount_off max_discount subtotal shipping =
    ok (off_goods (min (capped (half_up (subtotal * percent) 10000) max_discount) subtotal))
compute_discount fixed percent_off none max_discount subtotal shipping = err type_error
compute_discount fixed percent_off (some amount) max_discount subtotal shipping =
    ok (off_goods (min amount subtotal))
compute_discount free_shipping percent_off amount_off max_discount subtotal shipping =
    ok (record { goods_cents = 0; shipping_cents = shipping })
compute_discount unknown_kind percent_off amount_off max_discount subtotal shipping =
    err unknown_kind_error

unfoldable pub share_discount : ℕ → List ℕ → List ℕ
share_discount discount_cents line_values = allocate discount_cents line_values

unfoldable pub normalise_code : Text → Text
unfolding strip
normalise_code code = upper (strip code)

-- `Order.status.in_(ALIVE)`
abbrev pub is_alive : OrderStatus → Bool
is_alive pending = true
is_alive paid = true
is_alive fulfilled = true
is_alive _ = false

-- the condition on the customer in `uses`
pub is_customer : Option ℕ → Option Text → Order → Bool
is_customer (some user) guest_email o = same_key o.user_id (some user)
is_customer none (some email) o = elim o.guest_email [
  | none ↦ false
  | some e ↦ same_text (lower e) (lower email)
]
is_customer none none o = true

-- `uses`: how many live orders carry the coupon, of all or of one customer
unfoldable pub uses : List Order → ℕ → Option ℕ → Option Text → ℕ
unfolding is_customer
uses [] coupon_id user guest_email = 0
uses (o ∷ os) coupon_id user guest_email =
    let rest = uses os coupon_id user guest_email in
    if same_key o.coupon_id (some coupon_id) && is_alive o.status && is_customer user guest_email o
    then suc rest
    else rest

abbrev not_started : Option ℕ → ℕ → Bool
not_started none now = false
not_started (some start) now = ltb now start

abbrev ended : Option ℕ → ℕ → Bool
ended none now = false
ended (some end) now = leb end now

-- `limit is not None and used >= limit`
abbrev at_limit : Option ℕ → ℕ → Bool
at_limit none used = false
at_limit (some limit) used = leb limit used

pub data CouponState : Type 0 where
  disabled scheduled expired exhausted usable : CouponState

-- `status_of`; its "active" is `usable`
unfoldable pub status_of : Coupon → ℕ → ℕ → CouponState
status_of coupon used now =
    if not coupon.active
    then disabled
    else if not_started coupon.starts_at now
    then scheduled
    else if ended coupon.ends_at now
    then expired
    else if at_limit coupon.max_uses_total used
    then exhausted
    else usable

-- `guest_email` is truthy
abbrev pub has_email : Option Text → Bool
has_email (some (c ∷ _)) = true
has_email _ = false

abbrev pub takes_nothing : Kind → Discount → Bool
takes_nothing free_shipping d = d.shipping_cents == 0
takes_nothing _ d = d.goods_cents == 0

unfoldable pub evaluate :
    List Order → Option Coupon → ℕ → ℕ → Option ℕ → Option Text → ℕ → Result CouponError Discount
evaluate orders none subtotal shipping user guest_email now = err invalid
evaluate orders (some coupon) subtotal shipping user guest_email now = do
  raise_if (not coupon.active || not_started coupon.starts_at now || ended coupon.ends_at now)
      invalid
  raise_if (ltb subtotal coupon.min_subtotal_cents) minimum_not_met
  raise_if (at_limit coupon.max_uses_total (uses orders coupon.id none none)) limit_reached
  raise_if
      ((is_some user || has_email guest_email)
        && at_limit coupon.max_uses_per_customer (uses orders coupon.id user guest_email))
      limit_reached
  discount ←
      compute_discount coupon.kind coupon.percent_off coupon.amount_off_cents
        coupon.max_discount_cents subtotal shipping
  raise_if (takes_nothing coupon.kind discount) not_applicable
  ok discount
