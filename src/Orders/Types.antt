-- ===== src/Orders/Types.antt =====
-- The order row of app/modules/orders/models and the statuses of app/shared/enums/order_status.py.
-- Identifiers, currency codes and hashes are only ever compared, so they are numbers; an email
-- address is its list of code points.
use fast_api_e_commerce.Prelude.{
  ℕ, ◌+◌, ◌-◌, Bool, true, false, ◌&&◌, ◌||◌, Option, List, [], ◌∷◌, map, leb, ◌==◌, if◌then◌else◌,
}

pub data OrderStatus : Type 0 where
  pending paid fulfilled cancelled refunded : OrderStatus

pub OrderStatus-discrete : Discrete OrderStatus
OrderStatus-discrete = hlevel

abbrev pub same_status : OrderStatus → OrderStatus → Bool
same_status pending pending = true
same_status paid paid = true
same_status fulfilled fulfilled = true
same_status cancelled cancelled = true
same_status refunded refunded = true
same_status _ _ = false

-- `new_status in ALLOWED_TRANSITIONS[old_status]`
abbrev pub allowed_transition : OrderStatus → OrderStatus → Bool
allowed_transition pending paid = true
allowed_transition pending cancelled = true
allowed_transition paid fulfilled = true
allowed_transition paid refunded = true
allowed_transition fulfilled refunded = true
allowed_transition _ _ = false

abbrev pub Text : Type 0
Text = List ℕ

abbrev pub same_text : Text → Text → Bool
same_text [] [] = true
same_text (a ∷ s) (b ∷ t) = a == b && same_text s t
same_text _ _ = false

-- `str.lower` and SQL `lower` on an ASCII text
abbrev pub lower : Text → Text
lower = map (λ c. if leb 65 c && leb c 90 then c + 32 else c)

-- `str.upper`
abbrev pub upper : Text → Text
upper = map (λ c. if leb 97 c && leb c 122 then c - 32 else c)

-- ASCII white space: tab to carriage return, the four separators, and the space
abbrev is_space : ℕ → Bool
is_space c = (leb 9 c && leb c 13) || (leb 28 c && leb c 32)

drop_spaces : Text → Text
drop_spaces [] = []
drop_spaces (c ∷ s) = elim (is_space c) [ true ↦ drop_spaces s | false ↦ c ∷ s ]

-- a text without the white space at its end
trim_end : Text → Text
trim_end [] = []
trim_end (c ∷ s) = elim (trim_end s) [ [] ↦ if is_space c then [] else c ∷ [] | d ∷ r ↦ c ∷ d ∷ r ]

-- `str.strip`
unfoldable pub strip : Text → Text
unfolding drop_spaces trim_end
strip s = trim_end (drop_spaces s)

pub record OrderItem : Type 0 where
  pub id : ℕ
  pub product_id : ℕ
  pub variant_id : Option ℕ
  pub quantity : ℕ
  pub price_cents_snapshot : ℕ
  pub discount_cents : ℕ
  pub restocked_quantity : ℕ

-- `stock_released` is `stock_released_at is not None`, and `gst_order` is `is_gst_order`.
pub record Order : Type 0 where
  pub id : ℕ
  pub user_id : Option ℕ
  pub guest_token : Option ℕ
  pub guest_email : Option Text
  pub status : OrderStatus
  pub idempotency_key : ℕ
  pub request_hash : Option ℕ
  pub cart_digest : Option ℕ
  pub currency : Option Text
  pub subtotal_cents : ℕ
  pub discount_cents : ℕ
  pub coupon_id : Option ℕ
  pub shipping_cents : ℕ
  pub tax_cents : ℕ
  pub total_cents : ℕ
  pub gst_order : Bool
  pub paid_in_demo_mode : Bool
  pub stock_released : Bool
  pub items : List OrderItem
