-- ===== src/Tax/Engine.antt =====
-- app/modules/tax/engine.py: the readiness checks over the tax master, and the engines that checkout
-- asks. The rows are those of app/modules/tax/models/tax.py; dates are numbers of days. What an engine
-- raises is an error value. Of a result's snapshot only the engine's name is kept.
pub mod Ready
pub mod Examples
use fast_api_e_commerce.Prelude.{
  ℕ, suc, ◌+◌, ◌-◌, ◌*◌, ◌^◌, Bool, true, false, not, ◌&&◌, ◌||◌, Option, none, some, List, [], ◌∷◌,
  ◌++◌, Result, ok, err, ◌>>=◌, ◌>>◌, raise_if, ltb, leb, ◌==◌, if◌then◌else◌, find, select,
}
use fast_api_e_commerce.Orders.Types.{Text, same_text, lower}
use fast_api_e_commerce.Tax.Gst.{
  Treatment, unknown_treatment, Rates, CalcLine, GstResult, PricingMode, ShippingTreatment,
  RoundingPolicy, half_up,
}
use fast_api_e_commerce.Tax.Invoice.{calculate}
use fast_api_e_commerce.Tax.States.{resolve_state}

pub data RecordStatus : Type 0 where
  draft approved retired : RecordStatus

pub record Classification : Type 0 where
  pub id : ℕ
  pub status : RecordStatus

pub record TaxRule : Type 0 where
  pub classification_id : ℕ
  pub treatment : Treatment
  pub rates : Rates
  pub effective_from : ℕ
  pub effective_to : Option ℕ
  pub status : RecordStatus

pub record Registration : Type 0 where
  pub id : ℕ
  pub state_code : Text
  pub valid_from : ℕ
  pub valid_to : Option ℕ
  pub status : RecordStatus

pub record TaxSettings : Type 0 where
  pub pricing_mode : PricingMode
  pub shipping_tax_treatment : ShippingTreatment
  pub rounding_policy : RoundingPolicy
  pub registration_id : ℕ
  pub effective_from : ℕ
  pub effective_to : Option ℕ
  pub status : RecordStatus

pub record Master : Type 0 where
  pub classifications : List Classification
  pub rules : List TaxRule
  pub registrations : List Registration
  pub settings : List TaxSettings

pub record TaxLine : Type 0 where
  pub product_id : ℕ
  pub quantity : ℕ
  pub unit_price_paise : ℕ
  pub classification_id : Option ℕ
  pub discount_paise : ℕ

pub record TaxRequest : Type 0 where
  pub lines : List TaxLine
  pub subtotal_paise : ℕ
  pub shipping_paise : ℕ
  pub as_of : ℕ
  pub delivery_state : Option Text
  pub delivery_country : Option Text

pub data Reason : Type 0 where
  missing_classification unapproved_classification no_applicable_rule ambiguous_rule : Reason
  unknown_rule_treatment no_approved_settings ambiguous_settings registration_not_approved : Reason
  registration_not_valid_on_date : Reason

-- the product, none for the configuration, and the reason
abbrev pub Blocker : Type 0
Blocker = Option ℕ × Reason

-- `value_error` is that of `calculate` on an unknown configuration.
pub data TaxError : Type 0 where
  tax_not_configured country_not_supported value_error : TaxError
  state_unknown : Option Text → TaxError
  blocked : List Blocker → TaxError

abbrev pub is_approved : RecordStatus → Bool
is_approved approved = true
is_approved _ = false

-- `as_of` lies in [start, end), an end that is missing being open
abbrev pub covers : ℕ → Option ℕ → ℕ → Bool
covers start none as_of = leb start as_of
covers start (some end) as_of = leb start as_of && ltb as_of end

-- `repository.approved_settings_covering`
abbrev pub settings_covering : Master → ℕ → List TaxSettings
settings_covering m as_of =
    select (λ s. is_approved s.status && covers s.effective_from s.effective_to as_of) m.settings

-- `repository.get_registration`
abbrev pub get_registration : Master → ℕ → Option Registration
get_registration m id = find (λ r. r.id == id) m.registrations

-- `repository.approved_rules_covering`, for one classification
abbrev pub rules_covering : Master → ℕ → ℕ → List TaxRule
rules_covering m id as_of =
    select
      (λ r.
        r.classification_id == id
        && is_approved r.status
        && covers r.effective_from r.effective_to as_of)
      m.rules

abbrev pub is_valid_on : Registration → ℕ → Bool
is_valid_on r as_of = covers r.valid_from r.valid_to as_of

-- what stands in the way of the registration of a configuration
unfoldable pub check_registration : Option Registration → ℕ → List Blocker
check_registration none as_of = (none, registration_not_approved) ∷ []
check_registration (some r) as_of =
    if not (is_approved r.status)
    then (none, registration_not_approved) ∷ []
    else if not (is_valid_on r as_of)
    then (none, registration_not_valid_on_date) ∷ []
    else []

-- `evaluate_config`, on the settings that cover the date
unfoldable pub config_of : Master → ℕ → List TaxSettings → Option TaxSettings × List Blocker
unfolding check_registration
config_of m as_of [] = (none, (none, no_approved_settings) ∷ [])
config_of m as_of (s ∷ []) =
    (some s, check_registration (get_registration m s.registration_id) as_of)
config_of m as_of (_ ∷ _ ∷ _) = (none, (none, ambiguous_settings) ∷ [])

unfoldable pub evaluate_config : Master → ℕ → Option TaxSettings × List Blocker
unfolding config_of
evaluate_config m as_of = config_of m as_of (settings_covering m as_of)

-- `statuses.get(id) == "approved"`
abbrev pub classification_approved : Master → ℕ → Bool
classification_approved m id = elim (find (λ c. c.id == id) m.classifications) [
  | none ↦ false
  | some c ↦ is_approved c.status
]

abbrev pub is_known : Treatment → Bool
is_known unknown_treatment = false
is_known _ = true

-- the rules that cover the date, for an approved classification
unfoldable pub check_rules : List TaxRule → Option Reason
check_rules [] = some no_applicable_rule
check_rules (r ∷ []) = if is_known r.treatment then none else some unknown_rule_treatment
check_rules (_ ∷ _ ∷ _) = some ambiguous_rule

-- the reason why one line's tax cannot be determined
unfoldable pub check_line : Master → ℕ → TaxLine → Option Reason
unfolding check_rules
check_line m as_of line = elim line.classification_id [
  | none ↦ some missing_classification
  | some id ↦
      if classification_approved m id
      then check_rules (rules_covering m id as_of)
      else some unapproved_classification
]

unfoldable pub evaluate_readiness : Master → List TaxLine → ℕ → List Blocker
unfolding check_line
evaluate_readiness m [] as_of = []
evaluate_readiness m (l ∷ ls) as_of = elim (check_line m as_of l) [
  | none ↦ evaluate_readiness m ls as_of
  | some reason ↦ (some l.product_id, reason) ∷ evaluate_readiness m ls as_of
]

-- The flat rate is its first number over ten to the second, in percent.
pub data Engine : Type 0 where
  not_configured : Engine
  flat_interim : ℕ → ℕ → Engine
  gst : Master → Engine

abbrev pub is_configured : Engine → Bool
is_configured not_configured = false
is_configured _ = true

abbrev pub rule_of : Master → ℕ → TaxLine → Option TaxRule
rule_of m as_of line = elim line.classification_id [
  | none ↦ none
  | some id ↦ elim (rules_covering m id as_of) [ [] ↦ none | r ∷ _ ↦ some r ]
]

-- `calc_lines`; a line without a rule never comes here. A line's discount is at most its price times
-- its quantity (a CHECK of the order's items), so the difference is not negative.
unfoldable pub calc_lines : Master → ℕ → ℕ → List TaxLine → List CalcLine
calc_lines m as_of index [] = []
calc_lines m as_of index (l ∷ ls) = elim (rule_of m as_of l) [
  | none ↦ calc_lines m as_of (suc index) ls
  | some r ↦
      record {
        key = index;
        value_paise = l.unit_price_paise * l.quantity - l.discount_paise;
        treatment = r.treatment;
        rates = r.rates;
      }
      ∷ calc_lines m as_of (suc index) ls
]

abbrev india : Text
india = b'i' ∷ b'n' ∷ []

abbrev pub is_india : Option Text → Bool
is_india none = false
is_india (some country) = same_text (lower country) india

-- what follows the readiness checks, with the configuration and its registration
unfoldable pub supply : Master → TaxSettings → Registration → TaxRequest → Result TaxError GstResult
supply m config registration request = do
  raise_if (not (is_india request.delivery_country)) country_not_supported
  elim (resolve_state request.delivery_state) [
    | none ↦ err (state_unknown request.delivery_state)
    | some place ↦
        elim (calculate (calc_lines m request.as_of 0 request.lines) request.shipping_paise
          (same_text place registration.state_code) config.pricing_mode
          config.shipping_tax_treatment config.rounding_policy) [
            | none ↦ err value_error
            | some result ↦ ok result
          ]
  ]

-- `calculate_gst` once the blockers of the configuration and of the lines are known
unfoldable pub calculate_after :
    Master → TaxRequest → Option TaxSettings → List Blocker → Result TaxError GstResult
calculate_after m request config (b ∷ bs) = err (blocked (b ∷ bs))
calculate_after m request none [] = err value_error
calculate_after m request (some c) [] = elim (get_registration m c.registration_id) [
  | none ↦ err value_error
  | some registration ↦ supply m c registration request
]

-- `GstTaxEngine.calculate`
unfoldable pub calculate_gst : Master → TaxRequest → Result TaxError GstResult
calculate_gst m request =
    let (config, blockers) = evaluate_config m request.as_of in
    calculate_after m request config (blockers ++ evaluate_readiness m request.lines request.as_of)

-- `calculate` of an engine: the tax that is added to the price
unfoldable pub calculate_tax : Engine → TaxRequest → Result TaxError ℕ
unfolding calculate_gst half_up
calculate_tax not_configured request = err tax_not_configured
calculate_tax (flat_interim rate scale) request =
    ok (half_up (request.subtotal_paise * rate) (100 * 10 ^ scale))
calculate_tax (gst m) request = calculate_gst m request >>= λ result. ok result.tax_added_paise
