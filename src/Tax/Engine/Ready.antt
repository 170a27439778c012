-- ===== src/Tax/Engine/Ready.antt =====
-- The readiness checks of the GST engine against what they stand for, and its result.
use fast_api_e_commerce.Prelude.{
  ℕ, suc, true, Option, none, some, List, [], ◌∷◌, ◌++◌, ok, ◌≡◌, ◌↔◌, inl, inr, refl, arith,
  length, Option-cases,
}
use fast_api_e_commerce.Orders.Types.{Text, same_text}
use fast_api_e_commerce.Tax.Gst.{GstResult}
use fast_api_e_commerce.Tax.Invoice.{calculate}
use fast_api_e_commerce.Tax.States.{resolve_state}
use fast_api_e_commerce.Tax.Engine.{
  Master, TaxLine, TaxRule, TaxSettings, Registration, TaxRequest, Blocker, is_approved,
  settings_covering, get_registration, rules_covering, is_valid_on, config_of, evaluate_config,
  classification_approved, is_known, check_rules, check_line, evaluate_readiness, calc_lines,
  is_india, supply, calculate_after, calculate_gst,
}

-- the lines whose classification is approved and has exactly one rule in force, of a known treatment
pub LineReady : Master → ℕ → TaxLine → Type 0
LineReady m as_of l =
    (id : ℕ) × (l.classification_id ≡ some id)
    × (classification_approved m id ≡ true)
    × (r : TaxRule) × (rules_covering m id as_of ≡ r ∷ [])
    × (is_known r.treatment ≡ true)

pub AllReady : Master → ℕ → List TaxLine → Type 0
AllReady m as_of [] = Unit
AllReady m as_of (l ∷ ls) = LineReady m as_of l × AllReady m as_of ls

check_rules-none :
    (rs : List TaxRule)
    → check_rules rs ≡ none
    → (r : TaxRule) × (rs ≡ r ∷ []) × (is_known r.treatment ≡ true)
unfolding check_rules
check_rules-none [] e = absurd (ground arith)
check_rules-none (r ∷ []) e = (r, refl, ground arith)
check_rules-none (r ∷ s ∷ rs) e = absurd (ground arith)

check_line-none :
    (m : Master) (as_of : ℕ) (l : TaxLine) → check_line m as_of l ≡ none → LineReady m as_of l
unfolding check_line LineReady
check_line-none m as_of l e = elim (Option-cases l.classification_id) [
  | inl h ↦ absurd (ground arith)
  | inr (id, h) ↦
      let (r, er, known) = check_rules-none (rules_covering m id as_of) (ground arith) in
      (id, h, ground arith, r, er, known)
]

LineReady-check_line :
    (m : Master) (as_of : ℕ) (l : TaxLine) → LineReady m as_of l → check_line m as_of l ≡ none
unfolding check_line check_rules LineReady
LineReady-check_line m as_of l (id, h, a, r, er, known) = ground arith

-- There is no blocker exactly when every line has an approved classification with one approved rule in
-- force, of a known treatment.
pub evaluate_readiness_iff :
    (m : Master) (ls : List TaxLine) (as_of : ℕ)
    → (evaluate_readiness m ls as_of ≡ []) ↔ AllReady m as_of ls
unfolding evaluate_readiness AllReady
evaluate_readiness_iff m [] as_of = (λ _. tt, λ _. refl)
evaluate_readiness_iff m (l ∷ ls) as_of =
    let (to, from) = evaluate_readiness_iff m ls as_of in
    (
      λ e. (check_line-none m as_of l (ground arith), to (ground arith)),
      λ (h, t). ground (arith, LineReady-check_line m as_of l h, from t),
    )

-- the one configuration on that date, under its approved and valid registration
pub ConfigReady : Master → ℕ → TaxSettings → Registration → Type 0
ConfigReady m as_of c r =
    (settings_covering m as_of ≡ c ∷ [])
    × (get_registration m c.registration_id ≡ some r)
    × (is_approved r.status ≡ true)
    × (is_valid_on r as_of ≡ true)

config_of-ok :
    (m : Master) (as_of : ℕ) (ss : List TaxSettings) (c : Option TaxSettings)
    → config_of m as_of ss ≡ (c, [])
    → (s : TaxSettings) × (r : Registration) × (c ≡ some s)
      × (ss ≡ s ∷ [])
      × (get_registration m s.registration_id ≡ some r)
      × (is_approved r.status ≡ true)
      × (is_valid_on r as_of ≡ true)
unfolding config_of
config_of-ok m as_of [] c e = absurd (ground arith)
config_of-ok m as_of (s ∷ []) c e = elim (Option-cases (get_registration m s.registration_id)) [
  | inl h ↦ absurd (ground arith)
  | inr (r, h) ↦ (s, r, ground arith, refl, h, ground arith, ground arith)
]
config_of-ok m as_of (s ∷ t ∷ ss) c e = absurd (ground arith)

-- every ready line becomes a line of the calculation
length-calc_lines :
    (m : Master) (as_of index : ℕ) (ls : List TaxLine)
    → AllReady m as_of ls
    → length (calc_lines m as_of index ls) ≡ length ls
unfolding calc_lines AllReady LineReady
length-calc_lines m as_of index [] h = refl
length-calc_lines m as_of index (l ∷ ls) ((id, h, a, r, er, known), t) =
    ground (arith, length-calc_lines m as_of (suc index) ls t)

supply-ok :
    (m : Master) (c : TaxSettings) (r : Registration) (request : TaxRequest) (result : GstResult)
    → supply m c r request ≡ ok result
    → (place : Text) × (resolve_state request.delivery_state ≡ some place)
      × (is_india request.delivery_country ≡ true)
      × (calculate
            (calc_lines m request.as_of 0 request.lines)
            request.shipping_paise
            (same_text place r.state_code)
            c.pricing_mode
            c.shipping_tax_treatment
            c.rounding_policy
          ≡ some result)
unfolding supply
supply-ok m c r request result e = elim (Option-cases (resolve_state request.delivery_state)) [
  | inl h ↦ absurd (ground arith)
  | inr (place, h) ↦ (place, h, ground arith, ground arith)
]

++-none : {A : Type 0} (xs ys : List A) → xs ++ ys ≡ [] → (xs ≡ []) × (ys ≡ [])
++-none [] ys e = (refl, e)
++-none (x ∷ xs) ys e = absurd (ground arith)

-- what a successful calculation rests on
unfoldable pub GstGrounds : Master → TaxRequest → GstResult → Type 0
GstGrounds m request result =
    (c : TaxSettings) × (r : Registration) × ConfigReady m request.as_of c r
    × AllReady m request.as_of request.lines
    × (is_india request.delivery_country ≡ true)
    × (place : Text) × (resolve_state request.delivery_state ≡ some place)
    × (length (calc_lines m request.as_of 0 request.lines) ≡ length request.lines)
    × (calculate (calc_lines m request.as_of 0 request.lines) request.shipping_paise
          (same_text place r.state_code) c.pricing_mode c.shipping_tax_treatment c.rounding_policy
        ≡ some result)

calculate_after-no_blocker :
    (m : Master) (request : TaxRequest) (config : Option TaxSettings) (bs : List Blocker)
    (result : GstResult)
    → calculate_after m request config bs ≡ ok result
    → bs ≡ []
unfolding calculate_after
calculate_after-no_blocker m request config [] result h = refl
calculate_after-no_blocker m request config (b ∷ bs) result h = absurd (ground arith)

calculate_after-supply :
    (m : Master) (request : TaxRequest) (config : Option TaxSettings) (bs : List Blocker)
    (result : GstResult) (c : TaxSettings) (r : Registration)
    → calculate_after m request config bs ≡ ok result
    → bs ≡ []
    → config ≡ some c
    → get_registration m c.registration_id ≡ some r
    → supply m c r request ≡ ok result
unfolding calculate_after
calculate_after-supply m request config bs result c r h eb ec er = ground arith

calculate_after_sound :
    (m : Master) (request : TaxRequest) (config : Option TaxSettings) (blockers : List Blocker)
    (result : GstResult)
    → config_of m request.as_of (settings_covering m request.as_of) ≡ (config, blockers)
    → calculate_after m request config
        (blockers ++ evaluate_readiness m request.lines request.as_of)
      ≡ ok result
    → GstGrounds m request result
unfolding GstGrounds ConfigReady
calculate_after_sound m request config blockers result e h =
    let nb = calculate_after-no_blocker m request config _ result h in
    let (nc, nl) = ++-none blockers _ nb in
    let (c, r, ec, es, er, ha, hv) = config_of-ok m request.as_of _ config (rw nc at e) in
    let (place, ep, india, run) =
      supply-ok m c r request result
        (calculate_after-supply m request config _ result c r h nb ec er) in
    let ready = (evaluate_readiness_iff m request.lines request.as_of).0 nl in
    (
      c,
      r,
      (es, er, ha, hv),
      ready,
      india,
      place,
      ep,
      length-calc_lines m request.as_of 0 request.lines ready,
      run,
    )

-- If the GST engine returns a result, then one approved configuration is in force, under an approved and
-- valid registration, every line is ready, the delivery is in a known state of India, and the result is
-- that of the calculation with all the lines.
pub calculate_gst_sound :
    (m : Master) (request : TaxRequest) (result : GstResult)
    → calculate_gst m request ≡ ok result
    → GstGrounds m request result
unfolding calculate_gst evaluate_config
calculate_gst_sound m request result e = calculate_after_sound m request _ _ result refl e

-- a result has a place of supply
pub calculate_gst_state :
    (m : Master) (request : TaxRequest) (result : GstResult)
    → calculate_gst m request ≡ ok result
    → (place : Text) × (resolve_state request.delivery_state ≡ some place)
unfolding GstGrounds
calculate_gst_state m request result e =
    let (c, r, _, _, _, place, ep, _, _) = calculate_gst_sound m request result e in (place, ep)
