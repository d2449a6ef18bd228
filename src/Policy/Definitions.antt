-- ===== src/Policy/Definitions.antt =====
-- backend/internal/policy/definitions.go: the registry of the settings. Descriptions and versions
-- are left out.
use pikship.Prelude.{
  String, Bool, true, false, Option, none, some, List, [], ◌∷◌, str_eq, if◌then◌else◌,
}
use pikship.Prelude.Int.{pos}
use pikship.Prelude.Table.{select}
use pikship.Policy.Values.{
  Value, number, text, boolean, texts, ValueType, int64_type, paise_type, string_type, bool_type,
  string_set_type,
}
use pikship.Policy.Keys.{
  wallet_posture, wallet_credit_limit_inr, wallet_grace_negative_amount, cod_enabled,
  cod_remittance_cycle_days, cod_verification_mode, cod_verification_threshold_inr,
  allocation_weight_cost, allocation_weight_speed, allocation_weight_reliability,
  allocation_weight_seller_pref, allocation_auto_book_min_score_gap, carriers_allowed_set,
  carriers_excluded_set, delivery_max_attempts, delivery_reattempt_window_hours,
  delivery_auto_rto_on_max, pricing_rate_card_ref, buyer_exp_brand_logo_url,
  buyer_exp_custom_domain, feature_insurance, feature_weight_dispute_auto,
  shipments_per_month_limit, orders_per_day_limit, contract_active_id,
}

-- core/types.go.
abbrev pub small_medium : String
small_medium = "small_business"

abbrev pub mid_market : String
mid_market = "mid_market"

abbrev pub enterprise : String
enterprise = "enterprise"

pub record Definition : Type 0 where
  pub key : String
  pub value_type : ValueType
  pub default_global : Value
  pub defaults_by_type : List (String × Value)
  pub lock_capable : Bool
  pub override_allowed : Bool
  pub audit_on_read : Bool

abbrev pub define :
    String → ValueType → Value → List (String × Value) → Bool → Bool → Bool → Definition
define key value_type default_global defaults_by_type lock_capable override_allowed audit_on_read =
    record {
      key = key;
      value_type = value_type;
      default_global = default_global;
      defaults_by_type = defaults_by_type;
      lock_capable = lock_capable;
      override_allowed = override_allowed;
      audit_on_read = audit_on_read;
    }

unfoldable pub definitions : List Definition
definitions =
    define wallet_posture string_type (text "prepaid_only")
      ((mid_market, text "hybrid") ∷ (enterprise, text "credit_only") ∷ []) true true false
    ∷ define wallet_credit_limit_inr paise_type (number (pos 0))
        ((mid_market, number (pos 10_000_000)) ∷ (enterprise, number (pos 50_000_000)) ∷ []) true
        true true
    ∷ define wallet_grace_negative_amount paise_type (number (pos 50_000)) [] true true false
    ∷ define cod_enabled bool_type (boolean false)
        ((mid_market, boolean true) ∷ (enterprise, boolean true) ∷ []) true true false
    ∷ define cod_remittance_cycle_days int64_type (number (pos 5))
        ((mid_market, number (pos 3)) ∷ (enterprise, number (pos 2)) ∷ []) true true false
    ∷ define cod_verification_mode string_type (text "above_x") [] false false false
    ∷ define cod_verification_threshold_inr paise_type (number (pos 50_000)) [] false false false
    ∷ define allocation_weight_cost int64_type (number (pos 100)) [] false false false
    ∷ define allocation_weight_speed int64_type (number (pos 50)) [] false false false
    ∷ define allocation_weight_reliability int64_type (number (pos 70)) [] false false false
    ∷ define allocation_weight_seller_pref int64_type (number (pos 30)) [] false false false
    ∷ define allocation_auto_book_min_score_gap int64_type (number (pos 500)) [] false false false
    ∷ define carriers_allowed_set string_set_type
        (texts ("d0d1f1e7-0000-4000-8000-000000000001" ∷ []))
        ((mid_market, texts ("d0d1f1e7-0000-4000-8000-000000000001" ∷ []))
          ∷ (enterprise, texts ("d0d1f1e7-0000-4000-8000-000000000001" ∷ []))
          ∷ [])
        false false false
    ∷ define carriers_excluded_set string_set_type (texts []) [] false false false
    ∷ define delivery_max_attempts int64_type (number (pos 2)) [] true true false
    ∷ define delivery_reattempt_window_hours int64_type (number (pos 24)) [] true true false
    ∷ define delivery_auto_rto_on_max bool_type (boolean true) [] true true false
    ∷ define pricing_rate_card_ref string_type (text "") [] false false false
    ∷ define buyer_exp_brand_logo_url string_type (text "") [] false false false
    ∷ define buyer_exp_custom_domain string_type (text "") [] false false false
    ∷ define feature_insurance bool_type (boolean false) [] true true false
    ∷ define feature_weight_dispute_auto bool_type (boolean false)
        ((mid_market, boolean true) ∷ (enterprise, boolean true) ∷ []) true true false
    ∷ define shipments_per_month_limit int64_type (number (pos 500))
        ((mid_market, number (pos 10_000)) ∷ (enterprise, number (pos 0)) ∷ []) true true false
    ∷ define orders_per_day_limit int64_type (number (pos 200))
        ((mid_market, number (pos 2_000)) ∷ (enterprise, number (pos 0)) ∷ []) true true false
    ∷ define contract_active_id string_type (text "") [] false true false
    ∷ []

abbrev pub has_key : String → Definition → Bool
has_key key d = str_eq d.key key

unfoldable pub definition_by_key : String → Option Definition
definition_by_key key = select (has_key key) definitions

abbrev pub type_default : String → List (String × Value) → Option Value
type_default t [] = none
type_default t ((u, v) ∷ rest) = if str_eq t u then some v else type_default t rest
