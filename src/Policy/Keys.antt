-- ===== src/Policy/Keys.antt =====
-- backend/internal/policy/keys.go: the keys of the settings.
use pikship.Prelude.{String}

abbrev pub wallet_posture : String
wallet_posture = "wallet.posture"

abbrev pub wallet_credit_limit_inr : String
wallet_credit_limit_inr = "wallet.credit_limit_inr"

abbrev pub wallet_grace_negative_amount : String
wallet_grace_negative_amount = "wallet.grace_negative_amount_inr"

abbrev pub cod_enabled : String
cod_enabled = "cod.enabled"

abbrev pub cod_remittance_cycle_days : String
cod_remittance_cycle_days = "cod.remittance_cycle_days"

abbrev pub cod_verification_mode : String
cod_verification_mode = "cod.verification_mode"

abbrev pub cod_verification_threshold_inr : String
cod_verification_threshold_inr = "cod.verification_threshold_inr"

abbrev pub allocation_weight_cost : String
allocation_weight_cost = "allocation.weight_cost"

abbrev pub allocation_weight_speed : String
allocation_weight_speed = "allocation.weight_speed"

abbrev pub allocation_weight_reliability : String
allocation_weight_reliability = "allocation.weight_reliability"

abbrev pub allocation_weight_seller_pref : String
allocation_weight_seller_pref = "allocation.weight_seller_pref"

abbrev pub allocation_auto_book_min_score_gap : String
allocation_auto_book_min_score_gap = "allocation.auto_book_min_score_gap"

abbrev pub carriers_allowed_set : String
carriers_allowed_set = "carriers.allowed_set"

abbrev pub carriers_excluded_set : String
carriers_excluded_set = "carriers.excluded_set"

abbrev pub delivery_max_attempts : String
delivery_max_attempts = "delivery.max_attempts"

abbrev pub delivery_reattempt_window_hours : String
delivery_reattempt_window_hours = "delivery.reattempt_window_hours"

abbrev pub delivery_auto_rto_on_max : String
delivery_auto_rto_on_max = "delivery.auto_rto_on_max"

abbrev pub pricing_rate_card_ref : String
pricing_rate_card_ref = "pricing.rate_card_ref"

abbrev pub buyer_exp_brand_logo_url : String
buyer_exp_brand_logo_url = "buyer_experience.brand.logo_url"

abbrev pub buyer_exp_custom_domain : String
buyer_exp_custom_domain = "buyer_experience.custom_domain"

abbrev pub feature_insurance : String
feature_insurance = "features.insurance"

abbrev pub feature_weight_dispute_auto : String
feature_weight_dispute_auto = "features.weight_dispute_auto"

abbrev pub shipments_per_month_limit : String
shipments_per_month_limit = "limits.shipments_per_month"

abbrev pub orders_per_day_limit : String
orders_per_day_limit = "limits.orders_per_day"

abbrev pub contract_active_id : String
contract_active_id = "contract.active_id"
