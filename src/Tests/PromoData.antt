-- ===== src/Tests/PromoData.antt =====
-- A loan of 100 pesos at 2 MB to the peso, taken in 2026; a promo of 150 MB of which half may be
-- taken; and worlds with these documents.
use promo_collection.Prelude.{◌*◌, true, false, none, [], ◌∷◌, ℤ, pos}
use promo_collection.Runtime.Time.{Time, day, zero_time}
use promo_collection.Promo.Schema.{
  Loans, SystemLevelRules, UnpaidLoans, Messages, LoanProducts, PromoEventMessage, empty_unpaid,
}
use promo_collection.Tests.PromoWorld.{World}

abbrev pub today : Time
today = 740_000 * day

abbrev pub loan : Loans ℤ
loan = record {
  loan_id = 7;
  msisdn = "639171234567";
  total_loan_amount = pos 100;
  guid = "g-7";
  service_fee = pos 10;
  loan_product_id = 3;
  brand_id = 2;
  availment_transaction_id = 5;
  loan_type = "PROMO SKU";
  created_at = 739_990 * day;
  migrated = false;
  old_brand_type = "";
  old_availment_id = pos 0;
  old_product_id = pos 0;
  grace_period_timestamp = zero_time;
  promo_education_period_timestamp = 739_995 * day;
  education_period_timestamp = zero_time;
  loan_load_period_timestamp = zero_time;
  conversion_rate = pos 2;
  version = pos 1;
  total_unpaid_loan = pos 100;
  min_collection_amount = pos 10;
  max_data_collection_percent = pos 1;
}

abbrev pub rules : SystemLevelRules ℤ
rules = record {
  id = 1;
  migrated = false;
  credit_score_threshold = pos 0;
  overdue_threshold = pos 0;
  updated_at = zero_time;
  education_period = pos 0;
  deferment_period = pos 0;
  reserved_amount_for_partial_collection = pos 0;
  partial_collection_enabled = true;
  max_data_collection_percent = pos 1;
  peso_to_data_conversion_matrix =
      record { loan_type = "SCORED"; conversion_rate = pos 2 }
      ∷ record { loan_type = " promo sku "; conversion_rate = pos 3 }
      ∷ [];
  min_collection_amount = pos 10;
  promo_collection_enabled = true;
  wallet_exclusion_list = [];
  promo_education_period = pos 20;
  grace_period = pos 24;
  loan_load_period = pos 5;
}

abbrev pub unpaid : UnpaidLoans
unpaid = record empty_unpaid {
  id = 9;
  version = pos 1;
  unpaid_service_fee = pos 10;
  total_loan_amount = pos 100;
  total_unpaid_amount = pos 100;
  loan_id = 7;
}

abbrev pub product : LoanProducts
product = record { id = 3; name = "GoSURF50"; is_scored_product = true }

abbrev pub message : Messages
message = record {
  id = 4;
  pattern_id = pos 77;
  event = "PromoPurchaseSuccessWithinPromoEducPeriod";
  parameters = "SKU_NAME" ∷ "REMAINING_LOAN_AMOUNT" ∷ [];
  brand_id = 2;
}

abbrev pub purchase : PromoEventMessage
purchase = record {
  id = pos 11;
  msisdn = pos 639171234567;
  svc_id = pos 42;
  denom = "D50";
  wallet_amount = pos 150;
  wallet_keyword = "GOSURF";
}

abbrev pub world : World
world = record {
  clock = today;
  rules = rules ∷ [];
  loans = loan ∷ [];
  unpaid_loans = unpaid ∷ [];
  loan_products = product ∷ [];
  messages = message ∷ [];
  whitelist = [];
  in_progress = [];
  redis = λ k. none;
  requests = [];
  notifications = [];
}
