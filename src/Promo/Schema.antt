-- ===== src/Promo/Schema.antt =====
-- The documents and messages of promo-collection: internal/pkg/store/models, internal/pkg/models
-- and the constants that go with them.
use promo_collection.Prelude.{String, ℤ, pos, Bool, false, List, Option}
use promo_collection.Runtime.Time.{Time, zero_time}
use promo_collection.Driver.{ObjectId, nil_id}

pub record Loans (F : Type 0) : Type 0 where
  pub loan_id : ObjectId
  pub msisdn : String
  pub total_loan_amount : ℤ
  pub guid : String
  pub service_fee : F
  pub loan_product_id : ObjectId
  pub brand_id : ObjectId
  pub availment_transaction_id : ObjectId
  pub loan_type : String
  pub created_at : Time
  pub migrated : Bool
  pub old_brand_type : String
  pub old_availment_id : ℤ
  pub old_product_id : ℤ
  pub grace_period_timestamp : Time
  pub promo_education_period_timestamp : Time
  pub education_period_timestamp : Time
  pub loan_load_period_timestamp : Time
  pub conversion_rate : F
  pub version : ℤ
  pub total_unpaid_loan : F
  pub min_collection_amount : F
  pub max_data_collection_percent : F

pub record PesoToDataConversion (F : Type 0) : Type 0 where
  pub loan_type : String
  pub conversion_rate : F

pub record SystemLevelRules (F : Type 0) : Type 0 where
  pub id : ObjectId
  pub migrated : Bool
  pub credit_score_threshold : F
  pub overdue_threshold : ℤ
  pub updated_at : Time
  pub education_period : ℤ
  pub deferment_period : ℤ
  pub reserved_amount_for_partial_collection : F
  pub partial_collection_enabled : Bool
  pub max_data_collection_percent : F
  pub peso_to_data_conversion_matrix : List (PesoToDataConversion F)
  pub min_collection_amount : F
  pub promo_collection_enabled : Bool
  pub wallet_exclusion_list : List String
  pub promo_education_period : ℤ
  pub grace_period : ℤ
  pub loan_load_period : ℤ

pub record CollectionTransactionsInProgress : Type 0 where
  pub id : ObjectId
  pub msisdn : String
  pub created_at : Time

pub record WhitelistedForDataCollection : Type 0 where
  pub id : ObjectId
  pub msisdn : String
  pub brand : String
  pub active : Bool

-- `validTo` is null in the current document of a loan.
pub record UnpaidLoans : Type 0 where
  pub id : ObjectId
  pub last_collection_id : ObjectId
  pub version : ℤ
  pub valid_to : Option Time
  pub unpaid_service_fee : ℤ
  pub migrated : Bool
  pub valid_from : Time
  pub total_loan_amount : ℤ
  pub total_unpaid_amount : ℤ
  pub last_collection_date_time : Time
  pub loan_id : ObjectId
  pub due_date : Time

pub record Messages : Type 0 where
  pub id : ObjectId
  pub pattern_id : ℤ
  pub event : String
  pub parameters : List String
  pub brand_id : ObjectId

pub record LoanProducts : Type 0 where
  pub id : ObjectId
  pub name : String
  pub is_scored_product : Bool

pub record SkipTimestamps : Type 0 where
  pub grace_period_timestamp : Time
  pub promo_education_period_timestamp : Time
  pub loan_load_period_timestamp : Time

-- The Kafka event. Of its fields the service uses these; the others are only logged.
pub record PromoEventMessage : Type 0 where
  pub id : ℤ
  pub msisdn : ℤ
  pub svc_id : ℤ
  pub denom : String
  pub wallet_amount : ℤ
  pub wallet_keyword : String

pub record NotificationParameter : Type 0 where
  pub name : String
  pub value : String

pub record PubSubNotificationMessage : Type 0 where
  pub msisdn : String
  pub sms_db_event_name : String
  pub notif_parameters : List NotificationParameter
  pub pattern_id : ℤ

pub record PublishToWorkerMsgFormat (F : Type 0) : Type 0 where
  pub msisdn : String
  pub unit : String
  pub is_roll_back : Bool
  pub duration : String
  pub channel : String
  pub svc_id : ℤ
  pub denom : String
  pub wallet_keyword : String
  pub wallet_amount : String
  pub svc_denom_combined : String
  pub kafka_id : ℤ
  pub collection_type : String
  pub ageing : ℤ
  pub availment_transaction_id : ObjectId
  pub loan_id : ObjectId
  pub unpaid_loan_id : ObjectId
  pub service_fee : F
  pub total_loan_amount_in_peso : F
  pub total_unpaid_amount_in_peso : F
  pub amount_to_be_deducted_in_peso : F
  pub unpaid_service_fee : F
  pub data_to_be_deducted : F
  pub last_collection_date_time : Time
  pub last_collection_id : ObjectId
  pub start_date : Time
  pub brand_id : ObjectId
  pub loan_product_id : ObjectId
  pub loan_type : String
  pub data_collection_request_trace_id : String
  pub guid : String
  pub version : ℤ

-- Constants of internal/pkg/consts.
abbrev pub loan_type_load : String
loan_type_load = "LOAD SKU"

abbrev pub loan_type_scored : String
loan_type_scored = "SCORED"

abbrev pub loan_type_unscored : String
loan_type_unscored = "UNSCORED"

abbrev pub education_period_spiel : String
education_period_spiel = "PromoPurchaseSuccessWithinPromoEducPeriod"

abbrev pub full_collection : String
full_collection = "F"

abbrev pub partial_collection : String
partial_collection = "P"

-- The zero value of the struct.
abbrev pub empty_unpaid : UnpaidLoans
empty_unpaid = record {
  id = nil_id;
  last_collection_id = nil_id;
  version = pos 0;
  valid_to = Option.none;
  unpaid_service_fee = pos 0;
  migrated = false;
  valid_from = zero_time;
  total_loan_amount = pos 0;
  total_unpaid_amount = pos 0;
  last_collection_date_time = zero_time;
  loan_id = nil_id;
  due_date = zero_time;
}
