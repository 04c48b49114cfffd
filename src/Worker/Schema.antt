-- ===== src/Worker/Schema.antt =====
-- The documents and messages of promo-collection-worker: internal/pkg/models,
-- internal/pkg/store/models, internal/pkg/pubsub and the constants of internal/pkg/consts.
use promo_collection.Prelude.{String, ℤ, Bool, List, Option}
use promo_collection.Runtime.Time.{Time}
use promo_collection.Driver.{ObjectId}

-- The request of promo-collection, with the time at which it was published.
pub record PromoCollectionPublishedMessage (F : Type 0) : Type 0 where
  pub msisdn : String
  pub unit : String
  pub is_roll_back : Bool
  pub duration : String
  pub channel : String
  pub svc_id : ℤ
  pub denom : String
  pub wallet_keyword : String
  pub wallet_amount : String
  pub svc_denom_combined : String
  pub kafka_id : ℤ
  pub collection_type : String
  pub ageing : ℤ
  pub availment_transaction_id : ObjectId
  pub loan_id : ObjectId
  pub unpaid_loan_id : ObjectId
  pub service_fee : F
  pub total_loan_amount_in_peso : F
  pub total_unpaid_amount_in_peso : F
  pub amount_to_be_deducted_in_peso : F
  pub unpaid_service_fee : F
  pub data_to_be_deducted : F
  pub last_collection_date_time : Time
  pub last_collection_id : ObjectId
  pub start_date : Time
  pub brand_id : ObjectId
  pub loan_product_id : ObjectId
  pub loan_type : String
  pub data_collection_request_trace_id : String
  pub guid : String
  pub version : ℤ
  pub publish_time : Time

pub record KafkaMessageForPublishing (F : Type 0) : Type 0 where
  pub transaction_id : String
  pub availment_id : String
  pub collection_date_time : Time
  pub method : String
  pub loan_ageing : ℤ
  pub collected_loan_amount : F
  pub collected_service_fee : F
  pub unpaid_loan_amount : F
  pub unpaid_service_fee : F
  pub result : String
  pub collection_error_text : String
  pub msisdn : String
  pub collection_category : String
  pub payment_channel : String
  pub collection_type : String
  pub collected_amount : F
  pub total_unpaid : F
  pub token_payment_id : String
  pub data_collected : F

pub record Collections (F : Type 0) : Type 0 where
  pub id : ObjectId
  pub msisdn : String
  pub ageing : ℤ
  pub availment_transaction_id : ObjectId
  pub collected_amount : F
  pub collection_category : String
  pub collection_type : String
  pub created_at : Time
  pub error_text : String
  pub loan_id : ObjectId
  pub method : String
  pub payment_channel : String
  pub published_to_kafka : Bool
  pub result : Bool
  pub service_fee : F
  pub token_payment_id : String
  pub total_collected_amount : F
  pub unpaid_loan_id : ObjectId
  pub total_unpaid : F
  pub error_code : String
  pub unpaid_service_fee : F
  pub kafka_transaction_id : String
  pub data_collected : F
  pub transaction_id : String
  pub collected_service_fee : F
  pub unpaid_loan_amount : F

-- The documents of UnpaidLoans as the worker writes them (`bson.M`): a key that may be absent is an
-- option, and so is `validTo`, which may be null. A new document's `id` is set by the database.
pub record UnpaidLoanEntry (F : Type 0) : Type 0 where
  pub id : ObjectId
  pub loan_id : ObjectId
  pub total_unpaid_amount : F
  pub valid_from : Time
  pub valid_to : Option Time
  pub version : ℤ
  pub migrated : Bool
  pub total_loan_amount : Option F
  pub last_collection_id : Option ObjectId
  pub last_collection_date_time : Option Time
  pub unpaid_service_fee : Option F

-- The documents of ClosedLoans as the worker writes them.
pub record ClosedLoanEntry (F : Type 0) : Type 0 where
  pub guid : String
  pub msisdn : String
  pub loan_id : ObjectId
  pub availment_transaction_id : ObjectId
  pub brand_id : ObjectId
  pub loan_product_id : ObjectId
  pub loan_type : String
  pub start_date : Time
  pub end_date : Time
  pub status : String
  pub total_collected_amount : F
  pub total_loan_amount : F
  pub total_written_off_or_churned_amount : F
  pub write_off_reason : String

-- The struct `Loans`: of its fields the worker uses these.
pub record Loans (F : Type 0) : Type 0 where
  pub loan_id : ObjectId
  pub msisdn : String
  pub total_loan_amount : ℤ
  pub grace_period_timestamp : Time
  pub total_unpaid_loan : F

-- The struct `SystemLevelRules`: success handling reads only the grace period, in hours.
pub record SystemLevelRules : Type 0 where
  pub grace_period : ℤ

pub record CollectionTransactionsInProgress : Type 0 where
  pub id : ObjectId
  pub msisdn : String
  pub created_at : Time

pub record Messages : Type 0 where
  pub pattern_id : ℤ
  pub event : String
  pub parameters : List String
  pub brand_id : ObjectId

pub record LoanProducts : Type 0 where
  pub id : ObjectId
  pub name : String

-- The map that is written to Redis as JSON.
pub record GraceTimestamp : Type 0 where
  pub grace_period_timestamp : Time

pub record SmsNotificationParameter : Type 0 where
  pub name : String
  pub value : String

pub record LoanDeductionNotificationFormat : Type 0 where
  pub msisdn : String
  pub sms_db_event_name : String
  pub pattern_id : ℤ
  pub notif_parameters : List SmsNotificationParameter

-- Constants of internal/pkg/consts.
abbrev pub collection_category_data : String
collection_category_data = "Data"

abbrev pub method_auto : String
method_auto = "Auto"

abbrev pub status_auto : String
status_auto = "Auto"

abbrev pub reason_clean_up : String
reason_clean_up = "Clean-Up"

abbrev pub partial_collection_type : String
partial_collection_type = "P"

abbrev pub full_collection_type : String
full_collection_type = "F"

abbrev pub full_event : String
full_event = "AutoCollectionSuccessFullDataCollection"

abbrev pub partial_event : String
partial_event = "AutoCollectionSuccessPartialDataCollection"
