-- ===== src/Loan/Schema.antt =====
-- The documents of loan-availment: internal/pkg/models, and the Redis entry of
-- internal/pkg/store/models/redis_loan.go.
use promo_collection.Prelude.{String, ℤ, Bool, List, Option}
use promo_collection.Runtime.Time.{Time}
use promo_collection.Driver.{ObjectId}

pub record Keyword : Type 0 where
  pub id : ObjectId
  pub created_at : Time
  pub updated_at : Time
  pub name : String
  pub product_id : ObjectId
  pub is_deleted : Bool

pub record LoanProduct (F : Type 0) : Type 0 where
  pub product_id : ObjectId
  pub name : String
  pub price : F
  pub service_fee : F
  pub fee_type : String
  pub loan_type : String
  pub wallet_id : ObjectId
  pub is_scored_product : Bool
  pub has_whitelisting : Bool
  pub activation_method : String
  pub active : Bool
  pub promo_start_date : Option Time
  pub promo_end_date : Option Time
  pub created_at : Time
  pub updated_at : Time
  pub product_guid : String
  pub migrated : Bool
  pub is_deleted : Bool

pub record Subscribers (F : Type 0) : Type 0 where
  pub id : ObjectId
  pub msisdn : String
  pub blacklisted : Bool
  pub migrated : Bool
  pub exclusion_reason : String
  pub subscriber_type : String
  pub customer_type : String
  pub credit_loan_limit_amount : F
  pub credit_loan_limit_amount_gen_date : Option Time
  pub updated_at : Option Time
  pub created_at : Time

pub record Channels : Type 0 where
  pub id : ObjectId
  pub code : String
  pub is_deleted : Bool
  pub created_at : Time
  pub updated_at : Time

pub record Brand : Type 0 where
  pub id : ObjectId
  pub code : String
  pub is_deleted : Bool
  pub create_at : Time
  pub updated_at : Time
  pub system_level_acceptable : Bool

pub record LoanProductsBrands : Type 0 where
  pub id : ObjectId
  pub brand_id : ObjectId
  pub product_id : ObjectId

pub record LoanProductsChannels : Type 0 where
  pub id : ObjectId
  pub product_id : ObjectId
  pub channel_id : ObjectId

pub record WhitelistedSubs : Type 0 where
  pub id : ObjectId
  pub product_id : ObjectId
  pub msisdn : String

pub record TransactionInProgress : Type 0 where
  pub id : ObjectId
  pub msisdn : String
  pub created_at : Time

pub record ProductsNamesInAmax : Type 0 where
  pub id : ObjectId
  pub name : String
  pub is_deleted : Bool
  pub created_at : Time
  pub updated_at : Time
  pub migrated : Bool
  pub product_guid : String
  pub product_id : ObjectId
  pub brand_id : ObjectId

pub record PesoToDataConversion (F : Type 0) : Type 0 where
  pub loan_type : String
  pub conversion_rate : F

pub record SystemLevelRules (F : Type 0) : Type 0 where
  pub id : ObjectId
  pub credit_score_threshold : ℤ
  pub partial_collection_enabled : Bool
  pub reserved_amount_for_partial : ℤ
  pub education_period : ℤ
  pub deferment_period : ℤ
  pub overdue_threshold : ℤ
  pub updated_at : Time
  pub updated_user_id : ObjectId
  pub max_data_collection_percent : F
  pub peso_to_data_conversion : List (PesoToDataConversion F)
  pub min_collection_amount : F
  pub promo_collection_enabled : Bool
  pub wallet_exclusion_list : List String
  pub promo_education_period : ℤ
  pub grace_period : ℤ
  pub loan_load_period : ℤ

pub record Loans (F : Type 0) : Type 0 where
  pub loan_id : ObjectId
  pub msisdn : String
  pub total_loan_amount : F
  pub guid : String
  pub service_fee : F
  pub loan_product_id : ObjectId
  pub brand_id : ObjectId
  pub availment_transaction_id : ObjectId
  pub loan_type : String
  pub created_at : Time
  pub migrated : Bool
  pub total_unpaid_loan : F
  pub min_collection_amount : F
  pub max_data_collection_percent : F
  pub promo_education_period_timestamp : Time
  pub grace_period_timestamp : Time
  pub loan_load_period_timestamp : Time
  pub conversion_rate : F
  pub version : ℤ

pub record UnpaidLoans (F : Type 0) : Type 0 where
  pub id : ObjectId
  pub loan_id : ObjectId
  pub version : F
  pub valid_from : Time
  pub valid_to : Option Time
  pub total_loan_amount : F
  pub unpaid_amount : F
  pub unpaid_service_fee : F
  pub last_collection_id : Option ObjectId
  pub last_collection_date : Option Time
  pub migrated : Bool

pub record Availments (F : Type 0) : Type 0 where
  pub id : ObjectId
  pub msisdn : String
  pub channel : String
  pub brand : String
  pub loan_type : String
  pub product_id : ObjectId
  pub keyword : String
  pub servicing_partner : String
  pub result : Bool
  pub error_text : String
  pub error_code : String
  pub credit_score : F
  pub total_loan_amount : F
  pub service_fee : F
  pub guid : String
  pub created_at : Time
  pub published_to_kafka : Bool
  pub product_name : String

pub record RedisLoan : Type 0 where
  pub education_period_timestamp : Time
  pub loan_load_period_timestamp : Time

pub record AppCreationRequest : Type 0 where
  pub msisdn : String
  pub transaction_id : String
  pub keyword : String
  pub system_client : String

pub record AppCreationProcessRequest (F : Type 0) : Type 0 where
  pub msisdn : String
  pub channel : String
  pub keyword : String
  pub system_client : String
  pub transaction_id : String
  pub credit_score : F
  pub customer_type : String
  pub brand_code : String
  pub start_time : Time
  pub brand_id : ObjectId
