-- ===== src/Loan/Serializers.antt =====
-- internal/pkg/common/serializers.go, and `ConversionRateByType` and `CalculateTimestamp` of
-- internal/pkg/common/common.go.
use promo_collection.Prelude.{
  ◌*◌, ◌/◌, String, ℤ, pos, Bool, false, none, some, List, [], ◌∷◌, str_eq, if◌then◌else◌,
}
use promo_collection.Runtime.{Go, pure, ◌>>=◌}
use promo_collection.Runtime.Float64.{zero}
use promo_collection.Runtime.Strconv.{itoa}
use promo_collection.Runtime.Time.{Time, zero_time, second, is_zero, add_days}
use promo_collection.Driver.{ObjectId}
use promo_collection.Loan.Schema.{
  LoanProduct, Subscribers, PesoToDataConversion, SystemLevelRules, Loans, UnpaidLoans, Availments,
  TransactionInProgress,
}
use promo_collection.Loan.Deps.{Deps}

-- The zero value of a `primitive.DateTime`: 1 January 1970.
abbrev pub unix_epoch : Time
unix_epoch = 62_135_596_800 * second

-- `primitive.NewDateTimeFromTime`: whole milliseconds.
unfoldable pub date_time : Time → Time
date_time t = t / 1_000_000 * 1_000_000

module _ {S F B : Type 0} (d : Deps S F B) where
  unfoldable pub serialize_availments :
      String
      → String
      → String
      → String
      → ObjectId
      → String
      → String
      → F
      → F
      → String
      → String
      → String
      → Bool
      → F
      → String
      → Go S (Availments F)
  serialize_availments msisdn channel brand loan_type product keyword partner total fee client text
        code result score name =
      do
        id ← d.new_object_id
        guid ← d.new_guid
        now ← d.now
        pure (record {
          id = id;
          msisdn = msisdn;
          channel = channel;
          brand = brand;
          loan_type = loan_type;
          product_id = product;
          keyword = keyword;
          servicing_partner = partner;
          result = result;
          error_text = text;
          error_code = code;
          credit_score = score;
          total_loan_amount = total;
          service_fee = fee;
          guid = guid;
          created_at = now;
          published_to_kafka = false;
          product_name = name;
        })

  -- The rate of the type of loan; 0 where there is none, since no caller looks at the error.
  abbrev pub rate_of : String → List (PesoToDataConversion F) → F
  rate_of type [] = zero d.float
  rate_of type (c ∷ more) = if str_eq c.loan_type type then c.conversion_rate else rate_of type more

  unfoldable pub conversion_rate_by_type : List (PesoToDataConversion F) → Bool → F
  conversion_rate_by_type matrix is_scored =
      rate_of (if is_scored then "SCORED" else "UNSCORED") matrix

  unfoldable pub calculate_timestamp : ℤ → Go S Time
  calculate_timestamp days = do now ← d.now; pure (date_time (add_days now days))

  abbrev pub load_timestamp : LoanProduct F → SystemLevelRules F → Go S Time
  load_timestamp p rules =
      if str_eq p.loan_type "LOAD SKU"
      then calculate_timestamp rules.loan_load_period
      else (do now ← d.now; pure (date_time now))

  unfoldable pub serialize_loans :
      String
      → F
      → String
      → F
      → LoanProduct F
      → ObjectId
      → ObjectId
      → SystemLevelRules F
      → Go S (Loans F)
  unfolding calculate_timestamp
  serialize_loans msisdn total guid fee p brand availment rules = do
    load ← load_timestamp p rules
    id ← d.new_object_id
    created ← d.now
    education ← calculate_timestamp rules.promo_education_period
    pure (record {
      loan_id = id;
      msisdn = msisdn;
      total_loan_amount = total;
      guid = guid;
      service_fee = fee;
      loan_product_id = p.product_id;
      brand_id = brand;
      availment_transaction_id = availment;
      loan_type = p.loan_type;
      created_at = created;
      migrated = false;
      total_unpaid_loan = total;
      min_collection_amount = rules.min_collection_amount;
      max_data_collection_percent = rules.max_data_collection_percent;
      promo_education_period_timestamp = education;
      grace_period_timestamp = unix_epoch;
      loan_load_period_timestamp = load;
      conversion_rate = conversion_rate_by_type rules.peso_to_data_conversion p.is_scored_product;
      version = pos 1;
    })

  unfoldable pub serialize_unpaid_loans : ObjectId → F → F → Go S (UnpaidLoans F)
  serialize_unpaid_loans loan total fee = do
    id ← d.new_object_id
    now ← d.now
    pure (record {
      id = id;
      loan_id = loan;
      version = d.float.of_int (pos 1);
      valid_from = now;
      valid_to = none;
      total_loan_amount = total;
      unpaid_amount = total;
      unpaid_service_fee = fee;
      last_collection_id = none;
      last_collection_date = none;
      migrated = false;
    })

  unfoldable pub serialize_transaction_in_progress : String → Go S TransactionInProgress
  serialize_transaction_in_progress msisdn = do
    id ← d.new_object_id
    now ← d.now
    pure (record { id = id; msisdn = msisdn; created_at = now })

  -- The fields that are not given are the zero values of their types.
  unfoldable pub serialize_subscriber_entry :
      String → Bool → String → String → String → F → Time → Subscribers F
  serialize_subscriber_entry msisdn blacklisted reason subscriber customer amount date = record {
    id = 0;
    msisdn = msisdn;
    blacklisted = blacklisted;
    migrated = false;
    exclusion_reason = reason;
    subscriber_type = subscriber;
    customer_type = customer;
    credit_loan_limit_amount = amount;
    credit_loan_limit_amount_gen_date = if is_zero date then none else some date;
    updated_at = none;
    created_at = zero_time;
  }

  -- The columns of the message about an availment; `consts.TransactionTypeForAvailmentReport`.
  unfoldable pub serialize_availment_kafka_message :
      String
      → Time
      → String
      → String
      → String
      → String
      → String
      → String
      → String
      → F
      → F
      → String
      → String
      → ℤ
      → String
      → List String
  serialize_availment_kafka_message id now channel msisdn brand loan_type name keyword partner
        amount fee result code ageing status =
      id
      ∷ d.kafka_date now
      ∷ channel
      ∷ msisdn
      ∷ brand
      ∷ loan_type
      ∷ name
      ∷ keyword
      ∷ partner
      ∷ d.float.format 0 amount
      ∷ d.float.format 0 fee
      ∷ "Availment"
      ∷ result
      ∷ code
      ∷ itoa ageing
      ∷ status
      ∷ []
