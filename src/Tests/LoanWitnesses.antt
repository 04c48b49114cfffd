-- ===== src/Tests/LoanWitnesses.antt =====
-- The theorems about loan-availment at concrete inputs, and runs of it.
use promo_collection.Prelude.{◌≡◌, ◌≢◌, first_elem, inl, refl, none, [], ◌∷◌, true, ℤ, pos, arith}
use promo_collection.Runtime.{◌>>=◌}
use promo_collection.Runtime.Strconv.{itoa}
use promo_collection.Runtime.Time.{add_days}
use promo_collection.Runtime.Runs.{Runs}
use promo_collection.Loan.Schema.{AppCreationProcessRequest, TransactionInProgress}
use promo_collection.Loan.Laws.{
  details_read, brand_read, entry_read, absent, entry_made, topup_asked, released, notified,
}
use promo_collection.Loan.Validation.{
  clean_msisdn, is_valid_msisdn, channel_of, is_valid_keyword, last, size, is_digit, all_chars,
  digits_of, request_validation, is_valid_transaction_id,
}
use promo_collection.Loan.Validation.Msisdn.{request_validation-msisdn}
use promo_collection.Loan.Validation.TransactionId.{
  joined, is_valid_transaction_id-joined, is_valid_transaction_id-shadowed,
}
use promo_collection.Loan.Checks
use promo_collection.Loan.Eligibility
use promo_collection.Loan.Repos
use promo_collection.Loan.Serializers
use promo_collection.Loan.Availments
use promo_collection.Loan.Amax
use promo_collection.Loan.Requests
use promo_collection.Loan.Requests.Settled.{Processed, process_loan_request-Processed}
use promo_collection.Tests.LoanWorld.{deps, log_of, deps-Shows}

abbrev entry : TransactionInProgress
entry = record { id = 1; msisdn = "9171234567"; created_at = 5 }

abbrev request : AppCreationProcessRequest ℤ
request = record {
  msisdn = "9171234567";
  channel = "SMS";
  keyword = "SURF50";
  system_client = "app";
  transaction_id = "123";
  credit_score = pos 100;
  customer_type = "Consumer";
  brand_code = "TM";
  start_time = 10;
  brand_id = 4;
}

valid : (request_validation "+63 917 123 4567" "SURF50" "SMS123").error ≡ none
unfolding request_validation clean_msisdn is_valid_msisdn is_valid_transaction_id channel_of
    is_valid_keyword
valid = refl

request_validation-msisdn_example :
    ((request_validation "+63 917 123 4567" "SURF50" "SMS123").msisdn
      ≡ last 10 (digits_of "+63 917 123 4567"))
    × (size (request_validation "+63 917 123 4567" "SURF50" "SMS123").msisdn ≡ 10)
    × (all_chars is_digit (request_validation "+63 917 123 4567" "SURF50" "SMS123").msisdn ≡ true)
request_validation-msisdn_example =
    request_validation-msisdn "+63 917 123 4567" "SURF50" "SMS123" valid

is_valid_transaction_id-joined_example :
    is_valid_transaction_id (joined "SMS" "123") ≡ inl ("SMS", "123")
is_valid_transaction_id-joined_example =
    is_valid_transaction_id-joined "123" refl "SMS" (first_elem refl) (omega arith)

is_valid_transaction_id-shadowed_example :
    is_valid_transaction_id "G1TESTLOAN123" ≢ inl ("G1TESTLOAN", "123")
is_valid_transaction_id-shadowed_example = is_valid_transaction_id-shadowed "G1TESTLOAN123" "123"

process_loan_request-Processed_example :
    Runs log_of
      (Requests.process_loan_request deps "SURF50" "9171234567" "app" "SMS" "123" (pos 0) 10)
      (λ u es. Processed es)
process_loan_request-Processed_example =
    process_loan_request-Processed (deps-Shows "9171234567") "SURF50" "app" "SMS" "123" (pos 0) 10

loan_given :
    log_of
      (Requests.process_loan_request deps "SURF50" "9171234567" "app" "SMS" "123"
        (pos 0)
        10
        (record { clock = 1000; entries = []; log = []; published = []; events = [] })).1
    ≡ details_read true
      ∷ brand_read true
      ∷ entry_read absent
      ∷ entry_made
      ∷ topup_asked
      ∷ released
      ∷ released
      ∷ notified "LoanAvailmentSuccess"
      ∷ []
unfolding ◌>>=◌ itoa add_days Checks.is_activated Checks.check_keyword
    Checks.check_subscriber_blacklisting Checks.check_loan_product Checks.check_active_loan
    Checks.is_whitelisted Checks.check_whitelist Checks.check_if_brand_exists_and_active
    Checks.check_if_channel_exists_and_active Checks.check_if_brand_and_product_mapped
    Checks.check_if_channel_and_product_mapped Checks.check_credit_score_eligibility
    Eligibility.is_valid_customer_type Eligibility.is_valid_brand_type Eligibility.check_scored
    Eligibility.check_product Eligibility.check_eligibility Eligibility.read_attribute
    Eligibility.get_credit_score_customer_type_brand_type
    Repos.delete_transaction_in_progress_by_msisdn Repos.create_transaction_in_progress_entry
    Repos.is_availment_transaction_in_progress Repos.has_changes Repos.add_update_subscriber
    Repos.servicing_partner_by_product_id Repos.product_name_in_amaxs Repos.insert_availment
    Serializers.date_time Serializers.serialize_availments Serializers.conversion_rate_by_type
    Serializers.calculate_timestamp Serializers.serialize_loans Serializers.serialize_unpaid_loans
    Serializers.serialize_transaction_in_progress Serializers.serialize_subscriber_entry
    Availments.service_fee Availments.with_session Availments.insert_failed_availment
    Availments.successful_writes Availments.save_skip_timestamps
    Availments.insert_successful_availment Amax.session_error Amax.result_error Amax.api_call
    Amax.create_session Amax.login_session Amax.topup Amax.session_failed Amax.login_failed
    Amax.topup_failed Amax.topped_up Amax.provision_loan_amax Requests.avail_loan_request
    Requests.transaction_in_progress_and_brand_check Requests.process_loan_request
loan_given = refl
