-- ===== src/Loan/Requests.antt =====
-- internal/pkg/services/loan_availment_service.go: a request for a loan, from the validation of its
-- text to the top-up; and what the `go` statements of the service start.
pub mod Settled
pub mod Released
use Prim.Native.String.{◌++◌}
use promo_collection.Prelude.{
  String, ℤ, pos, Bool, true, false, not, ◌||◌, Option, none, some, List, [], ◌∷◌, ◌⊎◌, inl, inr,
  if◌then◌else◌,
}
use promo_collection.Runtime.{Go, Error, error_text, pure, fail, attempt, deref, ◌>>=◌, ◌>>◌}
use promo_collection.Runtime.Float64.{zero}
use promo_collection.Runtime.Time.{Time, zero_time}
use promo_collection.Driver.{ObjectId, nil_id}
use promo_collection.Loan.Schema.{
  LoanProduct, Availments, ProductsNamesInAmax, AppCreationRequest, AppCreationProcessRequest,
}
use promo_collection.Loan.Errors.{
  is_coded, equals_coded, get_error_code, check_caught_error, error_active_loan_code,
  error_transaction_in_progress, error_msisdn_format_code, error_transaction_id_format_code,
  error_keyword_format_code,
}
use promo_collection.Loan.Deps.{
  Deps, StatusReport, Task, publish_status, publish_product_status, notify_user, delete_in_progress,
  process_request,
}
use promo_collection.Loan.Validation.{Validation, request_validation}
use promo_collection.Loan.Checks.{check_if_brand_exists_and_active}
use promo_collection.Loan.Eligibility.{
  Details, Eligibility, check_eligibility, get_credit_score_customer_type_brand_type,
}
use promo_collection.Loan.Repos.{
  delete_transaction_in_progress_by_msisdn, create_transaction_in_progress_entry,
  is_availment_transaction_in_progress, add_update_subscriber, product_name_in_amaxs,
  mark_published_to_kafka,
}
use promo_collection.Loan.Serializers.{
  serialize_transaction_in_progress, serialize_subscriber_entry, serialize_availment_kafka_message,
}
use promo_collection.Loan.Availments.{Inserted, insert_failed_availment}
use promo_collection.Loan.Amax.{Provision, provision_loan_amax}

-- What stops a request before its entry is made: the event of the message, the brand if it is
-- known, and the error.
pub record Stopped : Type 0 where
  pub brand_id : ObjectId
  pub event : String
  pub error : Error

-- `strings.Join(values, ",")`
abbrev pub comma_joined : List String → String
comma_joined [] = ""
comma_joined (x ∷ []) = x
comma_joined (x ∷ y ∷ more) = x ++ "," ++ comma_joined (y ∷ more)

module _ {S F B : Type 0} (d : Deps S F B) where
  abbrev pub name_of : Option (LoanProduct F) → String
  name_of none = ""
  name_of (some p) = p.name

  abbrev pub price_of : Option (LoanProduct F) → F
  price_of none = zero d.float
  price_of (some p) = p.price

  abbrev pub failed_report : String → String → String → Inserted F → StatusReport F
  failed_report channel msisdn keyword i = record {
    availment = i.availment;
    channel = channel;
    msisdn = msisdn;
    keyword = keyword;
    servicing_partner = i.servicing_partner;
    availment_result = "Fail";
    status_of_provisioned_loan = "";
  }

  -- The goroutine that tells Kafka of a failure.
  abbrev publish_failed : String → String → String → Inserted F → Task F
  publish_failed channel msisdn keyword i =
      publish_status (failed_report channel msisdn keyword i) (name_of i.product)
        (price_of i.product)

  abbrev pub uncaught_text : Error → String
  uncaught_text e =
      if (check_caught_error e).0 then error_text e else "Un caught Error:" ++ error_text e

  -- A subscriber with a loan is not told of the product.
  abbrev pub told_product : Eligibility F → Error → Option (LoanProduct F)
  told_product x e = if equals_coded error_active_loan_code e then none else x.product

  unfoldable pub not_eligible :
      AppCreationProcessRequest F → Eligibility F → Error → Go S (Bool × Option Error)
  not_eligible q x e = do
    i ←
        insert_failed_availment d q.msisdn x.keyword q.channel q.system_client (uncaught_text e)
          (get_error_code e) q.credit_score x.product q.brand_code
    d.spawn (publish_failed q.channel q.msisdn x.keyword i)
    attempt (delete_transaction_in_progress_by_msisdn d q.msisdn)
    d.spawn (
        notify_user q.msisdn (check_caught_error e).1 q.brand_id (told_product x e) x.loan_id
          x.loan_date)
    pure (false, some e)

  unfoldable pub name_missing :
      AppCreationProcessRequest F → Eligibility F → Error → Go S (Bool × Option Error)
  name_missing q x e = do
    i ←
        insert_failed_availment d q.msisdn x.keyword q.channel q.system_client (error_text e)
          (get_error_code e) q.credit_score x.product q.brand_code
    d.spawn (
        notify_user q.msisdn "LoanAvailmentFailedSystemFailure" q.brand_id x.product x.loan_id
          x.loan_date)
    d.spawn (publish_failed q.channel q.msisdn x.keyword i)
    attempt (delete_transaction_in_progress_by_msisdn d q.msisdn)
    pure (false, some e)

  abbrev pub provision :
      AppCreationProcessRequest F → Eligibility F → LoanProduct F → String → Provision F
  provision q x p name = record {
    msisdn = q.msisdn;
    transaction_id = q.transaction_id;
    product = p;
    keyword = x.keyword;
    channel = q.channel;
    system_client = q.system_client;
    name_in_amax = name;
    credit_score = q.credit_score;
    brand_type = q.brand_code;
    brand_id = q.brand_id;
  }

  abbrev pub name_looked_up :
      AppCreationProcessRequest F
      → Eligibility F
      → LoanProduct F
      → ProductsNamesInAmax ⊎ Error
      → Go S (Bool × Option Error)
  name_looked_up q x p (inr e) = name_missing q x e
  name_looked_up q x p (inl n) = do
    r ← provision_loan_amax d (provision q x p n.name)
    pure (true, r)

  abbrev pub eligible : AppCreationProcessRequest F → Eligibility F → Go S (Bool × Option Error)
  eligible q x = do
    p ← deref x.product
    r ← attempt (product_name_in_amaxs d p.product_id q.brand_id)
    name_looked_up q x p r

  abbrev pub answered :
      AppCreationProcessRequest F → Eligibility F → Option Error → Go S (Bool × Option Error)
  answered q x (some e) = not_eligible q x e
  answered q x none = if x.is_eligible then eligible q x else pure (true, none)

  -- Dates are converted to Philippine time, which is the same instant.
  unfoldable pub avail_loan_request : AppCreationProcessRequest F → Go S (Bool × Option Error)
  unfolding not_eligible name_missing
  avail_loan_request q = do
    x ←
        check_eligibility d q.brand_id q.customer_type q.brand_code q.credit_score q.msisdn
          q.keyword q.channel
    answered q x x.error

  abbrev pub stopped_at : ObjectId → String → Error → (Details F × ObjectId) ⊎ Stopped
  stopped_at brand event e = inr (record { brand_id = brand; event = event; error = e })

  abbrev pub progress_checked :
      String → Details F → ObjectId → Bool ⊎ Error → Go S ((Details F × ObjectId) ⊎ Stopped)
  progress_checked msisdn x brand (inr e) =
      pure (stopped_at brand "LoanAvailmentFailedSystemFailure" e)
  progress_checked msisdn x brand (inl true) =
      pure (stopped_at brand "LoanAvailmentTransactionInProgress" error_transaction_in_progress)
  progress_checked msisdn x brand (inl false) = do
    attempt (
        add_update_subscriber d msisdn (
          serialize_subscriber_entry d msisdn false "" x.subscriber_type x.customer_type
            x.credit_score x.credit_limit_date))
    pure (inl (x, brand))

  abbrev pub brand_checked :
      String → Details F → ObjectId ⊎ Error → Go S ((Details F × ObjectId) ⊎ Stopped)
  brand_checked msisdn x (inr e) = pure (stopped_at nil_id "LoanAvailmentFailedBrandDoesNotExist" e)
  brand_checked msisdn x (inl brand) = do
    r ← attempt (is_availment_transaction_in_progress d msisdn)
    progress_checked msisdn x brand r

  abbrev pub details_checked : String → Details F ⊎ Error → Go S ((Details F × ObjectId) ⊎ Stopped)
  details_checked msisdn (inr e) = pure (stopped_at nil_id "LoanAvailmentFailedDownstreamFailed" e)
  details_checked msisdn (inl x) = do
    r ← attempt (check_if_brand_exists_and_active d x.brand_type)
    brand_checked msisdn x r

  -- An error of the subscriber's document is dropped.
  unfoldable pub transaction_in_progress_and_brand_check :
      String → Go S ((Details F × ObjectId) ⊎ Stopped)
  transaction_in_progress_and_brand_check msisdn = do
    r ← attempt (get_credit_score_customer_type_brand_type d msisdn)
    details_checked msisdn r

  -- What `ProcessRequest` is given.
  abbrev pub serialize_request :
      String
      → String
      → String
      → String
      → String
      → Details F
      → ObjectId
      → Time
      → AppCreationProcessRequest F
  serialize_request keyword msisdn client channel transaction x brand start = record {
    msisdn = msisdn;
    channel = channel;
    keyword = keyword;
    system_client = client;
    transaction_id = transaction;
    credit_score = x.credit_score;
    customer_type = x.customer_type;
    brand_code = x.brand_type;
    start_time = start;
    brand_id = brand;
  }

  abbrev pub brand_and_progress_checked :
      String
      → String
      → String
      → String
      → String
      → F
      → Time
      → (Details F × ObjectId) ⊎ Stopped
      → Go S (Unit {0})
  brand_and_progress_checked keyword msisdn client channel transaction score start (inr stop) = do
    i ←
        insert_failed_availment d msisdn keyword channel client (error_text stop.error)
          (get_error_code stop.error) score none ""
    d.spawn (notify_user msisdn stop.event stop.brand_id i.product nil_id zero_time)
    d.spawn (publish_failed channel msisdn keyword i)
  brand_and_progress_checked keyword msisdn client channel transaction score start
        (inl (x, brand)) =
      do
        t ← serialize_transaction_in_progress d msisdn
        attempt (create_transaction_in_progress_entry d t)
        attempt (
            avail_loan_request
              (serialize_request keyword msisdn client channel transaction x brand start))
        pure tt

  -- The check and the entry are two operations, and an entry that cannot be made is not looked at.
  unfoldable pub process_loan_request :
      String → String → String → String → String → F → Time → Go S (Unit {0})
  unfolding avail_loan_request
  process_loan_request keyword msisdn client channel transaction score start = do
    r ← transaction_in_progress_and_brand_check msisdn
    brand_and_progress_checked keyword msisdn client channel transaction score start r

  abbrev pub insert_invalid : AppCreationRequest → Validation → Error → Go S (Inserted F)
  insert_invalid q v e =
      insert_failed_availment d q.msisdn q.keyword v.channel q.system_client (error_text e)
        (get_error_code e) (zero d.float) none ""

  abbrev pub notify_invalid : AppCreationRequest → String → Go S (Unit {0})
  notify_invalid q event = d.spawn (notify_user q.msisdn event nil_id none nil_id zero_time)

  abbrev pub number_or_id_invalid : AppCreationRequest → Validation → Error → Go S (Unit {0})
  number_or_id_invalid q v e =
      if is_coded error_msisdn_format_code e || is_coded error_transaction_id_format_code e
      then (do
        i ← insert_invalid q v e
        d.spawn (publish_failed v.channel q.msisdn q.keyword i)
        if is_coded error_transaction_id_format_code e
            then notify_invalid q "LoanAvailmentFailedInvalidTransactionId"
            else pure tt)
      else pure tt

  abbrev pub keyword_invalid : AppCreationRequest → Validation → Error → Go S (Unit {0})
  keyword_invalid q v e =
      if is_coded error_keyword_format_code e
      then (do
        i ← insert_invalid q v e
        notify_invalid q "LoanAvailmentFailedInvalidKeyword"
        d.spawn (publish_status (failed_report v.channel q.msisdn q.keyword i) "" (zero d.float))
        attempt (delete_transaction_in_progress_by_msisdn d q.msisdn)
        pure tt)
      else pure tt

  abbrev pub validated : AppCreationRequest → Time → Validation → Option Error → Go S (Option Error)
  validated q start v (some e) = do number_or_id_invalid q v e; keyword_invalid q v e; pure (some e)
  validated q start v none = do
    d.spawn (
        process_request q.keyword v.msisdn q.system_client v.channel v.transaction_number
          (zero d.float) start)
    pure none

  -- Without an error the answer is that the request was created. After an invalid number or id the
  -- validation has no channel.
  unfoldable pub avail_loan : AppCreationRequest → Go S (Option Error)
  avail_loan q = do
    start ← d.now
    let v = request_validation q.msisdn q.keyword q.transaction_id
    validated q start v v.error
