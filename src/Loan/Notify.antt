-- ===== src/Loan/Notify.antt =====
-- `NotifyUser` of internal/pkg/notification/notification_service.go: what a goroutine runs that tells
-- the subscriber of an event.
use promo_collection.Prelude.{
  String, ℤ, Bool, true, false, not, ◌&&◌, ◌||◌, Option, none, some, ◌⊎◌, inl, inr, List, [], ◌∷◌,
  map, find?, ◌==◌, str_eq, if◌then◌else◌,
}
use Prim.Native.String.{◌++◌}
use promo_collection.Runtime.{
  Go, Error, message, no_documents, pure, fail, attempt, or_fail, wrapping, ◌>>=◌, ◌>>◌,
}
use promo_collection.Runtime.Float64.{zero}
use promo_collection.Runtime.Time.{Time, zero_time}
use promo_collection.Driver.{ObjectId, nil_id}
use promo_collection.Loan.Schema.{LoanProduct, Loans, UnpaidLoans}
use promo_collection.Loan.Errors.{error_missing_required_inputs, error_no_document_found}
use promo_collection.Loan.Deps.{Deps}
use promo_collection.Loan.Templates.{
  MessageResponse, NotificationParameter, SmsNotificationRequest, LocalTime, utc, pht, Notifier,
  get_message_id,
}
use promo_collection.Loan.Availments.{empty_product, service_fee}
pub mod Selected
pub mod Published

-- The amounts and times that a message may name.
pub record ParameterRawData (F : Type 0) : Type 0 where
  pub sku_name : String
  pub service_fee_amount : F
  pub loan_fee_amount : F
  pub remaining_amount : F
  pub loan_date_time : LocalTime
  pub amount_collected_value : F
  pub data_conversion_rate : F
  pub data_mb_value : F
  pub data_collection_time : LocalTime

pub record ParameterFormattedData : Type 0 where
  pub sku_name : String
  pub service_fee_formatted : String
  pub loan_fee_formatted : String
  pub remaining_amount_formatted : String
  pub amount_collected_formatted : String
  pub data_conversion_formatted : String
  pub data_mb_formatted : String
  pub loan_date_formatted : String
  pub data_collection_formatted : String

unfoldable pub parameter_value : ParameterFormattedData → String → String
parameter_value f p =
    if str_eq p "SKU_NAME" || str_eq p "LOAN_SKU"
    then f.sku_name
    else if str_eq p "SERVICE_FEE"
    then f.service_fee_formatted
    else if str_eq p "LOAN_FEE_AMT"
    then f.loan_fee_formatted
    else if str_eq p "REMAINING_LOAN_AMOUNT"
    then f.remaining_amount_formatted
    else if str_eq p "LOAN_DATE"
    then f.loan_date_formatted
    else if str_eq p "AMOUNT_COLLECTED"
    then f.amount_collected_formatted
    else if str_eq p "DATA_CONVERSION"
    then f.data_conversion_formatted
    else if str_eq p "DATA_MB"
    then f.data_mb_formatted
    else if str_eq p "DATA_COLLECTION_DATE"
    then f.data_collection_formatted
    else ""

abbrev pub parameter_values : ParameterFormattedData → List String → List NotificationParameter
parameter_values f ps = map (λ p. record { name = p; value = parameter_value f p }) ps

abbrev found : {A : Type 0} → A ⊎ Error → Option A
found (inl a) = some a
found (inr e) = none

module _ {S F B : Type 0} (d : Deps S F B) (n : Notifier S B) where
  abbrev no_float : F
  no_float = zero d.float

  unfoldable pub get_loan_result : String → Go S (Option (Loans F))
  get_loan_result msisdn = do
    r ← attempt (d.loans.find_one (λ l. str_eq l.msisdn msisdn))
    pure (found r)

  -- The product of the loan; it is looked up for the name and again for the fee.
  abbrev pub product_of : Option (Loans F) → Go S (Option (LoanProduct F))
  product_of none = pure none
  product_of (some l) = do
    r ← attempt (d.products.find_one (λ p. p.product_id == l.loan_product_id))
    pure (found r)

  abbrev name_or_empty : Option (LoanProduct F) → String
  name_or_empty none = ""
  name_or_empty (some p) = p.name

  abbrev fee_or_zero : Option (LoanProduct F) → F
  fee_or_zero none = no_float
  fee_or_zero (some p) = service_fee d p

  unfoldable pub sku_name_of : LoanProduct F → Option (Loans F) → Go S String
  sku_name_of p loan =
      if not (str_eq p.name "")
      then pure p.name
      else product_of loan >>= λ q. pure (name_or_empty q)

  unfoldable pub service_fee_of : LoanProduct F → Option (Loans F) → Go S F
  service_fee_of p loan =
      if not (str_eq p.name "")
      then pure (service_fee d p)
      else product_of loan >>= λ q. pure (fee_or_zero q)

  abbrev pub loan_id_or : ObjectId → Option (Loans F) → ObjectId
  loan_id_or id none = id
  loan_id_or id (some l) = if id == nil_id then l.loan_id else id

  unfoldable pub unpaid_of : ObjectId → Go S (Option (UnpaidLoans F))
  unpaid_of id =
      if id == nil_id
      then pure none
      else attempt (d.last_version (λ u. u.loan_id == id)) >>= λ r. pure (found r)

  -- The amounts of the loan, before those of what is unpaid.
  abbrev pub with_loan : String → F → LocalTime → Option (Loans F) → ParameterRawData F
  with_loan name fee date none = record {
    sku_name = name;
    service_fee_amount = fee;
    loan_fee_amount = no_float;
    remaining_amount = no_float;
    loan_date_time = date;
    amount_collected_value = no_float;
    data_conversion_rate = no_float;
    data_mb_value = no_float;
    data_collection_time = utc zero_time;
  }
  with_loan name fee date (some l) = record {
    sku_name = name;
    service_fee_amount = fee;
    loan_fee_amount = l.total_loan_amount;
    remaining_amount = no_float;
    loan_date_time = date;
    amount_collected_value = no_float;
    data_conversion_rate = l.conversion_rate;
    data_mb_value = d.float.mul l.conversion_rate l.total_unpaid_loan;
    data_collection_time = pht l.promo_education_period_timestamp;
  }

  abbrev pub with_unpaid : ParameterRawData F → Option (UnpaidLoans F) → ParameterRawData F
  with_unpaid x none = x
  with_unpaid x (some u) = record x {
    remaining_amount = u.unpaid_amount;
    amount_collected_value = d.float.sub u.total_loan_amount u.unpaid_amount;
    loan_fee_amount =
        if d.float.eq x.loan_fee_amount no_float then u.total_loan_amount else x.loan_fee_amount;
  }

  unfoldable pub create_parameter_raw_data :
      String → LoanProduct F → ObjectId → LocalTime → Go S (ParameterRawData F)
  create_parameter_raw_data msisdn p id date = do
    loan ← get_loan_result msisdn
    name ← sku_name_of p loan
    fee ← service_fee_of p loan
    unpaid ← unpaid_of (loan_id_or id loan)
    pure (with_unpaid (with_loan name fee date loan) unpaid)

  abbrev format_float : F → String
  format_float x = d.float.format 2 x

  unfoldable pub to_formatted_map : ParameterRawData F → ParameterFormattedData
  to_formatted_map x = record {
    sku_name = x.sku_name;
    service_fee_formatted = format_float x.service_fee_amount;
    loan_fee_formatted = format_float x.loan_fee_amount;
    remaining_amount_formatted = format_float x.remaining_amount;
    amount_collected_formatted = format_float x.amount_collected_value;
    data_conversion_formatted = format_float x.data_conversion_rate ++ " MB";
    data_mb_formatted = format_float x.data_mb_value ++ " MB";
    loan_date_formatted = n.format_date x.loan_date_time;
    data_collection_formatted = n.format_date x.data_collection_time;
  }

  unfoldable pub get_values_of_parameters :
      List String
      → String
      → LoanProduct F
      → ObjectId
      → LocalTime
      → Go S (List NotificationParameter)
  get_values_of_parameters ps msisdn p id date = do
    x ← create_parameter_raw_data msisdn p id date
    pure (parameter_values (to_formatted_map x) ps)

  unfoldable pub send_notification_to_pub_sub :
      List NotificationParameter → ℤ → String → String → Go S (Unit {0})
  send_notification_to_pub_sub ps pattern msisdn event = do
    b ← wrapping "failed to marshal SMS request" (
        or_fail (message "json") (
          n.marshal_sms (record {
            msisdn = msisdn;
            sms_db_event_name = event;
            notif_parameters = ps;
            pattern_id = pattern;
          })))
    wrapping "failed to publish to pubsub" (n.publish_sms b)
    pure tt

  abbrev pub product_value : Option (LoanProduct F) → LoanProduct F
  product_value none = empty_product d
  product_value (some p) = p

  unfoldable pub notify_user :
      String → String → ObjectId → Option (LoanProduct F) → ObjectId → LocalTime → Go S (Unit {0})
  notify_user msisdn event brand product loan_id date = do
    rules ← d.rules.find_one (λ r. true)
    response ← get_message_id n event brand rules.promo_collection_enabled
    ps ← get_values_of_parameters response.parameters msisdn (product_value product) loan_id date
    send_notification_to_pub_sub ps response.message_id msisdn event
