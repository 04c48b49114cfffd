-- ===== src/Promo/Deduction.antt =====
-- How much data is deducted: utils/max_deduction_amount.go and
-- internal/service/promo_collection/data_deduction_calculation.go.
pub mod Decides
pub mod Settles
use Prim.Native.String.{◌++◌}
use promo_collection.Prelude.{String, ℤ, pos, Bool, false, if◌then◌else◌}
use promo_collection.Runtime.{Go, pure, ◌>>=◌, ◌>>◌}
use promo_collection.Runtime.Float64.{Float64}
use promo_collection.Runtime.Time.{Time, is_zero, days_between}
use promo_collection.Runtime.Strconv.{itoa}
use promo_collection.Promo.Schema.{
  Loans, UnpaidLoans, PromoEventMessage, PublishToWorkerMsgFormat, full_collection,
  partial_collection,
}
use promo_collection.Promo.Deps.{Deps}
use promo_collection.Promo.Repos.{time_now, delete_entry, publish_message}

-- `ComputeMaxDeductibleAmount`
unfoldable pub compute_max_deductible_amount : {F : Type 0} → Float64 F → F → F → F → F → F
compute_max_deductible_amount f percent allocated balance rate =
    f.min (f.mul percent allocated) (f.mul balance rate)

pub record DeductionParams (F : Type 0) : Type 0 where
  pub min_collection_amount : F
  pub conversion_rate : F
  pub loan_unpaid_amount : F
  pub deductable_data_amount : F

module _ {S F B : Type 0} (d : Deps S F B) where
  -- Days since the loan was created; the clock is read only if that time is set.
  unfoldable pub loan_ageing : Time → Go S ℤ
  loan_ageing created =
      if is_zero created then pure (pos 0) else do now ← time_now d; pure (days_between now created)

  -- The message of `buildPubSubMsg`, for an ageing in days. `trace` is the trace id of the context.
  unfoldable pub worker_message :
      String
      → PromoEventMessage
      → F
      → Loans F
      → UnpaidLoans
      → String
      → ℤ
      → PublishToWorkerMsgFormat F
  worker_message trace payload amount l u kind ageing = record {
    msisdn = itoa payload.msisdn;
    unit = "MB";
    is_roll_back = false;
    duration = "200";
    channel = "Dodrio";
    svc_id = payload.svc_id;
    denom = payload.denom;
    wallet_keyword = payload.wallet_keyword;
    wallet_amount = itoa payload.wallet_amount;
    svc_denom_combined = payload.denom ++ ("-" ++ payload.wallet_keyword);
    kafka_id = payload.id;
    collection_type = kind;
    ageing = ageing;
    availment_transaction_id = l.availment_transaction_id;
    loan_id = l.loan_id;
    unpaid_loan_id = u.loan_id;
    service_fee = l.service_fee;
    total_loan_amount_in_peso = d.float.of_int l.total_loan_amount;
    total_unpaid_amount_in_peso = l.total_unpaid_loan;
    amount_to_be_deducted_in_peso = d.float.div amount l.conversion_rate;
    unpaid_service_fee = d.float.of_int u.unpaid_service_fee;
    data_to_be_deducted = amount;
    last_collection_date_time = u.last_collection_date_time;
    last_collection_id = u.last_collection_id;
    start_date = l.created_at;
    brand_id = l.brand_id;
    loan_product_id = l.loan_product_id;
    loan_type = l.loan_type;
    data_collection_request_trace_id = trace;
    guid = l.guid;
    version = u.version;
  }

  -- `buildPubSubMsg` and `PubSubPublisher` on its message.
  unfoldable pub publish_request :
      String → PromoEventMessage → F → Loans F → UnpaidLoans → String → Go S (Unit {0})
  publish_request trace payload amount l u kind = do
    ageing ← loan_ageing l.created_at
    publish_message d.worker_codec d.worker_topic
        (worker_message trace payload amount l u kind ageing)
    pure tt

  unfoldable pub handle_full_collection :
      String → PromoEventMessage → DeductionParams F → Loans F → UnpaidLoans → Go S (Unit {0})
  handle_full_collection trace payload p l u =
      publish_request trace payload p.deductable_data_amount l u full_collection

  -- `has_repo` is false if the repository of the in-progress entries is nil.
  unfoldable pub skip_collection : Bool → PromoEventMessage → Go S (Unit {0})
  skip_collection has_repo payload =
      if has_repo then delete_entry d (itoa payload.msisdn) else pure tt

  unfoldable pub handle_partial_or_skip_collection :
      Bool
      → String
      → PromoEventMessage
      → DeductionParams F
      → Loans F
      → UnpaidLoans
      → Go S (Unit {0})
  handle_partial_or_skip_collection has_repo trace payload p l u =
      let pesos = d.float.div p.deductable_data_amount p.conversion_rate in
      if d.float.le p.min_collection_amount pesos
      then publish_request trace payload (d.float.mul (d.float.floor pesos) p.conversion_rate) l u
          partial_collection
      else skip_collection has_repo payload

  unfoldable pub data_to_be_deducted_calculation :
      Bool
      → String
      → PromoEventMessage
      → DeductionParams F
      → Loans F
      → UnpaidLoans
      → Go S (Unit {0})
  data_to_be_deducted_calculation has_repo trace payload p l u =
      let outstanding = d.float.mul p.loan_unpaid_amount p.conversion_rate in
      if d.float.eq p.deductable_data_amount outstanding
      then handle_full_collection trace payload p l u
      else if d.float.lt p.deductable_data_amount outstanding
      then handle_partial_or_skip_collection has_repo trace payload p l u
      else pure tt
