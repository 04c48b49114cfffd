-- ===== src/Worker/Full.antt =====
-- internal/service/success_handling/full_data_deduction.go: the loan is paid off.
pub mod Commit
use promo_collection.Prelude.{true, false, pos, none, some}
use promo_collection.Runtime.{Go, pure, attempt, ◌>>=◌, ◌>>◌}
use promo_collection.Runtime.Float64
use promo_collection.Runtime.Time.{Time}
use promo_collection.Driver.{ObjectId, nil_id}
use promo_collection.Worker.Schema.{
  PromoCollectionPublishedMessage, Collections, UnpaidLoanEntry, ClosedLoanEntry,
  collection_category_data, full_collection_type, method_auto, status_auto, reason_clean_up,
}
use promo_collection.Worker.Deps.{Deps}
use promo_collection.Worker.Serializers.{serialize_collections, serialize_kafka_message}
use promo_collection.Worker.Repos
use promo_collection.Worker.Repos.{next_version}
use promo_collection.Worker.Notify.{notify_full}

module _ {S F B : Type 0} (d : Deps S F B) where
  zero : F
  zero = Float64.zero d.float

  unfoldable pub build_closed_loan_entry :
      PromoCollectionPublishedMessage F → Go S (ClosedLoanEntry F)
  unfolding zero
  build_closed_loan_entry msg = do
    now ← d.now
    pure (record {
      guid = msg.guid;
      msisdn = msg.msisdn;
      loan_id = msg.loan_id;
      availment_transaction_id = msg.availment_transaction_id;
      brand_id = msg.brand_id;
      loan_product_id = msg.loan_product_id;
      loan_type = msg.loan_type;
      start_date = msg.start_date;
      end_date = now;
      status = status_auto;
      total_collected_amount = msg.total_loan_amount_in_peso;
      total_loan_amount = msg.total_loan_amount_in_peso;
      total_written_off_or_churned_amount = zero;
      write_off_reason = reason_clean_up;
    })

  unfoldable pub build_unpaid_loan_entry :
      PromoCollectionPublishedMessage F → Go S (UnpaidLoanEntry F)
  unfolding zero
  build_unpaid_loan_entry msg = do
    from ← d.now
    to ← d.now
    pure (record {
      id = nil_id;
      loan_id = msg.loan_id;
      total_unpaid_amount = zero;
      valid_from = from;
      valid_to = some to;
      version = next_version msg.version;
      migrated = false;
      total_loan_amount = some msg.total_loan_amount_in_peso;
      last_collection_id = none;
      last_collection_date_time = none;
      unpaid_service_fee = none;
    })

  -- What is set after `SerializeCollections`; the service fee collected is what that has set.
  unfoldable pub full_collection :
      PromoCollectionPublishedMessage F → Time → Collections F → Collections F
  unfolding zero
  full_collection msg now c = record c {
    collected_amount = msg.amount_to_be_deducted_in_peso;
    collection_category = collection_category_data;
    collection_type = full_collection_type;
    method = method_auto;
    payment_channel = msg.channel;
    loan_id = msg.loan_id;
    total_collected_amount =
        d.float.add (d.float.sub msg.total_loan_amount_in_peso msg.total_unpaid_amount_in_peso)
          msg.amount_to_be_deducted_in_peso;
    total_unpaid = zero;
    unpaid_service_fee = zero;
    service_fee = msg.service_fee;
    result = true;
    published_to_kafka = false;
    created_at = now;
  }

  unfoldable pub build_full_collection_model :
      PromoCollectionPublishedMessage F → Go S (Collections F)
  build_full_collection_model msg = do
    c ← serialize_collections d msg true "" ""
    now ← d.now
    pure (full_collection msg now c)

  -- `unpaidLoanEntry[...] = ...`, before the entry is created.
  unfoldable pub collected_entry :
      PromoCollectionPublishedMessage F
      → Collections F
      → ObjectId
      → UnpaidLoanEntry F
      → UnpaidLoanEntry F
  collected_entry msg c collection_id u = record u {
    last_collection_id = some collection_id;
    last_collection_date_time = some c.created_at;
    unpaid_service_fee = some (d.float.sub msg.unpaid_service_fee c.collected_service_fee);
  }

  unfoldable pub full_data_writes :
      ClosedLoanEntry F
      → UnpaidLoanEntry F
      → Collections F
      → PromoCollectionPublishedMessage F
      → Go S (Unit {0})
  full_data_writes closed unpaid c msg = do
    Repos.create_closed_loans_entry d closed
    collection_id ← Repos.create_collection_entry d c
    Repos.update_previous_valid_to_field d msg.loan_id
    Repos.create_unpaid_loan_entry d (collected_entry msg c collection_id unpaid)
    Repos.delete_active_loan d msg.loan_id

  unfoldable pub perform_full_data_transaction :
      ClosedLoanEntry F
      → UnpaidLoanEntry F
      → Collections F
      → PromoCollectionPublishedMessage F
      → Go S (Unit {0})
  perform_full_data_transaction closed unpaid c msg =
      Repos.run_transaction d (full_data_writes closed unpaid c msg)

  -- A notification that fails is only logged.
  unfoldable pub finalize_full : PromoCollectionPublishedMessage F → Time → Go S (Unit {0})
  finalize_full msg at = do
    attempt (notify_full d msg)
    Repos.publish_message d (serialize_kafka_message d msg true "" at)
    Repos.delete_entry d msg.msisdn

  unfoldable pub full_data_deduction_handler : PromoCollectionPublishedMessage F → Go S (Unit {0})
  full_data_deduction_handler msg = do
    closed ← build_closed_loan_entry msg
    unpaid ← build_unpaid_loan_entry msg
    c ← build_full_collection_model msg
    perform_full_data_transaction closed unpaid c msg
    finalize_full msg c.created_at
    Repos.update_publish_to_kafka d c.id
