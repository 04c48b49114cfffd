-- ===== src/Worker/Partial.antt =====
-- internal/service/success_handling/partial_data_deduction.go: a part of the loan is paid.
pub mod Accounts
pub mod Commit
use promo_collection.Prelude.{true, false, none, if◌then◌else◌}
use promo_collection.Runtime.{Go, message, pure, or_fail, attempt, ◌>>=◌, ◌>>◌}
use promo_collection.Runtime.Float64
use promo_collection.Runtime.Time.{Time, add_hours}
use promo_collection.Driver.{nil_id}
use Prim.Native.String.{◌++◌}
use promo_collection.Worker.Schema.{
  PromoCollectionPublishedMessage, Collections, UnpaidLoanEntry, Loans, collection_category_data,
  partial_collection_type, method_auto,
}
use promo_collection.Worker.Deps.{Deps}
use promo_collection.Worker.Serializers.{serialize_collections, serialize_kafka_message}
use promo_collection.Worker.Repos
use promo_collection.Worker.Repos.{next_version, hours}
use promo_collection.Worker.Notify.{notify_partial}
use promo_collection.Worker.Full.{collected_entry}

module _ {S F B : Type 0} (d : Deps S F B) where
  zero : F
  zero = Float64.zero d.float

  unfoldable pub fetch_loan_and_compute :
      PromoCollectionPublishedMessage F → Go S (Loans F × F × Time)
  fetch_loan_and_compute msg = do
    loan ← Repos.get_loan_by_msisdn d msg.msisdn
    rules ← Repos.fetch_system_level_rules_configuration d
    now ← d.now
    pure (
      loan,
      d.float.sub msg.total_unpaid_amount_in_peso msg.amount_to_be_deducted_in_peso,
      add_hours now rules.grace_period,
    )

  unfoldable pub build_partial_unpaid_loan_entry :
      PromoCollectionPublishedMessage F → Go S (UnpaidLoanEntry F)
  build_partial_unpaid_loan_entry msg = do
    from ← d.now
    pure (record {
      id = nil_id;
      loan_id = msg.loan_id;
      total_unpaid_amount =
          d.float.sub msg.total_unpaid_amount_in_peso msg.amount_to_be_deducted_in_peso;
      valid_from = from;
      valid_to = none;
      version = next_version msg.version;
      migrated = false;
      total_loan_amount = none;
      last_collection_id = none;
      last_collection_date_time = none;
      unpaid_service_fee = none;
    })

  -- What is set after `SerializeCollections`.
  unfoldable pub partial_collection :
      PromoCollectionPublishedMessage F → Time → F → Collections F → Collections F
  unfolding zero
  partial_collection msg created_at unpaid c =
      let unpaid_fee =
        if d.float.le msg.unpaid_service_fee msg.amount_to_be_deducted_in_peso
        then zero
        else d.float.sub msg.unpaid_service_fee msg.amount_to_be_deducted_in_peso in
      let collected_fee = d.float.sub msg.service_fee unpaid_fee in
      record c {
        collected_amount = msg.amount_to_be_deducted_in_peso;
        collection_category = collection_category_data;
        collection_type = partial_collection_type;
        method = method_auto;
        payment_channel = msg.channel;
        loan_id = msg.loan_id;
        total_collected_amount =
            d.float.add (d.float.sub msg.total_loan_amount_in_peso msg.total_unpaid_amount_in_peso)
              msg.amount_to_be_deducted_in_peso;
        total_unpaid = unpaid;
        unpaid_service_fee = unpaid_fee;
        service_fee = msg.service_fee;
        result = true;
        published_to_kafka = false;
        created_at = created_at;
        data_collected = msg.data_to_be_deducted;
        transaction_id = msg.data_collection_request_trace_id;
        collected_service_fee = collected_fee;
        unpaid_loan_amount = d.float.sub unpaid (d.float.sub msg.service_fee collected_fee);
      }

  unfoldable pub prepare_partial_collection_model :
      PromoCollectionPublishedMessage F → F → Go S (Collections F)
  prepare_partial_collection_model msg unpaid = do
    created_at ← d.now
    c ← serialize_collections d msg true "" ""
    pure (partial_collection msg created_at unpaid c)

  unfoldable pub partial_data_writes :
      Loans F
      → F
      → Time
      → UnpaidLoanEntry F
      → Collections F
      → PromoCollectionPublishedMessage F
      → Go S (Unit {0})
  partial_data_writes loan unpaid grace entry c msg = do
    updated ← Repos.update_loan_document d loan unpaid grace
    Repos.update_previous_valid_to_field d updated.loan_id
    collection_id ← Repos.create_collection_entry d c
    Repos.create_unpaid_loan_entry d (collected_entry d msg c collection_id entry)

  unfoldable pub perform_partial_data_transaction :
      Loans F
      → F
      → Time
      → UnpaidLoanEntry F
      → Collections F
      → PromoCollectionPublishedMessage F
      → Go S (Unit {0})
  perform_partial_data_transaction loan unpaid grace entry c msg =
      Repos.run_transaction d (partial_data_writes loan unpaid grace entry c msg)

  unfoldable pub insert_skip_timestamps_in_redis :
      PromoCollectionPublishedMessage F → Go S (Unit {0})
  insert_skip_timestamps_in_redis msg = do
    rules ← Repos.fetch_system_level_rules_configuration d
    now ← d.now
    b ← or_fail (message "json.Marshal") (
        d.skip_codec.marshal (record { grace_period_timestamp = add_hours now rules.grace_period }))
    d.redis_set ("skipTimestamps:" ++ msg.msisdn) b (hours rules.grace_period)

  -- A notification that fails is only logged.
  unfoldable pub publish_notification_and_finalize :
      PromoCollectionPublishedMessage F → Time → Time → Go S (Unit {0})
  publish_notification_and_finalize msg created_at grace = do
    attempt (notify_partial d msg grace)
    Repos.publish_message d (serialize_kafka_message d msg true "" created_at)
    Repos.delete_entry d msg.msisdn

  -- Skip timestamps that cannot be stored are only logged.
  unfoldable pub partial_data_deduction_handler :
      PromoCollectionPublishedMessage F → Go S (Unit {0})
  partial_data_deduction_handler msg = do
    (loan, unpaid, grace) ← fetch_loan_and_compute msg
    entry ← build_partial_unpaid_loan_entry msg
    c ← prepare_partial_collection_model msg unpaid
    perform_partial_data_transaction loan unpaid grace entry c msg
    attempt (insert_skip_timestamps_in_redis msg)
    publish_notification_and_finalize msg c.created_at grace
    Repos.update_publish_to_kafka d c.id
