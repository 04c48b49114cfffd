-- ===== src/Tests/WorkerData.antt =====
-- A subscriber whose request reaches the worker, and runs of success handling.
use promo_collection.Prelude.{◌≡◌, refl, ℤ, String, false, none, some, List, [], ◌∷◌, pos, length}
use promo_collection.Runtime.{ok, ◌>>=◌}
use promo_collection.Worker.Schema.{
  PromoCollectionPublishedMessage, UnpaidLoanEntry, full_event, partial_event,
}
use promo_collection.Worker.Laws.{
  loan_closed, collection_created, unpaid_ended, unpaid_created, loan_updated, loan_deleted,
  kafka_published, entry_deleted, collection_marked,
}
use promo_collection.Prelude.Int.{◌+ℤ◌, ◌-ℤ◌}
use promo_collection.Runtime.Strconv.{itoa}
use promo_collection.Runtime.Time.{add_hours, days_between}
use promo_collection.Worker.Serializers
use promo_collection.Worker.Repos
use promo_collection.Worker.Notify
use promo_collection.Worker.Full
use promo_collection.Worker.Partial
use promo_collection.Worker.Full.{full_data_deduction_handler}
use promo_collection.Worker.Partial.{partial_data_deduction_handler}
use promo_collection.Tests.WorkerWorld.{World, deps, subscriber, loan_seven, entry_seven}

-- Twenty pesos of fifty are unpaid, with all of the service fee of five.
abbrev pub partial_request : PromoCollectionPublishedMessage ℤ
partial_request = record {
  msisdn = subscriber;
  unit = "MB";
  is_roll_back = false;
  duration = "200";
  channel = "Dodrio";
  svc_id = pos 8812;
  denom = "99";
  wallet_keyword = "GOSURF";
  wallet_amount = "1000";
  svc_denom_combined = "8812-99";
  kafka_id = pos 1;
  collection_type = "P";
  ageing = pos 12;
  availment_transaction_id = 11;
  loan_id = 7;
  unpaid_loan_id = 21;
  service_fee = pos 5;
  total_loan_amount_in_peso = pos 50;
  total_unpaid_amount_in_peso = pos 20;
  amount_to_be_deducted_in_peso = pos 8;
  unpaid_service_fee = pos 5;
  data_to_be_deducted = pos 160;
  last_collection_date_time = 0;
  last_collection_id = 0;
  start_date = 1000;
  brand_id = 4;
  loan_product_id = 9;
  loan_type = "PROMO SKU";
  data_collection_request_trace_id = "trace";
  guid = "guid";
  version = pos 2;
  publish_time = 0;
}

abbrev pub full_request : PromoCollectionPublishedMessage ℤ
full_request = record partial_request {
  collection_type = "F";
  amount_to_be_deducted_in_peso = pos 20;
}

-- Two pesos of the service fee are still unpaid.
abbrev pub second_request : PromoCollectionPublishedMessage ℤ
second_request = record partial_request { unpaid_service_fee = pos 2 }

abbrev pub unpaid_document : UnpaidLoanEntry ℤ
unpaid_document = record {
  id = 21;
  loan_id = 7;
  total_unpaid_amount = pos 20;
  valid_from = 50;
  valid_to = none;
  version = pos 2;
  migrated = false;
  total_loan_amount = some (pos 50);
  last_collection_id = none;
  last_collection_date_time = none;
  unpaid_service_fee = some (pos 5);
}

abbrev pub names : List String
names = "DATA" ∷ "AMOUNT" ∷ "SKU_NAME" ∷ "LOAN_DATE" ∷ "REMAINING" ∷ "DAYS" ∷ []

abbrev pub world : World
world = record {
  clock = 5000;
  next_id = 100;
  rules = record { grace_period = pos 48 } ∷ [];
  loans = loan_seven ∷ [];
  closed_loans = [];
  unpaid_loans = unpaid_document ∷ [];
  collections = [];
  in_progress = entry_seven ∷ [];
  messages =
      record { pattern_id = pos 1; event = full_event; parameters = names; brand_id = 4 }
      ∷ record { pattern_id = pos 2; event = partial_event; parameters = names; brand_id = 4 }
      ∷ [];
  loan_products = record { id = 9; name = "SURF" } ∷ [];
  redis = [];
  notifications = [];
  rows = [];
  log = [];
}

full_runs :
    let (r, w) = full_data_deduction_handler deps full_request world in
    (r ≡ ok tt)
    × (w.log
        ≡ loan_closed 7 (pos 50)
          ∷ collection_created (pos 20) (pos 0)
          ∷ unpaid_ended
          ∷ unpaid_created 7 (pos 0) (some (pos 0))
          ∷ loan_deleted 7
          ∷ kafka_published
          ∷ entry_deleted subscriber
          ∷ collection_marked
          ∷ [])
    × (length w.loans ≡ 0)
    × (length w.notifications ≡ 1)
unfolding ◌>>=◌ ◌+ℤ◌ ◌-ℤ◌ itoa Serializers.serialize_collections Serializers.serialized_collection
    Serializers.base_collection Serializers.with_amounts Serializers.calculate_unpaid_service_fee
    Serializers.base_kafka_message Serializers.serialize_kafka_message Serializers.token_payment_id
    Repos.run_transaction Repos.create_collection_entry Repos.update_previous_valid_to_field
    Repos.create_unpaid_loan_entry Repos.delete_entry Repos.update_publish_to_kafka
    Repos.publish_message Repos.csv_record Repos.format_payload_as_csv_bytes
    Repos.get_pattern_id_by_event_and_brand_id Repos.get_product_name_by_id Repos.next_version
    Notify.format_float Notify.logged Notify.parameter Full.collected_entry
    full_data_deduction_handler Full.build_closed_loan_entry Full.build_unpaid_loan_entry
    Full.build_full_collection_model Full.full_collection Full.perform_full_data_transaction
    Full.full_data_writes Full.finalize_full Repos.create_closed_loans_entry
    Repos.delete_active_loan Notify.notify_full Notify.build_full_notification
full_runs = (refl, refl, refl, refl)

partial_runs :
    let (r, w) = partial_data_deduction_handler deps partial_request world in
    (r ≡ ok tt)
    × (w.log
        ≡ loan_updated (pos 12)
          ∷ unpaid_ended
          ∷ collection_created (pos 8) (pos 12)
          ∷ unpaid_created 7 (pos 12) (some (pos 0))
          ∷ kafka_published
          ∷ entry_deleted subscriber
          ∷ collection_marked
          ∷ [])
    × (length w.in_progress ≡ 0)
    × (length w.redis ≡ 1)
unfolding ◌>>=◌ ◌+ℤ◌ ◌-ℤ◌ itoa Serializers.serialize_collections Serializers.serialized_collection
    Serializers.base_collection Serializers.with_amounts Serializers.calculate_unpaid_service_fee
    Serializers.base_kafka_message Serializers.serialize_kafka_message Serializers.token_payment_id
    Repos.run_transaction Repos.create_collection_entry Repos.update_previous_valid_to_field
    Repos.create_unpaid_loan_entry Repos.delete_entry Repos.update_publish_to_kafka
    Repos.publish_message Repos.csv_record Repos.format_payload_as_csv_bytes
    Repos.get_pattern_id_by_event_and_brand_id Repos.get_product_name_by_id Repos.next_version
    Notify.format_float Notify.logged Notify.parameter Full.collected_entry
    partial_data_deduction_handler Partial.fetch_loan_and_compute
    Partial.prepare_partial_collection_model Partial.build_partial_unpaid_loan_entry
    Partial.partial_collection Partial.perform_partial_data_transaction Partial.partial_data_writes
    Repos.update_loan_document Partial.insert_skip_timestamps_in_redis
    Partial.publish_notification_and_finalize Repos.get_loan_by_msisdn
    Repos.fetch_system_level_rules_configuration Repos.hours Notify.notify_partial
    Notify.build_partial_notification add_hours days_between
partial_runs = (refl, refl, refl, refl)
