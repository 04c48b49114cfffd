-- ===== src/Worker/Serializers.antt =====
-- internal/pkg/common/serializers.go: what is stored and sent about a collection.
pub mod Accounts
use Prim.Native.String.{◌++◌}
use promo_collection.Prelude.{String, Bool, true, false, str_eq, if◌then◌else◌}
use promo_collection.Runtime.{Go, pure, ◌>>=◌}
use promo_collection.Runtime.Float64
use promo_collection.Runtime.Time.{Time}
use promo_collection.Runtime.Strconv.{itoa}
use promo_collection.Driver.{ObjectId, nil_id}
use promo_collection.Worker.Schema.{
  PromoCollectionPublishedMessage, KafkaMessageForPublishing, Collections, collection_category_data,
  method_auto, partial_collection_type, full_collection_type,
}
use promo_collection.Worker.Deps.{Deps}

module _ {S F B : Type 0} (d : Deps S F B) where
  zero : F
  zero = Float64.zero d.float

  unfoldable pub calculate_unpaid_service_fee : F → F → F
  unfolding zero
  calculate_unpaid_service_fee amount fee =
      if d.float.le fee amount then zero else d.float.sub fee amount

  unfoldable pub token_payment_id : PromoCollectionPublishedMessage F → String
  token_payment_id msg = itoa msg.svc_id ++ "-" ++ msg.denom

  -- The fields that the composite literal sets; the others have their zero values.
  unfoldable pub base_collection :
      PromoCollectionPublishedMessage F → ObjectId → Time → Collections F
  unfolding zero
  base_collection msg id now = record {
    id = id;
    msisdn = msg.msisdn;
    ageing = msg.ageing;
    availment_transaction_id = msg.availment_transaction_id;
    collected_amount = zero;
    collection_category = collection_category_data;
    collection_type = msg.collection_type;
    created_at = now;
    error_text = "";
    loan_id = msg.loan_id;
    method = method_auto;
    payment_channel = msg.channel;
    published_to_kafka = false;
    result = false;
    service_fee = msg.service_fee;
    token_payment_id = token_payment_id msg;
    total_collected_amount = zero;
    unpaid_loan_id = nil_id;
    total_unpaid = zero;
    error_code = "";
    unpaid_service_fee = zero;
    kafka_transaction_id = "";
    data_collected = zero;
    transaction_id = msg.data_collection_request_trace_id;
    collected_service_fee = zero;
    unpaid_loan_amount = zero;
  }

  -- The switch on the kind of collection; another kind sets nothing.
  unfoldable pub with_amounts : PromoCollectionPublishedMessage F → Collections F → Collections F
  unfolding calculate_unpaid_service_fee zero
  with_amounts msg c =
      let amount = msg.amount_to_be_deducted_in_peso in
      let total_unpaid = d.float.sub msg.total_unpaid_amount_in_peso amount in
      let unpaid_fee = calculate_unpaid_service_fee amount msg.unpaid_service_fee in
      let collected_fee = d.float.sub msg.service_fee unpaid_fee in
      if str_eq msg.collection_type partial_collection_type
      then record c {
        total_collected_amount = d.float.add amount msg.total_loan_amount_in_peso;
        total_unpaid = total_unpaid;
        unpaid_service_fee = unpaid_fee;
        collected_service_fee = collected_fee;
        unpaid_loan_amount = d.float.sub total_unpaid (d.float.sub msg.service_fee collected_fee);
      }
      else if str_eq msg.collection_type full_collection_type
      then record c {
        total_collected_amount = msg.total_loan_amount_in_peso;
        total_unpaid = zero;
        unpaid_service_fee = zero;
        collected_service_fee = msg.service_fee;
        unpaid_loan_amount = zero;
      }
      else c

  unfoldable pub serialized_collection :
      PromoCollectionPublishedMessage F → Bool → String → String → ObjectId → Time → Collections F
  unfolding base_collection with_amounts zero
  serialized_collection msg true details code id now =
      with_amounts msg (record (base_collection msg id now) {
        collected_amount = msg.amount_to_be_deducted_in_peso;
        result = true;
        error_text = "";
        error_code = "";
        unpaid_loan_id = msg.unpaid_loan_id;
        data_collected = msg.data_to_be_deducted;
      })
  serialized_collection msg false details code id now = record (base_collection msg id now) {
    collected_amount = zero;
    result = false;
    error_text = details;
    error_code = code;
    total_collected_amount =
        d.float.sub msg.total_loan_amount_in_peso msg.total_unpaid_amount_in_peso;
    total_unpaid = msg.total_unpaid_amount_in_peso;
    unpaid_service_fee = msg.unpaid_service_fee;
    unpaid_loan_id = msg.unpaid_loan_id;
    data_collected = zero;
    collected_service_fee = zero;
    unpaid_loan_amount = d.float.sub msg.total_unpaid_amount_in_peso msg.unpaid_service_fee;
  }

  unfoldable pub serialize_collections :
      PromoCollectionPublishedMessage F → Bool → String → String → Go S (Collections F)
  serialize_collections msg is_success details code = do
    id ← d.new_object_id
    now ← d.now
    pure (serialized_collection msg is_success details code id now)

  unfoldable pub base_kafka_message :
      PromoCollectionPublishedMessage F → Time → KafkaMessageForPublishing F
  unfolding zero token_payment_id
  base_kafka_message msg at = record {
    transaction_id = msg.data_collection_request_trace_id;
    availment_id = msg.guid;
    collection_date_time = at;
    method = method_auto;
    loan_ageing = msg.ageing;
    collected_loan_amount = zero;
    collected_service_fee = zero;
    unpaid_loan_amount = zero;
    unpaid_service_fee = zero;
    result = "";
    collection_error_text = "";
    msisdn = msg.msisdn;
    collection_category = msg.collection_type;
    payment_channel = msg.channel;
    collection_type = collection_category_data;
    collected_amount = zero;
    total_unpaid = zero;
    token_payment_id = token_payment_id msg;
    data_collected = zero;
  }

  unfoldable pub serialize_kafka_message :
      PromoCollectionPublishedMessage F → Bool → String → Time → KafkaMessageForPublishing F
  unfolding base_kafka_message calculate_unpaid_service_fee zero
  serialize_kafka_message msg true details at =
      let collected =
        d.float.add (d.float.sub msg.total_loan_amount_in_peso msg.total_unpaid_amount_in_peso)
          msg.amount_to_be_deducted_in_peso in
      let unpaid_fee =
        if d.float.le msg.unpaid_service_fee msg.amount_to_be_deducted_in_peso
        then zero
        else d.float.sub msg.unpaid_service_fee msg.amount_to_be_deducted_in_peso in
      record (base_kafka_message msg at) {
        collected_amount = msg.amount_to_be_deducted_in_peso;
        result = "Success";
        collection_error_text = "";
        collected_loan_amount = collected;
        collected_service_fee = d.float.sub msg.service_fee unpaid_fee;
        total_unpaid = d.float.sub msg.total_loan_amount_in_peso collected;
        unpaid_loan_amount = d.float.sub msg.total_loan_amount_in_peso collected;
        unpaid_service_fee = unpaid_fee;
        data_collected = msg.data_to_be_deducted;
      }
  serialize_kafka_message msg false details at = record (base_kafka_message msg at) {
    collected_amount = zero;
    result = "Fail";
    collection_error_text = details;
    collected_loan_amount =
        d.float.sub msg.total_loan_amount_in_peso msg.total_unpaid_amount_in_peso;
    collected_service_fee = d.float.sub msg.service_fee msg.unpaid_service_fee;
    total_unpaid = msg.total_unpaid_amount_in_peso;
    unpaid_loan_amount = msg.total_unpaid_amount_in_peso;
    unpaid_service_fee = msg.unpaid_service_fee;
    data_collected = zero;
  }
