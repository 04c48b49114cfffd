-- ===== src/Worker/Failure.antt =====
-- internal/service/error_handling: what is recorded where the wallet could not be decremented, or
-- its usage could not be read. Also the errors of internal/pkg/downstream/error_handling and the
-- messages of internal/pkg/models/downstream.go.
pub mod Released
use promo_collection.Prelude.{
  String, ℤ, pos, negsuc, Bool, true, false, not, ◌&&◌, ◌||◌, ◌⊎◌, inl, inr, Option, none, some,
  List, str_eq, eqb_ℤ, if◌then◌else◌,
}
use promo_collection.Runtime.{Go, Error, message, pure, fail, attempt, ◌>>=◌, ◌>>◌}
use promo_collection.Runtime.Time.{Time}
use promo_collection.Driver.{ObjectId}
use promo_collection.Worker.Schema.{
  PromoCollectionPublishedMessage, partial_collection_type, full_collection_type,
}
use promo_collection.Worker.Deps.{Deps}
use promo_collection.Worker.Serializers.{serialize_collections, serialize_kafka_message}
use promo_collection.Worker.Repos

pub record DecrementWalletSubscriptionError : Type 0 where
  pub result_code : String
  pub description : String
  pub error_code : String
  pub error_details : String
  pub status_code : ℤ
  pub cause : Option Error

abbrev has_cause : Option Error → Bool
has_cause none = false
has_cause (some x) = true

unfoldable pub is_non_api_error : DecrementWalletSubscriptionError → Bool
is_non_api_error e =
    str_eq e.error_code ""
    && str_eq e.error_details ""
    && str_eq e.result_code ""
    && str_eq e.description ""
    && has_cause e.cause

pub record DecrementWalletSubscriptionRequest : Type 0 where
  pub msisdn : String
  pub wallet : String
  pub amount : String
  pub unit : String
  pub is_roll_back : Bool
  pub duration : String
  pub channel : String

pub record RetrieveSubscriberUsageRequest : Type 0 where
  pub msisdn : String
  pub id_type : String
  pub query_type : String
  pub details_flag : ℤ
  pub subscription_type : String

-- Of a bucket the worker reads the id and the volume left, in KB.
pub record Bucket : Type 0 where
  pub bucket_id : String
  pub volume_remaining : ℤ

-- A call's error: the decrement's own, or any other.
pub data Failure : Type 0 where
  api : DecrementWalletSubscriptionError → Failure
  plain : Error → Failure

abbrev pub insufficient_balance : String
insufficient_balance = "deduction didn't happen: insufficient balance"

-- The two downstream services, Cloud Storage where it is configured, the handlers that are injected,
-- and library functions that only this part uses.
pub record Downstream (S F B : Type 0) : Type 0 where
  pub decrement : DecrementWalletSubscriptionRequest → Go S (Unit {0} ⊎ Failure)
  pub retrieve : RetrieveSubscriberUsageRequest → Go S (List Bucket)
  pub upload : Option (PromoCollectionPublishedMessage F → Go S (Unit {0}))
  pub partial_success_handler : PromoCollectionPublishedMessage F → Go S (Unit {0})
  pub full_success_handler : PromoCollectionPublishedMessage F → Go S (Unit {0})
  -- whether the Kafka service is there
  pub kafka_configured : Bool
  -- `json.Unmarshal` of a message
  pub decode : B → Option (PromoCollectionPublishedMessage F)
  -- the number that `strconv.Atoi` returns, with an error too
  pub atoi : String → ℤ
  -- `strconv.ParseFloat`
  pub parse_float : String → Option F

abbrev pub action_ack : String
action_ack = "ACK"

abbrev pub action_nack : String
action_nack = "NACK"

abbrev pub action_ignore : String
action_ignore = "IGNORE"

abbrev status_ok : ℤ
status_ok = pos 200

abbrev pub unknown_text : String
unknown_text = "Unknown response struct format/ non -api error from decrement wallet subscription"

abbrev missing_text : String
missing_text =
    "Subscriber does not have matching data wallet to deduct from (wallet may have expired or exhausted)"

abbrev missing_code : String
missing_code = "MISSING_SUBSCRIBER_WALLET_BUCKET"

abbrev pub unknown_code : String
unknown_code = "UNKNOWN_RESPONSE_STRUCT_FORMAT_OR_NON_API_ERROR"

module _ {S F B : Type 0} (d : Deps S F B) (w : Downstream S F B) where
  unfoldable pub mark_sent : ObjectId → Unit {0} ⊎ Error → Go S (Unit {0})
  mark_sent id (inl t) = do attempt (Repos.update_publish_to_kafka d id); pure tt
  mark_sent id (inr e) = pure tt

  -- Failures are only logged; the collection is marked if the message was sent.
  unfoldable pub publish_kafka_failure_if_configured :
      PromoCollectionPublishedMessage F → String → Time → ObjectId → Go S (Unit {0})
  publish_kafka_failure_if_configured msg text created_at id =
      if w.kafka_configured
      then (do
        sent ←
            attempt (Repos.publish_message d (serialize_kafka_message d msg false text created_at))
        mark_sent id sent)
      else pure tt

  unfoldable pub handle_business_or_non_outbound_conn_error :
      PromoCollectionPublishedMessage F → Go S String
  handle_business_or_non_outbound_conn_error msg = do
    attempt (Repos.delete_entry d msg.msisdn)
    pure action_ack

  -- The code and the text of an error, by whether the call's status was 200.
  unfoldable pub error_code_of : DecrementWalletSubscriptionError → String × String
  error_code_of e =
      if eqb_ℤ e.status_code status_ok
      then (e.result_code, e.description)
      else (e.error_code, e.error_details)

  -- The switch on the error: a system error or a failed outbound connection.
  unfoldable pub is_redelivered : DecrementWalletSubscriptionError → Bool
  is_redelivered e =
      eqb_ℤ (w.atoi (error_code_of e).0) (pos 9000) || str_eq e.error_code "OUTBOUND_CONN_ERROR"

  unfoldable pub decrement_wallet_error_handler :
      PromoCollectionPublishedMessage F → DecrementWalletSubscriptionError → Go S String
  decrement_wallet_error_handler msg e = do
    let (code, text) = error_code_of e
    c ← serialize_collections d msg false text code
    attempt (Repos.create_collection_entry d c)
    publish_kafka_failure_if_configured msg text c.created_at c.id
    if is_redelivered e then pure action_ignore else handle_business_or_non_outbound_conn_error msg

  unfoldable pub handle_unknown_or_non_api_error : PromoCollectionPublishedMessage F → Go S String
  handle_unknown_or_non_api_error msg = do
    c ← serialize_collections d msg false unknown_text unknown_code
    attempt (Repos.create_collection_entry d c)
    attempt (Repos.delete_entry d msg.msisdn)
    if w.kafka_configured
        then (do
          attempt (
              Repos.publish_message d
                (serialize_kafka_message d msg false unknown_text c.created_at))
          pure action_ack)
        else pure action_ack

  -- `HandleError` with the status 200: the usage was read, but the wallet is not in it.
  unfoldable pub handle_missing_bucket : PromoCollectionPublishedMessage F → Go S (Unit {0})
  handle_missing_bucket msg = do
    c ← serialize_collections d msg false missing_text missing_code
    attempt (Repos.create_collection_entry d c)
    attempt (Repos.delete_entry d msg.msisdn)
    publish_kafka_failure_if_configured msg missing_text c.created_at c.id

  unfoldable pub upload_to :
      Option (PromoCollectionPublishedMessage F → Go S (Unit {0}))
      → PromoCollectionPublishedMessage F
      → Go S (Unit {0})
  upload_to none msg = pure tt
  upload_to (some upload) msg = do attempt (upload msg); pure tt

  -- `HandleError` with no status: the request is kept in Cloud Storage.
  unfoldable pub handle_usage_error : PromoCollectionPublishedMessage F → Go S (Unit {0})
  handle_usage_error msg = upload_to w.upload msg

  unfoldable pub run_success_handler : PromoCollectionPublishedMessage F → Go S (Unit {0})
  run_success_handler msg =
      if str_eq msg.collection_type partial_collection_type
      then w.partial_success_handler msg
      else if str_eq msg.collection_type full_collection_type
      then w.full_success_handler msg
      else pure tt

  -- Whether the wallet has lost what was to be deducted; the volume left is in KB.
  unfoldable pub balance_checked :
      PromoCollectionPublishedMessage F → Bucket → Option F → Go S (Unit {0})
  balance_checked msg bucket none = handle_missing_bucket msg
  balance_checked msg bucket (some amount) =
      let remaining =
        d.float.div (d.float.of_int bucket.volume_remaining) (d.float.of_int (pos 1024)) in
      if d.float.le msg.data_to_be_deducted (d.float.sub amount remaining)
      then run_success_handler msg
      else fail (message insufficient_balance)

  unfoldable pub check_and_process_balance :
      PromoCollectionPublishedMessage F → Bucket → Go S (Unit {0})
  check_and_process_balance msg bucket =
      balance_checked msg bucket (w.parse_float msg.wallet_amount)
