-- ===== src/Worker/Requests.antt =====
-- internal/service/pubsub/pubsub_service.go: what becomes of a request, and the callback of
-- `Consume` of internal/pkg/pubsub/consumer.go, which acknowledges it. Also `FindMatchingBucketId`
-- of internal/pkg/downstream/retrieve_subscriber_usage.go.
use Prim.Native.String.{◌++◌}
pub mod Redelivery
use promo_collection.Prelude.{
  String, ℤ, pos, negsuc, Bool, true, false, not, ◌&&◌, ◌||◌, ◌⊎◌, inl, inr, Option, none, some,
  List, find?, str_eq, eqb_ℤ, if◌then◌else◌,
}
use promo_collection.Runtime.{
  error_text, Go, Error, no_documents, redis_nil, external, message, wrapped, coded, pure, crash,
  or_fail, attempt, ◌>>=◌, ◌>>◌,
}
use promo_collection.Runtime.Time.{Time}
use promo_collection.Worker.Schema.{
  PromoCollectionPublishedMessage, partial_collection_type, full_collection_type,
}
use promo_collection.Worker.Deps.{Deps}
use promo_collection.Worker.Failure
use promo_collection.Worker.Failure.{
  Downstream, Failure, api, plain, DecrementWalletSubscriptionError,
  DecrementWalletSubscriptionRequest, RetrieveSubscriberUsageRequest, Bucket, action_ack,
  action_nack, action_ignore, is_non_api_error, insufficient_balance,
}

-- The error that `HandlePromoCollectionMessage` returns; `ignored` is `MessageIgnoreError`.
pub data Reply : Type 0 where
  failed : Failure → Reply
  ignored : Option Failure → Reply

-- What the callback does with the message: it leaves it alone for a redelivery after the timeout.
pub data Delivery : Type 0 where
  acked nacked untouched : Delivery

unfoldable pub find_matching_bucket : List Bucket → String → Option Bucket
find_matching_bucket buckets keyword = find? (λ b. str_eq b.bucket_id keyword) buckets

-- A nil error stays nil.
abbrev reply_of : Option Failure → Option Reply
reply_of none = none
reply_of (some f) = some (failed f)

unfoldable pub handle_action_result : String × Option Failure → Option Reply
handle_action_result (action, f) =
    if str_eq action action_ack
    then none
    else if str_eq action action_nack
    then reply_of f
    else if str_eq action action_ignore
    then some (ignored f)
    else none

-- The tags `validate:"required"`.
unfoldable pub is_valid : {F : Type 0} → PromoCollectionPublishedMessage F → Bool
is_valid msg = not (str_eq msg.msisdn "") && not (str_eq msg.unit "") && not (str_eq msg.channel "")

unfoldable pub delivery_of : Option Reply → Delivery
delivery_of none = acked
delivery_of (some (failed f)) = nacked
delivery_of (some (ignored f)) = untouched

module _ {S F B : Type 0} (d : Deps S F B) (w : Downstream S F B) where
  unfoldable pub decrement_request :
      PromoCollectionPublishedMessage F → DecrementWalletSubscriptionRequest
  decrement_request msg = record {
    msisdn = msg.msisdn;
    wallet = msg.wallet_keyword;
    amount = d.float.format 0 (d.float.mul msg.data_to_be_deducted (d.float.of_int (pos 1000)));
    unit = "KB";
    is_roll_back = msg.is_roll_back;
    duration = msg.duration;
    channel = msg.channel;
  }

  unfoldable pub usage_request : String → RetrieveSubscriberUsageRequest
  usage_request msisdn = record {
    msisdn = msisdn;
    id_type = "MSISDN";
    query_type = "Data";
    details_flag = pos 1;
    subscription_type = "Prepaid";
  }

  abbrev failure_of : Unit {0} ⊎ Error → Option Failure
  failure_of (inl t) = none
  failure_of (inr e) = some (plain e)

  abbrev action_of : Unit {0} ⊎ Error → String
  action_of (inl t) = action_ack
  action_of (inr e) = if str_eq (error_text e) insufficient_balance then action_nack else action_ack

  unfoldable pub process_bucket :
      PromoCollectionPublishedMessage F → Option Bucket → Go S (String × Option Failure)
  process_bucket msg none = do
    r ← attempt (Failure.handle_missing_bucket d w msg)
    pure (action_ack, failure_of r)
  process_bucket msg (some bucket) = do
    r ← attempt (Failure.check_and_process_balance d w msg bucket)
    pure (action_of r, failure_of r)

  unfoldable pub process_usage :
      PromoCollectionPublishedMessage F → List Bucket ⊎ Error → Go S (String × Option Failure)
  process_usage msg (inl buckets) =
      process_bucket msg (find_matching_bucket buckets msg.wallet_keyword)
  process_usage msg (inr e) = do
    r ← attempt (Failure.handle_usage_error d w msg)
    pure (action_ack, failure_of r)

  unfoldable pub handle_no_response_case :
      PromoCollectionPublishedMessage F → Go S (String × Option Failure)
  handle_no_response_case msg = do
    r ← attempt (w.retrieve (usage_request msg.msisdn))
    process_usage msg r

  -- Where `errors.As` finds no error of the decrement, the condition reads a field of a nil pointer.
  unfoldable pub handle_decrement_error :
      PromoCollectionPublishedMessage F → Failure → Go S (String × Option Failure)
  handle_decrement_error msg (plain x) = crash
  handle_decrement_error msg (api e) =
      let no_response = eqb_ℤ e.status_code (negsuc 0) in
      if is_non_api_error e && not no_response
      then (do
        action ← Failure.handle_unknown_or_non_api_error d w msg
        pure (action, some (api e)))
      else if no_response
      then handle_no_response_case msg
      else (do
        action ← Failure.decrement_wallet_error_handler d w msg e
        pure (action, some (api e)))

  unfoldable pub decremented :
      PromoCollectionPublishedMessage F → Unit {0} ⊎ Failure → Go S (String × Option Failure)
  decremented msg (inl t) = do
    r ← attempt (Failure.run_success_handler d w msg)
    pure (action_ack, failure_of r)
  decremented msg (inr f) = handle_decrement_error msg f

  unfoldable pub request_wallet : PromoCollectionPublishedMessage F → Go S (String × Option Failure)
  request_wallet msg = do r ← w.decrement (decrement_request msg); decremented msg r

  unfoldable pub handle_event :
      Time → Option (PromoCollectionPublishedMessage F) → Go S (Option Reply)
  handle_event published none = pure (some (failed (plain (external "json.Unmarshal"))))
  handle_event published (some event) =
      if is_valid event
      then (do
        r ← request_wallet (record event { publish_time = published })
        pure (handle_action_result r))
      else pure (some (failed (plain (external "validation"))))

  -- The time at which the message was published is in the context.
  unfoldable pub handle_promo_collection_message : B → Time → Go S (Option Reply)
  handle_promo_collection_message bytes published = handle_event published (w.decode bytes)

  unfoldable pub consume : B → Time → Go S Delivery
  consume bytes published = do
    r ← handle_promo_collection_message bytes published
    pure (delivery_of r)
