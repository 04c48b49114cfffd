-- ===== src/Tests/WorkerFailures.antt =====
-- Downstream services for the worker's world, and the theorems about messages at concrete inputs.
use promo_collection.Prelude.{
  ℕ, ◌≡◌, refl, subst, String, ◌⊎◌, inr, Option, none, some, [], ℤ, pos, true, count_if, str_eq,
}
use promo_collection.Runtime.{ok, ◌>>=◌}
use promo_collection.Worker.Schema.{PromoCollectionPublishedMessage}
use promo_collection.Prelude.Int.{◌+ℤ◌, ◌-ℤ◌}
use promo_collection.Runtime.Strconv.{itoa}
use promo_collection.Worker.Serializers
use promo_collection.Worker.Repos
use promo_collection.Worker.Failure
use promo_collection.Worker.Requests
use promo_collection.Worker.Failure.{
  Downstream, Failure, api, DecrementWalletSubscriptionError, decrement_wallet_error_handler,
  is_redelivered,
}
use promo_collection.Worker.Failure.Released.{
  Entries, Released, decrement_wallet_error_handler-Released,
}
use promo_collection.Worker.Requests.{consume, untouched, acked}
use promo_collection.Worker.Requests.Redelivery.{Kept, OtherErrors, consume-Kept}
use promo_collection.Tests.Store.{count_if-erase_first}
use promo_collection.Tests.WorkerWorld.{
  World, Value, skip, notification, row, request, deps, subscriber,
}
use promo_collection.Tests.WorkerData.{world, partial_request}

abbrev request_of : Value → Option (PromoCollectionPublishedMessage ℤ)
request_of (skip t) = none
request_of (notification n) = none
request_of (row fields) = none
request_of (request msg) = some msg

abbrev atoi : String → ℤ
atoi t = pos 0

-- The wallet's service answers `r`, and the usage shows no bucket.
abbrev downstream : Unit {0} ⊎ Failure → Downstream World ℤ Value
downstream r = record {
  decrement = λ q w. (ok r, w);
  retrieve = λ q w. (ok [], w);
  upload = none;
  partial_success_handler = λ msg w. (ok tt, w);
  full_success_handler = λ msg w. (ok tt, w);
  kafka_configured = true;
  decode = request_of;
  atoi = atoi;
  parse_float = λ t. none;
}

abbrev entries : String → World → ℕ
entries k w = count_if (λ t. str_eq t.msisdn k) w.in_progress

deps-Entries : (r : Unit {0} ⊎ Failure) (k : String) → Entries deps (downstream r) k (entries k)
deps-Entries r k = record {
  now_kept = record { at = λ s. refl };
  new_object_id_kept = record { at = λ s. refl };
  insert_kept = λ c. record { at = λ s. refl };
  update_kept = λ p f. record { at = λ s. refl };
  sent_kept = λ b. record { at = λ s. refl };
  retrieve_kept = λ q. record { at = λ s. refl };
  decrement_kept = λ q. record { at = λ s. refl };
  deleted = λ s. (refl, count_if-erase_first _ s.in_progress);
}

abbrev no_connection : DecrementWalletSubscriptionError
no_connection = record {
  result_code = "";
  description = "";
  error_code = "OUTBOUND_CONN_ERROR";
  error_details = "timeout";
  status_code = pos 500;
  cause = none;
}

abbrev no_wallet : DecrementWalletSubscriptionError
no_wallet = record no_connection { error_code = "1005"; error_details = "no wallet" }

decrement_wallet_error_handler-Released_example :
    let w = downstream (inr (api no_wallet)) in
    let (r, s) = decrement_wallet_error_handler deps w partial_request no_wallet world in
    Released (is_redelivered deps w no_wallet) 1 r (entries subscriber s)
decrement_wallet_error_handler-Released_example =
    decrement_wallet_error_handler-Released deps (downstream (inr (api no_wallet)))
      (deps-Entries _ subscriber) partial_request refl no_wallet world

some-injective : {A : Type 0} {x y : A} → some x ≡ some y → x ≡ y
some-injective h = cc

succeeds-OtherErrors : OtherErrors {S = World} {F = ℤ} (λ msg w. (ok tt, w))
succeeds-OtherErrors msg s e h = cc

consume-Kept_example :
    let w = downstream (inr (api no_connection)) in
    let (r, s) = consume deps w (request partial_request) 7000 world in
    Kept 1 r (entries subscriber s)
consume-Kept_example =
    consume-Kept deps (downstream (inr (api no_connection))) (entries subscriber)
      succeeds-OtherErrors succeeds-OtherErrors (request partial_request) 7000
      (λ e h.
        subst
          (λ m. Entries deps (downstream (inr (api no_connection))) m.msisdn (entries subscriber))
          (some-injective h) (deps-Entries (inr (api no_connection)) subscriber))
      world

-- The message stays for a redelivery, with the entry; where the wallet is missing both are gone.
messages_run :
    ((consume deps (downstream (inr (api no_connection))) (request partial_request) 7000 world).0
      ≡ ok untouched)
    × ((consume deps (downstream (inr (api no_wallet))) (request partial_request) 7000 world).0
        ≡ ok acked)
unfolding ◌>>=◌ ◌+ℤ◌ ◌-ℤ◌ itoa Serializers.serialize_collections Serializers.serialized_collection
    Serializers.base_collection Serializers.base_kafka_message Serializers.serialize_kafka_message
    Serializers.token_payment_id Repos.create_collection_entry Repos.delete_entry
    Repos.update_publish_to_kafka Repos.publish_message Repos.csv_record
    Repos.format_payload_as_csv_bytes decrement_wallet_error_handler is_redelivered
    Failure.publish_kafka_failure_if_configured Failure.mark_sent Failure.error_code_of
    Failure.handle_business_or_non_outbound_conn_error Failure.is_non_api_error consume
    Requests.handle_promo_collection_message Requests.handle_event Requests.is_valid
    Requests.request_wallet Requests.decremented Requests.handle_decrement_error
    Requests.handle_action_result Requests.delivery_of Requests.decrement_request
messages_run = (refl, refl)
