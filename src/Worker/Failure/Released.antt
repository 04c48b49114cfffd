-- ===== src/Worker/Failure/Released.antt =====
-- When the error handler of a failed decrement gives up the in-progress entry.
use promo_collection.Prelude.{
  ℕ, ◌-◌, ◌≡◌, refl, ap, ◌≢◌, ◌⊎◌, inl, inr, String, Bool, true, false, str_eq, Bool-cases,
  if◌then◌else◌,
}
use promo_collection.Runtime.{Outcome, ok, err, panic, Error, attempt, attempted, pure, ◌>>=◌}
use promo_collection.Runtime.Keeps.{
  Keeps, Ends, Ends-frame, Ends-pure, Ends-bind, Keeps-attempt, keeps_rules,
}
use promo_collection.Runtime.Time.{Time}
use promo_collection.Driver.{ObjectId}
use promo_collection.Worker.Schema.{
  PromoCollectionPublishedMessage, Collections, KafkaMessageForPublishing,
}
use promo_collection.Worker.Deps.{Deps}
use promo_collection.Worker.Serializers
use promo_collection.Worker.Repos
use promo_collection.Worker.Failure
use promo_collection.Worker.Failure.{
  Downstream, DecrementWalletSubscriptionError, RetrieveSubscriberUsageRequest,
  DecrementWalletSubscriptionRequest, action_ack, action_ignore,
}

-- `view` counts the in-progress entries of the subscriber `k`: deleting one shows and does not fail,
-- and nothing else that happens before a collection is recorded shows.
pub record Entries {S F B : Type 0} (d : Deps S F B) (w : Downstream S F B) (k : String)
    (view : S → ℕ) : Type 0 where
  pub now_kept : Keeps view d.now
  pub new_object_id_kept : Keeps view d.new_object_id
  pub insert_kept : (c : Collections F) → Keeps view (d.collections.insert_one c)
  pub update_kept :
      (p : Collections F → Bool) (f : Collections F → Collections F)
      → Keeps view (d.collections.update_one p f)
  pub sent_kept : (b : B) → Keeps view (d.kafka.send b)
  pub retrieve_kept : (r : RetrieveSubscriberUsageRequest) → Keeps view (w.retrieve r)
  pub decrement_kept : (r : DecrementWalletSubscriptionRequest) → Keeps view (w.decrement r)
  pub deleted :
      (s : S)
      → let (r, s') = d.in_progress.delete_one (λ t. str_eq t.msisdn k) s in
        (r ≡ ok tt) × (view s' ≡ view s - 1)

-- How the error handler ends: the message is left for a redelivery and the entry kept, or it is
-- acknowledged and the entry given up. An error or a panic comes before that.
abbrev pub Ended : Bool → ℕ → String → ℕ → Type 0
Ended true v action u = (action ≡ action_ignore) × (u ≡ v)
Ended false v action u = (action ≡ action_ack) × (u ≡ v - 1)

abbrev pub Released : Bool → ℕ → Outcome String → ℕ → Type 0
Released b v (ok action) u = Ended b v action u
Released b v (err e) u = u ≡ v
Released b v panic u = u ≡ v

err-ok : {A : Type 0} {e : Error} {a : A} → err e ≢ ok a
err-ok h = cc

panic-ok : {A : Type 0} {a : A} → panic ≢ ok a
panic-ok h = cc

module _ {S F B : Type 0} {view : S → ℕ} (d : Deps S F B) (w : Downstream S F B) {k : String}
    (o : Entries d w k view) where
  pub serialize_collections-Keeps :
      (msg : PromoCollectionPublishedMessage F) (b : Bool) (t u : String)
      → Keeps view (Serializers.serialize_collections d msg b t u)
  unfolding Serializers.serialize_collections
  serialize_collections-Keeps msg b t u =
      let clock = o.now_kept in let ids = o.new_object_id_kept in search keeps_rules

  publish_message-Keeps : (m : KafkaMessageForPublishing F) → Keeps view (Repos.publish_message d m)
  unfolding Repos.publish_message Repos.format_payload_as_csv_bytes
  publish_message-Keeps m = search (keeps_rules, o.sent_kept)

  mark_sent-Keeps : (id : ObjectId) (r : Unit {0} ⊎ Error) → Keeps view (Failure.mark_sent d w id r)
  unfolding Failure.mark_sent Repos.update_publish_to_kafka
  mark_sent-Keeps id (inl t) = search (keeps_rules, o.update_kept)
  mark_sent-Keeps id (inr e) = search keeps_rules

  publish_kafka_failure-Keeps :
      (msg : PromoCollectionPublishedMessage F) (t : String) (at : Time) (id : ObjectId)
      → Keeps view (Failure.publish_kafka_failure_if_configured d w msg t at id)
  unfolding Failure.publish_kafka_failure_if_configured
  publish_kafka_failure-Keeps msg t at id =
      search (keeps_rules, publish_message-Keeps, mark_sent-Keeps)

  delete_entry-Ends :
      (v : ℕ)
      → Ends view v (attempt (Repos.delete_entry d k)) (λ r u. (r ≡ ok (inl tt)) × (u ≡ v - 1))
  unfolding ◌>>=◌ Repos.delete_entry
  delete_entry-Ends v = record {
    from = λ s e. rw (← e) (ap attempted (o.deleted s).0, (o.deleted s).1);
  }

  module _ (msg : PromoCollectionPublishedMessage F) (same : msg.msisdn ≡ k) where
    handle_business-Ends :
        (v : ℕ)
        → Ends view v
            (Failure.handle_business_or_non_outbound_conn_error d w msg)
            (Released false v)
    unfolding Failure.handle_business_or_non_outbound_conn_error
    handle_business-Ends v = rw same (
        Ends-bind _ _ _ (delete_entry-Ends v) (λ a u h. Ends-pure action_ack (refl, h.1))
          (λ e u h. absurd (err-ok h.0)) (λ u h. absurd (panic-ok h.0)))

    redelivery-Ends :
        (e : DecrementWalletSubscriptionError) (v : ℕ)
        → Ends view v
            (if Failure.is_redelivered d w e
              then pure action_ignore
              else Failure.handle_business_or_non_outbound_conn_error d w msg)
            (Released (Failure.is_redelivered d w e) v)
    redelivery-Ends e v = elim (Bool-cases (Failure.is_redelivered d w e)) [
      | inl h ↦ rw h (Ends-pure action_ignore (refl, refl))
      | inr h ↦ rw h (handle_business-Ends v)
    ]

    pub handler-Ends :
        (e : DecrementWalletSubscriptionError) (v : ℕ)
        → Ends view v
            (Failure.decrement_wallet_error_handler d w msg e)
            (Released (Failure.is_redelivered d w e) v)
    unfolding Failure.decrement_wallet_error_handler Repos.create_collection_entry
    handler-Ends e v =
        Ends-frame _ _ (serialize_collections-Keeps _ _ _ _)
          (λ c.
            Ends-frame _ _ (Keeps-attempt _ (o.insert_kept c))
              (λ id.
                Ends-frame _ _ (publish_kafka_failure-Keeps _ _ _ _) (λ t. redelivery-Ends e v)
                  (λ x. refl) refl)
              (λ x. refl) refl)
          (λ x. refl) refl

  -- Where a delete does not fail: after a failed decrement the error handler either returns IGNORE
  -- and the number of in-progress entries is what it was, if the code is that of a system error or
  -- the outbound connection failed, or it returns ACK and one entry less is in progress; an error
  -- or a panic leaves the number as it was.
  pub decrement_wallet_error_handler-Released :
      (msg : PromoCollectionPublishedMessage F)
      → msg.msisdn ≡ k
      → (e : DecrementWalletSubscriptionError) (s : S)
      → let (r, s') = Failure.decrement_wallet_error_handler d w msg e s in
        Released (Failure.is_redelivered d w e) (view s) r (view s')
  decrement_wallet_error_handler-Released msg same e s =
      (handler-Ends msg same e (view s)).from s refl
