-- ===== src/Worker/Frames.antt =====
-- The parts of success handling that make no write that the log shows, and the repositories' writes.
use promo_collection.Prelude.{String, ℕ, Bool, List, [], ◌∷◌, Option}
use promo_collection.Runtime.{Go}
use promo_collection.Runtime.Keeps.{Keeps, Keeps-pure, Keeps-wrapping, keeps_rules}
use promo_collection.Runtime.Logs.{Logs, Atomic, Logs-one, Logs-frame, Logs-last, Atomic-frame}
use promo_collection.Runtime.Time.{Time}
use promo_collection.Driver.{ObjectId}
use promo_collection.Worker.Schema.{
  PromoCollectionPublishedMessage, UnpaidLoanEntry, ClosedLoanEntry, Messages,
  KafkaMessageForPublishing,
}
use promo_collection.Worker.Deps.{Deps}
use promo_collection.Worker.Laws.{
  Write, loan_closed, unpaid_ended, unpaid_created, kafka_published, Quiet, Records,
}
use promo_collection.Worker.Serializers
use promo_collection.Worker.Repos
use promo_collection.Worker.Notify

parameter-Keeps :
    {S O : Type 0} {view : S → O} (m : Option Messages) (i : ℕ) (v : String)
    → Keeps view (Notify.parameter m i v)
unfolding Notify.parameter
parameter-Keeps m i v = search keeps_rules

module _ {S F B : Type 0} {view : S → List (Write F)} where
  module _ (d : Deps S F B) (q : Quiet d view) where
    pub serialize_collections-Keeps :
        (msg : PromoCollectionPublishedMessage F) (b : Bool) (t u : String)
        → Keeps view (Serializers.serialize_collections d msg b t u)
    unfolding Serializers.serialize_collections
    serialize_collections-Keeps msg b t u =
        let clock = q.now_kept in let ids = q.new_object_id_kept in search keeps_rules

    pub notify_full-Keeps :
        (msg : PromoCollectionPublishedMessage F) → Keeps view (Notify.notify_full d msg)
    unfolding Notify.notify_full Notify.build_full_notification
        Repos.get_pattern_id_by_event_and_brand_id Repos.get_product_name_by_id
    notify_full-Keeps msg =
        search (keeps_rules, parameter-Keeps, q.messages_kept, q.products_kept, q.notified_kept)
          depth 30

    pub notify_partial-Keeps :
        (msg : PromoCollectionPublishedMessage F) (t : Time)
        → Keeps view (Notify.notify_partial d msg t)
    unfolding Notify.notify_partial Notify.build_partial_notification
        Repos.get_pattern_id_by_event_and_brand_id Repos.get_product_name_by_id
    notify_partial-Keeps msg t =
        let clock = q.now_kept in
        search (keeps_rules, parameter-Keeps, q.messages_kept, q.products_kept, q.notified_kept)
          depth 30

  module _ (d : Deps S F B) {loan_id : ObjectId} {k : String} (o : Records d loan_id k view) where
    pub create_closed_loans_entry-Logs :
        (e : ClosedLoanEntry F)
        → Logs view
            (Repos.create_closed_loans_entry d e)
            (loan_closed e.loan_id e.total_collected_amount ∷ [])
    unfolding Repos.create_closed_loans_entry
    create_closed_loans_entry-Logs e =
        Logs-last _ _ _ (Logs-one _ _ (o.closed_recorded e)) (λ a. Keeps-pure tt)

    pub create_unpaid_loan_entry-Logs :
        (u : UnpaidLoanEntry F)
        → Logs view
            (Repos.create_unpaid_loan_entry d u)
            (unpaid_created u.loan_id u.total_unpaid_amount u.unpaid_service_fee ∷ [])
    unfolding Repos.create_unpaid_loan_entry
    create_unpaid_loan_entry-Logs u =
        Logs-last _ _ _ (Logs-one _ _ (o.unpaid_recorded u)) (λ a. Keeps-pure tt)

    pub update_previous_valid_to_field-Logs :
        (id : ObjectId) → Logs view (Repos.update_previous_valid_to_field d id) (unpaid_ended ∷ [])
    unfolding Repos.update_previous_valid_to_field
    update_previous_valid_to_field-Logs id = Logs-frame _ _ _ (o.quiet.unpaid_kept _) (λ latest.
        Logs-frame _ _ _ o.quiet.now_kept (λ now. Logs-one _ _ (o.unpaid_ended_recorded _ _)))

    pub publish_message-Logs :
        (m : KafkaMessageForPublishing F)
        → Logs view (Repos.publish_message d m) (kafka_published ∷ [])
    unfolding Repos.publish_message Repos.format_payload_as_csv_bytes
    publish_message-Logs m =
        Logs-frame _ _ _ (search keeps_rules)
          (λ b. Logs-last _ _ _ (Logs-one _ _ (o.sent_recorded b)) (λ a. Keeps-pure tt))

    pub run_transaction-Atomic :
        (body : Go S (Unit {0})) (es : List (Write F))
        → Logs view body es
        → Atomic view (Repos.run_transaction d body) es
    unfolding Repos.run_transaction
    run_transaction-Atomic body es h =
        Atomic-frame _ _ _ (Keeps-wrapping _ _ o.quiet.start_kept)
          (λ a. o.transaction_atomic body es h)
