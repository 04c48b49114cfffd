-- ===== src/Worker/Full/Commit.antt =====
-- The writes of `FullDataDeductionHandler`, in their order.
use promo_collection.Prelude.{◌≡◌, refl, subst, true, List, [], ◌∷◌, some}
use promo_collection.Runtime.{◌>>=◌}
use promo_collection.Runtime.Float64
use promo_collection.Runtime.Keeps.{Keeps, Keeps-attempt, keeps_rules}
use promo_collection.Runtime.Returns.{Returns, Returns-pure, Returns-bind, Returns-Any, Any}
use promo_collection.Runtime.Logs.{
  Logs, Atomic, Commits, Committed, Logs-one, Logs-bind, Logs-frame, Commits-bind, Commits-value,
}
use promo_collection.Runtime.Time.{Time}
use promo_collection.Driver.{ObjectId}
use promo_collection.Worker.Schema.{
  full_collection_type, PromoCollectionPublishedMessage, Collections, UnpaidLoanEntry,
  ClosedLoanEntry,
}
use promo_collection.Worker.Deps.{Deps}
use promo_collection.Worker.Laws.{
  Write, loan_closed, collection_created, unpaid_ended, unpaid_created, loan_deleted,
  kafka_published, entry_deleted, collection_marked, Records,
}
use promo_collection.Worker.Serializers
use promo_collection.Worker.Repos
use promo_collection.Worker.Frames
use promo_collection.Worker.Full

module _ {S F B : Type 0} (d : Deps S F B) where
  abbrev zero : F
  zero = Float64.zero d.float

  -- The writes of the transaction: `fee` is the service fee that the collection says is collected.
  abbrev pub full_tx : PromoCollectionPublishedMessage F → F → List (Write F)
  full_tx msg fee =
      loan_closed msg.loan_id msg.total_loan_amount_in_peso
      ∷ collection_created msg.amount_to_be_deducted_in_peso zero
      ∷ unpaid_ended
      ∷ unpaid_created msg.loan_id zero (some (d.float.sub msg.unpaid_service_fee fee))
      ∷ loan_deleted msg.loan_id
      ∷ []

  -- The writes after it.
  abbrev pub finalized : PromoCollectionPublishedMessage F → List (Write F)
  finalized msg = kafka_published ∷ entry_deleted msg.msisdn ∷ collection_marked ∷ []

  abbrev IsClosed : PromoCollectionPublishedMessage F → ClosedLoanEntry F → Type 0
  IsClosed msg e =
      (e.loan_id ≡ msg.loan_id) × (e.total_collected_amount ≡ msg.total_loan_amount_in_peso)

  abbrev IsPaid : PromoCollectionPublishedMessage F → UnpaidLoanEntry F → Type 0
  IsPaid msg u = (u.loan_id ≡ msg.loan_id) × (u.total_unpaid_amount ≡ zero)

  abbrev IsCollected : PromoCollectionPublishedMessage F → F → Collections F → Type 0
  IsCollected msg fee c =
      (c.collected_amount ≡ msg.amount_to_be_deducted_in_peso)
      × (c.total_unpaid ≡ zero)
      × (c.collected_service_fee ≡ fee)

  -- For a full collection `SerializeCollections` has all of the service fee collected.
  serialized-full_fee :
      (msg : PromoCollectionPublishedMessage F) (id : ObjectId) (now : Time)
      → msg.collection_type ≡ full_collection_type
      → (Serializers.serialized_collection d msg true "" "" id now).collected_service_fee
        ≡ msg.service_fee
  unfolding Serializers.serialized_collection
  serialized-full_fee msg id now h = rw h refl

  module _ {view : S → List (Write F)} (msg : PromoCollectionPublishedMessage F)
      (o : Records d msg.loan_id msg.msisdn view)
      (is_full : msg.collection_type ≡ full_collection_type) where
    closed-Keeps : Keeps view (Full.build_closed_loan_entry d msg)
    unfolding Full.build_closed_loan_entry
    closed-Keeps = let clock = o.quiet.now_kept in search (keeps_rules)

    build_closed_loan_entry-Returns : Returns (IsClosed msg) (Full.build_closed_loan_entry d msg)
    unfolding Full.build_closed_loan_entry
    build_closed_loan_entry-Returns =
        Returns-bind Any _ _ (Returns-Any _) (λ now h. Returns-pure _ (refl, refl))

    unpaid-Keeps : Keeps view (Full.build_unpaid_loan_entry d msg)
    unfolding Full.build_unpaid_loan_entry
    unpaid-Keeps = let clock = o.quiet.now_kept in search (keeps_rules)

    unpaid-Returns : Returns (IsPaid msg) (Full.build_unpaid_loan_entry d msg)
    unfolding Full.build_unpaid_loan_entry
    unpaid-Returns =
        Returns-bind Any _ _ (Returns-Any _)
          (λ from h. Returns-bind Any _ _ (Returns-Any _) (λ to k. Returns-pure _ (refl, refl)))

    collection-Keeps : Keeps view (Full.build_full_collection_model d msg)
    unfolding Full.build_full_collection_model
    collection-Keeps =
        let clock = o.quiet.now_kept in
        search (keeps_rules, Frames.serialize_collections-Keeps d o.quiet)

    collection-Returns :
        Returns (IsCollected msg msg.service_fee) (Full.build_full_collection_model d msg)
    unfolding Full.build_full_collection_model Full.full_collection
        Serializers.serialize_collections
    collection-Returns =
        Returns-bind (λ c. c.collected_service_fee ≡ msg.service_fee) _ _
          (Returns-bind Any _ _ (Returns-Any _) (λ id h.
            Returns-bind Any _ _ (Returns-Any _)
              (λ now k. Returns-pure _ (serialized-full_fee msg id now is_full))))
          (λ c e. Returns-bind Any _ _ (Returns-Any _) (λ now h. Returns-pure _ (refl, refl, e)))

    writes-Logs :
        (closed : ClosedLoanEntry F) (unpaid : UnpaidLoanEntry F) (c : Collections F)
        → Logs view (Full.full_data_writes d closed unpaid c msg) (
            loan_closed closed.loan_id closed.total_collected_amount
            ∷ collection_created c.collected_amount c.total_unpaid
            ∷ unpaid_ended
            ∷ unpaid_created unpaid.loan_id unpaid.total_unpaid_amount
                (some (d.float.sub msg.unpaid_service_fee c.collected_service_fee))
            ∷ loan_deleted msg.loan_id
            ∷ [])
    unfolding Full.full_data_writes Full.collected_entry Repos.create_collection_entry
        Repos.delete_active_loan
    writes-Logs closed unpaid c =
        Logs-bind _ _ (_ ∷ []) _ (Frames.create_closed_loans_entry-Logs d o closed) (λ a.
          Logs-bind _ _ (_ ∷ []) _ (Logs-one _ _ (o.collection_recorded c)) (λ id.
            Logs-bind _ _ (_ ∷ []) _ (Frames.update_previous_valid_to_field-Logs d o _) (λ b.
              Logs-bind _ _ (_ ∷ []) _ (Frames.create_unpaid_loan_entry-Logs d o _)
                (λ e. Logs-one _ _ (o.loan_delete_recorded)))))

    after-Logs :
        (at : Time) (id : ObjectId)
        → Logs view
            (Full.finalize_full d msg at >>= λ a. Repos.update_publish_to_kafka d id)
            (finalized msg)
    unfolding Full.finalize_full Repos.delete_entry Repos.update_publish_to_kafka
    after-Logs at id =
        Logs-bind _ _ (_ ∷ _ ∷ []) _
          (Logs-frame _ _ _ (Keeps-attempt _ (Frames.notify_full-Keeps d o.quiet msg)) (λ a.
            Logs-bind _ _ (_ ∷ []) _ (Frames.publish_message-Logs d o _)
              (λ b. Logs-one _ _ (o.entry_delete_recorded))))
          (λ a. Logs-one _ _ (o.mark_recorded id))

    transaction-Atomic :
        (closed : ClosedLoanEntry F) (unpaid : UnpaidLoanEntry F) (c : Collections F)
        → IsClosed msg closed
        → IsPaid msg unpaid
        → IsCollected msg msg.service_fee c
        → Atomic view
            (Full.perform_full_data_transaction d closed unpaid c msg)
            (full_tx msg msg.service_fee)
    unfolding Full.perform_full_data_transaction
    transaction-Atomic closed unpaid c (p, q) (r, s) (x, y, z) =
        subst
          (λ es.
            Atomic view (Repos.run_transaction d (Full.full_data_writes d closed unpaid c msg)) es)
          (cc) (Frames.run_transaction-Atomic d o _ _ (writes-Logs closed unpaid c))

    handler-Commits :
        Commits view
          (Full.full_data_deduction_handler d msg)
          (full_tx msg msg.service_fee)
          (finalized msg)
    unfolding Full.full_data_deduction_handler
    handler-Commits =
        Commits-value _ _ _ _ closed-Keeps build_closed_loan_entry-Returns (λ closed p.
          Commits-value _ _ _ _ unpaid-Keeps unpaid-Returns (λ unpaid q.
            Commits-value _ _ _ _ collection-Keeps collection-Returns (λ c r.
              Commits-bind _ _ _ _ (transaction-Atomic closed unpaid c p q r)
                (λ a. after-Logs c.created_at c.id))))

  -- Where a transaction writes all or nothing: for the request of a full collection the handler
  -- makes, in this order, the writes of the transaction (the loan closed with its total amount,
  -- the collection, the end of the previous unpaid document, the new one with nothing unpaid, and
  -- the deletion of the loan), then the Kafka message, the deletion of the in-progress entry and
  -- the mark of the collection as published. If it succeeds it has made all of them; if it fails
  -- or panics, either none, or all of the transaction and some of the first of the others.
  pub full_data_deduction_handler-Committed :
      (view : S → List (Write F))
      → (msg : PromoCollectionPublishedMessage F) → Records d msg.loan_id msg.msisdn view
      → msg.collection_type ≡ full_collection_type
      → (s : S)
      → let (r, s') = Full.full_data_deduction_handler d msg s in
        Committed (full_tx msg msg.service_fee) (finalized msg) (view s) r (view s')
  full_data_deduction_handler-Committed view msg o h s = (handler-Commits msg o h).at s
