-- ===== src/Worker/Partial/Commit.antt =====
-- The writes of `PartialDataDeductionHandler`, in their order.
use promo_collection.Prelude.{◌≡◌, refl, subst, List, [], ◌∷◌, some}
use promo_collection.Runtime.{attempt, ◌>>=◌}
use promo_collection.Runtime.Keeps.{Keeps, Keeps-pure, Keeps-attempt, keeps_rules}
use promo_collection.Runtime.Returns.{Returns, Returns-pure, Returns-bind, Returns-Any, Any}
use promo_collection.Runtime.Logs.{
  Logs, Atomic, Commits, Committed, Logs-one, Logs-bind, Logs-frame, Logs-last, Commits-bind,
  Commits-value,
}
use promo_collection.Runtime.Time.{Time}
use promo_collection.Driver.{ObjectId}
use promo_collection.Worker.Schema.{
  PromoCollectionPublishedMessage, Collections, UnpaidLoanEntry, Loans,
}
use promo_collection.Worker.Deps.{Deps}
use promo_collection.Worker.Laws.{
  Write, collection_created, unpaid_ended, unpaid_created, loan_updated, Records,
}
use promo_collection.Worker.Serializers.{calculate_unpaid_service_fee}
use promo_collection.Worker.Repos
use promo_collection.Worker.Frames
use promo_collection.Worker.Full
use promo_collection.Worker.Full.Commit.{finalized}
use promo_collection.Worker.Partial

module _ {S F B : Type 0} (d : Deps S F B) where
  abbrev remaining : PromoCollectionPublishedMessage F → F
  remaining msg = d.float.sub msg.total_unpaid_amount_in_peso msg.amount_to_be_deducted_in_peso

  -- The service fee that counts as collected: all but what the amount leaves unpaid.
  abbrev pub collected_fee : PromoCollectionPublishedMessage F → F
  collected_fee msg =
      d.float.sub msg.service_fee
        (calculate_unpaid_service_fee d msg.amount_to_be_deducted_in_peso msg.unpaid_service_fee)

  -- The writes of the transaction.
  abbrev pub partial_tx : PromoCollectionPublishedMessage F → List (Write F)
  partial_tx msg =
      loan_updated (remaining msg)
      ∷ unpaid_ended
      ∷ collection_created msg.amount_to_be_deducted_in_peso (remaining msg)
      ∷ unpaid_created msg.loan_id (remaining msg)
          (some (d.float.sub msg.unpaid_service_fee (collected_fee msg)))
      ∷ []

  abbrev IsEntry : PromoCollectionPublishedMessage F → UnpaidLoanEntry F → Type 0
  IsEntry msg u = (u.loan_id ≡ msg.loan_id) × (u.total_unpaid_amount ≡ remaining msg)

  abbrev IsCollected : PromoCollectionPublishedMessage F → F → Collections F → Type 0
  IsCollected msg unpaid c =
      (c.collected_amount ≡ msg.amount_to_be_deducted_in_peso)
      × (c.total_unpaid ≡ unpaid)
      × (c.collected_service_fee ≡ collected_fee msg)

  module _ {view : S → List (Write F)} (msg : PromoCollectionPublishedMessage F)
      (o : Records d msg.loan_id msg.msisdn view) where
    fetch-Keeps : Keeps view (Partial.fetch_loan_and_compute d msg)
    unfolding Partial.fetch_loan_and_compute Repos.get_loan_by_msisdn
        Repos.fetch_system_level_rules_configuration
    fetch-Keeps =
        let clock = o.quiet.now_kept in search (keeps_rules, o.quiet.loans_kept, o.quiet.rules_kept)

    fetch-Returns : Returns (λ r. r.1 ≡ remaining msg) (Partial.fetch_loan_and_compute d msg)
    unfolding Partial.fetch_loan_and_compute
    fetch-Returns = Returns-bind Any _ _ (Returns-Any _) (λ l h.
        Returns-bind Any _ _ (Returns-Any _)
          (λ rules k. Returns-bind Any _ _ (Returns-Any _) (λ now p. Returns-pure _ refl)))

    entry-Keeps : Keeps view (Partial.build_partial_unpaid_loan_entry d msg)
    unfolding Partial.build_partial_unpaid_loan_entry
    entry-Keeps = let clock = o.quiet.now_kept in search keeps_rules

    build_partial_unpaid_loan_entry-Returns :
        Returns (IsEntry msg) (Partial.build_partial_unpaid_loan_entry d msg)
    unfolding Partial.build_partial_unpaid_loan_entry
    build_partial_unpaid_loan_entry-Returns =
        Returns-bind Any _ _ (Returns-Any _) (λ now h. Returns-pure _ (refl, refl))

    collection-Keeps :
        (unpaid : F) → Keeps view (Partial.prepare_partial_collection_model d msg unpaid)
    unfolding Partial.prepare_partial_collection_model
    collection-Keeps unpaid =
        let clock = o.quiet.now_kept in
        search (keeps_rules, Frames.serialize_collections-Keeps d o.quiet)

    collection-Returns :
        (unpaid : F)
        → Returns (IsCollected msg unpaid) (Partial.prepare_partial_collection_model d msg unpaid)
    unfolding Partial.prepare_partial_collection_model Partial.partial_collection
        calculate_unpaid_service_fee
    collection-Returns unpaid =
        Returns-bind Any _ _ (Returns-Any _)
          (λ now h. Returns-bind Any _ _ (Returns-Any _) (λ c k. Returns-pure _ (refl, refl, refl)))

    skip-Keeps : Keeps view (Partial.insert_skip_timestamps_in_redis d msg)
    unfolding Partial.insert_skip_timestamps_in_redis Repos.fetch_system_level_rules_configuration
    skip-Keeps =
        let clock = o.quiet.now_kept in search (keeps_rules, o.quiet.rules_kept, o.quiet.redis_kept)

    update_loan_document-Logs :
        (loan : Loans F) (unpaid : F) (grace : Time)
        → Logs view (Repos.update_loan_document d loan unpaid grace) (loan_updated unpaid ∷ [])
    unfolding Repos.update_loan_document
    update_loan_document-Logs loan unpaid grace =
        Logs-last _ _ _ (Logs-one _ _ (o.loan_update_recorded _ unpaid grace)) (λ a. Keeps-pure _)

    writes-Logs :
        (loan : Loans F) (unpaid : F) (grace : Time) (entry : UnpaidLoanEntry F) (c : Collections F)
        → Logs view (Partial.partial_data_writes d loan unpaid grace entry c msg) (
            loan_updated unpaid
            ∷ unpaid_ended
            ∷ collection_created c.collected_amount c.total_unpaid
            ∷ unpaid_created entry.loan_id entry.total_unpaid_amount
                (some (d.float.sub msg.unpaid_service_fee c.collected_service_fee))
            ∷ [])
    unfolding Partial.partial_data_writes Full.collected_entry Repos.create_collection_entry
    writes-Logs loan unpaid grace entry c =
        Logs-bind _ _ (_ ∷ []) _ (update_loan_document-Logs loan unpaid grace) (λ a.
          Logs-bind _ _ (_ ∷ []) _ (Frames.update_previous_valid_to_field-Logs d o _) (λ b.
            Logs-bind _ _ (_ ∷ []) _ (Logs-one _ _ (o.collection_recorded c))
              (λ id. Frames.create_unpaid_loan_entry-Logs d o _)))

    transaction-Atomic :
        (loan : Loans F) (unpaid : F) (grace : Time) (entry : UnpaidLoanEntry F) (c : Collections F)
        → unpaid ≡ remaining msg
        → IsEntry msg entry
        → IsCollected msg unpaid c
        → Atomic view
            (Partial.perform_partial_data_transaction d loan unpaid grace entry c msg)
            (partial_tx msg)
    unfolding Partial.perform_partial_data_transaction
    transaction-Atomic loan unpaid grace entry c e (p, q) (x, y, z) =
        subst
          (λ es.
            Atomic view
              (Repos.run_transaction d
                (Partial.partial_data_writes d loan unpaid grace entry c msg))
              es)
          (cc) (Frames.run_transaction-Atomic d o _ _ (writes-Logs loan unpaid grace entry c))

    after-Logs :
        (at grace : Time) (id : ObjectId)
        → Logs view
            (attempt (Partial.insert_skip_timestamps_in_redis d msg) >>= λ a.
              Partial.publish_notification_and_finalize d msg at grace >>= λ b.
              Repos.update_publish_to_kafka d id)
            (finalized d msg)
    unfolding Partial.publish_notification_and_finalize Repos.delete_entry
        Repos.update_publish_to_kafka
    after-Logs at grace id = Logs-frame _ _ _ (Keeps-attempt _ skip-Keeps) (λ x.
        Logs-bind _ _ (_ ∷ _ ∷ []) _
          (Logs-frame _ _ _ (Keeps-attempt _ (Frames.notify_partial-Keeps d o.quiet msg grace))
            (λ a.
              Logs-bind _ _ (_ ∷ []) _ (Frames.publish_message-Logs d o _)
                (λ b. Logs-one _ _ (o.entry_delete_recorded))))
          (λ a. Logs-one _ _ (o.mark_recorded id)))

    handler-Commits :
        Commits view
          (Partial.partial_data_deduction_handler d msg)
          (partial_tx msg)
          (finalized d msg)
    unfolding Partial.partial_data_deduction_handler
    handler-Commits = Commits-value _ _ _ _ fetch-Keeps fetch-Returns (λ f e.
        Commits-value _ _ _ _ entry-Keeps build_partial_unpaid_loan_entry-Returns (λ entry q.
          Commits-value _ _ _ _ (collection-Keeps _) (collection-Returns _) (λ c r.
            Commits-bind _ _ _ _ (transaction-Atomic f.0 f.1 f.2 entry c e q r)
              (λ a. after-Logs c.created_at f.2 c.id))))

  -- Where a transaction writes all or nothing: the handler of a partial collection makes, in this
  -- order, the writes of the transaction (the loan's unpaid amount less what was deducted, the end
  -- of the previous unpaid document, the collection, and the new unpaid document), then the Kafka
  -- message, the deletion of the in-progress entry and the mark of the collection as published.
  -- If it succeeds it has made all of them; if it fails or panics, either none, or all of the
  -- transaction and some of the first of the others.
  pub partial_data_deduction_handler-Committed :
      (view : S → List (Write F))
      → (msg : PromoCollectionPublishedMessage F) → Records d msg.loan_id msg.msisdn view
      → (s : S)
      → let (r, s') = Partial.partial_data_deduction_handler d msg s in
        Committed (partial_tx msg) (finalized d msg) (view s) r (view s')
  partial_data_deduction_handler-Committed view msg o s = (handler-Commits msg o).at s
