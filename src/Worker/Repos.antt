-- ===== src/Worker/Repos.antt =====
-- The repositories of internal/pkg/store/impl that success handling uses, over the driver;
-- internal/service/kafka/kafka_service.go; and `runTransaction` of partial_data_deduction.go.
use promo_collection.Prelude.{
  suc, ◌*◌, ◌-◌, ◌==◌, ◌&&◌, String, true, List, [], ◌∷◌, some, ℤ, pos, negsuc, str_eq, ◌^◌, ◌+ℤ◌,
  eqb_ℤ, if◌then◌else◌,
}
use promo_collection.Runtime.{Go, message, pure, wrapping, or_fail, ◌>>=◌, ◌>>◌}
use promo_collection.Runtime.Time.{Time, hour}
use promo_collection.Runtime.Strconv.{itoa}
use promo_collection.Driver.{ObjectId}
use promo_collection.Worker.Schema.{
  Loans, SystemLevelRules, Collections, UnpaidLoanEntry, ClosedLoanEntry, Messages, LoanProducts,
  KafkaMessageForPublishing,
}
use promo_collection.Worker.Deps.{Deps}

-- `time.Duration(n) * time.Hour` in nanoseconds, for less than 292 years.
unfoldable pub hours : ℤ → ℤ
hours (pos n) = pos (n * hour)
hours (negsuc n) = negsuc (suc n * hour - 1)

-- `version + 1` on an `int32`, which wraps around.
unfoldable pub next_version : ℤ → ℤ
next_version v = if eqb_ℤ v (pos (2 ^ 31 - 1)) then negsuc (2 ^ 31 - 1) else v +ℤ pos 1

module _ {S F B : Type 0} (d : Deps S F B) where
  unfoldable pub get_loan_by_msisdn : String → Go S (Loans F)
  get_loan_by_msisdn msisdn = d.loans.find_one (λ l. str_eq l.msisdn msisdn)

  abbrev pub loan_update : F → Time → Loans F → Loans F
  loan_update unpaid grace l = record l {
    total_unpaid_loan = unpaid;
    grace_period_timestamp = grace;
  }

  -- The struct that the caller holds gets the unpaid amount as its total amount.
  unfoldable pub update_loan_document : Loans F → F → Time → Go S (Loans F)
  update_loan_document l unpaid grace = do
    d.loans.update_one (λ x. x.loan_id == l.loan_id) (loan_update unpaid grace)
    pure (record l { total_loan_amount = d.to_int32 unpaid })

  unfoldable pub delete_active_loan : ObjectId → Go S (Unit {0})
  delete_active_loan id = d.loans.delete_one (λ l. l.loan_id == id)

  unfoldable pub fetch_system_level_rules_configuration : Go S SystemLevelRules
  fetch_system_level_rules_configuration = d.rules.find_one (λ r. true)

  unfoldable pub create_closed_loans_entry : ClosedLoanEntry F → Go S (Unit {0})
  create_closed_loans_entry e = do d.closed_loans.insert_one e; pure tt

  unfoldable pub create_collection_entry : Collections F → Go S ObjectId
  create_collection_entry c = d.collections.insert_one c

  unfoldable pub update_publish_to_kafka : ObjectId → Go S (Unit {0})
  update_publish_to_kafka id =
      d.collections.update_one (λ c. c.id == id) (λ c. record c { published_to_kafka = true })

  unfoldable pub create_unpaid_loan_entry : UnpaidLoanEntry F → Go S (Unit {0})
  create_unpaid_loan_entry e = do d.unpaid_loans.insert_one e; pure tt

  -- The latest document of the loan ends now.
  unfoldable pub update_previous_valid_to_field : ObjectId → Go S (Unit {0})
  update_previous_valid_to_field loan_id = do
    latest ← d.unpaid_loans.find_last (λ u. u.loan_id == loan_id)
    now ← d.now
    d.unpaid_loans.update_many (λ u. u.id == latest.id) (λ u. record u { valid_to = some now })

  unfoldable pub delete_entry : String → Go S (Unit {0})
  delete_entry msisdn = d.in_progress.delete_one (λ t. str_eq t.msisdn msisdn)

  unfoldable pub get_pattern_id_by_event_and_brand_id : String → ObjectId → Go S Messages
  get_pattern_id_by_event_and_brand_id event brand =
      d.messages.find_one (λ m. str_eq m.event event && (m.brand_id == brand))

  unfoldable pub get_product_name_by_id : ObjectId → Go S LoanProducts
  get_product_name_by_id id = d.loan_products.find_one (λ p. p.id == id)

  -- The columns of a message; amounts are rounded to whole numbers.
  unfoldable pub csv_record : KafkaMessageForPublishing F → List String
  csv_record m =
      m.transaction_id
      ∷ m.availment_id
      ∷ d.kafka_date m.collection_date_time
      ∷ m.method
      ∷ itoa m.loan_ageing
      ∷ itoa (d.rounded m.collected_loan_amount)
      ∷ itoa (d.rounded m.collected_service_fee)
      ∷ itoa (d.rounded m.unpaid_loan_amount)
      ∷ itoa (d.rounded m.unpaid_service_fee)
      ∷ m.result
      ∷ m.collection_error_text
      ∷ m.msisdn
      ∷ m.collection_category
      ∷ m.payment_channel
      ∷ m.collection_type
      ∷ itoa (d.rounded m.collected_amount)
      ∷ itoa (d.rounded m.total_unpaid)
      ∷ m.token_payment_id
      ∷ itoa (d.rounded m.data_collected)
      ∷ []

  unfoldable pub format_payload_as_csv_bytes : KafkaMessageForPublishing F → Go S B
  format_payload_as_csv_bytes m =
      wrapping "error writing CSV record" (or_fail (message "csv") (d.csv (csv_record m)))

  -- `PublishSuccess` and `PublishFailure` differ only in what they log.
  unfoldable pub publish_message : KafkaMessageForPublishing F → Go S (Unit {0})
  publish_message m = do b ← format_payload_as_csv_bytes m; d.kafka.send b; pure tt

  unfoldable pub run_transaction : Go S (Unit {0}) → Go S (Unit {0})
  run_transaction body = do
    wrapping "failed to start MongoDB session" d.sessions.start_session
    d.sessions.with_transaction body
