-- ===== src/Promo/Repos.antt =====
-- The repositories of internal/pkg/store/impl over the driver, `RedisStoreAdapter` of
-- internal/pkg/store/repository, and `PubSubClient.PublishMessage` of internal/pkg/pubsub.
use Prim.Native.String.{◌++◌}
use promo_collection.Prelude.{
  ℕ, ◌-◌, String, Bool, true, false, ◌&&◌, ◌||◌, not, Option, none, some, inl, inr, ◌⊎◌, ◌==◌,
  str_eq, if◌then◌else◌,
}
use promo_collection.Runtime.{
  Go, Error, message, is_no_documents, pure, fail, wrapping, restating, attempt, or_fail, ◌>>=◌,
  ◌>>◌,
}
use promo_collection.Runtime.Float64
use promo_collection.Runtime.Time.{Time, is_zero, after, second}
use promo_collection.Driver.{ObjectId, nil_id, Codec, Topic}
use promo_collection.Promo.Schema.{
  Loans, SystemLevelRules, UnpaidLoans, Messages, LoanProducts, SkipTimestamps, empty_unpaid,
}
use promo_collection.Promo.Deps.{Deps}

abbrev is_none : {A : Type 0} → Option A → Bool
is_none none = true
is_none (some a) = false

-- `_, err := FindOne(...)`, where `ErrNoDocuments` means `false`.
unfoldable pub found_result : {S T : Type 0} → T ⊎ Error → Go S Bool
unfolding ◌>>=◌
found_result (inl t) = pure true
found_result (inr e) = if is_no_documents e then pure false else fail e

-- `err := Delete(...)`, where `ErrNoDocuments` is no error.
unfoldable pub deleted_result : {S : Type 0} → Unit {0} ⊎ Error → Go S (Unit {0})
unfolding ◌>>=◌
deleted_result (inl t) = pure tt
deleted_result (inr e) = if is_no_documents e then pure tt else fail e

-- `return &models.UnpaidLoans{}, err`
unfoldable pub unpaid_result : UnpaidLoans ⊎ Error → UnpaidLoans × Option Error
unpaid_result (inl u) = (u, none)
unpaid_result (inr e) = (empty_unpaid, some e)

-- `json.Marshal`
unfoldable pub marshalled : {S T B : Type 0} → Codec T B → T → Go S B
unfolding ◌>>=◌
marshalled c x = or_fail (message "json.Marshal") (c.marshal x)

-- `PubSubClient.PublishMessage`
unfoldable pub publish_message : {S T B : Type 0} → Codec T B → Topic S B → T → Go S String
publish_message c t x = do
  b ← restating "failed to marshal message" (marshalled c x)
  restating "failed to publish message" (t.send b)

abbrev pub skip_timestamps_key : String → String
skip_timestamps_key msisdn = "skipTimestamps:" ++ msisdn

module _ {S F B : Type 0} (d : Deps S F B) where
  -- `time.Now()`
  unfoldable pub time_now : Go S Time
  time_now = d.now

  unfoldable pub fetch_system_level_rules_configuration : Go S (SystemLevelRules F)
  fetch_system_level_rules_configuration = d.rules.find_one (λ r. true)

  unfoldable pub check_entry_exists : String → Go S Bool
  check_entry_exists msisdn = do
    r ← attempt (d.in_progress.find_one (λ t. str_eq t.msisdn msisdn))
    found_result r

  unfoldable pub create_entry : String → Go S (Unit {0})
  create_entry msisdn = do
    now ← time_now
    d.in_progress.insert_one (record { id = nil_id; msisdn = msisdn; created_at = now })
    pure tt

  unfoldable pub delete_entry : String → Go S (Unit {0})
  delete_entry msisdn = d.in_progress.delete_one (λ t. str_eq t.msisdn msisdn)

  unfoldable pub get_loan_by_msisdn : String → Go S (Loans F)
  get_loan_by_msisdn msisdn = d.loans.find_one (λ l. str_eq l.msisdn msisdn)

  -- `true` is a new loan.
  unfoldable pub check_if_old_or_new_loan : Loans F → Bool
  check_if_old_or_new_loan l =
      not (d.float.eq l.conversion_rate (Float64.zero d.float))
      || not (is_zero l.promo_education_period_timestamp)
      || not (is_zero l.loan_load_period_timestamp)

  -- The fields that `UpdateOldLoanDocument` sets, in the document and in the caller's struct alike.
  abbrev pub old_loan_update : F → Time → Time → F → F → F → Loans F → Loans F
  old_loan_update rate education load percent minimum unpaid l = record l {
    conversion_rate = rate;
    promo_education_period_timestamp = education;
    loan_load_period_timestamp = load;
    max_data_collection_percent = percent;
    min_collection_amount = minimum;
    total_unpaid_loan = unpaid;
  }

  -- The caller's loan is changed only if the update of the document succeeds.
  unfoldable pub update_old_loan_document : Loans F → F → Time → Time → F → F → F → Go S (Loans F)
  update_old_loan_document l rate education load percent minimum unpaid = do
    d.loans.update_one (λ x. x.loan_id == l.loan_id)
        (old_loan_update rate education load percent minimum unpaid)
    pure (old_loan_update rate education load percent minimum unpaid l)

  -- With an error comes the zero document, which a caller may go on to use.
  unfoldable pub get_unpaid_loans_by_loan_id : ObjectId → Go S (UnpaidLoans × Option Error)
  get_unpaid_loans_by_loan_id loan_id = do
    r ← attempt (d.unpaid_loans.find_one (λ u. (u.loan_id == loan_id) && is_none u.valid_to))
    pure (unpaid_result r)

  unfoldable pub get_product_name_by_id : ObjectId → Go S LoanProducts
  get_product_name_by_id id = d.loan_products.find_one (λ p. p.id == id)

  unfoldable pub get_pattern_id_by_event_and_brand_id : String → ObjectId → Go S Messages
  get_pattern_id_by_event_and_brand_id event brand =
      d.messages.find_one (λ m. str_eq m.event event && (m.brand_id == brand))

  unfoldable pub is_msisdn_whitelisted : String → Go S Bool
  is_msisdn_whitelisted msisdn = do
    r ← attempt (d.whitelist.find_one (λ x. str_eq x.msisdn msisdn))
    found_result r

  unfoldable pub delete_by_msisdn : String → Go S (Unit {0})
  delete_by_msisdn msisdn = do
    r ← attempt (d.whitelist.delete_one (λ x. str_eq x.msisdn msisdn))
    deleted_result r

  -- The time to live of the entry: until the later of the two periods ends, or one second.
  unfoldable pub skip_ttl : Time → SkipTimestamps → ℕ
  skip_ttl now e =
      let later =
        if after e.loan_load_period_timestamp e.promo_education_period_timestamp
        then e.loan_load_period_timestamp
        else e.promo_education_period_timestamp in
      let ttl = later - now in if ttl == 0 then second else ttl

  unfoldable pub save_skip_timestamps : String → SkipTimestamps → Go S (Unit {0})
  save_skip_timestamps msisdn e = do
    now ← time_now
    b ← wrapping "failed to marshal skiptimestamps" (marshalled d.skip_codec e)
    d.redis.set (skip_timestamps_key msisdn) b (skip_ttl now e)
