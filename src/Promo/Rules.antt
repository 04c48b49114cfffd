-- ===== src/Promo/Rules.antt =====
-- `CheckBusinessLevelRulesForPromoCollection` of
-- internal/service/promo_collection/business_rules.go, with the steps that it calls.
pub mod OldLoan
pub mod Lifecycle
pub mod Exclusion
use promo_collection.Prelude.{
  String, Bool, true, false, not, Option, none, some, ◌⊎◌, inl, inr, if◌then◌else◌,
}
use promo_collection.Runtime.{
  Go, Outcome, ok, err, panic, Error, is_no_documents, pure, fail, attempt, defer, ◌>>=◌, ◌>>◌,
}
use promo_collection.Runtime.Strconv.{itoa}
use promo_collection.Promo.Schema.{Loans, PromoEventMessage}
use promo_collection.Promo.Deps.{Deps}
use promo_collection.Promo.Repos.{
  time_now, fetch_system_level_rules_configuration, check_entry_exists, create_entry, delete_entry,
  get_loan_by_msisdn, check_if_old_or_new_loan, is_msisdn_whitelisted,
}
use promo_collection.Promo.SkipPeriod.{
  is_skip_period_active, check_redis_for_active_period, create_skipping_cache_entry,
}
use promo_collection.Promo.Collection.{collection_rules}
use OldLoan.{process_old_loan_for_promo_collection}

module _ {S F B : Type 0} (d : Deps S F B) where
  unfoldable pub is_promo_collection_enabled : Go S Bool
  is_promo_collection_enabled = do
    rules ← fetch_system_level_rules_configuration d
    pure rules.promo_collection_enabled

  unfoldable pub active_loan_of : Loans F ⊎ Error → Go S (Option (Loans F))
  active_loan_of (inl l) = pure (some l)
  active_loan_of (inr e) = if is_no_documents e then pure none else fail e

  -- `GetLoanByMSISDN` returns a loan or an error, so the third branch of the source, a nil loan with
  -- no error, is not reached.
  unfoldable pub get_active_loan : String → Go S (Option (Loans F))
  get_active_loan msisdn = do r ← attempt (get_loan_by_msisdn d msisdn); active_loan_of r

  -- Step 9 and the end.
  unfoldable pub collect : String → PromoEventMessage → Go S Bool
  collect trace payload = do collection_rules d true trace payload; pure true

  -- Step 7, then step 9.
  unfoldable pub old_loan_flow : String → PromoEventMessage → String → Loans F → Go S Bool
  old_loan_flow trace payload msisdn l = do
    whitelisted ← is_msisdn_whitelisted d msisdn
    if not whitelisted then pure false else do
      proceed ← process_old_loan_for_promo_collection d msisdn l
      if not proceed then pure false else collect trace payload

  -- Step 8, then step 9.
  unfoldable pub new_loan_flow : String → PromoEventMessage → String → Loans F → Go S Bool
  new_loan_flow trace payload msisdn l = do
    now ← time_now d
    if is_skip_period_active now l.promo_education_period_timestamp l.loan_load_period_timestamp
          l.education_period_timestamp
        then (do create_skipping_cache_entry d l msisdn; pure false)
        else collect trace payload

  unfoldable pub loan_flow : String → PromoEventMessage → String → Option (Loans F) → Go S Bool
  loan_flow trace payload msisdn none = pure false
  loan_flow trace payload msisdn (some l) =
      if check_if_old_or_new_loan d l
      then new_loan_flow trace payload msisdn l
      else old_loan_flow trace payload msisdn l

  -- Steps 4 to 9, which run with the entry in place.
  unfoldable pub guarded_rules : String → PromoEventMessage → String → Go S Bool
  guarded_rules trace payload msisdn = do
    active ← check_redis_for_active_period d msisdn
    if active
        then pure false
        else do loan ← get_active_loan msisdn; loan_flow trace payload msisdn loan

  -- The deferred function: `shouldCleanup` is set to false only where `true, nil` is returned.
  unfoldable pub clean_up : String → Outcome Bool → Go S (Unit {0})
  clean_up msisdn (ok true) = pure tt
  clean_up msisdn (ok false) = delete_entry d msisdn
  clean_up msisdn (err e) = delete_entry d msisdn
  clean_up msisdn panic = delete_entry d msisdn

  unfoldable pub check_business_level_rules : String → PromoEventMessage → String → Go S Bool
  check_business_level_rules trace payload msisdn = do
    enabled ← is_promo_collection_enabled
    if not enabled then pure false else do
      exists ← check_entry_exists d msisdn
      if exists then pure false else do
        create_entry d msisdn
        defer (clean_up msisdn) (guarded_rules trace payload msisdn)
