-- ===== src/Promo/Rules/OldLoan.antt =====
-- `processOldLoanForPromoCollection` and `getConversionRateForLoanType` of business_rules.go.
use promo_collection.Prelude.{
  String, Bool, true, false, Option, none, some, List, [], ◌∷◌, str_eq, if◌then◌else◌,
}
use promo_collection.Runtime.{Go, message, pure, or_fail, wrapping, ◌>>=◌, ◌>>◌}
use promo_collection.Runtime.Time.{Time, zero_time, add_days}
use promo_collection.Runtime.Strings.{to_upper, trim_space}
use promo_collection.Promo.Schema.{Loans, SystemLevelRules, PesoToDataConversion, loan_type_load}
use promo_collection.Promo.Deps.{Deps}
use promo_collection.Promo.Repos.{
  time_now, fetch_system_level_rules_configuration, update_old_loan_document, delete_by_msisdn,
  save_skip_timestamps,
}
use promo_collection.Promo.SkipPeriod.{is_skip_period_active, notify_if_after}

-- The first entry whose type is the loan's, spaces round it and case aside.
unfoldable pub rate_for_loan_type : {F : Type 0} → String → List (PesoToDataConversion F) → Option F
rate_for_loan_type kind [] = none
rate_for_loan_type kind (c ∷ cs) =
    if str_eq (to_upper (trim_space c.loan_type)) (to_upper (trim_space kind))
    then some c.conversion_rate
    else rate_for_loan_type kind cs

module _ {S F B : Type 0} (d : Deps S F B) where
  unfoldable pub get_conversion_rate_for_loan_type : String → List (PesoToDataConversion F) → Go S F
  get_conversion_rate_for_loan_type kind matrix =
      or_fail (message "conversion rate not found for loanType") (rate_for_loan_type kind matrix)

  unfoldable pub promo_education_end : Loans F → SystemLevelRules F → Time
  promo_education_end l rules = add_days l.created_at rules.promo_education_period

  unfoldable pub loan_load_end : Loans F → SystemLevelRules F → Time
  loan_load_end l rules =
      if str_eq l.loan_type loan_type_load
      then add_days l.created_at rules.loan_load_period
      else zero_time

  -- Step 5. The loan is the one that step 3 has updated.
  unfoldable pub skip_or_proceed : String → Loans F → Time → Time → Go S Bool
  skip_or_proceed msisdn l education load = do
    now ← time_now d
    if is_skip_period_active now education load zero_time
        then (do
          wrapping "failed to save skiptimestamps" (
              save_skip_timestamps d msisdn (record {
                grace_period_timestamp = zero_time;
                promo_education_period_timestamp = education;
                loan_load_period_timestamp = load;
              }))
          notify_if_after d education l
          pure false)
        else pure true

  unfoldable pub process_old_loan_for_promo_collection : String → Loans F → Go S Bool
  process_old_loan_for_promo_collection msisdn l = do
    rules ← fetch_system_level_rules_configuration d
    rate ← get_conversion_rate_for_loan_type l.loan_type rules.peso_to_data_conversion_matrix
    l' ←
        update_old_loan_document d l rate (promo_education_end l rules) (loan_load_end l rules)
          rules.max_data_collection_percent rules.min_collection_amount l.total_unpaid_loan
    wrapping "failed to delete from whitelist after period lapse" (delete_by_msisdn d msisdn)
    skip_or_proceed msisdn l' (promo_education_end l rules) (loan_load_end l rules)
