-- ===== src/Tests/PromoWitnesses.antt =====
-- Runs of promo-collection in the concrete world, and the theorems about it at these inputs.
use promo_collection.Prelude.{
  ◌+◌, ◌≤◌, ◌<◌, inr, arith, Bool, ◌≡◌, refl, true, String, List, [], ◌∷◌, length,
}
use promo_collection.Runtime.{Outcome, ok, ◌>>=◌, defer}
use promo_collection.Runtime.Strings.{to_upper, trim_space}
use promo_collection.Runtime.Time.{add_days, days_between}
use promo_collection.Runtime.Strconv.{itoa}
use promo_collection.Promo.Collection
use promo_collection.Promo.Deduction
use promo_collection.Promo.Education
use promo_collection.Promo.Repos
use promo_collection.Promo.Rules.OldLoan
use promo_collection.Promo.Rules
use promo_collection.Promo.SkipPeriod
use promo_collection.Promo.Rules.Lifecycle.{Checked, check_business_level_rules-Checked}
use promo_collection.Tests.Whole.{whole-IsOrdered}
use promo_collection.Tests.PromoWorld.{World, deps, view, deps-HasFinite, deps-Observes, deps-Finds}
use promo_collection.Tests.PromoData.{world, purchase, today}
use promo_collection.Promo.Schema.{SkipTimestamps}
use promo_collection.Promo.Rules.Exclusion.{LeftAlone, check_business_level_rules-LeftAlone}
use promo_collection.Promo.SkipPeriod.Periods.{active_period_over, skip_ttl_covers}
use promo_collection.Promo.Education.Parameters.{Filled, notification_parameters-Filled}
use promo_collection.Runtime.Returns.{Returns}

abbrev subscriber : String
subscriber = "639171234567"

purchase_of : itoa purchase.msisdn ≡ subscriber
unfolding itoa
purchase_of = refl

-- The check with everything that it calls open, to run it.
check_run : World → Outcome Bool × World
unfolding Collection.collection_rules Collection.deduction_params Collection.get_conversion_rate
    Collection.get_total_unpaid_loan Collection.rate_from_matrix Collection.rate_of
    Collection.total_from_unpaid Deduction.compute_max_deductible_amount
    Deduction.data_to_be_deducted_calculation Deduction.handle_full_collection
    Deduction.handle_partial_or_skip_collection Deduction.loan_ageing Deduction.publish_request
    Deduction.skip_collection Deduction.worker_message Education.lookup
    Education.notification_parameters Education.param_value_map
    Education.publish_education_notification Education.tolerate_missing
    Repos.check_if_old_or_new_loan Repos.check_entry_exists Repos.found_result Repos.create_entry
    Repos.time_now Repos.fetch_system_level_rules_configuration Repos.delete_by_msisdn
    Repos.delete_entry Repos.deleted_result Repos.get_loan_by_msisdn
    Repos.get_pattern_id_by_event_and_brand_id Repos.get_product_name_by_id
    Repos.get_unpaid_loans_by_loan_id Repos.is_msisdn_whitelisted Repos.marshalled
    Repos.publish_message Repos.save_skip_timestamps Repos.skip_ttl Repos.unpaid_result
    Repos.update_old_loan_document OldLoan.get_conversion_rate_for_loan_type OldLoan.loan_load_end
    OldLoan.process_old_loan_for_promo_collection OldLoan.promo_education_end
    OldLoan.rate_for_loan_type OldLoan.skip_or_proceed Rules.check_business_level_rules
    Rules.clean_up Rules.guarded_rules Rules.get_active_loan Rules.active_loan_of Rules.loan_flow
    Rules.is_promo_collection_enabled Rules.collect Rules.new_loan_flow Rules.old_loan_flow
    SkipPeriod.active_period SkipPeriod.active_period_of SkipPeriod.check_redis_for_active_period
    SkipPeriod.clear_skip_entry SkipPeriod.create_skipping_cache_entry
    SkipPeriod.is_skip_period_active SkipPeriod.notify_if_after SkipPeriod.notify_in_education
    SkipPeriod.unmarshalled ◌>>=◌ defer itoa to_upper trim_space add_days days_between
check_run = Rules.check_business_level_rules deps "trace" purchase subscriber

-- The promo's data pays a part of the loan: one entry stays, and one request is sent.
collects_part :
    let (r, w) = check_run world in
    (r ≡ ok true) × ((view subscriber w).0 ≡ 1) × (length w.requests ≡ 1)
unfolding check_run
collects_part = (refl, refl, refl)

check_business_level_rules-Checked_example :
    let (r, w) = Rules.check_business_level_rules deps "trace" purchase subscriber world in
    Checked deps
      (λ x. Unit {0})
      whole-IsOrdered
      deps-HasFinite
      subscriber
      (deps-Observes subscriber)
      (view subscriber world)
      r
      (view subscriber w)
check_business_level_rules-Checked_example =
    check_business_level_rules-Checked deps (λ x. Unit {0}) whole-IsOrdered deps-HasFinite
      subscriber (deps-Observes subscriber) "trace" purchase purchase_of world

-- A second purchase while the first is handled.
abbrev busy : World
busy = record world {
  in_progress = record { id = 1; msisdn = subscriber; created_at = today } ∷ [];
}

check_business_level_rules-LeftAlone_example :
    let (r, w) = Rules.check_business_level_rules deps "trace" purchase subscriber busy in
    LeftAlone deps subscriber
      (deps-Observes subscriber)
      (deps-Finds subscriber)
      (view subscriber busy)
      r
      (view subscriber w)
check_business_level_rules-LeftAlone_example =
    check_business_level_rules-LeftAlone deps subscriber (deps-Observes subscriber)
      (deps-Finds subscriber) "trace" purchase busy (omega arith)

abbrev periods : SkipTimestamps
periods = record {
  grace_period_timestamp = 0;
  promo_education_period_timestamp = 40;
  loan_load_period_timestamp = 90;
}

active_period_over_example :
    (40 ≤ 95)
    × (90 ≤ 95)
    × (0 ≤ 95)
    × ((deps.redis.del "skipTimestamps:639171234567" world).0 ≡ ok tt)
    × ((SkipPeriod.active_period deps subscriber 95 periods world).1
        ≡ (deps.redis.del "skipTimestamps:639171234567" world).1)
unfolding SkipPeriod.active_period SkipPeriod.clear_skip_entry ◌>>=◌
active_period_over_example = active_period_over deps subscriber 95 periods world refl

skip_ttl_covers_example : 89 < 10 + Repos.skip_ttl deps 10 periods
skip_ttl_covers_example = skip_ttl_covers deps 10 89 periods (inr (omega arith)) (omega arith)

abbrev values : List (String × String)
values = ("SKU_NAME", "GoSURF50") ∷ ("LOAN_DATE", "01/02/2026") ∷ []

notification_parameters-Filled_example :
    Returns {S = World}
      (Filled values ("LOAN_DATE" ∷ "SKU_NAME" ∷ []))
      (Education.notification_parameters values ("LOAN_DATE" ∷ "SKU_NAME" ∷ []))
notification_parameters-Filled_example =
    notification_parameters-Filled values ("LOAN_DATE" ∷ "SKU_NAME" ∷ [])
