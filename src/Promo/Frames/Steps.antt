-- ===== src/Promo/Frames/Steps.antt =====
-- The steps of the business rules leave an observation alone, if the driver's calls behind them do.
use promo_collection.Prelude.{String, ◌⊎◌, inl, inr, List, [], ◌∷◌, Option, none, some}
use promo_collection.Runtime.{Error}
use promo_collection.Runtime.Time.{Time}
use promo_collection.Runtime.Keeps.{Keeps, keeps_rules}
use promo_collection.Promo.Schema.{Loans, SkipTimestamps, SystemLevelRules, UnpaidLoans}
use promo_collection.Promo.Deps.{Deps}
use promo_collection.Promo.Laws.{Quiet}
use promo_collection.Promo.Frames.Repos
use promo_collection.Promo.Education
use promo_collection.Promo.SkipPeriod
use promo_collection.Promo.Deduction
use promo_collection.Promo.Collection
use promo_collection.Promo.Rules
use promo_collection.Promo.Rules.OldLoan

module _ {S O : Type 0} {view : S → O} where
  tolerate_missing-Keeps : {T : Type 0} (r : T ⊎ Error) → Keeps view (Education.tolerate_missing r)
  unfolding Education.tolerate_missing
  tolerate_missing-Keeps (inl t) = search keeps_rules
  tolerate_missing-Keeps (inr e) = search keeps_rules

  notification_parameters-Keeps :
      (values : List (String × String)) (names : List String)
      → Keeps view (Education.notification_parameters values names)
  unfolding Education.notification_parameters
  notification_parameters-Keeps values [] = search keeps_rules
  notification_parameters-Keeps values (n ∷ ns) =
      let rest = notification_parameters-Keeps values ns in search keeps_rules

  module _ {F B : Type 0} (d : Deps S F B) (q : Quiet d view) where
    publish_education_notification-Keeps :
        (l : Option (Loans F)) → Keeps view (Education.publish_education_notification d l)
    unfolding Education.publish_education_notification
    publish_education_notification-Keeps l =
        search
          (
            keeps_rules,
            tolerate_missing-Keeps,
            notification_parameters-Keeps,
            Repos.get_product_name_by_id-Keeps d q,
            Repos.get_pattern_id-Keeps d q,
            Repos.publish_message-Keeps,
            q.notified_kept,
          )
          depth 20

    notify_in_education-Keeps : (k : String) → Keeps view (SkipPeriod.notify_in_education d k)
    unfolding SkipPeriod.notify_in_education
    notify_in_education-Keeps k =
        search
          (
            keeps_rules,
            tolerate_missing-Keeps,
            Repos.get_loan_by_msisdn-Keeps d q,
            publish_education_notification-Keeps,
          )
          depth 20

    active_period-Keeps :
        (k : String) (now : Time) (t : SkipTimestamps)
        → Keeps view (SkipPeriod.active_period d k now t)
    unfolding SkipPeriod.active_period SkipPeriod.clear_skip_entry
    active_period-Keeps k now t =
        search (keeps_rules, notify_in_education-Keeps, q.del_kept) depth 20

    active_period_of-Keeps :
        (k : String) (r : B ⊎ Error) → Keeps view (SkipPeriod.active_period_of d k r)
    unfolding SkipPeriod.active_period_of
    active_period_of-Keeps k (inl b) =
        let clock = Repos.time_now-Keeps d q in
        search (keeps_rules, Repos.unmarshalled-Keeps, active_period-Keeps) depth 20
    active_period_of-Keeps k (inr e) = search keeps_rules

    pub check_redis-Keeps : (k : String) → Keeps view (SkipPeriod.check_redis_for_active_period d k)
    unfolding SkipPeriod.check_redis_for_active_period
    check_redis-Keeps k = search (keeps_rules, q.get_kept, active_period_of-Keeps)

    notify_if_after-Keeps :
        (education : Time) (l : Loans F) → Keeps view (SkipPeriod.notify_if_after d education l)
    unfolding SkipPeriod.notify_if_after
    notify_if_after-Keeps education l =
        let clock = Repos.time_now-Keeps d q in
        search (keeps_rules, publish_education_notification-Keeps) depth 20

    pub create_skipping_cache_entry-Keeps :
        (l : Loans F) (k : String) → Keeps view (SkipPeriod.create_skipping_cache_entry d l k)
    unfolding SkipPeriod.create_skipping_cache_entry
    create_skipping_cache_entry-Keeps l k =
        search (keeps_rules, Repos.save_skip_timestamps-Keeps d q, notify_if_after-Keeps)

    skip_or_proceed-Keeps :
        (k : String) (l : Loans F) (education load : Time)
        → Keeps view (OldLoan.skip_or_proceed d k l education load)
    unfolding OldLoan.skip_or_proceed
    skip_or_proceed-Keeps k l education load =
        let clock = Repos.time_now-Keeps d q in
        search (keeps_rules, Repos.save_skip_timestamps-Keeps d q, notify_if_after-Keeps) depth 20

    pub process_old_loan-Keeps :
        (k : String) (l : Loans F)
        → Keeps view (OldLoan.process_old_loan_for_promo_collection d k l)
    unfolding OldLoan.process_old_loan_for_promo_collection
        OldLoan.get_conversion_rate_for_loan_type
    process_old_loan-Keeps k l =
        let rules = Repos.fetch_rules-Keeps d q in
        search
          (
            keeps_rules,
            Repos.update_old_loan_document-Keeps d q,
            Repos.delete_by_msisdn-Keeps d q,
            skip_or_proceed-Keeps,
          )
          depth 20

    pub is_enabled-Keeps : Keeps view (Rules.is_promo_collection_enabled d)
    unfolding Rules.is_promo_collection_enabled
    is_enabled-Keeps = let rules = Repos.fetch_rules-Keeps d q in search keeps_rules

    active_loan_of-Keeps : (r : Loans F ⊎ Error) → Keeps view (Rules.active_loan_of d r)
    unfolding Rules.active_loan_of
    active_loan_of-Keeps (inl l) = search keeps_rules
    active_loan_of-Keeps (inr e) = search keeps_rules

    pub get_active_loan-Keeps : (k : String) → Keeps view (Rules.get_active_loan d k)
    unfolding Rules.get_active_loan
    get_active_loan-Keeps k =
        search (keeps_rules, Repos.get_loan_by_msisdn-Keeps d q, active_loan_of-Keeps)

    total_from_unpaid-Keeps :
        (l : Loans F) (u : UnpaidLoans) (e : Option Error)
        → Keeps view (Collection.total_from_unpaid d l u e)
    unfolding Collection.total_from_unpaid
    total_from_unpaid-Keeps l u none =
        search (keeps_rules, Repos.update_old_loan_document-Keeps d q)
    total_from_unpaid-Keeps l u (some e) = search keeps_rules

    pub get_total_unpaid_loan-Keeps :
        (l : Loans F) → Keeps view (Collection.get_total_unpaid_loan d l)
    unfolding Collection.get_total_unpaid_loan
    get_total_unpaid_loan-Keeps l =
        search (keeps_rules, Repos.get_unpaid_loans_by_loan_id-Keeps d q, total_from_unpaid-Keeps)
          depth 20

    pub get_conversion_rate-Keeps :
        (l : Loans F) (r : SystemLevelRules F) → Keeps view (Collection.get_conversion_rate d l r)
    unfolding Collection.get_conversion_rate Collection.rate_from_matrix
    get_conversion_rate-Keeps l r =
        search (keeps_rules, Repos.get_product_name_by_id-Keeps d q) depth 20

    pub loan_ageing-Keeps : (t : Time) → Keeps view (Deduction.loan_ageing d t)
    unfolding Deduction.loan_ageing
    loan_ageing-Keeps t = let clock = Repos.time_now-Keeps d q in search keeps_rules
