-- ===== src/Promo/Frames/Repos.antt =====
-- The repositories leave an observation alone, if the driver's calls behind them do.
use promo_collection.Prelude.{String, ◌⊎◌, inl, inr}
use promo_collection.Runtime.{Error}
use promo_collection.Runtime.Time.{Time}
use promo_collection.Runtime.Keeps.{Keeps, keeps_rules}
use promo_collection.Driver.{ObjectId, Codec, Topic}
use promo_collection.Promo.Schema.{Loans, SkipTimestamps}
use promo_collection.Promo.Deps.{Deps}
use promo_collection.Promo.Laws.{Quiet}
use promo_collection.Promo.Repos
use promo_collection.Promo.SkipPeriod.{unmarshalled}

module _ {S O : Type 0} {view : S → O} where
  found_result-Keeps : {T : Type 0} (r : T ⊎ Error) → Keeps view (Repos.found_result r)
  unfolding Repos.found_result
  found_result-Keeps (inl t) = search keeps_rules
  found_result-Keeps (inr e) = search keeps_rules

  deleted_result-Keeps : (r : Unit {0} ⊎ Error) → Keeps view (Repos.deleted_result r)
  unfolding Repos.deleted_result
  deleted_result-Keeps (inl t) = search keeps_rules
  deleted_result-Keeps (inr e) = search keeps_rules

  pub marshalled-Keeps : {T B : Type 0} (c : Codec T B) (x : T) → Keeps view (Repos.marshalled c x)
  unfolding Repos.marshalled
  marshalled-Keeps c x = search keeps_rules

  pub unmarshalled-Keeps : {T B : Type 0} (c : Codec T B) (b : B) → Keeps view (unmarshalled c b)
  unfolding unmarshalled
  unmarshalled-Keeps c b = search keeps_rules

  pub publish_message-Keeps :
      {T B : Type 0} (c : Codec T B) (t : Topic S B) (x : T)
      → ((b : B) → Keeps view (t.send b))
      → Keeps view (Repos.publish_message c t x)
  unfolding Repos.publish_message
  publish_message-Keeps c t x sent = search (keeps_rules, marshalled-Keeps, sent)

  module _ {F B : Type 0} (d : Deps S F B) (q : Quiet d view) where
    pub time_now-Keeps : Keeps view (Repos.time_now d)
    unfolding Repos.time_now
    time_now-Keeps = q.now_kept

    pub fetch_rules-Keeps : Keeps view (Repos.fetch_system_level_rules_configuration d)
    unfolding Repos.fetch_system_level_rules_configuration
    fetch_rules-Keeps = q.rules_left.find_kept _

    pub check_entry_exists-Keeps : (k : String) → Keeps view (Repos.check_entry_exists d k)
    unfolding Repos.check_entry_exists
    check_entry_exists-Keeps k = search (keeps_rules, q.find_kept, found_result-Keeps)

    pub get_loan_by_msisdn-Keeps : (k : String) → Keeps view (Repos.get_loan_by_msisdn d k)
    unfolding Repos.get_loan_by_msisdn
    get_loan_by_msisdn-Keeps k = q.loans_left.find_kept _

    pub update_old_loan_document-Keeps :
        (l : Loans F) (rate : F) (e t : Time) (percent minimum unpaid : F)
        → Keeps view (Repos.update_old_loan_document d l rate e t percent minimum unpaid)
    unfolding Repos.update_old_loan_document
    update_old_loan_document-Keeps l rate e t percent minimum unpaid =
        search (keeps_rules, q.loans_left.update_kept)

    pub get_unpaid_loans_by_loan_id-Keeps :
        (id : ObjectId) → Keeps view (Repos.get_unpaid_loans_by_loan_id d id)
    unfolding Repos.get_unpaid_loans_by_loan_id
    get_unpaid_loans_by_loan_id-Keeps id = search (keeps_rules, q.unpaid_loans_left.find_kept)

    pub get_product_name_by_id-Keeps :
        (id : ObjectId) → Keeps view (Repos.get_product_name_by_id d id)
    unfolding Repos.get_product_name_by_id
    get_product_name_by_id-Keeps id = q.loan_products_left.find_kept _

    pub get_pattern_id-Keeps :
        (event : String) (brand : ObjectId)
        → Keeps view (Repos.get_pattern_id_by_event_and_brand_id d event brand)
    unfolding Repos.get_pattern_id_by_event_and_brand_id
    get_pattern_id-Keeps event brand = q.messages_left.find_kept _

    pub is_msisdn_whitelisted-Keeps : (k : String) → Keeps view (Repos.is_msisdn_whitelisted d k)
    unfolding Repos.is_msisdn_whitelisted
    is_msisdn_whitelisted-Keeps k =
        search (keeps_rules, q.whitelist_left.find_kept, found_result-Keeps)

    pub delete_by_msisdn-Keeps : (k : String) → Keeps view (Repos.delete_by_msisdn d k)
    unfolding Repos.delete_by_msisdn
    delete_by_msisdn-Keeps k =
        search (keeps_rules, q.whitelist_left.delete_kept, deleted_result-Keeps)

    pub save_skip_timestamps-Keeps :
        (k : String) (e : SkipTimestamps) → Keeps view (Repos.save_skip_timestamps d k e)
    unfolding Repos.save_skip_timestamps
    save_skip_timestamps-Keeps k e =
        search (keeps_rules, time_now-Keeps, q.set_kept, marshalled-Keeps)
