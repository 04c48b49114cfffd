-- ===== src/Loan/Notify/Published.antt =====
-- What `NotifyUser` publishes.
use promo_collection.Prelude.{
  ◌≡◌, ◌≢◌, refl, ap, ◌∙◌, String, Bool, true, Option, none, some, ◌⊎◌, inl, inr, List, [], ◌∷◌,
  map, ◌==◌, if◌then◌else◌,
}
use promo_collection.Runtime.{Error, attempt}
use promo_collection.Runtime.Attempts.{
  Settles, Settles-Silent, Settles-pure, Settles-fail, Settles-or_fail, Settles-wrapping,
  Settles-if, Settles-bind, Runs-attempting, Runs-attempting_last,
}
use promo_collection.Runtime.Runs.{Silent, Marks, Runs, silent_rules}
use promo_collection.Runtime.Runs.Calls.{Marks-wrapping}
use promo_collection.Driver.{ObjectId, nil_id}
use promo_collection.Loan.Schema.{LoanProduct, Loans, UnpaidLoans, SystemLevelRules}
use promo_collection.Loan.Deps.{Deps}
use promo_collection.Loan.Notify
use promo_collection.Loan.Notify.{ParameterFormattedData}
use promo_collection.Loan.Templates.{
  MessageFilter, selected_message, Notifier, LocalTime, Messages, MessageResponse,
  SmsNotificationRequest, NotificationParameter,
}
use promo_collection.Loan.Templates

-- Reads do not show, and what is published shows whatever becomes of it.
pub record ShowsPublished {S F B : Type 0} (d : Deps S F B) (n : Notifier S B) (view : S → List B)
    : Type 0 where
  pub rules_silent : (p : SystemLevelRules F → Bool) → Silent view (d.rules.find_one p)
  pub messages_silent : (f : MessageFilter) → Silent view (n.find_messages f)
  pub loans_silent : (p : Loans F → Bool) → Silent view (d.loans.find_one p)
  pub products_silent : (p : LoanProduct F → Bool) → Silent view (d.products.find_one p)
  pub last_silent : (p : UnpaidLoans F → Bool) → Silent view (d.last_version p)
  pub publish_shown : (b : B) → Marks view (n.publish_sms b) (b ∷ [])

parameter_values-names :
    (f : ParameterFormattedData) (ps : List String)
    → map (λ v. v.name) (Notify.parameter_values f ps) ≡ ps
parameter_values-names f [] = refl
parameter_values-names f (p ∷ ps) = ap (λ xs. p ∷ xs) (parameter_values-names f ps)

-- A request that tells the subscriber of the event with this message.
abbrev pub Tells : String → String → Messages → SmsNotificationRequest → Type 0
Tells msisdn event m r =
    (r.msisdn ≡ msisdn)
    × (r.sms_db_event_name ≡ event)
    × (r.pattern_id ≡ m.pattern_id)
    × (map (λ v. v.name) r.notif_parameters ≡ m.parameters)

-- A result and what is published with it: nothing with a failure, or one request that tells the
-- subscriber.
abbrev pub Told :
    {S B : Type 0}
    → Notifier S B
    → (SmsNotificationRequest → Type 0)
    → (Unit {0}) ⊎ Error
    → List B
    → Type 0
Told {B = B} n P x bs =
    ((bs ≡ []) × (x ≢ inl tt))
    ⊎ ((r : SmsNotificationRequest) × (b : B) × (n.marshal_sms r ≡ some b) × (bs ≡ b ∷ []) × P r)

module _ {S F B : Type 0} {d : Deps S F B} {n : Notifier S B} {view : S → List B}
    (q : ShowsPublished d n view) where
  get_loan_result-Silent : (msisdn : String) → Silent view (Notify.get_loan_result d n msisdn)
  unfolding Notify.get_loan_result
  get_loan_result-Silent msisdn = search (silent_rules, q.loans_silent) depth 20

  product_of-Silent : (loan : Option (Loans F)) → Silent view (Notify.product_of d n loan)
  product_of-Silent none = search silent_rules depth 20
  product_of-Silent (some l) = search (silent_rules, q.products_silent) depth 20

  sku_name_of-Silent :
      (p : LoanProduct F) (loan : Option (Loans F)) → Silent view (Notify.sku_name_of d n p loan)
  unfolding Notify.sku_name_of
  sku_name_of-Silent p loan = search (silent_rules, product_of-Silent) depth 20

  service_fee_of-Silent :
      (p : LoanProduct F) (loan : Option (Loans F)) → Silent view (Notify.service_fee_of d n p loan)
  unfolding Notify.service_fee_of
  service_fee_of-Silent p loan = search (silent_rules, product_of-Silent) depth 20

  unpaid_of-Silent : (id : ObjectId) → Silent view (Notify.unpaid_of d n id)
  unfolding Notify.unpaid_of
  unpaid_of-Silent id = search (silent_rules, q.last_silent) depth 20

  raw_data-Silent :
      (msisdn : String) (p : LoanProduct F) (id : ObjectId) (date : LocalTime)
      → Silent view (Notify.create_parameter_raw_data d n msisdn p id date)
  unfolding Notify.create_parameter_raw_data
  raw_data-Silent msisdn p id date =
      search
        (
          silent_rules, get_loan_result-Silent, sku_name_of-Silent, service_fee_of-Silent,
          unpaid_of-Silent,
        )
        depth 20

  get_values_of_parameters-Settles :
      (ps : List String) (msisdn : String) (p : LoanProduct F) (id : ObjectId) (date : LocalTime)
      → Settles view
          (Notify.get_values_of_parameters d n ps msisdn p id date)
          (λ vs. map (λ v. v.name) vs ≡ ps)
  unfolding Notify.get_values_of_parameters
  get_values_of_parameters-Settles ps msisdn p id date =
      Settles-bind _ _ (Settles-Silent _ (raw_data-Silent msisdn p id date))
        (λ x u. Settles-pure _ (parameter_values-names _ ps))

  -- The messages that the store has for the event: at least one.
  module _ (msisdn event : String) (brand : ObjectId) (enabled : Bool) (m : Messages)
      (more : List Messages)
      (rules_known : Settles view
        (d.rules.find_one (λ r. true))
        (λ r. r.promo_collection_enabled ≡ enabled))
      (messages_known : Settles view
        (n.find_messages (record {
          event = event;
          is_deleted_ne_true = true;
          brand_id = if brand == nil_id then none else some brand;
        }))
        (λ ms. ms ≡ m ∷ more)) where
    abbrev chosen : Messages
    chosen = selected_message enabled m more

    response_of-Settles :
        (c : Messages)
        → Settles view
            (Templates.response_of c)
            (λ x. (x.message_id ≡ c.pattern_id) × (x.parameters ≡ c.parameters))
    response_of-Settles c = Settles-if _ _ _ (Settles-fail _) (Settles-pure _ (refl, refl))

    get_message_id-Settles :
        Settles view
          (Templates.get_message_id n event brand enabled)
          (λ x. (x.message_id ≡ chosen.pattern_id) × (x.parameters ≡ chosen.parameters))
    unfolding Templates.get_message_id
    get_message_id-Settles =
        Settles-if _ _ _ (Settles-fail _)
          (Settles-bind _ _ messages_known (λ ms e. rw e (response_of-Settles chosen)))

    send-Told :
        (r : SmsNotificationRequest)
        → Tells msisdn event chosen r
        → Runs view
            (attempt (
              Notify.send_notification_to_pub_sub d n r.notif_parameters r.pattern_id r.msisdn
                r.sms_db_event_name))
            (Told n (Tells msisdn event chosen))
    unfolding Notify.send_notification_to_pub_sub
    send-Told r told =
        Runs-attempting _ _ (Settles-wrapping _ _ (Settles-or_fail _ (n.marshal_sms r) (λ b e. e)))
          (λ b e.
            Runs-attempting_last _ (Marks-wrapping _ _ (q.publish_shown b))
              (λ x. inr (r, b, e, refl, told)))
          (λ e. inl (refl, λ h. cc))

    -- Where reads and failures do not show, what is published does, and the rules and the messages,
    -- if they are read, are these: `NotifyUser` returns. It fails and publishes nothing, or it
    -- publishes one request, about this subscriber and event, with the pattern of the message that
    -- `selected_message` takes from them and its parameters in their order; where it succeeds, it
    -- has published it.
    pub notify_user-Told :
        (product : Option (LoanProduct F)) (loan_id : ObjectId) (date : LocalTime)
        → Runs view
            (attempt (Notify.notify_user d n msisdn event brand product loan_id date))
            (Told n (Tells msisdn event (selected_message enabled m more)))
    unfolding Notify.notify_user
    notify_user-Told product loan_id date =
        Runs-attempting _ _ rules_known
          (λ rules on. rw on (
            Runs-attempting _ _ get_message_id-Settles
              (λ x same.
                Runs-attempting _ _
                  (get_values_of_parameters-Settles x.parameters msisdn
                    (Notify.product_value d n product) loan_id date)
                  (λ ps names.
                    send-Told
                      (record {
                        msisdn = msisdn;
                        sms_db_event_name = event;
                        notif_parameters = ps;
                        pattern_id = x.message_id;
                      })
                      (refl, refl, same.0, names ∙ same.1))
                  (λ e. inl (refl, λ h. cc)))
              (λ e. inl (refl, λ h. cc))))
          (λ e. inl (refl, λ h. cc))
