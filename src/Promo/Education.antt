-- ===== src/Promo/Education.antt =====
-- `publishEducationNotification` of business_rules.go.
pub mod Parameters
use Prim.Native.String.{◌++◌}
use promo_collection.Prelude.{
  String, ◌⊎◌, inl, inr, Option, none, some, List, [], ◌∷◌, str_eq, if◌then◌else◌,
}
use promo_collection.Runtime.{
  Go, Error, message, is_no_documents, pure, fail, or_fail, attempt, restating, deref, ◌>>=◌, ◌>>◌,
}
use promo_collection.Promo.Schema.{
  Loans, LoanProducts, NotificationParameter, education_period_spiel,
}
use promo_collection.Promo.Deps.{Deps}
use promo_collection.Promo.Repos.{
  get_product_name_by_id, get_pattern_id_by_event_and_brand_id, publish_message,
}

-- `if err != nil && !errors.Is(err, mongo.ErrNoDocuments) { return err }`: where there is no
-- document the pointer stays nil.
unfoldable pub tolerate_missing : {S T : Type 0} → T ⊎ Error → Go S (Option T)
tolerate_missing (inl t) = pure (some t)
tolerate_missing (inr e) = if is_no_documents e then pure none else fail e

-- `paramValueMap[name]`
unfoldable pub lookup : String → List (String × String) → Option String
lookup k [] = none
lookup k ((j, v) ∷ m) = if str_eq j k then some v else lookup k m

-- The loop over `messages.Parameters`; an unknown name is an error.
unfoldable pub notification_parameters :
    {S : Type 0} → List (String × String) → List String → Go S (List NotificationParameter)
unfolding lookup
notification_parameters values [] = pure []
notification_parameters values (name ∷ names) = do
  value ← or_fail (message "unknown notification param") (lookup name values)
  rest ← notification_parameters values names
  pure (record { name = name; value = value } ∷ rest)

module _ {S F B : Type 0} (d : Deps S F B) where
  format_float : F → String
  format_float = d.float.format 2

  unfoldable pub param_value_map : Loans F → LoanProducts → List (String × String)
  unfolding format_float
  param_value_map l product =
      ("REMAINING_LOAN_AMOUNT", format_float l.total_unpaid_loan)
      ∷ ("SKU_NAME", product.name)
      ∷ ("SERVICE_FEE", format_float l.service_fee)
      ∷ ("LOAN_DATE", d.sms_date l.created_at)
      ∷ ("DATA_COLLECTION_DATE", d.sms_date l.promo_education_period_timestamp)
      ∷ ("DATA_MB", format_float (d.float.mul l.total_unpaid_loan l.conversion_rate) ++ " MB")
      ∷ ("DATA_CONVERSION", format_float l.conversion_rate ++ " MB")
      ∷ []

  -- The loan is a pointer, which `checkRedisForActivePeriod` may pass as nil.
  unfoldable pub publish_education_notification : Option (Loans F) → Go S (Unit {0})
  publish_education_notification loan = do
    l ← deref loan
    found_product ← attempt (get_product_name_by_id d l.loan_product_id)
    maybe_product ← tolerate_missing found_product
    found_messages ←
        attempt (get_pattern_id_by_event_and_brand_id d education_period_spiel l.brand_id)
    maybe_messages ← tolerate_missing found_messages
    product ← deref maybe_product
    messages ← deref maybe_messages
    params ← notification_parameters (param_value_map l product) messages.parameters
    restating "failed to publish message" (
        publish_message d.notification_codec d.notification_topic (record {
          msisdn = l.msisdn;
          sms_db_event_name = education_period_spiel;
          notif_parameters = params;
          pattern_id = messages.pattern_id;
        }))
    pure tt
