-- ===== src/Tests/NotifyWitnesses.antt =====
-- The theorems about messages to subscribers and to Kafka at concrete inputs.
use promo_collection.Prelude.{
  ◌≡◌, All, ◌⊎◌, refl, String, true, false, ℤ, pos, none, some, inl, List, [], ◌∷◌, ◌++◌, find?,
}
use promo_collection.Runtime.{ok, attempt}
use promo_collection.Runtime.Runs.{Runs}
use promo_collection.Loan.Notify
use promo_collection.Loan.Templates.{Messages, Notifier, utc, selected_message}
use promo_collection.Loan.Notify.Selected.{IsFirst, Suits, selected_message-IsFirst}
use promo_collection.Loan.Notify.Published.{ShowsPublished, Told, Tells, notify_user-Told}
use promo_collection.Loan.Deps.{Deps, StatusReport}
use promo_collection.Loan.Availments.{no_availment}
use promo_collection.Loan.Publisher
use promo_collection.Loan.Publisher.Marked.{
  PublishEvent, delivered, marked, run_publish_status-Marked,
}
use promo_collection.Tests.LoanWorld.{World, deps, product, rules, found-no_panic}

-- A message with a pattern and labels.
abbrev labelled : ℤ → List String → Messages
labelled pattern labels = record {
  id = 1;
  created_at = 0;
  updated_at = 0;
  pattern_id = pattern;
  parameters = "LOAN_SKU" ∷ "SERVICE_FEE" ∷ [];
  event = "LoanAvailmentSuccess";
  brand_id = "";
  labels = labels;
  migrated = false;
  is_deleted = false;
}

abbrev plain : Messages
plain = labelled (pos 11) []

abbrev with_label : Messages
with_label = labelled (pos 12) ("DC_ON" ∷ [])

abbrev notifier : Notifier World String
notifier = record {
  find_messages = λ f w. (ok (plain ∷ with_label ∷ []), w);
  marshal_sms = λ r. some r.msisdn;
  publish_sms = λ b w. (ok "id", record w { published = w.published ++ (b ∷ []) });
  format_date = λ t. "";
}

abbrev published_of : World → List String
published_of w = w.published

shows_published : ShowsPublished deps notifier published_of
shows_published = record {
  rules_silent = λ p. record { at = λ w. (refl, found-no_panic (find? p (rules ∷ []))) };
  messages_silent = λ f. record { at = λ w. (refl, λ h. cc) };
  loans_silent = λ p. record { at = λ w. (refl, λ h. cc) };
  products_silent = λ p. record { at = λ w. (refl, found-no_panic (find? p (product ∷ []))) };
  last_silent = λ p. record { at = λ w. (refl, λ h. cc) };
  publish_shown = λ b. record { at = λ w. (refl, λ h. cc) };
}

selected_message-IsFirst_example :
    IsFirst true (plain ∷ with_label ∷ []) with_label
    ⊎ ((with_label ≡ plain) × All (λ x. Suits true x → ⊥) (plain ∷ with_label ∷ []))
unfolding selected_message
selected_message-IsFirst_example = selected_message-IsFirst true plain with_label []

notify_user-Told_example :
    Runs published_of
      (attempt
        (Notify.notify_user deps notifier "9171234567" "LoanAvailmentSuccess" 4 none 0 (utc 0)))
      (Told notifier (Tells "9171234567" "LoanAvailmentSuccess" with_label))
unfolding selected_message
notify_user-Told_example =
    notify_user-Told shows_published "9171234567" "LoanAvailmentSuccess" 4 true plain
      (with_label ∷ []) (record { at = λ w. (refl, inl (rules, refl, refl)) })
      (record { at = λ w. (refl, inl (plain ∷ with_label ∷ [], refl, refl)) }) none 0 (utc 0)

-- Kafka takes every message.
abbrev publishing : Deps World ℤ String
publishing = record deps {
  publish_kafka = λ t w. (ok tt, record w { events = w.events ++ (delivered ∷ []) });
  availments = record deps.availments {
    update_one = λ p f w. (ok tt, record w { events = w.events ++ (marked ∷ []) });
  };
}

abbrev events_of : World → List PublishEvent
events_of w = w.events

abbrev report : StatusReport ℤ
report = record {
  availment = no_availment publishing;
  channel = "SMS";
  msisdn = "9171234567";
  keyword = "SURF50";
  servicing_partner = "1";
  availment_result = "Fail";
  status_of_provisioned_loan = "";
}

run_publish_status-Marked_example :
    Runs events_of
      (Publisher.run_publish_status publishing report "SURF50" (pos 50))
      (λ u es. (es ≡ []) ⊎ (es ≡ delivered ∷ marked ∷ []))
run_publish_status-Marked_example =
    run_publish_status-Marked publishing (record { at = λ w. (w.clock, refl, refl, tt) })
      (λ t. record { at = λ w. inl (refl, refl) }) report (record { at = λ w. (refl, λ h. cc) })
      "SURF50" (pos 50)
