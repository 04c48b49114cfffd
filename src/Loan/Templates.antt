-- ===== src/Loan/Templates.antt =====
-- The messages of an event and the choice among them: `GetMessageID` of internal/pkg/store/message.go,
-- with internal/pkg/models/message.go, message_response.go and sms_notification_request.go.
use promo_collection.Prelude.{
  String, ℤ, Bool, true, false, not, ◌&&◌, ◌||◌, Option, none, some, List, [], ◌∷◌, find?, ◌==◌,
  str_eq, if◌then◌else◌,
}
use promo_collection.Runtime.{Go, no_documents, pure, fail, ◌>>=◌}
use promo_collection.Runtime.Time.{Time}
use promo_collection.Driver.{ObjectId, nil_id}
use promo_collection.Loan.Errors.{error_missing_required_inputs, error_no_document_found}

pub record Messages : Type 0 where
  pub id : ObjectId
  pub created_at : Time
  pub updated_at : Time
  pub pattern_id : ℤ
  pub parameters : List String
  pub event : String
  pub brand_id : String
  pub labels : List String
  pub migrated : Bool
  pub is_deleted : Bool

pub record MessageResponse : Type 0 where
  pub message_id : ℤ
  pub parameters : List String

pub record NotificationParameter : Type 0 where
  pub name : String
  pub value : String

pub record SmsNotificationRequest : Type 0 where
  pub msisdn : String
  pub sms_db_event_name : String
  pub notif_parameters : List NotificationParameter
  pub pattern_id : ℤ

-- A time with the zone in which it is shown.
pub data LocalTime : Type 0 where
  utc pht : Time → LocalTime

-- `bson.M` of `GetMessageID`: the event, whether `isDeleted` must not be true, and the brand, if it is
-- one of the keys.
pub record MessageFilter : Type 0 where
  pub event : String
  pub is_deleted_ne_true : Bool
  pub brand_id : Option ObjectId

-- What only the notifications need.
pub record Notifier (S B : Type 0) : Type 0 where
  -- `FindAll` with the filter
  pub find_messages : MessageFilter → Go S (List Messages)
  -- `json.Marshal`
  pub marshal_sms : SmsNotificationRequest → Option B
  -- `Publish` on the topic of the configuration
  pub publish_sms : B → Go S String
  -- `t.Format("01/02/2006")`
  pub format_date : LocalTime → String

abbrev pub has_label : String → List String → Bool
has_label l [] = false
has_label l (x ∷ xs) = str_eq x l || has_label l xs

-- Whether the label of the message agrees with the collection from promos.
abbrev pub agrees : Bool → Messages → Bool
agrees enabled m =
    enabled && has_label "DC_ON" m.labels || not enabled && not (has_label "DC_ON" m.labels)

abbrev pub or_first : Messages → Option Messages → Messages
or_first m none = m
or_first m (some n) = n

unfoldable pub selected_message : Bool → Messages → List Messages → Messages
selected_message enabled m [] = m
selected_message enabled m (n ∷ more) = or_first m (find? (agrees enabled) (m ∷ n ∷ more))

abbrev pub response_of : {S : Type 0} → Messages → Go S MessageResponse
response_of m =
    if m.is_deleted
    then fail error_no_document_found
    else pure (record { message_id = m.pattern_id; parameters = m.parameters })

abbrev pub message_selected : {S : Type 0} → Bool → List Messages → Go S MessageResponse
message_selected enabled [] = fail no_documents
message_selected enabled (m ∷ more) = response_of (selected_message enabled m more)

abbrev pub message_filter : String → ObjectId → MessageFilter
message_filter event brand = record {
  event = event;
  is_deleted_ne_true = true;
  brand_id = if brand == nil_id then none else some brand;
}

unfoldable pub get_message_id :
    {S B : Type 0} → Notifier S B → String → ObjectId → Bool → Go S MessageResponse
get_message_id n event brand enabled =
    if str_eq event ""
    then fail error_missing_required_inputs
    else n.find_messages (message_filter event brand) >>= λ ms. message_selected enabled ms
