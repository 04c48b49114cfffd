-- ===== src/Worker/Notify.antt =====
-- The notifications of internal/service/success_handling: `notifyFull`, `notifyPartial` and what
-- they call.
use Prim.Native.String.{◌++◌}
use promo_collection.Prelude.{
  ℕ, String, ◌⊎◌, inl, inr, Option, none, some, [], ◌∷◌, ℤ, pos, ◌==◌, get_elem?, if◌then◌else◌,
}
use promo_collection.Runtime.{Go, Error, message, pure, or_fail, attempt, deref, ◌>>=◌, ◌>>◌}
use promo_collection.Runtime.Time.{Time, days_between}
use promo_collection.Runtime.Strconv.{itoa}
use promo_collection.Driver.{nil_id}
use promo_collection.Worker.Schema.{
  PromoCollectionPublishedMessage, Messages, LoanProducts, SmsNotificationParameter, full_event,
  partial_event,
}
use promo_collection.Worker.Deps.{Deps}
use promo_collection.Worker.Repos.{get_pattern_id_by_event_and_brand_id, get_product_name_by_id}

-- The error is logged, and the pointer stays nil.
unfoldable pub logged : {A : Type 0} → A ⊎ Error → Option A
logged (inl a) = some a
logged (inr e) = none

abbrev name_or_empty : Option LoanProducts → String
name_or_empty none = ""
name_or_empty (some p) = p.name

abbrev pattern_id_or_zero : Option Messages → ℤ
pattern_id_or_zero none = pos 0
pattern_id_or_zero (some m) = m.pattern_id

-- `{Name: pattern.Parameters[i], Value: value}` panics where `pattern` is nil or has no such
-- parameter.
unfoldable pub parameter :
    {S : Type 0} → Option Messages → ℕ → String → Go S SmsNotificationParameter
parameter pattern i value = do
  m ← deref pattern
  name ← deref (get_elem? m.parameters i)
  pure (record { name = name; value = value })

module _ {S F B : Type 0} (d : Deps S F B) where
  unfoldable pub format_float : F → String
  format_float x = d.float.format 2 x

  -- A lookup that fails is logged, and leaves the pattern nil and the name empty.
  unfoldable pub build_full_notification : PromoCollectionPublishedMessage F → Go S B
  build_full_notification msg = do
    found_pattern ← attempt (get_pattern_id_by_event_and_brand_id d full_event msg.brand_id)
    let pattern = logged found_pattern
    product_name ← if msg.loan_product_id == nil_id then pure "" else (do
      found_product ← attempt (get_product_name_by_id d msg.loan_product_id)
      pure (name_or_empty (logged found_product)))
    p0 ← parameter pattern 0 (format_float msg.data_to_be_deducted ++ " MB")
    p1 ← parameter pattern 1 (format_float msg.amount_to_be_deducted_in_peso)
    p2 ← parameter pattern 2 product_name
    p3 ← parameter pattern 3 (d.sms_date msg.start_date)
    or_fail (message "json.Marshal") (
        d.notification_codec.marshal (record {
          msisdn = msg.msisdn;
          sms_db_event_name = full_event;
          pattern_id = pattern_id_or_zero pattern;
          notif_parameters = p0 ∷ p1 ∷ p2 ∷ p3 ∷ [];
        }))

  unfoldable pub notify_full : PromoCollectionPublishedMessage F → Go S (Unit {0})
  notify_full msg = do b ← build_full_notification msg; d.notification_topic.send b; pure tt

  -- A lookup that fails ends it.
  unfoldable pub build_partial_notification : PromoCollectionPublishedMessage F → Time → Go S B
  build_partial_notification msg grace = do
    pattern ← get_pattern_id_by_event_and_brand_id d partial_event msg.brand_id
    product_name ←
        if msg.loan_product_id == nil_id
        then pure ""
        else (do product ← get_product_name_by_id d msg.loan_product_id; pure product.name)
    now ← d.now
    p1 ← parameter (some pattern) 1 (format_float msg.amount_to_be_deducted_in_peso)
    p2 ← parameter (some pattern) 2 product_name
    p0 ← parameter (some pattern) 0 (format_float msg.data_to_be_deducted ++ " MB")
    p3 ← parameter (some pattern) 3 (d.sms_date msg.start_date)
    p4 ← parameter (some pattern) 4 (
        format_float
          (d.float.sub msg.total_unpaid_amount_in_peso msg.amount_to_be_deducted_in_peso))
    p5 ← parameter (some pattern) 5 (itoa (days_between grace now))
    or_fail (message "json.Marshal") (
        d.notification_codec.marshal (record {
          msisdn = msg.msisdn;
          sms_db_event_name = partial_event;
          pattern_id = pattern.pattern_id;
          notif_parameters = p1 ∷ p2 ∷ p0 ∷ p3 ∷ p4 ∷ p5 ∷ [];
        }))

  unfoldable pub notify_partial : PromoCollectionPublishedMessage F → Time → Go S (Unit {0})
  notify_partial msg grace = do
    b ← build_partial_notification msg grace
    d.notification_topic.send b
    pure tt
