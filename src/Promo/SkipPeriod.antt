-- ===== src/Promo/SkipPeriod.antt =====
-- The skip periods during which a subscriber is left alone: utils/skipping_period.go,
-- `checkRedisForActivePeriod` and `createSkippingCacheEntry` of business_rules.go.
pub mod Periods
use promo_collection.Prelude.{
  String, Bool, true, false, not, ◌||◌, ◌⊎◌, inl, inr, none, some, if◌then◌else◌,
}
use promo_collection.Runtime.{
  Go, Error, message, is_redis_nil, pure, fail, attempt, or_fail, wrapping, ◌>>=◌, ◌>>◌,
}
use promo_collection.Runtime.Time.{Time, before, after, zero_time}
use promo_collection.Driver.{Codec}
use promo_collection.Promo.Schema.{Loans, SkipTimestamps}
use promo_collection.Promo.Deps.{Deps}
use promo_collection.Promo.Repos.{
  time_now, get_loan_by_msisdn, skip_timestamps_key, save_skip_timestamps,
}
use promo_collection.Promo.Education.{tolerate_missing, publish_education_notification}

-- `IsSkipPeriodActive`, `now` being what `time.Now` returns there.
unfoldable pub is_skip_period_active : Time → Time → Time → Time → Bool
is_skip_period_active now education load grace =
    not (before education now) || not (before load now) || not (before grace now)

-- `json.Unmarshal`
unfoldable pub unmarshalled : {S T B : Type 0} → Codec T B → B → Go S T
unmarshalled c b = or_fail (message "json.Unmarshal") (c.unmarshal b)

module _ {S F B : Type 0} (d : Deps S F B) where
  -- The branch of the promo education period: the reminder is sent again.
  unfoldable pub notify_in_education : String → Go S Bool
  notify_in_education msisdn = do
    found ← attempt (get_loan_by_msisdn d msisdn)
    loan ← tolerate_missing found
    publish_education_notification d loan
    pure true

  -- All periods are over.
  unfoldable pub clear_skip_entry : String → Go S Bool
  clear_skip_entry msisdn = do d.redis.del (skip_timestamps_key msisdn); pure false

  unfoldable pub active_period : String → Time → SkipTimestamps → Go S Bool
  active_period msisdn now t =
      if before now t.promo_education_period_timestamp
      then notify_in_education msisdn
      else if before now t.loan_load_period_timestamp
      then pure true
      else if before now t.grace_period_timestamp
      then pure true
      else clear_skip_entry msisdn

  unfoldable pub active_period_of : String → B ⊎ Error → Go S Bool
  active_period_of msisdn (inr e) = if is_redis_nil e then pure false else fail e
  active_period_of msisdn (inl b) = do
    t ← unmarshalled d.skip_codec b
    now ← time_now d
    active_period msisdn now t

  unfoldable pub check_redis_for_active_period : String → Go S Bool
  check_redis_for_active_period msisdn = do
    r ← attempt (d.redis.get (skip_timestamps_key msisdn))
    active_period_of msisdn r

  -- `if education.After(time.Now()) { publishEducationNotification }`
  unfoldable pub notify_if_after : Time → Loans F → Go S (Unit {0})
  notify_if_after education l = do
    now ← time_now d
    if after education now then publish_education_notification d (some l) else pure tt

  unfoldable pub create_skipping_cache_entry : Loans F → String → Go S (Unit {0})
  create_skipping_cache_entry l msisdn = do
    wrapping "failed to save skip timestamps" (
        save_skip_timestamps d msisdn (record {
          grace_period_timestamp = zero_time;
          promo_education_period_timestamp = l.promo_education_period_timestamp;
          loan_load_period_timestamp = l.loan_load_period_timestamp;
        }))
    notify_if_after l.promo_education_period_timestamp l
