-- ===== src/Promo/Deps.antt =====
-- What promo-collection is given: the collections, the Redis client, the two topics, the clock, the
-- arithmetic of `float64`, and the encodings. `S` is the outside world, `F` is `float64` and `B` the
-- bytes that are stored and sent.
use promo_collection.Prelude.{String}
use promo_collection.Runtime.Float64.{Float64}
use promo_collection.Runtime.Time.{Time}
use promo_collection.Driver
use promo_collection.Driver.{Redis, Codec, Topic, Clock}
use promo_collection.Promo.Schema.{
  Loans, SystemLevelRules, CollectionTransactionsInProgress, WhitelistedForDataCollection,
  UnpaidLoans, Messages, LoanProducts, SkipTimestamps, PublishToWorkerMsgFormat,
  PubSubNotificationMessage,
}

pub record Deps (S F B : Type 0) : Type 0 where
  pub float : Float64 F
  pub now : Clock S
  -- `t.Format("01/02/2006")`
  pub sms_date : Time → String
  pub rules : Driver.Collection S (SystemLevelRules F)
  pub loans : Driver.Collection S (Loans F)
  pub unpaid_loans : Driver.Collection S UnpaidLoans
  pub loan_products : Driver.Collection S LoanProducts
  pub messages : Driver.Collection S Messages
  pub whitelist : Driver.Collection S WhitelistedForDataCollection
  pub in_progress : Driver.Collection S CollectionTransactionsInProgress
  pub redis : Redis S B
  pub skip_codec : Codec SkipTimestamps B
  pub worker_topic : Topic S B
  pub worker_codec : Codec (PublishToWorkerMsgFormat F) B
  pub notification_topic : Topic S B
  pub notification_codec : Codec PubSubNotificationMessage B
