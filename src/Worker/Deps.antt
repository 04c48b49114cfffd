-- ===== src/Worker/Deps.antt =====
-- What promo-collection-worker is given. `S` is the outside world, `F` is `float64` and `B` the
-- bytes that are stored and sent.
use promo_collection.Prelude.{String, ℤ, List, Option}
use promo_collection.Runtime.{Go}
use promo_collection.Runtime.Float64.{Float64}
use promo_collection.Runtime.Time.{Time}
use promo_collection.Driver
use promo_collection.Driver.{ObjectId, Codec, Topic, Clock, Sessions}
use promo_collection.Worker.Schema.{
  Loans, SystemLevelRules, CollectionTransactionsInProgress, Collections, UnpaidLoanEntry,
  ClosedLoanEntry, Messages, LoanProducts, GraceTimestamp, LoanDeductionNotificationFormat,
}

pub record Deps (S F B : Type 0) : Type 0 where
  pub float : Float64 F
  -- `int32(x)`
  pub to_int32 : F → ℤ
  -- `int(math.Round(x))`
  pub rounded : F → ℤ
  pub now : Clock S
  -- `t.Format("01/02/2006")` and `t.Format("01/02/2006 15:04")`
  pub sms_date : Time → String
  pub kafka_date : Time → String
  -- `primitive.NewObjectID()`
  pub new_object_id : Go S ObjectId
  pub sessions : Sessions S
  pub rules : Driver.Collection S SystemLevelRules
  pub loans : Driver.Collection S (Loans F)
  pub closed_loans : Driver.Collection S (ClosedLoanEntry F)
  pub unpaid_loans : Driver.Collection S (UnpaidLoanEntry F)
  pub collections : Driver.Collection S (Collections F)
  pub in_progress : Driver.Collection S CollectionTransactionsInProgress
  pub messages : Driver.Collection S Messages
  pub loan_products : Driver.Collection S LoanProducts
  -- `redisClient.Set` with the time to live in nanoseconds
  pub redis_set : String → B → ℤ → Go S (Unit {0})
  pub skip_codec : Codec GraceTimestamp B
  pub notification_topic : Topic S B
  pub notification_codec : Codec LoanDeductionNotificationFormat B
  pub kafka : Topic S B
  -- `encoding/csv`: one record, without the line end
  pub csv : List String → Option B
