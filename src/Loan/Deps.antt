-- ===== src/Loan/Deps.antt =====
-- What loan-availment is given. `S` is the outside world, `F` is `float64` and `B` the bytes that
-- are stored, sent and received.
use promo_collection.Prelude.{String, ℕ, ℤ, Bool, List, Option}
use promo_collection.Runtime.{Go}
use promo_collection.Runtime.Float64.{Float64}
use promo_collection.Runtime.Time.{Time}
use promo_collection.Driver
use promo_collection.Driver.{ObjectId, Clock}
use promo_collection.Loan.Schema.{
  Keyword, LoanProduct, Subscribers, Channels, Brand, LoanProductsBrands, LoanProductsChannels,
  WhitelistedSubs, TransactionInProgress, ProductsNamesInAmax, SystemLevelRules, Loans, UnpaidLoans,
  Availments, RedisLoan,
}

-- What is published about an availment, besides the name and the price of the product.
pub record StatusReport (F : Type 0) : Type 0 where
  pub availment : Availments F
  pub channel : String
  pub msisdn : String
  pub keyword : String
  pub servicing_partner : String
  pub availment_result : String
  pub status_of_provisioned_loan : String

-- What a `go` statement starts: its arguments are evaluated there, and it runs at another time.
pub data Task (F : Type 0) : Type 0 where
  -- `PublishAvailmentStatusToKafka` and `UpdateAvailment`, with the name and the price
  publish_status : StatusReport F → String → F → Task F
  -- the same, where the name and the price are read through the pointer at that other time
  publish_product_status : StatusReport F → Option (LoanProduct F) → Task F
  -- `NotifyUser`
  notify_user : String → String → ObjectId → Option (LoanProduct F) → ObjectId → Time → Task F
  -- `DeleteTransactionInProgressByMsisdn`
  delete_in_progress : String → Task F
  -- `ProcessRequest`
  process_request : String → String → String → String → String → F → Time → Task F

-- The requests to AMAX, by the values that their payloads carry.
pub data AmaxRequest (F : Type 0) : Type 0 where
  create_session_request : AmaxRequest F
  login_request : String → String → String → AmaxRequest F
  topup_request : String → ℤ → String → String → F → AmaxRequest F

pub record CreateSessionReturn : Type 0 where
  pub session_result_code : ℤ
  pub session : String

pub record LoginReturn : Type 0 where
  pub result_code : ℤ
  pub session_result_code : ℤ

pub record TopupReturn : Type 0 where
  pub result_code : ℤ
  pub session_result_code : ℤ
  pub trans_id : ℤ

pub record Attribute : Type 0 where
  pub name : String
  pub value : String

pub record Deps (S F B : Type 0) : Type 0 where
  pub float : Float64 F
  -- `int64(x)`
  pub to_int64 : F → ℤ
  -- `strconv.ParseFloat` and `strconv.ParseInt`; a text that is no number is read as 0
  pub parse_float : String → Option F
  pub parse_int : String → ℤ
  -- `time.Parse("2006-01-02 15:04:05", s)`
  pub parse_time : String → Option Time
  pub now : Clock S
  pub new_object_id : Go S ObjectId
  -- `uuid.NewString()`
  pub new_guid : Go S String
  -- MongoDB's test of a text by `^pattern$` with the option `i`
  pub matches_pattern : String → String → Bool
  pub keywords : Driver.Collection S Keyword
  pub subscribers : Driver.Collection S (Subscribers F)
  pub products : Driver.Collection S (LoanProduct F)
  pub channels : Driver.Collection S Channels
  pub brands : Driver.Collection S Brand
  pub products_brands : Driver.Collection S LoanProductsBrands
  pub products_channels : Driver.Collection S LoanProductsChannels
  pub amax_names : Driver.Collection S ProductsNamesInAmax
  pub in_progress : Driver.Collection S TransactionInProgress
  pub rules : Driver.Collection S (SystemLevelRules F)
  pub loans : Driver.Collection S (Loans F)
  pub unpaid_loans : Driver.Collection S (UnpaidLoans F)
  -- `FindOne` in the descending order of `version`
  pub last_version : (UnpaidLoans F → Bool) → Go S (UnpaidLoans F)
  pub availments : Driver.Collection S (Availments F)
  -- `CountDocuments`
  pub count_whitelisted : (WhitelistedSubs → Bool) → Go S ℕ
  -- the aggregation of `ServicingPartnerByProductId`: name, number and whether it is deleted
  pub partner_of : ObjectId → Go S (String × ℤ × Bool)
  pub start_session : Go S (Unit {0})
  pub start_transaction : Go S (Unit {0})
  pub abort_transaction : Go S (Unit {0})
  pub commit_transaction : Go S (Unit {0})
  -- `downstreams.GetDetailsByAttribute`: the attributes of the subscriber
  pub get_details_by_attribute : String → Go S (List Attribute)
  -- `client.Do`: the status code and the body, which `read_all` reads
  pub send_amax : AmaxRequest F → Go S (ℤ × B)
  pub read_all : B → Go S B
  -- `xml.Unmarshal`
  pub decode_session : B → Option CreateSessionReturn
  pub decode_login : B → Option LoginReturn
  pub decode_topup : B → Option TopupReturn
  -- the text of the fault's detail
  pub decode_fault : B → Option String
  pub login_session_user : String
  pub login_session_password : String
  -- `hex.EncodeToString` of the SHA-1 sum, in lower case
  pub sha1_hex : String → String
  -- `KafkaPublisher`
  pub publish_kafka : String → Go S (Unit {0})
  -- `t.Format("01/02/2006 15:04")`
  pub kafka_date : Time → String
  pub redis_set : String → B → ℤ → Go S (Unit {0})
  pub marshal_loan : RedisLoan → Option B
  pub spawn : Task F → Go S (Unit {0})
