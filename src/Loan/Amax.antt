-- ===== src/Loan/Amax.antt =====
-- internal/pkg/downstreams/amax_service.go.
pub mod Settled
use Prim.Native.String.{◌++◌}
use promo_collection.Prelude.{
  String, ℤ, pos, Bool, true, false, not, Option, none, some, ◌⊎◌, inl, inr, eqb_ℤ, if◌then◌else◌,
}
use promo_collection.Runtime.{
  Go, Error, message, coded, error_text, pure, fail, attempt, or_fail, ◌>>=◌, ◌>>◌,
}
use promo_collection.Runtime.Time.{Time, zero_time}
use promo_collection.Driver.{ObjectId, nil_id}
use promo_collection.Loan.Schema.{LoanProduct, Availments}
use promo_collection.Loan.Errors.{
  get_error_code, equals_coded, error_loan_availment_failed, error_loan_availment_failed_code,
  error_loan_availment_timeout, error_loan_availment_timeout_code,
}
use promo_collection.Loan.Deps.{
  Deps, StatusReport, Task, publish_status, publish_product_status, notify_user, delete_in_progress,
  AmaxRequest, create_session_request, login_request, topup_request, TopupReturn, LoginReturn,
  CreateSessionReturn,
}
use promo_collection.Loan.Repos.{delete_transaction_in_progress_by_msisdn}
use promo_collection.Loan.Availments.{
  Inserted, insert_failed_availment, insert_successful_availment,
}

-- `SessionResultCodeErrorMessages`; another code gives `ErrorLoanAvailmentFailed`.
unfoldable pub session_error : ℤ → Error
session_error n =
    if eqb_ℤ n (pos 1)
    then coded "DODRIO2_LOAN_AVAILMENT_REQUEST_TOPUP_INVALID_SESSION" "Session Invalid"
    else if eqb_ℤ n (pos 2)
    then coded "DODRIO2_LOAN_AVAILMENT_REQUEST_TOPUP_SESSION_UNAVAILABLE" "Session Not Available"
    else error_loan_availment_failed

-- `ResultErrorCodeMessages`, likewise.
unfoldable pub result_error : ℤ → Error
result_error n =
    if eqb_ℤ n (pos 1)
    then coded "DODRIO2_LOAN_AVAILMENT_REQUEST_TOPUP_ERROR_GENERATING_SESSION"
        "Session could not be generated"
    else if eqb_ℤ n (pos 2)
    then coded "DODRIO2_LOAN_AVAILMENT_REQUEST_TOPUP_CREDENTIAL_INVALID"
        "Username/password is invalid"
    else if eqb_ℤ n (pos 3)
    then coded "DODRIO2_LOAN_AVAILMENT_REQUEST_TOPUP_INSUFFICIENT_FUNDS"
        "Insufficient funds to process transaction"
    else if eqb_ℤ n (pos 4)
    then coded "DODRIO2_LOAN_AVAILMENT_REQUEST_TOPUP_INVALID_CARD_NUMBER" "Invalid card number"
    else if eqb_ℤ n (pos 5)
    then coded "DODRIO2_LOAN_AVAILMENT_REQUEST_TOPUP_INVALID_AMOUNT" "Invalid amount"
    else if eqb_ℤ n (pos 6)
    then coded "DODRIO2_LOAN_AVAILMENT_REQUEST_TOPUP_OPERATION_FAILED" "Operation failed"
    else if eqb_ℤ n (pos 7)
    then coded "DODRIO2_LOAN_AVAILMENT_REQUEST_TOPUP_NO_PERMISSION"
        "No permission for this operation"
    else if eqb_ℤ n (pos 8)
    then coded "DODRIO2_LOAN_AVAILMENT_REQUEST_TOPUP_INVALID_KEYWORD" "Invalid product keyword"
    else error_loan_availment_failed

-- What `ProvisionLoanAmax` is given.
pub record Provision (F : Type 0) : Type 0 where
  pub msisdn : String
  pub transaction_id : String
  pub product : LoanProduct F
  pub keyword : String
  pub channel : String
  pub system_client : String
  pub name_in_amax : String
  pub credit_score : F
  pub brand_type : String
  pub brand_id : ObjectId

-- A text is missing where the body could not be read.
abbrev pub text_or_empty : Option String → String
text_or_empty none = ""
text_or_empty (some t) = t

module _ {S F B : Type 0} (d : Deps S F B) where
  abbrev pub sent : (ℤ × B) ⊎ Error → Go S (ℤ × B)
  sent (inl (status, raw)) = do body ← d.read_all raw; pure (status, body)
  sent (inr e) = fail error_loan_availment_timeout

  -- The status code and the body. Every error of the transport counts as a timeout.
  unfoldable pub api_call : AmaxRequest F → Go S (ℤ × B)
  api_call r = do answer ← attempt (d.send_amax r); sent answer

  abbrev pub fault : B → Go S String
  fault body = do t ← or_fail (message "xml") (d.decode_fault body); fail (message t)

  abbrev pub session_result : CreateSessionReturn → Go S String
  session_result r =
      if eqb_ℤ r.session_result_code (pos 0)
      then pure r.session
      else fail (session_error r.session_result_code)

  unfoldable pub create_session : Go S String
  unfolding api_call
  create_session = do
    (status, body) ← api_call create_session_request
    (if not (eqb_ℤ status (pos 200))
        then fault body
        else (do r ← or_fail (message "xml") (d.decode_session body); session_result r))

  abbrev pub login_result : LoginReturn → Go S (Unit {0})
  login_result r =
      if not (eqb_ℤ r.session_result_code (pos 0))
      then fail (session_error r.session_result_code)
      else if not (eqb_ℤ r.result_code (pos 0))
      then fail (result_error r.result_code)
      else pure tt

  -- The codes that are returned are not used.
  unfoldable pub login_session : String → Go S (Unit {0})
  unfolding api_call
  login_session session = do
    let digest = d.sha1_hex (d.login_session_user ++ d.login_session_password)
    (status, body) ←
        api_call (login_request session d.login_session_user (d.sha1_hex (session ++ digest)))
    (if not (eqb_ℤ status (pos 200))
        then (do fault body; pure tt)
        else (do r ← or_fail (message "xml") (d.decode_login body); login_result r))

  abbrev pub topup_result : TopupReturn → Go S (Unit {0})
  topup_result r =
      if not (eqb_ℤ r.session_result_code (pos 0))
      then fail (session_error r.session_result_code)
      else if not (eqb_ℤ r.result_code (pos 0))
      then fail (result_error r.result_code)
      else pure tt

  -- The codes that are returned are only logged.
  unfoldable pub topup : String → ℤ → String → String → F → Go S (Unit {0})
  unfolding api_call
  topup session ext_trans_id target product amount = do
    (status, body) ← api_call (topup_request session ext_trans_id target product amount)
    (if not (eqb_ℤ status (pos 200))
        then fail (message (text_or_empty (d.decode_fault body)))
        else (do r ← or_fail (message "xml") (d.decode_topup body); topup_result r))

  abbrev pub report : Provision F → Inserted F → String → String → StatusReport F
  report q i result status = record {
    availment = i.availment;
    channel = q.channel;
    msisdn = q.msisdn;
    keyword = q.keyword;
    servicing_partner = i.servicing_partner;
    availment_result = result;
    status_of_provisioned_loan = status;
  }

  abbrev pub notification : Provision F → String → Task F
  notification q event = notify_user q.msisdn event q.brand_id (some q.product) nil_id zero_time

  abbrev pub insert_failed : Provision F → Error → String → Go S (Inserted F)
  insert_failed q e code =
      insert_failed_availment d q.msisdn q.keyword q.channel q.system_client (error_text e) code
        q.credit_score (some q.product) q.brand_type

  -- Without a session nothing was asked of AMAX.
  unfoldable pub session_failed : Provision F → Error → Go S (Option Error)
  session_failed q e = do
    i ← insert_failed q e error_loan_availment_failed_code
    d.spawn (publish_product_status (report q i "Fail" "") i.product)
    attempt (delete_transaction_in_progress_by_msisdn d q.msisdn)
    d.spawn (notification q "LoanAvailmentFailedSystemFailure")
    pure (some e)

  unfoldable pub login_failed : Provision F → Error → Go S (Option Error)
  login_failed q e = do
    i ← insert_failed q e error_loan_availment_failed_code
    d.spawn (notification q "LoanAvailmentFailedSystemFailure")
    d.spawn (publish_product_status (report q i "Fail" "") i.product)
    d.spawn (delete_in_progress q.msisdn)
    pure (some e)

  -- After a timeout the entry stays: whether the subscriber was topped up is not known.
  unfoldable pub topup_failed : Provision F → Error → Go S (Option Error)
  topup_failed q e = do
    i ← insert_failed q e (get_error_code e)
    d.spawn (publish_status (report q i "Fail" "") q.product.name q.product.price)
    (if equals_coded error_loan_availment_timeout_code e
        then (do d.spawn (notification q "LoanAvailmentFailedTimeOut"); pure (some e))
        else (do
          attempt (delete_transaction_in_progress_by_msisdn d q.msisdn)
          d.spawn (notification q "LoanAvailmentFailedSystemFailure")
          pure (some e)))

  unfoldable pub topped_up : Provision F → Go S (Option Error)
  topped_up q = do
    i ←
        insert_successful_availment d q.msisdn q.product q.keyword q.channel q.system_client
          q.credit_score q.brand_type q.brand_id
    d.spawn (publish_product_status (report q i "Success" "Active") i.product)
    attempt (delete_transaction_in_progress_by_msisdn d q.msisdn)
    d.spawn (notification q "LoanAvailmentSuccess")
    pure none

  abbrev pub after_topup : Provision F → Unit {0} ⊎ Error → Go S (Option Error)
  after_topup q (inl u) = topped_up q
  after_topup q (inr e) = topup_failed q e

  abbrev pub after_login : Provision F → String → Unit {0} ⊎ Error → Go S (Option Error)
  after_login q session (inr e) = login_failed q e
  after_login q session (inl u) = do
    r ←
        attempt
          (topup session (d.parse_int q.transaction_id) q.msisdn q.name_in_amax q.product.price)
    after_topup q r

  abbrev pub after_session : Provision F → String ⊎ Error → Go S (Option Error)
  after_session q (inr e) = session_failed q e
  after_session q (inl session) = do r ← attempt (login_session session); after_login q session r

  unfoldable pub provision_loan_amax : Provision F → Go S (Option Error)
  provision_loan_amax q = do r ← attempt create_session; after_session q r
