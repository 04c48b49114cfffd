-- ===== src/Loan/Errors.antt =====
-- The errors of internal/pkg/consts/error_collection.go and the message events of
-- internal/pkg/consts/messageEvents.go that the service's control flow names, and
-- internal/pkg/utils/error.go.
use promo_collection.Prelude.{String, Bool, true, false, str_eq, if◌then◌else◌}
use promo_collection.Runtime.{Error, no_documents, redis_nil, external, message, wrapped, coded}

-- `errors.Is(err, e)` for an error `e` with this code. The codes of the collection are distinct.
abbrev pub is_coded : String → Error → Bool
is_coded c no_documents = false
is_coded c redis_nil = false
is_coded c (external t) = false
is_coded c (message t) = false
is_coded c (wrapped t e) = is_coded c e
is_coded c (coded k t) = str_eq k c

-- `err == e`
abbrev pub equals_coded : String → Error → Bool
equals_coded c no_documents = false
equals_coded c redis_nil = false
equals_coded c (external t) = false
equals_coded c (message t) = false
equals_coded c (wrapped t e) = false
equals_coded c (coded k t) = str_eq k c

-- `err == mongo.ErrNoDocuments`
abbrev pub equals_no_documents : Error → Bool
equals_no_documents no_documents = true
equals_no_documents redis_nil = false
equals_no_documents (external t) = false
equals_no_documents (message t) = false
equals_no_documents (wrapped t e) = false
equals_no_documents (coded k t) = false

unfoldable pub get_error_code : Error → String
get_error_code no_documents = "DODRIO2_INTERNAL_ERROR"
get_error_code redis_nil = "DODRIO2_INTERNAL_ERROR"
get_error_code (external t) = "DODRIO2_INTERNAL_ERROR"
get_error_code (message t) = "DODRIO2_INTERNAL_ERROR"
get_error_code (wrapped t e) = "DODRIO2_INTERNAL_ERROR"
get_error_code (coded c t) = c

abbrev pub no_product_name_in_amax_code : String
no_product_name_in_amax_code = "DODRIO2_LOAN_AVAILMENT_INTERNAL_ERROR_PRODUCTNAMEINAMAX_NOT_FOUND"

abbrev pub no_product_name_in_amax : Error
no_product_name_in_amax =
    coded no_product_name_in_amax_code "No product name in amax found for given product and brand"

abbrev pub error_ineligible_credit_score_code : String
error_ineligible_credit_score_code =
    "DODRIO2_LOAN_AVAILMENT_VALIDATION_MSISDN_CREDIT_SCORE_NOT_ELIGBLE"

abbrev pub error_ineligible_credit_score : Error
error_ineligible_credit_score =
    coded error_ineligible_credit_score_code "MSISDN credit score not eligible"

abbrev pub error_active_loan_code : String
error_active_loan_code = "DODRIO2_LOAN_AVAILMENT_VALIDATION_MSISDN_HAS_EXISTING_LOAN"

abbrev pub error_active_loan : Error
error_active_loan = coded error_active_loan_code "MSISDN has existing loan"

abbrev pub error_user_blacklisted_code : String
error_user_blacklisted_code = "DODRIO2_LOAN_AVAILMENT_VALIDATION_MSISDN_BLACKLISTED"

abbrev pub error_user_blacklisted : Error
error_user_blacklisted = coded error_user_blacklisted_code "MSISDN is blacklisted"

abbrev pub error_user_not_whitelisted_for_product_code : String
error_user_not_whitelisted_for_product_code =
    "DODRIO2_LOAN_AVAILMENT_VALIDATION_MSISDN_NOT_WHITELISTED"

abbrev pub error_user_not_whitelisted_for_product : Error
error_user_not_whitelisted_for_product =
    coded error_user_not_whitelisted_for_product_code
      "MSISDN not part of the loan product whitelist"

abbrev pub error_transaction_in_progress_code : String
error_transaction_in_progress_code = "DODRIO2_LOAN_AVAILMENT_VALIDATION_DUPLICATE_REQUEST"

abbrev pub error_transaction_in_progress : Error
error_transaction_in_progress = coded error_transaction_in_progress_code "Transaction in progress"

abbrev pub error_msisdn_format_code : String
error_msisdn_format_code = "DODRIO2_LOAN_AVAILMENT_VALIDATION_MSISDN_FORMAT_INVALID"

abbrev pub error_msisdn_format : Error
error_msisdn_format =
    coded error_msisdn_format_code "Loan availment MSISDN parameter validation failed"

abbrev pub error_transaction_id_format_code : String
error_transaction_id_format_code = "DODRIO2_LOAN_AVAILMENT_VALIDATION_TRANSACTION_ID_FORMAT_INVALID"

abbrev pub error_transaction_id_format : Error
error_transaction_id_format =
    coded error_transaction_id_format_code
      "Loan availment TransactionID parameter validation failed"

abbrev pub error_keyword_format_code : String
error_keyword_format_code = "DODRIO2_LOAN_AVAILMENT_VALIDATION_KEYWORD_FORMAT_INVALID"

abbrev pub error_keyword_format : Error
error_keyword_format =
    coded error_keyword_format_code "Loan availment Keyword parameter validation failed"

abbrev pub error_invalid_keyword_code : String
error_invalid_keyword_code = "DODRIO2_LOAN_AVAILMENT_VALIDATION_KEYWORD_NOT_FOUND_OR_ACTIVE"

abbrev pub error_invalid_keyword : Error
error_invalid_keyword = coded error_invalid_keyword_code "Keyword does not exist"

abbrev pub error_loan_product_not_found_code : String
error_loan_product_not_found_code = "DODRIO2_LOAN_AVAILMENT_VALIDATION_LOAN_PRODUCT_NOT_FOUND"

abbrev pub error_loan_product_not_found : Error
error_loan_product_not_found = coded error_loan_product_not_found_code "Loan product not found"

abbrev pub error_get_details_by_attribute_failed_code : String
error_get_details_by_attribute_failed_code =
    "DODRIO2_LOAN_AVAILMENT_REQUEST_GET_DETAILS_BY_ATTRIBUTE_FAILED"

abbrev pub error_get_details_by_attribute_failed : Error
error_get_details_by_attribute_failed =
    coded error_get_details_by_attribute_failed_code "getDetailsByAttribute request failed"

abbrev pub error_brand_type_not_found_code : String
error_brand_type_not_found_code = "DODRIO2_LOAN_AVAILMENT_VALIDATION_BRAND_TYPE_NOT_FOUND_OR_ACTIVE"

abbrev pub error_brand_type_not_found : Error
error_brand_type_not_found =
    coded error_brand_type_not_found_code "Brand type not found or not active"

abbrev pub error_channel_type_not_found_code : String
error_channel_type_not_found_code =
    "DODRIO2_LOAN_AVAILMENT_VALIDATION_CHANNEL_TYPE_NOT_FOUND_OR_ACTIVE"

abbrev pub error_channel_type_not_found : Error
error_channel_type_not_found =
    coded error_channel_type_not_found_code "Channel type not found or not active"

abbrev pub error_missing_required_inputs : Error
error_missing_required_inputs =
    coded "DODRIO2_LOAN_AVAILMENT_INTERNAL_ERROR_MISSING_MESSAGE_EVENT"
      "Missing required inputs for get message Id function"

abbrev pub error_no_document_found : Error
error_no_document_found =
    coded "DODRIO2_LOAN_AVAILMENT_INTERNAL_ERROR_NO_DOCUMENTS_FOUND" "No documents in result"

abbrev pub error_uup_consumer_type_code : String
error_uup_consumer_type_code = "DODRIO2_LOAN_AVAILMENT_VALIDATION_CONSUMER_TYPE_NOT_SUPPORTED"

abbrev pub error_uup_consumer_type : Error
error_uup_consumer_type = coded error_uup_consumer_type_code "Customer type not allowed"

abbrev pub error_uup_brand_type_code : String
error_uup_brand_type_code = "DODRIO2_LOAN_AVAILMENT_VALIDATION_BRAND_TYPE_NOT_SUPPORTED"

abbrev pub error_uup_brand_type : Error
error_uup_brand_type = coded error_uup_brand_type_code "Brand type not allowed"

abbrev pub error_brand_not_allowed_code : String
error_brand_not_allowed_code =
    "DODRIO2_LOAN_AVAILMENT_VALIDATION_MSISDN_BRAND_CANNOT_AVAIL_LOAN_PRODUCT"

abbrev pub error_brand_not_allowed : Error
error_brand_not_allowed =
    coded error_brand_not_allowed_code "MSISDN brand not allowed to avail specific loan product"

abbrev pub error_channel_not_allowed_code : String
error_channel_not_allowed_code =
    "DODRIO2_LOAN_AVAILMENT_VALIDATION_MSISDN_CHANNEL_CANNOT_AVAIL_LOAN_PRODUCT"

abbrev pub error_channel_not_allowed : Error
error_channel_not_allowed =
    coded error_channel_not_allowed_code "MSISDN channel not allowed to avail specific loan product"

abbrev pub error_loan_availment_failed_code : String
error_loan_availment_failed_code = "DODRIO2_LOAN_AVAILMENT_TRANSACTION_FAILED"

abbrev pub error_loan_availment_failed : Error
error_loan_availment_failed = coded error_loan_availment_failed_code "Loan availment failed"

abbrev pub error_loan_availment_timeout_code : String
error_loan_availment_timeout_code = "DODRIO2_LOAN_AVAILMENT_TRANSACTION_TIMEOUT"

abbrev pub error_loan_availment_timeout : Error
error_loan_availment_timeout = coded error_loan_availment_timeout_code "Loan availment timeout"

-- The event of the message that tells the subscriber of an error, and whether it is a known one.
-- (The second case for `ErrorGetDetailsByAttributeFailed` is never reached.)
unfoldable pub check_caught_error : Error → Bool × String
check_caught_error e =
    if is_coded error_invalid_keyword_code e
    then (true, "LoanAvailmentFailedKeywordNotFound")
    else if is_coded error_user_blacklisted_code e
    then (true, "LoanAvailmentFailedBlacklistedSubscriber")
    else if is_coded error_loan_product_not_found_code e
    then (true, "LoanAvailmentFailedProductNotFound")
    else if is_coded error_active_loan_code e
    then (true, "LoanAvailmentFailedActiveLoan")
    else if is_coded error_user_not_whitelisted_for_product_code e
    then (true, "LoanAvailmentFailedNotWhitelisted")
    else if is_coded error_get_details_by_attribute_failed_code e
    then (true, "LoanAvailmentFailedDownstreamFailed")
    else if is_coded error_brand_type_not_found_code e
    then (true, "LoanAvailmentFailedBrandDoesNotExist")
    else if is_coded error_channel_type_not_found_code e
    then (true, "LoanAvailmentFailedChannelNotAvailible")
    else if is_coded error_brand_not_allowed_code e
    then (true, "LoanAvailmentFailedBrandNotMappedToProduct")
    else if is_coded error_channel_not_allowed_code e
    then (true, "LoanAvailmentFailedChannelNotAvailible")
    else if is_coded error_uup_consumer_type_code e
    then (true, "LoanAvailmentFailedCustomerTypeNotAllowed")
    else if is_coded error_uup_brand_type_code e
    then (true, "LoanAvailmentFailedSystemFailure")
    else if is_coded error_ineligible_credit_score_code e
    then (true, "LoanAvailmentLowUUpScore")
    else (false, "LoanAvailmentFailedSystemFailure")
