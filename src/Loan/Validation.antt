-- ===== src/Loan/Validation.antt =====
-- internal/pkg/utils/validation.go on ASCII texts, and `requestValidation` of
-- internal/pkg/services/loan_availment_service.go.
pub mod Msisdn
pub mod TransactionId
use Prim.Native.Char.{Char, code}
use Prim.Native.String.{String, ◌++◌}
use promo_collection.Prelude.{
  ℕ, zero, suc, ◌+◌, ◌-◌, not, find?, Bool, true, false, ◌&&◌, ◌||◌, Option, none, some, List, [],
  ◌∷◌, ◌⊎◌, inl, inr, ltb, leb, ◌==◌, if◌then◌else◌,
}
use promo_collection.Runtime.{Error, message}
use promo_collection.Loan.Errors.{
  error_msisdn_format, error_transaction_id_format, error_keyword_format,
}

-- `len(s)`
abbrev pub size : String → ℕ
size String.[] = 0
size (String.◌∷◌ c s) = suc (size s)

-- `s[n:]`
abbrev pub drop : ℕ → String → String
drop zero s = s
drop (suc n) String.[] = String.[]
drop (suc n) (String.◌∷◌ c s) = drop n s

-- `s[len(s)-n:]`
abbrev pub last : ℕ → String → String
last n s = drop (size s - n) s

abbrev pub is_digit : Char → Bool
is_digit c = leb 48 (code c) && leb (code c) 57

abbrev pub is_letter : Char → Bool
is_letter c = (leb 65 (code c) && leb (code c) 90) || (leb 97 (code c) && leb (code c) 122)

abbrev pub all_chars : (Char → Bool) → String → Bool
all_chars p String.[] = true
all_chars p (String.◌∷◌ c s) = p c && all_chars p s

-- `regexp.MustCompile(`\D`).ReplaceAllString(s, "")`
abbrev pub digits_of : String → String
digits_of String.[] = String.[]
digits_of (String.◌∷◌ c s) = if is_digit c then String.◌∷◌ c (digits_of s) else digits_of s

-- `strings.HasPrefix` and `strings.TrimPrefix`: what follows the prefix.
abbrev pub after_prefix : String → String → Option String
after_prefix String.[] s = some s
after_prefix (String.◌∷◌ c p) String.[] = none
after_prefix (String.◌∷◌ c p) (String.◌∷◌ d s) = if code c == code d then after_prefix p s else none

-- The code point of the character in lower case.
abbrev pub lower_code : Char → ℕ
lower_code c = if leb 65 (code c) && leb (code c) 90 then code c + 32 else code c

-- `strings.HasPrefix(strings.ToLower(s), strings.ToLower(p))`
abbrev pub has_prefix_fold : String → String → Bool
has_prefix_fold s String.[] = true
has_prefix_fold String.[] (String.◌∷◌ c p) = false
has_prefix_fold (String.◌∷◌ d s) (String.◌∷◌ c p) =
    lower_code d == lower_code c && has_prefix_fold s p

-- `strings.EqualFold`
abbrev pub equal_fold : String → String → Bool
equal_fold String.[] String.[] = true
equal_fold String.[] (String.◌∷◌ c p) = false
equal_fold (String.◌∷◌ d s) String.[] = false
equal_fold (String.◌∷◌ d s) (String.◌∷◌ c p) = lower_code d == lower_code c && equal_fold s p

-- `strings.TrimPrefix`
abbrev pub trim_prefix : String → String → String
trim_prefix s p = elim (after_prefix p s) [ none ↦ s | some r ↦ r ]

unfoldable pub validate_and_format : String → String ⊎ Error
validate_and_format msisdn =
    if ltb (size msisdn) 10
    then inr (message "invalid MSISDN")
    else (if all_chars is_digit (last 10 msisdn)
        then inl (last 10 msisdn)
        else inr (message "invalid MSISDN"))

-- The last 12, 11 or 10 digits of the text, or all if there are fewer.
unfoldable pub clean_msisdn : String → String
clean_msisdn msisdn =
    let cleaned = digits_of msisdn in
    if leb 12 (size cleaned)
    then last 12 cleaned
    else if leb 11 (size cleaned)
    then last 11 cleaned
    else if leb 10 (size cleaned)
    then last 10 cleaned
    else cleaned

-- `^p\d{9}$`
abbrev pub is_prefixed_number : String → String → Bool
is_prefixed_number p s = elim (after_prefix p s) [
  | none ↦ false
  | some r ↦ size r == 9 && all_chars is_digit r
]

-- `ValidPrefixForMSISDN` is `^(9|09|639|63)\d{9}$`.
abbrev pub matches_valid_prefix : String → Bool
matches_valid_prefix s =
    is_prefixed_number "9" s
    || (is_prefixed_number "09" s || (is_prefixed_number "639" s || is_prefixed_number "63" s))

-- The error of the text, if it has one.
unfoldable pub is_valid_msisdn : String → Option Error
is_valid_msisdn cleaned =
    if not (matches_valid_prefix cleaned)
    then some error_msisdn_format
    else if ltb (size cleaned) 10 || ltb 12 (size cleaned)
    then some error_msisdn_format
    else none

abbrev pub channels : List String
channels =
    "SMS" ∷ "USSD" ∷ "FB" ∷ "Facebook" ∷ "CXS" ∷ "DPA" ∷ "G1" ∷ "Facebook" ∷ "RLInsuff" ∷ "RT"
    ∷ "1201" ∷ "TCOETEST1" ∷ "G1TESTLOAN" ∷ "Test333" ∷ []

-- `ValidChannelCode` is `^[a-zA-Z0-9-_]+$`, `ValidKeywordCode` is `^[a-zA-Z0-9 ]+$`.
abbrev pub is_transaction_char : Char → Bool
is_transaction_char c = is_letter c || (is_digit c || (code c == 45 || code c == 95))

abbrev pub is_keyword_char : Char → Bool
is_keyword_char c = is_letter c || (is_digit c || code c == 32)

abbrev pub matches_all : (Char → Bool) → String → Bool
matches_all p s = ltb 0 (size s) && all_chars p s

-- The first channel that the id begins with, in any case.
unfoldable pub channel_of : String → Option String
channel_of id = find? (λ c. has_prefix_fold id c) channels

-- What is left when the channel is taken off as the configuration spells it.
abbrev pub number_checked : String → Option String → (String × String) ⊎ Error
number_checked id none = inr error_transaction_id_format
number_checked id (some c) =
    if not (matches_all is_transaction_char (trim_prefix id c))
    then inr error_transaction_id_format
    else inl (c, trim_prefix id c)

-- The channel and the number of the transaction.
unfoldable pub is_valid_transaction_id : String → (String × String) ⊎ Error
is_valid_transaction_id id =
    if ltb 70 (size id) then inr error_transaction_id_format else number_checked id (channel_of id)

-- Lower case changes neither the length nor which characters are allowed.
unfoldable pub is_valid_keyword : String → Option Error
is_valid_keyword keyword =
    if ltb 160 (size keyword)
    then some error_keyword_format
    else if not (matches_all is_keyword_char keyword)
    then some error_keyword_format
    else none

pub record Validation : Type 0 where
  pub msisdn : String
  pub channel : String
  pub transaction_number : String
  pub error : Option Error

abbrev pub invalid : Error → Validation
invalid e = record { msisdn = ""; channel = ""; transaction_number = ""; error = some e }

abbrev pub keyword_checked : String → String × String → Option Error → Validation
keyword_checked number (channel, transaction) (some e) = record {
  msisdn = "";
  channel = channel;
  transaction_number = transaction;
  error = some e;
}
keyword_checked number (channel, transaction) none = record {
  msisdn = number;
  channel = channel;
  transaction_number = transaction;
  error = none;
}

-- The request is valid exactly if there is no error.
abbrev pub transaction_checked : String → String → (String × String) ⊎ Error → Validation
transaction_checked number keyword (inr e) = invalid e
transaction_checked number keyword (inl parts) =
    keyword_checked number parts (is_valid_keyword keyword)

abbrev pub msisdn_checked : String → String → String → Option Error → Validation
msisdn_checked cleaned keyword transaction_id (some e) = invalid e
msisdn_checked cleaned keyword transaction_id none =
    transaction_checked (last 10 cleaned) keyword (is_valid_transaction_id transaction_id)

-- The request is valid exactly if there is no error.
unfoldable pub request_validation : String → String → String → Validation
request_validation msisdn keyword transaction_id =
    let cleaned = clean_msisdn msisdn in
    msisdn_checked cleaned keyword transaction_id (is_valid_msisdn cleaned)
