-- ===== src/Loan/Enquiry/Told.antt =====
-- What `EligibilityCheck` answers, against what is stored.
use promo_collection.Prelude.{
  ◌≡◌, String, ℤ, pos, Bool, true, false, Option, none, some, ◌⊎◌, inl, str_eq, find?, List,
}
use promo_collection.Runtime.{Error}
use promo_collection.Runtime.Strconv.{itoa}
use promo_collection.Loan.Schema.{Loans}
use promo_collection.Loan.Deps.{Deps, Attribute}
use promo_collection.Loan.Validation.{clean_msisdn, last}
use promo_collection.Loan.Eligibility.{read_attributes, no_details}
use promo_collection.Loan.Enquiry
use promo_collection.Loan.Enquiry.{Answer, EligibilityCheckResponse}

-- The answer has this status and this text of it, and says nothing of a score or a loan.
abbrev pub Refused : {F : Type 0} → ℤ → String → Answer F → Type 0
Refused {F} status text a =
    (r : EligibilityCheckResponse F) × (a.status ≡ status)
    × (a.body ≡ inl r)
    × (r.status_code ≡ text)
    × (r.existing_loan ≡ none)
    × (r.subscriber_score ≡ none)
    × (r.remaining_score ≡ none)

-- The loan is said to be there, or not to be.
abbrev pub existing : {F : Type 0} → Option (Loans F) → Bool
existing none = false
existing (some l) = true

module _ {S F B : Type 0} (d : Deps S F B) where
  -- The score that a loan leaves.
  abbrev pub left_of : F → Option (Loans F) → F
  left_of score none = score
  left_of score (some l) = d.float.sub score (d.float.sub l.total_loan_amount l.service_fee)

  -- The answer has the status 200, and tells of this number, score and loan.
  abbrev pub Granted : String → F → Option (Loans F) → Answer F → Type 0
  Granted number score loan a =
      (r : EligibilityCheckResponse F) × (a.status ≡ pos 200)
      × (a.body ≡ inl r)
      × (r.status_code ≡ "200")
      × (r.msisdn ≡ number)
      × (r.existing_loan ≡ some (existing loan))
      × (r.subscriber_score ≡ some (itoa (d.to_int64 score)))
      × (r.remaining_score ≡ some (itoa (d.to_int64 (left_of score loan))))

  -- What is told of a number: the error of its form, the attributes of the subscriber, where they are
  -- given, and the outstanding loan decide.
  abbrev pub Told :
      String → Option Error → Option (List Attribute) → Option (Loans F) → Answer F → Type 0
  Told number (some e) attributes loan a = Refused (pos 501) "501" a
  Told number none none loan a = Refused (pos 500) "500" a ⊎ Refused (pos 502) "502" a
  Told number none (some attributes) loan a =
      Granted number (read_attributes d (no_details d) attributes).credit_score loan a

abbrev pub number_of : String → String
number_of msisdn = last 10 (clean_msisdn msisdn)

-- The outstanding loan of the number.
abbrev pub loan_of : {F : Type 0} → String → List (Loans F) → Option (Loans F)
loan_of number loans = find? (λ l. str_eq l.msisdn number) loans
