-- ===== src/Tests/EligibilityWitnesses.antt =====
-- The theorems about who may have a product and about the answer to an enquiry, at concrete documents.
use promo_collection.Prelude.{
  ◌≡◌, refl, true, false, ℤ, pos, Option, none, some, [], ◌∷◌, find?, String,
}
use promo_collection.Runtime.{ok}
use promo_collection.Runtime.Runs.{Gives}
use promo_collection.Runtime.Lookups.{lookup_of}
use promo_collection.Loan.Deps.{Deps}
use promo_collection.Loan.Eligibility
use promo_collection.Loan.Eligibility.{is_valid_customer_type, is_valid_brand_type}
use promo_collection.Loan.Checks.{is_activated}
use promo_collection.Loan.Eligibility.MayHave.{Stored, may_have, IsStored}
use promo_collection.Loan.Eligibility.Decided.{check_eligibility-decides}
use promo_collection.Tests.LoanWorld.{
  World, deps, log_of, keyword, product, channel, brand_mapping, channel_mapping,
}
use promo_collection.Loan.Enquiry
use promo_collection.Tests.Store.{found}

abbrev stored : Stored ℤ
stored = record {
  time = 1000;
  keywords = keyword ∷ [];
  subscribers = [];
  products = product ∷ [];
  loans = [];
  whitelisted = [];
  channels = channel ∷ [];
  products_brands = brand_mapping ∷ [];
  products_channels = channel_mapping ∷ [];
}

-- The clock stands still.
abbrev fixed_deps : Deps World ℤ String
fixed_deps = record deps { now = λ w. (ok 1000, w) }

found-lookup_of : {T : Type 0} (o : Option T) → found o ≡ lookup_of o
found-lookup_of none = refl
found-lookup_of (some t) = refl

all_stored : IsStored fixed_deps stored log_of
all_stored = record {
  time_read = record { at = λ w. (1000, refl, refl, refl) };
  keywords_found = λ p. record { at = λ w. (refl, found-lookup_of (find? p (keyword ∷ []))) };
  subscribers_found = λ p. record { at = λ w. (refl, refl) };
  products_found = λ p. record { at = λ w. (refl, found-lookup_of (find? p (product ∷ []))) };
  loans_found = λ p. record { at = λ w. (refl, refl) };
  whitelisted_counted = λ p. record { at = λ w. (refl, refl) };
  channels_found = λ p. record { at = λ w. (refl, found-lookup_of (find? p (channel ∷ []))) };
  products_brands_found =
      λ p. record { at = λ w. (refl, found-lookup_of (find? p (brand_mapping ∷ []))) };
  products_channels_found =
      λ p. record { at = λ w. (refl, found-lookup_of (find? p (channel_mapping ∷ []))) };
}

check_eligibility-decides_example :
    Gives log_of
      (Eligibility.check_eligibility fixed_deps 4 "Consumer" "TM"
        (pos 100)
        "9171234567"
        "SURF50"
        "SMS")
      (λ x. x.is_eligible ≡ true)
unfolding is_valid_customer_type is_valid_brand_type is_activated
check_eligibility-decides_example =
    check_eligibility-decides all_stored 4 "Consumer" "TM" (pos 100) "9171234567" "SURF50" "SMS"

-- A score below the price.
low_score :
    may_have fixed_deps stored 4 "Consumer" "TM" (pos 10) "9171234567" "SURF50" "SMS" ≡ false
unfolding is_valid_customer_type is_valid_brand_type is_activated
low_score = refl
