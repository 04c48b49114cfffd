-- ===== src/Loan/Eligibility/MayHave.antt =====
-- Who may have a product: a description of `CheckEligibility` on the documents that are stored, apart
-- from the order of the checks and their errors.
use promo_collection.Prelude.{
  ◌≡◌, String, Bool, true, not, ◌&&◌, ◌||◌, Option, some, List, find?, count_if, ltb, ◌==◌, str_eq,
}
use promo_collection.Runtime.Runs.{Gives}
use promo_collection.Runtime.Lookups.{Reads, Finds, holds}
use promo_collection.Runtime.Time.{Time}
use promo_collection.Driver.{ObjectId}
use promo_collection.Loan.Schema.{
  Keyword, LoanProduct, Subscribers, Channels, LoanProductsBrands, LoanProductsChannels,
  WhitelistedSubs, Loans,
}
use promo_collection.Loan.Deps.{Deps}
use promo_collection.Loan.Checks.{is_activated}
use promo_collection.Loan.Eligibility.{is_valid_customer_type, is_valid_brand_type}

-- The documents that the checks read, and the time.
pub record Stored (F : Type 0) : Type 0 where
  pub time : Time
  pub keywords : List Keyword
  pub subscribers : List (Subscribers F)
  pub products : List (LoanProduct F)
  pub loans : List (Loans F)
  pub whitelisted : List WhitelistedSubs
  pub channels : List Channels
  pub products_brands : List LoanProductsBrands
  pub products_channels : List LoanProductsChannels

abbrev pub is_there : {A : Type 0} → Option A → Bool
is_there o = holds o (λ a. true)

module _ {S F B : Type 0} (d : Deps S F B) (db : Stored F) where
  abbrev pub keyword_of : String → Option Keyword
  keyword_of keyword = find? (λ k. d.matches_pattern keyword k.name && not k.is_deleted) db.keywords

  abbrev pub is_blacklisted : String → Bool
  is_blacklisted msisdn =
      holds (find? (λ s. str_eq s.msisdn msisdn) db.subscribers) (λ s. s.blacklisted)

  abbrev pub product_of : ObjectId → Option (LoanProduct F)
  product_of id = find? (λ p. p.product_id == id && not p.is_deleted) db.products

  abbrev pub has_loan : String → Bool
  has_loan msisdn = is_there (find? (λ l. str_eq l.msisdn msisdn) db.loans)

  abbrev pub is_listed : String → ObjectId → Bool
  is_listed msisdn id =
      ltb 0 (count_if (λ w. str_eq w.msisdn msisdn && w.product_id == id) db.whitelisted)

  abbrev pub channel_of : String → Option Channels
  channel_of channel = find? (λ c. str_eq c.code channel && not c.is_deleted) db.channels

  abbrev pub is_on_channel : ObjectId → ObjectId → Bool
  is_on_channel channel product =
      is_there
        (find? (λ m. m.channel_id == channel && m.product_id == product) db.products_channels)

  abbrev pub is_of_brand : ObjectId → ObjectId → Bool
  is_of_brand brand product =
      is_there (find? (λ m. m.brand_id == brand && m.product_id == product) db.products_brands)

  -- Whether these details fit the product.
  abbrev pub may_score : ObjectId → String → String → F → ObjectId → LoanProduct F → Bool
  may_score brand customer brand_type score id p =
      is_valid_customer_type customer
      && (is_valid_brand_type brand_type
          && (is_of_brand brand id && (not p.is_scored_product || d.float.le p.price score)))

  -- Whether the product is in force, and the subscriber without a loan and allowed to have it there.
  abbrev pub may_take : String → String → ObjectId → (LoanProduct F → Bool) → LoanProduct F → Bool
  may_take msisdn channel id rest p =
      not (has_loan msisdn)
      && ((not p.has_whitelisting || is_listed msisdn p.product_id)
          && holds (channel_of channel) (λ c. is_on_channel c.id id && rest p))

  -- Whether a subscriber with these details may have the product of the keyword on the channel.
  abbrev pub may_have : ObjectId → String → String → F → String → String → String → Bool
  may_have brand customer brand_type score msisdn keyword channel = holds (keyword_of keyword) (λ k.
      not (is_blacklisted msisdn)
      && holds (product_of k.product_id) (λ p.
        is_activated db.time p
        && may_take msisdn channel k.product_id
            (may_score brand customer brand_type score k.product_id) p))

-- The lookups of the driver find what is stored, and do not fail.
pub record IsStored {E S F B : Type 0} (d : Deps S F B) (db : Stored F) (view : S → List E)
    : Type 0 where
  pub time_read : Gives view d.now (λ t. t ≡ db.time)
  pub keywords_found :
      (p : Keyword → Bool) → Finds view (d.keywords.find_one p) (find? p db.keywords)
  pub subscribers_found :
      (p : Subscribers F → Bool) → Finds view (d.subscribers.find_one p) (find? p db.subscribers)
  pub products_found :
      (p : LoanProduct F → Bool) → Finds view (d.products.find_one p) (find? p db.products)
  pub loans_found : (p : Loans F → Bool) → Finds view (d.loans.find_one p) (find? p db.loans)
  pub whitelisted_counted :
      (p : WhitelistedSubs → Bool)
      → Reads view (d.count_whitelisted p) (some (count_if p db.whitelisted))
  pub channels_found :
      (p : Channels → Bool) → Finds view (d.channels.find_one p) (find? p db.channels)
  pub products_brands_found :
      (p : LoanProductsBrands → Bool)
      → Finds view (d.products_brands.find_one p) (find? p db.products_brands)
  pub products_channels_found :
      (p : LoanProductsChannels → Bool)
      → Finds view (d.products_channels.find_one p) (find? p db.products_channels)
