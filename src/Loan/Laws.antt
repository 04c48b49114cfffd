-- ===== src/Loan/Laws.antt =====
-- What the theorems about loan-availment assume of its surroundings: an observation of the outside
-- world that is a log of the calls for the subscriber `k`, in their order. What is done for another
-- number, or with another filter, has no law.
use promo_collection.Prelude.{
  Bool, true, false, not, ◌&&◌, String, ℤ, Option, List, [], ◌∷◌, ◌⊎◌, inl, inr, ◌≡◌, str_eq,
  if◌then◌else◌,
}
use promo_collection.Runtime.{Go, Error}
use promo_collection.Runtime.Reports.{Reports}
use promo_collection.Loan.Errors.{equals_no_documents}
use promo_collection.Runtime.Time.{Time}
use promo_collection.Runtime.Runs.{Silent, Gives, Marks, Emits}
use promo_collection.Driver.{ObjectId}
use promo_collection.Loan.Schema.{
  Keyword, LoanProduct, Subscribers, Channels, Brand, LoanProductsBrands, LoanProductsChannels,
  WhitelistedSubs, TransactionInProgress, ProductsNamesInAmax, SystemLevelRules, Loans, UnpaidLoans,
  Availments,
}
use promo_collection.Loan.Deps.{
  Deps, StatusReport, publish_status, publish_product_status, notify_user, delete_in_progress,
  create_session_request, login_request, topup_request,
}

-- What a lookup of the entry finds.
pub data Entry : Type 0 where
  present absent unreadable : Entry

pub data Call : Type 0 where
  -- the details of the subscriber were asked for, and whether they were given
  details_read : Bool → Call
  -- a brand of the type was looked up, and whether there is one that is not deleted
  brand_read : Bool → Call
  -- the subscriber's entry of a transaction in progress was looked up
  entry_read : Entry → Call
  -- an entry of the subscriber is inserted, whatever becomes of it
  entry_made : Call
  -- AMAX is asked for a top-up of the subscriber, whatever becomes of it
  topup_asked : Call
  -- the subscriber's entry is deleted, now or by a goroutine
  released : Call
  -- the subscriber is told of an event, by a goroutine
  notified : String → Call

abbrev pub details_reported : {A : Type 0} → A ⊎ Error → List Call
details_reported (inl a) = details_read true ∷ []
details_reported (inr e) = details_read false ∷ []

abbrev pub brand_reported : Brand ⊎ Error → List Call
brand_reported (inl b) = brand_read (not b.is_deleted) ∷ []
brand_reported (inr e) = brand_read false ∷ []

abbrev pub entry_reported : TransactionInProgress ⊎ Error → List Call
entry_reported (inl t) = entry_read present ∷ []
entry_reported (inr e) = entry_read (if equals_no_documents e then absent else unreadable) ∷ []

-- A value is returned, and nothing shows.
abbrev pub Quiet : {S A : Type 0} → (S → List Call) → Go S A → Type 0
Quiet view m = Gives view m (λ a. Unit)

module _ {S F B : Type 0} where
  pub record Shows (d : Deps S F B) (k : String) (view : S → List Call) : Type 0 where
    pub now_quiet : Quiet view d.now
    pub id_quiet : Quiet view d.new_object_id
    pub guid_quiet : Quiet view d.new_guid
    pub keywords_silent : (p : Keyword → Bool) → Silent view (d.keywords.find_one p)
    pub subscribers_silent : (p : Subscribers F → Bool) → Silent view (d.subscribers.find_one p)
    pub products_silent : (p : LoanProduct F → Bool) → Silent view (d.products.find_one p)
    pub channels_silent : (p : Channels → Bool) → Silent view (d.channels.find_one p)
    pub products_brands_silent :
        (p : LoanProductsBrands → Bool) → Silent view (d.products_brands.find_one p)
    pub products_channels_silent :
        (p : LoanProductsChannels → Bool) → Silent view (d.products_channels.find_one p)
    pub amax_names_silent : (p : ProductsNamesInAmax → Bool) → Silent view (d.amax_names.find_one p)
    pub rules_silent : (p : SystemLevelRules F → Bool) → Silent view (d.rules.find_one p)
    pub loans_silent : (p : Loans F → Bool) → Silent view (d.loans.find_one p)
    pub loan_insert_silent : (l : Loans F) → Silent view (d.loans.insert_one l)
    pub unpaid_insert_silent : (u : UnpaidLoans F) → Silent view (d.unpaid_loans.insert_one u)
    pub availment_insert_silent : (a : Availments F) → Silent view (d.availments.insert_one a)
    pub whitelisted_silent : (p : WhitelistedSubs → Bool) → Silent view (d.count_whitelisted p)
    pub partner_silent : (id : ObjectId) → Silent view (d.partner_of id)
    pub start_session_silent : Silent view d.start_session
    pub start_transaction_silent : Silent view d.start_transaction
    pub abort_silent : Silent view d.abort_transaction
    pub commit_silent : Silent view d.commit_transaction
    pub redis_silent : (k : String) (b : B) (t : ℤ) → Silent view (d.redis_set k b t)
    pub read_silent : (b : B) → Silent view (d.read_all b)
    pub create_session_silent : Silent view (d.send_amax create_session_request)
    pub login_silent :
        (session user digest : String)
        → Silent view (d.send_amax (login_request session user digest))
    pub subscriber_insert_silent : (x : Subscribers F) → Silent view (d.subscribers.insert_one x)
    pub subscriber_update_silent :
        (p : Subscribers F → Bool) (f : Subscribers F → Subscribers F)
        → Silent view (d.subscribers.update_one p f)
    pub publish_quiet :
        (r : StatusReport F) (name : String) (price : F)
        → Quiet view (d.spawn (publish_status r name price))
    pub publish_product_quiet :
        (r : StatusReport F) (p : Option (LoanProduct F))
        → Quiet view (d.spawn (publish_product_status r p))
    pub details_shown : Reports view (d.get_details_by_attribute k) details_reported
    pub brand_shown :
        (brand : String)
        → Reports view
            (d.brands.find_one (λ b. d.matches_pattern brand b.code && not b.is_deleted))
            brand_reported
    pub entry_shown : Reports view (d.in_progress.find_one (λ t. str_eq t.msisdn k)) entry_reported
    pub insert_shown :
        (t : TransactionInProgress)
        → t.msisdn ≡ k
        → Marks view (d.in_progress.insert_one t) (entry_made ∷ [])
    pub topup_shown :
        (session : String) (id : ℤ) (product : String) (amount : F)
        → Marks view (d.send_amax (topup_request session id k product amount)) (topup_asked ∷ [])
    -- the deletion does not fail
    pub delete_shown :
        Emits view (d.in_progress.delete_one (λ t. str_eq t.msisdn k)) (released ∷ [])
    pub delete_spawn_shown : Emits view (d.spawn (delete_in_progress k)) (released ∷ [])
    pub notify_shown :
        (event : String) (brand : ObjectId) (p : Option (LoanProduct F)) (loan : ObjectId)
        (date : Time)
        → Emits view (d.spawn (notify_user k event brand p loan date)) (notified event ∷ [])
