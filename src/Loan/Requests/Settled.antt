-- ===== src/Loan/Requests/Settled.antt =====
-- How a request for a loan ends.
use promo_collection.Prelude.{
  refl, not, ◌++◌, subst, String, Bool, true, false, List, [], ◌∷◌, ◌⊎◌, inl, inr, Option, none,
  some, ◌≡◌, sym, if◌then◌else◌,
}
use promo_collection.Runtime.{Error, pure, fail}
use promo_collection.Runtime.Time.{Time}
use promo_collection.Runtime.Runs.{
  Silent, Silent-pure, Gives, Marks, Runs, Silent-Gives, silent_rules, Gives-pure, Gives-bind,
  Gives-deref,
}
use promo_collection.Runtime.Runs.Calls.{
  Marks-bind, Marks-restating, Runs-bind, Runs-called, Runs-pure, Runs-given, Runs-handle,
  Runs-attempt, Runs-emitted, Runs-last, Runs-Gives, Runs-attempted,
}
use promo_collection.Driver.{ObjectId}
use promo_collection.Loan.Errors.{check_caught_error}
use promo_collection.Loan.Schema.{
  Brand, LoanProduct, Subscribers, TransactionInProgress, AppCreationProcessRequest,
}
use promo_collection.Loan.Deps.{Deps}
use promo_collection.Loan.Laws.{
  Call, present, absent, unreadable, details_read, brand_read, entry_read, entry_made, released,
  notified, details_reported, brand_reported, entry_reported, Shows,
}
use promo_collection.Runtime.Reports.{
  Reports, Resolves, Resolves-pure, Resolves-fail, Runs-reported, Reports-judged, Reports-mapped,
}
use promo_collection.Loan.Checks
use promo_collection.Loan.Repos
use promo_collection.Loan.Serializers
use promo_collection.Loan.Eligibility
use promo_collection.Loan.Eligibility.{Eligibility, Details}
use promo_collection.Loan.Frames.{Sound, no_product, a_product, check_eligibility-Sound}
use promo_collection.Loan.Availments.Total.{insert_failed_availment-Quiet, delete_in_progress-Marks}
use promo_collection.Loan.Amax.Settled.{Settled, provision_loan_amax-Settled}
use promo_collection.Loan.Requests
use promo_collection.Loan.Requests.{Stopped}

-- The calls that belong to each result of `AvailLoanRequest`.
pub data Answered : Bool × Option Error → List Call → Type 0 where
  -- the subscriber may not have the product, and is told why
  not_eligible :
      (e : Error) → Answered (false, some e) (released ∷ notified (check_caught_error e).1 ∷ [])
  -- AMAX has no name for the product
  no_name :
      (e : Error)
      → Answered (false, some e) (notified "LoanAvailmentFailedSystemFailure" ∷ released ∷ [])
  -- AMAX was asked
  provisioned : (r : Option Error) (es : List Call) → Settled r es → Answered (true, r) es

-- What stops a request before its entry is made: the event of the message, and the lookups that were
-- made, with what they found.
pub data Stop : String → List Call → Type 0 where
  no_details : Stop "LoanAvailmentFailedDownstreamFailed" (details_read false ∷ [])
  no_brand : Stop "LoanAvailmentFailedBrandDoesNotExist" (details_read true ∷ brand_read false ∷ [])
  in_progress :
      Stop "LoanAvailmentTransactionInProgress"
        (details_read true ∷ brand_read true ∷ entry_read present ∷ [])
  not_known :
      Stop "LoanAvailmentFailedSystemFailure"
        (details_read true ∷ brand_read true ∷ entry_read unreadable ∷ [])

-- The lookups of a request that goes on.
abbrev pub clear : List Call
clear = details_read true ∷ brand_read true ∷ entry_read absent ∷ []

-- The calls of `ProcessRequest`: the lookups and the message that says what they stopped at, or the
-- lookups, the entry, and the calls of `AvailLoanRequest`.
pub data Processed : List Call → Type 0 where
  stopped :
      (event : String) (es : List Call) → Stop event es → Processed (es ++ notified event ∷ [])
  answered :
      (r : Bool × Option Error) (es : List Call)
      → Answered r es
      → Processed (clear ++ entry_made ∷ es)

-- The lookups of the check, by its result.
abbrev Checked : {F : Type 0} → (Details F × ObjectId) ⊎ Stopped → List Call → Type 0
Checked (inl x) es = es ≡ clear
Checked (inr stop) es = Stop stop.event es

module _ {S F B : Type 0} {d : Deps S F B} {view : S → List Call} (a : AppCreationProcessRequest F)
    (q : Shows d a.msisdn view) where
  product_name-Silent :
      (product brand : ObjectId) → Silent view (Repos.product_name_in_amaxs d product brand)
  unfolding Repos.product_name_in_amaxs
  product_name-Silent product brand = search (silent_rules, q.amax_names_silent) depth 20

  not_eligible-Answered :
      (x : Eligibility F) (e : Error) → Runs view (Requests.not_eligible d a x e) Answered
  unfolding Requests.not_eligible
  not_eligible-Answered x e =
      Runs-given _ _ (insert_failed_availment-Quiet q _ _ _ _ _ _ _ _ _) (λ i t.
        Runs-given _ _ (q.publish_quiet _ _ _) (λ u v.
          Runs-called _ _ (delete_in_progress-Marks q)
            (λ y. Runs-emitted _ _ (q.notify_shown _ _ _ _ _) (λ w. Runs-pure _ (not_eligible e)))))

  name_missing-Answered :
      (x : Eligibility F) (e : Error) → Runs view (Requests.name_missing d a x e) Answered
  unfolding Requests.name_missing
  name_missing-Answered x e =
      Runs-given _ _ (insert_failed_availment-Quiet q _ _ _ _ _ _ _ _ _) (λ i t.
        Runs-emitted _ _ (q.notify_shown _ _ _ _ _) (λ u.
          Runs-given _ _ (q.publish_quiet _ _ _)
            (λ v w. Runs-called _ _ (delete_in_progress-Marks q) (λ y. Runs-pure _ (no_name e)))))

  eligible-Answered :
      (x : Eligibility F) (p : LoanProduct F)
      → x.product ≡ some p
      → Runs view (Requests.eligible d a x) Answered
  eligible-Answered x p e = Runs-given _ _ (Gives-deref x.product p e) (λ y h.
      Runs-handle _ _ (product_name-Silent _ _)
        (λ n.
          Runs-last Settled _ (λ r. (true, r)) (provision_loan_amax-Settled _ q)
            (λ r es k. provisioned r es k))
        (name_missing-Answered x))

  answered-Answered :
      (x : Eligibility F) → Sound x → Runs view (Requests.answered d a x x.error) Answered
  answered-Answered x (no_product e h) =
      subst (λ o. Runs view (Requests.answered d a x o) Answered) (sym h)
        (not_eligible-Answered x e)
  answered-Answered x (a_product p h may some_p) =
      subst (λ o. Runs view (Requests.answered d a x o) Answered) (sym h)
        (subst (λ b. Runs view (if b then Requests.eligible d a x else pure (true, none)) Answered)
          (sym may) (eligible-Answered x p some_p))

  -- `AvailLoanRequest` returns, and its calls belong to what it returns.
  pub avail_loan_request-Answered : Runs view (Requests.avail_loan_request d a) Answered
  unfolding Requests.avail_loan_request
  avail_loan_request-Answered =
      Runs-given _ _ (check_eligibility-Sound q _ _ _ _ _ _ _) (λ x s. answered-Answered x s)

abbrev brand_found : ObjectId ⊎ Error → List Call
brand_found (inl b) = brand_read true ∷ []
brand_found (inr e) = brand_read false ∷ []

abbrev entry_found : Bool ⊎ Error → List Call
entry_found (inl true) = entry_read present ∷ []
entry_found (inl false) = entry_read absent ∷ []
entry_found (inr e) = entry_read unreadable ∷ []

module _ {S F B : Type 0} {d : Deps S F B} {view : S → List Call} {k : String}
    (q : Shows d k view) where
  brand_of-Resolves :
      (b : Brand) (deleted : Bool) (e : Error)
      → Resolves view
          (if deleted then fail e else pure b.id)
          brand_found
          (brand_read (not deleted) ∷ [])
  brand_of-Resolves b true e = Resolves-fail _ _ refl
  brand_of-Resolves b false e = Resolves-pure _ _ refl

  brand_resolved :
      (x : Brand ⊎ Error) → Resolves view (Checks.brand_found d x) brand_found (brand_reported x)
  brand_resolved (inl b) = brand_of-Resolves b b.is_deleted _
  brand_resolved (inr e) = Resolves-fail _ _ refl

  unread-Resolves :
      (none_there : Bool) (e : Error)
      → Resolves view
          (if none_there then pure false else fail e)
          entry_found
          (entry_read (if none_there then absent else unreadable) ∷ [])
  unread-Resolves true e = Resolves-pure _ _ refl
  unread-Resolves false e = Resolves-fail _ _ refl

  entry_resolved :
      (x : TransactionInProgress ⊎ Error)
      → Resolves view (Repos.progress_found d x) entry_found (entry_reported x)
  entry_resolved (inl t) = Resolves-pure _ _ refl
  entry_resolved (inr e) = unread-Resolves _ e

  brand-Reports :
      (brand : String) → Reports view (Checks.check_if_brand_exists_and_active d brand) brand_found
  unfolding Checks.check_if_brand_exists_and_active
  brand-Reports brand = Reports-judged _ _ (q.brand_shown brand) brand_resolved

  progress-Reports : Reports view (Repos.is_availment_transaction_in_progress d k) entry_found
  unfolding Repos.is_availment_transaction_in_progress
  progress-Reports = Reports-judged _ _ q.entry_shown entry_resolved

  details-Reports :
      Reports view (Eligibility.get_credit_score_customer_type_brand_type d k) details_reported
  unfolding Eligibility.get_credit_score_customer_type_brand_type
  details-Reports = Reports-mapped _ _ q.details_shown (λ a. refl) (λ e. refl)

  add_update_subscriber-Silent :
      (msisdn : String) (x : Subscribers F) → Silent view (Repos.add_update_subscriber d msisdn x)
  unfolding Repos.add_update_subscriber
  add_update_subscriber-Silent msisdn x =
      let clock = Silent-Gives d.now q.now_quiet in
      let ids = Silent-Gives d.new_object_id q.id_quiet in
      search
        (silent_rules, q.subscribers_silent, q.subscriber_insert_silent, q.subscriber_update_silent)
        depth 30

  progress_checked-Checked :
      (x : Details F) (brand : ObjectId) (r : Bool ⊎ Error)
      → Runs view
          (Requests.progress_checked d k x brand r)
          (λ c fs. Checked c (details_read true ∷ brand_read true ∷ entry_found r ++ fs))
  progress_checked-Checked x brand (inr e) = Runs-pure _ not_known
  progress_checked-Checked x brand (inl true) = Runs-pure _ in_progress
  progress_checked-Checked x brand (inl false) =
      Runs-attempt _ _ (add_update_subscriber-Silent k _) (λ r. Runs-pure _ refl)

  brand_checked-Checked :
      (x : Details F) (r : ObjectId ⊎ Error)
      → Runs view
          (Requests.brand_checked d k x r)
          (λ c fs. Checked c (details_read true ∷ brand_found r ++ fs))
  brand_checked-Checked x (inr e) = Runs-pure _ no_brand
  brand_checked-Checked x (inl brand) =
      Runs-reported _ _ progress-Reports (λ r. progress_checked-Checked x brand r)

  details_checked-Checked :
      (r : Details F ⊎ Error)
      → Runs view (Requests.details_checked d k r) (λ c fs. Checked c (details_reported r ++ fs))
  details_checked-Checked (inr e) = Runs-pure _ no_details
  details_checked-Checked (inl x) =
      Runs-reported _ _ (brand-Reports x.brand_type) (λ r. brand_checked-Checked x r)

  check-Checked : Runs view (Requests.transaction_in_progress_and_brand_check d k) Checked
  unfolding Requests.transaction_in_progress_and_brand_check
  check-Checked = Runs-reported _ _ details-Reports details_checked-Checked

  create_entry-Marks :
      (t : TransactionInProgress)
      → t.msisdn ≡ k
      → Marks view (Repos.create_transaction_in_progress_entry d t) (entry_made ∷ [])
  unfolding Repos.create_transaction_in_progress_entry
  create_entry-Marks t e =
      Marks-bind _ _ (Marks-restating _ _ (q.insert_shown t e)) (λ u. Silent-pure tt)

  new_entry-Gives :
      Gives view (Serializers.serialize_transaction_in_progress d k) (λ t. t.msisdn ≡ k)
  unfolding Serializers.serialize_transaction_in_progress
  new_entry-Gives =
      Gives-bind _ _ q.id_quiet (λ id t. Gives-bind _ _ q.now_quiet (λ now u. Gives-pure _ refl))

  going_on-Processed :
      (keyword client channel transaction : String) (score : F) (start : Time)
      (r : (Details F × ObjectId) ⊎ Stopped) (es : List Call)
      → Checked r es
      → Runs view
          (Requests.brand_and_progress_checked d keyword k client channel transaction score start r)
          (λ u fs. Processed (es ++ fs))
  going_on-Processed keyword client channel transaction score start (inr stop) es h =
      Runs-given _ _ (insert_failed_availment-Quiet q _ _ _ _ _ _ _ _ _) (λ i t.
        Runs-emitted _ _ (q.notify_shown _ _ _ _ _)
          (λ u. Runs-Gives _ (q.publish_quiet _ _ _) (λ v w. stopped stop.event es h)))
  going_on-Processed keyword client channel transaction score start (inl (x, brand)) es h = rw h (
      Runs-given _ _ new_entry-Gives (λ t e. Runs-called _ _ (create_entry-Marks t e) (λ v.
        Runs-last (λ y fs. Processed (clear ++ entry_made ∷ fs)) _ (λ y. tt)
          (Runs-attempted Answered _ (avail_loan_request-Answered _ q) (λ r fs a. answered r fs a))
          (λ y fs a. a))))

  -- Where the lookups of the details, the brand and the entry of the number, the insertion of its
  -- entry, its top-up, the deletion of its entry, which does not fail, and the messages to it show, and
  -- the other calls do not: `ProcessRequest` returns. The first lookup that stops it decides the one
  -- message that follows, and nothing else shows: details that are not given, a brand that is not
  -- there, an entry that is there or cannot be read. Otherwise it inserts the entry, and the calls
  -- that belong to a result of `AvailLoanRequest` follow.
  pub process_loan_request-Processed :
      (keyword client channel transaction : String) (score : F) (start : Time)
      → Runs view
          (Requests.process_loan_request d keyword k client channel transaction score start)
          (λ u es. Processed es)
  unfolding Requests.process_loan_request
  process_loan_request-Processed keyword client channel transaction score start =
      Runs-bind Checked _ _ check-Checked
        (λ r es h. going_on-Processed keyword client channel transaction score start r es h)
