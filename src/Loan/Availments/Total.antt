-- ===== src/Loan/Availments/Total.antt =====
-- Storing an availment always returns, and shows nothing but the release of the entry.
use promo_collection.Prelude.{String, Bool, List, [], ◌∷◌, Option, none, some, ℤ}
use promo_collection.Runtime.{pure}
use promo_collection.Runtime.Runs.{
  Silent-bind, Silent-or_fail, Silent-restating, Silent, Runs, Marks, Silent-Gives, silent_rules,
  Gives-pure, Gives-if, Gives-bind, Gives-handle, Gives-attempt,
}
use promo_collection.Runtime.Runs.Calls.{
  Marks-restating, Marks-Emits, Runs-bind, Runs-pure, Runs-given, Runs-handle, Runs-attempt,
}
use promo_collection.Driver.{ObjectId}
use promo_collection.Loan.Schema.{LoanProduct, Availments, Loans, UnpaidLoans, SystemLevelRules}
use promo_collection.Loan.Deps.{Deps}
use promo_collection.Loan.Laws.{Call, released, Quiet, Shows}
use promo_collection.Loan.Releases.{
  OnlyReleases, OnlyReleases-nil, Releases, Releases-Silent, Releases-Marks, Releases-bind,
  Releases-handle, Runs-Releases,
}
use promo_collection.Loan.Repos
use promo_collection.Loan.Serializers
use promo_collection.Loan.Availments

module _ {S F B : Type 0} {d : Deps S F B} {k : String} {view : S → List Call}
    (q : Shows d k view) where
  serialize_availments-Quiet :
      (msisdn channel brand loan_type : String) (product : ObjectId) (keyword partner : String)
      (total fee : F) (client text code : String) (result : Bool) (score : F) (name : String)
      → Quiet view (
          Serializers.serialize_availments d msisdn channel brand loan_type product keyword partner
            total fee client text code result score name)
  unfolding Serializers.serialize_availments
  serialize_availments-Quiet msisdn channel brand loan_type product keyword partner total fee client
        text code result score name =
      let clock = q.now_quiet in
      let ids = q.id_quiet in let guids = q.guid_quiet in search (Gives-bind, Gives-pure) depth 20

  servicing_partner-Silent :
      (product : ObjectId) → Silent view (Repos.servicing_partner_by_product_id d product)
  unfolding Repos.servicing_partner_by_product_id
  servicing_partner-Silent product = search (silent_rules, q.partner_silent) depth 20

  insert_availment-Silent : (a : Availments F) → Silent view (Repos.insert_availment d a)
  unfolding Repos.insert_availment
  insert_availment-Silent a = search (silent_rules, q.availment_insert_silent) depth 20

  failed_writes-Silent :
      (a : Availments F)
      → Silent view (Availments.with_session d (Repos.insert_availment d a) (pure tt))
  unfolding Availments.with_session
  failed_writes-Silent a =
      let a1 = q.start_session_silent in
      let a2 = q.start_transaction_silent in
      let a3 = q.abort_silent in
      let a4 = q.commit_silent in search (silent_rules, insert_availment-Silent) depth 20

  priced-Quiet :
      (keyword : String) (p : Option (LoanProduct F)) → Quiet view (Availments.priced d keyword p)
  priced-Quiet keyword none =
      search (Gives-handle, Gives-attempt, Gives-pure, tt, q.keywords_silent, q.products_silent)
        depth 20
  priced-Quiet keyword (some p) = Gives-pure _ tt

  serialize_failed-Quiet :
      (msisdn keyword channel client text code : String) (score : F) (p : Option (LoanProduct F))
      (brand : String)
      → Quiet view
          (Availments.serialize_failed d msisdn keyword channel client text code score p brand)
  serialize_failed-Quiet msisdn keyword channel client text code score p brand =
      Gives-if _ _ _
        (Gives-bind _ _ (serialize_availments-Quiet _ _ _ _ _ _ _ _ _ _ _ _ _ _ _)
          (λ a t. Gives-pure _ tt))
        (Gives-bind _ _ (priced-Quiet keyword p) (λ x t.
          Gives-attempt _ _ (servicing_partner-Silent x.product_id) (λ partner.
            Gives-bind _ _ (serialize_availments-Quiet _ _ _ _ _ _ _ _ _ _ _ _ _ _ _)
              (λ a u. Gives-pure _ tt))))

  -- Whatever goes wrong, there is an answer, and nothing shows.
  pub insert_failed_availment-Quiet :
      (msisdn keyword channel client text code : String) (score : F) (p : Option (LoanProduct F))
      (brand : String)
      → Quiet view (
          Availments.insert_failed_availment d msisdn keyword channel client text code score p
            brand)
  unfolding Availments.insert_failed_availment
  insert_failed_availment-Quiet msisdn keyword channel client text code score p brand =
      Gives-bind _ _ (serialize_failed-Quiet _ _ _ _ _ _ _ _ _)
        (λ x t. Gives-attempt _ _ (failed_writes-Silent x.0) (λ r. Gives-pure _ tt))

  pub delete_in_progress-Marks :
      Marks view (Repos.delete_transaction_in_progress_by_msisdn d k) (released ∷ [])
  unfolding Repos.delete_transaction_in_progress_by_msisdn
  delete_in_progress-Marks = Marks-restating _ _ (Marks-Emits _ q.delete_shown)

  successful_writes-Releases :
      (a : Availments F) (l : Loans F) (u : UnpaidLoans F)
      → Releases view (Availments.successful_writes d k a l u)
  unfolding Availments.successful_writes
  successful_writes-Releases a l u =
      let w1 = q.loan_insert_silent in
      let w2 = q.unpaid_insert_silent in
      search
        (
          Releases-bind, Releases-Silent, insert_availment-Silent, Silent-restating, w1, w2,
          Releases-Marks, delete_in_progress-Marks,
        )
        depth 20

  save_skip_timestamps-Silent :
      (msisdn : String) (l : Loans F) → Silent view (Availments.save_skip_timestamps d msisdn l)
  unfolding Availments.save_skip_timestamps
  save_skip_timestamps-Silent msisdn l =
      Silent-bind _ _ (Silent-Gives d.now q.now_quiet)
        (λ now. Silent-bind _ _ (Silent-or_fail _ _) (λ b. q.redis_silent _ _ _))

  session-Releases :
      (a : Availments F) (l : Loans F) (u : UnpaidLoans F)
      → Releases view (
          Availments.with_session d
            (Availments.successful_writes d k a l u)
            (Availments.save_skip_timestamps d k l))
  unfolding Availments.with_session
  session-Releases a l u =
      let a1 = q.start_session_silent in
      let a2 = q.start_transaction_silent in
      let a3 = q.abort_silent in
      let a4 = q.commit_silent in
      search
        (
          Releases-bind, Releases-handle, Releases-Silent, silent_rules, successful_writes-Releases,
          save_skip_timestamps-Silent,
        )
        depth 20

  calculate_timestamp-Quiet : (days : ℤ) → Quiet view (Serializers.calculate_timestamp d days)
  unfolding Serializers.calculate_timestamp
  calculate_timestamp-Quiet days = Gives-bind _ _ q.now_quiet (λ now t. Gives-pure _ tt)

  load_timestamp-Quiet :
      (p : LoanProduct F) (rules : SystemLevelRules F)
      → Quiet view (Serializers.load_timestamp d p rules)
  load_timestamp-Quiet p rules =
      Gives-if _ _ _ (calculate_timestamp-Quiet rules.loan_load_period)
        (Gives-bind _ _ q.now_quiet (λ now t. Gives-pure _ tt))

  serialize_loans-Quiet :
      (msisdn : String) (total : F) (guid : String) (fee : F) (p : LoanProduct F)
      (brand availment : ObjectId) (rules : SystemLevelRules F)
      → Quiet view (Serializers.serialize_loans d msisdn total guid fee p brand availment rules)
  unfolding Serializers.serialize_loans
  serialize_loans-Quiet msisdn total guid fee p brand availment rules =
      Gives-bind _ _ (load_timestamp-Quiet p rules) (λ load t. Gives-bind _ _ q.id_quiet (λ id u.
        Gives-bind _ _ q.now_quiet
          (λ now v. Gives-bind _ _ (calculate_timestamp-Quiet _) (λ e w. Gives-pure _ tt))))

  serialize_unpaid_loans-Quiet :
      (loan : ObjectId) (total fee : F)
      → Quiet view (Serializers.serialize_unpaid_loans d loan total fee)
  unfolding Serializers.serialize_unpaid_loans
  serialize_unpaid_loans-Quiet loan total fee =
      Gives-bind _ _ q.id_quiet (λ id t. Gives-bind _ _ q.now_quiet (λ now u. Gives-pure _ tt))

  loan_documents-Quiet :
      (msisdn : String) (p : LoanProduct F) (keyword channel client : String) (score : F)
      (brand : String) (brand_id : ObjectId) (partner : String) (rules : SystemLevelRules F)
      → Quiet view (
          Availments.loan_documents d msisdn p keyword channel client score brand brand_id partner
            rules)
  loan_documents-Quiet msisdn p keyword channel client score brand brand_id partner rules =
      Gives-bind _ _ (serialize_availments-Quiet _ _ _ _ _ _ _ _ _ _ _ _ _ _ _) (λ a t.
        Gives-bind _ _ (serialize_loans-Quiet _ _ _ _ _ _ _ _)
          (λ l u. Gives-bind _ _ (serialize_unpaid_loans-Quiet _ _ _) (λ x v. Gives-pure _ tt)))

  -- Storing a loan always returns, and may release the entry.
  pub insert_successful_availment-Runs :
      (p : LoanProduct F) (keyword channel client : String) (score : F) (brand : String)
      (brand_id : ObjectId)
      → Runs view
          (Availments.insert_successful_availment d k p keyword channel client score brand brand_id)
          (λ i es. OnlyReleases es)
  unfolding Availments.insert_successful_availment
  insert_successful_availment-Runs p keyword channel client score brand brand_id =
      Runs-attempt _ _ (servicing_partner-Silent p.product_id) (λ partner.
        Runs-handle _ _ (q.rules_silent _)
          (λ rules. Runs-given _ _ (loan_documents-Quiet _ _ _ _ _ _ _ _ _ _) (λ x t.
            Runs-bind (λ r es. OnlyReleases es) _ _ (Runs-Releases _ (session-Releases x.0 x.1 x.2))
              (λ r es h. Runs-pure _ (OnlyReleases-nil es h))))
          (λ e. Runs-pure _ tt))
