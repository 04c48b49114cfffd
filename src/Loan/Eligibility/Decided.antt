-- ===== src/Loan/Eligibility/Decided.antt =====
-- `CheckEligibility` decides who may have a product.
use promo_collection.Prelude.{
  ◌≡◌, refl, subst, String, Bool, true, false, not, ◌&&◌, ◌||◌, Option, none, some, List,
  if◌then◌else◌,
}
use promo_collection.Runtime.{Go, Error, pure}
use promo_collection.Runtime.Guards.{checking}
use promo_collection.Runtime.Runs.{Gives, Gives-pure, Gives-bind}
use promo_collection.Runtime.Lookups.{Reads, holds, chained, Gives-deciding}
use promo_collection.Driver.{ObjectId}
use promo_collection.Loan.Schema.{Keyword, LoanProduct, Channels, Loans}
use promo_collection.Loan.Deps.{Deps}
use promo_collection.Loan.Checks
use promo_collection.Loan.Checks.{is_activated}
use promo_collection.Loan.Eligibility
use promo_collection.Loan.Eligibility.{is_valid_customer_type, is_valid_brand_type}
use promo_collection.Loan.Eligibility.MayHave.{
  Stored, is_there, product_of, is_listed, channel_of, is_on_channel, may_score, may_take, may_have,
  IsStored,
}
use promo_collection.Loan.Eligibility.Answers.{
  passed, loan_of, holds-activated, check_keyword-Reads, check_subscriber_blacklisting-Reads,
  check_channel-Reads, check_channel_mapped-Reads, check_brand_mapped-Reads,
  check_loan_product-Reads, check_whitelist-Reads, check_active_loan-Gives,
}

module _ {E S F B : Type 0} {d : Deps S F B} {db : Stored F} {view : S → List E}
    (q : IsStored d db view) where
  Gives-same :
      {a b : Bool} {m : Go S (Eligibility.Eligibility F)}
      → a ≡ b
      → Gives view m (λ x. x.is_eligible ≡ a)
      → Gives view m (λ x. x.is_eligible ≡ b)
  Gives-same {m} e k = subst (λ c. Gives view m (λ x. x.is_eligible ≡ c)) e k

  -- A check with nothing to return.
  Gives-passing :
      (stop : Error → Eligibility.Eligibility F) (m : Go S (Unit {0}))
      (f : Unit {0} → Go S (Eligibility.Eligibility F)) (b k : Bool)
      → Reads view m (passed b)
      → ((e : Error) → (stop e).is_eligible ≡ false)
      → Gives view (f tt) (λ x. x.is_eligible ≡ k)
      → Gives view (checking stop m f) (λ x. x.is_eligible ≡ b && k)
  Gives-passing stop m f true k km ks kf =
      Gives-deciding (λ c x. x.is_eligible ≡ c) stop m f (some tt) (λ u. k) km ks (λ u h. kf)
  Gives-passing stop m f false k km ks kf =
      Gives-deciding (λ c x. x.is_eligible ≡ c) stop m f none (λ u. k) km ks (λ u h. kf)

  Gives-refusing :
      (b k : Bool) (x : Eligibility.Eligibility F) (m : Go S (Eligibility.Eligibility F))
      → x.is_eligible ≡ false
      → Gives view m (λ y. y.is_eligible ≡ k)
      → Gives view (if not b then pure x else m) (λ y. y.is_eligible ≡ b && k)
  Gives-refusing true k x m h km = km
  Gives-refusing false k x m h km = Gives-pure x h

  scored-Gives :
      (scored enough : Bool) (x y : Eligibility.Eligibility F)
      → x.is_eligible ≡ true
      → y.is_eligible ≡ false
      → Gives view
          (if not scored then pure x else if not enough then pure y else pure x)
          (λ z. z.is_eligible ≡ (not scored || enough))
  scored-Gives false enough x y h k = Gives-pure x h
  scored-Gives true true x y h k = Gives-pure x h
  scored-Gives true false x y h k = Gives-pure y k

  module _ (brand : ObjectId) (customer brand_type : String) (score : F) where
    check_scored-Gives :
        (k : Keyword) (p : LoanProduct F) (loan : Checks.ActiveLoan)
        → Gives view
            (Eligibility.check_scored d brand customer brand_type score k p loan)
            (λ x. x.is_eligible ≡ may_score d db brand customer brand_type score k.product_id p)
    unfolding Eligibility.check_scored Checks.check_credit_score_eligibility
    check_scored-Gives k p loan = Gives-refusing _ _ _ _ refl (
        Gives-refusing _ _ _ _ refl (
          Gives-passing _ _ _ _ _ (check_brand_mapped-Reads q brand k.product_id) (λ e. refl)
            (scored-Gives p.is_scored_product _ _ _ refl refl)))

    channel_checked-Gives :
        (msisdn channel : String) (k : Keyword) (p : LoanProduct F) (loan : Checks.ActiveLoan)
        (o : Option Channels)
        → Reads view
            (Checks.check_if_channel_exists_and_active d channel)
            (chained o (λ c. some c.id) none)
        → Gives view
            (checking
              (Eligibility.refused k.name (some p) loan)
              (Checks.check_if_channel_exists_and_active d channel)
              (λ c.
                checking
                  (Eligibility.refused k.name (some p) loan)
                  (Checks.check_if_channel_and_product_mapped d c k.product_id)
                  (λ u. Eligibility.check_scored d brand customer brand_type score k p loan)))
            (λ x.
              x.is_eligible
              ≡ holds o (λ c.
                is_on_channel d db c.id k.product_id
                && may_score d db brand customer brand_type score k.product_id p))
    channel_checked-Gives msisdn channel k p loan none r =
        Gives-deciding (λ c x. x.is_eligible ≡ c) _ _ _ none (λ c. true) r (λ e. refl) (λ c h. cc)
    channel_checked-Gives msisdn channel k p loan (some c) r =
        Gives-deciding (λ c x. x.is_eligible ≡ c) _ _ _ (some c.id)
          (λ i.
            is_on_channel d db i k.product_id
            && may_score d db brand customer brand_type score k.product_id p)
          r (λ e. refl)
          (λ i h.
            Gives-passing _ _ _ _ _ (check_channel_mapped-Reads q i k.product_id) (λ e. refl)
              (check_scored-Gives k p loan))

    loan_checked-Gives :
        (msisdn channel : String) (k : Keyword) (p : LoanProduct F) (o : Option (Loans F))
        → Gives view
            (Eligibility.loan_checked d brand customer brand_type score msisdn channel k p
              (loan_of o)
              (loan_of o).error)
            (λ x. x.is_eligible ≡ (
              not (is_there o)
              && ((not p.has_whitelisting || is_listed d db msisdn p.product_id)
                  && holds (channel_of d db channel) (λ c.
                    is_on_channel d db c.id k.product_id
                    && may_score d db brand customer brand_type score k.product_id p))))
    loan_checked-Gives msisdn channel k p (some l) = Gives-pure _ refl
    loan_checked-Gives msisdn channel k p none =
        Gives-passing _ _ _ _ _ (check_whitelist-Reads q msisdn p) (λ e. refl)
          (channel_checked-Gives msisdn channel k p (loan_of {F = F} none) (channel_of d db channel)
            (check_channel-Reads q channel))

    check_product-Gives :
        (msisdn channel : String) (k : Keyword) (p : LoanProduct F)
        → Gives view
            (Eligibility.check_product d brand customer brand_type score msisdn channel k p)
            (λ x.
              x.is_eligible
              ≡ may_take d db msisdn channel k.product_id
                  (may_score d db brand customer brand_type score k.product_id)
                  p)
    unfolding Eligibility.check_product
    check_product-Gives msisdn channel k p =
        Gives-bind _ _ (check_active_loan-Gives q msisdn)
          (λ l e. rw e (loan_checked-Gives msisdn channel k p _))

    product_checked-Gives :
        (msisdn channel : String) (k : Keyword) (stop : Error → Eligibility.Eligibility F)
        (o : Option (LoanProduct F))
        → ((e : Error) → (stop e).is_eligible ≡ false)
        → Reads view
            (Checks.check_loan_product d k.product_id)
            (chained o (λ p. if is_activated db.time p then some p else none) none)
        → Gives view
            (checking stop
              (Checks.check_loan_product d k.product_id)
              (λ p. Eligibility.check_product d brand customer brand_type score msisdn channel k p))
            (λ x.
              x.is_eligible
              ≡ holds o (λ p.
                is_activated db.time p
                && may_take d db msisdn channel k.product_id
                    (may_score d db brand customer brand_type score k.product_id)
                    p))
    product_checked-Gives msisdn channel k stop o ks r =
        Gives-same (holds-activated o (is_activated db.time) _) (
          Gives-deciding (λ c x. x.is_eligible ≡ c) stop _ _ _ _ r ks
            (λ p h. check_product-Gives msisdn channel k p))

    -- Where lookups find what is stored and do not fail: `CheckEligibility` returns and changes
    -- nothing, and says that the subscriber is eligible exactly if `may_have` holds of the documents.
    pub check_eligibility-decides :
        (msisdn keyword channel : String)
        → Gives view
            (Eligibility.check_eligibility d brand customer brand_type score msisdn keyword channel)
            (λ x.
              x.is_eligible ≡ may_have d db brand customer brand_type score msisdn keyword channel)
    unfolding Eligibility.check_eligibility
    check_eligibility-decides msisdn keyword channel =
        Gives-deciding (λ c x. x.is_eligible ≡ c) _ _ _ _ _ (check_keyword-Reads q keyword)
          (λ e. refl)
          (λ k h.
            Gives-passing _ _ _ _ _ (check_subscriber_blacklisting-Reads q msisdn) (λ e. refl)
              (product_checked-Gives msisdn channel k _ (product_of d db k.product_id) (λ e. refl)
                (check_loan_product-Reads q k.product_id)))
